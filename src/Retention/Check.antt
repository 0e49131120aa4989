-- ===== src/Retention/Check.antt =====
-- The check of the retention section: RetentionConfig.Validate (config/retention.go). An error is the
-- key that it is about.
pub mod Ages
use tinyland_cleanup.Prelude.{
  Bool, List, Option, String, [], codes, codes_eq, false, if◌then◌else◌, is_glob, ltb_ℤ, none, not,
  pos, some, str_eq, true, ℕ, ℤ, ◌&&◌, ◌*◌, ◌+◌, ◌-◌, ◌==◌, ◌||◌, ◌∷◌,
}
use tinyland_cleanup.Retention.Decide.{cargo_targets, tmp_agents}
use tinyland_cleanup.Retention.{CargoTargetsConfig, RetentionConfig, TmpAgentsConfig}
use tinyland_cleanup.Clock.{DurationText, bad_text, hour, no_text, text_of}

split_elements : List ℕ → List ℕ × List (List ℕ)
split_elements [] = ([], [])
split_elements (c ∷ s) =
    let rest = split_elements s in if c == b'/' then ([], rest.0 ∷ rest.1) else (c ∷ rest.0, rest.1)

-- how many elements are left when "." and ".." of a rooted path are resolved
depth_of : ℕ → List (List ℕ) → ℕ
depth_of n [] = n
depth_of n (e ∷ es) =
    depth_of
      (if codes_eq e [] || codes_eq e (b'.' ∷ [])
        then n
        else if codes_eq e (b'.' ∷ b'.' ∷ [])
        then n - 1
        else n + 1)
      es

is_abs : List ℕ → Bool
is_abs [] = false
is_abs (c ∷ s) = c == b'/'

-- filepath.Clean(r) == "/", for an absolute path
is_root_path : List ℕ → Bool
unfolding depth_of split_elements
is_root_path r = depth_of 0 ((split_elements r).0 ∷ (split_elements r).1) == 0

is_home_path : List ℕ → Bool
is_home_path [] = false
is_home_path (c ∷ s) = c == b'~'

is_valid_root : String → Bool
unfolding is_home_path is_abs is_root_path
is_valid_root r =
    not (str_eq r "")
    && (is_home_path (codes r) || (is_abs (codes r) && not (is_root_path (codes r))))

unfoldable pub validate_roots : String → List String → Option String
unfolding is_valid_root
validate_roots key [] = none
validate_roots key (r ∷ rs) = if is_valid_root r then validate_roots key rs else some key

unfoldable pub validate_age : String → DurationText → ℕ → Option String
validate_age key no_text floor = some key
validate_age key bad_text floor = some key
validate_age key (text_of d) floor = if ltb_ℤ d (pos floor) then some key else none

is_usable_glob : String → Bool
is_usable_glob g = is_glob g && not (str_eq g "") && not (str_eq g "*")

unfoldable pub validate_globs : String → List String → Option String
unfolding is_usable_glob
validate_globs key [] = none
validate_globs key (g ∷ gs) = if is_usable_glob g then validate_globs key gs else some key

has_slash : List ℕ → Bool
has_slash [] = false
has_slash (c ∷ s) = c == b'/' || has_slash s

unfoldable pub validate_parents : String → List String → Option String
unfolding is_usable_glob has_slash
validate_parents key [] = none
validate_parents key (g ∷ gs) =
    if is_usable_glob g && not (has_slash (codes g)) then validate_parents key gs else some key

-- the first error of some checks in a row
unfoldable pub first_error : List (Option String) → Option String
first_error [] = none
first_error (some e ∷ more) = some e
first_error (none ∷ more) = first_error more

abbrev error_if : Bool → String → Option String
error_if b key = if b then some key else none

abbrev is_negative : ℤ → Bool
is_negative n = ltb_ℤ n (pos 0)

is_empty_names : List String → Bool
is_empty_names [] = true
is_empty_names (g ∷ gs) = false

unfoldable pub validate_tmp_agents : TmpAgentsConfig → Option String
unfolding is_empty_names
validate_tmp_agents c = first_error (
    validate_roots "retention.tmp_agents.roots" c.roots
    ∷ error_if (is_empty_names c.name_globs) "retention.tmp_agents.name_globs"
    ∷ validate_globs "retention.tmp_agents.name_globs" c.name_globs
    ∷ validate_age "retention.tmp_agents.max_age" c.max_age hour
    ∷ validate_parents "retention.tmp_agents.fixture_repo_parents" c.fixture_repo_parents
    ∷ error_if (is_negative c.max_dirs_per_cycle || is_negative c.max_entries_per_dir)
        "retention.tmp_agents bounds"
    ∷ [])

unfoldable pub validate_cargo_targets : CargoTargetsConfig → Option String
validate_cargo_targets c = first_error (
    validate_roots "retention.cargo_targets.roots" c.roots
    ∷ validate_age "retention.cargo_targets.max_age" c.max_age (24 * hour)
    ∷ error_if (is_negative c.max_depth || is_negative c.max_entries_per_target)
        "retention.cargo_targets bounds"
    ∷ [])

abbrev bad_interval : DurationText → Bool
bad_interval no_text = false
bad_interval bad_text = true
bad_interval (text_of d) = false

-- RetentionConfig.Validate; `floor_is_negative` is FreeSpaceFloor.FloorGiB < 0
unfoldable pub validate_retention : RetentionConfig → Bool → Option String
validate_retention c floor_is_negative = first_error (
    error_if (bad_interval c.interval) "retention.interval"
    ∷ (if c.tmp_agents.enabled then validate_tmp_agents c.tmp_agents else none)
    ∷ (if c.cargo_targets.enabled then validate_cargo_targets c.cargo_targets else none)
    ∷ error_if floor_is_negative "retention.free_space_floor.floor_gib"
    ∷ [])
