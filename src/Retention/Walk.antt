-- ===== src/Retention/Walk.antt =====
-- The walk of one tree: walkTree and retentionFixtureRepo (plugins/retention.go).
--
-- filepath.WalkDir visits the entries in an order of their names and stops at the first error, so a
-- tree is the list of its visits. What a visit reads from the file system stands in the visit.
pub mod Stale
use tinyland_cleanup.Prelude.{
  Bool, List, Option, String, [], codes, codes_prefix, false, has_prefix, if◌then◌else◌,
  is_positive, join, lines, ltb, ltb_ℤ, neg_part, none, not, pos, pos_part, some, str_eq, texts,
  to_lower, trim_space, true, ℕ, ℤ, ◌&&◌, ◌*◌, ◌+◌, ◌-ℤ◌, ◌==◌, ◌||◌, ◌∷◌,
}
use tinyland_cleanup.Retention.{FileInfo, effective_mod_time, is_future, name_matches}
use tinyland_cleanup.Clock.{Time, add_int64, int64}

-- the files that tell about a .git directory
pub record GitFiles : Type 0 where
  pub config : Option String  -- none: unreadable
  pub has_commondir : Bool
  pub has_worktrees : Bool

pub record Visit : Type 0 where
  pub walk_error : Option String
  pub cancelled : Option String  -- ctx.Err()
  pub name : String
  pub above : List String  -- the path elements from the tree to the entry's directory
  pub is_root : Bool  -- the entry is the tree itself
  pub is_dir : Bool
  pub is_symlink : Bool
  pub is_regular : Bool
  pub is_session_dir : Bool  -- isAgentSessionDir
  pub git : GitFiles
  pub info : Option FileInfo  -- none: d.Info() failed

-- whether some element but the last one matches a glob
unfoldable pub is_below : List String → List String → Bool
is_below [] globs = false
is_below (e ∷ []) globs = false
is_below (e ∷ f ∷ es) globs = name_matches e globs || is_below (f ∷ es) globs

config_line : List ℕ → Option String
config_line line =
    let l = to_lower (trim_space line) in
    if codes_prefix (codes "[remote") l
    then some "a remote is configured"
    else if codes_prefix (codes "[include") l
    then some "config includes another file"
    else none

config_reason : List (List ℕ) → Option String
config_reason [] = none
config_reason (line ∷ more) = elim (config_line line) [
  | some why ↦ some why
  | none ↦ config_reason more
]

-- retentionFixtureRepo once the config is read
links_reason : GitFiles → Option String
links_reason git =
    if git.has_commondir
    then some "linked work tree (commondir)"
    else if git.has_worktrees
    then some "has linked work trees"
    else none

read_reason : GitFiles → Option String
unfolding config_reason config_line links_reason
read_reason git = elim git.config [
  | none ↦ some "config unreadable"
  | some raw ↦ elim (config_reason (lines raw)) [ some why ↦ some why | none ↦ links_reason git ]
]

-- filepath.Rel(tree, dir) is "." or begins with ".."
at_tree_root : List String → Bool
at_tree_root [] = true
at_tree_root (e ∷ es) = has_prefix e ".."

is_empty_list {ℓ} : {A : Type ℓ} → List A → Bool
is_empty_list [] = true
is_empty_list (x ∷ xs) = false

-- retentionFixtureRepo: none for a fixture repository, else the reason to keep
unfoldable pub fixture_repo : Visit → List String → Option String
unfolding read_reason at_tree_root is_empty_list
fixture_repo v parents =
    if is_empty_list parents
    then some "fixture repositories are not allowed"
    else if not v.is_dir || v.is_symlink
    then some ".git is not a directory"
    else if at_tree_root v.above
    then some "repository at the tree root"
    else if not (is_below v.above parents)
    then some (texts ("not under a fixture parent " ∷ join ", " parents ∷ []))
    else read_reason v.git

-- retentionTreeStats
pub record TreeStats : Type 0 where
  pub newest : Time
  pub allocated : ℤ  -- int64
  pub apparent : ℤ  -- int64
  pub entries : ℕ
  pub fixture_repos : ℕ

abbrev pub no_stats : TreeStats
no_stats = record {
  newest = 0;
  allocated = pos 0;
  apparent = pos 0;
  entries = 0;
  fixture_repos = 0;
}

-- What the rules compare a visit with.
pub record WalkBounds : Type 0 where
  pub dev : ℕ
  pub uid : ℕ
  pub limit : ℤ  -- int
  pub fixture_parents : List String
  pub now : Time

-- int64(blocks) * 512
abbrev pub block_bytes : FileInfo → ℤ
block_bytes info = int64 (
    if is_positive info.blocks
    then pos (pos_part info.blocks * 512)
    else pos 0 -ℤ pos (neg_part info.blocks * 512))

-- stats.newest after a change time that is not in the future
unfoldable pub newest_change : Time → FileInfo → Time → Time
newest_change now info newest = elim info.change_time [
  | none ↦ newest
  | some t ↦ if not (is_future now t) && ltb newest t then t else newest
]

unfoldable pub newest_of : Time → FileInfo → Time → Time
unfolding newest_change
newest_of now info newest =
    newest_change now info
      (if ltb newest (effective_mod_time info now) then effective_mod_time info now else newest)

-- the visit's part that measures
unfoldable pub measure : WalkBounds → Visit → FileInfo → TreeStats → TreeStats
measure b v info s = record s {
  newest = newest_of b.now info s.newest;
  allocated = add_int64 s.allocated (block_bytes info);
  apparent = add_int64 s.apparent (if v.is_regular then info.size else block_bytes info);
}

unfoldable pub measure_found :
    WalkBounds → Visit → TreeStats → Option FileInfo → TreeStats × Option String
measure_found b v s none = (s, some "entry information unreadable")
measure_found b v s (some info) =
    if not info.is_known || not (info.dev == b.dev) || not (info.uid == b.uid)
    then (s, some "foreign owner, mount or unknown identity inside")
    else (measure b v info s, none)

abbrev pub is_inner_session : Visit → Bool
is_inner_session v = not v.is_root && v.is_dir && v.is_session_dir

unfoldable pub measure_visit : WalkBounds → Visit → TreeStats → TreeStats × Option String
measure_visit b v s =
    if is_inner_session v
    then (s, some (texts ("contains agent-session directory " ∷ v.name ∷ " (TIN-5268)" ∷ [])))
    else measure_found b v s v.info

-- the visit of a .git, by what retentionFixtureRepo says, and what follows it
unfoldable pub git_visit :
    WalkBounds → Visit → TreeStats → Option String → TreeStats × Option String
git_visit b v s (some why) =
    (s, some (texts ("contains a Git repository (.git): Git custody (" ∷ why ∷ ")" ∷ [])))
git_visit b v s none = measure_visit b v (record s { fixture_repos = s.fixture_repos + 1 })

unfoldable pub bounded_visit : WalkBounds → Visit → TreeStats → TreeStats × Option String
bounded_visit b v s =
    if is_positive b.limit && ltb_ℤ b.limit (pos s.entries)
    then (s, some "walk bound exceeded")
    else if str_eq v.name ".git"
    then git_visit b v s (fixture_repo v b.fixture_parents)
    else measure_visit b v s

-- the function that WalkDir calls, by the error that it is given and by ctx.Err()
unfoldable pub visit_after :
    WalkBounds → Visit → TreeStats → Option String → Option String → TreeStats × Option String
visit_after b v s (some e) cancelled = (s, some e)
visit_after b v s none (some e) = (s, some e)
visit_after b v s none none = bounded_visit b v (record s { entries = s.entries + 1 })

unfoldable pub visit : WalkBounds → Visit → TreeStats → TreeStats × Option String
visit b v s = visit_after b v s v.walk_error v.cancelled

-- the end of the walk at an error
unfoldable pub stop_or :
    TreeStats × Option String → TreeStats × Option String → TreeStats × Option String
stop_or (s, none) rest = rest
stop_or (s, some e) rest = (s, some (texts ("kept: " ∷ e ∷ [])))

unfoldable pub walk_visits : WalkBounds → List Visit → TreeStats → TreeStats × Option String
walk_visits b [] s = (s, none)
walk_visits b (v ∷ vs) s = stop_or (visit b v s) (walk_visits b vs (visit b v s).0)

unfoldable pub walk_tree : WalkBounds → List Visit → TreeStats × Option String
walk_tree b vs = walk_visits b vs no_stats
