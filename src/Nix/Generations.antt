-- ===== src/Nix/Generations.antt =====
-- Which profile generations the nix plugin deletes: nixGenerationTargetsWithMax (plugins/nix.go).
--
-- The number of a generation is not negative. Two generations with the same time and number stand in
-- any order.
pub mod Minimum
pub mod Deleted
use tinyland_cleanup.Prelude.{
  codes_before, sort_by, Bool, List, Option, String, [], codes, false, if◌then◌else◌, is_positive,
  leb, length, ltb, map, none, not, pos, pos_part, some, str_eq, texts, true, ℕ, ℤ, ◌&&◌, ◌+◌, ◌==◌,
  ◌||◌, ◌∷◌,
}
use tinyland_cleanup.Records.{CleanupResult, no_result}
use tinyland_cleanup.Accounting.{
  CleanupTarget, annotate_target, no_target, reclaim_deferred, reclaim_none,
}
use tinyland_cleanup.Level.{
  Level, level_aggressive, level_critical, level_moderate, level_none, level_warning,
}
use tinyland_cleanup.Clock.{Duration, Time}
use tinyland_cleanup.Nix.{PolicyText, empty_policy, parse_nix_policy_duration}

pub record Generation : Type 0 where
  pub number : ℕ
  pub created_at : Time
  pub is_current : Bool
  pub scope : String
  pub profile : String

-- newest first
abbrev pub is_newer : Generation → Generation → Bool
is_newer g h =
    if g.created_at == h.created_at then ltb h.number g.number else ltb h.created_at g.created_at

abbrev pub mem_number : ℕ → List ℕ → Bool
mem_number n [] = false
mem_number n (m ∷ ms) = n == m || mem_number n ms

-- protectNewestIncludingCurrent: the current generations
unfoldable pub protect_current : List Generation → List ℕ → List ℕ
protect_current [] kept = kept
protect_current (g ∷ gs) kept =
    protect_current gs
      (if g.is_current && not (mem_number g.number kept) then g.number ∷ kept else kept)

-- and the newest others up to the limit
unfoldable pub protect_newest : ℕ → List Generation → List ℕ → List ℕ
protect_newest limit [] kept = kept
protect_newest limit (g ∷ gs) kept =
    let next =
      protect_newest limit gs (if mem_number g.number kept then kept else g.number ∷ kept) in
    if leb limit (length kept) then kept else next

unfoldable pub protected_numbers : ℕ → List Generation → List ℕ
protected_numbers limit gs = protect_newest limit gs (protect_current gs [])

abbrev pub min_kept : ℤ → ℕ
min_kept min_keep = if is_positive min_keep then pos_part min_keep else 1

-- the generations that the maximum protects, if there is one
unfoldable pub protected_by_maximum : ℤ → ℤ → List Generation → Option (List ℕ)
protected_by_maximum min_keep max_keep gs =
    if is_positive max_keep
    then some (
        protected_numbers
          (if ltb (pos_part max_keep) (min_kept min_keep)
            then min_kept min_keep
            else pos_part max_keep)
          gs)
    else none

-- What is fixed while the generations are judged.
pub record Retained : Type 0 where
  pub by_minimum : List ℕ
  pub by_maximum : Option (List ℕ)
  pub older_than : Duration
  pub now : Time

abbrev pub exceeds_maximum : Retained → ℕ → Bool
exceeds_maximum r n = elim r.by_maximum [ none ↦ false | some kept ↦ not (mem_number n kept) ]

-- generation.CreatedAt.After(now.Add(-olderThan)), for a positive age
abbrev pub is_young : Retained → Generation → Bool
is_young r g = ltb r.now (g.created_at + pos_part r.older_than)

abbrev pub delete_generation : String
delete_generation = "delete_generation"

-- the action and the reason
unfoldable pub verdict : Retained → Generation → String × String
verdict r g =
    if g.is_current
    then ("keep_generation", "current profile generation")
    else if mem_number g.number r.by_minimum
    then ("keep_generation", texts ("within minimum retained " ∷ g.scope ∷ " generations" ∷ []))
    else if exceeds_maximum r g.number
    then (
      delete_generation, "exceeds configured maximum generation count and outside retained minimum",
    )
    else if is_positive r.older_than && is_young r g
    then ("keep_generation", "younger than configured generation age")
    else if is_positive r.older_than
    then (delete_generation, "older than configured generation age and outside retained minimum")
    else ("keep_generation", "within generation retention policy")

unfoldable pub name_before : CleanupTarget → CleanupTarget → Bool
name_before t u = codes_before (codes t.name) (codes u.name)

-- What the plugin's configuration and the printer of numbers fix.
pub record GenerationPolicy : Type 0 where
  pub number_text : ℕ → String  -- strconv.Itoa
  pub min_keep : ℤ  -- int
  pub max_keep : ℤ  -- int
  pub older_than : Duration

unfoldable pub generation_target : GenerationPolicy → Retained → Generation → CleanupTarget
generation_target p r g =
    let (action, reason) = verdict r g in
    annotate_target
      (record no_target {
        kind = "nix_generation";
        name = texts (
            (if str_eq g.scope "" then "profile" else g.scope)
            ∷ " generation "
            ∷ p.number_text g.number
            ∷ []);
        version = p.number_text g.number;
        path = g.profile;
        protected = not (str_eq action delete_generation);
        action = action;
        reason = reason;
      })
      "warm" (if str_eq action delete_generation then reclaim_deferred else reclaim_none)

abbrev pub retained : GenerationPolicy → List Generation → Time → Retained
retained p sorted now = record {
  by_minimum = protected_numbers (min_kept p.min_keep) sorted;
  by_maximum = protected_by_maximum p.min_keep p.max_keep sorted;
  older_than = p.older_than;
  now = now;
}

-- nixGenerationTargetsWithMax
unfoldable pub generation_targets : GenerationPolicy → List Generation → Time → List CleanupTarget
generation_targets p gs now =
    let sorted = sort_by is_newer gs in
    sort_by name_before (map (generation_target p (retained p sorted now)) sorted)

unfoldable pub deleted_versions : List CleanupTarget → List String
deleted_versions [] = []
deleted_versions (t ∷ ts) =
    let rest = deleted_versions ts in
    if str_eq t.action delete_generation then t.version ∷ rest else rest
