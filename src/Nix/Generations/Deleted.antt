-- ===== src/Nix/Generations/Deleted.antt =====
-- The deletion of user and Home Manager generations by policy (plugins/nix.go).
--
-- Listing generations and deleting them are operations on a world, and the text of an error is what
-- the operation returns.
pub mod Allowed
-- the part of config.NixConfig that the deletions read
use tinyland_cleanup.Nix.Generations.{
  Generation, GenerationPolicy, deleted_versions, generation_targets,
}
use tinyland_cleanup.Prelude.{
  Bool, List, Option, String, [], if◌then◌else◌, is_positive, length, none, not, pos, some, ℕ, ℤ,
  ◌&&◌, ◌∷◌,
}
use tinyland_cleanup.Records.{CleanupResult, no_result}
use tinyland_cleanup.Level.{
  Level, level_aggressive, level_critical, level_moderate, level_none, level_warning,
}
use tinyland_cleanup.Clock.{Time}
use tinyland_cleanup.Nix.{PolicyText, empty_policy, parse_nix_policy_duration}

pub record GenerationConfig : Type 0 where
  pub delete_generations_older_than : PolicyText
  pub critical_delete_generations_older_than : PolicyText
  pub home_delete_generations_older_than : PolicyText
  pub home_critical_delete_generations_older_than : PolicyText
  pub min_user_generations : ℤ  -- int
  pub max_user_generations : ℤ  -- int
  pub min_home_generations : ℤ  -- int
  pub max_home_generations : ℤ  -- int
  pub delete_home_generations : Bool
  pub skip_when_daemon_busy : Bool

-- nixGenerationPolicyAge
unfoldable pub policy_age : Level → GenerationConfig → PolicyText
policy_age level_none cfg = empty_policy
policy_age level_warning cfg = empty_policy
policy_age level_moderate cfg = cfg.delete_generations_older_than
policy_age level_aggressive cfg = cfg.delete_generations_older_than
policy_age level_critical cfg = cfg.critical_delete_generations_older_than

abbrev or_else : PolicyText → PolicyText → PolicyText
or_else empty_policy other = other
or_else p other = p

-- nixHomeManagerGenerationPolicyAge
unfoldable pub home_policy_age : Level → GenerationConfig → PolicyText
home_policy_age level_none cfg = policy_age level_none cfg
home_policy_age level_warning cfg = policy_age level_warning cfg
home_policy_age level_moderate cfg =
    or_else cfg.home_delete_generations_older_than (policy_age level_moderate cfg)
home_policy_age level_aggressive cfg =
    or_else cfg.home_delete_generations_older_than (policy_age level_aggressive cfg)
home_policy_age level_critical cfg =
    or_else cfg.home_critical_delete_generations_older_than (policy_age level_critical cfg)

-- nixMinHomeManagerGenerations
unfoldable pub min_home_manager_generations : GenerationConfig → ℤ
min_home_manager_generations cfg =
    if is_positive cfg.min_home_generations
    then cfg.min_home_generations
    else cfg.min_user_generations

-- nix-env or home-manager: `list` gives none on an error, `delete` an error with whether its output
-- tells of contention
pub record GenerationEnv (W : Type 0) : Type 0 where
  pub has_command : W → Bool
  pub list : W → W × Option (List Generation)
  pub now : W → Time
  pub delete : List String → W → W × Option (String × Bool)

module _ {W : Type 0} (env : GenerationEnv W) (cfg : GenerationConfig) where
  unfoldable pub delete_versions : List String → W → W × CleanupResult
  delete_versions [] w = (w, no_result)
  delete_versions (v ∷ vs) w =
      let (w1, outcome) = env.delete (v ∷ vs) w in
      (
        w1,
        elim outcome [
          | none ↦ record no_result { items_cleaned = length (v ∷ vs) }
          | some (e, contention) ↦
              if contention && cfg.skip_when_daemon_busy
              then no_result
              else record no_result { error = some e }
        ],
      )

  unfoldable pub delete_listed : GenerationPolicy → Option (List Generation) → W → W × CleanupResult
  delete_listed p none w = (w, no_result)
  delete_listed p (some gs) w =
      if not (is_positive p.older_than) && not (is_positive p.max_keep)
      then (w, no_result)
      else delete_versions (deleted_versions (generation_targets p gs (env.now w))) w

  abbrev pub list_and_delete : GenerationPolicy → W → W × CleanupResult
  list_and_delete p w =
      let (w1, listed) = env.list w in
      if not (env.has_command w) then (w, no_result) else delete_listed p listed w1

  abbrev pub user_policy : (ℕ → String) → Level → GenerationPolicy
  user_policy number_text level = record {
    number_text = number_text;
    min_keep = cfg.min_user_generations;
    max_keep = cfg.max_user_generations;
    older_than = parse_nix_policy_duration (policy_age level cfg) (pos 0);
  }

  -- deleteUserGenerationsByPolicy
  unfoldable pub delete_user_generations : (ℕ → String) → Level → W → W × CleanupResult
  delete_user_generations number_text level w = list_and_delete (user_policy number_text level) w

  abbrev pub home_policy : (ℕ → String) → Level → GenerationPolicy
  home_policy number_text level = record {
    number_text = number_text;
    min_keep = min_home_manager_generations cfg;
    max_keep = cfg.max_home_generations;
    older_than = parse_nix_policy_duration (home_policy_age level cfg) (pos 0);
  }

  -- deleteHomeManagerGenerationsByPolicy
  unfoldable pub delete_home_generations_by_policy : (ℕ → String) → Level → W → W × CleanupResult
  delete_home_generations_by_policy number_text level w =
      if not cfg.delete_home_generations
      then (w, no_result)
      else list_and_delete (home_policy number_text level) w
