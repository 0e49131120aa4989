-- ===== src/Retention.antt =====
-- Age retention of stale temp roots and Cargo build directories: the configuration and its check
-- (config/retention.go), and what the rules see of a tree (plugins/retention.go).
--
-- A duration of the configuration is kept as what config.ParseDuration makes of it.
pub mod Walk
pub mod Decide
pub mod Cleanup
pub mod Check
pub mod Pass
pub mod Run
pub mod Plan
pub mod Find
use tinyland_cleanup.Prelude.{
  Bool, List, Option, String, [], false, glob_match, if◌then◌else◌, ltb, none, not, some, ℕ, ℤ, ◌*◌,
  ◌+◌, ◌||◌, ◌∷◌,
}
use tinyland_cleanup.Clock.{DurationText, Time, minute}

pub record TmpAgentsConfig : Type 0 where
  pub enabled : Bool
  pub roots : List String
  pub name_globs : List String
  pub max_age : DurationText
  pub delete_trees : Bool
  pub max_dirs_per_cycle : ℤ  -- int
  pub max_entries_per_dir : ℤ  -- int
  pub fixture_repo_parents : List String

pub record CargoTargetsConfig : Type 0 where
  pub enabled : Bool
  pub roots : List String
  pub max_depth : ℤ  -- int
  pub max_age : DurationText
  pub delete_trees : Bool
  pub busy_processes : List String
  pub max_entries_per_target : ℤ  -- int

pub record RetentionConfig : Type 0 where
  pub interval : DurationText
  pub tmp_agents : TmpAgentsConfig
  pub cargo_targets : CargoTargetsConfig

-- info.Sys() and the times of an os.FileInfo
pub record FileInfo : Type 0 where
  pub is_known : Bool  -- Sys() is a Stat_t
  pub dev : ℕ  -- uint64
  pub uid : ℕ
  pub mod_time : Time
  pub change_time : Option Time
  pub blocks : ℤ  -- int64
  pub size : ℤ  -- int64

abbrev pub future_mtime_tolerance : ℕ
future_mtime_tolerance = 5 * minute

-- t.After(now.Add(futureMtimeTolerance))
abbrev pub is_future : Time → Time → Bool
is_future now t = ltb (now + future_mtime_tolerance) t

unfoldable pub effective_mod_time : FileInfo → Time → Time
effective_mod_time info now =
    if not (is_future now info.mod_time)
    then info.mod_time
    else elim info.change_time [ none ↦ now | some t ↦ if is_future now t then now else t ]

-- retentionNameMatches
unfoldable pub name_matches : String → List String → Bool
name_matches name [] = false
name_matches name (glob ∷ globs) = glob_match glob name || name_matches name globs
