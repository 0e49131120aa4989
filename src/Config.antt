-- ===== src/Config.antt =====
-- The parts of Config that the daemon's own decisions read (config/config.go),
-- MountConfig.Validate, and the target that the command line sets over them (main.go).
pub mod Ladder
use tinyland_cleanup.Prelude.{
  map, Dict, List, Option, String, [], if◌then◌else◌, leb_ℤ, ltb_ℤ, none, pos, some, ℕ, ℤ, ◌&&◌,
  ◌||◌, ◌∷◌,
}
use tinyland_cleanup.Clock.{DurationText}

pub record Thresholds : Type 0 where
  pub warning : ℤ
  pub moderate : ℤ
  pub aggressive : ℤ
  pub critical : ℤ

pub record MountConfig : Type 0 where
  pub path : String
  pub label : String
  pub threshold_warning : ℤ
  pub threshold_moderate : ℤ
  pub threshold_aggressive : ℤ
  pub threshold_critical : ℤ
  pub target_used_percent : ℤ
  pub threshold_inode_warning : ℤ
  pub threshold_inode_critical : ℤ
  pub inode_free_floor : ℕ  -- uint64

pub record PolicyConfig : Type 0 where
  pub cooldown : DurationText
  pub cooldown_bypass_level : String
  pub minimum_free_gb : ℤ
  pub state_file : String
  pub inode_no_progress_limit : ℤ
  pub byte_no_progress_limit : ℤ
  pub byte_progress_min_mb : ℤ
  pub byte_backoff_max : DurationText
  pub emergency_free_gb : ℤ
  pub zero_yield_limit : ℤ
  pub zero_yield_backoff_base : DurationText
  pub zero_yield_backoff_max : DurationText
  pub zero_yield_pressure_min_interval : DurationText
  pub zero_yield_exempt_plugins : List String
  pub plugin_timeout : DurationText
  pub plugin_timeouts : Dict DurationText
  pub exec_timeout : DurationText
  pub exec_timeouts : Dict DurationText
  pub exec_reclaim_timeout : DurationText
  pub memory_limit_mb : ℤ

pub record Config : Type 0 where
  pub poll_interval : ℤ
  pub thresholds : Thresholds
  pub inode_thresholds : Thresholds
  pub inode_free_floor : ℕ  -- uint64
  pub target_free : ℤ
  pub policy : PolicyConfig
  pub monitored_mounts : List MountConfig

-- The errors of Validate, without their wording.
pub data MountError : Type 0 where
  not_a_percentage not_ascending bad_target : MountError

-- The loop over `ladder`: `prev` is the last step that is set, 0 before the first.
unfoldable pub check_ladder : ℤ → List ℤ → Option MountError
check_ladder prev [] = none
check_ladder prev (v ∷ steps) =
    let skip = check_ladder prev steps in
    let next = check_ladder v steps in
    if leb_ℤ v (pos 0) && leb_ℤ (pos 0) v
    then skip
    else if ltb_ℤ v (pos 0) || ltb_ℤ (pos 100) v
    then some not_a_percentage
    else if ltb_ℤ v prev
    then some not_ascending
    else next

abbrev pub ladder_of : MountConfig → List ℤ
ladder_of m =
    m.threshold_warning ∷ m.threshold_moderate ∷ m.threshold_aggressive ∷ m.threshold_critical ∷ []

-- The test of the target, made once the ladder has passed.
unfoldable pub check_target : Option MountError → ℤ → Option MountError
check_target (some e) t = some e
check_target none t = if ltb_ℤ t (pos 0) || leb_ℤ (pos 100) t then some bad_target else none

unfoldable pub validate : MountConfig → Option MountError
validate m = check_target (check_ladder (pos 0) (ladder_of m)) m.target_used_percent

-- the flag is a target for every mount, so the mounts' own targets go
abbrev pub without_target : MountConfig → MountConfig
without_target m = record m { target_used_percent = pos 0 }

-- applyTargetUsedPercentOverride (main.go): 0 changes nothing, none is the error
unfoldable pub override_target : Config → ℤ → Option Config
override_target c target =
    if leb_ℤ target (pos 0) && leb_ℤ (pos 0) target
    then some c
    else if leb_ℤ target (pos 0) || leb_ℤ (pos 100) target
    then none
    else some (record c {
      target_free = target;
      monitored_mounts = map without_target c.monitored_mounts;
    })
