-- ===== src/Tests/Ladders.antt =====
-- Tests: levels, mounts and configured intervals.
use tinyland_cleanup.Level.{level_none, value}
use tinyland_cleanup.Prelude.{
  In, List, String, [], arith, eq_iff, min, none, pos, pos_part, refl, some, ◌*◌, ◌+◌, ◌-◌, ◌<◌,
  ◌^◌, ◌↔◌, ◌∷◌, ◌≡◌, ◌≢◌, ◌≤ℤ◌, ◌≤◌,
}
use tinyland_cleanup.Mounts.{
  assess_loop, Reading, assess_mount, assess_mounts, measured, monitor_for_mount,
  primary_monitor_path, within_mount_band,
}
use tinyland_cleanup.Monitor.{
  percent, check_byte_level, check_inode_level, check_level, inode_ladder_skipped,
  level_for_percent, new_disk_monitor, reaches,
}
use tinyland_cleanup.Mounts.Assess.{
  MeasuredAt, assess_mounts_exact, primary_path_is_worst, reports_of, worst,
}
use tinyland_cleanup.Config.Ladder.{IsLadder, IsTarget, validate_iff}
use tinyland_cleanup.Policy.Intervals.{
  byte_backoff_interval_for_exact, steps_for, target_free_bytes_exact,
}
use tinyland_cleanup.Config.{MountConfig, ladder_of, validate}
use tinyland_cleanup.Policy.{
  byte_backoff_interval, byte_backoff_interval_for, byte_backoff_max, target_free_bytes,
}
use tinyland_cleanup.Samples.{banded_mount, sample_config, tight_stats}

abbrev all_tight : String → Reading
all_tight = λ path. measured tight_stats

one_mount : ◌≢◌ {A = List MountConfig} sample_config.monitored_mounts []
one_mount = λ e. cc

assess_mounts_exact_example :
    (value (assess_mounts sample_config none all_tight).level
      ≡ worst sample_config all_tight (banded_mount ∷ []))
    × ((assess_mounts sample_config none all_tight).mounts
        ≡ reports_of sample_config all_tight (banded_mount ∷ []))
assess_mounts_exact_example = assess_mounts_exact sample_config all_tight none one_mount

data_path : ◌≢◌ {A = String} "/data" ""
data_path = ground (arith, eq_iff "/data" "")

under_pressure : (assess_mounts sample_config none all_tight).level ≢ level_none
unfolding assess_mounts assess_loop assess_mount monitor_for_mount check_level check_byte_level
    check_inode_level level_for_percent reaches new_disk_monitor within_mount_band
    inode_ladder_skipped percent
under_pressure e = cc

primary_path_is_worst_example :
    (m : MountConfig) × In m (banded_mount ∷ [])
    × (m.path ≡ primary_monitor_path none (assess_mounts sample_config none all_tight))
    × MeasuredAt sample_config all_tight m (assess_mounts sample_config none all_tight).level
primary_path_is_worst_example =
    primary_path_is_worst sample_config all_tight (λ path e h. absurd (ground (arith, h))) none
      (data_path, tt) under_pressure one_mount

max_small : byte_backoff_max sample_config ≤ℤ pos (2 ^ 62)
unfolding byte_backoff_max
max_small = omega arith

byte_backoff_interval_for_exact_example :
    byte_backoff_interval_for sample_config 4
    ≡ pos (
        min
          (pos_part (byte_backoff_max sample_config))
          (pos_part (byte_backoff_interval sample_config) * 2 ^ steps_for sample_config 4))
byte_backoff_interval_for_exact_example = byte_backoff_interval_for_exact sample_config 4 max_small

validate_iff_example :
    (validate banded_mount ≡ none)
    ↔ (IsLadder 0 (ladder_of banded_mount) × IsTarget banded_mount.target_used_percent)
validate_iff_example = validate_iff banded_mount

three_tenths : target_free_bytes 1000 (pos 70) ≡ some 300
unfolding target_free_bytes
three_tenths = refl

target_free_bytes_exact_example :
    (100 * 300 ≤ 1000 * (100 - 70)) × (1000 * (100 - 70) < 100 * (300 + 1)) × (300 ≤ 1000)
target_free_bytes_exact_example = target_free_bytes_exact 1000 70 300 (omega arith) three_tenths
