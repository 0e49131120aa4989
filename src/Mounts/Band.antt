-- ===== src/Mounts/Band.antt =====
-- The thresholds of a mount that sets its own warning and critical lines (main.go: monitorForMount).
use tinyland_cleanup.Level.{Level}
use tinyland_cleanup.Prelude.{false, is_positive, true, ℤ, ◌≡◌, ◌≤ℤ◌}
use tinyland_cleanup.Mounts.{within_mount_band}
use tinyland_cleanup.Config.{Config, MountConfig}

-- A mount that sets a warning and a critical line in order, and no step between.
pub record IsBand (m : MountConfig) : Type 0 where
  pub warning_set : is_positive m.threshold_warning ≡ true
  pub critical_set : is_positive m.threshold_critical ≡ true
  pub in_order : m.threshold_warning ≤ℤ m.threshold_critical
  pub moderate_unset : is_positive m.threshold_moderate ≡ false
  pub aggressive_unset : is_positive m.threshold_aggressive ≡ false

abbrev pub moderate_in : Config → MountConfig → ℤ
moderate_in c m = within_mount_band c.thresholds.moderate m.threshold_warning m.threshold_critical

abbrev pub aggressive_in : Config → MountConfig → ℤ
aggressive_in c m = within_mount_band c.thresholds.aggressive (moderate_in c m) m.threshold_critical
