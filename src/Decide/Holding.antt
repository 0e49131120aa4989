-- ===== src/Decide/Holding.antt =====
-- When a plugin is held back, and for how long (main.go: shouldApplyCooldown, pluginCooldown,
-- byteBackoffActive, byteProgressMade, zeroYieldExemption).
use tinyland_cleanup.Policy.{
  byte_backoff_max, byte_no_progress_limit, cleanup_cooldown, cooldown_bypass_level,
  emergency_free_bytes,
}
use tinyland_cleanup.Prelude.{
  String, Bool, length, ltb, neg_part_of_positive, ◌||◌, ◌≢◌, arith, eq_iff, false, is_positive,
  pos, some, true, ◌<◌, ◌↔◌, ◌≡◌, ◌≤ℤ◌, ◌≤◌, ◌⊎◌,
}
use tinyland_cleanup.Policy.Intervals.{byte_backoff_interval_for-le}
use tinyland_cleanup.Decide.{
  Plugin, pressured_mount, zero_yield_exemption, zero_yield_permanent_exemption, Daemon, Hold,
  byte_backoff_active, plugin_cooldown, should_apply_cooldown,
}
use tinyland_cleanup.Level.{Level, is_none, parse_level, value}
use tinyland_cleanup.Config.{Config}
use tinyland_cleanup.Report.{CycleReport}

-- The conditions under which byte backoff may engage.
pub record IsStuck (c : Config) (r : CycleReport) : Type 0 where
  pub pressure : is_none (parse_level r.host_byte_level) ≡ false
  pub enabled : is_positive (byte_no_progress_limit c) ≡ true
  pub attempts : byte_no_progress_limit c ≤ℤ pos r.byte_no_progress_count
  pub above_floor : emergency_free_bytes c ≤ r.host_free_before_bytes

module _ (c : Config) (r : CycleReport) where
  -- Byte backoff engages only under byte pressure that has survived the configured number of
  -- attempts, and never while free space is below the emergency floor.
  pub byte_backoff_sound : (byte_backoff_active c r).0 ≡ true → IsStuck c r
  unfolding byte_backoff_active
  byte_backoff_sound h = ground arith

  -- With the emergency floor set and free space below it, backoff is off whatever the counts are.
  byte_backoff_emergency :
      r.host_free_before_bytes < emergency_free_bytes c → (byte_backoff_active c r).0 ≡ false
  unfolding byte_backoff_active
  byte_backoff_emergency h = ground arith

module _ (d : Daemon) (r : CycleReport) (level : Level) where
  -- The plain cooldown applies exactly where a cooldown is configured, the run is neither forced nor
  -- dry, the absolute runway is met or not set, and the level is below the bypass level or the inode
  -- breaker is engaged.
  should_apply_cooldown_iff : (should_apply_cooldown d r level ≡ true) ↔ (
      ((r.minimum_free_bytes ≡ 0) ⊎ (r.minimum_free_met ≡ true))
      × (d.dry_run ≡ false)
      × (r.forced_level ≡ false)
      × (is_positive (cleanup_cooldown d.config) ≡ true)
      × ((value level < value (cooldown_bypass_level d.config)) ⊎ (r.inode_backoff ≡ true)))
  unfolding should_apply_cooldown
  should_apply_cooldown_iff =
      (λ h. ground arith, λ h. ground (arith, neg_part_of_positive (cleanup_cooldown d.config)))

  -- A plugin is held back at the bypass level or above only by the inode breaker or byte backoff.
  held_at_bypass :
      (h : Hold)
      → plugin_cooldown d r level ≡ some h
      → value (cooldown_bypass_level d.config) ≤ value level
      → (r.inode_backoff ≡ true) ⊎ (r.byte_backoff ≡ true)
  unfolding plugin_cooldown should_apply_cooldown
  held_at_bypass h e b = ground arith

  -- Whatever holds a plugin back, the interval is the cooldown or at most byte_backoff_max.
  hold_bounded :
      (h : Hold)
      → plugin_cooldown d r level ≡ some h
      → ((h.interval ≡ cleanup_cooldown d.config) × (h.reason ≡ "cooldown"))
        ⊎ ((h.interval ≤ℤ byte_backoff_max d.config) × (h.reason ≡ "byte_backoff"))
  unfolding plugin_cooldown
  hold_bounded h e = ground (arith, byte_backoff_interval_for-le d.config r.byte_no_progress_count)

operator_run_ne : ◌≢◌ {A = String} "operator_run" ""
operator_run_ne = ground (arith, eq_iff "operator_run" "")

free_unknown_ne : ◌≢◌ {A = String} "free_unknown" ""
free_unknown_ne = ground (arith, eq_iff "free_unknown" "")

below_floor_ne : ◌≢◌ {A = String} "below_emergency_floor" ""
below_floor_ne = ground (arith, eq_iff "below_emergency_floor" "")

mount_pressure_ne : ◌≢◌ {A = String} "mount_pressure" ""
mount_pressure_ne = ground (arith, eq_iff "mount_pressure" "")

-- Why a suppressed plugin runs all the same, in the order in which the reasons are tried.
module _ (d : Daemon) (p : Plugin) (r : CycleReport) (free_known : Bool) where
  abbrev pub is_operator_run : Bool
  is_operator_run = r.forced_level || d.dry_run || ltb 0 (length d.plugin_filter)

  -- Suppression is enforced only on the daemon's own runs, for a plugin that is not exempt, with free
  -- space known and not below the emergency floor, and no monitored mount under pressure.
  suppression_enforced :
      zero_yield_exemption d p r free_known ≡ ""
      → (is_operator_run ≡ false)
        × (zero_yield_permanent_exemption d.config p ≡ "")
        × (free_known ≡ true)
        × ((emergency_free_bytes d.config ≡ 0)
            ⊎ (emergency_free_bytes d.config ≤ r.host_free_before_bytes))
        × (pressured_mount r.mounts ≡ "")
  unfolding zero_yield_exemption
  suppression_enforced h = ground (
    arith,
    operator_run_ne,
    free_unknown_ne,
    below_floor_ne,
    mount_pressure_ne,
    eq_iff (zero_yield_permanent_exemption d.config p) "",
    eq_iff (pressured_mount r.mounts) "",
  )

  -- Below the emergency floor every plugin is exempt.
  emergency_lifts :
      r.host_free_before_bytes < emergency_free_bytes d.config
      → zero_yield_exemption d p r free_known ≢ ""
  unfolding zero_yield_exemption
  emergency_lifts h e = ground (
    arith,
    operator_run_ne,
    free_unknown_ne,
    below_floor_ne,
    eq_iff (zero_yield_permanent_exemption d.config p) "",
  )
