-- ===== src/Decide/Target.antt =====
-- The free-space target and the runway (main.go: updateTargetFreeStatus, cleanupTargetMet).
use tinyland_cleanup.Prelude.{
  Option, arith, if◌then◌else◌, leb, none, pos, refl, some, true, ℕ, ℤ, ◌-◌, ◌<◌, ◌==◌, ◌^◌, ◌∙◌,
  ◌≡◌, ◌≤◌,
}
use tinyland_cleanup.Decide.{
  cleanup_target_met, update_minimum, update_target, update_target_free_status,
}
use tinyland_cleanup.Mounts.{target_used_percent}
use tinyland_cleanup.Level.{level_none, parse_level}
use tinyland_cleanup.Config.{Config}
use tinyland_cleanup.Monitor.{DiskStats}
use tinyland_cleanup.Report.{CycleReport}
use tinyland_cleanup.Clock.{int64_small}
use tinyland_cleanup.Policy.{target_free_bytes}
use mathlib.Core.Path.{subst}

-- What the report says of a target at the measured free space.
abbrev pub Shows : CycleReport → CycleReport → Option ℕ → ℕ → Type 0
Shows r r' none free =
    (r'.target_free_met ≡ r.target_free_met) × (r'.target_free_bytes ≡ r.target_free_bytes)
Shows r r' (some target) free =
    (r'.target_free_met ≡ leb target free) × (r'.target_free_bytes ≡ target)

minimum_keeps_target :
    (r : CycleReport) (free : ℕ)
    → ((update_minimum r free).target_free_met ≡ r.target_free_met)
      × ((update_minimum r free).target_free_bytes ≡ r.target_free_bytes)
      × ((update_minimum r free).max_inode_level ≡ r.max_inode_level)
unfolding update_minimum
minimum_keeps_target r free = ground arith

Shows-target :
    (r r' : CycleReport) (used : ℤ) (o : Option ℕ) (free : ℕ)
    → r'.target_free_met ≡ r.target_free_met
    → r'.target_free_bytes ≡ r.target_free_bytes
    → Shows r (update_target r' used o free) o free
unfolding update_target
Shows-target r r' used none free p q = (p, q)
Shows-target r r' used (some target) free p q = ground arith

target_keeps_minimum :
    (r : CycleReport) (used : ℤ) (o : Option ℕ) (free : ℕ)
    → ((update_target r used o free).minimum_free_met ≡ r.minimum_free_met)
      × ((update_target r used o free).minimum_free_deficit_bytes ≡ r.minimum_free_deficit_bytes)
      × ((update_target r used o free).max_inode_level ≡ r.max_inode_level)
unfolding update_target
target_keeps_minimum r used none free = (refl, refl, refl)
target_keeps_minimum r used (some target) free = ground arith

abbrev pub target_for : Config → CycleReport → DiskStats → Option ℕ
target_for c r stats = target_free_bytes stats.total (target_used_percent c r.monitor_path)

module _ (c : Config) (r : CycleReport) (stats : DiskStats) where
  -- Where a target applies to the path, the report says that it is met exactly where the measured
  -- free space reaches it; where none applies, the target's fields stay as they were.
  target_free_met_iff :
      Shows r (update_target_free_status c r stats) (target_for c r stats) stats.free
  unfolding update_target_free_status
  target_free_met_iff =
      let (p, q, _) = minimum_keeps_target r stats.free in
      Shows-target r (update_minimum r stats.free) (target_used_percent c r.monitor_path)
        (target_for c r stats) stats.free p q

  -- The runway is met exactly where it is measured to be, with the gap as its deficit; a runway of 0
  -- is never touched.
  minimum_free_met_iff :
      r.minimum_free_bytes < 2 ^ 63
      → let r' = update_target_free_status c r stats in
        (r'.minimum_free_met ≡ (
          if r.minimum_free_bytes == 0
          then r.minimum_free_met
          else leb r.minimum_free_bytes stats.free))
        × (0 < r.minimum_free_bytes
            → r'.minimum_free_deficit_bytes ≡ pos (r.minimum_free_bytes - stats.free))
  unfolding update_target_free_status
  minimum_free_met_iff h =
      let (p, q, _) =
        target_keeps_minimum (update_minimum r stats.free) (target_used_percent c r.monitor_path)
          (target_for c r stats) stats.free in
      (p ∙ met, λ k. q ∙ deficit k)
    where
      met : (update_minimum r stats.free).minimum_free_met ≡ (
          if r.minimum_free_bytes == 0
          then r.minimum_free_met
          else leb r.minimum_free_bytes stats.free)
      met = unfold update_minimum in ground arith

      deficit :
          0 < r.minimum_free_bytes
          → (update_minimum r stats.free).minimum_free_deficit_bytes
            ≡ pos (r.minimum_free_bytes - stats.free)
      deficit k =
          unfold update_minimum in ground (arith, int64_small (r.minimum_free_bytes - stats.free))

  -- Cleanup stops for the target only with the target reached at this measurement and no inode
  -- pressure on any mount.
  cleanup_target_met_only_if :
      (target : ℕ)
      → target_for c r stats ≡ some target
      → cleanup_target_met (update_target_free_status c r stats) ≡ true
      → (target ≤ stats.free) × (parse_level r.max_inode_level ≡ level_none)
  unfolding cleanup_target_met
  cleanup_target_met_only_if target e h = ground (arith, shown, same)
    where
      shown : Shows r (update_target_free_status c r stats) (some target) stats.free
      shown =
          subst (λ o. Shows r (update_target_free_status c r stats) o stats.free) e
            target_free_met_iff

      same : (update_target_free_status c r stats).max_inode_level ≡ r.max_inode_level
      same =
          unfold update_target_free_status in
          (target_keeps_minimum (update_minimum r stats.free) (target_used_percent c r.monitor_path)
            (target_for c r stats) stats.free).2
          ∙ (minimum_keeps_target r stats.free).2
