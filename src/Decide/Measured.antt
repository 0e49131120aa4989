-- ===== src/Decide/Measured.antt =====
-- What a new reading leaves alone in the report (main.go: updateHostFreeAfter).
use tinyland_cleanup.Decide.{
  host_after, host_deltas, update_host_free_after, update_minimum, update_target,
  update_target_free_status,
}
use tinyland_cleanup.Prelude.{Option, if_both, leb, none, refl, some, ℕ, ℤ, ◌==◌, ◌∙◌, ◌≡◌}
use tinyland_cleanup.Mounts.{Reading, failed, measured}
use tinyland_cleanup.Config.{Config}
use tinyland_cleanup.Monitor.{DiskStats}
use tinyland_cleanup.Report.{CycleReport}

target_plugins :
    (r : CycleReport) (used : ℤ) (target : Option ℕ) (free : ℕ)
    → (update_target r used target free).plugins ≡ r.plugins
unfolding update_target
target_plugins r used none free = refl
target_plugins r used (some target) free =
    if_both (λ (q : CycleReport). q.plugins ≡ r.plugins) (leb target free) _ _ (λ _. refl) λ _. refl

minimum_plugins : (r : CycleReport) (free : ℕ) → (update_minimum r free).plugins ≡ r.plugins
unfolding update_minimum
minimum_plugins r free =
    if_both (λ (q : CycleReport). q.plugins ≡ r.plugins) (r.minimum_free_bytes == 0) _ _ (λ _. refl)
      λ _.
        if_both (λ (q : CycleReport). q.plugins ≡ r.plugins) (leb r.minimum_free_bytes free) _ _
          (λ _. refl) λ _. refl

pub status_plugins :
    (c : Config) (r : CycleReport) (stats : DiskStats)
    → (update_target_free_status c r stats).plugins ≡ r.plugins
unfolding update_target_free_status
status_plugins c r stats =
    target_plugins (update_minimum r stats.free) _ _ stats.free ∙ minimum_plugins r stats.free

-- a reading adds no plugin report
pub update_host_free_after-plugins :
    (c : Config) (r : CycleReport) (before after : Reading)
    → (update_host_free_after c r before after).plugins ≡ r.plugins
unfolding update_host_free_after
update_host_free_after-plugins c r before (failed e) = refl
update_host_free_after-plugins c r (failed e') (measured after) =
    status_plugins c (host_after c r after) after
update_host_free_after-plugins c r (measured stats) (measured after) =
    status_plugins c (host_deltas (host_after c r after) (measured stats) after) after
