-- ===== src/Decide/Breaker.antt =====
-- The inode breaker and byte progress (main.go: inodeBackoffActive, byteProgressMade).
use tinyland_cleanup.Prelude.{
  List, [], arith, false, keep, not, refl, true, ◌<◌, ◌↔◌, ◌∷◌, ◌≡◌, ◌≤ℤ◌, ◌≤◌, ◌⊎◌,
}
use tinyland_cleanup.Decide.{any_ladder_plugin_ran, byte_progress_made, inode_backoff_active}
use tinyland_cleanup.Level.{level_none, parse_level, value}
use tinyland_cleanup.Config.{Config}
use tinyland_cleanup.Report.{CycleReport, PluginCycleReport}
use tinyland_cleanup.Policy.{
  byte_progress_min_bytes, cooldown_bypass_level, inode_no_progress_limit,
}

module _ (c : Config) (r : CycleReport) where
  -- The breaker engages exactly when inodes alone drive the path to the bypass level and the
  -- configured number of cycles have failed to free any.
  inode_backoff_iff : (inode_backoff_active c r ≡ true) ↔ (
      (value (cooldown_bypass_level c) ≤ value (parse_level r.host_inode_level))
      × (value (parse_level r.host_byte_level) < value (cooldown_bypass_level c))
      × (inode_no_progress_limit c ≤ r.inode_no_progress_count))
  unfolding inode_backoff_active
  inode_backoff_iff = (λ h. ground arith, λ h. ground arith)

  -- A cycle in which no ladder plugin ran makes byte progress only if the byte level fell, or was
  -- none, or the ladder's own bytes say so: free space that other writers gave back does not count.
  no_ladder_run_no_progress :
      any_ladder_plugin_ran r.plugins ≡ false
      → byte_progress_made c r ≡ true
      → (parse_level r.host_byte_level ≡ level_none)
        ⊎ (value (parse_level r.host_byte_level_after) < value (parse_level r.host_byte_level))
        ⊎ (byte_progress_min_bytes c ≤ℤ r.ladder_bytes_freed)
  unfolding byte_progress_made
  no_ladder_run_no_progress h p = ground arith

-- A plugin that the ladder does not gate never counts as an attempt.
any_ladder_plugin_ran-filter :
    (reports : List PluginCycleReport)
    → any_ladder_plugin_ran reports
      ≡ any_ladder_plugin_ran (keep (λ p. not p.level_independent) reports)
unfolding any_ladder_plugin_ran
any_ladder_plugin_ran-filter [] = refl
any_ladder_plugin_ran-filter (p ∷ ps) = ground (arith, any_ladder_plugin_ran-filter ps)
