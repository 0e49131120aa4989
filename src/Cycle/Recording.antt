-- ===== src/Cycle/Recording.antt =====
-- What a cycle does to the state around its plugins (main.go: runCycle): pressure that cleared, the
-- backoffs that engage, progress that is recorded, and saving.
use tinyland_cleanup.Clock.{whole_seconds}
use tinyland_cleanup.Cycle.Plans.{error_or}
use tinyland_cleanup.Prelude.{
  Bool, false, if◌then◌else◌, is_positive, ltb, ltb_ℤ, not, pos, str_eq, true, ◌&&◌, ◌==◌, ◌||◌,
}
use tinyland_cleanup.Decide.{
  Daemon, any_ladder_plugin_ran, byte_backoff_active, byte_progress_made, inode_backoff_active,
  next_retry_at,
}
use tinyland_cleanup.State.{
  byte_no_progress_pending, inode_no_progress_count, lift_zero_yield_suppression,
  record_byte_progress, record_inode_progress,
}
use tinyland_cleanup.Cycle.{Context, Env, Locals, is_measured}
use tinyland_cleanup.Level.{is_none, level_none, parse_level}
use tinyland_cleanup.Config.{Config}
use tinyland_cleanup.Report.{CycleReport}
use tinyland_cleanup.Policy.{byte_backoff_interval_for, cleanup_cooldown}

abbrev pub save_state : {W : Type 0} → Env W → Locals W → Locals W
save_state env l =
    let (w, e) = env.save l.state l.world in
    record l {
      world = w;
      report = record l.report { state_error = error_or l.report.state_error e };
    }

unfoldable pub save_if_dirty : {W : Type 0} → Env W → Locals W → Locals W
save_if_dirty env l = if l.state_dirty then save_state env l else l

-- Pressure cleared: the byte record starts afresh.
unfoldable pub release_bytes : {W : Type 0} → Context → Bool → Locals W → Locals W
release_bytes x was_engaged l =
    let r = l.report in
    if not x.daemon.dry_run
      && x.state_ok
      && is_measured x.before
      && (was_engaged || byte_no_progress_pending l.state r.monitor_path)
    then record l {
      state =
          record_byte_progress l.state r.monitor_path r.host_free_before_bytes r.host_byte_level
            level_none x.now true false false;
      state_dirty = true;
    }
    else l

-- and every suppressed plugin gets a run in the next episode
unfoldable pub lift_suppressed : {W : Type 0} → Context → Locals W → Locals W
lift_suppressed x l =
    let (s, lifted) = lift_zero_yield_suppression l.state in
    if not x.daemon.dry_run && x.state_ok && lifted
    then record l { state = s; state_dirty = true }
    else l

unfoldable pub engage_inode_backoff : Config → CycleReport → CycleReport
engage_inode_backoff c r = record r {
  inode_backoff =
      not r.forced_level && is_positive (cleanup_cooldown c) && inode_backoff_active c r;
}

unfoldable pub engage_byte_backoff : Daemon → Bool → CycleReport → CycleReport
engage_byte_backoff d state_ok r =
    let (on, reason) = byte_backoff_active d.config r in
    if not r.forced_level && not d.dry_run && state_ok
    then record r { byte_backoff = on; byte_backoff_reason = reason }
    else r

unfoldable pub put_backoff_seconds : Config → CycleReport → CycleReport
put_backoff_seconds c r =
    if r.byte_backoff
    then record r {
      byte_backoff_seconds = whole_seconds (byte_backoff_interval_for c r.byte_no_progress_count);
    }
    else r

-- the inode breaker, then byte backoff
unfoldable pub engage_backoffs : Daemon → Bool → CycleReport → CycleReport
unfolding engage_inode_backoff engage_byte_backoff put_backoff_seconds
engage_backoffs d state_ok r =
    put_backoff_seconds d.config (engage_byte_backoff d state_ok (engage_inode_backoff d.config r))

abbrev pub put_totals : {W : Type 0} → Locals W → Locals W
put_totals l = record l {
  report = record l.report {
    total_bytes_freed = l.total_freed;
    total_items_cleaned = l.total_items;
    ladder_bytes_freed = l.ladder_freed;
    next_retry_at = next_retry_at l.report.plugins;
  };
}

abbrev pub put_inode_progress : {W : Type 0} → Context → Bool → Locals W → Locals W
put_inode_progress x improved l =
    let r = l.report in
    record l {
      state =
          record_inode_progress l.state r.monitor_path r.host_inodes_free_after
            r.host_inodes_used_percent_after r.host_inode_level x.now improved;
      state_dirty = true;
    }

unfoldable pub record_inodes : {W : Type 0} → Context → Locals W → Locals W
record_inodes x l =
    let r = l.report in
    if x.daemon.dry_run || not x.state_ok || r.host_inodes_total == 0
    then l
    else if not (is_none (parse_level r.max_inode_level))
    then put_inode_progress x
        (ltb_ℤ (pos 0) r.host_inodes_free_delta || is_none (parse_level r.host_inode_level)) l
    else if ltb 0 (inode_no_progress_count l.state r.monitor_path)
    then put_inode_progress x true l
    else l

unfoldable pub record_bytes : {W : Type 0} → Context → Bool → Locals W → Locals W
record_bytes x was_engaged l =
    let r = l.report in
    let before = parse_level r.host_byte_level in
    if x.daemon.dry_run
      || not x.state_ok
      || not (is_measured x.before)
      || not (str_eq r.host_free_error "")
    then l
    else if not (is_none before) || was_engaged || byte_no_progress_pending l.state r.monitor_path
    then record l {
      state =
          record_byte_progress l.state r.monitor_path r.host_free_after_bytes r.host_byte_level
            before x.now (byte_progress_made x.daemon.config r) (any_ladder_plugin_ran r.plugins)
            (r.byte_backoff || (r.forced_level && was_engaged));
      state_dirty = true;
    }
    else l
