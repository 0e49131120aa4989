-- ===== src/Cycle/Plugins.antt =====
-- The plugins of a cycle (main.go: runLevelIndependentPlugin and the plugin loop of runCycle, with its
-- closure recordRun).
use tinyland_cleanup.Records.{no_result, CleanupResult, or_zero}
use tinyland_cleanup.Clock.{add_int64}
use tinyland_cleanup.Cycle.Plans.{
  after_watch, append_plugin, dry_run_plugin, error_or, first_report, is_yield,
  run_level_independent, watch_cleanup,
}
use tinyland_cleanup.Cycle.Gates.{Gate, gates, go, skip}
use tinyland_cleanup.Prelude.{
  Bool, List, [], false, if◌then◌else◌, ltb_ℤ, not, some, str_eq, true, ◌&&◌, ◌+◌, ◌∷◌,
}
use tinyland_cleanup.Decide.{
  Plugin, cleanup_target_met, update_host_free_after, zero_yield_permanent_exemption,
}
use tinyland_cleanup.State.{record_plugin_run, record_plugin_yield}
use tinyland_cleanup.Cycle.{Context, Env, Locals, has_error, or_cancelled}
use tinyland_cleanup.Watchdog.{PluginWatch, apply_watch, wedge_abandoned}
use tinyland_cleanup.Report.{CycleReport, PluginCycleReport}
use tinyland_cleanup.Policy.{byte_progress_min_bytes}

-- recordRun, which is called only where the state was loaded
unfoldable pub record_run :
    {W : Type 0}
    → Context
    → Plugin
    → CleanupResult
    → Locals W
    → PluginCycleReport
    → Locals W × PluginCycleReport
record_run x plugin result l p =
    let c = x.daemon.config in
    let (state, r) =
      record_plugin_yield (record_plugin_run l.state plugin.name x.level x.now result) plugin.name
        (ltb_ℤ result.bytes_freed (byte_progress_min_bytes c)) x.now x.daemon.digest x.zero_yield
        (str_eq (zero_yield_permanent_exemption c plugin) "") in
    if x.state_ok
    then (
      record l { state = state; state_dirty = true },
      record p { zero_yield_count = r.zero_yield_count; suppressed_until = r.suppressed_until },
    )
    else (l, p)

-- records the run, then appends its report
unfoldable pub append_run :
    {W : Type 0} → Context → Plugin → CleanupResult → Locals W → PluginCycleReport → Locals W
append_run x plugin result l p =
    let (l', p') = record_run x plugin result l p in append_plugin l' p'

abbrev pub ran_report : PluginCycleReport → CleanupResult → PluginCycleReport
ran_report p r = record p {
  ran = true;
  bytes_freed = r.bytes_freed;
  estimated_bytes_freed = r.estimated_bytes_freed;
  command_bytes_freed = r.command_bytes_freed;
  host_bytes_freed = r.host_bytes_freed;
  items_cleaned = r.items_cleaned;
  error = error_or p.error r.error;
}

unfoldable pub add_freed : {W : Type 0} → Locals W → CleanupResult → Locals W
add_freed l r =
    if is_yield r
    then record l {
      total_freed = add_int64 l.total_freed r.bytes_freed;
      total_items = l.total_items + r.items_cleaned;
      ladder_freed = add_int64 l.ladder_freed r.bytes_freed;
    }
    else l

abbrev pub measure_after : {W : Type 0} → Env W → Context → Locals W → Locals W
measure_after env x l = record l {
  report =
      update_host_free_after x.daemon.config l.report x.before
        (env.disk_stats l.world l.report.monitor_path);
}

-- The rest of the loop body after the watchdog; a run that was given up is recorded as failed.
unfoldable pub ladder_ended :
    {W : Type 0}
    → Env W
    → Context
    → Plugin
    → Locals W
    → PluginWatch
    → PluginCycleReport × Bool
    → CleanupResult
    → Locals W
ladder_ended env x plugin l w (p, true) result =
    if str_eq w.state wedge_abandoned
    then append_run x plugin (record no_result { error = some p.error }) l (record p { ran = true })
    else append_plugin l p
ladder_ended env x plugin l w (p, false) result =
    let done = or_cancelled env.printer w plugin.name result in
    let l' = append_run x plugin done l (ran_report p done) in
    if has_error done then l' else measure_after env x (add_freed l' done)

unfoldable pub clean_plugin :
    {W : Type 0} → Env W → Context → Plugin → PluginCycleReport → Locals W → Locals W
clean_plugin env x plugin p l =
    let w = watch_cleanup env x plugin l in
    ladder_ended env x plugin (after_watch l w) w.watch (apply_watch env.printer p w.watch)
      (or_zero no_result w.result)

unfoldable pub gated : {W : Type 0} → Env W → Context → Plugin → Locals W → Gate → Locals W
gated env x plugin l (skip p) = append_plugin l p
gated env x plugin l (go p) =
    if x.daemon.dry_run
    then dry_run_plugin env x plugin false p l
    else clean_plugin env x plugin p l

-- the target is met: nothing more to clean
unfoldable pub stop : {W : Type 0} → Locals W → PluginCycleReport → Locals W
stop l p =
    let r : CycleReport = record l.report {
      stop_reason =
          if str_eq l.report.stop_reason "" then "target_free_met" else l.report.stop_reason;
    } in
    append_plugin (record l { report = r })
      (record p { would_run = false; skip_reason = "target_free_met" })

unfoldable pub run_ladder : {W : Type 0} → Env W → Context → Plugin → Locals W → Locals W
run_ladder env x plugin l =
    let p = first_report x plugin false in
    if not x.daemon.dry_run && cleanup_target_met l.report
    then stop l p
    else gated env x plugin l (gates x plugin l.state l.report p)

unfoldable pub run_independent : {W : Type 0} → Env W → Context → Plugin → Locals W → Locals W
run_independent env x plugin l =
    let r = run_level_independent env x plugin l in
    measure_after env x (record r.locals {
      total_freed = add_int64 r.locals.total_freed r.bytes;
      total_items = r.locals.total_items + r.items;
    })

unfoldable pub run_plugin : {W : Type 0} → Env W → Context → Plugin → Locals W → Locals W
run_plugin env x plugin l =
    if plugin.level_independent then run_independent env x plugin l else run_ladder env x plugin l

unfoldable pub run_plugins : {W : Type 0} → Env W → Context → List Plugin → Locals W → Locals W
run_plugins env x [] l = l
run_plugins env x (p ∷ ps) l = run_plugins env x ps (run_plugin env x p l)
