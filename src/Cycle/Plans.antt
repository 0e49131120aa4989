-- ===== src/Cycle/Plans.antt =====
-- Planning a plugin in a dry run, and running a level-independent one (main.go:
-- runLevelIndependentPlugin, and the dry run of the plugin loop).
use tinyland_cleanup.Records.{no_result, CleanupResult, or_zero}
use tinyland_cleanup.Clock.{add_int64}
use tinyland_cleanup.Prelude.{
  Bool, Option, String, false, if◌then◌else◌, is_positive, ltb, ltb_ℤ, none, not, pos, some, str_eq,
  true, ℕ, ℤ, ◌&&◌, ◌+◌, ◌||◌,
}
use tinyland_cleanup.Decide.{Plugin}
use tinyland_cleanup.Cycle.{Context, Env, Locals, add_plan, append_report, has_error, or_cancelled}
use tinyland_cleanup.Level.{to_string}
use tinyland_cleanup.Watchdog.{
  PluginWatch, Printer, Watched, apply_watch, watch_plugin, wedge_abandoned,
}
use tinyland_cleanup.Report.{CleanupPlan, CycleReport, PluginCycleReport, no_plugin_report}

abbrev pub append_plugin : {W : Type 0} → Locals W → PluginCycleReport → Locals W
append_plugin l p = record l { report = append_report l.report p }

abbrev pub first_report : Context → Plugin → Bool → PluginCycleReport
first_report x plugin independent = record no_plugin_report {
  name = plugin.name;
  level = to_string x.level;
  dry_run = x.daemon.dry_run;
  would_run = true;
  level_independent = independent;
}

-- only the plan of a ladder plugin counts here
abbrev pub add_required : Bool → CycleReport → CleanupPlan → CycleReport
add_required independent r plan =
    if not independent && ltb_ℤ r.planned_required_free_bytes plan.required_free_bytes
    then record r { planned_required_free_bytes = plan.required_free_bytes }
    else r

abbrev pub no_plan : CleanupPlan
no_plan = record { estimated_bytes_freed = pos 0; required_free_bytes = pos 0; targets = 0 }

-- What a watched plan adds to the report; the flag is applyWatch's, that there is no plan.
unfoldable pub planned : Bool → CycleReport → PluginCycleReport × Bool → CleanupPlan → CycleReport
planned independent r (p, true) plan = append_report r p
planned independent r (p, false) plan =
    append_report (add_required independent (add_plan r plan) plan) (record p { plan = some plan })

unfoldable pub watch_plan :
    {W : Type 0} → Env W → Context → Plugin → Locals W → Watched CleanupPlan W
watch_plan env x plugin l =
    watch_plugin x.daemon.config plugin.name (env.flight l.world plugin.name) (env.started l.world)
      (env.plan plugin.name x.level) l.world l.flights

unfoldable pub dry_run_plugin :
    {W : Type 0} → Env W → Context → Plugin → Bool → PluginCycleReport → Locals W → Locals W
dry_run_plugin env x plugin independent p l =
    let p' : PluginCycleReport = record p { skip_reason = "dry_run" } in
    let w = watch_plan env x plugin l in
    if plugin.planner
    then record l {
      world = w.world;
      flights = w.flights;
      report =
          planned independent l.report (apply_watch env.printer p' w.watch)
            (or_zero no_plan w.result);
    }
    else append_plugin l p'

unfoldable pub watch_cleanup :
    {W : Type 0} → Env W → Context → Plugin → Locals W → Watched CleanupResult W
watch_cleanup env x plugin l =
    watch_plugin x.daemon.config plugin.name (env.flight l.world plugin.name) (env.started l.world)
      (env.cleanup plugin.name x.level) l.world l.flights

abbrev pub error_or : String → Option String → String
error_or e none = e
error_or e (some e') = e'

-- freed something without an error
abbrev pub is_yield : CleanupResult → Bool
is_yield r = not (has_error r) && (is_positive r.bytes_freed || ltb 0 r.items_cleaned)

-- What runLevelIndependentPlugin leaves and returns.
pub record IndependentRun (W : Type 0) : Type 0 where
  pub locals : Locals W
  pub bytes : ℤ
  pub items : ℕ

unfoldable pub independent_ended :
    {W : Type 0}
    → Printer
    → String
    → Locals W
    → PluginWatch
    → PluginCycleReport × Bool
    → CleanupResult
    → IndependentRun W
independent_ended printer name l w (p, true) result = record {
  locals = append_plugin l (record p { ran = str_eq w.state wedge_abandoned });
  bytes = pos 0;
  items = 0;
}
independent_ended printer name l w (p, false) result =
    let done = or_cancelled printer w name result in
    let p' : PluginCycleReport = record p {
      ran = true;
      bytes_freed = done.bytes_freed;
      estimated_bytes_freed = done.estimated_bytes_freed;
      items_cleaned = done.items_cleaned;
      error = error_or p.error done.error;
    } in
    let r = append_report l.report p' in
    if is_yield done
    then record {
      locals = record l {
        report = record r {
          total_bytes_freed = add_int64 r.total_bytes_freed done.bytes_freed;
          total_items_cleaned = r.total_items_cleaned + done.items_cleaned;
        };
      };
      bytes = done.bytes_freed;
      items = done.items_cleaned;
    }
    else record { locals = record l { report = r }; bytes = pos 0; items = 0 }

abbrev pub after_watch : {T W : Type 0} → Locals W → Watched T W → Locals W
after_watch l w = record l { world = w.world; flights = w.flights }

unfoldable pub run_level_independent :
    {W : Type 0} → Env W → Context → Plugin → Locals W → IndependentRun W
run_level_independent env x plugin l =
    let p = first_report x plugin true in
    let w = watch_cleanup env x plugin l in
    if x.daemon.dry_run
    then record { locals = dry_run_plugin env x plugin true p l; bytes = pos 0; items = 0 }
    else independent_ended env.printer plugin.name (after_watch l w) w.watch
        (apply_watch env.printer p w.watch) (or_zero no_result w.result)
