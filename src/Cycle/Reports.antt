-- ===== src/Cycle/Reports.antt =====
-- The promises of a whole cycle.
use tinyland_cleanup.Records.{CleanupState}
use tinyland_cleanup.StateFile.{Loaded, loaded}
use tinyland_cleanup.Prelude.{
  ◌&&◌, All, Dict, List, String, [], ap, false, if◌then◌else◌, refl, true, ◌∙◌, ◌≡◌,
}
use tinyland_cleanup.Cycle.Run.{
  loaded_state, report_before, report_loaded, start_locals, assessed, cycle_context, cycle_level,
  is_loaded, load_state_for_cycle, pressure_cycle, quiet_cycle, run_cycle, run_loaded, start_report,
}
use tinyland_cleanup.State.{byte_backoff_engaged}
use tinyland_cleanup.Cycle.Whole.{before_plugins, Whole, pressure-Whole, quiet-Whole, selected}
use tinyland_cleanup.Cycle.Reported.{AllFit, independents}
use tinyland_cleanup.Cycle.Outcomes.{HasRun}
use tinyland_cleanup.Decide.{Daemon, Plugin, is_ladder_run}
use tinyland_cleanup.Cycle.{Env}
use tinyland_cleanup.Level.{Level, is_none}
use tinyland_cleanup.Report.{CycleReport, PluginCycleReport}
use tinyland_cleanup.Clock.{Time}

loaded-Whole :
    {W : Type 0} (env : Env W) (d : Daemon) (plugins : List Plugin) (level : Level) (now : Time)
    (r : CycleReport) (s : Loaded) (flights : Dict Time) (w : W)
    → r.plugins ≡ []
    → Whole
        (cycle_context d now level (env.disk_stats w r.monitor_path) s)
        (selected level plugins)
        (run_loaded env d plugins level now r s flights w)
unfolding run_loaded
loaded-Whole env d plugins level now r s flights w empty =
    let before = env.disk_stats w r.monitor_path in
    let x = cycle_context d now level before s in
    let was =
      is_loaded s
      && byte_backoff_engaged (loaded_state s)
          (report_before d.config s (report_loaded r s) before).monitor_path in
    let l =
      start_locals w (report_before d.config s (report_loaded r s) before) (loaded_state s)
        flights in
    let none_yet = before_plugins d.config s r before ∙ empty in
    elim (is_none level)
      as (λ b.
        Whole x (if b then independents plugins else plugins)
          (if b then quiet_cycle env x was plugins l else pressure_cycle env x was plugins l)) [
            | true ↦ quiet-Whole env x was plugins l none_yet refl
            | false ↦ pressure-Whole env x was plugins l none_yet refl
          ]

module _ {W : Type 0} (env : Env W) (d : Daemon) (plugins : List Plugin) (forced : Level)
    (now : Time) (flights : Dict Time) (w : W) where
  cycle-Whole :
      let s = load_state_for_cycle env d now w in
      let level = cycle_level env d forced w in
      let r = start_report d now forced level (assessed env d w) in
      Whole
        (cycle_context d now level (env.disk_stats s.0 r.monitor_path) s.1)
        (selected level plugins)
        (run_cycle env d plugins forced now flights w)
  unfolding run_cycle start_report
  cycle-Whole = loaded-Whole env d plugins _ now _ _ flights _ refl

  -- A cycle reports every plugin that it selects, exactly once and in order: all of them under
  -- pressure, the level-independent ones without it. A level-independent plugin is reported as run in
  -- every cycle that is not a dry run, unless its skip reason is that an earlier run is wedged; its
  -- skip reason is this one, the dry run, or empty. A report that would not run did not run, one that
  -- did not run has freed no bytes and no items, and none has run in a dry run.
  pub every_plugin_reported :
      AllFit d.dry_run
        (selected (cycle_level env d forced w) plugins)
        (run_cycle env d plugins forced now flights w).report.plugins
  every_plugin_reported = cycle-Whole.fit

  -- If the state was loaded, every ladder plugin that the report says ran, failed and abandoned runs
  -- included, has its last run at this cycle's level and time in the state that the cycle leaves.
  pub ladder_runs_recorded :
      (w' : W) (s : CleanupState) (quarantined : String)
      → load_state_for_cycle env d now w ≡ (w', loaded s quarantined)
      → let l = run_cycle env d plugins forced now flights w in
        All
          (λ (q : PluginCycleReport).
            is_ladder_run q ≡ true → HasRun l.state q.name (cycle_level env d forced w) now)
          l.report.plugins
  ladder_runs_recorded w' s quarantined h =
      cycle-Whole.recorded (ap (λ (r : W × Loaded). is_loaded r.1) h)
