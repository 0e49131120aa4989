-- ===== src/Cycle/Whole.antt =====
-- What a whole cycle reports and records.
use tinyland_cleanup.Cycle.Recording.{
  engage_backoffs, lift_suppressed, release_bytes, save_if_dirty,
}
use tinyland_cleanup.StateFile.{Loaded, load_failed, loaded}
use tinyland_cleanup.Cycle.Run.{pressure_cycle, quiet_cycle, report_before, report_loaded}
use tinyland_cleanup.Cycle.Reported.{
  AllFit, Grown, independents, run_independents-Grown, run_plugins-Grown,
}
use tinyland_cleanup.Cycle.Outcomes.{HasRun}
use tinyland_cleanup.Cycle.Around.{Same, engage_plugins, finish-Same, save-Same}
use tinyland_cleanup.Prelude.{
  All, Bool, List, [], ap, false, if_both, if◌then◌else◌, not, pos, refl, true, ◌&&◌, ◌++◌, ◌||◌,
  ◌∙◌, ◌≡◌,
}
use tinyland_cleanup.Decide.Measured.{status_plugins}
use tinyland_cleanup.Decide.{Plugin, any_ladder_plugin_ran, is_ladder_run}
use tinyland_cleanup.Mounts.{Reading, failed, measured}
use tinyland_cleanup.State.{byte_no_progress_pending, lift_zero_yield_suppression}
use tinyland_cleanup.Cycle.{Context, Env, Locals, is_measured}
use tinyland_cleanup.Level.{Level, is_none}
use tinyland_cleanup.Config.{Config}
use tinyland_cleanup.Report.{CycleReport, PluginCycleReport}

pub before_plugins :
    (c : Config) (s : Loaded) (r : CycleReport) (before : Reading)
    → (report_before c s (report_loaded r s) before).plugins ≡ r.plugins
unfolding report_before report_loaded
before_plugins c (loaded s q) r (failed e) = refl
before_plugins c (load_failed e') r (failed e) = refl
before_plugins c (loaded s q) r (measured stats) = status_plugins c _ stats
before_plugins c (load_failed e) r (measured stats) = status_plugins c _ stats

-- the plugins that a cycle at the level runs
abbrev pub selected : Level → List Plugin → List Plugin
selected level plugins = if is_none level then independents plugins else plugins

Grown-Same :
    {W : Type 0} (x : Context) (plugins : List Plugin) (l m n : Locals W)
    → Grown x plugins l m
    → Same m n
    → Grown x plugins l n
Grown-Same x plugins l m n g h = record {
  reports = g.reports;
  appended = h.reports ∙ g.appended;
  fit = g.fit;
  freed = λ no. h.freed ∙ g.freed no;
  recorded = λ ok. rw h.records (g.recorded ok);
  others = λ name k. rw h.records (g.others name k);
}

-- Pressure cleared: the steps before the level-independent plugins.
release_report :
    {W : Type 0} (x : Context) (was : Bool) (l : Locals W)
    → ((release_bytes x was l).report ≡ l.report)
      × ((release_bytes x was l).ladder_freed ≡ l.ladder_freed)
unfolding release_bytes
release_report x was l =
    if_both (λ (m : Locals _). (m.report ≡ l.report) × (m.ladder_freed ≡ l.ladder_freed))
      (not x.daemon.dry_run
        && x.state_ok
        && is_measured x.before
        && (was || byte_no_progress_pending l.state l.report.monitor_path))
      _ _ (λ _. (refl, refl)) λ _. (refl, refl)

lift_report :
    {W : Type 0} (x : Context) (l : Locals W)
    → ((lift_suppressed x l).report ≡ l.report)
      × ((lift_suppressed x l).ladder_freed ≡ l.ladder_freed)
unfolding lift_suppressed
lift_report x l =
    if_both (λ (m : Locals _). (m.report ≡ l.report) × (m.ladder_freed ≡ l.ladder_freed))
      (not x.daemon.dry_run && x.state_ok && (lift_zero_yield_suppression l.state).1) _ _
      (λ _. (refl, refl)) λ _. (refl, refl)

-- What a cycle adds to the variables that it starts with, and what these are.
pub record Whole {W : Type 0} (x : Context) (plugins : List Plugin) (l' : Locals W) : Type 0 where
  pub fit : AllFit x.daemon.dry_run plugins l'.report.plugins
  pub freed : any_ladder_plugin_ran l'.report.plugins ≡ false → l'.ladder_freed ≡ pos 0
  pub recorded :
      x.state_ok ≡ true
      → All
          (λ (q : PluginCycleReport). is_ladder_run q ≡ true → HasRun l'.state q.name x.level x.now)
          l'.report.plugins

Grown-Whole :
    {W : Type 0} (x : Context) (plugins : List Plugin) (l l' : Locals W)
    → Grown x plugins l l'
    → l.report.plugins ≡ []
    → l.ladder_freed ≡ pos 0
    → Whole x plugins l'
unfolding any_ladder_plugin_ran
Grown-Whole x plugins l l' g none_yet nothing =
    let all : l'.report.plugins ≡ g.reports =
      g.appended ∙ ap (λ (qs : List PluginCycleReport). qs ++ g.reports) none_yet in
    record {
      fit = rw all g.fit;
      freed = λ no. g.freed (rw all at no) ∙ nothing;
      recorded = λ ok. rw all (g.recorded ok);
    }

module _ {W : Type 0} (env : Env W) (x : Context) (was : Bool) (plugins : List Plugin)
    (l : Locals W) (none_yet : l.report.plugins ≡ []) (nothing : l.ladder_freed ≡ pos 0) where
  pub pressure-Whole : Whole x plugins (pressure_cycle env x was plugins l)
  unfolding pressure_cycle
  pressure-Whole =
      let l' : Locals W = record l { report = engage_backoffs x.daemon x.state_ok l.report } in
      Grown-Whole x plugins l' _
        (Grown-Same x plugins l' _ _ (run_plugins-Grown env x plugins l') (finish-Same env x was _))
        (engage_plugins x.daemon x.state_ok l.report ∙ none_yet) nothing

  pub quiet-Whole : Whole x (independents plugins) (quiet_cycle env x was plugins l)
  unfolding quiet_cycle
  quiet-Whole =
      let a = release_bytes x was l in
      let b = lift_suppressed x a in
      let c = save_if_dirty env b in
      let released = release_report x was l in
      let lifted = lift_report x a in
      let saved = save-Same env b in
      Grown-Whole x (independents plugins) c _ (run_independents-Grown env x plugins c)
        (saved.reports ∙ ap (λ (r : CycleReport). r.plugins) (lifted.0 ∙ released.0) ∙ none_yet)
        (saved.freed ∙ lifted.1 ∙ released.1 ∙ nothing)
