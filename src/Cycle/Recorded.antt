-- ===== src/Cycle/Recorded.antt =====
-- Whatever a plugin does in a cycle, it leaves exactly one report, which tells what was done; a ladder
-- run is recorded in the state.
use tinyland_cleanup.Records.{no_result, CleanupResult, or_zero}
use tinyland_cleanup.Cycle.Plans.{after_watch, first_report, is_yield, watch_cleanup}
use tinyland_cleanup.Prelude.{
  not, sym, ◌&&◌, Bool, [], ap, arith, false, if_both, inl, inr, refl, some, str_eq, true, ◌++◌,
  ◌∙◌, ◌∷◌, ◌≡◌,
}
use tinyland_cleanup.Cycle.Gates.{Gate, go, skip}
use tinyland_cleanup.Cycle.Done.{
  apply_watch-Applied, planned-Done, Applied, Fresh-Fits, appended_only, not_ran,
}
use tinyland_cleanup.Cycle.Ladder.{GateFresh, gates_fresh}
use tinyland_cleanup.Cycle.Plugins.{
  clean_plugin, gated, run_ladder, stop, add_freed, append_run, ladder_ended, measure_after,
  ran_report, record_run,
}
use tinyland_cleanup.Decide.{cleanup_target_met, Plugin, is_ladder_run}
use tinyland_cleanup.Watchdog.{apply_watch, PluginWatch, wedge_abandoned}
use tinyland_cleanup.Cycle.Outcomes.{Done, Fits, Fresh, record_run-HasRun, record_run_report}
use tinyland_cleanup.Decide.Measured.{update_host_free_after-plugins}
use tinyland_cleanup.Cycle.{Context, Env, Locals, has_error, or_cancelled}
use tinyland_cleanup.Report.{CycleReport, PluginCycleReport}

module _ {W : Type 0} (env : Env W) (x : Context) (plugin : Plugin)
    (ladder : plugin.level_independent ≡ false) where
  -- The variables after recordRun.
  record_run_same :
      (result : CleanupResult) (l : Locals W) (p : PluginCycleReport)
      → let m = (record_run x plugin result l p).0 in
        (m.report ≡ l.report) × (m.ladder_freed ≡ l.ladder_freed)
  unfolding record_run
  record_run_same result l p =
      if_both
        (λ (r : Locals W × PluginCycleReport).
          (r.0.report ≡ l.report) × (r.0.ladder_freed ≡ l.ladder_freed))
        x.state_ok _ _ (λ _. (refl, refl)) λ _. (refl, refl)

  -- The report of a run: the plugin ran, which the report says before and after recordRun.
  Ran : PluginCycleReport → Type 0
  Ran q = Fits x.daemon.dry_run plugin q × (q.ran ≡ true)

  run_report :
      (result : CleanupResult) (l : Locals W) (p : PluginCycleReport)
      → Fresh plugin p
      → p.would_run ≡ true
      → x.daemon.dry_run ≡ false
      → (q : PluginCycleReport) → q.name ≡ p.name
      → q.level_independent ≡ p.level_independent
      → q.would_run ≡ p.would_run
      → q.ran ≡ true
      → Ran (record_run x plugin result l q).1
  unfolding Ran
  run_report result l p f would clean q name kind would' ran =
      record_run_report x plugin result l q Ran λ count until. (
        record {
          name = name ∙ f.name;
          kind = kind ∙ f.kind;
          held = λ h. absurd (ground (arith, h, kind, f.kind, ladder));
          skipped = λ no. absurd (ground (arith, no, would, would'));
          cleaned = λ _. clean;
          tried = λ h. absurd (ground (arith, h, kind, f.kind, ladder));
          untouched = λ no. absurd (ground (arith, no, ran));
        },
        ran,
      )

  -- A ladder run leaves the record of the run, whatever is measured or added up afterwards.
  appended_run :
      (result : CleanupResult) (l m : Locals W) (q : PluginCycleReport)
      → Ran (record_run x plugin result l q).1
      → m.report.plugins ≡ (append_run x plugin result l q).report.plugins
      → m.state ≡ (append_run x plugin result l q).state
      → Done x plugin l m
  unfolding append_run Ran
  appended_run result l m q ran plugins state =
      let r = record_run x plugin result l q in
      let run = record_run-HasRun x plugin result l q in
      let is_run : is_ladder_run r.1 ≡ true = ground (arith, ran.1, ran.0.kind, ladder) in
      record {
        report = r.1;
        appended =
            plugins
            ∙ ap (λ (c : CycleReport). c.plugins ++ r.1 ∷ []) (record_run_same result l q).0;
        fits = ran.0;
        freed = λ no. absurd (ground (arith, no, is_run));
        recorded = λ ok _. rw state (run.0 ok);
        others = λ name h. rw state (run.1 name h);
      }

  measured_plugins : (l : Locals W) → (measure_after env x l).report.plugins ≡ l.report.plugins
  measured_plugins l = update_host_free_after-plugins x.daemon.config l.report x.before _

  added_same :
      (l : Locals W) (r : CleanupResult)
      → ((add_freed l r).report ≡ l.report) × ((add_freed l r).state ≡ l.state)
  unfolding add_freed
  added_same l r =
      if_both (λ (m : Locals W). (m.report ≡ l.report) × (m.state ≡ l.state)) (is_yield r) _ _
        (λ _. (refl, refl)) λ _. (refl, refl)

  ladder_ended-Done :
      (l : Locals W) (w : PluginWatch) (a : PluginCycleReport × Bool) (result : CleanupResult)
      → Applied plugin w a
      → x.daemon.dry_run ≡ false
      → Done x plugin l (ladder_ended env x plugin l w a result)
  unfolding ladder_ended
  ladder_ended-Done l w (p, true) result a clean =
      let failed_run : CleanupResult = record no_result { error = some p.error } in
      if_both (Done x plugin l) (str_eq w.state wedge_abandoned) _ _
        (λ h.
          appended_run failed_run l _ (record p { ran = true })
            (run_report failed_run l p a.fresh (a.runs (inr h)) clean (record p { ran = true }) refl
              refl refl refl)
            refl refl)
        λ _.
          appended_only x plugin l _ p refl
            (Fresh-Fits _ plugin p a.fresh (λ h. absurd (ground (arith, h, ladder)))) refl refl
            (not_ran p a.fresh.ran)
  ladder_ended-Done l w (p, false) result a clean =
      let done = or_cancelled env.printer w plugin.name result in
      let q = ran_report p done in
      let l' = append_run x plugin done l q in
      let ran = run_report done l p a.fresh (a.runs (inl refl)) clean q refl refl refl refl in
      let same = added_same l' done in
      if_both (Done x plugin l) (has_error done) _ _ (λ _. appended_run done l _ q ran refl refl)
        λ _.
          appended_run done l _ q ran
            (measured_plugins (add_freed l' done) ∙ ap (λ (c : CycleReport). c.plugins) same.0)
            same.1

  gated-Done :
      (l : Locals W) (g : Gate) → GateFresh plugin g → Done x plugin l (gated env x plugin l g)
  unfolding gated clean_plugin
  gated-Done l (skip p) f =
      appended_only x plugin l _ p refl
        (Fresh-Fits _ plugin p f (λ h. absurd (ground (arith, h, ladder)))) refl refl
        (not_ran p f.ran)
  gated-Done l (go p) f =
      if_both (Done x plugin l) x.daemon.dry_run _ _
        (λ dry. planned-Done env x plugin l false p f.0 f.1 dry)
        λ clean.
          let w = watch_cleanup env x plugin l in
          let d =
            ladder_ended-Done (after_watch l w) w.watch (apply_watch env.printer p w.watch)
              (or_zero no_result w.result)
              (apply_watch-Applied env.printer plugin p w.watch f.0 f.1) clean in
          record {
            report = d.report;
            appended = d.appended;
            fits = d.fits;
            freed = d.freed;
            recorded = d.recorded;
            others = d.others;
          }

  fresh_ladder : Fresh plugin (first_report x plugin false)
  fresh_ladder = record {
    name = refl;
    kind = sym ladder;
    held = λ _. inl refl;
    ran = refl;
    freed = (refl, refl);
  }

  pub ladder-Done : (l : Locals W) → Done x plugin l (run_ladder env x plugin l)
  unfolding run_ladder stop
  ladder-Done l =
      let p = first_report x plugin false in
      let q : PluginCycleReport = record p { would_run = false; skip_reason = "target_free_met" } in
      if_both (Done x plugin l) (not x.daemon.dry_run && cleanup_target_met l.report) _ _
        (λ _.
          appended_only x plugin l _ q refl
            (record {
              name = refl;
              kind = sym ladder;
              held = λ h. absurd (ground (arith, h));
              skipped = λ _. refl;
              cleaned = λ h. absurd (ground (arith, h));
              tried = λ h. absurd (ground (arith, h));
              untouched = λ _. (refl, refl);
            })
            refl refl refl)
        λ _. gated-Done l _ (gates_fresh x plugin ladder l.state l.report p fresh_ladder refl)
