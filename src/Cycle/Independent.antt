-- ===== src/Cycle/Independent.antt =====
-- What a level-independent plugin does to a cycle.
-- The same for variables that agree where it matters.
use tinyland_cleanup.Records.{no_result, CleanupResult, or_zero}
use tinyland_cleanup.Cycle.Plans.{
  IndependentRun, after_watch, append_plugin, error_or, first_report, independent_ended, is_yield,
  run_level_independent, watch_cleanup,
}
use tinyland_cleanup.Cycle.Outcomes.{Done, Fits, Fresh}
use tinyland_cleanup.Cycle.Done.{Applied, appended_only, apply_watch-Applied, planned-Done}
use tinyland_cleanup.Cycle.Plugins.{run_independent}
use tinyland_cleanup.Prelude.{
  Bool, Bool-cases, arith, false, if_both, inl, inr, refl, str_eq, sym, true, ◌∙◌, ◌≡◌,
}
use tinyland_cleanup.Decide.Measured.{update_host_free_after-plugins}
use tinyland_cleanup.Decide.{Plugin, is_ladder_run}
use tinyland_cleanup.Cycle.{Context, Env, Locals, or_cancelled}
use tinyland_cleanup.Watchdog.{PluginWatch, apply_watch, wedge_abandoned}
use tinyland_cleanup.Report.{PluginCycleReport}

Done-same :
    {W : Type 0} (x : Context) (plugin : Plugin) (l m m' : Locals W)
    → m'.report.plugins ≡ m.report.plugins
    → m'.ladder_freed ≡ m.ladder_freed
    → m'.state ≡ m.state
    → Done x plugin l m
    → Done x plugin l m'
Done-same x plugin l m m' plugins freed state d = record {
  report = d.report;
  appended = plugins ∙ d.appended;
  fits = d.fits;
  freed = λ h. freed ∙ d.freed h;
  recorded = λ ok run. rw state (d.recorded ok run);
  others = λ name h. rw state (d.others name h);
}

module _ {W : Type 0} (env : Env W) (x : Context) (plugin : Plugin)
    (independent : plugin.level_independent ≡ true) where
  no_ladder_run :
      (q : PluginCycleReport)
      → q.level_independent ≡ plugin.level_independent
      → is_ladder_run q ≡ false
  no_ladder_run q kind = ground (arith, kind, independent)

  stopped-Done :
      (l : Locals W) (w : PluginWatch) (p : PluginCycleReport)
      → Applied plugin w (p, true)
      → x.daemon.dry_run ≡ false
      → Done x plugin l (append_plugin l (record p { ran = str_eq w.state wedge_abandoned }))
  stopped-Done l w p a clean =
      let q : PluginCycleReport = record p { ran = str_eq w.state wedge_abandoned } in
      let f = a.fresh in
      appended_only x plugin l _ q refl
        (record {
          name = f.name;
          kind = f.kind;
          held = f.held;
          skipped = λ no. elim (Bool-cases (str_eq w.state wedge_abandoned)) [
            | inl h ↦ absurd (ground (arith, no, a.runs (inr h)))
            | inr h ↦ h
          ];
          cleaned = λ _. clean;
          tried = λ _ _. a.went refl;
          untouched = λ _. f.freed;
        })
        refl refl (no_ladder_run q f.kind)

  ended-Done :
      (l : Locals W) (w : PluginWatch) (a : PluginCycleReport × Bool) (result : CleanupResult)
      → Applied plugin w a
      → x.daemon.dry_run ≡ false
      → Done x plugin l (independent_ended env.printer plugin.name l w a result).locals
  unfolding independent_ended
  ended-Done l w (p, true) result a clean = stopped-Done l w p a clean
  ended-Done l w (p, false) result a clean =
      let done = or_cancelled env.printer w plugin.name result in
      let f = a.fresh in
      let q : PluginCycleReport = record p {
        ran = true;
        bytes_freed = done.bytes_freed;
        estimated_bytes_freed = done.estimated_bytes_freed;
        items_cleaned = done.items_cleaned;
        error = error_or p.error done.error;
      } in
      let fits : Fits x.daemon.dry_run plugin q = record {
        name = f.name;
        kind = f.kind;
        held = f.held;
        skipped = λ no. absurd (ground (arith, no, a.runs (inl refl)));
        cleaned = λ _. clean;
        tried = λ _ _. inl refl;
        untouched = λ no. absurd (ground (arith, no));
      } in
      if_both (λ (r : IndependentRun W). Done x plugin l r.locals) (is_yield done) _ _
        (λ _. appended_only x plugin l _ q refl fits refl refl (no_ladder_run q f.kind))
        λ _. appended_only x plugin l _ q refl fits refl refl (no_ladder_run q f.kind)

  fresh_first : Fresh plugin (first_report x plugin true)
  fresh_first = record {
    name = refl;
    kind = sym independent;
    held = λ _. inl refl;
    ran = refl;
    freed = (refl, refl);
  }

  pub level_independent-Done :
      (l : Locals W) → Done x plugin l (run_level_independent env x plugin l).locals
  unfolding run_level_independent
  level_independent-Done l =
      if_both (λ (r : IndependentRun W). Done x plugin l r.locals) x.daemon.dry_run _ _
        (λ dry. planned-Done env x plugin l true (first_report x plugin true) fresh_first refl dry)
        λ clean.
          let w = watch_cleanup env x plugin l in
          let m = after_watch l w in
          let d =
            ended-Done m w.watch (apply_watch env.printer (first_report x plugin true) w.watch)
              (or_zero no_result w.result)
              (apply_watch-Applied env.printer plugin (first_report x plugin true) w.watch
                fresh_first refl)
              clean in
          record {
            report = d.report;
            appended = d.appended;
            fits = d.fits;
            freed = d.freed;
            recorded = d.recorded;
            others = d.others;
          }

  pub independent-Done : (l : Locals W) → Done x plugin l (run_independent env x plugin l)
  unfolding run_independent
  independent-Done l =
      let r = run_level_independent env x plugin l in
      Done-same x plugin l r.locals _
        (update_host_free_after-plugins x.daemon.config r.locals.report x.before _) refl refl
        (level_independent-Done l)
