-- ===== src/Cycle/Unsaved.antt =====
-- A cycle whose state file could not be loaded records nothing and does not overwrite the file.
use tinyland_cleanup.Records.{no_result, CleanupResult, new_cleanup_state, or_zero}
use tinyland_cleanup.Cycle.Plans.{
  IndependentRun, after_watch, append_plugin, dry_run_plugin, first_report, independent_ended,
  is_yield, run_level_independent, watch_cleanup,
}
use tinyland_cleanup.StateFile.{load_failed}
use tinyland_cleanup.Cycle.Kept.{Kept, Kept-refl, Kept-trans, loaded_keeps}
use tinyland_cleanup.Cycle.Run.{load_state_for_cycle, run_cycle, start_report, run_independents}
use tinyland_cleanup.Cycle.Plugins.{
  run_independent, run_plugin, run_plugins, clean_plugin, gated, run_ladder, stop, add_freed,
  append_run, ladder_ended, ran_report, record_run,
}
use tinyland_cleanup.Prelude.{
  Dict, if◌then◌else◌, inr, not, ◌&&◌, Bool, List, String, [], false, if_both, if_false, refl,
  str_eq, true, ◌∷◌, ◌≡◌,
}
use tinyland_cleanup.Decide.{Daemon, cleanup_target_met, Plugin}
use tinyland_cleanup.Mounts.{assess_mounts}
use tinyland_cleanup.Cycle.{Context, Env, Locals, has_error, or_cancelled}
use tinyland_cleanup.Level.{is_none, Level}
use tinyland_cleanup.Clock.{Time}
use tinyland_cleanup.Cycle.Gates.{Gate, go, skip}
use tinyland_cleanup.Cycle.Skips.{dry_run_plugin_keeps}
use tinyland_cleanup.Watchdog.Worlds.{watch_keeps}
use tinyland_cleanup.Watchdog.{PluginWatch, Printer, apply_watch, wedge_abandoned}
use tinyland_cleanup.Report.{PluginCycleReport}

module _ {W : Type 0} (env : Env W) (x : Context) (P : W → Type 0)
    (plan_keeps : (name : String) (level : Level) (w : W) → P w → P (env.plan name level w).0)
    (clean_keeps : (name : String) (level : Level) (w : W)
      → P w
      → P (env.cleanup name level w).0) where
  plan_only :
      (plugin : Plugin) (independent : Bool) (p : PluginCycleReport) (l : Locals W)
      → Kept P l (dry_run_plugin env x plugin independent p l)
  plan_only plugin independent p l = dry_run_plugin_keeps env x P plan_keeps plugin independent p l

  cleaned_world :
      (plugin : Plugin) (l : Locals W) → P l.world → P (watch_cleanup env x plugin l).world
  unfolding watch_cleanup
  cleaned_world plugin l w =
      watch_keeps P x.daemon.config plugin.name (env.flight l.world plugin.name)
        (env.started l.world) (env.cleanup plugin.name x.level) l.world l.flights w
        (clean_keeps plugin.name x.level l.world w)

  -- The world and the state after a level-independent run are those of the watched call.
  ended_independent :
      (printer : Printer) (name : String) (l : Locals W) (w : PluginWatch)
      (a : PluginCycleReport × Bool) (result : CleanupResult)
      → Kept P l (independent_ended printer name l w a result).locals
  unfolding independent_ended
  ended_independent printer name l w (p, true) result = record {
    world = λ k. k;
    state = refl;
    dirty = refl;
  }
  ended_independent printer name l w (p, false) result =
      if_both (λ (r : IndependentRun W). Kept P l r.locals)
        (is_yield (or_cancelled printer w name result)) _ _
        (λ _. record { world = λ k. k; state = refl; dirty = refl })
        λ _. record { world = λ k. k; state = refl; dirty = refl }

  independent_keeps_state :
      (plugin : Plugin) (l : Locals W) → Kept P l (run_level_independent env x plugin l).locals
  unfolding run_level_independent
  independent_keeps_state plugin l =
      if_both (λ (r : IndependentRun W). Kept P l r.locals) x.daemon.dry_run _ _
        (λ _. plan_only plugin true _ l)
        λ _.
          let w = watch_cleanup env x plugin l in
          let k =
            ended_independent env.printer plugin.name (after_watch l w) w.watch
              (apply_watch env.printer (first_report x plugin true) w.watch)
              (or_zero no_result w.result) in
          record {
            world = λ h. k.world (cleaned_world plugin l h);
            state = k.state;
            dirty = k.dirty;
          }

  independents_keep_state :
      (plugins : List Plugin) (l : Locals W) → Kept P l (run_independents env x plugins l)
  unfolding run_independents
  independents_keep_state [] l = Kept-refl l
  independents_keep_state (p ∷ ps) l =
      Kept-trans
        (if_both (Kept P l) p.level_independent _ _ (λ _. independent_keeps_state p l)
          λ _. Kept-refl l)
        (independents_keep_state ps _)

  added_keeps : (l : Locals W) (r : CleanupResult) → Kept P l (add_freed l r)
  unfolding add_freed
  added_keeps l r =
      if_both (Kept P l) (is_yield r) _ _
        (λ _. record { world = λ k. k; state = refl; dirty = refl }) λ _. Kept-refl l

  module _ (bad : x.state_ok ≡ false) where
    append_run_keeps :
        (plugin : Plugin) (result : CleanupResult) (l : Locals W) (p : PluginCycleReport)
        → Kept P l (append_run x plugin result l p)
    unfolding append_run record_run
    append_run_keeps plugin result l p =
        if_false (λ (r : Locals W × PluginCycleReport). Kept P l (append_plugin r.0 r.1)) x.state_ok
          _ _ bad (record { world = λ k. k; state = refl; dirty = refl })

    ended_ladder :
        (plugin : Plugin) (l : Locals W) (w : PluginWatch) (a : PluginCycleReport × Bool)
        (result : CleanupResult)
        → Kept P l (ladder_ended env x plugin l w a result)
    unfolding ladder_ended
    ended_ladder plugin l w (p, true) result =
        if_both (Kept P l) (str_eq w.state wedge_abandoned) _ _ (λ _. append_run_keeps plugin _ l _)
          λ _. record { world = λ k. k; state = refl; dirty = refl }
    ended_ladder plugin l w (p, false) result =
        let done = or_cancelled env.printer w plugin.name result in
        let ran = append_run_keeps plugin done l (ran_report p done) in
        let added = Kept-trans ran (added_keeps _ done) in
        if_both (Kept P l) (has_error done) _ _ (λ _. ran)
          λ _. record { world = added.world; state = added.state; dirty = added.dirty }

    gated_keeps_state :
        (plugin : Plugin) (l : Locals W) (g : Gate) → Kept P l (gated env x plugin l g)
    unfolding gated clean_plugin
    gated_keeps_state plugin l (skip p) = record { world = λ k. k; state = refl; dirty = refl }
    gated_keeps_state plugin l (go p) =
        if_both (Kept P l) x.daemon.dry_run _ _ (λ _. plan_only plugin false p l)
          λ _.
            let w = watch_cleanup env x plugin l in
            let k =
              ended_ladder plugin (after_watch l w) w.watch (apply_watch env.printer p w.watch)
                (or_zero no_result w.result) in
            record {
              world = λ h. k.world (cleaned_world plugin l h);
              state = k.state;
              dirty = k.dirty;
            }

    ladder_keeps_state : (plugin : Plugin) (l : Locals W) → Kept P l (run_ladder env x plugin l)
    unfolding run_ladder stop
    ladder_keeps_state plugin l =
        if_both (Kept P l) (not x.daemon.dry_run && cleanup_target_met l.report) _ _
          (λ _. record { world = λ k. k; state = refl; dirty = refl })
          λ _. gated_keeps_state plugin l _

    plugin_keeps_state : (plugin : Plugin) (l : Locals W) → Kept P l (run_plugin env x plugin l)
    unfolding run_plugin run_independent
    plugin_keeps_state plugin l =
        let k = independent_keeps_state plugin l in
        if_both (Kept P l) plugin.level_independent _ _
          (λ h. record { world = k.world; state = k.state; dirty = k.dirty })
          λ h. ladder_keeps_state plugin l

    plugins_keep_state :
        (plugins : List Plugin) (l : Locals W) → Kept P l (run_plugins env x plugins l)
    unfolding run_plugins
    plugins_keep_state [] l = Kept-refl l
    plugins_keep_state (p ∷ ps) l =
        Kept-trans (plugin_keeps_state p l) (plugins_keep_state ps (run_plugin env x p l))

-- A cycle whose state file could not be loaded: a property of the world that planning and cleaning
-- keep, and that holds after the attempt to load, holds after the cycle, which therefore does not
-- save over the file; the state is still the fresh one.
pub unloaded_saves_nothing :
    {W : Type 0} (env : Env W) (d : Daemon) (P : W → Type 0)
    (plan_keeps : (name : String) (level : Level) (w : W) → P w → P (env.plan name level w).0)
    (clean_keeps : (name : String) (level : Level) (w : W) → P w → P (env.cleanup name level w).0)
    (plugins : List Plugin) (forced : Level) (now : Time) (flights : Dict Time) (w w' : W)
    (e : String)
    → load_state_for_cycle env d now w ≡ (w', load_failed e)
    → P w'
    → P (run_cycle env d plugins forced now flights w).world
      × ((run_cycle env d plugins forced now flights w).state ≡ new_cleanup_state)
unfolding run_cycle
unloaded_saves_nothing env d P plan_keeps clean_keeps plugins forced now flights w w' e bad_load h =
    let a = assess_mounts d.config d.home (env.disk_stats w) in
    let level = if is_none forced then a.level else forced in
    let r = start_report d now forced level a in
    rw bad_load (
      loaded_keeps env d P plugins level now r (load_failed e) flights w' (λ x _ bad. inr bad)
        (λ x _ bad. plugins_keep_state env x P plan_keeps clean_keeps bad plugins)
        (λ x _ _. independents_keep_state env x P plan_keeps clean_keeps plugins) h)
