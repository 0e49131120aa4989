-- ===== src/Cycle/Skips.antt =====
-- What a cycle leaves alone: a dry run cleans and saves nothing.
use tinyland_cleanup.Cycle.Plans.{IndependentRun, dry_run_plugin, run_level_independent, watch_plan}
use tinyland_cleanup.Records.{new_cleanup_state}
use tinyland_cleanup.StateFile.{Loaded}
use tinyland_cleanup.Cycle.Gates.{Gate, go, skip}
use tinyland_cleanup.Cycle.Run.{
  load_state_for_cycle, run_cycle, run_independents, run_loaded, start_report,
}
use tinyland_cleanup.Cycle.Kept.{Kept, Kept-refl, Kept-trans, loaded_keeps}
use tinyland_cleanup.Cycle.Plugins.{gated, run_independent, run_ladder, run_plugin, run_plugins}
use tinyland_cleanup.Watchdog.Worlds.{watch_keeps}
use tinyland_cleanup.Prelude.{
  Bool, Bool-cases, Dict, List, String, [], ap, arith, false, if_both, if_false, if_true,
  if◌then◌else◌, inl, inr, not, refl, true, ◌&&◌, ◌∙◌, ◌∷◌, ◌≡◌,
}
use tinyland_cleanup.Decide.{Daemon, Plugin, cleanup_target_met}
use tinyland_cleanup.Mounts.{assess_mounts}
use tinyland_cleanup.Cycle.{Context, Env, Locals}
use tinyland_cleanup.Level.{Level, is_none}
use tinyland_cleanup.Report.{PluginCycleReport}
use tinyland_cleanup.Clock.{Time}

module _ {W : Type 0} (env : Env W) (x : Context) (P : W → Type 0)
    (plan_keeps : (name : String) (level : Level) (w : W) → P w → P (env.plan name level w).0) where
  pub dry_run_plugin_keeps :
      (plugin : Plugin) (independent : Bool) (p : PluginCycleReport) (l : Locals W)
      → Kept P l (dry_run_plugin env x plugin independent p l)
  unfolding dry_run_plugin watch_plan
  dry_run_plugin_keeps plugin independent p l = elim (Bool-cases plugin.planner) [
    | inl h ↦ rw h (record {
      world = λ w.
          watch_keeps P x.daemon.config plugin.name (env.flight l.world plugin.name)
            (env.started l.world) (env.plan plugin.name x.level) l.world l.flights w
            (plan_keeps plugin.name x.level l.world w);
      state = refl;
      dirty = refl;
    })
    | inr h ↦ rw h (record { world = λ w. w; state = refl; dirty = refl })
  ]

  module _ (dry : x.daemon.dry_run ≡ true) where
    gated_keeps : (plugin : Plugin) (l : Locals W) (g : Gate) → Kept P l (gated env x plugin l g)
    unfolding gated
    gated_keeps plugin l (skip p) = record { world = λ w. w; state = refl; dirty = refl }
    gated_keeps plugin l (go p) =
        if_true (Kept P l) x.daemon.dry_run _ _ dry (dry_run_plugin_keeps plugin false p l)

    ladder_keeps : (plugin : Plugin) (l : Locals W) → Kept P l (run_ladder env x plugin l)
    unfolding run_ladder
    ladder_keeps plugin l =
        if_false (Kept P l) (not x.daemon.dry_run && cleanup_target_met l.report) _ _
          (ground (arith, dry)) (gated_keeps plugin l _)

    independent_keeps :
        (plugin : Plugin) (l : Locals W) → Kept P l (run_level_independent env x plugin l).locals
    unfolding run_level_independent
    independent_keeps plugin l =
        if_true (λ (r : IndependentRun W). Kept P l r.locals) x.daemon.dry_run _ _ dry
          (dry_run_plugin_keeps plugin true _ l)

    plugin_keeps : (plugin : Plugin) (l : Locals W) → Kept P l (run_plugin env x plugin l)
    unfolding run_plugin run_independent
    plugin_keeps plugin l =
        let k = independent_keeps plugin l in
        if_both (Kept P l) plugin.level_independent _ _
          (λ h. record { world = k.world; state = k.state; dirty = k.dirty })
          λ h. ladder_keeps plugin l

    plugins_keep : (plugins : List Plugin) (l : Locals W) → Kept P l (run_plugins env x plugins l)
    unfolding run_plugins
    plugins_keep [] l = Kept-refl l
    plugins_keep (p ∷ ps) l = Kept-trans (plugin_keeps p l) (plugins_keep ps (run_plugin env x p l))

    independents_keep :
        (plugins : List Plugin) (l : Locals W) → Kept P l (run_independents env x plugins l)
    unfolding run_independents
    independents_keep [] l = Kept-refl l
    independents_keep (p ∷ ps) l =
        Kept-trans
          (if_both (Kept P l) p.level_independent _ _ (λ h. independent_keeps p l) λ h. Kept-refl l)
          (independents_keep ps _)

-- In a dry run, whatever the mounts and the forced level: a property of the world that planning keeps
-- is kept by the whole cycle, which therefore cleans and saves nothing, and the state is the fresh
-- one that it started from.
pub dry_run_cleans_nothing :
    {W : Type 0} (env : Env W) (d : Daemon) (P : W → Type 0)
    (plan_keeps : (name : String) (level : Level) (w : W) → P w → P (env.plan name level w).0)
    (dry : d.dry_run ≡ true) (plugins : List Plugin) (forced : Level) (now : Time)
    (flights : Dict Time) (w : W)
    → P w
    → P (run_cycle env d plugins forced now flights w).world
      × ((run_cycle env d plugins forced now flights w).state ≡ new_cleanup_state)
unfolding run_cycle load_state_for_cycle
dry_run_cleans_nothing {W} env d P plan_keeps dry plugins forced now flights w h =
    let a = assess_mounts d.config d.home (env.disk_stats w) in
    let level = if is_none forced then a.level else forced in
    let r = start_report d now forced level a in
    if_true
      (λ (loaded_w : W × Loaded).
        let l = run_loaded env d plugins level now r loaded_w.1 flights loaded_w.0 in
        P l.world × (l.state ≡ new_cleanup_state))
      d.dry_run _ _ dry
      (loaded_keeps env d P plugins level now r _ flights w
        (λ x e _. inl (ap (λ (y : Daemon). y.dry_run) e ∙ dry))
        (λ x e _. plugins_keep env x P plan_keeps (ap (λ (y : Daemon). y.dry_run) e ∙ dry) plugins)
        (λ x e _.
          independents_keep env x P plan_keeps (ap (λ (y : Daemon). y.dry_run) e ∙ dry) plugins)
        h)
