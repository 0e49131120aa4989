-- ===== src/Cycle/Kept.antt =====
-- A cycle that records nothing: in a dry run, or where the state could not be loaded.
-- What a step keeps of the locals, and of the world as far as P tells.
-- What a step keeps of the locals, and of the world as far as P tells.
use tinyland_cleanup.Cycle.Recording.{
  engage_backoffs, lift_suppressed, put_totals, record_bytes, record_inodes, release_bytes,
  save_if_dirty,
}
use tinyland_cleanup.StateFile.{Loaded}
use tinyland_cleanup.Cycle.Run.{
  cycle_context, is_loaded, loaded_state, run_loaded, start_locals, finish_cycle, pressure_cycle,
  quiet_cycle, run_independents,
}
use tinyland_cleanup.Prelude.{
  str_eq, ◌==◌, ◌||◌, ◌⊎◌, arith, if_both, if_false, if_true, not, ◌&&◌, List, Bool, Dict, false,
  refl, true, ◌∙◌, ◌≡◌,
}
use tinyland_cleanup.State.{byte_no_progress_pending, lift_zero_yield_suppression}
use tinyland_cleanup.Cycle.{is_measured, Context, Env, Locals}
use tinyland_cleanup.Cycle.Plugins.{measure_after, run_plugins}
use tinyland_cleanup.Level.{is_none, Level}
use tinyland_cleanup.Report.{CycleReport}
use tinyland_cleanup.Decide.{Daemon, Plugin}
use tinyland_cleanup.Clock.{Time}

pub record Kept {W : Type 0} (P : W → Type 0) (l l' : Locals W) : Type 0 where
  pub world : P l.world → P l'.world
  pub state : l'.state ≡ l.state
  pub dirty : l'.state_dirty ≡ l.state_dirty

pub Kept-trans :
    {W : Type 0} {P : W → Type 0} {l m n : Locals W} → Kept P l m → Kept P m n → Kept P l n
Kept-trans h k = record {
  world = λ w. k.world (h.world w);
  state = k.state ∙ h.state;
  dirty = k.dirty ∙ h.dirty;
}

pub Kept-refl : {W : Type 0} {P : W → Type 0} (l : Locals W) → Kept P l l
Kept-refl l = record { world = λ w. w; state = refl; dirty = refl }

-- Nothing may be recorded.
abbrev pub IsIdle : Context → Type 0
IsIdle x = (x.daemon.dry_run ≡ true) ⊎ (x.state_ok ≡ false)

module _ {W : Type 0} (env : Env W) (x : Context) (P : W → Type 0) (idle : IsIdle x)
    (was : Bool) where
  save_keeps : (l : Locals W) → l.state_dirty ≡ false → Kept P l (save_if_dirty env l)
  unfolding save_if_dirty
  save_keeps l clean = if_false (Kept P l) l.state_dirty _ _ clean (Kept-refl l)

  release_keeps : (l : Locals W) → Kept P l (release_bytes x was l)
  unfolding release_bytes
  release_keeps l =
      if_false (Kept P l)
        (not x.daemon.dry_run
          && x.state_ok
          && is_measured x.before
          && (was || byte_no_progress_pending l.state l.report.monitor_path))
        _ _ (ground (arith, idle)) (Kept-refl l)

  lift_keeps : (l : Locals W) → Kept P l (lift_suppressed x l)
  unfolding lift_suppressed
  lift_keeps l =
      if_false (Kept P l)
        (not x.daemon.dry_run && x.state_ok && (lift_zero_yield_suppression l.state).1) _ _
        (ground (arith, idle)) (Kept-refl l)

  inodes_keep : (l : Locals W) → Kept P l (record_inodes x l)
  unfolding record_inodes
  inodes_keep l =
      if_true (Kept P l) (x.daemon.dry_run || not x.state_ok || l.report.host_inodes_total == 0) _ _
        (ground (arith, idle)) (Kept-refl l)

  bytes_keep : (l : Locals W) → Kept P l (record_bytes x was l)
  unfolding record_bytes
  bytes_keep l =
      if_true (Kept P l)
        (x.daemon.dry_run
          || not x.state_ok
          || not (is_measured x.before)
          || not (str_eq l.report.host_free_error ""))
        _ _ (ground (arith, idle)) (Kept-refl l)

  module _ (plugins : List Plugin) where
    quiet_keeps :
        (l : Locals W)
        → ((m : Locals W) → Kept P m (run_independents env x plugins m))
        → l.state_dirty ≡ false
        → Kept P l (quiet_cycle env x was plugins l)
    unfolding quiet_cycle
    quiet_keeps l keep_all clean =
        let released = release_keeps l in
        let lifted = Kept-trans released (lift_keeps (release_bytes x was l)) in
        Kept-trans lifted (Kept-trans (save_keeps _ (lifted.dirty ∙ clean)) (keep_all _))

    finish_keeps : (l : Locals W) → l.state_dirty ≡ false → Kept P l (finish_cycle env x was l)
    unfolding finish_cycle
    finish_keeps l clean =
        let measured_l = measure_after env x (put_totals l) in
        let recorded =
          Kept-trans (inodes_keep measured_l) (bytes_keep (record_inodes x measured_l)) in
        let saved = Kept-trans recorded (save_keeps _ (recorded.dirty ∙ clean)) in
        record { world = saved.world; state = saved.state; dirty = saved.dirty }

    pressure_keeps :
        (l : Locals W)
        → ((m : Locals W) → Kept P m (run_plugins env x plugins m))
        → l.state_dirty ≡ false
        → Kept P l (pressure_cycle env x was plugins l)
    unfolding pressure_cycle
    pressure_keeps l keep_all clean =
        let l' : Locals W = record l { report = engage_backoffs x.daemon x.state_ok l.report } in
        let ran = keep_all l' in
        let done = Kept-trans ran (finish_keeps _ (ran.dirty ∙ clean)) in
        record { world = done.world; state = done.state; dirty = done.dirty }

pub loaded_keeps :
    {W : Type 0} (env : Env W) (d : Daemon) (P : W → Type 0) (plugins : List Plugin) (level : Level)
    (now : Time) (r : CycleReport) (s : Loaded) (flights : Dict Time) (w : W)
    (idle : (x : Context) → x.daemon ≡ d → x.state_ok ≡ is_loaded s → IsIdle x)
    (ladder : (x : Context)
      → x.daemon ≡ d
      → x.state_ok ≡ is_loaded s
      → (m : Locals W) → Kept P m (run_plugins env x plugins m))
    (independent : (x : Context)
      → x.daemon ≡ d
      → x.state_ok ≡ is_loaded s
      → (m : Locals W) → Kept P m (run_independents env x plugins m))
    → P w
    → P (run_loaded env d plugins level now r s flights w).world
      × ((run_loaded env d plugins level now r s flights w).state ≡ loaded_state s)
unfolding run_loaded
loaded_keeps env d P plugins level now r s flights w idle ladder independent h =
    let x = cycle_context d now level (env.disk_stats w r.monitor_path) s in
    let idle_x = idle x refl refl in
    let keeps =
      if_both (Kept P (start_locals w r (loaded_state s) flights)) (is_none level) _ _
        (λ _.
          let k = quiet_keeps env x P idle_x _ plugins _ (independent x refl refl) refl in
          record { world = k.world; state = k.state; dirty = k.dirty })
        λ _.
          let k = pressure_keeps env x P idle_x _ plugins _ (ladder x refl refl) refl in
          record { world = k.world; state = k.state; dirty = k.dirty } in
    (keeps.world h, keeps.state)
