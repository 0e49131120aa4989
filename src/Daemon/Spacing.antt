-- ===== src/Daemon/Spacing.antt =====
-- The cycles of the daemon are a poll interval apart.
use tinyland_cleanup.Prelude.{
  Bool-cases, inl, inr, neg_part, pos, refl, ◌*◌, ◌<◌, ◌^◌, ◌≤ℤ◌, List, [], arith, false, if_both,
  is_positive, pos_part, suc, zero, ℕ, ◌+◌, ◌∷◌, ◌≡◌, ◌≤◌,
}
use tinyland_cleanup.Clock.{int64_small, Duration, Time, second}
use tinyland_cleanup.Cycle.Run.{run_cycle}
use tinyland_cleanup.Decide.{Daemon, Plugin}
use tinyland_cleanup.Level.{level_none}
use tinyland_cleanup.Daemon.{LoopEnv, LoopState, Round, run_daemon, run_round}
use tinyland_cleanup.Report.{CycleReport}
use tinyland_cleanup.Policy.{poll_interval}

-- What the loop relies on: a clock that does not go back and a wait that lasts. `at` is the time of a
-- world.
pub record IsTimed {W : Type 0} (env : LoopEnv W) : Type 0 where
  pub at : W → Time
  pub read_after : (w : W) → at w ≤ (env.clock w).1
  pub read_before : (w : W) → (env.clock w).1 ≤ at (env.clock w).0
  pub write_lasts : (r : CycleReport) (w : W) → at w ≤ at (env.write_report r w)
  pub wait_lasts :
      (interval : Duration) (w : W)
      → (env.wait_or_done interval w).1 ≡ false
      → at w + pos_part interval ≤ at (env.wait_or_done interval w).0

-- The longest poll_interval, in seconds, whose Duration is an int64.
abbrev pub max_poll_interval : ℕ
max_poll_interval = 9223372036

-- A round ends a whole interval before its next cycle is due, and the next one does not start before.
abbrev pub IsApart : ℕ → List Round → Type 0
IsApart interval [] = Unit {0}
IsApart interval (c ∷ []) = c.finished + interval ≤ c.next_cycle_at
IsApart interval (c ∷ c' ∷ cs) =
    (c.finished + interval ≤ c.next_cycle_at)
    × (c.next_cycle_at ≤ c'.started)
    × IsApart interval (c' ∷ cs)

module _ {W : Type 0} (env : LoopEnv W) (d : Daemon) (plugins : List Plugin) (timed : IsTimed env)
    (bounded : d.config.poll_interval ≤ℤ pos max_poll_interval) where
  abbrev interval : ℕ
  interval = pos_part (poll_interval d.config)

  interval_value :
      (second ≤ pos_part (poll_interval d.config)) × (neg_part (poll_interval d.config) ≡ 0)
  unfolding poll_interval
  interval_value = elim (Bool-cases (is_positive d.config.poll_interval)) [
    | inl e ↦
        let small : pos_part d.config.poll_interval * second < 2 ^ 63 = ground (arith, bounded) in
        let some : 0 < pos_part d.config.poll_interval = ground (arith, e) in
        rw (e, int64_small (pos_part d.config.poll_interval * second) small)
          (omega (arith, some), refl)
    | inr e ↦ rw e (omega arith, refl)
  ]

  record Told (s : LoopState W) (o : LoopState W × Round) : Type 0 where
    begins : timed.at s.world ≤ o.1.started
    ends : o.1.finished + interval ≤ o.1.next_cycle_at
    due : o.1.next_cycle_at ≤ timed.at o.0.world + interval

  run_round-Told : (s : LoopState W) → Told s (run_round env d plugins s)
  unfolding run_round
  run_round-Told s =
      let w1 = (env.clock s.world).0 in
      let l = run_cycle env.cycle_env d plugins level_none (env.clock s.world).1 s.flights w1 in
      let w2 = (env.clock l.world).0 in
      let w3 = (env.clock w2).0 in
      record {
        begins = timed.read_after s.world;
        ends = omega (arith, interval_value.1, timed.read_before l.world, timed.read_after w2);
        due = omega (arith, interval_value.1, timed.read_before w2, timed.write_lasts l.report w3);
      }

  -- The next rounds, which start at or after a time.
  abbrev From : Time → List Round → Type 0
  From t [] = Unit {0}
  From t (c ∷ cs) = t ≤ c.started

  IsApart-cons :
      (c : Round) (cs : List Round)
      → c.finished + interval ≤ c.next_cycle_at
      → From c.next_cycle_at cs
      → IsApart interval cs
      → IsApart interval (c ∷ cs)
  IsApart-cons c [] h f k = h
  IsApart-cons c (c' ∷ cs) h f k = (h, f, k)

  rounds-IsApart :
      (n : ℕ) (s : LoopState W)
      → IsApart interval (run_daemon env d plugins n s)
        × From (timed.at s.world) (run_daemon env d plugins n s)
  unfolding run_daemon
  rounds-IsApart zero s = (tt, tt)
  rounds-IsApart (suc n) s =
      let (s', round) = run_round env d plugins s in
      let told = run_round-Told s in
      let wait = env.wait_or_done (poll_interval d.config) s'.world in
      let (apart, starts) = rounds-IsApart n (record s' { world = wait.0 }) in
      (
        if_both (λ (cs : List Round). IsApart interval (round ∷ cs)) wait.1 _ _ (λ _. told.ends)
            (λ h.
              IsApart-cons round _ told.ends
                (From-le
                  (omega (arith, told.due, timed.wait_lasts (poll_interval d.config) s'.world h)) _
                  starts)
                apart),
        told.begins,
      )
    where
      From-le : {t u : Time} → t ≤ u → (cs : List Round) → From u cs → From t cs
      From-le h [] k = tt
      From-le h (c ∷ cs) k = omega (arith, h, k)

  -- With a poll_interval of at most 9223372036 seconds, a clock that does not go back and a wait that
  -- lasts, the next cycle is due a whole interval after a cycle has ended, however long the cycle
  -- took, and no cycle starts before it is due. The interval is at least a second.
  pub cycles-IsApart :
      (n : ℕ) (s : LoopState W)
      → (second ≤ pos_part (poll_interval d.config))
        × IsApart (pos_part (poll_interval d.config)) (run_daemon env d plugins n s)
  cycles-IsApart n s = (interval_value.0, (rounds-IsApart n s).0)
