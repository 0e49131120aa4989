-- ===== src/Daemon.antt =====
-- The daemon's loop (main.go: daemon.run): a cycle, its report, and a wait of a whole poll interval
-- from the end of the cycle.
--
-- The world W is also what the clock reads, the report is written to and the wait passes in. The loop
-- ends when the context is cancelled, so the model gives the first `n` cycles, for every `n`.
pub mod Spacing
use tinyland_cleanup.Clock.{add_time, Duration, Time, sub_time}
use tinyland_cleanup.Cycle.Run.{run_cycle}
use tinyland_cleanup.Prelude.{
  Bool, Dict, List, [], if◌then◌else◌, ltb_ℤ, pos, pos_part, suc, zero, ℕ, ◌*◌, ◌+◌, ◌/◌, ◌∷◌,
}
use tinyland_cleanup.Decide.{Daemon, Plugin}
use tinyland_cleanup.Cycle.{Env}
use tinyland_cleanup.Level.{level_none}
use tinyland_cleanup.Report.{CycleReport}
use tinyland_cleanup.Policy.{poll_interval}

pub record LoopEnv (W : Type 0) : Type 0 where
  pub cycle_env : Env W
  pub clock : W → W × Time
  pub write_report : CycleReport → W → W  -- writeDaemonReport, whose error is logged
  pub wait_or_done : Duration → W → W × Bool  -- whether ctx.Done() ended the wait

-- One round of the loop: when its cycle began and ended, when the next one is due, and whether the
-- cycle outlasted the interval.
pub record Round : Type 0 where
  pub started : Time
  pub finished : Time
  pub next_cycle_at : Time
  pub outlasted : Bool

-- CycleDurationMs as a duration: whole milliseconds, not negative
abbrev pub cycle_duration : Time → Time → ℕ
cycle_duration started finished =
    let elapsed = pos_part (sub_time finished started) in elapsed / 1000000 * 1000000

pub record LoopState (W : Type 0) : Type 0 where
  pub world : W
  pub flights : Dict Time  -- d.inFlight
  pub overrunning : Bool

module _ {W : Type 0} (env : LoopEnv W) (d : Daemon) (plugins : List Plugin) where
  -- The round up to the wait.
  unfoldable pub run_round : LoopState W → LoopState W × Round
  run_round s =
      let interval = poll_interval d.config in
      let (w1, now) = env.clock s.world in
      let l = run_cycle env.cycle_env d plugins level_none now s.flights w1 in
      let (w2, finished) = env.clock l.world in
      let (w3, at) = env.clock w2 in
      let outlasted = ltb_ℤ interval (pos (cycle_duration now finished)) in
      (
        record {
          world = env.write_report l.report w3;
          flights = l.flights;
          overrunning = outlasted;
        },
        record {
          started = now;
          finished = finished;
          next_cycle_at = add_time at interval;
          outlasted = outlasted;
        },
      )

  unfoldable pub run_daemon : ℕ → LoopState W → List Round
  run_daemon zero s = []
  run_daemon (suc n) s =
      let (s', round) = run_round s in
      let (w, is_done) = env.wait_or_done (poll_interval d.config) s'.world in
      let rest = run_daemon n (record s' { world = w }) in round ∷ (if is_done then [] else rest)
