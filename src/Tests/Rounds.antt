-- ===== src/Tests/Rounds.antt =====
-- Tests: the daemon's loop. The first part of the world stands for the time since noon.
use tinyland_cleanup.Prelude.{[], arith, false, pos_part, ◌+◌, ◌≤◌}
use tinyland_cleanup.Daemon.Spacing.{IsApart, IsTimed, cycles-IsApart}
use tinyland_cleanup.Daemon.{LoopEnv, LoopState, run_daemon}
use tinyland_cleanup.Clock.{second}
use tinyland_cleanup.Policy.{poll_interval}
use tinyland_cleanup.Samples.{World, both, fresh, noon, sample_daemon, sample_env}

abbrev loop_env : LoopEnv World
loop_env = record {
  cycle_env = sample_env fresh;
  clock = λ w. (w, noon + w.0);
  write_report = λ r w. w;
  wait_or_done = λ interval w. ((w.0 + pos_part interval, w.1), false);
}

loop-IsTimed : IsTimed loop_env
loop-IsTimed = record {
  at = λ w. noon + w.0;
  read_after = λ w. omega arith;
  read_before = λ w. omega arith;
  write_lasts = λ r w. omega arith;
  wait_lasts = λ interval w h. omega arith;
}

abbrev at_start : LoopState World
at_start = record { world = (0, 0); flights = []; overrunning = false }

cycles-IsApart_example :
    let interval = pos_part (poll_interval (sample_daemon false).config) in
    (second ≤ interval)
    × IsApart interval (run_daemon loop_env (sample_daemon false) both 3 at_start)
cycles-IsApart_example =
    cycles-IsApart loop_env (sample_daemon false) both loop-IsTimed (omega arith) 3 at_start
