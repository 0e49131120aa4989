-- ===== src/Tests/Cycles.antt =====
-- Tests: whole cycles and the watchdog.
use tinyland_cleanup.Records.{
  CleanupResult, CleanupState, PluginStateRecord, new_cleanup_state, no_plugin_record,
}
use tinyland_cleanup.StateFile.{load_failed}
use tinyland_cleanup.Cycle.Unsaved.{unloaded_saves_nothing}
use tinyland_cleanup.Cycle.Gates.{gates}
use tinyland_cleanup.Cycle.Cooldown.{is_skip, no_rerun_within_cooldown}
use tinyland_cleanup.Cycle.Reports.{every_plugin_reported, ladder_runs_recorded}
use tinyland_cleanup.Watchdog.Effect.{is_given_up}
use tinyland_cleanup.Watchdog.Exclusive.{Sys, call, idle}
use tinyland_cleanup.Prelude.{
  arith, if◌then◌else◌, lookup, pos, some, str_eq, suc, ◌&&◌, ◌*◌, ◌+◌, ◌∷◌, All, [], false, refl,
  true, ◌≡◌,
}
use tinyland_cleanup.Decide.{plugin_cooldown, should_apply_cooldown, is_ladder_run}
use tinyland_cleanup.Mounts.{measured}
use tinyland_cleanup.Cycle.{Context, Locals}
use tinyland_cleanup.Level.{level_critical, level_warning, level_none}
use tinyland_cleanup.Watchdog.{FlightView, Observed, not_returned}
use tinyland_cleanup.Report.{no_plugin_report, no_report, PluginCycleReport}
use tinyland_cleanup.Clock.{format_stamp, hour, minute}
use tinyland_cleanup.Policy.{cleanup_cooldown, cooldown_bypass_level}
use tinyland_cleanup.Samples.{
  bazel, docker, sample_config, tight_stats, World, both, fresh, noon, sample_daemon, sample_env,
}
use tinyland_cleanup.Cycle.Skips.{dry_run_cleans_nothing}
use tinyland_cleanup.Cycle.Run.{cycle_level, load_state_for_cycle, run_cycle}
use tinyland_cleanup.Cycle.Reported.{AllFit}
use tinyland_cleanup.Cycle.Outcomes.{HasRun}
use tinyland_cleanup.Cycle.Whole.{selected}

abbrev dry_cycle : Locals World
dry_cycle = run_cycle (sample_env fresh) (sample_daemon true) both level_none noon [] (0, 0)

abbrev real_cycle : Locals World
real_cycle = run_cycle (sample_env fresh) (sample_daemon false) both level_none noon [] (0, 0)

dry_run_cleans_nothing_example : (dry_cycle.world ≡ (0, 0)) × (dry_cycle.state ≡ new_cleanup_state)
dry_run_cleans_nothing_example =
    dry_run_cleans_nothing (sample_env fresh) (sample_daemon true) (λ w. w ≡ (0, 0))
      (λ name level w h. h) refl both level_none noon [] (0, 0) refl

every_plugin_reported_example :
    AllFit false
      (selected (cycle_level (sample_env fresh) (sample_daemon false) level_none (0, 0)) both)
      real_cycle.report.plugins
every_plugin_reported_example =
    every_plugin_reported (sample_env fresh) (sample_daemon false) both level_none noon [] (0, 0)

loads_fresh :
    load_state_for_cycle (sample_env fresh) (sample_daemon false) noon (0, 0) ≡ ((0, 0), fresh)
unfolding load_state_for_cycle
loads_fresh = refl

ladder_runs_recorded_example :
    All
      (λ (q : PluginCycleReport).
        is_ladder_run q ≡ true
        → HasRun real_cycle.state q.name
            (cycle_level (sample_env fresh) (sample_daemon false) level_none (0, 0))
            noon)
      real_cycle.report.plugins
ladder_runs_recorded_example =
    ladder_runs_recorded (sample_env fresh) (sample_daemon false) both level_none noon [] (0, 0)
      (0, 0) (record { version = 2; plugins = []; inodes = []; bytes = [] }) "" loads_fresh

loads_badly :
    load_state_for_cycle (sample_env (load_failed "EIO")) (sample_daemon false) noon (0, 0)
    ≡ ((0, 0), load_failed "EIO")
unfolding load_state_for_cycle
loads_badly = refl

unloaded_saves_nothing_example :
    let l =
      run_cycle
        (sample_env (load_failed "EIO"))
        (sample_daemon false)
        both
        level_none
        noon
        []
        (0, 0) in
    (l.world.1 ≡ 0) × (l.state ≡ new_cleanup_state)
unloaded_saves_nothing_example =
    unloaded_saves_nothing (sample_env (load_failed "EIO")) (sample_daemon false) (λ w. w.1 ≡ 0)
      (λ name level w h. h) (λ name level w h. h) both level_none noon [] (0, 0) (0, 0) "EIO"
      loads_badly refl

abbrev bazel_cycle : Locals World
bazel_cycle =
    run_cycle (sample_env fresh) (sample_daemon false) (bazel ∷ []) level_warning noon [] (0, 0)

-- A state in which docker ran at noon, at the critical level.
abbrev docker_record : PluginStateRecord
docker_record = record no_plugin_record {
  last_run = format_stamp noon;
  last_level = "critical";
  last_level_value = 4;
}

abbrev after_docker : CleanupState
after_docker = record {
  version = 2;
  plugins = ("docker", docker_record) ∷ [];
  inodes = [];
  bytes = [];
}

abbrev five_minutes_later : Context
five_minutes_later = record {
  daemon = sample_daemon false;
  now = noon + 5 * minute;
  level = level_warning;
  before = measured tight_stats;
  state_ok = true;
  zero_yield = record {
    limit = pos 2;
    base = pos (30 * minute);
    max = pos (6 * hour);
    pressure_min = pos hour;
  };
}

docker_ran : HasRun after_docker "docker" level_critical noon
unfolding lookup
docker_ran = (refl, refl)

held_for_half_an_hour :
    plugin_cooldown (sample_daemon false) no_report level_warning
    ≡ some (record { interval = pos (30 * minute); reason = "cooldown" })
unfolding plugin_cooldown should_apply_cooldown cleanup_cooldown cooldown_bypass_level
held_for_half_an_hour = refl

no_rerun_within_cooldown_example :
    is_skip (gates five_minutes_later docker after_docker no_report no_plugin_report) ≡ true
no_rerun_within_cooldown_example =
    no_rerun_within_cooldown five_minutes_later docker after_docker no_report no_plugin_report
      level_critical noon (30 * minute) "cooldown" docker_ran refl held_for_half_an_hour
      (omega arith) (omega arith) (omega arith) (omega arith)

abbrev hung : Observed CleanupResult
hung = record { outcome = not_returned; last_command = "docker prune"; commands = [] }

abbrev not_done : FlightView
not_done = record { done = false; last_command = "docker prune"; commands = [] }

-- docker was called, hung, and was given up.
abbrev wedged : Sys
wedged = record {
  flights = (call sample_config CleanupResult idle "docker" not_done noon hung).flights;
  live = λ n.
      if is_given_up (call sample_config CleanupResult idle "docker" not_done noon hung).watch
        && str_eq "docker" n
      then suc 0
      else 0;
}
