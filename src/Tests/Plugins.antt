-- ===== src/Tests/Plugins.antt =====
-- Tests: the accounting of plans, the nix plugin and scan budgets.
use tinyland_cleanup.Nix.Collect.{
  poll_state, NixEnv, NixPlugin, active_work, lock_taken, poll, preflight_done,
}
use tinyland_cleanup.ScanBudget.Rotation.Fair.{IsRotating, scans_in_turn, every_root_visited}
use tinyland_cleanup.Prelude.{
  codes_before, In, All, Bool, if◌then◌else◌, length, ◌-◌, ◌==◌, arith, is_positive, ltb_ℤ, ◌<◌,
  ◌^◌, ◌≤ℤ◌, ◌≤◌, List, String, [], false, none, pos, refl, some, true, ℕ, ◌*◌, ◌+◌, ◌∷◌, ◌≡◌,
}
use tinyland_cleanup.ScanBudget.Rotation.Start.{Ascends}
use tinyland_cleanup.Nix.Generations.Deleted.{GenerationConfig, GenerationEnv}
use tinyland_cleanup.Nix.Generations.{Generation, GenerationPolicy}
use tinyland_cleanup.Nix.{
  weeks, GcState, NixConfig, days, empty_policy, go_duration, min_gap, parse_nix_policy_duration,
}
use tinyland_cleanup.ScanBudget.Shares.{visited, AllShares, lane_is_fair}
use tinyland_cleanup.Nix.Collect.Busy.{held_bounded, held_passes}
use tinyland_cleanup.Nix.Collect.Spacing.{remembered, waits_out_the_gap}
use tinyland_cleanup.Accounting.Totals.{
  accounting_exact, any_target, is_in_use, is_protected, is_reviewed, physical, reclaims, totals_of,
}
use tinyland_cleanup.ScanBudget.{
  ContextError, ScanBudget, deadline_exceeded, no_error, root_pool, share_budget,
}
use tinyland_cleanup.Accounting.{
  CleanupTarget, add_targets, no_totals, reclaim_deferred, reclaim_host, no_target,
}
use tinyland_cleanup.Level.{level_critical}
use tinyland_cleanup.Clock.{Time, minute, second, sub_time, Duration, hour}
use tinyland_cleanup.Records.{no_result}
use tinyland_cleanup.Samples.{noon}

abbrev counted : List CleanupTarget
counted =
    record no_target { bytes = pos 10; protected = true; active = true }
    ∷ record no_target { bytes = pos 20; action = "delete" }
    ∷ record no_target { bytes = pos 5; reclaim = "deferred" }
    ∷ []

counted_few : physical any_target counted < 2 ^ 63
unfolding physical
counted_few = omega arith

accounting_exact_example :
    (add_targets counted no_totals ≡ totals_of counted)
    × (physical any_target counted
        ≡ physical is_protected counted
          + physical (reclaims reclaim_host) counted
          + physical (reclaims reclaim_deferred) counted
          + physical is_reviewed counted)
    × (physical is_in_use counted ≤ physical is_protected counted)
accounting_exact_example = accounting_exact counted counted_few

abbrev nix_config : NixConfig
nix_config = record {
  min_gc_interval = go_duration (pos (30 * minute));
  periodic_gc_interval = days 1;
  max_busy_deferrals = pos 2;
  max_busy_deferral_duration = empty_policy;
  skip_when_daemon_busy = true;
  hook_pin_required = false;
  gc_state_file = "";
  allow_store_optimize = false;
}

abbrev never_collected : GcState
never_collected = record {
  last_gc_attempt = 0;
  deferred_passes = 0;
  first_deferred_at = 0;
  last_deferral = "";
}

abbrev nix_env : NixEnv ℕ
nix_env = record {
  publish = λ w. w;
  refresh_pins = λ w. (w, none);
  load_state = λ w. never_collected;
  save_state = λ st w. w;
  clock = λ w. (w + 1, noon + minute);
  is_available = λ w. true;
  marker = λ w. none;
  lock = λ w. (w, lock_taken);
  release = λ w. w;
  inspect = λ w. (w, active_work []);
  user_generations = λ level w. (w, no_result);
  home_generations = λ level w. (w, no_result);
  preflight = λ w. (w, preflight_done false);
  collect = λ level w. (w + 100, no_result);
}

abbrev just_collected : NixPlugin
just_collected = record { mem_state = never_collected; last_gc_attempt = noon }

gap_positive : is_positive (min_gap nix_config) ≡ true
unfolding parse_nix_policy_duration
gap_positive = refl

within_gap : ltb_ℤ (sub_time (noon + minute) noon) (min_gap nix_config) ≡ true
unfolding parse_nix_policy_duration sub_time
within_gap = refl

waits_out_the_gap_example :
    poll nix_env nix_config level_critical just_collected 0
    ≡ record { world = 1; plugin = just_collected; result = no_result }
waits_out_the_gap_example =
    waits_out_the_gap nix_env nix_config just_collected 0 level_critical noon (remembered refl)
      (omega arith) gap_positive within_gap

-- Work is always active; the world is the state file and the hour.
abbrev busy_env : NixEnv (GcState × ℕ)
busy_env = record {
  publish = λ w. w;
  refresh_pins = λ w. (w, none);
  load_state = λ w. w.0;
  save_state = λ st w. (st, w.1);
  clock = λ w. (w, noon + w.1 * hour);
  is_available = λ w. true;
  marker = λ w. none;
  lock = λ w. (w, lock_taken);
  release = λ w. w;
  inspect = λ w. (w, active_work ("nix-build" ∷ []));
  user_generations = λ level w. (w, no_result);
  home_generations = λ level w. (w, no_result);
  preflight = λ w. (w, preflight_done false);
  collect = λ level w. (w, no_result);
}

abbrev an_hour_on : GcState × ℕ → GcState × ℕ
an_hour_on w = (w.0, w.1 + 1)

none_counted :
    pos (poll_state busy_env nix_config just_collected (never_collected, 0)).deferred_passes
    ≤ℤ nix_config.max_busy_deferrals
unfolding poll_state
none_counted = omega arith

held_bounded_example :
    pos (
      (poll_state busy_env nix_config just_collected (never_collected, 0)).deferred_passes
      + held_passes busy_env nix_config level_critical
          (an_hour_on ∷ an_hour_on ∷ an_hour_on ∷ [])
          just_collected
          (never_collected, 0))
    ≤ℤ nix_config.max_busy_deferrals
held_bounded_example =
    held_bounded busy_env nix_config (record { reads_back = λ _ st w. refl }) level_critical
      (an_hour_on ∷ an_hour_on ∷ an_hour_on ∷ []) just_collected (never_collected, 0)
      ((λ _ _. refl), ((λ _ _. refl), ((λ _ _. refl), tt))) refl none_counted

abbrev scan : ScanBudget
scan = share_budget (pos minute) (pos 10) (pos 5)

abbrev scan_walks : List (Duration × List (ContextError × String))
scan_walks =
    (pos second, (no_error, "/tmp/a") ∷ (no_error, "/tmp/a/b") ∷ [])
    ∷ (pos second, (deadline_exceeded, "/tmp/c") ∷ [])
    ∷ []

lane_is_fair_example :
    AllShares 5 scan_walks (pos 5) (root_pool scan 2)
    × (visited scan_walks (pos 5) (root_pool scan 2) ≤ 10)
lane_is_fair_example =
    lane_is_fair scan scan_walks (pos 5) 10 5 refl (omega arith) (omega arith) (omega arith)

abbrev generation : ℕ → Time → Bool → Generation
generation number created_at is_current = record {
  number = number;
  created_at = created_at;
  is_current = is_current;
  scope = "user";
  profile = "";
}

abbrev listed : List Generation
listed =
    generation 1 (noon - 300 * hour) false
    ∷ generation 2 (noon - 200 * hour) true
    ∷ generation 3 (noon - 100 * hour) false
    ∷ []

abbrev digit_text : ℕ → String
digit_text n = if n == 1 then "1" else if n == 2 then "2" else "3"

abbrev week_old : GenerationPolicy
week_old = record {
  number_text = digit_text;
  min_keep = pos 1;
  max_keep = pos 0;
  older_than = pos (7 * 24 * hour);
}

-- a world that counts the versions deleted
abbrev generation_env : GenerationEnv ℕ
generation_env = record {
  has_command = λ w. true;
  list = λ w. (w, some listed);
  now = λ w. noon;
  delete = λ vs w. (w + length vs, none);
}

abbrev generation_config : GenerationConfig
generation_config = record {
  delete_generations_older_than = weeks 1;
  critical_delete_generations_older_than = days 1;
  home_delete_generations_older_than = empty_policy;
  home_critical_delete_generations_older_than = empty_policy;
  min_user_generations = pos 1;
  max_user_generations = pos 0;
  min_home_generations = pos 0;
  max_home_generations = pos 0;
  delete_home_generations = true;
  skip_when_daemon_busy = true;
}

abbrev workspaces : List String
workspaces = "/src/a" ∷ "/src/b" ∷ "/src/c" ∷ []

workspaces_ascend : Ascends workspaces
unfolding codes_before
workspaces_ascend = ((refl, (refl, tt)), ((refl, tt), (tt, tt)))

abbrev rotating_scan : ScanBudget
rotating_scan = record scan {
  workspace_max_roots = pos 2;
  workspace_cursor_file = "/var/state.dev-artifacts.json";
  persist_workspace_cursors = true;
  cursors = ("node_modules", "/src/b") ∷ [];
}

rotating_scan-IsRotating : IsRotating "node_modules" 2 rotating_scan
rotating_scan-IsRotating = record {
  persists = refl;
  has_file = refl;
  has_key = refl;
  bounded = refl;
}

every_root_visited_example :
    All (λ r. In r (scans_in_turn 2 "node_modules" workspaces rotating_scan)) workspaces
every_root_visited_example =
    every_root_visited 2 "node_modules" workspaces rotating_scan 1 rotating_scan-IsRotating
      workspaces_ascend (refl, (refl, (refl, tt))) (omega arith) (omega arith)
