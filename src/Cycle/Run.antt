-- ===== src/Cycle/Run.antt =====
-- A whole cycle (main.go: runCycle): assess the mounts, load the state, measure, run the plugins, record
-- what they achieved and save the state.
use tinyland_cleanup.Clock.{whole_seconds, Time, format_stamp}
use tinyland_cleanup.Cycle.Recording.{
  engage_backoffs, lift_suppressed, put_totals, record_bytes, record_inodes, release_bytes,
  save_if_dirty,
}
use tinyland_cleanup.Cycle.Plans.{run_level_independent}
use tinyland_cleanup.Records.{CleanupState, new_cleanup_state}
use tinyland_cleanup.StateFile.{Loaded, load_failed, loaded}
use tinyland_cleanup.Cycle.Plugins.{measure_after, run_plugins}
use tinyland_cleanup.Prelude.{
  Bool, Dict, List, String, [], false, if◌then◌else◌, is_positive, not, pos, true, ℕ, ◌&&◌, ◌∷◌,
}
use tinyland_cleanup.Decide.{Daemon, Plugin, update_target_free_status}
use tinyland_cleanup.Mounts.{
  Assessment, Reading, assess_mounts, byte_level_for_path, failed, inode_level_for_path, measured,
  primary_monitor_path,
}
use tinyland_cleanup.State.{byte_backoff_engaged, byte_no_progress_count, inode_no_progress_count}
use tinyland_cleanup.Cycle.{Context, Env, Locals}
use tinyland_cleanup.Level.{Level, is_none, parse_level, to_string}
use tinyland_cleanup.Config.{Config}
use tinyland_cleanup.Report.{CycleReport, no_report}
use tinyland_cleanup.Policy.{
  cleanup_cooldown, emergency_free_bytes, minimum_free_bytes, zero_yield_policy,
}

unfoldable pub load_state_for_cycle : {W : Type 0} → Env W → Daemon → Time → W → W × Loaded
load_state_for_cycle env d now w =
    if d.dry_run then (w, loaded new_cleanup_state "") else env.load now w

abbrev pub is_loaded : Loaded → Bool
is_loaded (loaded s q) = true
is_loaded (load_failed e) = false

-- A state that failed to load is nil in the program, which never reads it: fresh here.
abbrev pub loaded_state : Loaded → CleanupState
loaded_state (loaded s q) = s
loaded_state (load_failed e) = new_cleanup_state

unfoldable pub start_report : Daemon → Time → Level → Level → Assessment → CycleReport
start_report d now forced level a =
    let cooldown = cleanup_cooldown d.config in
    record no_report {
      timestamp = format_stamp now;
      dry_run = d.dry_run;
      forced_level = not (is_none forced);
      level = to_string level;
      monitor_path = primary_monitor_path d.home a;
      max_inode_level = to_string a.inode_level;
      mounts = a.mounts;
      plugin_filter = d.plugin_filter;
      cooldown_seconds = if is_positive cooldown then whole_seconds cooldown else pos 0;
      minimum_free_bytes = minimum_free_bytes d.config;
      emergency_free_bytes = emergency_free_bytes d.config;
    }

unfoldable pub report_loaded : CycleReport → Loaded → CycleReport
report_loaded r (load_failed e) = record r { state_error = e }
report_loaded r (loaded s q) = record r {
  state_quarantined = q;
  inode_no_progress_count = inode_no_progress_count s r.monitor_path;
}

abbrev pub byte_count_of : Loaded → String → String → ℕ → ℕ
byte_count_of (load_failed e) path level before = before
byte_count_of (loaded s q) path level before = byte_no_progress_count s path (parse_level level)

unfoldable pub report_before : Config → Loaded → CycleReport → Reading → CycleReport
report_before c s r (failed e) = record r { host_free_error = e }
report_before c s r (measured stats) =
    let r' : CycleReport = record r {
      host_free_before_bytes = stats.free;
      host_inodes_total = stats.inodes_total;
      host_inodes_free_before = stats.inodes_free;
      host_inodes_used_percent_before = stats.inodes_used_percent;
      host_inode_level = to_string (inode_level_for_path c r.monitor_path stats);
      host_byte_level = to_string (byte_level_for_path c r.monitor_path stats);
    } in
    let r'' = update_target_free_status c r' stats in
    record r'' {
      byte_no_progress_count =
          byte_count_of s r''.monitor_path r''.host_byte_level r''.byte_no_progress_count;
    }

unfoldable pub run_independents : {W : Type 0} → Env W → Context → List Plugin → Locals W → Locals W
run_independents env x [] l = l
run_independents env x (p ∷ ps) l =
    run_independents env x ps
      (if p.level_independent then (run_level_independent env x p l).locals else l)

unfoldable pub quiet_cycle :
    {W : Type 0} → Env W → Context → Bool → List Plugin → Locals W → Locals W
quiet_cycle env x was_engaged plugins l =
    run_independents env x plugins
      (save_if_dirty env (lift_suppressed x (release_bytes x was_engaged l)))

unfoldable pub finish_cycle : {W : Type 0} → Env W → Context → Bool → Locals W → Locals W
finish_cycle env x was_engaged l =
    save_if_dirty env
      (record_bytes x was_engaged (record_inodes x (measure_after env x (put_totals l))))

unfoldable pub pressure_cycle :
    {W : Type 0} → Env W → Context → Bool → List Plugin → Locals W → Locals W
pressure_cycle env x was_engaged plugins l =
    let l' = record l { report = engage_backoffs x.daemon x.state_ok l.report } in
    finish_cycle env x was_engaged (run_plugins env x plugins l')

abbrev pub start_locals : {W : Type 0} → W → CycleReport → CleanupState → Dict Time → Locals W
start_locals w r s flights = record {
  world = w;
  report = r;
  state = s;
  state_dirty = false;
  flights = flights;
  total_freed = pos 0;
  total_items = 0;
  ladder_freed = pos 0;
}

abbrev pub cycle_context : Daemon → Time → Level → Reading → Loaded → Context
cycle_context d now level before s = record {
  daemon = d;
  now = now;
  level = level;
  before = before;
  state_ok = is_loaded s;
  zero_yield = zero_yield_policy d.config;
}

-- The cycle once the state was loaded; `r` is the report so far.
unfoldable pub run_loaded :
    {W : Type 0}
    → Env W
    → Daemon
    → List Plugin
    → Level
    → Time
    → CycleReport
    → Loaded
    → Dict Time
    → W
    → Locals W
run_loaded env d plugins level now r s flights w =
    let before = env.disk_stats w r.monitor_path in
    let r' = report_before d.config s (report_loaded r s) before in
    let x = cycle_context d now level before s in
    let was_engaged = is_loaded s && byte_backoff_engaged (loaded_state s) r'.monitor_path in
    let l = start_locals w r' (loaded_state s) flights in
    if is_none level
    then quiet_cycle env x was_engaged plugins l
    else pressure_cycle env x was_engaged plugins l

abbrev pub assessed : {W : Type 0} → Env W → Daemon → W → Assessment
assessed env d w = assess_mounts d.config d.home (env.disk_stats w)

abbrev pub cycle_level : {W : Type 0} → Env W → Daemon → Level → W → Level
cycle_level env d forced w = if is_none forced then (assessed env d w).level else forced

-- `plugins` are the enabled ones, after the filter; `forced` is level_none unless forced.
unfoldable pub run_cycle :
    {W : Type 0} → Env W → Daemon → List Plugin → Level → Time → Dict Time → W → Locals W
run_cycle env d plugins forced now flights w =
    let level = cycle_level env d forced w in
    let (w', s) = load_state_for_cycle env d now w in
    run_loaded env d plugins level now (start_report d now forced level (assessed env d w)) s
      flights w'
