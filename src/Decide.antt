-- ===== src/Decide.antt =====
-- The daemon's decisions during a cycle (main.go): free-space target, cooldown, the inode breaker,
-- byte backoff, zero-yield exemptions and the next retry time. A decision reads the report that the
-- cycle has built so far.
pub mod Holding
pub mod Breaker
pub mod Retry
pub mod Target
pub mod Measured
use tinyland_cleanup.Prelude.{
  Bool, List, Option, String, [], any_of, codes, codes_eq, false, if◌then◌else◌, leb, leb_ℤ, length,
  ltb, ltb_ℤ, none, not, pos, some, str_eq, trim_space, true, ℕ, ℤ, ◌&&◌, ◌-ℤ◌, ◌-◌, ◌==◌, ◌||◌,
  ◌∷◌,
}
use tinyland_cleanup.Mounts.{
  Reading, byte_level_for_path, failed, inode_level_for_path, measured, target_used_percent,
}
use tinyland_cleanup.State.{byte_no_progress_count, inode_no_progress_count}
use tinyland_cleanup.Level.{
  Level, is_none, level_le, level_lt, level_moderate, parse_level, to_string,
}
use tinyland_cleanup.Config.{Config}
use tinyland_cleanup.Monitor.{DiskStats}
use tinyland_cleanup.Report.{CycleReport, MountReport, PluginCycleReport}
use tinyland_cleanup.Clock.{Duration, Stamp, Time, format_stamp, int64, no_stamp, parse_stamp}
use tinyland_cleanup.Policy.{
  byte_backoff_interval_for, byte_no_progress_limit, byte_progress_min_bytes, cleanup_cooldown,
  cooldown_bypass_level, emergency_free_bytes, inode_no_progress_limit, minimum_free_bytes,
  target_free_bytes,
}

-- The plugin, as far as the daemon asks it (plugins/plugin.go).
pub record Plugin : Type 0 where
  pub name : String
  pub description : String
  pub platforms : List String
  pub enabled : Bool
  pub level_independent : Bool
  pub safety_critical : Bool
  pub planner : Bool

-- The fields of the daemon that a decision reads.
pub record Daemon : Type 0 where
  pub config : Config
  pub dry_run : Bool
  pub plugin_filter : List String
  pub digest : String  -- configDigest: a hash of the version and the config
  pub home : Option String

-- int64(a) - int64(b) of two uint64
abbrev pub delta : ℕ → ℕ → ℤ
delta a b = int64 (int64 (pos a) -ℤ int64 (pos b))

-- the part of updateTargetFreeStatus for the absolute runway
unfoldable pub update_minimum : CycleReport → ℕ → CycleReport
update_minimum r free =
    if r.minimum_free_bytes == 0
    then r
    else if leb r.minimum_free_bytes free
    then record r { minimum_free_deficit_bytes = pos 0; minimum_free_met = true }
    else record r {
      minimum_free_deficit_bytes = int64 (pos (r.minimum_free_bytes - free));
      minimum_free_met = false;
    }

-- the part for the target: left as it is where no target applies
unfoldable pub update_target : CycleReport → ℤ → Option ℕ → ℕ → CycleReport
update_target r used none free = r
update_target r used (some target) free =
    if leb target free
    then record r {
      target_used_percent = used;
      target_free_bytes = target;
      target_free_deficit_bytes = pos 0;
      target_free_met = true;
    }
    else record r {
      target_used_percent = used;
      target_free_bytes = target;
      target_free_deficit_bytes = int64 (pos (target - free));
      target_free_met = false;
    }

unfoldable pub update_target_free_status : Config → CycleReport → DiskStats → CycleReport
unfolding update_minimum update_target
update_target_free_status c r stats =
    let used = target_used_percent c r.monitor_path in
    update_target (update_minimum r stats.free) used (target_free_bytes stats.total used) stats.free

abbrev pub host_after : Config → CycleReport → DiskStats → CycleReport
host_after c r after = record r {
  host_free_after_bytes = after.free;
  host_inodes_total = after.inodes_total;
  host_inodes_free_after = after.inodes_free;
  host_inodes_used_percent_after = after.inodes_used_percent;
  host_inode_level = to_string (inode_level_for_path c r.monitor_path after);
  host_byte_level_after = to_string (byte_level_for_path c r.monitor_path after);
}

-- `before` is the reading at the start of the cycle
abbrev pub host_deltas : CycleReport → Reading → DiskStats → CycleReport
host_deltas r (failed e) after = r
host_deltas r (measured stats) after = record r {
  host_free_delta_bytes = delta after.free stats.free;
  host_inodes_free_delta = delta after.inodes_free stats.inodes_free;
}

unfoldable pub update_host_free_after : Config → CycleReport → Reading → Reading → CycleReport
unfolding update_target_free_status
update_host_free_after c r before (failed e) = record r { host_free_error = e }
update_host_free_after c r before (measured after) =
    update_target_free_status c (host_deltas (host_after c r after) before after) after

unfoldable pub cleanup_target_met : CycleReport → Bool
cleanup_target_met r = r.target_free_met && is_none (parse_level r.max_inode_level)

unfoldable pub should_apply_cooldown : Daemon → CycleReport → Level → Bool
should_apply_cooldown d r level =
    if ltb 0 r.minimum_free_bytes && not r.minimum_free_met
    then false
    else if d.dry_run || r.forced_level || leb_ℤ (cleanup_cooldown d.config) (pos 0)
    then false
    else if level_le (cooldown_bypass_level d.config) level
    then r.inode_backoff
    else true

unfoldable pub inode_backoff_active : Config → CycleReport → Bool
inode_backoff_active c r =
    let bypass = cooldown_bypass_level c in
    if level_lt (parse_level r.host_inode_level) bypass
    then false
    else if level_le bypass (parse_level r.host_byte_level)
    then false
    else leb (inode_no_progress_limit c) r.inode_no_progress_count

-- An interval to hold a plugin back for, with the skip reason, or none.
pub record Hold : Type 0 where
  pub interval : Duration
  pub reason : String

unfoldable pub plugin_cooldown : Daemon → CycleReport → Level → Option Hold
plugin_cooldown d r level =
    if should_apply_cooldown d r level
    then some (record { interval = cleanup_cooldown d.config; reason = "cooldown" })
    else if r.byte_backoff
    then some (record {
      interval = byte_backoff_interval_for d.config r.byte_no_progress_count;
      reason = "byte_backoff";
    })
    else none

unfoldable pub byte_backoff_active : Config → CycleReport → Bool × String
byte_backoff_active c r =
    let limit = byte_no_progress_limit c in
    let floor = emergency_free_bytes c in
    if leb_ℤ limit (pos 0) || str_eq r.host_byte_level ""
    then (false, "")
    else if is_none (parse_level r.host_byte_level)
    then (false, "")
    else if ltb_ℤ (pos r.byte_no_progress_count) limit
    then (false, "")
    else if ltb 0 floor && ltb r.host_free_before_bytes floor
    then (false, "below_emergency_floor")
    else (true, "no_progress")

abbrev pub is_ladder_run : PluginCycleReport → Bool
is_ladder_run p = p.ran && not p.level_independent

unfoldable pub any_ladder_plugin_ran : List PluginCycleReport → Bool
any_ladder_plugin_ran reports = any_of is_ladder_run reports

unfoldable pub byte_progress_made : Config → CycleReport → Bool
byte_progress_made c r =
    let before = parse_level r.host_byte_level in
    let after = parse_level r.host_byte_level_after in
    let least = byte_progress_min_bytes c in
    if is_none before || level_lt after before
    then true
    else if leb_ℤ least r.ladder_bytes_freed
    then true
    else any_ladder_plugin_ran r.plugins && leb_ℤ least r.host_free_delta_bytes

-- strings.TrimSpace(name) == plugin: a plugin's own name has no space around it
unfoldable pub is_listed : String → List String → Bool
is_listed name [] = false
is_listed name (n ∷ ns) = codes_eq (trim_space (codes n)) (codes name) || is_listed name ns

unfoldable pub zero_yield_permanent_exemption : Config → Plugin → String
zero_yield_permanent_exemption c p =
    if p.safety_critical
    then "safety_critical"
    else if is_listed p.name c.policy.zero_yield_exempt_plugins
    then "exempt_plugin"
    else ""

abbrev pub is_pressured : MountReport → Bool
is_pressured m = str_eq m.error "" && level_le level_moderate (parse_level m.level)

-- the label of the first mount at moderate or higher
unfoldable pub pressured_mount : List MountReport → String
pressured_mount [] = ""
pressured_mount (m ∷ ms) =
    if is_pressured m then (if str_eq m.label "" then m.path else m.label) else pressured_mount ms

unfoldable pub zero_yield_exemption : Daemon → Plugin → CycleReport → Bool → String
zero_yield_exemption d p r free_known =
    let permanent = zero_yield_permanent_exemption d.config p in
    let floor = emergency_free_bytes d.config in
    if r.forced_level || d.dry_run || ltb 0 (length d.plugin_filter)
    then "operator_run"
    else if not (str_eq permanent "")
    then permanent
    else if not free_known
    then "free_unknown"
    else if ltb 0 floor && ltb r.host_free_before_bytes floor
    then "below_emergency_floor"
    else if not (str_eq (pressured_mount r.mounts) "")
    then "mount_pressure"
    else ""

unfoldable pub zero_yield_recurring_lift : String → Bool
zero_yield_recurring_lift reason =
    str_eq reason "operator_run"
    || str_eq reason "below_emergency_floor"
    || str_eq reason "free_unknown"
    || str_eq reason "mount_pressure"

-- The earliest of a time kept so far (0 before the first) and a text.
abbrev pub earlier : Time → Stamp → Time
earlier earliest s = elim (parse_stamp s) [
  | none ↦ earliest
  | some at ↦ if earliest == 0 || ltb at earliest then at else earliest
]

unfoldable pub earliest_retry : Time → List PluginCycleReport → Time
earliest_retry earliest [] = earliest
earliest_retry earliest (p ∷ ps) =
    earliest_retry (earlier (earlier earliest p.retry_at) p.suppressed_until) ps

unfoldable pub next_retry_at : List PluginCycleReport → Stamp
unfolding earliest_retry
next_retry_at reports =
    let earliest = earliest_retry 0 reports in
    if earliest == 0 then no_stamp else format_stamp earliest
