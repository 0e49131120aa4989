-- ===== src/Cycle/Gates.antt =====
-- What holds a ladder plugin back before it runs (main.go: the plugin loop of runCycle, after
-- the target check and before the dry run).
use tinyland_cleanup.Records.{CleanupState}
use tinyland_cleanup.Prelude.{
  String, false, if◌then◌else◌, is_positive, ltb, none, not, pos, pos_part, some, str_eq, ℕ, ◌&&◌,
  ◌*◌, ◌+◌, ◌/◌,
}
use tinyland_cleanup.Decide.{Plugin, plugin_cooldown, zero_yield_exemption}
use tinyland_cleanup.State.{
  Suppression, cooldown_remaining, plugin_last_run, zero_yield_suppression,
}
use tinyland_cleanup.Cycle.{Context, is_measured}
use tinyland_cleanup.Report.{CycleReport, PluginCycleReport}
use tinyland_cleanup.Clock.{Time, add_time, format_stamp, max_int64, second}
use tinyland_cleanup.Policy.{ZeroYieldPolicy}

-- A plugin goes on with its report so far, or is skipped with its finished report.
pub data Gate : Type 0 where
  go : PluginCycleReport → Gate
  skip : PluginCycleReport → Gate

abbrev pub then_gate : Gate → (PluginCycleReport → Gate) → Gate
then_gate (skip p) rest = skip p
then_gate (go p) rest = rest p

-- The exemption of a suppressed plugin and its retry time: mount pressure lifts suppression only
-- once the pressure interval has passed since the plugin's last run.
unfoldable pub bound_pressure : ZeroYieldPolicy → Time → Time → Time → String → String × Time
bound_pressure policy last now until exempt =
    let again = add_time last policy.pressure_min in
    if str_eq exempt "mount_pressure" && ltb now again
    then ("", if ltb again until then again else until)
    else (exempt, until)

unfoldable pub suppressed_gate :
    ZeroYieldPolicy → Time → Time → Suppression → String → PluginCycleReport → Gate
unfolding bound_pressure
suppressed_gate policy last now s exempt p =
    let (exempt', until) = bound_pressure policy last now s.until exempt in
    if str_eq exempt' ""
    then skip (record p {
      would_run = false;
      skip_reason = "zero_yield_backoff";
      zero_yield_count = s.count;
      retry_at = format_stamp until;
    })
    else go (record p { zero_yield_count = s.count; zero_yield_lifted = exempt' })

unfoldable pub zero_yield_gate :
    Context → Plugin → CleanupState → CycleReport → PluginCycleReport → Gate
zero_yield_gate x plugin state r p =
    let s = zero_yield_suppression state plugin.name x.level x.now x.daemon.digest in
    if not (x.state_ok && is_positive x.zero_yield.limit)
    then go p
    else if s.suppressed
    then suppressed_gate x.zero_yield (plugin_last_run state plugin.name) x.now s
        (zero_yield_exemption x.daemon plugin r (is_measured x.before)) p
    else if str_eq s.lifted ""
    then go p
    else go (record p { zero_yield_count = s.count; zero_yield_lifted = s.lifted })

-- int64(remaining.Round(time.Second) / time.Second), of a positive duration
abbrev pub rounded_seconds : ℕ → ℕ
rounded_seconds n =
    let rounded = (n + 500000000) / second * second in
    if ltb max_int64 rounded then max_int64 / second else rounded / second

unfoldable pub cooldown_gate :
    Context → Plugin → CleanupState → CycleReport → PluginCycleReport → Gate
cooldown_gate x plugin state r p =
    if not x.state_ok then go p else elim (plugin_cooldown x.daemon r x.level) [
      | none ↦ go p
      | some hold ↦
          let remaining = cooldown_remaining state plugin.name x.level x.now hold.interval in
          if is_positive remaining
          then skip (record p {
            would_run = false;
            skip_reason = hold.reason;
            cooldown_remaining_seconds = pos (rounded_seconds (pos_part remaining));
            retry_at = format_stamp (add_time x.now remaining);
          })
          else go p
    ]

unfoldable pub gates : Context → Plugin → CleanupState → CycleReport → PluginCycleReport → Gate
gates x plugin state r p =
    then_gate (zero_yield_gate x plugin state r p) (cooldown_gate x plugin state r)
