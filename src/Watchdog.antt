-- ===== src/Watchdog.antt =====
-- The plugin watchdog (watchdog.go). A plugin function runs in a goroutine of its own: what the two
-- `select` statements of watchPlugin observe of it is an input, and so is the world that it changes.
-- A plugin run that the watchdog gave up is in flight, under its plugin's name.
pub mod Effect
pub mod Exclusive
pub mod Worlds
use tinyland_cleanup.Prelude.{
  [], texts, ◌∷◌, Bool, Dict, List, Option, String, delete, false, if◌then◌else◌, insert, lookup,
  none, pos, some, str_eq, true, ◌||◌,
}
use tinyland_cleanup.Config.{Config}
use tinyland_cleanup.Report.{PluginCycleReport}
use tinyland_cleanup.Clock.{Duration, Time, format_stamp}
use tinyland_cleanup.Policy.{plugin_timeout}

-- What the selects see: done before the deadline, done in the grace period (`shutdown` when the
-- daemon's own context had ended), or neither.
pub data Outcome (T : Type 0) : Type 0 where
  in_time : T → Outcome T
  in_grace : Bool → T → Outcome T
  not_returned : Outcome T

-- With the run scope's last command and its killed commands, as they are read afterwards.
pub record Observed (T : Type 0) : Type 0 where
  pub outcome : Outcome T
  pub last_command : String
  pub commands : List String

-- A run in flight as it is seen at the next call: whether its `done` channel is closed.
pub record FlightView : Type 0 where
  pub done : Bool
  pub last_command : String
  pub commands : List String

pub record PluginWatch : Type 0 where
  pub state : String
  pub since : Time
  pub timeout : Duration
  pub last_command : String
  pub commands : List String

abbrev pub plugin_wedged : String
plugin_wedged = "plugin_wedged"

abbrev pub wedge_cancelled : String
wedge_cancelled = "deadline_cancelled"

abbrev pub wedge_abandoned : String
wedge_abandoned = "deadline_abandoned"

unfoldable pub returned : PluginWatch → Bool
returned w = str_eq w.state "" || str_eq w.state wedge_cancelled

pub record Watched (T W : Type 0) : Type 0 where
  pub world : W
  pub flights : Dict Time
  pub result : Option T
  pub watch : PluginWatch

-- What the selects make of an outcome: a run that did not return stays in flight.
unfoldable pub end_run :
    {T W : Type 0} → String → PluginWatch → String → Time → W → Dict Time → Outcome T → Watched T W
end_run name watch last_command started w flights (in_time v) = record {
  world = w;
  flights = flights;
  result = some v;
  watch = watch;
}
end_run name watch last_command started w flights (in_grace shutdown v) = record {
  world = w;
  flights = flights;
  result = some v;
  watch = record watch {
    state = if shutdown then "" else wedge_cancelled;
    last_command = last_command;
  };
}
end_run name watch last_command started w flights not_returned = record {
  world = w;
  flights = insert name started flights;
  result = none;
  watch = record watch { state = wedge_abandoned; last_command = last_command };
}

-- The part of watchPlugin that starts the run and waits for it.
unfoldable pub start_run :
    {T W : Type 0} → String → Duration → Time → (W → W × Observed T) → W → Dict Time → Watched T W
start_run name timeout started run w flights =
    let (w', o) = run w in
    end_run name
      (record {
        state = "";
        since = started;
        timeout = timeout;
        last_command = "";
        commands = o.commands;
      })
      o.last_command started w' flights o.outcome

-- By the flight of the plugin, and whether its run has returned: one that has not is left alone.
unfoldable pub watch_flight :
    {T W : Type 0}
    → Option Time
    → Bool
    → String
    → Duration
    → FlightView
    → Time
    → (W → W × Observed T)
    → W
    → Dict Time
    → Watched T W
watch_flight none done name timeout view started run w flights =
    start_run name timeout started run w flights
watch_flight (some since) true name timeout view started run w flights =
    start_run name timeout started run w (delete name flights)
watch_flight (some since) false name timeout view started run w flights = record {
  world = w;
  flights = flights;
  result = none;
  watch = record {
    state = plugin_wedged;
    since = since;
    timeout = pos 0;
    last_command = view.last_command;
    commands = view.commands;
  };
}

unfoldable pub watch_plugin :
    {T W : Type 0}
    → Config
    → String
    → FlightView
    → Time
    → (W → W × Observed T)
    → W
    → Dict Time
    → Watched T W
watch_plugin c name view started run w flights =
    watch_flight (lookup name flights) view.done name (plugin_timeout c name) view started run w
      flights

-- How the standard library writes durations and times into a message.
pub record Printer : Type 0 where
  pub duration : Duration → String
  pub time : Time → String

unfoldable pub describe : Printer → PluginWatch → String → String
describe p w name =
    let head : String =
      if str_eq w.state wedge_cancelled
      then texts (
          "plugin "
          ∷ name
          ∷ " exceeded its "
          ∷ p.duration w.timeout
          ∷ " deadline and was cancelled"
          ∷ [])
      else if str_eq w.state wedge_abandoned
      then texts (
          "plugin "
          ∷ name
          ∷ " exceeded its "
          ∷ p.duration w.timeout
          ∷ " deadline and did not return; the cycle continued without it"
          ∷ [])
      else if str_eq w.state plugin_wedged
      then texts ("plugin " ∷ name ∷ " is still wedged in a run started at " ∷ p.time w.since ∷ [])
      else "" in
    if str_eq head ""
    then ""
    else if str_eq w.last_command ""
    then head
    else texts (head ∷ " (last command: " ∷ w.last_command ∷ ")" ∷ [])

-- copies what the watchdog saw into the plugin's report; the flag tells that there is no result
unfoldable pub apply_watch : Printer → PluginCycleReport → PluginWatch → PluginCycleReport × Bool
apply_watch p r w =
    let r' = record r { wedged_commands = w.commands } in
    let r'' = record r' { wedged = w.state; last_command = w.last_command } in
    if str_eq w.state ""
    then (r', false)
    else if str_eq w.state plugin_wedged
    then (
      record r'' {
        would_run = false;
        skip_reason = plugin_wedged;
        wedged_since = format_stamp w.since;
      },
      true,
    )
    else if str_eq w.state wedge_abandoned
    then (record r'' { wedged_since = format_stamp w.since; error = describe p w r.name }, true)
    else (r'', false)
