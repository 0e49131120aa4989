-- ===== src/Watchdog/Worlds.antt =====
-- What a watched call does to the world: nothing, or what the run does.
use tinyland_cleanup.Prelude.{Bool, Dict, Option, String, delete, false, lookup, none, some, true}
use tinyland_cleanup.Config.{Config}
use tinyland_cleanup.Watchdog.{
  FlightView, Observed, Outcome, PluginWatch, end_run, in_grace, in_time, not_returned, start_run,
  watch_flight, watch_plugin,
}
use tinyland_cleanup.Clock.{Duration, Time}
use tinyland_cleanup.Policy.{plugin_timeout}

end_keeps :
    {T W : Type 0} (P : W → Type 0) (name : String) (watch : PluginWatch) (last : String)
    (started : Time) (w : W) (flights : Dict Time) (o : Outcome T)
    → P w
    → P (end_run name watch last started w flights o).world
unfolding end_run
end_keeps P name watch last started w flights (in_time v) h = h
end_keeps P name watch last started w flights (in_grace s v) h = h
end_keeps P name watch last started w flights not_returned h = h

flight_keeps :
    {T W : Type 0} (P : W → Type 0) (flight : Option Time) (done : Bool) (name : String)
    (timeout : Duration) (view : FlightView) (started : Time) (run : W → W × Observed T) (w : W)
    (flights : Dict Time)
    → P w
    → P (run w).0
    → P (watch_flight flight done name timeout view started run w flights).world
unfolding watch_flight start_run
flight_keeps P none done name timeout view started run w flights h k =
    end_keeps P name _ _ started (run w).0 flights (run w).1.outcome k
flight_keeps P (some s) true name timeout view started run w flights h k =
    end_keeps P name _ _ started (run w).0 (delete name flights) (run w).1.outcome k
flight_keeps P (some s) false name timeout view started run w flights h k = h

pub watch_keeps :
    {T W : Type 0} (P : W → Type 0) (c : Config) (name : String) (view : FlightView)
    (started : Time) (run : W → W × Observed T) (w : W) (flights : Dict Time)
    → P w
    → P (run w).0
    → P (watch_plugin c name view started run w flights).world
unfolding watch_plugin
watch_keeps P c name view started run w flights h k =
    flight_keeps P (lookup name flights) view.done name (plugin_timeout c name) view started run w
      flights h k
