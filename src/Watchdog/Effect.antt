-- ===== src/Watchdog/Effect.antt =====
-- What a call of watchPlugin does to the runs in flight (watchdog.go): only its own plugin's flight
-- changes, and a plugin that is still in flight is reported as wedged.
use tinyland_cleanup.Prelude.{
  Option, delete, eq_iff, lookup-delete, some, ◌∙◌, arith, false, lookup-insert_ne,
  lookup-insert_self, refl, Bool, Dict, String, lookup, none, str_eq, true, ◌≡◌, ◌≢◌,
}
use tinyland_cleanup.Watchdog.{
  watch_flight, end_run, in_grace, in_time, not_returned, plugin_wedged, Outcome, start_run,
  FlightView, Observed, PluginWatch, wedge_abandoned,
}
use tinyland_cleanup.Clock.{Duration, Time}

-- The run was started and given up.
abbrev pub is_given_up : PluginWatch → Bool
is_given_up w = str_eq w.state wedge_abandoned

-- What a call does to the runs in flight.
pub record Effect (name : String) (before after : Dict Time) (given_up : Bool) : Type 0 where
  pub others : (other : String) → name ≢ other → lookup other after ≡ lookup other before
  pub kept : given_up ≡ true → lookup name after ≢ none

no-Effect : (name : String) (flights : Dict Time) → Effect name flights flights false
no-Effect name flights = record { others = λ other h. refl; kept = λ h. cc }

end-Effect :
    {T W : Type 0} (name : String) (watch : PluginWatch) (last : String) (started : Time) (w : W)
    (flights : Dict Time) (o : Outcome T)
    → watch.state ≡ ""
    → let r = end_run name watch last started w flights o in
      Effect name flights r.flights (is_given_up r.watch)
unfolding end_run
end-Effect name watch last started w flights (in_time v) h = rw h (no-Effect name flights)
end-Effect name watch last started w flights (in_grace true v) h = no-Effect name flights
end-Effect name watch last started w flights (in_grace false v) h = no-Effect name flights
end-Effect name watch last started w flights not_returned h = record {
  others = λ other ne. lookup-insert_ne name other started flights ne;
  kept = λ _ e. ground (arith, lookup-insert_self name started flights);
}

start-Effect :
    {T W : Type 0} (name : String) (timeout : Duration) (started : Time) (run : W → W × Observed T)
    (w : W) (flights : Dict Time)
    → let r = start_run name timeout started run w flights in
      Effect name flights r.flights (is_given_up r.watch)
unfolding start_run
start-Effect name timeout started run w flights =
    end-Effect name _ (run w).1.last_command started (run w).0 flights (run w).1.outcome refl

after_delete :
    (name : String) (flights after : Dict Time) (given_up : Bool)
    → Effect name (delete name flights) after given_up
    → Effect name flights after given_up
after_delete name flights after given_up e = record {
  others = λ other ne.
      e.others other ne ∙ lookup-delete name other flights ∙ ground (arith, eq_iff name other);
  kept = e.kept;
}

pub flight-Effect :
    {T W : Type 0} (flight : Option Time) (done : Bool) (name : String) (timeout : Duration)
    (view : FlightView) (started : Time) (run : W → W × Observed T) (w : W) (flights : Dict Time)
    → let r = watch_flight flight done name timeout view started run w flights in
      Effect name flights r.flights (is_given_up r.watch)
unfolding watch_flight
flight-Effect none done name timeout view started run w flights =
    start-Effect name timeout started run w flights
flight-Effect (some since) true name timeout view started run w flights =
    after_delete name flights _ _ (start-Effect name timeout started run w (delete name flights))
flight-Effect (some since) false name timeout view started run w flights = no-Effect name flights

pub flight_wedged :
    {T W : Type 0} (flight : Option Time) (done : Bool) (name : String) (timeout : Duration)
    (view : FlightView) (started : Time) (run : W → W × Observed T) (w : W) (flights : Dict Time)
    → flight ≢ none
    → done ≡ false
    → let r = watch_flight flight done name timeout view started run w flights in
      (r.watch.state ≡ plugin_wedged) × (r.flights ≡ flights) × (r.result ≡ none)
unfolding watch_flight
flight_wedged none done name timeout view started run w flights h k = absurd (h refl)
flight_wedged (some since) true name timeout view started run w flights h k = cc
flight_wedged (some since) false name timeout view started run w flights h k = (refl, refl, refl)

wedged_ne_abandoned : ◌≢◌ {A = String} plugin_wedged wedge_abandoned
wedged_ne_abandoned = ground (arith, eq_iff plugin_wedged wedge_abandoned)

pub wedged_kept : (w : PluginWatch) → w.state ≡ plugin_wedged → is_given_up w ≡ true → ⊥
wedged_kept w h g = ground (arith, eq_iff w.state wedge_abandoned, wedged_ne_abandoned)
