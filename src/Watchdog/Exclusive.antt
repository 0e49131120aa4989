-- ===== src/Watchdog/Exclusive.antt =====
-- The same plugin never runs twice at once (watchdog.go), as a transition system over calls of
-- watchPlugin and goroutines that end later.
use tinyland_cleanup.Prelude.{
  ◌&&◌, Dict, String, [], if◌then◌else◌, lookup, none, str_eq, suc, true, ℕ, ◌-◌, ◌<◌, ◌≡◌, ◌≢◌,
  ◌≤◌,
}
use tinyland_cleanup.Watchdog.{FlightView, Observed, Watched, watch_plugin}
use tinyland_cleanup.Watchdog.Effect.{Effect, is_given_up}
use tinyland_cleanup.Clock.{Time}
use tinyland_cleanup.Config.{Config}

-- `live` counts, for each plugin, the goroutines that the watchdog gave up and that still run.
pub record Sys : Type 0 where
  pub flights : Dict Time
  pub live : String → ℕ

module _ (c : Config) (T : Type 0) where
  abbrev pub call : Sys → String → FlightView → Time → Observed T → Watched T (Unit {0})
  call s name view started o = watch_plugin c name view started (λ w. (w, o)) tt s.flights

  -- A call, whose `done` channel is closed only if the goroutine has ended, or the end of a
  -- goroutine that was given up.
  pub data Step (s : Sys) (t : Sys) : Type 0 where
    watch_call :
        (name : String) (view : FlightView) (started : Time) (o : Observed T)
        → (view.done ≡ true → s.live name ≡ 0)
        → t.flights ≡ (call s name view started o).flights
        → ((n : String)
            → t.live n ≡ (
                if is_given_up (call s name view started o).watch && str_eq name n
                then suc (s.live n)
                else s.live n))
        → Step s t
    run_ends :
        (name : String)
        → 0 < s.live name
        → t.flights ≡ s.flights
        → ((n : String) → t.live n ≡ (if str_eq name n then s.live n - 1 else s.live n))
        → Step s t

  pub data Reach (s : Sys) : Sys → Type 0 where
    no_steps : Reach s s
    more_steps : {t u : Sys} → Reach s t → Step t u → Reach s u

-- Each plugin has at most one goroutine given up, and while it runs the plugin is in flight.
pub record IsExclusive (s : Sys) : Type 0 where
  pub once : (name : String) → s.live name ≤ 1
  pub in_flight : (name : String) → 0 < s.live name → lookup name s.flights ≢ none

abbrev pub idle : Sys
idle = record { flights = []; live = λ name. 0 }
