-- ===== src/Cycle.antt =====
-- One cleanup cycle (main.go: runCycle and runLevelIndependentPlugin).
--
-- The world that the cycle runs in is a type with the operations of Env: statfs readings, plugin runs
-- and their plans, and loading and saving
-- the state file. A cycle passes its local variables on in Locals. Log lines
-- are left out.
pub mod Gates
pub mod Plans
pub mod Plugins
pub mod Recording
pub mod Run
pub mod Outcomes
pub mod Done
pub mod Independent
pub mod Ladder
pub mod Reported
pub mod Kept
pub mod Skips
pub mod Unsaved
pub mod Around
pub mod Whole
pub mod Reports
pub mod Cooldown
pub mod Recorded
use tinyland_cleanup.Clock.{add_int64, Time, int64}
use tinyland_cleanup.Records.{CleanupResult, CleanupState}
use tinyland_cleanup.StateFile.{Loaded}
use tinyland_cleanup.Prelude.{
  Bool, Dict, Option, String, [], false, if◌then◌else◌, none, not, some, str_eq, true, ℕ, ℤ, ◌&&◌,
  ◌++◌, ◌+ℤ◌, ◌+◌, ◌∷◌,
}
use tinyland_cleanup.Decide.{Daemon}
use tinyland_cleanup.Mounts.{Reading, failed, measured}
use tinyland_cleanup.Level.{Level}
use tinyland_cleanup.Watchdog.{
  FlightView, Observed, PluginWatch, Printer, describe, wedge_cancelled,
}
use tinyland_cleanup.Report.{CleanupPlan, CycleReport, PluginCycleReport}
use tinyland_cleanup.Policy.{ZeroYieldPolicy}

pub record Env (W : Type 0) : Type 0 where
  pub disk_stats : W → String → Reading
  pub flight : W → String → FlightView
  pub started : W → Time
  pub cleanup : String → Level → W → W × Observed CleanupResult
  pub plan : String → Level → W → W × Observed CleanupPlan
  pub load : Time → W → W × Loaded
  pub save : CleanupState → W → W × Option String
  pub printer : Printer

-- What stays fixed while the plugins of a cycle run.
pub record Context : Type 0 where
  pub daemon : Daemon
  pub now : Time
  pub level : Level
  pub before : Reading
  pub state_ok : Bool  -- stateErr == nil
  pub zero_yield : ZeroYieldPolicy

pub record Locals (W : Type 0) : Type 0 where
  pub world : W
  pub report : CycleReport
  pub state : CleanupState
  pub state_dirty : Bool
  pub flights : Dict Time
  pub total_freed : ℤ
  pub total_items : ℕ
  pub ladder_freed : ℤ

abbrev pub append_report : CycleReport → PluginCycleReport → CycleReport
append_report r p = record r { plugins = r.plugins ++ p ∷ [] }

-- what a plan adds to the report
abbrev pub add_plan : CycleReport → CleanupPlan → CycleReport
add_plan r plan = record r {
  planned_estimated_bytes_freed =
      add_int64 r.planned_estimated_bytes_freed plan.estimated_bytes_freed;
  planned_targets = r.planned_targets + plan.targets;
}

abbrev pub is_measured : Reading → Bool
is_measured (measured stats) = true
is_measured (failed e) = false

abbrev pub has_error : CleanupResult → Bool
has_error result = elim result.error [ none ↦ false | some e ↦ true ]

-- The result of a run that was cancelled at its deadline and reported no error of its own.
abbrev pub or_cancelled : Printer → PluginWatch → String → CleanupResult → CleanupResult
or_cancelled p w name result =
    if str_eq w.state wedge_cancelled && not (has_error result)
    then record result { error = some (describe p w name) }
    else result
