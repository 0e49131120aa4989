-- ===== src/Lib.antt =====
-- The daemon of tinyland-cleanup, which frees disk space: one cleanup cycle with everything that it
-- decides, the state that it keeps between cycles, and the watchdog around its plugins.
--
-- A cycle (main.go, runCycle) measures the mounts, loads the state, runs the enabled plugins one after
-- another, records what they achieved and saves the state. A plugin that is level-independent, as
-- retention and nix are, runs in every cycle and keeps its own cadence. Before another plugin runs, the
-- cycle asks the decisions: is the target met, is the plugin suppressed because its runs freed nothing,
-- does a cooldown or byte backoff hold it back. The decisions read the report built so far, the state and the
-- configured intervals. The plugin then runs under the watchdog, which gives up a run that does not
-- return. Repeated log lines and reports pass the throttle.
--
-- The parts:
--   Level: cleanup levels (monitor/disk.go, main.go: parseLevel).
--   Clock: times, durations and the texts that the state file keeps them as.
--   Monitor: used percentages to levels (monitor/disk.go: DiskMonitor).
--   Config: the configuration that is read, MountConfig.Validate (config/config.go), and the target
--     override of the command line (main.go).
--   Policy: configured intervals, limits and targets (main.go, watchdog.go).
--   Records: the records of the cleanup state (state.go).
--   State: the methods of cleanupState (state.go).
--   StateFile: loading, quarantine and atomic saving of the state file (state.go).
--   Report: cycleReport, mountReport, pluginCycleReport (main.go) and a plugin's plan.
--   Mounts: assessMounts, the monitor of a mount, the monitored path (main.go).
--   Decide: the decisions (main.go).
--   Watchdog: watchPlugin, describe, applyWatch (watchdog.go).
--   Registry: which plugins are enabled, and the plugin filter (plugins/plugin.go, main.go).
--   Cycle: runCycle and runLevelIndependentPlugin (main.go). Gates holds back a ladder plugin, Plans
--     plans a plugin or runs a level-independent one, Plugins runs a ladder plugin, Recording keeps
--     the state, Run is the whole cycle. Kept, Done, Independent, Ladder, Recorded, Reported, Around and
--     Whole carry the proofs about the steps.
--   Daemon: the poll loop around the cycle (main.go: daemon.run).
--   Throttle: logThrottle and reportThrottle (logthrottle.go).
--   Accounting: cleanup targets and the totals of a plan (plugins/plugin.go).
--   Retention: age retention of temp roots and Cargo targets (config/retention.go,
--     plugins/retention.go, plugins/fs.go). Check is the check of the configuration, Find the search
--     for Cargo targets, Walk the walk of one tree, Decide the decision about it, Pass one evaluation
--     of the rules, Plan what it reports, Cleanup the removals with their rechecks, and Run the whole
--     of Cleanup with its cadence.
--   Nix: when the nix plugin collects (plugins/nix_cadence.go, plugins/nix.go). Collect is a poll from
--     its start to the saved state, Limit the byte bound of one collection, Generations the profile
--     generations that a policy deletes.
--   ScanBudget: entry and duration budgets, the shares of the roots of a lane, and which workspace
--     roots a scan visits (plugins/scan_budget.go).
--   Samples, Tests: concrete inputs.
-- The child modules of a part hold its theorems and are named for what they are about.
--
-- How the code is represented: a Go method on a struct is a function from the struct to the struct; the
-- daemon's local variables in a cycle are the record Locals; the world that plugins, statfs and the
-- state file act on is any type W with the operations of the record Env, and readings, results and
-- errors are what those operations return. A `map[string]V` is an association list, read by its first
-- match. A time is the natural number of nanoseconds since the zero Time, a duration is an int64, and a
-- text that stands for either is kept as what parsing makes of it: empty, unreadable, or the value.
-- RFC 3339 text drops the part of a second, and so does format_stamp. A used percentage is a float64
-- that is finite and not negative, and so a whole number of units of 2 ^ -1074; thresholds compare
-- exactly. Sums of int64 wrap (add_int64); conversions of uint64 to int64 wrap (delta). Item counts and
-- record counters are natural numbers. Text functions are those of ASCII.
--
-- Loops are recursion on the list, or on the number of rounds that the code computes before it starts
-- (double_to_cap, double_below), or on the depth that a search has left, so no
-- fuel is involved. The poll loop does not end by itself: run_daemon gives its first n rounds, for every n.
--
-- A plugin's calls to the file system, the process table and external commands are operations on a
-- world of any type (CleanEnv, NixEnv), and a walk of a directory is the list of its visits in the
-- order of filepath.WalkDir. Texts of reasons, which some decisions read, are built as the code builds
-- them, from printers of times and numbers.
--
-- Not modelled: log lines and the command line, the JSON and text form of reports, the
-- bytes of the state file, configuration loading and defaults, and the cleanup of the other plugins
-- (Bazel, Podman, Docker, development artifacts, macOS): they are mostly external commands and the
-- parsing of their output. In a cycle a plugin is its answers to the daemon's questions, and its runs
-- are operations of Env.
mod Prelude
pub mod Level
pub mod Clock
pub mod Monitor
pub mod Config
pub mod Policy
pub mod Records
pub mod State
pub mod StateFile
pub mod Report
pub mod Mounts
pub mod Decide
pub mod Watchdog
pub mod Registry
pub mod Cycle
pub mod Throttle
pub mod Samples
pub mod Tests
pub mod Accounting
pub mod Nix
pub mod Retention
pub mod ScanBudget
pub mod Daemon
