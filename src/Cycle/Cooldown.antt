-- ===== src/Cycle/Cooldown.antt =====
-- A ladder plugin does not run again within its cooldown.
use tinyland_cleanup.Records.{CleanupState, PluginStateRecord, no_plugin_record, or_zero}
use tinyland_cleanup.Prelude.{
  if_false, not, String, arith, lookup, Bool, Option, false, none, pos, refl, some, true, ℕ, ◌%◌,
  ◌+◌, ◌-◌, ◌<◌, ◌^◌, ◌≡◌, ◌≤◌,
}
use tinyland_cleanup.Cycle.Gates.{cooldown_gate, gates, zero_yield_gate, Gate, go, skip, then_gate}
use tinyland_cleanup.Cycle.Outcomes.{HasRun, RanAt}
use tinyland_cleanup.State.Backoff.{remaining_since_exact}
use tinyland_cleanup.Decide.{Plugin, plugin_cooldown}
use tinyland_cleanup.State.{cooldown_remaining, remaining_of}
use tinyland_cleanup.Cycle.{Context}
use tinyland_cleanup.Report.{CycleReport, PluginCycleReport}
use tinyland_cleanup.Clock.{second}
use tinyland_cleanup.Level.{Level, value}

abbrev pub is_skip : Gate → Bool
is_skip (skip p) = true
is_skip (go p) = false

then_skip :
    (g : Gate) (rest : PluginCycleReport → Gate)
    → ((p : PluginCycleReport) → is_skip (rest p) ≡ true)
    → is_skip (then_gate g rest) ≡ true
then_skip (skip p) rest h = refl
then_skip (go p) rest h = h p

-- what a recorded run leaves of a cooldown
held_after_run :
    (o : Option PluginStateRecord) (ran level : Level) (at now cooldown : ℕ)
    → RanAt (or_zero no_plugin_record o) ran at
    → value level ≤ value ran
    → at ≤ now
    → cooldown < 2 ^ 63
    → remaining_of o level now (pos cooldown) ≡ pos (at - at % second + cooldown - now)
unfolding remaining_of
held_after_run none ran level at now cooldown h below after small = absurd (ground (arith, h.0))
held_after_run (some r) ran level at now cooldown h below after small =
    rw (h.0, h.1) (ground (arith, remaining_since_exact (at - at % second) now cooldown))

-- A plugin whose last run the state records at a time and a level at least as high as the cycle's: while
-- the cycle holds ladder plugins back for an interval, by cooldown or by byte backoff, the plugin is
-- skipped until an interval has passed since the second of that run, whatever else is decided.
pub no_rerun_within_cooldown :
    (x : Context) (plugin : Plugin) (s : CleanupState) (r : CycleReport) (p : PluginCycleReport)
    (ran : Level) (at cooldown : ℕ) (reason : String)
    → HasRun s plugin.name ran at
    → x.state_ok ≡ true
    → plugin_cooldown x.daemon r x.level
      ≡ some (record { interval = pos cooldown; reason = reason })
    → value x.level ≤ value ran
    → at ≤ x.now
    → x.now < at - at % second + cooldown
    → cooldown < 2 ^ 63
    → is_skip (gates x plugin s r p) ≡ true
unfolding gates cooldown_gate cooldown_remaining
no_rerun_within_cooldown x plugin s r p ran at cooldown reason run ok hold below after within
      small =
    let left =
      held_after_run (lookup plugin.name s.plugins) ran x.level at x.now cooldown run below after
        small in
    then_skip (zero_yield_gate x plugin s r p) (cooldown_gate x plugin s r) λ p'.
      if_false (λ (g : Gate). is_skip g ≡ true) (not x.state_ok) _ _ (ground (arith, ok))
        (rw hold (rw left (ground (arith, small, within))))
