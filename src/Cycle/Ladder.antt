-- ===== src/Cycle/Ladder.antt =====
-- What a ladder plugin does to a cycle.
-- A gate passes a fresh report on, marked as skipped where it skips.
use tinyland_cleanup.Records.{CleanupState}
use tinyland_cleanup.Cycle.Gates.{
  Gate, bound_pressure, cooldown_gate, gates, go, skip, suppressed_gate, then_gate, zero_yield_gate,
}
use tinyland_cleanup.Cycle.Outcomes.{Fresh}
use tinyland_cleanup.Prelude.{
  Option-cases, String, arith, false, if_both, inl, inr, is_positive, not, refl, str_eq, true, ◌&&◌,
  ◌∙◌, ◌≡◌,
}
use tinyland_cleanup.Decide.{Plugin, plugin_cooldown}
use tinyland_cleanup.State.{Suppression, cooldown_remaining, zero_yield_suppression}
use tinyland_cleanup.Cycle.{Context}
use tinyland_cleanup.Report.{CycleReport, PluginCycleReport}
use tinyland_cleanup.Clock.{Time}
use tinyland_cleanup.Policy.{ZeroYieldPolicy}

abbrev pub GateFresh : Plugin → Gate → Type 0
GateFresh plugin (skip p) = Fresh plugin p
GateFresh plugin (go p) = Fresh plugin p × (p.would_run ≡ true)

then_fresh :
    (plugin : Plugin) (g : Gate) (rest : PluginCycleReport → Gate)
    → GateFresh plugin g
    → ((p : PluginCycleReport) → Fresh plugin p → p.would_run ≡ true → GateFresh plugin (rest p))
    → GateFresh plugin (then_gate g rest)
then_fresh plugin (skip p) rest f h = f
then_fresh plugin (go p) rest f h = h p f.0 f.1

module _ (x : Context) (plugin : Plugin) (ladder : plugin.level_independent ≡ false) where
  -- Fields that the gates do not touch.
  same_fresh :
      (p q : PluginCycleReport)
      → q.name ≡ p.name
      → q.level_independent ≡ p.level_independent
      → q.ran ≡ p.ran
      → q.bytes_freed ≡ p.bytes_freed
      → q.items_cleaned ≡ p.items_cleaned
      → Fresh plugin p
      → Fresh plugin q
  same_fresh p q name kind ran bytes items f = record {
    name = name ∙ f.name;
    kind = kind ∙ f.kind;
    held = λ h. absurd (ground (arith, h, kind, f.kind, ladder));
    ran = ran ∙ f.ran;
    freed = (bytes ∙ f.freed.0, items ∙ f.freed.1);
  }

  suppressed_fresh :
      (policy : ZeroYieldPolicy) (last now : Time) (s : Suppression) (exempt : String)
      (p : PluginCycleReport)
      → Fresh plugin p
      → p.would_run ≡ true
      → GateFresh plugin (suppressed_gate policy last now s exempt p)
  unfolding suppressed_gate
  suppressed_fresh policy last now s exempt p f would =
      if_both (GateFresh plugin) (str_eq (bound_pressure policy last now s.until exempt).0 "") _ _
        (λ _. same_fresh p _ refl refl refl refl refl f)
        λ _. (same_fresh p _ refl refl refl refl refl f, would)

  yield_fresh :
      (state : CleanupState) (r : CycleReport) (p : PluginCycleReport)
      → Fresh plugin p
      → p.would_run ≡ true
      → GateFresh plugin (zero_yield_gate x plugin state r p)
  unfolding zero_yield_gate
  yield_fresh state r p f would =
      let s = zero_yield_suppression state plugin.name x.level x.now x.daemon.digest in
      if_both (GateFresh plugin) (not (x.state_ok && is_positive x.zero_yield.limit)) _ _
        (λ _. (f, would))
        λ _.
          if_both (GateFresh plugin) s.suppressed _ _
            (λ _. suppressed_fresh x.zero_yield _ x.now s _ p f would)
            λ _.
              if_both (GateFresh plugin) (str_eq s.lifted "") _ _ (λ _. (f, would))
                λ _. (same_fresh p _ refl refl refl refl refl f, would)

  cooldown_fresh :
      (state : CleanupState) (r : CycleReport) (p : PluginCycleReport)
      → Fresh plugin p
      → p.would_run ≡ true
      → GateFresh plugin (cooldown_gate x plugin state r p)
  unfolding cooldown_gate
  cooldown_fresh state r p f would =
      if_both (GateFresh plugin) (not x.state_ok) _ _ (λ _. (f, would))
        λ _. elim (Option-cases (plugin_cooldown x.daemon r x.level)) [
          | inl h ↦ rw h (f, would)
          | inr (hold, h) ↦ rw h (
              if_both (GateFresh plugin)
                (is_positive (cooldown_remaining state plugin.name x.level x.now hold.interval)) _ _
                (λ _. same_fresh p _ refl refl refl refl refl f) λ _. (f, would))
        ]

  pub gates_fresh :
      (state : CleanupState) (r : CycleReport) (p : PluginCycleReport)
      → Fresh plugin p
      → p.would_run ≡ true
      → GateFresh plugin (gates x plugin state r p)
  unfolding gates
  gates_fresh state r p f would =
      then_fresh plugin (zero_yield_gate x plugin state r p) (cooldown_gate x plugin state r)
        (yield_fresh state r p f would) (cooldown_fresh state r)
