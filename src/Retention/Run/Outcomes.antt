-- ===== src/Retention/Run/Outcomes.antt =====
-- What a run of the plugin does.
use tinyland_cleanup.Prelude.{
  Bool, Bool-cases, ap, false, if_both, inl, inr, is_positive, ltb, ltb_ℤ, none, not, refl, true,
  ◌&&◌, ◌≡◌, ◌⊎◌,
}
use tinyland_cleanup.Retention.Cleanup.Refines.{Steps, clean_loop-Steps}
use tinyland_cleanup.Retention.Pass.Candidates.{without_flags_nothing_goes}
use tinyland_cleanup.Retention.Cleanup.{CleanEnv, Policy, due, interval_of}
use tinyland_cleanup.Retention.Pass.{Findings, evaluate}
use tinyland_cleanup.Retention.Run.{RetentionRun, cleanup}
use tinyland_cleanup.Records.{no_result}
use tinyland_cleanup.Clock.{Time, sub_time}

module _ {W A : Type 0} (env : CleanEnv W A) (p : Policy) (find : W → W × Findings)
    (last_run : Time) (w : W) where
  abbrev now : Time
  now = (env.clock w).1

  -- the time since the last pass is below the interval
  abbrev pub is_early : Bool
  is_early =
      ltb 0 last_run
      && is_positive (interval_of p.config.interval)
      && ltb_ℤ (sub_time now last_run) (interval_of p.config.interval)

  -- A run that is early reads the clock and no more, and the time of the last pass stands. Any other
  -- run is a pass at the time that it read: an evaluation, and then steps that are each justified.
  pub data RunOutcome (o : RetentionRun W) : Type 0 where
    waits :
        is_early ≡ true
        → o ≡ record { world = (env.clock w).0; result = no_result; last_run = last_run }
        → RunOutcome o
    passes :
        is_early ≡ false
        → o.last_run ≡ (env.clock w).1
        → Steps env p (find (env.clock w).0).0 no_result o.world o.result
        → RunOutcome o

  -- A run of the retention plugin is of one of these two kinds: it waits out retention.interval, or it
  -- is a pass that removes only trees that a check has just found safe, in the world that the check
  -- saw, for rules that delete, and that counts as freed what it removed.
  pub cleanup-RunOutcome : RunOutcome (cleanup env p find last_run w)
  unfolding cleanup due
  cleanup-RunOutcome = elim (Bool-cases is_early) [
    | inl early ↦ waits early (rw early refl)
    | inr late ↦ passes late (rw late refl) (
        rw late (
          clean_loop-Steps env p (evaluate p (find (env.clock w).0).1).candidates none no_result
            (find (env.clock w).0).0))
  ]

-- Until a rule's delete flag is set, a run reads the clock and evaluates at most: it removes nothing
-- and counts nothing as freed.
pub report_only_run :
    {W A : Type 0} (env : CleanEnv W A) (p : Policy) (find : W → W × Findings) (last_run : Time)
    (w : W)
    → p.config.tmp_agents.delete_trees ≡ false
    → p.config.cargo_targets.delete_trees ≡ false
    → let o = cleanup env p find last_run w in
      ((o.world ≡ (env.clock w).0) ⊎ (o.world ≡ (find (env.clock w).0).0)) × (o.result ≡ no_result)
unfolding cleanup
report_only_run env p find last_run w tmp cargo =
    let w2 = (find (env.clock w).0).0 in
    let found = (find (env.clock w).0).1 in
    let untouched = without_flags_nothing_goes env p found no_result w2 tmp cargo in
    if_both
      (λ (o : RetentionRun _).
        ((o.world ≡ (env.clock w).0) ⊎ (o.world ≡ w2)) × (o.result ≡ no_result))
      (not (due p.config.interval last_run (env.clock w).1).0) _ _ (λ _. (inl refl, refl))
      (λ _. (inr (ap (λ o. o.0) untouched), ap (λ o. o.1) untouched))
