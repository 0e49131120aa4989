-- ===== src/Nix/Collect/Busy.antt =====
-- How long active work holds a collection back.
use tinyland_cleanup.Nix.Collect.{
  Polled, save_gc_state, saved, NixEnv, NixPlugin, busy_gate, gated_pass, poll_state, Inspected,
  active_work, gate_decision, inspection_failed,
}
use tinyland_cleanup.Prelude.{
  if_false, refl, All, str_eq, ◌∙◌, Bool-cases, List, [], arith, false, if◌then◌else◌, inl, inr,
  is_positive, pos, suc, true, ℕ, ◌+◌, ◌∷◌, ◌≡◌, ◌≤ℤ◌,
}
use tinyland_cleanup.Records.{CleanupResult, no_result}
use tinyland_cleanup.Level.{Level}
use tinyland_cleanup.Clock.{Time}
use tinyland_cleanup.Nix.{GcState, NixConfig, busy_deferral_bound, record_deferral}

-- What the gate did to a state that it deferred.
record Deferred (cfg : NixConfig) (st after : GcState) : Type 0 where
  below :
      is_positive cfg.max_busy_deferrals ≡ true
      → pos (st.deferred_passes + 1) ≤ℤ cfg.max_busy_deferrals
  counted : after.deferred_passes ≡ st.deferred_passes + 1

gate-Deferred :
    (cfg : NixConfig) (st : GcState) (now : Time) (found : Inspected)
    → (gate_decision cfg st now found).1 ≡ false
    → Deferred cfg st (gate_decision cfg st now found).0
unfolding gate_decision record_deferral busy_deferral_bound
gate-Deferred cfg st now (active_work []) h = cc
gate-Deferred cfg st now (active_work (process ∷ more)) h = record {
  below = λ k. ground (arith, h, k);
  counted = ground (arith, h);
}
gate-Deferred cfg st now (inspection_failed e) h = record {
  below = λ k. ground (arith, h, k);
  counted = ground (arith, h);
}

module _ {W : Type 0} (env : NixEnv W) (cfg : NixConfig) where
  -- What the count of deferrals rests on between two polls: where the state is kept in a file, the
  -- file is written, and reading it gives the count that was saved.
  pub record KeepsCount : Type 0 where
    pub reads_back :
        str_eq cfg.gc_state_file "" ≡ false
        → (st : GcState) (w : W)
        → (env.load_state (env.save_state st w)).deferred_passes ≡ st.deferred_passes

  -- What happens between two passes leaves the count in the file.
  abbrev pub Leaves : (W → W) → Type 0
  Leaves meanwhile =
      str_eq cfg.gc_state_file "" ≡ false
      → (w : W)
      → (env.load_state (meanwhile w)).deferred_passes ≡ (env.load_state w).deferred_passes

  abbrev pub counted : NixPlugin → W → ℕ
  counted p w = (poll_state env cfg p w).deferred_passes

  -- How many passes in a row the gate defers, each starting from the state that a poll then finds.
  -- Before the next pass something may happen to the world.
  pub held_passes : Level → List (W → W) → NixPlugin → W → ℕ
  held_passes level [] p w = 0
  held_passes level (meanwhile ∷ more) p w =
      let st = poll_state env cfg p w in
      let r = gated_pass env cfg level st p w in
      let rest = held_passes level more r.plugin (meanwhile r.world) in
      let (w1, st', proceed) = busy_gate env cfg st w in if proceed then 0 else suc rest

  poll_state-counted :
      (p : NixPlugin) (w : W)
      → counted p w
        ≡ (if str_eq cfg.gc_state_file "" then p.mem_state else env.load_state w).deferred_passes
  unfolding poll_state
  poll_state-counted p w = ground arith

  -- A pass that the gate defers, and what the next poll finds.
  record Held (level : Level) (p : NixPlugin) (w : W) (meanwhile : W → W) : Type 0 where
    below :
        is_positive cfg.max_busy_deferrals ≡ true → pos (counted p w + 1) ≤ℤ cfg.max_busy_deferrals
    kept :
        let r = gated_pass env cfg level (poll_state env cfg p w) p w in
        counted r.plugin (meanwhile r.world) ≡ counted p w + 1

  -- The state that a pass saves is the one whose count the next poll finds.
  saved_counted :
      (faithful : KeepsCount) (st : GcState) (p : NixPlugin) (result : CleanupResult) (w : W)
      (meanwhile : W → W)
      → Leaves meanwhile
      → let r = saved env cfg st p result w in
        counted r.plugin (meanwhile r.world) ≡ st.deferred_passes
  unfolding save_gc_state
  saved_counted faithful st p result w meanwhile undisturbed =
      let file_world = if str_eq cfg.gc_state_file "" then w else env.save_state st w in
      poll_state-counted (record p { mem_state = st }) (meanwhile file_world)
      ∙ elim (Bool-cases (str_eq cfg.gc_state_file "")) [
        | inl in_memory ↦ rw in_memory refl
        | inr file ↦
            rw file (undisturbed file (env.save_state st w) ∙ faithful.reads_back file st w)
      ]

  pass-Held :
      (faithful : KeepsCount) (level : Level) (p : NixPlugin) (w : W) (meanwhile : W → W)
      → Leaves meanwhile
      → (busy_gate env cfg (poll_state env cfg p w) w).2 ≡ false
      → Held level p w meanwhile
  unfolding busy_gate gated_pass
  pass-Held faithful level p w meanwhile undisturbed deferred =
      let st = poll_state env cfg p w in
      let (w1, now) = env.clock w in
      let (w2, found) = env.inspect w1 in
      let gate = gate-Deferred cfg st now found deferred in
      let st' = (gate_decision cfg st now found).0 in
      record {
        below = gate.below;
        kept =
            if_false (λ (r : Polled W). counted r.plugin (meanwhile r.world) ≡ counted p w + 1)
              (gate_decision cfg st now found).1 _ _ deferred
              (saved_counted faithful st' p no_result w2 meanwhile undisturbed ∙ gate.counted);
      }

  -- With max_busy_deferrals N above 0 and a count of at most N to begin with, active work and
  -- failing inspections defer at most N passes in a row, the deferrals counted before included: of
  -- more passes, one runs. Where the state is kept in a file, every save succeeds, a load gives the
  -- count that was saved, and nothing else changes it between two passes.
  pub held_bounded :
      (faithful : KeepsCount) (level : Level) (between : List (W → W)) (p : NixPlugin) (w : W)
      → All Leaves between
      → is_positive cfg.max_busy_deferrals ≡ true
      → pos (counted p w) ≤ℤ cfg.max_busy_deferrals
      → pos (counted p w + held_passes level between p w) ≤ℤ cfg.max_busy_deferrals
  unfolding held_passes
  held_bounded faithful level [] p w leave on h = omega (arith, h)
  held_bounded faithful level (meanwhile ∷ more) p w leave on h =
      elim (Bool-cases (busy_gate env cfg (poll_state env cfg p w) w).2) [
        | inl proceed ↦ rw proceed (omega (arith, h))
        | inr deferred ↦
            let held = pass-Held faithful level p w meanwhile leave.0 deferred in
            let r = gated_pass env cfg level (poll_state env cfg p w) p w in
            let rest =
              held_bounded faithful level more r.plugin (meanwhile r.world) leave.1 on
                (rw held.kept (held.below on)) in
            rw deferred (omega (arith, rest, held.kept))
      ]
