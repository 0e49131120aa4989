-- ===== src/Retention/Pass/Candidates.antt =====
-- What the candidates of a pass are.
use tinyland_cleanup.Retention.Decide.Marked.{decide_tree-path, decide_tree-reclaim}
use tinyland_cleanup.Prelude.{
  true, All-map, eq_iff, false, ◌≢◌, Option, Option-cases, arith, inl, inr, none, refl, some, sym,
  All, All-append, Bool, List, String, [], if_both, not, pos, ℕ, ◌*◌, ◌+◌, ◌∷◌, ◌≡◌, ◌≤ℤ◌,
}
use tinyland_cleanup.Retention.Pass.Sources.{
  DirsSeen, EntriesSeen, SeenAt, dirs_seen, entries_seen, seen_of_entry,
}
use tinyland_cleanup.Retention.Pass.Floors.{evaluate_floors-candidates}
use tinyland_cleanup.Retention.Cleanup.{
  busy_process, CleanEnv, clean_loop, Candidate, Policy, ask_again,
}
use tinyland_cleanup.Accounting.{host_reclaim_for_action, no_target}
use tinyland_cleanup.Retention.Pass.{
  evaluate_checked, Findings, cargo_candidate, evaluate, is_full, is_inspected, no_pass,
  tmp_candidate, tmp_root, CargoDir, CargoRoot, TmpRoot, cargo_dirs, evaluate_cargo_targets,
  evaluate_tmp_agents, RetentionPass, TmpEntry, add_candidate, candidate, duration_or_zero,
  tmp_entries,
}
use tinyland_cleanup.Retention.Cleanup.Refines.{report_only}
use tinyland_cleanup.Retention.Decide.Safe.{goes, keeps, decide_tree-TreeDecision, TreeDecision}
use tinyland_cleanup.Retention.Check.Ages.{long_enough, validated_ages, IsAtLeast}
use tinyland_cleanup.Retention.Check.{validate_retention}
use tinyland_cleanup.Records.{CleanupResult}
use tinyland_cleanup.Retention.Decide.{Rule, Seen, cargo_targets, decide_tree, tmp_agents}
use tinyland_cleanup.Clock.{DurationText, Duration, hour}
use mathlib.Core.Path.{subst}

-- The shortest age that a rule may remove at.
abbrev pub age_floor : Rule → ℕ
age_floor tmp_agents = hour
age_floor cargo_targets = 24 * hour

-- What a candidate of a pass is: the policy was accepted, decide has decided about it by what was
-- found at its path for its rule, and the rule's age is no shorter than the floor of the rule.
pub record IsDecided (p : Policy) (f : Findings) (c : Candidate) : Type 0 where
  pub seen : Seen
  pub found : SeenAt p f c.rule c.target.path seen
  pub accepted : validate_retention p.config f.floor_is_negative ≡ none
  pub decision : TreeDecision (ask_again p c) seen c.target
  pub is_aged : pos (age_floor c.rule) ≤ℤ c.max_age
  pub is_annotated : c.target.reclaim ≡ host_reclaim_for_action c.target.action

module _ (p : Policy) (f : Findings)
    (accepted : validate_retention p.config f.floor_is_negative ≡ none) where
  candidate-IsDecided :
      (rule : Rule) (root path : String) (max_age : Duration) (seen : Seen)
      → pos (age_floor rule) ≤ℤ max_age
      → SeenAt p f rule path seen
      → IsDecided p f (candidate p rule root path max_age seen)
  unfolding candidate
  candidate-IsDecided rule root path max_age seen aged found =
      let at : String → Candidate = λ q. record {
        rule = rule;
        root = root;
        max_age = max_age;
        target = record no_target { path = q };
      } in
      record {
        seen = seen;
        found =
            subst (λ q. SeenAt p f rule q seen)
              (sym (decide_tree-path (ask_again p (at path)) seen)) found;
        accepted = accepted;
        decision =
            subst
              (λ q.
                TreeDecision (ask_again p (at q)) seen (decide_tree (ask_again p (at path)) seen))
              (sym (decide_tree-path (ask_again p (at path)) seen))
              (decide_tree-TreeDecision (ask_again p (at path)) seen);
        is_aged = aged;
        is_annotated = decide_tree-reclaim (ask_again p (at path)) seen;
      }

  abbrev AllDecided : RetentionPass → Type 0
  AllDecided pass = All (IsDecided p f) pass.candidates

  add-AllDecided :
      (c : Candidate) (pass : RetentionPass)
      → IsDecided p f c
      → AllDecided pass
      → AllDecided (add_candidate c pass)
  add-AllDecided c pass d h = All-append (IsDecided p f) pass.candidates (c ∷ []) h (d, tt)

  module _ (aged : pos hour ≤ℤ duration_or_zero p.config.tmp_agents.max_age) where
    tmp_entries-AllDecided :
        (root : String) (es : List TmpEntry) (inspected : ℕ) (pass : RetentionPass)
        → All (λ e. is_inspected p e ≡ true → SeenAt p f tmp_agents e.path (seen_of_entry e)) es
        → AllDecided pass
        → AllDecided (tmp_entries p root es inspected pass).0
    unfolding tmp_entries
    tmp_entries-AllDecided root [] inspected pass from h = h
    tmp_entries-AllDecided root (e ∷ es) inspected pass from h =
        if_both (λ (o : RetentionPass × Bool). AllDecided o.0) e.cancelled _ _ (λ _. h)
          λ _.
            if_both (λ (o : RetentionPass × Bool). AllDecided o.0) (not (is_inspected p e)) _ _
              (λ _. tmp_entries-AllDecided root es inspected pass from.1 h)
              λ inspects.
                if_both (λ (o : RetentionPass × Bool). AllDecided o.0) (is_full p inspected) _ _
                  (λ _. h)
                  λ _. tmp_entries-AllDecided root es (inspected + 1) _ from.1 (
                    add-AllDecided (tmp_candidate p root e) pass
                      (candidate-IsDecided tmp_agents root e.path _ _ aged
                        (from.0 (ground (arith, inspects))))
                      h)

    tmp_root-AllDecided :
        (root : TmpRoot) (pass : RetentionPass)
        → EntriesSeen p f root
        → AllDecided pass
        → AllDecided (tmp_root p root pass).0
    tmp_root-AllDecided root pass from h = elim (Option-cases root.entries) [
      | inl e ↦ rw e h
      | inr (es, e) ↦ rw e (tmp_entries-AllDecided root.path es 0 pass (from es e) h)
    ]

    evaluate_tmp_agents-AllDecided :
        (roots : List TmpRoot) (pass : RetentionPass)
        → All (EntriesSeen p f) roots
        → AllDecided pass
        → AllDecided (evaluate_tmp_agents p roots pass)
    unfolding evaluate_tmp_agents
    evaluate_tmp_agents-AllDecided [] pass from h = h
    evaluate_tmp_agents-AllDecided (root ∷ roots) pass from h =
        let after = tmp_root-AllDecided root pass from.0 h in
        if_both AllDecided (tmp_root p root pass).1 _ _ (λ _. after)
          (λ _. evaluate_tmp_agents-AllDecided roots _ from.1 after)

  module _ (aged : pos (24 * hour) ≤ℤ duration_or_zero p.config.cargo_targets.max_age) where
    abbrev busy : Option String
    busy = busy_process f.processes p.config.cargo_targets.busy_processes

    cargo_dirs-AllDecided :
        (root : String) (ds : List CargoDir) (pass : RetentionPass)
        → DirsSeen p f ds
        → AllDecided pass
        → AllDecided (cargo_dirs p busy root ds pass).0
    unfolding cargo_dirs
    cargo_dirs-AllDecided root [] pass from h = h
    cargo_dirs-AllDecided root (d ∷ ds) pass from h =
        if_both (λ (o : RetentionPass × Bool). AllDecided o.0) d.cancelled _ _ (λ _. h)
          λ _.
            if_both (λ (o : RetentionPass × Bool). AllDecided o.0) d.is_dir _ _
              (λ is_dir. cargo_dirs-AllDecided root ds _ from.1 (
                add-AllDecided (cargo_candidate p busy root d) pass
                  (candidate-IsDecided cargo_targets root d.path _ _ aged (from.0 is_dir)) h))
              (λ _. cargo_dirs-AllDecided root ds pass from.1 h)

    evaluate_cargo_targets-AllDecided :
        (roots : List CargoRoot) (pass : RetentionPass)
        → All (λ (root : CargoRoot). DirsSeen p f root.dirs) roots
        → AllDecided pass
        → AllDecided (evaluate_cargo_targets p busy roots pass)
    unfolding evaluate_cargo_targets
    evaluate_cargo_targets-AllDecided [] pass from h = h
    evaluate_cargo_targets-AllDecided (root ∷ roots) pass from h =
        let after = cargo_dirs-AllDecided root.path root.dirs pass from.0 h in
        if_both AllDecided (cargo_dirs p busy root.path root.dirs pass).1 _ _ (λ _. after)
          (λ _. evaluate_cargo_targets-AllDecided roots _ from.1 after)

duration_at_least :
    (floor : ℕ) {t : DurationText} → IsAtLeast floor t → pos floor ≤ℤ duration_or_zero t
duration_at_least floor (long_enough d e h) = rw e h

checked-IsDecided :
    (p : Policy) (f : Findings) (o : Option String)
    → validate_retention p.config f.floor_is_negative ≡ o
    → All (IsDecided p f) (evaluate_checked p f o).candidates
unfolding evaluate_checked
checked-IsDecided p f (some e) refused =
    rw (evaluate_floors-candidates f.floor f.configured_volumes _) tt
checked-IsDecided p f none accepted =
    let ages = validated_ages p.config f.floor_is_negative accepted in
    let tmp =
      if_both (λ (pass : RetentionPass). All (IsDecided p f) pass.candidates)
        p.config.tmp_agents.enabled (evaluate_tmp_agents p f.tmp_roots no_pass) no_pass
        (λ on.
          evaluate_tmp_agents-AllDecided p f accepted (duration_at_least hour (ages.0 on))
            f.tmp_roots no_pass (entries_seen p f on) tt)
        (λ off. tt) in
    let cargo =
      if_both (λ (pass : RetentionPass). All (IsDecided p f) pass.candidates)
        p.config.cargo_targets.enabled _ _
        (λ on.
          evaluate_cargo_targets-AllDecided p f accepted (duration_at_least (24 * hour) (ages.1 on))
            f.cargo_roots _ (dirs_seen p f on) tmp)
        (λ off. tmp) in
    rw (evaluate_floors-candidates f.floor f.volumes _) cargo

pub pass-IsDecided : (p : Policy) (f : Findings) → All (IsDecided p f) (evaluate p f).candidates
unfolding evaluate
pass-IsDecided p f = checked-IsDecided p f _ refl

delete_needs_flag :
    (p : Policy) (f : Findings) (c : Candidate)
    → IsDecided p f c
    → (ask_again p c).delete_flag ≡ false
    → c.target.action ≢ "delete"
delete_needs_flag p f c d off e = go d.decision
  where
    go : TreeDecision (ask_again p c) d.seen c.target → ⊥
    go (keeps _ k) = ground (arith, e, k, eq_iff "keep" "delete")
    go (goes _ _ k) = ground (arith, e, k, off, eq_iff "report" "delete")

-- Until a rule's delete flag is set, a pass and the removals after it leave the world as it is, and
-- nothing counts as freed.
pub without_flags_nothing_goes :
    {W A : Type 0} (env : CleanEnv W A) (p : Policy) (f : Findings) (r : CleanupResult) (w : W)
    → p.config.tmp_agents.delete_trees ≡ false
    → p.config.cargo_targets.delete_trees ≡ false
    → clean_loop env p (evaluate p f).candidates none r w ≡ (w, r)
without_flags_nothing_goes env p f r w tmp cargo =
    report_only env p (evaluate p f).candidates none r w (
      All-map (IsDecided p f) _ (evaluate p f).candidates
        (λ c d. delete_needs_flag p f c d (flag_off c.rule)) (pass-IsDecided p f))
  where
    flag_off :
        (rule : Rule)
        → ◌≡◌ {A = Bool}
            (elim rule [
              | tmp_agents ↦ p.config.tmp_agents.delete_trees
              | cargo_targets ↦ p.config.cargo_targets.delete_trees
            ])
            false
    flag_off tmp_agents = tmp
    flag_off cargo_targets = cargo
