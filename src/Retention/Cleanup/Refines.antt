-- ===== src/Retention/Cleanup/Refines.antt =====
-- Cleanup removes only what a check has just found safe.
use tinyland_cleanup.Prelude.{
  All, List, [], if_true, ◌∷◌, ◌≢◌, Option-cases, arith, eq_iff, inl, inr, not, str_eq, Option,
  String, if_both, ltb_ℤ, none, refl, some, true, ◌≡◌,
}
use tinyland_cleanup.Retention.Decide.Safe.{
  TreeDecision, decide_tree-TreeDecision, goes, keeps, IsSafe,
}
use tinyland_cleanup.Retention.Cleanup.{
  clean_loop, clean_one, recheck, remove_checked, Candidate, CleanEnv, Policy, ask_again,
  count_removed, refresh, retention_activity_max_age, seen_again,
}
use tinyland_cleanup.Retention.Decide.{Ask, Seen, decide_tree}
use tinyland_cleanup.Accounting.{CleanupTarget}
use tinyland_cleanup.Records.{CleanupResult}
use tinyland_cleanup.Clock.{Time, sub_time}

module _ {W A : Type 0} (env : CleanEnv W A) (p : Policy) where
  -- What the removal of a tree rests on: in the world `w` the tree was looked at, with an inventory,
  -- and is the tree that was decided; the look found it safe, and its rule deletes.
  pub record Justified (c : Candidate) (w w' : W) : Type 0 where
    pub inventory : A
    pub same : (env.same_tree c w).1 ≡ true
    pub looked : w' ≡ (env.see c inventory (env.same_tree c w).0).0
    pub safe :
        IsSafe
          (ask_again p c)
          (seen_again env p c inventory (env.see c inventory (env.same_tree c w).0).1)
    pub deletes : (ask_again p c).delete_flag ≡ true

  -- What a pass may do to the world and to its result, with the list of what it removed.
  pub data Step (w : W) (r : CleanupResult) : W → CleanupResult → Type 0 where
    reads_clock : {w' : W} → w' ≡ (env.clock w).0 → Step w r w' r
    scans : {w' : W} (root : String) → w' ≡ (env.scan root w).0 → Step w r w' r
    compares : {w' : W} (c : Candidate) → w' ≡ (env.same_tree c w).0 → Step w r w' r
    looks : {w' : W} (c : Candidate) (a : A) → w' ≡ (env.see c a w).0 → Step w r w' r
    stops : {r' : CleanupResult} (e : String) → r' ≡ record r { error = some e } → Step w r w r'
    removes :
        {w' : W} {r' : CleanupResult} (c : Candidate) (w0 : W)
        → c.target.action ≡ "delete"
        → Justified c w0 w
        → w' ≡ (env.remove c.target.path w).0
        → (env.remove c.target.path w).1 ≡ none
        → r' ≡ count_removed c.target r
        → Step w r w' r'
    fails_to_remove :
        {w' : W} (c : Candidate) (w0 : W) (e : String)
        → c.target.action ≡ "delete"
        → Justified c w0 w
        → w' ≡ (env.remove c.target.path w).0
        → (env.remove c.target.path w).1 ≡ some e
        → Step w r w' r

  pub data Steps (w : W) (r : CleanupResult) : W → CleanupResult → Type 0 where
    done : Steps w r w r
    then_step :
        {w1 w2 : W} {r1 r2 : CleanupResult} → Steps w r w1 r1 → Step w1 r1 w2 r2 → Steps w r w2 r2

  Steps-trans :
      {w w1 : W} {r r1 : CleanupResult} {w2 : W} {r2 : CleanupResult}
      → Steps w r w1 r1
      → Steps w1 r1 w2 r2
      → Steps w r w2 r2
  Steps-trans a done = a
  Steps-trans a (then_step b s) = then_step (Steps-trans a b) s

  one_step : {w w' : W} {r r' : CleanupResult} → Step w r w' r' → Steps w r w' r'
  one_step s = then_step done s

  scan-Steps :
      (root : String) (w : W) (r : CleanupResult) → Steps w r (env.clock (env.scan root w).0).0 r
  scan-Steps root w r = then_step (one_step (scans root refl)) (reads_clock refl)

  refresh-Steps :
      (root : String) (held : Option (A × Time)) (w : W) (r : CleanupResult)
      → Steps w r (refresh env p root held w).0 r
  unfolding refresh
  refresh-Steps root none w r = scan-Steps root w r
  refresh-Steps root (some (a, at)) w r =
      let (w1, now) = env.clock w in
      if_both (λ (o : W × A × Time). Steps w r o.0 r)
        (ltb_ℤ retention_activity_max_age (sub_time now at)) _ _
        (λ h. Steps-trans (one_step (reads_clock refl)) (scan-Steps root w1 r))
        (λ h. one_step (reads_clock refl))

  -- What recheck leaves: the world after its looks, and the evidence when it lets the tree go.
  record Rechecked (c : Candidate) (w : W) (r : CleanupResult) (o : W × Option String)
      : Type 0 where
    steps : Steps w r o.0 r
    evidence : o.1 ≡ none → Justified c w o.0

  delete_of_Decision :
      (ask : Ask) (seen : Seen) (t : CleanupTarget)
      → TreeDecision ask seen t
      → t.action ≡ "delete"
      → IsSafe ask seen × (ask.delete_flag ≡ true)
  delete_of_Decision ask seen t (keeps _ k) h =
      absurd (ground (arith, h, k, eq_iff "keep" "delete"))
  delete_of_Decision ask seen t (goes safe _ k) h =
      (safe, ground (arith, h, k, eq_iff "report" "delete"))

  recheck-Rechecked :
      (c : Candidate) (a : A) (w : W) (r : CleanupResult) → Rechecked c w r (recheck env p c a w)
  unfolding recheck
  recheck-Rechecked c a w r =
      let w1 = (env.same_tree c w).0 in
      let w2 = (env.see c a w1).0 in
      let seen = seen_again env p c a (env.see c a w1).1 in
      let t = decide_tree (ask_again p c) seen in
      let looked : Steps w r w2 r = then_step (one_step (compares c refl)) (looks c a refl) in
      if_both (Rechecked c w r) (not (env.same_tree c w).1) _ _
        (λ h. record { steps = one_step (compares c refl); evidence = λ e. cc })
        λ h.
          if_both (Rechecked c w r) (str_eq t.action "delete") _ _
            (λ k. record {
              steps = looked;
              evidence = λ e.
                  let (safe, deletes) =
                    delete_of_Decision (ask_again p c) seen t
                      (decide_tree-TreeDecision (ask_again p c) seen)
                      ((eq_iff t.action "delete").0 k) in
                  record {
                    inventory = a;
                    same = ground (arith, h);
                    looked = refl;
                    safe = safe;
                    deletes = deletes;
                  };
            })
            (λ k. record { steps = looked; evidence = λ e. cc })

  remove-Steps :
      (c : Candidate) (w : W) (r : CleanupResult) (o : W × Option String)
      → c.target.action ≡ "delete"
      → Rechecked c w r o
      → Steps w r (remove_checked env p c o r).0 (remove_checked env p c o r).1
  unfolding remove_checked
  remove-Steps c w r (w1, some why) d h = h.steps
  remove-Steps c w r (w1, none) d h = elim (Option-cases (env.remove c.target.path w1).1) [
    | inl e ↦ then_step h.steps (removes c w d (h.evidence refl) refl e (rw e refl))
    | inr (why, e) ↦ rw e (then_step h.steps (fails_to_remove c w why d (h.evidence refl) refl e))
  ]

  clean_one-Steps :
      (c : Candidate) (held : Option (A × Time)) (w : W) (r : CleanupResult)
      → c.target.action ≡ "delete"
      → let o = clean_one env p c held r w in Steps w r o.0 o.1
  unfolding clean_one
  clean_one-Steps c held w r d =
      let (w1, a, at) = refresh env p c.root held w in
      Steps-trans (refresh-Steps c.root held w r)
        (remove-Steps c w1 r (recheck env p c a w1) d (recheck-Rechecked c a w1 r))

  -- Cleanup does nothing to the world but read the clock, take inventories, look at trees and remove
  -- trees. It removes the tree of a candidate only in the world in which its recheck has just looked
  -- at it: the tree is the one that was decided, all that IsSafe says holds of what the look saw, and
  -- the rule's delete flag is set. What it reports freed is the sum over the trees that it removed.
  pub clean_loop-Steps :
      (cs : List Candidate) (held : Option (A × Time)) (r : CleanupResult) (w : W)
      → Steps w r (clean_loop env p cs held r w).0 (clean_loop env p cs held r w).1
  unfolding clean_loop
  clean_loop-Steps [] held r w = done
  clean_loop-Steps (c ∷ cs) held r w =
      let (w', r', held') = clean_one env p c held r w in
      if_both (λ (o : W × CleanupResult). Steps w r o.0 o.1) (not (str_eq c.target.action "delete"))
        _ _ (λ h. clean_loop-Steps cs held r w)
        λ h. elim (Option-cases (env.cancelled w)) [
          | inr (e, stopped) ↦ rw stopped (one_step (stops e refl))
          | inl running ↦ rw running (
              Steps-trans
                (clean_one-Steps c held w r
                  ((eq_iff c.target.action "delete").0 (ground (arith, h))))
                (clean_loop-Steps cs held' r' w'))
        ]

-- With no candidate to delete, as when no rule's delete flag is set, nothing is touched.
pub report_only :
    {W A : Type 0} (env : CleanEnv W A) (p : Policy) (cs : List Candidate)
    (held : Option (A × Time)) (r : CleanupResult) (w : W)
    → All (λ (c : Candidate). c.target.action ≢ "delete") cs
    → clean_loop env p cs held r w ≡ (w, r)
unfolding clean_loop
report_only env p [] held r w h = refl
report_only env p (c ∷ cs) held r w h =
    if_true (λ o. o ≡ (w, r)) (not (str_eq c.target.action "delete")) _ _
      (ground (arith, h.0, eq_iff c.target.action "delete")) (report_only env p cs held r w h.1)
