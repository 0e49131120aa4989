-- ===== src/Retention/Plan/Counts.antt =====
-- The figures of a plan agree with one another.
use tinyland_cleanup.Prelude.{
  Bool, String, insert, lookup, some, ◌++◌, sym, false, if_false, if_true, if◌then◌else◌, negsuc,
  pos_part, true, ℤ, All, Bool-cases, ap, eq_iff, has_prefix, inl, inr, map, neg_part, pos, refl, ℕ,
  ◌<◌, ◌^◌, ◌∙◌, List, [], arith, if_both, str_eq, ◌+◌, ◌∷◌, ◌≡◌,
}
use tinyland_cleanup.Retention.Pass.Reports.{reports_kept}
use tinyland_cleanup.Retention.Plan.{
  plan_cleanup, plan_of, candidate_target, estimate, same_rule, RuleTotals, count_candidate,
  summarize_rule,
}
use tinyland_cleanup.Accounting.{
  MetaValue, annotate_plan, meta_number, put_accounting, TargetTotals, add_targets, no_totals,
  host_reclaim_for_action, reclaim_none, CleanupTarget, reclaim_host, reclaim_of,
}
use tinyland_cleanup.Retention.Pass.Candidates.{pass-IsDecided, IsDecided}
use tinyland_cleanup.Retention.Pass.{Findings, evaluate}
use tinyland_cleanup.Accounting.Totals.{accounting_exact, any_target, sum_pos, physical, reclaims}
use tinyland_cleanup.Clock.{add_int64, int64, int64_small}
use tinyland_cleanup.Retention.Decide.Safe.{TreeDecision, goes, keeps}
use tinyland_cleanup.Retention.Cleanup.{ask_again, Candidate, Policy}
use tinyland_cleanup.Retention.Decide.{Ask, Seen, Rule}

count_candidate-splits :
    (t : CleanupTarget) (s : RuleTotals)
    → s.inspected ≡ s.eligible + s.live + s.kept
    → let s' = count_candidate t s in s'.inspected ≡ s'.eligible + s'.live + s'.kept
unfolding count_candidate
count_candidate-splits t s h = ground arith

-- Of the trees that a rule inspected, each is either eligible, or live, or kept.
summarize_splits :
    (rule : Rule) (cs : List Candidate) (s : RuleTotals)
    → s.inspected ≡ s.eligible + s.live + s.kept
    → let s' = summarize_rule rule cs s in s'.inspected ≡ s'.eligible + s'.live + s'.kept
unfolding summarize_rule
summarize_splits rule [] s h = h
summarize_splits rule (c ∷ cs) s h = summarize_splits rule cs _ (
    if_both (λ (s' : RuleTotals). s'.inspected ≡ s'.eligible + s'.live + s'.kept)
      (same_rule c.rule rule) _ _ (λ _. count_candidate-splits c.target s h) (λ _. h))

reclaim_of_annotated :
    (t : CleanupTarget)
    → t.reclaim ≡ host_reclaim_for_action t.action
    → reclaim_of t ≡ host_reclaim_for_action t.action
unfolding reclaim_of
reclaim_of_annotated t h = ground (arith, h)

reclaim_delete : host_reclaim_for_action "delete" ≡ reclaim_host
unfolding host_reclaim_for_action has_prefix
reclaim_delete = refl

reclaim_report : host_reclaim_for_action "report" ≡ reclaim_none
unfolding host_reclaim_for_action has_prefix
reclaim_report = refl

target_reclaims :
    (ask : Ask) (seen : Seen) (t : CleanupTarget)
    → reclaim_of t ≡ host_reclaim_for_action t.action
    → TreeDecision ask seen t
    → reclaims reclaim_host t ≡ str_eq t.action "delete"
target_reclaims ask seen t r (keeps kept a) =
    ground (arith, kept, a, eq_iff t.action "delete", eq_iff "keep" "delete")
target_reclaims ask seen t r (goes safe free a) = elim (Bool-cases ask.delete_flag) [
  | inl on ↦
      let action : t.action ≡ "delete" = ground (arith, a, on) in
      let host : reclaim_of t ≡ reclaim_host =
        r ∙ ap host_reclaim_for_action action ∙ reclaim_delete in
      ground
        (arith, free, action, host, eq_iff t.action "delete", eq_iff (reclaim_of t) reclaim_host)
  | inr off ↦
      let action : t.action ≡ "report" = ground (arith, a, off) in
      let none_reclaimed : reclaim_of t ≡ reclaim_none =
        r ∙ ap host_reclaim_for_action action ∙ reclaim_report in
      ground (
        arith,
        free,
        action,
        none_reclaimed,
        eq_iff t.action "delete",
        eq_iff "report" "delete",
        eq_iff (reclaim_of t) reclaim_host,
        eq_iff reclaim_none reclaim_host,
      )
]

deletes_iff_reclaims :
    (p : Policy) (f : Findings) (c : Candidate)
    → IsDecided p f c
    → reclaims reclaim_host c.target ≡ str_eq c.target.action "delete"
deletes_iff_reclaims p f c d =
    target_reclaims (ask_again p c) d.seen c.target (reclaim_of_annotated c.target d.is_annotated)
      d.decision

add_nonneg :
    (n : ℕ) (b : ℤ)
    → neg_part b ≡ 0
    → n + pos_part b < 2 ^ 63
    → add_int64 (pos n) b ≡ pos (n + pos_part b)
add_nonneg n (pos k) z small = ap int64 (sum_pos n k) ∙ int64_small (n + k) small
add_nonneg n (negsuc k) z small = absurd (ground (arith, z))

-- The bytes of a candidate that count in the estimate.
abbrev deleted : CleanupTarget → ℕ
deleted t = if reclaims reclaim_host t then pos_part t.bytes else 0

estimate_step :
    (t : CleanupTarget) (n : ℕ)
    → reclaims reclaim_host t ≡ str_eq t.action "delete"
    → neg_part t.bytes ≡ 0
    → n + deleted t < 2 ^ 63
    → (if str_eq t.action "delete" then add_int64 (pos n) t.bytes else pos n) ≡ pos (n + deleted t)
estimate_step t n same z small = elim (Bool-cases (str_eq t.action "delete")) [
  | inl e ↦
      let host : reclaims reclaim_host t ≡ true = same ∙ e in
      if_true (λ o. o ≡ pos (n + deleted t)) (str_eq t.action "delete") _ _ e
        (if_true (λ k. add_int64 (pos n) t.bytes ≡ pos (n + k)) (reclaims reclaim_host t) _ _ host
          (add_nonneg n t.bytes z (ground (arith, host, small))))
  | inr e ↦
      let other : reclaims reclaim_host t ≡ false = same ∙ e in
      if_false (λ o. o ≡ pos (n + deleted t)) (str_eq t.action "delete") _ _ e
        (if_false (λ k. pos n ≡ pos (n + k)) (reclaims reclaim_host t) _ _ other
          (ap pos (omega arith)))
]

estimate-sum :
    (p : Policy) (f : Findings) (cs : List Candidate) (n : ℕ)
    → All (IsDecided p f) cs
    → All (λ (c : Candidate). neg_part c.target.bytes ≡ 0) cs
    → n + physical (reclaims reclaim_host) (map candidate_target cs) < 2 ^ 63
    → estimate cs (pos n) ≡ pos (n + physical (reclaims reclaim_host) (map candidate_target cs))
unfolding estimate physical
estimate-sum p f [] n d b h = ap pos (omega arith)
estimate-sum p f (c ∷ cs) n d b h =
    ap (estimate cs) (estimate_step c.target n (deletes_iff_reclaims p f c d.0) b.0 (omega arith))
    ∙ estimate-sum p f cs (n + deleted c.target) d.1 b.1 (omega arith)
    ∙ ap pos (omega arith)

physical-append :
    (test : CleanupTarget → Bool) (ts us : List CleanupTarget)
    → physical test (ts ++ us) ≡ physical test ts + physical test us
unfolding physical
physical-append test [] us = omega arith
physical-append test (t ∷ ts) us = omega (arith, physical-append test ts us)

-- What is protected is no candidate.
physical-kept :
    (class : String) (ts : List CleanupTarget)
    → All (λ (t : CleanupTarget). t.protected ≡ true) ts
    → physical (reclaims class) ts ≡ 0
unfolding physical
physical-kept class [] h = refl
physical-kept class (t ∷ ts) h = ground (arith, h.0, physical-kept class ts h.1)

host_accounted :
    (totals : TargetTotals) (count : ℕ) (tmp cargo : MetaValue)
    → lookup "host_reclaim_candidate_bytes" (
        insert "cargo_targets.delete" cargo
          (insert "tmp_agents.delete" tmp (put_accounting totals count [])))
      ≡ some (meta_number totals.host_candidate)
unfolding put_accounting insert lookup
host_accounted totals count tmp cargo = refl

-- For an evaluation whose plan's targets hold fewer than 2 ^ 63 bytes in all, the candidates' sizes
-- not negative: the estimate of the plan is the number that the plan's own metadata gives for host
-- reclaim candidates, which is counted over all targets, Darwin leftovers included; and it is the
-- bytes of the candidates that are unprotected and reclaim space on the host.
pub estimate_is_host_candidate :
    (p : Policy) (f : Findings)
    → let cs = (evaluate p f).candidates in
      let plan = plan_cleanup p f in
      All (λ (c : Candidate). neg_part c.target.bytes ≡ 0) cs
      → physical any_target plan.targets < 2 ^ 63
      → (lookup "host_reclaim_candidate_bytes" plan.metadata
          ≡ some (meta_number plan.estimated_bytes_freed))
        × (plan.estimated_bytes_freed
            ≡ pos (physical (reclaims reclaim_host) (map candidate_target cs)))
unfolding plan_cleanup plan_of annotate_plan
estimate_is_host_candidate p f b h =
    let pass = evaluate p f in
    let cs = pass.candidates in
    let ts = map candidate_target cs in
    let all = ts ++ pass.reports in
    let account = accounting_exact all h in
    let split = physical-append (reclaims reclaim_host) ts pass.reports in
    let nothing_kept = physical-kept reclaim_host pass.reports (reports_kept p f) in
    let sum : estimate cs (pos 0) ≡ pos (physical (reclaims reclaim_host) ts) =
      estimate-sum p f cs 0 (pass-IsDecided p f) b (omega (arith, account.1, split))
      ∙ ap pos (omega arith) in
    (
      host_accounted (add_targets all no_totals) _ _ _
          ∙ ap (λ (s : TargetTotals). some (meta_number s.host_candidate)) account.0
          ∙ ap (λ n. some (meta_number (pos n))) (omega (arith, split, nothing_kept))
          ∙ ap (λ n. some (meta_number n)) (sym sum),
      sum,
    )
