-- ===== src/Retention/Plan.antt =====
-- What a pass reports: summarize and PlanCleanup (plugins/retention.go). The texts of a plan's alerts
-- are without their numbers.
pub mod Counts
use tinyland_cleanup.Prelude.{
  Bool, List, String, [], if◌then◌else◌, insert, leb_ℤ, map, not, pos, str_eq, texts, ℕ, ℤ, ◌&&◌,
  ◌++◌, ◌+◌, ◌||◌, ◌∷◌,
}
use tinyland_cleanup.Retention.Cleanup.{Candidate, Policy}
use tinyland_cleanup.Retention.Decide.{Rule, cargo_targets, rule_name, tmp_agents}
use tinyland_cleanup.Retention.Pass.{Alert, Findings, RetentionPass, evaluate}
use tinyland_cleanup.Accounting.{CleanupTarget, TargetPlan, annotate_plan, meta_bool}
use tinyland_cleanup.Clock.{add_int64}

-- the totals of one rule
pub record RuleTotals : Type 0 where
  pub inspected : ℕ
  pub eligible : ℕ
  pub live : ℕ
  pub kept : ℕ
  pub eligible_bytes : ℤ  -- int64
  pub eligible_logical : ℤ  -- int64
  pub kept_bytes : ℤ  -- int64

abbrev pub no_rule_totals : RuleTotals
no_rule_totals = record {
  inspected = 0;
  eligible = 0;
  live = 0;
  kept = 0;
  eligible_bytes = pos 0;
  eligible_logical = pos 0;
  kept_bytes = pos 0;
}

-- the logical bytes of a target, or its bytes where they are the same
abbrev pub logical_of : CleanupTarget → ℤ
logical_of t =
    if leb_ℤ t.logical_bytes (pos 0) && leb_ℤ (pos 0) t.logical_bytes
    then t.bytes
    else t.logical_bytes

unfoldable pub count_candidate : CleanupTarget → RuleTotals → RuleTotals
count_candidate t s =
    if not t.protected
    then record s {
      inspected = s.inspected + 1;
      eligible = s.eligible + 1;
      eligible_bytes = add_int64 s.eligible_bytes t.bytes;
      eligible_logical = add_int64 s.eligible_logical (logical_of t);
    }
    else if t.active
    then record s {
      inspected = s.inspected + 1;
      live = s.live + 1;
      kept_bytes = add_int64 s.kept_bytes t.bytes;
    }
    else record s {
      inspected = s.inspected + 1;
      kept = s.kept + 1;
      kept_bytes = add_int64 s.kept_bytes t.bytes;
    }

abbrev pub same_rule : Rule → Rule → Bool
same_rule a b = str_eq (rule_name a) (rule_name b)

-- summarize, for one of its two rules
unfoldable pub summarize_rule : Rule → List Candidate → RuleTotals → RuleTotals
summarize_rule rule [] s = s
summarize_rule rule (c ∷ cs) s =
    summarize_rule rule cs (if same_rule c.rule rule then count_candidate c.target s else s)

-- the estimate of PlanCleanup
unfoldable pub estimate : List Candidate → ℤ → ℤ
estimate [] n = n
estimate (c ∷ cs) n =
    estimate cs (if str_eq c.target.action "delete" then add_int64 n c.target.bytes else n)

abbrev pub candidate_target : Candidate → CleanupTarget
candidate_target c = c.target

abbrev pub alert_text : Alert → String
alert_text a = texts ("ALERT free-space floor: " ∷ a.path ∷ " is below the floor" ∷ [])

-- PlanCleanup after evaluate
unfoldable pub plan_of : Policy → RetentionPass → TargetPlan
plan_of p pass =
    let would_run = p.config.tmp_agents.delete_trees || p.config.cargo_targets.delete_trees in
    let plan = annotate_plan (record {
      would_run = would_run;
      skip_reason =
          if would_run then "" else "retention deleting rules are report-only (no delete flag set)";
      estimated_bytes_freed = estimate pass.candidates (pos 0);
      targets = map candidate_target pass.candidates ++ pass.reports;
      warnings = map alert_text pass.alerts ++ pass.warnings;
      metadata = [];
    }) in
    record plan {
      metadata =
          insert "cargo_targets.delete" (meta_bool p.config.cargo_targets.delete_trees)
            (insert "tmp_agents.delete" (meta_bool p.config.tmp_agents.delete_trees) plan.metadata);
    }

unfoldable pub plan_cleanup : Policy → Findings → TargetPlan
plan_cleanup p f = plan_of p (evaluate p f)
