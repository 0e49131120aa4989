-- ===== src/Tests/Trees.antt =====
-- Tests: age retention.
use tinyland_cleanup.Prelude.{
  lookup, ◌⊎◌, Option, In, ap, arith, codes_eq, is_glob, map, neg_part, ◌<◌, ◌^◌, glob_match,
  has_prefix, All, Bool, List, String, [], false, none, not, pos, refl, some, true, ℕ, ◌*◌, ◌+◌,
  ◌-◌, ◌∷◌, ◌≡◌,
}
use tinyland_cleanup.Retention.Plan.{plan_cleanup, plan_of, candidate_target}
use tinyland_cleanup.Accounting.Totals.{reclaims, any_target, physical}
use tinyland_cleanup.Accounting.{
  annotate_plan, meta_number, reclaim_host, annotate_target, no_target,
}
use tinyland_cleanup.Retention.Run.Outcomes.{RunOutcome, cleanup-RunOutcome, report_only_run}
use tinyland_cleanup.Retention.Decide.{
  decided, finished, stale_target, busy_reason, git_reason, keep_walked, live_why, walked, Ask,
  protect_reason, Seen, decide_tree, first_reason, keep_unwalked, tmp_agents,
}
use tinyland_cleanup.Retention.Run.{cleanup}
use tinyland_cleanup.Retention.Plan.Counts.{estimate_is_host_candidate}
use tinyland_cleanup.Retention.Find.Exact.{Found, find_exact}
use tinyland_cleanup.Retention.Find.{Dir, Elements, dir, entry, find_cargo_target_dirs, no_entries}
use tinyland_cleanup.Clock.{int64, Duration, hour, no_text, text_of}
use tinyland_cleanup.Retention.Pass.{
  evaluate_checked, evaluate_floors, evaluate_tmp_agents, tmp_entries, Findings, candidate,
  evaluate,
}
use tinyland_cleanup.Retention.Check.{
  first_error, validate_age, validate_globs, validate_parents, validate_roots, validate_tmp_agents,
  validate_retention,
}
use tinyland_cleanup.Retention.{name_matches, effective_mod_time, FileInfo, RetentionConfig}
use tinyland_cleanup.Retention.Walk.{
  TreeStats, bounded_visit, measure, measure_found, measure_visit, newest_change, newest_of,
  stop_or, visit, visit_after, walk_tree, walk_visits, Visit,
}
use tinyland_cleanup.Retention.Decide.Safe.{TreeDecision, decide_tree-TreeDecision}
use tinyland_cleanup.Retention.Cleanup.{Candidate, CleanEnv, Policy, Process, ask_again}
use tinyland_cleanup.Records.{no_result}
use tinyland_cleanup.Samples.{noon}

abbrev day : Duration
day = pos (24 * hour)

abbrev old : FileInfo
old = record {
  is_known = true;
  dev = 7;
  uid = 1000;
  mod_time = noon - 100 * hour;
  change_time = some (noon - 90 * hour);
  blocks = pos 8;
  size = pos 4000;
}

abbrev plain_visit : String → List String → Bool → Visit
plain_visit name above is_dir = record {
  walk_error = none;
  cancelled = none;
  name = name;
  above = above;
  is_root = false;
  is_dir = is_dir;
  is_symlink = false;
  is_regular = not is_dir;
  is_session_dir = false;
  git = record { config = none; has_commondir = false; has_worktrees = false };
  info = some old;
}

-- an old temp root with one file
abbrev seen_old : Seen
seen_old = record {
  blockers = [];
  denied = none;
  contains_denied = none;
  info = old;
  visits =
      record (plain_visit "agent-1" [] true) { is_root = true }
      ∷ plain_visit "log.txt" [] false
      ∷ [];
  walk_now = noon;
  now = noon;
  repo = "";
  has_tracked = false;
  worktree_reason = none;
  incomplete = none;
  busy = none;
}

abbrev retention : Bool → RetentionConfig
retention on = record {
  interval = no_text;
  tmp_agents = record {
    enabled = true;
    roots = "/tmp" ∷ [];
    name_globs = "agent-*" ∷ [];
    max_age = text_of day;
    delete_trees = on;
    max_dirs_per_cycle = pos 50;
    max_entries_per_dir = pos 1000;
    fixture_repo_parents = [];
  };
  cargo_targets = record {
    enabled = false;
    roots = [];
    max_depth = pos 0;
    max_age = no_text;
    delete_trees = false;
    busy_processes = "cargo" ∷ [];
    max_entries_per_target = pos 0;
  };
}

abbrev policy : Bool → Policy
policy on = record {
  config = retention on;
  texts_of = record { time_text = λ t. "then"; age_text = λ d. "24h"; count_text = λ n. "1" };
  uid = 1000;
  protect_paths = "/tmp/keep" ∷ [];
  base_of = λ path. "agent-1";
}

abbrev findings : Findings
findings = record {
  floor_is_negative = false;
  floor = none;
  volumes = [];
  configured_volumes = [];
  tmp_roots =
      record {
        path = "/tmp";
        entries = some (
            record {
              cancelled = false;
              name = "agent-1";
              path = "/tmp/agent-1";
              is_dir = true;
              seen = seen_old;
            }
            ∷ []);
      }
      ∷ [];
  cargo_roots = [];
  processes = [];
  leftovers = [];
}

abbrev agent_root : Bool → Candidate
agent_root on = candidate (policy on) tmp_agents "/tmp" "/tmp/agent-1" day seen_old

abbrev agent_ask : Ask
agent_ask = ask_again (policy true) (record {
  rule = tmp_agents;
  root = "/tmp";
  max_age = day;
  target = record no_target { path = "/tmp/agent-1" };
})

agent_unwalked : keep_unwalked agent_ask seen_old ≡ none
unfolding keep_unwalked first_reason protect_reason has_prefix
agent_unwalked = refl

abbrev agent_stats : TreeStats
agent_stats = record {
  newest = noon - 90 * hour;
  allocated = pos 8192;
  apparent = pos 8096;
  entries = 2;
  fixture_repos = 0;
}

agent_walked : walked agent_ask seen_old ≡ (agent_stats, none)
unfolding walked walk_tree walk_visits stop_or visit visit_after bounded_visit measure_visit
    measure_found measure newest_of newest_change effective_mod_time int64
agent_walked = refl

agent_stale : keep_walked agent_ask seen_old ≡ none
unfolding keep_walked first_reason git_reason busy_reason live_why
agent_stale = rw agent_walked refl

valid : validate_retention (retention true) false ≡ none
unfolding validate_retention first_error validate_tmp_agents validate_roots validate_age
    validate_globs validate_parents codes_eq is_glob
valid = refl

candidates_are : (evaluate_checked (policy true) findings none).candidates ≡ agent_root true ∷ []
unfolding evaluate_checked evaluate_tmp_agents tmp_entries evaluate_floors name_matches glob_match
candidates_are = refl

evaluated : (evaluate (policy true) findings).candidates ≡ agent_root true ∷ []
unfolding evaluate
evaluated = rw valid candidates_are

agent_bytes : (agent_root true).target.bytes ≡ pos 8192
unfolding candidate decide_tree decided finished annotate_target stale_target live_why
agent_bytes =
    rw (agent_unwalked, agent_stale)
      (ap (λ (o : TreeStats × Option String). o.0.allocated) agent_walked)

sizes_known :
    All
      (λ (c : Candidate). neg_part c.target.bytes ≡ 0)
      (evaluate (policy true) findings).candidates
sizes_known = rw evaluated (ap neg_part agent_bytes, tt)

reports_are : (evaluate_checked (policy true) findings none).reports ≡ []
unfolding evaluate_checked evaluate_tmp_agents tmp_entries evaluate_floors name_matches glob_match
reports_are = refl

no_reports : (evaluate (policy true) findings).reports ≡ []
unfolding evaluate
no_reports = rw valid reports_are

few_bytes : physical any_target (plan_cleanup (policy true) findings).targets < 2 ^ 63
unfolding physical plan_cleanup plan_of annotate_plan
few_bytes = rw (evaluated, no_reports) (rw agent_bytes (omega arith))

estimate_is_host_candidate_example :
    let cs = (evaluate (policy true) findings).candidates in
    let plan = plan_cleanup (policy true) findings in
    (lookup "host_reclaim_candidate_bytes" plan.metadata
      ≡ some (meta_number plan.estimated_bytes_freed))
    × (plan.estimated_bytes_freed
        ≡ pos (physical (reclaims reclaim_host) (map candidate_target cs)))
estimate_is_host_candidate_example =
    estimate_is_host_candidate (policy true) findings sizes_known few_bytes

-- a world that counts the trees removed
abbrev clean_env : CleanEnv ℕ (List Process)
clean_env = record {
  cancelled = λ w. none;
  clock = λ w. (w, noon);
  scan = λ root w. (w, []);
  same_tree = λ c w. (w, true);
  see = λ c a w. (w, seen_old);
  processes = λ a. a;
  remove = λ path w. (w + 1, none);
}

decide_tree-TreeDecision_example :
    let ask = ask_again (policy true) (agent_root true) in
    TreeDecision ask seen_old (decide_tree ask seen_old)
decide_tree-TreeDecision_example =
    decide_tree-TreeDecision (ask_again (policy true) (agent_root true)) seen_old

abbrev tree : Dir
tree = dir false false (
    entry ".git" true true (dir false false no_entries) (
      entry "app" true false
        (dir false false (entry "target" true true (dir false false no_entries) no_entries))
        no_entries))

find_exact_example :
    let found = find_cargo_target_dirs tree (pos 2) in
    All (Found tree 2) found × ((path : Elements) → Found tree 2 path → In path found)
find_exact_example = find_exact tree (pos 2)

-- an evaluation that finds the old temp root
abbrev find_agent : ℕ → ℕ × Findings
find_agent w = (w, findings)

cleanup-RunOutcome_example :
    RunOutcome clean_env
      (policy true)
      find_agent
      (noon - 2 * hour)
      0
      (cleanup clean_env (policy true) find_agent (noon - 2 * hour) 0)
cleanup-RunOutcome_example =
    cleanup-RunOutcome clean_env (policy true) find_agent (noon - 2 * hour) 0

report_only_run_example :
    let o = cleanup clean_env (policy false) find_agent 0 0 in
    ((o.world ≡ 0) ⊎ (o.world ≡ 0)) × (o.result ≡ no_result)
report_only_run_example = report_only_run clean_env (policy false) find_agent 0 0 refl refl
