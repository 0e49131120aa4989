-- ===== src/Retention/Cleanup.antt =====
-- Removing what the rules decided: Cleanup, recheck, due and retentionBusyProcess
-- (plugins/retention.go).
--
-- The world W is what the clock, the file system and the process table act on; an operation of
-- CleanEnv is one call. A is a process inventory. Log lines are left out.
pub mod Refines
use tinyland_cleanup.Clock.{
  bad_text, no_text, text_of, Duration, DurationText, Time, add_int64, hour, parse_duration, second,
  sub_time,
}
use mathlib.Core.List.{reverse}
use tinyland_cleanup.Prelude.{
  Bool, List, Option, String, [], codes, codes_eq, codes_prefix, drop_spaces, false, if◌then◌else◌,
  is_positive, is_space, ltb, ltb_ℤ, none, not, pos, some, str_eq, texts, true, ℕ, ◌&&◌, ◌*◌, ◌++◌,
  ◌+◌, ◌==◌, ◌||◌, ◌∷◌,
}
use tinyland_cleanup.Retention.Decide.{
  Ask, Rule, Seen, TextOf, cargo_targets, decide_tree, tmp_agents,
}
use tinyland_cleanup.Records.{CleanupResult}
use tinyland_cleanup.Accounting.{CleanupTarget}
use tinyland_cleanup.Retention.{RetentionConfig}

-- the policy of a rule that recheck reads
pub record Candidate : Type 0 where
  pub rule : Rule
  pub root : String
  pub max_age : Duration
  pub target : CleanupTarget

pub record Process : Type 0 where
  pub pid_text : String
  pub cmdline : String

pub record CleanEnv (W A : Type 0) : Type 0 where
  pub cancelled : W → Option String  -- ctx.Err()
  pub clock : W → W × Time
  pub scan : String → W → W × A
  pub same_tree : Candidate → W → W × Bool  -- os.Lstat and os.SameFile
  pub see : Candidate → A → W → W × Seen
  pub processes : A → List Process
  pub remove : String → W → W × Option String

-- strings.Fields(cmdline)[0] of what follows the spaces at the start, and its end
first_field : List ℕ → List ℕ
first_field [] = []
first_field (c ∷ s) = let rest = first_field s in if is_space c then [] else c ∷ rest

drop_slashes : List ℕ → List ℕ
drop_slashes [] = []
drop_slashes (c ∷ s) = let rest = drop_slashes s in if c == b'/' then rest else c ∷ s

up_to_slash : List ℕ → List ℕ
up_to_slash [] = []
up_to_slash (c ∷ s) = let rest = up_to_slash s in if c == b'/' then [] else c ∷ rest

or_slash : List ℕ → List ℕ
or_slash [] = b'/' ∷ []
or_slash (c ∷ s) = c ∷ s

-- filepath.Base, of a path that is not empty
base_name : List ℕ → List ℕ
unfolding drop_slashes up_to_slash or_slash
base_name [] = []
base_name (c ∷ s) = or_slash (reverse (up_to_slash (drop_slashes (reverse (c ∷ s)))))

is_named : List ℕ → String → Bool
is_named base n =
    not (str_eq n "") && (codes_eq base (codes n) || codes_prefix (codes n ++ b'-' ∷ []) base)

any_name : List ℕ → List String → Bool
unfolding is_named
any_name base [] = false
any_name base (n ∷ ns) = is_named base n || any_name base ns

-- retentionBusyProcess: the first process that runs under one of the names; its text is without the
-- name
unfoldable pub busy_process : List Process → List String → Option String
unfolding any_name base_name first_field
busy_process [] names = none
busy_process (p ∷ ps) names =
    let argv0 = first_field (drop_spaces (codes p.cmdline)) in
    if any_name (base_name argv0) names
    then some (texts ("pid " ∷ p.pid_text ∷ " is running" ∷ []))
    else busy_process ps names

-- What the daemon and its configuration fix for every tree.
pub record Policy : Type 0 where
  pub config : RetentionConfig
  pub texts_of : TextOf
  pub uid : ℕ
  pub protect_paths : List String
  pub base_of : String → String  -- filepath.Base

-- the question that recheck asks again about a candidate
abbrev pub ask_again : Policy → Candidate → Ask
ask_again p c = record {
  texts_of = p.texts_of;
  uid = p.uid;
  protect_paths = p.protect_paths;
  fixture_parents = p.config.tmp_agents.fixture_repo_parents;
  rule = c.rule;
  path = c.target.path;
  name = p.base_of c.target.path;
  max_age = c.max_age;
  delete_flag = elim c.rule [
    | tmp_agents ↦ p.config.tmp_agents.delete_trees
    | cargo_targets ↦ p.config.cargo_targets.delete_trees
  ];
  walk_limit = elim c.rule [
    | tmp_agents ↦ p.config.tmp_agents.max_entries_per_dir
    | cargo_targets ↦ p.config.cargo_targets.max_entries_per_target
  ];
}

abbrev pub retention_activity_max_age : Duration
retention_activity_max_age = pos (30 * second)

-- what the walk of the target frees
abbrev pub count_removed : CleanupTarget → CleanupResult → CleanupResult
count_removed t r = record r {
  bytes_freed = add_int64 r.bytes_freed t.bytes;
  estimated_bytes_freed = add_int64 r.estimated_bytes_freed t.bytes;
  items_cleaned = r.items_cleaned + 1;
}

module _ {W A : Type 0} (env : CleanEnv W A) (p : Policy) where
  -- the checks of a candidate, with the busy processes of its rule
  abbrev pub seen_again : Candidate → A → Seen → Seen
  seen_again c a seen = record seen {
    busy = elim c.rule [
      | tmp_agents ↦ none
      | cargo_targets ↦ busy_process (env.processes a) p.config.cargo_targets.busy_processes
    ];
  }

  -- recheck: none removes the tree, a text keeps it
  unfoldable pub recheck : Candidate → A → W → W × Option String
  recheck c a w =
      let (w1, same) = env.same_tree c w in
      let (w2, seen) = env.see c a w1 in
      let t = decide_tree (ask_again p c) (seen_again c a seen) in
      if not same
      then (w1, some "tree identity changed")
      else if str_eq t.action "delete"
      then (w2, none)
      else (w2, some t.reason)

  abbrev scan_now : String → W → W × A × Time
  scan_now root w = let (w1, a) = env.scan root w in let (w2, at) = env.clock w1 in (w2, a, at)

  -- an inventory no older than retentionActivityMaxAge
  unfoldable pub refresh : String → Option (A × Time) → W → W × A × Time
  refresh root none w = scan_now root w
  refresh root (some (a, at)) w =
      let (w1, now) = env.clock w in
      if ltb_ℤ retention_activity_max_age (sub_time now at) then scan_now root w1 else (w1, a, at)

  abbrev removed : CleanupTarget → Option String → CleanupResult → CleanupResult
  removed t none r = count_removed t r
  removed t (some e) r = r

  -- the loop's body for a candidate to delete, after the inventory
  unfoldable pub remove_checked : Candidate → W × Option String → CleanupResult → W × CleanupResult
  remove_checked c (w, some why) r = (w, r)
  remove_checked c (w, none) r =
      let (w1, e) = env.remove c.target.path w in (w1, removed c.target e r)

  abbrev Fresh : Type 0
  Fresh = Option (A × Time)

  -- the rest of the loop, after a candidate whose inventory is `fresh`
  unfoldable pub clean_one : Candidate → Fresh → CleanupResult → W → W × CleanupResult × Fresh
  clean_one c held r w =
      let (w1, a, at) = refresh c.root held w in
      let (w2, r') = remove_checked c (recheck c a w1) r in (w2, r', some (a, at))

  unfoldable pub clean_loop : List Candidate → Fresh → CleanupResult → W → W × CleanupResult
  clean_loop [] held r w = (w, r)
  clean_loop (c ∷ cs) held r w =
      let skipped = clean_loop cs held r w in
      let (w', r', held') = clean_one c held r w in
      let cleaned = clean_loop cs held' r' w' in
      if not (str_eq c.target.action "delete")
      then skipped
      else elim (env.cancelled w) [ some e ↦ (w, record r { error = some e }) | none ↦ cleaned ]

-- retention.interval, one hour if it is empty or no duration
abbrev pub interval_of : DurationText → Duration
interval_of no_text = pos hour
interval_of bad_text = pos hour
interval_of (text_of d) = d

-- due: whether the interval has passed since the last pass, and the time of the last pass then
unfoldable pub due : DurationText → Time → Time → Bool × Time
due interval last_run now =
    let gap = interval_of interval in
    if ltb 0 last_run && is_positive gap && ltb_ℤ (sub_time now last_run) gap
    then (false, last_run)
    else (true, now)
