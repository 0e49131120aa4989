-- ===== src/Retention/Decide.antt =====
-- The decision about one tree: decide and retentionGitReason (plugins/retention.go).
--
-- What the deny set, the Git tracker and the process inventory answer is an input, and so are the
-- readings of the clock. Numbers and times in reasons go through a Printer of texts.
pub mod Marked
pub mod Safe
use tinyland_cleanup.Prelude.{
  Bool, List, Option, String, [], false, has_prefix, if◌then◌else◌, leb_ℤ, ltb, neg_part, none, not,
  pos, pos_part, some, str_eq, texts, true, ℕ, ℤ, ◌&&◌, ◌+◌, ◌-◌, ◌==◌, ◌||◌, ◌∷◌,
}
use tinyland_cleanup.Retention.Walk.{TreeStats, Visit, WalkBounds, walk_tree}
use tinyland_cleanup.Accounting.{CleanupTarget, annotate_target, host_reclaim_for_action, no_target}
use tinyland_cleanup.Retention.{FileInfo}
use tinyland_cleanup.Clock.{Duration, Time}

pub data Rule : Type 0 where
  tmp_agents cargo_targets : Rule

abbrev pub rule_name : Rule → String
rule_name tmp_agents = "tmp_agents"
rule_name cargo_targets = "cargo_targets"

abbrev pub target_type : Rule → String
target_type tmp_agents = "tmp-agents-root"
target_type cargo_targets = "cargo-target"

pub record TextOf : Type 0 where
  pub time_text : Time → String
  pub age_text : Duration → String
  pub count_text : ℕ → String

-- What is fixed for a tree while it is decided.
pub record Ask : Type 0 where
  pub texts_of : TextOf
  pub uid : ℕ  -- p.uid
  pub protect_paths : List String  -- cfg.DevArtifacts.ProtectPaths
  pub fixture_parents : List String  -- cfg.Retention.TmpAgents.FixtureRepoParents
  pub rule : Rule
  pub path : String
  pub name : String  -- filepath.Base(path)
  pub max_age : Duration
  pub delete_flag : Bool
  pub walk_limit : ℤ  -- int

-- What the checks of one decision see.
pub record Seen : Type 0 where
  pub blockers : List String
  pub denied : Option String
  pub contains_denied : Option String
  pub info : FileInfo
  pub visits : List Visit
  pub walk_now : Time  -- the clock in walkTree
  pub now : Time  -- the clock after it
  pub repo : String  -- git.repoRootForPath
  pub has_tracked : Bool
  pub worktree_reason : Option String
  pub incomplete : Option String  -- activity.complete()
  pub busy : Option String

unfoldable pub git_reason : Seen → Option String
git_reason seen =
    if str_eq seen.repo ""
    then none
    else if seen.has_tracked
    then some (texts ("holds files tracked by the Git repository at " ∷ seen.repo ∷ []))
    else elim seen.worktree_reason [
      | none ↦ none
      | some why ↦ some (texts (why ∷ " (" ∷ seen.repo ∷ ")" ∷ []))
    ]

unfoldable pub protect_reason : String → List String → Option String
protect_reason path [] = none
protect_reason path (prefix ∷ more) =
    if not (str_eq prefix "") && has_prefix path prefix
    then some (texts ("covered by dev_artifacts.protect_paths " ∷ prefix ∷ []))
    else protect_reason path more

abbrev pub fixture_parents_for : Ask → List String
fixture_parents_for ask = elim ask.rule [ tmp_agents ↦ ask.fixture_parents | cargo_targets ↦ [] ]

abbrev pub bounds_of : Ask → Seen → WalkBounds
bounds_of ask seen = record {
  dev = seen.info.dev;
  uid = ask.uid;
  limit = ask.walk_limit;
  fixture_parents = fixture_parents_for ask;
  now = seen.walk_now;
}

unfoldable pub walked : Ask → Seen → TreeStats × Option String
walked ask seen = walk_tree (bounds_of ask seen) seen.visits

-- A reason to keep a tree, and whether the tree counts as active for it.
pub record Keep : Type 0 where
  pub why : String
  pub is_active : Bool

abbrev quiet : String → Keep
quiet why = record { why = why; is_active = false }

-- the first of some reasons
unfoldable pub first_reason : List (Option Keep) → Option Keep
first_reason [] = none
first_reason (some k ∷ more) = some k
first_reason (none ∷ more) = first_reason more

abbrev pub quietly : Option String → Option Keep
quietly none = none
quietly (some why) = some (quiet why)

abbrev pub when : Bool → Keep → Option Keep
when b k = if b then some k else none

-- decide up to the walk
unfoldable pub keep_unwalked : Ask → Seen → Option Keep
keep_unwalked ask seen = first_reason (
    quietly seen.denied
    ∷ quietly seen.contains_denied
    ∷ quietly (protect_reason ask.path ask.protect_paths)
    ∷ when (not seen.info.is_known || not (seen.info.uid == ask.uid))
        (quiet "belongs to another or unknown user")
    ∷ [])

-- stats.newest.After(now.Add(-c.maxAge))
abbrev pub is_recent : Ask → Seen → Time → Bool
is_recent ask seen newest = ltb (seen.now + neg_part ask.max_age - pos_part ask.max_age) newest

abbrev recent_reason : Ask → Time → Keep
recent_reason ask newest = quiet (
    texts (
      "recent change "
      ∷ ask.texts_of.time_text newest
      ∷ " is within "
      ∷ ask.texts_of.age_text ask.max_age
      ∷ []))

unfoldable pub busy_reason : Seen → Option Keep
busy_reason seen = elim seen.busy [
  | none ↦ none
  | some why ↦ some (record {
    why = texts ("cargo_targets skipped while a build runs: " ∷ why ∷ []);
    is_active = true;
  })
]

-- liveWhy: the first live reference, if there is one
unfoldable pub live_why : Seen → String
live_why seen = elim seen.blockers [ [] ↦ "" | who ∷ more ↦ who ]

abbrev live_reason : Seen → Option Keep
live_reason seen =
    when (not (str_eq (live_why seen) ""))
      (record { why = texts ("live reference: " ∷ live_why seen ∷ []); is_active = true })

-- decide from the walk on
unfoldable pub keep_walked : Ask → Seen → Option Keep
keep_walked ask seen = first_reason (
    quietly (walked ask seen).1
    ∷ when (is_recent ask seen (walked ask seen).0.newest)
        (recent_reason ask (walked ask seen).0.newest)
    ∷ quietly (git_reason seen)
    ∷ busy_reason seen
    ∷ quietly seen.incomplete
    ∷ live_reason seen
    ∷ [])

abbrev pub kept_target : Ask → CleanupTarget
kept_target ask = record no_target {
  kind = target_type ask.rule;
  name = ask.name;
  path = ask.path;
  action = "keep";
  protected = true;
}

-- the target with the sizes of the walk
abbrev pub sized_target : Ask → Seen → CleanupTarget
sized_target ask seen =
    let s = (walked ask seen).0 in
    record (kept_target ask) {
      bytes = s.allocated;
      logical_bytes =
          if leb_ℤ s.apparent s.allocated && leb_ℤ s.allocated s.apparent
          then pos 0
          else s.apparent;
    }

abbrev pub put_keep : Keep → CleanupTarget → CleanupTarget
put_keep k t = record t { reason = k.why; active = k.is_active }

abbrev stale_reason : Ask → Seen → String
stale_reason ask seen =
    let s = (walked ask seen).0 in
    texts (
      "newest change "
      ∷ ask.texts_of.time_text s.newest
      ∷ " is older than "
      ∷ ask.texts_of.age_text ask.max_age
      ∷ " with no live reference"
      ∷ (if ltb 0 s.fixture_repos
          then texts (
              "; holds "
              ∷ ask.texts_of.count_text s.fixture_repos
              ∷ " remote-less fixture repo(s)"
              ∷ [])
          else "")
      ∷ [])

unfoldable pub stale_target : Ask → Seen → CleanupTarget
stale_target ask seen = record (sized_target ask seen) {
  protected = false;
  action = if ask.delete_flag then "delete" else "report";
  reason =
      if ask.delete_flag
      then stale_reason ask seen
      else texts (
          "would remove (report only; set retention."
          ∷ rule_name ask.rule
          ∷ ".delete): "
          ∷ stale_reason ask seen
          ∷ []);
}

-- the target before the function that decide defers
unfoldable pub decided : Ask → Seen → Option Keep → Option Keep → CleanupTarget
decided ask seen (some k) walk = put_keep k (kept_target ask)
decided ask seen none (some k) = put_keep k (sized_target ask seen)
decided ask seen none none = stale_target ask seen

abbrev add_live : String → CleanupTarget → CleanupTarget
add_live who t =
    if not (str_eq who "") && t.protected && not (has_prefix t.reason "live reference")
    then record t {
      active = true;
      reason = texts (t.reason ∷ "; also live reference: " ∷ who ∷ []);
    }
    else t

-- the function that decide defers
unfoldable pub finished : Seen → CleanupTarget → CleanupTarget
finished seen t =
    let live = add_live (live_why seen) t in
    annotate_target live "warm" (host_reclaim_for_action live.action)

unfoldable pub decide_tree : Ask → Seen → CleanupTarget
decide_tree ask seen =
    finished seen (decided ask seen (keep_unwalked ask seen) (keep_walked ask seen))
