-- ===== src/Retention/Decide/Safe.antt =====
-- A tree that goes is safe to remove.
use tinyland_cleanup.Prelude.{
  ◌∙◌, if◌then◌else◌, ltb→ge, ◌==◌, ◌||◌, All, Bool, Bool-cases, List, Option, Option-cases, String,
  [], arith, eq_iff, false, has_prefix, inl, inr, is_positive, length, neg_part, none, not, pos,
  pos_part, refl, some, str_eq, true, ◌&&◌, ◌+◌, ◌-◌, ◌∷◌, ◌≡◌, ◌≤ℤ◌, ◌≤◌, ◌⊎◌,
}
use tinyland_cleanup.Accounting.{annotate_target, CleanupTarget}
use tinyland_cleanup.Retention.Walk.Stale.{walk_tree-IsStale, IsPlain}
use tinyland_cleanup.Retention.Decide.{
  decide_tree, decided, finished, is_recent, keep_unwalked, keep_walked, stale_target, walked, Ask,
  Keep, Seen, bounds_of, busy_reason, first_reason, git_reason, live_why, protect_reason, quietly,
  when,
}
use tinyland_cleanup.Clock.{Time}

-- Why a tree may go, whatever its delete flag says: nothing denies or protects it, it is the user's
-- own, its walk met only own entries of one file system with no session data and no Git repository
-- but fixtures, within the bound; no time in it that is not in the future is later than `max_age`
-- ago; Git has nothing to lose; no build, no gap in the process inventory and no live reference.
pub record IsSafe (ask : Ask) (seen : Seen) : Type 0 where
  pub allowed : seen.denied ≡ none
  pub holds_no_denied : seen.contains_denied ≡ none
  pub unprotected :
      All
        (λ prefix. (not (str_eq prefix "") && has_prefix ask.path prefix) ≡ false)
        ask.protect_paths
  pub is_known : seen.info.is_known ≡ true
  pub is_owned : seen.info.uid ≡ ask.uid
  pub newest : Time
  pub all_plain : All (IsPlain (bounds_of ask seen) newest) seen.visits
  pub within_bound : is_positive ask.walk_limit ≡ true → pos (length seen.visits) ≤ℤ ask.walk_limit
  pub is_old : newest ≤ seen.now + neg_part ask.max_age - pos_part ask.max_age
  pub git_is_safe : (seen.repo ≡ "") ⊎ ((seen.has_tracked ≡ false) × (seen.worktree_reason ≡ none))
  pub no_build : seen.busy ≡ none
  pub inventory_complete : seen.incomplete ≡ none
  pub no_live : live_why seen ≡ ""

first_reason-none :
    (o : Option Keep) (os : List (Option Keep))
    → first_reason (o ∷ os) ≡ none
    → (o ≡ none) × (first_reason os ≡ none)
unfolding first_reason
first_reason-none none os h = (refl, h)
first_reason-none (some k) os h = cc

quietly-none : (o : Option String) → quietly o ≡ none → o ≡ none
quietly-none none h = refl
quietly-none (some why) h = cc

when-none : (b : Bool) (k : Keep) → when b k ≡ none → b ≡ false
when-none true k h = cc
when-none false k h = refl

protect_reason-none :
    (path : String) (prefixes : List String)
    → protect_reason path prefixes ≡ none
    → All (λ prefix. (not (str_eq prefix "") && has_prefix path prefix) ≡ false) prefixes
unfolding protect_reason
protect_reason-none path [] h = tt
protect_reason-none path (prefix ∷ more) h =
    elim (Bool-cases (not (str_eq prefix "") && has_prefix path prefix)) [
      | inl covered ↦ absurd (ground (arith, h, covered))
      | inr free ↦ (free, protect_reason-none path more (rw free at h))
    ]

git_reason-none :
    (seen : Seen)
    → git_reason seen ≡ none
    → (seen.repo ≡ "") ⊎ ((seen.has_tracked ≡ false) × (seen.worktree_reason ≡ none))
unfolding git_reason
git_reason-none seen h = elim (Bool-cases (str_eq seen.repo "")) [
  | inl e ↦ inl (ground (arith, eq_iff seen.repo "", e))
  | inr e ↦ elim (Option-cases seen.worktree_reason) [
    | inl free ↦ inr (ground (arith, h, e, free), free)
    | inr (why, kept) ↦ absurd (ground (arith, h, e, kept))
  ]
]

busy_reason-none : (seen : Seen) → busy_reason seen ≡ none → seen.busy ≡ none
unfolding busy_reason
busy_reason-none seen h = elim (Option-cases seen.busy) [
  | inl free ↦ free
  | inr (why, e) ↦ absurd (ground (arith, h, e))
]

-- The reasons of the first stage are the first four of IsSafe.
record Unwalked (ask : Ask) (seen : Seen) : Type 0 where
  allowed : seen.denied ≡ none
  holds_no_denied : seen.contains_denied ≡ none
  unprotected :
      All
        (λ prefix. (not (str_eq prefix "") && has_prefix ask.path prefix) ≡ false)
        ask.protect_paths
  owned : (not seen.info.is_known || not (seen.info.uid == ask.uid)) ≡ false

keep_unwalked-none : (ask : Ask) (seen : Seen) → keep_unwalked ask seen ≡ none → Unwalked ask seen
unfolding keep_unwalked
keep_unwalked-none ask seen h =
    let (denied, h1) = first_reason-none _ _ h in
    let (contains, h2) = first_reason-none _ _ h1 in
    let (protect, h3) = first_reason-none _ _ h2 in
    let (foreign, h4) = first_reason-none _ _ h3 in
    record {
      allowed = quietly-none _ denied;
      holds_no_denied = quietly-none _ contains;
      unprotected = protect_reason-none _ _ (quietly-none _ protect);
      owned = when-none _ _ foreign;
    }

record Walked (ask : Ask) (seen : Seen) : Type 0 where
  stale : (walked ask seen).1 ≡ none
  old : is_recent ask seen (walked ask seen).0.newest ≡ false
  git : git_reason seen ≡ none
  idle : busy_reason seen ≡ none
  complete : seen.incomplete ≡ none
  dead : not (str_eq (live_why seen) "") ≡ false

keep_walked-none : (ask : Ask) (seen : Seen) → keep_walked ask seen ≡ none → Walked ask seen
unfolding keep_walked
keep_walked-none ask seen h =
    let (walk, h1) = first_reason-none _ _ h in
    let (recent, h2) = first_reason-none _ _ h1 in
    let (git, h3) = first_reason-none _ _ h2 in
    let (busy, h4) = first_reason-none _ _ h3 in
    let (incomplete, h5) = first_reason-none _ _ h4 in
    let (live, h6) = first_reason-none _ _ h5 in
    record {
      stale = quietly-none _ walk;
      old = when-none _ _ recent;
      git = quietly-none _ git;
      idle = busy;
      complete = quietly-none _ incomplete;
      dead = when-none _ _ live;
    }

reasons-IsSafe :
    (ask : Ask) (seen : Seen)
    → keep_unwalked ask seen ≡ none
    → keep_walked ask seen ≡ none
    → IsSafe ask seen
unfolding walked
reasons-IsSafe ask seen h k =
    let u = keep_unwalked-none ask seen h in
    let w = keep_walked-none ask seen k in
    let s = walk_tree-IsStale (bounds_of ask seen) seen.visits w.stale in
    record {
      allowed = u.allowed;
      holds_no_denied = u.holds_no_denied;
      unprotected = u.unprotected;
      is_known = ground (arith, u.owned);
      is_owned = ground (arith, u.owned);
      newest = (walked ask seen).0.newest;
      all_plain = s.all_plain;
      within_bound = λ p. ground (arith, s.within_bound p);
      is_old = ltb→ge _ _ w.old;
      git_is_safe = git_reason-none seen w.git;
      no_build = busy_reason-none seen w.idle;
      inventory_complete = w.complete;
      no_live = ground (arith, w.dead, eq_iff (live_why seen) "");
    }

-- A decision about a tree: it is kept, or it is safe to remove and then deleted if the rule's delete
-- flag is set and only reported if not.
pub data TreeDecision (ask : Ask) (seen : Seen) (t : CleanupTarget) : Type 0 where
  keeps : t.protected ≡ true → t.action ≡ "keep" → TreeDecision ask seen t
  goes :
      IsSafe ask seen
      → t.protected ≡ false
      → t.action ≡ (if ask.delete_flag then "delete" else "report")
      → TreeDecision ask seen t

finished_same :
    (seen : Seen) (t : CleanupTarget)
    → ((finished seen t).protected ≡ t.protected) × ((finished seen t).action ≡ t.action)
unfolding finished annotate_target
finished_same seen t = ground arith

finished-keeps :
    (ask : Ask) (seen : Seen) (t : CleanupTarget)
    → t.protected ≡ true
    → t.action ≡ "keep"
    → TreeDecision ask seen (finished seen t)
finished-keeps ask seen t p a = keeps ((finished_same seen t).0 ∙ p) ((finished_same seen t).1 ∙ a)

finished-goes :
    (ask : Ask) (seen : Seen)
    → IsSafe ask seen
    → TreeDecision ask seen (finished seen (stale_target ask seen))
unfolding stale_target
finished-goes ask seen safe =
    let same = finished_same seen (stale_target ask seen) in goes safe same.0 same.1

-- Every decision about a tree keeps it, or the tree is safe: nothing denies or protects it, it is the
-- user's own, all in it is older than the rule's age, no Git custody, no build, no live reference and
-- no gap in the process inventory; then it is to be deleted if the rule's delete flag is set, and is
-- only reported if not.
pub decide_tree-TreeDecision :
    (ask : Ask) (seen : Seen) → TreeDecision ask seen (decide_tree ask seen)
unfolding decide_tree decided
decide_tree-TreeDecision ask seen = elim (Option-cases (keep_unwalked ask seen)) [
  | inr (k, e) ↦ rw e (finished-keeps ask seen _ refl refl)
  | inl free ↦ elim (Option-cases (keep_walked ask seen)) [
    | inr (k, e) ↦ rw (free, e) (finished-keeps ask seen _ refl refl)
    | inl stale ↦ rw (free, stale) (finished-goes ask seen (reasons-IsSafe ask seen free stale))
  ]
]
