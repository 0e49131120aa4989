-- ===== src/Retention/Decide/Marked.antt =====
-- What decide leaves of a target: its path, and a reclaim class that its action tells
-- (plugins/retention.go: decide, annotateCleanupTargetPolicy).
use tinyland_cleanup.Prelude.{Option, arith, none, refl, some, ◌∙◌, ◌≡◌}
use tinyland_cleanup.Retention.Decide.{
  Ask, Keep, Seen, decide_tree, decided, finished, stale_target,
}
use tinyland_cleanup.Accounting.{CleanupTarget, annotate_target, host_reclaim_for_action}

decided-path :
    (ask : Ask) (seen : Seen) (a b : Option Keep) → (decided ask seen a b).path ≡ ask.path
unfolding decided stale_target
decided-path ask seen (some k) b = refl
decided-path ask seen none (some k) = refl
decided-path ask seen none none = refl

finished-path : (seen : Seen) (t : CleanupTarget) → (finished seen t).path ≡ t.path
unfolding finished annotate_target
finished-path seen t = ground arith

pub decide_tree-path : (ask : Ask) (seen : Seen) → (decide_tree ask seen).path ≡ ask.path
unfolding decide_tree
decide_tree-path ask seen = finished-path seen _ ∙ decided-path ask seen _ _

pub decide_tree-reclaim :
    (ask : Ask) (seen : Seen)
    → (decide_tree ask seen).reclaim ≡ host_reclaim_for_action (decide_tree ask seen).action
unfolding decide_tree finished annotate_target
decide_tree-reclaim ask seen = ground arith
