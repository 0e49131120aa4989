-- ===== src/ScanBudget/Shares.antt =====
-- Every root of a lane has its share, and the lane stays within its budget.
use tinyland_cleanup.Prelude.{
  ◌^◌, length, refl, ◌∙◌, ap, if_true, is_positive, pos_part, ◌+ℤ◌, ◌-ℤ◌, Option, suc, zero, List,
  String, [], arith, none, pos, some, ℕ, ℤ, ◌*◌, ◌+◌, ◌-◌, ◌/◌, ◌<◌, ◌∷◌, ◌≡◌, ◌≤◌,
}
use tinyland_cleanup.Clock.{int64, int64_small, Duration}
use tinyland_cleanup.ScanBudget.{
  duration_share, root_pool, share_budget, rounded_share, at_least_one, entry_share, ContextError,
  RootPool, ScanBudget, check_path, child_budget, child_done, deadline_exceeded, mark_truncated,
  no_error, other_error,
}
use native.Mathlib.Nat.{div-mul-le_self, le-div_iff_mul-le}

abbrev stopped_or : Option String → ScanBudget → ScanBudget → ScanBudget
stopped_or none b rest = rest
stopped_or (some e) b rest = b

-- A root's walk: checkPath for each of its paths, until one ends the walk.
pub walk_root : List (ContextError × String) → ScanBudget → ScanBudget
walk_root [] b = b
walk_root ((err, path) ∷ more) b =
    let after = check_path err path b in stopped_or after.1 after.0 (walk_root more after.0)

check_path-entries :
    (err : ContextError) (path : String) (b : ScanBudget) (limit : ℕ)
    → b.max_entries ≡ pos limit
    → 0 < limit
    → b.entries ≤ limit
    → let b' = (check_path err path b).0 in (b'.entries ≤ limit) × (b'.max_entries ≡ pos limit)
unfolding check_path mark_truncated
check_path-entries (other_error e) path b limit m p h = ground (arith, m)
check_path-entries deadline_exceeded path b limit m p h = ground (arith, m)
check_path-entries no_error path b limit m p h = ground (arith, m)

walk_root-entries :
    (walk : List (ContextError × String)) (b : ScanBudget) (limit : ℕ)
    → b.max_entries ≡ pos limit
    → 0 < limit
    → b.entries ≤ limit
    → (walk_root walk b).entries ≤ limit
unfolding walk_root
walk_root-entries [] b limit m p h = h
walk_root-entries ((err, path) ∷ more) b limit m p h =
    let after = check_path-entries err path b limit m p h in
    go (check_path err path b).1
      (walk_root-entries more (check_path err path b).0 limit after.1 p after.0)
  where
    go :
        (o : Option String)
        → (walk_root more (check_path err path b).0).entries ≤ limit
        → (stopped_or o
            (check_path err path b).0
            (walk_root more (check_path err path b).0)).entries
          ≤ limit
    go none rest = rest
    go (some e) rest = (check_path-entries err path b limit m p h).0

share_core : (left q d k : ℕ) → q * suc k ≤ left → (q + d) * suc k ≤ left + k → q + d + q * k ≤ left
share_core left q zero k h g = grind arith
share_core left q (suc e) k h g = grind arith

share_enough : (left q k : ℕ) → q * suc k ≤ left → q ≤ (left + k) / suc k
share_enough left q k h =
    let some_roots : 0 < suc k = omega arith in
    let fits : q * suc k ≤ left + k = omega arith in (le-div_iff_mul-le some_roots).1 fits

-- With `q` entries for each of the suc k roots left, the next share is at least `q`, and leaves as
-- much for each of the others.
share_leaves :
    (left q k : ℕ)
    → q * suc k ≤ left
    → (q ≤ (left + k) / suc k) × ((left + k) / suc k + q * k ≤ left)
share_leaves left q k h =
    let enough = share_enough left q k h in
    let same : q + ((left + k) / suc k - q) ≡ (left + k) / suc k = omega (arith, enough) in
    let core =
      share_core left q ((left + k) / suc k - q) k h
        (rw same (div-mul-le_self (left + k) (suc k))) in
    (enough, rw same at core)

whole_share :
    (limit used left k : ℕ)
    → used + left ≡ limit
    → (pos limit -ℤ pos used) +ℤ pos k ≡ pos (left + k)
whole_share limit used left k e = ground (arith, e)

at_least_one-suc : (k : ℕ) → at_least_one (suc k) ≡ suc k
at_least_one-suc k = ground arith

entry_share_value :
    (duration : Duration) (limit used left k : ℕ)
    → used + left ≡ limit
    → 0 < left
    → left + k < 2 ^ 63
    → entry_share (record {
      max_entries = pos limit;
      max_duration = duration;
      used_entries = used;
      remaining_roots = suc k;
    })
      ≡ at_least_one ((left + k) / suc k)
unfolding entry_share
entry_share_value duration limit used left k e p small =
    if_true (λ n. n ≡ at_least_one ((left + k) / suc k)) (is_positive (pos limit)) _ _
      (ground arith)
      (ap (rounded_share (pos limit -ℤ pos used)) (at_least_one-suc k)
        ∙ ap (λ (z : ℤ). at_least_one (pos_part z / suc k))
            (ap (λ (j : ℕ). int64 ((pos limit -ℤ pos used) +ℤ pos j)) (omega arith)
              ∙ ap int64 (whole_share limit used left k e)
              ∙ int64_small (left + k) small))

-- The next root's share, and what is left for the others.
share_fits :
    (duration : Duration) (limit used q k : ℕ)
    → 0 < q
    → used + q * suc k ≤ limit
    → limit + suc k < 2 ^ 63
    → let share = entry_share (record {
      max_entries = pos limit;
      max_duration = duration;
      used_entries = used;
      remaining_roots = suc k;
    }) in
      (q ≤ share) × (used + share + q * k ≤ limit)
share_fits duration limit used q k p h small =
    let left : ℕ = limit - used in
    let some_left : 0 < limit - used = grind arith in
    let computed =
      entry_share_value duration limit used (limit - used) k (omega arith) some_left
        (omega (arith, small)) in
    let (enough, remains) = share_leaves (limit - used) q k (omega arith) in
    rw computed (ground (arith, enough, remains))

abbrev Walks : Type 0
Walks = List (Duration × List (ContextError × String))

-- the pool after a root's walk
abbrev pub after_root : Duration → List (ContextError × String) → ℤ → RootPool → RootPool
after_root elapsed walk temp_max_roots pl =
    child_done (walk_root walk (child_budget pl elapsed temp_max_roots).1)
      (child_budget pl elapsed temp_max_roots).0

-- How many entries the walks of a lane visit in all: each root in turn takes its child budget at a
-- time, walks, and returns what it left.
pub visited : Walks → ℤ → RootPool → ℕ
visited [] temp_max_roots pl = 0
visited ((elapsed, walk) ∷ more) temp_max_roots pl =
    (walk_root walk (child_budget pl elapsed temp_max_roots).1).entries
    + visited more temp_max_roots (after_root elapsed walk temp_max_roots pl)

-- Every root of the lane gets a share of at least `q`.
abbrev pub AllShares : ℕ → Walks → ℤ → RootPool → Type 0
AllShares q [] temp_max_roots pl = Unit {0}
AllShares q ((elapsed, walk) ∷ more) temp_max_roots pl =
    (q ≤ entry_share pl)
    × AllShares q more temp_max_roots (after_root elapsed walk temp_max_roots pl)

abbrev pool_at : Duration → ℕ → ℕ → ℕ → RootPool
pool_at duration limit used r = record {
  max_entries = pos limit;
  max_duration = duration;
  used_entries = used;
  remaining_roots = r;
}

after_root_used :
    (elapsed : Duration) (walk : List (ContextError × String)) (temp_max_roots : ℤ)
    (duration : Duration) (limit used r : ℕ)
    → 0 < entry_share (pool_at duration limit used r)
    → (after_root elapsed walk temp_max_roots (pool_at duration limit used r)).used_entries
      ≤ used + entry_share (pool_at duration limit used r)
unfolding child_done child_budget
after_root_used elapsed walk temp_max_roots duration limit used r p =
    let share = entry_share (pool_at duration limit used r) in
    omega (
      arith,
      walk_root-entries walk
          (share_budget (pos (duration_share (pool_at duration limit used r) elapsed)) (pos share)
            temp_max_roots)
          share refl p (omega arith),
    )

lane_from :
    (walks : Walks) (temp_max_roots : ℤ) (duration : Duration) (limit used r q : ℕ)
    → r ≡ length walks
    → 0 < q
    → used + q * length walks ≤ limit
    → limit + length walks < 2 ^ 63
    → AllShares q walks temp_max_roots (pool_at duration limit used r)
      × (used + visited walks temp_max_roots (pool_at duration limit used r) ≤ limit)
unfolding visited child_done child_budget
lane_from [] temp_max_roots duration limit used r q e p h small = (tt, omega arith)
lane_from ((elapsed, walk) ∷ more) temp_max_roots duration limit used r q e p h small =
    let (enough, remains) = share_at duration limit used r q (length more) e p h small in
    let spent = after_root_used elapsed walk temp_max_roots duration limit used r (omega arith) in
    let (rest, within) =
      lane_from more temp_max_roots duration limit
        (after_root elapsed walk temp_max_roots (pool_at duration limit used r)).used_entries
        (r - 1) q (omega arith) p (omega (arith, spent, remains)) (omega (arith, small)) in
    ((enough, rest), omega (arith, within))
  where
    share_at :
        (duration : Duration) (limit used r q k : ℕ)
        → r ≡ suc k
        → 0 < q
        → used + q * suc k ≤ limit
        → limit + suc k < 2 ^ 63
        → (q ≤ entry_share (pool_at duration limit used r))
          × (used + entry_share (pool_at duration limit used r) + q * k ≤ limit)
    share_at duration limit used r q k e p h small =
        rw e (share_fits duration limit used q k p h small)

-- A lane whose entry budget has `q` entries for each of its roots gives every root a share of at
-- least `q`, whatever the roots before it used, and its walks visit no more entries than its budget
-- in all. The budget and the number of roots add up to less than 2 ^ 63.
pub lane_is_fair :
    (b : ScanBudget) (walks : Walks) (temp_max_roots : ℤ) (limit q : ℕ)
    → b.max_entries ≡ pos limit
    → 0 < q
    → q * length walks ≤ limit
    → limit + length walks < 2 ^ 63
    → AllShares q walks temp_max_roots (root_pool b (length walks))
      × (visited walks temp_max_roots (root_pool b (length walks)) ≤ limit)
unfolding root_pool
lane_is_fair b walks temp_max_roots limit q e p h small =
    let (fair, within) =
      lane_from walks temp_max_roots b.max_duration limit 0 (length walks) q refl p (omega arith)
        small in
    rw e (fair, omega (arith, within))
