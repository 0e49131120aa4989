-- ===== src/Accounting/Totals.antt =====
-- The accounting of a plan splits the bytes of its targets.
use tinyland_cleanup.Prelude.{
  if_both, sym, refl, ap, eq_iff, false, ◌+ℤ◌, ◌∙◌, ◌≢◌, ◌≤◌, Bool, List, String, [], arith,
  if◌then◌else◌, is_positive, negsuc, not, pos, pos_part, str_eq, true, ℕ, ℤ, ◌&&◌, ◌+◌, ◌<◌, ◌^◌,
  ◌||◌, ◌∷◌, ◌≡◌,
}
use tinyland_cleanup.Accounting.{
  add_protected, add_unprotected, no_totals, add_targets, TargetTotals, add_target, CleanupTarget,
  reclaim_deferred, reclaim_host, reclaim_of,
}
use tinyland_cleanup.Clock.{int64, add_int64, int64_small}

-- The bytes of the targets that pass a test.
unfoldable pub physical : (CleanupTarget → Bool) → List CleanupTarget → ℕ
physical test [] = 0
physical test (t ∷ ts) = (if test t then pos_part t.bytes else 0) + physical test ts

abbrev pub any_target : CleanupTarget → Bool
any_target t = true

abbrev pub is_protected : CleanupTarget → Bool
is_protected t = t.protected

abbrev pub is_in_use : CleanupTarget → Bool
is_in_use t = t.protected && t.active

abbrev pub reclaims : String → CleanupTarget → Bool
reclaims class t = not t.protected && str_eq (reclaim_of t) class

abbrev pub is_reviewed : CleanupTarget → Bool
is_reviewed t =
    not t.protected
    && not (str_eq (reclaim_of t) reclaim_host || str_eq (reclaim_of t) reclaim_deferred)

pub sum_pos : (n k : ℕ) → pos n +ℤ pos k ≡ pos (n + k)
sum_pos n k = ground arith

add_small :
    (n : ℕ) (b : ℤ)
    → is_positive b ≡ true
    → n + pos_part b < 2 ^ 63
    → add_int64 (pos n) b ≡ pos (n + pos_part b)
add_small n (pos k) h small = ap int64 (sum_pos n k) ∙ int64_small (n + k) small
add_small n (negsuc k) h small = absurd (ground (arith, h))

record Sums : Type 0 where
  all : ℕ
  host : ℕ
  deferred : ℕ
  kept : ℕ
  in_use : ℕ
  reviewed : ℕ

abbrev embed : Sums → TargetTotals
embed n = record {
  total_physical = pos n.all;
  host_candidate = pos n.host;
  deferred_candidate = pos n.deferred;
  protected_physical = pos n.kept;
  active_protected = pos n.in_use;
  review_physical = pos n.reviewed;
}

abbrev at_most : (CleanupTarget → Bool) → CleanupTarget → ℕ → ℕ
at_most test t n = if test t then n + pos_part t.bytes else n

abbrev count_in : CleanupTarget → Sums → Sums
count_in t n = record {
  all = n.all + pos_part t.bytes;
  host = at_most (reclaims reclaim_host) t n.host;
  deferred = at_most (reclaims reclaim_deferred) t n.deferred;
  kept = at_most is_protected t n.kept;
  in_use = at_most is_in_use t n.in_use;
  reviewed = at_most is_reviewed t n.reviewed;
}

-- No counter is above the total, which fits an int64.
record IsBounded (n : Sums) (rest : ℕ) : Type 0 where
  fits : n.all + rest < 2 ^ 63
  host_le : n.host ≤ n.all
  deferred_le : n.deferred ≤ n.all
  kept_le : n.kept ≤ n.all
  in_use_le : n.in_use ≤ n.all
  reviewed_le : n.reviewed ≤ n.all

host_ne_deferred : ◌≢◌ {A = String} reclaim_host reclaim_deferred
host_ne_deferred = ground (arith, eq_iff reclaim_host reclaim_deferred)

skip_target : (t : CleanupTarget) (n : Sums) → is_positive t.bytes ≡ false → count_in t n ≡ n
skip_target t n h = ground (arith, h)

add_protected-embed :
    (t : CleanupTarget) (n : Sums)
    → IsBounded n (pos_part t.bytes)
    → is_positive t.bytes ≡ true
    → t.protected ≡ true
    → add_protected t (embed n) ≡ embed (count_in t n)
unfolding add_protected
add_protected-embed t n b h p =
    rw
      (
        add_small n.all t.bytes h b.fits,
        add_small n.kept t.bytes h (omega arith),
        add_small n.in_use t.bytes h (omega arith),
      )
      (ground (arith, p))

add_unprotected-embed :
    (t : CleanupTarget) (n : Sums)
    → IsBounded n (pos_part t.bytes)
    → is_positive t.bytes ≡ true
    → t.protected ≡ false
    → add_unprotected t (embed n) ≡ embed (count_in t n)
unfolding add_unprotected
add_unprotected-embed t n b h p =
    rw
      (
        add_small n.all t.bytes h b.fits,
        add_small n.host t.bytes h (omega arith),
        add_small n.deferred t.bytes h (omega arith),
        add_small n.reviewed t.bytes h (omega arith),
      )
      (ground (
        arith,
        p,
        host_ne_deferred,
        eq_iff (reclaim_of t) reclaim_host,
        eq_iff (reclaim_of t) reclaim_deferred,
      ))

add_target-embed :
    (t : CleanupTarget) (n : Sums)
    → IsBounded n (pos_part t.bytes)
    → add_target t (embed n) ≡ embed (count_in t n)
unfolding add_target
add_target-embed t n b =
    if_both (λ s. s ≡ embed (count_in t n)) (is_positive t.bytes) _ _
      (λ h.
        if_both (λ s. s ≡ embed (count_in t n)) t.protected _ _ (add_protected-embed t n b h)
          (add_unprotected-embed t n b h))
      (λ empty. ap embed (sym (skip_target t n empty)))

count_in-IsBounded :
    (t : CleanupTarget) (n : Sums) (rest : ℕ)
    → IsBounded n (pos_part t.bytes + rest)
    → IsBounded (count_in t n) rest
count_in-IsBounded t n rest b = ground arith

sums_of : List CleanupTarget → Sums → Sums
sums_of [] n = n
sums_of (t ∷ ts) n = sums_of ts (count_in t n)

add_targets-embed :
    (ts : List CleanupTarget) (n : Sums)
    → IsBounded n (physical any_target ts)
    → add_targets ts (embed n) ≡ embed (sums_of ts n)
unfolding add_targets physical sums_of
add_targets-embed [] n b = refl
add_targets-embed (t ∷ ts) n b =
    ap (add_targets ts) (add_target-embed t n (ground arith))
    ∙ add_targets-embed ts (count_in t n) (count_in-IsBounded t n (physical any_target ts) b)

-- What the counters hold after the loop.
sums_of_lem :
    (ts : List CleanupTarget) (n : Sums)
    → let s = sums_of ts n in
      (s.all ≡ n.all + physical any_target ts)
      × (s.host ≡ n.host + physical (reclaims reclaim_host) ts)
      × (s.deferred ≡ n.deferred + physical (reclaims reclaim_deferred) ts)
      × (s.kept ≡ n.kept + physical is_protected ts)
      × (s.in_use ≡ n.in_use + physical is_in_use ts)
      × (s.reviewed ≡ n.reviewed + physical is_reviewed ts)
unfolding sums_of physical
sums_of_lem [] n = ground arith
sums_of_lem (t ∷ ts) n = ground (arith, sums_of_lem ts (count_in t n))

split_bytes :
    (ts : List CleanupTarget)
    → physical any_target ts
      ≡ physical is_protected ts
        + physical (reclaims reclaim_host) ts
        + physical (reclaims reclaim_deferred) ts
        + physical is_reviewed ts
unfolding physical
split_bytes [] = refl
split_bytes (t ∷ ts) = ground (
  arith,
  split_bytes ts,
  host_ne_deferred,
  eq_iff (reclaim_of t) reclaim_host,
  eq_iff (reclaim_of t) reclaim_deferred,
)

in_use-le : (ts : List CleanupTarget) → physical is_in_use ts ≤ physical is_protected ts
unfolding physical
in_use-le [] = omega arith
in_use-le (t ∷ ts) = ground (arith, in_use-le ts)

abbrev pub totals_of : List CleanupTarget → TargetTotals
totals_of ts = record {
  total_physical = pos (physical any_target ts);
  host_candidate = pos (physical (reclaims reclaim_host) ts);
  deferred_candidate = pos (physical (reclaims reclaim_deferred) ts);
  protected_physical = pos (physical is_protected ts);
  active_protected = pos (physical is_in_use ts);
  review_physical = pos (physical is_reviewed ts);
}

-- Of a plan whose targets hold fewer than 2 ^ 63 bytes in all, the total is every target's bytes,
-- and each byte of it stands in exactly one of the counters for protected, host candidate, deferred
-- candidate and reviewed targets; what is active is part of what is protected.
pub accounting_exact :
    (ts : List CleanupTarget)
    → physical any_target ts < 2 ^ 63
    → (add_targets ts no_totals ≡ totals_of ts)
      × (physical any_target ts
          ≡ physical is_protected ts
            + physical (reclaims reclaim_host) ts
            + physical (reclaims reclaim_deferred) ts
            + physical is_reviewed ts)
      × (physical is_in_use ts ≤ physical is_protected ts)
accounting_exact ts h =
    let none_yet : Sums = record {
      all = 0;
      host = 0;
      deferred = 0;
      kept = 0;
      in_use = 0;
      reviewed = 0;
    } in
    let done = add_targets-embed ts none_yet (ground arith) in
    let held = sums_of_lem ts none_yet in (done ∙ ground arith, split_bytes ts, in_use-le ts)
