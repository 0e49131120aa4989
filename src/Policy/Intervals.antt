-- ===== src/Policy/Intervals.antt =====
-- Bounds and closed forms of the policy's intervals and sizes.
use tinyland_cleanup.Clock.{
  hour, DurationText, bad_text, minute, no_text, text_of, Duration, int64, int64_small,
}
use tinyland_cleanup.Prelude.{
  negsuc, is_positive, pos_part, some, true, ◌-ℤ◌, ◌-◌, ◌≤ℤ◌, ap, ltb, ltb→ge, ltb→lt, refl, ◌∙◌,
  Bool-cases, arith, if◌then◌else◌, inl, inr, ltb_ℤ, min, pos, suc, zero, ℕ, ◌*◌, ◌+ℤ◌, ◌+◌, ◌<◌,
  ◌^◌, ◌≡◌, ◌≤◌,
}
use tinyland_cleanup.Policy.{
  at_least, byte_backoff_interval, byte_backoff_interval_for, byte_backoff_max,
  byte_no_progress_limit, positive_duration, target_free_bytes, zero_yield_policy, double_below,
}
use tinyland_cleanup.Config.{Config}
use native.Mathlib.Nat.{pow-suc}

pow2_pos : (n : ℕ) → 1 ≤ 2 ^ n
pow2_pos zero = omega arith
pow2_pos (suc n) = rw pow-suc (omega (arith, pow2_pos n))

pub le-mul_pow2 : (i n : ℕ) → i ≤ i * 2 ^ n
le-mul_pow2 i n = grind (arith, pow2_pos n)

pub double-mul_pow2 : (i n : ℕ) → (i + i) * 2 ^ n ≡ i * 2 ^ suc n
double-mul_pow2 i n = rw pow-suc (grind arith)

abbrev pub cap : ℕ → Duration → Duration
cap m d = if ltb_ℤ (pos m) d then pos m else d

pub int64_double : (i : ℕ) → i < 2 ^ 62 → int64 (pos i +ℤ pos i) ≡ pos (i + i)
int64_double i h = ground (arith, int64_small (i + i))

double_below_more :
    (steps i m : ℕ)
    → m ≤ 2 ^ 62
    → i < m
    → double_below (suc steps) (pos i) (pos m) ≡ double_below steps (pos (i + i)) (pos m)
unfolding double_below
double_below_more steps i m h l = ground (arith, int64_double i (omega arith))

double_below_done : (steps i m : ℕ) → m ≤ i → double_below (suc steps) (pos i) (pos m) ≡ pos i
unfolding double_below
double_below_done steps i m h = ground arith

cap_pos : (m i : ℕ) → cap m (pos i) ≡ pos (min m i)
cap_pos m i = ground arith

double_below-zero : (i m : Duration) → double_below zero i m ≡ i
unfolding double_below
double_below-zero i m = refl

-- The doubling loop, capped, is the capped closed form.
double_below_exact :
    (steps i m : ℕ)
    → m ≤ 2 ^ 62
    → cap m (double_below steps (pos i) (pos m)) ≡ pos (min m (i * 2 ^ steps))
double_below_exact zero i m h =
    rw (double_below-zero (pos i) (pos m)) (cap_pos m i ∙ ap pos (omega arith))
double_below_exact (suc steps) i m h = elim (Bool-cases (ltb i m)) [
  | inl more ↦
      ap (cap m) (double_below_more steps i m h (ltb→lt i m more))
      ∙ double_below_exact steps (i + i) m h
      ∙ ap (λ n. pos (min m n)) (double-mul_pow2 i steps)
  | inr done ↦
      ap (cap m) (double_below_done steps i m (ltb→ge i m done))
      ∙ cap_pos m i
      ∙ ap pos (omega (arith, le-mul_pow2 i (suc steps), ltb→ge i m done))
]

-- The number of doublings that a path's count of attempts without progress earns.
abbrev pub steps_for : Config → ℕ → ℕ
steps_for c no_progress = pos_part (pos no_progress -ℤ byte_no_progress_limit c)

at_least-le : (floor d : Duration) → floor ≤ℤ at_least floor d
at_least-le floor d = ground arith

positive_duration_pos :
    (raw : DurationText) (fallback : Duration)
    → is_positive fallback ≡ true
    → is_positive (positive_duration raw fallback) ≡ true
positive_duration_pos no_text fallback h = h
positive_duration_pos bad_text fallback h = h
positive_duration_pos (text_of d) fallback h = ground arith

byte_backoff_max_pos : (c : Config) → is_positive (byte_backoff_max c) ≡ true
unfolding byte_backoff_max
byte_backoff_max_pos c = positive_duration_pos c.policy.byte_backoff_max (pos (30 * minute)) refl

capped_exact :
    (steps : ℕ) (i m : Duration)
    → is_positive i ≡ true
    → is_positive m ≡ true
    → m ≤ℤ pos (2 ^ 62)
    → (if ltb_ℤ m (double_below steps i m) then m else double_below steps i m)
      ≡ pos (min (pos_part m) (pos_part i * 2 ^ steps))
capped_exact steps (pos i) (pos m) p q h = double_below_exact steps i m (omega arith)
capped_exact steps (negsuc i) m p q h = ground arith
capped_exact steps i (negsuc m) p q h = ground arith

module _ (c : Config) where
  -- The cap of byte backoff is positive, and so is its first interval, which the cap bounds.
  byte_backoff_interval_bounds :
      (is_positive (byte_backoff_interval c) ≡ true)
      × (byte_backoff_interval c ≤ℤ byte_backoff_max c)
  unfolding byte_backoff_interval
  byte_backoff_interval_bounds = ground (arith, max_pos)
    where
      max_pos : is_positive (byte_backoff_max c) ≡ true
      max_pos = unfold byte_backoff_max in positive_duration_pos c.policy.byte_backoff_max _ (refl)

  -- Byte backoff never holds a plugin back longer than byte_backoff_max.
  pub byte_backoff_interval_for-le : (n : ℕ) → byte_backoff_interval_for c n ≤ℤ byte_backoff_max c
  unfolding byte_backoff_interval_for
  byte_backoff_interval_for-le n = ground arith

  -- Up to a cap of 2 ^ 62 nanoseconds (146 years) the interval is the first interval, doubled once
  -- for each attempt beyond the limit, and held at the cap.
  pub byte_backoff_interval_for_exact :
      (n : ℕ)
      → byte_backoff_max c ≤ℤ pos (2 ^ 62)
      → byte_backoff_interval_for c n
        ≡ pos (
            min
              (pos_part (byte_backoff_max c))
              (pos_part (byte_backoff_interval c) * 2 ^ steps_for c n))
  unfolding byte_backoff_interval_for
  byte_backoff_interval_for_exact n h =
      capped_exact (steps_for c n) (byte_backoff_interval c) (byte_backoff_max c)
        byte_backoff_interval_bounds.0 (byte_backoff_max_pos c) h

  -- The resolved zero-yield policy is consistent: the limit is not negative, the first interval is
  -- positive and at most the cap, and mount pressure never lifts more often than every 5 minutes.
  zero_yield_policy_bounds :
      let p = zero_yield_policy c in
      (pos 0 ≤ℤ p.limit)
      × (is_positive p.base ≡ true)
      × (p.base ≤ℤ p.max)
      × (pos (5 * minute) ≤ℤ p.pressure_min)
  unfolding zero_yield_policy
  zero_yield_policy_bounds =
      (ground arith, base_pos, at_least-le base most, at_least-le (pos (5 * minute)) pressure)
    where
      base : Duration
      base = positive_duration c.policy.zero_yield_backoff_base (pos (30 * minute))

      most : Duration
      most = positive_duration c.policy.zero_yield_backoff_max (pos (6 * hour))

      pressure : Duration
      pressure = positive_duration c.policy.zero_yield_pressure_min_interval (pos hour)

      base_pos : is_positive base ≡ true
      base_pos = positive_duration_pos c.policy.zero_yield_backoff_base (pos (30 * minute)) refl

share-le : (a b n : ℕ) → b ≤ n → a * b ≤ n * a
share-le a b n h = grind arith

-- Where a filesystem is below 2 ^ 57 bytes the free-space target is what the percentage asks for,
-- rounded down.
pub target_free_bytes_exact :
    (total t r : ℕ)
    → total < 2 ^ 57
    → target_free_bytes total (pos t) ≡ some r
    → (100 * r ≤ total * (100 - t)) × (total * (100 - t) < 100 * (r + 1)) × (r ≤ total)
unfolding target_free_bytes
target_free_bytes_exact total t r h e = ground (arith, share-le total (100 - t) 100)
