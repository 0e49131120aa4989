-- ===== src/State/Backoff.antt =====
-- The zero-yield backoff and the cooldown of state.go, in closed form.
use tinyland_cleanup.Records.{CleanupResult, CleanupState, PluginStateRecord}
use tinyland_cleanup.Throttle.{full}
use tinyland_cleanup.Prelude.{
  Option, lookup, lookup-insert_self, none, some, Bool-cases, String, ap, arith, inl, inr, ltb,
  ltb→ge, ltb→lt, min, pos, refl, suc, zero, ℕ, ◌%◌, ◌*◌, ◌+◌, ◌-◌, ◌<◌, ◌^◌, ◌∙◌, ◌≡◌, ◌≤ℤ◌, ◌≤◌,
  ◌⊎◌,
}
use tinyland_cleanup.State.{
  record_plugin_run, remaining_of, remaining_since, cooldown_remaining, double_to_cap,
  zero_yield_backoff,
}
use tinyland_cleanup.Clock.{
  Stamp, at_time, bad_stamp, no_stamp, parse_stamp, sub_time, Duration, Time, second,
}
use tinyland_cleanup.Policy.Intervals.{double-mul_pow2, int64_double, le-mul_pow2}
use tinyland_cleanup.Level.{Level, value}
use tinyland_cleanup.Policy.{ZeroYieldPolicy}

-- A positive interval at or below a cap.
round_below :
    (rounds i m : ℕ)
    → m < 2 ^ 63
    → i < m
    → i + i ≤ m
    → double_to_cap (suc rounds) (pos i) (pos m) ≡ double_to_cap rounds (pos (i + i)) (pos m)
unfolding double_to_cap
round_below rounds i m h l d = ground (arith, int64_double i)

round_over :
    (rounds i m : ℕ) → i < m → m < i + i → double_to_cap (suc rounds) (pos i) (pos m) ≡ pos m
unfolding double_to_cap
round_over rounds i m l d = ground arith

round_at : (rounds i m : ℕ) → m ≤ i → double_to_cap rounds (pos i) (pos m) ≡ pos i
unfolding double_to_cap
round_at zero i m h = refl
round_at (suc rounds) i m h = ground arith

round_none : (i m : Duration) → double_to_cap zero i m ≡ i
unfolding double_to_cap
round_none i m = refl

double_to_cap_exact :
    (rounds i m : ℕ)
    → m < 2 ^ 63
    → i ≤ m
    → double_to_cap rounds (pos i) (pos m) ≡ pos (min m (i * 2 ^ rounds))
double_to_cap_exact zero i m h l = round_none (pos i) (pos m) ∙ ap pos (omega arith)
double_to_cap_exact (suc rounds) i m h l = elim (Bool-cases (ltb i m)) [
  | inr full ↦
      round_at (suc rounds) i m (ltb→ge i m full)
      ∙ ap pos (omega (arith, le-mul_pow2 i (suc rounds), ltb→ge i m full))
  | inl below ↦ elim (Bool-cases (ltb m (i + i))) [
    | inl over ↦
        round_over rounds i m (ltb→lt i m below) (ltb→lt m (i + i) over)
        ∙ ap pos (
            omega
              (arith, le-mul_pow2 (i + i) rounds, double-mul_pow2 i rounds, ltb→lt m (i + i) over))
    | inr fits ↦
        round_below rounds i m h (ltb→lt i m below) (ltb→ge m (i + i) fits)
        ∙ double_to_cap_exact rounds (i + i) m h (ltb→ge m (i + i) fits)
        ∙ ap (λ n. pos (min m n)) (double-mul_pow2 i rounds)
  ]
]

-- With suppression on, a run past the limit doubles the base interval once for each further
-- zero-yield run, held at the cap; no int64 overflows on the way.
pub zero_yield_backoff_exact :
    (count limit base max pressure : ℕ)
    → 0 < limit
    → 0 < base
    → base ≤ max
    → max < 2 ^ 63
    → limit ≤ count
    → zero_yield_backoff count
        (record { limit = pos limit; base = pos base; max = pos max; pressure_min = pos pressure })
      ≡ pos (min max (base * 2 ^ (count - limit)))
unfolding zero_yield_backoff
zero_yield_backoff_exact count limit base max pressure hl hb hm h hc =
    ground (arith, double_to_cap_exact (count - limit) base max)

-- Below the limit, or with suppression off, a plugin is never held back.
zero_yield_backoff-below :
    (count : ℕ) (p : ZeroYieldPolicy)
    → (p.limit ≤ℤ pos 0) ⊎ (pos (suc count) ≤ℤ p.limit)
    → zero_yield_backoff count p ≡ pos 0
unfolding zero_yield_backoff
zero_yield_backoff-below count p h = ground arith

-- What is left of a cooldown lies between 0 and the cooldown, whatever the clock did meanwhile.
remaining_since_bounds :
    (last now : Time) (cooldown : ℕ)
    → (pos 0 ≤ℤ remaining_since last now (pos cooldown))
      × (remaining_since last now (pos cooldown) ≤ℤ pos cooldown)
unfolding remaining_since
remaining_since_bounds last now cooldown = ground arith

pub remaining_since_exact :
    (last now cooldown : ℕ)
    → last ≤ now
    → cooldown < 2 ^ 63
    → remaining_since last now (pos cooldown) ≡ pos (last + cooldown - now)
unfolding remaining_since sub_time
remaining_since_exact last now cooldown h w = ground arith

remaining_of_bounds :
    (o : Option PluginStateRecord) (level : Level) (now : Time) (cooldown : ℕ)
    → (pos 0 ≤ℤ remaining_of o level now (pos cooldown))
      × (remaining_of o level now (pos cooldown) ≤ℤ pos cooldown)
unfolding remaining_of
remaining_of_bounds none level now cooldown = omega arith
remaining_of_bounds (some r) level now cooldown =
    elim (Bool-cases (ltb r.last_level_value (value level))) [
      | inl below ↦ rw below (omega arith)
      | inr held ↦ rw held (stamped r.last_run)
    ]
  where
    stamped :
        (s : Stamp)
        → (pos 0 ≤ℤ elim (parse_stamp s) [
          | none ↦ pos 0
          | some last ↦ remaining_since last now (pos cooldown)
        ])
          × (elim (parse_stamp s) [
            | none ↦ pos 0
            | some last ↦ remaining_since last now (pos cooldown)
          ]
              ≤ℤ pos cooldown)
    stamped no_stamp = omega arith
    stamped bad_stamp = omega arith
    stamped (at_time last) = remaining_since_bounds last now cooldown

module _ (s : CleanupState) (plugin : String) (level : Level) (now : Time) where
  -- After a run at this level or a higher one the plugin is held back until exactly one cooldown
  -- after the second in which it ran, and no longer.
  cooldown_remaining_after_run :
      (ran : Level) (at cooldown : ℕ) (result : CleanupResult)
      → value level ≤ value ran
      → at ≤ now
      → cooldown < 2 ^ 63
      → cooldown_remaining
          (record_plugin_run s plugin ran at result)
          plugin
          level
          now
          (pos cooldown)
        ≡ pos (at - at % second + cooldown - now)
  unfolding cooldown_remaining record_plugin_run remaining_of
  cooldown_remaining_after_run ran at cooldown result h k w =
      rw (lookup-insert_self)
        (ground (arith, remaining_since_exact (at - at % second) now cooldown))

  -- A run below this level does not hold the plugin back: a rise in level earns a fresh run.
  cooldown_remaining-rise :
      (ran : Level) (at : Time) (cooldown : Duration) (result : CleanupResult)
      → value ran < value level
      → cooldown_remaining (record_plugin_run s plugin ran at result) plugin level now cooldown
        ≡ pos 0
  unfolding cooldown_remaining record_plugin_run remaining_of
  cooldown_remaining-rise ran at cooldown result h = rw (lookup-insert_self) (ground arith)

  -- What is left of a cooldown lies between 0 and the cooldown, whatever the clock did meanwhile.
  cooldown_remaining_bounds :
      (cooldown : ℕ)
      → (pos 0 ≤ℤ cooldown_remaining s plugin level now (pos cooldown))
        × (cooldown_remaining s plugin level now (pos cooldown) ≤ℤ pos cooldown)
  unfolding cooldown_remaining
  cooldown_remaining_bounds cooldown =
      ground (arith, remaining_of_bounds (lookup plugin s.plugins) level now cooldown)
