-- ===== src/Nix/Cadence.antt =====
-- When a collection is due.
use tinyland_cleanup.Prelude.{
  arith, false, inl, inr, is_positive, ltb_ℤ, true, ◌<◌, ◌≡◌, ◌≤ℤ◌, ◌≤◌, ◌⊎◌,
}
use tinyland_cleanup.Level.{Level, is_none, level_none}
use tinyland_cleanup.Clock.{Duration, Time, sub_time}
use tinyland_cleanup.Nix.{GcState, NixConfig, min_gap, nix_gc_due, periodic_gap}

-- Within the shortest gap after an attempt no collection is due, at any level.
pub not_due :
    (level : Level) (cfg : NixConfig) (st : GcState) (now : Time)
    → 0 < st.last_gc_attempt
    → ltb_ℤ (sub_time now st.last_gc_attempt) (min_gap cfg) ≡ true
    → is_positive (min_gap cfg) ≡ true
    → (nix_gc_due level cfg st now).0 ≡ level_none
unfolding nix_gc_due
not_due level cfg st now h k g = ground (arith, h, k, g)

-- A later attempt is not further away.
pub sub_time_antitone :
    (now t u : Time) (gap : Duration)
    → t ≤ u
    → ltb_ℤ (sub_time now t) gap ≡ true
    → ltb_ℤ (sub_time now u) gap ≡ true
unfolding sub_time
sub_time_antitone now t u gap h k = ground (arith, k)

-- Whatever the pressure, a collection is due once the periodic interval has passed since the last
-- attempt, or when there was none, unless the shortest gap is longer than that interval.
due_periodically :
    (level : Level) (cfg : NixConfig) (st : GcState) (now : Time)
    → is_positive (periodic_gap cfg) ≡ true
    → min_gap cfg ≤ℤ periodic_gap cfg
    → (st.last_gc_attempt ≡ 0) ⊎ (periodic_gap cfg ≤ℤ sub_time now st.last_gc_attempt)
    → is_none (nix_gc_due level cfg st now).0 ≡ false
unfolding nix_gc_due
due_periodically level cfg st now p h (inl never) = ground (arith, p, never)
due_periodically level cfg st now p h (inr passed) = ground (arith, p)
