-- ===== src/Retention/Check/Ages.antt =====
-- What an accepted retention section holds.
use tinyland_cleanup.Prelude.{
  Bool, List, Option, String, arith, none, pos, refl, some, true, ℕ, ◌*◌, ◌∷◌, ◌≡◌, ◌≤ℤ◌,
}
use tinyland_cleanup.Retention.Check.{
  first_error, validate_age, validate_cargo_targets, validate_retention, validate_tmp_agents,
}
use tinyland_cleanup.Retention.{RetentionConfig}
use tinyland_cleanup.Clock.{Duration, DurationText, bad_text, hour, no_text, text_of}

first_error-none :
    (o : Option String) (os : List (Option String))
    → first_error (o ∷ os) ≡ none
    → (o ≡ none) × (first_error os ≡ none)
unfolding first_error
first_error-none none os h = (refl, h)
first_error-none (some e) os h = cc

-- A text that denotes a duration of at least `floor`.
pub data IsAtLeast (floor : ℕ) : DurationText → Type 0 where
  long_enough :
      {t : DurationText} (d : Duration) → t ≡ text_of d → pos floor ≤ℤ d → IsAtLeast floor t

validate_age-none :
    (key : String) (t : DurationText) (floor : ℕ)
    → validate_age key t floor ≡ none
    → IsAtLeast floor t
unfolding validate_age
validate_age-none key no_text floor h = cc
validate_age-none key bad_text floor h = cc
validate_age-none key (text_of d) floor h = long_enough d refl (ground (arith, h))

-- A section that the check accepts keeps a temp root for at least an hour and a Cargo target for at
-- least a day, where the rule is enabled.
pub validated_ages :
    (c : RetentionConfig) (floor_is_negative : Bool)
    → validate_retention c floor_is_negative ≡ none
    → (c.tmp_agents.enabled ≡ true → IsAtLeast hour c.tmp_agents.max_age)
      × (c.cargo_targets.enabled ≡ true → IsAtLeast (24 * hour) c.cargo_targets.max_age)
unfolding validate_retention validate_tmp_agents validate_cargo_targets
validated_ages c floor_is_negative h =
    let (interval, h1) = first_error-none _ _ h in
    let (tmp, h2) = first_error-none _ _ h1 in
    let (cargo, h3) = first_error-none _ _ h2 in
    (
      λ e.
          let (roots, t1) = first_error-none _ _ (rw e at tmp) in
          let (names, t2) = first_error-none _ _ t1 in
          let (globs, t3) = first_error-none _ _ t2 in
          validate_age-none _ _ _ (first_error-none _ _ t3).0,
      λ e.
          let (roots, t1) = first_error-none _ _ (rw e at cargo) in
          validate_age-none _ _ _ (first_error-none _ _ t1).0,
    )
