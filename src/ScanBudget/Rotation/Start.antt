-- ===== src/ScanBudget/Rotation/Start.antt =====
-- Where a scan starts: the root after the cursor.
use tinyland_cleanup.Prelude.{
  if◌then◌else◌, ltb, str_eq, All, Bool-cases, List, String, [], ap, arith, codes, codes_before,
  false, if_false, if_true, inl, inr, length, refl, suc, true, zero, ℕ, ◌<◌, ◌∷◌, ◌≡◌,
}
use tinyland_cleanup.ScanBudget.Rotation.{start_after, first_after, is_after, root_at}

codes_before-asym : (s t : List ℕ) → codes_before s t ≡ true → codes_before t s ≡ false
unfolding codes_before
codes_before-asym [] [] h = cc
codes_before-asym [] (d ∷ t) h = refl
codes_before-asym (c ∷ s) [] h = cc
codes_before-asym (c ∷ s) (d ∷ t) h = elim (Bool-cases (codes_before s t)) [
  | inl e ↦ ground (arith, h, e, codes_before-asym s t e)
  | inr e ↦ ground (arith, h, e)
]

-- The roots ascend, as the entries of a directory do.
abbrev pub Ascends : List String → Type 0
Ascends [] = Unit {0}
Ascends (r ∷ rs) = All (λ s. is_after s r ≡ true) rs × Ascends rs

All-at :
    (Has : String → Type 0) (rs : List String) (i : ℕ)
    → All Has rs
    → i < length rs
    → Has (root_at rs i)
All-at Has [] i h l = absurd (omega (arith, l))
All-at Has (r ∷ rs) zero h l = h.0
All-at Has (r ∷ rs) (suc i) h l = All-at Has rs i h.1 (omega (arith, l))

not_after_self : (r : String) → is_after r r ≡ false
not_after_self r = elim (Bool-cases (is_after r r)) [
  | inl e ↦ codes_before-asym (codes r) (codes r) e
  | inr e ↦ e
]

-- The first root after all of a list is not later than its head.
first_after_below :
    (cursor : String) (rs : List String)
    → All (λ s. is_after s cursor ≡ true) rs
    → first_after cursor rs ≡ 0
unfolding first_after
first_after_below cursor [] h = refl
first_after_below cursor (r ∷ rs) h = if_true (λ n. n ≡ 0) (is_after r cursor) _ _ h.0 refl

first_after-at :
    (rs : List String) (i : ℕ) → Ascends rs → i < length rs → first_after (root_at rs i) rs ≡ suc i
unfolding first_after
first_after-at [] i a l = absurd (omega (arith, l))
first_after-at (r ∷ rs) zero a l =
    if_false (λ n. n ≡ 1) (is_after r r) _ _ (not_after_self r)
      (ap suc (first_after_below r rs a.0))
first_after-at (r ∷ rs) (suc i) a l =
    let m : i < length rs = omega (arith, l) in
    let later = All-at (λ s. is_after s r ≡ true) rs i a.0 m in
    if_false (λ n. n ≡ suc (suc i)) (is_after r (root_at rs i)) _ _
      (codes_before-asym (codes r) (codes (root_at rs i)) later)
      (ap suc (first_after-at rs i a.1 m))

pub start_after-lt :
    (cursor : String) (roots : List String)
    → 0 < length roots
    → start_after cursor roots < length roots
unfolding start_after
start_after-lt cursor roots p = ground (arith, p)

pub start_after-at :
    (roots : List String) (i : ℕ)
    → Ascends roots
    → All (λ r. str_eq r "" ≡ false) roots
    → i < length roots
    → start_after (root_at roots i) roots ≡ (if ltb (suc i) (length roots) then suc i else 0)
unfolding start_after
start_after-at roots i a named l =
    let full = All-at (λ r. str_eq r "" ≡ false) roots i named l in
    let found = first_after-at roots i a l in
    if_false (λ n. n ≡ (if ltb (suc i) (length roots) then suc i else 0))
      (str_eq (root_at roots i) "") _ _ full (rw found (ground arith))
