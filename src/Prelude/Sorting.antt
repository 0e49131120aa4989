-- ===== src/Prelude/Sorting.antt =====
-- Sorting a list by insertion. Go's sort.Slice gives the same list where no two elements are alike.
use mathlib.Core.Logic.{inl, inr}
use mathlib.Core.Bool.{Bool}
use mathlib.Core.List.{List, [], ◌∷◌}
use tinyland_cleanup.Prelude.Lists.{All}
use tinyland_cleanup.Prelude.Tests.{Bool-cases, if_both, if◌then◌else◌}

-- Insertion into a list, before the first element that does not come before.
insert_by {ℓ} : {A : Type ℓ} → (A → A → Bool) → A → List A → List A
insert_by before x [] = x ∷ []
insert_by before x (y ∷ ys) =
    let rest = insert_by before x ys in if before y x then y ∷ rest else x ∷ y ∷ ys

pub sort_by {ℓ} : {A : Type ℓ} → (A → A → Bool) → List A → List A
sort_by before [] = []
sort_by before (x ∷ xs) = insert_by before x (sort_by before xs)

module _ {ℓ κ} {A : Type ℓ} (before : A → A → Bool) where
  All-insert_by :
      (Has : A → Type κ) (x : A) (xs : List A)
      → Has x
      → All Has xs
      → All Has (insert_by before x xs)
  unfolding insert_by
  All-insert_by Has x [] h k = (h, tt)
  All-insert_by Has x (y ∷ ys) h k =
      if_both (All Has) (before y x) _ _ (λ _. (k.0, All-insert_by Has x ys h k.1)) (λ _. (h, k))

  pub All-sort_by : (Has : A → Type κ) (xs : List A) → All Has xs → All Has (sort_by before xs)
  unfolding sort_by
  All-sort_by Has [] h = tt
  All-sort_by Has (x ∷ xs) h = All-insert_by Has x (sort_by before xs) h.0 (All-sort_by Has xs h.1)

  All-uninsert :
      (Has : A → Type κ) (x : A) (xs : List A)
      → All Has (insert_by before x xs)
      → Has x × All Has xs
  unfolding insert_by
  All-uninsert Has x [] h = h
  All-uninsert Has x (y ∷ ys) h = elim (Bool-cases (before y x)) [
    | inl e ↦
        let k : All Has (y ∷ insert_by before x ys) = rw e at h in
        let (first, rest) = All-uninsert Has x ys k.1 in (first, (k.0, rest))
    | inr e ↦ let k : All Has (x ∷ y ∷ ys) = rw e at h in k
  ]

  pub All-unsort : (Has : A → Type κ) (xs : List A) → All Has (sort_by before xs) → All Has xs
  unfolding sort_by
  All-unsort Has [] h = tt
  All-unsort Has (x ∷ xs) h =
      let (first, rest) = All-uninsert Has x (sort_by before xs) h in
      (first, All-unsort Has xs rest)
