-- ===== src/ScanBudget/Rotation/Turns.antt =====
-- Windows of the roots that follow one another (plugins/scan_budget.go: rotateWorkspaceRootsAfterCursor).
use native.Mathlib.Nat.{mod-eq-sub-mod, mod-eq_of_lt, mod-lt}
use tinyland_cleanup.Prelude.{
  Bool-cases, In, In-append_left, In-append_right, List, String, [], ap, arith, false,
  if◌then◌else◌, inl, inr, leb, length, ltb, ltb→ge, pos, str_eq, suc, sym, zero, ℕ, ℤ, ◌%◌, ◌*◌,
  ◌++◌, ◌+◌, ◌-◌, ◌<◌, ◌==◌, ◌∙◌, ◌∷◌, ◌≡◌, ◌≤◌, All,
}
use tinyland_cleanup.ScanBudget.Rotation.Start.{Ascends, start_after-at, start_after-lt}
use tinyland_cleanup.ScanBudget.Rotation.{root_at, rotate_after, start_after, window}

-- How many places a root is behind the start, round the list.
abbrev behind : ℕ → ℕ → ℕ → ℕ
behind n s x = if leb s x then x - s else x + n - s

turn : (n s o : ℕ) → s < n → o < n → (s + o) % n ≡ (if ltb (s + o) n then s + o else s + o - n)
turn n s o p q = elim (Bool-cases (ltb (s + o) n)) [
  | inl e ↦ let below : s + o < n = ground (arith, e) in ground (arith, e, mod-eq_of_lt below)
  | inr e ↦
      let over : n ≤ s + o = ltb→ge (s + o) n e in
      let below : s + o - n < n = omega (arith, p, q) in
      ground (arith, e, mod-eq-sub-mod over ∙ mod-eq_of_lt below)
]

turn-behind : (n s x : ℕ) → s < n → x < n → (s + behind n s x) % n ≡ x
turn-behind n s x p q =
    let near : behind n s x < n = ground (arith, p, q) in
    turn n s (behind n s x) p near ∙ ground (arith, p, q)

window-In :
    (roots : List String) (s o k x : ℕ)
    → s < length roots
    → x < length roots
    → o ≤ behind (length roots) s x
    → behind (length roots) s x < o + k
    → In (root_at roots x) (window roots s o k)
unfolding window
window-In roots s o zero x p q h l = absurd (omega (arith, h, l))
window-In roots s o (suc k) x p q h l = elim (Bool-cases (behind (length roots) s x == o)) [
  | inl e ↦
      let same : o ≡ behind (length roots) s x = ground (arith, e) in
      inl (
        ap (root_at roots)
          (sym (ap (λ j. (s + j) % length roots) same ∙ turn-behind (length roots) s x p q)))
  | inr e ↦ inr (window-In roots s (o + 1) k x p q (ground (arith, e, h)) (omega (arith, l)))
]

abbrev pub last_of : String → List String → String
last_of cursor [] = cursor
last_of cursor (r ∷ rs) = last_of r rs

-- The roots that `m` windows in a row hold, each beginning after the last root of the one before.
unfoldable pub turns : ℕ → List String → String → ℤ → List String
turns zero roots cursor max_roots = []
turns (suc m) roots cursor max_roots =
    let chosen = rotate_after roots cursor max_roots in
    chosen ++ turns m roots (last_of cursor chosen) max_roots

window-last :
    (roots : List String) (cursor : String) (s o k : ℕ)
    → last_of cursor (window roots s o (suc k)) ≡ root_at roots ((s + (o + k)) % length roots)
unfolding window
window-last roots cursor s o zero = ap (λ j. root_at roots ((s + j) % length roots)) (omega arith)
window-last roots cursor s o (suc k) =
    window-last roots (root_at roots ((s + o) % length roots)) s (o + 1) k
    ∙ ap (λ j. root_at roots ((s + j) % length roots)) (omega arith)

-- The start of the next scan is `k` places on.
next_start :
    (roots : List String) (cursor : String) (k : ℕ)
    → Ascends roots
    → All (λ r. str_eq r "" ≡ false) roots
    → suc k < length roots
    → let s = start_after cursor roots in
      start_after (last_of cursor (window roots s 0 (suc k))) roots
      ≡ (if ltb (s + suc k) (length roots) then s + suc k else s + suc k - length roots)
next_start roots cursor k a named l =
    let s = start_after cursor roots in
    let n = length roots in
    let below : s < n = start_after-lt cursor roots (omega (arith, l)) in
    let short : k < n = omega (arith, l) in
    let at = turn n s k below short in
    let inside : (s + k) % n < n = mod-lt (s + k) (omega (arith, l)) in
    let same : 0 + k ≡ k = omega arith in
    ap (λ c. start_after c roots)
      (window-last roots cursor s 0 k ∙ ap (λ j. root_at roots ((s + j) % n)) same)
    ∙ start_after-at roots ((s + k) % n) a named inside
    ∙ ground (arith, at, below, l)

pub rotates :
    (roots : List String) (cursor : String) (k : ℕ)
    → suc k < length roots
    → rotate_after roots cursor (pos (suc k)) ≡ window roots (start_after cursor roots) 0 (suc k)
unfolding rotate_after
rotates roots cursor k l = ground (arith, l)

turns-In :
    (m : ℕ) (roots : List String) (cursor : String) (k x : ℕ)
    → Ascends roots
    → All (λ r. str_eq r "" ≡ false) roots
    → suc k < length roots
    → x < length roots
    → behind (length roots) (start_after cursor roots) x < m * suc k
    → In (root_at roots x) (turns m roots cursor (pos (suc k)))
unfolding turns
turns-In zero roots cursor k x a named l q h = absurd (omega (arith, h))
turns-In (suc m) roots cursor k x a named l q h =
    let s = start_after cursor roots in
    let n = length roots in
    let below : s < n = start_after-lt cursor roots (omega (arith, l)) in
    let chosen = window roots s 0 (suc k) in
    let next = start_after (last_of cursor chosen) roots in
    let moved = next_start roots cursor k a named l in
    rw (rotates roots cursor k l) (elim (Bool-cases (ltb (behind n s x) (suc k))) [
      | inl near ↦
          In-append_left _ chosen _
            (window-In roots s 0 (suc k) x below q (omega arith) (ground (arith, near)))
      | inr far ↦ In-append_right _ chosen _ (
          turns-In m roots (last_of cursor chosen) k x a named l q
            (closer n s x (suc k) m next below q l moved (ltb→ge _ _ far) h))
    ])
  where
    closer :
        (n s x k m next : ℕ)
        → s < n
        → x < n
        → k < n
        → next ≡ (if ltb (s + k) n then s + k else s + k - n)
        → k ≤ behind n s x
        → behind n s x < suc m * k
        → behind n next x < m * k
    closer n s x k m next p q l e f h =
        let less : behind n s x - k < m * k = omega (arith, f, h) in
        let now_behind : behind n next x ≡ behind n s x - k = ground (arith, p, q, l, e, f) in
        omega (arith, less, now_behind)

All-of_index :
    (Has : String → Type 0) (rs : List String)
    → ((i : ℕ) → i < length rs → Has (root_at rs i))
    → All Has rs
All-of_index Has [] h = tt
All-of_index Has (r ∷ rs) h =
    (h 0 (omega arith), All-of_index Has rs (λ i l. h (suc i) (omega (arith, l))))

pub turns-All :
    (m : ℕ) (roots : List String) (cursor : String) (k : ℕ)
    → Ascends roots
    → All (λ r. str_eq r "" ≡ false) roots
    → suc k < length roots
    → length roots ≤ m * suc k
    → All (λ r. In r (turns m roots cursor (pos (suc k)))) roots
turns-All m roots cursor k a named l h =
    All-of_index (λ r. In r (turns m roots cursor (pos (suc k)))) roots
      (λ x q.
        let below : start_after cursor roots < length roots =
          start_after-lt cursor roots (omega (arith, l)) in
        let near : behind (length roots) (start_after cursor roots) x < length roots =
          ground (arith, below, q) in
        turns-In m roots cursor k x a named l q (omega (arith, near, h)))
