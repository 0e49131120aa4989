-- ===== src/Nix/Limit.antt =====
-- How much one collection may free: nixParseMaxFreed and nixMaxFreedArgs (plugins/nix_cadence.go).
-- A text is the list of its code points.
use tinyland_cleanup.Prelude.{
  arith, if_both, leb→le, refl, suc, zero, ◌≢◌, Bool, List, Option, [], if◌then◌else◌, leb, leb_ℤ,
  ltb, neg_part, negsuc, none, pos, pos_part, some, trim_space, ℕ, ℤ, ◌&&◌, ◌*◌, ◌+◌, ◌-ℤ◌, ◌-◌,
  ◌/◌, ◌==◌, ◌^◌, ◌||◌, ◌∷◌, ◌≡◌, ◌≤◌,
}
use native.Mathlib.Nat.{div-mul-le_self}
use tinyland_cleanup.Clock.{max_int64}

-- s[:len(s)-1] and s[len(s)-1] of a text that is not empty
split_last : ℕ → List ℕ → List ℕ × ℕ
split_last c [] = ([], c)
split_last c (d ∷ s) = let rest = split_last d s in (c ∷ rest.0, rest.1)

is_digit : ℕ → Bool
is_digit c = leb b'0' c && leb c b'9'

digits : ℕ → List ℕ → Option ℕ
unfolding is_digit
digits n [] = some n
digits n (c ∷ s) = let rest = digits (n * 10 + (c - b'0')) s in if is_digit c then rest else none

-- the digits of a number: at least one
magnitude : List ℕ → Option ℕ
magnitude [] = none
magnitude (c ∷ s) = digits 0 (c ∷ s)

signed_within : ℕ → (ℕ → ℤ) → Option ℕ → Option ℤ
signed_within limit sign none = none
signed_within limit sign (some n) = if leb n limit then some (sign n) else none

abbrev negated : ℕ → ℤ
negated n = pos 0 -ℤ pos n

-- strconv.ParseInt(s, 10, 64)
unfoldable pub parse_int64 : List ℕ → Option ℤ
unfolding digits magnitude signed_within
parse_int64 [] = none
parse_int64 (c ∷ s) =
    if c == b'-'
    then signed_within (max_int64 + 1) negated (magnitude s)
    else if c == b'+'
    then signed_within max_int64 pos (magnitude s)
    else signed_within max_int64 pos (magnitude (c ∷ s))

abbrev pub shift_of : ℕ → ℕ
shift_of c =
    if c == b'K' || c == b'k'
    then 10
    else if c == b'M' || c == b'm'
    then 20
    else if c == b'G' || c == b'g'
    then 30
    else if c == b'T' || c == b't'
    then 40
    else 0

-- the number before the suffix, shifted, if that stays an int64
unfoldable pub shifted : ℕ → Option ℤ → Option ℤ
shifted shift none = none
shifted shift (some (negsuc n)) = none
shifted shift (some (pos n)) =
    if leb n (max_int64 / 2 ^ shift) then some (pos (n * 2 ^ shift)) else none

-- a text that is trimmed and not empty
unfoldable pub parse_suffixed : ℕ → List ℕ → Option ℤ
unfolding split_last shifted
parse_suffixed c s =
    let shift = shift_of (split_last c s).1 in
    if ltb 0 shift
    then shifted shift (parse_int64 (split_last c s).0)
    else shifted 0 (parse_int64 (c ∷ s))

unfoldable pub parse_trimmed : List ℕ → Option ℤ
parse_trimmed [] = some (pos 0)
parse_trimmed (c ∷ s) = parse_suffixed c s

-- nixParseMaxFreed
unfoldable pub nix_parse_max_freed : List ℕ → Option ℤ
nix_parse_max_freed raw = parse_trimmed (trim_space raw)

abbrev pub nix_default_max_freed_per_pass : ℤ
nix_default_max_freed_per_pass = pos (50 * 2 ^ 30)

-- the bound, when the text is no byte count
unfoldable pub or_default : Option ℤ → ℤ
or_default none = nix_default_max_freed_per_pass
or_default (some n) = n

abbrev none_if_zero : ℤ → Option ℤ
none_if_zero n = if leb_ℤ n (pos 0) && leb_ℤ (pos 0) n then none else some n

-- nixMaxFreedArgs: the bound that --max-freed is given, if there is one
unfoldable pub nix_max_freed_bound : List ℕ → Option ℤ
nix_max_freed_bound raw = none_if_zero (or_default (nix_parse_max_freed raw))

times_le : (k q m : ℕ) → k ≤ q → k * m ≤ q * m
times_le k q m h = grind arith

-- The number of bytes fits an int64 and is not negative.
abbrev pub IsByteCount : Option ℤ → Type 0
IsByteCount none = Unit {0}
IsByteCount (some n) = (neg_part n ≡ 0) × (pos_part n ≤ max_int64)

shifted-IsByteCount : (shift : ℕ) (o : Option ℤ) → IsByteCount (shifted shift o)
unfolding shifted
shifted-IsByteCount shift none = tt
shifted-IsByteCount shift (some (negsuc k)) = tt
shifted-IsByteCount shift (some (pos k)) =
    let m = 2 ^ shift in
    if_both IsByteCount (leb k (max_int64 / m)) _ _
      (λ h. (
        refl,
        omega (arith, times_le k (max_int64 / m) m (leb→le _ _ h), div-mul-le_self max_int64 m),
      ))
      (λ h. tt)

-- A text that is accepted denotes a byte count that an int64 holds: no suffix shifts a bit out.
nix_parse_max_freed-IsByteCount : (raw : List ℕ) → IsByteCount (nix_parse_max_freed raw)
unfolding nix_parse_max_freed parse_trimmed parse_suffixed
nix_parse_max_freed-IsByteCount raw = go (trim_space raw)
  where
    go : (s : List ℕ) → IsByteCount (parse_trimmed s)
    go [] = (refl, omega arith)
    go (c ∷ s) =
        let shift = shift_of (split_last c s).1 in
        if_both IsByteCount (ltb 0 shift) _ _
          (λ h. shifted-IsByteCount shift (parse_int64 (split_last c s).0))
          (λ h. shifted-IsByteCount 0 (parse_int64 (c ∷ s)))

none_if_zero-suc : (n : ℕ) → none_if_zero (pos (suc n)) ≡ some (pos (suc n))
none_if_zero-suc n = ground arith

-- The bound of a collection, whatever the text: when there is one it is above 0 and fits an int64,
-- and a text that is no byte count gives 50 GiB, never a collection without bound.
max_freed_bounded :
    (raw : List ℕ)
    → IsByteCount (nix_max_freed_bound raw)
      × (nix_max_freed_bound raw ≢ some (pos 0))
      × (nix_parse_max_freed raw ≡ none → nix_max_freed_bound raw ≡ some (pos (50 * 2 ^ 30)))
unfolding nix_max_freed_bound or_default
max_freed_bounded raw = go (nix_parse_max_freed raw) (nix_parse_max_freed-IsByteCount raw)
  where
    go :
        (o : Option ℤ)
        → IsByteCount o
        → IsByteCount (none_if_zero (or_default o))
          × (none_if_zero (or_default o) ≢ some (pos 0))
          × (o ≡ none → none_if_zero (or_default o) ≡ some (pos (50 * 2 ^ 30)))
    go none b = ((refl, omega arith), (λ e. cc), λ e. refl)
    go (some (negsuc n)) b = absurd (omega arith)
    go (some (pos zero)) b = (tt, (λ e. cc), λ e. cc)
    go (some (pos (suc n))) b = (rw (none_if_zero-suc n) b, (λ e. cc (none_if_zero-suc n)), λ e. cc)
