-- ===== src/Prelude/Codes.antt =====
-- Texts as lists of code points, and the `strings` functions that the program applies to
-- configuration words, on ASCII text.
use Prim.Native.Nat.{ℕ, ◌+◌}
use Prim.Native.Char.{code}
use Prim.Native.String.{String, ◌++◌}
use mathlib.Core.Bool.{Bool, true, false, ◌&&◌, ◌||◌}
use mathlib.Core.List.{List, [], ◌∷◌, map, reverse}
use tinyland_cleanup.Prelude.Tests.{leb, ◌==◌, if◌then◌else◌, ltb}

abbrev pub codes : String → List ℕ
codes String.[] = []
codes (String.◌∷◌ c s) = code c ∷ codes s

unfoldable pub codes_eq : List ℕ → List ℕ → Bool
codes_eq [] [] = true
codes_eq (a ∷ s) (b ∷ t) = a == b && codes_eq s t
codes_eq _ _ = false

-- unicode.IsSpace, for ASCII
pub is_space : ℕ → Bool
is_space c = (leb 9 c && leb c 13) || c == 32

pub drop_spaces : List ℕ → List ℕ
drop_spaces [] = []
drop_spaces (c ∷ s) = let rest = drop_spaces s in if is_space c then rest else c ∷ s

-- strings.TrimSpace
unfoldable pub trim_space : List ℕ → List ℕ
unfolding drop_spaces is_space
trim_space s = reverse (drop_spaces (reverse (drop_spaces s)))

lower_code : ℕ → ℕ
lower_code c = if leb b'A' c && leb c b'Z' then c + 32 else c

-- strings.ToLower
unfoldable pub to_lower : List ℕ → List ℕ
unfolding lower_code
to_lower s = map lower_code s

-- Whether a text is the given word once lowered and trimmed.
unfoldable pub is_word : String → String → Bool
unfolding codes_eq trim_space to_lower
is_word w s = codes_eq (trim_space (to_lower (codes s))) (codes w)

-- Several texts in a row.
abbrev pub texts : List String → String
texts [] = ""
texts (s ∷ ss) = s ++ texts ss

unfoldable pub codes_prefix : List ℕ → List ℕ → Bool
codes_prefix [] s = true
codes_prefix (a ∷ p) [] = false
codes_prefix (a ∷ p) (b ∷ s) = a == b && codes_prefix p s

-- strings.HasPrefix(s, p)
unfoldable pub has_prefix : String → String → Bool
unfolding codes_prefix
has_prefix s p = codes_prefix (codes p) (codes s)

-- strings.Join
abbrev pub join : String → List String → String
join sep [] = ""
join sep (s ∷ []) = s
join sep (s ∷ t ∷ ss) = s ++ (sep ++ join sep (t ∷ ss))

-- strings.Split(s, "\n"): the first line, and the lines after it
split_lines : List ℕ → List ℕ × List (List ℕ)
split_lines [] = ([], [])
split_lines (c ∷ s) =
    let rest = split_lines s in if c == 10 then ([], rest.0 ∷ rest.1) else (c ∷ rest.0, rest.1)

unfoldable pub lines : String → List (List ℕ)
unfolding split_lines
lines s = (split_lines (codes s)).0 ∷ (split_lines (codes s)).1

-- the order of two texts, as < has it
unfoldable pub codes_before : List ℕ → List ℕ → Bool
codes_before s [] = false
codes_before [] (d ∷ t) = true
codes_before (c ∷ s) (d ∷ t) = ltb c d || (c == d && codes_before s t)
