-- ===== src/Prelude/Glob.antt =====
-- filepath.Match on the code points of a pattern and of a name, as its documentation gives it: `*` is
-- any run of characters but '/', `?` any one of them, `[...]` a class, `\\` quotes the next one.
use Prim.Native.Nat.{ℕ}
use Prim.Native.String.{String}
use mathlib.Core.Bool.{Bool, true, false, not, ◌&&◌, ◌||◌}
use mathlib.Core.Option.{Option, none, some}
use mathlib.Core.List.{List, [], ◌∷◌}
use tinyland_cleanup.Prelude.Tests.{leb, ◌==◌, if◌then◌else◌}
use tinyland_cleanup.Prelude.Codes.{codes}

pub data GlobItem : Type 0 where
  any_run any_one : GlobItem
  literal : ℕ → GlobItem
  class : Bool → List (ℕ × ℕ) → GlobItem

-- Where the scan of a pattern stands; a class keeps whether it is negated, and its ranges.
pub data Scan : Type 0 where
  plain quoted class_open : Scan
  class_low class_low_quoted : Bool → List (ℕ × ℕ) → Scan
  class_after class_high class_high_quoted : Bool → List (ℕ × ℕ) → ℕ → Scan

-- one character of the pattern: what it completes, and where the scan goes on
pub data Scanned : Type 0 where
  bad_pattern : Scanned
  goes_on : Scan → Scanned
  completes : GlobItem → Scanned

is_empty_list : List (ℕ × ℕ) → Bool
is_empty_list [] = true
is_empty_list (r ∷ rs) = false

scan_low : Bool → List (ℕ × ℕ) → ℕ → Scanned
unfolding is_empty_list
scan_low neg ranges c =
    if c == b']' && not (is_empty_list ranges)
    then completes (class neg ranges)
    else if c == b'-' || c == b']'
    then bad_pattern
    else if c == 92
    then goes_on (class_low_quoted neg ranges)
    else goes_on (class_after neg ranges c)

scan_char : Scan → ℕ → Scanned
unfolding scan_low
scan_char plain c =
    if c == b'*'
    then completes any_run
    else if c == b'?'
    then completes any_one
    else if c == b'['
    then goes_on class_open
    else if c == 92
    then goes_on quoted
    else completes (literal c)
scan_char quoted c = completes (literal c)
scan_char class_open c = if c == b'^' then goes_on (class_low true []) else scan_low false [] c
scan_char (class_low neg ranges) c = scan_low neg ranges c
scan_char (class_low_quoted neg ranges) c = goes_on (class_after neg ranges c)
scan_char (class_after neg ranges low) c =
    if c == b'-' then goes_on (class_high neg ranges low) else scan_low neg ((low, low) ∷ ranges) c
scan_char (class_high neg ranges low) c =
    if c == b'-' || c == b']'
    then bad_pattern
    else if c == 92
    then goes_on (class_high_quoted neg ranges low)
    else goes_on (class_low neg ((low, c) ∷ ranges))
scan_char (class_high_quoted neg ranges low) c = goes_on (class_low neg ((low, c) ∷ ranges))

add_item : GlobItem → Option (List GlobItem) → Option (List GlobItem)
add_item i none = none
add_item i (some is) = some (i ∷ is)

scan_pattern : Scan → List ℕ → Option (List GlobItem)
unfolding scan_char add_item
scan_pattern plain [] = some []
scan_pattern _ [] = none
scan_pattern at (c ∷ s) = elim (scan_char at c) [
  | bad_pattern ↦ none
  | goes_on next ↦ scan_pattern next s
  | completes i ↦ add_item i (scan_pattern plain s)
]

in_ranges : List (ℕ × ℕ) → ℕ → Bool
in_ranges [] c = false
in_ranges ((low, high) ∷ ranges) c = (leb low c && leb c high) || in_ranges ranges c

-- whether the rest of a pattern matches from here or after a run of characters but '/'
match_run : (List ℕ → Bool) → List ℕ → Bool
match_run rest [] = rest []
match_run rest (c ∷ s) = rest (c ∷ s) || (not (c == b'/') && match_run rest s)

match_items : List GlobItem → List ℕ → Bool
unfolding match_run in_ranges
match_items [] [] = true
match_items [] (c ∷ s) = false
match_items (any_run ∷ p) s = match_run (match_items p) s
match_items (any_one ∷ p) [] = false
match_items (any_one ∷ p) (c ∷ s) = not (c == b'/') && match_items p s
match_items (literal d ∷ p) [] = false
match_items (literal d ∷ p) (c ∷ s) = c == d && match_items p s
match_items (class neg ranges ∷ p) [] = false
match_items (class neg ranges ∷ p) (c ∷ s) =
    (if neg then not (in_ranges ranges c) else in_ranges ranges c) && match_items p s

match_scanned : Option (List GlobItem) → List ℕ → Bool
match_scanned none s = false
match_scanned (some p) s = match_items p s

-- filepath.Match(pattern, name), false if it returns an error
unfoldable pub glob_match : String → String → Bool
unfolding match_scanned match_items scan_pattern
glob_match pattern name = match_scanned (scan_pattern plain (codes pattern)) (codes name)

is_scanned : Option (List GlobItem) → Bool
is_scanned none = false
is_scanned (some p) = true

-- whether filepath.Match takes the pattern
unfoldable pub is_glob : String → Bool
unfolding is_scanned scan_pattern
is_glob pattern = is_scanned (scan_pattern plain (codes pattern))
