-- ===== src/Level.antt =====
-- Cleanup levels: CleanupLevel and its String of monitor/disk.go and plugins/plugin.go (the two
-- types have the same constants, and main.go converts one into the other), parseLevel of main.go.
use tinyland_cleanup.Prelude.{
  Bool, String, false, if◌then◌else◌, leb, ltb, refl, str_eq, true, ℕ, ◌≡◌,
}

pub data Level : Type 0 where
  level_none level_warning level_moderate level_aggressive level_critical : Level

-- int(level)
abbrev pub value : Level → ℕ
value level_none = 0
value level_warning = 1
value level_moderate = 2
value level_aggressive = 3
value level_critical = 4

abbrev pub level_lt : Level → Level → Bool
level_lt a b = ltb (value a) (value b)

abbrev pub level_le : Level → Level → Bool
level_le a b = leb (value a) (value b)

-- level == LevelNone
abbrev pub is_none : Level → Bool
is_none level_none = true
is_none _ = false

unfoldable pub to_string : Level → String
to_string level_none = "none"
to_string level_warning = "warning"
to_string level_moderate = "moderate"
to_string level_aggressive = "aggressive"
to_string level_critical = "critical"

unfoldable pub parse_level : String → Level
parse_level s =
    if str_eq s "warning"
    then level_warning
    else if str_eq s "moderate"
    then level_moderate
    else if str_eq s "aggressive"
    then level_aggressive
    else if str_eq s "critical"
    then level_critical
    else level_none

-- Parsing the text of a level gives the level back, so the daemon may keep levels as text.
pub parse_level-to_string : (l : Level) → parse_level (to_string l) ≡ l
unfolding parse_level to_string
parse_level-to_string level_none = refl
parse_level-to_string level_warning = refl
parse_level-to_string level_moderate = refl
parse_level-to_string level_aggressive = refl
parse_level-to_string level_critical = refl

-- The report's empty level text reads as no pressure.
parse_level-empty : parse_level "" ≡ level_none
unfolding parse_level
parse_level-empty = refl
