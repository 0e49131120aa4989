-- ===== src/Clock.antt =====
-- Go's time.Time, time.Duration and the texts that the program keeps of them.
--
-- A Time counts nanoseconds since January 1 of the year 1 (UTC), so 0 is the zero Time. A Duration
-- is a signed number of nanoseconds. A Stamp is a text that should hold an RFC 3339 time: empty,
-- unreadable, or denoting an instant; Format drops the part below a second. A DurationText is a
-- policy value of the config: empty, not a duration, or denoting one.
use tinyland_cleanup.Prelude.{
  suc, ◌-ℤ◌, ◌+ℤ◌, ◌/◌, Bool, Option, arith, false, if◌then◌else◌, leb, ltb, min, neg_part, negsuc,
  none, pos, pos_part, some, true, ℕ, ℤ, ◌%◌, ◌+◌, ◌-◌, ◌<◌, ◌^◌, ◌≡◌,
}

abbrev pub Time : Type 0
Time = ℕ

abbrev pub Duration : Type 0
Duration = ℤ

abbrev pub second : ℕ
second = 1000000000

abbrev pub minute : ℕ
minute = 60000000000

abbrev pub hour : ℕ
hour = 3600000000000

abbrev pub max_int64 : ℕ
max_int64 = 9223372036854775807

-- The int64 with the bits of `z`: what is stored when a result leaves the range.
unfoldable pub int64 : ℤ → ℤ
int64 z =
    let u = (pos_part z % 2 ^ 64 + 2 ^ 64 - neg_part z % 2 ^ 64) % 2 ^ 64 in
    if ltb u (2 ^ 63) then pos u else negsuc (2 ^ 64 - 1 - u)

-- a sum of two int64
abbrev pub add_int64 : ℤ → ℤ → ℤ
add_int64 a b = int64 (a +ℤ b)

-- t.Sub(u): the difference, held at the largest and the least Duration
unfoldable pub sub_time : Time → Time → Duration
sub_time t u = if leb u t then pos (min (t - u) max_int64) else negsuc (min (u - t - 1) max_int64)

-- t.Add(d)
abbrev pub add_time : Time → Duration → Time
add_time t d = t + pos_part d - neg_part d

pub data Stamp : Type 0 where
  no_stamp bad_stamp : Stamp
  at_time : Time → Stamp

abbrev pub parse_stamp : Stamp → Option Time
parse_stamp (at_time t) = some t
parse_stamp no_stamp = none
parse_stamp bad_stamp = none

-- stamp == ""
abbrev pub is_empty : Stamp → Bool
is_empty no_stamp = true
is_empty _ = false

-- t.UTC().Format(time.RFC3339)
abbrev pub format_stamp : Time → Stamp
format_stamp t = at_time (t - t % second)

pub data DurationText : Type 0 where
  no_text bad_text : DurationText
  text_of : Duration → DurationText

abbrev pub parse_duration : DurationText → Option Duration
parse_duration (text_of d) = some d
parse_duration no_text = none
parse_duration bad_text = none

-- Within the range of an int64 nothing is lost.
pub int64_small : (n : ℕ) → n < 2 ^ 63 → int64 (pos n) ≡ pos n
unfolding int64
int64_small n h = ground arith

int64_neg : (n : ℕ) → n < 2 ^ 63 → int64 (negsuc n) ≡ negsuc n
unfolding int64
int64_neg n h = ground arith

-- a duration in whole seconds, toward zero
abbrev pub whole_seconds : ℤ → ℤ
whole_seconds (pos n) = pos (n / second)
whole_seconds (negsuc n) = pos 0 -ℤ pos (suc n / second)
