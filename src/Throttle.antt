-- ===== src/Throttle.antt =====
-- Bounded emission of repeated log lines and reports (logthrottle.go). A line comes with its identity
-- and the fingerprint of its content, which the caller has computed. Go visits a map in any order:
-- among the oldest entries of the same time, the one evicted here is the first.
pub mod Bounded
pub mod Repeats
use tinyland_cleanup.Prelude.{
  Bool, Dict, Option, String, [], delete, false, if◌then◌else◌, insert, leb_ℤ, length, lookup, ltb,
  ltb_ℤ, none, not, pos, some, str_eq, true, ℕ, ◌&&◌, ◌*◌, ◌+◌, ◌==◌, ◌||◌, ◌∷◌,
}
use tinyland_cleanup.Clock.{Duration, Time, minute, sub_time}

pub record ThrottleEntry : Type 0 where
  pub fingerprint : ℕ  -- uint64
  pub last_emit : Time
  pub suppressed : ℕ

pub record LogThrottle : Type 0 where
  pub window : Duration
  pub max_keys : ℕ
  pub entries : Dict ThrottleEntry

abbrev pub max_throttle_keys : ℕ
max_throttle_keys = 1024

abbrev pub error_log_repeat_window : Duration
error_log_repeat_window = pos (15 * minute)

abbrev pub new_log_throttle : Duration → LogThrottle
new_log_throttle window = record { window = window; max_keys = max_throttle_keys; entries = [] }

-- errors are restated more often
unfoldable pub window_for : LogThrottle → Bool → Duration
window_for t is_error =
    if is_error && ltb_ℤ error_log_repeat_window t.window then error_log_repeat_window else t.window

-- the loop of evictLocked: the oldest entry so far
unfoldable pub oldest_key : String → Time → Dict ThrottleEntry → String
oldest_key key oldest [] = key
oldest_key key oldest ((k, e) ∷ m) =
    if str_eq key "" || ltb e.last_emit oldest
    then oldest_key k e.last_emit m
    else oldest_key key oldest m

unfoldable pub evict : ℕ → Dict ThrottleEntry → Dict ThrottleEntry
evict max_keys m = if ltb (length m) max_keys then m else delete (oldest_key "" 0 m) m

pub record Decision : Type 0 where
  pub entry : ThrottleEntry
  pub emitted : Bool
  pub held : ℕ

abbrev pub emit_now : ℕ → Time → ℕ → Decision
emit_now fingerprint now held = record {
  entry = record { fingerprint = fingerprint; last_emit = now; suppressed = 0 };
  emitted = true;
  held = held;
}

-- what becomes of a line with an entry
unfoldable pub decide_entry : ThrottleEntry → ℕ → Duration → Time → Decision
decide_entry e fingerprint window now =
    if not (e.fingerprint == fingerprint) || leb_ℤ window (sub_time now e.last_emit)
    then emit_now fingerprint now e.suppressed
    else record { entry = record e { suppressed = e.suppressed + 1 }; emitted = false; held = 0 }

abbrev pub put_entry : LogThrottle → String → ThrottleEntry → LogThrottle
put_entry t key e = record t { entries = insert key e t.entries }

-- by the entry of the key: a new key makes room first
unfoldable pub decide_with :
    Option ThrottleEntry → LogThrottle → String → ℕ → Bool → Time → LogThrottle × Decision
unfolding decide_entry
decide_with none t key fingerprint is_error now =
    let d = emit_now fingerprint now 0 in
    (put_entry (record t { entries = evict t.max_keys t.entries }) key d.entry, d)
decide_with (some e) t key fingerprint is_error now =
    let d = decide_entry e fingerprint (window_for t is_error) now in (put_entry t key d.entry, d)

unfoldable pub decide : LogThrottle → String → ℕ → Bool → Time → LogThrottle × Decision
unfolding decide_with
decide t key fingerprint is_error now =
    decide_with (lookup key t.entries) t key fingerprint is_error now

-- The throttle of the cycle report; `last_full` is 0 before the first.
pub record ReportThrottle : Type 0 where
  pub window : Duration
  pub fingerprint : String
  pub last_full : Time
  pub unchanged : ℕ

-- full, with the fingerprint of the report
unfoldable pub full : ReportThrottle → String → Time → ReportThrottle × Bool
full r fingerprint now =
    if leb_ℤ r.window (pos 0)
      || r.last_full == 0
      || not (str_eq fingerprint r.fingerprint)
      || leb_ℤ r.window (sub_time now r.last_full)
    then (record r { fingerprint = fingerprint; last_full = now; unchanged = 0 }, true)
    else (record r { unchanged = r.unchanged + 1 }, false)
