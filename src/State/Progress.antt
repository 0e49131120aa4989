-- ===== src/State/Progress.antt =====
-- The byte and inode progress counters of state.go over sequences of cycles.
use tinyland_cleanup.Records.{
  ByteProgressRecord, CleanupState, byte_record, no_byte_record, no_inode_record, or_zero,
}
use tinyland_cleanup.Prelude.{
  ap, arith, eq_iff, length, lookup, lookup-insert_self, some, str_eq, ◌+◌, ◌≤◌, Bool, List, String,
  [], false, if◌then◌else◌, not, suc, true, ℕ, ◌&&◌, ◌∷◌, ◌≡◌, ◌≢◌,
}
use tinyland_cleanup.State.{
  count_at, inode_no_progress_count, put_bytes, record_inode_progress, byte_no_progress_count,
  byte_no_progress_pending, next_count, record_byte_progress,
}
use tinyland_cleanup.Level.{level_le, Level, to_string, value}
use tinyland_cleanup.Clock.{Time, format_stamp}

-- What one cycle reports to recordByteProgress for a path.
pub record ByteCycle : Type 0 where
  pub free_bytes : ℕ
  pub level : Level
  pub now : Time
  pub progress : Bool
  pub cleanup_ran : Bool
  pub engaged : Bool

abbrev pub observe : CleanupState → String → ByteCycle → CleanupState
observe s path c =
    record_byte_progress s path c.free_bytes (to_string c.level) c.level c.now c.progress
      c.cleanup_ran c.engaged

pub observe_all : CleanupState → String → List ByteCycle → CleanupState
observe_all s path [] = s
observe_all s path (c ∷ cs) = observe_all (observe s path c) path cs

-- The cycles that made an attempt: a plugin ran, and there was no progress.
abbrev pub is_attempt : ByteCycle → Bool
is_attempt c = c.cleanup_ran && not c.progress

pub attempts : List ByteCycle → ℕ
attempts [] = 0
attempts (c ∷ cs) = if is_attempt c then suc (attempts cs) else attempts cs

is_text_empty : (path : String) → path ≢ "" → str_eq path "" ≡ false
is_text_empty path h = ground (arith, eq_iff path "")

lookup-put_bytes :
    (s : CleanupState) (path : String) (r : ByteProgressRecord)
    → path ≢ ""
    → lookup path (put_bytes s path r).bytes ≡ some r
lookup-put_bytes s path r h = rw (is_text_empty path h) (lookup-insert_self path r s.bytes)

abbrev pub observed : CleanupState → String → ByteCycle → ByteProgressRecord
observed s path c = record {
  last_run = format_stamp c.now;
  last_free_bytes = c.free_bytes;
  last_byte_level = to_string c.level;
  last_level_value = value c.level;
  no_progress_count = next_count (byte_record s path) c.level c.progress c.cleanup_ran;
  engaged = c.engaged;
}

module _ (s : CleanupState) (path : String) (c : ByteCycle) (named : path ≢ "") where
  lookup-observe : lookup path (observe s path c).bytes ≡ some (observed s path c)
  unfolding record_byte_progress
  lookup-observe = lookup-put_bytes s path (observed s path c) named

  byte_record-observe : byte_record (observe s path c) path ≡ observed s path c
  byte_record-observe = ap (or_zero no_byte_record) lookup-observe

  byte_no_progress_count-observe :
      (l : Level)
      → byte_no_progress_count (observe s path c) path l ≡ count_at (some (observed s path c)) l
  unfolding byte_no_progress_count
  byte_no_progress_count-observe l =
      rw (is_text_empty path named) (ap (λ o. count_at o l) lookup-observe)

  -- A cycle with progress leaves no count pending on its path, at any level.
  progress_clears :
      c.progress ≡ true
      → (byte_no_progress_pending (observe s path c) path ≡ false)
        × ((l : Level) → byte_no_progress_count (observe s path c) path l ≡ 0)
  unfolding byte_no_progress_pending next_count
  progress_clears p =
      (ground (arith, byte_record-observe), λ l. ground (arith, byte_no_progress_count-observe l))

  -- After an attempt at or below the recorded level the count at that cycle's level, or any lower
  -- one, is one more; at a level above it the count reads 0.
  attempt_counts :
      (l : Level)
      → is_attempt c ≡ true
      → value c.level ≤ (byte_record s path).last_level_value
      → byte_no_progress_count (observe s path c) path l
        ≡ (if level_le l c.level then (byte_record s path).no_progress_count + 1 else 0)
  unfolding next_count
  attempt_counts l a h = ground (arith, byte_no_progress_count-observe l)

  count-observe-le :
      (byte_record (observe s path c) path).no_progress_count
      ≤ (byte_record s path).no_progress_count + (if is_attempt c then 1 else 0)
  unfolding next_count
  count-observe-le = ground (arith, byte_record-observe)

attempts_cons :
    (c : ByteCycle) (cs : List ByteCycle)
    → attempts (c ∷ cs) ≡ (if is_attempt c then 1 else 0) + attempts cs
unfolding attempts
attempts_cons c cs = ground arith

-- Over any run of cycles the counter grows by at most one for each attempt, so polls on which every
-- plugin was held back never bring backoff closer.
count-le-attempts :
    (cs : List ByteCycle) (s : CleanupState) (path : String)
    → path ≢ ""
    → (byte_record (observe_all s path cs) path).no_progress_count
      ≤ (byte_record s path).no_progress_count + attempts cs
unfolding observe_all attempts
count-le-attempts [] s path h = omega arith
count-le-attempts (c ∷ cs) s path h = omega (
  arith,
  attempts_cons c cs,
  count-observe-le s path c h,
  count-le-attempts cs (observe s path c) path h,
)

-- Cycles that are all attempts, at levels that never rise above `top`.
abbrev pub IsStreak : ℕ → List ByteCycle → Type 0
IsStreak top [] = Unit {0}
IsStreak top (c ∷ cs) = (is_attempt c ≡ true) × (value c.level ≤ top) × IsStreak (value c.level) cs

streak_step :
    (s : CleanupState) (path : String) (c : ByteCycle)
    → path ≢ ""
    → is_attempt c ≡ true
    → value c.level ≤ (byte_record s path).last_level_value
    → ((byte_record (observe s path c) path).no_progress_count
        ≡ (byte_record s path).no_progress_count + 1)
      × ((byte_record (observe s path c) path).last_level_value ≡ value c.level)
unfolding next_count
streak_step s path c h a l = ground (arith, byte_record-observe s path c h)

-- A streak of attempts without progress, at levels that do not rise, counts every one of them.
pub streak_counts :
    (cs : List ByteCycle) (s : CleanupState) (path : String)
    → path ≢ ""
    → IsStreak (byte_record s path).last_level_value cs
    → (byte_record (observe_all s path cs) path).no_progress_count
      ≡ (byte_record s path).no_progress_count + length cs
unfolding observe_all
streak_counts [] s path h k = omega arith
streak_counts (c ∷ cs) s path h k =
    let (more, level) = streak_step s path c h k.0 k.1 in
    let rest = streak_counts cs (observe s path c) path h (rw level k.2) in
    omega (arith, rest, more)

-- The inode counter: a cycle that improved clears it, any other adds one, and the count that the
-- breaker reads is the one stored.
inode_count_step :
    (s : CleanupState) (path : String) (free used : ℕ) (level : String) (now : Time)
    (improved : Bool)
    → path ≢ ""
    → inode_no_progress_count (record_inode_progress s path free used level now improved) path
      ≡ (if improved then 0 else inode_no_progress_count s path + 1)
unfolding inode_no_progress_count record_inode_progress
inode_count_step s path free used level now improved h =
    rw (is_text_empty path h)
      (ap (λ o. (or_zero no_inode_record o).no_progress_count) (lookup-insert_self path _ s.inodes))
