-- ===== src/State.antt =====
-- The cleanup state that survives between cycles (state.go). Its methods are called on a state that
-- is not nil, and a nil map reads as an empty one. The counters of a record start at 0 and only grow
-- or return to 0, so they are natural numbers.
pub mod Backoff
pub mod Suppress
pub mod Progress
use tinyland_cleanup.Records.{
  ByteProgressRecord, CleanupResult, CleanupState, InodeProgressRecord, PluginStateRecord,
  byte_record, inode_record, or_zero, plugin_record,
}
use tinyland_cleanup.Clock.{
  at_time, bad_stamp, Duration, Stamp, Time, add_time, format_stamp, int64, is_empty, no_stamp,
  parse_stamp, sub_time,
}
use tinyland_cleanup.Prelude.{
  Bool, Dict, Option, String, [], false, if◌then◌else◌, insert, is_positive, leb_ℤ, lookup, ltb,
  ltb_ℤ, none, not, pos, pos_part, some, str_eq, suc, true, zero, ℕ, ℤ, ◌&&◌, ◌+ℤ◌, ◌+◌, ◌-ℤ◌, ◌-◌,
  ◌/◌, ◌||◌, ◌∷◌,
}
use tinyland_cleanup.Level.{Level, to_string, value}
use tinyland_cleanup.Policy.{ZeroYieldPolicy}

-- zeroYieldBackoff's loop, which stops at the cap and never doubles past it
unfoldable pub double_to_cap : ℕ → Duration → Duration → Duration
double_to_cap zero interval max = interval
double_to_cap (suc rounds) interval max = elim (ltb_ℤ interval max) [
  | true ↦
      if is_positive max && ltb_ℤ (pos (pos_part max / 2)) interval
      then max
      else double_to_cap rounds (int64 (interval +ℤ interval)) max
  | false ↦ interval
]

unfoldable pub zero_yield_backoff : ℕ → ZeroYieldPolicy → Duration
unfolding double_to_cap
zero_yield_backoff count p =
    if leb_ℤ p.limit (pos 0) || ltb_ℤ (pos count) p.limit || leb_ℤ p.base (pos 0)
    then pos 0
    else (let interval = double_to_cap (count - pos_part p.limit) p.base p.max in
        if is_positive p.max && ltb_ℤ p.max interval then p.max else interval)

-- what is left of a cooldown at `now` after a run at `last`
unfoldable pub remaining_since : Time → Time → Duration → Duration
remaining_since last now cooldown =
    let difference = sub_time now last in
    let elapsed = if ltb_ℤ difference (pos 0) then pos 0 else difference in
    if leb_ℤ cooldown elapsed then pos 0 else cooldown -ℤ elapsed

-- 0 for a record below the level, or one whose time cannot be read
unfoldable pub remaining_of : Option PluginStateRecord → Level → Time → Duration → Duration
remaining_of none level now cooldown = pos 0
remaining_of (some r) level now cooldown =
    if ltb r.last_level_value (value level) then pos 0 else elim (parse_stamp r.last_run) [
      | none ↦ pos 0
      | some last ↦ remaining_since last now cooldown
    ]

unfoldable pub cooldown_remaining : CleanupState → String → Level → Time → Duration → Duration
cooldown_remaining s plugin level now cooldown =
    if leb_ℤ cooldown (pos 0)
    then pos 0
    else remaining_of (lookup plugin s.plugins) level now cooldown

abbrev pub error_text : Option String → String
error_text none = ""
error_text (some e) = e

-- The record that recordPluginRun stores; the zero-yield fields survive.
abbrev pub run_record : PluginStateRecord → Level → Time → CleanupResult → PluginStateRecord
run_record r level now result = record r {
  last_run = format_stamp now;
  last_level = to_string level;
  last_level_value = value level;
  last_bytes_freed = result.bytes_freed;
  last_items_cleaned = result.items_cleaned;
  last_error = error_text result.error;
}

abbrev pub put_plugin : CleanupState → String → PluginStateRecord → CleanupState
put_plugin s plugin r = record s { plugins = insert plugin r s.plugins }

unfoldable pub record_plugin_run :
    CleanupState → String → Level → Time → CleanupResult → CleanupState
record_plugin_run s plugin level now result =
    put_plugin s plugin (run_record (plugin_record s plugin) level now result)

-- The record that recordPluginYield stores: the count under the digest, then the retry time.
unfoldable pub yield_record :
    PluginStateRecord → Bool → Time → String → ZeroYieldPolicy → Bool → PluginStateRecord
yield_record r zero_yield now digest p suppressible =
    let count = if str_eq r.config_digest digest then r.zero_yield_count else 0 in
    if not zero_yield || leb_ℤ p.limit (pos 0)
    then record r { config_digest = digest; suppressed_until = no_stamp; zero_yield_count = 0 }
    else (let interval = zero_yield_backoff (count + 1) p in
        record r {
          config_digest = digest;
          zero_yield_count = count + 1;
          suppressed_until =
              if suppressible && is_positive interval
              then format_stamp (add_time now interval)
              else no_stamp;
        })

unfoldable pub record_plugin_yield :
    CleanupState
    → String
    → Bool
    → Time
    → String
    → ZeroYieldPolicy
    → Bool
    → CleanupState × PluginStateRecord
record_plugin_yield s plugin zero_yield now digest p suppressible =
    let r = yield_record (plugin_record s plugin) zero_yield now digest p suppressible in
    (put_plugin s plugin r, r)

-- the zero Time if the plugin never ran or its record is unreadable
unfoldable pub plugin_last_run : CleanupState → String → Time
plugin_last_run s plugin = or_zero 0 (parse_stamp (plugin_record s plugin).last_run)

-- clears every retry time; the flag tells whether one was set
unfoldable pub lift_records : Dict PluginStateRecord → Dict PluginStateRecord × Bool
lift_records [] = ([], false)
lift_records ((name, r) ∷ m) =
    let (m', lifted) = lift_records m in
    if is_empty r.suppressed_until
    then ((name, r) ∷ m', lifted)
    else ((name, record r { suppressed_until = no_stamp }) ∷ m', true)

unfoldable pub lift_zero_yield_suppression : CleanupState → CleanupState × Bool
unfolding lift_records
lift_zero_yield_suppression s =
    let (m, lifted) = lift_records s.plugins in (record s { plugins = m }, lifted)

pub record Suppression : Type 0 where
  pub until : Time
  pub count : ℕ
  pub lifted : String
  pub suppressed : Bool

abbrev pub not_held : ℕ → Suppression
not_held count = record { until = 0; count = count; lifted = ""; suppressed = false }

-- the `switch` on what changed since the plugin's last run
unfoldable pub held_until : PluginStateRecord → Time → Level → Time → String → Suppression
held_until r until level now digest =
    if not (ltb now until)
    then not_held r.zero_yield_count
    else if ltb r.last_level_value (value level)
    then record {
      until = until;
      count = r.zero_yield_count;
      lifted = "level_rose";
      suppressed = false;
    }
    else if not (str_eq r.config_digest digest)
    then record {
      until = until;
      count = r.zero_yield_count;
      lifted = "config_changed";
      suppressed = false;
    }
    else record { until = until; count = r.zero_yield_count; lifted = ""; suppressed = true }

-- An empty retry time reports no count, an unreadable one does.
unfoldable pub suppression_by : Stamp → PluginStateRecord → Level → Time → String → Suppression
suppression_by no_stamp r level now digest = not_held 0
suppression_by bad_stamp r level now digest = not_held r.zero_yield_count
suppression_by (at_time until) r level now digest = held_until r until level now digest

unfoldable pub suppression_of : Option PluginStateRecord → Level → Time → String → Suppression
suppression_of none level now digest = not_held 0
suppression_of (some r) level now digest = suppression_by r.suppressed_until r level now digest

unfoldable pub zero_yield_suppression : CleanupState → String → Level → Time → String → Suppression
zero_yield_suppression s plugin level now digest =
    suppression_of (lookup plugin s.plugins) level now digest

unfoldable pub inode_no_progress_count : CleanupState → String → ℕ
inode_no_progress_count s path =
    if str_eq path "" then 0 else (inode_record s path).no_progress_count

abbrev pub put_inodes : CleanupState → String → InodeProgressRecord → CleanupState
put_inodes s path r = if str_eq path "" then s else record s { inodes = insert path r s.inodes }

unfoldable pub record_inode_progress :
    CleanupState → String → ℕ → ℕ → String → Time → Bool → CleanupState
record_inode_progress s path inodes_free used_percent level now improved =
    put_inodes s path (record {
      last_run = format_stamp now;
      last_inodes_free = inodes_free;
      last_inodes_used_percent = used_percent;
      last_inode_level = level;
      no_progress_count = if improved then 0 else (inode_record s path).no_progress_count + 1;
    })

-- a level above the recorded one starts from zero
abbrev pub count_at : Option ByteProgressRecord → Level → ℕ
count_at none level = 0
count_at (some r) level = if ltb r.last_level_value (value level) then 0 else r.no_progress_count

unfoldable pub byte_no_progress_count : CleanupState → String → Level → ℕ
byte_no_progress_count s path level =
    if str_eq path "" then 0 else count_at (lookup path s.bytes) level

unfoldable pub byte_no_progress_pending : CleanupState → String → Bool
byte_no_progress_pending s path =
    not (str_eq path "") && ltb 0 (byte_record s path).no_progress_count

unfoldable pub byte_backoff_engaged : CleanupState → String → Bool
byte_backoff_engaged s path = not (str_eq path "") && (byte_record s path).engaged

-- The count after a cycle: a rise in level restarts it, progress clears it, an attempt advances it.
unfoldable pub next_count : ByteProgressRecord → Level → Bool → Bool → ℕ
next_count r level progress cleanup_ran =
    let count = if ltb r.last_level_value (value level) then 0 else r.no_progress_count in
    if progress then 0 else if cleanup_ran then count + 1 else count

abbrev pub put_bytes : CleanupState → String → ByteProgressRecord → CleanupState
put_bytes s path r = if str_eq path "" then s else record s { bytes = insert path r s.bytes }

unfoldable pub record_byte_progress :
    CleanupState → String → ℕ → String → Level → Time → Bool → Bool → Bool → CleanupState
record_byte_progress s path free_bytes level level_value now progress cleanup_ran engaged =
    put_bytes s path (record {
      last_run = format_stamp now;
      last_free_bytes = free_bytes;
      last_byte_level = level;
      last_level_value = value level_value;
      no_progress_count = next_count (byte_record s path) level_value progress cleanup_ran;
      engaged = engaged;
    })
