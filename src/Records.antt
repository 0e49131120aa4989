-- ===== src/Records.antt =====
-- The records of the cleanup state (state.go), their zero values, and a plugin's result
-- (plugins/plugin.go). The counters of a record start at 0 and only grow or return to 0, so they are
-- natural numbers.
use tinyland_cleanup.Prelude.{Bool, Dict, Option, String, [], false, lookup, none, pos, some, ℕ, ℤ}
use tinyland_cleanup.Clock.{Stamp, no_stamp}

pub record PluginStateRecord : Type 0 where
  pub last_run : Stamp
  pub last_level : String
  pub last_level_value : ℕ
  pub last_bytes_freed : ℤ  -- int64
  pub last_items_cleaned : ℕ
  pub last_error : String
  pub zero_yield_count : ℕ
  pub suppressed_until : Stamp
  pub config_digest : String

pub record InodeProgressRecord : Type 0 where
  pub last_run : Stamp
  pub last_inodes_free : ℕ  -- uint64
  pub last_inodes_used_percent : ℕ  -- in units of 2 ^ -1074
  pub last_inode_level : String
  pub no_progress_count : ℕ

pub record ByteProgressRecord : Type 0 where
  pub last_run : Stamp
  pub last_free_bytes : ℕ  -- uint64
  pub last_byte_level : String
  pub last_level_value : ℕ
  pub no_progress_count : ℕ
  pub engaged : Bool

pub record CleanupState : Type 0 where
  pub version : ℕ
  pub plugins : Dict PluginStateRecord
  pub inodes : Dict InodeProgressRecord
  pub bytes : Dict ByteProgressRecord

-- What a plugin's Cleanup returns (plugins/plugin.go).
pub record CleanupResult : Type 0 where
  pub bytes_freed : ℤ  -- int64
  pub estimated_bytes_freed : ℤ  -- int64
  pub command_bytes_freed : ℤ  -- int64
  pub host_bytes_freed : ℤ  -- int64
  pub items_cleaned : ℕ
  pub error : Option String

-- a result with nothing in it
abbrev pub no_result : CleanupResult
no_result = record {
  bytes_freed = pos 0;
  estimated_bytes_freed = pos 0;
  command_bytes_freed = pos 0;
  host_bytes_freed = pos 0;
  items_cleaned = 0;
  error = none;
}

abbrev pub state_version : ℕ
state_version = 2

unfoldable pub new_cleanup_state : CleanupState
new_cleanup_state = record { version = state_version; plugins = []; inodes = []; bytes = [] }

-- The zero values, which Go's m[k] gives for a missing key.
abbrev pub no_plugin_record : PluginStateRecord
no_plugin_record = record {
  last_run = no_stamp;
  last_level = "";
  last_level_value = 0;
  last_bytes_freed = pos 0;
  last_items_cleaned = 0;
  last_error = "";
  zero_yield_count = 0;
  suppressed_until = no_stamp;
  config_digest = "";
}

abbrev pub no_inode_record : InodeProgressRecord
no_inode_record = record {
  last_run = no_stamp;
  last_inodes_free = 0;
  last_inodes_used_percent = 0;
  last_inode_level = "";
  no_progress_count = 0;
}

abbrev pub no_byte_record : ByteProgressRecord
no_byte_record = record {
  last_run = no_stamp;
  last_free_bytes = 0;
  last_byte_level = "";
  last_level_value = 0;
  no_progress_count = 0;
  engaged = false;
}

abbrev pub or_zero {ℓ} : {V : Type ℓ} → V → Option V → V
or_zero z none = z
or_zero z (some v) = v

abbrev pub plugin_record : CleanupState → String → PluginStateRecord
plugin_record s name = or_zero no_plugin_record (lookup name s.plugins)

abbrev pub inode_record : CleanupState → String → InodeProgressRecord
inode_record s path = or_zero no_inode_record (lookup path s.inodes)

abbrev pub byte_record : CleanupState → String → ByteProgressRecord
byte_record s path = or_zero no_byte_record (lookup path s.bytes)
