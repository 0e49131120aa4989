-- ===== src/Report.antt =====
-- The reports of a cycle (main.go): cycleReport, mountReport, pluginCycleReport. A field that the
-- JSON output alone uses and no decision reads (sizes in GB, file system names) is left out, and so
-- is the measured duration of the cycle.
use tinyland_cleanup.Prelude.{Bool, List, Option, String, [], false, none, pos, ℕ, ℤ}
use tinyland_cleanup.Clock.{Stamp, no_stamp}

pub record MountReport : Type 0 where
  pub label : String
  pub path : String
  pub used_percent : ℕ  -- in units of 2 ^ -1074
  pub free_bytes : ℕ  -- uint64
  pub byte_level : String
  pub inodes_total : ℕ  -- uint64
  pub inodes_free : ℕ  -- uint64
  pub inode_level : String
  pub inode_free_floor : ℕ  -- uint64
  pub inode_ladder_skipped : Bool
  pub level : String
  pub error : String

-- What a Planner's PlanCleanup returns, as far as the cycle adds it up (plugins/plugin.go).
pub record CleanupPlan : Type 0 where
  pub estimated_bytes_freed : ℤ  -- int64
  pub required_free_bytes : ℤ  -- int64
  pub targets : ℕ

pub record PluginCycleReport : Type 0 where
  pub name : String
  pub level : String
  pub dry_run : Bool
  pub level_independent : Bool
  pub would_run : Bool
  pub ran : Bool
  pub skip_reason : String
  pub plan : Option CleanupPlan
  pub bytes_freed : ℤ
  pub estimated_bytes_freed : ℤ
  pub command_bytes_freed : ℤ
  pub host_bytes_freed : ℤ
  pub items_cleaned : ℕ
  pub cooldown_remaining_seconds : ℤ
  pub retry_at : Stamp
  pub zero_yield_count : ℕ
  pub suppressed_until : Stamp
  pub zero_yield_lifted : String
  pub error : String
  pub wedged : String
  pub wedged_since : Stamp
  pub last_command : String
  pub wedged_commands : List String

pub record CycleReport : Type 0 where
  pub timestamp : Stamp
  pub dry_run : Bool
  pub forced_level : Bool
  pub level : String
  pub monitor_path : String
  pub host_free_before_bytes : ℕ
  pub host_free_after_bytes : ℕ
  pub host_free_delta_bytes : ℤ
  pub host_inodes_total : ℕ
  pub host_inodes_free_before : ℕ
  pub host_inodes_free_after : ℕ
  pub host_inodes_free_delta : ℤ
  pub host_inodes_used_percent_before : ℕ
  pub host_inodes_used_percent_after : ℕ
  pub host_inode_level : String
  pub host_byte_level : String
  pub max_inode_level : String
  pub inode_no_progress_count : ℕ
  pub inode_backoff : Bool
  pub host_byte_level_after : String
  pub byte_no_progress_count : ℕ
  pub byte_backoff : Bool
  pub byte_backoff_reason : String
  pub byte_backoff_seconds : ℤ
  pub emergency_free_bytes : ℕ
  pub host_free_error : String
  pub state_error : String
  pub state_quarantined : String
  pub cooldown_seconds : ℤ
  pub next_retry_at : Stamp
  pub target_used_percent : ℤ
  pub target_free_bytes : ℕ
  pub target_free_deficit_bytes : ℤ
  pub target_free_met : Bool
  pub minimum_free_bytes : ℕ
  pub minimum_free_deficit_bytes : ℤ
  pub minimum_free_met : Bool
  pub stop_reason : String
  pub planned_estimated_bytes_freed : ℤ
  pub planned_required_free_bytes : ℤ
  pub planned_targets : ℕ
  pub total_bytes_freed : ℤ
  pub total_items_cleaned : ℕ
  pub ladder_bytes_freed : ℤ
  pub mounts : List MountReport
  pub plugin_filter : List String
  pub plugins : List PluginCycleReport

-- The zero cycleReport, which a composite literal starts from.
abbrev pub no_report : CycleReport
no_report = record {
  timestamp = no_stamp;
  dry_run = false;
  forced_level = false;
  level = "";
  monitor_path = "";
  host_free_before_bytes = 0;
  host_free_after_bytes = 0;
  host_free_delta_bytes = pos 0;
  host_inodes_total = 0;
  host_inodes_free_before = 0;
  host_inodes_free_after = 0;
  host_inodes_free_delta = pos 0;
  host_inodes_used_percent_before = 0;
  host_inodes_used_percent_after = 0;
  host_inode_level = "";
  host_byte_level = "";
  max_inode_level = "";
  inode_no_progress_count = 0;
  inode_backoff = false;
  host_byte_level_after = "";
  byte_no_progress_count = 0;
  byte_backoff = false;
  byte_backoff_reason = "";
  byte_backoff_seconds = pos 0;
  emergency_free_bytes = 0;
  host_free_error = "";
  state_error = "";
  state_quarantined = "";
  cooldown_seconds = pos 0;
  next_retry_at = no_stamp;
  target_used_percent = pos 0;
  target_free_bytes = 0;
  target_free_deficit_bytes = pos 0;
  target_free_met = false;
  minimum_free_bytes = 0;
  minimum_free_deficit_bytes = pos 0;
  minimum_free_met = false;
  stop_reason = "";
  planned_estimated_bytes_freed = pos 0;
  planned_required_free_bytes = pos 0;
  planned_targets = 0;
  total_bytes_freed = pos 0;
  total_items_cleaned = 0;
  ladder_bytes_freed = pos 0;
  mounts = [];
  plugin_filter = [];
  plugins = [];
}

abbrev pub no_plugin_report : PluginCycleReport
no_plugin_report = record {
  name = "";
  level = "";
  dry_run = false;
  level_independent = false;
  would_run = false;
  ran = false;
  skip_reason = "";
  plan = none;
  bytes_freed = pos 0;
  estimated_bytes_freed = pos 0;
  command_bytes_freed = pos 0;
  host_bytes_freed = pos 0;
  items_cleaned = 0;
  cooldown_remaining_seconds = pos 0;
  retry_at = no_stamp;
  zero_yield_count = 0;
  suppressed_until = no_stamp;
  zero_yield_lifted = "";
  error = "";
  wedged = "";
  wedged_since = no_stamp;
  last_command = "";
  wedged_commands = [];
}
