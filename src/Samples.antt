-- ===== src/Samples.antt =====
-- Concrete configurations, readings and plugins, for the tests.
use tinyland_cleanup.Records.{CleanupResult}
use tinyland_cleanup.StateFile.{Loaded, loaded}
use tinyland_cleanup.Prelude.{Bool, List, [], false, none, pos, true, ℕ, ◌*◌, ◌+◌, ◌^◌, ◌∷◌}
use tinyland_cleanup.Decide.{Daemon, Plugin}
use tinyland_cleanup.Mounts.{measured}
use tinyland_cleanup.Cycle.{Env}
use tinyland_cleanup.Config.{Config, MountConfig, PolicyConfig, Thresholds}
use tinyland_cleanup.Monitor.{DiskStats}
use tinyland_cleanup.Watchdog.{Observed, in_time}
use tinyland_cleanup.Report.{CleanupPlan}
use tinyland_cleanup.Clock.{Time, hour, minute, no_text, second, text_of}

abbrev pub sample_policy : PolicyConfig
sample_policy = record {
  cooldown = text_of (pos (30 * minute));
  cooldown_bypass_level = "critical";
  minimum_free_gb = pos 0;
  state_file = "/var/lib/state.json";
  inode_no_progress_limit = pos 3;
  byte_no_progress_limit = pos 3;
  byte_progress_min_mb = pos 64;
  byte_backoff_max = text_of (pos (2 * hour));
  emergency_free_gb = pos 2;
  zero_yield_limit = pos 2;
  zero_yield_backoff_base = text_of (pos (30 * minute));
  zero_yield_backoff_max = text_of (pos (6 * hour));
  zero_yield_pressure_min_interval = no_text;
  zero_yield_exempt_plugins = [];
  plugin_timeout = text_of (pos (10 * minute));
  plugin_timeouts = [];
  exec_timeout = no_text;
  exec_timeouts = [];
  exec_reclaim_timeout = no_text;
  memory_limit_mb = pos 0;
}

abbrev pub steps : Thresholds
steps = record { warning = pos 80; moderate = pos 85; aggressive = pos 90; critical = pos 95 }

-- a mount with its own warning and critical lines
abbrev pub banded_mount : MountConfig
banded_mount = record {
  path = "/data";
  label = "data";
  threshold_warning = pos 60;
  threshold_moderate = pos 0;
  threshold_aggressive = pos 0;
  threshold_critical = pos 88;
  target_used_percent = pos 70;
  threshold_inode_warning = pos 0;
  threshold_inode_critical = pos 0;
  inode_free_floor = 0;
}

abbrev pub sample_config : Config
sample_config = record {
  poll_interval = pos 60;
  thresholds = steps;
  inode_thresholds = steps;
  inode_free_floor = 0;
  target_free = pos 70;
  policy = sample_policy;
  monitored_mounts = banded_mount ∷ [];
}

-- 90 percent of 1000 GB used
abbrev pub tight_stats : DiskStats
tight_stats = record {
  total = 1000 * 1024 ^ 3;
  free = 100 * 1024 ^ 3;
  used_percent = 90 * 2 ^ 1074;
  inodes_total = 1000;
  inodes_free = 900;
  inodes_used_percent = 10 * 2 ^ 1074;
  fstype = "ext4";
  inodes_dynamic = false;
}

abbrev pub sample_daemon : Bool → Daemon
sample_daemon dry = record {
  config = sample_config;
  dry_run = dry;
  plugin_filter = [];
  digest = "d1";
  home = none;
}

abbrev pub docker : Plugin
docker = record {
  name = "docker";
  description = "prunes images";
  platforms = [];
  enabled = true;
  level_independent = false;
  safety_critical = false;
  planner = true;
}

abbrev pub bazel : Plugin
bazel = record {
  name = "bazel";
  description = "removes output bases";
  platforms = "linux" ∷ [];
  enabled = true;
  level_independent = true;
  safety_critical = false;
  planner = false;
}

-- one second, 63900000000 seconds after the zero Time
abbrev pub noon : Time
noon = 63900000000 * second

-- A plugin that frees 1 GB of one item, in time.
abbrev pub one_gb : Observed CleanupResult
one_gb = record {
  outcome = in_time (record {
    bytes_freed = pos (1024 ^ 3);
    estimated_bytes_freed = pos 0;
    command_bytes_freed = pos 0;
    host_bytes_freed = pos (1024 ^ 3);
    items_cleaned = 1;
    error = none;
  });
  last_command = "";
  commands = [];
}

abbrev pub some_plan : Observed CleanupPlan
some_plan = record {
  outcome =
      in_time
        (record { estimated_bytes_freed = pos 5000; required_free_bytes = pos 0; targets = 2 });
  last_command = "";
  commands = [];
}

-- The world: how many cleanups ran and how often the state was saved.
abbrev pub World : Type 0
World = ℕ × ℕ

abbrev pub sample_env : Loaded → Env World
sample_env s = record {
  disk_stats = λ w path. measured tight_stats;
  flight = λ w name. record { done = false; last_command = ""; commands = [] };
  started = λ w. noon;
  cleanup = λ name level w. ((w.0 + 1, w.1), one_gb);
  plan = λ name level w. (w, some_plan);
  load = λ now w. (w, s);
  save = λ state w. ((w.0, w.1 + 1), none);
  printer = record { duration = λ d. "10m"; time = λ t. "noon" };
}

abbrev pub fresh : Loaded
fresh = loaded (record { version = 2; plugins = []; inodes = []; bytes = [] }) ""

abbrev pub both : List Plugin
both = docker ∷ bazel ∷ []
