-- ===== src/Mounts.antt =====
-- The assessment of the monitored mounts (main.go: assessMounts, monitorForMount and what goes with
-- them). `disk_stats` is the daemon's reading of statfs, and `home` the user's home directory, if
-- there is one. The daemon's own monitor is made from the config, as main does.
pub mod Assess
pub mod Band
pub mod Override
use tinyland_cleanup.Prelude.{
  Bool, List, Option, String, [], false, if◌then◌else◌, is_positive, ltb, ltb_ℤ, none, not, some,
  str_eq, true, ℕ, ℤ, ◌&&◌, ◌++◌, ◌==◌, ◌||◌, ◌∷◌,
}
use tinyland_cleanup.Level.{Level, level_lt, level_none, to_string}
use tinyland_cleanup.Config.{Config, MountConfig}
use tinyland_cleanup.Monitor.{
  DiskMonitor, DiskStats, check_byte_level, check_inode_level, check_level, inode_ladder_skipped,
  new_disk_monitor, positive_or,
}
use tinyland_cleanup.Report.{MountReport}

pub data Reading : Type 0 where
  measured : DiskStats → Reading
  failed : String → Reading

-- the monitor that main creates
unfoldable pub daemon_monitor : Config → DiskMonitor
unfolding new_disk_monitor
daemon_monitor c =
    let m =
      new_disk_monitor c.thresholds.warning c.thresholds.moderate c.thresholds.aggressive
        c.thresholds.critical c.inode_thresholds.warning c.inode_thresholds.moderate
        c.inode_thresholds.aggressive c.inode_thresholds.critical in
    record m { inode_free_floor = c.inode_free_floor }

-- a global step outside the mount's own band moves to critical, where it is never reached
unfoldable pub within_mount_band : ℤ → ℤ → ℤ → ℤ
within_mount_band step low critical =
    if ltb_ℤ step low || ltb_ℤ critical step then critical else step

abbrev pub overrides : MountConfig → Bool
overrides m =
    is_positive m.threshold_warning
    || is_positive m.threshold_moderate
    || is_positive m.threshold_aggressive
    || is_positive m.threshold_critical
    || is_positive m.threshold_inode_warning
    || is_positive m.threshold_inode_critical
    || not (m.inode_free_floor == 0)

unfoldable pub monitor_for_mount : Config → MountConfig → DiskMonitor
unfolding within_mount_band daemon_monitor
monitor_for_mount c m =
    let warning = positive_or m.threshold_warning c.thresholds.warning in
    let critical = positive_or m.threshold_critical c.thresholds.critical in
    let moderate =
      positive_or m.threshold_moderate (within_mount_band c.thresholds.moderate warning critical) in
    let aggressive =
      positive_or m.threshold_aggressive
        (within_mount_band c.thresholds.aggressive moderate critical) in
    let mount_monitor =
      new_disk_monitor warning moderate aggressive critical
        (positive_or m.threshold_inode_warning c.inode_thresholds.warning)
        c.inode_thresholds.moderate c.inode_thresholds.aggressive
        (positive_or m.threshold_inode_critical c.inode_thresholds.critical) in
    if not (overrides m) then daemon_monitor c else record mount_monitor {
      inode_free_floor =
          if ltb 0 m.inode_free_floor then m.inode_free_floor else c.inode_free_floor;
    }

-- the first configured mount with the path
unfoldable pub find_mount : String → List MountConfig → Option MountConfig
find_mount path [] = none
find_mount path (m ∷ ms) = if str_eq m.path path then some m else find_mount path ms

abbrev pub mount_config_for_path : Config → String → Option MountConfig
mount_config_for_path c path = find_mount path c.monitored_mounts

unfoldable pub target_used_percent : Config → String → ℤ
target_used_percent c path = elim (mount_config_for_path c path) [
  | none ↦ c.target_free
  | some m ↦ positive_or m.target_used_percent c.target_free
]

-- the monitor whose thresholds hold for a path
abbrev pub monitor_for_path : Config → String → DiskMonitor
monitor_for_path c path = elim (mount_config_for_path c path) [
  | none ↦ daemon_monitor c
  | some m ↦ monitor_for_mount c m
]

unfoldable pub inode_level_for_path : Config → String → DiskStats → Level
inode_level_for_path c path stats = check_inode_level (monitor_for_path c path) stats

unfoldable pub byte_level_for_path : Config → String → DiskStats → Level
byte_level_for_path c path stats = check_byte_level (monitor_for_path c path) stats

unfoldable pub inode_level_display : Level → ℕ → String
inode_level_display level inodes_total = if inodes_total == 0 then "" else to_string level

pub record Assessment : Type 0 where
  pub level : Level
  pub inode_level : Level
  pub mounts : List MountReport

abbrev pub failed_mount : String → String → String → MountReport
failed_mount label path error = record {
  label = label;
  path = path;
  used_percent = 0;
  free_bytes = 0;
  byte_level = "";
  inodes_total = 0;
  inodes_free = 0;
  inode_level = "";
  inode_free_floor = 0;
  inode_ladder_skipped = false;
  level = to_string level_none;
  error = error;
}

abbrev pub measured_mount : DiskMonitor → String → String → DiskStats → MountReport
measured_mount monitor label path stats = record {
  label = label;
  path = path;
  used_percent = stats.used_percent;
  free_bytes = stats.free;
  byte_level = to_string (check_byte_level monitor stats);
  inodes_total = stats.inodes_total;
  inodes_free = stats.inodes_free;
  inode_level = inode_level_display (check_inode_level monitor stats) stats.inodes_total;
  inode_free_floor = monitor.inode_free_floor;
  inode_ladder_skipped = inode_ladder_skipped monitor stats;
  level = to_string (check_level monitor stats);
  error = "";
}

abbrev pub higher : Level → Level → Level
higher a b = if level_lt a b then b else a

abbrev pub label_of : MountConfig → String
label_of m = if str_eq m.label "" then m.path else m.label

-- One round of the loop over the configured mounts.
unfoldable pub assess_mount : Config → MountConfig → Reading → Assessment → Assessment
assess_mount c m (failed e) a = record a {
  mounts = a.mounts ++ failed_mount (label_of m) m.path e ∷ [];
}
assess_mount c m (measured stats) a =
    let monitor = monitor_for_mount c m in
    record {
      level = higher a.level (check_level monitor stats);
      inode_level = higher a.inode_level (check_inode_level monitor stats);
      mounts = a.mounts ++ measured_mount monitor (label_of m) m.path stats ∷ [];
    }

unfoldable pub assess_loop :
    Config → (String → Reading) → List MountConfig → Assessment → Assessment
assess_loop c disk_stats [] a = a
assess_loop c disk_stats (m ∷ ms) a =
    assess_loop c disk_stats ms (assess_mount c m (disk_stats m.path) a)

abbrev pub no_assessment : Assessment
no_assessment = record { level = level_none; inode_level = level_none; mounts = [] }

-- with no mounts configured: the home directory, or the root; the floor and the skipped flag are
-- not reported here
unfoldable pub assess_home : Config → String → Reading → Assessment
assess_home c path (failed e) = record no_assessment { mounts = failed_mount path path e ∷ [] }
assess_home c path (measured stats) =
    let monitor = daemon_monitor c in
    record {
      level = check_level monitor stats;
      inode_level = check_inode_level monitor stats;
      mounts =
          record (measured_mount monitor path path stats) {
            inode_free_floor = 0;
            inode_ladder_skipped = false;
          }
          ∷ [];
    }

abbrev pub home_path : Option String → String
home_path none = "/"
home_path (some home) = if str_eq home "" then "/" else home

abbrev pub assess_list : Config → Option String → (String → Reading) → List MountConfig → Assessment
assess_list c home disk_stats [] = assess_home c (home_path home) (disk_stats (home_path home))
assess_list c home disk_stats (m ∷ ms) = assess_loop c disk_stats (m ∷ ms) no_assessment

unfoldable pub assess_mounts : Config → Option String → (String → Reading) → Assessment
assess_mounts c home disk_stats = assess_list c home disk_stats c.monitored_mounts

-- a mount that was measured and passes the test
abbrev pub is_hit : (MountReport → Bool) → MountReport → Bool
is_hit p m = str_eq m.error "" && not (str_eq m.path "") && p m

-- the first such mount
unfoldable pub first_path : (MountReport → Bool) → List MountReport → Option String
first_path p [] = none
first_path p (m ∷ ms) = if is_hit p m then some m.path else first_path p ms

abbrev pub at_level : Level → MountReport → Bool
at_level level m = str_eq m.level (to_string level)

-- the path of the worst mount, else of any measured one, else the home directory or the root
unfoldable pub primary_monitor_path : Option String → Assessment → String
primary_monitor_path home a = elim (first_path (at_level a.level) a.mounts) [
  | some path ↦ path
  | none ↦ elim (first_path (λ m. true) a.mounts) [ some path ↦ path | none ↦ home_path home ]
]
