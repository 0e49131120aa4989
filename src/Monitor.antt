-- ===== src/Monitor.antt =====
-- Disk usage levels (monitor/disk.go).
--
-- A used percentage is a float64 that is finite and not negative, and such a float64 is a whole
-- multiple of 2 ^ -1074: the model keeps that multiple, so its comparison with a threshold, which
-- is a float64 made from an int, is exact. A DiskStats is what GetDiskStats returns; gopsutil's
-- statfs call and the rounded divisions that give the percentages are not modelled.
pub mod Ladder
use tinyland_cleanup.Prelude.{
  Bool, String, if◌then◌else◌, is_positive, is_word, leb, ltb, pos_part, ℕ, ℤ, ◌&&◌, ◌*◌, ◌-◌, ◌==◌,
  ◌^◌, ◌||◌,
}
use tinyland_cleanup.Level.{
  Level, level_aggressive, level_critical, level_lt, level_moderate, level_none, level_warning,
}

pub record DiskStats : Type 0 where
  pub total : ℕ  -- uint64
  pub free : ℕ  -- uint64
  pub used_percent : ℕ  -- in units of 2 ^ -1074
  pub inodes_total : ℕ  -- uint64
  pub inodes_free : ℕ  -- uint64
  pub inodes_used_percent : ℕ  -- in units of 2 ^ -1074
  pub fstype : String
  pub inodes_dynamic : Bool

-- Thresholds are kept as the ints that they are made from.
pub record DiskMonitor : Type 0 where
  pub threshold_warning : ℤ
  pub threshold_moderate : ℤ
  pub threshold_aggressive : ℤ
  pub threshold_critical : ℤ
  pub threshold_inode_warning : ℤ
  pub threshold_inode_moderate : ℤ
  pub threshold_inode_aggressive : ℤ
  pub threshold_inode_critical : ℤ
  pub inode_free_floor : ℕ  -- uint64

unfoldable pub dynamic_inode_filesystem : String → Bool
unfolding is_word
dynamic_inode_filesystem fstype =
    is_word "xfs" fstype || is_word "apfs" fstype || is_word "zfs" fstype || is_word "btrfs" fstype

-- the inode count that GetDiskStats reports as used
unfoldable pub inodes_used : ℕ → ℕ → ℕ → ℕ
inodes_used total free reported = if ltb 0 total && leb free total then total - free else reported

-- `if inodeX <= 0 { inodeX = x }`
abbrev pub positive_or : ℤ → ℤ → ℤ
positive_or a b = if is_positive a then a else b

unfoldable pub new_disk_monitor : ℤ → ℤ → ℤ → ℤ → ℤ → ℤ → ℤ → ℤ → DiskMonitor
new_disk_monitor warning moderate aggressive critical i_warning i_moderate i_aggressive i_critical =
    record {
      threshold_warning = warning;
      threshold_moderate = moderate;
      threshold_aggressive = aggressive;
      threshold_critical = critical;
      threshold_inode_warning = positive_or i_warning warning;
      threshold_inode_moderate = positive_or i_moderate moderate;
      threshold_inode_aggressive = positive_or i_aggressive aggressive;
      threshold_inode_critical = positive_or i_critical critical;
      inode_free_floor = 0;
    }

-- One percent, in units of 2 ^ -1074.
unfoldable pub percent : ℕ
percent = 2 ^ 1074

-- usedPercent >= threshold: a threshold below 0 is passed by every percentage
unfoldable pub reaches : ℕ → ℤ → Bool
reaches used threshold = leb (pos_part threshold * percent) used

unfoldable pub level_for_percent : ℕ → ℤ → ℤ → ℤ → ℤ → Level
level_for_percent used warning moderate aggressive critical =
    if reaches used critical
    then level_critical
    else if reaches used aggressive
    then level_aggressive
    else if reaches used moderate
    then level_moderate
    else if reaches used warning
    then level_warning
    else level_none

unfoldable pub check_byte_level : DiskMonitor → DiskStats → Level
check_byte_level m stats =
    level_for_percent stats.used_percent m.threshold_warning m.threshold_moderate
      m.threshold_aggressive m.threshold_critical

unfoldable pub check_inode_level : DiskMonitor → DiskStats → Level
check_inode_level m stats =
    if stats.inodes_total == 0
    then level_none
    else if ltb 0 m.inode_free_floor
    then (if ltb stats.inodes_free m.inode_free_floor then level_critical else level_none)
    else if stats.inodes_dynamic
    then level_none
    else level_for_percent stats.inodes_used_percent m.threshold_inode_warning
        m.threshold_inode_moderate m.threshold_inode_aggressive m.threshold_inode_critical

unfoldable pub check_level : DiskMonitor → DiskStats → Level
check_level m stats =
    let byte_level = check_byte_level m stats in
    let inode_level = check_inode_level m stats in
    if level_lt byte_level inode_level then inode_level else byte_level

unfoldable pub inode_ladder_skipped : DiskMonitor → DiskStats → Bool
inode_ladder_skipped m stats =
    ltb 0 stats.inodes_total && (ltb 0 m.inode_free_floor || stats.inodes_dynamic)
