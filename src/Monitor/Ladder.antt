-- ===== src/Monitor/Ladder.antt =====
-- What the threshold ladder and the two pressure levels of monitor/disk.go mean.
use tinyland_cleanup.Prelude.{
  pos_part, ◌*◌, arith, if◌then◌else◌, leb→le, le→leb, ltb, max_of, negsuc, refl, true, ℕ, ℤ, ◌&&◌,
  ◌≡◌, ◌≢◌, ◌≤ℤ◌, ◌≤◌,
}
use tinyland_cleanup.Monitor.{
  percent, DiskMonitor, DiskStats, check_byte_level, check_inode_level, check_level,
  inode_ladder_skipped, level_for_percent, reaches,
}
use tinyland_cleanup.Level.{
  Level, level_aggressive, level_critical, level_le, level_moderate, level_none, level_warning,
  value,
}

-- The threshold of the ladder that a level stands for.
abbrev pub threshold_of : Level → ℤ → ℤ → ℤ → ℤ → ℤ
threshold_of level_none w m a c = negsuc 0
threshold_of level_warning w m a c = w
threshold_of level_moderate w m a c = m
threshold_of level_aggressive w m a c = a
threshold_of level_critical w m a c = c

mul_mono : (a b n : ℕ) → a ≤ b → a * n ≤ b * n
mul_mono a b n h = grind arith

pos_part_mono : (s t : ℤ) → s ≤ℤ t → pos_part s ≤ pos_part t
pos_part_mono s t h = ground arith

-- A used percentage that reaches a threshold reaches every lower one.
reaches_mono : (u v : ℕ) (s t : ℤ) → u ≤ v → s ≤ℤ t → reaches u t ≡ true → reaches v s ≡ true
unfolding reaches
reaches_mono u v s t h k r =
    le→leb (pos_part s * percent) v
      (omega (arith, mul_mono _ _ percent (pos_part_mono s t k), leb→le (pos_part t * percent) u r))

module _ (u : ℕ) (w m a c : ℤ) where
  -- On an ascending ladder the level is at least l exactly when the used percentage reaches the
  -- threshold of l, for every level above none.
  pub level_for_percent_exact :
      (l : Level)
      → w ≤ℤ m
      → m ≤ℤ a
      → a ≤ℤ c
      → l ≢ level_none
      → level_le l (level_for_percent u w m a c) ≡ reaches u (threshold_of l w m a c)
  unfolding level_for_percent
  level_for_percent_exact level_none p q r h = absurd (h refl)
  level_for_percent_exact level_warning p q r h =
      ground (arith, reaches_mono u u w m, reaches_mono u u m a, reaches_mono u u a c)
  level_for_percent_exact level_moderate p q r h =
      ground (arith, reaches_mono u u m a, reaches_mono u u a c)
  level_for_percent_exact level_aggressive p q r h = ground (arith, reaches_mono u u a c)
  level_for_percent_exact level_critical p q r h = ground arith

  -- More used space never lowers the level, whatever the order of the thresholds.
  level_for_percent_mono :
      (v : ℕ) → u ≤ v → value (level_for_percent u w m a c) ≤ value (level_for_percent v w m a c)
  unfolding level_for_percent
  level_for_percent_mono v h = ground (
    arith,
    reaches_mono u v w w,
    reaches_mono u v m m,
    reaches_mono u v a a,
    reaches_mono u v c c,
  )

module _ (m : DiskMonitor) (stats : DiskStats) where
  -- The level of a mount is the worse of its byte level and its inode level.
  check_level_max :
      value (check_level m stats)
      ≡ max_of (value (check_byte_level m stats)) (value (check_inode_level m stats))
  unfolding check_level
  check_level_max = ground arith

  -- Where the ladder is skipped the inode level is critical if a floor is set and not met, and
  -- none otherwise: the percentage does not matter.
  check_inode_level-skipped :
      inode_ladder_skipped m stats ≡ true
      → check_inode_level m stats ≡ (
          if ltb 0 m.inode_free_floor && ltb stats.inodes_free m.inode_free_floor
          then level_critical
          else level_none)
  unfolding check_inode_level inode_ladder_skipped
  check_inode_level-skipped h = ground arith
