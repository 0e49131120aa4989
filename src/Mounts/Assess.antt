-- ===== src/Mounts/Assess.antt =====
-- What the assessment of the mounts says (main.go: assessMounts, primaryMonitorPath).
use tinyland_cleanup.Prelude.{
  In, Option-cases, eq_refl, All, Bool-cases, eq_iff, inl, inr, none, true, some, ◌≢◌, List, Option,
  String, [], ap, arith, max_of, refl, sym, ℕ, ◌++◌, ◌∙◌, ◌∷◌, ◌≡◌,
}
use tinyland_cleanup.Mounts.{
  primary_monitor_path, at_level, is_hit, assess_list, first_path, no_assessment, Assessment,
  Reading, assess_loop, assess_mount, assess_mounts, failed, failed_mount, label_of, measured,
  measured_mount, monitor_for_mount,
}
use tinyland_cleanup.Level.{level_none, parse_level, parse_level-to_string, to_string, Level, value}
use tinyland_cleanup.Monitor.{DiskStats, check_level}
use tinyland_cleanup.Config.{Config, MountConfig}
use tinyland_cleanup.Report.{MountReport}
use mathlib.Core.List.{append-nil, append_assoc}

-- The level of one mount as a number; a mount that could not be measured has none.
abbrev pub reading_level : Config → MountConfig → Reading → ℕ
reading_level c m (failed e) = 0
reading_level c m (measured stats) = value (check_level (monitor_for_mount c m) stats)

-- The worst level of the measured mounts, 0 if none was measured.
pub worst : Config → (String → Reading) → List MountConfig → ℕ
worst c disk_stats [] = 0
worst c disk_stats (m ∷ ms) = max_of (reading_level c m (disk_stats m.path)) (worst c disk_stats ms)

abbrev pub report_of : Config → MountConfig → Reading → MountReport
report_of c m (failed e) = failed_mount (label_of m) m.path e
report_of c m (measured stats) = measured_mount (monitor_for_mount c m) (label_of m) m.path stats

abbrev pub reports_of : Config → (String → Reading) → List MountConfig → List MountReport
reports_of c disk_stats [] = []
reports_of c disk_stats (m ∷ ms) = report_of c m (disk_stats m.path) ∷ reports_of c disk_stats ms

max_of_assoc : (a b n : ℕ) → max_of (max_of a b) n ≡ max_of a (max_of b n)
max_of_assoc a b n = ground arith

max_of_zero : (n : ℕ) → max_of 0 n ≡ n
max_of_zero n = ground arith

module _ (c : Config) (disk_stats : String → Reading) where
  assess_mount_lem :
      (m : MountConfig) (r : Reading) (a : Assessment)
      → ((assess_mount c m r a).mounts ≡ a.mounts ++ report_of c m r ∷ [])
        × (value (assess_mount c m r a).level ≡ max_of (value a.level) (reading_level c m r))
  unfolding assess_mount
  assess_mount_lem m (failed e) a = (refl, ground arith)
  assess_mount_lem m (measured stats) a = (refl, ground arith)

  assess_loop_mounts :
      (ms : List MountConfig) (a : Assessment)
      → (assess_loop c disk_stats ms a).mounts ≡ a.mounts ++ reports_of c disk_stats ms
  unfolding assess_loop
  assess_loop_mounts [] a = sym (append-nil a.mounts)
  assess_loop_mounts (m ∷ ms) a =
      assess_loop_mounts ms (assess_mount c m (disk_stats m.path) a)
      ∙ ap (λ l. l ++ reports_of c disk_stats ms) (assess_mount_lem m (disk_stats m.path) a).0
      ∙ append_assoc a.mounts _ _

  assess_loop_level :
      (ms : List MountConfig) (a : Assessment)
      → value (assess_loop c disk_stats ms a).level ≡ max_of (value a.level) (worst c disk_stats ms)
  unfolding assess_loop worst
  assess_loop_level [] a = ground arith
  assess_loop_level (m ∷ ms) a =
      assess_loop_level ms (assess_mount c m (disk_stats m.path) a)
      ∙ ap (λ n. max_of n (worst c disk_stats ms)) (assess_mount_lem m (disk_stats m.path) a).1
      ∙ max_of_assoc (value a.level) _ _

  assess_list_exact :
      (home : Option String) (ms : List MountConfig)
      → ms ≢ []
      → (value (assess_list c home disk_stats ms).level ≡ worst c disk_stats ms)
        × ((assess_list c home disk_stats ms).mounts ≡ reports_of c disk_stats ms)
  assess_list_exact home [] h = absurd (h refl)
  assess_list_exact home (m ∷ ms) h = (
    assess_loop_level (m ∷ ms) no_assessment ∙ max_of_zero _,
    assess_loop_mounts (m ∷ ms) no_assessment,
  )

  -- With mounts configured, the assessment's level is the worst of the measured mounts, and it
  -- reports every configured mount, in order, measured or not.
  pub assess_mounts_exact :
      (home : Option String)
      → c.monitored_mounts ≢ []
      → (value (assess_mounts c home disk_stats).level ≡ worst c disk_stats c.monitored_mounts)
        × ((assess_mounts c home disk_stats).mounts ≡ reports_of c disk_stats c.monitored_mounts)
  unfolding assess_mounts
  assess_mounts_exact home h = assess_list_exact home c.monitored_mounts h

-- A mount that was measured at the level.
abbrev pub MeasuredAt : Config → (String → Reading) → MountConfig → Level → Type 0
MeasuredAt c disk_stats m level =
    (stats : DiskStats) × (disk_stats m.path ≡ measured stats)
    × (check_level (monitor_for_mount c m) stats ≡ level)

value_injective : (a b : Level) → value a ≡ value b → a ≡ b
value_injective a b h = ground arith

to_string_injective : (a b : Level) → to_string a ≡ to_string b → a ≡ b
to_string_injective a b h =
    sym (parse_level-to_string a) ∙ ap parse_level h ∙ parse_level-to_string b

report_path : (c : Config) (m : MountConfig) (r : Reading) → (report_of c m r).path ≡ m.path
report_path c m (failed e) = refl
report_path c m (measured stats) = refl

primary_found :
    (home : Option String) (a : Assessment) (path : String)
    → first_path (at_level a.level) a.mounts ≡ some path
    → primary_monitor_path home a ≡ path
unfolding primary_monitor_path
primary_found home a path h = ground arith

module _ (c : Config) (disk_stats : String → Reading)
    (named : (path e : String) → disk_stats path ≡ failed e → e ≢ "") where
  hit_measured :
      (m : MountConfig) (level : Level) (r : Reading)
      → disk_stats m.path ≡ r
      → is_hit (at_level level) (report_of c m r) ≡ true
      → MeasuredAt c disk_stats m level
  hit_measured m level (failed e) d h = absurd (named m.path e d (ground (arith, eq_iff e "")))
  hit_measured m level (measured stats) d h = (
    stats,
    d,
    to_string_injective _ _ (
        ground (
          arith,
          eq_iff (to_string (check_level (monitor_for_mount c m) stats)) (to_string level),
        )),
  )

  first_path_sound :
      (ms : List MountConfig) (level : Level) (path : String)
      → first_path (at_level level) (reports_of c disk_stats ms) ≡ some path
      → (m : MountConfig) × In m ms × (m.path ≡ path) × MeasuredAt c disk_stats m level
  unfolding first_path
  first_path_sound [] level path h = cc
  first_path_sound (m ∷ ms) level path h =
      elim (Bool-cases (is_hit (at_level level) (report_of c m (disk_stats m.path)))) [
        | inl hit ↦ (
          m,
          inl refl,
          ground (arith, report_path c m (disk_stats m.path)),
          hit_measured m level (disk_stats m.path) refl hit,
        )
        | inr miss ↦
            let (x, member, same, at) = first_path_sound ms level path (ground arith) in
            (x, inr member, same, at)
      ]

  hit_complete :
      (m : MountConfig) (level : Level) (r : Reading)
      → m.path ≢ ""
      → level ≢ level_none
      → reading_level c m r ≡ value level
      → is_hit (at_level level) (report_of c m r) ≡ true
  hit_complete m level (failed e) p l h = ground arith
  hit_complete m level (measured stats) p l h = ground (
    arith,
    value_injective (check_level (monitor_for_mount c m) stats) level,
    eq_refl (to_string level),
    eq_iff m.path "",
    eq_refl "",
  )

  first_path_complete :
      (ms : List MountConfig) (level : Level)
      → All (λ m. m.path ≢ "") ms
      → level ≢ level_none
      → worst c disk_stats ms ≡ value level
      → first_path (at_level level) (reports_of c disk_stats ms) ≢ none
  unfolding first_path worst
  first_path_complete [] level p l h e = ground arith
  first_path_complete (m ∷ ms) level p l h e =
      elim (Bool-cases (is_hit (at_level level) (report_of c m (disk_stats m.path)))) [
        | inl hit ↦ ground arith
        | inr miss ↦
            first_path_complete ms level p.1 l
              (ground (arith, hit_complete m level (disk_stats m.path) p.0 l)) (ground arith)
      ]

  -- While there is pressure, the monitored path is the path of a configured mount that was measured
  -- at the assessment's level. Mount paths and error texts are taken to be not empty.
  pub primary_path_is_worst :
      (home : Option String)
      → All (λ m. m.path ≢ "") c.monitored_mounts
      → let a = assess_mounts c home disk_stats in
        a.level ≢ level_none
        → c.monitored_mounts ≢ []
        → (m : MountConfig) × In m c.monitored_mounts
          × (m.path ≡ primary_monitor_path home a)
          × MeasuredAt c disk_stats m a.level
  primary_path_is_worst home paths pressure some_mounts =
      let (level, reports) = assess_mounts_exact c disk_stats home some_mounts in
      elim (Option-cases (
        first_path (at_level (assess_mounts c home disk_stats).level)
          (reports_of c disk_stats c.monitored_mounts))) [
            | inl missing ↦ absurd (
                first_path_complete c.monitored_mounts (assess_mounts c home disk_stats).level paths
                  pressure (sym level) missing)
            | inr (path, found) ↦
                let (m, member, same, at) =
                  first_path_sound c.monitored_mounts (assess_mounts c home disk_stats).level path
                    found in
                (
                  m,
                  member,
                  same
                      ∙ sym (
                          primary_found home (assess_mounts c home disk_stats) path (
                            ap (first_path (at_level (assess_mounts c home disk_stats).level))
                              reports
                            ∙ found)),
                  at,
                )
          ]
