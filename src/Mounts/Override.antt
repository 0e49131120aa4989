-- ===== src/Mounts/Override.antt =====
-- The target of the command line holds on every path.
use tinyland_cleanup.Prelude.{
  Bool-cases, List, Option, Option-cases, String, [], ap, arith, inl, inr, leb, leb→le, map, none,
  pos, refl, some, str_eq, ℕ, ◌<◌, ◌∙◌, ◌∷◌, ◌≡◌, ◌≤◌, ◌⊎◌,
}
use tinyland_cleanup.Mounts.{find_mount, target_used_percent}
use tinyland_cleanup.Config.{Config, MountConfig, override_target, without_target}

abbrev without_targets : Option MountConfig → Option MountConfig
without_targets none = none
without_targets (some m) = some (without_target m)

find_mount-without :
    (path : String) (ms : List MountConfig)
    → find_mount path (map without_target ms) ≡ without_targets (find_mount path ms)
unfolding find_mount
find_mount-without path [] = refl
find_mount-without path (m ∷ ms) = elim (Bool-cases (str_eq m.path path)) [
  | inl same ↦ ground (arith, same)
  | inr other ↦ ground (arith, other, find_mount-without path ms)
]

overridden :
    (c : Config) (target : ℕ) (path : String)
    → target_used_percent
        (record c {
          target_free = pos target;
          monitored_mounts = map without_target c.monitored_mounts;
        })
        path
      ≡ pos target
unfolding target_used_percent
overridden c target path = elim (Option-cases (find_mount path c.monitored_mounts)) [
  | inl absent ↦
      let found = find_mount-without path c.monitored_mounts ∙ ap without_targets absent in
      rw (found, target_used_percent) refl
  | inr (m, there) ↦
      let found = find_mount-without path c.monitored_mounts ∙ ap without_targets there in
      rw (found, target_used_percent) refl
]

-- A target from 1 to 99 given on the command line is accepted, and is then the target of every path,
-- monitored or not, whatever the mounts had set; a target of 100 or more is refused.
override_target_everywhere :
    (c : Config) (target : ℕ) (path : String)
    → 0 < target
    → ((100 ≤ target) × (override_target c (pos target) ≡ none))
      ⊎ ((c' : Config) × (override_target c (pos target) ≡ some c')
          × (target_used_percent c' path ≡ pos target))
unfolding override_target
override_target_everywhere c target path h = elim (Bool-cases (leb 100 target)) [
  | inl over ↦ inl (leb→le 100 target over, ground (arith, h, over))
  | inr within ↦ inr (_, ground (arith, h, within), overridden c target path)
]
