-- ===== src/Retention/Find.antt =====
-- Where Cargo target directories are: findCargoTargetDirs (plugins/retention.go).
--
-- A directory tree as os.ReadDir and ctx.Err() show it, its entries in the order of their names. A
-- path is the list of its elements below the root.
pub mod Exact
use tinyland_cleanup.Prelude.{
  Bool, List, String, [], if◌then◌else◌, is_positive, map, not, pos_part, str_eq, suc, zero, ℕ, ℤ,
  ◌&&◌, ◌++◌, ◌||◌, ◌∷◌,
}

mutual
  pub data Dir : Type 0 where
    dir : Bool → Bool → Entries → Dir  -- ctx.Err() != nil on entry, os.ReadDir failed

  pub data Entries : Type 0 where
    no_entries : Entries
    -- the name, whether it is a directory and no symlink, isCargoTargetDir, what it holds
    entry : String → Bool → Bool → Dir → Entries → Entries

abbrev pub Elements : Type 0
Elements = List String

abbrev pub below : String → Elements → Elements
below name path = name ∷ path

-- whether the search goes into an entry
abbrev pub is_searched : String → Bool → Bool
is_searched name is_dir = is_dir && not (str_eq name ".git")

unfoldable mutual
  -- `levels` is how many levels below this directory are left, itself included
  pub walk_dir : Dir → ℕ → List Elements
  walk_dir (dir cancelled unreadable es) zero = []
  walk_dir (dir cancelled unreadable es) (suc levels) =
      let found = walk_entries es levels in if cancelled || unreadable then [] else found

  pub walk_entries : Entries → ℕ → List Elements
  walk_entries no_entries levels = []
  walk_entries (entry name is_dir is_target child es) levels =
      let rest = walk_entries es levels in
      let inner = walk_dir child levels in
      if not (is_searched name is_dir)
      then rest
      else if is_target
      then below name [] ∷ rest
      else map (below name) inner ++ rest

-- cc.MaxDepth, 3 if it is not positive
abbrev pub depth_or_default : ℤ → ℕ
depth_or_default n = if is_positive n then pos_part n else 3

unfoldable pub find_cargo_target_dirs : Dir → ℤ → List Elements
find_cargo_target_dirs root max_depth = walk_dir root (depth_or_default max_depth)
