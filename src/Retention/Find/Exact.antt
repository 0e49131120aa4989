-- ===== src/Retention/Find/Exact.antt =====
-- The search finds the targets within its depth, and nothing else.
use tinyland_cleanup.Prelude.{
  In, In-append_left, In-append_right, In-map, if_false, inl, inr, refl, ℤ, All, All-append,
  All-map, Bool, List, String, [], arith, false, if_both, if◌then◌else◌, map, not, suc, true, zero,
  ℕ, ◌++◌, ◌∷◌, ◌≡◌,
}
use tinyland_cleanup.Retention.Find.{
  depth_or_default, find_cargo_target_dirs, Dir, Elements, Entries, below, dir, entry, is_searched,
  no_entries, walk_dir, walk_entries,
}

-- What is to be found: a Cargo target within the levels, reached through readable directories that
-- are not named .git, are no symlinks and are no targets themselves.
mutual
  pub data Found : Dir → ℕ → Elements → Type 0 where
    in_dir :
        {es : Entries} {levels : ℕ} {path : Elements}
        → FoundIn es levels path
        → Found (dir false false es) (suc levels) path

  pub data FoundIn : Entries → ℕ → Elements → Type 0 where
    target_here :
        {name : String} {is_dir : Bool} {child : Dir} {es : Entries} {levels : ℕ}
        → is_searched name is_dir ≡ true
        → FoundIn (entry name is_dir true child es) levels (below name [])
    inside :
        {name : String} {is_dir : Bool} {child : Dir} {es : Entries} {levels : ℕ} {path : Elements}
        → is_searched name is_dir ≡ true
        → Found child levels path
        → FoundIn (entry name is_dir false child es) levels (below name path)
    later :
        {name : String} {is_dir is_target : Bool} {child : Dir} {es : Entries} {levels : ℕ}
        {path : Elements}
        → FoundIn es levels path
        → FoundIn (entry name is_dir is_target child es) levels path

All-map_of {ℓ} :
    {A : Type 0} (Has : A → Type ℓ) (f : A → A) (xs : List A)
    → All (λ x. Has (f x)) xs
    → All Has (map f xs)
All-map_of Has f [] h = tt
All-map_of Has f (x ∷ xs) h = (h.0, All-map_of Has f xs h.1)

entry_sound :
    (name : String) (is_dir is_target : Bool) (child : Dir) (es : Entries) (levels : ℕ)
    → is_searched name is_dir ≡ true
    → All (FoundIn (entry name is_dir is_target child es) levels) (walk_entries es levels)
    → All (Found child levels) (walk_dir child levels)
    → All (FoundIn (entry name is_dir is_target child es) levels) (
        if is_target
        then below name [] ∷ walk_entries es levels
        else map (below name) (walk_dir child levels) ++ walk_entries es levels)
entry_sound name is_dir true child es levels s rest inner = (target_here s, rest)
entry_sound name is_dir false child es levels s rest inner =
    All-append _ (map (below name) (walk_dir child levels)) (walk_entries es levels)
      (All-map_of _ (below name) (walk_dir child levels)
        (All-map (Found child levels) _ (walk_dir child levels) (λ path h. inside s h) inner))
      rest

mutual
  unfolding walk_dir

  walk_dir_sound : (d : Dir) (levels : ℕ) → All (Found d levels) (walk_dir d levels)
  walk_dir_sound (dir cancelled unreadable es) zero = tt
  walk_dir_sound (dir true unreadable es) (suc levels) = tt
  walk_dir_sound (dir false true es) (suc levels) = tt
  walk_dir_sound (dir false false es) (suc levels) =
      All-map (FoundIn es levels) _ (walk_entries es levels) (λ path h. in_dir h)
        (walk_entries_sound es levels)

  walk_entries_sound :
      (es : Entries) (levels : ℕ) → All (FoundIn es levels) (walk_entries es levels)
  walk_entries_sound no_entries levels = tt
  walk_entries_sound (entry name is_dir is_target child es) levels =
      let Has = FoundIn (entry name is_dir is_target child es) levels in
      let rest =
        All-map (FoundIn es levels) Has (walk_entries es levels) (λ path h. later h)
          (walk_entries_sound es levels) in
      if_both (All Has) (not (is_searched name is_dir)) _ _ (λ h. rest)
        (λ h.
          entry_sound name is_dir is_target child es levels (ground (arith, h)) rest
            (walk_dir_sound child levels))

-- An entry that is a target, or is not.
entry_complete :
    (name : String) (is_dir is_target : Bool) (child : Dir) (es : Entries) (levels : ℕ)
    (path : Elements)
    → is_searched name is_dir ≡ true
    → In path (
        if is_target
        then below name [] ∷ walk_entries es levels
        else map (below name) (walk_dir child levels) ++ walk_entries es levels)
    → In path (walk_entries (entry name is_dir is_target child es) levels)
unfolding walk_entries
entry_complete name is_dir is_target child es levels path s h =
    if_false (In path) (not (is_searched name is_dir)) _ _ (ground (arith, s)) h

later_complete :
    (name : String) (is_dir is_target : Bool) (child : Dir) (es : Entries) (levels : ℕ)
    (path : Elements)
    → In path (walk_entries es levels)
    → In path (walk_entries (entry name is_dir is_target child es) levels)
unfolding walk_entries
later_complete name is_dir true child es levels path h =
    if_both (In path) (not (is_searched name is_dir)) _ _ (λ _. h) (λ _. inr h)
later_complete name is_dir false child es levels path h =
    if_both (In path) (not (is_searched name is_dir)) _ _ (λ _. h)
      (λ _. In-append_right path (map (below name) (walk_dir child levels)) _ h)

mutual
  unfolding walk_dir

  walk_dir_complete :
      (d : Dir) (levels : ℕ) (path : Elements) → Found d levels path → In path (walk_dir d levels)
  walk_dir_complete (dir false false es) zero path h = elim h [ ]
  walk_dir_complete (dir false true es) levels path h = elim h [ ]
  walk_dir_complete (dir true unreadable es) levels path h = elim h [ ]
  walk_dir_complete (dir false false es) (suc levels) path (in_dir h) =
      walk_entries_complete es levels path h

  walk_entries_complete :
      (es : Entries) (levels : ℕ) (path : Elements)
      → FoundIn es levels path
      → In path (walk_entries es levels)
  walk_entries_complete no_entries levels path h = elim h [ ]
  walk_entries_complete (entry name is_dir true child es) levels path (target_here s) =
      entry_complete name is_dir true child es levels path s (inl refl)
  walk_entries_complete (entry name is_dir false child es) levels path (inside {path = inner} s h) =
      entry_complete name is_dir false child es levels path s (
        In-append_left path (map (below name) (walk_dir child levels)) (walk_entries es levels) (
          In-map (below name) inner (walk_dir child levels)
            (walk_dir_complete child levels inner h)))
  walk_entries_complete (entry name is_dir is_target child es) levels path (later h) =
      later_complete name is_dir is_target child es levels path
        (walk_entries_complete es levels path h)

-- The search lists every Cargo target within the depth that is reached, with no cancellation on the
-- way, through readable directories which are neither .git nor symlinks nor targets themselves, and
-- lists nothing else.
pub find_exact :
    (root : Dir) (max_depth : ℤ)
    → let levels = depth_or_default max_depth in
      let found = find_cargo_target_dirs root max_depth in
      All (Found root levels) found × ((path : Elements) → Found root levels path → In path found)
unfolding find_cargo_target_dirs
find_exact root max_depth =
    let levels = depth_or_default max_depth in
    (walk_dir_sound root levels, walk_dir_complete root levels)
