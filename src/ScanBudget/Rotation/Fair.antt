-- ===== src/ScanBudget/Rotation/Fair.antt =====
-- Every workspace root has its turn.
use tinyland_cleanup.ScanBudget.Rotation.Turns.{last_of, rotates, turns, turns-All}
use tinyland_cleanup.Prelude.{
  if_false, not, ◌||◌, if_both, is_positive, lookup, lookup-insert_self, ltb_ℤ, refl, true, ◌&&◌,
  pos, ◌*◌, In, str_eq, ◌%◌, ◌++◌, ◌+◌, ◌∙◌, ◌≤◌, All, List, String, [], ap, arith, false, length,
  suc, zero, ℕ, ◌<◌, ◌∷◌, ◌≡◌,
}
use tinyland_cleanup.ScanBudget.Rotation.{
  cursor_or_empty, record_roots, record_workspace_cursor, scan_roots, select_workspace_roots,
  rotate_after, start_after, window, root_at,
}
use tinyland_cleanup.ScanBudget.{ScanBudget}
use tinyland_cleanup.ScanBudget.Rotation.Start.{Ascends}
use native.Mathlib.Nat.{mod-lt}

-- The roots that `m` scans in a row walk: each scan has the same budget but for the cursors, which
-- it reads as the scan before it left them.
pub scans_in_turn : ℕ → String → List String → ScanBudget → List String
scans_in_turn zero key roots b = []
scans_in_turn (suc m) key roots b =
    let scan = scan_roots key roots b in
    scan.1 ++ scans_in_turn m key roots (record b { cursors = scan.0.cursors })

-- A budget that keeps a cursor under the key and visits at most `most` roots a scan.
pub record IsRotating (key : String) (most : ℕ) (b : ScanBudget) : Type 0 where
  pub persists : b.persist_workspace_cursors ≡ true
  pub has_file : str_eq b.workspace_cursor_file "" ≡ false
  pub has_key : str_eq key "" ≡ false
  pub bounded : b.workspace_max_roots ≡ pos most

abbrev cursor_of : String → ScanBudget → String
cursor_of key b = cursor_or_empty (lookup key b.cursors)

named_at :
    (roots : List String) (i : ℕ)
    → All (λ r. str_eq r "" ≡ false) roots
    → i < length roots
    → str_eq (root_at roots i) "" ≡ false
named_at [] i named l = absurd (omega (arith, l))
named_at (r ∷ rs) zero named l = named.0
named_at (r ∷ rs) (suc i) named l = named_at rs i named.1 (omega (arith, l))

window-named :
    (roots : List String) (s o k : ℕ)
    → All (λ r. str_eq r "" ≡ false) roots
    → 0 < length roots
    → All (λ r. str_eq r "" ≡ false) (window roots s o k)
unfolding window
window-named roots s o zero named l = tt
window-named roots s o (suc k) named l = (
  named_at roots ((s + o) % length roots) named (mod-lt (s + o) l),
  window-named roots s (o + 1) k named l,
)

recorded :
    (key root : String) (most : ℕ) (b : ScanBudget)
    → IsRotating key most b
    → str_eq root "" ≡ false
    → let after = record_workspace_cursor key root b in
      IsRotating key most after × (cursor_of key after ≡ root)
unfolding record_workspace_cursor
recorded key root most b rotating named =
    if_false (λ (after : ScanBudget). IsRotating key most after × (cursor_of key after ≡ root))
      (not b.persist_workspace_cursors
        || str_eq b.workspace_cursor_file ""
        || str_eq key ""
        || str_eq root "")
      _ _ (ground (arith, rotating.persists, rotating.has_file, rotating.has_key, named))
      (
        record {
          persists = rotating.persists;
          has_file = rotating.has_file;
          has_key = rotating.has_key;
          bounded = rotating.bounded;
        },
        ap cursor_or_empty (lookup-insert_self key root b.cursors),
      )

-- After the loop the cursor is the last root walked.
record_roots-cursor :
    (key : String) (most : ℕ) (chosen : List String) (b : ScanBudget)
    → IsRotating key most b
    → All (λ r. str_eq r "" ≡ false) chosen
    → cursor_of key (record_roots key chosen b) ≡ last_of (cursor_of key b) chosen
unfolding record_roots
record_roots-cursor key most [] b rotating named = refl
record_roots-cursor key most (r ∷ rs) b rotating named =
    let (still, same) = recorded key r most b rotating named.0 in
    record_roots-cursor key most rs (record_workspace_cursor key r b) still named.1
    ∙ ap (λ c. last_of c rs) same

select_chosen :
    (key : String) (roots : List String) (b : ScanBudget)
    → 0 < length roots
    → (select_workspace_roots key roots b).1
      ≡ rotate_after roots (cursor_of key b) b.workspace_max_roots
unfolding select_workspace_roots rotate_after
select_chosen key [] b l = absurd (omega (arith, l))
select_chosen key (r ∷ rs) b l = ground arith

select-IsRotating :
    (key : String) (most : ℕ) (roots : List String) (b : ScanBudget)
    → IsRotating key most b
    → let b' = (select_workspace_roots key roots b).0 in
      IsRotating key most b' × (cursor_of key b' ≡ cursor_of key b)
unfolding select_workspace_roots
select-IsRotating key most [] b rotating = (rotating, refl)
select-IsRotating key most (r ∷ rs) b rotating =
    if_both
      (λ (o : ScanBudget × List String).
        IsRotating key most o.0 × (cursor_of key o.0 ≡ cursor_of key b))
      (is_positive b.workspace_max_roots && ltb_ℤ b.workspace_max_roots (pos (length (r ∷ rs)))) _ _
      (λ _. (
        record {
          persists = rotating.persists;
          has_file = rotating.has_file;
          has_key = rotating.has_key;
          bounded = rotating.bounded;
        },
        refl,
      ))
      λ _. (
        record {
          persists = rotating.persists;
          has_file = rotating.has_file;
          has_key = rotating.has_key;
          bounded = rotating.bounded;
        },
        refl,
      )

-- The scans hold the turns of their cursors.
scans_in_turn-turns :
    (m : ℕ) (key : String) (roots : List String) (b : ScanBudget) (k : ℕ)
    → IsRotating key (suc k) b
    → All (λ r. str_eq r "" ≡ false) roots
    → suc k < length roots
    → scans_in_turn m key roots b ≡ turns m roots (cursor_of key b) (pos (suc k))
unfolding scans_in_turn turns scan_roots
scans_in_turn-turns zero key roots b k rotating named l = refl
scans_in_turn-turns (suc m) key roots b k rotating named l =
    let chosen = window roots (start_after (cursor_of key b) roots) 0 (suc k) in
    let walks : (select_workspace_roots key roots b).1 ≡ chosen =
      select_chosen key roots b (omega (arith, l))
      ∙ ap (rotate_after roots (cursor_of key b)) rotating.bounded
      ∙ rotates roots (cursor_of key b) k l in
    let (still, same) = select-IsRotating key (suc k) roots b rotating in
    let moved =
      record_roots-cursor key (suc k) chosen (select_workspace_roots key roots b).0 still
        (window-named roots _ 0 (suc k) named (omega (arith, l)))
      ∙ ap (λ c. last_of c chosen) same in
    let next : ScanBudget = record b {
      cursors = (record_roots key chosen (select_workspace_roots key roots b).0).cursors;
    } in
    let rest =
      scans_in_turn-turns m key roots next k
        (record {
          persists = rotating.persists;
          has_file = rotating.has_file;
          has_key = rotating.has_key;
          bounded = rotating.bounded;
        })
        named l in
    rw (walks, rotates roots (cursor_of key b) k l)
      (ap (λ rs. chosen ++ rs) (rest ∙ ap (λ c. turns m roots c (pos (suc k))) moved))

-- With cursors persisted under a key in a cursor file, a scan walks at least one workspace root but
-- not all. Wherever the cursor stands, each root is walked by one of the next `m` scans, if these walk
-- as many roots as there are in all. The roots ascend, stay the same and are no empty texts, no scan
-- is cancelled, and every write of the cursor file succeeds.
pub every_root_visited :
    (m : ℕ) (key : String) (roots : List String) (b : ScanBudget) (k : ℕ)
    → IsRotating key (suc k) b
    → Ascends roots
    → All (λ r. str_eq r "" ≡ false) roots
    → suc k < length roots
    → length roots ≤ m * suc k
    → All (λ r. In r (scans_in_turn m key roots b)) roots
every_root_visited m key roots b k rotating a named l h =
    rw (scans_in_turn-turns m key roots b k rotating named l)
      (turns-All m roots (cursor_of key b) k a named l h)
