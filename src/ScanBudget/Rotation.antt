-- ===== src/ScanBudget/Rotation.antt =====
-- Which workspace roots a scan visits when it may not visit all: selectWorkspaceRoots,
-- rotateWorkspaceRootsAfterCursor and recordWorkspaceCursor (plugins/scan_budget.go), and the loop of
-- findArtifactDirsOutside over the roots chosen (plugins/devartifacts.go).
--
-- The cursors are those of the budget, with which saveWorkspaceCursors overwrites the cursor file; a
-- write of that file succeeds. A root is a clean path.
pub mod Fair
pub mod Start
pub mod Turns
use tinyland_cleanup.Cycle.Whole.{selected}
use tinyland_cleanup.Prelude.{
  Option, Bool, List, String, [], codes, codes_before, if◌then◌else◌, insert, is_positive, leb,
  leb_ℤ, length, lookup, ltb_ℤ, none, not, pos, pos_part, some, str_eq, suc, zero, ℕ, ℤ, ◌%◌, ◌&&◌,
  ◌+◌, ◌-◌, ◌||◌, ◌∷◌,
}
use tinyland_cleanup.ScanBudget.{ScanBudget}

-- roots[i], for an index in range
abbrev pub root_at : List String → ℕ → String
root_at [] i = ""
root_at (r ∷ rs) zero = r
root_at (r ∷ rs) (suc i) = root_at rs i

-- root > cursor
abbrev pub is_after : String → String → Bool
is_after root cursor = codes_before (codes cursor) (codes root)

-- the index of the first root after the cursor, or the number of roots
unfoldable pub first_after : String → List String → ℕ
first_after cursor [] = 0
first_after cursor (r ∷ rs) =
    let rest = first_after cursor rs in if is_after r cursor then 0 else suc rest

unfoldable pub start_after : String → List String → ℕ
start_after cursor roots =
    if str_eq cursor ""
    then 0
    else if leb (length roots) (first_after cursor roots)
    then 0
    else first_after cursor roots

-- the loop over the offsets, from one on, for a number of roots below that of all roots
unfoldable pub window : List String → ℕ → ℕ → ℕ → List String
window roots start offset zero = []
window roots start offset (suc k) =
    root_at roots ((start + offset) % length roots) ∷ window roots start (offset + 1) k

unfoldable pub rotate_after : List String → String → ℤ → List String
rotate_after roots cursor max_roots =
    if not (is_positive max_roots) || leb_ℤ (pos (length roots)) max_roots
    then roots
    else window roots (start_after cursor roots) 0 (pos_part max_roots)

abbrev pub cursor_or_empty : Option String → String
cursor_or_empty none = ""
cursor_or_empty (some c) = c

unfoldable pub select_workspace_roots : String → List String → ScanBudget → ScanBudget × List String
select_workspace_roots key [] b = (b, [])
select_workspace_roots key (r ∷ rs) b =
    let roots = r ∷ rs in
    let chosen =
      rotate_after roots (cursor_or_empty (lookup key b.cursors)) b.workspace_max_roots in
    if is_positive b.workspace_max_roots && ltb_ℤ b.workspace_max_roots (pos (length roots))
    then (
      record b {
        workspace_roots_skipped = b.workspace_roots_skipped + (length roots - length chosen);
        workspace_roots_visited = b.workspace_roots_visited + length chosen;
      },
      chosen,
    )
    else (record b { workspace_roots_visited = b.workspace_roots_visited + length roots }, roots)

unfoldable pub record_workspace_cursor : String → String → ScanBudget → ScanBudget
record_workspace_cursor key root b =
    if not b.persist_workspace_cursors
      || str_eq b.workspace_cursor_file ""
      || str_eq key ""
      || str_eq root ""
    then b
    else record b { cursors = insert key root b.cursors }

-- The loop over the chosen roots, as far as it sets cursors: each is recorded after its walk.
unfoldable pub record_roots : String → List String → ScanBudget → ScanBudget
record_roots key [] b = b
record_roots key (r ∷ rs) b = record_roots key rs (record_workspace_cursor key r b)

-- A scan of the roots under a key that is not cancelled: the budget after it, and the roots walked.
unfoldable pub scan_roots : String → List String → ScanBudget → ScanBudget × List String
scan_roots key roots b =
    let (selected, chosen) = select_workspace_roots key roots b in
    (record_roots key chosen selected, chosen)
