-- ===== src/ScanBudget.antt =====
-- The budget of the dev-artifacts scan: entry and duration bounds, and the share of each root
-- (plugins/scan_budget.go).
--
-- A budget that is nil bounds nothing and is left out; a deadline is an input of the calls that ask
-- for it. A set of paths is a list, and a map of texts an association list. A reason is without its
-- number, and a path stands in the text that filepath.Clean gives.
pub mod Shares
pub mod Rotation
use tinyland_cleanup.Clock.{int64, Duration, second}
use tinyland_cleanup.Prelude.{
  Bool, Dict, List, Option, String, [], false, if◌then◌else◌, insert, is_positive, leb, leb_ℤ,
  length, ltb, mem_str, none, pos, pos_part, some, ℕ, ℤ, ◌&&◌, ◌+ℤ◌, ◌+◌, ◌-ℤ◌, ◌-◌, ◌/◌, ◌||◌, ◌∷◌,
}

pub record ScanBudget : Type 0 where
  pub max_duration : Duration
  pub max_entries : ℤ  -- int
  pub workspace_max_roots : ℤ  -- int
  pub temp_max_roots : ℤ  -- int
  pub workspace_cursor_file : String
  pub persist_workspace_cursors : Bool
  pub cursors : Dict String
  pub entries : ℕ
  pub sizing_entries : ℕ
  pub workspace_roots_visited : ℕ
  pub workspace_roots_skipped : ℕ
  pub temp_roots : ℕ
  pub temp_root_seen : List String
  pub truncated_path : Dict String
  pub root_truncated_path : Dict String
  pub temp_paths_truncated : ℕ
  pub workspace_roots_truncated : ℕ

-- a budget with the bounds of one root's share
abbrev pub share_budget : Duration → ℤ → ℤ → ScanBudget
share_budget max_duration max_entries temp_max_roots = record {
  max_duration = max_duration;
  max_entries = max_entries;
  workspace_max_roots = pos 0;
  temp_max_roots = temp_max_roots;
  workspace_cursor_file = "";
  persist_workspace_cursors = false;
  cursors = [];
  entries = 0;
  sizing_entries = 0;
  workspace_roots_visited = 0;
  workspace_roots_skipped = 0;
  temp_roots = 0;
  temp_root_seen = [];
  truncated_path = [];
  root_truncated_path = [];
  temp_paths_truncated = 0;
  workspace_roots_truncated = 0;
}

abbrev pub max_recorded_truncations : ℕ
max_recorded_truncations = 20

-- one more truncation in a map, if there is room
unfoldable pub put_truncation : String → String → Dict String → Dict String
put_truncation path reason m =
    if leb max_recorded_truncations (length m) then m else insert path reason m

unfoldable pub mark_truncated : String → String → ScanBudget → ScanBudget
mark_truncated path reason b = record b {
  truncated_path = put_truncation path reason b.truncated_path;
}

unfoldable pub mark_root_truncated : String → String → ScanBudget → ScanBudget
mark_root_truncated path reason b = record b {
  root_truncated_path = put_truncation path reason b.root_truncated_path;
}

unfoldable pub is_exhausted : ScanBudget → Bool
is_exhausted b = ltb 0 (length b.truncated_path)

unfoldable pub is_partial : ScanBudget → Bool
unfolding is_exhausted
is_partial b = is_exhausted b || ltb 0 (length b.root_truncated_path)

-- ctx.Err()
pub data ContextError : Type 0 where
  no_error deadline_exceeded : ContextError
  other_error : String → ContextError

abbrev pub budget_exceeded : String
budget_exceeded = "dev artifact scan budget exceeded"

-- checkPath: the budget, and the error that ends the walk
unfoldable pub check_path : ContextError → String → ScanBudget → ScanBudget × Option String
check_path (other_error e) path b = (b, some e)
check_path deadline_exceeded path b =
    if is_positive b.max_duration
    then (mark_truncated path "scan duration exceeded" b, some budget_exceeded)
    else (b, some "context deadline exceeded")
check_path no_error path b =
    if is_positive b.max_entries && leb_ℤ b.max_entries (pos b.entries)
    then (mark_truncated path "scan entry budget exceeded" b, some budget_exceeded)
    else (record b { entries = b.entries + 1 }, none)

-- checkTempRoot for a clean path, after checkPath
unfoldable pub count_temp_root : String → ScanBudget → ScanBudget × Option String
count_temp_root path b =
    if mem_str path b.temp_root_seen
    then (b, none)
    else if is_positive b.temp_max_roots && leb_ℤ b.temp_max_roots (pos b.temp_roots)
    then (mark_truncated path "temporary root budget exceeded" b, some budget_exceeded)
    else (
      record b { temp_root_seen = path ∷ b.temp_root_seen; temp_roots = b.temp_roots + 1 },
      none,
    )

abbrev checked_then :
    (ScanBudget → ScanBudget × Option String)
    → ScanBudget × Option String
    → ScanBudget × Option String
checked_then next (b, some e) = (b, some e)
checked_then next (b, none) = next b

unfoldable pub check_temp_root : ContextError → String → ScanBudget → ScanBudget × Option String
check_temp_root err path b = checked_then (count_temp_root path) (check_path err path b)

-- devArtifactRootPool; the time since it started is an input
pub record RootPool : Type 0 where
  pub max_entries : ℤ  -- int
  pub max_duration : Duration
  pub used_entries : ℕ
  pub remaining_roots : ℕ

unfoldable pub root_pool : ScanBudget → ℕ → RootPool
root_pool b roots = record {
  max_entries = b.max_entries;
  max_duration = b.max_duration;
  used_entries = 0;
  remaining_roots = roots;
}

abbrev pub at_least_one : ℕ → ℕ
at_least_one n = if ltb n 1 then 1 else n

-- (left + roots - 1) / roots, at least 1, where the sum is an int of 64 bits; Go's division goes
-- toward 0, so a sum that is not positive gives no more than 0
abbrev pub rounded_share : ℤ → ℕ → ℕ
rounded_share left roots = at_least_one (pos_part (int64 (left +ℤ pos (roots - 1))) / roots)

-- entryShare: 0 means unbounded
unfoldable pub entry_share : RootPool → ℕ
entry_share pl =
    if is_positive pl.max_entries
    then rounded_share (pl.max_entries -ℤ pos pl.used_entries) (at_least_one pl.remaining_roots)
    else 0

-- durationShare after `elapsed`: 0 means unbounded
unfoldable pub duration_share : RootPool → Duration → ℕ
duration_share pl elapsed =
    let share = pos_part (pl.max_duration -ℤ elapsed) / at_least_one pl.remaining_roots in
    if is_positive pl.max_duration then if ltb share second then second else share else 0

-- child: the pool, and the budget of the next root
unfoldable pub child_budget : RootPool → Duration → ℤ → RootPool × ScanBudget
child_budget pl elapsed temp_max_roots = (
  record pl { remaining_roots = pl.remaining_roots - 1 },
  share_budget (pos (duration_share pl elapsed)) (pos (entry_share pl)) temp_max_roots,
)

unfoldable pub child_done : ScanBudget → RootPool → RootPool
child_done child pl = record pl { used_entries = pl.used_entries + child.entries }

merge_truncations : Dict String → ScanBudget → ScanBudget
merge_truncations [] b = b
merge_truncations ((path, reason) ∷ m) b = merge_truncations m (mark_root_truncated path reason b)

unfoldable pub merge_root_budget : ScanBudget → ScanBudget → ScanBudget
unfolding merge_truncations
merge_root_budget child b = merge_truncations child.root_truncated_path (
    merge_truncations child.truncated_path (record b {
      entries = b.entries + child.entries;
      sizing_entries = b.sizing_entries + child.sizing_entries;
    }))

unfoldable pub merge_workspace_root_budget : ScanBudget → ScanBudget → ScanBudget
merge_workspace_root_budget child b = merge_root_budget child (
    if is_exhausted child
    then record b { workspace_roots_truncated = b.workspace_roots_truncated + 1 }
    else b)

unfoldable pub merge_temp_path_budget : ScanBudget → ScanBudget → ScanBudget
merge_temp_path_budget child b =
    let counted = record b { temp_roots = b.temp_roots + child.temp_roots } in
    merge_root_budget child (
      if is_exhausted child
      then record counted { temp_paths_truncated = b.temp_paths_truncated + 1 }
      else counted)
