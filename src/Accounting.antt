-- ===== src/Accounting.antt =====
-- Cleanup targets and the accounting of a plan's targets (plugins/plugin.go).
--
-- A plan's metadata is a map of texts; the model keeps what each text was printed from.
pub mod Totals
use tinyland_cleanup.Prelude.{
  Bool, Dict, List, Option, String, [], false, has_prefix, if◌then◌else◌, insert, is_positive,
  length, mem_str, none, pos, some, str_eq, ℕ, ℤ, ◌||◌, ◌∷◌,
}
use tinyland_cleanup.Clock.{add_int64}

pub record CleanupTarget : Type 0 where
  pub kind : String  -- Type
  pub tier : String
  pub name : String
  pub version : String
  pub path : String
  pub bytes : ℤ  -- int64
  pub logical_bytes : ℤ  -- int64
  pub reclaim : String
  pub host_reclaims_space : Option Bool
  pub active : Bool
  pub protected : Bool
  pub action : String
  pub reason : String

-- a target of which nothing is set yet
abbrev pub no_target : CleanupTarget
no_target = record {
  kind = "";
  tier = "";
  name = "";
  version = "";
  path = "";
  bytes = pos 0;
  logical_bytes = pos 0;
  reclaim = "";
  host_reclaims_space = none;
  active = false;
  protected = false;
  action = "";
  reason = "";
}

pub data MetaValue : Type 0 where
  meta_number : ℤ → MetaValue
  meta_text : String → MetaValue
  meta_bool : Bool → MetaValue

pub record TargetPlan : Type 0 where
  pub would_run : Bool
  pub skip_reason : String
  pub estimated_bytes_freed : ℤ  -- int64
  pub targets : List CleanupTarget
  pub warnings : List String
  pub metadata : Dict MetaValue

abbrev pub reclaim_host : String
reclaim_host = "host"

abbrev pub reclaim_deferred : String
reclaim_deferred = "deferred"

abbrev pub reclaim_none : String
reclaim_none = "none"

unfoldable pub host_reclaim_expectation : String → Option Bool
host_reclaim_expectation reclaim =
    if str_eq reclaim "" then none else some (str_eq reclaim reclaim_host)

unfoldable pub annotate_target : CleanupTarget → String → String → CleanupTarget
unfolding host_reclaim_expectation
annotate_target target tier reclaim = record target {
  tier = tier;
  reclaim = reclaim;
  host_reclaims_space = host_reclaim_expectation reclaim;
}

unfoldable pub host_reclaim_for_action : String → String
host_reclaim_for_action action =
    if has_prefix action "delete"
      || mem_str action (
          "stop_idle_server_then_delete_output_base" ∷ "compress" ∷ "clean-cache"
          ∷ "clean-stale-files" ∷ "thin_local_snapshots" ∷ [])
    then reclaim_host
    else reclaim_none

-- the counters of annotateCleanupPlanTargetAccounting
pub record TargetTotals : Type 0 where
  pub total_physical : ℤ
  pub host_candidate : ℤ
  pub deferred_candidate : ℤ
  pub protected_physical : ℤ
  pub active_protected : ℤ
  pub review_physical : ℤ

abbrev pub no_totals : TargetTotals
no_totals = record {
  total_physical = pos 0;
  host_candidate = pos 0;
  deferred_candidate = pos 0;
  protected_physical = pos 0;
  active_protected = pos 0;
  review_physical = pos 0;
}

-- the reclaim of a target, or the one its action stands for
unfoldable pub reclaim_of : CleanupTarget → String
reclaim_of t = if str_eq t.reclaim "" then host_reclaim_for_action t.action else t.reclaim

unfoldable pub add_protected : CleanupTarget → TargetTotals → TargetTotals
add_protected t s = record s {
  total_physical = add_int64 s.total_physical t.bytes;
  protected_physical = add_int64 s.protected_physical t.bytes;
  active_protected = if t.active then add_int64 s.active_protected t.bytes else s.active_protected;
}

unfoldable pub add_unprotected : CleanupTarget → TargetTotals → TargetTotals
add_unprotected t s =
    let all = add_int64 s.total_physical t.bytes in
    if str_eq (reclaim_of t) reclaim_host
    then record s { total_physical = all; host_candidate = add_int64 s.host_candidate t.bytes }
    else if str_eq (reclaim_of t) reclaim_deferred
    then record s {
      total_physical = all;
      deferred_candidate = add_int64 s.deferred_candidate t.bytes;
    }
    else record s { total_physical = all; review_physical = add_int64 s.review_physical t.bytes }

-- one round of the loop over the targets
unfoldable pub add_target : CleanupTarget → TargetTotals → TargetTotals
add_target t s =
    if is_positive t.bytes
    then if t.protected then add_protected t s else add_unprotected t s
    else s

unfoldable pub add_targets : List CleanupTarget → TargetTotals → TargetTotals
add_targets [] s = s
add_targets (t ∷ ts) s = add_targets ts (add_target t s)

unfoldable pub put_accounting : TargetTotals → ℕ → Dict MetaValue → Dict MetaValue
put_accounting s count m = insert "review_physical_bytes" (meta_number s.review_physical) (
    insert "active_protected_physical_bytes" (meta_number s.active_protected) (
      insert "protected_physical_bytes" (meta_number s.protected_physical) (
        insert "deferred_reclaim_candidate_bytes" (meta_number s.deferred_candidate) (
          insert "host_reclaim_candidate_bytes" (meta_number s.host_candidate) (
            insert "total_physical_bytes" (meta_number s.total_physical)
              (insert "target_count" (meta_number (pos count)) m))))))

-- annotateCleanupPlanTargetAccounting
unfoldable pub annotate_plan : TargetPlan → TargetPlan
unfolding put_accounting
annotate_plan p = record p {
  metadata = put_accounting (add_targets p.targets no_totals) (length p.targets) p.metadata;
}
