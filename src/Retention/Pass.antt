-- ===== src/Retention/Pass.antt =====
-- One evaluation of the rules: evaluate, evaluateTmpAgents, evaluateCargoTargets and evaluateFloors
-- (plugins/retention.go). It never removes anything.
--
-- What the directories hold is an input, with what every decision sees. The number of an alert is
-- kept beside its path.
pub mod Candidates
pub mod Floors
pub mod Reports
pub mod Sources
use tinyland_cleanup.Retention.Cleanup.{Process, busy_process, Candidate, Policy, ask_again}
use tinyland_cleanup.Prelude.{
  map, ℤ, Bool, List, Option, String, [], false, if◌then◌else◌, is_positive, leb_ℤ, ltb, mem_str,
  none, not, pos, some, texts, true, ℕ, ◌%◌, ◌&&◌, ◌++◌, ◌+◌, ◌-◌, ◌^◌, ◌||◌, ◌∷◌,
}
use tinyland_cleanup.Accounting.{annotate_target, reclaim_none, CleanupTarget, no_target}
use tinyland_cleanup.Retention.Decide.{Rule, Seen, cargo_targets, decide_tree, tmp_agents}
use tinyland_cleanup.Retention.Check.{validate_retention}
use tinyland_cleanup.Retention.{name_matches}
use tinyland_cleanup.Clock.{Duration, DurationText, bad_text, no_text, text_of}

pub record TmpEntry : Type 0 where
  pub cancelled : Bool  -- ctx.Err() != nil
  pub name : String
  pub path : String
  pub is_dir : Bool
  pub seen : Seen

-- a root with its entries, oldest first, or unreadable
pub record TmpRoot : Type 0 where
  pub path : String
  pub entries : Option (List TmpEntry)

pub record CargoDir : Type 0 where
  pub cancelled : Bool
  pub path : String
  pub is_dir : Bool  -- os.Lstat gave a directory
  pub seen : Seen

pub record CargoRoot : Type 0 where
  pub path : String
  pub dirs : List CargoDir  -- findCargoTargetDirs

pub record Alert : Type 0 where
  pub path : String
  pub free : ℕ

pub record RetentionPass : Type 0 where
  pub candidates : List Candidate
  pub reports : List CleanupTarget
  pub warnings : List String
  pub alerts : List Alert

abbrev pub no_pass : RetentionPass
no_pass = record { candidates = []; reports = []; warnings = []; alerts = [] }

abbrev pub warn : String → RetentionPass → RetentionPass
warn text pass = record pass { warnings = pass.warnings ++ text ∷ [] }

abbrev pub add_candidate : Candidate → RetentionPass → RetentionPass
add_candidate c pass = record pass { candidates = pass.candidates ++ c ∷ [] }

-- the duration of a text, 0 if it is none
abbrev pub duration_or_zero : DurationText → Duration
duration_or_zero t = elim t [ text_of d ↦ d | no_text ↦ pos 0 | bad_text ↦ pos 0 ]

module _ (p : Policy) where
  -- a candidate with what decide says of it
  unfoldable pub candidate : Rule → String → String → Duration → Seen → Candidate
  candidate rule root path max_age seen =
      let c : Candidate = record {
        rule = rule;
        root = root;
        max_age = max_age;
        target = record no_target { path = path };
      } in
      record c { target = decide_tree (ask_again p c) seen }

  abbrev pub tmp_candidate : String → TmpEntry → Candidate
  tmp_candidate root e =
      candidate tmp_agents root e.path (duration_or_zero p.config.tmp_agents.max_age)
        (record e.seen { busy = none })

  abbrev pub is_inspected : TmpEntry → Bool
  is_inspected e = e.is_dir && name_matches e.name p.config.tmp_agents.name_globs

  abbrev pub is_full : ℕ → Bool
  is_full inspected =
      let limit = p.config.tmp_agents.max_dirs_per_cycle in
      is_positive limit && leb_ℤ limit (pos inspected)

  -- the loop over the entries of a root: the pass, and whether it was interrupted
  unfoldable pub tmp_entries : String → List TmpEntry → ℕ → RetentionPass → RetentionPass × Bool
  tmp_entries root [] inspected pass = (pass, false)
  tmp_entries root (e ∷ es) inspected pass =
      let passed_over = tmp_entries root es inspected pass in
      let taken = tmp_entries root es (inspected + 1) (add_candidate (tmp_candidate root e) pass) in
      if e.cancelled
      then (warn "tmp_agents pass interrupted" pass, true)
      else if not (is_inspected e)
      then passed_over
      else if is_full inspected
      then (
        warn (texts ("tmp_agents root " ∷ root ∷ ": max_dirs_per_cycle reached" ∷ [])) pass,
        false,
      )
      else taken

  abbrev pub tmp_root : TmpRoot → RetentionPass → RetentionPass × Bool
  tmp_root root pass = elim root.entries [
    | none ↦ (warn (texts ("tmp_agents root " ∷ root.path ∷ " unreadable" ∷ [])) pass, false)
    | some es ↦ tmp_entries root.path es 0 pass
  ]

  unfoldable pub evaluate_tmp_agents : List TmpRoot → RetentionPass → RetentionPass
  evaluate_tmp_agents [] pass = pass
  evaluate_tmp_agents (root ∷ roots) pass =
      let o = tmp_root root pass in
      let rest = evaluate_tmp_agents roots o.0 in if o.1 then o.0 else rest

  abbrev pub cargo_candidate : Option String → String → CargoDir → Candidate
  cargo_candidate busy root d =
      candidate cargo_targets root d.path (duration_or_zero p.config.cargo_targets.max_age)
        (record d.seen { busy = busy })

  unfoldable pub cargo_dirs :
      Option String → String → List CargoDir → RetentionPass → RetentionPass × Bool
  cargo_dirs busy root [] pass = (pass, false)
  cargo_dirs busy root (d ∷ ds) pass =
      let passed_over = cargo_dirs busy root ds pass in
      let taken = cargo_dirs busy root ds (add_candidate (cargo_candidate busy root d) pass) in
      if d.cancelled
      then (warn "cargo_targets pass interrupted" pass, true)
      else if d.is_dir
      then taken
      else passed_over

  unfoldable pub evaluate_cargo_targets :
      Option String → List CargoRoot → RetentionPass → RetentionPass
  evaluate_cargo_targets busy [] pass = pass
  evaluate_cargo_targets busy (root ∷ roots) pass =
      let o = cargo_dirs busy root.path root.dirs pass in
      let rest = evaluate_cargo_targets busy roots o.0 in if o.1 then o.0 else rest

-- A volume as evaluateFloors reads it: none if statfs failed because it does not exist.
pub record Volume : Type 0 where
  pub path : String  -- cleaned
  pub is_unset : Bool  -- raw == ""
  pub usage : Option (ℕ × ℕ)  -- BytesTotal and BytesUsed; none: unreadable
  pub is_missing : Bool  -- os.IsNotExist(err)

-- u.BytesTotal - u.BytesUsed, both uint64
abbrev pub free_bytes : ℕ → ℕ → ℕ
free_bytes total used = (total + 2 ^ 64 - used) % 2 ^ 64

unfoldable pub floor_of : ℕ → Volume → RetentionPass → RetentionPass
floor_of floor v pass = elim v.usage [
  | none ↦
      if v.is_missing
      then pass
      else warn (texts ("free_space_floor: " ∷ v.path ∷ " unreadable" ∷ [])) pass
  | some (total, used) ↦
      if ltb (free_bytes total used) floor
      then record pass {
        alerts = pass.alerts ++ record { path = v.path; free = free_bytes total used } ∷ [];
      }
      else pass
]

-- the loop of evaluateFloors over the paths, each once; `floor` is the floor in bytes
unfoldable pub floor_loop : ℕ → List String → List Volume → RetentionPass → RetentionPass
floor_loop floor checked [] pass = pass
floor_loop floor checked (v ∷ vs) pass =
    let skipped = floor_loop floor checked vs pass in
    let next = floor_loop floor (v.path ∷ checked) vs (floor_of floor v pass) in
    if v.is_unset || mem_str v.path checked then skipped else next

unfoldable pub evaluate_floors : Option ℕ → List Volume → RetentionPass → RetentionPass
evaluate_floors none vs pass = pass
evaluate_floors (some floor) vs pass = floor_loop floor [] vs pass

-- a Fusion build or report path that evaluateDarwinLeftovers comes upon
pub record Leftover : Type 0 where
  pub name : String
  pub path : String
  pub reason : String
  pub bytes : ℤ  -- int64

-- the function `report` of evaluateDarwinLeftovers
unfoldable pub leftover_target : Leftover → CleanupTarget
leftover_target x =
    annotate_target
      (record no_target {
        kind = "darwin-leftover";
        name = x.name;
        path = x.path;
        bytes = x.bytes;
        action = "report";
        protected = true;
        reason = x.reason;
      })
      "destructive" reclaim_none

-- What one evaluation finds; a rule that is off has no roots.
pub record Findings : Type 0 where
  pub floor_is_negative : Bool
  pub floor : Option ℕ  -- the floor in bytes, if the alert is on
  pub volumes : List Volume  -- with the roots of the rules at the end
  pub configured_volumes : List Volume  -- without them
  pub tmp_roots : List TmpRoot
  pub cargo_roots : List CargoRoot
  pub processes : List Process  -- of the inventory
  pub leftovers : List Leftover

-- evaluate after the check of the policy
unfoldable pub evaluate_checked : Policy → Findings → Option String → RetentionPass
evaluate_checked p f (some e) =
    evaluate_floors f.floor f.configured_volumes
      (warn (texts ("invalid retention policy, deleting rules skipped: " ∷ e ∷ [])) no_pass)
evaluate_checked p f none =
    let tmp =
      if p.config.tmp_agents.enabled then evaluate_tmp_agents p f.tmp_roots no_pass else no_pass in
    let cargo =
      if p.config.cargo_targets.enabled
      then evaluate_cargo_targets p (busy_process f.processes p.config.cargo_targets.busy_processes)
          f.cargo_roots tmp
      else tmp in
    let floors = evaluate_floors f.floor f.volumes cargo in
    record floors { reports = floors.reports ++ map leftover_target f.leftovers }

-- evaluate without its counters in the metadata
unfoldable pub evaluate : Policy → Findings → RetentionPass
evaluate p f = evaluate_checked p f (validate_retention p.config f.floor_is_negative)
