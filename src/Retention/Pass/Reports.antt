-- ===== src/Retention/Pass/Reports.antt =====
-- What a pass reports besides its candidates: only the Darwin leftovers, which are protected
-- (plugins/retention.go: evaluateDarwinLeftovers).
use mathlib.Core.Path.{subst}
use tinyland_cleanup.Prelude.{
  sym, ◌++◌, Bool, List, Option, Option-cases, String, [], arith, if_both, if◌then◌else◌, inl, inr,
  ltb, map, mem_str, none, not, refl, some, true, ℕ, ◌+◌, ◌||◌, ◌∙◌, ◌∷◌, ◌≡◌, All,
}
use tinyland_cleanup.Retention.Cleanup.{busy_process, Policy}
use tinyland_cleanup.Retention.Pass.{
  CargoDir, CargoRoot, Findings, Leftover, RetentionPass, TmpEntry, TmpRoot, Volume, cargo_dirs,
  evaluate, evaluate_cargo_targets, evaluate_checked, evaluate_floors, evaluate_tmp_agents,
  floor_loop, floor_of, free_bytes, is_full, is_inspected, leftover_target, no_pass, tmp_entries,
  tmp_root,
}
use tinyland_cleanup.Accounting.{CleanupTarget, annotate_target}

-- The rules and the floors add no report.
abbrev SameReports : RetentionPass → RetentionPass → Type 0
SameReports before after = after.reports ≡ before.reports

module _ (p : Policy) where
  tmp_entries-reports :
      (root : String) (es : List TmpEntry) (inspected : ℕ) (pass : RetentionPass)
      → SameReports pass (tmp_entries p root es inspected pass).0
  unfolding tmp_entries
  tmp_entries-reports root [] inspected pass = refl
  tmp_entries-reports root (e ∷ es) inspected pass =
      let Same = λ (o : RetentionPass × Bool). SameReports pass o.0 in
      if_both Same e.cancelled _ _ (λ _. refl)
        λ _.
          if_both Same (not (is_inspected p e)) _ _
            (λ _. tmp_entries-reports root es inspected pass)
            λ _.
              if_both Same (is_full p inspected) _ _ (λ _. refl)
                λ _. tmp_entries-reports root es (inspected + 1) _

  tmp_root-reports :
      (root : TmpRoot) (pass : RetentionPass) → SameReports pass (tmp_root p root pass).0
  tmp_root-reports root pass = elim (Option-cases root.entries) [
    | inl e ↦ rw e refl
    | inr (es, e) ↦ rw e (tmp_entries-reports root.path es 0 pass)
  ]

  evaluate_tmp_agents-reports :
      (roots : List TmpRoot) (pass : RetentionPass)
      → SameReports pass (evaluate_tmp_agents p roots pass)
  unfolding evaluate_tmp_agents
  evaluate_tmp_agents-reports [] pass = refl
  evaluate_tmp_agents-reports (root ∷ roots) pass =
      let same = tmp_root-reports root pass in
      if_both (SameReports pass) (tmp_root p root pass).1 _ _ (λ _. same)
        λ _. evaluate_tmp_agents-reports roots _ ∙ same

  cargo_dirs-reports :
      (busy : Option String) (root : String) (ds : List CargoDir) (pass : RetentionPass)
      → SameReports pass (cargo_dirs p busy root ds pass).0
  unfolding cargo_dirs
  cargo_dirs-reports busy root [] pass = refl
  cargo_dirs-reports busy root (d ∷ ds) pass =
      let Same = λ (o : RetentionPass × Bool). SameReports pass o.0 in
      if_both Same d.cancelled _ _ (λ _. refl)
        λ _.
          if_both Same d.is_dir _ _ (λ _. cargo_dirs-reports busy root ds _)
            λ _. cargo_dirs-reports busy root ds pass

  evaluate_cargo_targets-reports :
      (busy : Option String) (roots : List CargoRoot) (pass : RetentionPass)
      → SameReports pass (evaluate_cargo_targets p busy roots pass)
  unfolding evaluate_cargo_targets
  evaluate_cargo_targets-reports busy [] pass = refl
  evaluate_cargo_targets-reports busy (root ∷ roots) pass =
      let same = cargo_dirs-reports busy root.path root.dirs pass in
      if_both (SameReports pass) (cargo_dirs p busy root.path root.dirs pass).1 _ _ (λ _. same)
        λ _. evaluate_cargo_targets-reports busy roots _ ∙ same

floor_of-reports :
    (floor : ℕ) (v : Volume) (pass : RetentionPass) → SameReports pass (floor_of floor v pass)
unfolding floor_of
floor_of-reports floor v pass = elim (Option-cases v.usage) [
  | inl e ↦ rw e (if_both (SameReports pass) v.is_missing _ _ (λ _. refl) λ _. refl)
  | inr ((total, used), e) ↦
      rw e
        (if_both (SameReports pass) (ltb (free_bytes total used) floor) _ _ (λ _. refl) λ _. refl)
]

floor_loop-reports :
    (floor : ℕ) (checked : List String) (vs : List Volume) (pass : RetentionPass)
    → SameReports pass (floor_loop floor checked vs pass)
unfolding floor_loop
floor_loop-reports floor checked [] pass = refl
floor_loop-reports floor checked (v ∷ vs) pass =
    if_both (SameReports pass) (v.is_unset || mem_str v.path checked) _ _
      (λ _. floor_loop-reports floor checked vs pass)
      λ _. floor_loop-reports floor (v.path ∷ checked) vs _ ∙ floor_of-reports floor v pass

evaluate_floors-reports :
    (floor : Option ℕ) (vs : List Volume) (pass : RetentionPass)
    → SameReports pass (evaluate_floors floor vs pass)
unfolding evaluate_floors
evaluate_floors-reports none vs pass = refl
evaluate_floors-reports (some floor) vs pass = floor_loop-reports floor [] vs pass

abbrev IsKept : CleanupTarget → Type 0
IsKept t = t.protected ≡ true

leftovers-IsKept : (xs : List Leftover) → All IsKept (map leftover_target xs)
unfolding leftover_target annotate_target
leftovers-IsKept [] = tt
leftovers-IsKept (x ∷ xs) = (ground arith, leftovers-IsKept xs)

IsKept-after : (rs ts : List CleanupTarget) → rs ≡ [] → All IsKept ts → All IsKept (rs ++ ts)
IsKept-after rs ts e h = subst (λ us. All IsKept (us ++ ts)) (sym e) h

IsKept-none : (rs : List CleanupTarget) → rs ≡ [] → All IsKept rs
IsKept-none rs e = subst (All IsKept) (sym e) tt

checked-reports :
    (p : Policy) (f : Findings) (o : Option String) → All IsKept (evaluate_checked p f o).reports
unfolding evaluate_checked
checked-reports p f (some e) =
    IsKept-none _ (evaluate_floors-reports f.floor f.configured_volumes _)
checked-reports p f none =
    let tmp =
      if p.config.tmp_agents.enabled then evaluate_tmp_agents p f.tmp_roots no_pass else no_pass in
    let tmp_same : SameReports no_pass tmp =
      if_both (SameReports no_pass) p.config.tmp_agents.enabled _ _
        (λ _. evaluate_tmp_agents-reports p f.tmp_roots no_pass) (λ _. refl) in
    let busy = busy_process f.processes p.config.cargo_targets.busy_processes in
    let cargo =
      if p.config.cargo_targets.enabled
      then evaluate_cargo_targets p busy f.cargo_roots tmp
      else tmp in
    let cargo_same : SameReports tmp cargo =
      if_both (SameReports tmp) p.config.cargo_targets.enabled _ _
        (λ _. evaluate_cargo_targets-reports p busy f.cargo_roots tmp) (λ _. refl) in
    IsKept-after _ (map leftover_target f.leftovers)
      (evaluate_floors-reports f.floor f.volumes cargo ∙ cargo_same ∙ tmp_same)
      (leftovers-IsKept f.leftovers)

-- Every report of a pass besides its candidates is protected.
pub reports_kept :
    (p : Policy) (f : Findings)
    → All (λ (t : CleanupTarget). t.protected ≡ true) (evaluate p f).reports
unfolding evaluate
reports_kept p f = checked-reports p f _
