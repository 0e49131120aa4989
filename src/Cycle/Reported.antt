-- ===== src/Cycle/Reported.antt =====
-- The reports of a whole cycle: one for each plugin that it selects, in their order.
use tinyland_cleanup.Cycle.Plans.{run_level_independent}
use tinyland_cleanup.Prelude.{
  if◌then◌else◌, All, Bool, List, String, [], any_of, ap, arith, false, if_both, keep, refl, sym,
  true, ◌++◌, ◌∙◌, ◌∷◌, ◌≡◌,
}
use tinyland_cleanup.Cycle.Run.{run_independents}
use tinyland_cleanup.Cycle.Outcomes.{Done, Fits, HasRun}
use tinyland_cleanup.Cycle.Independent.{independent-Done, level_independent-Done}
use tinyland_cleanup.Cycle.Recorded.{ladder-Done}
use tinyland_cleanup.Cycle.Plugins.{run_plugin, run_plugins}
use tinyland_cleanup.Decide.{Plugin, is_ladder_run}
use tinyland_cleanup.Cycle.{Context, Env, Locals}
use tinyland_cleanup.Report.{PluginCycleReport}
use mathlib.Core.List.{append-nil, append_assoc}

run_plugin-Done :
    {W : Type 0} (env : Env W) (x : Context) (plugin : Plugin) (l : Locals W)
    → Done x plugin l (run_plugin env x plugin l)
unfolding run_plugin
run_plugin-Done env x plugin l =
    if_both (Done x plugin l) plugin.level_independent _ _ (λ h. independent-Done env x plugin h l)
      λ h. ladder-Done env x plugin h l

-- The reports of these plugins, in their order.
abbrev pub AllFit : Bool → List Plugin → List PluginCycleReport → Type 0
AllFit dry [] [] = Unit
AllFit dry [] (q ∷ qs) = ⊥
AllFit dry (p ∷ ps) [] = ⊥
AllFit dry (p ∷ ps) (q ∷ qs) = Fits dry p q × AllFit dry ps qs

-- What running plugins adds: their reports, and a record in the state for each ladder run.
pub record Grown {W : Type 0} (x : Context) (plugins : List Plugin) (l l' : Locals W) : Type 0 where
  pub reports : List PluginCycleReport
  pub appended : l'.report.plugins ≡ l.report.plugins ++ reports
  pub fit : AllFit x.daemon.dry_run plugins reports
  pub freed : any_of is_ladder_run reports ≡ false → l'.ladder_freed ≡ l.ladder_freed
  pub recorded :
      x.state_ok ≡ true
      → All
          (λ (q : PluginCycleReport). is_ladder_run q ≡ true → HasRun l'.state q.name x.level x.now)
          reports
  pub others :
      (name : String) → HasRun l.state name x.level x.now → HasRun l'.state name x.level x.now

Grown-none : {W : Type 0} (x : Context) (l : Locals W) → Grown x [] l l
Grown-none x l = record {
  reports = [];
  appended = sym (append-nil l.report.plugins);
  fit = tt;
  freed = λ _. refl;
  recorded = λ _. tt;
  others = λ name h. h;
}

Grown-one :
    {W : Type 0} (x : Context) (p : Plugin) (ps : List Plugin) (l m n : Locals W)
    → Done x p l m
    → Grown x ps m n
    → Grown x (p ∷ ps) l n
Grown-one x p ps l m n d g = record {
  reports = d.report ∷ g.reports;
  appended =
      g.appended
      ∙ ap (λ (qs : List PluginCycleReport). qs ++ g.reports) d.appended
      ∙ append_assoc l.report.plugins (d.report ∷ []) g.reports;
  fit = (d.fits, g.fit);
  freed = λ h. g.freed (ground (arith, h)) ∙ d.freed (ground (arith, h));
  recorded =
      λ ok. (λ run. g.others d.report.name (rw d.fits.name (d.recorded ok run)), g.recorded ok);
  others = λ name h. g.others name (d.others name h);
}

pub run_plugins-Grown :
    {W : Type 0} (env : Env W) (x : Context) (plugins : List Plugin) (l : Locals W)
    → Grown x plugins l (run_plugins env x plugins l)
unfolding run_plugins
run_plugins-Grown env x [] l = Grown-none x l
run_plugins-Grown env x (p ∷ ps) l =
    Grown-one x p ps l (run_plugin env x p l) _ (run_plugin-Done env x p l)
      (run_plugins-Grown env x ps (run_plugin env x p l))

abbrev pub independents : List Plugin → List Plugin
independents plugins = keep (λ (p : Plugin). p.level_independent) plugins

pub run_independents-Grown :
    {W : Type 0} (env : Env W) (x : Context) (plugins : List Plugin) (l : Locals W)
    → Grown x (independents plugins) l (run_independents env x plugins l)
unfolding run_independents
run_independents-Grown env x [] l = Grown-none x l
run_independents-Grown env x (p ∷ ps) l =
    let m = (run_level_independent env x p l).locals in
    let rest = independents ps in
    (elim p.level_independent
        as (λ b.
          p.level_independent ≡ b
          → Grown x (if b then p ∷ rest else rest) l
              (run_independents env x ps (if b then m else l))) [
                | true ↦ λ h.
                    Grown-one x p rest l m _ (level_independent-Done env x p h l)
                      (run_independents-Grown env x ps m)
                | false ↦ λ h. run_independents-Grown env x ps l
              ])
      refl
