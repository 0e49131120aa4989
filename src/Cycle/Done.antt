-- ===== src/Cycle/Done.antt =====
-- Each step of a cycle adds one report, and the report tells what the step did.
-- A step that only appends a report of a plugin that did not run on the ladder.
use tinyland_cleanup.Cycle.Outcomes.{WasTried, Done, Fits, Fresh}
use tinyland_cleanup.Cycle.Plans.{
  add_required, dry_run_plugin, first_report, no_plan, planned, watch_plan,
}
use tinyland_cleanup.Records.{or_zero}
use tinyland_cleanup.Prelude.{
  List, String, ap, eq_iff, ltb_ℤ, not, some, ◌&&◌, ◌≢◌, ◌⊎◌, true, Bool, [], arith, false, if_both,
  inl, inr, refl, str_eq, ◌++◌, ◌∷◌, ◌≡◌,
}
use tinyland_cleanup.Cycle.{add_plan, Env, Context, Locals}
use tinyland_cleanup.Report.{CleanupPlan, CycleReport, PluginCycleReport}
use tinyland_cleanup.Decide.{Plugin, is_ladder_run}
use tinyland_cleanup.Watchdog.{PluginWatch, Printer, apply_watch, plugin_wedged, wedge_abandoned}

pub appended_only :
    {W : Type 0} (x : Context) (plugin : Plugin) (l l' : Locals W) (q : PluginCycleReport)
    → l'.report.plugins ≡ l.report.plugins ++ q ∷ []
    → Fits x.daemon.dry_run plugin q
    → l'.ladder_freed ≡ l.ladder_freed
    → l'.state ≡ l.state
    → is_ladder_run q ≡ false
    → Done x plugin l l'
appended_only x plugin l l' q a fits freed same no_run = record {
  report = q;
  appended = a;
  fits = fits;
  freed = λ _. freed;
  recorded = λ _ run. absurd (ground (arith, run, no_run));
  others = λ name h. rw same h;
}

pub not_ran : (q : PluginCycleReport) → q.ran ≡ false → is_ladder_run q ≡ false
not_ran q h = rw h refl

pub Fresh-Fits :
    (dry : Bool) (plugin : Plugin) (q : PluginCycleReport)
    → Fresh plugin q
    → (plugin.level_independent ≡ true → dry ≡ false → WasTried q)
    → Fits dry plugin q
Fresh-Fits dry plugin q f tried = record {
  name = f.name;
  kind = f.kind;
  held = f.held;
  skipped = λ _. f.ran;
  cleaned = λ run. absurd (ground (arith, run, f.ran));
  tried = λ independent. tried (ground (arith, f.kind, independent));
  untouched = λ _. f.freed;
}

-- What applyWatch leaves: the report is still fresh, and a run that was started is not marked skipped.
pub record Applied (plugin : Plugin) (w : PluginWatch) (a : PluginCycleReport × Bool) : Type 0 where
  pub fresh : Fresh plugin a.0
  pub runs : (a.1 ≡ false) ⊎ (str_eq w.state wedge_abandoned ≡ true) → a.0.would_run ≡ true
  pub went :
      a.1 ≡ true → (str_eq w.state wedge_abandoned ≡ true) ⊎ (a.0.skip_reason ≡ plugin_wedged)

wedged_state_ne : ◌≢◌ {A = String} plugin_wedged wedge_abandoned
wedged_state_ne = ground (arith, eq_iff plugin_wedged wedge_abandoned)

pub apply_watch-Applied :
    (printer : Printer) (plugin : Plugin) (p : PluginCycleReport) (w : PluginWatch)
    → Fresh plugin p
    → p.would_run ≡ true
    → Applied plugin w (apply_watch printer p w)
unfolding apply_watch
apply_watch-Applied printer plugin p w f would =
    if_both (Applied plugin w) (str_eq w.state "") _ _
      (λ _. record {
        fresh = record {
          name = f.name;
          kind = f.kind;
          held = f.held;
          ran = f.ran;
          freed = f.freed;
        };
        runs = λ _. would;
        went = λ h. absurd (ground (arith, h));
      })
      λ _.
        if_both (Applied plugin w) (str_eq w.state plugin_wedged) _ _
          (λ wedged. record {
            fresh = record {
              name = f.name;
              kind = f.kind;
              held = λ _. inr (inr refl);
              ran = f.ran;
              freed = f.freed;
            };
            runs = λ h. absurd (
                ground (
                  arith,
                  h,
                  wedged,
                  wedged_state_ne,
                  eq_iff w.state plugin_wedged,
                  eq_iff w.state wedge_abandoned,
                ));
            went = λ _. inr refl;
          })
          λ _.
            if_both (Applied plugin w) (str_eq w.state wedge_abandoned) _ _
              (λ abandoned. record {
                fresh = record {
                  name = f.name;
                  kind = f.kind;
                  held = f.held;
                  ran = f.ran;
                  freed = f.freed;
                };
                runs = λ _. would;
                went = λ _. inl abandoned;
              })
              λ _. record {
                fresh = record {
                  name = f.name;
                  kind = f.kind;
                  held = f.held;
                  ran = f.ran;
                  freed = f.freed;
                };
                runs = λ _. would;
                went = λ h. absurd (ground (arith, h));
              }

first_fresh :
    (x : Context) (plugin : Plugin) → Fresh plugin (first_report x plugin plugin.level_independent)
first_fresh x plugin = record {
  name = refl;
  kind = refl;
  held = λ _. inl refl;
  ran = refl;
  freed = (refl, refl);
}

required_plugins :
    (independent : Bool) (r : CycleReport) (plan : CleanupPlan)
    → (add_required independent r plan).plugins ≡ r.plugins
required_plugins independent r plan =
    if_both (λ (q : CycleReport). q.plugins ≡ r.plugins)
      (not independent && ltb_ℤ r.planned_required_free_bytes plan.required_free_bytes) _ _
      (λ _. refl) λ _. refl

planned_appends :
    (plugin : Plugin) (independent : Bool) (r : CycleReport) (a : PluginCycleReport × Bool)
    (plan : CleanupPlan)
    → Fresh plugin a.0
    → (q : PluginCycleReport) × (((planned independent r a plan).plugins ≡ r.plugins ++ q ∷ [])
        × Fresh plugin q)
unfolding planned
planned_appends plugin independent r (p, true) plan f = (p, (refl, f))
planned_appends plugin independent r (p, false) plan f = (
  record p { plan = some plan },
  (
    ap (λ (ps : List PluginCycleReport). ps ++ record p { plan = some plan } ∷ [])
        (required_plugins independent (add_plan r plan) plan),
    record { name = f.name; kind = f.kind; held = f.held; ran = f.ran; freed = f.freed },
  ),
)

module _ {W : Type 0} (env : Env W) (x : Context) (plugin : Plugin) where
  -- Planning: the report of a plugin that is still fresh, with its plan.
  pub planned-Done :
      (l : Locals W) (independent : Bool) (p : PluginCycleReport)
      → Fresh plugin p
      → p.would_run ≡ true
      → x.daemon.dry_run ≡ true
      → Done x plugin l (dry_run_plugin env x plugin independent p l)
  unfolding dry_run_plugin
  planned-Done l independent p f would dry =
      let q : PluginCycleReport = record p { skip_reason = "dry_run" } in
      let fresh : Fresh plugin q = record {
        name = f.name;
        kind = f.kind;
        held = λ _. inr (inl refl);
        ran = f.ran;
        freed = f.freed;
      } in
      if_both (Done x plugin l) plugin.planner _ _
        (λ _.
          let w = watch_plan env x plugin l in
          let a = apply_watch-Applied env.printer plugin q w.watch fresh would in
          let r =
            planned_appends plugin independent l.report (apply_watch env.printer q w.watch)
              (or_zero no_plan w.result) a.fresh in
          appended_only x plugin l _ r.0 r.1.0
            (Fresh-Fits _ plugin r.0 r.1.1 (λ _ real. absurd (ground (arith, dry, real)))) refl refl
            (not_ran r.0 r.1.1.ran))
        λ _.
          appended_only x plugin l _ q refl
            (Fresh-Fits _ plugin q fresh (λ _ real. absurd (ground (arith, dry, real)))) refl refl
            (not_ran q fresh.ran)
