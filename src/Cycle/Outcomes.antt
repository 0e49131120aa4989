-- ===== src/Cycle/Outcomes.antt =====
-- What one plugin of a cycle does to the cycle's variables.
use tinyland_cleanup.Records.{
  CleanupResult, CleanupState, PluginStateRecord, no_plugin_record, or_zero, plugin_record,
}
use tinyland_cleanup.Level.{Level, value}
use tinyland_cleanup.Cycle.Plugins.{record_run}
use tinyland_cleanup.Prelude.{
  Bool, Option, String, [], arith, false, if_both, leb_ℤ, lookup-insert, lookup-insert_self, not,
  pos, refl, str_eq, true, ℕ, ◌++◌, ◌||◌, ◌∷◌, ◌≡◌, ◌⊎◌,
}
use tinyland_cleanup.Decide.{Plugin, is_ladder_run}
use tinyland_cleanup.State.{
  put_plugin, record_plugin_run, record_plugin_yield, run_record, yield_record,
}
use tinyland_cleanup.Cycle.{Context, Locals}
use tinyland_cleanup.Watchdog.{plugin_wedged}
use tinyland_cleanup.Report.{PluginCycleReport}
use tinyland_cleanup.Clock.{Stamp, Time, format_stamp}
use tinyland_cleanup.Policy.{ZeroYieldPolicy}

-- A record of a run at this level and time.
abbrev pub RanAt : PluginStateRecord → Level → Time → Type 0
RanAt r level now = (r.last_run ≡ format_stamp now) × (r.last_level_value ≡ value level)

abbrev pub HasRun : CleanupState → String → Level → Time → Type 0
HasRun s name level now = RanAt (plugin_record s name) level now

-- Why a level-independent plugin may be skipped: never for its level, cooldown or yield.
abbrev pub NeverHeld : String → Type 0
NeverHeld reason = (reason ≡ "") ⊎ ((reason ≡ "dry_run") ⊎ (reason ≡ plugin_wedged))

-- Run, unless its earlier run was still wedged.
abbrev pub WasTried : PluginCycleReport → Type 0
WasTried q = (q.ran ≡ true) ⊎ (q.skip_reason ≡ plugin_wedged)

abbrev pub FreedNothing : PluginCycleReport → Type 0
FreedNothing q = (q.bytes_freed ≡ pos 0) × (q.items_cleaned ≡ 0)

-- The report of a plugin, as far as it can be told from the plugin alone.
pub record Fits (dry : Bool) (plugin : Plugin) (q : PluginCycleReport) : Type 0 where
  pub name : q.name ≡ plugin.name
  pub kind : q.level_independent ≡ plugin.level_independent
  pub held : q.level_independent ≡ true → NeverHeld q.skip_reason
  pub skipped : q.would_run ≡ false → q.ran ≡ false
  pub cleaned : q.ran ≡ true → dry ≡ false
  pub tried : q.level_independent ≡ true → dry ≡ false → WasTried q
  pub untouched : q.ran ≡ false → FreedNothing q

pub record Done {W : Type 0} (x : Context) (plugin : Plugin) (l l' : Locals W) : Type 0 where
  pub report : PluginCycleReport
  pub appended : l'.report.plugins ≡ l.report.plugins ++ report ∷ []
  pub fits : Fits x.daemon.dry_run plugin report
  pub freed : is_ladder_run report ≡ false → l'.ladder_freed ≡ l.ladder_freed
  pub recorded :
      x.state_ok ≡ true → is_ladder_run report ≡ true → HasRun l'.state plugin.name x.level x.now
  pub others :
      (name : String) → HasRun l.state name x.level x.now → HasRun l'.state name x.level x.now

-- The report of a plugin before anything was decided about it.
pub record Fresh (plugin : Plugin) (p : PluginCycleReport) : Type 0 where
  pub name : p.name ≡ plugin.name
  pub kind : p.level_independent ≡ plugin.level_independent
  pub held : p.level_independent ≡ true → NeverHeld p.skip_reason
  pub ran : p.ran ≡ false
  pub freed : FreedNothing p

HasRun-put :
    (s : CleanupState) (n m : String) (r : PluginStateRecord) (level : Level) (now : Time)
    → RanAt r level now
    → HasRun s m level now
    → HasRun (put_plugin s n r) m level now
HasRun-put s n m r level now h k = rw (lookup-insert n m r s.plugins) (
    if_both (λ (o : Option PluginStateRecord). RanAt (or_zero no_plugin_record o) level now)
      (str_eq n m) _ _ (λ _. h) λ _. k)

HasRun-put_self :
    (s : CleanupState) (n : String) (r : PluginStateRecord) (level : Level) (now : Time)
    → RanAt r level now
    → HasRun (put_plugin s n r) n level now
HasRun-put_self s n r level now h = rw (lookup-insert_self n r s.plugins) h

yield_record-RanAt :
    (r : PluginStateRecord) (zero_yield : Bool) (at : Time) (digest : String) (p : ZeroYieldPolicy)
    (suppressible : Bool) (level : Level) (now : Time)
    → RanAt r level now
    → RanAt (yield_record r zero_yield at digest p suppressible) level now
unfolding yield_record
yield_record-RanAt r zero_yield at digest p suppressible level now h =
    if_both (λ (q : PluginStateRecord). RanAt q level now) (not zero_yield || leb_ℤ p.limit (pos 0))
      _ _ (λ _. h) λ _. h

-- recordRun: the plugin has run now, and so has every other one that had.
pub record_run-HasRun :
    {W : Type 0} (x : Context) (plugin : Plugin) (result : CleanupResult) (l : Locals W)
    (p : PluginCycleReport)
    → let r = (record_run x plugin result l p).0 in
      (x.state_ok ≡ true → HasRun r.state plugin.name x.level x.now)
      × ((name : String) → HasRun l.state name x.level x.now → HasRun r.state name x.level x.now)
unfolding record_run record_plugin_run record_plugin_yield
record_run-HasRun {W} x plugin result l p =
    let s =
      put_plugin l.state plugin.name
        (run_record (plugin_record l.state plugin.name) x.level x.now result) in
    let ran = HasRun-put_self l.state plugin.name _ x.level x.now (refl, refl) in
    let last =
      yield_record-RanAt (plugin_record s plugin.name) _ x.now x.daemon.digest x.zero_yield _
        x.level x.now ran in
    if_both
      (λ (r : Locals W × PluginCycleReport).
        (x.state_ok ≡ true → HasRun r.0.state plugin.name x.level x.now)
        × ((name : String)
            → HasRun l.state name x.level x.now
            → HasRun r.0.state name x.level x.now))
      x.state_ok _ _
      (λ _. (
        λ _. HasRun-put_self s plugin.name _ x.level x.now last,
        λ name h.
            HasRun-put s plugin.name name _ x.level x.now last
              (HasRun-put l.state plugin.name name _ x.level x.now (refl, refl) h),
      ))
      λ bad. (λ ok. absurd (ground (arith, ok, bad)), λ name h. h)

-- and only the plugin's own report changes, in two fields
pub record_run_report :
    {W : Type 0} (x : Context) (plugin : Plugin) (result : CleanupResult) (l : Locals W)
    (p : PluginCycleReport) (M : PluginCycleReport → Type 0)
    → ((count : ℕ) (until : Stamp)
        → M (record p { zero_yield_count = count; suppressed_until = until }))
    → M (record_run x plugin result l p).1
unfolding record_run
record_run_report {W} x plugin result l p M h =
    if_both (λ (r : Locals W × PluginCycleReport). M r.1) x.state_ok _ _ (λ _. h _ _)
      λ _. h p.zero_yield_count p.suppressed_until
