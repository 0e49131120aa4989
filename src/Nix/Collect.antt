-- ===== src/Nix/Collect.antt =====
-- A poll of the nix plugin: Cleanup, busyGate and runGC (plugins/nix.go).
--
-- The world W is what the commands, the state file and the clock act on. What a command did is the
-- answer of an operation of NixEnv; texts for the log are left out.
pub mod Spacing
pub mod Busy
use tinyland_cleanup.Records.{no_result, CleanupResult}
use tinyland_cleanup.Prelude.{
  join, texts, ◌||◌, Bool, List, Option, String, [], false, if◌then◌else◌, ltb, none, not, pos,
  some, str_eq, true, ℕ, ◌&&◌, ◌++◌, ◌+◌, ◌==◌, ◌∷◌,
}
use tinyland_cleanup.Level.{Level, is_none, level_critical, level_le, level_moderate}
use tinyland_cleanup.Clock.{Time}
use tinyland_cleanup.Nix.{
  GcState, NixConfig, busy_deferral_bound, nix_gc_due, record_attempt, record_deferral,
}

pub data LockAnswer : Type 0 where
  lock_taken lock_held : LockAnswer
  lock_unusable : String → LockAnswer

-- the processes of active Nix work, or the error of the inspection
pub data Inspected : Type 0 where
  active_work : List String → Inspected
  inspection_failed : String → Inspected

-- the dry run of nix-collect-garbage: its error, with whether its output tells of contention, or
-- whether its output tells of no work
pub data Preflight : Type 0 where
  preflight_failed : String → Bool → Preflight
  preflight_done : Bool → Preflight

pub record NixEnv (W : Type 0) : Type 0 where
  pub publish : W → W  -- publishStaleGCRootCandidates
  pub refresh_pins : W → W × Option String
  pub load_state : W → GcState
  pub save_state : GcState → W → W
  pub clock : W → W × Time
  pub is_available : W → Bool
  pub marker : W → Option String  -- nixGCDeferredBy
  pub lock : W → W × LockAnswer
  pub release : W → W
  pub inspect : W → W × Inspected
  pub user_generations : Level → W → W × CleanupResult
  pub home_generations : Level → W → W × CleanupResult
  pub preflight : W → W × Preflight
  pub collect : Level → W → W × CleanupResult

pub record NixPlugin : Type 0 where
  pub mem_state : GcState
  pub last_gc_attempt : Time

pub record Polled (W : Type 0) : Type 0 where
  pub world : W
  pub plugin : NixPlugin
  pub result : CleanupResult

abbrev pub is_some {ℓ} : {A : Type ℓ} → Option A → Bool
is_some none = false
is_some (some a) = true

-- busyGate without its log lines: the state after it, and whether the pass may run
unfoldable pub gate_decision : NixConfig → GcState → Time → Inspected → GcState × Bool
gate_decision cfg st now (active_work []) = (st, true)
gate_decision cfg st now (active_work (process ∷ more)) =
    if busy_deferral_bound cfg st now then (st, true) else (
      record_deferral st now (texts ("active_nix_work: " ∷ join ", " (process ∷ more) ∷ [])),
      false,
    )
gate_decision cfg st now (inspection_failed e) =
    if busy_deferral_bound cfg st now
    then (st, true)
    else (record_deferral st now (texts ("process_inspection_failed: " ∷ e ∷ [])), false)

module _ {W : Type 0} (env : NixEnv W) (cfg : NixConfig) where
  unfoldable pub busy_gate : GcState → W → W × GcState × Bool
  unfolding gate_decision
  busy_gate st w =
      let (w1, now) = env.clock w in
      let (w2, found) = env.inspect w1 in
      let (st', proceed) = gate_decision cfg st now found in (w2, st', proceed)

  -- what a collection adds to the result of runGC
  abbrev collected : ℕ → CleanupResult → CleanupResult
  collected items r = record r {
    estimated_bytes_freed = pos 0;
    items_cleaned = items + r.items_cleaned;
  }

  -- runGC from the preflight on
  unfoldable pub preflight_gc : Level → ℕ → W → W × CleanupResult × Bool
  preflight_gc level items w =
      let (w1, answer) = env.preflight w in
      let counted = record no_result { items_cleaned = items } in
      elim answer [
        | preflight_failed e contention ↦ (
          w1,
          if contention && cfg.skip_when_daemon_busy then counted else record counted {
            error = some (texts ("nix garbage collection preflight failed: " ∷ e ∷ []));
          },
          true,
        )
        | preflight_done no_work ↦
            if no_work
              && items == 0
              && not (level_le level_critical level && cfg.allow_store_optimize)
            then (w1, counted, true)
            else if is_some (env.marker w1) || is_none level
            then (w1, counted, true)
            else let (w2, r) = env.collect level w1 in (w2, collected items r, true)
      ]

  -- runGC after deleteUserGenerationsByPolicy
  unfoldable pub home_gc : Level → ℕ → W → W × CleanupResult × Bool
  home_gc level items w =
      let (w1, home) = env.home_generations level w in
      let all = items + home.items_cleaned in
      if is_some home.error
      then (w1, record no_result { items_cleaned = all; error = home.error }, false)
      else preflight_gc level all w1

  -- runGC at moderate and above
  unfoldable pub user_gc : Level → W → W × CleanupResult × Bool
  user_gc level w =
      let (w1, user) = env.user_generations level w in
      if is_some user.error
      then (w1, record no_result { items_cleaned = user.items_cleaned; error = user.error }, false)
      else home_gc level user.items_cleaned w1

  -- runGC: the result, and whether the pass counts as attempted
  unfoldable pub run_gc : Level → W → W × CleanupResult × Bool
  run_gc level w =
      if not (env.is_available w)
      then (w, no_result, false)
      else if level_le level_moderate level
      then user_gc level w
      else preflight_gc level 0 w

  -- saveState of Cleanup
  unfoldable pub save_gc_state : GcState → NixPlugin → W → W × NixPlugin
  save_gc_state st p w =
      (if str_eq cfg.gc_state_file "" then w else env.save_state st w, record p { mem_state = st })

  abbrev pub saved : GcState → NixPlugin → CleanupResult → W → Polled W
  saved st p r w =
      let (w1, p1) = save_gc_state st p w in record { world = w1; plugin = p1; result = r }

  -- deferUnbypassable
  unfoldable pub defer_pass : GcState → String → NixPlugin → W → Polled W
  defer_pass st reason p w =
      let (w1, now) = env.clock w in saved (record_deferral st now reason) p no_result w1

  -- Cleanup from the call of runGC on
  unfoldable pub gc_pass : Level → GcState → NixPlugin → W → Polled W
  gc_pass gc_level st p w =
      let (w1, r, attempted) = run_gc gc_level w in
      let (w2, now) = env.clock w1 in
      if attempted
      then saved (record_attempt st now) (record p { last_gc_attempt = now }) r w2
      else record { world = w1; plugin = p; result = r }

  unfoldable pub gated_pass : Level → GcState → NixPlugin → W → Polled W
  gated_pass gc_level st p w =
      let (w1, st', proceed) = busy_gate st w in
      if proceed then gc_pass gc_level st' p w1 else saved st' p no_result w1

  -- Cleanup while it holds the lock
  unfoldable pub locked_pass : Level → GcState → NixPlugin → W → Polled W
  locked_pass gc_level st p w =
      if cfg.skip_when_daemon_busy && env.is_available w
      then gated_pass gc_level st p w
      else gc_pass gc_level st p w

  unfoldable pub lock_pass : Level → GcState → NixPlugin → W → LockAnswer → Polled W
  lock_pass gc_level st p w lock_held = defer_pass st "gc_lock_held" p w
  lock_pass gc_level st p w (lock_unusable e) = defer_pass st "gc_lock_unusable" p w
  lock_pass gc_level st p w lock_taken =
      let r = locked_pass gc_level st p w in record r { world = env.release r.world }

  -- Cleanup once a level is due
  unfoldable pub due_pass : Level → Option String → GcState → NixPlugin → W → Polled W
  due_pass gc_level pin_error st p w =
      if not (env.is_available w)
      then defer_pass st "nix_unavailable" p w
      else if is_some pin_error && cfg.hook_pin_required
      then defer_pass st "hook_pins_unavailable" p w
      else elim (env.marker w) [
        | some marker ↦ defer_pass st (texts ("serialized_operation: " ∷ marker ∷ [])) p w
        | none ↦ let (w1, answer) = env.lock w in lock_pass gc_level st p w1 answer
      ]

  -- the state that Cleanup starts from
  unfoldable pub poll_state : NixPlugin → W → GcState
  poll_state p w =
      let st = if str_eq cfg.gc_state_file "" then p.mem_state else env.load_state w in
      if ltb st.last_gc_attempt p.last_gc_attempt
      then record st { last_gc_attempt = p.last_gc_attempt }
      else st

  -- Cleanup
  unfoldable pub poll : Level → NixPlugin → W → Polled W
  poll level p w =
      let (w1, pin_error) = env.refresh_pins (env.publish w) in
      let st = poll_state p w1 in
      let (w2, now) = env.clock w1 in
      let gc_level = (nix_gc_due level cfg st now).0 in
      if is_none gc_level
      then record { world = w2; plugin = p; result = no_result }
      else due_pass gc_level pin_error st p w2
