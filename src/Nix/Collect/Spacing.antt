-- ===== src/Nix/Collect/Spacing.antt =====
-- How far apart collections are.
use tinyland_cleanup.Records.{no_result}
use tinyland_cleanup.Nix.Collect.{NixEnv, NixPlugin, poll, poll_state}
use tinyland_cleanup.Nix.Cadence.{not_due, sub_time_antitone}
use tinyland_cleanup.Prelude.{arith, false, is_positive, ltb_ℤ, refl, str_eq, true, ◌<◌, ◌≡◌, ◌≤◌}
use tinyland_cleanup.Level.{Level}
use tinyland_cleanup.Clock.{Time, sub_time}
use tinyland_cleanup.Nix.{NixConfig, min_gap}

module _ {W : Type 0} (env : NixEnv W) (cfg : NixConfig) (p : NixPlugin) (w : W) where
  -- the world in which a poll loads the state and reads the clock
  abbrev pub polled : W
  polled = (env.refresh_pins (env.publish w)).0

  -- The times of the last attempt that a poll knows: its own, and that of the state file, if there
  -- is one.
  pub data Attempt : Time → Type 0 where
    remembered : {t : Time} → t ≡ p.last_gc_attempt → Attempt t
    in_file :
        {t : Time}
        → str_eq cfg.gc_state_file "" ≡ false
        → t ≡ (env.load_state polled).last_gc_attempt
        → Attempt t

  Attempt-le : {t : Time} → Attempt t → t ≤ (poll_state env cfg p polled).last_gc_attempt
  unfolding poll_state
  Attempt-le (remembered h) = ground (arith, h)
  Attempt-le (in_file f h) = ground (arith, f, h)

  -- A poll within min_gc_interval of an attempt, be it one that the plugin remembers or one that the
  -- state file holds, does nothing but publish candidates, refresh the pins and read the clock,
  -- whatever the level.
  pub waits_out_the_gap :
      (level : Level) (t : Time)
      → Attempt t
      → 0 < t
      → is_positive (min_gap cfg) ≡ true
      → ltb_ℤ (sub_time (env.clock polled).1 t) (min_gap cfg) ≡ true
      → poll env cfg level p w
        ≡ record { world = (env.clock polled).0; plugin = p; result = no_result }
  unfolding poll
  waits_out_the_gap level t a h g k =
      let st = poll_state env cfg p polled in
      let le = Attempt-le a in
      let due =
        not_due level cfg st (env.clock polled).1 (omega arith)
          (sub_time_antitone _ t st.last_gc_attempt (min_gap cfg) le k) g in
      rw due refl
