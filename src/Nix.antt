-- ===== src/Nix.antt =====
-- When the nix plugin collects garbage (plugins/nix_cadence.go, plugins/nix.go), and the part of
-- config.NixConfig that this reads.
--
-- A policy text is kept as what parseNixPolicyDuration makes of it. The state file holds whatever
-- loading it returns: a missing or unreadable file gives the zero nixGCState.
pub mod Collect
pub mod Cadence
pub mod Limit
pub mod Generations
use tinyland_cleanup.Prelude.{
  Bool, String, if◌then◌else◌, is_positive, leb, leb_ℤ, ltb, ltb_ℤ, pos, ℕ, ℤ, ◌&&◌, ◌*◌, ◌+◌, ◌==◌,
  ◌||◌,
}
use tinyland_cleanup.Level.{Level, level_le, level_none, level_warning}
use tinyland_cleanup.Clock.{Duration, Time, hour, int64, max_int64, minute, sub_time}

-- a Go duration, a count of days or weeks, another text, or nothing
pub data PolicyText : Type 0 where
  empty_policy : PolicyText
  go_duration : Duration → PolicyText
  days : ℕ → PolicyText
  weeks : ℕ → PolicyText
  other_policy : PolicyText

-- time.Duration(value) * unit, for a value that strconv.Atoi read
scaled : ℕ → ℕ → Duration → Duration
scaled n unit fallback = if leb n max_int64 then int64 (pos (n * unit)) else fallback

unfoldable pub parse_nix_policy_duration : PolicyText → Duration → Duration
unfolding scaled
parse_nix_policy_duration empty_policy fallback = fallback
parse_nix_policy_duration (go_duration d) fallback = d
parse_nix_policy_duration (days n) fallback = scaled n (24 * hour) fallback
parse_nix_policy_duration (weeks n) fallback = scaled n (7 * 24 * hour) fallback
parse_nix_policy_duration other_policy fallback = fallback

pub record NixConfig : Type 0 where
  pub min_gc_interval : PolicyText
  pub periodic_gc_interval : PolicyText
  pub max_busy_deferrals : ℤ  -- int
  pub max_busy_deferral_duration : PolicyText
  pub skip_when_daemon_busy : Bool
  pub hook_pin_required : Bool
  pub gc_state_file : String
  pub allow_store_optimize : Bool

abbrev pub nix_default_min_gc_interval : Duration
nix_default_min_gc_interval = pos (30 * minute)

-- nixGCState
pub record GcState : Type 0 where
  pub last_gc_attempt : Time
  pub deferred_passes : ℕ
  pub first_deferred_at : Time
  pub last_deferral : String

unfoldable pub record_deferral : GcState → Time → String → GcState
record_deferral st now reason = record st {
  first_deferred_at =
      if st.deferred_passes == 0 || st.first_deferred_at == 0 then now else st.first_deferred_at;
  deferred_passes = st.deferred_passes + 1;
  last_deferral = reason;
}

unfoldable pub record_attempt : GcState → Time → GcState
record_attempt st now = record {
  last_gc_attempt = now;
  deferred_passes = 0;
  first_deferred_at = 0;
  last_deferral = "";
}

-- the first result of nixBusyDeferralBound; the second is a text for the log
unfoldable pub busy_deferral_bound : NixConfig → GcState → Time → Bool
busy_deferral_bound cfg st now =
    let limit = parse_nix_policy_duration cfg.max_busy_deferral_duration (pos 0) in
    (is_positive cfg.max_busy_deferrals && leb_ℤ cfg.max_busy_deferrals (pos st.deferred_passes))
    || (is_positive limit
        && ltb 0 st.deferred_passes
        && ltb 0 st.first_deferred_at
        && leb_ℤ limit (sub_time now st.first_deferred_at))

abbrev pub min_gap : NixConfig → Duration
min_gap cfg = parse_nix_policy_duration cfg.min_gc_interval nix_default_min_gc_interval

abbrev pub periodic_gap : NixConfig → Duration
periodic_gap cfg = parse_nix_policy_duration cfg.periodic_gc_interval (pos 0)

-- nixGCDue
unfoldable pub nix_gc_due : Level → NixConfig → GcState → Time → Level × String
nix_gc_due level cfg st now =
    let since = sub_time now st.last_gc_attempt in
    if ltb 0 st.last_gc_attempt && is_positive (min_gap cfg) && ltb_ℤ since (min_gap cfg)
    then (level_none, "min_gc_interval")
    else if level_le level_warning level
    then (level, "pressure")
    else if is_positive (periodic_gap cfg)
        && (st.last_gc_attempt == 0 || leb_ℤ (periodic_gap cfg) since)
    then (level_warning, "periodic")
    else (level_none, "not_due")
