-- ===== src/Policy.antt =====
-- The policy that the daemon resolves from its config (main.go, watchdog.go). A daemon's config is
-- never nil once main has loaded it, so the branches for a nil config are left out.
pub mod Intervals
use tinyland_cleanup.Prelude.{
  Option, String, false, if◌then◌else◌, is_positive, is_word, leb_ℤ, lookup, ltb_ℤ, none, not, pos,
  pos_part, some, str_eq, suc, true, zero, ℕ, ℤ, ◌%◌, ◌&&◌, ◌*◌, ◌+ℤ◌, ◌-ℤ◌, ◌-◌, ◌/◌, ◌==◌, ◌^◌,
  ◌||◌,
}
use tinyland_cleanup.Config.{Config}
use tinyland_cleanup.Level.{Level, level_aggressive, level_critical, level_moderate, level_warning}
use tinyland_cleanup.Clock.{Duration, DurationText, hour, int64, minute, second, text_of}

-- ParsePolicyDuration's and time.ParseDuration's common use: a duration that reads and is positive.
abbrev pub positive_duration : DurationText → Duration → Duration
positive_duration raw fallback = elim raw [
  | text_of d ↦ if is_positive d then d else fallback
  | _ ↦ fallback
]

abbrev pub seconds : ℕ → Duration
seconds n = pos (n * second)

-- interval := time.Duration(PollInterval) * time.Second, where the product is an int64; a second if
-- the setting is not positive
unfoldable pub poll_interval : Config → Duration
poll_interval c =
    if is_positive c.poll_interval then int64 (seconds (pos_part c.poll_interval)) else pos second

unfoldable pub cleanup_cooldown : Config → Duration
cleanup_cooldown c = elim c.policy.cooldown [
  | text_of d ↦ if ltb_ℤ d (pos 0) then pos 0 else d
  | _ ↦ pos 0
]

unfoldable pub byte_no_progress_limit : Config → ℤ
byte_no_progress_limit c =
    if leb_ℤ c.policy.byte_no_progress_limit (pos 0)
      && leb_ℤ (pos 0) c.policy.byte_no_progress_limit
    then pos 3
    else c.policy.byte_no_progress_limit

unfoldable pub byte_progress_min_bytes : Config → ℤ
byte_progress_min_bytes c =
    let mb =
      if is_positive c.policy.byte_progress_min_mb
      then pos_part c.policy.byte_progress_min_mb
      else 256 in
    int64 (pos (mb * 1024 * 1024))

unfoldable pub byte_backoff_max : Config → Duration
byte_backoff_max c = positive_duration c.policy.byte_backoff_max (pos (30 * minute))

unfoldable pub byte_backoff_interval : Config → Duration
byte_backoff_interval c =
    let limit = byte_backoff_max c in
    let cooldown = cleanup_cooldown c in
    if leb_ℤ cooldown (pos 0) || ltb_ℤ limit cooldown then limit else cooldown

-- `for steps := ...; steps > 0 && interval < limit; steps-- { interval *= 2 }`
unfoldable pub double_below : ℕ → Duration → Duration → Duration
double_below zero interval limit = interval
double_below (suc steps) interval limit = elim (ltb_ℤ interval limit) [
  | true ↦ double_below steps (int64 (interval +ℤ interval)) limit
  | false ↦ interval
]

unfoldable pub byte_backoff_interval_for : Config → ℕ → Duration
unfolding double_below
byte_backoff_interval_for c no_progress =
    let limit = byte_backoff_max c in
    let steps = pos no_progress -ℤ byte_no_progress_limit c in
    let interval = double_below (pos_part steps) (byte_backoff_interval c) limit in
    if ltb_ℤ limit interval then limit else interval

-- uint64(gb) * 1024 * 1024 * 1024, 0 if not positive
abbrev pub gb_bytes : ℤ → ℕ
gb_bytes gb = if is_positive gb then pos_part gb * 1024 * 1024 * 1024 % 2 ^ 64 else 0

unfoldable pub emergency_free_bytes : Config → ℕ
emergency_free_bytes c = gb_bytes c.policy.emergency_free_gb

unfoldable pub minimum_free_bytes : Config → ℕ
minimum_free_bytes c = gb_bytes c.policy.minimum_free_gb

unfoldable pub inode_no_progress_limit : Config → ℕ
inode_no_progress_limit c =
    if is_positive c.policy.inode_no_progress_limit
    then pos_part c.policy.inode_no_progress_limit
    else 3

unfoldable pub cooldown_bypass_level : Config → Level
unfolding is_word
cooldown_bypass_level c =
    let raw = c.policy.cooldown_bypass_level in
    if is_word "warning" raw
    then level_warning
    else if is_word "moderate" raw
    then level_moderate
    else if is_word "aggressive" raw
    then level_aggressive
    else level_critical

pub record ZeroYieldPolicy : Type 0 where
  pub limit : ℤ
  pub base : Duration
  pub max : Duration
  pub pressure_min : Duration

abbrev pub at_least : Duration → Duration → Duration
at_least floor d = if ltb_ℤ d floor then floor else d

unfoldable pub zero_yield_policy : Config → ZeroYieldPolicy
zero_yield_policy c =
    let p = c.policy in
    let base = positive_duration p.zero_yield_backoff_base (pos (30 * minute)) in
    record {
      limit =
          if ltb_ℤ p.zero_yield_limit (pos 0)
          then pos 0
          else if is_positive p.zero_yield_limit
          then p.zero_yield_limit
          else pos 2;
      base = base;
      max = at_least base (positive_duration p.zero_yield_backoff_max (pos (6 * hour)));
      pressure_min =
          at_least (pos (5 * minute))
            (positive_duration p.zero_yield_pressure_min_interval (pos hour));
    }

-- the free space that a maximum used percentage asks for; the product is an uint64
unfoldable pub target_free_bytes : ℕ → ℤ → Option ℕ
target_free_bytes total target_used =
    if total == 0 || leb_ℤ target_used (pos 0) || leb_ℤ (pos 100) target_used
    then none
    else some (total * (100 - pos_part target_used) % 2 ^ 64 / 100)

unfoldable pub parse_policy_duration : DurationText → Duration → Duration
parse_policy_duration raw fallback = positive_duration raw fallback

-- the watchdog deadline of one plugin; 45m by default
unfoldable pub plugin_timeout : Config → String → Duration
unfolding parse_policy_duration lookup
plugin_timeout c name =
    let fallback = parse_policy_duration c.policy.plugin_timeout (pos (45 * minute)) in
    elim (lookup name c.policy.plugin_timeouts) [
      | some raw ↦ parse_policy_duration raw fallback
      | none ↦ fallback
    ]

-- the deadlines of probe and reclaim commands; 60s and 15m by default
unfoldable pub exec_timeouts : Config → String → Duration × Duration
unfolding parse_policy_duration lookup
exec_timeouts c name =
    let probe = parse_policy_duration c.policy.exec_timeout (pos (60 * second)) in
    let reclaim = parse_policy_duration c.policy.exec_reclaim_timeout (pos (15 * minute)) in
    elim (lookup name c.policy.exec_timeouts) [
      | some raw ↦ (parse_policy_duration raw probe, reclaim)
      | none ↦ (probe, reclaim)
    ]

-- The soft memory limit in bytes, 0 for none; `go_mem_limit` is the environment's GOMEMLIMIT.
unfoldable pub memory_limit : Config → String → ℤ
memory_limit c go_mem_limit =
    let mb = c.policy.memory_limit_mb in
    if not (str_eq go_mem_limit "")
    then pos 0
    else if ltb_ℤ mb (pos 0)
    then pos 0
    else int64 (pos ((if is_positive mb then pos_part mb else 256) * 1024 * 1024))
