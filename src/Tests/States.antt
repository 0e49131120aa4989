-- ===== src/Tests/States.antt =====
-- Tests: the cleanup state.
use tinyland_cleanup.Prelude.{
  leb, ◌&&◌, String, [], arith, eq_iff, false, is_positive, length, lookup, ltb, min, pos, refl,
  true, ◌*◌, ◌+◌, ◌-◌, ◌^◌, ◌∷◌, ◌≡◌, ◌≢◌,
}
use tinyland_cleanup.Records.{
  no_plugin_record, CleanupState, byte_record, no_byte_record, plugin_record,
}
use tinyland_cleanup.State.{record_plugin_yield, zero_yield_backoff, zero_yield_suppression}
use tinyland_cleanup.State.Progress.{ByteCycle, IsStreak, observe_all, streak_counts}
use tinyland_cleanup.State.Backoff.{zero_yield_backoff_exact}
use tinyland_cleanup.State.Suppress.{retry_time, suppression_until_retry}
use tinyland_cleanup.Level.{level_moderate, level_warning, value}
use tinyland_cleanup.Clock.{format_stamp, hour, minute}
use tinyland_cleanup.Policy.{ZeroYieldPolicy}
use tinyland_cleanup.Samples.{noon}

zero_yield_backoff_exact_example :
    zero_yield_backoff 4 (record {
      limit = pos 2;
      base = pos (30 * minute);
      max = pos (6 * hour);
      pressure_min = pos hour;
    })
    ≡ pos (min (6 * hour) (30 * minute * 2 ^ (4 - 2)))
zero_yield_backoff_exact_example =
    zero_yield_backoff_exact 4 2 (30 * minute) (6 * hour) hour (omega arith) (omega arith)
      (omega arith) (omega arith) (omega arith)

abbrev policy : ZeroYieldPolicy
policy = record {
  limit = pos 2;
  base = pos (30 * minute);
  max = pos (6 * hour);
  pressure_min = pos hour;
}

-- docker freed nothing once, at the critical level
abbrev once_empty : CleanupState
once_empty = record {
  version = 2;
  plugins =
      (
        "docker",
        record no_plugin_record {
          last_run = format_stamp noon;
          last_level_value = 4;
          zero_yield_count = 1;
          config_digest = "d1";
        },
      )
      ∷ [];
  inodes = [];
  bytes = [];
}

same_digest : (plugin_record once_empty "docker").config_digest ≡ "d1"
unfolding lookup
same_digest = refl

suppression_until_retry_example :
    let s' = (record_plugin_yield once_empty "docker" true noon "d1" policy true).0 in
    let count = (plugin_record once_empty "docker").zero_yield_count + 1 in
    ((plugin_record s' "docker").zero_yield_count ≡ count)
    × ((zero_yield_suppression s' "docker" level_warning (noon + minute) "d1").suppressed ≡ (
        is_positive (zero_yield_backoff count policy)
        && ltb (noon + minute) (retry_time noon count policy)
        && leb (value level_warning) (plugin_record once_empty "docker").last_level_value))
suppression_until_retry_example =
    suppression_until_retry once_empty "docker" noon "d1" policy level_warning (noon + minute)
      same_digest refl

abbrev attempt : ByteCycle
attempt = record {
  free_bytes = 1000;
  level = level_moderate;
  now = noon;
  progress = false;
  cleanup_ran = true;
  engaged = false;
}

abbrev pressed : CleanupState
pressed = record {
  version = 2;
  plugins = [];
  inodes = [];
  bytes = ("/data", record no_byte_record { last_level_value = 4; no_progress_count = 1 }) ∷ [];
}

data_named : ◌≢◌ {A = String} "/data" ""
data_named = ground (arith, eq_iff "/data" "")

streak : IsStreak (byte_record pressed "/data").last_level_value (attempt ∷ attempt ∷ [])
unfolding lookup
streak = (refl, omega arith, (refl, omega arith, tt))

streak_counts_example :
    (byte_record (observe_all pressed "/data" (attempt ∷ attempt ∷ [])) "/data").no_progress_count
    ≡ (byte_record pressed "/data").no_progress_count + length (attempt ∷ attempt ∷ [])
streak_counts_example = streak_counts (attempt ∷ attempt ∷ []) pressed "/data" data_named streak
