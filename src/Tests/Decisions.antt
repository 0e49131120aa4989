-- ===== src/Tests/Decisions.antt =====
-- Tests: the decisions.
use tinyland_cleanup.Prelude.{eq_iff, List, [], arith, true, ◌*◌, ◌+◌, ◌^◌, ◌∷◌, ◌≡◌, ◌⊎◌}
use tinyland_cleanup.Decide.Holding.{IsStuck, byte_backoff_sound}
use tinyland_cleanup.Decide.Retry.{Among, NoTimes, NotAfter, next_retry_at_earliest, retry_times}
use tinyland_cleanup.Decide.{byte_backoff_active, next_retry_at}
use tinyland_cleanup.Level.{parse_level}
use tinyland_cleanup.Report.{CycleReport, PluginCycleReport, no_report, no_plugin_report}
use tinyland_cleanup.Clock.{Time, format_stamp, hour, minute, no_stamp}
use tinyland_cleanup.Policy.{byte_no_progress_limit, emergency_free_bytes}
use tinyland_cleanup.Samples.{noon, sample_config}

abbrev stuck_report : CycleReport
stuck_report = record no_report {
  host_byte_level = "critical";
  byte_no_progress_count = 3;
  host_free_before_bytes = 100 * 1024 ^ 3;
}

engaged : (byte_backoff_active sample_config stuck_report).0 ≡ true
unfolding byte_backoff_active byte_no_progress_limit emergency_free_bytes parse_level
engaged = ground (arith, eq_iff "critical" "")

byte_backoff_sound_example : IsStuck sample_config stuck_report
byte_backoff_sound_example = byte_backoff_sound sample_config stuck_report engaged

abbrev held_reports : List PluginCycleReport
held_reports =
    record no_plugin_report { name = "docker"; retry_at = format_stamp (noon + hour) }
    ∷ record no_plugin_report { name = "nix"; suppressed_until = format_stamp (noon + minute) }
    ∷ []

next_retry_at_earliest_example :
    ((t : Time) × (next_retry_at held_reports ≡ format_stamp t)
      × Among t (retry_times held_reports)
      × NotAfter t (retry_times held_reports))
    ⊎ ((next_retry_at held_reports ≡ no_stamp) × NoTimes (retry_times held_reports))
next_retry_at_earliest_example =
    next_retry_at_earliest held_reports (omega arith, (omega arith, tt))
