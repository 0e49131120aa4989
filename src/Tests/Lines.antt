-- ===== src/Tests/Lines.antt =====
-- Tests: the log throttle and the registry.
use tinyland_cleanup.Prelude.{
  Bool, Option, insert, none, refl, some, true, ◌≢◌, List, lookup, [], arith, false, length, pos,
  ◌+◌, ◌∷◌, ◌≡◌, ◌≤◌,
}
use tinyland_cleanup.Throttle.Repeats.{
  IsNeverEvicted, Line, accounted, decide_all, held_back, with_key, repeats_accounted,
}
use tinyland_cleanup.Throttle.{
  decide_entry, decide_with, evict, window_for, LogThrottle, ThrottleEntry, decide,
}
use tinyland_cleanup.Clock.{sub_time, hour, minute}
use tinyland_cleanup.Throttle.Bounded.{decide-bounded}
use tinyland_cleanup.Registry.Selected.{Selected, selection-Selected}
use tinyland_cleanup.Registry.{filter_enabled_plugins, get_enabled}
use tinyland_cleanup.Samples.{bazel, docker, noon}

abbrev entry : ThrottleEntry
entry = record { fingerprint = 7; last_emit = noon; suppressed = 2 }

abbrev throttle : LogThrottle
throttle = record { window = pos hour; max_keys = 1; entries = ("disk", entry) ∷ [] }

-- A new line evicts the only entry.
decide-bounded_example :
    let t' = (decide throttle "cycle" 9 false noon).0 in
    (length t'.entries ≤ 1) × (t'.max_keys ≡ 1) × (t'.window ≡ pos hour)
decide-bounded_example = decide-bounded throttle "cycle" 9 false noon (omega arith) (omega arith)

abbrev wide : LogThrottle
wide = record throttle { max_keys = 8 }

abbrev lines : List Line
lines =
    record { key = "disk"; fingerprint = 7; is_error = false; now = noon + minute }
    ∷ record { key = "cycle"; fingerprint = 3; is_error = false; now = noon + minute }
    ∷ record { key = "disk"; fingerprint = 8; is_error = false; now = noon + minute }
    ∷ []

abbrev has_entry : Option ThrottleEntry → Bool
has_entry none = false
has_entry (some e) = true

present : (o : Option ThrottleEntry) → has_entry o ≡ true → o ≢ none
present none h = absurd (ground (arith, h))
present (some e) h = λ gone. ground (arith, gone)

lines_fit : IsNeverEvicted "disk" wide lines
unfolding decide decide_with decide_entry window_for evict lookup insert sub_time
lines_fit = (λ _. present _ refl, (λ _. present _ refl, (λ _. present _ refl, tt)))

repeats_accounted_example :
    accounted "disk" wide lines + held_back "disk" (decide_all wide lines)
    ≡ held_back "disk" wide + with_key "disk" lines
repeats_accounted_example = repeats_accounted "disk" wide lines lines_fit

selection-Selected_example :
    Selected "linux"
      ("bazel" ∷ [])
      (docker ∷ bazel ∷ [])
      (filter_enabled_plugins (get_enabled "linux" (docker ∷ bazel ∷ [])) ("bazel" ∷ []))
selection-Selected_example = selection-Selected "linux" (docker ∷ bazel ∷ []) ("bazel" ∷ [])
