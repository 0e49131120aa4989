-- ===== src/Decide/Retry.antt =====
-- The next retry time is the earliest one (main.go: nextRetryAt).
use tinyland_cleanup.Prelude.{
  Bool-cases, ap, arith, if◌then◌else◌, inl, inr, ltb, sym, ◌==◌, ◌||◌, ◌∙◌, List, [], refl, ◌<◌,
  ◌∷◌, ◌≡◌, ◌≤◌, ◌⊎◌,
}
use tinyland_cleanup.Decide.{next_retry_at, earlier, earliest_retry}
use tinyland_cleanup.Clock.{format_stamp, Stamp, Time, at_time, bad_stamp, no_stamp}
use native.Mathlib.Nat.{le_trans}
use tinyland_cleanup.Report.{PluginCycleReport}

-- The times of a report's plugins, in the order in which they are read.
abbrev pub retry_times : List PluginCycleReport → List Stamp
retry_times [] = []
retry_times (p ∷ ps) = p.retry_at ∷ p.suppressed_until ∷ retry_times ps

abbrev pub fold_times : Time → List Stamp → Time
fold_times t [] = t
fold_times t (s ∷ ss) = fold_times (earlier t s) ss

earliest_retry-eq :
    (t : Time) (ps : List PluginCycleReport) → earliest_retry t ps ≡ fold_times t (retry_times ps)
unfolding earliest_retry
earliest_retry-eq t [] = refl
earliest_retry-eq t (p ∷ ps) =
    earliest_retry-eq (earlier (earlier t p.retry_at) p.suppressed_until) ps

-- `t` is at or before every time of the list, where one is not the zero Time.
abbrev pub NotAfter : Time → List Stamp → Type 0
NotAfter t [] = Unit {0}
NotAfter t (at_time x ∷ ss) = (0 < x → t ≤ x) × NotAfter t ss
NotAfter t (no_stamp ∷ ss) = NotAfter t ss
NotAfter t (bad_stamp ∷ ss) = NotAfter t ss

abbrev pub Among : Time → List Stamp → Type 0
Among t [] = ⊥
Among t (s ∷ ss) = (s ≡ at_time t) ⊎ Among t ss

-- All readable times are set; the zero Time is no retry time.
abbrev pub AllSet : List Stamp → Type 0
AllSet [] = Unit {0}
AllSet (at_time x ∷ ss) = (0 < x) × AllSet ss
AllSet (no_stamp ∷ ss) = AllSet ss
AllSet (bad_stamp ∷ ss) = AllSet ss

abbrev pick : Time → Time → Time
pick t x = if t == 0 || ltb x t then x else t

pick_lem : (t x : Time) → 0 < x → (0 < pick t x) × (pick t x ≤ x) × (0 < t → pick t x ≤ t)
pick_lem t x h = ground arith

fold_times_le :
    (t : Time) (ss : List Stamp) → AllSet ss → 0 < t → (fold_times t ss ≤ t) × (0 < fold_times t ss)
fold_times_le t [] h k = omega arith
fold_times_le t (no_stamp ∷ ss) h k = fold_times_le t ss h k
fold_times_le t (bad_stamp ∷ ss) h k = fold_times_le t ss h k
fold_times_le t (at_time x ∷ ss) h k =
    let (p, q, r) = pick_lem t x h.0 in
    let (below, set) = fold_times_le (pick t x) ss h.1 p in (le_trans below (r k), set)

fold_times-NotAfter : (t : Time) (ss : List Stamp) → AllSet ss → NotAfter (fold_times t ss) ss
fold_times-NotAfter t [] h = tt
fold_times-NotAfter t (no_stamp ∷ ss) h = fold_times-NotAfter t ss h
fold_times-NotAfter t (bad_stamp ∷ ss) h = fold_times-NotAfter t ss h
fold_times-NotAfter t (at_time x ∷ ss) h =
    let (p, q, r) = pick_lem t x h.0 in
    (λ _. le_trans (fold_times_le (pick t x) ss h.1 p).0 q, fold_times-NotAfter (pick t x) ss h.1)

fold_times-Among :
    (t : Time) (ss : List Stamp)
    → 0 < fold_times t ss
    → (fold_times t ss ≡ t) ⊎ Among (fold_times t ss) ss
fold_times-Among t [] h = inl refl
fold_times-Among t (no_stamp ∷ ss) h = widen (fold_times-Among t ss h)
  where
    widen :
        (fold_times t ss ≡ t) ⊎ Among (fold_times t ss) ss
        → (fold_times t ss ≡ t) ⊎ Among (fold_times t ss) (no_stamp ∷ ss)
    widen (inl e) = inl e
    widen (inr m) = inr (inr m)
fold_times-Among t (bad_stamp ∷ ss) h = widen (fold_times-Among t ss h)
  where
    widen :
        (fold_times t ss ≡ t) ⊎ Among (fold_times t ss) ss
        → (fold_times t ss ≡ t) ⊎ Among (fold_times t ss) (bad_stamp ∷ ss)
    widen (inl e) = inl e
    widen (inr m) = inr (inr m)
fold_times-Among t (at_time x ∷ ss) h = widen (fold_times-Among (pick t x) ss h)
  where
    widen :
        (fold_times (pick t x) ss ≡ pick t x) ⊎ Among (fold_times (pick t x) ss) ss
        → (fold_times (pick t x) ss ≡ t) ⊎ Among (fold_times (pick t x) ss) (at_time x ∷ ss)
    widen (inr m) = inr (inr m)
    widen (inl e) = elim (Bool-cases (t == 0 || ltb x t)) [
      | inl taken ↦ inr (inl (ap at_time (sym (e ∙ ground arith))))
      | inr kept ↦ inl (e ∙ ground arith)
    ]

-- No readable time at all.
abbrev pub NoTimes : List Stamp → Type 0
NoTimes [] = Unit {0}
NoTimes (at_time x ∷ ss) = ⊥
NoTimes (no_stamp ∷ ss) = NoTimes ss
NoTimes (bad_stamp ∷ ss) = NoTimes ss

fold_times-NoTimes : (ss : List Stamp) → AllSet ss → fold_times 0 ss ≡ 0 → NoTimes ss
fold_times-NoTimes [] h e = tt
fold_times-NoTimes (no_stamp ∷ ss) h e = fold_times-NoTimes ss h e
fold_times-NoTimes (bad_stamp ∷ ss) h e = fold_times-NoTimes ss h e
fold_times-NoTimes (at_time x ∷ ss) h e =
    let (p, q, r) = pick_lem 0 x h.0 in
    let (below, set) = fold_times_le (pick 0 x) ss h.1 p in absurd (omega arith)

Among-fold : (t : Time) (ss : List Stamp) → fold_times 0 ss ≡ t → 0 < t → Among t ss
Among-fold t ss e k = elim (fold_times-Among 0 ss (rw e k)) [
  | inl z ↦ absurd (omega arith)
  | inr m ↦ rw e at m
]

-- The next retry time is the earliest retry or suppression time that a plugin's report carries, to
-- the second, and it is empty exactly where no report carries one. Times are taken to be after the
-- zero Time.
pub next_retry_at_earliest :
    (ps : List PluginCycleReport)
    → AllSet (retry_times ps)
    → ((t : Time) × (next_retry_at ps ≡ format_stamp t)
        × Among t (retry_times ps)
        × NotAfter t (retry_times ps))
      ⊎ ((next_retry_at ps ≡ no_stamp) × NoTimes (retry_times ps))
unfolding next_retry_at
next_retry_at_earliest ps h = elim (Bool-cases (earliest_retry 0 ps == 0)) [
  | inl absent ↦ inr (
    ground arith,
    fold_times-NoTimes (retry_times ps) h (sym (earliest_retry-eq 0 ps) ∙ ground arith),
  )
  | inr found ↦ inl (
    earliest_retry 0 ps,
    ground arith,
    Among-fold (earliest_retry 0 ps) (retry_times ps) (sym (earliest_retry-eq 0 ps)) (ground arith),
    rw (← earliest_retry-eq 0 ps) at (fold_times-NotAfter 0 (retry_times ps) h),
  )
]
