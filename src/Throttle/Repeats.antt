-- ===== src/Throttle/Repeats.antt =====
-- What the throttle holds back.
use tinyland_cleanup.Prelude.{
  Bool-cases, Dict, Option, ap, eq_iff, lines, lookup-delete, lookup-insert_ne, lookup-insert_self,
  ltb, none, str_eq, sym, true, ◌&&◌, ◌∙◌, ◌≢◌, Bool, List, Option-cases, String, [], arith, false,
  if_both, if◌then◌else◌, inl, inr, leb_ℤ, length, lookup, not, refl, some, ℕ, ◌+◌, ◌==◌, ◌||◌, ◌∷◌,
  ◌≡◌,
}
use tinyland_cleanup.ScanBudget.Rotation.{window}
use tinyland_cleanup.Throttle.{
  emit_now, evict, oldest_key, Decision, LogThrottle, ThrottleEntry, decide, decide_entry,
  decide_with, window_for,
}
use tinyland_cleanup.Clock.{Duration, Time, sub_time}

-- The throttle has a line with this identity and content that it emitted less than a window ago.
abbrev pub IsRepeat : LogThrottle → String → ℕ → Bool → Time → Type 0
IsRepeat t key fingerprint is_error now =
    (e : ThrottleEntry) × ((lookup key t.entries ≡ some e)
      × ((e.fingerprint ≡ fingerprint)
          × (leb_ℤ (window_for t is_error) (sub_time now e.last_emit) ≡ false)))

-- A line, as decide is called for it.
pub record Line : Type 0 where
  pub key : String
  pub fingerprint : ℕ
  pub is_error : Bool
  pub now : Time

abbrev pub decide_line : LogThrottle → Line → LogThrottle × Decision
decide_line t line = decide t line.key line.fingerprint line.is_error line.now

-- the lines with a key
abbrev pub with_key : String → List Line → ℕ
with_key key [] = 0
with_key key (line ∷ lines) = (if str_eq line.key key then 1 else 0) + with_key key lines

-- the lines with a key that went out, with the copies that they stand for
abbrev pub accounted : String → LogThrottle → List Line → ℕ
accounted key t [] = 0
accounted key t (line ∷ lines) =
    let (t', d) = decide_line t line in
    (if str_eq line.key key && d.emitted then 1 + d.held else 0) + accounted key t' lines

abbrev pub decide_all : LogThrottle → List Line → LogThrottle
decide_all t [] = t
decide_all t (line ∷ lines) = decide_all (decide_line t line).0 lines

abbrev suppressed_in : Option ThrottleEntry → ℕ
suppressed_in none = 0
suppressed_in (some e) = e.suppressed

-- the copies of a key that are held back
abbrev pub held_back : String → LogThrottle → ℕ
held_back key t = suppressed_in (lookup key t.entries)

-- No line makes the throttle evict the entry of the key.
abbrev pub IsNeverEvicted : String → LogThrottle → List Line → Type 0
IsNeverEvicted key t [] = Unit {0}
IsNeverEvicted key t (line ∷ lines) =
    let t' = (decide_line t line).0 in
    (lookup key t.entries ≢ none → lookup key t'.entries ≢ none) × IsNeverEvicted key t' lines

decide_entry_accounted :
    (e : ThrottleEntry) (fingerprint : ℕ) (window : Duration) (now : Time)
    → let d = decide_entry e fingerprint window now in
      (if d.emitted then 1 + d.held else 0) + d.entry.suppressed ≡ e.suppressed + 1
unfolding decide_entry
decide_entry_accounted e fingerprint window now =
    if_both
      (λ (d : Decision).
        (if d.emitted then 1 + d.held else 0) + d.entry.suppressed ≡ e.suppressed + 1)
      (not (e.fingerprint == fingerprint) || leb_ℤ window (sub_time now e.last_emit)) _ _
      (λ _. omega arith) λ _. omega arith

-- A line with the key goes out or is held back.
own_line :
    (key : String) (t : LogThrottle) (line : Line)
    → line.key ≡ key
    → let r = decide_line t line in
      (if r.1.emitted then 1 + r.1.held else 0) + held_back key r.0 ≡ held_back key t + 1
unfolding decide decide_with
own_line key t line same = elim (Option-cases (lookup key t.entries)) [
  | inl new ↦ rw (same, new) (ap (λ o. 1 + 0 + suppressed_in o) (lookup-insert_self key _ _))
  | inr (e, old) ↦
      let d = decide_entry e line.fingerprint (window_for t line.is_error) line.now in
      rw (same, old)
        (ap (λ o. (if d.emitted then 1 + d.held else 0) + suppressed_in o)
            (lookup-insert_self key d.entry t.entries)
          ∙ decide_entry_accounted e line.fingerprint (window_for t line.is_error) line.now)
]

evicted_or_same :
    (key : String) (max_keys : ℕ) (m : Dict ThrottleEntry)
    → (lookup key m ≢ none → lookup key (evict max_keys m) ≢ none)
    → lookup key (evict max_keys m) ≡ lookup key m
unfolding evict
evicted_or_same key max_keys m stays =
    let oldest = oldest_key "" 0 m in
    (if_both
        (λ (m' : Dict ThrottleEntry).
          (lookup key m ≢ none → lookup key m' ≢ none) → lookup key m' ≡ lookup key m)
        (ltb (length m) max_keys) _ _ (λ _ _. refl)
        λ _ there. elim (Option-cases (lookup key m)) [
          | inl gone ↦
              lookup-delete oldest key m ∙ gone_both (str_eq oldest key) (lookup key m) gone
          | inr (e, old) ↦
              lookup-delete oldest key m
              ∙ kept (str_eq oldest key) (lookup key m) (λ none_left.
                there (λ no. absurd (ground (arith, old, no)))
                  (lookup-delete oldest key m ∙ none_left))
        ])
      stays
  where
    gone_both : (b : Bool) (o : Option ThrottleEntry) → o ≡ none → (if b then none else o) ≡ o
    gone_both true o e = sym e
    gone_both false o e = refl

    kept :
        (b : Bool) (o : Option ThrottleEntry)
        → (if b then none else o) ≢ none
        → (if b then none else o) ≡ o
    kept true o h = absurd (h refl)
    kept false o h = refl

-- A line with another key leaves the copies of this one, unless it evicts its entry.
other_line :
    (key : String) (t : LogThrottle) (line : Line)
    → line.key ≢ key
    → (lookup key t.entries ≢ none → lookup key (decide_line t line).0.entries ≢ none)
    → held_back key (decide_line t line).0 ≡ held_back key t
unfolding decide decide_with
other_line key t line apart stays = elim (Option-cases (lookup line.key t.entries)) [
  | inl new ↦
      let put = emit_now line.fingerprint line.now 0 in
      let left = evict t.max_keys t.entries in
      let same = lookup-insert_ne line.key key put.entry left apart in
      rw new (
        ap suppressed_in (
          same
          ∙ evicted_or_same key t.max_keys t.entries
              (λ there gone. (rw new at stays) there (same ∙ gone))))
  | inr (e, old) ↦ rw old (ap suppressed_in (lookup-insert_ne line.key key _ t.entries apart))
]

-- Of the lines with a key none is lost while the throttle never evicts the key's entry, whatever
-- other lines come in between: the lines emitted, the copies that these report and those still held
-- back add up to the lines that came and those held back before.
pub repeats_accounted :
    (key : String) (t : LogThrottle) (lines : List Line)
    → IsNeverEvicted key t lines
    → accounted key t lines + held_back key (decide_all t lines)
      ≡ held_back key t + with_key key lines
repeats_accounted key t [] stays = omega arith
repeats_accounted key t (line ∷ lines) stays =
    let t' = (decide_line t line).0 in
    let rest = repeats_accounted key t' lines stays.1 in
    elim (Bool-cases (str_eq line.key key)) [
      | inl e ↦
          let own = own_line key t line ((eq_iff line.key key).0 e) in
          rw e (omega (arith, own, rest))
      | inr e ↦
          let other =
            other_line key t line (λ same. absurd (ground (arith, e, eq_iff line.key key, same)))
              stays.0 in
          rw e (omega (arith, other, rest))
    ]
