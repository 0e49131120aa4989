-- ===== src/Throttle/Bounded.antt =====
-- The throttle never holds more entries than its bound.
use tinyland_cleanup.Prelude.{
  Bool, Option-cases, eq_iff, if_both, ltb, ltb→lt, ℕ, ◌||◌, Bool-cases, Dict, String, [], arith,
  delete, inl, inr, insert, length, lookup, none, refl, some, str_eq, ◌+◌, ◌<◌, ◌∷◌, ◌≡◌, ◌≢◌, ◌≤◌,
  ◌⊎◌,
}
use tinyland_cleanup.Throttle.{
  LogThrottle, decide, decide_entry, decide_with, emit_now, evict, window_for, ThrottleEntry,
  oldest_key,
}
use tinyland_cleanup.Clock.{Time}

length-insert :
    (k : String) (e : ThrottleEntry) (m : Dict ThrottleEntry) → length (insert k e m) ≤ length m + 1
unfolding insert
length-insert k e [] = omega arith
length-insert k e ((j, w) ∷ m) = ground (arith, length-insert k e m)

-- Writing over an entry adds none.
length-insert_over :
    (k : String) (e e' : ThrottleEntry) (m : Dict ThrottleEntry)
    → lookup k m ≡ some e
    → length (insert k e' m) ≡ length m
unfolding insert lookup
length-insert_over k e e' [] h = absurd (ground (arith, h))
length-insert_over k e e' ((j, w) ∷ m) h = elim (Bool-cases (str_eq j k)) [
  | inl same ↦ ground (arith, same)
  | inr other ↦ ground (arith, other, h, length-insert_over k e e' m)
]

length-delete : (k : String) (m : Dict ThrottleEntry) → length (delete k m) ≤ length m
unfolding delete
length-delete k [] = omega arith
length-delete k ((j, w) ∷ m) = ground (arith, length-delete k m)

-- Deleting a key that is there removes an entry.
length-delete_there :
    (k : String) (m : Dict ThrottleEntry) → lookup k m ≢ none → length (delete k m) < length m
unfolding delete lookup
length-delete_there k [] h = absurd (h refl)
length-delete_there k ((j, w) ∷ m) h = elim (Bool-cases (str_eq j k)) [
  | inl same ↦ ground (arith, same, length-delete k m)
  | inr other ↦
      let rest : lookup k m ≢ none = λ e. h (ground (arith, other, e)) in
      ground (arith, other, length-delete_there k m rest)
]

there_head :
    (k r : String) (e : ThrottleEntry) (m : Dict ThrottleEntry)
    → r ≡ k
    → lookup r ((k, e) ∷ m) ≢ none
unfolding lookup
there_head k r e m same h = absurd (ground (arith, same, h, eq_iff k r))

there_tail :
    (k r : String) (e : ThrottleEntry) (m : Dict ThrottleEntry)
    → lookup r m ≢ none
    → lookup r ((k, e) ∷ m) ≢ none
unfolding lookup
there_tail k r e m there h = there (ground (arith, h))

-- The oldest key is the one kept so far, or one of the map's.
oldest_key_there :
    (key : String) (oldest : Time) (m : Dict ThrottleEntry)
    → (oldest_key key oldest m ≡ key) ⊎ (lookup (oldest_key key oldest m) m ≢ none)
unfolding oldest_key
oldest_key_there key oldest [] = inl refl
oldest_key_there key oldest ((k, e) ∷ m) =
    if_both (λ (r : String). (r ≡ key) ⊎ (lookup r ((k, e) ∷ m) ≢ none))
      (str_eq key "" || ltb e.last_emit oldest) _ _
      (λ _. elim (oldest_key_there k e.last_emit m) [
        | inl same ↦ inr (there_head k _ e m same)
        | inr there ↦ inr (there_tail k _ e m there)
      ])
      λ _. elim (oldest_key_there key oldest m) [
        | inl same ↦ inl same
        | inr there ↦ inr (there_tail k _ e m there)
      ]

evict_there :
    (k : String) (e : ThrottleEntry) (m : Dict ThrottleEntry)
    → lookup (oldest_key "" 0 ((k, e) ∷ m)) ((k, e) ∷ m) ≢ none
unfolding oldest_key
evict_there k e m = elim (oldest_key_there k e.last_emit m) [
  | inl same ↦ there_head k _ e m same
  | inr there ↦ there_tail k _ e m there
]

-- A full map makes room for one more.
evict_room :
    (max_keys : ℕ) (m : Dict ThrottleEntry)
    → 0 < max_keys
    → length m ≤ max_keys
    → length (evict max_keys m) < max_keys
unfolding evict
evict_room max_keys [] h k = ground (arith, h)
evict_room max_keys ((j, e) ∷ m) h k =
    if_both (λ (r : Dict ThrottleEntry). length r < max_keys) (ltb (length ((j, e) ∷ m)) max_keys) _
      _ (λ lt. ltb→lt _ max_keys lt)
      λ _. omega (
        arith,
        length-delete_there (oldest_key "" 0 ((j, e) ∷ m)) ((j, e) ∷ m) (evict_there j e m),
        k,
      )

-- Whatever the line, a throttle within its bound stays within it, and its bound and window stay.
pub decide-bounded :
    (t : LogThrottle) (key : String) (fingerprint : ℕ) (is_error : Bool) (now : Time)
    → 0 < t.max_keys
    → length t.entries ≤ t.max_keys
    → let t' = (decide t key fingerprint is_error now).0 in
      (length t'.entries ≤ t.max_keys) × (t'.max_keys ≡ t.max_keys) × (t'.window ≡ t.window)
unfolding decide decide_with
decide-bounded t key fingerprint is_error now positive within =
    elim (Option-cases (lookup key t.entries)) [
      | inl new ↦ rw new (
        omega (
          arith,
          length-insert key (emit_now fingerprint now 0).entry (evict t.max_keys t.entries),
          evict_room t.max_keys t.entries positive within,
        ),
        refl,
        refl,
      )
      | inr (e, old) ↦ rw old (
        omega (
          arith,
          length-insert_over key e (decide_entry e fingerprint (window_for t is_error) now).entry
              t.entries old,
          within,
        ),
        refl,
        refl,
      )
    ]
