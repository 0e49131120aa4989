-- ===== src/State/Suppress.antt =====
-- Zero-yield suppression of state.go: when it starts, what lifts it, and that it ends.
use tinyland_cleanup.Prelude.{
  leb, ◌&&◌, Option, ap, Bool, Dict, String, [], arith, eq_iff, eq_refl, false, is_positive, lookup,
  lookup-insert_self, ltb, none, pos, refl, some, true, ℕ, ◌%◌, ◌+◌, ◌-◌, ◌<◌, ◌∷◌, ◌≡◌, ◌≢◌, ◌≤ℤ◌,
  ◌≤◌, ◌⊎◌,
}
use tinyland_cleanup.Records.{
  CleanupState, PluginStateRecord, no_plugin_record, or_zero, plugin_record,
}
use tinyland_cleanup.State.{
  held_until, lift_zero_yield_suppression, suppression_by, suppression_of, lift_records,
  record_plugin_yield, yield_record, zero_yield_backoff, zero_yield_suppression,
}
use tinyland_cleanup.Clock.{Stamp, at_time, bad_stamp, is_empty, Time, add_time, no_stamp, second}
use tinyland_cleanup.Level.{Level, value}
use tinyland_cleanup.Policy.{ZeroYieldPolicy}

-- The retry time that a zero-yield run sets, at the given count.
abbrev pub retry_time : Time → ℕ → ZeroYieldPolicy → Time
retry_time now count p = let t = add_time now (zero_yield_backoff count p) in t - t % second

module _ (s : CleanupState) (plugin : String) (now : Time) (digest : String)
    (p : ZeroYieldPolicy) where
  abbrev after_yield : Bool → Bool → CleanupState
  after_yield zero_yield suppressible =
      (record_plugin_yield s plugin zero_yield now digest p suppressible).0

  abbrev yielded : Bool → Bool → PluginStateRecord
  yielded zero_yield suppressible =
      yield_record (plugin_record s plugin) zero_yield now digest p suppressible

  suppression-yield :
      (zero_yield suppressible : Bool) (level : Level) (moment : Time) (digest' : String)
      → zero_yield_suppression (after_yield zero_yield suppressible) plugin level moment digest'
        ≡ suppression_of (some (yielded zero_yield suppressible)) level moment digest'
  unfolding zero_yield_suppression record_plugin_yield
  suppression-yield zero_yield suppressible level moment digest' =
      ap (λ o. suppression_of o level moment digest') (lookup-insert_self plugin _ s.plugins)

  record-yield :
      (zero_yield suppressible : Bool)
      → plugin_record (after_yield zero_yield suppressible) plugin ≡ yielded zero_yield suppressible
  unfolding record_plugin_yield
  record-yield zero_yield suppressible =
      ap (or_zero no_plugin_record) (lookup-insert_self plugin _ s.plugins)

  -- A run that reclaimed enough, or any run with suppression off, ends suppression and clears the
  -- count, at every level, time and digest.
  suppression_ends :
      (zero_yield suppressible : Bool)
      → (zero_yield ≡ false) ⊎ (p.limit ≤ℤ pos 0)
      → (level : Level) (moment : Time) (digest' : String)
      → let s' = (record_plugin_yield s plugin zero_yield now digest p suppressible).0 in
        ((zero_yield_suppression s' plugin level moment digest').suppressed ≡ false)
        × ((plugin_record s' plugin).zero_yield_count ≡ 0)
  unfolding yield_record suppression_of suppression_by
  suppression_ends zero_yield suppressible h level moment digest' = ground (
    arith,
    suppression-yield zero_yield suppressible level moment digest',
    record-yield zero_yield suppressible,
  )

  -- A zero-yield run of a plugin that may be suppressed, under an unchanged config and a positive
  -- limit, advances the count by one. Afterwards the plugin is suppressed exactly at the levels up to
  -- that of its last run, where the new count has a positive backoff, before its retry time.
  pub suppression_until_retry :
      (level : Level) (moment : Time)
      → let r = plugin_record s plugin in
        let s' = (record_plugin_yield s plugin true now digest p true).0 in
        r.config_digest ≡ digest
        → is_positive p.limit ≡ true
        → ((plugin_record s' plugin).zero_yield_count ≡ r.zero_yield_count + 1)
          × ((zero_yield_suppression s' plugin level moment digest).suppressed ≡ (
              is_positive (zero_yield_backoff (r.zero_yield_count + 1) p)
              && ltb moment (retry_time now (r.zero_yield_count + 1) p)
              && leb (value level) r.last_level_value))
  unfolding yield_record suppression_of suppression_by held_until
  suppression_until_retry level moment same on = ground (
    arith,
    suppression-yield true true level moment digest,
    record-yield true true,
    eq_iff (plugin_record s plugin).config_digest digest,
    eq_refl digest,
  )

  -- A count measured under another config starts over: the run counts as the first.
  count_restarts :
      (suppressible : Bool)
      → (plugin_record s plugin).config_digest ≢ digest
      → is_positive p.limit ≡ true
      → (record_plugin_yield s plugin true now digest p suppressible).1.zero_yield_count ≡ 1
  unfolding record_plugin_yield yield_record
  count_restarts suppressible h on =
      ground (arith, eq_iff (plugin_record s plugin).config_digest digest)

  -- A plugin that is exempt for good keeps its count but is never given a retry time.
  exempt_never_waits :
      (zero_yield : Bool)
      → (record_plugin_yield s plugin zero_yield now digest p false).1.suppressed_until ≡ no_stamp
  unfolding record_plugin_yield yield_record
  exempt_never_waits zero_yield = ground arith

-- What a suppressed plugin's record says.
abbrev pub IsHeld : Option PluginStateRecord → Level → Time → String → Time → Type 0
IsHeld none level now digest until = ⊥
IsHeld (some r) level now digest until =
    (r.suppressed_until ≡ at_time until)
    × (now < until)
    × (value level ≤ r.last_level_value)
    × (r.config_digest ≡ digest)

IsHeld-by :
    (stamp : Stamp) (r : PluginStateRecord) (level : Level) (now : Time) (digest : String)
    → r.suppressed_until ≡ stamp
    → (suppression_by stamp r level now digest).suppressed ≡ true
    → IsHeld (some r) level now digest (suppression_by stamp r level now digest).until
unfolding suppression_by held_until
IsHeld-by no_stamp r level now digest e h = cc
IsHeld-by bad_stamp r level now digest e h = cc
IsHeld-by (at_time until) r level now digest e h = ground (arith, eq_iff r.config_digest digest)

IsHeld-of :
    (o : Option PluginStateRecord) (level : Level) (now : Time) (digest : String)
    → (suppression_of o level now digest).suppressed ≡ true
    → IsHeld o level now digest (suppression_of o level now digest).until
unfolding suppression_of
IsHeld-of none level now digest h = cc
IsHeld-of (some r) level now digest h = IsHeld-by r.suppressed_until r level now digest refl h

-- A suppressed plugin has a record with a retry time still ahead, its level is not above that of its
-- last run, and the config is the one that its count was measured under.
suppressed_only_if :
    (s : CleanupState) (plugin : String) (level : Level) (now : Time) (digest : String)
    → (zero_yield_suppression s plugin level now digest).suppressed ≡ true
    → IsHeld
        (lookup plugin s.plugins)
        level
        now
        digest
        (zero_yield_suppression s plugin level now digest).until
unfolding zero_yield_suppression
suppressed_only_if s plugin level now digest h =
    IsHeld-of (lookup plugin s.plugins) level now digest h

abbrev pub lifted_record : Option PluginStateRecord → Option PluginStateRecord
lifted_record none = none
lifted_record (some r) = some (record r { suppressed_until = no_stamp })

empty_stamp : (stamp : Stamp) → is_empty stamp ≡ true → stamp ≡ no_stamp
empty_stamp no_stamp h = refl
empty_stamp bad_stamp h = cc
empty_stamp (at_time t) h = cc

lookup-lift_records :
    (plugin : String) (m : Dict PluginStateRecord)
    → lookup plugin (lift_records m).0 ≡ lifted_record (lookup plugin m)
unfolding lookup lift_records
lookup-lift_records plugin [] = refl
lookup-lift_records plugin ((name, r) ∷ m) =
    ground (arith, lookup-lift_records plugin m, empty_stamp r.suppressed_until)

-- When pressure clears, no plugin stays suppressed, and every record keeps all but its retry time.
lift_frees_all :
    (s : CleanupState) (plugin : String) (level : Level) (now : Time) (digest : String)
    → let s' = (lift_zero_yield_suppression s).0 in
      ((zero_yield_suppression s' plugin level now digest).suppressed ≡ false)
      × (lookup plugin s'.plugins ≡ lifted_record (lookup plugin s.plugins))
unfolding zero_yield_suppression lift_zero_yield_suppression
lift_frees_all s plugin level now digest = (
  rw (lookup-lift_records) (freed (lookup plugin s.plugins)),
  lookup-lift_records plugin s.plugins,
)
  where
    freed :
        (o : Option PluginStateRecord)
        → (suppression_of (lifted_record o) level now digest).suppressed ≡ false
    freed none = unfold suppression_of in refl
    freed (some r) = unfold suppression_of suppression_by in refl
