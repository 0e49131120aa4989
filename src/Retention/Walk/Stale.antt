-- ===== src/Retention/Walk/Stale.antt =====
-- What a walk that finds no reason to keep a tree tells of it.
use tinyland_cleanup.Retention.Walk.{
  no_stats, walk_tree, bounded_visit, git_visit, is_inner_session, measure_found, stop_or, visit,
  visit_after, walk_visits, TreeStats, Visit, WalkBounds, fixture_repo, measure, measure_visit,
  newest_of,
}
use tinyland_cleanup.Prelude.{
  All, List, [], length, ltb_ℤ, ◌∷◌, Option, Option-cases, String, arith, false, if_both, inl, inr,
  is_positive, none, not, pos, refl, some, str_eq, true, ℕ, ◌&&◌, ◌+◌, ◌==◌, ◌||◌, ◌≡◌, ◌≤ℤ◌, ◌≤◌,
}
use tinyland_cleanup.Retention.{FileInfo, effective_mod_time, is_future}
use tinyland_cleanup.Clock.{Time}

newest_of_bounds :
    (now newest : ℕ) (info : FileInfo)
    → (newest ≤ newest_of now info newest)
      × (effective_mod_time info now ≤ newest_of now info newest)
unfolding newest_of
newest_of_bounds now newest info = elim (Option-cases info.change_time) [
  | inl e ↦ ground (arith, e)
  | inr (t, e) ↦ ground (arith, e)
]

newest_of_change :
    (now newest : ℕ) (info : FileInfo) (t : Time)
    → info.change_time ≡ some t
    → is_future now t ≡ false
    → t ≤ newest_of now info newest
unfolding newest_of
newest_of_change now newest info t e h = ground (arith, e, h)

-- The file's times that are not in the future are at most `newest`, and it belongs to the walk's user
-- and file system.
pub record IsOwn (b : WalkBounds) (newest : Time) (info : FileInfo) : Type 0 where
  pub known : info.is_known ≡ true
  pub same_dev : info.dev ≡ b.dev
  pub same_uid : info.uid ≡ b.uid
  pub modified : effective_mod_time info b.now ≤ newest
  pub changed : (t : Time) → info.change_time ≡ some t → is_future b.now t ≡ false → t ≤ newest

-- The visit gives no reason to keep the tree, and nothing that it saw is newer than `newest`.
pub record IsPlain (b : WalkBounds) (newest : Time) (v : Visit) : Type 0 where
  pub no_error : v.walk_error ≡ none
  pub info : FileInfo
  pub has_info : v.info ≡ some info
  pub own : IsOwn b newest info
  pub no_session : is_inner_session v ≡ false
  pub git_free : str_eq v.name ".git" ≡ true → fixture_repo v b.fixture_parents ≡ none

IsOwn-later :
    {b : WalkBounds} {newest later : Time} {info : FileInfo}
    → newest ≤ later
    → IsOwn b newest info
    → IsOwn b later info
IsOwn-later h o = record {
  known = o.known;
  same_dev = o.same_dev;
  same_uid = o.same_uid;
  modified = omega arith;
  changed = λ t e f. omega (arith, o.changed t e f);
}

IsPlain-later :
    {b : WalkBounds} {newest later : Time} {v : Visit}
    → newest ≤ later
    → IsPlain b newest v
    → IsPlain b later v
IsPlain-later h o = record {
  no_error = o.no_error;
  info = o.info;
  has_info = o.has_info;
  own = IsOwn-later h o.own;
  no_session = o.no_session;
  git_free = o.git_free;
}

-- What one visit without a reason did to the measures.
record Step (b : WalkBounds) (v : Visit) (s s' : TreeStats) : Type 0 where
  plain : IsPlain b s'.newest v
  grows : s.newest ≤ s'.newest
  within : is_positive b.limit ≡ true → pos s'.entries ≤ℤ b.limit
  counted : s'.entries ≡ s.entries + 1

record Measured (b : WalkBounds) (v : Visit) (s s' : TreeStats) : Type 0 where
  info : FileInfo
  has_info : v.info ≡ some info
  own : IsOwn b s'.newest info
  no_session : is_inner_session v ≡ false
  grows : s.newest ≤ s'.newest
  same_entries : s'.entries ≡ s.entries

measure-Measured :
    (b : WalkBounds) (v : Visit) (s : TreeStats) (i : FileInfo)
    → v.info ≡ some i
    → is_inner_session v ≡ false
    → (not i.is_known || not (i.dev == b.dev) || not (i.uid == b.uid)) ≡ false
    → Measured b v s (measure b v i s)
unfolding measure
measure-Measured b v s i e h k = record {
  info = i;
  has_info = e;
  own = record {
    known = ground (arith, k);
    same_dev = ground (arith, k);
    same_uid = ground (arith, k);
    modified = (newest_of_bounds b.now s.newest i).1;
    changed = newest_of_change b.now s.newest i;
  };
  no_session = h;
  grows = (newest_of_bounds b.now s.newest i).0;
  same_entries = refl;
}

-- The measures of a visit whose answer is no reason.
abbrev pub Told {ℓ} : (TreeStats → Type ℓ) → TreeStats × Option String → Type ℓ
Told P (s, none) = P s
Told P (s, some why) = Unit

measure_found-Told :
    (b : WalkBounds) (v : Visit) (s : TreeStats) (o : Option FileInfo)
    → v.info ≡ o
    → is_inner_session v ≡ false
    → Told (Measured b v s) (measure_found b v s o)
unfolding measure_found
measure_found-Told b v s none e h = tt
measure_found-Told b v s (some i) e h =
    if_both (Told (Measured b v s)) (not i.is_known || not (i.dev == b.dev) || not (i.uid == b.uid))
      _ _ (λ k. tt) (measure-Measured b v s i e h)

measure_visit-Told :
    (b : WalkBounds) (v : Visit) (s : TreeStats) → Told (Measured b v s) (measure_visit b v s)
unfolding measure_visit
measure_visit-Told b v s =
    if_both (Told (Measured b v s)) (is_inner_session v) _ _ (λ h. tt)
      (measure_found-Told b v s v.info refl)

-- From the measures of a visit to the whole step.
Measured-Step :
    (b : WalkBounds) (v : Visit) (s t : TreeStats)
    → v.walk_error ≡ none
    → t.entries ≡ s.entries + 1
    → t.newest ≡ s.newest
    → (is_positive b.limit && ltb_ℤ b.limit (pos (s.entries + 1))) ≡ false
    → (str_eq v.name ".git" ≡ true → fixture_repo v b.fixture_parents ≡ none)
    → (r : TreeStats × Option String) → Told (Measured b v t) r
    → Told (Step b v s) r
Measured-Step b v s t e n m l g (s', some why) h = tt
Measured-Step b v s t e n m l g (s', none) h = record {
  plain = record {
    no_error = e;
    info = h.info;
    has_info = h.has_info;
    own = h.own;
    no_session = h.no_session;
    git_free = g;
  };
  grows = omega arith;
  within = λ p. ground (arith, p, l, h.same_entries);
  counted = omega arith;
}

git_visit-Told :
    (b : WalkBounds) (v : Visit) (s t : TreeStats) (o : Option String)
    → fixture_repo v b.fixture_parents ≡ o
    → v.walk_error ≡ none
    → t.entries ≡ s.entries + 1
    → t.newest ≡ s.newest
    → (is_positive b.limit && ltb_ℤ b.limit (pos (s.entries + 1))) ≡ false
    → Told (Step b v s) (git_visit b v t o)
unfolding git_visit
git_visit-Told b v s t (some why) f e n m l = tt
git_visit-Told b v s t none f e n m l =
    let counted = record t { fixture_repos = t.fixture_repos + 1 } in
    Measured-Step b v s counted e n m l (λ g. f) _ (measure_visit-Told b v counted)

bounded_visit-Told :
    (b : WalkBounds) (v : Visit) (s : TreeStats)
    → v.walk_error ≡ none
    → Told (Step b v s) (bounded_visit b v (record s { entries = s.entries + 1 }))
unfolding bounded_visit
bounded_visit-Told b v s e =
    let t = record s { entries = s.entries + 1 } in
    if_both (Told (Step b v s)) (is_positive b.limit && ltb_ℤ b.limit (pos t.entries)) _ _ (λ h. tt)
      λ l.
        if_both (Told (Step b v s)) (str_eq v.name ".git") _ _
          (λ g. git_visit-Told b v s t _ refl e refl refl l)
          (λ g.
            Measured-Step b v s t e refl refl l (λ k. absurd (ground (arith, g, k))) _
              (measure_visit-Told b v t))

visit-Told :
    (b : WalkBounds) (v : Visit) (s : TreeStats) (e c : Option String)
    → v.walk_error ≡ e
    → Told (Step b v s) (visit_after b v s e c)
unfolding visit_after
visit-Told b v s (some e) c h = tt
visit-Told b v s none (some e) h = tt
visit-Told b v s none none h = bounded_visit-Told b v s h

-- What a whole walk without a reason tells, from the measures it began with.
pub record IsStale (b : WalkBounds) (vs : List Visit) (s s' : TreeStats) : Type 0 where
  pub all_plain : All (IsPlain b s'.newest) vs
  pub within_bound :
      is_positive b.limit ≡ true → pos s.entries ≤ℤ b.limit → pos (s.entries + length vs) ≤ℤ b.limit
  pub grown : s.newest ≤ s'.newest

stop_or-Told :
    (b : WalkBounds) (v : Visit) (vs : List Visit) (s : TreeStats)
    (r rest : TreeStats × Option String)
    → Told (Step b v s) r
    → Told (IsStale b vs r.0) rest
    → Told (IsStale b (v ∷ vs) s) (stop_or r rest)
unfolding stop_or
stop_or-Told b v vs s (s1, some e) rest h k = tt
stop_or-Told b v vs s (s1, none) (s2, some e) h k = tt
stop_or-Told b v vs s (s1, none) (s2, none) h k = record {
  all_plain = (IsPlain-later k.grown h.plain, k.all_plain);
  within_bound = λ p l. omega (arith, h.counted, h.within p, k.within_bound p (h.within p));
  grown = omega arith;
}

walk_visits-Told :
    (b : WalkBounds) (vs : List Visit) (s : TreeStats) → Told (IsStale b vs s) (walk_visits b vs s)
unfolding walk_visits visit
walk_visits-Told b [] s = record {
  all_plain = tt;
  within_bound = λ p l. omega arith;
  grown = omega arith;
}
walk_visits-Told b (v ∷ vs) s =
    stop_or-Told b v vs s (visit b v s) _ (visit-Told b v s _ _ refl)
      (walk_visits-Told b vs (visit b v s).0)

Told_none {ℓ} :
    (P : TreeStats → Type ℓ) (r : TreeStats × Option String) → Told P r → r.1 ≡ none → P r.0
Told_none P (s, none) h e = h
Told_none P (s, some why) h e = cc

pub walk_tree-IsStale :
    (b : WalkBounds) (vs : List Visit)
    → (walk_tree b vs).1 ≡ none
    → IsStale b vs no_stats (walk_tree b vs).0
unfolding walk_tree
walk_tree-IsStale b vs e =
    Told_none (IsStale b vs no_stats) (walk_tree b vs) (walk_visits-Told b vs no_stats) e
