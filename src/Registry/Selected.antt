-- ===== src/Registry/Selected.antt =====
-- Which plugins a cycle runs, and which filters are accepted.
use tinyland_cleanup.Prelude.{
  Bool-cases, In, eq_iff, false, if◌then◌else◌, All, Bool, List, Option, String, [], any_of, ap,
  arith, if_both, inl, inr, keep, mem_str, none, refl, str_eq, sym, true, ◌&&◌, ◌↔◌, ◌∷◌, ◌≡◌, ◌⊎◌,
}
use tinyland_cleanup.Registry.{
  filter_enabled_plugins, get_enabled, plugin_supported, unknown_plugin,
}
use tinyland_cleanup.Decide.{Plugin}

-- An empty list names every text, any other its own.
abbrev pub IsListed : String → List String → Type 0
IsListed s names = (names ≡ []) ⊎ In s names

-- A plugin that is enabled, meant for the platform and named by the filter.
pub record IsWanted (platform : String) (filter : List String) (p : Plugin) : Type 0 where
  pub on : p.enabled ≡ true
  pub supported : IsListed platform p.platforms
  pub named : IsListed p.name filter

-- The second list keeps the wanted plugins of the first, in their order and as often, and no other.
pub data Selected (platform : String) (filter : List String)
    : List Plugin → List Plugin → Type 0 where
  nothing : Selected platform filter [] []
  selects :
      (p : Plugin) (ps kept : List Plugin)
      → IsWanted platform filter p
      → Selected platform filter ps kept
      → Selected platform filter (p ∷ ps) (p ∷ kept)
  passes_over :
      (p : Plugin) (ps kept : List Plugin)
      → ¬ IsWanted platform filter p
      → Selected platform filter ps kept
      → Selected platform filter (p ∷ ps) kept

mem_str-In : (s : String) (names : List String) → (mem_str s names ≡ true) ↔ In s names
mem_str-In s [] = (λ h. cc, λ h. absurd h)
mem_str-In s (t ∷ ts) =
    let rest = mem_str-In s ts in
    elim (Bool-cases (str_eq t s)) [
      | inl e ↦ (λ _. inl (sym ((eq_iff t s).0 e)), λ _. ground (arith, e))
      | inr e ↦ (
        λ h. inr (rest.0 (ground (arith, e, h))),
        λ h. elim h [
          | inl same ↦ absurd (ground (arith, e, eq_iff t s, same))
          | inr further ↦ ground (arith, e, rest.1 further)
        ],
      )
    ]

abbrev allows_name : String → List String → Bool
allows_name s [] = true
allows_name s (n ∷ ns) = mem_str s (n ∷ ns)

allows_name-IsListed :
    (s : String) (names : List String) → (allows_name s names ≡ true) ↔ IsListed s names
allows_name-IsListed s [] = (λ _. inl refl, λ _. refl)
allows_name-IsListed s (n ∷ ns) =
    let member = mem_str-In s (n ∷ ns) in
    (λ h. inr (member.0 h), λ h. elim h [ inl e ↦ absurd (cc) | inr among ↦ member.1 among ])

plugin_supported-allows_name :
    (platform : String) (p : Plugin)
    → plugin_supported platform p ≡ allows_name platform p.platforms
unfolding plugin_supported
plugin_supported-allows_name platform p = by_platforms p.platforms
  where
    by_platforms :
        (names : List String)
        → (elim names [ [] ↦ true | q ∷ qs ↦ mem_str platform (q ∷ qs) ])
          ≡ allows_name platform names
    by_platforms [] = refl
    by_platforms (q ∷ qs) = refl

abbrev is_selected : String → List String → Plugin → Bool
is_selected platform filter p =
    (p.enabled && plugin_supported platform p) && allows_name p.name filter

keep-Selected :
    (platform : String) (filter : List String) (ps : List Plugin)
    → Selected platform filter ps (keep (is_selected platform filter) ps)
keep-Selected platform filter [] = nothing
keep-Selected platform filter (p ∷ ps) =
    let rest = keep-Selected platform filter ps in
    let fits = plugin_supported-allows_name platform p in
    let platforms = allows_name-IsListed platform p.platforms in
    let names = allows_name-IsListed p.name filter in
    if_both (Selected platform filter (p ∷ ps)) (is_selected platform filter p) _ _
      (λ e.
        let wanted : IsWanted platform filter p = record {
          on = ground (arith, e);
          supported = platforms.0 (ground (arith, e, fits));
          named = names.0 (ground (arith, e));
        } in
        selects p ps _ wanted rest)
      λ e.
        passes_over p ps _
          (λ w. absurd (ground (arith, e, fits, w.on, platforms.1 w.supported, names.1 w.named)))
          rest

keep-keep :
    {A : Type 0} (f g : A → Bool) (xs : List A) → keep g (keep f xs) ≡ keep (λ x. f x && g x) xs
keep-keep f g [] = refl
keep-keep f g (x ∷ xs) = elim (Bool-cases (f x)) [
  | inl e ↦ rw e (elim (Bool-cases (g x)) [
    | inl k ↦ rw k (ap (λ ys. x ∷ ys) (keep-keep f g xs))
    | inr k ↦ rw k (keep-keep f g xs)
  ])
  | inr e ↦ rw e (keep-keep f g xs)
]

and_true : (b : Bool) → b ≡ (b && true)
and_true true = refl
and_true false = refl

keep-same :
    {A : Type 0} (f g : A → Bool) (xs : List A) → ((x : A) → f x ≡ g x) → keep f xs ≡ keep g xs
keep-same f g [] h = refl
keep-same f g (x ∷ xs) h = rw (h x) (ap (λ ys. if g x then x ∷ ys else ys) (keep-same f g xs h))

-- Of the registered plugins the cycle is given exactly those that are enabled, that list no platform
-- or this one, and that the filter names, if it names any; each as often as it is registered, and in
-- the order of registration.
pub selection-Selected :
    (platform : String) (registered : List Plugin) (filter : List String)
    → Selected platform filter registered
        (filter_enabled_plugins (get_enabled platform registered) filter)
unfolding filter_enabled_plugins get_enabled
selection-Selected platform registered [] =
    rw
      (keep-same (λ (q : Plugin). q.enabled && plugin_supported platform q)
        (is_selected platform []) registered (λ q. and_true _))
      (keep-Selected platform [] registered)
selection-Selected platform registered (n ∷ ns) =
    rw
      (keep-keep (λ (q : Plugin). q.enabled && plugin_supported platform q)
        (λ (q : Plugin). mem_str q.name (n ∷ ns)) registered)
      (keep-Selected platform (n ∷ ns) registered)

-- What validatePluginFilter accepts: every name is a registered plugin's.
abbrev pub IsKnown : List Plugin → String → Type 0
IsKnown ps name = any_of (λ (p : Plugin). str_eq p.name name) ps ≡ true

unknown_plugin-none_iff :
    (ps : List Plugin) (filter : List String)
    → (unknown_plugin ps filter ≡ none) ↔ All (IsKnown ps) filter
unfolding unknown_plugin
unknown_plugin-none_iff ps [] = (λ _. tt, λ _. refl)
unknown_plugin-none_iff ps (n ∷ ns) =
    let rest = unknown_plugin-none_iff ps ns in
    if_both (λ (r : Option String). (r ≡ none) ↔ All (IsKnown ps) (n ∷ ns))
      (any_of (λ (p : Plugin). str_eq p.name n) ps) _ _
      (λ yes. (λ h. (yes, rest.0 h), λ h. rest.1 h.1))
      λ no. (λ h. absurd (ground (arith, h)), λ h. absurd (ground (arith, no, h.0)))
