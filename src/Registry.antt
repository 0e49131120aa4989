-- ===== src/Registry.antt =====
-- The plugins that a cycle runs (plugins/plugin.go: Registry; main.go: filterEnabledPlugins, the flag
-- overrides and the plugin list). A plugin here answers `enabled` for the daemon's configuration.
pub mod Selected
use tinyland_cleanup.Prelude.{
  Bool, List, Option, String, [], any_of, codes_eq, false, if◌then◌else◌, keep, mem_str, none, some,
  str_eq, trim_space, true, ℕ, ◌&&◌, ◌++◌, ◌==◌, ◌||◌, ◌∷◌,
}
use tinyland_cleanup.Decide.{Plugin}

-- Register: the registry is the list of its plugins.
unfoldable pub register : List Plugin → Plugin → List Plugin
register ps p = ps ++ p ∷ []

unfoldable pub plugin_supported : String → Plugin → Bool
plugin_supported platform p = elim p.platforms [ [] ↦ true | q ∷ qs ↦ mem_str platform (q ∷ qs) ]

-- Registry.GetEnabled
unfoldable pub get_enabled : String → List Plugin → List Plugin
get_enabled platform ps = keep (λ p. p.enabled && plugin_supported platform p) ps

unfoldable pub filter_enabled_plugins : List Plugin → List String → List Plugin
filter_enabled_plugins ps [] = ps
filter_enabled_plugins ps (n ∷ ns) = keep (λ p. mem_str p.name (n ∷ ns)) ps

-- strings.Split on a comma
unfoldable pub split_commas : List ℕ → List (List ℕ)
split_commas [] = [] ∷ []
split_commas (c ∷ s) = elim (split_commas s) [
  | [] ↦ (c ∷ []) ∷ []
  | part ∷ parts ↦ if c == b',' then [] ∷ part ∷ parts else (c ∷ part) ∷ parts
]

unfoldable pub mem_codes : List ℕ → List (List ℕ) → Bool
mem_codes s [] = false
mem_codes s (t ∷ ts) = codes_eq t s || mem_codes s ts

-- The loop of parsePluginFilter, with the names kept so far; an empty name is an error.
unfoldable pub filter_names : List (List ℕ) → List (List ℕ) → Option (List (List ℕ))
filter_names kept [] = some kept
filter_names kept (part ∷ parts) = elim (trim_space part) [
  | [] ↦ none
  | c ∷ name ↦
      filter_names (if mem_codes (c ∷ name) kept then kept else kept ++ (c ∷ name) ∷ []) parts
]

-- parsePluginFilter
unfoldable pub parse_plugin_filter : List ℕ → Option (List (List ℕ))
unfolding split_commas filter_names
parse_plugin_filter raw = elim (trim_space raw) [
  | [] ↦ some []
  | c ∷ s ↦ filter_names [] (split_commas (c ∷ s))
]

-- validatePluginFilter: the first name that no plugin has
unfoldable pub unknown_plugin : List Plugin → List String → Option String
unknown_plugin ps [] = none
unknown_plugin ps (n ∷ ns) =
    if any_of (λ p. str_eq p.name n) ps then unknown_plugin ps ns else some n
