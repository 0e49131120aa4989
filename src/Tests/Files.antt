-- ===== src/Tests/Files.antt =====
-- Tests: the state file.
-- A codec that knows two states by name.
use tinyland_cleanup.StateFile.Quarantined.{IsMoved, load_keeps_files}
use tinyland_cleanup.StateFile.{
  FileErrors, Codec, File, after_crash, apply_steps, first_steps, load_cleanup_state, loaded,
  save_cleanup_state, save_steps,
}
use tinyland_cleanup.Records.{new_cleanup_state, state_version}
use tinyland_cleanup.Prelude.{
  Dict, String, [], arith, eq_iff, if◌then◌else◌, lookup, ltb, none, refl, some, str_eq, sym, true,
  ◌∙◌, ◌∷◌, ◌≡◌, ◌≢◌, ◌≤◌, ◌⊎◌,
}
use tinyland_cleanup.StateFile.Saved.{crash_leaves_old_or_new, load-save, save_tells, saved_file}

abbrev toy_codec : Codec
toy_codec = record {
  encode = λ s. if ltb s.version 3 then "two" else "three";
  decode = λ text. if str_eq text "two" then some new_cleanup_state else none;
  numbered = λ base n. base;
}

abbrev no_errors : FileErrors
no_errors = record { lstat_error = λ name. none; rename_error = none }

abbrev state_path : String
state_path = "state.json"

abbrev temp_path : String
temp_path = ".state.json.tmp-1"

abbrev old_files : Dict File
old_files = (state_path, record { text = "old"; synced = true }) ∷ []

paths_apart : temp_path ≢ state_path
paths_apart = ground (arith, eq_iff temp_path state_path)

path_named : state_path ≢ ""
path_named = ground (arith, eq_iff state_path "")

old_synced : (f : File) → lookup state_path old_files ≡ some f → f.synced ≡ true
unfolding lookup
old_synced f e = ground (arith, e)

crash_leaves_old_or_new_example :
    let left = lookup state_path (
      after_crash
        (λ name. "torn")
        (apply_steps state_path temp_path "two" (first_steps 3 save_steps) old_files)) in
    (left ≡ lookup state_path old_files) ⊎ (left ≡ some (saved_file "two"))
crash_leaves_old_or_new_example =
    crash_leaves_old_or_new state_path temp_path "two" 3 (λ name. "torn") old_files paths_apart
      old_synced

save_tells_example :
    let r =
      save_cleanup_state toy_codec (3, "ENOSPC") state_path temp_path new_cleanup_state old_files in
    ((r.1 ≡ some "ENOSPC") × (lookup state_path r.0 ≡ lookup state_path old_files))
    ⊎ ((r.1 ≡ none)
        × (lookup state_path r.0 ≡ some (saved_file (toy_codec.encode new_cleanup_state))))
save_tells_example =
    save_tells toy_codec 3 "ENOSPC" state_path temp_path new_cleanup_state old_files paths_apart
      path_named

encodes : toy_codec.encode new_cleanup_state ≡ "two"
unfolding new_cleanup_state
encodes = refl

decodes : toy_codec.decode (toy_codec.encode new_cleanup_state) ≡ some new_cleanup_state
unfolding new_cleanup_state
decodes = refl

full_text : toy_codec.encode new_cleanup_state ≢ ""
full_text e = absurd (ground (arith, eq_iff "two" "", sym encodes ∙ e))

current : state_version ≤ new_cleanup_state.version
unfolding new_cleanup_state
current = omega arith

load-save_example :
    let r = save_cleanup_state toy_codec (7, "") state_path temp_path new_cleanup_state old_files in
    load_cleanup_state toy_codec no_errors none state_path "state.json.corrupt-1" r.0
    ≡ (r.0, loaded new_cleanup_state "")
load-save_example =
    load-save toy_codec no_errors "" state_path temp_path "state.json.corrupt-1" new_cleanup_state
      old_files paths_apart path_named decodes full_text current

-- An undecodable file beside one that was quarantined before.
abbrev corrupt_files : Dict File
corrupt_files =
    (state_path, record { text = "old"; synced = true })
    ∷ ("state.json.corrupt-0", record { text = "older"; synced = true })
    ∷ []

other_apart : ◌≢◌ {A = String} state_path "state.json.corrupt-0"
other_apart = ground (arith, eq_iff state_path "state.json.corrupt-0")

other_there : lookup "state.json.corrupt-0" corrupt_files ≢ none
unfolding lookup
other_there e = cc

load_keeps_files_example :
    let r =
      load_cleanup_state toy_codec no_errors none state_path "state.json.corrupt-1" corrupt_files in
    (lookup "state.json.corrupt-0" r.0 ≡ lookup "state.json.corrupt-0" corrupt_files)
    × ((r.0 ≡ corrupt_files) ⊎ IsMoved state_path corrupt_files r)
load_keeps_files_example =
    load_keeps_files toy_codec no_errors none state_path "state.json.corrupt-1"
      "state.json.corrupt-0" corrupt_files other_apart other_there
