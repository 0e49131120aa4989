-- ===== src/StateFile.antt =====
-- The state file (state.go: loadCleanupState, quarantineCleanupState, saveCleanupState). Files are kept
-- by name, with the text that a reader sees and whether it has reached the disk. What the operating
-- system answers (errors, the temporary name) is an input; JSON and number formatting are parameters.
pub mod Saved
pub mod Quarantined
use tinyland_cleanup.Prelude.{
  texts, Bool, Dict, List, Option, String, [], delete, false, if◌then◌else◌, insert, length, lookup,
  ltb, none, some, str_eq, suc, true, zero, ℕ, ◌||◌, ◌∷◌,
}
use tinyland_cleanup.Records.{CleanupState, new_cleanup_state, state_version}

pub record File : Type 0 where
  pub text : String
  pub synced : Bool

-- encoding/json on a state, and `%s-%d`.
pub record Codec : Type 0 where
  pub encode : CleanupState → String
  pub decode : String → Option CleanupState
  pub numbered : String → ℕ → String

abbrev pub set_synced : File → File
set_synced f = record f { synced = true }

abbrev pub change_found : String → (File → File) → Option File → Dict File → Dict File
change_found name f none files = files
change_found name f (some file) files = insert name (f file) files

abbrev pub change : String → (File → File) → Dict File → Dict File
change name f files = change_found name f (lookup name files) files

abbrev pub move_found : String → String → Option File → Dict File → Dict File
move_found old new none files = files
move_found old new (some file) files = insert new file (delete old files)

-- os.Rename
abbrev pub rename : String → String → Dict File → Dict File
rename old new files = move_found old new (lookup old files) files

-- The calls of saveCleanupState that can change files, in their order; each may fail.
pub data SaveStep : Type 0 where
  make_dir create_temp write_temp sync_temp chmod_temp close_temp rename_temp : SaveStep

abbrev pub save_steps : List SaveStep
save_steps =
    make_dir ∷ create_temp ∷ write_temp ∷ sync_temp ∷ chmod_temp ∷ close_temp ∷ rename_temp ∷ []

unfoldable pub apply_step : String → String → String → SaveStep → Dict File → Dict File
apply_step path temp text make_dir files = files
apply_step path temp text create_temp files =
    insert temp (record { text = ""; synced = false }) files
apply_step path temp text write_temp files =
    insert temp (record { text = text; synced = false }) files
apply_step path temp text sync_temp files = change temp set_synced files
apply_step path temp text chmod_temp files = files
apply_step path temp text close_temp files = files
apply_step path temp text rename_temp files = rename temp path files

unfoldable pub apply_steps : String → String → String → List SaveStep → Dict File → Dict File
unfolding apply_step
apply_steps path temp text [] files = files
apply_steps path temp text (step ∷ todo) files =
    apply_steps path temp text todo (apply_step path temp text step files)

-- the first n steps
unfoldable pub first_steps : ℕ → List SaveStep → List SaveStep
first_steps zero todo = []
first_steps (suc n) [] = []
first_steps (suc n) (step ∷ todo) = step ∷ first_steps n todo

-- Which call fails, by its place, and its error.
abbrev pub Fault : Type 0
Fault = ℕ × String

-- A call that fails leaves what the ones before it did; the deferred function removes the temporary
-- file, which there is from the third call on.
unfoldable pub save_with_fault :
    Fault → String → String → String → Dict File → Dict File × Option String
unfolding apply_steps first_steps
save_with_fault (n, e) path temp text files =
    if ltb n (length save_steps)
    then (
      (if ltb n 2
          then files
          else delete temp (apply_steps path temp text (first_steps n save_steps) files)),
      some e,
    )
    else (apply_steps path temp text save_steps files, none)

-- saveCleanupState on a state that is not nil
unfoldable pub save_cleanup_state :
    Codec → Fault → String → String → CleanupState → Dict File → Dict File × Option String
unfolding save_with_fault
save_cleanup_state codec fault path temp state files =
    if str_eq path ""
    then (files, none)
    else save_with_fault fault path temp (codec.encode state) files

-- What a crash leaves: a text that has not reached the disk may be torn.
unfoldable pub after_crash : (String → String) → Dict File → Dict File
after_crash torn [] = []
after_crash torn ((name, f) ∷ files) =
    (name, if f.synced then f else record f { text = torn name }) ∷ after_crash torn files

abbrev pub is_absent : Option File → Bool
is_absent none = true
is_absent (some f) = false

-- Errors that the files do not tell: of os.Lstat at a name, other than that there is no such file, and
-- of os.Rename.
pub record FileErrors : Type 0 where
  pub lstat_error : String → Option String
  pub rename_error : Option String

-- the path of a quarantined file, or an error
pub data QuarantineAnswer : Type 0 where
  quarantined_at : String → QuarantineAnswer
  not_quarantined : String → QuarantineAnswer

abbrev pub try_name : String → Option String → Bool → QuarantineAnswer → QuarantineAnswer
try_name target (some e) gone rest = not_quarantined e
try_name target none true rest = quarantined_at target
try_name target none false rest = rest

-- The names that quarantineCleanupState tries: the base, then the base with 1, 2, and so on.
unfoldable pub first_free :
    Codec → FileErrors → String → String → ℕ → ℕ → Dict File → QuarantineAnswer
first_free codec errors base target i zero files = not_quarantined "no free quarantine name"
first_free codec errors base target i (suc rounds) files =
    try_name target (errors.lstat_error target) (is_absent (lookup target files))
      (first_free codec errors base (codec.numbered base i) (suc i) rounds files)

-- the rename to the name found
unfoldable pub quarantine_to :
    String → Option String → QuarantineAnswer → Dict File → Dict File × QuarantineAnswer
quarantine_to path failure (not_quarantined e) files = (files, not_quarantined e)
quarantine_to path (some e) (quarantined_at target) files = (files, not_quarantined e)
quarantine_to path none (quarantined_at target) files =
    (rename path target files, quarantined_at target)

-- quarantineCleanupState; os.Lstat is called on 101 names at most
unfoldable pub quarantine :
    Codec → FileErrors → String → String → Dict File → Dict File × QuarantineAnswer
unfolding first_free quarantine_to
quarantine codec errors path base files =
    quarantine_to path errors.rename_error (first_free codec errors base base 1 101 files) files

-- The state read, with the path of a quarantined file or "", or an error.
pub data Loaded : Type 0 where
  loaded : CleanupState → String → Loaded
  load_failed : String → Loaded

unfoldable pub upgraded : CleanupState → CleanupState
upgraded s = if ltb s.version state_version then record s { version = state_version } else s

-- after the quarantine of an undecodable file; the text is without the decoder's
unfoldable pub quarantine_result : Dict File × QuarantineAnswer → Dict File × Loaded
quarantine_result (files, not_quarantined e) =
    (files, load_failed (texts ("decode cleanup state: quarantine failed: " ∷ e ∷ [])))
quarantine_result (files, quarantined_at target) = (files, loaded new_cleanup_state target)

unfoldable pub decoded :
    Codec → FileErrors → String → String → Option CleanupState → Dict File → Dict File × Loaded
unfolding quarantine_result upgraded
decoded codec errors path base none files =
    quarantine_result (quarantine codec errors path base files)
decoded codec errors path base (some s) files = (files, loaded (upgraded s) "")

unfoldable pub load_text :
    Codec → FileErrors → String → String → Option File → Dict File → Dict File × Loaded
unfolding decoded
load_text codec errors path base none files = (files, loaded new_cleanup_state "")
load_text codec errors path base (some f) files =
    if str_eq f.text ""
    then (files, loaded new_cleanup_state "")
    else decoded codec errors path base (codec.decode f.text) files

-- loadCleanupState; `base` is the path with ".corrupt-" and the time, and the first error, if there is
-- one, is os.ReadFile's.
unfoldable pub load_cleanup_state :
    Codec → FileErrors → Option String → String → String → Dict File → Dict File × Loaded
unfolding load_text
load_cleanup_state codec errors (some e) path base files =
    if str_eq path "" then (files, loaded new_cleanup_state "") else (files, load_failed e)
load_cleanup_state codec errors none path base files =
    if str_eq path ""
    then (files, loaded new_cleanup_state "")
    else load_text codec errors path base (lookup path files) files
