-- ===== src/StateFile/Saved.antt =====
-- A save leaves the old state or the new one, whatever fails and whenever the machine stops.
use tinyland_cleanup.StateFile.{
  FileErrors, decoded, load_cleanup_state, loaded, load_text, upgraded, Codec, save_cleanup_state,
  save_with_fault, after_crash, change_found, move_found, rename, File, SaveStep, apply_step,
  apply_steps, change, chmod_temp, close_temp, create_temp, first_steps, make_dir, rename_temp,
  save_steps, set_synced, sync_temp, write_temp,
}
use tinyland_cleanup.Records.{CleanupState, state_version}
use tinyland_cleanup.Prelude.{
  ge→ltb, if_both, if_false, lookup-delete, ltb, ltb→lt, ◌≤◌, length, ◌<◌, Bool-cases, Option, ap,
  delete, eq_iff, if_true, if◌then◌else◌, insert, none, str_eq, All, Bool, Dict, List, String, [],
  arith, false, inl, inr, lookup, lookup-insert_ne, lookup-insert_self, refl, some, suc, true, zero,
  ℕ, ◌∙◌, ◌∷◌, ◌≡◌, ◌≢◌, ◌⊎◌,
}

abbrev is_rename : SaveStep → Bool
is_rename rename_temp = true
is_rename _ = false

abbrev IsEarly : List SaveStep → Type 0
IsEarly todo = All (λ (s : SaveStep). is_rename s ≡ false) todo

-- The file that a whole save leaves.
abbrev pub saved_file : String → File
saved_file text = record { text = text; synced = true }

module _ (path temp text : String) (apart : temp ≢ path) where
  change_other :
      (f : File → File) (o : Option File) (files : Dict File)
      → lookup path (change_found temp f o files) ≡ lookup path files
  change_other f none files = refl
  change_other f (some file) files = lookup-insert_ne temp path (f file) files apart

  -- No step but the last touches the state file.
  step_keeps :
      (step : SaveStep) (files : Dict File)
      → is_rename step ≡ false
      → lookup path (apply_step path temp text step files) ≡ lookup path files
  unfolding apply_step
  step_keeps make_dir files h = refl
  step_keeps create_temp files h = lookup-insert_ne temp path _ files apart
  step_keeps write_temp files h = lookup-insert_ne temp path _ files apart
  step_keeps sync_temp files h = change_other set_synced (lookup temp files) files
  step_keeps chmod_temp files h = refl
  step_keeps close_temp files h = refl
  step_keeps rename_temp files h = absurd (ground (arith, h))

  steps_keep :
      (todo : List SaveStep) (files : Dict File)
      → IsEarly todo
      → lookup path (apply_steps path temp text todo files) ≡ lookup path files
  unfolding apply_steps
  steps_keep [] files h = refl
  steps_keep (step ∷ todo) files h =
      steps_keep todo (apply_step path temp text step files) h.1 ∙ step_keeps step files h.0

  -- A save without an error leaves the new state, on the disk.
  whole_save :
      (files : Dict File)
      → lookup path (apply_steps path temp text save_steps files) ≡ some (saved_file text)
  unfolding apply_steps apply_step
  whole_save files =
      let written =
        insert temp (record { text = text; synced = false })
          (insert temp (record { text = ""; synced = false }) files) in
      let done = insert temp (saved_file text) written in
      let synced_eq : change temp set_synced written ≡ done =
        ap (λ (o : Option File). change_found temp set_synced o written)
          (lookup-insert_self temp _ _) in
      ap (λ (m : Dict File). lookup path (rename temp path m)) synced_eq
      ∙ ap (λ (o : Option File). lookup path (move_found temp path o done))
          (lookup-insert_self temp _ written)
      ∙ lookup-insert_self path (saved_file text) (delete temp done)

first_none : (n : ℕ) → first_steps n [] ≡ []
unfolding first_steps
first_none zero = refl
first_none (suc n) = refl

-- The steps before a stop are all of them, or none is the rename.
stopped_at : (n : ℕ) → (first_steps n save_steps ≡ save_steps) ⊎ IsEarly (first_steps n save_steps)
unfolding first_steps
stopped_at zero = inr tt
stopped_at (suc zero) = inr (refl, tt)
stopped_at (suc (suc zero)) = inr (refl, (refl, tt))
stopped_at (suc (suc (suc zero))) = inr (refl, (refl, (refl, tt)))
stopped_at (suc (suc (suc (suc zero)))) = inr (refl, (refl, (refl, (refl, tt))))
stopped_at (suc (suc (suc (suc (suc zero))))) = inr (refl, (refl, (refl, (refl, (refl, tt)))))
stopped_at (suc (suc (suc (suc (suc (suc zero)))))) =
    inr (refl, (refl, (refl, (refl, (refl, (refl, tt))))))
stopped_at (suc (suc (suc (suc (suc (suc (suc n))))))) = inl (
    ap
      (λ (todo : List SaveStep).
        make_dir ∷ create_temp ∷ write_temp ∷ sync_temp ∷ chmod_temp ∷ close_temp ∷ rename_temp
        ∷ todo)
      (first_none n))

crashed : (String → String) → String → Option File → Option File
crashed torn name none = none
crashed torn name (some f) = some (if f.synced then f else record f { text = torn name })

lookup-after_crash :
    (torn : String → String) (name : String) (files : Dict File)
    → lookup name (after_crash torn files) ≡ crashed torn name (lookup name files)
unfolding lookup after_crash crashed
lookup-after_crash torn name [] = refl
lookup-after_crash torn name ((other, f) ∷ files) = elim (Bool-cases (str_eq other name)) [
  | inl same ↦
      let e : other ≡ name = (eq_iff other name).0 same in
      rw same (ap (λ n. some (if f.synced then f else record f { text = torn n })) e)
  | inr apart ↦ rw apart (lookup-after_crash torn name files)
]

crash_kept :
    (torn : String → String) (name : String) (o : Option File)
    → ((f : File) → o ≡ some f → f.synced ≡ true)
    → crashed torn name o ≡ o
unfolding crashed
crash_kept torn name none h = refl
crash_kept torn name (some f) h =
    if_true (λ (g : File). some g ≡ some f) f.synced _ _ (h f refl) refl

-- The machine may stop after any of the calls of a save, and a text that has not reached the disk may
-- then be torn: the state file is as it was, or it is the new state in full. The state file's own
-- text had reached the disk, and the temporary file has a name of its own.
pub crash_leaves_old_or_new :
    (path temp text : String) (n : ℕ) (torn : String → String) (files : Dict File)
    → temp ≢ path
    → ((f : File) → lookup path files ≡ some f → f.synced ≡ true)
    → let left =
        lookup path
          (after_crash torn (apply_steps path temp text (first_steps n save_steps) files)) in
      (left ≡ lookup path files) ⊎ (left ≡ some (saved_file text))
crash_leaves_old_or_new path temp text n torn files apart durable = elim (stopped_at n) [
  | inl all ↦ inr (
      rw all (
        lookup-after_crash torn path _
        ∙ ap (crashed torn path) (whole_save path temp text apart files)
        ∙ crash_kept torn path (some (saved_file text)) (λ f e. new_synced f e)))
  | inr early ↦ inl (
      lookup-after_crash torn path _
      ∙ ap (crashed torn path) (steps_keep path temp text apart _ files early)
      ∙ crash_kept torn path (lookup path files) durable)
]
  where
    new_synced : (f : File) → some (saved_file text) ≡ some f → f.synced ≡ true
    new_synced f e = ground (arith, e)

short : (n : ℕ) → n < 7 → length (first_steps n save_steps) ≡ n
unfolding first_steps
short zero h = refl
short (suc zero) h = refl
short (suc (suc zero)) h = refl
short (suc (suc (suc zero))) h = refl
short (suc (suc (suc (suc zero)))) h = refl
short (suc (suc (suc (suc (suc zero))))) h = refl
short (suc (suc (suc (suc (suc (suc zero)))))) h = refl
short (suc (suc (suc (suc (suc (suc (suc n))))))) h = absurd (omega arith)

fault-IsEarly : (n : ℕ) → n < 7 → IsEarly (first_steps n save_steps)
fault-IsEarly n h = elim (stopped_at n) [
  | inl all ↦ absurd (omega (arith, short n h, ap length all))
  | inr early ↦ early
]

-- What saveCleanupState returns tells what the file holds, for a temporary file with a name of its own
-- and a path that is not empty: with an error the file is as it was, and without one it is the new
-- state in full.
pub save_tells :
    (codec : Codec) (n : ℕ) (e path temp : String) (s : CleanupState) (files : Dict File)
    → temp ≢ path
    → path ≢ ""
    → let r = save_cleanup_state codec (n, e) path temp s files in
      ((r.1 ≡ some e) × (lookup path r.0 ≡ lookup path files))
      ⊎ ((r.1 ≡ none) × (lookup path r.0 ≡ some (saved_file (codec.encode s))))
unfolding save_cleanup_state save_with_fault
save_tells codec n e path temp s files apart named =
    let text = codec.encode s in
    let M = λ (r : Dict File × Option String).
      ((r.1 ≡ some e) × (lookup path r.0 ≡ lookup path files))
      ⊎ ((r.1 ≡ none) × (lookup path r.0 ≡ some (saved_file text))) in
    if_false M (str_eq path "") _ _ (ground (arith, eq_iff path "", named)) (
      if_both M (ltb n 7) _ _
        (λ h. inl (
          refl,
          if_both (λ (m : Dict File). lookup path m ≡ lookup path files) (ltb n 2) _ _ (λ _. refl)
              λ _.
                lookup-delete temp path
                  (apply_steps path temp text (first_steps n save_steps) files)
                ∙ if_false (λ (o : Option File). o ≡ lookup path files) (str_eq temp path) _ _
                    (ground (arith, eq_iff temp path, apart))
                    (steps_keep path temp text apart _ files (fault-IsEarly n (ltb→lt n 7 h))),
        ))
        λ _. inr (refl, whole_save path temp text apart files))

upgraded_same : (s : CleanupState) → state_version ≤ s.version → upgraded s ≡ s
unfolding upgraded
upgraded_same s new =
    if_false (λ (t : CleanupState). t ≡ s) (ltb s.version state_version) _ _
      (ge→ltb s.version state_version new) refl

-- A state that was saved without an error is the state that the next load returns, if decoding undoes
-- encoding, the text is not empty and the state's version is not older than this program's.
pub load-save :
    (codec : Codec) (errors : FileErrors) (e path temp base : String) (s : CleanupState)
    (files : Dict File)
    → temp ≢ path
    → path ≢ ""
    → codec.decode (codec.encode s) ≡ some s
    → codec.encode s ≢ ""
    → state_version ≤ s.version
    → let r = save_cleanup_state codec (7, e) path temp s files in
      load_cleanup_state codec errors none path base r.0 ≡ (r.0, loaded s "")
unfolding save_cleanup_state save_with_fault load_cleanup_state load_text decoded upgraded
load-save codec errors e path temp base s files apart named undo written new =
    let unnamed : str_eq path "" ≡ false = ground (arith, eq_iff path "", named) in
    let texted : str_eq (codec.encode s) "" ≡ false =
      ground (arith, eq_iff (codec.encode s) "", written) in
    let left = (save_with_fault (7, e) path temp (codec.encode s) files).0 in
    rw unnamed (
      rw (whole_save path temp (codec.encode s) apart files) (
        rw texted (rw undo (ap (λ (t : CleanupState). (left, loaded t "")) (upgraded_same s new)))))
