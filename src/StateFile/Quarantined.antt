-- ===== src/StateFile/Quarantined.antt =====
-- A load loses no file: an undecodable state file is moved to a name that was free.
use tinyland_cleanup.StateFile.{
  QuarantineAnswer, try_name, FileErrors, loaded, not_quarantined, quarantined_at, rename, Codec,
  File, Loaded, decoded, first_free, is_absent, load_cleanup_state, load_text, move_found,
  quarantine, quarantine_result, quarantine_to,
}
use tinyland_cleanup.Prelude.{
  inl, inr, lookup-insert_self, ◌⊎◌, ap, Dict, Option, String, arith, delete, eq_iff, if_both,
  if_false, lookup, lookup-delete, lookup-insert_ne, none, refl, some, str_eq, suc, zero, ℕ, ◌∙◌,
  ◌≡◌, ◌≢◌,
}
use tinyland_cleanup.Records.{new_cleanup_state, CleanupState}
use mathlib.Core.Path.{subst}

try_name-new :
    (target free : String) (failure : Option String) (o : Option File) (rest : QuarantineAnswer)
    (files : Dict File)
    → lookup target files ≡ o
    → (rest ≡ quarantined_at free → lookup free files ≡ none)
    → try_name target failure (is_absent o) rest ≡ quarantined_at free
    → lookup free files ≡ none
try_name-new target free (some e) o rest files there further h = absurd (ground (arith, h))
try_name-new target free none none rest files there further h =
    let same : target ≡ free = ground (arith, h) in subst (λ t. lookup t files ≡ none) same there
try_name-new target free none (some f) rest files there further h = further h

first_free-new :
    (codec : Codec) (errors : FileErrors) (base target : String) (i rounds : ℕ) (files : Dict File)
    (free : String)
    → first_free codec errors base target i rounds files ≡ quarantined_at free
    → lookup free files ≡ none
unfolding first_free
first_free-new codec errors base target i zero files free = λ h. absurd (ground (arith, h))
first_free-new codec errors base target i (suc rounds) files free =
    try_name-new target free (errors.lstat_error target) (lookup target files) _ files refl
      (first_free-new codec errors base (codec.numbered base i) (suc i) rounds files free)

moved :
    (path target other : String) (o : Option File) (files : Dict File)
    → lookup path files ≡ o
    → lookup target files ≡ none
    → path ≢ other
    → lookup other files ≢ none
    → lookup other (move_found path target o files) ≡ lookup other files
moved path target other none files h free apart there = refl
moved path target other (some f) files h free apart there =
    lookup-insert_ne target other f (delete path files)
      (λ e. there (subst (λ t. lookup t files ≡ none) e free))
    ∙ lookup-delete path other files
    ∙ if_false (λ (o : Option File). o ≡ lookup other files) (str_eq path other) _ _
        (ground (arith, eq_iff path other, apart)) refl

-- The undecodable file under its new name, which was free, and nothing else changed.
pub record IsMoved (path : String) (files : Dict File) (r : Dict File × Loaded) : Type 0 where
  pub target : String
  pub told : r.1 ≡ loaded new_cleanup_state target
  pub was_free : lookup target files ≡ none
  pub arrived : lookup target r.0 ≡ lookup path files
  pub renamed : r.0 ≡ rename path target files

abbrev LosesNothing : String → Dict File → Dict File × Loaded → Type 0
LosesNothing path files r = (r.0 ≡ files) ⊎ IsMoved path files r

arrives :
    (path target : String) (o : Option File) (files : Dict File)
    → lookup target files ≡ none
    → lookup target (move_found path target o files) ≡ o
arrives path target none files free = free
arrives path target (some f) files free = lookup-insert_self target f (delete path files)

result_kept :
    (path : String) (failure : Option String) (free : QuarantineAnswer) (files : Dict File)
    → ((target : String) → free ≡ quarantined_at target → lookup target files ≡ none)
    → LosesNothing path files (quarantine_result (quarantine_to path failure free files))
unfolding quarantine_to quarantine_result
result_kept path failure (not_quarantined e) files new = inl refl
result_kept path (some e) (quarantined_at target) files new = inl refl
result_kept path none (quarantined_at target) files new = inr (record {
  target = target;
  told = refl;
  was_free = new target refl;
  arrived = arrives path target (lookup path files) files (new target refl);
  renamed = refl;
})

decoded_kept :
    (codec : Codec) (errors : FileErrors) (path base : String) (o : Option CleanupState)
    (files : Dict File)
    → LosesNothing path files (decoded codec errors path base o files)
unfolding decoded quarantine
decoded_kept codec errors path base none files =
    result_kept path errors.rename_error (first_free codec errors base base 1 101 files) files
      (λ target. first_free-new codec errors base base 1 101 files target)
decoded_kept codec errors path base (some s) files = inl refl

load_kept :
    (codec : Codec) (errors : FileErrors) (read_error : Option String) (path base : String)
    (files : Dict File)
    → LosesNothing path files (load_cleanup_state codec errors read_error path base files)
unfolding load_cleanup_state load_text
load_kept codec errors (some e) path base files =
    if_both (LosesNothing path files) (str_eq path "") _ _ (λ _. inl refl) λ _. inl refl
load_kept codec errors none path base files =
    if_both (LosesNothing path files) (str_eq path "") _ _ (λ _. inl refl)
      λ _. by_file (lookup path files)
  where
    by_file : (o : Option File) → LosesNothing path files (load_text codec errors path base o files)
    by_file none = inl refl
    by_file (some f) =
        if_both (LosesNothing path files) (str_eq f.text "") _ _ (λ _. inl refl)
          λ _. decoded_kept codec errors path base (codec.decode f.text) files

-- Loading leaves every file other than the state file as it is, an earlier quarantined one included.
-- It leaves the state file as well, whatever error it meets, or it tells a name that no file had, and
-- the state file is then found in full under that name.
pub load_keeps_files :
    (codec : Codec) (errors : FileErrors) (read_error : Option String) (path base other : String)
    (files : Dict File)
    → path ≢ other
    → lookup other files ≢ none
    → let r = load_cleanup_state codec errors read_error path base files in
      (lookup other r.0 ≡ lookup other files) × ((r.0 ≡ files) ⊎ IsMoved path files r)
load_keeps_files codec errors read_error path base other files apart there =
    let kept = load_kept codec errors read_error path base files in
    let r = load_cleanup_state codec errors read_error path base files in
    (
      elim kept [
        | inl same ↦ ap (lookup other) same
        | inr m ↦
            ap (lookup other) m.renamed
            ∙ moved path m.target other (lookup path files) files refl m.was_free apart there
      ],
      kept,
    )
