-- ===== src/Config/Ladder.antt =====
-- What a mount configuration that passes Validate satisfies.
use tinyland_cleanup.Prelude.{
  Option, some, List, [], arith, negsuc, none, pos, refl, suc, zero, ℕ, ℤ, ◌<◌, ◌↔◌, ◌∷◌, ◌≡◌, ◌≤◌,
}
use tinyland_cleanup.Config.{
  MountError, check_target, MountConfig, check_ladder, ladder_of, validate,
}

-- Each step is unset or a percentage from 1 to 100, and no set step is below the one before it.
abbrev pub IsLadder : ℕ → List ℤ → Type 0
IsLadder prev [] = Unit {0}
IsLadder prev (pos zero ∷ steps) = IsLadder prev steps
IsLadder prev (pos (suc n) ∷ steps) = (suc n ≤ 100) × (prev ≤ suc n) × IsLadder (suc n) steps
IsLadder prev (negsuc n ∷ steps) = ⊥

check_ladder_sound :
    (prev : ℕ) (steps : List ℤ) → check_ladder (pos prev) steps ≡ none → IsLadder prev steps
unfolding check_ladder
check_ladder_sound prev [] h = tt
check_ladder_sound prev (pos zero ∷ steps) h = check_ladder_sound prev steps h
check_ladder_sound prev (pos (suc n) ∷ steps) h =
    (ground arith, ground arith, check_ladder_sound (suc n) steps (ground arith))
check_ladder_sound prev (negsuc n ∷ steps) h = ground arith

check_ladder_complete :
    (prev : ℕ) (steps : List ℤ) → IsLadder prev steps → check_ladder (pos prev) steps ≡ none
unfolding check_ladder
check_ladder_complete prev [] h = refl
check_ladder_complete prev (pos zero ∷ steps) h = check_ladder_complete prev steps h
check_ladder_complete prev (pos (suc n) ∷ steps) h =
    ground (arith, check_ladder_complete (suc n) steps h.2)
check_ladder_complete prev (negsuc n ∷ steps) h = absurd h

-- A target is unset (0) or from 1 to 99.
abbrev pub IsTarget : ℤ → Type 0
IsTarget (pos n) = n < 100
IsTarget (negsuc n) = ⊥

IsTarget-sound : (o : Option MountError) (t : ℤ) → check_target o t ≡ none → (o ≡ none) × IsTarget t
unfolding check_target
IsTarget-sound (some e) t h = cc
IsTarget-sound none (pos n) h = (refl, ground arith)
IsTarget-sound none (negsuc n) h = ground arith

target_complete : (t : ℤ) → IsTarget t → check_target none t ≡ none
unfolding check_target
target_complete (pos n) h = ground arith
target_complete (negsuc n) h = absurd h

-- Validate accepts a mount exactly when its byte ladder, unset steps left out, ascends through
-- percentages from 1 to 100, and its target is unset or from 1 to 99.
pub validate_iff :
    (m : MountConfig)
    → (validate m ≡ none) ↔ (IsLadder 0 (ladder_of m) × IsTarget m.target_used_percent)
unfolding validate
validate_iff m = (sound, complete)
  where
    sound : validate m ≡ none → IsLadder 0 (ladder_of m) × IsTarget m.target_used_percent
    sound h =
        let (passed, target) = IsTarget-sound _ m.target_used_percent h in
        (check_ladder_sound 0 (ladder_of m) passed, target)

    complete : IsLadder 0 (ladder_of m) × IsTarget m.target_used_percent → validate m ≡ none
    complete h =
        rw (check_ladder_complete 0 (ladder_of m) h.0) (target_complete m.target_used_percent h.1)
