-- ===== src/Nix/Generations/Minimum.antt =====
-- The generations that are always kept.
use tinyland_cleanup.Prelude.{
  All, In, List, [], false, if◌then◌else◌, is_positive, length, pos_part, true, ℕ, ◌+◌, ◌∷◌, ◌≡◌,
  ◌≤◌, ◌⊎◌,
}
use tinyland_cleanup.Nix.Generations.{
  Generation, GenerationPolicy, Retained, exceeds_maximum, is_newer, is_young, mem_number, min_kept,
  protected_numbers, retained, sort_by,
}
use tinyland_cleanup.Accounting.{CleanupTarget}
use tinyland_cleanup.Clock.{Time}

-- Each number once.
abbrev pub Distinct : List ℕ → Type 0
Distinct [] = Unit {0}
Distinct (n ∷ ns) = (mem_number n ns ≡ false) × Distinct ns

-- the list for the rest after one generation
abbrev next_kept : Generation → List ℕ → List ℕ
next_kept g kept = if mem_number g.number kept then kept else g.number ∷ kept

abbrev pub number_of : Generation → ℕ
number_of g = g.number

-- The limit is reached, or every generation is among those kept.
abbrev pub EnoughOrAll : ℕ → List Generation → List ℕ → Type 0
EnoughOrAll limit gs kept =
    (limit ≤ length kept) ⊎ All (λ (g : Generation). mem_number g.number kept ≡ true) gs

-- Why a target may be deleted: it is a generation that is not the current one and that the minimum
-- does not protect; and it is beyond the maximum, or a positive age is set and it is that old.
pub record IsDeletable (p : GenerationPolicy) (gs : List Generation) (now : Time)
    (t : CleanupTarget) : Type 0 where
  pub generation : Generation
  pub one_of : In generation gs
  pub named : t.version ≡ p.number_text generation.number
  pub not_current : generation.is_current ≡ false
  pub unprotected :
      mem_number generation.number (protected_numbers (min_kept p.min_keep) (sort_by is_newer gs))
      ≡ false
  pub allowed :
      (exceeds_maximum (retained p (sort_by is_newer gs) now) generation.number ≡ true)
      ⊎ ((is_positive p.older_than ≡ true) × (generation.created_at + pos_part p.older_than ≤ now))

record Judged (r : Retained) (g : Generation) : Type 0 where
  idle : g.is_current ≡ false
  free : mem_number g.number r.by_minimum ≡ false
  cause :
      (exceeds_maximum r g.number ≡ true)
      ⊎ ((is_positive r.older_than ≡ true) × (is_young r g ≡ false))
