-- ===== src/Retention/Pass/Floors.antt =====
-- The floor alert leaves the candidates as they are.
use tinyland_cleanup.Prelude.{
  List, Option, String, [], arith, if_both, mem_str, none, refl, some, ℕ, ◌||◌, ◌∙◌, ◌∷◌, ◌≡◌,
}
use tinyland_cleanup.Retention.Pass.{RetentionPass, Volume, evaluate_floors, floor_loop, floor_of}

floor_of-candidates :
    (floor : ℕ) (v : Volume) (pass : RetentionPass)
    → (floor_of floor v pass).candidates ≡ pass.candidates
unfolding floor_of
floor_of-candidates floor v pass = ground arith

floor_loop-candidates :
    (floor : ℕ) (checked : List String) (vs : List Volume) (pass : RetentionPass)
    → (floor_loop floor checked vs pass).candidates ≡ pass.candidates
unfolding floor_loop
floor_loop-candidates floor checked [] pass = refl
floor_loop-candidates floor checked (v ∷ vs) pass =
    if_both (λ (o : RetentionPass). o.candidates ≡ pass.candidates)
      (v.is_unset || mem_str v.path checked) _ _ (λ _. floor_loop-candidates floor checked vs pass)
      (λ _. floor_loop-candidates floor (v.path ∷ checked) vs _ ∙ floor_of-candidates floor v pass)

pub evaluate_floors-candidates :
    (floor : Option ℕ) (vs : List Volume) (pass : RetentionPass)
    → (evaluate_floors floor vs pass).candidates ≡ pass.candidates
unfolding evaluate_floors
evaluate_floors-candidates none vs pass = refl
evaluate_floors-candidates (some floor) vs pass = floor_loop-candidates floor [] vs pass
