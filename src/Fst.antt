-- ===== src/Fst.antt =====
-- The trait `Fst` of sicada/src/fst.rs: an FST as its reading methods, and what the algorithms rely
-- on when they read one.
use sicada.Prelude.{ℕ, ◌≡◌, Bool, true, not, Option, List, [], length}
use sicada.Weight.{Weight}
use sicada.Arc.{Arc, StateId, no_state}
use sicada.VectorFst.Delete.{count_input, count_output}

pub record Fst (W : Type 0) : Type 0 where
  pub start : Option StateId
  pub final_weight : StateId → W
  pub num_arcs : StateId → ℕ
  pub num_input_epsilons : StateId → ℕ
  pub num_output_epsilons : StateId → ℕ
  pub arcs : StateId → List (Arc W)

module _ {W : Type 0} ⦃w : Weight W⦄ where
  -- A state counts as final when its weight is not zero.
  abbrev pub is_final : Fst W → StateId → Bool
  is_final fst s = not (w.eq (fst.final_weight s) w.zero)

  -- The counts are those of the arcs, and the word that stands for no state has no arc and is not
  -- final.
  pub record IsFst (fst : Fst W) : Type 0 where
    pub num_arcs_eq : (s : StateId) → fst.num_arcs s ≡ length (fst.arcs s)
    pub num_input_eq : (s : StateId) → fst.num_input_epsilons s ≡ count_input (fst.arcs s)
    pub num_output_eq : (s : StateId) → fst.num_output_epsilons s ≡ count_output (fst.arcs s)
    pub no_state_arcs : fst.arcs no_state ≡ []
    pub no_state_final : w.eq (fst.final_weight no_state) w.zero ≡ true
