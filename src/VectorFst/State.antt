-- ===== src/VectorFst/State.antt =====
-- `VectorState` of sicada/src/fsts/vector_fst.rs: a state's final weight, its arcs, and the cached
-- counts of arcs with an epsilon on the input and on the output side. `reserve` calls leave no
-- trace.
use sicada.Prelude.{
  ℕ, zero, suc, ◌+◌, ◌-◌, min, Option, none, some, List, [], ◌∷◌, ◌++◌, ◌==◌, if◌then◌else◌, length,
}
use sicada.Weight.{Weight}
use sicada.Arc.{Arc, epsilon}

pub record VectorState (W : Type 0) : Type 0 where
  pub final_weight : W
  pub arcs : List (Arc W)
  pub niepsilons : ℕ
  pub noepsilons : ℕ

-- The last element, taken off.
unfoldable pub pop {ℓ} : {A : Type ℓ} → List A → Option (List A × A)
pop [] = none
pop (x ∷ []) = some ([], x)
pop (x ∷ y ∷ xs) = elim (pop (y ∷ xs)) [ none ↦ none | some (init, last) ↦ some (x ∷ init, last) ]

module _ {W : Type 0} where
  unfoldable pub increment_num_epsilons : VectorState W → Arc W → VectorState W
  increment_num_epsilons s arc = record s {
    niepsilons = if arc.ilabel == epsilon then s.niepsilons + 1 else s.niepsilons;
    noepsilons = if arc.olabel == epsilon then s.noepsilons + 1 else s.noepsilons;
  }

  unfoldable pub add_arc : VectorState W → Arc W → VectorState W
  unfolding increment_num_epsilons
  add_arc s arc =
      let counted = increment_num_epsilons s arc in
      record counted { arcs = counted.arcs ++ arc ∷ [] }

  -- One round of the loop: the last arc goes, and the counts of its epsilons with it. The counts are
  -- at least one where an epsilon is popped, so they never run below 0.
  unfoldable pub without_last : VectorState W → List (Arc W) → Arc W → VectorState W
  without_last s rest arc = record {
    final_weight = s.final_weight;
    arcs = rest;
    niepsilons = if arc.ilabel == epsilon then s.niepsilons - 1 else s.niepsilons;
    noepsilons = if arc.olabel == epsilon then s.noepsilons - 1 else s.noepsilons;
  }

  unfoldable pub delete_arcs_loop : ℕ → VectorState W → VectorState W
  unfolding pop without_last
  delete_arcs_loop zero s = s
  delete_arcs_loop (suc n) s = elim (pop s.arcs) [
    | none ↦ s
    | some (rest, arc) ↦ delete_arcs_loop n (without_last s rest arc)
  ]

  unfoldable pub delete_arcs_n : VectorState W → ℕ → VectorState W
  unfolding delete_arcs_loop
  delete_arcs_n s n = delete_arcs_loop (min n (length s.arcs)) s

  unfoldable pub delete_all_arcs : VectorState W → VectorState W
  delete_all_arcs s = record s { arcs = []; niepsilons = 0; noepsilons = 0 }

module _ {W : Type 0} ⦃w : Weight W⦄ where
  unfoldable pub new : VectorState W
  new = record { final_weight = w.zero; arcs = []; niepsilons = 0; noepsilons = 0 }
