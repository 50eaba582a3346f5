-- ===== src/VectorFst/AsFst.antt =====
-- `Fst` for `VectorFst`, sicada/src/fsts/vector_fst.rs.
use sicada.Prelude.{
  ℕ, zero, suc, ◌≡◌, refl, ◌≤◌, true, none, List, [], ◌∷◌, length, get_elem?, Option-cases, inl,
  inr, arith,
}
use sicada.Weight.{Weight}
use sicada.Arc.{StateId, no_state}
use sicada.Fst.{Fst, IsFst}
use sicada.VectorFst.Defs.{
  VectorFst, arcs, num_arcs, num_input_epsilons, num_output_epsilons, final_weight,
}
use sicada.VectorFst.Delete.{count_input, count_output}
use sicada.VectorFst.Counted.{AllCounted, AllCounted-get}

get_elem?-past : {A : Type 0} (xs : List A) (i : ℕ) → length xs ≤ i → get_elem? xs i ≡ none
get_elem?-past [] i h = refl
get_elem?-past (x ∷ xs) zero h = absurd (omega (arith, h))
get_elem?-past (x ∷ xs) (suc i) h = get_elem?-past xs i (omega (arith, h))

module _ {W : Type 0} ⦃w : Weight W⦄ where
  unfoldable pub as_fst : VectorFst W → Fst W
  unfolding arcs num_arcs num_input_epsilons num_output_epsilons final_weight
  as_fst fst = record {
    start = fst.start;
    final_weight = final_weight fst;
    num_arcs = num_arcs fst;
    num_input_epsilons = num_input_epsilons fst;
    num_output_epsilons = num_output_epsilons fst;
    arcs = arcs fst;
  }

  past_arcs : (fst : VectorFst W) (s : StateId) → length fst.states ≤ s → arcs fst s ≡ []
  unfolding arcs
  past_arcs fst s h = rw (arcs, get_elem?-past fst.states s h) refl

  past_final :
      (fst : VectorFst W) (s : StateId) → length fst.states ≤ s → final_weight fst s ≡ w.zero
  unfolding final_weight
  past_final fst s h = rw (final_weight, get_elem?-past fst.states s h) refl

  num_arcs-arcs : (fst : VectorFst W) (s : StateId) → num_arcs fst s ≡ length (arcs fst s)
  unfolding num_arcs arcs
  num_arcs-arcs fst s = elim (Option-cases (get_elem? fst.states s)) [
    | inl e ↦ rw (num_arcs, arcs, e) refl
    | inr (t, e) ↦ rw (num_arcs, arcs, e) refl
  ]

  num_input-arcs :
      (fst : VectorFst W) (s : StateId)
      → AllCounted fst.states
      → num_input_epsilons fst s ≡ count_input (arcs fst s)
  unfolding num_input_epsilons arcs count_input
  num_input-arcs fst s h = elim (Option-cases (get_elem? fst.states s)) [
    | inl e ↦ rw (num_input_epsilons, arcs, e) refl
    | inr (t, e) ↦ rw (num_input_epsilons, arcs, e) (AllCounted-get fst.states s h e).input
  ]

  num_output-arcs :
      (fst : VectorFst W) (s : StateId)
      → AllCounted fst.states
      → num_output_epsilons fst s ≡ count_output (arcs fst s)
  unfolding num_output_epsilons arcs count_output
  num_output-arcs fst s h = elim (Option-cases (get_elem? fst.states s)) [
    | inl e ↦ rw (num_output_epsilons, arcs, e) refl
    | inr (t, e) ↦ rw (num_output_epsilons, arcs, e) (AllCounted-get fst.states s h e).output
  ]

  -- An FST whose cached counts are right, and whose number of states is at most the word that stands
  -- for no state, reads the way the algorithms rely on.
  pub as_fst-IsFst :
      (fst : VectorFst W)
      → w.eq w.zero w.zero ≡ true
      → AllCounted fst.states
      → length fst.states ≤ no_state
      → IsFst (as_fst fst)
  unfolding as_fst
  as_fst-IsFst fst zero_eq h bound = record {
    num_arcs_eq = num_arcs-arcs fst;
    num_input_eq = λ s. num_input-arcs fst s h;
    num_output_eq = λ s. num_output-arcs fst s h;
    no_state_arcs = past_arcs fst no_state bound;
    no_state_final = rw (past_final fst no_state bound) zero_eq;
  }
