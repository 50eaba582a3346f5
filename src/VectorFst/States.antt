-- ===== src/VectorFst/States.antt =====
-- What each method of vector_fst.rs makes of the list of states. The property bits stay out of it.
use sicada.Prelude.{
  ℕ, ◌≡◌, ◌∙◌, inl, inr, map, List, Option-cases, get_elem?, set, modify, set-modify, modify-none,
  arith,
}
use sicada.Weight.{Weight}
use sicada.Arc.{Arc, StateId}
use sicada.VectorFst.State
use sicada.VectorFst.State.{VectorState}
use sicada.VectorFst.Defs
use sicada.VectorFst.Defs.{VectorFst}

module _ {W : Type 0} (fst : VectorFst W) (i : StateId) where
  pub delete_arcs_n-states :
      (n : ℕ)
      → (Defs.delete_arcs_n fst i n).states ≡ modify fst.states i (λ s. State.delete_arcs_n s n)
  unfolding Defs.delete_arcs_n
  delete_arcs_n-states n = elim (Option-cases (get_elem? fst.states i)) [
    | inl e ↦ rw (e, Defs.delete_arcs_n) (modify-none fst.states i _ e)
    | inr (s, e) ↦
        rw (e, Defs.delete_arcs_n) (set-modify fst.states i (λ t. State.delete_arcs_n t n) s e)
  ]

  pub delete_arcs-states :
      (Defs.delete_arcs fst i).states ≡ modify fst.states i State.delete_all_arcs
  unfolding Defs.delete_arcs
  delete_arcs-states = elim (Option-cases (get_elem? fst.states i)) [
    | inl e ↦ rw (e, Defs.delete_arcs) (modify-none fst.states i _ e)
    | inr (s, e) ↦ rw (e, Defs.delete_arcs) (set-modify fst.states i State.delete_all_arcs s e)
  ]

-- The bookkeeping of the property bits changes no state.
update_properties-states :
    {W : Type 0} ⦃w : Weight W⦄ (fst : VectorFst W) (i : StateId)
    → (Defs.update_properties_after_add_arc fst i).states ≡ fst.states
unfolding Defs.update_properties_after_add_arc
update_properties-states fst i = ground arith

module _ {W : Type 0} ⦃w : Weight W⦄ (fst : VectorFst W) (i : StateId) where
  pub set_final-states :
      (weight : W)
      → (Defs.set_final fst i weight).states
        ≡ modify fst.states i (λ s. record s { final_weight = weight })
  unfolding Defs.set_final
  set_final-states weight = elim (Option-cases (get_elem? fst.states i)) [
    | inl e ↦ rw (e, Defs.set_final) (modify-none fst.states i _ e)
    | inr (s, e) ↦
        rw (e, Defs.set_final)
          (set-modify fst.states i (λ t. record t { final_weight = weight }) s e)
  ]

  pub add_arc-states :
      (arc : Arc W)
      → (Defs.add_arc fst i arc).states ≡ modify fst.states i (λ s. State.add_arc s arc)
  unfolding Defs.add_arc
  add_arc-states arc = elim (Option-cases (get_elem? fst.states i)) [
    | inl e ↦ rw (e, Defs.add_arc) (modify-none fst.states i _ e)
    | inr (s, e) ↦
        rw (e, Defs.add_arc)
          (update_properties-states (record fst { states = set fst.states i (State.add_arc s arc) })
              i
            ∙ set-modify fst.states i (λ t. State.add_arc t arc) s e)
  ]

  pub add_arc-start : (arc : Arc W) → (Defs.add_arc fst i arc).start ≡ fst.start
  unfolding Defs.add_arc Defs.update_properties_after_add_arc
  add_arc-start arc = ground arith

  pub set_final-start : (weight : W) → (Defs.set_final fst i weight).start ≡ fst.start
  unfolding Defs.set_final
  set_final-start weight = ground arith

  pub mutate_arcs-states :
      (f : Arc W → Arc W)
      → (Defs.mutate_arcs fst i f).states
        ≡ modify fst.states i (λ s. record s { arcs = map f s.arcs })
  unfolding Defs.mutate_arcs
  mutate_arcs-states f = elim (Option-cases (get_elem? fst.states i)) [
    | inl e ↦ rw (e, Defs.mutate_arcs) (modify-none fst.states i _ e)
    | inr (s, e) ↦
        rw (e, Defs.mutate_arcs)
          (set-modify fst.states i (λ t. record t { arcs = map f t.arcs }) s e)
  ]

  pub arcs_mut-states :
      (left : List (Arc W))
      → (Defs.arcs_mut fst i left).states
        ≡ modify fst.states i (λ s. record s { arcs = Defs.overwrite s.arcs left })
  unfolding Defs.arcs_mut
  arcs_mut-states left = elim (Option-cases (get_elem? fst.states i)) [
    | inl e ↦ rw (e, Defs.arcs_mut) (modify-none fst.states i _ e)
    | inr (s, e) ↦
        rw (e, Defs.arcs_mut)
          (set-modify fst.states i (λ t. record t { arcs = Defs.overwrite t.arcs left }) s e)
  ]
