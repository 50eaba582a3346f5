-- ===== src/Properties/Update.antt =====
-- The functions of sicada/src/properties.rs that follow one change of an FST.
use sicada.Prelude.{
  Bool, not, ◌&&◌, ◌||◌, Option, none, some, [], ◌∷◌, ltb, leb, ◌==◌, if◌then◌else◌,
}
use sicada.Weight.{Weight}
use sicada.Arc.{Arc, StateId, epsilon}
use sicada.Properties.Flags.{
  Flag, Props, mask, ◌&◌, ◌∪◌, without, error, acceptor, not_acceptor, epsilons, no_epsilons,
  i_epsilons, no_i_epsilons, o_epsilons, no_o_epsilons, i_label_sorted, not_i_label_sorted,
  o_label_sorted, not_o_label_sorted, weighted, unweighted, acyclic, initial_acyclic, top_sorted,
  not_top_sorted,
}
use sicada.Properties.Masks.{
  k_null_properties, k_set_start_properties, k_set_final_properties, k_add_state_properties,
  k_add_arc_properties, k_set_arc_properties, k_delete_states_properties, k_delete_arcs_properties,
}

abbrev only : Flag → Props
only f = mask (f ∷ [])

-- `if test { props |= on; props &= !off; }`.
abbrev settle : Bool → Flag → Flag → Props → Props
settle test on off props = if test then without (props ∪ only on) (only off) else props

-- `if test { props &= !off; }`.
abbrev drop_if : Bool → Flag → Props → Props
drop_if test off props = if test then without props (only off) else props

unfoldable pub set_start_properties : Props → Props
unfolding mask k_set_start_properties
set_start_properties inprops =
    let outprops = inprops & k_set_start_properties in
    if inprops acyclic then outprops ∪ only initial_acyclic else outprops

unfoldable pub add_state_properties : Props → Props
unfolding k_add_state_properties
add_state_properties inprops = inprops & k_add_state_properties

unfoldable pub delete_states_properties : Props → Props
unfolding k_delete_states_properties
delete_states_properties inprops = inprops & k_delete_states_properties

unfoldable pub delete_all_states_properties : Props → Props → Props
unfolding mask k_null_properties
delete_all_states_properties inprops static_props =
    inprops & only error ∪ k_null_properties ∪ static_props

unfoldable pub delete_arcs_properties : Props → Props
unfolding k_delete_arcs_properties
delete_arcs_properties inprops = inprops & k_delete_arcs_properties

module _ {W : Type 0} ⦃w : Weight W⦄ where
  unfoldable pub is_trivial_weight : W → Bool
  is_trivial_weight weight = w.eq weight w.zero || w.eq weight w.one

  unfoldable pub set_final_properties : Props → W → W → Props
  unfolding mask k_set_final_properties
  set_final_properties inprops old_weight new_weight =
      let dropped =
        drop_if (not (w.eq old_weight w.zero) && not (w.eq old_weight w.one)) weighted inprops in
      let settled =
        settle (not (w.eq new_weight w.zero) && not (w.eq new_weight w.one)) weighted unweighted
          dropped in
      settled & (k_set_final_properties ∪ mask (weighted ∷ unweighted ∷ []))

  -- What the labels of an added or replacing arc settle.
  abbrev settle_labels : Arc W → Props → Props
  settle_labels arc props =
      let a = settle (not (arc.ilabel == arc.olabel)) not_acceptor acceptor props in
      let b = settle (arc.ilabel == epsilon) i_epsilons no_i_epsilons a in
      let c = settle (arc.ilabel == epsilon && arc.olabel == epsilon) epsilons no_epsilons b in
      settle (arc.olabel == epsilon) o_epsilons no_o_epsilons c

  abbrev settle_order : Option (Arc W) → Arc W → Props → Props
  settle_order none arc props = props
  settle_order (some prev) arc props =
      let i = settle (ltb arc.ilabel prev.ilabel) not_i_label_sorted i_label_sorted props in
      settle (ltb arc.olabel prev.olabel) not_o_label_sorted o_label_sorted i

  unfoldable pub add_arc_properties : Props → StateId → Arc W → Option (Arc W) → Props
  unfolding mask k_add_arc_properties
  add_arc_properties inprops s arc prev_arc =
      let labels = settle_order prev_arc arc (settle_labels arc inprops) in
      let weights =
        settle (not (w.eq arc.weight w.zero) && not (w.eq arc.weight w.one)) weighted unweighted
          labels in
      let sorted = settle (leb arc.nextstate s) not_top_sorted top_sorted weights in
      let kept =
        sorted
        & (k_add_arc_properties
            ∪ mask (
                acceptor ∷ no_epsilons ∷ no_i_epsilons ∷ no_o_epsilons ∷ i_label_sorted
                ∷ o_label_sorted ∷ unweighted ∷ top_sorted ∷ [])) in
      if kept top_sorted then kept ∪ mask (acyclic ∷ initial_acyclic ∷ []) else kept

  unfoldable pub set_arc_properties : Props → Arc W → Arc W → Props
  unfolding mask k_set_arc_properties is_trivial_weight
  set_arc_properties inprops old_arc new_arc =
      let a = drop_if (not (old_arc.ilabel == old_arc.olabel)) not_acceptor inprops in
      let b = drop_if (old_arc.ilabel == epsilon) i_epsilons a in
      let c = drop_if (old_arc.ilabel == epsilon && old_arc.olabel == epsilon) epsilons b in
      let d = drop_if (old_arc.olabel == epsilon) o_epsilons c in
      let e = drop_if (not (is_trivial_weight old_arc.weight)) weighted d in
      let f = settle_labels new_arc e in
      let g = settle (not (is_trivial_weight new_arc.weight)) weighted unweighted f in
      g
      & (k_set_arc_properties
          ∪ mask (
              acceptor ∷ not_acceptor ∷ epsilons ∷ no_epsilons ∷ i_epsilons ∷ no_i_epsilons
              ∷ o_epsilons ∷ no_o_epsilons ∷ weighted ∷ unweighted ∷ []))
