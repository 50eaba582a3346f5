-- ===== src/ArcMap/Invert.antt =====
-- `invert` of sicada/src/algorithms/invert.rs, and `invert_properties` of sicada/src/properties.rs.
use sicada.Prelude.{[], ◌∷◌, if◌then◌else◌}
use sicada.Weight.{Weight}
use sicada.Arc.{Arc}
use sicada.Properties.Flags.{
  Flag, Props, mask, ◌&◌, ◌∪◌, expanded, mutable, error, acceptor, not_acceptor, i_deterministic,
  non_i_deterministic, o_deterministic, non_o_deterministic, epsilons, no_epsilons, i_epsilons,
  no_i_epsilons, o_epsilons, no_o_epsilons, i_label_sorted, not_i_label_sorted, o_label_sorted,
  not_o_label_sorted, weighted, unweighted, cyclic, acyclic, initial_cyclic, initial_acyclic,
  top_sorted, not_top_sorted, accessible, not_accessible, co_accessible, not_co_accessible, string,
  not_string, weighted_cycles, unweighted_cycles,
}
use sicada.VectorFst.Defs
use sicada.VectorFst.Defs.{VectorFst}
use sicada.ArcMap.Defs.{ArcMapper, MapFinalAction, MapSymbolsAction, MapOutcome, arc_map}

-- `if (from & inprops) != 0 { outprops |= to; }`.
abbrev pub carry : Props → Flag → Flag → Props → Props
carry inprops from to props = if inprops from then props ∪ mask (to ∷ []) else props

unfoldable pub invert_properties : Props → Props
unfolding mask
invert_properties inprops =
    let kept =
      mask (
        expanded ∷ mutable ∷ error ∷ acceptor ∷ not_acceptor ∷ epsilons ∷ no_epsilons ∷ weighted
        ∷ unweighted ∷ weighted_cycles ∷ unweighted_cycles ∷ cyclic ∷ acyclic ∷ initial_cyclic
        ∷ initial_acyclic ∷ top_sorted ∷ not_top_sorted ∷ accessible ∷ not_accessible
        ∷ co_accessible ∷ not_co_accessible ∷ string ∷ not_string ∷ [])
      & inprops in
    let deterministic = carry inprops o_deterministic i_deterministic (
      carry inprops non_i_deterministic non_o_deterministic
        (carry inprops i_deterministic o_deterministic kept)) in
    let determinism = carry inprops non_o_deterministic non_i_deterministic deterministic in
    let inputs =
      carry inprops no_i_epsilons no_o_epsilons (carry inprops i_epsilons o_epsilons determinism) in
    let both =
      carry inprops no_o_epsilons no_i_epsilons (carry inprops o_epsilons i_epsilons inputs) in
    let sorted =
      carry inprops not_i_label_sorted not_o_label_sorted
        (carry inprops i_label_sorted o_label_sorted both) in
    carry inprops not_o_label_sorted not_i_label_sorted
      (carry inprops o_label_sorted i_label_sorted sorted)

module _ {W : Type 0} where
  unfoldable pub invert_arc : Arc W → Arc W
  invert_arc arc = record {
    ilabel = arc.olabel;
    olabel = arc.ilabel;
    weight = arc.weight;
    nextstate = arc.nextstate;
  }

  unfoldable pub invert_mapper : ArcMapper W
  unfolding invert_arc invert_properties
  invert_mapper = record {
    map = invert_arc;
    final_action = MapFinalAction.no_superfinal;
    input_symbols_action = MapSymbolsAction.clear;
    output_symbols_action = MapSymbolsAction.clear;
    properties = invert_properties;
  }

module _ {W : Type 0} ⦃w : Weight W⦄ where
  -- An error of the mapping is returned as it is.
  unfoldable pub swap_symbols : VectorFst W → MapOutcome W → MapOutcome W
  unfolding Defs.set_input_symbols Defs.set_output_symbols
  swap_symbols fst (MapOutcome.done mapped) =
      MapOutcome.done
        (Defs.set_output_symbols (Defs.set_input_symbols mapped fst.osymbols) fst.isymbols)
  swap_symbols fst (MapOutcome.label_error mapped) = MapOutcome.label_error mapped
  swap_symbols fst MapOutcome.panicked = MapOutcome.panicked

  unfoldable pub invert : VectorFst W → MapOutcome W
  unfolding swap_symbols arc_map invert_mapper
  invert fst = swap_symbols fst (arc_map invert_mapper fst)
