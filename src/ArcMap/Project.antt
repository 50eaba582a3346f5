-- ===== src/ArcMap/Project.antt =====
-- sicada/src/algorithms/project.rs: keeping one side of a transducer. The bits are those of
-- `project_properties` in sicada/src/properties.rs.
use sicada.Prelude.{Bool, true, false, if◌then◌else◌, [], ◌∷◌}
use sicada.Weight.{Weight}
use sicada.Arc.{Arc, Label}
use sicada.Properties.Flags.{
  Props, mask, ◌&◌, ◌∪◌, expanded, mutable, error, acceptor, i_deterministic, non_i_deterministic,
  o_deterministic, non_o_deterministic, epsilons, no_epsilons, i_epsilons, no_i_epsilons,
  o_epsilons, no_o_epsilons, i_label_sorted, not_i_label_sorted, o_label_sorted, not_o_label_sorted,
  weighted, unweighted, cyclic, acyclic, initial_cyclic, initial_acyclic, top_sorted,
  not_top_sorted, accessible, not_accessible, co_accessible, not_co_accessible, string, not_string,
  weighted_cycles, unweighted_cycles,
}
use sicada.VectorFst.Defs
use sicada.VectorFst.Defs.{VectorFst}
use sicada.ArcMap.Defs.{ArcMapper, MapFinalAction, MapSymbolsAction, MapOutcome, arc_map}
use sicada.ArcMap.Invert.{carry}

-- Which side to keep.
pub data ProjectType : Type 0 where
  keep_input : ProjectType
  keep_output : ProjectType

abbrev is_input : ProjectType → Bool
is_input ProjectType.keep_input = true
is_input ProjectType.keep_output = false

unfoldable pub project_properties : Props → Bool → Props
unfolding mask
project_properties inprops project_input =
    let kept =
      mask (acceptor ∷ [])
      ∪ mask (
          expanded ∷ mutable ∷ error ∷ weighted ∷ unweighted ∷ weighted_cycles ∷ unweighted_cycles
          ∷ cyclic ∷ acyclic ∷ initial_cyclic ∷ initial_acyclic ∷ top_sorted ∷ not_top_sorted
          ∷ accessible ∷ not_accessible ∷ co_accessible ∷ not_co_accessible ∷ string ∷ not_string
          ∷ [])
        & inprops in
    let of_input =
      kept
      ∪ mask (
          i_deterministic ∷ non_i_deterministic ∷ i_epsilons ∷ no_i_epsilons ∷ i_label_sorted
          ∷ not_i_label_sorted ∷ [])
        & inprops in
    let of_output =
      kept
      ∪ mask (
          o_deterministic ∷ non_o_deterministic ∷ o_epsilons ∷ no_o_epsilons ∷ o_label_sorted
          ∷ not_o_label_sorted ∷ [])
        & inprops in
    if project_input
    then carry inprops not_i_label_sorted not_o_label_sorted (
        carry inprops i_label_sorted o_label_sorted (
          carry inprops no_i_epsilons no_epsilons (
            carry inprops no_i_epsilons no_o_epsilons (
              carry inprops i_epsilons epsilons (
                carry inprops i_epsilons o_epsilons (
                  carry inprops non_i_deterministic non_o_deterministic
                    (carry inprops i_deterministic o_deterministic of_input)))))))
    else carry inprops not_o_label_sorted not_i_label_sorted (
        carry inprops o_label_sorted i_label_sorted (
          carry inprops no_o_epsilons no_epsilons (
            carry inprops no_o_epsilons no_i_epsilons (
              carry inprops o_epsilons epsilons (
                carry inprops o_epsilons i_epsilons (
                  carry inprops non_o_deterministic non_i_deterministic
                    (carry inprops o_deterministic i_deterministic of_output)))))))

module _ {W : Type 0} where
  abbrev pub kept_label : ProjectType → Arc W → Label
  kept_label ProjectType.keep_input = λ arc. arc.ilabel
  kept_label ProjectType.keep_output = λ arc. arc.olabel

  unfoldable pub project_arc : ProjectType → Arc W → Arc W
  project_arc kind arc = record {
    ilabel = kept_label kind arc;
    olabel = kept_label kind arc;
    weight = arc.weight;
    nextstate = arc.nextstate;
  }

  unfoldable pub project_mapper : ProjectType → ArcMapper W
  unfolding project_arc project_properties
  project_mapper kind = record {
    map = project_arc kind;
    final_action = MapFinalAction.no_superfinal;
    input_symbols_action = if is_input kind then MapSymbolsAction.copy else MapSymbolsAction.clear;
    output_symbols_action = if is_input kind then MapSymbolsAction.clear else MapSymbolsAction.copy;
    properties = λ props. project_properties props (is_input kind);
  }

module _ {W : Type 0} ⦃w : Weight W⦄ where
  -- The table of the side that was kept describes both. An error is returned as it is.
  unfoldable pub share_symbols : ProjectType → MapOutcome W → MapOutcome W
  unfolding Defs.set_input_symbols Defs.set_output_symbols
  share_symbols ProjectType.keep_input (MapOutcome.done m) =
      MapOutcome.done (Defs.set_output_symbols m m.isymbols)
  share_symbols ProjectType.keep_output (MapOutcome.done m) =
      MapOutcome.done (Defs.set_input_symbols m m.osymbols)
  share_symbols kind (MapOutcome.label_error m) = MapOutcome.label_error m
  share_symbols kind MapOutcome.panicked = MapOutcome.panicked

  unfoldable pub project : VectorFst W → ProjectType → MapOutcome W
  unfolding share_symbols arc_map project_mapper
  project fst kind = share_symbols kind (arc_map (project_mapper kind) fst)
