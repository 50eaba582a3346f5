-- ===== src/Properties/Masks.antt =====
-- The composite constants of sicada/src/properties.rs that the mutating operations use.
use sicada.Prelude.{[], ◌∷◌}
use sicada.Properties.Flags.{
  Props, mask, expanded, mutable, error, acceptor, not_acceptor, i_deterministic,
  non_i_deterministic, o_deterministic, non_o_deterministic, epsilons, no_epsilons, i_epsilons,
  no_i_epsilons, o_epsilons, no_o_epsilons, i_label_sorted, not_i_label_sorted, o_label_sorted,
  not_o_label_sorted, weighted, unweighted, cyclic, acyclic, initial_cyclic, initial_acyclic,
  top_sorted, not_top_sorted, accessible, not_accessible, co_accessible, not_co_accessible, string,
  not_string, weighted_cycles, unweighted_cycles,
}

unfoldable pub k_null_properties : Props
unfolding mask
k_null_properties = mask (
    acceptor ∷ i_deterministic ∷ o_deterministic ∷ no_epsilons ∷ no_i_epsilons ∷ no_o_epsilons
    ∷ i_label_sorted ∷ o_label_sorted ∷ unweighted ∷ acyclic ∷ initial_acyclic ∷ top_sorted
    ∷ accessible ∷ co_accessible ∷ string ∷ unweighted_cycles ∷ [])

unfoldable pub k_copy_properties : Props
unfolding mask
k_copy_properties = mask (
    error ∷ acceptor ∷ not_acceptor ∷ i_deterministic ∷ non_i_deterministic ∷ o_deterministic
    ∷ non_o_deterministic ∷ epsilons ∷ no_epsilons ∷ i_epsilons ∷ no_i_epsilons ∷ o_epsilons
    ∷ no_o_epsilons ∷ i_label_sorted ∷ not_i_label_sorted ∷ o_label_sorted ∷ not_o_label_sorted
    ∷ weighted ∷ unweighted ∷ cyclic ∷ acyclic ∷ initial_cyclic ∷ initial_acyclic ∷ top_sorted
    ∷ not_top_sorted ∷ accessible ∷ not_accessible ∷ co_accessible ∷ not_co_accessible ∷ string
    ∷ not_string ∷ weighted_cycles ∷ unweighted_cycles ∷ [])

unfoldable pub k_set_start_properties : Props
unfolding mask
k_set_start_properties = mask (
    expanded ∷ mutable ∷ error ∷ acceptor ∷ not_acceptor ∷ i_deterministic ∷ non_i_deterministic
    ∷ o_deterministic ∷ non_o_deterministic ∷ epsilons ∷ no_epsilons ∷ i_epsilons ∷ no_i_epsilons
    ∷ o_epsilons ∷ no_o_epsilons ∷ i_label_sorted ∷ not_i_label_sorted ∷ o_label_sorted
    ∷ not_o_label_sorted ∷ weighted ∷ unweighted ∷ cyclic ∷ acyclic ∷ top_sorted ∷ not_top_sorted
    ∷ co_accessible ∷ not_co_accessible ∷ weighted_cycles ∷ unweighted_cycles ∷ [])

unfoldable pub k_set_final_properties : Props
unfolding mask
k_set_final_properties = mask (
    expanded ∷ mutable ∷ error ∷ acceptor ∷ not_acceptor ∷ i_deterministic ∷ non_i_deterministic
    ∷ o_deterministic ∷ non_o_deterministic ∷ epsilons ∷ no_epsilons ∷ i_epsilons ∷ no_i_epsilons
    ∷ o_epsilons ∷ no_o_epsilons ∷ i_label_sorted ∷ not_i_label_sorted ∷ o_label_sorted
    ∷ not_o_label_sorted ∷ cyclic ∷ acyclic ∷ initial_cyclic ∷ initial_acyclic ∷ top_sorted
    ∷ not_top_sorted ∷ accessible ∷ not_accessible ∷ weighted_cycles ∷ unweighted_cycles ∷ [])

unfoldable pub k_add_state_properties : Props
unfolding mask
k_add_state_properties = mask (
    expanded ∷ mutable ∷ error ∷ acceptor ∷ not_acceptor ∷ i_deterministic ∷ non_i_deterministic
    ∷ o_deterministic ∷ non_o_deterministic ∷ epsilons ∷ no_epsilons ∷ i_epsilons ∷ no_i_epsilons
    ∷ o_epsilons ∷ no_o_epsilons ∷ i_label_sorted ∷ not_i_label_sorted ∷ o_label_sorted
    ∷ not_o_label_sorted ∷ weighted ∷ unweighted ∷ cyclic ∷ acyclic ∷ initial_cyclic
    ∷ initial_acyclic ∷ top_sorted ∷ not_top_sorted ∷ not_accessible ∷ not_co_accessible
    ∷ not_string ∷ weighted_cycles ∷ unweighted_cycles ∷ [])

unfoldable pub k_add_arc_properties : Props
unfolding mask
k_add_arc_properties = mask (
    expanded ∷ mutable ∷ error ∷ not_acceptor ∷ non_i_deterministic ∷ non_o_deterministic ∷ epsilons
    ∷ i_epsilons ∷ o_epsilons ∷ not_i_label_sorted ∷ not_o_label_sorted ∷ weighted ∷ cyclic
    ∷ initial_cyclic ∷ not_top_sorted ∷ accessible ∷ co_accessible ∷ weighted_cycles ∷ [])

unfoldable pub k_set_arc_properties : Props
unfolding mask
k_set_arc_properties = mask (expanded ∷ mutable ∷ error ∷ [])

unfoldable pub k_delete_states_properties : Props
unfolding mask
k_delete_states_properties = mask (
    expanded ∷ mutable ∷ error ∷ acceptor ∷ i_deterministic ∷ o_deterministic ∷ no_epsilons
    ∷ no_i_epsilons ∷ no_o_epsilons ∷ i_label_sorted ∷ o_label_sorted ∷ unweighted ∷ acyclic
    ∷ initial_acyclic ∷ top_sorted ∷ unweighted_cycles ∷ [])

unfoldable pub k_delete_arcs_properties : Props
unfolding mask
k_delete_arcs_properties = mask (
    expanded ∷ mutable ∷ error ∷ acceptor ∷ i_deterministic ∷ o_deterministic ∷ no_epsilons
    ∷ no_i_epsilons ∷ no_o_epsilons ∷ i_label_sorted ∷ o_label_sorted ∷ unweighted ∷ acyclic
    ∷ initial_acyclic ∷ top_sorted ∷ not_accessible ∷ not_co_accessible ∷ unweighted_cycles ∷ [])
