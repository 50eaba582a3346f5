-- ===== src/Rational/Properties.antt =====
-- `union_properties` of sicada/src/properties.rs.
use sicada.Prelude.{Bool, true, not, ◌||◌, [], ◌∷◌, if◌then◌else◌}
use sicada.Properties.Flags.{
  Props, mask, ◌&◌, ◌∪◌, expanded, mutable, error, acceptor, not_acceptor, non_i_deterministic,
  non_o_deterministic, epsilons, i_epsilons, o_epsilons, not_i_label_sorted, not_o_label_sorted,
  weighted, unweighted, cyclic, acyclic, initial_acyclic, not_top_sorted, accessible,
  not_accessible, co_accessible, not_co_accessible, weighted_cycles, unweighted_cycles,
}

-- All the bits that are in use.
abbrev pub k_fst_properties : Props
k_fst_properties f = true

-- `if test { outprops |= bits; }`.
abbrev pub add_if : Bool → Props → Props → Props
add_if test bits props = if test then props ∪ bits else props

unfoldable pub union_properties : Props → Props → Bool → Props
unfolding mask
union_properties inprops1 inprops2 delayed =
    let kept =
      mask (acceptor ∷ unweighted ∷ unweighted_cycles ∷ acyclic ∷ accessible ∷ [])
        & inprops1
        & inprops2
      ∪ mask (error ∷ []) & (inprops1 ∪ inprops2)
      ∪ mask (initial_acyclic ∷ []) in
    let built =
      add_if (not delayed)
        (mask (expanded ∷ mutable ∷ not_top_sorted ∷ []) & inprops1
          ∪ mask (not_top_sorted ∷ []) & inprops2)
        kept in
    let joined =
      add_if (not delayed)
        (mask (epsilons ∷ i_epsilons ∷ o_epsilons ∷ [])
          ∪ mask (co_accessible ∷ []) & inprops1 & inprops2)
        built in
    let negative = mask (
      not_acceptor ∷ non_i_deterministic ∷ non_o_deterministic ∷ epsilons ∷ i_epsilons ∷ o_epsilons
      ∷ not_i_label_sorted ∷ not_o_label_sorted ∷ weighted ∷ weighted_cycles ∷ cyclic
      ∷ not_accessible ∷ []) in
    let first = add_if (not delayed || inprops1 accessible) (negative & inprops1) joined in
    add_if (not delayed || inprops2 accessible)
      ((negative ∪ mask (not_co_accessible ∷ [])) & inprops2) first
