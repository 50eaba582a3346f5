-- ===== src/Rational/Closure.antt =====
-- `closure` of sicada/src/algorithms/closure.rs, and `closure_properties` of
-- sicada/src/properties.rs.
use sicada.Prelude.{
  ℕ, zero, suc, Bool, true, false, not, ◌&&◌, ◌||◌, none, some, [], ◌∷◌, length, if◌then◌else◌,
}
use sicada.Weight.{Weight}
use sicada.Arc.{StateId}
use sicada.Properties.Flags.{
  Props, mask, ◌&◌, ◌∪◌, expanded, mutable, error, acceptor, not_acceptor, non_i_deterministic,
  non_o_deterministic, not_i_label_sorted, not_o_label_sorted, weighted, unweighted, not_top_sorted,
  accessible, not_accessible, co_accessible, not_co_accessible, not_string, weighted_cycles,
  unweighted_cycles,
}
use sicada.Rational.Properties.{k_fst_properties, add_if}
use sicada.Rational.Union.{epsilon_arc}
use sicada.Rational.Exits.{exit_arc}
use sicada.VectorFst.Defs
use sicada.VectorFst.Defs.{VectorFst}
pub mod Calls
pub mod Correct
pub mod Language

-- Whether the empty string is one of the repetitions.
pub data ClosureType : Type 0 where
  star : ClosureType
  plus : ClosureType

abbrev pub is_star : ClosureType → Bool
is_star ClosureType.star = true
is_star ClosureType.plus = false

-- The source reads neither `star` nor, in place, `delayed` but in these tests.
unfoldable pub closure_properties : Props → Bool → Bool → Props
unfolding mask
closure_properties inprops star' delayed =
    let kept = mask (error ∷ acceptor ∷ unweighted ∷ accessible ∷ []) & inprops in
    let cycles = add_if (inprops unweighted) (mask (unweighted_cycles ∷ [])) kept in
    let built =
      add_if (not delayed)
        (mask (expanded ∷ mutable ∷ co_accessible ∷ not_top_sorted ∷ not_string ∷ []) & inprops)
        cycles in
    let reached = not delayed || inprops accessible in
    let negative =
      add_if reached
        (mask (
            not_acceptor ∷ non_i_deterministic ∷ non_o_deterministic ∷ not_i_label_sorted
            ∷ not_o_label_sorted ∷ weighted ∷ weighted_cycles ∷ not_accessible ∷ not_co_accessible
            ∷ [])
          & inprops)
        built in
    add_if (reached && (inprops weighted && (inprops accessible && inprops co_accessible)))
      (mask (weighted_cycles ∷ [])) negative

module _ {W : Type 0} ⦃w : Weight W⦄ where
  -- One round of the loop over the states.
  unfoldable pub add_return : StateId → StateId → VectorFst W → VectorFst W
  unfolding exit_arc Defs.add_arc Defs.final_weight
  add_return start state fst =
      let weight = Defs.final_weight fst state in
      if w.eq weight w.zero then fst else Defs.add_arc fst state (exit_arc weight start)

  -- The states from `state` on.
  unfoldable pub add_returns : ℕ → StateId → StateId → VectorFst W → VectorFst W
  unfolding add_return
  add_returns zero start state fst = fst
  add_returns (suc n) start state fst = add_returns n start (suc state) (add_return start state fst)

  unfoldable pub returned : VectorFst W → VectorFst W
  unfolding add_returns
  returned fst = elim fst.start [
    | none ↦ fst
    | some start ↦ add_returns (length fst.states) start 0 fst
  ]

  -- The new start state, which is also final. `fst` is the FST before the closure.
  unfoldable pub add_star : VectorFst W → VectorFst W → VectorFst W
  unfolding epsilon_arc Defs.add_arc Defs.add_state Defs.set_start Defs.set_final
  add_star fst looped =
      let nstart = length looped.states in
      let added = Defs.set_final (Defs.set_start (Defs.add_state looped) nstart) nstart w.one in
      elim fst.start [ none ↦ added | some start ↦ Defs.add_arc added nstart (epsilon_arc start) ]

  unfoldable pub closure : VectorFst W → ClosureType → VectorFst W
  unfolding returned add_star closure_properties Defs.set_properties
  closure fst closure_type =
      let looped = returned fst in
      Defs.set_properties (if is_star closure_type then add_star fst looped else looped)
        (closure_properties fst.properties (is_star closure_type) false) k_fst_properties
