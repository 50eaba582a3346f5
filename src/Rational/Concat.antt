-- ===== src/Rational/Concat.antt =====
-- `concat` and `concat_onto` of sicada/src/algorithms/concat.rs, and `concat_properties` of
-- sicada/src/properties.rs. Reserving room for states changes nothing that is modelled.
use sicada.Prelude.{
  ℕ, zero, suc, ◌+◌, Bool, true, false, not, ◌&&◌, ◌||◌, Option, none, some, List, [], ◌∷◌, length,
  if◌then◌else◌,
}
use sicada.Weight.{Weight}
use sicada.Arc.{StateId}
use sicada.Symbols.{compat_symbols}
use sicada.Properties.Flags.{
  Props, mask, ◌&◌, ◌∪◌, expanded, mutable, error, acceptor, not_acceptor, non_i_deterministic,
  non_o_deterministic, epsilons, i_epsilons, o_epsilons, not_i_label_sorted, not_o_label_sorted,
  weighted, unweighted, cyclic, acyclic, initial_cyclic, initial_acyclic, not_top_sorted,
  accessible, not_accessible, co_accessible, not_co_accessible, not_string, weighted_cycles,
  unweighted_cycles,
}
use sicada.Rational.Properties.{k_fst_properties, add_if}
use sicada.Rational.Union.{Outcome, copy_states, copy_arcs}
use sicada.Rational.Exits.{exit_arc}
use sicada.VectorFst.State.{VectorState}
use sicada.VectorFst.Defs
use sicada.VectorFst.Defs.{VectorFst}
pub mod Calls
pub mod Language
pub mod Onto
pub mod OntoLanguage

abbrev negative : Props
negative = mask (
    not_acceptor ∷ non_i_deterministic ∷ non_o_deterministic ∷ epsilons ∷ i_epsilons ∷ o_epsilons
    ∷ not_i_label_sorted ∷ not_o_label_sorted ∷ weighted ∷ weighted_cycles ∷ cyclic ∷ not_accessible
    ∷ not_co_accessible ∷ [])

-- The source's `empty1` and `empty2` are both `delayed`.
unfoldable pub concat_properties : Props → Props → Bool → Props
unfolding mask
concat_properties inprops1 inprops2 delayed =
    let kept =
      mask (acceptor ∷ unweighted ∷ unweighted_cycles ∷ acyclic ∷ []) & inprops1 & inprops2
      ∪ mask (error ∷ []) & (inprops1 ∪ inprops2) in
    let built =
      add_if (not delayed)
        (mask (expanded ∷ mutable ∷ not_top_sorted ∷ not_string ∷ []) & inprops1
          ∪ mask (not_top_sorted ∷ not_string ∷ []) & inprops2)
        kept in
    let initial =
      add_if (not delayed) (mask (initial_acyclic ∷ initial_cyclic ∷ []) & inprops1) built in
    let first = add_if (not delayed || inprops1 accessible) (negative & inprops1) initial in
    let trim1 = inprops1 accessible && (inprops1 co_accessible && not delayed) in
    let reach = add_if trim1 (mask (accessible ∷ []) & inprops2) first in
    let coreach = add_if (trim1 && not delayed) (mask (co_accessible ∷ []) & inprops2) reach in
    add_if (trim1 && (not delayed || inprops2 accessible)) (negative & inprops2) coreach

module _ {W : Type 0} ⦃w : Weight W⦄ where
  -- One round of the second loop: where the first FST used to end, it carries on.
  unfoldable pub carry_on : Option StateId → StateId → VectorFst W → VectorFst W
  unfolding exit_arc Defs.add_arc Defs.set_final Defs.final_weight
  carry_on shifted_start2 state fst1 =
      let weight = Defs.final_weight fst1 state in
      let cut = Defs.set_final fst1 state w.zero in
      if w.eq weight w.zero then fst1 else elim shifted_start2 [
        | none ↦ cut
        | some shifted ↦ Defs.add_arc cut state (exit_arc weight shifted)
      ]

  unfoldable pub carry_all : ℕ → Option StateId → StateId → VectorFst W → VectorFst W
  unfolding carry_on
  carry_all zero shifted_start2 state fst1 = fst1
  carry_all (suc n) shifted_start2 state fst1 =
      carry_all n shifted_start2 (suc state) (carry_on shifted_start2 state fst1)

  -- The part after the check of the symbol tables.
  unfoldable pub concat_compat : VectorFst W → VectorFst W → VectorFst W
  unfolding copy_states carry_all concat_properties mask Defs.set_properties
  concat_compat fst1 fst2 = elim fst1.start [
    | none ↦
        if fst2.properties error
        then Defs.set_properties fst1 (mask (error ∷ [])) (mask (error ∷ []))
        else fst1
    | some _ ↦
        let numstates1 = length fst1.states in
        let copied = copy_states numstates1 fst2.states fst1 in
        elim fst2.start [
          | none ↦ carry_all numstates1 none 0 copied
          | some start2 ↦
              Defs.set_properties (carry_all numstates1 (some (start2 + numstates1)) 0 copied)
                (concat_properties fst1.properties fst2.properties false) k_fst_properties
        ]
  ]

  unfoldable pub concat : VectorFst W → VectorFst W → Outcome W
  unfolding concat_compat mask Defs.set_properties
  concat fst1 fst2 =
      if not (compat_symbols fst1.isymbols fst2.isymbols)
        || not (compat_symbols fst1.osymbols fst2.osymbols)
      then Outcome.symbol_table_error
          (Defs.set_properties fst1 (mask (error ∷ [])) (mask (error ∷ [])))
      else Outcome.done (concat_compat fst1 fst2)

  -- One round of the loop of `concat_onto`: a state of the first FST, put after those of the second.
  unfoldable pub prepend_state : ℕ → StateId → VectorState W → VectorFst W → VectorFst W
  unfolding exit_arc copy_arcs Defs.add_state Defs.add_arc
  prepend_state numstates2 start2 state1 fst2 =
      let state = length fst2.states in
      let added = Defs.add_state fst2 in
      copy_arcs numstates2 state state1.arcs (
        if w.eq state1.final_weight w.zero
        then added
        else Defs.add_arc added state (exit_arc state1.final_weight start2))

  unfoldable pub prepend_states : ℕ → StateId → List (VectorState W) → VectorFst W → VectorFst W
  unfolding prepend_state
  prepend_states numstates2 start2 [] fst2 = fst2
  prepend_states numstates2 start2 (state1 ∷ states) fst2 =
      prepend_states numstates2 start2 states (prepend_state numstates2 start2 state1 fst2)

  unfoldable pub concat_onto_compat : VectorFst W → VectorFst W → VectorFst W
  unfolding prepend_states concat_properties mask Defs.set_properties Defs.set_start Defs.add_state
  concat_onto_compat fst1 fst2 = elim fst2.start [
    | none ↦
        if fst1.properties error
        then Defs.set_properties fst2 (mask (error ∷ [])) (mask (error ∷ []))
        else fst2
    | some start2 ↦
        let numstates2 = length fst2.states in
        let joined = prepend_states numstates2 start2 fst1.states fst2 in
        elim fst1.start [
          | none ↦ Defs.set_start (Defs.add_state joined) (length joined.states)
          | some start1 ↦
              Defs.set_properties (Defs.set_start joined (start1 + numstates2))
                (concat_properties fst1.properties fst2.properties false) k_fst_properties
        ]
  ]

  unfoldable pub concat_onto : VectorFst W → VectorFst W → Outcome W
  unfolding concat_onto_compat mask Defs.set_properties
  concat_onto fst1 fst2 =
      if not (compat_symbols fst1.isymbols fst2.isymbols)
        || not (compat_symbols fst1.osymbols fst2.osymbols)
      then Outcome.symbol_table_error
          (Defs.set_properties fst2 (mask (error ∷ [])) (mask (error ∷ [])))
      else Outcome.done (concat_onto_compat fst1 fst2)
