-- ===== src/Rational/Union.antt =====
-- `union` of sicada/src/algorithms/union.rs, of a `VectorFst` and a second FST of the same kind.
use sicada.Prelude.{
  ℕ, ◌+◌, Bool, false, not, ◌||◌, none, some, List, [], ◌∷◌, length, if◌then◌else◌,
}
use sicada.Weight.{Weight}
use sicada.Arc.{Arc, StateId, epsilon}
use sicada.Symbols.{compat_symbols}
use sicada.Properties.Flags.{mask, error, initial_acyclic}
use sicada.Properties.Masks.{k_copy_properties}
use sicada.Rational.Properties.{union_properties, k_fst_properties}
use sicada.VectorFst.State.{VectorState}
use sicada.VectorFst.Defs
use sicada.VectorFst.Defs.{VectorFst}

-- How a call ends, with the first FST as it leaves it.
pub data Outcome (W : Type 0) : Type 0 where
  done : VectorFst W → Outcome W
  symbol_table_error : VectorFst W → Outcome W

module _ {W : Type 0} ⦃w : Weight W⦄ where
  -- An arc of the second FST, with its state shifted past the first's.
  unfoldable pub shift_arc : ℕ → Arc W → Arc W
  shift_arc numstates1 arc = record arc { nextstate = arc.nextstate + numstates1 }

  unfoldable pub copy_arcs : ℕ → StateId → List (Arc W) → VectorFst W → VectorFst W
  unfolding shift_arc Defs.add_arc
  copy_arcs numstates1 state1 [] fst1 = fst1
  copy_arcs numstates1 state1 (arc ∷ arcs) fst1 =
      copy_arcs numstates1 state1 arcs (Defs.add_arc fst1 state1 (shift_arc numstates1 arc))

  -- One round of the copying loop. The state that is added is the last.
  unfoldable pub copy_state : ℕ → VectorState W → VectorFst W → VectorFst W
  unfolding copy_arcs Defs.add_state Defs.set_final
  copy_state numstates1 state2 fst1 =
      let state1 = length fst1.states in
      copy_arcs numstates1 state1 state2.arcs
        (Defs.set_final (Defs.add_state fst1) state1 state2.final_weight)

  unfoldable pub copy_states : ℕ → List (VectorState W) → VectorFst W → VectorFst W
  unfolding copy_state
  copy_states numstates1 [] fst1 = fst1
  copy_states numstates1 (state2 ∷ states) fst1 =
      copy_states numstates1 states (copy_state numstates1 state2 fst1)

  unfoldable pub epsilon_arc : StateId → Arc W
  epsilon_arc s = record { ilabel = epsilon; olabel = epsilon; weight = w.one; nextstate = s }

  -- The ways into the two FSTs, from `start1` or from a new start state.
  unfoldable pub join : Bool → StateId → StateId → VectorFst W → VectorFst W
  unfolding epsilon_arc Defs.add_arc Defs.add_state Defs.set_start
  join initial_acyclic1 start1 shifted_start2 fst1 =
      let nstart = length fst1.states in
      if initial_acyclic1
      then Defs.add_arc fst1 start1 (epsilon_arc shifted_start2)
      else Defs.add_arc
          (Defs.add_arc (Defs.set_start (Defs.add_state fst1) nstart) nstart (epsilon_arc start1))
          nstart (epsilon_arc shifted_start2)

  -- The part after the check of the symbol tables.
  unfoldable pub union_compat : VectorFst W → VectorFst W → VectorFst W
  unfolding copy_states join union_properties k_copy_properties mask Defs.set_properties
      Defs.set_start
  union_compat fst1 fst2 = elim fst2.start [
    | none ↦
        if fst2.properties error
        then Defs.set_properties fst1 (mask (error ∷ [])) (mask (error ∷ []))
        else fst1
    | some start2 ↦
        let numstates1 = length fst1.states in
        let copied = copy_states numstates1 fst2.states fst1 in
        elim copied.start [
          | none ↦
              Defs.set_properties (Defs.set_start copied (start2 + numstates1)) fst2.properties
                k_copy_properties
          | some start1 ↦
              Defs.set_properties
                (join (fst1.properties initial_acyclic) start1 (start2 + numstates1) copied)
                (union_properties fst1.properties fst2.properties false) k_fst_properties
        ]
  ]

  unfoldable pub union : VectorFst W → VectorFst W → Outcome W
  unfolding union_compat mask Defs.set_properties
  union fst1 fst2 =
      if not (compat_symbols fst1.isymbols fst2.isymbols)
        || not (compat_symbols fst1.osymbols fst2.osymbols)
      then Outcome.symbol_table_error
          (Defs.set_properties fst1 (mask (error ∷ [])) (mask (error ∷ [])))
      else Outcome.done (union_compat fst1 fst2)
