-- ===== src/ArcMap/Defs.antt =====
-- `arc_map` of sicada/src/algorithms/arc_map.rs. The mappers that are modelled keep no state of their
-- own.
use sicada.Prelude.{ℕ, zero, suc, Bool, not, ◌||◌, Option, none, some, length, ◌==◌, if◌then◌else◌}
use sicada.Weight.{Weight}
use sicada.Arc.{Arc, StateId, epsilon, no_state}
use sicada.Properties.Flags.{Props}
use sicada.Rational.Properties.{k_fst_properties}
use sicada.VectorFst.Defs
use sicada.VectorFst.Defs.{VectorFst}

pub data MapFinalAction : Type 0 where
  no_superfinal : MapFinalAction
  allow_superfinal : MapFinalAction
  require_superfinal : MapFinalAction

pub data MapSymbolsAction : Type 0 where
  clear : MapSymbolsAction
  copy : MapSymbolsAction
  noop : MapSymbolsAction

pub record ArcMapper (W : Type 0) : Type 0 where
  pub map : Arc W → Arc W
  pub final_action : MapFinalAction
  pub input_symbols_action : MapSymbolsAction
  pub output_symbols_action : MapSymbolsAction
  pub properties : Props → Props

-- How a call ends, with the FST as it leaves it, or with the panic of the `expect`.
pub data MapOutcome (W : Type 0) : Type 0 where
  done : VectorFst W → MapOutcome W
  label_error : VectorFst W → MapOutcome W
  panicked : MapOutcome W

-- Where one round of the loop leaves the FST and the superfinal state.
pub data Step (W : Type 0) : Type 0 where
  going : VectorFst W → Option StateId → Step W
  failed : MapOutcome W → Step W

module _ {W : Type 0} where
  unfoldable pub final_as_arc : W → Arc W
  final_as_arc weight = record {
    ilabel = epsilon;
    olabel = epsilon;
    weight = weight;
    nextstate = no_state;
  }

  unfoldable pub became_an_arc : Arc W → Bool
  became_an_arc arc = not (arc.ilabel == epsilon) || not (arc.olabel == epsilon)

  unfoldable pub clear_symbols : ArcMapper W → VectorFst W → VectorFst W
  unfolding Defs.set_input_symbols Defs.set_output_symbols
  clear_symbols mapper fst =
      let input : VectorFst W = elim mapper.input_symbols_action [
        | clear ↦ Defs.set_input_symbols fst none
        | copy ↦ fst
        | noop ↦ fst
      ] in
      elim mapper.output_symbols_action [
        | clear ↦ Defs.set_output_symbols input none
        | copy ↦ input
        | noop ↦ input
      ]

module _ {W : Type 0} ⦃w : Weight W⦄ where
  -- A new state that is final with weight one.
  unfoldable pub add_superfinal : VectorFst W → VectorFst W
  unfolding Defs.add_state Defs.set_final
  add_superfinal fst = Defs.set_final (Defs.add_state fst) (length fst.states) w.one

  -- The mapped final weight as an arc to the superfinal state.
  unfoldable pub to_superfinal : VectorFst W → StateId → Arc W → StateId → VectorFst W
  unfolding Defs.add_arc
  to_superfinal fst state mapped target =
      Defs.add_arc fst state (record mapped { nextstate = target })

  unfoldable pub map_final : ArcMapper W → StateId → VectorFst W → Option StateId → Step W
  unfolding final_as_arc became_an_arc add_superfinal to_superfinal Defs.final_weight Defs.set_final
  map_final mapper state fst superfinal =
      let mapped = mapper.map (final_as_arc (Defs.final_weight fst state)) in
      let kept = Step.going (Defs.set_final fst state mapped.weight) superfinal in
      elim mapper.final_action [
        | no_superfinal ↦
            if became_an_arc mapped then Step.failed (MapOutcome.label_error fst) else kept
        | allow_superfinal ↦
            let linked : Step W = elim superfinal [
              | some s ↦
                  Step.going (Defs.set_final (to_superfinal fst state mapped s) state w.zero)
                    (some s)
              | none ↦
                  let s = length fst.states in
                  Step.going
                    (Defs.set_final (to_superfinal (add_superfinal fst) state mapped s) state
                      w.zero)
                    (some s)
            ] in
            if became_an_arc mapped then linked else kept
        | require_superfinal ↦ elim superfinal [
          | none ↦ Step.failed MapOutcome.panicked
          | some s ↦
              let linked =
                if became_an_arc mapped || not (w.eq mapped.weight w.zero)
                then to_superfinal fst state mapped s
                else fst in
              Step.going (Defs.set_final linked state w.zero) (some s)
        ]
      ]

  -- One round of the loop over the states.
  unfoldable pub map_state : ArcMapper W → StateId → VectorFst W → Option StateId → Step W
  unfolding map_final Defs.mutate_arcs
  map_state mapper state fst superfinal =
      let mutated = Defs.mutate_arcs fst state mapper.map in
      let mapped = map_final mapper state mutated superfinal in
      elim superfinal [
        | none ↦ mapped
        | some s ↦ if state == s then Step.going mutated (some s) else mapped
      ]

  -- The states from `state` on, as many as there were when the loop began.
  unfoldable pub map_states : ℕ → ArcMapper W → StateId → VectorFst W → Option StateId → Step W
  unfolding map_state
  map_states zero mapper state fst superfinal = Step.going fst superfinal
  map_states (suc n) mapper state fst superfinal = elim (map_state mapper state fst superfinal) [
    | going next superfinal' ↦ map_states n mapper (suc state) next superfinal'
    | failed outcome ↦ Step.failed outcome
  ]

  unfoldable pub finish : ArcMapper W → Props → Step W → MapOutcome W
  unfolding Defs.set_properties
  finish mapper props (going fst superfinal) =
      MapOutcome.done (Defs.set_properties fst (mapper.properties props) k_fst_properties)
  finish mapper props (failed outcome) = outcome

  unfoldable pub map_all : ArcMapper W → VectorFst W → MapOutcome W
  unfolding add_superfinal map_states finish
  map_all mapper fst =
      let plain = map_states (length fst.states) mapper 0 fst none in
      let extended = add_superfinal fst in
      finish mapper fst.properties (elim mapper.final_action [
        | no_superfinal ↦ plain
        | allow_superfinal ↦ plain
        | require_superfinal ↦
            map_states (length extended.states) mapper 0 extended (some (length fst.states))
      ])

  unfoldable pub arc_map : ArcMapper W → VectorFst W → MapOutcome W
  unfolding clear_symbols map_all
  arc_map mapper fst =
      let cleared = clear_symbols mapper fst in
      elim cleared.start [ none ↦ MapOutcome.done cleared | some s ↦ map_all mapper cleared ]
