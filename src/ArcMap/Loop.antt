-- ===== src/ArcMap/Loop.antt =====
-- The loop of `arc_map` in sicada/src/algorithms/arc_map.rs under a mapper that leaves the final weights alone.
use sicada.Prelude.{
  modify_from, modify_from-all, length-map, ℕ, zero, suc, ◌≡◌, refl, sym, ap, ◌∙◌, none, [], ◌∷◌,
  map, length, modify, arith,
}
use sicada.Weight.{Weight}
use sicada.Arc.{StateId}
use sicada.VectorFst.Defs
use sicada.VectorFst.Defs.{VectorFst}
use sicada.VectorFst.States.{mutate_arcs-states, set_final-start}
use sicada.Rational.Graph.{Graph, Node, graph, node, map-modify, with_final, set_final-graph}
use sicada.Rational.Runs.{final_at, final_weight-graph}
use sicada.Rational.Properties.{k_fst_properties}
use sicada.ArcMap.Defs.{
  ArcMapper, MapFinalAction, Step, MapOutcome, map_final, map_state, map_states, map_all, finish,
  final_as_arc, became_an_arc,
}
use sicada.Arc.{Arc}

module _ {W : Type 0} where
  abbrev pub map_node : (Arc W → Arc W) → Node W → Node W
  map_node f n = (n.0, map f n.1)

module _ {W : Type 0} ⦃w : Weight W⦄ where
  mutate_arcs-start :
      (fst : VectorFst W) (s : StateId) (f : Arc W → Arc W)
      → (Defs.mutate_arcs fst s f).start ≡ fst.start
  unfolding Defs.mutate_arcs
  mutate_arcs-start fst s f = ground arith

  mutate_arcs-graph :
      (fst : VectorFst W) (s : StateId) (f : Arc W → Arc W)
      → graph (Defs.mutate_arcs fst s f) ≡ modify (graph fst) s (map_node f)
  mutate_arcs-graph fst s f =
      ap (map node) (mutate_arcs-states fst s f)
      ∙ map-modify fst.states s (λ t. record t { arcs = map f t.arcs }) node (map_node f)
          (λ x. refl)

  -- Writing a final weight that is already there changes nothing.
  same_final : (g : Graph W) (s : StateId) → modify g s (with_final (final_at g s)) ≡ g
  same_final [] s = refl
  same_final (n ∷ g) zero = refl
  same_final (n ∷ g) (suc s) = ap (◌∷◌ n) (same_final g s)

  -- A mapper that needs no superfinal state and leaves the final weights alone.
  module _ (mapper : ArcMapper W) (plain : mapper.final_action ≡ MapFinalAction.no_superfinal)
      (keeps : (x : W) → mapper.map (final_as_arc x) ≡ final_as_arc x) where
    map_state-plain :
        (fst : VectorFst W) (s : StateId)
        → let mutated = Defs.mutate_arcs fst s mapper.map in
          map_state mapper s fst none
          ≡ Step.going (Defs.set_final mutated s (Defs.final_weight mutated s)) none
    unfolding map_state map_final final_as_arc became_an_arc
    map_state-plain fst s =
        rw (plain, keeps (Defs.final_weight (Defs.mutate_arcs fst s mapper.map) s)) refl

    map_state-kept :
        (fst : VectorFst W) (s : StateId)
        → (next : VectorFst W) × (map_state mapper s fst none ≡ Step.going next none)
          × (graph next ≡ modify (graph fst) s (map_node mapper.map))
          × (next.start ≡ fst.start)
    map_state-kept fst s =
        let mutated = Defs.mutate_arcs fst s mapper.map in
        (
          Defs.set_final mutated s (Defs.final_weight mutated s),
          map_state-plain fst s,
          set_final-graph mutated s (Defs.final_weight mutated s)
              ∙ ap (λ x. modify (graph mutated) s (with_final x)) (final_weight-graph mutated s)
              ∙ same_final (graph mutated) s
              ∙ mutate_arcs-graph fst s mapper.map,
          set_final-start mutated s (Defs.final_weight mutated s)
              ∙ mutate_arcs-start fst s mapper.map,
        )

    -- The rounds after one at `i`.
    abbrev proceed : ℕ → StateId → Step W → Step W
    proceed n i (Step.going next superfinal) = map_states n mapper (suc i) next superfinal
    proceed n i (Step.failed outcome) = Step.failed outcome

    map_states-kept :
        (n : ℕ) (i : StateId) (fst : VectorFst W)
        → (last : VectorFst W) × (map_states n mapper i fst none ≡ Step.going last none)
          × (graph last ≡ modify_from n i (map_node mapper.map) (graph fst))
          × (last.start ≡ fst.start)
    unfolding map_states
    map_states-kept zero i fst = (fst, refl, refl, refl)
    map_states-kept (suc n) i fst =
        let (next, e, g, t) = map_state-kept fst i in
        let (last, e', g', t') = map_states-kept n (suc i) next in
        (
          last,
          ap (proceed n i) e ∙ e',
          g' ∙ ap (modify_from n (suc i) (map_node mapper.map)) g,
          t' ∙ t,
        )

    length-graph : (fst : VectorFst W) → length fst.states ≡ length (graph fst)
    length-graph fst = sym (length-map _ fst.states)

    pub map_all-kept :
        (fst : VectorFst W)
        → (last : VectorFst W) × (map_all mapper fst ≡ MapOutcome.done last)
          × (graph last ≡ map (map_node mapper.map) (graph fst))
          × (last.start ≡ fst.start)
    unfolding map_all finish Defs.set_properties
    map_all-kept fst =
        let (last, e, g, t) = map_states-kept (length fst.states) 0 fst in
        (
          Defs.set_properties last (mapper.properties fst.properties) k_fst_properties,
          rw plain (ap (finish mapper fst.properties) e),
          g
              ∙ ap (λ n. modify_from n 0 (map_node mapper.map) (graph fst)) (length-graph fst)
              ∙ modify_from-all (map_node mapper.map) (graph fst),
          t,
        )
