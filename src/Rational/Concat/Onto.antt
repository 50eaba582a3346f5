-- ===== src/Rational/Concat/Onto.antt =====
-- `concat_onto` of sicada/src/algorithms/concat.rs: what the result accepts.
use sicada.Prelude.{
  ℕ, ◌≡◌, refl, sym, ap, ◌∙◌, inl, inr, ◌<◌, Bool-cases, List, [], ◌∷◌, ◌++◌, append_nil,
  append_assoc, map, length, length-map, modify, if◌then◌else◌, arith, zero, suc,
}
use sicada.Weight.{Weight}
use sicada.Arc.{StateId}
use sicada.VectorFst.State.{VectorState}
use sicada.VectorFst.States.{add_arc-start}
use sicada.VectorFst.Defs
use sicada.VectorFst.Defs.{VectorFst}
use sicada.Rational.Graph.{
  Graph, Node, graph, node, with_arc, modify-last, add_arc-graph, add_state-graph,
}
use sicada.Rational.Runs.{arcs_at, final_at}
use sicada.Rational.Copy.{copy_arcs-graph, copy_arcs-start}
use sicada.Rational.Union.{shift_arc}
use sicada.Rational.Exits.{exit_arc}
use sicada.Rational.Concat.{prepend_state, prepend_states}

module _ {W : Type 0} ⦃w : Weight W⦄ where
  -- A state of the first FST, as it stands in the result.
  abbrev pub onto_node : ℕ → StateId → Node W → Node W
  onto_node n2 t n =
      (w.zero, (if w.eq n.0 w.zero then [] else exit_arc n.0 t ∷ []) ++ map (shift_arc n2) n.1)

  prepend_state-graph :
      (n2 : ℕ) (t : StateId) (s : VectorState W) (fst : VectorFst W)
      → graph (prepend_state n2 t s fst) ≡ graph fst ++ onto_node n2 t (node s) ∷ []
  unfolding prepend_state
  prepend_state-graph n2 t s fst =
      let size : length fst.states ≡ length (graph fst) = sym (length-map node fst.states) in
      let added = Defs.add_state fst in
      let plain = add_state-graph fst in
      let led =
        add_arc-graph added (length (graph fst)) (exit_arc s.final_weight t)
        ∙ ap (λ g. modify g (length (graph fst)) (with_arc (exit_arc s.final_weight t))) plain
        ∙ modify-last (graph fst) (w.zero, []) (with_arc (exit_arc s.final_weight t)) in
      elim (Bool-cases (w.eq s.final_weight w.zero)) [
        | inl e ↦ rw (e, size) (copy_arcs-graph n2 s.arcs added (graph fst) w.zero [] plain)
        | inr e ↦
            rw (e, size)
              (copy_arcs-graph n2 s.arcs
                (Defs.add_arc added (length (graph fst)) (exit_arc s.final_weight t)) (graph fst)
                w.zero (exit_arc s.final_weight t ∷ []) led)
      ]

  prepend_state-start :
      (n2 : ℕ) (t : StateId) (s : VectorState W) (fst : VectorFst W)
      → (prepend_state n2 t s fst).start ≡ fst.start
  unfolding prepend_state Defs.add_state
  prepend_state-start n2 t s fst =
      let i = length fst.states in
      let added = Defs.add_state fst in
      elim (Bool-cases (w.eq s.final_weight w.zero)) [
        | inl e ↦ rw e (copy_arcs-start n2 i s.arcs added)
        | inr e ↦ rw e (
            copy_arcs-start n2 i s.arcs (Defs.add_arc added i (exit_arc s.final_weight t))
            ∙ add_arc-start added i (exit_arc s.final_weight t))
      ]

  pub prepend_states-graph :
      (n2 : ℕ) (t : StateId) (states : List (VectorState W)) (fst : VectorFst W)
      → (graph (prepend_states n2 t states fst)
          ≡ graph fst ++ map (onto_node n2 t) (map node states))
        × ((prepend_states n2 t states fst).start ≡ fst.start)
  unfolding prepend_states
  prepend_states-graph n2 t [] fst = (sym (append_nil (graph fst)), refl)
  prepend_states-graph n2 t (s ∷ states) fst =
      let (g, st) = prepend_states-graph n2 t states (prepend_state n2 t s fst) in
      (
        g
            ∙ ap (λ x. x ++ map (onto_node n2 t) (map node states)) (prepend_state-graph n2 t s fst)
            ∙ append_assoc (graph fst) (onto_node n2 t (node s) ∷ [])
                (map (onto_node n2 t) (map node states)),
        st ∙ prepend_state-start n2 t s fst,
      )

  pub arcs_at-onto_node :
      (n2 : ℕ) (t : StateId) (g : Graph W) (s : StateId)
      → s < length g
      → arcs_at (map (onto_node n2 t) g) s
        ≡ (if w.eq (final_at g s) w.zero then [] else exit_arc (final_at g s) t ∷ [])
          ++ map (shift_arc n2) (arcs_at g s)
  arcs_at-onto_node n2 t [] s k = absurd (omega (arith, k))
  arcs_at-onto_node n2 t (n ∷ g) zero k = refl
  arcs_at-onto_node n2 t (n ∷ g) (suc s) k = arcs_at-onto_node n2 t g s (omega (arith, k))

  pub final_at-onto_node :
      (n2 : ℕ) (t : StateId) (g : Graph W) (s : StateId)
      → final_at (map (onto_node n2 t) g) s ≡ w.zero
  final_at-onto_node n2 t [] s = refl
  final_at-onto_node n2 t (n ∷ g) zero = refl
  final_at-onto_node n2 t (n ∷ g) (suc s) = final_at-onto_node n2 t g s
