-- ===== src/Rational/Copy.antt =====
-- The copying loop of sicada/src/algorithms/union.rs appends the second FST, shifted.
use sicada.Prelude.{
  append_assoc, append_nil, length-map, ℕ, ◌≡◌, refl, sym, ap, ◌∙◌, List, [], ◌∷◌, ◌++◌, map,
  length, modify,
}
use sicada.Weight.{Weight}
use sicada.Arc.{Arc}
use sicada.VectorFst.State.{VectorState}
use sicada.VectorFst.Defs
use sicada.VectorFst.Defs.{VectorFst}
use sicada.VectorFst.States.{add_arc-start, set_final-start}
use sicada.Rational.Union.{shift_arc, copy_arcs, copy_state, copy_states}
use sicada.Rational.Graph.{
  Graph, Node, node, graph, with_arc, with_final, modify-last, add_arc-graph, set_final-graph,
  add_state-graph,
}

module _ {W : Type 0} ⦃w : Weight W⦄ where
  abbrev pub shift_node : ℕ → Node W → Node W
  shift_node n1 n = (n.0, map (shift_arc n1) n.1)

  pub copy_arcs-graph :
      (n1 : ℕ) (arcs : List (Arc W)) (fst : VectorFst W) (xs : Graph W) (f : W)
      (done : List (Arc W))
      → graph fst ≡ xs ++ (f, done) ∷ []
      → graph (copy_arcs n1 (length xs) arcs fst) ≡ xs ++ (f, done ++ map (shift_arc n1) arcs) ∷ []
  unfolding copy_arcs
  copy_arcs-graph n1 [] fst xs f done e =
      e ∙ ap (λ as'. xs ++ (f, as') ∷ []) (sym (append_nil done))
  copy_arcs-graph n1 (arc ∷ arcs) fst xs f done e =
      let added =
        add_arc-graph fst (length xs) (shift_arc n1 arc)
        ∙ ap (λ g. modify g (length xs) (with_arc (shift_arc n1 arc))) e
        ∙ modify-last xs (f, done) (with_arc (shift_arc n1 arc)) in
      copy_arcs-graph n1 arcs (Defs.add_arc fst (length xs) (shift_arc n1 arc)) xs f
        (done ++ shift_arc n1 arc ∷ []) added
      ∙ ap (λ as'. xs ++ (f, as') ∷ [])
          (append_assoc done (shift_arc n1 arc ∷ []) (map (shift_arc n1) arcs))

  copy_state-graph :
      (n1 : ℕ) (s : VectorState W) (fst : VectorFst W)
      → graph (copy_state n1 s fst) ≡ graph fst ++ shift_node n1 (node s) ∷ []
  unfolding copy_state
  copy_state-graph n1 s fst =
      let size : length fst.states ≡ length (graph fst) = sym (length-map node fst.states) in
      let final =
        set_final-graph (Defs.add_state fst) (length (graph fst)) s.final_weight
        ∙ ap (λ g. modify g (length (graph fst)) (with_final s.final_weight)) (add_state-graph fst)
        ∙ modify-last (graph fst) (w.zero, []) (with_final s.final_weight) in
      ap (λ i. graph (copy_arcs n1 i s.arcs (Defs.set_final (Defs.add_state fst) i s.final_weight)))
        size
      ∙ copy_arcs-graph n1 s.arcs
          (Defs.set_final (Defs.add_state fst) (length (graph fst)) s.final_weight) (graph fst)
          s.final_weight [] final

  pub copy_states-graph :
      (n1 : ℕ) (states : List (VectorState W)) (fst : VectorFst W)
      → graph (copy_states n1 states fst) ≡ graph fst ++ map (shift_node n1) (map node states)
  unfolding copy_states
  copy_states-graph n1 [] fst = sym (append_nil (graph fst))
  copy_states-graph n1 (s ∷ states) fst =
      copy_states-graph n1 states (copy_state n1 s fst)
      ∙ ap (λ g. g ++ map (shift_node n1) (map node states)) (copy_state-graph n1 s fst)
      ∙ append_assoc (graph fst) (shift_node n1 (node s) ∷ [])
          (map (shift_node n1) (map node states))

  pub copy_arcs-start :
      (n1 i : ℕ) (arcs : List (Arc W)) (fst : VectorFst W)
      → (copy_arcs n1 i arcs fst).start ≡ fst.start
  unfolding copy_arcs
  copy_arcs-start n1 i [] fst = refl
  copy_arcs-start n1 i (arc ∷ arcs) fst =
      copy_arcs-start n1 i arcs (Defs.add_arc fst i (shift_arc n1 arc))
      ∙ add_arc-start fst i (shift_arc n1 arc)

  copy_state-start :
      (n1 : ℕ) (s : VectorState W) (fst : VectorFst W) → (copy_state n1 s fst).start ≡ fst.start
  unfolding copy_state Defs.add_state
  copy_state-start n1 s fst =
      let i = length fst.states in
      copy_arcs-start n1 i s.arcs (Defs.set_final (Defs.add_state fst) i s.final_weight)
      ∙ set_final-start (Defs.add_state fst) i s.final_weight

  pub copy_states-start :
      (n1 : ℕ) (states : List (VectorState W)) (fst : VectorFst W)
      → (copy_states n1 states fst).start ≡ fst.start
  unfolding copy_states
  copy_states-start n1 [] fst = refl
  copy_states-start n1 (s ∷ states) fst =
      copy_states-start n1 states (copy_state n1 s fst) ∙ copy_state-start n1 s fst
