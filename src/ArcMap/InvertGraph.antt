-- ===== src/ArcMap/InvertGraph.antt =====
-- What `invert` of sicada/src/algorithms/invert.rs makes of the states and arcs.
use sicada.Prelude.{◌≡◌, refl, ap, ◌∙◌, none, some, map}
use sicada.Weight.{Weight}
use sicada.Arc.{StateId}
use sicada.VectorFst.Defs
use sicada.VectorFst.Defs.{VectorFst}
use sicada.Rational.Graph.{graph, Node}
use sicada.ArcMap.Defs.{final_as_arc, MapOutcome, map_all, arc_map, clear_symbols}
use sicada.ArcMap.Invert.{invert_arc, invert_mapper, swap_symbols, invert}
use sicada.ArcMap.Loop.{map_node, map_all-kept}

module _ {W : Type 0} where
  abbrev pub invert_node : Node W → Node W
  invert_node = map_node invert_arc

module _ {W : Type 0} ⦃w : Weight W⦄ where
  map_all-invert :
      (fst : VectorFst W)
      → (last : VectorFst W) × (map_all invert_mapper fst ≡ MapOutcome.done last)
        × (graph last ≡ map invert_node (graph fst))
        × (last.start ≡ fst.start)
  unfolding invert_mapper invert_arc final_as_arc
  map_all-invert fst = map_all-kept invert_mapper refl (λ x. refl) fst

  -- The tables of symbols are no part of the graph.
  cleared : VectorFst W → VectorFst W
  cleared fst = Defs.set_output_symbols (Defs.set_input_symbols fst none) none

  cleared-graph :
      (fst : VectorFst W)
      → (clear_symbols invert_mapper fst ≡ cleared fst)
        × (graph (cleared fst) ≡ graph fst)
        × ((cleared fst).start ≡ fst.start)
  unfolding clear_symbols invert_mapper Defs.set_output_symbols Defs.set_input_symbols cleared
  cleared-graph fst = (refl, refl, refl)

  swapped-graph :
      (fst last : VectorFst W)
      → (m : VectorFst W) × (swap_symbols fst (MapOutcome.done last) ≡ MapOutcome.done m)
        × (graph m ≡ graph last)
        × (m.start ≡ last.start)
  unfolding swap_symbols Defs.set_output_symbols Defs.set_input_symbols
  swapped-graph fst last = (
    Defs.set_output_symbols (Defs.set_input_symbols last fst.osymbols) fst.isymbols,
    refl,
    refl,
    refl,
  )

  arc_map-started :
      (fst : VectorFst W) (s : StateId)
      → fst.start ≡ some s
      → arc_map invert_mapper fst ≡ map_all invert_mapper (cleared fst)
  unfolding arc_map invert_mapper cleared
  arc_map-started fst s e = let (c, g, t) = cleared-graph fst in rw (c, t, e) refl

  arc_map-unstarted :
      (fst : VectorFst W)
      → fst.start ≡ none
      → arc_map invert_mapper fst ≡ MapOutcome.done (cleared fst)
  unfolding arc_map invert_mapper cleared
  arc_map-unstarted fst e = let (c, g, t) = cleared-graph fst in rw (c, t, e) refl

  pub invert-started :
      (fst : VectorFst W) (s : StateId)
      → fst.start ≡ some s
      → (m : VectorFst W) × (invert fst ≡ MapOutcome.done m)
        × (graph m ≡ map invert_node (graph fst))
        × (m.start ≡ fst.start)
  unfolding invert
  invert-started fst s e =
      let (c, g, t) = cleared-graph fst in
      let (last, e1, g1, t1) = map_all-invert (cleared fst) in
      let (m, e2, g2, t2) = swapped-graph fst last in
      (
        m,
        ap (swap_symbols fst) (arc_map-started fst s e ∙ e1) ∙ e2,
        g2 ∙ g1 ∙ ap (map invert_node) g,
        t2 ∙ t1 ∙ t,
      )

  pub invert-unstarted :
      (fst : VectorFst W)
      → fst.start ≡ none
      → (m : VectorFst W) × (invert fst ≡ MapOutcome.done m) × (m.start ≡ none)
  unfolding invert
  invert-unstarted fst e =
      let (c, g, t) = cleared-graph fst in
      let (m, e2, g2, t2) = swapped-graph fst (cleared fst) in
      (m, ap (swap_symbols fst) (arc_map-unstarted fst e) ∙ e2, t2 ∙ t ∙ e)
