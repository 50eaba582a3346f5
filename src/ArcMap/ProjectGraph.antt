-- ===== src/ArcMap/ProjectGraph.antt =====
-- What `project` of sicada/src/algorithms/project.rs makes of the states and arcs.
use sicada.Prelude.{◌≡◌, refl, ap, ◌∙◌, none, some, map}
use sicada.Weight.{Weight}
use sicada.Arc.{StateId}
use sicada.VectorFst.Defs
use sicada.VectorFst.Defs.{VectorFst}
use sicada.Rational.Graph.{graph}
use sicada.ArcMap.Defs.{ArcMapper, MapOutcome, map_all, arc_map, clear_symbols, final_as_arc}
use sicada.ArcMap.Project.{ProjectType, project_arc, project_mapper, share_symbols, project}
use sicada.ArcMap.Loop.{map_node, map_all-kept}

module _ {W : Type 0} ⦃w : Weight W⦄ where
  keeps_final :
      (kind : ProjectType) (x : W) → (project_mapper kind).map (final_as_arc x) ≡ final_as_arc x
  unfolding project_mapper project_arc final_as_arc
  keeps_final ProjectType.keep_input x = refl
  keeps_final ProjectType.keep_output x = refl

  map_all-project :
      (kind : ProjectType) (f : VectorFst W)
      → (last : VectorFst W) × (map_all (project_mapper kind) f ≡ MapOutcome.done last)
        × (graph last ≡ map (map_node (project_arc kind)) (graph f))
        × (last.start ≡ f.start)
  unfolding project_mapper
  map_all-project kind f = map_all-kept (project_mapper kind) refl (keeps_final kind) f

  cleared-graph :
      (kind : ProjectType) (fst : VectorFst W)
      → (graph (clear_symbols (project_mapper kind) fst) ≡ graph fst)
        × ((clear_symbols (project_mapper kind) fst).start ≡ fst.start)
  unfolding clear_symbols project_mapper Defs.set_output_symbols Defs.set_input_symbols
  cleared-graph ProjectType.keep_input fst = (refl, refl)
  cleared-graph ProjectType.keep_output fst = (refl, refl)

  shared-graph :
      (kind : ProjectType) (last : VectorFst W)
      → (m : VectorFst W) × (share_symbols kind (MapOutcome.done last) ≡ MapOutcome.done m)
        × (graph m ≡ graph last)
        × (m.start ≡ last.start)
  unfolding share_symbols Defs.set_output_symbols Defs.set_input_symbols
  shared-graph ProjectType.keep_input last =
      (Defs.set_output_symbols last last.isymbols, refl, refl, refl)
  shared-graph ProjectType.keep_output last =
      (Defs.set_input_symbols last last.osymbols, refl, refl, refl)

  arc_map-started :
      (mapper : ArcMapper W) (fst : VectorFst W) (s : StateId)
      → (clear_symbols mapper fst).start ≡ some s
      → arc_map mapper fst ≡ map_all mapper (clear_symbols mapper fst)
  unfolding arc_map
  arc_map-started mapper fst s e =
      ap
        (λ o. elim o [
          | none ↦ MapOutcome.done (clear_symbols mapper fst)
          | some _ ↦ map_all mapper (clear_symbols mapper fst)
        ])
        e

  arc_map-unstarted :
      (mapper : ArcMapper W) (fst : VectorFst W)
      → (clear_symbols mapper fst).start ≡ none
      → arc_map mapper fst ≡ MapOutcome.done (clear_symbols mapper fst)
  unfolding arc_map
  arc_map-unstarted mapper fst e =
      ap
        (λ o. elim o [
          | none ↦ MapOutcome.done (clear_symbols mapper fst)
          | some _ ↦ map_all mapper (clear_symbols mapper fst)
        ])
        e

  pub project-started :
      (kind : ProjectType) (fst : VectorFst W) (s : StateId)
      → fst.start ≡ some s
      → (m : VectorFst W) × (project fst kind ≡ MapOutcome.done m)
        × (graph m ≡ map (map_node (project_arc kind)) (graph fst))
        × (m.start ≡ fst.start)
  unfolding project
  project-started kind fst s e =
      let (g, t) = cleared-graph kind fst in
      let (last, e1, g1, t1) = map_all-project kind (clear_symbols (project_mapper kind) fst) in
      let (m, e2, g2, t2) = shared-graph kind last in
      (
        m,
        ap (share_symbols kind) (arc_map-started (project_mapper kind) fst s (t ∙ e) ∙ e1) ∙ e2,
        g2 ∙ g1 ∙ ap (map (map_node (project_arc kind))) g,
        t2 ∙ t1 ∙ t,
      )

  pub project-unstarted :
      (kind : ProjectType) (fst : VectorFst W)
      → fst.start ≡ none
      → (m : VectorFst W) × (project fst kind ≡ MapOutcome.done m) × (m.start ≡ none)
  unfolding project
  project-unstarted kind fst e =
      let (g, t) = cleared-graph kind fst in
      let (m, e2, g2, t2) = shared-graph kind (clear_symbols (project_mapper kind) fst) in
      (
        m,
        ap (share_symbols kind) (arc_map-unstarted (project_mapper kind) fst (t ∙ e)) ∙ e2,
        t2 ∙ t ∙ e,
      )
