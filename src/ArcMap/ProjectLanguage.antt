-- ===== src/ArcMap/ProjectLanguage.antt =====
-- `project` of sicada/src/algorithms/project.rs, as a change of what an FST accepts.
use sicada.Prelude.{
  zero, suc, ◌≡◌, refl, sym, ap, ◌∙◌, ◌↔◌, false, Option, none, some, List, [], ◌∷◌, map, arith,
  mem_map, map_mem, cons_eq, Option-cases, inl, inr,
}
use mathlib.Core.List.{Memᴰ}
use sicada.Weight.{Weight}
use sicada.Arc.{Arc, StateId, Label}
use sicada.VectorFst.Defs.{VectorFst}
use sicada.Filters.Paths.{labels, input, output}
use sicada.Rational.Graph.{Graph, graph}
use sicada.Rational.Runs.{arcs_at, final_at, IsRun, Accepts, path_weight}
use sicada.ArcMap.Defs.{MapOutcome}
use sicada.ArcMap.Project.{ProjectType, kept_label, project_arc, project}
use sicada.ArcMap.Loop.{map_node}
use sicada.ArcMap.ProjectGraph.{project-started, project-unstarted}

module _ {W : Type 0} (kind : ProjectType) where
  arcs_at-project :
      (g : Graph W) (s : StateId)
      → arcs_at (map (map_node (project_arc kind)) g) s ≡ map (project_arc kind) (arcs_at g s)
  arcs_at-project [] s = refl
  arcs_at-project (n ∷ g) zero = refl
  arcs_at-project (n ∷ g) (suc s) = arcs_at-project g s

  project-IsRun :
      (g : Graph W) (s q : StateId) (p : List (Arc W))
      → IsRun g s p q
      → IsRun (map (map_node (project_arc kind)) g) s (map (project_arc kind) p) q
  unfolding project_arc
  project-IsRun g s q [] e = e
  project-IsRun g s q (a ∷ p) (m, rest) = (
    rw (arcs_at-project g s) (mem_map (project_arc kind) a (arcs_at g s) m),
    project-IsRun g a.nextstate q p rest,
  )

  -- Every path of the projection comes from one of the FST.
  unproject-IsRun :
      (g : Graph W) (s q : StateId) (r : List (Arc W))
      → IsRun (map (map_node (project_arc kind)) g) s r q
      → (p : List (Arc W)) × (r ≡ map (project_arc kind) p) × IsRun g s p q
  unfolding project_arc
  unproject-IsRun g s q [] e = ([], refl, e)
  unproject-IsRun g s q (b ∷ r) (m, rest) =
      let m' : Memᴰ b (map (project_arc kind) (arcs_at g s)) = rw (arcs_at-project g s) at m in
      let (a, ma, e) = map_mem (project_arc kind) b (arcs_at g s) m' in
      let rest' : IsRun (map (map_node (project_arc kind)) g) a.nextstate r q = rw e at rest in
      let (p, ep, run) = unproject-IsRun g a.nextstate q r rest' in (a ∷ p, cons_eq e ep, (ma, run))

  labels-project :
      (p : List (Arc W))
      → (labels input (map (project_arc kind) p) ≡ labels (kept_label kind) p)
        × (labels output (map (project_arc kind) p) ≡ labels (kept_label kind) p)
  unfolding project_arc
  labels-project [] = (refl, refl)
  labels-project (a ∷ p) = let (i, o) = labels-project p in (ground arith, ground arith)

module _ {W : Type 0} ⦃w : Weight W⦄ where
  -- What the side that is kept says with this weight, whatever the other side says.
  abbrev pub Kept : ProjectType → Graph W → Option StateId → List Label → W → Type 0
  Kept ProjectType.keep_input g start kept v = (outs : List Label) × Accepts g start kept outs v
  Kept ProjectType.keep_output g start kept v = (ins : List Label) × Accepts g start ins kept v

  abbrev KeptPath : ProjectType → Graph W → Option StateId → List Label → W → Type 0
  KeptPath kind g start kept v =
      (s : StateId) × (q : StateId) × (p : List (Arc W)) × (start ≡ some s)
      × IsRun g s p q
      × (w.eq (final_at g q) w.zero ≡ false)
      × (labels (kept_label kind) p ≡ kept)
      × (w.times (path_weight p) (final_at g q) ≡ v)

  Kept-path :
      (kind : ProjectType) (g : Graph W) (start : Option StateId) (kept : List Label) (v : W)
      → Kept kind g start kept v ↔ KeptPath kind g start kept v
  Kept-path ProjectType.keep_input g start kept v = (
    λ (outs, (s, q, p, e, run, fin, i, o, total)). (s, q, p, e, run, fin, i, total),
    λ (s, q, p, e, run, fin, i, total). (labels output p, (s, q, p, e, run, fin, i, refl, total)),
  )
  Kept-path ProjectType.keep_output g start kept v = (
    λ (ins, (s, q, p, e, run, fin, i, o, total)). (s, q, p, e, run, fin, o, total),
    λ (s, q, p, e, run, fin, o, total). (labels input p, (s, q, p, e, run, fin, refl, o, total)),
  )

  module _ (kind : ProjectType) where
    final_at-project :
        (g : Graph W) (s : StateId)
        → final_at (map (map_node (project_arc kind)) g) s ≡ final_at g s
    final_at-project [] s = refl
    final_at-project (n ∷ g) zero = refl
    final_at-project (n ∷ g) (suc s) = final_at-project g s

    path_weight-project :
        (p : List (Arc W)) → path_weight (map (project_arc kind) p) ≡ path_weight p
    unfolding project_arc
    path_weight-project [] = refl
    path_weight-project (a ∷ p) = ap (w.times a.weight) (path_weight-project p)

    projected-Accepts :
        (g : Graph W) (start : Option StateId) (ins outs : List Label) (v : W)
        → Accepts (map (map_node (project_arc kind)) g) start ins outs v
          ↔ (ins ≡ outs) × KeptPath kind g start ins v
    projected-Accepts g start ins outs v = (
      λ (s, q, r, e, run, fin, i, o, total).
          let (p, ep, run') = unproject-IsRun kind g s q r run in
          let (li, lo) = labels-project kind p in
          let f = final_at-project g q in
          let read : labels (kept_label kind) p ≡ ins = sym li ∙ ap (labels input) (sym ep) ∙ i in
          let wrote : labels (kept_label kind) p ≡ outs =
            sym lo ∙ ap (labels output) (sym ep) ∙ o in
          let pw : path_weight r ≡ path_weight p = ap path_weight ep ∙ path_weight-project p in
          (sym read ∙ wrote, (s, q, p, e, run', rw f at fin, read, rw (f, pw) at total)),
      λ (same, (s, q, p, e, run, fin, i, total)).
          let (li, lo) = labels-project kind p in
          let f = final_at-project g q in
          (
            s,
            q,
            map (project_arc kind) p,
            e,
            project-IsRun kind g s q p run,
            rw f fin,
            li ∙ i,
            lo ∙ i ∙ same,
            rw (f, path_weight-project p) total,
          ),
    )

    nothing_accepted :
        (g : Graph W) (start : Option StateId) (ins outs : List Label) (v : W) (A : Type 0)
        → start ≡ none
        → Accepts g start ins outs v
        → A
    nothing_accepted g start ins outs v A e (s, q, p, e', run, fin, i, o, total) =
        let k : none ≡ some s = sym e ∙ e' in cc

    nothing_kept :
        (g : Graph W) (start : Option StateId) (kept : List Label) (v : W) (A : Type 0)
        → start ≡ none
        → KeptPath kind g start kept v
        → A
    nothing_kept g start kept v A e (s, q, p, e', run, fin, i, total) =
        let k : none ≡ some s = sym e ∙ e' in cc

    -- `project` succeeds on every FST, one without a start state included, and leaves an acceptor
    -- of the side that is kept: the result reads and writes the same string, and does so with a
    -- weight exactly when some path of the FST has that string on the side that is kept, that
    -- weight, and any string on the other side.
    pub project_language :
        (fst : VectorFst W)
        → (m : VectorFst W) × (project fst kind ≡ MapOutcome.done m)
          × ((ins outs : List Label) (v : W)
              → Accepts (graph m) m.start ins outs v
                ↔ (ins ≡ outs) × Kept kind (graph fst) fst.start ins v)
    project_language fst = elim (Option-cases fst.start) [
      | inl e ↦
          let (m, done, t) = project-unstarted kind fst e in
          (
            m,
            done,
            λ ins outs v. (
              λ a. nothing_accepted (graph m) m.start ins outs v _ t a,
              λ (same, k).
                  nothing_kept (graph fst) fst.start ins v _ e
                    ((Kept-path kind (graph fst) fst.start ins v).0 k),
            ),
          )
      | inr (s, e) ↦
          let (m, done, g, t) = project-started kind fst s e in
          (
            m,
            done,
            λ ins outs v.
                let (to, from) = projected-Accepts (graph fst) fst.start ins outs v in
                let (path, kept) = Kept-path kind (graph fst) fst.start ins v in
                (
                  λ a. let (same, k) = to (rw (g, t) at a) in (same, kept k),
                  λ (same, k). rw (g, t) (from (same, path k)),
                ),
          )
    ]
