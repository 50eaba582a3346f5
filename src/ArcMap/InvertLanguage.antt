-- ===== src/ArcMap/InvertLanguage.antt =====
-- `invert` of sicada/src/algorithms/invert.rs, as a change of what an FST accepts.
use sicada.Prelude.{
  zero, suc, ◌≡◌, refl, sym, ap, ◌∙◌, ◌↔◌, Option, none, some, List, [], ◌∷◌, map, arith, mem_map,
  Option-cases, inl, inr,
}
use mathlib.Core.Path.{subst}
use sicada.Weight.{Weight}
use sicada.Arc.{Arc, StateId, Label}
use sicada.VectorFst.Defs.{VectorFst}
use sicada.Filters.Paths.{labels, input, output}
use sicada.Rational.Graph.{Graph, graph}
use sicada.Rational.Runs.{arcs_at, final_at, IsRun, Accepts, path_weight}
use sicada.ArcMap.Defs.{MapOutcome}
use sicada.ArcMap.Invert.{invert_arc, invert}
use sicada.ArcMap.InvertGraph.{invert_node, invert-started, invert-unstarted}

module _ {W : Type 0} where
  map_invert_arc_twice : (p : List (Arc W)) → map invert_arc (map invert_arc p) ≡ p
  unfolding invert_arc
  map_invert_arc_twice [] = refl
  map_invert_arc_twice (a ∷ p) = ap (◌∷◌ a) (map_invert_arc_twice p)

  invert_twice : (g : Graph W) → map invert_node (map invert_node g) ≡ g
  invert_twice [] = refl
  invert_twice (n ∷ g) =
      ap (λ x. (n.0, x) ∷ map invert_node (map invert_node g)) (map_invert_arc_twice n.1)
      ∙ ap (◌∷◌ n) (invert_twice g)

  arcs_at-invert :
      (g : Graph W) (s : StateId) → arcs_at (map invert_node g) s ≡ map invert_arc (arcs_at g s)
  arcs_at-invert [] s = refl
  arcs_at-invert (n ∷ g) zero = refl
  arcs_at-invert (n ∷ g) (suc s) = arcs_at-invert g s

  invert-IsRun :
      (g : Graph W) (s q : StateId) (p : List (Arc W))
      → IsRun g s p q
      → IsRun (map invert_node g) s (map invert_arc p) q
  unfolding invert_arc
  invert-IsRun g s q [] e = e
  invert-IsRun g s q (a ∷ p) (m, rest) = (
    rw (arcs_at-invert g s) (mem_map invert_arc a (arcs_at g s) m),
    invert-IsRun g a.nextstate q p rest,
  )

  labels-invert :
      (p : List (Arc W))
      → (labels input (map invert_arc p) ≡ labels output p)
        × (labels output (map invert_arc p) ≡ labels input p)
  unfolding invert_arc
  labels-invert [] = (refl, refl)
  labels-invert (a ∷ p) = let (i, o) = labels-invert p in (ground arith, ground arith)

module _ {W : Type 0} ⦃w : Weight W⦄ where
  final_at-invert : (g : Graph W) (s : StateId) → final_at (map invert_node g) s ≡ final_at g s
  final_at-invert [] s = refl
  final_at-invert (n ∷ g) zero = refl
  final_at-invert (n ∷ g) (suc s) = final_at-invert g s

  path_weight-invert : (p : List (Arc W)) → path_weight (map invert_arc p) ≡ path_weight p
  unfolding invert_arc
  path_weight-invert [] = refl
  path_weight-invert (a ∷ p) = ap (w.times a.weight) (path_weight-invert p)

  invert-Accepts :
      (g : Graph W) (start : Option StateId) (ins outs : List Label) (v : W)
      → Accepts g start ins outs v
      → Accepts (map invert_node g) start outs ins v
  invert-Accepts g start ins outs v (s, q, p, e, run, fin, i, o, total) =
      let (li, lo) = labels-invert p in
      let f = final_at-invert g q in
      let wt = path_weight-invert p in
      (
        s,
        q,
        map invert_arc p,
        e,
        invert-IsRun g s q p run,
        rw f fin,
        li ∙ o,
        lo ∙ i,
        rw (f, wt) total,
      )

  -- Without a start state nothing is accepted.
  unstarted :
      (g h : Graph W) (start start' : Option StateId) (ins outs ins' outs' : List Label) (v : W)
      → start ≡ none
      → Accepts g start ins outs v
      → Accepts h start' ins' outs' v
  unstarted g h start start' ins outs ins' outs' v e (s, q, p, e', run, fin, i, o, total) =
      let k : none ≡ some s = sym e ∙ e' in cc

  -- Inverting a graph swaps what it reads and what it writes.
  inverted-Accepts :
      (g : Graph W) (start : Option StateId) (ins outs : List Label) (v : W)
      → Accepts (map invert_node g) start ins outs v ↔ Accepts g start outs ins v
  inverted-Accepts g start ins outs v = (
    λ a.
        let b = invert-Accepts (map invert_node g) start ins outs v a in
        subst (λ h. Accepts h start outs ins v) (invert_twice g) b,
    λ a. invert-Accepts g start outs ins v a,
  )

  -- `invert` succeeds on every FST, one without a start state included, and the result reads what
  -- the FST wrote and writes what it read, with the same weights: it accepts a pair of strings with
  -- a weight exactly when the FST accepted the swapped pair with that weight.
  pub invert_language :
      (fst : VectorFst W)
      → (m : VectorFst W) × (invert fst ≡ MapOutcome.done m)
        × ((ins outs : List Label) (v : W)
            → Accepts (graph m) m.start ins outs v ↔ Accepts (graph fst) fst.start outs ins v)
  invert_language fst = elim (Option-cases fst.start) [
    | inl e ↦
        let (m, done, t) = invert-unstarted fst e in
        (
          m,
          done,
          λ ins outs v. (
            unstarted (graph m) (graph fst) m.start fst.start ins outs outs ins v t,
            unstarted (graph fst) (graph m) fst.start m.start outs ins ins outs v e,
          ),
        )
    | inr (s, e) ↦
        let (m, done, g, t) = invert-started fst s e in
        (m, done, λ ins outs v. rw (g, t) (inverted-Accepts (graph fst) fst.start ins outs v))
  ]
