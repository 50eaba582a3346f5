-- ===== src/Rational/Shift.antt =====
-- The runs of an FST that was copied with its states shifted.
use sicada.Prelude.{
  mem_map, map_mem, cons_eq, ℕ, ◌+◌, ◌≡◌, refl, sym, ap, ◌<◌, List, [], ◌∷◌, map, length,
}
use mathlib.Core.List.{Memᴰ}
use sicada.Weight.{Weight}
use sicada.Arc.{Arc, StateId}
use sicada.Filters.Paths.{labels, input, output}
use sicada.Rational.Union.{shift_arc}
use sicada.Rational.Graph.{Graph}
use sicada.Rational.Runs.{arcs_at, IsRun, IsClosed, path_weight}

module _ {W : Type 0} ⦃w : Weight W⦄ where
  pub labels-shift :
      (n1 : ℕ) (p : List (Arc W))
      → (labels input (map (shift_arc n1) p) ≡ labels input p)
        × (labels output (map (shift_arc n1) p) ≡ labels output p)
        × (path_weight (map (shift_arc n1) p) ≡ path_weight p)
  unfolding shift_arc
  labels-shift n1 [] = (refl, refl, refl)
  labels-shift n1 (a ∷ p) = let (i, o, v) = labels-shift n1 p in (rw i refl, rw o refl, rw v refl)

  module _ (g h : Graph W) (n1 : ℕ) (closed : IsClosed g)
      (copied : (s : StateId)
        → s < length g
        → arcs_at h (s + n1) ≡ map (shift_arc n1) (arcs_at g s)) where
    pub shift-IsRun :
        (s q : StateId) (p : List (Arc W))
        → s < length g
        → IsRun g s p q
        → IsRun h (s + n1) (map (shift_arc n1) p) (q + n1)
    unfolding shift_arc
    shift-IsRun s q [] k e = ap (λ t. t + n1) e
    shift-IsRun s q (a ∷ p) k (m, rest) = (
      rw (copied s k) (mem_map (shift_arc n1) a (arcs_at g s) m),
      shift-IsRun a.nextstate q p (closed s a m) rest,
    )

    pub unshift-IsRun :
        (s q : StateId) (p : List (Arc W))
        → s < length g
        → IsRun h (s + n1) p q
        → (t : StateId) × (r : List (Arc W)) × (t < length g)
          × (q ≡ t + n1)
          × (p ≡ map (shift_arc n1) r)
          × IsRun g s r t
    unfolding shift_arc
    unshift-IsRun s q [] k e = (s, [], k, sym e, refl, refl)
    unshift-IsRun s q (a ∷ p) k (m, rest) =
        let m' : Memᴰ a (map (shift_arc n1) (arcs_at g s)) = rw (copied s k) at m in
        let (b, mb, e) = map_mem (shift_arc n1) a (arcs_at g s) m' in
        let rest' : IsRun h (b.nextstate + n1) p q = rw e at rest in
        let (t, r, lt, eq, ep, run) = unshift-IsRun b.nextstate q p (closed s b mb) rest' in
        (t, b ∷ r, lt, eq, cons_eq e ep, (mb, run))
