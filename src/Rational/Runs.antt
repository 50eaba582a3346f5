-- ===== src/Rational/Runs.antt =====
-- The paths of an FST and what it accepts.
use sicada.Prelude.{
  none, map, get_elem?, ℕ, refl, zero, suc, ◌≡◌, ◌↔◌, ◌<◌, false, Option, some, List, [], ◌∷◌,
  length,
}
use mathlib.Core.List.{Memᴰ}
use sicada.VectorFst.State.{VectorState}
use sicada.VectorFst.Defs
use sicada.VectorFst.Defs.{VectorFst}
use sicada.Weight.{Weight}
use sicada.Arc.{Arc, Label, StateId}
use sicada.Filters.Paths.{labels, input, output}
use sicada.Rational.Graph.{Graph, graph, node}

module _ {W : Type 0} where
  abbrev pub arcs_at : Graph W → StateId → List (Arc W)
  arcs_at [] s = []
  arcs_at (n ∷ g) zero = n.1
  arcs_at (n ∷ g) (suc s) = arcs_at g s

  -- The arcs of a path, from its first state to its last.
  abbrev pub IsRun : Graph W → StateId → List (Arc W) → StateId → Type 0
  IsRun g s [] q = s ≡ q
  IsRun g s (a ∷ p) q = Memᴰ a (arcs_at g s) × IsRun g a.nextstate p q

  -- Every arc leads to a state.
  abbrev pub IsClosed : Graph W → Type 0
  IsClosed g = (s : StateId) (a : Arc W) → Memᴰ a (arcs_at g s) → a.nextstate < length g

  -- A region that no arc leaves has the same runs in any graph that has the same arcs there.
  pub region :
      (g h : Graph W) (R : StateId → Type 0)
      → ((s : StateId) → R s → arcs_at h s ≡ arcs_at g s)
      → ((s : StateId) (a : Arc W) → R s → Memᴰ a (arcs_at g s) → R a.nextstate)
      → (s q : StateId) (p : List (Arc W)) → R s
      → IsRun g s p q ↔ IsRun h s p q
  region g h R same stays s q [] r = (λ e. e, λ e. e)
  region g h R same stays s q (a ∷ p) r = (
    λ (m, rest).
        (rw (same s r) m, (region g h R same stays a.nextstate q p (stays s a r m)).0 rest),
    λ (m, rest).
        let m' = rw (same s r) at m in
        (m', (region g h R same stays a.nextstate q p (stays s a r m')).1 rest),
  )

  pub region_end :
      (g : Graph W) (R : StateId → Type 0)
      → ((s : StateId) (a : Arc W) → R s → Memᴰ a (arcs_at g s) → R a.nextstate)
      → (s q : StateId) (p : List (Arc W)) → R s
      → IsRun g s p q
      → R q
  region_end g R stays s q [] r e = rw⁻¹ e r
  region_end g R stays s q (a ∷ p) r (m, rest) =
      region_end g R stays a.nextstate q p (stays s a r m) rest

module _ {W : Type 0} ⦃w : Weight W⦄ where
  abbrev pub final_at : Graph W → StateId → W
  final_at [] s = w.zero
  final_at (n ∷ g) zero = n.0
  final_at (n ∷ g) (suc s) = final_at g s

  abbrev pub path_weight : List (Arc W) → W
  path_weight [] = w.one
  path_weight (a ∷ p) = w.times a.weight (path_weight p)

  -- Some path from the start to a final state reads `ins`, writes `outs`, and has this weight, its
  -- final weight included.
  abbrev pub Accepts : Graph W → Option StateId → List Label → List Label → W → Type 0
  Accepts g start ins outs v =
      (s : StateId) × (q : StateId) × (p : List (Arc W)) × (start ≡ some s)
      × IsRun g s p q
      × (w.eq (final_at g q) w.zero ≡ false)
      × (labels input p ≡ ins)
      × (labels output p ≡ outs)
      × (w.times (path_weight p) (final_at g q) ≡ v)

  final_weight-list :
      (xs : List (VectorState W)) (i : ℕ)
      → elim (get_elem? xs i) as (λ x. W) [ none ↦ w.zero | some t ↦ t.final_weight ]
        ≡ final_at (map node xs) i
  final_weight-list [] i = refl
  final_weight-list (x ∷ xs) zero = refl
  final_weight-list (x ∷ xs) (suc i) = final_weight-list xs i

  pub final_weight-graph :
      (fst : VectorFst W) (s : StateId) → Defs.final_weight fst s ≡ final_at (graph fst) s
  unfolding Defs.final_weight
  final_weight-graph fst s = final_weight-list fst.states s
