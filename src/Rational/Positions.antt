-- ===== src/Rational/Positions.antt =====
-- The arcs and final weights at the states of graphs that were appended, shifted or changed.
use sicada.Prelude.{
  ℕ, zero, suc, ◌+◌, ◌≡◌, ◌≢◌, refl, ap, ◌<◌, [], ◌∷◌, ◌++◌, map, length, modify, arith,
}
use sicada.Weight.{Weight}
use sicada.Arc.{Arc, StateId}
use sicada.Rational.Union.{shift_arc}
use sicada.Rational.Graph.{Graph, Node, with_arc}
use sicada.Rational.Copy.{shift_node}
use sicada.Rational.Runs.{arcs_at, final_at}

module _ {W : Type 0} ⦃w : Weight W⦄ where
  pub arcs_at-left : (g h : Graph W) (s : StateId) → s < length g → arcs_at (g ++ h) s ≡ arcs_at g s
  arcs_at-left [] h s k = absurd (omega (arith, k))
  arcs_at-left (n ∷ g) h zero k = refl
  arcs_at-left (n ∷ g) h (suc s) k = arcs_at-left g h s (omega (arith, k))

  pub final_at-left :
      (g h : Graph W) (s : StateId) → s < length g → final_at (g ++ h) s ≡ final_at g s
  final_at-left [] h s k = absurd (omega (arith, k))
  final_at-left (n ∷ g) h zero k = refl
  final_at-left (n ∷ g) h (suc s) k = final_at-left g h s (omega (arith, k))

  pub arcs_at-right :
      (g h : Graph W) (s t : StateId) → t ≡ s + length g → arcs_at (g ++ h) t ≡ arcs_at h s
  arcs_at-right [] h s t k = let e : t ≡ s = omega (arith, k) in rw e refl
  arcs_at-right (n ∷ g) h s zero k = absurd (omega (arith, k))
  arcs_at-right (n ∷ g) h s (suc t) k = arcs_at-right g h s t (omega (arith, k))

  pub final_at-right :
      (g h : Graph W) (s t : StateId) → t ≡ s + length g → final_at (g ++ h) t ≡ final_at h s
  final_at-right [] h s t k = let e : t ≡ s = omega (arith, k) in rw e refl
  final_at-right (n ∷ g) h s zero k = absurd (omega (arith, k))
  final_at-right (n ∷ g) h s (suc t) k = final_at-right g h s t (omega (arith, k))

  pub arcs_at-shift :
      (n1 : ℕ) (g : Graph W) (s : StateId)
      → arcs_at (map (shift_node n1) g) s ≡ map (shift_arc n1) (arcs_at g s)
  arcs_at-shift n1 [] s = refl
  arcs_at-shift n1 (n ∷ g) zero = refl
  arcs_at-shift n1 (n ∷ g) (suc s) = arcs_at-shift n1 g s

  pub final_at-shift :
      (n1 : ℕ) (g : Graph W) (s : StateId) → final_at (map (shift_node n1) g) s ≡ final_at g s
  final_at-shift n1 [] s = refl
  final_at-shift n1 (n ∷ g) zero = refl
  final_at-shift n1 (n ∷ g) (suc s) = final_at-shift n1 g s

  pub arcs_at-modify_ne :
      (g : Graph W) (i s : StateId) (f : Node W → Node W)
      → i ≢ s
      → arcs_at (modify g i f) s ≡ arcs_at g s
  arcs_at-modify_ne [] i s f h = refl
  arcs_at-modify_ne (n ∷ g) zero zero f h = absurd (h refl)
  arcs_at-modify_ne (n ∷ g) zero (suc s) f h = refl
  arcs_at-modify_ne (n ∷ g) (suc i) zero f h = refl
  arcs_at-modify_ne (n ∷ g) (suc i) (suc s) f h = arcs_at-modify_ne g i s f (λ e. h (ap suc e))

  pub arcs_at-with_arc :
      (g : Graph W) (s : StateId) (a : Arc W)
      → s < length g
      → arcs_at (modify g s (with_arc a)) s ≡ arcs_at g s ++ a ∷ []
  arcs_at-with_arc [] s a k = absurd (omega (arith, k))
  arcs_at-with_arc (n ∷ g) zero a k = refl
  arcs_at-with_arc (n ∷ g) (suc s) a k = arcs_at-with_arc g s a (omega (arith, k))

  pub final_at-with_arc :
      (g : Graph W) (i s : StateId) (a : Arc W)
      → final_at (modify g i (with_arc a)) s ≡ final_at g s
  final_at-with_arc [] i s a = refl
  final_at-with_arc (n ∷ g) zero zero a = refl
  final_at-with_arc (n ∷ g) zero (suc s) a = refl
  final_at-with_arc (n ∷ g) (suc i) zero a = refl
  final_at-with_arc (n ∷ g) (suc i) (suc s) a = final_at-with_arc g i s a
