-- ===== src/Rational/Graph.antt =====
-- What an FST says apart from its counts and property bits: the final weight and the arcs of each
-- state. The mutating methods of sicada/src/fsts/vector_fst.rs, read as changes of that.
use sicada.Prelude.{ℕ, zero, suc, ◌≡◌, refl, ap, ◌∙◌, List, [], ◌∷◌, ◌++◌, map, length, modify}
use sicada.Weight.{Weight}
use sicada.Arc.{Arc, StateId}
use sicada.VectorFst.State
use sicada.VectorFst.State.{VectorState}
use sicada.VectorFst.Defs
use sicada.VectorFst.Defs.{VectorFst}
use sicada.VectorFst.States.{set_final-states, add_arc-states}

abbrev pub Node : Type 0 → Type 0
Node W = W × List (Arc W)

abbrev pub Graph : Type 0 → Type 0
Graph W = List (Node W)

module _ {W : Type 0} where
  abbrev pub node : VectorState W → Node W
  node s = (s.final_weight, s.arcs)

  abbrev pub graph : VectorFst W → Graph W
  graph fst = map node fst.states

  abbrev pub with_arc : Arc W → Node W → Node W
  with_arc arc n = (n.0, n.1 ++ arc ∷ [])

  abbrev pub with_final : W → Node W → Node W
  with_final weight n = (weight, n.1)

pub map-modify :
    {A B : Type 0} (xs : List A) (i : ℕ) (f : A → A) (g : A → B) (h : B → B)
    → ((x : A) → g (f x) ≡ h (g x))
    → map g (modify xs i f) ≡ modify (map g xs) i h
map-modify [] i f g h e = refl
map-modify (x ∷ xs) zero f g h e = ap (λ y. y ∷ map g xs) (e x)
map-modify (x ∷ xs) (suc i) f g h e = ap (◌∷◌ (g x)) (map-modify xs i f g h e)

pub modify-last :
    {A : Type 0} (xs : List A) (x : A) (f : A → A)
    → modify (xs ++ x ∷ []) (length xs) f ≡ xs ++ f x ∷ []
modify-last [] x f = refl
modify-last (y ∷ xs) x f = ap (◌∷◌ y) (modify-last xs x f)

map-append : {A B : Type 0} (f : A → B) (xs ys : List A) → map f (xs ++ ys) ≡ map f xs ++ map f ys
map-append f [] ys = refl
map-append f (x ∷ xs) ys = ap (◌∷◌ (f x)) (map-append f xs ys)

module _ {W : Type 0} ⦃w : Weight W⦄ (fst : VectorFst W) where
  pub add_arc-graph :
      (s : StateId) (arc : Arc W)
      → graph (Defs.add_arc fst s arc) ≡ modify (graph fst) s (with_arc arc)
  unfolding State.add_arc
  add_arc-graph s arc =
      ap (map node) (add_arc-states fst s arc)
      ∙ map-modify fst.states s (λ t. State.add_arc t arc) node (with_arc arc) (λ x. refl)

  pub set_final-graph :
      (s : StateId) (weight : W)
      → graph (Defs.set_final fst s weight) ≡ modify (graph fst) s (with_final weight)
  set_final-graph s weight =
      ap (map node) (set_final-states fst s weight)
      ∙ map-modify fst.states s (λ t. record t { final_weight = weight }) node (with_final weight)
          (λ x. refl)

  pub add_state-graph : graph (Defs.add_state fst) ≡ graph fst ++ (w.zero, []) ∷ []
  unfolding Defs.add_state State.new
  add_state-graph = map-append node fst.states (State.new ∷ [])
