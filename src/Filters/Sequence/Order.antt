-- ===== src/Filters/Sequence/Order.antt =====
-- The order in which `SequenceComposeFilter` lets epsilons through.
use sicada.Prelude.{◌≡◌, refl, ◌≢◌, true, List, [], ◌∷◌, ◌==◌, if◌then◌else◌, arith}
use sicada.Weight.{Weight}
use sicada.Arc.{Arc, epsilon}
use sicada.Filters.Defs.{
  ComposeFilter, CharFilterState, SequenceComposeFilter, state_default, sequence_set_state,
  sequence_filter_arc,
}
use sicada.Filters.Paths.{starts_real, output}
use sicada.Filters.Runs.{Move}

module _ {W : Type 0} ⦃w : Weight W⦄ where
  abbrev pub sequence_filter : ComposeFilter W (SequenceComposeFilter W) CharFilterState
  sequence_filter = record {
    start = λ f. state_default;
    set_state = sequence_set_state;
    filter_arc = λ f a b. (sequence_filter_arc f a b, a, b);
  }

  -- The order that the filter keeps: an epsilon of the first side, then one of the second, then
  -- labels that meet.
  abbrev pub first_first : List (Arc W) → List (Arc W) → List Move
  first_first [] [] = []
  first_first [] (b ∷ p2) = Move.right ∷ first_first [] p2
  first_first (a ∷ p1) [] = Move.left ∷ first_first p1 []
  first_first (a ∷ p1) (b ∷ p2) =
      let l = first_first p1 (b ∷ p2) in
      let r = first_first (a ∷ p1) p2 in
      let m = first_first p1 p2 in
      if a.olabel == epsilon
      then Move.left ∷ l
      else if b.ilabel == epsilon
      then Move.right ∷ r
      else Move.both ∷ m

  pub first_first-left :
      (a : Arc W) (p1 p2 : List (Arc W))
      → a.olabel ≡ epsilon
      → first_first (a ∷ p1) p2 ≡ Move.left ∷ first_first p1 p2
  first_first-left a p1 [] e = refl
  first_first-left a p1 (b ∷ p2) e = rw e refl

  pub first_first-right :
      (b : Arc W) (p1 p2 : List (Arc W))
      → b.ilabel ≡ epsilon
      → starts_real output p1 ≡ true
      → first_first p1 (b ∷ p2) ≡ Move.right ∷ first_first p1 p2
  first_first-right b [] p2 e real = refl
  first_first-right b (a ∷ p1) p2 e real = ground arith

  pub first_first-both :
      (a b : Arc W) (p1 p2 : List (Arc W))
      → a.olabel ≢ epsilon
      → a.olabel ≡ b.ilabel
      → first_first (a ∷ p1) (b ∷ p2) ≡ Move.both ∷ first_first p1 p2
  first_first-both a b p1 p2 ne e = ground arith
