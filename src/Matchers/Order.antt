-- ===== src/Matchers/Order.antt =====
-- Arcs in the order of the labels on one side, which the searches of sicada/src/matcher.rs want.
use sicada.Prelude.{
  suc, ◌≤◌, ◌<◌, ◌≡◌, refl, ap, Bool, true, false, List, [], ◌∷◌, ◌++◌, length, ltb, leb, ◌==◌,
  ==_iff, Bool-cases, inl, inr, if◌then◌else◌, partition_point, drop, select, arith,
}
use sicada.Arc.{Arc, Label, epsilon, no_label}

-- The label that is searched for.
abbrev pub sought : Label → Label
sought label = if label == no_label then epsilon else label

module _ {W : Type 0} where
  -- In the order of the labels on one side, none of them below `lo`.
  abbrev pub SortedFrom : (Arc W → Label) → Label → List (Arc W) → Type 0
  SortedFrom side lo [] = Unit
  SortedFrom side lo (a ∷ as') = (lo ≤ side a) × SortedFrom side (side a) as'

  abbrev pub IsSorted : (Arc W → Label) → List (Arc W) → Type 0
  IsSorted side as' = SortedFrom side 0 as'

  abbrev pub with_label : (Arc W → Label) → Label → List (Arc W) → List (Arc W)
  with_label side l as' = select (λ a. side a == l) as'

  module _ (side : Arc W → Label) (l : Label) where
    abbrev pub below : Arc W → Bool
    below a = ltb (side a) l

    abbrev pub at_most : Arc W → Bool
    at_most a = leb (side a) l

    pub drop-below :
        (lo : Label) (as' : List (Arc W))
        → SortedFrom side lo as'
        → SortedFrom side l (drop (partition_point below as') as')
    unfolding partition_point
    drop-below lo [] h = tt
    drop-below lo (a ∷ as') (h, rest) = elim (Bool-cases (below a)) [
      | inl e ↦ rw e (drop-below (side a) as' rest)
      | inr e ↦ rw e (ground arith, rest)
    ]

    pub with_label-drop :
        (as' : List (Arc W))
        → with_label side l (drop (partition_point below as') as') ≡ with_label side l as'
    unfolding partition_point
    with_label-drop [] = refl
    with_label-drop (a ∷ as') = elim (Bool-cases (below a)) [
      | inl e ↦ let ne : (side a == l) ≡ false = ground arith in rw (e, ne) (with_label-drop as')
      | inr e ↦ rw e refl
    ]

    with_label-above :
        (lo : Label) (as' : List (Arc W))
        → l < lo
        → SortedFrom side lo as'
        → with_label side l as' ≡ []
    with_label-above lo [] k h = refl
    with_label-above lo (a ∷ as') k (h, rest) =
        let ne : (side a == l) ≡ false = ground arith in
        rw ne (with_label-above (side a) as' (omega (arith, k, h)) rest)

    -- From the label on, the arcs that have it stand in front.
    pub leading :
        (as' : List (Arc W))
        → SortedFrom side l as'
        → (rest : List (Arc W)) × (as' ≡ with_label side l as' ++ rest)
          × (partition_point at_most as' ≡ length (with_label side l as'))
    unfolding partition_point
    leading [] h = ([], refl, refl)
    leading (a ∷ as') (h, sorted) = elim (Bool-cases (side a == l)) [
      | inl e ↦
          let same : side a ≡ l = (==_iff (side a) l).0 e in
          let (rest, split, count) = leading as' (rw same at sorted) in
          let low : at_most a ≡ true = ground arith in
          (rest, rw e (ap (◌∷◌ a) split), rw (e, low) (ap suc count))
      | inr e ↦
          let high : at_most a ≡ false = ground arith in
          let none_left = with_label-above (side a) as' (ground arith) sorted in
          (a ∷ as', rw (e, none_left) refl, rw (e, high, none_left) refl)
    ]
