-- ===== src/IntervalSet/Compare.antt =====
-- `overlaps` of interval_set.rs.
use sicada.Prelude.{
  ℕ, suc, max, ◌≡◌, refl, ◌↔◌, inl, inr, Bool, true, List, [], ◌∷◌, arith, leb, if◌then◌else◌,
  Bool-cases,
}
use sicada.IntervalSet.{IntInterval, IntervalSet, overlaps_loop, overlaps}
use sicada.IntervalSet.Members.{covers, IsNormalFrom, IsNormalized, covers-below}

abbrev pub overlaps_round : IntInterval → IntInterval → Bool → Bool → Bool
overlaps_round x y past_x past_y =
    if leb x.end y.begin then past_x else if leb y.end x.begin then past_y else true

pub overlaps_loop-cons :
    (x y : IntInterval) (xs ys : List IntInterval)
    → overlaps_loop (x ∷ xs) (y ∷ ys)
      ≡ overlaps_round x y (overlaps_loop xs (y ∷ ys)) (overlaps_loop (x ∷ xs) ys)
unfolding overlaps_loop
overlaps_loop-cons x y xs ys = refl

-- A common member, found by the loop.
Common : List IntInterval → List IntInterval → Type 0
Common xs ys = (v : ℕ) × (covers xs v ≡ true) × (covers ys v ≡ true)

overlaps_loop_sound :
    (lo lo' : ℕ) (xs ys : List IntInterval)
    → IsNormalFrom lo xs
    → IsNormalFrom lo' ys
    → overlaps_loop xs ys ≡ true
    → Common xs ys
unfolding Common
overlaps_loop_sound lo lo' [] ys h k e = unfold overlaps_loop in cc
overlaps_loop_sound lo lo' (x ∷ xs) [] h k e = unfold overlaps_loop in cc
overlaps_loop_sound lo lo' (x ∷ xs) (y ∷ ys) h k e =
    let e' = rw (overlaps_loop-cons x y xs ys) at e in
    elim (Bool-cases (leb x.end y.begin)) [
      | inl p ↦
          let (v, a, b) = overlaps_loop_sound (suc x.end) lo' xs (y ∷ ys) h.2 k (rw p at e') in
          (v, ground arith, b)
      | inr p ↦ elim (Bool-cases (leb y.end x.begin)) [
        | inl q ↦
            let (v, a, b) =
              overlaps_loop_sound lo (suc y.end) (x ∷ xs) ys h k.2 (rw (p, q) at e') in
            (v, a, ground arith)
        | inr q ↦ (max x.begin y.begin, ground arith, ground arith)
      ]
    ]

overlaps_loop_complete :
    (lo lo' : ℕ) (xs ys : List IntInterval) (v : ℕ)
    → IsNormalFrom lo xs
    → IsNormalFrom lo' ys
    → covers xs v ≡ true
    → covers ys v ≡ true
    → overlaps_loop xs ys ≡ true
overlaps_loop_complete lo lo' [] ys v h k a b = cc
overlaps_loop_complete lo lo' (x ∷ xs) [] v h k a b = cc
overlaps_loop_complete lo lo' (x ∷ xs) (y ∷ ys) v h k a b = rw (overlaps_loop-cons x y xs ys) (
    ground (
      arith,
      covers-below (suc x.end) xs v,
      covers-below (suc y.end) ys v,
      overlaps_loop_complete (suc x.end) lo' xs (y ∷ ys) v,
      overlaps_loop_complete lo (suc y.end) (x ∷ xs) ys v,
    ))

-- `overlaps` answers true exactly when two normalized sets have a common member.
pub overlaps_correct :
    (s t : IntervalSet)
    → IsNormalized s
    → IsNormalized t
    → (overlaps s t ≡ true)
      ↔ ((v : ℕ) × (covers s.intervals v ≡ true) × (covers t.intervals v ≡ true))
unfolding overlaps Common
overlaps_correct s t h k = (
  overlaps_loop_sound 0 0 s.intervals t.intervals h.ordered k.ordered,
  λ (v, a, b). overlaps_loop_complete 0 0 s.intervals t.intervals v h.ordered k.ordered a b,
)
