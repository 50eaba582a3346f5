-- ===== src/IntervalSet/Contains.antt =====
-- `contains` of interval_set.rs: its early answer by the counts, and its loop.
use sicada.Prelude.{
  ℕ, suc, ◌+◌, ◌-◌, ◌≤◌, max, ◌≡◌, refl, ◌↔◌, inl, inr, Bool, true, false, ◌||◌, List, [], ◌∷◌,
  arith, ltb, leb, ◌==◌, if◌then◌else◌, Bool-cases,
}
use sicada.IntervalSet.{IntInterval, IntervalSet, points, contains_loop, contains}
use sicada.IntervalSet.Members.{covers, IsNormalFrom, IsNormalized, covers-below}

abbrev pub contains_round : IntInterval → IntInterval → Bool → Bool → Bool → Bool
contains_round x y past_x past_both past_y =
    if leb x.end y.begin
    then past_x
    else if ltb y.begin x.begin || ltb x.end y.end
    then false
    else if y.end == x.end
    then past_both
    else past_y

pub contains_loop-cons :
    (x y : IntInterval) (xs ys : List IntInterval)
    → contains_loop (x ∷ xs) (y ∷ ys)
      ≡ contains_round x y
          (contains_loop xs (y ∷ ys))
          (contains_loop xs ys)
          (contains_loop (x ∷ xs) ys)
unfolding contains_loop
contains_loop-cons x y xs ys = refl

pub contains_loop-nil :
    (y : IntInterval) (ys : List IntInterval) → contains_loop [] (y ∷ ys) ≡ false
unfolding contains_loop
contains_loop-nil y ys = refl

abbrev IsSubset : List IntInterval → List IntInterval → Type 0
IsSubset ys xs = (v : ℕ) → covers ys v ≡ true → covers xs v ≡ true

contains_loop_sound :
    (xs ys : List IntInterval) (v : ℕ)
    → contains_loop xs ys ≡ true
    → covers ys v ≡ true
    → covers xs v ≡ true
contains_loop_sound xs [] v e c = cc
contains_loop_sound [] (y ∷ ys) v e c = unfold contains_loop in cc
contains_loop_sound (x ∷ xs) (y ∷ ys) v e c =
    let e' = rw (contains_loop-cons x y xs ys) at e in
    ground (
      arith,
      e',
      contains_loop_sound xs (y ∷ ys) v,
      contains_loop_sound xs ys v,
      contains_loop_sound (x ∷ xs) ys v,
    )

-- Where the second set lies within the first, no branch of a round refuses.
module _ (lo lo' : ℕ) (x y : IntInterval) (xs ys : List IntInterval) (h : IsNormalFrom lo (x ∷ xs))
    (k : IsNormalFrom lo' (y ∷ ys)) (sub : IsSubset (y ∷ ys) (x ∷ xs)) where
  subset-past_x : leb x.end y.begin ≡ true → IsSubset (y ∷ ys) xs
  subset-past_x p v c =
      ground (arith, sub v c, covers-below y.begin (y ∷ ys) v (omega arith, k.1, k.2))

  subset-inside : leb x.end y.begin ≡ false → ltb y.begin x.begin || ltb x.end y.end ≡ false
  subset-inside p = ground (
    arith,
    sub y.begin (ground arith),
    sub x.end,
    covers-below x.begin (x ∷ xs) y.begin,
    covers-below (suc x.end) xs x.end,
    covers-below (suc x.end) xs y.begin,
  )

  subset-past_both : (y.end == x.end) ≡ true → IsSubset ys xs
  subset-past_both p v c = ground (arith, sub v (ground arith), covers-below (suc y.end) ys v)

  subset-past_y : IsSubset ys (x ∷ xs)
  subset-past_y v c = sub v (ground arith)

contains_loop_complete :
    (lo lo' : ℕ) (xs ys : List IntInterval)
    → IsNormalFrom lo xs
    → IsNormalFrom lo' ys
    → IsSubset ys xs
    → contains_loop xs ys ≡ true
contains_loop_complete lo lo' [] [] h k sub = unfold contains_loop in refl
contains_loop_complete lo lo' (x ∷ xs) [] h k sub = unfold contains_loop in refl
contains_loop_complete lo lo' [] (y ∷ ys) h k sub =
    absurd (ground (arith, sub y.begin (ground arith)))
contains_loop_complete lo lo' (x ∷ xs) (y ∷ ys) h k sub =
    rw (contains_loop-cons x y xs ys) (elim (Bool-cases (leb x.end y.begin)) [
      | inl p ↦ rw p (
          contains_loop_complete (suc x.end) lo' xs (y ∷ ys) h.2 k
            (subset-past_x lo lo' x y xs ys h k sub p))
      | inr p ↦
          rw (p, subset-inside lo lo' x y xs ys h k sub p)
            (elim (Bool-cases (y.end == x.end)) [
              | inl q ↦ rw q (
                  contains_loop_complete (suc x.end) (suc y.end) xs ys h.2 k.2
                    (subset-past_both lo lo' x y xs ys h k sub q))
              | inr q ↦ rw q (
                  contains_loop_complete lo (suc y.end) (x ∷ xs) ys h k.2
                    (subset-past_y lo lo' x y xs ys h k sub))
            ])
    ])

-- The points of a set from `lo` on.
abbrev points_from : ℕ → List IntInterval → ℕ
points_from lo [] = 0
points_from lo (iv ∷ ivs) = (iv.end - max lo iv.begin) + points_from lo ivs

points_from-le :
    (lo hi : ℕ) (ivs : List IntInterval) → lo ≤ hi → points_from hi ivs ≤ points_from lo ivs
points_from-le lo hi [] h = omega arith
points_from-le lo hi (iv ∷ ivs) h = omega (arith, points_from-le lo hi ivs h)

points_from-zero : (ivs : List IntInterval) → points_from 0 ivs ≡ points ivs
unfolding points
points_from-zero [] = refl
points_from-zero (iv ∷ ivs) = omega (arith, points_from-zero ivs)

contains_loop-points :
    (lo : ℕ) (xs ys : List IntInterval)
    → IsNormalFrom lo ys
    → contains_loop xs ys ≡ true
    → points ys ≤ points_from lo xs
unfolding points
contains_loop-points lo xs [] k e = omega arith
contains_loop-points lo [] (y ∷ ys) k e = cc (contains_loop-nil y ys)
contains_loop-points lo (x ∷ xs) (y ∷ ys) k e =
    let e' = rw (contains_loop-cons x y xs ys) at e in
    ground (
      arith,
      e',
      contains_loop-points lo xs (y ∷ ys) k,
      contains_loop-points (suc y.end) xs ys k.2,
      contains_loop-points (suc y.end) (x ∷ xs) ys k.2,
      points_from-le lo (suc y.end) xs,
    )

-- On normalized sets the early refusal by the counts changes nothing.
pub contains-contains_loop :
    (s t : IntervalSet)
    → IsNormalized s
    → IsNormalized t
    → contains s t ≡ contains_loop s.intervals t.intervals
unfolding contains
contains-contains_loop s t h k = ground (
  arith,
  contains_loop-points 0 s.intervals t.intervals k.ordered,
  points_from-zero s.intervals,
  h.counted,
  k.counted,
)

-- `contains` answers true exactly when every member of the second normalized set is in the first;
-- its early refusal by the counts never turns a contained set away.
pub contains_correct :
    (s t : IntervalSet)
    → IsNormalized s
    → IsNormalized t
    → (contains s t ≡ true) ↔ ((v : ℕ) → covers t.intervals v ≡ true → covers s.intervals v ≡ true)
contains_correct s t h k = rw (contains-contains_loop s t h k) (
  λ e v. contains_loop_sound s.intervals t.intervals v e,
  contains_loop_complete 0 0 s.intervals t.intervals h.ordered k.ordered,
)
