-- ===== src/IntervalSet/Members.antt =====
-- Members and normalized sets of interval_set.rs, and what `intersect` does to them.
use sicada.Prelude.{
  ℕ, suc, ◌≤◌, ◌<◌, min, max, ◌≡◌, refl, Bool, false, ◌&&◌, ◌||◌, List, [], ◌∷◌, arith, ltb, leb,
  if◌then◌else◌,
}
use sicada.IntervalSet.{IntInterval, IntervalSet, points, with_pushed, intersect_loop, intersect}

-- The points of a list of intervals, whether or not it is normalized.
abbrev pub covers : List IntInterval → ℕ → Bool
covers [] v = false
covers (iv ∷ ivs) v = leb iv.begin v && ltb v iv.end || covers ivs v

-- Sorted, none empty, and a gap before each: the next interval begins past `lo`'s predecessor.
abbrev pub IsNormalFrom : ℕ → List IntInterval → Type 0
IsNormalFrom lo [] = Unit {0}
IsNormalFrom lo (iv ∷ ivs) = (lo ≤ iv.begin) × (iv.begin < iv.end) × IsNormalFrom (suc iv.end) ivs

pub record IsNormalized (s : IntervalSet) : Type 0 where
  pub ordered : IsNormalFrom 0 s.intervals
  pub counted : s.count ≡ points s.intervals

pub covers-below :
    (lo : ℕ) (ivs : List IntInterval) (v : ℕ) → IsNormalFrom lo ivs → v < lo → covers ivs v ≡ false
covers-below lo [] v h p = refl
covers-below lo (iv ∷ ivs) v h p = ground (arith, covers-below (suc iv.end) ivs v)

module _ (x y : IntInterval) (xs ys : List IntInterval) (v : ℕ) where
  -- Past `y`'s begin nothing of `x` is left for the other side, so dropping `x` loses no point.
  covers-drop :
      x.end ≤ y.begin
      → IsNormalFrom y.begin (y ∷ ys)
      → covers (x ∷ xs) v && covers (y ∷ ys) v ≡ covers xs v && covers (y ∷ ys) v
  covers-drop h k = ground (arith, covers-below y.begin (y ∷ ys) v k)

  -- The common part of two intervals, where `x` ends first.
  covers-cut :
      x.end ≤ y.end
      → IsNormalFrom (suc y.end) ys
      → leb (max x.begin y.begin) v && ltb v (min x.end y.end) || covers xs v && covers (y ∷ ys) v
        ≡ covers (x ∷ xs) v && covers (y ∷ ys) v
  covers-cut h k = ground (arith, covers-below (suc y.end) ys v k)

and_comm : (a b : Bool) → a && b ≡ b && a
and_comm a b = ground arith

-- One round of the loop, over the results of the rounds that follow it.
abbrev intersect_round :
    IntInterval → IntInterval → List IntInterval × ℕ → List IntInterval × ℕ → List IntInterval × ℕ
intersect_round x y past_x past_y =
    let common : IntInterval = record { begin = max x.begin y.begin; end = min x.end y.end } in
    if leb x.end y.begin
    then past_x
    else if leb y.end x.begin
    then past_y
    else if ltb x.end y.end
    then with_pushed common past_x
    else with_pushed common past_y

intersect_loop-cons :
    (x y : IntInterval) (xs ys : List IntInterval)
    → intersect_loop (x ∷ xs) (y ∷ ys)
      ≡ intersect_round x y (intersect_loop xs (y ∷ ys)) (intersect_loop (x ∷ xs) ys)
unfolding intersect_loop
intersect_loop-cons x y xs ys = refl

covers-intersect_round :
    (x y : IntInterval) (xs ys : List IntInterval) (v : ℕ) (p q : List IntInterval × ℕ)
    → IsNormalFrom x.begin (x ∷ xs)
    → IsNormalFrom y.begin (y ∷ ys)
    → covers p.0 v ≡ covers xs v && covers (y ∷ ys) v
    → covers q.0 v ≡ covers (x ∷ xs) v && covers ys v
    → covers (intersect_round x y p q).0 v ≡ covers (x ∷ xs) v && covers (y ∷ ys) v
covers-intersect_round x y xs ys v p q h k e f =
    ground (arith, covers-below (suc x.end) xs v, covers-below (suc y.end) ys v)

pub IsNormalFrom-weaken :
    (lo hi : ℕ) (ivs : List IntInterval) → lo ≤ hi → IsNormalFrom hi ivs → IsNormalFrom lo ivs
IsNormalFrom-weaken lo hi [] h n = tt
IsNormalFrom-weaken lo hi (iv ∷ ivs) h n = (omega arith, n.1, n.2)

pub covers-intersect_loop :
    (lo lo' : ℕ) (xs ys : List IntInterval) (v : ℕ)
    → IsNormalFrom lo xs
    → IsNormalFrom lo' ys
    → covers (intersect_loop xs ys).0 v ≡ covers xs v && covers ys v
covers-intersect_loop lo lo' [] ys v h k = unfold intersect_loop in refl
covers-intersect_loop lo lo' (x ∷ xs) [] v h k =
    unfold intersect_loop in rw (and_comm (covers (x ∷ xs) v) false)
covers-intersect_loop lo lo' (x ∷ xs) (y ∷ ys) v h k = rw (intersect_loop-cons x y xs ys) (
    covers-intersect_round x y xs ys v (intersect_loop xs (y ∷ ys)) (intersect_loop (x ∷ xs) ys)
      (omega arith, h.1, h.2) (omega arith, k.1, k.2)
      (covers-intersect_loop (suc x.end) lo' xs (y ∷ ys) v h.2 k)
      (covers-intersect_loop lo (suc y.end) (x ∷ xs) ys v h k.2))

intersect_round-IsNormalFrom :
    (lo lo' : ℕ) (x y : IntInterval) (p q : List IntInterval × ℕ)
    → (lo ≤ x.begin) × (x.begin < x.end)
    → (lo' ≤ y.begin) × (y.begin < y.end)
    → IsNormalFrom (suc x.end) p.0 × IsNormalFrom lo' p.0 × (p.1 ≡ points p.0)
    → IsNormalFrom lo q.0 × IsNormalFrom (suc y.end) q.0 × (q.1 ≡ points q.0)
    → IsNormalFrom lo (intersect_round x y p q).0
      × IsNormalFrom lo' (intersect_round x y p q).0
      × ((intersect_round x y p q).1 ≡ points (intersect_round x y p q).0)
unfolding points
intersect_round-IsNormalFrom lo lo' x y p q h k e f =
    ground (arith, IsNormalFrom-weaken lo (suc x.end) p.0, IsNormalFrom-weaken lo' (suc y.end) q.0)

intersect_loop-IsNormalFrom :
    (lo lo' : ℕ) (xs ys : List IntInterval)
    → IsNormalFrom lo xs
    → IsNormalFrom lo' ys
    → IsNormalFrom lo (intersect_loop xs ys).0
      × IsNormalFrom lo' (intersect_loop xs ys).0
      × ((intersect_loop xs ys).1 ≡ points (intersect_loop xs ys).0)
intersect_loop-IsNormalFrom lo lo' [] ys h k = unfold intersect_loop points in (tt, tt, refl)
intersect_loop-IsNormalFrom lo lo' (x ∷ xs) [] h k = unfold intersect_loop points in (tt, tt, refl)
intersect_loop-IsNormalFrom lo lo' (x ∷ xs) (y ∷ ys) h k = rw (intersect_loop-cons x y xs ys) (
    intersect_round-IsNormalFrom lo lo' x y (intersect_loop xs (y ∷ ys))
      (intersect_loop (x ∷ xs) ys) (h.0, h.1) (k.0, k.1)
      (intersect_loop-IsNormalFrom (suc x.end) lo' xs (y ∷ ys) h.2 k)
      (intersect_loop-IsNormalFrom lo (suc y.end) (x ∷ xs) ys h k.2))

-- The intersection of two normalized sets is a normalized set, and its members are exactly the
-- common ones.
pub intersect_correct :
    (s t : IntervalSet)
    → IsNormalized s
    → IsNormalized t
    → IsNormalized (intersect s t)
      × ((v : ℕ)
          → covers (intersect s t).intervals v ≡ covers s.intervals v && covers t.intervals v)
unfolding intersect
intersect_correct s t h k =
    let n = intersect_loop-IsNormalFrom 0 0 s.intervals t.intervals h.ordered k.ordered in
    (
      record { ordered = n.0; counted = n.2 },
      λ v. covers-intersect_loop 0 0 s.intervals t.intervals v h.ordered k.ordered,
    )
