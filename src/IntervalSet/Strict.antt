-- ===== src/IntervalSet/Strict.antt =====
-- `strictly_overlaps` of interval_set.rs: one pass with three flags, against the two loops of
-- `overlaps` and `contains`.
use sicada.Prelude.{
  ℕ, suc, ◌<◌, ◌≡◌, refl, sym, Bool, true, false, not, ◌&&◌, ◌||◌, List, [], ◌∷◌, arith, leb, ◌==◌,
  if◌then◌else◌, inl, inr, Bool-cases,
}
use sicada.IntervalSet.{
  IntInterval, IntervalSet, overlaps_loop, overlaps, contains_loop, contains, Seen, all_seen,
  strictly_overlaps_loop, strictly_overlaps,
}
use sicada.IntervalSet.Members.{IsNormalFrom, IsNormalized}
use sicada.IntervalSet.Compare.{overlaps_round, overlaps_loop-cons}
use sicada.IntervalSet.Contains.{contains_round, contains_loop-cons, contains-contains_loop}

abbrev on : Seen → (Seen → Bool) → Bool
on g next = all_seen g || next g

abbrev strict_round :
    IntInterval → IntInterval → Seen → (Seen → Bool) → (Seen → Bool) → (Seen → Bool) → Bool
strict_round x y f past_x past_y past_both =
    if leb x.end y.begin
    then on (record f { only1 = true }) past_x
    else if leb y.end x.begin
    then on (record f { only2 = true }) past_y
    else if y.begin == x.begin && y.end == x.end
    then on (record f { overlap = true }) past_both
    else if leb y.begin x.begin && leb x.end y.end
    then on (record f { only2 = true; overlap = true }) past_x
    else if leb x.begin y.begin && leb y.end x.end
    then on (record f { only1 = true; overlap = true }) past_y
    else true

strictly_overlaps_loop-cons :
    (x y : IntInterval) (xs ys : List IntInterval) (f : Seen)
    → strictly_overlaps_loop (x ∷ xs) (y ∷ ys) f
      ≡ strict_round x y f
          (strictly_overlaps_loop xs (y ∷ ys))
          (strictly_overlaps_loop (x ∷ xs) ys)
          (strictly_overlaps_loop xs ys)
unfolding strictly_overlaps_loop
strictly_overlaps_loop-cons x y xs ys f = refl

-- The answer by the other loops, from the flags `f` on.
abbrev verdict : Bool → Bool → Bool → Seen → Bool
verdict inside1 inside2 common f =
    (f.only1 || not inside1) && (f.only2 || not inside2) && (f.overlap || common)

-- An interval that ends where the other set still has to begin contains nothing of it.
contains_loop-skip :
    (y : IntInterval) (ys xs : List IntInterval)
    → IsNormalFrom (suc y.end) xs
    → contains_loop (y ∷ ys) xs ≡ contains_loop ys xs
contains_loop-skip y [] [] h = unfold contains_loop in refl
contains_loop-skip y (z ∷ ys) [] h = unfold contains_loop in refl
contains_loop-skip y ys (x ∷ xs) h = rw (contains_loop-cons y x ys xs) (ground arith)

module _ (x y : IntInterval) (f : Seen) (p q r : Seen → Bool) where
  -- The containments and the overlap of the lists past `x`, past `y` and past both.
  module _ (x1 x2 xo y1 y2 yo b1 b2 bo : Bool) where
    strict_round-verdict :
        x.begin < x.end
        → y.begin < y.end
        → ((g : Seen) → p g ≡ verdict x1 x2 xo g)
        → ((g : Seen) → q g ≡ verdict y1 y2 yo g)
        → ((g : Seen) → r g ≡ verdict b1 b2 bo g)
        → (x.end ≡ y.end → b1 ≡ x1)
        → (x.end ≡ y.end → b2 ≡ y2)
        → strict_round x y f p q r
          ≡ verdict
              (contains_round y x y1 b1 x1)
              (contains_round x y x2 b2 y2)
              (overlaps_round x y xo yo)
              f
    strict_round-verdict h k ep eq er e1 e2 = elim (Bool-cases (leb x.end y.begin)) [
      | inl a ↦ rw a (ground (arith, ep (record f { only1 = true })))
      | inr a ↦ elim (Bool-cases (leb y.end x.begin)) [
        | inl b ↦ rw (a, b) (ground (arith, eq (record f { only2 = true })))
        | inr b ↦ elim (Bool-cases (y.begin == x.begin && y.end == x.end)) [
          | inl c ↦ rw (a, b, c) (ground (arith, er (record f { overlap = true })))
          | inr c ↦ elim (Bool-cases (leb y.begin x.begin && leb x.end y.end)) [
            | inl d ↦
                rw (a, b, c, d) (ground (arith, ep (record f { only2 = true; overlap = true })))
            | inr d ↦ elim (Bool-cases (leb x.begin y.begin && leb y.end x.end)) [
              | inl i ↦
                  rw (a, b, c, d, i)
                    (ground (arith, eq (record f { only1 = true; overlap = true })))
              | inr i ↦ rw (a, b, c, d, i) (ground arith)
            ]
          ]
        ]
      ]
    ]

strictly_overlaps_loop_eq :
    (lo lo' : ℕ) (xs ys : List IntInterval) (f : Seen)
    → IsNormalFrom lo xs
    → IsNormalFrom lo' ys
    → strictly_overlaps_loop xs ys f
      ≡ verdict (contains_loop ys xs) (contains_loop xs ys) (overlaps_loop xs ys) f
strictly_overlaps_loop_eq lo lo' [] [] f h k =
    unfold strictly_overlaps_loop contains_loop overlaps_loop in ground arith
strictly_overlaps_loop_eq lo lo' [] (y ∷ ys) f h k =
    unfold strictly_overlaps_loop contains_loop overlaps_loop in ground arith
strictly_overlaps_loop_eq lo lo' (x ∷ xs) [] f h k =
    unfold strictly_overlaps_loop contains_loop overlaps_loop in ground arith
strictly_overlaps_loop_eq lo lo' (x ∷ xs) (y ∷ ys) f h k =
    rw
      (
        strictly_overlaps_loop-cons x y xs ys f,
        contains_loop-cons x y xs ys,
        contains_loop-cons y x ys xs,
        overlaps_loop-cons x y xs ys,
      )
      (strict_round-verdict x y f (strictly_overlaps_loop xs (y ∷ ys))
        (strictly_overlaps_loop (x ∷ xs) ys) (strictly_overlaps_loop xs ys)
        (contains_loop (y ∷ ys) xs) (contains_loop xs (y ∷ ys)) (overlaps_loop xs (y ∷ ys))
        (contains_loop ys (x ∷ xs)) (contains_loop (x ∷ xs) ys) (overlaps_loop (x ∷ xs) ys)
        (contains_loop ys xs) (contains_loop xs ys) (overlaps_loop xs ys) h.1 k.1
        (λ g. strictly_overlaps_loop_eq (suc x.end) lo' xs (y ∷ ys) g h.2 k)
        (λ g. strictly_overlaps_loop_eq lo (suc y.end) (x ∷ xs) ys g h k.2)
        (λ g. strictly_overlaps_loop_eq (suc x.end) (suc y.end) xs ys g h.2 k.2)
        (λ e. sym (contains_loop-skip y ys xs (rw e at h.2)))
        (λ e. sym (contains_loop-skip x xs ys (rw (sym e) at k.2))))

-- On normalized sets `strictly_overlaps` answers true exactly when the sets overlap and neither
-- contains the other, as `overlaps` and `contains` answer.
pub strictly_overlaps_correct :
    (s t : IntervalSet)
    → IsNormalized s
    → IsNormalized t
    → strictly_overlaps s t ≡ overlaps s t && not (contains s t) && not (contains t s)
unfolding strictly_overlaps overlaps
strictly_overlaps_correct s t h k = ground (
  arith,
  strictly_overlaps_loop_eq 0 0 s.intervals t.intervals
      (record { only1 = false; only2 = false; overlap = false }) h.ordered k.ordered,
  contains-contains_loop s t h k,
  contains-contains_loop t s k h,
)
