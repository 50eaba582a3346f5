-- ===== src/IntervalSet/Complement.antt =====
-- `complement` and `difference` of interval_set.rs.
use sicada.Prelude.{
  ℕ, suc, ◌<◌, min, ◌≡◌, refl, ◌∙◌, true, false, not, ◌&&◌, List, [], ◌∷◌, arith, ltb, leb,
  Bool-cases, inl, inr,
}
use sicada.IntervalSet.{
  IntInterval, IntervalSet, points, complement_loop, complement, last_end, new, is_empty,
  difference,
}
use sicada.IntervalSet.Members.{
  covers, IsNormalFrom, IsNormalized, IsNormalFrom-weaken, covers-below, intersect_correct,
}

-- What the loop pushes from `lo` on, for the set `ivs` and the bound `maxval`.
record Complements (maxval lo : ℕ) (ivs : List IntInterval) (out : List IntInterval × ℕ)
    : Type 0 where
  normal : IsNormalFrom lo out.0
  counted : out.1 ≡ points out.0
  same : (v : ℕ) → covers out.0 v ≡ (leb lo v && ltb v maxval) && not (covers ivs v)

complement_loop-Complements :
    (maxval lo : ℕ) (ivs : List IntInterval)
    → IsNormalFrom lo ivs
    → Complements maxval lo ivs (complement_loop maxval lo ivs)
unfolding complement_loop points
complement_loop-Complements maxval lo [] h = record {
  normal = ground arith;
  counted = ground arith;
  same = λ v. ground arith;
}
complement_loop-Complements maxval lo (iv ∷ ivs) h =
    let c =
      complement_loop-Complements maxval iv.end ivs
        (IsNormalFrom-weaken iv.end (suc iv.end) ivs (omega arith) h.2) in
    let rest = complement_loop maxval iv.end ivs in
    record {
      normal = ground (
        arith,
        c.normal,
        IsNormalFrom-weaken (suc (min iv.begin maxval)) iv.end rest.0,
        IsNormalFrom-weaken lo iv.end rest.0,
      );
      counted = ground (arith, c.counted);
      same = λ v. ground (arith, c.same v, covers-below (suc iv.end) ivs v h.2);
    }

-- The complement of a normalized set in [0, maxval) is a normalized set, and its members are exactly
-- the numbers below maxval that are no members of the set.
pub complement_correct :
    (s : IntervalSet) (maxval : ℕ)
    → IsNormalized s
    → IsNormalized (complement s maxval)
      × ((v : ℕ)
          → covers (complement s maxval).intervals v ≡ ltb v maxval && not (covers s.intervals v))
unfolding complement
complement_correct s maxval h =
    let c = complement_loop-Complements maxval 0 s.intervals h.ordered in
    (record { ordered = c.normal; counted = c.counted }, λ v. c.same v ∙ ground arith)

covers-lt-last_end :
    (lo : ℕ) (ivs : List IntInterval) (v : ℕ)
    → IsNormalFrom lo ivs
    → covers ivs v ≡ true
    → v < last_end ivs
unfolding last_end
covers-lt-last_end lo [] v h e = ground arith
covers-lt-last_end lo (iv ∷ []) v h e = ground arith
covers-lt-last_end lo (iv ∷ next ∷ ivs) v h e =
    ground
      (arith, covers-lt-last_end (suc iv.end) (next ∷ ivs) v, end-lt-last_end (suc iv.end) next ivs)
  where
    end-lt-last_end :
        (m : ℕ) (x : IntInterval) (xs : List IntInterval)
        → IsNormalFrom m (x ∷ xs)
        → m < last_end (x ∷ xs)
    end-lt-last_end m x [] n = omega arith
    end-lt-last_end m x (y ∷ ys) n = omega (arith, end-lt-last_end (suc x.end) y ys n.2)

covers-is_empty : (s : IntervalSet) (v : ℕ) → is_empty s ≡ true → covers s.intervals v ≡ false
unfolding is_empty
covers-is_empty s v e = ground arith

-- The difference of two normalized sets is a normalized set, and its members are exactly those of
-- the first that are not in the second.
pub difference_correct :
    (s t : IntervalSet)
    → IsNormalized s
    → IsNormalized t
    → IsNormalized (difference s t)
      × ((v : ℕ)
          → covers (difference s t).intervals v
            ≡ covers s.intervals v && not (covers t.intervals v))
unfolding difference new points
difference_correct s t h k = elim (Bool-cases (is_empty s)) [
  | inl e ↦
      rw e (record { ordered = tt; counted = refl }, λ v. ground (arith, covers-is_empty s v e))
  | inr e ↦
      let (cn, cs) = complement_correct t (last_end s.intervals) k in
      let (n, same) = intersect_correct s (complement t (last_end s.intervals)) h cn in
      rw e (n, λ v. ground (arith, same v, cs v, covers-lt-last_end 0 s.intervals v h.ordered))
]
