-- ===== src/IntervalSet/Search.antt =====
-- `member` of interval_set.rs: the binary search against a scan of the intervals.
use sicada.Prelude.{
  ℕ, suc, ◌-◌, ◌<◌, ◌≡◌, refl, Bool, false, some, none, List, [], ◌∷◌, arith, ltb, leb, ◌==◌,
  if◌then◌else◌, get_elem?, partition_point,
}
use sicada.IntervalSet.{IntInterval, IntervalSet, less, member}
use sicada.IntervalSet.Members.{covers, IsNormalFrom, IsNormalized, covers-below}

abbrev point : ℕ → IntInterval
point value = record { begin = value; end = value }

abbrev before : ℕ → List IntInterval → ℕ
before v ivs = partition_point (λ iv. less iv (point v)) ivs

-- The answer that is read off the interval just before the partition point.
abbrev found : List IntInterval → ℕ → ℕ → Bool
found ivs v pos =
    if pos == 0
    then false
    else elim (get_elem? ivs (pos - 1)) [ some iv ↦ ltb v iv.end | none ↦ false ]

-- An interval is passed over exactly when it begins at or before the value.
less-point : (iv : IntInterval) (v : ℕ) → iv.begin < iv.end → less iv (point v) ≡ leb iv.begin v
unfolding less
less-point iv v h = ground arith

before-pos :
    (lo : ℕ) (ivs : List IntInterval) (v : ℕ) → IsNormalFrom lo ivs → v < lo → before v ivs ≡ 0
unfolding partition_point
before-pos lo [] v h p = refl
before-pos lo (iv ∷ ivs) v h p = ground (arith, less-point iv v h.1)

found-covers :
    (lo : ℕ) (ivs : List IntInterval) (v : ℕ)
    → IsNormalFrom lo ivs
    → found ivs v (before v ivs) ≡ covers ivs v
unfolding partition_point
found-covers lo [] v h = refl
found-covers lo (iv ∷ []) v h = ground (arith, less-point iv v h.1)
found-covers lo (iv ∷ next ∷ ivs) v h = ground (
  arith,
  less-point iv v h.1,
  less-point next v h.2.1,
  found-covers (suc iv.end) (next ∷ ivs) v h.2,
  covers-below (suc iv.end) (next ∷ ivs) v h.2,
)

-- On a normalized set the binary search of `member` finds exactly the members.
pub member_correct : (s : IntervalSet) (v : ℕ) → IsNormalized s → member s v ≡ covers s.intervals v
unfolding member
member_correct s v h = ground (arith, found-covers 0 s.intervals v h.ordered)
