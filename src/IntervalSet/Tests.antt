-- ===== src/IntervalSet/Tests.antt =====
-- Runs of interval_set.rs on small sets, and instances of the theorems.
use sicada.Prelude.{partition_point, ℕ, ◌≡◌, refl, ◌↔◌, true, false, not, ◌&&◌, [], ◌∷◌, arith, ltb}
use sicada.IntervalSet.{
  IntInterval, IntervalSet, points, normalize, intersect, complement, difference, overlaps,
  contains, strictly_overlaps, member, sort, insert, less, sweep, intersect_loop, complement_loop,
  strictly_overlaps_loop, last_end,
}
use sicada.IntervalSet.Members.{covers, IsNormalized, intersect_correct}
use sicada.IntervalSet.Normalize.{normalize_correct}
use sicada.IntervalSet.Complement.{complement_correct, difference_correct}
use sicada.IntervalSet.Compare.{overlaps_correct}
use sicada.IntervalSet.Contains.{contains_correct}
use sicada.IntervalSet.Strict.{strictly_overlaps_correct}
use sicada.IntervalSet.Search.{member_correct}

abbrev range : ℕ → ℕ → IntInterval
range b e = record { begin = b; end = e }

abbrev raw : IntervalSet
raw = record { intervals = range 7 9 ∷ range 1 3 ∷ range 5 5 ∷ range 2 4 ∷ []; count = 0 }

abbrev low : IntervalSet
low = record { intervals = range 1 4 ∷ range 7 9 ∷ []; count = 5 }

abbrev high : IntervalSet
high = record { intervals = range 3 8 ∷ []; count = 5 }

low-IsNormalized : IsNormalized low
unfolding points
low-IsNormalized = record { ordered = omega arith; counted = refl }

high-IsNormalized : IsNormalized high
unfolding points
high-IsNormalized = record { ordered = omega arith; counted = refl }

normalize-raw : normalize raw ≡ low
unfolding normalize sort insert less sweep points
normalize-raw = refl

runs :
    (intersect low high ≡ record { intervals = range 3 4 ∷ range 7 8 ∷ []; count = 2 })
    × (difference low high ≡ record { intervals = range 1 3 ∷ range 8 9 ∷ []; count = 3 })
    × (strictly_overlaps low high ≡ true)
    × (member low 8 ≡ true)
    × (member low 4 ≡ false)
unfolding intersect intersect_loop difference complement complement_loop strictly_overlaps
    strictly_overlaps_loop member partition_point less last_end
runs = (refl, refl, refl, refl, refl)

normalize_correct_example :
    IsNormalized (normalize raw)
    × ((v : ℕ) → covers (normalize raw).intervals v ≡ covers raw.intervals v)
normalize_correct_example = normalize_correct raw (omega arith)

intersect_correct_example :
    IsNormalized (intersect low high)
    × ((v : ℕ)
        → covers (intersect low high).intervals v
          ≡ covers low.intervals v && covers high.intervals v)
intersect_correct_example = intersect_correct low high low-IsNormalized high-IsNormalized

complement_correct_example :
    IsNormalized (complement low 8)
    × ((v : ℕ) → covers (complement low 8).intervals v ≡ ltb v 8 && not (covers low.intervals v))
complement_correct_example = complement_correct low 8 low-IsNormalized

difference_correct_example :
    IsNormalized (difference low high)
    × ((v : ℕ)
        → covers (difference low high).intervals v
          ≡ covers low.intervals v && not (covers high.intervals v))
difference_correct_example = difference_correct low high low-IsNormalized high-IsNormalized

overlaps_correct_example :
    (overlaps low high ≡ true)
    ↔ ((v : ℕ) × (covers low.intervals v ≡ true) × (covers high.intervals v ≡ true))
overlaps_correct_example = overlaps_correct low high low-IsNormalized high-IsNormalized

contains_correct_example :
    (contains low high ≡ true)
    ↔ ((v : ℕ) → covers high.intervals v ≡ true → covers low.intervals v ≡ true)
contains_correct_example = contains_correct low high low-IsNormalized high-IsNormalized

strictly_overlaps_correct_example :
    strictly_overlaps low high
    ≡ overlaps low high && not (contains low high) && not (contains high low)
strictly_overlaps_correct_example =
    strictly_overlaps_correct low high low-IsNormalized high-IsNormalized

member_correct_example : member low 8 ≡ covers low.intervals 8
member_correct_example = member_correct low 8 low-IsNormalized
