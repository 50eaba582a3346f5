-- ===== src/BitSet/Tests.antt =====
-- Runs of bit_set.rs on a small set, and instances of the theorems.
use sicada.Prelude.{
  ℕ, ◌≡◌, refl, ◌==◌, not, ◌||◌, ◌&&◌, Bool, true, false, Option, none, some, ◌^◌, ◌-◌, arith,
  ◌>>=◌,
}
use sicada.BitSet.{
  DenseBitSet, new_empty, insert, remove, contains, intersect, subtract, union, and_not,
}
use sicada.BitSet.Growing.{IsValid, new_empty-IsValid}
use sicada.BitSet.Change.{insert_correct, remove_correct}
use sicada.BitSet.Relations.{intersection_correct, subtract_correct, bit_union_correct}

abbrev empty_set : DenseBitSet
empty_set = new_empty 0

-- 70 makes the set grow by two words.
abbrev grown_70 : Option DenseBitSet
grown_70 = insert empty_set 70 >>= λ r. some (r.0)

two_words : (grown_70 >>= λ t. contains t 70) ≡ some true
unfolding insert contains
two_words = refl

beside : (grown_70 >>= λ t. contains t 6) ≡ some false
unfolding insert contains
beside = refl

gone : (grown_70 >>= λ t. remove t 70 >>= λ r. contains (r.0) 70) ≡ some false
unfolding insert remove contains
gone = refl

-- There is no room for the largest usize.
largest : insert empty_set (2 ^ 64 - 1) ≡ none
unfolding insert
largest = refl

insert_correct_example :
    (t : DenseBitSet) × (b : Bool) × (insert empty_set 70 ≡ some (t, b))
    × IsValid t
    × (contains empty_set 70 ≡ some (not b))
    × ((j : ℕ) → contains t j ≡ (contains empty_set j >>= λ c. some (c || j == 70)))
insert_correct_example = insert_correct empty_set 70 (omega arith) (new_empty-IsValid 0)

abbrev with_70 : DenseBitSet
with_70 = (insert_correct empty_set 70 (omega arith) (new_empty-IsValid 0)).0

with_70-IsValid : IsValid with_70
with_70-IsValid =
    let (_, _, _, valid, _, _) = insert_correct empty_set 70 (omega arith) (new_empty-IsValid 0) in
    valid

intersection_correct_example :
    IsValid ((intersect with_70 empty_set).0)
    × ((j : ℕ)
        → contains ((intersect with_70 empty_set).0) j
          ≡ (contains with_70 j >>= λ a. contains empty_set j >>= λ b. some (a && b)))
intersection_correct_example =
    intersection_correct with_70 empty_set with_70-IsValid (new_empty-IsValid 0)

remove_correct_example :
    (t : DenseBitSet) × (b : Bool) × (remove with_70 70 ≡ some (t, b))
    × IsValid t
    × (contains with_70 70 ≡ some b)
    × ((j : ℕ) → contains t j ≡ (contains with_70 j >>= λ c. some (and_not c (j == 70))))
remove_correct_example = remove_correct with_70 70 with_70-IsValid

-- The set grows by two words to meet the other.
bit_union_correct_example :
    (t : DenseBitSet) × (changed : Bool) × (union empty_set with_70 ≡ some (t, changed))
    × IsValid t
    × ((j : ℕ)
        → contains t j ≡ (contains empty_set j >>= λ a. contains with_70 j >>= λ b. some (a || b)))
bit_union_correct_example =
    bit_union_correct empty_set with_70 (new_empty-IsValid 0) with_70-IsValid

subtract_correct_example :
    IsValid ((subtract with_70 empty_set).0)
    × ((j : ℕ)
        → contains ((subtract with_70 empty_set).0) j
          ≡ (contains with_70 j >>= λ a. contains empty_set j >>= λ b. some (and_not a b)))
subtract_correct_example = subtract_correct with_70 empty_set with_70-IsValid (new_empty-IsValid 0)
