-- ===== src/BitSet/Relations.antt =====
-- `union`, `subtract` and `intersect` of GrowableBitSet in sicada/src/data_structures/bit_set.rs, bit
-- by bit.
use sicada.Prelude.{
  ℕ, zero, suc, ◌+◌, ◌-◌, ◌≤◌, ◌≡◌, ◌⊎◌, refl, sym, ap, ◌∙◌, leb, leb_iff, not, ◌&&◌, ◌||◌, Bool,
  true, false, Bool-cases, min, some, List, [], ◌∷◌, length, replicate, length-replicate, drop, inl,
  inr, if◌then◌else◌, arith, ◌>>=◌,
}
use sicada.BitSet.{
  Word, zero_word, and_not, is_zero, DenseBitSet, ensure, update_first, union, subtract, any_set,
  intersect, contains,
}
use sicada.BitSet.Words.{or_unit, and_not_unit, bit, is_zero-true}
use sicada.BitSet.Growing.{
  bit_at, word_at, IsValid, ensure-bit_at, ensure-IsValid, contains-bit_at, zero_words-whole,
  bit-zero_words,
}
use sicada.BitSet.Update.{
  Whole, word_at-drop, word_at-beyond, drop-Whole, length-drop, all-bit_at, updated-IsValid,
}

both_left : (a b : Bool) → (a && b) ≡ true → a ≡ true
both_left true b h = refl
both_left false b h = cc

neither : (a b : Bool) → (not a || b) ≡ false → (a ≡ true) × (b ≡ false)
neither true b h = (refl, h)
neither false b h = cc

none_set : (ws : List Word) (q k : ℕ) → any_set ws ≡ false → bit (word_at ws q) k ≡ false
none_set [] q k h = refl
none_set (w ∷ ws) zero k h = is_zero-true w k ((neither (is_zero w) (any_set ws) h).0)
none_set (w ∷ ws) (suc q) k h = none_set ws q k ((neither (is_zero w) (any_set ws) h).1)

beyond_and :
    (ws vs : List Word) (n q k : ℕ)
    → n ≡ min (length ws) (length vs)
    → n ≤ q
    → bit (word_at ws q) k && bit (word_at vs q) k ≡ false
beyond_and ws vs n q k e h = elim (Bool-cases (leb (length ws) q)) [
  | inl far ↦ rw (word_at-beyond ws q ((leb_iff (length ws) q).0 far)) refl
  | inr near ↦
      let far : length vs ≤ q = ground (arith, near, e, h) in
      rw (word_at-beyond vs q far) (and_false (bit (word_at ws q) k))
]
  where
    and_false : (b : Bool) → (b && false) ≡ false
    and_false true = refl
    and_false false = refl

-- An intersection holds the common numbers, also where the sets have different domains, and is valid.
pub intersection_correct :
    (s other : DenseBitSet)
    → IsValid s
    → IsValid other
    → IsValid ((intersect s other).0)
      × ((j : ℕ)
          → contains ((intersect s other).0) j
            ≡ (contains s j >>= λ a. contains other j >>= λ b. some (a && b)))
unfolding intersect
intersection_correct s other v v' =
    let n = min (length s.words) (length other.words) in
    let rest = drop n s.words in
    let tail = if any_set rest then replicate (length rest) zero_word else rest in
    let nw : n ≤ length s.words = omega arith in
    let nv : n ≤ length other.words = omega arith in
    let bits =
      all-bit_at (◌&&◌) refl s other n tail v v' nw nv
        (λ q k h. tail_bit rest (q - n) k ∙ sym (beyond_and s.words other.words n q k refl h)) in
    let valid =
      updated-IsValid (◌&&◌) refl s other n tail v v' nw nv
        (tail_whole rest (drop-Whole n s.words v.whole))
        (ap (λ m. n + m) (length-tail rest) ∙ length-drop n s.words nw)
        (λ j h.
          v.within j (both_left (bit_at s.words j) (bit_at other.words j) (sym (bits j) ∙ h))) in
    (
      valid,
      λ j.
          contains-bit_at ((intersect s other).0) j valid
          ∙ ap some (bits j)
          ∙ sym (
              ap (λ m. m >>= λ a. contains other j >>= λ b. some (a && b)) (contains-bit_at s j v)
              ∙ ap (λ m. m >>= λ b. some (bit_at s.words j && b)) (contains-bit_at other j v')),
    )
  where
    tail_bit :
        (rest : List Word) (q k : ℕ)
        → bit (word_at (if any_set rest then replicate (length rest) zero_word else rest) q) k
          ≡ false
    tail_bit rest q k = elim (Bool-cases (any_set rest)) [
      | inl e ↦ rw e (bit-zero_words (length rest) q k)
      | inr e ↦ rw e (none_set rest q k e)
    ]

    tail_whole :
        (rest : List Word)
        → Whole rest
        → Whole (if any_set rest then replicate (length rest) zero_word else rest)
    tail_whole rest all = elim (Bool-cases (any_set rest)) [
      | inl e ↦ rw e (zero_words-whole (length rest))
      | inr e ↦ rw e all
    ]

    length-tail :
        (rest : List Word)
        → length (if any_set rest then replicate (length rest) zero_word else rest) ≡ length rest
    length-tail rest = elim (Bool-cases (any_set rest)) [
      | inl e ↦ rw e (length-replicate (length rest) zero_word)
      | inr e ↦ rw e refl
    ]

-- The words after the first `n` stay, and the other set has no bit there that counts.
kept-bit :
    (op : Bool → Bool → Bool) (ws vs : List Word) (n : ℕ)
    → ((q k : ℕ) → n ≤ q → op (bit (word_at ws q) k) (bit (word_at vs q) k) ≡ bit (word_at ws q) k)
    → (q k : ℕ) → n ≤ q
    → bit (word_at (drop n ws) (q - n)) k ≡ op (bit (word_at ws q) k) (bit (word_at vs q) k)
kept-bit op ws vs n same q k h =
    let place : n + (q - n) ≡ q = omega (arith, h) in
    ap (λ w. bit w k) (word_at-drop n (q - n) ws ∙ ap (word_at ws) place) ∙ sym (same q k h)

beyond_and_not :
    (ws vs : List Word) (n q k : ℕ)
    → n ≡ min (length ws) (length vs)
    → n ≤ q
    → and_not (bit (word_at ws q) k) (bit (word_at vs q) k) ≡ bit (word_at ws q) k
beyond_and_not ws vs n q k e h = elim (Bool-cases (leb (length ws) q)) [
  | inl far ↦ rw (word_at-beyond ws q ((leb_iff (length ws) q).0 far)) refl
  | inr near ↦
      let far : length vs ≤ q = ground (arith, near, e, h) in
      rw (word_at-beyond vs q far) (and_not_unit (bit (word_at ws q) k))
]

-- A difference holds the numbers of the first set that are not in the second, and is valid.
pub subtract_correct :
    (s other : DenseBitSet)
    → IsValid s
    → IsValid other
    → IsValid ((subtract s other).0)
      × ((j : ℕ)
          → contains ((subtract s other).0) j
            ≡ (contains s j >>= λ a. contains other j >>= λ b. some (and_not a b)))
unfolding subtract
subtract_correct s other v v' =
    let n = min (length s.words) (length other.words) in
    let tail = drop n s.words in
    let nw : n ≤ length s.words = omega arith in
    let nv : n ≤ length other.words = omega arith in
    let bits = all-bit_at and_not refl s other n tail v v' nw nv (
      kept-bit and_not s.words other.words n
        (λ q k h. beyond_and_not s.words other.words n q k refl h)) in
    let valid =
      updated-IsValid and_not refl s other n tail v v' nw nv (drop-Whole n s.words v.whole)
        (length-drop n s.words nw)
        (λ j h.
          v.within j
            (both_left (bit_at s.words j) (not (bit_at other.words j)) (sym (bits j) ∙ h))) in
    (
      valid,
      λ j.
          contains-bit_at ((subtract s other).0) j valid
          ∙ ap some (bits j)
          ∙ sym (
              ap (λ m. m >>= λ a. contains other j >>= λ b. some (and_not a b))
                (contains-bit_at s j v)
              ∙ ap (λ m. m >>= λ b. some (and_not (bit_at s.words j) b))
                  (contains-bit_at other j v')),
    )

either : (a b : Bool) → (a || b) ≡ true → (a ≡ true) ⊎ (b ≡ true)
either true b h = inl refl
either false b h = inr h

-- A union never panics, holds the numbers of both sets, and is valid.
pub bit_union_correct :
    (s other : DenseBitSet)
    → IsValid s
    → IsValid other
    → (t : DenseBitSet) × (changed : Bool) × (union s other ≡ some (t, changed))
      × IsValid t
      × ((j : ℕ) → contains t j ≡ (contains s j >>= λ a. contains other j >>= λ b. some (a || b)))
unfolding union
bit_union_correct s other v v' =
    let grown = ensure s other.domain_size in
    let n = length other.words in
    let (vg, big) = ensure-IsValid s other.domain_size v in
    let nw : n ≤ length grown.words = omega (arith, vg.count, v'.count, big) in
    let tail = drop n grown.words in
    let bits = all-bit_at (◌||◌) refl grown other n tail vg v' nw (omega arith) (
      kept-bit (◌||◌) grown.words other.words n (λ q k h.
        ap (λ w. bit (word_at grown.words q) k || bit w k) (word_at-beyond other.words q h)
        ∙ or_unit (bit (word_at grown.words q) k))) in
    let valid =
      updated-IsValid (◌||◌) refl grown other n tail vg v' nw (omega arith)
        (drop-Whole n grown.words vg.whole) (length-drop n grown.words nw)
        (λ j h. elim (either (bit_at grown.words j) (bit_at other.words j) (sym (bits j) ∙ h)) [
          | inl k ↦ vg.within j k
          | inr k ↦ let near = v'.within j k in omega (arith, near, big)
        ]) in
    let r = update_first (◌||◌) grown other n in
    (
      r.0,
      r.1,
      rw ((leb_iff n (length grown.words)).1 nw) refl,
      valid,
      λ j.
          contains-bit_at (r.0) j valid
          ∙ ap some
              (bits j ∙ ap (λ a. a || bit_at other.words j) (ensure-bit_at s other.domain_size j))
          ∙ sym (
              ap (λ m. m >>= λ a. contains other j >>= λ b. some (a || b)) (contains-bit_at s j v)
              ∙ ap (λ m. m >>= λ b. some (bit_at s.words j || b)) (contains-bit_at other j v')),
    )
