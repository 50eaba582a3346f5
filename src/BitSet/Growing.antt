-- ===== src/BitSet/Growing.antt =====
-- `insert`, `remove` and `contains` of GrowableBitSet in sicada/src/data_structures/bit_set.rs: the
-- bit that each reads or writes among the words.
use sicada.Prelude.{
  ℕ, zero, suc, ◌-◌, ◌/◌, ◌%◌, ◌<◌, ◌≤◌, ◌≡◌, ◌≢◌, refl, sym, ap, ◌∙◌, ◌==◌, ==_iff, leb, ltb,
  leb_iff, ltb_iff, not, ◌&&◌, Bool, true, false, Bool-cases, some, List, [], ◌∷◌, ◌++◌, length,
  length-append, get_elem?, get_elem?-some, set, replicate, length-replicate, inl, inr, arith,
}
use mathlib.Core.Option.{some-injective}
use sicada.BitSet.{
  Word, zero_word, num_words, mask, bitwise, is_zero, DenseBitSet, new_empty, ensure, grown_words,
  contains,
}
use sicada.BitSet.Words.{
  bit, bit-bitwise, bit-zeros, length-mask, bit-mask, is_zero-false, is_zero-true,
}

abbrev pub word_at : List Word → ℕ → Word
word_at [] q = []
word_at (w ∷ ws) zero = w
word_at (w ∷ ws) (suc q) = word_at ws q

-- The bit of a number.
abbrev pub bit_at : List Word → ℕ → Bool
bit_at ws j = bit (word_at ws (j / 64)) (j % 64)

-- As many words as the domain takes, each of 64 bits, and no bit outside the domain.
pub record IsValid (s : DenseBitSet) : Type 0 where
  pub count : length s.words ≡ num_words s.domain_size
  pub whole : (q : ℕ) (w : Word) → get_elem? s.words q ≡ some w → length w ≡ 64
  pub within : (j : ℕ) → bit_at s.words j ≡ true → j < s.domain_size

pub word_at-get : (ws : List Word) (q : ℕ) (w : Word) → get_elem? ws q ≡ some w → word_at ws q ≡ w
word_at-get [] q w h = cc
word_at-get (v ∷ ws) zero w h = some-injective v w h
word_at-get (v ∷ ws) (suc q) w h = word_at-get ws q w h

pub word_at-set_self :
    (ws : List Word) (q : ℕ) (v : Word) → q < length ws → word_at (set ws q v) q ≡ v
word_at-set_self [] q v h = absurd (omega (arith, h))
word_at-set_self (w ∷ ws) zero v h = refl
word_at-set_self (w ∷ ws) (suc q) v h = word_at-set_self ws q v (omega (arith, h))

pub word_at-set_ne :
    (ws : List Word) (q p : ℕ) (v : Word) → p ≢ q → word_at (set ws q v) p ≡ word_at ws p
word_at-set_ne [] q p v h = refl
word_at-set_ne (w ∷ ws) zero zero v h = absurd (h refl)
word_at-set_ne (w ∷ ws) zero (suc p) v h = refl
word_at-set_ne (w ∷ ws) (suc q) zero v h = refl
word_at-set_ne (w ∷ ws) (suc q) (suc p) v h = word_at-set_ne ws q p v (λ e. h (ap suc e))

pub bit-zero_words : (n q k : ℕ) → bit (word_at (replicate n zero_word) q) k ≡ false
bit-zero_words zero q k = refl
bit-zero_words (suc n) zero k = bit-zeros 64 k
bit-zero_words (suc n) (suc q) k = bit-zero_words n q k

bit-padded :
    (ws : List Word) (n q k : ℕ)
    → bit (word_at (ws ++ replicate n zero_word) q) k ≡ bit (word_at ws q) k
bit-padded [] n q k = bit-zero_words n q k
bit-padded (w ∷ ws) n zero k = refl
bit-padded (w ∷ ws) n (suc q) k = bit-padded ws n q k

pub zero_words-whole :
    (n q : ℕ) (w : Word) → get_elem? (replicate n zero_word) q ≡ some w → length w ≡ 64
zero_words-whole zero q w h = cc
zero_words-whole (suc n) zero w h =
    ap length (sym (some-injective zero_word w h)) ∙ length-replicate 64 false
zero_words-whole (suc n) (suc q) w h = zero_words-whole n q w h

padded-whole :
    (ws : List Word) (n : ℕ)
    → ((q : ℕ) (w : Word) → get_elem? ws q ≡ some w → length w ≡ 64)
    → (q : ℕ) (w : Word) → get_elem? (ws ++ replicate n zero_word) q ≡ some w
    → length w ≡ 64
padded-whole [] n all q w h = zero_words-whole n q w h
padded-whole (v ∷ ws) n all zero w h = all 0 w h
padded-whole (v ∷ ws) n all (suc q) w h = padded-whole ws n (λ p. all (suc p)) q w h

pub new_empty-IsValid : (n : ℕ) → IsValid (new_empty n)
new_empty-IsValid n = record {
  count = length-replicate (num_words n) zero_word;
  whole = zero_words-whole (num_words n);
  within = λ j h. let no = bit-zero_words (num_words n) (j / 64) (j % 64) in cc;
}

grown-bit_at : (ws : List Word) (n j : ℕ) → bit_at (grown_words ws n) j ≡ bit_at ws j
grown-bit_at ws n j = elim (Bool-cases (ltb (length ws) n)) [
  | inl more ↦ rw more (bit-padded ws (n - length ws) (j / 64) (j % 64))
  | inr enough ↦ rw enough refl
]

length-grown : (ws : List Word) (n : ℕ) → length ws ≤ n → length (grown_words ws n) ≡ n
length-grown ws n h = elim (Bool-cases (ltb (length ws) n)) [
  | inl more ↦
      let zeros = length-replicate (n - length ws) zero_word in
      rw more (omega (arith, length-append ws (replicate (n - length ws) zero_word), zeros, h))
  | inr enough ↦ let ge : n ≤ length ws = ground (arith, enough) in rw enough (omega (arith, ge, h))
]

grown-whole :
    (ws : List Word) (n : ℕ)
    → ((q : ℕ) (w : Word) → get_elem? ws q ≡ some w → length w ≡ 64)
    → (q : ℕ) (w : Word) → get_elem? (grown_words ws n) q ≡ some w
    → length w ≡ 64
grown-whole ws n all q w = elim (Bool-cases (ltb (length ws) n)) [
  | inl more ↦ rw more (λ h. padded-whole ws (n - length ws) all q w h)
  | inr enough ↦ rw enough (λ h. all q w h)
]

-- Growing keeps every bit.
pub ensure-bit_at : (s : DenseBitSet) (n j : ℕ) → bit_at (ensure s n).words j ≡ bit_at s.words j
ensure-bit_at s n j = elim (Bool-cases (ltb s.domain_size n)) [
  | inl k ↦ rw k (grown-bit_at s.words (num_words n) j)
  | inr k ↦ rw k refl
]

pub ensure-IsValid :
    (s : DenseBitSet) (n : ℕ) → IsValid s → IsValid (ensure s n) × (n ≤ (ensure s n).domain_size)
ensure-IsValid s n v = elim (Bool-cases (ltb s.domain_size n)) [
  | inl k ↦
      let lt = (ltb_iff s.domain_size n).0 k in
      let fits : length s.words ≤ num_words n = omega (arith, v.count, lt) in
      rw k (
        record {
          count = length-grown s.words (num_words n) fits;
          whole = grown-whole s.words (num_words n) v.whole;
          within = λ j h.
              let old = v.within j (sym (grown-bit_at s.words (num_words n) j) ∙ h) in
              omega (arith, old, lt);
        },
        omega arith,
      )
  | inr k ↦ let ge : n ≤ s.domain_size = ground (arith, k) in rw k (v, ge)
]

-- The word of a number in the domain.
pub word-some :
    (s : DenseBitSet) (j : ℕ)
    → IsValid s
    → j < s.domain_size
    → (w : Word) × (get_elem? s.words (j / 64) ≡ some w)
      × (length w ≡ 64)
      × (bit w (j % 64) ≡ bit_at s.words j)
word-some s j v h =
    let inside : j / 64 < length s.words = omega (arith, v.count, h) in
    let (w, here) = get_elem?-some s.words (j / 64) inside in
    (
      w,
      here,
      v.whole (j / 64) w here,
      ap (λ x. bit x (j % 64)) (sym (word_at-get s.words (j / 64) w here)),
    )

and_true : (b : Bool) → (b && true) ≡ b
and_true true = refl
and_true false = refl

-- The test of a bit by its mask.
masked :
    (w : Word) (i : ℕ)
    → length w ≡ 64
    → i < 64
    → not (is_zero (bitwise (◌&&◌) w (mask i))) ≡ bit w i
masked w i n h =
    let both = λ (k : ℕ).
      bit-bitwise (◌&&◌) w (mask i) k refl (n ∙ sym (length-mask i))
      ∙ ap (λ b. bit w k && b) (bit-mask i k h) in
    elim (Bool-cases (is_zero (bitwise (◌&&◌) w (mask i)))) [
      | inl zero_all ↦
          let none_there = is_zero-true (bitwise (◌&&◌) w (mask i)) i zero_all in
          let self = (==_iff i i).1 refl in
          rw zero_all (sym none_there ∙ both i ∙ ap (λ b. bit w i && b) self ∙ and_true (bit w i))
      | inr some_there ↦
          let (k, here) = is_zero-false (bitwise (◌&&◌) w (mask i)) some_there in
          let (there, same) = both_true (bit w k) (k == i) (sym (both k) ∙ here) in
          rw some_there (sym there ∙ ap (bit w) ((==_iff k i).0 same))
    ]
  where
    both_true : (a b : Bool) → (a && b) ≡ true → (a ≡ true) × (b ≡ true)
    both_true true b h = (refl, h)
    both_true false b h = cc

-- `contains` never panics, and reads the bit of the number.
pub contains-bit_at : (s : DenseBitSet) (j : ℕ) → IsValid s → contains s j ≡ some (bit_at s.words j)
unfolding contains
contains-bit_at s j v = elim (Bool-cases (leb s.domain_size j)) [
  | inl k ↦ rw k (ap some (sym (outside ((leb_iff s.domain_size j).0 k))))
  | inr k ↦
      let lt : j < s.domain_size = ground (arith, k) in
      let (w, here, n, same) = word-some s j v lt in
      rw (k, (ltb_iff j s.domain_size).1 lt, here)
        (ap some (masked w (j % 64) n (omega arith) ∙ same))
]
  where
    outside : s.domain_size ≤ j → bit_at s.words j ≡ false
    outside far = elim (Bool-cases (bit_at s.words j)) [
      | inl h ↦ let near = v.within j h in absurd (omega (arith, near, far))
      | inr h ↦ h
    ]
