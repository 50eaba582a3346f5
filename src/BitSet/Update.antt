-- ===== src/BitSet/Update.antt =====
-- `update_words` of sicada/src/data_structures/bit_set.rs on the first words of two sets, bit by bit.
use sicada.Prelude.{
  ℕ, zero, suc, ◌+◌, ◌-◌, ◌/◌, ◌%◌, ◌<◌, ◌≤◌, ◌≡◌, refl, sym, ap, ◌∙◌, leb, leb_iff, Bool, true,
  false, Bool-cases, some, List, [], ◌∷◌, ◌++◌, length, get_elem?, take, drop, inl, inr, arith,
}
use mathlib.Core.Option.{some-injective}
use sicada.BitSet.{Word, bitwise, DenseBitSet, update_words}
use sicada.BitSet.Words.{bit, bit-bitwise, length-bitwise}
use sicada.BitSet.Growing.{bit_at, word_at, IsValid}

-- Every word has 64 bits.
abbrev pub Whole : List Word → Type 0
Whole ws = (q : ℕ) (w : Word) → get_elem? ws q ≡ some w → length w ≡ 64

Whole-rest : (w : Word) (ws : List Word) → Whole (w ∷ ws) → Whole ws
Whole-rest w ws all q v h = all (suc q) v h

-- The bits after the first `n` words are updated: `tail` is what becomes of the others.
bit-updated :
    (op : Bool → Bool → Bool)
    → op false false ≡ false
    → (n q k : ℕ) (ws vs tail : List Word) → Whole ws
    → Whole vs
    → n ≤ length ws
    → n ≤ length vs
    → (q < n
        → bit (word_at ((update_words op (take n ws) (take n vs)).0 ++ tail) q) k
          ≡ op (bit (word_at ws q) k) (bit (word_at vs q) k))
      × (n ≤ q
          → word_at ((update_words op (take n ws) (take n vs)).0 ++ tail) q ≡ word_at tail (q - n))
bit-updated op z zero q k ws vs tail hw hv nw nv =
    (λ h. absurd (omega (arith, h)), λ h. ap (word_at tail) (omega arith))
bit-updated op z (suc n) q k [] vs tail hw hv nw nv = absurd (omega (arith, nw))
bit-updated op z (suc n) q k (w ∷ ws) [] tail hw hv nw nv = absurd (omega (arith, nv))
bit-updated op z (suc n) zero k (w ∷ ws) (v ∷ vs) tail hw hv nw nv =
    (λ h. bit-bitwise op w v k z (hw 0 w refl ∙ sym (hv 0 v refl)), λ h. absurd (omega (arith, h)))
bit-updated op z (suc n) (suc q) k (w ∷ ws) (v ∷ vs) tail hw hv nw nv =
    let (low, high) =
      bit-updated op z n q k ws vs tail (Whole-rest w ws hw) (Whole-rest v vs hv)
        (omega (arith, nw)) (omega (arith, nv)) in
    (λ h. low (omega (arith, h)), λ h. high (omega (arith, h)) ∙ ap (word_at tail) (omega arith))

pub word_at-drop : (n q : ℕ) (ws : List Word) → word_at (drop n ws) q ≡ word_at ws (n + q)
word_at-drop zero q ws = ap (word_at ws) (omega arith)
word_at-drop (suc n) q [] = refl
word_at-drop (suc n) q (w ∷ ws) =
    let place : suc (n + q) ≡ suc n + q = omega arith in
    word_at-drop n q ws ∙ ap (word_at (w ∷ ws)) place

pub word_at-beyond : (ws : List Word) (q : ℕ) → length ws ≤ q → word_at ws q ≡ []
word_at-beyond [] q h = refl
word_at-beyond (w ∷ ws) zero h = absurd (omega (arith, h))
word_at-beyond (w ∷ ws) (suc q) h = word_at-beyond ws q (omega (arith, h))

pub drop-Whole : (n : ℕ) (ws : List Word) → Whole ws → Whole (drop n ws)
drop-Whole zero ws all = all
drop-Whole (suc n) [] all = λ q v h. cc
drop-Whole (suc n) (w ∷ ws) all = drop-Whole n ws (Whole-rest w ws all)

pub length-drop : (n : ℕ) (ws : List Word) → n ≤ length ws → n + length (drop n ws) ≡ length ws
length-drop zero ws h = omega arith
length-drop (suc n) [] h = absurd (omega (arith, h))
length-drop (suc n) (w ∷ ws) h = omega (arith, length-drop n ws (omega (arith, h)))

-- The updated words are as many as before and as long.
updated-Whole :
    (op : Bool → Bool → Bool) (n : ℕ) (ws vs tail : List Word)
    → Whole ws
    → Whole vs
    → Whole tail
    → n ≤ length ws
    → n ≤ length vs
    → Whole ((update_words op (take n ws) (take n vs)).0 ++ tail)
      × (length ((update_words op (take n ws) (take n vs)).0 ++ tail) ≡ n + length tail)
updated-Whole op zero ws vs tail hw hv ht nw nv = (ht, omega arith)
updated-Whole op (suc n) [] vs tail hw hv ht nw nv = absurd (omega (arith, nw))
updated-Whole op (suc n) (w ∷ ws) [] tail hw hv ht nw nv = absurd (omega (arith, nv))
updated-Whole op (suc n) (w ∷ ws) (v ∷ vs) tail hw hv ht nw nv =
    let (whole, len) =
      updated-Whole op n ws vs tail (Whole-rest w ws hw) (Whole-rest v vs hv) ht (omega (arith, nw))
        (omega (arith, nv)) in
    (at_place whole, omega (arith, len))
  where
    at_place :
        Whole ((update_words op (take n ws) (take n vs)).0 ++ tail)
        → Whole (bitwise op w v ∷ ((update_words op (take n ws) (take n vs)).0 ++ tail))
    at_place whole zero u e =
        ap length (sym (some-injective (bitwise op w v) u e))
        ∙ length-bitwise op w v (hw 0 w refl ∙ sym (hv 0 v refl))
        ∙ hw 0 w refl
    at_place whole (suc q) u e = whole q u e

module _ (op : Bool → Bool → Bool) (z : op false false ≡ false) (s other : DenseBitSet) (n : ℕ)
    (tail : List Word) (v : IsValid s) (v' : IsValid other) (nw : n ≤ length s.words)
    (nv : n ≤ length other.words) where
  -- Bit by bit, where the words after the first `n` are right too.
  pub all-bit_at :
      ((q k : ℕ)
        → n ≤ q
        → bit (word_at tail (q - n)) k
          ≡ op (bit (word_at s.words q) k) (bit (word_at other.words q) k))
      → (j : ℕ)
      → bit_at ((update_words op (take n s.words) (take n other.words)).0 ++ tail) j
        ≡ op (bit_at s.words j) (bit_at other.words j)
  all-bit_at rest j =
      let (low, high) =
        bit-updated op z n (j / 64) (j % 64) s.words other.words tail v.whole v'.whole nw nv in
      elim (Bool-cases (leb n (j / 64))) [
        | inl k ↦
            let le = (leb_iff n (j / 64)).0 k in
            ap (λ w. bit w (j % 64)) (high le) ∙ rest (j / 64) (j % 64) le
        | inr k ↦ low (ground (arith, k))
      ]

  pub updated-IsValid :
      Whole tail
      → n + length tail ≡ length s.words
      → ((j : ℕ)
          → bit_at ((update_words op (take n s.words) (take n other.words)).0 ++ tail) j ≡ true
          → j < s.domain_size)
      → IsValid
          (record s { words = (update_words op (take n s.words) (take n other.words)).0 ++ tail })
  updated-IsValid ht total inside =
      let (whole, len) = updated-Whole op n s.words other.words tail v.whole v'.whole ht nw nv in
      record { count = len ∙ total ∙ v.count; whole = whole; within = inside }
