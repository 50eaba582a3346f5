-- ===== src/BitSet/Words.antt =====
-- The bits of the words of sicada/src/data_structures/bit_set.rs after the operations on them.
use sicada.Prelude.{
  ℕ, zero, suc, ◌<◌, ◌≡◌, ◌≢◌, refl, sym, ap, ◌∙◌, ◌||◌, ◌==◌, ==_iff, ==-false, Bool, true, false,
  [], ◌∷◌, length, set, replicate, length-replicate, length-set, inl, inr, arith, eq_or_ne,
}
use sicada.BitSet.{Word, zero_word, mask, bitwise, and_not, is_zero, same_word}

abbrev pub bit : Word → ℕ → Bool
bit [] k = false
bit (a ∷ w) zero = a
bit (a ∷ w) (suc k) = bit w k

pub bit-bitwise :
    (op : Bool → Bool → Bool) (w v : Word) (k : ℕ)
    → op false false ≡ false
    → length w ≡ length v
    → bit (bitwise op w v) k ≡ op (bit w k) (bit v k)
bit-bitwise op [] [] k z h = sym z
bit-bitwise op [] (b ∷ v) k z h = absurd (omega (arith, h))
bit-bitwise op (a ∷ w) [] k z h = absurd (omega (arith, h))
bit-bitwise op (a ∷ w) (b ∷ v) zero z h = refl
bit-bitwise op (a ∷ w) (b ∷ v) (suc k) z h = bit-bitwise op w v k z (omega (arith, h))

pub length-bitwise :
    (op : Bool → Bool → Bool) (w v : Word)
    → length w ≡ length v
    → length (bitwise op w v) ≡ length w
length-bitwise op [] v h = refl
length-bitwise op (a ∷ w) [] h = absurd (omega (arith, h))
length-bitwise op (a ∷ w) (b ∷ v) h = ap suc (length-bitwise op w v (omega (arith, h)))

pub bit-zeros : (n k : ℕ) → bit (replicate n false) k ≡ false
bit-zeros zero k = refl
bit-zeros (suc n) zero = refl
bit-zeros (suc n) (suc k) = bit-zeros n k

bit-set_self : (w : Word) (i : ℕ) → i < length w → bit (set w i true) i ≡ true
bit-set_self [] i h = absurd (omega (arith, h))
bit-set_self (a ∷ w) zero h = refl
bit-set_self (a ∷ w) (suc i) h = bit-set_self w i (omega (arith, h))

bit-set_ne : (w : Word) (i k : ℕ) → k ≢ i → bit (set w i true) k ≡ bit w k
bit-set_ne [] i k h = refl
bit-set_ne (a ∷ w) zero zero h = absurd (h refl)
bit-set_ne (a ∷ w) zero (suc k) h = refl
bit-set_ne (a ∷ w) (suc i) zero h = refl
bit-set_ne (a ∷ w) (suc i) (suc k) h = bit-set_ne w i k (λ e. h (ap suc e))

pub length-mask : (i : ℕ) → length (mask i) ≡ 64
length-mask i = length-set zero_word i true ∙ length-replicate 64 false

pub bit-mask : (i k : ℕ) → i < 64 → bit (mask i) k ≡ (k == i)
bit-mask i k h = elim (eq_or_ne k i) [
  | inl e ↦
      let here = bit-set_self zero_word i (omega (arith, h, length-replicate 64 false)) in
      ap (bit (mask i)) e ∙ here ∙ sym ((==_iff k i).1 e)
  | inr ne ↦ bit-set_ne zero_word i k ne ∙ bit-zeros 64 k ∙ sym (==-false k i ne)
]

-- A word that is not zero has a bit.
pub is_zero-false : (w : Word) → is_zero w ≡ false → (k : ℕ) × (bit w k ≡ true)
is_zero-false [] h = cc
is_zero-false (true ∷ w) h = (0, refl)
is_zero-false (false ∷ w) h = let (k, here) = is_zero-false w h in (suc k, here)

pub is_zero-true : (w : Word) (k : ℕ) → is_zero w ≡ true → bit w k ≡ false
is_zero-true [] k h = refl
is_zero-true (true ∷ w) k h = cc
is_zero-true (false ∷ w) zero h = refl
is_zero-true (false ∷ w) (suc k) h = is_zero-true w k h

pub same_word-true :
    (w v : Word) (k : ℕ) → length w ≡ length v → same_word w v ≡ true → bit w k ≡ bit v k
same_word-true [] [] k n h = refl
same_word-true [] (b ∷ v) k n h = absurd (omega (arith, n))
same_word-true (a ∷ w) [] k n h = absurd (omega (arith, n))
same_word-true (true ∷ w) (true ∷ v) zero n h = refl
same_word-true (false ∷ w) (false ∷ v) zero n h = refl
same_word-true (true ∷ w) (false ∷ v) k n h = cc
same_word-true (false ∷ w) (true ∷ v) k n h = cc
same_word-true (true ∷ w) (true ∷ v) (suc k) n h = same_word-true w v k (omega (arith, n)) h
same_word-true (false ∷ w) (false ∷ v) (suc k) n h = same_word-true w v k (omega (arith, n)) h

pub same_word-false : (w v : Word) → same_word w v ≡ false → (k : ℕ) × (bit w k ≢ bit v k)
same_word-false [] v h = cc
same_word-false (a ∷ w) [] h = cc
same_word-false (true ∷ w) (true ∷ v) h = let (k, ne) = same_word-false w v h in (suc k, ne)
same_word-false (false ∷ w) (false ∷ v) h = let (k, ne) = same_word-false w v h in (suc k, ne)
same_word-false (true ∷ w) (false ∷ v) h = (0, λ e. cc)
same_word-false (false ∷ w) (true ∷ v) h = (0, λ e. cc)

pub or_unit : (b : Bool) → (b || false) ≡ b
or_unit true = refl
or_unit false = refl

pub and_not_unit : (b : Bool) → and_not b false ≡ b
and_not_unit true = refl
and_not_unit false = refl
