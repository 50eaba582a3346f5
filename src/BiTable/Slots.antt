-- ===== src/BiTable/Slots.antt =====
-- The vectors indexed by fingerprint that two tables of sicada/src/data_structures/bi_table.rs keep,
-- `fp2id`, and what keeps them true to the entries.
use sicada.Prelude.{
  ℕ, zero, suc, ◌+◌, ◌-◌, ◌^◌, ◌<◌, ◌≤◌, ◌≡◌, refl, sym, ap, ◌∙◌, ◌≢◌, Bool, true, false,
  Bool-cases, Option, none, some, List, [], ◌∷◌, ◌++◌, length, set, take, replicate,
  length-replicate, inl, inr, arith,
}
use sicada.BiTable.Spec.{Eq, index_of, index_of-snoc}

-- `Vec::resize`.
abbrev pub resize : {A : Type 0} → List A → ℕ → A → List A
resize xs n a = take n xs ++ replicate (n - length xs) a

-- `self.fp2id[f]`; an index out of bounds panics in the source.
abbrev pub slot : List (Option ℕ) → ℕ → Option ℕ
slot [] f = none
slot (o ∷ os) zero = o
slot (o ∷ os) (suc f) = slot os f

slot-replicate : (n f : ℕ) → slot (replicate n none) f ≡ none
slot-replicate zero f = refl
slot-replicate (suc n) zero = refl
slot-replicate (suc n) (suc f) = slot-replicate n f

slot-padded :
    (os : List (Option ℕ)) (n k f : ℕ)
    → length os ≤ n
    → slot (take n os ++ replicate k none) f ≡ slot os f
slot-padded [] zero k f h = slot-replicate k f
slot-padded [] (suc n) k f h = slot-replicate k f
slot-padded (o ∷ os) zero k f h = absurd (omega (arith, h))
slot-padded (o ∷ os) (suc n) k zero h = refl
slot-padded (o ∷ os) (suc n) k (suc f) h = slot-padded os n k f (omega (arith, h))

length-padded :
    (os : List (Option ℕ)) (n k : ℕ)
    → length os ≤ n
    → length (take n os ++ replicate k none) ≡ length os + k
length-padded [] zero k h = omega (arith, length-replicate {A = Option ℕ} k none)
length-padded [] (suc n) k h = omega (arith, length-replicate {A = Option ℕ} k none)
length-padded (o ∷ os) zero k h = absurd (omega (arith, h))
length-padded (o ∷ os) (suc n) k h = omega (arith, length-padded os n k (omega (arith, h)))

pub length-resize : (os : List (Option ℕ)) (n : ℕ) → length os ≤ n → length (resize os n none) ≡ n
length-resize os n h = omega (arith, length-padded os n (n - length os) h)

-- Making the vector longer changes no slot.
pub slot-resize :
    (os : List (Option ℕ)) (n f : ℕ) → length os ≤ n → slot (resize os n none) f ≡ slot os f
slot-resize os n f h = slot-padded os n (n - length os) f h

pub slot-beyond : (os : List (Option ℕ)) (f : ℕ) → length os ≤ f → slot os f ≡ none
slot-beyond [] f h = refl
slot-beyond (o ∷ os) zero h = absurd (omega (arith, h))
slot-beyond (o ∷ os) (suc f) h = slot-beyond os f (omega (arith, h))

slot-set_self :
    (os : List (Option ℕ)) (f : ℕ) (o : Option ℕ) → f < length os → slot (set os f o) f ≡ o
slot-set_self [] f o h = absurd (omega (arith, h))
slot-set_self (p ∷ os) zero o h = refl
slot-set_self (p ∷ os) (suc f) o h = slot-set_self os f o (omega (arith, h))

slot-set_ne :
    (os : List (Option ℕ)) (f g : ℕ) (o : Option ℕ) → f ≢ g → slot (set os f o) g ≡ slot os g
slot-set_ne [] f g o h = refl
slot-set_ne (p ∷ os) zero zero o h = absurd (h refl)
slot-set_ne (p ∷ os) zero (suc g) o h = refl
slot-set_ne (p ∷ os) (suc f) zero o h = refl
slot-set_ne (p ∷ os) (suc f) (suc g) o h = slot-set_ne os f g o (λ e. h (ap suc e))

true-false : {b : Bool} → b ≡ true → b ≢ false
true-false h k = cc

-- The fingerprints tell apart the entries that the vector is there for, and are below the largest
-- usize, which a vector has no slot for.
pub record Distinguishes {T : Type 0} (selector : T → Bool) (fp : T → ℕ) (Admits : T → Type 0)
    : Type 0 where
  pub small : (a : T) → selector a ≡ true → Admits a → fp a + 1 < 2 ^ 64
  pub apart :
      (a b : T) → selector a ≡ true → selector b ≡ true → Admits a → Admits b → fp a ≡ fp b → a ≡ b

module _ {T : Type 0} ⦃e : Eq T⦄ (selector : T → Bool) (fp : T → ℕ) (Admits : T → Type 0) where
  -- The slot of each entry that the vector is there for has the number of the entry.
  unfoldable pub SlotsHold : List (Option ℕ) → List T → Type 0
  SlotsHold os xs = (a : T) → selector a ≡ true → Admits a → slot os (fp a) ≡ index_of a xs

  pub empty-SlotsHold : (n : ℕ) → SlotsHold (replicate n none) []
  unfolding SlotsHold
  empty-SlotsHold n a s ok = slot-replicate n (fp a)

  pub resize-SlotsHold :
      (os : List (Option ℕ)) (xs : List T) (n : ℕ)
      → length os ≤ n
      → SlotsHold os xs
      → SlotsHold (resize os n none) xs
  unfolding SlotsHold
  resize-SlotsHold os xs n h v a s ok = slot-resize os n (fp a) h ∙ v a s ok

  pub set-SlotsHold :
      Distinguishes selector fp Admits
      → (os : List (Option ℕ)) (xs : List T) (a : T) → selector a ≡ true
      → Admits a
      → fp a < length os
      → index_of a xs ≡ none
      → SlotsHold os xs
      → SlotsHold (set os (fp a) (some (length xs))) (xs ++ a ∷ [])
  unfolding SlotsHold
  set-SlotsHold d os xs a s ok h new_entry v b sb okb =
      let step = index_of-snoc a b xs new_entry in
      elim (Bool-cases (e.beq a b)) [
        | inl k ↦
            let ab : a ≡ b = (e.beq_iff a b).0 k in
            let there = slot-set_self os (fp a) (some (length xs)) h in
            ap (slot (set os (fp a) (some (length xs)))) (ap fp (sym ab))
            ∙ there
            ∙ sym (rw k at step)
        | inr k ↦
            slot-set_ne os (fp a) (fp b) (some (length xs))
              (λ same. true-false ((e.beq_iff a b).1 (d.apart a b s sb ok okb same)) k)
            ∙ v b sb okb
            ∙ sym (rw k at step)
      ]

  -- An entry that the vector is not there for leaves it as it is.
  pub push-SlotsHold :
      (os : List (Option ℕ)) (xs : List T) (a : T)
      → selector a ≡ false
      → index_of a xs ≡ none
      → SlotsHold os xs
      → SlotsHold os (xs ++ a ∷ [])
  unfolding SlotsHold
  push-SlotsHold os xs a s new_entry v b sb okb =
      let step = index_of-snoc a b xs new_entry in
      elim (Bool-cases (e.beq a b)) [
        | inl k ↦ let ab = ap selector ((e.beq_iff a b).0 k) in cc
        | inr k ↦ v b sb okb ∙ sym (rw k at step)
      ]

  pub SlotsHold-slot :
      (os : List (Option ℕ)) (xs : List T)
      → SlotsHold os xs
      → (a : T) → selector a ≡ true
      → Admits a
      → slot os (fp a) ≡ index_of a xs
  unfolding SlotsHold
  SlotsHold-slot os xs v a s ok = v a s ok
