-- ===== src/BiTable/Spec.antt =====
-- What every table of sicada/src/data_structures/bi_table.rs promises: the entries in the order in
-- which they came, each once, and the position of an entry as its number.
use sicada.Prelude.{
  ℕ, suc, ◌≡◌, refl, sym, ap, ◌∙◌, ◌↔◌, Bool, true, false, Option, none, some, List, [], ◌∷◌, ◌++◌,
  length, get_elem?, Bool-cases, inl, inr, if◌then◌else◌,
}
use mathlib.Core.Option.{some-injective}

-- `==`, and that it is equality.
pub record Eq (A : Type 0) : Type 0 where
  pub beq : A → A → Bool
  pub beq_iff : (a b : A) → (beq a b ≡ true) ↔ (a ≡ b)

abbrev pub one_up : Option ℕ → Option ℕ
one_up none = none
one_up (some i) = some (suc i)

abbrev or_else : Option ℕ → Option ℕ → Option ℕ
or_else none o = o
or_else (some i) o = some i

or_else_up : (o q : Option ℕ) → or_else (one_up o) (one_up q) ≡ one_up (or_else o q)
or_else_up none q = refl
or_else_up (some i) q = refl

one_up_if :
    (b : Bool) (n : ℕ) → one_up (if b then some n else none) ≡ (if b then some (suc n) else none)
one_up_if true n = refl
one_up_if false n = refl

or_else-none : (o : Option ℕ) → or_else o none ≡ o
or_else-none none = refl
or_else-none (some i) = refl

module _ {T : Type 0} ⦃e : Eq T⦄ where
  -- The first place of an entry.
  abbrev pub index_of : T → List T → Option ℕ
  index_of a [] = none
  index_of a (x ∷ xs) = if e.beq x a then some 0 else one_up (index_of a xs)

  -- The answer to `find_id`, and the entries afterwards.
  abbrev pub found : T → Bool → List T → Option ℕ → Option ℕ × List T
  found a insert xs (some i) = (some i, xs)
  found a insert xs none = if insert then (some (length xs), xs ++ a ∷ []) else (none, xs)

  abbrev pub spec_find_id : List T → T → Bool → Option ℕ × List T
  spec_find_id xs a insert = found a insert xs (index_of a xs)

  -- A lookup of `a` in the table `t` gave `r`: the answer and the entries are the list's, and the
  -- table is still valid.
  abbrev pub Refines :
      {S : Type 0} → (S → List T) → (S → Type 0) → S → T → Bool → Option ℕ × S → Type 0
  Refines entries IsValid t a insert r =
      (r.0 ≡ (spec_find_id (entries t) a insert).0)
      × (entries (r.1) ≡ (spec_find_id (entries t) a insert).1)
      × IsValid (r.1)

  pub beq_self : (a : T) → e.beq a a ≡ true
  beq_self a = (e.beq_iff a a).1 refl

  index_of-get_up :
      (a x : T) (xs : List T) (i : ℕ)
      → ((j : ℕ) → index_of a xs ≡ some j → get_elem? xs j ≡ some a)
      → (o : Option ℕ) → index_of a xs ≡ o
      → one_up o ≡ some i
      → get_elem? (x ∷ xs) i ≡ some a
  index_of-get_up a x xs i h none q r = cc
  index_of-get_up a x xs i h (some j) q r =
      let e : suc j ≡ i = some-injective (suc j) i r in rw (← e) (h j q)

  -- An entry stands at its number.
  pub index_of-get :
      (a : T) (xs : List T) (i : ℕ) → index_of a xs ≡ some i → get_elem? xs i ≡ some a
  index_of-get a [] i h = cc
  index_of-get a (x ∷ xs) i h = elim (Bool-cases (e.beq x a)) [
    | inl k ↦
        let z : 0 ≡ i = some-injective 0 i (rw k at h) in rw (← z) (ap some ((e.beq_iff x a).0 k))
    | inr k ↦ index_of-get_up a x xs i (index_of-get a xs) (index_of a xs) refl (rw k at h)
  ]

  index_of-append_last :
      (b a : T) (xs : List T)
      → index_of b (xs ++ a ∷ [])
        ≡ or_else (index_of b xs) (if e.beq a b then some (length xs) else none)
  index_of-append_last b a [] = refl
  index_of-append_last b a (x ∷ xs) = elim (Bool-cases (e.beq x b)) [
    | inl k ↦ rw k refl
    | inr k ↦ rw k (
        ap one_up (index_of-append_last b a xs)
        ∙ sym (or_else_up (index_of b xs) (if e.beq a b then some (length xs) else none))
        ∙ ap (or_else (one_up (index_of b xs))) (one_up_if (e.beq a b) (length xs)))
  ]

  -- After a new entry: its own number, and the old ones.
  pub index_of-snoc :
      (a b : T) (xs : List T)
      → index_of a xs ≡ none
      → index_of b (xs ++ a ∷ []) ≡ (if e.beq a b then some (length xs) else index_of b xs)
  index_of-snoc a b xs h = elim (Bool-cases (e.beq a b)) [
    | inl k ↦
        let ab : a ≡ b = (e.beq_iff a b).0 k in
        let hb : index_of b xs ≡ none = rw (← ab) h in
        let step = index_of-append_last b a xs in rw k (rw (k, hb) at step)
    | inr k ↦
        let step = index_of-append_last b a xs in
        rw k ((rw k at step) ∙ or_else-none (index_of b xs))
  ]

  -- What was numbered keeps its number.
  pub index_of-append_old :
      (a b : T) (xs : List T) (i : ℕ) → index_of b xs ≡ some i → index_of b (xs ++ a ∷ []) ≡ some i
  index_of-append_old a b xs i h =
      index_of-append_last b a xs
      ∙ ap (λ o. or_else o (if e.beq a b then some (length xs) else none)) h

  -- The last of a list that did not hold it.
  pub index_of-snoc_new :
      (a b : T) (xs : List T) (i : ℕ)
      → index_of a xs ≡ none
      → i ≡ length xs
      → a ≡ b
      → index_of b (xs ++ a ∷ []) ≡ some i
  index_of-snoc_new a b xs i h last ab =
      let step = index_of-snoc a b xs h in rw (← ab, last) (rw (← ab, beq_self a) at step)
