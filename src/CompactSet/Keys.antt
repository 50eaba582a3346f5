-- ===== src/CompactSet/Keys.antt =====
-- The sorted keys of CompactSet in sicada/src/data_structures/compact_set.rs: what the writes at the
-- place of a binary search make of them.
use sicada.Prelude.{
  ℕ, suc, ◌<◌, ◌≡◌, refl, ap, ◌∙◌, ◌==◌, ltb, Bool, false, Bool-cases, Option, none, some, List, [],
  ◌∷◌, get_elem?, partition_point, inl, inr, if◌then◌else◌,
}
use mathlib.Core.List.{Memᴰ}
use sicada.CompactSet.{Search, found, binary_search, remove_at, with_key, is_ok}

-- Strictly ascending.
abbrev pub IsSorted : List ℕ → Type 0
IsSorted [] = Unit
IsSorted (x ∷ xs) = ((k : ℕ) → Memᴰ k xs → x < k) × IsSorted xs

abbrev pub put : ℕ → List ℕ → List ℕ
put key [] = key ∷ []
put key (x ∷ xs) =
    let rest = put key xs in
    if ltb x key then x ∷ rest else if x == key then x ∷ xs else key ∷ x ∷ xs

abbrev pub without : ℕ → List ℕ → List ℕ
without key [] = []
without key (x ∷ xs) =
    let rest = without key xs in if ltb x key then x ∷ rest else if x == key then xs else x ∷ xs

abbrev pub has : ℕ → List ℕ → Bool
has key [] = false
has key (x ∷ xs) = let rest = has key xs in if ltb x key then rest else x == key

with_key-further :
    (x key i : ℕ) (xs : List ℕ) (o : Option ℕ)
    → with_key (x ∷ xs) key (found key (suc i) o) ≡ x ∷ with_key xs key (found key i o)
with_key-further x key i xs none = refl
with_key-further x key i xs (some y) = elim (Bool-cases (y == key)) [
  | inl k ↦ rw k refl
  | inr k ↦ rw k refl
]

is_ok-further : (key i : ℕ) (o : Option ℕ) → is_ok (found key (suc i) o) ≡ is_ok (found key i o)
is_ok-further key i none = refl
is_ok-further key i (some y) = elim (Bool-cases (y == key)) [
  | inl k ↦ rw k refl
  | inr k ↦ rw k refl
]

pub with_key-put : (key : ℕ) (xs : List ℕ) → with_key xs key (binary_search key xs) ≡ put key xs
unfolding partition_point
with_key-put key [] = refl
with_key-put key (x ∷ xs) = elim (Bool-cases (ltb x key)) [
  | inl k ↦
      let i = partition_point (λ y. ltb y key) xs in
      rw k (with_key-further x key i xs (get_elem? xs i) ∙ ap (◌∷◌ x) (with_key-put key xs))
  | inr k ↦ rw k (elim (Bool-cases (x == key)) [ inl e ↦ rw e refl | inr e ↦ rw e refl ])
]

pub is_ok-has : (key : ℕ) (xs : List ℕ) → is_ok (binary_search key xs) ≡ has key xs
unfolding partition_point
is_ok-has key [] = refl
is_ok-has key (x ∷ xs) = elim (Bool-cases (ltb x key)) [
  | inl k ↦
      let i = partition_point (λ y. ltb y key) xs in
      rw k (is_ok-further key i (get_elem? xs i) ∙ is_ok-has key xs)
  | inr k ↦ rw k (elim (Bool-cases (x == key)) [ inl e ↦ rw e refl | inr e ↦ rw e refl ])
]

-- The keys that an erasure leaves, by what the search found.
abbrev pub removed : List ℕ → Search → List ℕ
removed keys (Search.err i) = keys
removed keys (Search.ok i) = remove_at keys i

removed-further :
    (x key i : ℕ) (xs : List ℕ) (o : Option ℕ)
    → removed (x ∷ xs) (found key (suc i) o) ≡ x ∷ removed xs (found key i o)
removed-further x key i xs none = refl
removed-further x key i xs (some y) = elim (Bool-cases (y == key)) [
  | inl k ↦ rw k refl
  | inr k ↦ rw k refl
]

pub removed-without : (key : ℕ) (xs : List ℕ) → removed xs (binary_search key xs) ≡ without key xs
unfolding partition_point
removed-without key [] = refl
removed-without key (x ∷ xs) = elim (Bool-cases (ltb x key)) [
  | inl k ↦
      let i = partition_point (λ y. ltb y key) xs in
      rw k (removed-further x key i xs (get_elem? xs i) ∙ ap (◌∷◌ x) (removed-without key xs))
  | inr k ↦ rw k (elim (Bool-cases (x == key)) [ inl e ↦ rw e refl | inr e ↦ rw e refl ])
]
