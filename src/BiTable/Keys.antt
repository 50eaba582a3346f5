-- ===== src/BiTable/Keys.antt =====
-- The hash tables of numbers that two tables of sicada/src/data_structures/bi_table.rs keep for the
-- entries their selector leaves, looking each entry up in the vector. The table, of the package
-- hashbrown, and the hash of an entry are parameters.
use sicada.Prelude.{
  ℕ, ◌≡◌, sym, ap, ◌∙◌, ◌↔◌, ◌⊎◌, Bool, true, false, Option-cases, Option, none, some, List, [],
  ◌∷◌, ◌++◌, length, get_elem?, inl, inr, get_elem?-snoc_cases, get_elem?-append_left,
  get_elem?-snoc_self,
}
use sicada.BiTable.Spec.{
  Eq, index_of, index_of-get, index_of-append_old, index_of-snoc_new, beq_self,
}

-- hashbrown's HashTable of numbers: `find(hash, eq)` and `insert_unique(hash, value, hasher)`. It
-- holds each number under the hash with which it was put in.
pub record HashTable : Type 1 where
  pub Table : Type 0
  pub with_capacity : Table
  pub find : Table → ℕ → (ℕ → Bool) → Option ℕ
  pub insert_unique : Table → ℕ → ℕ → (ℕ → ℕ) → Table
  pub clear : Table → Table
  pub Holds : Table → ℕ → ℕ → Type 0
  -- What is found is held, and passes the test.
  pub find_some :
      (t : Table) (h : ℕ) (eq : ℕ → Bool) (i : ℕ)
      → find t h eq ≡ some i
      → ((k : ℕ) × Holds t k i) × (eq i ≡ true)
  -- Nothing is found only where nothing under the hash passes.
  pub find_none :
      (t : Table) (h : ℕ) (eq : ℕ → Bool) (i : ℕ) → find t h eq ≡ none → Holds t h i → eq i ≡ false
  -- The hasher, which may move what is held, has to agree with the hashes in use.
  pub insert_holds :
      (t : Table) (h i : ℕ) (hasher : ℕ → ℕ)
      → ((k j : ℕ) → Holds t k j → hasher j ≡ k)
      → hasher i ≡ h
      → (k j : ℕ) → Holds (insert_unique t h i hasher) k j ↔ (Holds t k j ⊎ ((k ≡ h) × (j ≡ i)))
  pub empty_holds : (k j : ℕ) → ¬ Holds with_capacity k j
  pub clear_holds : (t : Table) (k j : ℕ) → ¬ Holds (clear t) k j

module _ {T : Type 0} ⦃e : Eq T⦄ where
  -- `self.id2entry[id] == *entry`; an index out of bounds panics in the source.
  abbrev pub equals_at : T → Option T → Bool
  equals_at a none = false
  equals_at a (some x) = e.beq x a

  -- The hash of `self.id2entry[i]`.
  abbrev pub hash_at : (T → ℕ) → Option T → ℕ
  hash_at hash none = 0
  hash_at hash (some x) = hash x

  module _ (tables : HashTable) (hash : T → ℕ) where
    abbrev pub find_key : tables.Table → List T → T → Option ℕ
    find_key keys xs a = tables.find keys (hash a) (λ id. equals_at a (get_elem? xs id))

    -- The table after the entry was pushed as the last.
    abbrev pub insert_key : tables.Table → List T → T → tables.Table
    insert_key keys xs a =
        let pushed = xs ++ a ∷ [] in
        tables.insert_unique keys (hash a) (length xs) (λ i. hash_at hash (get_elem? pushed i))

    module _ (selector : T → Bool) where
      -- The table holds the number of each entry it is there for, under the entry's hash, and
      -- nothing else; no entry stands twice.
      pub record KeysHold (keys : tables.Table) (xs : List T) : Type 0 where
        pub held :
            (a : T) (i : ℕ)
            → selector a ≡ false
            → get_elem? xs i ≡ some a
            → tables.Holds keys (hash a) i
        pub holder :
            (k i : ℕ)
            → tables.Holds keys k i
            → (a : T) × (selector a ≡ false) × (get_elem? xs i ≡ some a) × (k ≡ hash a)
        pub once : (a : T) (i : ℕ) → get_elem? xs i ≡ some a → index_of a xs ≡ some i

      pub empty-KeysHold :
          (keys : tables.Table) → ((k i : ℕ) → ¬ tables.Holds keys k i) → KeysHold keys []
      empty-KeysHold keys none_held = record {
        held = λ a i s h. cc;
        holder = λ k i h. absurd (none_held k i h);
        once = λ a i h. cc;
      }

      module _ {keys : tables.Table} {xs : List T} (v : KeysHold keys xs) where
        pub find_key-some : (a : T) (i : ℕ) → find_key keys xs a ≡ some i → index_of a xs ≡ some i
        find_key-some a i h =
            let ((k, holds), same) =
              tables.find_some keys (hash a) (λ id. equals_at a (get_elem? xs id)) i h in
            let (b, _, here, _) = v.holder k i holds in
            let ba : b ≡ a = (e.beq_iff b a).0 (ap (equals_at a) (sym here) ∙ same) in
            v.once a i (here ∙ ap some ba)

        pub find_key-none :
            (a : T) → selector a ≡ false → find_key keys xs a ≡ none → index_of a xs ≡ none
        find_key-none a s h = elim (Option-cases (index_of a xs)) [
          | inl k ↦ k
          | inr (i, k) ↦
              let here = index_of-get a xs i k in
              let fails =
                tables.find_none keys (hash a) (λ id. equals_at a (get_elem? xs id)) i h
                  (v.held a i s here) in
              let passes : equals_at a (get_elem? xs i) ≡ true =
                ap (equals_at a) here ∙ beq_self a in
              cc
        ]

        -- What is held after a new key.
        insert_key-Holds :
            (a : T) (k j : ℕ)
            → tables.Holds (insert_key keys xs a) k j
              ↔ (tables.Holds keys k j ⊎ ((k ≡ hash a) × (j ≡ length xs)))
        insert_key-Holds a =
            tables.insert_holds keys (hash a) (length xs)
              (λ i. hash_at hash (get_elem? (xs ++ a ∷ []) i))
              (λ k j holds.
                let (b, _, here, hk) = v.holder k j holds in
                ap (hash_at hash) (get_elem?-append_left xs (a ∷ []) j b here) ∙ sym hk)
              (ap (hash_at hash) (get_elem?-snoc_self xs a))

        once_snoc :
            (a b : T) (i : ℕ)
            → index_of a xs ≡ none
            → get_elem? (xs ++ a ∷ []) i ≡ some b
            → index_of b (xs ++ a ∷ []) ≡ some i
        once_snoc a b i new_entry h = elim (get_elem?-snoc_cases xs a i b h) [
          | inl k ↦ index_of-append_old a b xs i (v.once b i k)
          | inr (k, ab) ↦ index_of-snoc_new a b xs i new_entry k ab
        ]

        pub insert_key-KeysHold :
            (a : T)
            → selector a ≡ false
            → index_of a xs ≡ none
            → KeysHold (insert_key keys xs a) (xs ++ a ∷ [])
        insert_key-KeysHold a s new_entry = record {
          held = λ b i sb h. elim (get_elem?-snoc_cases xs a i b h) [
            | inl k ↦ (insert_key-Holds a (hash b) i).1 (inl (v.held b i sb k))
            | inr (k, ab) ↦ (insert_key-Holds a (hash b) i).1 (inr (ap hash (sym ab), k))
          ];
          holder = λ k i h. elim ((insert_key-Holds a k i).0 h) [
            | inl old ↦
                let (b, sb, here, hk) = v.holder k i old in
                (b, sb, get_elem?-append_left xs (a ∷ []) i b here, hk)
            | inr (hk, last) ↦
                (a, s, ap (get_elem? (xs ++ a ∷ [])) last ∙ get_elem?-snoc_self xs a, hk)
          ];
          once = λ b i h. once_snoc a b i new_entry h;
        }

        -- An entry that the table is not there for leaves it as it is.
        pub push-KeysHold :
            (a : T) → selector a ≡ true → index_of a xs ≡ none → KeysHold keys (xs ++ a ∷ [])
        push-KeysHold a s new_entry = record {
          held = λ b i sb h. elim (get_elem?-snoc_cases xs a i b h) [
            | inl k ↦ v.held b i sb k
            | inr (k, ab) ↦ let sa = ap selector ab in cc
          ];
          holder = λ k i h.
              let (b, sb, here, hk) = v.holder k i h in
              (b, sb, get_elem?-append_left xs (a ∷ []) i b here, hk);
          once = λ b i h. once_snoc a b i new_entry h;
        }
