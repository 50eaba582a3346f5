-- ===== src/BiTable/Compact.antt =====
-- CompactHashBiTable of sicada/src/data_structures/bi_table.rs: a hash table of the numbers alone
-- beside the vector of the entries. A number is a usize.
use sicada.Prelude.{
  ℕ, ◌≡◌, refl, Bool, true, false, Option-cases, Option, none, some, List, [], ◌∷◌, ◌++◌, length,
  get_elem?, inl, inr, if◌then◌else◌,
}
use sicada.BiTable.Spec.{Eq, index_of, Refines}
use sicada.BiTable.Contract.{Contract}
use sicada.BiTable.Keys.{
  HashTable, find_key, insert_key, KeysHold, empty-KeysHold, find_key-some, find_key-none,
  insert_key-KeysHold,
}

pub record CompactHashBiTable (tables : HashTable) (T : Type 0) : Type 0 where
  pub id2entry : List T
  pub keys : tables.Table

module _ {T : Type 0} ⦃e : Eq T⦄ (tables : HashTable) (hash : T → ℕ) where
  abbrev pub new : CompactHashBiTable tables T
  new = record { id2entry = []; keys = tables.with_capacity }

  abbrev find_id_at :
      CompactHashBiTable tables T → T → Bool → Option ℕ → Option ℕ × CompactHashBiTable tables T
  find_id_at t a insert (some id) = (some id, t)
  find_id_at t a insert none =
      if insert
      then (
        some (length t.id2entry),
        record {
          id2entry = t.id2entry ++ a ∷ [];
          keys = insert_key tables hash t.keys t.id2entry a;
        },
      )
      else (none, t)

  unfoldable pub find_id :
      CompactHashBiTable tables T → T → Bool → Option ℕ × CompactHashBiTable tables T
  find_id t a insert = find_id_at t a insert (find_key tables hash t.keys t.id2entry a)

  abbrev pub find_entry : CompactHashBiTable tables T → ℕ → Option T
  find_entry t s = get_elem? t.id2entry s

  abbrev pub size : CompactHashBiTable tables T → ℕ
  size t = length t.id2entry

  abbrev pub clear : CompactHashBiTable tables T → CompactHashBiTable tables T
  clear t = record { id2entry = []; keys = tables.clear t.keys }

  abbrev pub IsValid : CompactHashBiTable tables T → Type 0
  IsValid t = KeysHold tables hash (λ a. false) t.keys t.id2entry

  find_id_at-Refines :
      (t : CompactHashBiTable tables T) (a : T) (insert : Bool) (o : Option ℕ)
      → IsValid t
      → index_of a t.id2entry ≡ o
      → Refines (λ s. s.id2entry) IsValid t a insert (find_id_at t a insert o)
  find_id_at-Refines t a insert (some i) v h = rw h (refl, refl, v)
  find_id_at-Refines t a false none v h = rw h (refl, refl, v)
  find_id_at-Refines t a true none v h =
      rw h (refl, refl, insert_key-KeysHold tables hash (λ a. false) v a refl h)

  -- A compact table answers every lookup as the list of its entries does, holds the entries that
  -- the list then holds, and stays valid, whatever hash table it is built on.
  pub compact_find_id-Refines :
      (t : CompactHashBiTable tables T) (a : T) (insert : Bool)
      → IsValid t
      → Refines (λ s. s.id2entry) IsValid t a insert (find_id t a insert)
  unfolding find_id
  compact_find_id-Refines t a insert v =
      elim (Option-cases (find_key tables hash t.keys t.id2entry a)) [
        | inl h ↦ rw h (
            find_id_at-Refines t a insert none v
              (find_key-none tables hash (λ a. false) v a refl h))
        | inr (i, h) ↦ rw h (
            find_id_at-Refines t a insert (some i) v
              (find_key-some tables hash (λ a. false) v a i h))
      ]

  pub new-IsValid : IsValid new
  new-IsValid = empty-KeysHold tables hash (λ a. false) tables.with_capacity tables.empty_holds

  pub clear-IsValid : (t : CompactHashBiTable tables T) → IsValid (clear t)
  clear-IsValid t =
      empty-KeysHold tables hash (λ a. false) (tables.clear t.keys) (tables.clear_holds t.keys)

  abbrev pub compact_contract : Contract T
  compact_contract = record {
    State = CompactHashBiTable tables T;
    IsValid = IsValid;
    Admits = λ a. Unit;
    entries = λ t. t.id2entry;
    find_id = find_id;
    find_entry = find_entry;
    size = size;
    find_id_answer = λ t a insert v ok. compact_find_id-Refines t a insert v;
    find_entry_answer = λ t i. refl;
    size_answer = λ t. refl;
  }
