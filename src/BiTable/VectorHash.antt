-- ===== src/BiTable/VectorHash.antt =====
-- VectorHashBiTable of sicada/src/data_structures/bi_table.rs: the entries that the selector picks
-- have their numbers in a vector indexed by fingerprint, the others in a hash table. The fields
-- `selector` and `fp` never change and are parameters. A number is a usize.
use sicada.Prelude.{
  ℕ, ◌+◌, ◌%◌, ◌^◌, ◌<◌, ◌≤◌, ◌≡◌, refl, sym, ◌∙◌, leb, leb_iff, Bool, true, false, Bool-cases,
  Option, Option-cases, none, some, List, [], ◌∷◌, ◌++◌, length, get_elem?, set, replicate, inl,
  inr, if◌then◌else◌, arith,
}
use sicada.BiTable.Spec.{Eq, index_of, Refines}
use sicada.BiTable.Contract.{Contract}
use sicada.BiTable.Keys.{
  HashTable, find_key, insert_key, KeysHold, empty-KeysHold, find_key-some, find_key-none,
  insert_key-KeysHold, push-KeysHold,
}
use sicada.BiTable.Slots.{
  resize, slot, length-resize, slot-beyond, Distinguishes, SlotsHold, empty-SlotsHold,
  resize-SlotsHold, set-SlotsHold, push-SlotsHold, SlotsHold-slot,
}

pub record VectorHashBiTable (tables : HashTable) (T : Type 0) : Type 0 where
  pub id2entry : List T
  pub fp2id : List (Option ℕ)
  pub keys : tables.Table

module _ {T : Type 0} ⦃e : Eq T⦄ (tables : HashTable) (hash : T → ℕ) (selector : T → Bool)
    (fp : T → ℕ) where
  abbrev Table : Type 0
  Table = VectorHashBiTable tables T

  abbrev pub new : ℕ → Table
  new vector_size = record {
    id2entry = [];
    fp2id = replicate vector_size none;
    keys = tables.with_capacity;
  }

  abbrev pub find_entry : Table → ℕ → Option T
  find_entry t s = get_elem? t.id2entry s

  abbrev pub size : Table → ℕ
  size t = length t.id2entry

  -- The last test on `self.fp2id[f]`.
  abbrev find_slot_at : Table → ℕ → T → Bool → Option ℕ → Option ℕ × Table
  find_slot_at t f a insert (some id) = (some id, t)
  find_slot_at t f a insert none =
      let id = length t.id2entry in
      if insert
      then (some id, record t { id2entry = t.id2entry ++ a ∷ []; fp2id = set t.fp2id f (some id) })
      else (none, t)

  -- An entry that the selector picks.
  abbrev pub find_slot : Table → T → Bool → Option ℕ × Table
  find_slot t a insert =
      let f = fp a in
      let grown = resize t.fp2id ((f + 1) % 2 ^ 64) none in
      if leb (length t.fp2id) f
      then (if insert
          then find_slot_at (record t { fp2id = grown }) f a insert (slot grown f)
          else (none, t))
      else find_slot_at t f a insert (slot t.fp2id f)

  -- Any other entry, by what the hash table found.
  abbrev pub find_hashed : Table → T → Bool → Option ℕ → Option ℕ × Table
  find_hashed t a insert (some id) = (some id, t)
  find_hashed t a insert none =
      if insert
      then (
        some (length t.id2entry),
        record t {
          id2entry = t.id2entry ++ a ∷ [];
          keys = insert_key tables hash t.keys t.id2entry a;
        },
      )
      else (none, t)

  unfoldable pub find_id : Table → T → Bool → Option ℕ × Table
  find_id t a insert =
      if selector a
      then find_slot t a insert
      else find_hashed t a insert (find_key tables hash t.keys t.id2entry a)

  module _ (Admits : T → Type 0) (apart : Distinguishes selector fp Admits) where
    abbrev pub IsValid : Table → Type 0
    IsValid t =
        SlotsHold selector fp Admits t.fp2id t.id2entry
        × KeysHold tables hash selector t.keys t.id2entry

    find_slot_at-Refines :
        (t : Table) (a : T) (insert : Bool) (o : Option ℕ)
        → IsValid t
        → selector a ≡ true
        → Admits a
        → fp a < length t.fp2id
        → index_of a t.id2entry ≡ o
        → Refines (λ s. s.id2entry) IsValid t a insert (find_slot_at t (fp a) a insert o)
    find_slot_at-Refines t a insert (some i) v s ok b h = rw h (refl, refl, v)
    find_slot_at-Refines t a false none v s ok b h = rw h (refl, refl, v)
    find_slot_at-Refines t a true none v s ok b h =
        let slots = set-SlotsHold selector fp Admits apart t.fp2id t.id2entry a s ok b h (v.0) in
        rw h (refl, refl, (slots, push-KeysHold tables hash selector (v.1) a s h))

    slot-Refines :
        (t : Table) (a : T) (insert : Bool)
        → IsValid t
        → selector a ≡ true
        → Admits a
        → fp a < length t.fp2id
        → Refines
            (λ s. s.id2entry)
            IsValid
            t
            a
            insert
            (find_slot_at t (fp a) a insert (slot t.fp2id (fp a)))
    slot-Refines t a insert v s ok b =
        rw (SlotsHold-slot selector fp Admits t.fp2id t.id2entry (v.0) a s ok)
          (find_slot_at-Refines t a insert (index_of a t.id2entry) v s ok b refl)

    beyond-Refines :
        (t : Table) (a : T) (insert : Bool)
        → IsValid t
        → selector a ≡ true
        → Admits a
        → length t.fp2id ≤ fp a
        → Refines
            (λ s. s.id2entry)
            IsValid
            t
            a
            insert
            (if insert
              then find_slot_at
                  (record t { fp2id = resize t.fp2id ((fp a + 1) % 2 ^ 64) none })
                  (fp a)
                  a
                  insert
                  (slot (resize t.fp2id ((fp a + 1) % 2 ^ 64) none) (fp a))
              else (none, t))
    beyond-Refines t a true v s ok b =
        let small = apart.small a s ok in
        let n = (fp a + 1) % 2 ^ 64 in
        let fits : length t.fp2id ≤ n = omega (arith, b, small) in
        slot-Refines (record t { fp2id = resize t.fp2id n none }) a true
          (resize-SlotsHold selector fp Admits t.fp2id t.id2entry n fits (v.0), v.1) s ok
          (omega (arith, small, length-resize t.fp2id n fits))
    beyond-Refines t a false v s ok b =
        let missing =
          sym (SlotsHold-slot selector fp Admits t.fp2id t.id2entry (v.0) a s ok)
          ∙ slot-beyond t.fp2id (fp a) b in
        rw missing (refl, refl, v)

    find_slot-Refines :
        (t : Table) (a : T) (insert : Bool)
        → IsValid t
        → selector a ≡ true
        → Admits a
        → Refines (λ s. s.id2entry) IsValid t a insert (find_slot t a insert)
    find_slot-Refines t a insert v s ok = elim (Bool-cases (leb (length t.fp2id) (fp a))) [
      | inl h ↦ rw h (beyond-Refines t a insert v s ok ((leb_iff (length t.fp2id) (fp a)).0 h))
      | inr h ↦ rw h (slot-Refines t a insert v s ok (ground arith))
    ]

    find_hashed-Refines :
        (t : Table) (a : T) (insert : Bool) (o : Option ℕ)
        → IsValid t
        → selector a ≡ false
        → index_of a t.id2entry ≡ o
        → Refines (λ s. s.id2entry) IsValid t a insert (find_hashed t a insert o)
    find_hashed-Refines t a insert (some i) v s h = rw h (refl, refl, v)
    find_hashed-Refines t a false none v s h = rw h (refl, refl, v)
    find_hashed-Refines t a true none v s h =
        let slots = push-SlotsHold selector fp Admits t.fp2id t.id2entry a s h (v.0) in
        rw h (refl, refl, (slots, insert_key-KeysHold tables hash selector (v.1) a s h))

    -- A hybrid table answers every lookup as the list of its entries does, holds the entries that
    -- the list then holds, and stays valid, whichever side the selector puts the entry on, where
    -- the fingerprint tells apart the admitted entries that the selector picks, and is below the
    -- largest usize on them.
    pub vector_hash_find_id-Refines :
        (t : Table) (a : T) (insert : Bool)
        → IsValid t
        → Admits a
        → Refines (λ s. s.id2entry) IsValid t a insert (find_id t a insert)
    unfolding find_id
    vector_hash_find_id-Refines t a insert v ok = elim (Bool-cases (selector a)) [
      | inl s ↦ rw s (find_slot-Refines t a insert v s ok)
      | inr s ↦ rw s (elim (Option-cases (find_key tables hash t.keys t.id2entry a)) [
        | inl h ↦ rw h (
            find_hashed-Refines t a insert none v s
              (find_key-none tables hash selector (v.1) a s h))
        | inr (i, h) ↦ rw h (
            find_hashed-Refines t a insert (some i) v s
              (find_key-some tables hash selector (v.1) a i h))
      ])
    ]

    pub new-IsValid : (vector_size : ℕ) → IsValid (new vector_size)
    new-IsValid n = (
      empty-SlotsHold selector fp Admits n,
      empty-KeysHold tables hash selector tables.with_capacity tables.empty_holds,
    )

    abbrev pub vector_hash_contract : Contract T
    vector_hash_contract = record {
      State = Table;
      IsValid = IsValid;
      Admits = Admits;
      entries = λ t. t.id2entry;
      find_id = find_id;
      find_entry = find_entry;
      size = size;
      find_id_answer = λ t a insert v ok. vector_hash_find_id-Refines t a insert v ok;
      find_entry_answer = λ t i. refl;
      size_answer = λ t. refl;
    }
