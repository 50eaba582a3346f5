-- ===== src/BiTable/Vector.antt =====
-- VectorBiTable of sicada/src/data_structures/bi_table.rs: a vector of the numbers, indexed by the
-- fingerprint, beside the vector of the entries. The field `fp` never changes and is a parameter. A
-- number is a usize.
use sicada.Prelude.{
  ℕ, ◌+◌, ◌%◌, ◌^◌, ◌<◌, ◌≤◌, ◌≡◌, refl, sym, ◌∙◌, leb, leb_iff, Bool, true, false, Bool-cases,
  Option, none, some, List, [], ◌∷◌, ◌++◌, length, get_elem?, set, inl, inr, if◌then◌else◌, arith,
}
use sicada.BiTable.Spec.{Eq, index_of, Refines}
use sicada.BiTable.Contract.{Contract}
use sicada.BiTable.Slots.{
  resize, slot, length-resize, slot-beyond, Distinguishes, SlotsHold, empty-SlotsHold,
  resize-SlotsHold, set-SlotsHold, SlotsHold-slot,
}

pub record VectorBiTable (T : Type 0) : Type 0 where
  pub fp2id : List (Option ℕ)
  pub id2entry : List T

abbrev pub new : {T : Type 0} → VectorBiTable T
new = record { fp2id = []; id2entry = [] }

abbrev pub find_entry : {T : Type 0} → VectorBiTable T → ℕ → Option T
find_entry t s = get_elem? t.id2entry s

abbrev pub size : {T : Type 0} → VectorBiTable T → ℕ
size t = length t.id2entry

-- The last test of `find_id`, on `self.fp2id[f]`.
abbrev find_id_at :
    {T : Type 0} → VectorBiTable T → ℕ → T → Bool → Option ℕ → Option ℕ × VectorBiTable T
find_id_at t f a insert (some id) = (some id, t)
find_id_at t f a insert none =
    let id = length t.id2entry in
    if insert
    then (some id, record { fp2id = set t.fp2id f (some id); id2entry = t.id2entry ++ a ∷ [] })
    else (none, t)

unfoldable pub find_id :
    {T : Type 0} → (T → ℕ) → VectorBiTable T → T → Bool → Option ℕ × VectorBiTable T
find_id fp t a insert =
    let f = fp a in
    let grown = resize t.fp2id ((f + 1) % 2 ^ 64) none in
    if leb (length t.fp2id) f
    then (if insert
        then find_id_at (record t { fp2id = grown }) f a insert (slot grown f)
        else (none, t))
    else find_id_at t f a insert (slot t.fp2id f)

module _ {T : Type 0} ⦃e : Eq T⦄ (fp : T → ℕ) (Admits : T → Type 0)
    (apart : Distinguishes (λ a. true) fp Admits) where
  abbrev pub IsValid : VectorBiTable T → Type 0
  IsValid t = SlotsHold (λ a. true) fp Admits t.fp2id t.id2entry

  find_id_at-Refines :
      (t : VectorBiTable T) (a : T) (insert : Bool) (o : Option ℕ)
      → IsValid t
      → Admits a
      → fp a < length t.fp2id
      → index_of a t.id2entry ≡ o
      → Refines (λ s. s.id2entry) IsValid t a insert (find_id_at t (fp a) a insert o)
  find_id_at-Refines t a insert (some i) v ok b h = rw h (refl, refl, v)
  find_id_at-Refines t a false none v ok b h = rw h (refl, refl, v)
  find_id_at-Refines t a true none v ok b h =
      rw h
        (refl, refl, set-SlotsHold (λ a. true) fp Admits apart t.fp2id t.id2entry a refl ok b h v)

  slot-Refines :
      (t : VectorBiTable T) (a : T) (insert : Bool)
      → IsValid t
      → Admits a
      → fp a < length t.fp2id
      → Refines
          (λ s. s.id2entry)
          IsValid
          t
          a
          insert
          (find_id_at t (fp a) a insert (slot t.fp2id (fp a)))
  slot-Refines t a insert v ok b =
      rw (SlotsHold-slot (λ a. true) fp Admits t.fp2id t.id2entry v a refl ok)
        (find_id_at-Refines t a insert (index_of a t.id2entry) v ok b refl)

  beyond-Refines :
      (t : VectorBiTable T) (a : T) (insert : Bool)
      → IsValid t
      → Admits a
      → length t.fp2id ≤ fp a
      → Refines
          (λ s. s.id2entry)
          IsValid
          t
          a
          insert
          (if insert
            then find_id_at
                (record t { fp2id = resize t.fp2id ((fp a + 1) % 2 ^ 64) none })
                (fp a)
                a
                insert
                (slot (resize t.fp2id ((fp a + 1) % 2 ^ 64) none) (fp a))
            else (none, t))
  beyond-Refines t a true v ok b =
      let small = apart.small a refl ok in
      let n = (fp a + 1) % 2 ^ 64 in
      let fits : length t.fp2id ≤ n = omega (arith, b, small) in
      slot-Refines (record t { fp2id = resize t.fp2id n none }) a true
        (resize-SlotsHold (λ a. true) fp Admits t.fp2id t.id2entry n fits v) ok
        (omega (arith, small, length-resize t.fp2id n fits))
  beyond-Refines t a false v ok b =
      let missing =
        sym (SlotsHold-slot (λ a. true) fp Admits t.fp2id t.id2entry v a refl ok)
        ∙ slot-beyond t.fp2id (fp a) b in
      rw missing (refl, refl, v)

  -- A table indexed by fingerprint answers every lookup as the list of its entries does, holds the
  -- entries that the list then holds, and stays valid, where the fingerprint tells apart the entries
  -- it admits and is below the largest usize.
  pub vector_find_id-Refines :
      (t : VectorBiTable T) (a : T) (insert : Bool)
      → IsValid t
      → Admits a
      → Refines (λ s. s.id2entry) IsValid t a insert (find_id fp t a insert)
  unfolding find_id
  vector_find_id-Refines t a insert v ok = elim (Bool-cases (leb (length t.fp2id) (fp a))) [
    | inl h ↦ rw h (beyond-Refines t a insert v ok ((leb_iff (length t.fp2id) (fp a)).0 h))
    | inr h ↦ rw h (slot-Refines t a insert v ok (ground arith))
  ]

  pub new-IsValid : IsValid new
  new-IsValid = empty-SlotsHold (λ a. true) fp Admits 0

  abbrev pub vector_contract : Contract T
  vector_contract = record {
    State = VectorBiTable T;
    IsValid = IsValid;
    Admits = Admits;
    entries = λ t. t.id2entry;
    find_id = find_id fp;
    find_entry = find_entry;
    size = size;
    find_id_answer = λ t a insert v ok. vector_find_id-Refines t a insert v ok;
    find_entry_answer = λ t i. refl;
    size_answer = λ t. refl;
  }
