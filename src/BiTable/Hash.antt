-- ===== src/BiTable/Hash.antt =====
-- HashBiTable of sicada/src/data_structures/bi_table.rs: a hash map from the entries to their
-- numbers beside the vector of the entries. The map of the standard library is its list of pairs,
-- the latest first. A number is a usize.
use sicada.Prelude.{
  ℕ, ◌≡◌, refl, sym, ap, ◌∙◌, Bool, true, false, Option, none, some, List, [], ◌∷◌, ◌++◌, length,
  get_elem?, if◌then◌else◌,
}
use sicada.BiTable.Spec.{Eq, index_of, Refines, index_of-snoc}
use sicada.BiTable.Contract.{Contract}

pub record HashBiTable (T : Type 0) : Type 0 where
  pub entry2id : List (T × ℕ)
  pub id2entry : List T

module _ {T : Type 0} ⦃e : Eq T⦄ where
  abbrev pub lookup : T → List (T × ℕ) → Option ℕ
  lookup a [] = none
  lookup a (p ∷ ps) = if e.beq (p.0) a then some (p.1) else lookup a ps

  abbrev pub new : HashBiTable T
  new = record { entry2id = []; id2entry = [] }

  abbrev find_id_at : HashBiTable T → T → Bool → Option ℕ → Option ℕ × HashBiTable T
  find_id_at t a insert (some id) = (some id, t)
  find_id_at t a insert none =
      let id = length (t.id2entry) in
      if insert
      then (some id, record { entry2id = (a, id) ∷ t.entry2id; id2entry = t.id2entry ++ a ∷ [] })
      else (none, t)

  unfoldable pub find_id : HashBiTable T → T → Bool → Option ℕ × HashBiTable T
  find_id t a insert = find_id_at t a insert (lookup a (t.entry2id))

  abbrev pub find_entry : HashBiTable T → ℕ → Option T
  find_entry t s = get_elem? (t.id2entry) s

  abbrev pub size : HashBiTable T → ℕ
  size t = length (t.id2entry)

  abbrev pub clear : HashBiTable T → HashBiTable T
  clear t = record { entry2id = []; id2entry = [] }

  -- The map knows the place of each entry.
  unfoldable pub IsValid : HashBiTable T → Type 0
  IsValid t = (a : T) → lookup a (t.entry2id) ≡ index_of a (t.id2entry)

  find_id_at-Refines :
      (t : HashBiTable T) (a : T) (insert : Bool) (o : Option ℕ)
      → IsValid t
      → index_of a t.id2entry ≡ o
      → Refines (λ s. s.id2entry) IsValid t a insert (find_id_at t a insert o)
  unfolding IsValid
  find_id_at-Refines t a insert (some i) v h = rw h (refl, refl, v)
  find_id_at-Refines t a false none v h = rw h (refl, refl, v)
  find_id_at-Refines t a true none v h =
      let n = length t.id2entry in
      rw h (
        refl,
        refl,
        λ b. ap (λ o. if e.beq a b then some n else o) (v b) ∙ sym (index_of-snoc a b t.id2entry h),
      )

  -- A table kept in a hash map answers every lookup as the list of its entries does, holds the
  -- entries that the list then holds, and stays valid.
  pub hash_find_id-Refines :
      (t : HashBiTable T) (a : T) (insert : Bool)
      → IsValid t
      → Refines (λ s. s.id2entry) IsValid t a insert (find_id t a insert)
  unfolding find_id IsValid
  hash_find_id-Refines t a insert v =
      rw (v a) (find_id_at-Refines t a insert (index_of a t.id2entry) v refl)

  pub clear-IsValid : (t : HashBiTable T) → IsValid (clear t)
  unfolding IsValid
  clear-IsValid t a = refl

  abbrev pub hash_contract : Contract T
  hash_contract = record {
    State = HashBiTable T;
    IsValid = IsValid;
    Admits = λ a. Unit;
    entries = λ t. t.id2entry;
    find_id = find_id;
    find_entry = find_entry;
    size = size;
    find_id_answer = λ t a insert v ok. hash_find_id-Refines t a insert v;
    find_entry_answer = λ t i. refl;
    size_answer = λ t. refl;
  }

pub new-IsValid : (T : Type 0) ⦃e : Eq T⦄ → IsValid {T = T} new
unfolding IsValid
new-IsValid T a = refl
