-- ===== src/BiTable/Contract.antt =====
-- The contract that the tables of sicada/src/data_structures/bi_table.rs share, each a refinement of
-- the list of its entries, and what a client may build on it.
use sicada.Prelude.{
  ℕ, ◌≡◌, refl, sym, ap, ◌∙◌, ◌↔◌, Bool, true, false, Option, none, some, List, [], ◌∷◌, length,
  get_elem?, All,
}
use mathlib.Core.Option.{some-injective}
use sicada.BiTable.Spec.{
  Eq, index_of, found, spec_find_id, Refines, index_of-get, index_of-snoc, index_of-append_old,
  beq_self,
}

pub record Contract (T : Type 0) ⦃e : Eq T⦄ : Type 1 where
  pub State : Type 0
  pub IsValid : State → Type 0
  -- The entries that the table may be given.
  pub Admits : T → Type 0
  pub entries : State → List T
  pub find_id : State → T → Bool → Option ℕ × State
  pub find_entry : State → ℕ → Option T
  pub size : State → ℕ
  pub find_id_answer :
      (t : State) (a : T) (insert : Bool)
      → IsValid t
      → Admits a
      → Refines entries IsValid t a insert (find_id t a insert)
  pub find_entry_answer : (t : State) (i : ℕ) → find_entry t i ≡ get_elem? (entries t) i
  pub size_answer : (t : State) → size t ≡ length (entries t)

module _ {T : Type 0} ⦃e : Eq T⦄ where
  spec_known :
      (xs : List T) (a : T) (insert : Bool) (i : ℕ)
      → index_of a xs ≡ some i
      → (spec_find_id xs a insert).0 ≡ some i
  spec_known xs a insert i h = rw h refl

  found_keeps :
      (xs : List T) (a b : T) (insert : Bool) (i : ℕ) (o : Option ℕ)
      → index_of b xs ≡ some i
      → index_of b ((found a insert xs o).1) ≡ some i
  found_keeps xs a b insert i (some j) h = h
  found_keeps xs a b true i none h = index_of-append_old a b xs i h
  found_keeps xs a b false i none h = h

  found_inserts :
      (xs : List T) (a : T) (o : Option ℕ)
      → index_of a xs ≡ o
      → (i : ℕ) × ((found a true xs o).0 ≡ some i) × (index_of a ((found a true xs o).1) ≡ some i)
  found_inserts xs a (some i) h = (i, refl, h)
  found_inserts xs a none h =
      let step = index_of-snoc a a xs h in (length xs, refl, (rw (beq_self a) at step))

  module _ (c : Contract T) where
    -- One lookup after another, each with its permission to insert.
    abbrev pub find_all : c.State → List (T × Bool) → c.State
    find_all t [] = t
    find_all t (q ∷ qs) = find_all ((c.find_id t (q.0) (q.1)).1) qs

    find_all_keeps :
        (qs : List (T × Bool)) (t : c.State) (a : T) (i : ℕ)
        → c.IsValid t
        → All (λ q. c.Admits (q.0)) qs
        → index_of a (c.entries t) ≡ some i
        → (index_of a (c.entries (find_all t qs)) ≡ some i) × c.IsValid (find_all t qs)
    find_all_keeps [] t a i v all h = (h, v)
    find_all_keeps (q ∷ qs) t a i v all h =
        let (_, after, valid) = c.find_id_answer t (q.0) (q.1) v (all.0) in
        let xs = c.entries t in
        find_all_keeps qs ((c.find_id t (q.0) (q.1)).1) a i valid (all.1)
          (ap (index_of a) after ∙ found_keeps xs (q.0) a (q.1) i (index_of (q.0) xs) h)

    -- A lookup that may insert gives the place of the entry.
    pub find_id-index :
        (t : c.State) (a : T)
        → c.IsValid t
        → c.Admits a
        → (i : ℕ) × ((c.find_id t a true).0 ≡ some i)
          × (index_of a (c.entries ((c.find_id t a true).1)) ≡ some i)
          × c.IsValid ((c.find_id t a true).1)
    find_id-index t a v ok =
        let (answer, after, valid) = c.find_id_answer t a true v ok in
        let (i, new, old) = found_inserts (c.entries t) a (index_of a (c.entries t)) refl in
        (i, answer ∙ new, ap (index_of a) after ∙ old, valid)

    -- An entry that a table has numbered keeps its number through every later lookup, finds it again
    -- with or without the permission to insert, and is what the number stands for.
    pub find_id-round_trip :
        (t : c.State) (a : T) (qs : List (T × Bool))
        → c.IsValid t
        → c.Admits a
        → All (λ q. c.Admits (q.0)) qs
        → (i : ℕ) × ((c.find_id t a true).0 ≡ some i)
          × (c.find_entry (find_all ((c.find_id t a true).1) qs) i ≡ some a)
          × ((insert : Bool)
              → (c.find_id (find_all ((c.find_id t a true).1) qs) a insert).0 ≡ some i)
    find_id-round_trip t a qs v ok all =
        let (i, answer, index, valid) = find_id-index t a v ok in
        let (kept, valid') = find_all_keeps qs ((c.find_id t a true).1) a i valid all index in
        let t' = find_all ((c.find_id t a true).1) qs in
        (
          i,
          answer,
          c.find_entry_answer t' i ∙ index_of-get a (c.entries t') i kept,
          λ insert.
              (c.find_id_answer t' a insert valid' ok).0
              ∙ spec_known (c.entries t') a insert i kept,
        )

    -- A lookup that may insert always has an answer, and two entries have the same number exactly
    -- when they are the same entry, whatever lookups come between.
    pub find_id-bijective :
        (t : c.State) (a b : T) (qs : List (T × Bool))
        → c.IsValid t
        → c.Admits a
        → c.Admits b
        → All (λ q. c.Admits (q.0)) qs
        → (i : ℕ) × (j : ℕ) × ((c.find_id t a true).0 ≡ some i)
          × ((c.find_id (find_all ((c.find_id t a true).1) qs) b true).0 ≡ some j)
          × ((i ≡ j) ↔ (a ≡ b))
    find_id-bijective t a b qs v oka okb all =
        let (i, first, index, valid) = find_id-index t a v oka in
        let (kept, valid') = find_all_keeps qs ((c.find_id t a true).1) a i valid all index in
        let t' = find_all ((c.find_id t a true).1) qs in
        let (j, second, index_b, _) = find_id-index t' b valid' okb in
        let index_a = (find_all_keeps ((b, true) ∷ []) t' a i valid' (okb, tt) kept).0 in
        let xs = c.entries ((c.find_id t' b true).1) in
        (
          i,
          j,
          first,
          second,
          (
            λ ij. some-injective a b (
                sym (index_of-get a xs i index_a)
                ∙ ap (get_elem? xs) ij
                ∙ index_of-get b xs j index_b),
            λ ab. some-injective i j (sym index_a ∙ ap (λ x. index_of x xs) ab ∙ index_b),
          ),
        )
