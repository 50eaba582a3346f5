-- ===== src/BiTable/Erasable.antt =====
-- ErasableBiTable of sicada/src/data_structures/bi_table.rs: the entries from `first` on, of which
-- any can be erased. The map of the standard library is its list of pairs, the latest first. A number
-- is a usize.
pub mod Find
pub mod Erase
use sicada.Prelude.{
  ℕ, zero, suc, ◌+◌, ◌-◌, ◌<◌, ◌≤◌, ◌≡◌, ◌≢◌, refl, sym, ap, ◌∙◌, ◌↔◌, ◌⊎◌, leb, ltb, ltb_iff,
  leb_iff, Bool, true, false, Bool-cases, ◌&&◌, Option, Option-cases, none, some, List, [], ◌∷◌,
  ◌++◌, length, get_elem?, set, inl, inr, if◌then◌else◌, arith, get_elem?-set_ne,
  get_elem?-set_cases, get_elem?-lt, get_elem?-snoc_cases, get_elem?-append_left,
  get_elem?-snoc_self, length-append, length-set,
}
use mathlib.Core.Option.{some-injective}
use sicada.BiTable.Spec.{Eq, beq_self}
use sicada.BiTable.Hash.{lookup}

pub record ErasableBiTable (T : Type 0) : Type 0 where
  pub entry2id : List (T × ℕ)
  pub id2entry : List T
  pub empty_entry : T
  pub first : ℕ

module _ {T : Type 0} ⦃e : Eq T⦄ where
  -- `remove` of the map.
  abbrev pub remove : T → List (T × ℕ) → List (T × ℕ)
  remove a [] = []
  remove a (p ∷ ps) = if e.beq (p.0) a then remove a ps else p ∷ remove a ps

  abbrev pub new : T → ErasableBiTable T
  new empty_entry = record { entry2id = []; id2entry = []; empty_entry = empty_entry; first = 0 }

  abbrev pub find_id_at : ErasableBiTable T → T → Bool → Option ℕ → Option ℕ × ErasableBiTable T
  find_id_at t a insert (some id) = (some id, t)
  find_id_at t a insert none =
      let id = length t.id2entry + t.first in
      if insert
      then (some id, record t { entry2id = (a, id) ∷ t.entry2id; id2entry = t.id2entry ++ a ∷ [] })
      else (none, t)

  unfoldable pub find_id : ErasableBiTable T → T → Bool → Option ℕ × ErasableBiTable T
  find_id t a insert = find_id_at t a insert (lookup a t.entry2id)

  unfoldable pub find_entry : ErasableBiTable T → ℕ → Option T
  find_entry t s = if leb t.first s then get_elem? t.id2entry (s - t.first) else none

  abbrev pub size : ErasableBiTable T → ℕ
  size t = length t.id2entry

  -- The loop of `erase`: empty entries leave at the front.
  abbrev pub pop_empty : T → List T → ℕ → List T × ℕ
  pop_empty empty [] first = ([], first)
  pop_empty empty (x ∷ xs) first =
      let rest = pop_empty empty xs (first + 1) in if e.beq x empty then rest else (x ∷ xs, first)

  -- The body of `erase` on the entry at `idx`.
  abbrev pub erase_at : ErasableBiTable T → ℕ → Option T → ErasableBiTable T
  erase_at t idx none = t
  erase_at t idx (some x) =
      let popped = pop_empty t.empty_entry (set t.id2entry idx t.empty_entry) t.first in
      record t { entry2id = remove x t.entry2id; id2entry = popped.0; first = popped.1 }

  unfoldable pub erase : ErasableBiTable T → ℕ → ErasableBiTable T
  erase t s =
      if leb t.first s && ltb (s - t.first) (length t.id2entry)
      then erase_at t (s - t.first) (get_elem? t.id2entry (s - t.first))
      else t

  -- `b` stands at `s` in the entries from `first` on.
  abbrev pub At : List T → ℕ → ℕ → T → Type 0
  At xs first s b = (k : ℕ) × (s ≡ first + k) × (get_elem? xs k ≡ some b)

  -- The map knows the places of the entries, the empty one aside.
  pub record IsValid (t : ErasableBiTable T) : Type 0 where
    pub known :
        (a : T) (s : ℕ) → a ≢ t.empty_entry → lookup a t.entry2id ≡ some s → find_entry t s ≡ some a
    pub live :
        (a : T) (s : ℕ) → a ≢ t.empty_entry → find_entry t s ≡ some a → lookup a t.entry2id ≡ some s

  pub new-IsValid : (empty : T) → IsValid (new empty)
  unfolding find_entry
  new-IsValid empty = record { known = λ a s ne h. cc; live = λ a s ne h. ground arith }

  pub find_entry-At :
      (t : ErasableBiTable T) (s : ℕ) (b : T) → find_entry t s ≡ some b → At t.id2entry t.first s b
  unfolding find_entry
  find_entry-At t s b h = elim (Bool-cases (leb t.first s)) [
    | inl k ↦
        let le : t.first ≤ s = (leb_iff t.first s).0 k in
        (s - t.first, omega (arith, le), (rw k at h))
    | inr k ↦ let no : none ≡ some b = rw k at h in cc
  ]

  pub At-find_entry :
      (t : ErasableBiTable T) (s : ℕ) (b : T) → At t.id2entry t.first s b → find_entry t s ≡ some b
  unfolding find_entry
  At-find_entry t s b (k, place, here) =
      let le : leb t.first s ≡ true = (leb_iff t.first s).1 (omega (arith, place)) in
      let back : s - t.first ≡ k = omega (arith, place) in rw (le, back) here
