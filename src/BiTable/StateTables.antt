-- ===== src/BiTable/StateTables.antt =====
-- The state tables of sicada/src/data_structures/state_table.rs that composition numbers its states
-- with. Each wraps a table of bi_table.rs: GenericComposeStateTable the compact one,
-- ProductComposeStateTable the one indexed by fingerprint, StringDetComposeStateTable and
-- DetStringComposeStateTable that one by the first or the second state alone.
use sicada.Prelude.{
  ℕ, arith, ◌*◌, ◌<◌, ◌^◌, ◌≡◌, refl, ap, ◌∙◌, ◌↔◌, Bool, true, Option, none, some, List, [], ◌∷◌,
  map, ◌>>=◌, All,
}
use mathlib.Core.Option.{some-injective}
use sicada.BiTable.Spec.{Eq}
use sicada.BiTable.Contract.{
  Contract, find_all, find_id-bijective, find_id-index, find_id-round_trip,
}
use sicada.BiTable.Keys.{HashTable}
use sicada.BiTable.Compact.{compact_contract}
use sicada.BiTable.Slots.{Distinguishes}
use sicada.BiTable.Vector.{vector_contract}
use sicada.Arc.{no_state}
use sicada.BiTable.Erasable
use sicada.BiTable.Fingerprint.{
  FilterState, DefaultComposeStateTuple, fingerprint, fingerprint1, fingerprint2, made, InRange,
  fingerprint-injective, fingerprint-lt, tuple_ext, tuple_eq,
}

-- `unwrap` of an answer: `none` is the panic.
abbrev pub unwrap : {A B : Type 0} → Option A × B → Option (A × B)
unwrap (some a, t) = some (a, t)
unwrap (none, t) = none

unwrap-some : {A B : Type 0} (r : Option A × B) (a : A) → r.0 ≡ some a → unwrap r ≡ some (a, r.1)
unwrap-some (none, t) a h = cc
unwrap-some (some b, t) a h = ap (λ x. some (x, t)) (some-injective b a h)

module _ {T : Type 0} ⦃e : Eq T⦄ (c : Contract T) where
  unfoldable pub find_state : c.State → T → Option (ℕ × c.State)
  find_state t tuple = unwrap (c.find_id t tuple true)

  -- The entry of a state; `none` is the panic.
  abbrev pub tuple : c.State → ℕ → Option T
  tuple t s = c.find_entry t s

  abbrev pub size : c.State → ℕ
  size t = c.size t

  -- One state after another.
  unfoldable pub find_states : c.State → List T → Option c.State
  find_states t [] = some t
  find_states t (a ∷ qs) = find_state t a >>= λ r. find_states (r.1) qs

  find_state-answer :
      (t : c.State) (a : T) (i : ℕ)
      → (c.find_id t a true).0 ≡ some i
      → find_state t a ≡ some (i, (c.find_id t a true).1)
  unfolding find_state
  find_state-answer t a i h = unwrap-some (c.find_id t a true) i h

  with_leave : List T → List (T × Bool)
  with_leave qs = map (λ q. (q, true)) qs

  with_leave-All : (qs : List T) → All c.Admits qs → All (λ q. c.Admits (q.0)) (with_leave qs)
  unfolding with_leave
  with_leave-All [] all = tt
  with_leave-All (q ∷ qs) all = (all.0, with_leave-All qs (all.1))

  find_states-answer :
      (qs : List T) (t : c.State)
      → c.IsValid t
      → All c.Admits qs
      → find_states t qs ≡ some (find_all c t (with_leave qs))
  unfolding find_states with_leave
  find_states-answer [] t v all = refl
  find_states-answer (q ∷ qs) t v all =
      let (i, answer, _, valid) = find_id-index c t q v (all.0) in
      ap (λ m. m >>= λ r. find_states (r.1) qs) (find_state-answer t q i answer)
      ∙ find_states-answer qs ((c.find_id t q true).1) valid (all.1)

  -- A state table never panics on the tuples it admits, and numbers them one to one: two tuples have
  -- the same state exactly when they are the same, whatever states are found in between.
  pub find_state-bijective :
      (t : c.State) (a b : T) (qs : List T)
      → c.IsValid t
      → c.Admits a
      → c.Admits b
      → All c.Admits qs
      → (i : ℕ) × (j : ℕ) × (t1 : c.State) × (t2 : c.State) × (t3 : c.State) × (find_state t a
          ≡ some (i, t1))
        × (find_states t1 qs ≡ some t2)
        × (find_state t2 b ≡ some (j, t3))
        × ((i ≡ j) ↔ (a ≡ b))
  find_state-bijective t a b qs v oka okb all =
      let (_, _, _, valid) = find_id-index c t a v oka in
      let (i, j, first, second, same) =
        find_id-bijective c t a b (with_leave qs) v oka okb (with_leave-All qs all) in
      let t1 = (c.find_id t a true).1 in
      let t2 = find_all c t1 (with_leave qs) in
      (
        i,
        j,
        t1,
        t2,
        (c.find_id t2 b true).1,
        find_state-answer t a i first,
        find_states-answer qs t1 valid all,
        find_state-answer t2 b j second,
        same,
      )

  -- The state of a tuple leads back to it.
  pub find_state-tuple :
      (t : c.State) (a : T) (qs : List T)
      → c.IsValid t
      → c.Admits a
      → All c.Admits qs
      → (i : ℕ) × (t1 : c.State) × (t2 : c.State) × (find_state t a ≡ some (i, t1))
        × (find_states t1 qs ≡ some t2)
        × (tuple t2 i ≡ some a)
        × ((find_state t2 a >>= λ r. some (r.0)) ≡ some i)
  find_state-tuple t a qs v ok all =
      let (_, _, _, valid) = find_id-index c t a v ok in
      let (i, first, back, again) =
        find_id-round_trip c t a (with_leave qs) v ok (with_leave-All qs all) in
      let t1 = (c.find_id t a true).1 in
      let t2 = find_all c t1 (with_leave qs) in
      (
        i,
        t1,
        t2,
        find_state-answer t a i first,
        find_states-answer qs t1 valid all,
        back,
        ap (λ m. m >>= λ r. some (r.0)) (find_state-answer t2 a i (again true)),
      )

module _ {S : Type 0} ⦃e : Eq S⦄ (tables : HashTable) (hash : DefaultComposeStateTuple S → ℕ) where
  abbrev pub generic_table : Contract (DefaultComposeStateTuple S)
  generic_table = compact_contract tables hash

module _ {S : Type 0} ⦃e : Eq S⦄ ⦃f : FilterState S⦄
    (apart : (a b : S) → f.hash_value a ≡ f.hash_value b → a ≡ b) (limit n1 n2 : ℕ)
    (fits : limit * (n2 * n1) < 2 ^ 64) where
  pub product_apart :
      Distinguishes (λ t. true) (fingerprint {S = S} (made n1 n2)) (InRange limit n1 n2)
  product_apart = record {
    small = λ a _ inside. omega (arith, fits, fingerprint-lt limit n1 n2 a fits inside);
    apart = λ a b _ _ ina inb h.
        let (h1, h2, h3) = fingerprint-injective limit n1 n2 a b fits ina inb h in
        tuple_ext a b h1 h2 (apart a.fs b.fs h3);
  }

  -- For inputs of `n1` and `n2` states and filter states whose hashes are below the limit.
  abbrev pub product_table : Contract (DefaultComposeStateTuple S)
  product_table = vector_contract (fingerprint (made n1 n2)) (InRange limit n1 n2) product_apart

-- Where the first state, or the second, alone determines a tuple. The constructors also check the
-- properties of the inputs that make it so, and note an error where they fail.
module _ {S : Type 0} ⦃e : Eq S⦄ (Admits : DefaultComposeStateTuple S → Type 0) where
  abbrev pub string_det_table :
      Distinguishes (λ t. true) (fingerprint1 {S = S}) Admits
      → Contract (DefaultComposeStateTuple S)
  string_det_table apart = vector_contract fingerprint1 Admits apart

  abbrev pub det_string_table :
      Distinguishes (λ t. true) (fingerprint2 {S = S}) Admits
      → Contract (DefaultComposeStateTuple S)
  det_string_table apart = vector_contract fingerprint2 Admits apart

-- ErasableComposeStateTable: a slot that holds nothing holds the tuple of no states.
module _ {S : Type 0} ⦃e : Eq S⦄ ⦃f : FilterState S⦄ where
  abbrev pub no_states : DefaultComposeStateTuple S
  no_states = record { state_id1 = no_state; state_id2 = no_state; fs = f.no_state }

  abbrev pub erasable_table : Erasable.ErasableBiTable (DefaultComposeStateTuple S)
  erasable_table = Erasable.new no_states

  unfoldable pub erasable_find_state :
      Erasable.ErasableBiTable (DefaultComposeStateTuple S)
      → DefaultComposeStateTuple S
      → Option (ℕ × Erasable.ErasableBiTable (DefaultComposeStateTuple S))
  erasable_find_state t a = unwrap (Erasable.find_id t a true)
