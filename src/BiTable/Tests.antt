-- ===== src/BiTable/Tests.antt =====
-- Runs of the tables of bi_table.rs and state_table.rs on small entries, and instances of the
-- theorems.
use sicada.Prelude.{
  ℕ, ◌*◌, ◌%◌, ◌/◌, ◌^◌, ◌<◌, ◌≡◌, refl, sym, ap, ◌∙◌, ◌↔◌, ◌⊎◌, ◌==◌, ◌&&◌, ==_iff, Bool, true,
  false, Bool-cases, Option, none, some, List, [], ◌∷◌, inl, inr, if◌then◌else◌, ◌>>=◌, arith,
}
use mathlib.Core.List.{Memᴰ}
use mathlib.Core.Option.{some-injective}
use sicada.BiTable.Spec.{Eq, Refines}
use sicada.BiTable.Contract.{Contract}
use sicada.BiTable.Keys.{HashTable}
use sicada.BiTable.Compact
use sicada.BiTable.Vector
use sicada.BiTable.Vector.{vector_contract}
use sicada.BiTable.VectorHash
use sicada.BiTable.Slots.{Distinguishes}
use sicada.BiTable.Erasable
use sicada.BiTable.Erasable.Find.{Finds, erasable_find_id-Finds}
use sicada.BiTable.Erasable.Erase.{Erases, erase-Erases}
use sicada.BiTable.Fingerprint.{
  FilterState, DefaultComposeStateTuple, fingerprint, made, InRange, fingerprint-injective,
  tuple_eq, same_tuple,
}
use sicada.BiTable.StateTables.{
  product_table, product_apart, find_state, find_states, tuple, find_state-bijective,
  find_state-tuple, erasable_table, erasable_find_state,
}

instance numbers : Eq ℕ
numbers = record { beq = ◌==◌; beq_iff = ==_iff }

-- A hash table that is the list of what was put in.
abbrev find_listed : List (ℕ × ℕ) → ℕ → (ℕ → Bool) → Option ℕ
find_listed [] h eq = none
find_listed (p ∷ ps) h eq = if p.0 == h && eq (p.1) then some (p.1) else find_listed ps h eq

both_true : (a b : Bool) → (a && b) ≡ true → b ≡ true
both_true true b h = h
both_true false b h = cc

listed_some :
    (ps : List (ℕ × ℕ)) (h : ℕ) (eq : ℕ → Bool) (i : ℕ)
    → find_listed ps h eq ≡ some i
    → ((k : ℕ) × Memᴰ (k, i) ps) × (eq i ≡ true)
listed_some [] h eq i q = cc
listed_some (p ∷ ps) h eq i q = elim (Bool-cases (p.0 == h && eq (p.1))) [
  | inl k ↦
      let here = some-injective (p.1) i (rw k at q) in
      (
        (p.0, Memᴰ.head (ap (λ n. (p.0, n)) (sym here))),
        ap eq (sym here) ∙ both_true (p.0 == h) (eq (p.1)) k,
      )
  | inr k ↦
      let ((n, there), passes) = listed_some ps h eq i (rw k at q) in ((n, Memᴰ.tail there), passes)
]

listed_none :
    (ps : List (ℕ × ℕ)) (h : ℕ) (eq : ℕ → Bool) (i : ℕ)
    → find_listed ps h eq ≡ none
    → Memᴰ (h, i) ps
    → eq i ≡ false
listed_none [] h eq i q m = elim m [ ]
listed_none (p ∷ ps) h eq i q (Memᴰ.head same) = elim (Bool-cases (eq i)) [
  | inl passes ↦
      let test : (h == h && eq i) ≡ true = rw ((==_iff h h).1 refl, passes) refl in
      let k : (p.0 == h && eq (p.1)) ≡ true = ap (λ z. z.0 == h && eq (z.1)) (sym same) ∙ test in
      let no : some (p.1) ≡ none = rw k at q in cc
  | inr fails ↦ fails
]
listed_none (p ∷ ps) h eq i q (Memᴰ.tail m) = elim (Bool-cases (p.0 == h && eq (p.1))) [
  | inl k ↦ let no : some (p.1) ≡ none = rw k at q in cc
  | inr k ↦ listed_none ps h eq i (rw k at q) m
]

listed_put :
    (ps : List (ℕ × ℕ)) (h i k j : ℕ)
    → Memᴰ (k, j) ((h, i) ∷ ps)
    → Memᴰ (k, j) ps ⊎ ((k ≡ h) × (j ≡ i))
listed_put ps h i k j (Memᴰ.head e) = inr (ap (λ z. z.0) e, ap (λ z. z.1) e)
listed_put ps h i k j (Memᴰ.tail m) = inl m

listed_got :
    (ps : List (ℕ × ℕ)) (h i k j : ℕ)
    → Memᴰ (k, j) ps ⊎ ((k ≡ h) × (j ≡ i))
    → Memᴰ (k, j) ((h, i) ∷ ps)
listed_got ps h i k j (inl m) = Memᴰ.tail m
listed_got ps h i k j (inr (kh, ji)) = Memᴰ.head (λ n. (kh n, ji n))

abbrev listed : HashTable
listed = record {
  Table = List (ℕ × ℕ);
  with_capacity = [];
  find = find_listed;
  insert_unique = λ ps h i hasher. (h, i) ∷ ps;
  clear = λ ps. [];
  Holds = λ ps k i. Memᴰ (k, i) ps;
  find_some = listed_some;
  find_none = listed_none;
  insert_holds = λ ps h i hasher agrees same k j. (listed_put ps h i k j, listed_got ps h i k j);
  empty_holds = λ k j m. elim m [ ];
  clear_holds = λ ps k j m. elim m [ ];
}

-- Entries with the same parity collide.
abbrev parity : ℕ → ℕ
parity a = a % 2

abbrev compact_7 : Compact.CompactHashBiTable listed ℕ
compact_7 = (Compact.find_id listed parity (Compact.new listed parity) 7 true).1

compact_7-IsValid : Compact.IsValid listed parity compact_7
compact_7-IsValid =
    let (_, _, valid) =
      Compact.compact_find_id-Refines listed parity (Compact.new listed parity) 7 true
        (Compact.new-IsValid listed parity) in
    valid

compact_9 : (Compact.find_id listed parity compact_7 9 true).0 ≡ some 1
unfolding Compact.find_id numbers
compact_9 = refl

compact_find_id-Refines_example :
    Refines
      (λ s. s.id2entry)
      (Compact.IsValid listed parity)
      compact_7
      9
      true
      (Compact.find_id listed parity compact_7 9 true)
compact_find_id-Refines_example =
    Compact.compact_find_id-Refines listed parity compact_7 9 true compact_7-IsValid

-- The even numbers have slots, at their halves.
abbrev is_even : ℕ → Bool
is_even a = a % 2 == 0

abbrev half : ℕ → ℕ
half a = a / 2

halves_apart : Distinguishes is_even half (λ a. a < 100)
halves_apart = record {
  small = λ a _ below. omega (arith, below);
  apart = λ a b ea eb _ _ h. ground arith;
}

abbrev hybrid : VectorHash.VectorHashBiTable listed ℕ
hybrid = VectorHash.new listed parity is_even half 2

vector_hash_find_id-Refines_example :
    Refines
      (λ s. s.id2entry)
      (VectorHash.IsValid listed parity is_even half (λ a. a < 100) halves_apart)
      hybrid
      8
      true
      (VectorHash.find_id listed parity is_even half hybrid 8 true)
vector_hash_find_id-Refines_example =
    VectorHash.vector_hash_find_id-Refines listed parity is_even half (λ a. a < 100) halves_apart
      hybrid 8 true
      (VectorHash.new-IsValid listed parity is_even half (λ a. a < 100) halves_apart 2)
      (omega arith)

-- Every number has a slot, at the number itself.
abbrev itself : ℕ → ℕ
itself a = a

selves_apart : Distinguishes (λ a. true) itself (λ a. a < 100)
selves_apart = record { small = λ a _ below. omega (arith, below); apart = λ a b _ _ _ _ h. h }

vector_find_id-Refines_example :
    Refines
      (λ s. s.id2entry)
      (Vector.IsValid itself (λ a. a < 100) selves_apart)
      Vector.new
      8
      true
      (Vector.find_id itself Vector.new 8 true)
vector_find_id-Refines_example =
    Vector.vector_find_id-Refines itself (λ a. a < 100) selves_apart Vector.new 8 true
      (Vector.new-IsValid itself (λ a. a < 100) selves_apart) (omega arith)

-- Filter states that are small numbers.
instance small : FilterState ℕ
small = record { no_state = 255; hash_value = λ s. s }

abbrev state : ℕ → ℕ → ℕ → DefaultComposeStateTuple ℕ
state s1 s2 q = record { state_id1 = s1; state_id2 = s2; fs = q }

fits : 3 * (4 * 4) < 2 ^ 64
fits = omega arith

last_fingerprint : fingerprint (made 4 4) (state 3 3 2) ≡ 47
unfolding fingerprint small
last_fingerprint = refl

fingerprint-injective_example :
    ((state 1 2 1).state_id1 ≡ (state 1 2 1).state_id1)
    × ((state 1 2 1).state_id2 ≡ (state 1 2 1).state_id2)
    × (small.hash_value 1 ≡ small.hash_value 1)
unfolding small
fingerprint-injective_example =
    fingerprint-injective 3 4 4 (state 1 2 1) (state 1 2 1) fits
      (omega arith, omega arith, omega arith) (omega arith, omega arith, omega arith) refl

small_apart : (a b : ℕ) → small.hash_value a ≡ small.hash_value b → a ≡ b
unfolding small
small_apart a b h = h

abbrev states : Contract (DefaultComposeStateTuple ℕ)
states = product_table small_apart 3 4 4 fits

states-IsValid : states.IsValid Vector.new
states-IsValid =
    Vector.new-IsValid (fingerprint (made 4 4)) (InRange 3 4 4)
      (product_apart small_apart 3 4 4 fits)

ranges : (s1 s2 q : ℕ) → s1 < 4 → s2 < 4 → q < 3 → InRange 3 4 4 (state s1 s2 q)
unfolding small
ranges s1 s2 q h1 h2 h3 = (h1, h2, h3)

find_state-bijective_example :
    (i : ℕ) × (j : ℕ) × (t1 : states.State) × (t2 : states.State) × (t3 : states.State)
    × (find_state states Vector.new (state 1 2 0) ≡ some (i, t1))
    × (find_states states t1 (state 3 3 2 ∷ []) ≡ some t2)
    × (find_state states t2 (state 1 2 1) ≡ some (j, t3))
    × ((i ≡ j) ↔ (state 1 2 0 ≡ state 1 2 1))
find_state-bijective_example =
    find_state-bijective states Vector.new (state 1 2 0) (state 1 2 1) (state 3 3 2 ∷ [])
      states-IsValid (ranges 1 2 0 (omega arith) (omega arith) (omega arith))
      (ranges 1 2 1 (omega arith) (omega arith) (omega arith))
      (ranges 3 3 2 (omega arith) (omega arith) (omega arith), tt)

find_state-tuple_example :
    (i : ℕ) × (t1 : states.State) × (t2 : states.State) × (find_state states Vector.new
        (state 1 2 0)
      ≡ some (i, t1))
    × (find_states states t1 (state 3 3 2 ∷ []) ≡ some t2)
    × (tuple states t2 i ≡ some (state 1 2 0))
    × ((find_state states t2 (state 1 2 0) >>= λ r. some (r.0)) ≡ some i)
find_state-tuple_example =
    find_state-tuple states Vector.new (state 1 2 0) (state 3 3 2 ∷ []) states-IsValid
      (ranges 1 2 0 (omega arith) (omega arith) (omega arith))
      (ranges 3 3 2 (omega arith) (omega arith) (omega arith), tt)

-- Numbers other than zero, which stands for an erased entry.
abbrev with_5 : Erasable.ErasableBiTable ℕ
with_5 = (Erasable.find_id (Erasable.new 0) 5 true).1

with_5-IsValid : Erasable.IsValid with_5
with_5-IsValid =
    (erasable_find_id-Finds (Erasable.new 0) 5 true (Erasable.new-IsValid 0)
      (λ h. omega (arith, h))).valid

with_5-empty : with_5.empty_entry ≡ 0
unfolding Erasable.find_id numbers
with_5-empty = refl

erasable_find_id-Finds_example : Finds with_5 6 true (Erasable.find_id with_5 6 true)
erasable_find_id-Finds_example =
    erasable_find_id-Finds with_5 6 true with_5-IsValid (λ h. omega (arith, h, with_5-empty))

erase-Erases_example : Erases with_5 0 (Erasable.erase with_5 0)
erase-Erases_example = erase-Erases with_5 0 with_5-IsValid

erased_next : (Erasable.find_id (Erasable.erase with_5 0) 5 true).0 ≡ some 1
unfolding Erasable.find_id Erasable.erase numbers
erased_next = refl

-- The states of a tuple before and after its erasure.
abbrev numbered_twice : Option (ℕ × ℕ)
numbered_twice = erasable_find_state erasable_table (state 1 2 0) >>= λ r.
    erasable_find_state (Erasable.erase (r.1) (r.0)) (state 1 2 0) >>= λ q. some (r.0, q.0)

erasable_state : numbered_twice ≡ some (0, 1)
unfolding erasable_find_state Erasable.find_id Erasable.erase numbers small tuple_eq same_tuple
erasable_state = refl
