-- ===== src/BiTable/Erasable/Erase.antt =====
-- `erase` of ErasableBiTable in sicada/src/data_structures/bi_table.rs against the entries that the
-- numbers stand for.
use sicada.Prelude.{
  ℕ, zero, suc, ◌+◌, ◌-◌, ◌≡◌, ◌≢◌, refl, sym, ap, ◌∙◌, ◌↔◌, Bool, true, false, Bool-cases, Option,
  none, some, List, [], ◌∷◌, length, get_elem?, set, inl, inr, if◌then◌else◌, arith,
  get_elem?-set_ne, get_elem?-set_cases, get_elem?-lt, get_elem?-some, ◌<◌, length-set, ◌&&◌, leb,
  ltb, Option-cases,
}
use mathlib.Core.Option.{some-injective}
use sicada.BiTable.Spec.{Eq}
use sicada.BiTable.Hash.{lookup}
use sicada.BiTable.Erasable.{
  ErasableBiTable, find_entry, IsValid, At, find_entry-At, At-find_entry, pop_empty, remove,
  erase_at, erase,
}

in_range :
    (first s n : ℕ)
    → (leb first s && ltb (s - first) n) ≡ true
    → (first + (s - first) ≡ s) × (s - first < n)
in_range first s n h = ground arith

module _ {T : Type 0} ⦃e : Eq T⦄ where
  lookup-remove :
      (x b : T) (ps : List (T × ℕ))
      → lookup b (remove x ps) ≡ (if e.beq x b then none else lookup b ps)
  lookup-remove x b [] = elim (Bool-cases (e.beq x b)) [ inl k ↦ rw k refl | inr k ↦ rw k refl ]
  lookup-remove x b (p ∷ ps) = elim (Bool-cases (e.beq (p.0) x)) [
    | inl k ↦
        let px : p.0 ≡ x = (e.beq_iff (p.0) x).0 k in
        rw k (
          lookup-remove x b ps
          ∙ removed_head (e.beq x b) (e.beq (p.0) b) (some (p.1)) (lookup b ps)
              (ap (λ y. e.beq y b) (sym px)))
    | inr k ↦ rw k (elim (Bool-cases (e.beq (p.0) b)) [
      | inl pb ↦ rw (pb, other k pb) refl
      | inr pb ↦ rw pb (lookup-remove x b ps)
    ])
  ]
    where
      removed_head :
          (c d : Bool) (o q : Option ℕ)
          → c ≡ d
          → (if c then none else q) ≡ (if c then none else (if d then o else q))
      removed_head true d o q h = refl
      removed_head false true o q h = cc
      removed_head false false o q h = refl

      other : e.beq (p.0) x ≡ false → e.beq (p.0) b ≡ true → e.beq x b ≡ false
      other k pb = elim (Bool-cases (e.beq x b)) [
        | inl xb ↦
            let same : p.0 ≡ x = (e.beq_iff (p.0) b).0 pb ∙ sym ((e.beq_iff x b).0 xb) in
            let test = (e.beq_iff (p.0) x).1 same in cc
        | inr xb ↦ xb
      ]

  -- Empty entries that leave at the front take no other entry's number.
  pop_empty-At :
      (empty : T) (xs : List T) (first s : ℕ) (b : T)
      → b ≢ empty
      → At ((pop_empty empty xs first).0) ((pop_empty empty xs first).1) s b ↔ At xs first s b
  pop_empty-At empty [] first s b ne = (λ h. h, λ h. h)
  pop_empty-At empty (x ∷ xs) first s b ne = elim (Bool-cases (e.beq x empty)) [
    | inl k ↦
        let (ih, ih') = pop_empty-At empty xs (first + 1) s b ne in
        rw k (
          λ h. let (i, place, here) = ih h in (suc i, omega (arith, place), here),
          λ h. ih' (further k h),
        )
    | inr k ↦ rw k (λ h. h, λ h. h)
  ]
    where
      further : e.beq x empty ≡ true → At (x ∷ xs) first s b → At xs (first + 1) s b
      further k (zero, place, here) =
          absurd (ne (sym (some-injective x b here) ∙ (e.beq_iff x empty).0 k))
      further k (suc i, place, here) = (i, omega (arith, place), here)

  -- Nor do they change the number that a new entry would get.
  pop_empty-next :
      (empty : T) (xs : List T) (first : ℕ)
      → length ((pop_empty empty xs first).0) + (pop_empty empty xs first).1 ≡ length xs + first
  pop_empty-next empty [] first = refl
  pop_empty-next empty (x ∷ xs) first = elim (Bool-cases (e.beq x empty)) [
    | inl k ↦ rw k (omega (arith, pop_empty-next empty xs (first + 1)))
    | inr k ↦ rw k refl
  ]

  -- What erasing the number `s` has to do, `r` being the table afterwards.
  pub record Erases (t : ErasableBiTable T) (s : ℕ) (r : ErasableBiTable T) : Type 0 where
    pub valid : IsValid r
    pub empty : r.empty_entry ≡ t.empty_entry
    pub others :
        (s' : ℕ) (b : T)
        → b ≢ t.empty_entry
        → (find_entry r s' ≡ some b) ↔ ((find_entry t s' ≡ some b) × (s' ≢ s))
    pub next : length r.id2entry + r.first ≡ length t.id2entry + t.first

  module _ (t : ErasableBiTable T) (idx : ℕ) (x : T) (v : IsValid t)
      (here : get_elem? t.id2entry idx ≡ some x) where
    after : ErasableBiTable T
    after = erase_at t idx (some x)

    others-erase_at :
        (s' : ℕ) (b : T)
        → b ≢ t.empty_entry
        → (find_entry after s' ≡ some b) ↔ ((find_entry t s' ≡ some b) × (s' ≢ t.first + idx))
    unfolding after
    others-erase_at s' b ne = (
      λ q.
          let at = find_entry-At after s' b q in
          let written = set t.id2entry idx t.empty_entry in
          let (k, place, there) = (pop_empty-At t.empty_entry written t.first s' b ne).0 at in
          elim (get_elem?-set_cases t.id2entry idx k t.empty_entry b there) [
            | inl same ↦ absurd (ne (sym same))
            | inr (other, old) ↦
                (At-find_entry t s' b (k, place, old), λ z. other (omega (arith, place, z)))
          ],
      λ (q, other).
          let (k, place, old) = find_entry-At t s' b q in
          let written = set t.id2entry idx t.empty_entry in
          let apart : idx ≢ k = λ z. other (omega (arith, place, z)) in
          let there = get_elem?-set_ne t.id2entry idx k t.empty_entry apart ∙ old in
          At-find_entry after s' b
            ((pop_empty-At t.empty_entry written t.first s' b ne).1 (k, place, there)),
    )

    at_idx : (b : T) → find_entry t (t.first + idx) ≡ some b → x ≡ b
    at_idx b q =
        let (k, place, there) = find_entry-At t (t.first + idx) b q in
        let same : idx ≡ k = omega (arith, place) in
        some-injective x b (sym here ∙ ap (get_elem? t.id2entry) same ∙ there)

    known-erase_at :
        (b : T) (s : ℕ)
        → b ≢ t.empty_entry
        → lookup b (remove x t.entry2id) ≡ some s
        → find_entry after s ≡ some b
    known-erase_at b s ne q =
        let q' = sym (lookup-remove x b t.entry2id) ∙ q in
        elim (Bool-cases (e.beq x b)) [
          | inl k ↦ let gone : none ≡ some s = rw k at q' in cc
          | inr k ↦
              let old = v.known b s ne (rw k at q') in
              (others-erase_at s b ne).1 (
                old,
                λ z.
                    let test = (e.beq_iff x b).1 (at_idx b (ap (find_entry t) (sym z) ∙ old)) in cc,
              )
        ]

    live-erase_at :
        (b : T) (s : ℕ)
        → b ≢ t.empty_entry
        → find_entry after s ≡ some b
        → lookup b (remove x t.entry2id) ≡ some s
    live-erase_at b s ne q =
        let (old, other) = (others-erase_at s b ne).0 q in
        lookup-remove x b t.entry2id ∙ elim (Bool-cases (e.beq x b)) [
          | inl k ↦
              let stands =
                At-find_entry t (t.first + idx) b
                  (idx, refl, here ∙ ap some ((e.beq_iff x b).0 k)) in
              let same =
                some-injective s (t.first + idx)
                  (sym (v.live b s ne old) ∙ v.live b (t.first + idx) ne stands) in
              absurd (other same)
          | inr k ↦ rw k (v.live b s ne old)
        ]

    erase_at-Erases : Erases t (t.first + idx) after
    unfolding after
    erase_at-Erases = record {
      valid = record { known = known-erase_at; live = live-erase_at };
      empty = refl;
      others = others-erase_at;
      next =
          pop_empty-next t.empty_entry (set t.id2entry idx t.empty_entry) t.first
          ∙ ap (λ n. n + t.first) (length-set t.id2entry idx t.empty_entry);
    }

  -- A number that stands for nothing erases nothing.
  absent-Erases : (t : ErasableBiTable T) (s : ℕ) → IsValid t → find_entry t s ≡ none → Erases t s t
  absent-Erases t s v h = record {
    valid = v;
    empty = refl;
    others = λ s' b ne. (λ q. (q, λ z. let there = ap (find_entry t) (sym z) ∙ q in cc), λ q. q.0);
    next = refl;
  }

  absent :
      (t : ErasableBiTable T) (s : ℕ)
      → (leb t.first s && ltb (s - t.first) (length t.id2entry)) ≡ false
      → find_entry t s ≡ none
  absent t s h = elim (Option-cases (find_entry t s)) [
    | inl k ↦ k
    | inr (b, q) ↦
        let (i, place, there) = find_entry-At t s b q in
        let lt = get_elem?-lt t.id2entry i b there in
        let first = t.first in absurd (ground (arith, place, lt, h))
  ]

  -- Erasing a number leaves every other entry at its number, and the table valid; the entry erased is
  -- at no number. The number that the next new entry gets stays the same, so none is given twice. A
  -- number that stands for no entry erases nothing.
  pub erase-Erases : (t : ErasableBiTable T) (s : ℕ) → IsValid t → Erases t s (erase t s)
  unfolding erase after
  erase-Erases t s v = elim (Bool-cases (leb t.first s && ltb (s - t.first) (length t.id2entry))) [
    | inl k ↦
        let (place, lt) = in_range t.first s (length t.id2entry) k in
        let (x, here) = get_elem?-some t.id2entry (s - t.first) lt in
        let erased = erase_at-Erases t (s - t.first) x v here in rw (k, here) (rw place at erased)
    | inr k ↦ rw k (absent-Erases t s v (absent t s k))
  ]
