-- ===== src/BiTable/Erasable/Find.antt =====
-- `find_id` of ErasableBiTable in sicada/src/data_structures/bi_table.rs against the entries that
-- the numbers stand for.
use sicada.Prelude.{
  ℕ, ◌+◌, ◌≡◌, ◌≢◌, refl, sym, ap, ◌∙◌, ◌↔◌, ◌⊎◌, Bool, true, false, Bool-cases, Option, none, some,
  ◌∷◌, [], length, inl, inr, arith, get_elem?-snoc_cases, get_elem?-append_left,
  get_elem?-snoc_self,
}
use mathlib.Core.Option.{some-injective}
use sicada.BiTable.Spec.{Eq, beq_self}
use sicada.BiTable.Hash.{lookup}
use sicada.BiTable.Erasable.{
  ErasableBiTable, find_id_at, find_id, find_entry, IsValid, find_entry-At, At-find_entry,
}

module _ {T : Type 0} ⦃e : Eq T⦄ where
  -- What a lookup of `a` that gave `r` has to do.
  pub record Finds (t : ErasableBiTable T) (a : T) (insert : Bool)
      (r : Option ℕ × ErasableBiTable T) : Type 0 where
    pub valid : IsValid (r.1)
    pub keeps :
        (s : ℕ) (b : T) → b ≢ t.empty_entry → find_entry t s ≡ some b → find_entry (r.1) s ≡ some b
    pub only : (s : ℕ) (b : T) → b ≢ a → find_entry (r.1) s ≡ some b → find_entry t s ≡ some b
    pub place : (s : ℕ) → (r.0 ≡ some s) ↔ (find_entry (r.1) s ≡ some a)
    pub answers : insert ≡ true → (s : ℕ) × (r.0 ≡ some s)

  module _ (t : ErasableBiTable T) (a : T) (v : IsValid t) (ne : a ≢ t.empty_entry) where
    old-Finds :
        (insert : Bool) (id : ℕ) → lookup a t.entry2id ≡ some id → Finds t a insert (some id, t)
    old-Finds insert id h = record {
      valid = v;
      keeps = λ s b nb q. q;
      only = λ s b nb q. q;
      place = λ s. (λ q. v.known a s ne (h ∙ q), λ q. sym h ∙ v.live a s ne q);
      answers = λ q. (id, refl);
    }

    missing-Finds : lookup a t.entry2id ≡ none → Finds t a false (none, t)
    missing-Finds h = record {
      valid = v;
      keeps = λ s b nb q. q;
      only = λ s b nb q. q;
      place = λ s. (λ q. cc, λ q. sym h ∙ v.live a s ne q);
      answers = λ q. cc;
    }

    module _ (h : lookup a t.entry2id ≡ none) where
      after : ErasableBiTable T
      after = (find_id_at t a true none).1

      after-old : (s : ℕ) (b : T) → find_entry t s ≡ some b → find_entry after s ≡ some b
      unfolding after
      after-old s b q =
          let (k, place, here) = find_entry-At t s b q in
          At-find_entry after s b (k, place, get_elem?-append_left t.id2entry (a ∷ []) k b here)

      after_self : find_entry after (length t.id2entry + t.first) ≡ some a
      unfolding after
      after_self =
          At-find_entry after (length t.id2entry + t.first) a
            (length t.id2entry, omega arith, get_elem?-snoc_self t.id2entry a)

      after-cases :
          (s : ℕ) (b : T)
          → find_entry after s ≡ some b
          → (find_entry t s ≡ some b) ⊎ ((s ≡ length t.id2entry + t.first) × (a ≡ b))
      unfolding after
      after-cases s b q =
          let (k, place, here) = find_entry-At after s b q in
          elim (get_elem?-snoc_cases t.id2entry a k b here) [
            | inl old ↦ inl (At-find_entry t s b (k, place, old))
            | inr (last, ab) ↦ inr (omega (arith, place, last), ab)
          ]

      after-IsValid : IsValid after
      unfolding after
      after-IsValid = record {
        known = λ b s nb q. elim (Bool-cases (e.beq a b)) [
          | inl k ↦
              let ab = (e.beq_iff a b).0 k in
              let place = some-injective (length t.id2entry + t.first) s (rw k at q) in
              ap (find_entry after) (sym place) ∙ after_self ∙ ap some ab
          | inr k ↦ after-old s b (v.known b s nb (rw k at q))
        ];
        live = λ b s nb q. elim (after-cases s b q) [
          | inl old ↦ live_old b s (v.live b s nb old)
          | inr (place, ab) ↦
              let test = ap (e.beq a) (sym ab) ∙ beq_self a in rw test (ap some (sym place))
        ];
      }
        where
          live_old :
              (b : T) (s : ℕ) → lookup b t.entry2id ≡ some s → lookup b after.entry2id ≡ some s
          live_old b s q = elim (Bool-cases (e.beq a b)) [
            | inl k ↦ let gone = ap (λ x. lookup x t.entry2id) ((e.beq_iff a b).0 k) in cc
            | inr k ↦ rw k q
          ]

      new-Finds : Finds t a true (find_id_at t a true none)
      unfolding after
      new-Finds = record {
        valid = after-IsValid;
        keeps = λ s b nb q. after-old s b q;
        only = λ s b nb q. elim (after-cases s b q) [
          | inl old ↦ old
          | inr (place, ab) ↦ absurd (nb (sym ab))
        ];
        place = λ s. (
          λ q.
              ap (find_entry after) (sym (some-injective (length t.id2entry + t.first) s q))
              ∙ after_self,
          λ q. elim (after-cases s a q) [
            | inl old ↦ let there = v.live a s ne old in cc
            | inr (place, _) ↦ ap some (sym place)
          ],
        );
        answers = λ q. (length t.id2entry + t.first, refl);
      }

    find_id_at-Finds :
        (insert : Bool) (o : Option ℕ)
        → lookup a t.entry2id ≡ o
        → Finds t a insert (find_id_at t a insert o)
    find_id_at-Finds insert (some id) h = old-Finds insert id h
    find_id_at-Finds false none h = missing-Finds h
    find_id_at-Finds true none h = new-Finds h

  -- A lookup in a table whose entries can be erased answers with the place at which the entry then
  -- stands, and with none where it stands nowhere and may not be inserted; every other entry stays
  -- where it was, no other comes, and the table stays valid. The entry is not the empty one.
  pub erasable_find_id-Finds :
      (t : ErasableBiTable T) (a : T) (insert : Bool)
      → IsValid t
      → a ≢ t.empty_entry
      → Finds t a insert (find_id t a insert)
  unfolding find_id
  erasable_find_id-Finds t a insert v ne =
      find_id_at-Finds t a v ne insert (lookup a t.entry2id) refl
