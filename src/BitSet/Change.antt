-- ===== src/BitSet/Change.antt =====
-- `insert` and `remove` of GrowableBitSet in sicada/src/data_structures/bit_set.rs as the changes of
-- one member.
use sicada.Prelude.{
  ℕ, ◌+◌, ◌/◌, ◌%◌, ◌^◌, ◌<◌, ◌≤◌, ◌≡◌, ◌≢◌, refl, sym, ap, ◌∙◌, ◌==◌, ==_iff, ==-false, leb,
  leb_iff, ltb_iff, not, ◌||◌, Bool, true, false, Bool-cases, some, length, length-set, get_elem?,
  get_elem?-lt, get_elem?-set_cases, set, inl, inr, arith, eq_or_ne, ◌>>=◌,
}
use sicada.BitSet.{
  Word, mask, bitwise, and_not, same_bit, same_word, DenseBitSet, written, ensure, insert, remove,
  contains,
}
use sicada.BitSet.Words.{
  or_unit, and_not_unit, bit, bit-bitwise, length-bitwise, length-mask, bit-mask, same_word-true,
  same_word-false,
}
use sicada.BitSet.Growing.{
  bit_at, word_at, IsValid, word_at-get, word_at-set_self, word_at-set_ne, ensure-bit_at,
  ensure-IsValid, word-some, contains-bit_at,
}

-- An operation with a mask, which leaves the bits that the mask has not.
module _ (op : Bool → Bool → Bool) (keeps : (b : Bool) → op b false ≡ b) where
  masked-bit :
      (w : Word) (i k : ℕ)
      → length w ≡ 64
      → i < 64
      → bit (bitwise op w (mask i)) k ≡ op (bit w k) (k == i)
  masked-bit w i k n h =
      bit-bitwise op w (mask i) k (keeps false) (n ∙ sym (length-mask i))
      ∙ ap (op (bit w k)) (bit-mask i k h)

  -- The word is the same exactly when the bit of the mask is.
  masked-same :
      (w : Word) (i : ℕ)
      → length w ≡ 64
      → i < 64
      → same_word w (bitwise op w (mask i)) ≡ same_bit (bit w i) (op (bit w i) true)
  masked-same w i n h =
      let v = bitwise op w (mask i) in
      let size : length w ≡ length v =
        sym (length-bitwise op w (mask i) (n ∙ sym (length-mask i))) in
      let self : bit v i ≡ op (bit w i) true =
        masked-bit w i i n h ∙ ap (op (bit w i)) ((==_iff i i).1 refl) in
      elim (Bool-cases (same_word w v)) [
        | inl all ↦
            let same = same_word-true w v i size all in
            all ∙ sym (same_bit_self (bit w i) (op (bit w i) true) (same ∙ self))
        | inr some_differ ↦
            let (k, differ) = same_word-false w v some_differ in
            elim (eq_or_ne k i) [
              | inl e ↦
                  some_differ
                  ∙ sym (
                      same_bit_ne (bit w i) (op (bit w i) true)
                        (λ q. differ (ap (bit w) e ∙ q ∙ sym self ∙ ap (bit v) (sym e))))
              | inr ne ↦
                  let kept =
                    masked-bit w i k n h ∙ ap (op (bit w k)) (==-false k i ne) ∙ keeps (bit w k) in
                  absurd (differ (sym kept))
            ]
      ]
    where
      same_bit_self : (a b : Bool) → a ≡ b → same_bit a b ≡ true
      same_bit_self true true e = refl
      same_bit_self false false e = refl
      same_bit_self true false e = cc
      same_bit_self false true e = cc

      same_bit_ne : (a b : Bool) → a ≢ b → same_bit a b ≡ false
      same_bit_ne true true e = absurd (e refl)
      same_bit_ne false false e = absurd (e refl)
      same_bit_ne true false e = refl
      same_bit_ne false true e = refl

  -- Among all the bits, only that of the number changes.
  set-bit_at :
      (s : DenseBitSet) (i j : ℕ) (w : Word)
      → get_elem? s.words (i / 64) ≡ some w
      → length w ≡ 64
      → bit_at (set s.words (i / 64) (bitwise op w (mask (i % 64)))) j
        ≡ op (bit_at s.words j) (j == i)
  set-bit_at s i j w here n =
      let v = bitwise op w (mask (i % 64)) in
      elim (eq_or_ne (j / 64) (i / 64)) [
        | inl same ↦
            let at_word : word_at (set s.words (i / 64) v) (j / 64) ≡ v =
              ap (word_at (set s.words (i / 64) v)) same
              ∙ word_at-set_self s.words (i / 64) v (get_elem?-lt s.words (i / 64) w here) in
            let old : word_at s.words (j / 64) ≡ w =
              ap (word_at s.words) same ∙ word_at-get s.words (i / 64) w here in
            ap (λ x. bit x (j % 64)) at_word
            ∙ masked-bit w (i % 64) (j % 64) n (omega arith)
            ∙ ap (λ x. op (bit x (j % 64)) (j % 64 == i % 64)) (sym old)
            ∙ ap (op (bit_at s.words j)) (places same)
        | inr other ↦
            let ne : (j == i) ≡ false = ==-false j i (λ e. other (ap (λ x. x / 64) e)) in
            ap (λ x. bit x (j % 64)) (word_at-set_ne s.words (i / 64) (j / 64) v other)
            ∙ sym (ap (op (bit_at s.words j)) ne ∙ keeps (bit_at s.words j))
      ]
    where
      places : j / 64 ≡ i / 64 → (j % 64 == i % 64) ≡ (j == i)
      places same = elim (eq_or_ne j i) [
        | inl e ↦ (==_iff (j % 64) (i % 64)).1 (ap (λ x. x % 64) e) ∙ sym ((==_iff j i).1 e)
        | inr ne ↦
            ==-false (j % 64) (i % 64) (λ e. ne (omega (arith, e, same))) ∙ sym (==-false j i ne)
      ]

  -- What writing one number in the domain does.
  written_lem :
      (s : DenseBitSet) (i : ℕ) (w : Word)
      → IsValid s
      → i < s.domain_size
      → get_elem? s.words (i / 64) ≡ some w
      → length w ≡ 64
      → let r = written s (i / 64) w (bitwise op w (mask (i % 64))) in
        IsValid (r.0)
        × (r.1 ≡ not (same_bit (bit_at s.words i) (op (bit_at s.words i) true)))
        × ((j : ℕ) → bit_at (r.0).words j ≡ op (bit_at s.words j) (j == i))
  written_lem s i w v h here n =
      let bits = λ (j : ℕ). set-bit_at s i j w here n in
      let same : bit w (i % 64) ≡ bit_at s.words i =
        ap (λ x. bit x (i % 64)) (sym (word_at-get s.words (i / 64) w here)) in
      (
        record {
          count = length-set s.words (i / 64) (bitwise op w (mask (i % 64))) ∙ v.count;
          whole = λ q u e.
              elim (get_elem?-set_cases s.words (i / 64) q (bitwise op w (mask (i % 64))) u e) [
                | inl k ↦
                    ap length (sym k)
                    ∙ length-bitwise op w (mask (i % 64)) (n ∙ sym (length-mask (i % 64)))
                    ∙ n
                | inr (_, k) ↦ v.whole q u k
              ];
          within = λ j e. elim (eq_or_ne j i) [
            | inl k ↦ omega (arith, k, h)
            | inr k ↦ v.within j (
                sym
                  (bits j ∙ ap (op (bit_at s.words j)) (==-false j i k) ∙ keeps (bit_at s.words j))
                ∙ e)
          ];
        },
        ap not (masked-same w (i % 64) n (omega arith) ∙ ap (λ b. same_bit b (op b true)) same),
        bits,
      )

contains-outside : (s : DenseBitSet) (j : ℕ) → s.domain_size ≤ j → contains s j ≡ some false
unfolding contains
contains-outside s j far = rw ((leb_iff s.domain_size j).1 far) refl

insert_answer : (b : Bool) → not (same_bit b (b || true)) ≡ not b
insert_answer true = refl
insert_answer false = refl

remove_answer : (b : Bool) → not (same_bit b (and_not b true)) ≡ b
remove_answer true = refl
remove_answer false = refl

-- An insertion of a number below the largest usize never panics: it answers whether the number was
-- missing, and afterwards the members are those from before and the number. The set stays valid.
pub insert_correct :
    (s : DenseBitSet) (i : ℕ)
    → i + 1 < 2 ^ 64
    → IsValid s
    → (t : DenseBitSet) × (b : Bool) × (insert s i ≡ some (t, b))
      × IsValid t
      × (contains s i ≡ some (not b))
      × ((j : ℕ) → contains t j ≡ (contains s j >>= λ c. some (c || j == i)))
unfolding insert
insert_correct s i fits v =
    let grown = ensure s (i + 1) in
    let (v1, big) = ensure-IsValid s (i + 1) v in
    let lt : i < grown.domain_size = omega (arith, big) in
    let (w, here, n, _) = word-some grown i v1 lt in
    let (v2, answer, bits) = written_lem (◌||◌) or_unit grown i w v1 lt here n in
    let r = written grown (i / 64) w (bitwise (◌||◌) w (mask (i % 64))) in
    let was = ensure-bit_at s (i + 1) i in
    (
      r.0,
      r.1,
      rw ((ltb_iff (i + 1) (2 ^ 64)).1 fits, (ltb_iff i grown.domain_size).1 lt, here) refl,
      v2,
      contains-bit_at s i v
          ∙ ap some (
              sym (
                ap not (answer ∙ insert_answer (bit_at grown.words i))
                ∙ not_not (bit_at grown.words i)
                ∙ was)),
      λ j.
          contains-bit_at (r.0) j v2
          ∙ ap some (bits j ∙ ap (λ c. c || j == i) (ensure-bit_at s (i + 1) j))
          ∙ sym (ap (λ m. m >>= λ c. some (c || j == i)) (contains-bit_at s j v)),
    )
  where
    not_not : (b : Bool) → not (not b) ≡ b
    not_not true = refl
    not_not false = refl

-- A removal never panics: it answers whether the number was a member, and afterwards the members are
-- those from before but the number. The set stays valid.
pub remove_correct :
    (s : DenseBitSet) (i : ℕ)
    → IsValid s
    → (t : DenseBitSet) × (b : Bool) × (remove s i ≡ some (t, b))
      × IsValid t
      × (contains s i ≡ some b)
      × ((j : ℕ) → contains t j ≡ (contains s j >>= λ c. some (and_not c (j == i))))
unfolding remove
remove_correct s i v = elim (Bool-cases (leb s.domain_size i)) [
  | inl k ↦
      let far : s.domain_size ≤ i = (leb_iff s.domain_size i).0 k in
      (
        s,
        false,
        rw k refl,
        v,
        contains-outside s i far,
        λ j. elim (eq_or_ne j i) [
          | inl e ↦
              let none_there = ap (contains s) e ∙ contains-outside s i far in
              none_there ∙ sym (ap (λ m. m >>= λ c. some (and_not c (j == i))) none_there)
          | inr ne ↦
              let here = contains-bit_at s j v in
              here
              ∙ ap some (
                  sym (
                    ap (and_not (bit_at s.words j)) (==-false j i ne)
                    ∙ and_not_unit (bit_at s.words j)))
              ∙ sym (ap (λ m. m >>= λ c. some (and_not c (j == i))) here)
        ],
      )
  | inr k ↦
      let lt : i < s.domain_size = ground (arith, k) in
      let (w, here, n, _) = word-some s i v lt in
      let (v2, answer, bits) = written_lem and_not and_not_unit s i w v lt here n in
      let r = written s (i / 64) w (bitwise and_not w (mask (i % 64))) in
      (
        r.0,
        r.1,
        rw (k, (ltb_iff i s.domain_size).1 lt, here) refl,
        v2,
        contains-bit_at s i v ∙ ap some (sym (answer ∙ remove_answer (bit_at s.words i))),
        λ j.
            contains-bit_at (r.0) j v2
            ∙ ap some (bits j)
            ∙ sym (ap (λ m. m >>= λ c. some (and_not c (j == i))) (contains-bit_at s j v)),
      )
]
