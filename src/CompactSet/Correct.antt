-- ===== src/CompactSet/Correct.antt =====
-- The operations of CompactSet in sicada/src/data_structures/compact_set.rs as those of a set of
-- keys.
use sicada.Prelude.{
  ℕ, ◌+◌, ◌-◌, ◌<◌, ◌≤◌, ◌≡◌, refl, sym, ◌∙◌, ◌↔◌, ◌⊎◌, ◌==◌, ◌&&◌, ◌^◌, ◌||◌, ==_iff, leb, ltb,
  true, false, Bool-cases, List, [], length, inl, inr, if◌then◌else◌, arith,
}
use mathlib.Core.List.{Memᴰ}
use mathlib.Core.Path.{subst}
use sicada.CompactSet.{
  CompactSet, no_key, new, binary_search, with_key, insert, span, is_ok, same_count, is_member,
}
use sicada.CompactSet.Keys.{IsSorted, put, with_key-put, is_ok-has}
use sicada.CompactSet.Members.{put-Mem, put-IsSorted, has-Mem, IsLeast, IsGreatest}
use sicada.CompactSet.Dense.{dense-Mem}

-- The bounds are those of the keys, and no key is the one that stands for none.
pub record IsValid (s : CompactSet) : Type 0 where
  pub sorted : IsSorted s.keys
  pub real : (k : ℕ) → Memᴰ k s.keys → k < no_key
  pub bounds :
      ((s.keys ≡ []) × (s.min_key ≡ no_key) × (s.max_key ≡ no_key))
      ⊎ (IsLeast s.min_key s.keys × IsGreatest s.max_key s.keys)

pub new-IsValid : IsValid new
new-IsValid = record { sorted = tt; real = λ k m. elim m [ ]; bounds = inl (refl, refl, refl) }

count_lem : (min max n : ℕ) → same_count (span min max) n ≡ true → n + min ≡ max + 1
count_lem min max n h = elim (Bool-cases (leb min (max + 1) && ltb (max + 1 - min) (2 ^ 64))) [
  | inl k ↦
      let same : (max + 1 - min == n) ≡ true = rw k at h in
      let n' = (==_iff (max + 1 - min) n).0 same in ground (arith, k, n')
  | inr k ↦ let no : false ≡ true = rw k at h in cc
]

between-Mem :
    (s : CompactSet) (k : ℕ)
    → IsValid s
    → IsLeast s.min_key s.keys
    → IsGreatest s.max_key s.keys
    → s.min_key ≤ k
    → k ≤ s.max_key
    → ((if same_count (span s.min_key s.max_key) (length s.keys)
          then true
          else is_ok (binary_search k s.keys))
        ≡ true)
      ↔ Memᴰ k s.keys
between-Mem s k v (_, least) (_, most) h1 h2 =
    elim (Bool-cases (same_count (span s.min_key s.max_key) (length s.keys))) [
      | inl full ↦
          let n = count_lem s.min_key s.max_key (length s.keys) full in
          rw full
            (λ _. dense-Mem s.keys s.min_key s.max_key k v.sorted least most n h1 h2, λ m. refl)
      | inr part ↦
          let (there, back) = has-Mem k s.keys v.sorted in
          rw part (λ h. there (sym (is_ok-has k s.keys) ∙ h), λ m. is_ok-has k s.keys ∙ back m)
    ]

-- A key is a member exactly when it is among the keys, however the answer is found.
pub is_member-Mem : (s : CompactSet) (k : ℕ) → IsValid s → (is_member s k ≡ true) ↔ Memᴰ k s.keys
unfolding is_member
is_member-Mem s k v = elim v.bounds [
  | inl (nil, min, max) ↦
      let test : (s.min_key == no_key) ≡ true = (==_iff s.min_key no_key).1 min in
      rw test (λ h. cc, λ m. elim (subst (Memᴰ k) nil m) [ ])
  | inr (least, greatest) ↦
      let real = v.real s.min_key (least.0) in
      elim (Bool-cases (s.min_key == no_key || ltb k s.min_key || ltb s.max_key k)) [
        | inl out ↦ rw out (
          λ h. cc,
          λ m.
              let low = least.1 k m in
              let high = greatest.1 k m in absurd (ground (arith, out, low, high, real)),
        )
        | inr within ↦
            let low : s.min_key ≤ k = ground (arith, within) in
            let high : k ≤ s.max_key = ground (arith, within) in
            rw within (between-Mem s k v least greatest low high)
      ]
]

insert-IsLeast :
    (min key : ℕ) (xs : List ℕ)
    → ((xs ≡ []) × (min ≡ no_key)) ⊎ (IsLeast min xs × (min < no_key))
    → IsLeast (if min == no_key || ltb key min then key else min) (put key xs)
insert-IsLeast min key xs (inl (nil, none_yet)) = rw ((==_iff min no_key).1 none_yet) (
  (put-Mem key key xs).1 (inl refl),
  λ k m. elim ((put-Mem key k xs).0 m) [
    | inl e ↦ omega (arith, e)
    | inr old ↦ elim (subst (Memᴰ k) nil old) [ ]
  ],
)
insert-IsLeast min key xs (inr ((there, least), real)) =
    elim (Bool-cases (min == no_key || ltb key min)) [
      | inl t ↦
          let below : key < min = ground (arith, t, real) in
          rw t (
            (put-Mem key key xs).1 (inl refl),
            λ k m. elim ((put-Mem key k xs).0 m) [
              | inl e ↦ omega (arith, e)
              | inr old ↦ let far = least k old in omega (arith, far, below)
            ],
          )
      | inr f ↦
          let above : min ≤ key = ground (arith, f) in
          rw f (
            (put-Mem key min xs).1 (inr there),
            λ k m. elim ((put-Mem key k xs).0 m) [
              | inl e ↦ omega (arith, e, above)
              | inr old ↦ least k old
            ],
          )
    ]

insert-IsGreatest :
    (max key : ℕ) (xs : List ℕ)
    → ((xs ≡ []) × (max ≡ no_key)) ⊎ (IsGreatest max xs × (max < no_key))
    → IsGreatest (if max == no_key || ltb max key then key else max) (put key xs)
insert-IsGreatest max key xs (inl (nil, none_yet)) = rw ((==_iff max no_key).1 none_yet) (
  (put-Mem key key xs).1 (inl refl),
  λ k m. elim ((put-Mem key k xs).0 m) [
    | inl e ↦ omega (arith, e)
    | inr old ↦ elim (subst (Memᴰ k) nil old) [ ]
  ],
)
insert-IsGreatest max key xs (inr ((there, most), real)) =
    elim (Bool-cases (max == no_key || ltb max key)) [
      | inl t ↦
          let above : max < key = ground (arith, t, real) in
          rw t (
            (put-Mem key key xs).1 (inl refl),
            λ k m. elim ((put-Mem key k xs).0 m) [
              | inl e ↦ omega (arith, e)
              | inr old ↦ let far = most k old in omega (arith, far, above)
            ],
          )
      | inr f ↦
          let below : key ≤ max = ground (arith, f) in
          rw f (
            (put-Mem key max xs).1 (inr there),
            λ k m. elim ((put-Mem key k xs).0 m) [
              | inl e ↦ omega (arith, e, below)
              | inr old ↦ most k old
            ],
          )
    ]

insert_keys : (s : CompactSet) (key : ℕ) → (insert s key).keys ≡ put key s.keys
unfolding insert
insert_keys s key = with_key-put key s.keys

pub insert-IsValid : (s : CompactSet) (key : ℕ) → IsValid s → key < no_key → IsValid (insert s key)
unfolding insert
insert-IsValid s key v real =
    let keys : with_key s.keys key (binary_search key s.keys) ≡ put key s.keys =
      with_key-put key s.keys in
    let (least, greatest) = old_bounds v.bounds in
    record {
      sorted = subst IsSorted (sym keys) (put-IsSorted key s.keys v.sorted);
      real = λ k m. elim ((put-Mem key k s.keys).0 (subst (Memᴰ k) keys m)) [
        | inl e ↦ omega (arith, e, real)
        | inr old ↦ v.real k old
      ];
      bounds = inr (
        subst (IsLeast (insert s key).min_key) (sym keys)
            (insert-IsLeast s.min_key key s.keys least),
        subst (IsGreatest (insert s key).max_key) (sym keys)
            (insert-IsGreatest s.max_key key s.keys greatest),
      );
    }
  where
    old_bounds :
        ((s.keys ≡ []) × (s.min_key ≡ no_key) × (s.max_key ≡ no_key))
          ⊎ (IsLeast s.min_key s.keys × IsGreatest s.max_key s.keys)
        → (((s.keys ≡ []) × (s.min_key ≡ no_key))
            ⊎ (IsLeast s.min_key s.keys × (s.min_key < no_key)))
          × (((s.keys ≡ []) × (s.max_key ≡ no_key))
              ⊎ (IsGreatest s.max_key s.keys × (s.max_key < no_key)))
    old_bounds (inl (nil, min, max)) = (inl (nil, min), inl (nil, max))
    old_bounds (inr (least, greatest)) =
        (inr (least, v.real s.min_key (least.0)), inr (greatest, v.real s.max_key (greatest.0)))

-- After an insertion of a key other than the one that stands for none, the members are those from
-- before and the new key, and the set is still valid.
pub insert_correct :
    (s : CompactSet) (key : ℕ)
    → IsValid s
    → key < no_key
    → IsValid (insert s key)
      × ((k : ℕ) → (is_member (insert s key) k ≡ true) ↔ ((k ≡ key) ⊎ (is_member s k ≡ true)))
insert_correct s key v real =
    let v' = insert-IsValid s key v real in
    (
      v',
      λ k. (
        λ h.
            elim ((put-Mem key k s.keys).0
              (subst (Memᴰ k) (insert_keys s key) ((is_member-Mem (insert s key) k v').0 h))) [
                | inl e ↦ inl e
                | inr old ↦ inr ((is_member-Mem s k v).1 old)
              ],
        λ h. (is_member-Mem (insert s key) k v').1 (
            subst (Memᴰ k) (sym (insert_keys s key)) (
              (put-Mem key k s.keys).1
                (elim h [ inl e ↦ inl e | inr old ↦ inr ((is_member-Mem s k v).0 old) ]))),
      ),
    )
