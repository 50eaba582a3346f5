-- ===== src/CompactSet/Members.antt =====
-- The members of the sorted keys of CompactSet in sicada/src/data_structures/compact_set.rs after a
-- write, and the least and the greatest of them.
use sicada.Prelude.{
  ℕ, ◌<◌, ◌≤◌, ◌≡◌, ◌≢◌, refl, sym, ◌∙◌, ◌↔◌, ◌⊎◌, ◌==◌, ==_iff, ltb, ltb_iff, true, Bool-cases,
  List, [], ◌∷◌, inl, inr, arith,
}
use mathlib.Core.List.{Memᴰ}
use sicada.CompactSet.{first_key, last_key}
use sicada.CompactSet.Keys.{IsSorted, put, without, has}

pub Mem-cons : (k x : ℕ) (xs : List ℕ) → Memᴰ k (x ∷ xs) → (k ≡ x) ⊎ Memᴰ k xs
Mem-cons k x xs (Memᴰ.head e) = inl e
Mem-cons k x xs (Memᴰ.tail m) = inr m

pub put-Mem : (key k : ℕ) (xs : List ℕ) → Memᴰ k (put key xs) ↔ ((k ≡ key) ⊎ Memᴰ k xs)
put-Mem key k [] =
    (λ m. Mem-cons k key [] m, λ h. elim h [ inl e ↦ Memᴰ.head e | inr m ↦ elim m [ ] ])
put-Mem key k (x ∷ xs) = elim (Bool-cases (ltb x key)) [
  | inl lt ↦ rw lt (
    λ m. elim (Mem-cons k x (put key xs) m) [
      | inl e ↦ inr (Memᴰ.head e)
      | inr m ↦ elim ((put-Mem key k xs).0 m) [ inl e ↦ inl e | inr m ↦ inr (Memᴰ.tail m) ]
    ],
    λ h. elim h [
      | inl e ↦ Memᴰ.tail ((put-Mem key k xs).1 (inl e))
      | inr m ↦ elim (Mem-cons k x xs m) [
        | inl e ↦ Memᴰ.head e
        | inr m ↦ Memᴰ.tail ((put-Mem key k xs).1 (inr m))
      ]
    ],
  )
  | inr ge ↦ rw ge (elim (Bool-cases (x == key)) [
    | inl e ↦
        let xk : x ≡ key = (==_iff x key).0 e in
        rw e (λ m. inr m, λ h. elim h [ inl q ↦ Memᴰ.head (q ∙ sym xk) | inr m ↦ m ])
    | inr e ↦
        rw e (
          λ m. Mem-cons k key (x ∷ xs) m,
          λ h. elim h [ inl q ↦ Memᴰ.head q | inr m ↦ Memᴰ.tail m ],
        )
  ])
]

pub put-IsSorted : (key : ℕ) (xs : List ℕ) → IsSorted xs → IsSorted (put key xs)
put-IsSorted key [] s = (λ k m. elim m [ ], tt)
put-IsSorted key (x ∷ xs) (above, s) = elim (Bool-cases (ltb x key)) [
  | inl lt ↦ rw lt (
    λ k m. elim ((put-Mem key k xs).0 m) [
      | inl e ↦ let le = (ltb_iff x key).0 lt in omega (arith, e, le)
      | inr m ↦ above k m
    ],
    put-IsSorted key xs s,
  )
  | inr ge ↦ rw ge (elim (Bool-cases (x == key)) [
    | inl e ↦ rw e (above, s)
    | inr e ↦
        let lt : key < x = ground (arith, ge, e) in
        rw e (
          λ k m. elim (Mem-cons k x xs m) [
            | inl q ↦ omega (arith, q, lt)
            | inr m ↦ let far = above k m in omega (arith, far, lt)
          ],
          (above, s),
        )
  ])
]

pub without-Mem :
    (key k : ℕ) (xs : List ℕ) → IsSorted xs → Memᴰ k (without key xs) ↔ ((k ≢ key) × Memᴰ k xs)
without-Mem key k [] s = (λ m. elim m [ ], λ h. elim (h.1) [ ])
without-Mem key k (x ∷ xs) (above, s) = elim (Bool-cases (ltb x key)) [
  | inl lt ↦
      let le = (ltb_iff x key).0 lt in
      rw lt (
        λ m. elim (Mem-cons k x (without key xs) m) [
          | inl e ↦ (λ q. omega (arith, e, q, le), Memᴰ.head e)
          | inr m ↦ let (ne, m') = (without-Mem key k xs s).0 m in (ne, Memᴰ.tail m')
        ],
        λ (ne, m). elim (Mem-cons k x xs m) [
          | inl e ↦ Memᴰ.head e
          | inr m ↦ Memᴰ.tail ((without-Mem key k xs s).1 (ne, m))
        ],
      )
  | inr ge ↦ rw ge (elim (Bool-cases (x == key)) [
    | inl e ↦
        let xk : x ≡ key = (==_iff x key).0 e in
        rw e (
          λ m. (λ q. let far = above k m in omega (arith, far, q, xk), Memᴰ.tail m),
          λ (ne, m). elim (Mem-cons k x xs m) [ inl q ↦ absurd (ne (q ∙ xk)) | inr m ↦ m ],
        )
    | inr e ↦
        let lt : key < x = ground (arith, ge, e) in
        rw e (
          λ m. (
            λ q. elim (Mem-cons k x xs m) [
              | inl z ↦ omega (arith, z, q, lt)
              | inr m ↦ let far = above k m in omega (arith, far, q, lt)
            ],
            m,
          ),
          λ (ne, m). m,
        )
  ])
]

pub without-IsSorted : (key : ℕ) (xs : List ℕ) → IsSorted xs → IsSorted (without key xs)
without-IsSorted key [] s = tt
without-IsSorted key (x ∷ xs) (above, s) = elim (Bool-cases (ltb x key)) [
  | inl lt ↦ rw lt (λ k m. above k (((without-Mem key k xs s).0 m).1), without-IsSorted key xs s)
  | inr ge ↦ rw ge (elim (Bool-cases (x == key)) [ inl e ↦ rw e s | inr e ↦ rw e (above, s) ])
]

pub has-Mem : (key : ℕ) (xs : List ℕ) → IsSorted xs → (has key xs ≡ true) ↔ Memᴰ key xs
has-Mem key [] s = (λ h. cc, λ m. elim m [ ])
has-Mem key (x ∷ xs) (above, s) = elim (Bool-cases (ltb x key)) [
  | inl lt ↦
      let le = (ltb_iff x key).0 lt in
      rw lt (
        λ h. Memᴰ.tail ((has-Mem key xs s).0 h),
        λ m. elim (Mem-cons key x xs m) [
          | inl e ↦ absurd (omega (arith, e, le))
          | inr m ↦ (has-Mem key xs s).1 m
        ],
      )
  | inr ge ↦ rw ge (
    λ h. Memᴰ.head (sym ((==_iff x key).0 h)),
    λ m. elim (Mem-cons key x xs m) [
      | inl e ↦ (==_iff x key).1 (sym e)
      | inr m ↦ let far = above key m in ground (arith, far, ge)
    ],
  )
]

-- A member that none is below, and one that none is above.
abbrev pub IsLeast : ℕ → List ℕ → Type 0
IsLeast m xs = Memᴰ m xs × ((k : ℕ) → Memᴰ k xs → m ≤ k)

abbrev pub IsGreatest : ℕ → List ℕ → Type 0
IsGreatest m xs = Memᴰ m xs × ((k : ℕ) → Memᴰ k xs → k ≤ m)

pub first_key-IsLeast :
    (x : ℕ) (xs : List ℕ) → IsSorted (x ∷ xs) → IsLeast (first_key (x ∷ xs)) (x ∷ xs)
first_key-IsLeast x xs (above, s) = (
  Memᴰ.head refl,
  λ k m. elim (Mem-cons k x xs m) [
    | inl e ↦ omega (arith, e)
    | inr m ↦ let far = above k m in omega (arith, far)
  ],
)

pub last_key-IsGreatest :
    (x : ℕ) (xs : List ℕ) → IsSorted (x ∷ xs) → IsGreatest (last_key (x ∷ xs)) (x ∷ xs)
last_key-IsGreatest x [] s = (
  Memᴰ.head refl,
  λ k m. elim (Mem-cons k x [] m) [ inl e ↦ omega (arith, e) | inr m ↦ elim m [ ] ],
)
last_key-IsGreatest x (y ∷ xs) (above, s) =
    let (there, most) = last_key-IsGreatest y xs s in
    (
      Memᴰ.tail there,
      λ k m. elim (Mem-cons k x (y ∷ xs) m) [
        | inl e ↦ let far = above (last_key (y ∷ xs)) there in omega (arith, e, far)
        | inr m ↦ most k m
      ],
    )
