-- ===== src/CompactSet/Dense.antt =====
-- Why CompactSet in sicada/src/data_structures/compact_set.rs may answer by the count alone: a sorted
-- list with as many keys as the interval has numbers holds every one of them.
use sicada.Prelude.{
  ℕ, ◌+◌, ◌≤◌, ◌≡◌, refl, List, [], ◌∷◌, length, inl, inr, leb, leb_iff, Bool-cases, arith,
}
use mathlib.Core.List.{Memᴰ}
use sicada.CompactSet.Keys.{IsSorted}

length-bounded :
    (xs : List ℕ) (low high : ℕ)
    → IsSorted xs
    → ((k : ℕ) → Memᴰ k xs → low ≤ k)
    → ((k : ℕ) → Memᴰ k xs → k ≤ high)
    → low ≤ high + 1
    → length xs + low ≤ high + 1
length-bounded [] low high s least most h = omega (arith, h)
length-bounded (x ∷ xs) low high (above, s) least most h =
    let at_least = least x (Memᴰ.head refl) in
    let at_most = most x (Memᴰ.head refl) in
    let rest =
      length-bounded xs (x + 1) high s (λ k m. let far = above k m in omega (arith, far))
        (λ k m. most k (Memᴰ.tail m)) (omega (arith, at_most)) in
    omega (arith, rest, at_least)

pub dense-Mem :
    (xs : List ℕ) (low high k : ℕ)
    → IsSorted xs
    → ((j : ℕ) → Memᴰ j xs → low ≤ j)
    → ((j : ℕ) → Memᴰ j xs → j ≤ high)
    → length xs + low ≡ high + 1
    → low ≤ k
    → k ≤ high
    → Memᴰ k xs
dense-Mem [] low high k s least most n h1 h2 = absurd (omega (arith, n, h1, h2))
dense-Mem (x ∷ xs) low high k (above, s) least most n h1 h2 =
    let at_least = least x (Memᴰ.head refl) in
    let at_most = most x (Memᴰ.head refl) in
    let further : (j : ℕ) → Memᴰ j xs → x + 1 ≤ j =
      λ j m. let far = above j m in omega (arith, far) in
    let rest =
      length-bounded xs (x + 1) high s further (λ j m. most j (Memᴰ.tail m))
        (omega (arith, at_most)) in
    elim (Bool-cases (leb k x)) [
      | inl le ↦
          let le' = (leb_iff k x).0 le in Memᴰ.head (omega (arith, le', rest, n, at_least, h1))
      | inr gt ↦
          let gt' : x + 1 ≤ k = ground (arith, gt) in
          Memᴰ.tail (
            dense-Mem xs (x + 1) high k s further (λ j m. most j (Memᴰ.tail m))
              (omega (arith, rest, n, at_least)) gt' h2)
    ]
