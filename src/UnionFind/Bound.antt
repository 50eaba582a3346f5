-- ===== src/UnionFind/Bound.antt =====
-- No chain of parents is as long as the table.
use sicada.Prelude.{
  ℕ, zero, suc, ◌≡◌, ◌≤◌, ◌<◌, ◌+◌, ◌==◌, if◌then◌else◌, arith, List, Option, some, none, [], ◌∷◌,
  length,
}
use sicada.UnionFind.{parent_of}
use sicada.UnionFind.Forest.{Root, Root-unique, Root-parent}

-- More than `m` numbers below `m` cannot all differ.
pigeonhole :
    (m n : ℕ) (f : ℕ → ℕ)
    → ((i : ℕ) → i ≤ n → f i < m)
    → ((i j : ℕ) → i ≤ n → j ≤ n → f i ≡ f j → i ≡ j)
    → n < m
pigeonhole zero n f below inj = absurd (omega (arith, below 0 (omega arith)))
pigeonhole (suc m) zero f below inj = omega arith
pigeonhole (suc m) (suc n) f below inj =
    let g : ℕ → ℕ = λ i. if f i == m then f (suc n) else f i in
    let smaller =
      pigeonhole m n g
        (λ i k. ground (
          arith,
          below i (omega (arith, k)),
          below (suc n) (omega arith),
          inj i (suc n) (omega (arith, k)) (omega arith),
        ))
        (λ i j k k' e. ground (
          arith,
          inj i j (omega (arith, k)) (omega (arith, k')),
          inj (suc n) j (omega arith) (omega (arith, k')),
          inj i (suc n) (omega (arith, k)) (omega arith),
        )) in
    omega (arith, smaller)

-- The node that is reached after `i` steps.
step_to : List (Option ℕ) → ℕ → ℕ → ℕ
step_to parent x zero = x
step_to parent x (suc i) = elim (parent_of parent x) [ none ↦ x | some p ↦ step_to parent p i ]

-- After `i` of the `n` steps, the others are left.
step_to-Root :
    (parent : List (Option ℕ)) (n x r i : ℕ)
    → Root parent n x r
    → i ≤ n
    → (k : ℕ) × (k + i ≡ n) × Root parent k (step_to parent x i) r
unfolding step_to
step_to-Root parent n x r zero h k = (n, omega arith, h)
step_to-Root parent zero x r (suc i) h k = absurd (omega (arith, k))
step_to-Root parent (suc n) x r (suc i) (p, e, ne, rest) k =
    let (left, count, there) = step_to-Root parent n p r i rest (omega (arith, k)) in
    (left, omega (arith, count), rw (step_to, e) there)

pub parent_of-lt :
    (parent : List (Option ℕ)) (x p : ℕ) → parent_of parent x ≡ some p → x < length parent
unfolding parent_of
parent_of-lt [] x p e = cc
parent_of-lt (q ∷ parent) zero p e = omega arith
parent_of-lt (q ∷ parent) (suc x) p e = omega (arith, parent_of-lt parent x p e)

pub Root-lt : (parent : List (Option ℕ)) (n x r : ℕ) → Root parent n x r → n < length parent
Root-lt parent n x r h =
    pigeonhole (length parent) n (step_to parent x)
      (λ i k.
        let (left, _, there) = step_to-Root parent n x r i h k in
        let (p, e) = Root-parent parent left (step_to parent x i) r there in
        parent_of-lt parent (step_to parent x i) p e)
      (λ i j k k' e.
        let (left, count, there) = step_to-Root parent n x r i h k in
        let (left', count', there') = step_to-Root parent n x r j h k' in
        let other : Root parent left' (step_to parent x i) r = rw e there' in
        let (same, _) = Root-unique parent left left' (step_to parent x i) r r there other in
        omega (arith, same, count, count'))
