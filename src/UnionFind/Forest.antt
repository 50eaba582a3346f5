-- ===== src/UnionFind/Forest.antt =====
-- The trees that the parents of sicada/src/data_structures/union_find.rs make.
use sicada.Prelude.{
  ℕ, zero, suc, ◌≡◌, ◌≢◌, refl, sym, ap, ◌∙◌, ◌<◌, ◌≤◌, ◌==◌, ==_iff, true, false, Option, some,
  List, arith,
}
use mathlib.Core.Option.{some-injective}
use sicada.UnionFind.{parent_of, find_root}

-- From `x`, after `n` steps to a parent, the root `r` is reached.
abbrev pub Root : List (Option ℕ) → ℕ → ℕ → ℕ → Type 0
Root parent zero x r = (parent_of parent x ≡ some x) × (x ≡ r)
Root parent (suc n) x r = (p : ℕ) × (parent_of parent x ≡ some p) × (x ≢ p) × Root parent n p r

-- Every element that has a set has a root.
abbrev pub IsForest : List (Option ℕ) → Type 0
IsForest parent = (x p : ℕ) → parent_of parent x ≡ some p → (n : ℕ) × (r : ℕ) × Root parent n x r

module _ (parent : List (Option ℕ)) where
  pub Root-fixed : (n x r : ℕ) → Root parent n x r → parent_of parent r ≡ some r
  Root-fixed zero x r (e, k) = rw⁻¹ k e
  Root-fixed (suc n) x r (p, e, ne, rest) = Root-fixed n p r rest

  pub Root-parent : (n x r : ℕ) → Root parent n x r → (p : ℕ) × (parent_of parent x ≡ some p)
  Root-parent zero x r (e, k) = (x, e)
  Root-parent (suc n) x r (p, e, ne, rest) = (p, e)

  pub Root-unique : (n m x r s : ℕ) → Root parent n x r → Root parent m x s → (n ≡ m) × (r ≡ s)
  Root-unique zero zero x r s (e, k) (e', k') = (refl, sym k ∙ k')
  Root-unique zero (suc m) x r s (e, k) (p, e', ne, rest) =
      absurd (ne (some-injective _ _ (sym e ∙ e')))
  Root-unique (suc n) zero x r s (p, e, ne, rest) (e', k') =
      absurd (ne (some-injective _ _ (sym e' ∙ e)))
  Root-unique (suc n) (suc m) x r s (p, e, ne, rest) (p', e', ne', rest') =
      let same = some-injective _ _ (sym e ∙ e') in
      let (k, k') = Root-unique n m p r s rest (rw same rest') in (ap suc k, k')

  pub find_root-Root :
      (fuel n x r : ℕ) → Root parent n x r → n < fuel → find_root fuel parent x ≡ some r
  unfolding find_root
  find_root-Root zero n x r h k = absurd (omega (arith, k))
  find_root-Root (suc fuel) zero x r (e, k) lt =
      let t : (x == x) ≡ true = (==_iff x x).1 refl in rw (find_root, e, t) (ap some k)
  find_root-Root (suc fuel) (suc n) x r (p, e, ne, rest) lt =
      let t : (x == p) ≡ false = ground arith in
      rw (find_root, e, t) (find_root-Root fuel n p r rest (omega (arith, lt)))

  pub Root-step :
      (n x p r : ℕ)
      → parent_of parent x ≡ some p
      → Root parent n x r
      → (k : ℕ) × (k ≤ n) × Root parent k p r
  Root-step zero x p r e (e', same) =
      let k : p ≡ x = some-injective _ _ (sym e ∙ e') in (0, omega arith, rw k (e', same))
  Root-step (suc n) x p r e (q, e', ne, rest) =
      let k : p ≡ q = some-injective _ _ (sym e ∙ e') in (n, omega arith, rw k rest)
