-- ===== src/Weight.antt =====
-- sicada/src/weight.rs: the trait that every weight implements, and the semiring laws that the
-- algorithms ask of it (the module `axioms` there checks them on samples).
use sicada.Prelude.{ℕ, suc, ◌≡◌, ◌↔◌, Bool, true, not, ◌&&◌}
use sicada.Prelude

pub record Weight (W : Type 0) : Type 0 where
  pub zero : W
  pub one : W
  pub plus : W → W → W
  pub times : W → W → W
  -- `==`, which the source takes from `PartialEq`.
  pub eq : W → W → Bool

-- The semiring laws, and that `==` is equality.
pub record IsSemiring {W : Type 0} (w : Weight W) : Type 0 where
  pub eq_iff : (a b : W) → (w.eq a b ≡ true) ↔ (a ≡ b)
  pub plus_assoc : (a b c : W) → w.plus (w.plus a b) c ≡ w.plus a (w.plus b c)
  pub plus_comm : (a b : W) → w.plus a b ≡ w.plus b a
  pub zero_plus : (a : W) → w.plus w.zero a ≡ a
  pub times_assoc : (a b c : W) → w.times (w.times a b) c ≡ w.times a (w.times b c)
  pub one_times : (a : W) → w.times w.one a ≡ a
  pub times_one : (a : W) → w.times a w.one ≡ a
  pub zero_times : (a : W) → w.times w.zero a ≡ w.zero
  pub times_zero : (a : W) → w.times a w.zero ≡ w.zero
  pub times_plus : (a b c : W) → w.times a (w.plus b c) ≡ w.plus (w.times a b) (w.times a c)
  pub plus_times : (a b c : W) → w.times (w.plus b c) a ≡ w.plus (w.times b a) (w.times c a)

module _ {W : Type 0} ⦃w : Weight W⦄ where
  -- `weight ⊗ … ⊗ weight`, the loop from `one` on.
  pub power_loop : W → ℕ → W → W
  power_loop weight Prelude.zero result = result
  power_loop weight (suc n) result = power_loop weight n (w.times result weight)

  pub power : W → ℕ → W
  unfolding power_loop
  power weight n = power_loop weight n w.one

  pub natural_less : W → W → Bool
  natural_less lhs rhs = not (w.eq lhs rhs) && w.eq (w.plus lhs rhs) lhs
