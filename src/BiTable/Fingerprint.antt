-- ===== src/BiTable/Fingerprint.antt =====
-- The state tuples of sicada/src/data_structures/state_table.rs and the fingerprints that number
-- them. A usize has 64 bits; a state id is a non-negative one. What the filter state is comes from
-- the trait FilterState of sicada/src/algorithms/filter_state.rs.
use sicada.Prelude.{
  ℕ, suc, ◌+◌, ◌-◌, ◌*◌, ◌%◌, ◌^◌, ◌<◌, ◌≤◌, min, ◌≡◌, refl, sym, ap, ◌∙◌, ◌==◌, ◌&&◌, ==_iff, Bool,
  true, false, Bool-cases, leb, leb_iff, arith, inl, inr,
}
use native.Mathlib.Nat.{mul-le-mul_right, mul_comm, min-eq_left}
use sicada.Arc.{StateId}
use sicada.BiTable.Spec.{Eq}

pub record FilterState (S : Type 0) : Type 0 where
  pub no_state : S
  pub hash_value : S → ℕ

abbrev pub wrapping_add : ℕ → ℕ → ℕ
wrapping_add a b = (a + b) % 2 ^ 64

abbrev pub wrapping_mul : ℕ → ℕ → ℕ
wrapping_mul a b = a * b % 2 ^ 64

abbrev pub saturating_mul : ℕ → ℕ → ℕ
saturating_mul a b = min (a * b) (2 ^ 64 - 1)

pub record DefaultComposeStateTuple (S : Type 0) : Type 0 where
  pub state_id1 : StateId
  pub state_id2 : StateId
  pub fs : S

pub record ComposeFingerprint : Type 0 where
  pub mult1 : ℕ
  pub mult2 : ℕ

abbrev pub made : ℕ → ℕ → ComposeFingerprint
made nstates1 nstates2 = record { mult1 = nstates1; mult2 = saturating_mul nstates1 nstates2 }

module _ {S : Type 0} ⦃f : FilterState S⦄ where
  unfoldable pub fingerprint : ComposeFingerprint → DefaultComposeStateTuple S → ℕ
  fingerprint p t =
      wrapping_add (wrapping_add t.state_id1 (wrapping_mul t.state_id2 p.mult1))
        (wrapping_mul (f.hash_value t.fs) p.mult2)

abbrev pub fingerprint1 : {S : Type 0} → DefaultComposeStateTuple S → ℕ
fingerprint1 t = t.state_id1

abbrev pub fingerprint2 : {S : Type 0} → DefaultComposeStateTuple S → ℕ
fingerprint2 t = t.state_id2

-- A number of two digits is below the product of their bounds.
digits_lt : (x y n m : ℕ) → x < n → y < m → x + y * n < m * n
digits_lt x y n m hx hy =
    let below : suc y * n ≤ m * n = mul-le-mul_right n (omega (arith, hy)) in omega arith

digits_le : (y y' n x x' : ℕ) → x < n → x + y * n ≡ x' + y' * n → y' ≤ y
digits_le y y' n x x' hx h = elim (Bool-cases (leb y' y)) [
  | inl k ↦ (leb_iff y' y).0 k
  | inr k ↦
      let above : suc y ≤ y' = ground arith in
      let far : suc y * n ≤ y' * n = mul-le-mul_right n above in absurd (omega arith)
]

-- The digits are in the number.
digits_unique : (x x' y y' n : ℕ) → x < n → x' < n → x + y * n ≡ x' + y' * n → (x ≡ x') × (y ≡ y')
digits_unique x x' y y' n hx hx' h =
    let a = digits_le y y' n x x' hx h in
    let b = digits_le y' y n x' x hx' (sym h) in
    let same : y ≡ y' = omega arith in
    let low : x + y * n ≡ x' + y * n = h ∙ ap (λ z. x' + z * n) (sym same) in
    (omega (arith, low), same)

word_mod : (a : ℕ) → a < 2 ^ 64 → a % 2 ^ 64 ≡ a
word_mod a h = omega arith

module _ {S : Type 0} ⦃f : FilterState S⦄ (limit n1 n2 : ℕ) where
  -- A tuple of two inputs that have `n1` and `n2` states.
  abbrev pub InRange : DefaultComposeStateTuple S → Type 0
  InRange t = (t.state_id1 < n1) × (t.state_id2 < n2) × (f.hash_value t.fs < limit)

  -- The number as three digits; nothing wraps or saturates.
  fingerprint-digits :
      (t : DefaultComposeStateTuple S)
      → limit * (n2 * n1) < 2 ^ 64
      → InRange t
      → (fingerprint (made n1 n2) t
          ≡ t.state_id1 + t.state_id2 * n1 + f.hash_value t.fs * (n2 * n1))
        × (t.state_id1 + t.state_id2 * n1 < n2 * n1)
  unfolding fingerprint
  fingerprint-digits t fits (in1, in2, in3) =
      let s1 = t.state_id1 in
      let s2 = t.state_id2 in
      let h = f.hash_value t.fs in
      let low : s1 + s2 * n1 < n2 * n1 = digits_lt s1 s2 n1 n2 in1 in2 in
      let high : suc h * (n2 * n1) ≤ limit * (n2 * n1) =
        mul-le-mul_right (n2 * n1) (omega (arith, in3)) in
      let sum : s1 + s2 * n1 + h * (n2 * n1) < 2 ^ 64 = omega (arith, low, high, fits) in
      let whole : n1 * n2 ≤ 2 ^ 64 - 1 = omega (arith, high, fits, mul_comm n1 n2) in
      let mult2 : saturating_mul n1 n2 ≡ n2 * n1 = min-eq_left whole ∙ mul_comm n1 n2 in
      (rw mult2 (omega (arith, sum, low)), low)

  pub fingerprint-lt :
      (t : DefaultComposeStateTuple S)
      → limit * (n2 * n1) < 2 ^ 64
      → InRange t
      → fingerprint (made n1 n2) t < limit * (n2 * n1)
  fingerprint-lt t fits inside =
      let (digits, low) = fingerprint-digits t fits inside in
      omega (
        arith,
        digits,
        digits_lt (t.state_id1 + t.state_id2 * n1) (f.hash_value t.fs) (n2 * n1) limit low
            (inside.2),
      )

  -- Two tuples of a product that a usize can count have the same fingerprint only where their states
  -- and the hashes of their filter states are the same: nothing wraps or saturates.
  pub fingerprint-injective :
      (a b : DefaultComposeStateTuple S)
      → limit * (n2 * n1) < 2 ^ 64
      → InRange a
      → InRange b
      → fingerprint (made n1 n2) a ≡ fingerprint (made n1 n2) b
      → (a.state_id1 ≡ b.state_id1)
        × (a.state_id2 ≡ b.state_id2)
        × (f.hash_value a.fs ≡ f.hash_value b.fs)
  fingerprint-injective a b fits ina inb h =
      let (ea, la) = fingerprint-digits a fits ina in
      let (eb, lb) = fingerprint-digits b fits inb in
      let (low, fs) =
        digits_unique (a.state_id1 + a.state_id2 * n1) (b.state_id1 + b.state_id2 * n1)
          (f.hash_value a.fs) (f.hash_value b.fs) (n2 * n1) la lb (sym ea ∙ h ∙ eb) in
      let (s1, s2) =
        digits_unique a.state_id1 b.state_id1 a.state_id2 b.state_id2 n1 (ina.0) (inb.0) low in
      (s1, s2, fs)

pub tuple_ext :
    {S : Type 0} (a b : DefaultComposeStateTuple S)
    → a.state_id1 ≡ b.state_id1
    → a.state_id2 ≡ b.state_id2
    → a.fs ≡ b.fs
    → a ≡ b
tuple_ext a b h1 h2 h3 = λ i. record { state_id1 = h1 i; state_id2 = h2 i; fs = h3 i }

and_both : (a b : Bool) → (a && b) ≡ true → (a ≡ true) × (b ≡ true)
and_both true true h = (refl, refl)
and_both true false h = cc
and_both false b h = cc

module _ {S : Type 0} ⦃e : Eq S⦄ where
  unfoldable pub same_tuple : DefaultComposeStateTuple S → DefaultComposeStateTuple S → Bool
  same_tuple a b = a.state_id1 == b.state_id1 && (a.state_id2 == b.state_id2 && e.beq a.fs b.fs)

  pub same_tuple_sound : (a b : DefaultComposeStateTuple S) → same_tuple a b ≡ true → a ≡ b
  unfolding same_tuple
  same_tuple_sound a b h =
      let (h1, rest) =
        and_both (a.state_id1 == b.state_id1) (a.state_id2 == b.state_id2 && e.beq a.fs b.fs) h in
      let (h2, h3) = and_both (a.state_id2 == b.state_id2) (e.beq a.fs b.fs) rest in
      tuple_ext a b ((==_iff a.state_id1 b.state_id1).0 h1) ((==_iff a.state_id2 b.state_id2).0 h2)
        ((e.beq_iff a.fs b.fs).0 h3)

  pub same_tuple_self : (a : DefaultComposeStateTuple S) → same_tuple a a ≡ true
  unfolding same_tuple
  same_tuple_self a =
      rw
        (
          (==_iff a.state_id1 a.state_id1).1 refl,
          (==_iff a.state_id2 a.state_id2).1 refl,
          (e.beq_iff a.fs a.fs).1 refl,
        )
        refl

  -- The derived `==`.
  instance unfoldable pub tuple_eq : Eq (DefaultComposeStateTuple S)
  tuple_eq = record {
    beq = same_tuple;
    beq_iff = λ a b. (same_tuple_sound a b, λ h. ap (same_tuple a) (sym h) ∙ same_tuple_self a);
  }
