-- ===== src/Filters/Paths.antt =====
-- Paths through an FST and the labels on one of their sides. The side is a function from arcs to
-- labels, so that the filters for either order share what is proved here.
use sicada.Prelude.{
  ℕ, suc, ◌≤◌, ◌<◌, ◌≡◌, refl, sym, ◌∙◌, ◌≢◌, Bool, true, false, not, List, [], ◌∷◌, ◌==◌, ==_iff,
  Bool-cases, if◌then◌else◌, length, arith, inl, inr, ◌&&◌,
}
use mathlib.Core.List.{Memᴰ}
use sicada.Weight.{Weight}
use sicada.Arc.{Arc, Label, StateId, epsilon, no_label, no_state}
use sicada.VectorFst.Delete.{count_input, count_output}
use sicada.Fst.{Fst, IsFst, is_final}

module _ {W : Type 0} where
  abbrev pub output : Arc W → Label
  output a = a.olabel

  abbrev pub input : Arc W → Label
  input a = a.ilabel

  module _ (side : Arc W → Label) where
    -- The labels of a path on this side, epsilons left out.
    abbrev pub labels : List (Arc W) → List Label
    labels [] = []
    labels (a ∷ p) = if side a == epsilon then labels p else side a ∷ labels p

    -- The path does not begin with an epsilon.
    abbrev pub starts_real : List (Arc W) → Bool
    starts_real [] = true
    starts_real (a ∷ p) = not (side a == epsilon)

    abbrev pub count : List (Arc W) → ℕ
    count [] = 0
    count (a ∷ as') = if side a == epsilon then suc (count as') else count as'

    pub count-le : (as' : List (Arc W)) → count as' ≤ length as'
    count-le [] = omega arith
    count-le (a ∷ as') = ground (arith, count-le as')

    pub count-pos : (a : Arc W) (as' : List (Arc W)) → Memᴰ a as' → side a ≡ epsilon → 1 ≤ count as'
    count-pos a [] m e = elim m [ ]
    count-pos a (b ∷ as') (Memᴰ.head h) e =
        let k : (side b == epsilon) ≡ true = rw⁻¹ h ((==_iff (side a) epsilon).1 e) in
        rw k (omega arith)
    count-pos a (b ∷ as') (Memᴰ.tail m) e = ground (arith, count-pos a as' m e)

    pub count-lt :
        (a : Arc W) (as' : List (Arc W)) → Memᴰ a as' → side a ≢ epsilon → count as' < length as'
    count-lt a [] m e = elim m [ ]
    count-lt a (b ∷ as') (Memᴰ.head h) e = elim (Bool-cases (side b == epsilon)) [
      | inl k ↦ absurd (e (rw h ((==_iff (side b) epsilon).0 k)))
      | inr k ↦ rw k (omega (arith, count-le as'))
    ]
    count-lt a (b ∷ as') (Memᴰ.tail m) e = ground (arith, count-lt a as' m e)

  pub labels-skip :
      (side : Arc W → Label) (a : Arc W) (p : List (Arc W))
      → side a ≡ epsilon
      → labels side (a ∷ p) ≡ labels side p
  labels-skip side a p e = rw e refl

  pub labels-keep :
      (side : Arc W → Label) (a : Arc W) (p : List (Arc W))
      → side a ≢ epsilon
      → labels side (a ∷ p) ≡ side a ∷ labels side p
  labels-keep side a p ne = let k : (side a == epsilon) ≡ false = ground arith in rw k refl

  pub labels-nil :
      (side : Arc W → Label) (a : Arc W) (p : List (Arc W))
      → labels side (a ∷ p) ≡ []
      → (side a ≡ epsilon) × (labels side p ≡ [])
  labels-nil side a p e = elim (Bool-cases (side a == epsilon)) [
    | inl k ↦ ((==_iff (side a) epsilon).0 k, rw k at e)
    | inr k ↦ let e' = rw k at e in cc
  ]

  pub labels_meet :
      (side other : Arc W → Label) (a b : Arc W) (p q : List (Arc W))
      → side a ≢ epsilon
      → other b ≢ epsilon
      → labels side (a ∷ p) ≡ labels other (b ∷ q)
      → (side a ≡ other b) × (labels side p ≡ labels other q)
  labels_meet side other a b p q ne ne' e =
      let k = sym (labels-keep side a p ne) ∙ e ∙ labels-keep other b q ne' in (cc, cc)

  pub starts_real-ne :
      (side : Arc W → Label) (a : Arc W) (p : List (Arc W))
      → side a ≢ epsilon
      → starts_real side (a ∷ p) ≡ true
  starts_real-ne side a p ne = let k : (side a == epsilon) ≡ false = ground arith in rw k refl

  pub count_output-count : (as' : List (Arc W)) → count_output as' ≡ count output as'
  unfolding count_output
  count_output-count [] = refl
  count_output-count (a ∷ as') = ground (arith, count_output-count as')

  pub count_input-count : (as' : List (Arc W)) → count_input as' ≡ count input as'
  unfolding count_input
  count_input-count [] = refl
  count_input-count (a ∷ as') = ground (arith, count_input-count as')

module _ {W : Type 0} ⦃w : Weight W⦄ where
  -- A path from a state to a final one: its arcs leave the states that it passes, and none of its
  -- labels on the side is the word for no label.
  abbrev pub IsPath : Fst W → (Arc W → Label) → StateId → List (Arc W) → Type 0
  IsPath fst side s [] = is_final fst s ≡ true
  IsPath fst side s (a ∷ p) =
      Memᴰ a (fst.arcs s) × (side a ≢ no_label) × IsPath fst side a.nextstate p

  pub IsPath-ne :
      (fst : Fst W) (side : Arc W → Label) (s : StateId) (p : List (Arc W))
      → IsFst fst
      → IsPath fst side s p
      → s ≢ no_state
  IsPath-ne fst side s [] laws h e = let k = rw (e, laws.no_state_final) at h in cc
  IsPath-ne fst side s (a ∷ p) laws h e =
      let k : Memᴰ a [] = rw (e, laws.no_state_arcs) at h.0 in elim k [ ]

  -- What the counts at a state say of the paths from it.
  pub none-starts_real :
      (fst : Fst W) (side : Arc W → Label) (s : StateId) (p : List (Arc W)) (n : ℕ)
      → n ≡ count side (fst.arcs s)
      → (n == 0) ≡ true
      → IsPath fst side s p
      → starts_real side p ≡ true
  none-starts_real fst side s [] n e k h = refl
  none-starts_real fst side s (a ∷ p) n e k h = elim (Bool-cases (side a == epsilon)) [
    | inl eps ↦
        let some_eps = count-pos side a (fst.arcs s) h.0 ((==_iff (side a) epsilon).0 eps) in
        ground (arith, (==_iff n 0).0 k, some_eps, e)
    | inr eps ↦ rw eps refl
  ]

  pub starts_real-all :
      (fst : Fst W) (side : Arc W → Label) (s : StateId) (p : List (Arc W)) (m n : ℕ)
      → m ≡ length (fst.arcs s)
      → n ≡ count side (fst.arcs s)
      → starts_real side p ≡ true
      → IsPath fst side s p
      → (m == n && not (is_final fst s)) ≡ false
  starts_real-all fst side s [] m n em en real h = rw h (ground arith)
  starts_real-all fst side s (a ∷ p) m n em en real h = elim (Bool-cases (side a == epsilon)) [
    | inl eps ↦ let k = rw eps at real in cc
    | inr eps ↦
        let ne : side a ≢ epsilon = λ e. ground (arith, (==_iff (side a) epsilon).1 e) in
        let few = count-lt side a (fst.arcs s) h.0 ne in
        let k : (m == n) ≡ false = ground (arith, few, em, en) in rw k refl
  ]
