-- ===== src/Rational/UnionLanguage.antt =====
-- What `union` of sicada/src/algorithms/union.rs accepts.
use sicada.Prelude.{
  length-map, ℕ, ◌+◌, ◌≡◌, ◌≢◌, sym, ap, ◌∙◌, ◌↔◌, ◌⊎◌, inl, inr, ◌<◌, List, [], ◌∷◌, ◌++◌, map,
  length, length-append, modify, arith,
}
use mathlib.Core.List.{Memᴰ}
use sicada.Weight.{Weight, IsSemiring}
use sicada.Arc.{Arc, Label, StateId}
use sicada.Rational.Union.{shift_arc, epsilon_arc}
use sicada.Rational.Graph.{Graph, with_arc}
use sicada.Rational.Copy.{shift_node}
use sicada.Rational.Runs.{arcs_at, final_at, IsClosed}
use sicada.Rational.Positions.{
  arcs_at-left, final_at-left, arcs_at-right, final_at-right, arcs_at-shift, final_at-shift,
  arcs_at-modify_ne, arcs_at-with_arc, final_at-with_arc,
}
use sicada.Rational.Language.{AcceptsFrom, copied_accepts, region_accepts}
use sicada.Rational.Join.{fork_accepts, grown_accepts}

module _ {W : Type 0} ⦃w : Weight W⦄ (g1 g2 : Graph W) (n1 : ℕ) (size : n1 ≡ length g1) where
  -- Both FSTs side by side.
  abbrev pub beside : Graph W
  beside = g1 ++ map (shift_node n1) g2

  beside_right : (s : StateId) → arcs_at beside (s + n1) ≡ map (shift_arc n1) (arcs_at g2 s)
  beside_right s =
      arcs_at-right g1 (map (shift_node n1) g2) s (s + n1) (omega (arith, size))
      ∙ arcs_at-shift n1 g2 s

  beside_right_final : (s : StateId) → final_at beside (s + n1) ≡ final_at g2 s
  beside_right_final s =
      final_at-right g1 (map (shift_node n1) g2) s (s + n1) (omega (arith, size))
      ∙ final_at-shift n1 g2 s

  pub length-beside : length beside ≡ n1 + length g2
  length-beside =
      length-append g1 (map (shift_node n1) g2) ∙ omega (arith, size, length-map (shift_node n1) g2)

  module _ (closed1 : IsClosed g1) (closed2 : IsClosed g2) (ins outs : List Label) (v : W) where
    -- More states after them change nothing.
    pub first_accepts :
        (rest : Graph W) (s : StateId)
        → s < length g1
        → AcceptsFrom (beside ++ rest) s ins outs v ↔ AcceptsFrom g1 s ins outs v
    first_accepts rest s k =
        region_accepts g1 (beside ++ rest) (λ r. r < length g1)
          (λ r lt.
            arcs_at-left beside rest r (omega (arith, lt, length-beside, size))
            ∙ arcs_at-left g1 (map (shift_node n1) g2) r lt)
          (λ r lt.
            final_at-left beside rest r (omega (arith, lt, length-beside, size))
            ∙ final_at-left g1 (map (shift_node n1) g2) r lt)
          (λ r a _ m. closed1 r a m) s ins outs v k

    pub second_accepts :
        (rest : Graph W) (s : StateId)
        → s < length g2
        → AcceptsFrom (beside ++ rest) (s + n1) ins outs v ↔ AcceptsFrom g2 s ins outs v
    second_accepts rest s k =
        copied_accepts g2 (beside ++ rest) n1 closed2
          (λ r lt.
            arcs_at-left beside rest (r + n1) (omega (arith, lt, length-beside)) ∙ beside_right r)
          (λ r lt.
            final_at-left beside rest (r + n1) (omega (arith, lt, length-beside))
            ∙ beside_right_final r)
          s ins outs v k

    -- A new start state with an epsilon arc to each.
    pub fork_language :
        IsSemiring w
        → (s1 s2 : StateId) → s1 < length g1
        → s2 < length g2
        → AcceptsFrom
            (beside ++ (w.zero, epsilon_arc s1 ∷ epsilon_arc (s2 + n1) ∷ []) ∷ [])
            (length beside)
            ins
            outs
            v
          ↔ (AcceptsFrom g1 s1 ins outs v ⊎ AcceptsFrom g2 s2 ins outs v)
    fork_language laws s1 s2 k1 k2 =
        let rest : Graph W = (w.zero, epsilon_arc s1 ∷ epsilon_arc (s2 + n1) ∷ []) ∷ [] in
        let (to, from) =
          fork_accepts laws (beside ++ rest) (length beside) s1 (s2 + n1) ins outs v
            (arcs_at-right beside rest 0 (length beside) (omega arith))
            (final_at-right beside rest 0 (length beside) (omega arith)) in
        let (to1, from1) = first_accepts rest s1 k1 in
        let (to2, from2) = second_accepts rest s2 k2 in
        (
          λ h. elim (to h) [ inl k ↦ inl (to1 k) | inr k ↦ inr (to2 k) ],
          λ h. from (elim h [ inl k ↦ inl (from1 k) | inr k ↦ inr (from2 k) ]),
        )

    -- An epsilon arc from the start of the first, which no arc enters.
    pub grown_language :
        IsSemiring w
        → (s1 s2 : StateId) → s1 < length g1
        → s2 < length g2
        → ((r : StateId) (a : Arc W) → Memᴰ a (arcs_at g1 r) → a.nextstate ≢ s1)
        → AcceptsFrom (modify beside s1 (with_arc (epsilon_arc (s2 + n1)))) s1 ins outs v
          ↔ (AcceptsFrom g1 s1 ins outs v ⊎ AcceptsFrom g2 s2 ins outs v)
    grown_language laws s1 s2 k1 k2 no_entry =
        let new = epsilon_arc (s2 + n1) in
        let h = modify beside s1 (with_arc new) in
        let left : (r : StateId) → r < length g1 → arcs_at beside r ≡ arcs_at g1 r =
          λ r lt. arcs_at-left g1 (map (shift_node n1) g2) r lt in
        let (to, from) =
          grown_accepts laws g1 h s1 (s2 + n1) (λ r. (r < length g1) × (r ≢ s1))
            (λ r (lt, ne).
              arcs_at-modify_ne beside s1 r (with_arc new) (λ e. ne (sym e)) ∙ left r lt)
            (λ r (lt, ne).
              final_at-with_arc beside s1 r new ∙ final_at-left g1 (map (shift_node n1) g2) r lt)
            (λ r a _ m. (closed1 r a m, no_entry r a m)) (λ a m. (closed1 s1 a m, no_entry s1 a m))
            (arcs_at-with_arc beside s1 new (omega (arith, k1, length-beside, size))
              ∙ ap (λ as'. as' ++ new ∷ []) (left s1 k1))
            (final_at-with_arc beside s1 s1 new ∙ final_at-left g1 (map (shift_node n1) g2) s1 k1)
            ins outs v in
        let (to2, from2) =
          copied_accepts g2 h n1 closed2
            (λ r lt.
              arcs_at-modify_ne beside s1 (r + n1) (with_arc new) (λ e. omega (arith, e, k1, size))
              ∙ beside_right r)
            (λ r lt. final_at-with_arc beside s1 (r + n1) new ∙ beside_right_final r) s2 ins outs v
            k2 in
        (
          λ x. elim (to x) [ inl k ↦ inl k | inr k ↦ inr (to2 k) ],
          λ x. from (elim x [ inl k ↦ inl k | inr k ↦ inr (from2 k) ]),
        )
