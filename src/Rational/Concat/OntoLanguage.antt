-- ===== src/Rational/Concat/OntoLanguage.antt =====
-- `concat_onto` of sicada/src/algorithms/concat.rs: what the result accepts.
use sicada.Prelude.{
  ℕ, ◌+◌, ◌≡◌, refl, sym, ap, ◌∙◌, ◌↔◌, inl, inr, ◌<◌, true, Bool-cases, ==-false, Option-cases,
  none, some, List, [], ◌∷◌, ◌++◌, map, length, length-map, length-append, arith,
}
use mathlib.Core.List.{Memᴰ}
use sicada.Weight.{Weight, IsSemiring}
use sicada.Arc.{Label, StateId, no_state}
use sicada.Symbols.{compat_symbols}
use sicada.Properties.Flags.{error}
use sicada.VectorFst.Defs
use sicada.VectorFst.Defs.{VectorFst}
use sicada.Rational.Graph.{Graph, graph, node, add_state-graph}
use sicada.Rational.Runs.{arcs_at, final_at, Accepts}
use sicada.Rational.Language.{AcceptsFrom, Accepts-from, region_accepts}
use sicada.Rational.Positions.{arcs_at-left, final_at-left, arcs_at-right, final_at-right}
use sicada.Rational.Union.{Outcome, shift_arc}
use sicada.Rational.UnionCalls.{IsWhole}
use sicada.Rational.UnionCorrect.{iff_trans, Accepts-same, Accepts-none}
use sicada.Rational.Exits.{HasExits, prepended-HasExits}
use sicada.Rational.Sequel.{Then, sequel_accepts}
use sicada.Rational.Concat.{prepend_states, concat_onto_compat, concat_onto}
use sicada.Rational.Concat.Language.{Then-iff}
use sicada.Rational.Concat.Onto.{
  onto_node, prepend_states-graph, arcs_at-onto_node, final_at-onto_node,
}

module _ {W : Type 0} ⦃w : Weight W⦄ where
  onto-unstarted :
      (fst1 fst2 : VectorFst W) → fst2.start ≡ none → (concat_onto_compat fst1 fst2).start ≡ none
  unfolding concat_onto_compat Defs.set_properties
  onto-unstarted fst1 fst2 e = elim (Bool-cases (fst1.properties error)) [
    | inl k ↦ rw (concat_onto_compat, e, k) e
    | inr k ↦ rw (concat_onto_compat, e, k) e
  ]

  module _ (fst1 fst2 : VectorFst W) (s2 : StateId) (e2 : fst2.start ≡ some s2) where
    abbrev onto : Graph W
    onto = graph fst2 ++ map (onto_node (length fst2.states) s2) (graph fst1)

    length-onto : length onto ≡ length fst2.states + length fst1.states
    length-onto = omega (
      arith,
      length-append (graph fst2) (map (onto_node (length fst2.states) s2) (graph fst1)),
      length-map (onto_node (length fst2.states) s2) (graph fst1),
      length-map node fst2.states,
      length-map node fst1.states,
    )

    onto-started :
        (s1 : StateId)
        → fst1.start ≡ some s1
        → s1 + length fst2.states < no_state
        → (graph (concat_onto_compat fst1 fst2) ≡ onto)
          × ((concat_onto_compat fst1 fst2).start ≡ some (s1 + length fst2.states))
    unfolding concat_onto_compat Defs.set_properties Defs.set_start
    onto-started s1 e1 bound =
        let (g, st) = prepend_states-graph (length fst2.states) s2 fst1.states fst2 in
        let real = ==-false (s1 + length fst2.states) no_state (λ e. omega (arith, e, bound)) in
        (rw (concat_onto_compat, e2, e1) g, rw (concat_onto_compat, e2, e1, real) refl)

    -- The start state without a way out.
    onto-dead :
        fst1.start ≡ none
        → length fst1.states + length fst2.states < no_state
        → (graph (concat_onto_compat fst1 fst2) ≡ onto ++ (w.zero, []) ∷ [])
          × ((concat_onto_compat fst1 fst2).start ≡ some (length onto))
    unfolding concat_onto_compat Defs.set_start
    onto-dead e1 bound =
        let joined = prepend_states (length fst2.states) s2 fst1.states fst2 in
        let (g, st) = prepend_states-graph (length fst2.states) s2 fst1.states fst2 in
        let size : length joined.states ≡ length onto =
          sym (length-map node joined.states) ∙ ap length g in
        let real =
          ==-false (length joined.states) no_state
            (λ e. omega (arith, e, bound, size, length-onto)) in
        (
          rw (concat_onto_compat, e2, e1)
              (add_state-graph joined ∙ ap (λ x. x ++ (w.zero, []) ∷ []) g),
          rw (concat_onto_compat, e2, e1, real) (ap some size),
        )

module _ {W : Type 0} ⦃w : Weight W⦄ (laws : IsSemiring w) where
  dead_end :
      (h : Graph W) (s : StateId) (ins outs : List Label) (v : W)
      → arcs_at h s ≡ []
      → final_at h s ≡ w.zero
      → AcceptsFrom h s ins outs v
      → ⊥
  dead_end h s ins outs v arcs final (q, [], e, (fin, i, o, total)) =
      let same = (laws.eq_iff w.zero w.zero).1 refl in let fin0 = rw (← e, final) at fin in cc
  dead_end h s ins outs v arcs final (q, a ∷ p, (m, run), carries) =
      let m' : Memᴰ a [] = rw arcs at m in elim m' [ ]

module _ {W : Type 0} ⦃w : Weight W⦄ (laws : IsSemiring w) (fst1 fst2 : VectorFst W)
    (whole1 : IsWhole fst1) (whole2 : IsWhole fst2)
    (bound : length fst1.states + length fst2.states < no_state) (ins outs : List Label)
    (v : W) where
  abbrev Both : Type 0
  Both = Then (Accepts (graph fst1) fst1.start) (Accepts (graph fst2) fst2.start) ins outs v

  abbrev Result : Type 0
  Result =
      Accepts (graph (concat_onto_compat fst1 fst2)) (concat_onto_compat fst1 fst2).start ins outs v

  start1_lt : (s1 : StateId) → fst1.start ≡ some s1 → s1 < length (graph fst1)
  start1_lt s1 e = omega (arith, whole1.start_lt s1 e, length-map node fst1.states)

  start2_lt : (s2 : StateId) → fst2.start ≡ some s2 → s2 < length (graph fst2)
  start2_lt s2 e = omega (arith, whole2.start_lt s2 e, length-map node fst2.states)

  module _ (s2 : StateId) (e2 : fst2.start ≡ some s2) where
    abbrev n2 : ℕ
    n2 = length fst2.states

    abbrev h : Graph W
    h = graph fst2 ++ map (onto_node n2 s2) (graph fst1)

    onto-HasExits : HasExits (graph fst1) h (λ s. s + n2) s2
    unfolding shift_arc
    onto-HasExits =
        prepended-HasExits (graph fst1) h (λ s. s + n2) s2 whole1.closed
          (λ s k.
            arcs_at-right (graph fst2) (map (onto_node n2 s2) (graph fst1)) s (s + n2)
              (omega (arith, length-map node fst2.states))
            ∙ arcs_at-onto_node n2 s2 (graph fst1) s k)

    onto_final : (s : StateId) → s < length (graph fst1) → final_at h (s + n2) ≡ w.zero
    onto_final s k =
        final_at-right (graph fst2) (map (onto_node n2 s2) (graph fst1)) s (s + n2)
          (omega (arith, length-map node fst2.states))
        ∙ final_at-onto_node n2 s2 (graph fst1) s

    onto_second :
        (i o : List Label) (x : W) → AcceptsFrom h s2 i o x ↔ AcceptsFrom (graph fst2) s2 i o x
    onto_second i o x =
        region_accepts (graph fst2) h (λ r. r < length (graph fst2))
          (λ r lt. arcs_at-left (graph fst2) (map (onto_node n2 s2) (graph fst1)) r lt)
          (λ r lt. final_at-left (graph fst2) (map (onto_node n2 s2) (graph fst1)) r lt)
          (λ r a _ m. whole2.closed r a m) s2 i o x (start2_lt s2 e2)

    both_started : (s1 : StateId) → fst1.start ≡ some s1 → Result ↔ Both
    both_started s1 e1 =
        let k1 = start1_lt s1 e1 in
        let (g, st) =
          onto-started fst1 fst2 s2 e2 s1 e1
            (omega (arith, k1, bound, length-map node fst1.states)) in
        iff_trans
          (Accepts-same (graph (concat_onto_compat fst1 fst2)) h
            (concat_onto_compat fst1 fst2).start (some (s1 + n2)) ins outs v g st)
          (iff_trans (Accepts-from h (s1 + n2) ins outs v) (
            iff_trans
              (sequel_accepts laws (graph fst1) h (λ s. s + n2) s2 onto-HasExits onto_final s1 ins
                outs v k1)
              (Then-iff (AcceptsFrom (graph fst1) s1) (AcceptsFrom h s2)
                (Accepts (graph fst1) fst1.start) (Accepts (graph fst2) fst2.start) ins outs v
                (λ i o x. let (to, from) = Accepts-from (graph fst1) s1 i o x in rw e1 (from, to))
                (λ i o x.
                  let (to, from) = Accepts-from (graph fst2) s2 i o x in
                  let (to2, from2) = onto_second i o x in
                  rw e2 (λ a. from (to2 a), λ a. from2 (to a))))))

    first_unstarted : fst1.start ≡ none → Result → ⊥
    first_unstarted e1 a =
        let (g, st) = onto-dead fst1 fst2 s2 e2 e1 bound in
        let dead : Graph W = (w.zero, []) ∷ [] in
        let a' =
          (iff_trans
              (Accepts-same (graph (concat_onto_compat fst1 fst2)) (h ++ dead)
                (concat_onto_compat fst1 fst2).start (some (length h)) ins outs v g st)
              (Accepts-from (h ++ dead) (length h) ins outs v)).0
            a in
        dead_end laws (h ++ dead) (length h) ins outs v
          (arcs_at-right h dead 0 (length h) (omega arith))
          (final_at-right h dead 0 (length h) (omega arith)) a'

  onto_compat_language : Result ↔ Both
  onto_compat_language = elim (Option-cases fst2.start) [
    | inl e2 ↦ (
      λ a. absurd (
          Accepts-none (graph (concat_onto_compat fst1 fst2)) (concat_onto_compat fst1 fst2).start
            ins outs v (onto-unstarted fst1 fst2 e2) a),
      λ (i1, o1, i2, o2, v1, v2, ei, eo, ev, a, b).
          absurd (Accepts-none (graph fst2) fst2.start i2 o2 v2 e2 b),
    )
    | inr (s2, e2) ↦ elim (Option-cases fst1.start) [
      | inl e1 ↦ (
        λ a. absurd (first_unstarted s2 e2 e1 a),
        λ (i1, o1, i2, o2, v1, v2, ei, eo, ev, a, b).
            absurd (Accepts-none (graph fst1) fst1.start i1 o1 v1 e1 a),
      )
      | inr (s1, e1) ↦ both_started s2 e2 s1 e1
    ]
  ]

module _ {W : Type 0} ⦃w : Weight W⦄ where
  -- Over a semiring, for two FSTs whose arcs and starts lead to states of theirs, with symbol tables
  -- that agree and fewer states together than the largest word: `concat_onto` succeeds, and what it
  -- makes of the second FST accepts a pair of strings with a weight exactly when they are a pair
  -- that the first FST accepts followed by one that the second did, and the weight is the product
  -- of theirs.
  pub concat_onto_language :
      IsSemiring w
      → (fst1 fst2 : VectorFst W) → compat_symbols fst1.isymbols fst2.isymbols ≡ true
      → compat_symbols fst1.osymbols fst2.osymbols ≡ true
      → IsWhole fst1
      → IsWhole fst2
      → length fst1.states + length fst2.states < no_state
      → (u : VectorFst W) × (concat_onto fst1 fst2 ≡ Outcome.done u)
        × ((ins outs : List Label) (v : W)
            → Accepts (graph u) u.start ins outs v
              ↔ Then (Accepts (graph fst1) fst1.start) (Accepts (graph fst2) fst2.start) ins outs v)
  unfolding concat_onto
  concat_onto_language laws fst1 fst2 icompat ocompat whole1 whole2 bound = (
    concat_onto_compat fst1 fst2,
    rw (concat_onto, icompat, ocompat) refl,
    onto_compat_language laws fst1 fst2 whole1 whole2 bound,
  )
