-- ===== src/Rational/UnionCalls.antt =====
-- The calls that `union` of sicada/src/algorithms/union.rs makes, and the FST that they leave.
use sicada.Prelude.{
  length-map, ◌+◌, ◌≡◌, ◌≢◌, refl, sym, ap, ◌∙◌, inl, inr, ◌<◌, ==-false, Bool, true, false,
  Bool-cases, none, some, [], ◌∷◌, ◌++◌, length, modify, arith,
}
use mathlib.Core.List.{Memᴰ}
use sicada.Weight.{Weight}
use sicada.Arc.{Arc, StateId, no_state}
use sicada.Properties.Flags.{initial_acyclic, error}
use sicada.VectorFst.Defs
use sicada.VectorFst.Defs.{VectorFst}
use sicada.VectorFst.States.{add_arc-start}
use sicada.Rational.Union.{epsilon_arc, copy_states, join, union_compat}
use sicada.Rational.Graph.{graph, node, with_arc, modify-last, add_arc-graph, add_state-graph}
use sicada.Rational.Copy.{copy_states-graph, copy_states-start}
use sicada.Rational.Runs.{arcs_at, IsClosed}
use sicada.Rational.UnionLanguage.{beside}

module _ {W : Type 0} ⦃w : Weight W⦄ where
  -- Every arc and the start lead to a state of the FST.
  pub record IsWhole (fst : VectorFst W) : Type 0 where
    pub closed : IsClosed (graph fst)
    pub start_lt : (s : StateId) → fst.start ≡ some s → s < length fst.states

  -- The bit that `union` trusts: where it is set, no arc enters the start.
  abbrev pub HonestStart : VectorFst W → Type 0
  HonestStart fst =
      fst.properties initial_acyclic ≡ true
      → (s r : StateId) (a : Arc W) → fst.start ≡ some s
      → Memᴰ a (arcs_at (graph fst) r)
      → a.nextstate ≢ s

  pub join-grown :
      (s1 t : StateId) (fst : VectorFst W)
      → (graph (join true s1 t fst) ≡ modify (graph fst) s1 (with_arc (epsilon_arc t)))
        × ((join true s1 t fst).start ≡ fst.start)
  unfolding join
  join-grown s1 t fst = (add_arc-graph fst s1 (epsilon_arc t), add_arc-start fst s1 (epsilon_arc t))

  pub join-forked :
      (s1 t : StateId) (fst : VectorFst W)
      → length fst.states < no_state
      → (graph (join false s1 t fst)
          ≡ graph fst ++ (w.zero, epsilon_arc s1 ∷ epsilon_arc t ∷ []) ∷ [])
        × ((join false s1 t fst).start ≡ some (length (graph fst)))
  unfolding join Defs.set_start
  join-forked s1 t fst bound =
      let ns = length fst.states in
      let size : ns ≡ length (graph fst) = sym (length-map node fst.states) in
      let started = Defs.set_start (Defs.add_state fst) ns in
      let first = Defs.add_arc started ns (epsilon_arc s1) in
      (
        add_arc-graph first ns (epsilon_arc t)
            ∙ ap (λ g. modify g ns (with_arc (epsilon_arc t)))
                (add_arc-graph started ns (epsilon_arc s1)
                  ∙ ap (λ g. modify g ns (with_arc (epsilon_arc s1))) (add_state-graph fst))
            ∙ rw size (
                ap (λ g. modify g (length (graph fst)) (with_arc (epsilon_arc t)))
                  (modify-last (graph fst) (w.zero, []) (with_arc (epsilon_arc s1)))
                ∙ modify-last (graph fst) (w.zero, epsilon_arc s1 ∷ []) (with_arc (epsilon_arc t))),
        add_arc-start first ns (epsilon_arc t)
            ∙ add_arc-start started ns (epsilon_arc s1)
            ∙ rw (==-false ns no_state (λ e. omega (arith, e, bound))) (ap some size),
      )

  abbrev pub copied : VectorFst W → VectorFst W → VectorFst W
  copied fst1 fst2 = copy_states (length fst1.states) fst2.states fst1

  -- The copied FST, in both readings.
  pub copied_graph :
      (fst1 fst2 : VectorFst W)
      → graph (copy_states (length fst1.states) fst2.states fst1)
        ≡ beside (graph fst1) (graph fst2) (length fst1.states) (sym (length-map node fst1.states))
  copied_graph fst1 fst2 = copy_states-graph (length fst1.states) fst2.states fst1

  -- What `union_compat` returns in each of its cases.
  pub second_empty :
      (fst1 fst2 : VectorFst W)
      → fst2.start ≡ none
      → (graph (union_compat fst1 fst2) ≡ graph fst1)
        × ((union_compat fst1 fst2).start ≡ fst1.start)
  unfolding union_compat Defs.set_properties
  second_empty fst1 fst2 e = elim (Bool-cases (fst2.properties error)) [
    | inl k ↦ (rw (union_compat, e, k) refl, rw (union_compat, e, k) refl)
    | inr k ↦ (rw (union_compat, e, k) refl, rw (union_compat, e, k) refl)
  ]

  module _ (fst1 fst2 : VectorFst W) (s2 : StateId) (e2 : fst2.start ≡ some s2) where
    pub first_empty :
        s2 + length fst1.states < no_state
        → fst1.start ≡ none
        → (graph (union_compat fst1 fst2) ≡ graph (copied fst1 fst2))
          × ((union_compat fst1 fst2).start ≡ some (s2 + length fst1.states))
    unfolding union_compat Defs.set_properties Defs.set_start
    first_empty bound e1 =
        let k : (copied fst1 fst2).start ≡ none =
          copy_states-start (length fst1.states) fst2.states fst1 ∙ e1 in
        let real = ==-false (s2 + length fst1.states) no_state (λ e. omega (arith, e, bound)) in
        (rw (union_compat, e2, k) refl, rw (union_compat, e2, k, real) refl)

    pub both_start :
        (s1 : StateId) (acyclic : Bool)
        → fst1.start ≡ some s1
        → fst1.properties initial_acyclic ≡ acyclic
        → (graph (union_compat fst1 fst2)
            ≡ graph (join acyclic s1 (s2 + length fst1.states) (copied fst1 fst2)))
          × ((union_compat fst1 fst2).start
              ≡ (join acyclic s1 (s2 + length fst1.states) (copied fst1 fst2)).start)
    unfolding union_compat Defs.set_properties
    both_start s1 acyclic e1 bit =
        let k : (copied fst1 fst2).start ≡ some s1 =
          copy_states-start (length fst1.states) fst2.states fst1 ∙ e1 in
        (rw (union_compat, e2, k, bit) refl, rw (union_compat, e2, k, bit) refl)
