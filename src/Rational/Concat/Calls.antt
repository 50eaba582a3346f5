-- ===== src/Rational/Concat/Calls.antt =====
-- The calls that `concat` of sicada/src/algorithms/concat.rs makes, and the FST that they leave.
use sicada.Prelude.{
  modify_from, modify_from-front, ℕ, zero, suc, ◌+◌, ◌≡◌, refl, sym, ap, ◌∙◌, Bool-cases, inl, inr,
  Option, none, some, List, [], ◌∷◌, ◌++◌, append_nil, map, length, length-map, modify,
  if◌then◌else◌, arith,
}
use sicada.Weight.{Weight}
use sicada.Arc.{Arc, StateId}
use sicada.Properties.Flags.{error}
use sicada.VectorFst.Defs
use sicada.VectorFst.Defs.{VectorFst}
use sicada.VectorFst.States.{add_arc-start, set_final-start}
use sicada.Rational.Graph.{
  Graph, Node, graph, node, with_arc, with_final, add_arc-graph, set_final-graph,
}
use sicada.Rational.Runs.{final_at, final_weight-graph}
use sicada.Rational.Union.{copy_states}
use sicada.Rational.Copy.{shift_node, copy_states-graph, copy_states-start}
use sicada.Rational.Exits.{exit_arc}
use sicada.Rational.Concat.{carry_on, carry_all, concat_compat}

module _ {W : Type 0} ⦃w : Weight W⦄ where
  abbrev ways : Option StateId → W → List (Arc W)
  ways none v = []
  ways (some t) v = exit_arc v t ∷ []

  -- A final state is final no longer, and leads on.
  abbrev pub cut_node : Option StateId → Node W → Node W
  cut_node o n = if w.eq n.0 w.zero then n else (w.zero, n.1 ++ ways o n.0)

  cut_graph : Option StateId → Graph W → StateId → W → Graph W
  cut_graph none g s v = modify g s (with_final w.zero)
  cut_graph (some t) g s v = modify (modify g s (with_final w.zero)) s (with_arc (exit_arc v t))

  cut_graph-modify :
      (o : Option StateId) (g : Graph W) (s : StateId)
      → (if w.eq (final_at g s) w.zero then g else cut_graph o g s (final_at g s))
        ≡ modify g s (cut_node o)
  unfolding cut_graph
  cut_graph-modify none [] s = ground arith
  cut_graph-modify none (n ∷ g) zero = ground (arith, append_nil n.1)
  cut_graph-modify none (n ∷ g) (suc s) = ground (arith, cut_graph-modify none g s)
  cut_graph-modify (some t) [] s = ground arith
  cut_graph-modify (some t) (n ∷ g) zero = ground arith
  cut_graph-modify (some t) (n ∷ g) (suc s) = ground (arith, cut_graph-modify (some t) g s)

  cut-graph :
      (o : Option StateId) (s : StateId) (v : W) (fst : VectorFst W)
      → graph (elim o as (λ x. VectorFst W) [
        | none ↦ Defs.set_final fst s w.zero
        | some t ↦ Defs.add_arc (Defs.set_final fst s w.zero) s (exit_arc v t)
      ])
        ≡ cut_graph o (graph fst) s v
  unfolding cut_graph
  cut-graph none s v fst = set_final-graph fst s w.zero
  cut-graph (some t) s v fst =
      add_arc-graph (Defs.set_final fst s w.zero) s (exit_arc v t)
      ∙ ap (λ g. modify g s (with_arc (exit_arc v t))) (set_final-graph fst s w.zero)

  carry_on-graph :
      (o : Option StateId) (s : StateId) (fst : VectorFst W)
      → graph (carry_on o s fst) ≡ modify (graph fst) s (cut_node o)
  unfolding carry_on
  carry_on-graph o s fst =
      let f = final_weight-graph fst s in
      let c = cut-graph o s (Defs.final_weight fst s) fst in
      let k = cut_graph-modify o (graph fst) s in
      elim (Bool-cases (w.eq (final_at (graph fst) s) w.zero)) [
        | inl e ↦ rw (f, e) (rw e at k)
        | inr e ↦ rw (f, e) ((rw f at c) ∙ (rw e at k))
      ]

  carry_on-start :
      (o : Option StateId) (s : StateId) (fst : VectorFst W) → (carry_on o s fst).start ≡ fst.start
  unfolding carry_on
  carry_on-start none s fst = ground (arith, set_final-start fst s w.zero)
  carry_on-start (some t) s fst = ground (
    arith,
    set_final-start fst s w.zero,
    add_arc-start (Defs.set_final fst s w.zero) s (exit_arc (Defs.final_weight fst s) t),
  )

  carry_all-graph :
      (n : ℕ) (o : Option StateId) (s : StateId) (fst : VectorFst W)
      → (graph (carry_all n o s fst) ≡ modify_from n s (cut_node o) (graph fst))
        × ((carry_all n o s fst).start ≡ fst.start)
  unfolding carry_all
  carry_all-graph zero o s fst = (refl, refl)
  carry_all-graph (suc n) o s fst =
      let (g, st) = carry_all-graph n o (suc s) (carry_on o s fst) in
      (
        g ∙ ap (modify_from n (suc s) (cut_node o)) (carry_on-graph o s fst),
        st ∙ carry_on-start o s fst,
      )

  -- Both loops together.
  pub carried-graph :
      (o : Option StateId) (fst1 fst2 : VectorFst W)
      → let n1 = length fst1.states in
        let carried = carry_all n1 o 0 (copy_states n1 fst2.states fst1) in
        (graph carried ≡ map (cut_node o) (graph fst1) ++ map (shift_node n1) (graph fst2))
        × (carried.start ≡ fst1.start)
  carried-graph o fst1 fst2 =
      let n1 = length fst1.states in
      let (g, st) = carry_all-graph n1 o 0 (copy_states n1 fst2.states fst1) in
      (
        g
            ∙ ap (modify_from n1 0 (cut_node o)) (copy_states-graph n1 fst2.states fst1)
            ∙ ap
                (λ n. modify_from n 0 (cut_node o) (graph fst1 ++ map (shift_node n1) (graph fst2)))
                (sym (length-map node fst1.states))
            ∙ modify_from-front (cut_node o) (graph fst1) (map (shift_node n1) (graph fst2)),
        st ∙ copy_states-start n1 fst2.states fst1,
      )

  pub concat-unstarted :
      (fst1 fst2 : VectorFst W) → fst1.start ≡ none → (concat_compat fst1 fst2).start ≡ none
  unfolding concat_compat Defs.set_properties
  concat-unstarted fst1 fst2 e = elim (Bool-cases (fst2.properties error)) [
    | inl k ↦ rw (concat_compat, e, k) e
    | inr k ↦ rw (concat_compat, e, k) e
  ]

  pub concat-started :
      (o : Option StateId) (fst1 fst2 : VectorFst W) (s1 : StateId)
      → fst1.start ≡ some s1
      → fst2.start ≡ o
      → let n1 = length fst1.states in
        let t = elim o as (λ x. Option StateId) [ none ↦ none | some s2 ↦ some (s2 + n1) ] in
        (graph (concat_compat fst1 fst2)
          ≡ map (cut_node t) (graph fst1) ++ map (shift_node n1) (graph fst2))
        × ((concat_compat fst1 fst2).start ≡ some s1)
  unfolding concat_compat Defs.set_properties
  concat-started none fst1 fst2 s1 e1 e2 =
      let (g, st) = carried-graph none fst1 fst2 in
      (rw (concat_compat, e1, e2) g, rw (concat_compat, e1, e2) (st ∙ e1))
  concat-started (some s2) fst1 fst2 s1 e1 e2 =
      let (g, st) = carried-graph (some (s2 + length fst1.states)) fst1 fst2 in
      (rw (concat_compat, e1, e2) g, rw (concat_compat, e1, e2) (st ∙ e1))
