-- ===== src/Rational/Closure/Calls.antt =====
-- The calls that `closure` of sicada/src/algorithms/closure.rs makes, and the FST that they leave.
use sicada.Prelude.{
  modify_from, modify_from-all, ℕ, zero, suc, ◌≡◌, refl, sym, ap, ◌∙◌, ◌<◌, ==-false, none, some,
  [], ◌∷◌, ◌++◌, map, length, length-map, modify, if◌then◌else◌, arith,
}
use sicada.Weight.{Weight}
use sicada.Arc.{StateId, no_state}
use sicada.VectorFst.Defs
use sicada.VectorFst.Defs.{VectorFst}
use sicada.VectorFst.States.{add_arc-start, set_final-start}
use sicada.Rational.Graph.{
  Graph, Node, graph, node, with_arc, with_final, modify-last, add_arc-graph, set_final-graph,
  add_state-graph,
}
use sicada.Rational.Runs.{final_at, final_weight-graph}
use sicada.Rational.Union.{epsilon_arc}
use sicada.Rational.Exits.{exit_arc}
use sicada.Rational.Closure.{add_return, add_returns, returned, add_star}

module _ {W : Type 0} ⦃w : Weight W⦄ where
  -- A final state gets its way back.
  abbrev pub lead_back : StateId → Node W → Node W
  lead_back t n = if w.eq n.0 w.zero then n else with_arc (exit_arc n.0 t) n

  lead_back-graph :
      (g : Graph W) (s t : StateId)
      → (if w.eq (final_at g s) w.zero
          then g
          else modify g s (with_arc (exit_arc (final_at g s) t)))
        ≡ modify g s (lead_back t)
  lead_back-graph [] s t = ground arith
  lead_back-graph (n ∷ g) zero t = ground arith
  lead_back-graph (n ∷ g) (suc s) t = ground (arith, lead_back-graph g s t)

  add_return-graph :
      (t s : StateId) (fst : VectorFst W)
      → graph (add_return t s fst) ≡ modify (graph fst) s (lead_back t)
  unfolding add_return
  add_return-graph t s fst = ground (
    arith,
    final_weight-graph fst s,
    add_arc-graph fst s (exit_arc (final_at (graph fst) s) t),
    lead_back-graph (graph fst) s t,
  )

  add_return-start : (t s : StateId) (fst : VectorFst W) → (add_return t s fst).start ≡ fst.start
  unfolding add_return
  add_return-start t s fst =
      ground (arith, add_arc-start fst s (exit_arc (Defs.final_weight fst s) t))

  add_returns-graph :
      (n : ℕ) (t s : StateId) (fst : VectorFst W)
      → (graph (add_returns n t s fst) ≡ modify_from n s (lead_back t) (graph fst))
        × ((add_returns n t s fst).start ≡ fst.start)
  unfolding add_returns
  add_returns-graph zero t s fst = (refl, refl)
  add_returns-graph (suc n) t s fst =
      let (g, st) = add_returns-graph n t (suc s) (add_return t s fst) in
      (
        g ∙ ap (modify_from n (suc s) (lead_back t)) (add_return-graph t s fst),
        st ∙ add_return-start t s fst,
      )

  pub returned-graph :
      (fst : VectorFst W) (t : StateId)
      → fst.start ≡ some t
      → (graph (returned fst) ≡ map (lead_back t) (graph fst)) × ((returned fst).start ≡ some t)
  unfolding returned
  returned-graph fst t e =
      let (g, st) = add_returns-graph (length fst.states) t 0 fst in
      let same : returned fst ≡ add_returns (length fst.states) t 0 fst =
        ap (λ o. elim o [ none ↦ fst | some start ↦ add_returns (length fst.states) start 0 fst ])
          e in
      (
        ap graph same
            ∙ g
            ∙ ap (λ n. modify_from n 0 (lead_back t) (graph fst)) (sym (length-map node fst.states))
            ∙ modify_from-all (lead_back t) (graph fst),
        ap (λ f. f.start) same ∙ st ∙ e,
      )

  pub returned-none : (fst : VectorFst W) → fst.start ≡ none → returned fst ≡ fst
  unfolding returned
  returned-none fst e =
      ap (λ o. elim o [ none ↦ fst | some start ↦ add_returns (length fst.states) start 0 fst ]) e

  add_star-common :
      (looped : VectorFst W)
      → length looped.states < no_state
      → let nstart = length looped.states in
        let added = Defs.set_final (Defs.set_start (Defs.add_state looped) nstart) nstart w.one in
        (graph added ≡ graph looped ++ (w.one, []) ∷ [])
        × (added.start ≡ some (length (graph looped)))
  unfolding Defs.set_start
  add_star-common looped bound =
      let ns = length looped.states in
      let size : ns ≡ length (graph looped) = sym (length-map node looped.states) in
      let started = Defs.set_start (Defs.add_state looped) ns in
      (
        set_final-graph started ns w.one
            ∙ ap (λ g. modify g ns (with_final w.one)) (add_state-graph looped)
            ∙ rw size (modify-last (graph looped) (w.zero, []) (with_final w.one)),
        set_final-start started ns w.one
            ∙ rw (==-false ns no_state (λ e. omega (arith, e, bound))) (ap some size),
      )

  pub add_star-none :
      (fst looped : VectorFst W)
      → fst.start ≡ none
      → length looped.states < no_state
      → (graph (add_star fst looped) ≡ graph looped ++ (w.one, []) ∷ [])
        × ((add_star fst looped).start ≡ some (length (graph looped)))
  unfolding add_star
  add_star-none fst looped e bound =
      let (g, st) = add_star-common looped bound in (rw (e, add_star) g, rw (e, add_star) st)

  pub add_star-some :
      (fst looped : VectorFst W) (t : StateId)
      → fst.start ≡ some t
      → length looped.states < no_state
      → (graph (add_star fst looped) ≡ graph looped ++ (w.one, epsilon_arc t ∷ []) ∷ [])
        × ((add_star fst looped).start ≡ some (length (graph looped)))
  unfolding add_star
  add_star-some fst looped t e bound =
      let ns = length looped.states in
      let size : ns ≡ length (graph looped) = sym (length-map node looped.states) in
      let added = Defs.set_final (Defs.set_start (Defs.add_state looped) ns) ns w.one in
      let (g, st) = add_star-common looped bound in
      let grown : graph (Defs.add_arc added ns (epsilon_arc t))
          ≡ graph looped ++ (w.one, epsilon_arc t ∷ []) ∷ [] =
        add_arc-graph added ns (epsilon_arc t)
        ∙ ap (λ x. modify x ns (with_arc (epsilon_arc t))) g
        ∙ rw size (modify-last (graph looped) (w.one, []) (with_arc (epsilon_arc t))) in
      (rw (e, add_star) grown, rw (e, add_star) (add_arc-start added ns (epsilon_arc t) ∙ st))
