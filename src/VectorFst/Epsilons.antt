-- ===== src/VectorFst/Epsilons.antt =====
-- The cached epsilon counts of sicada/src/fsts/vector_fst.rs, against the arcs.
use sicada.Prelude.{
  ◌≡◌, refl, sym, some, List, [], ◌∷◌, map, ◌∙◌, inl, inr, Option-cases, >>=-eq-some, some-subst,
  modify, get_elem?-modify_self, get_elem?-modify-none, length, get_elem?,
}
use sicada.Weight.{Weight}
use sicada.Arc.{Arc, StateId}
use sicada.VectorFst.Defs
use sicada.VectorFst.States.{
  set_final-states, add_arc-states, delete_arcs_n-states, delete_arcs-states, mutate_arcs-states,
  arcs_mut-states,
}
use sicada.VectorFst.Defs.{
  VectorFst, arcs, num_input_epsilons, num_output_epsilons, mutate_arcs, new,
}
use sicada.VectorFst.Delete.{
  count_input, count_output, remap_states, keep_states, new_ids, remap_start, delete_states,
}
use sicada.VectorFst.Edit.{Edit, apply, Built, SameEpsilons, KeepsEpsilons}
use sicada.VectorFst.Counted.{
  AllCounted, AllCountedIn, AllCounted-get, add_arc-IsCounted, delete_arcs_n-IsCounted,
  delete_all_arcs-IsCounted, AllCounted-modify, AllCounted-modify_at, AllCounted-append,
  AllCounted-remap, new-IsCounted, replicate-AllCounted,
}

module _ {W : Type 0} ⦃w : Weight W⦄ where
  delete_states-AllCounted :
      (fst : VectorFst W) (ds : List StateId) {out : VectorFst W}
      → delete_states fst ds ≡ some out
      → AllCounted fst.states
      → AllCounted out.states
  unfolding delete_states
  delete_states-AllCounted fst [] e h = some-subst AllCountedIn e h
  delete_states-AllCounted fst (d ∷ ds) e h =
      let newid = new_ids (d ∷ ds) (length fst.states) in
      let kept = keep_states newid fst.states in
      let (states, remapped, e') = >>=-eq-some (remap_states newid kept) _ e in
      let (start, _, e'') = >>=-eq-some (remap_start newid fst.start) _ e' in
      some-subst AllCountedIn e'' (AllCounted-remap newid kept remapped)

  -- Other arcs in place of a state's, with as many epsilons.
  replaced-AllCounted :
      (fst : VectorFst W) (i : StateId) (f : List (Arc W) → List (Arc W))
      → SameEpsilons (f (arcs fst i)) (arcs fst i)
      → AllCounted fst.states
      → AllCounted (modify fst.states i (λ t. record t { arcs = f t.arcs }))
  unfolding arcs
  replaced-AllCounted fst i f (input, output) h =
      AllCounted-modify_at fst.states i _
        (λ t e c. record {
          input = c.input ∙ sym (rw (arcs, e) at input);
          output = c.output ∙ sym (rw (arcs, e) at output);
        })
        h

  apply-AllCounted :
      (fst : VectorFst W) (e : Edit W) {out : VectorFst W}
      → apply fst e ≡ some out
      → KeepsEpsilons fst e
      → AllCounted fst.states
      → AllCounted out.states
  apply-AllCounted fst (Edit.set_start s) q k h =
      some-subst AllCountedIn q (unfold Defs.set_start in h)
  apply-AllCounted fst (Edit.set_final s weight) q k h = some-subst AllCountedIn q (
      rw (set_final-states fst s weight)
        (AllCounted-modify fst.states s _ (λ t k. record { input = k.input; output = k.output }) h))
  apply-AllCounted fst Edit.add_state q k h =
      some-subst AllCountedIn q
        (unfold Defs.add_state in AllCounted-append fst.states _ h (new-IsCounted W, tt))
  apply-AllCounted fst (Edit.add_states n) q k h =
      some-subst AllCountedIn q
        (unfold Defs.add_states in AllCounted-append fst.states _ h (replicate-AllCounted W n))
  apply-AllCounted fst (Edit.add_arc s arc) q k h = some-subst AllCountedIn q (
      rw (add_arc-states fst s arc)
        (AllCounted-modify fst.states s _ (λ t. add_arc-IsCounted t arc) h))
  apply-AllCounted fst (Edit.delete_arcs_n s n) q k h = some-subst AllCountedIn q (
      rw (delete_arcs_n-states fst s n)
        (AllCounted-modify fst.states s _ (λ t. delete_arcs_n-IsCounted t n) h))
  apply-AllCounted fst (Edit.delete_arcs s) q k h = some-subst AllCountedIn q (
      rw (delete_arcs-states fst s)
        (AllCounted-modify fst.states s _ (λ t _. delete_all_arcs-IsCounted t) h))
  apply-AllCounted fst Edit.delete_all_states q k h =
      some-subst AllCountedIn q (unfold Defs.delete_all_states in tt)
  apply-AllCounted fst (Edit.delete_states ds) q k h = delete_states-AllCounted fst ds q h
  apply-AllCounted fst (Edit.set_properties props m) q k h =
      some-subst AllCountedIn q (unfold Defs.set_properties in h)
  apply-AllCounted fst (Edit.set_input_symbols syms) q k h =
      some-subst AllCountedIn q (unfold Defs.set_input_symbols in h)
  apply-AllCounted fst (Edit.set_output_symbols syms) q k h =
      some-subst AllCountedIn q (unfold Defs.set_output_symbols in h)
  apply-AllCounted fst (Edit.mutate_arcs s f) q k h =
      some-subst AllCountedIn q
        (rw (mutate_arcs-states fst s f) (replaced-AllCounted fst s (map f) k h))
  apply-AllCounted fst (Edit.arcs_mut s left) q k h = some-subst AllCountedIn q (
      rw (arcs_mut-states fst s left)
        (replaced-AllCounted fst s (λ as'. Defs.overwrite as' left) k h))

  -- From an FST whose cached epsilon counts are right, after any calls of the methods of MutableFst
  -- that change it, among which a rewrite of arcs in place (`mutate_arcs` with a function of the arc, or
  -- what is left in the slice of `arcs_mut`) keeps the numbers of input and output epsilons of the
  -- state, every state's cached counts are those of its arcs.
  pub counts_invariant :
      (fst : VectorFst W) {out : VectorFst W}
      → AllCounted fst.states
      → Built fst out
      → AllCounted out.states
  counts_invariant fst h Built.start = h
  counts_invariant fst h (Built.call {before} e calls q k) =
      apply-AllCounted before e q k (counts_invariant fst h calls)

  -- `mutate_arcs` keeps the old counts: on an FST whose counts are right, what it reports for the
  -- state afterwards is the epsilons of the arcs before they were rewritten.
  pub mutate_arcs_stale :
      (fst : VectorFst W) (state : StateId) (f : Arc W → Arc W)
      → AllCounted fst.states
      → (num_input_epsilons (mutate_arcs fst state f) state ≡ count_input (arcs fst state))
        × (num_output_epsilons (mutate_arcs fst state f) state ≡ count_output (arcs fst state))
  unfolding num_input_epsilons num_output_epsilons arcs count_input count_output
  mutate_arcs_stale fst state f h = elim (Option-cases (get_elem? fst.states state)) [
    | inl e ↦
        rw
          (
            num_input_epsilons,
            num_output_epsilons,
            arcs,
            mutate_arcs-states fst state f,
            get_elem?-modify-none fst.states state (λ t. record t { arcs = map f t.arcs }) e,
            e,
          )
          (refl, refl)
    | inr (s, e) ↦
        let c = AllCounted-get fst.states state h e in
        rw
          (
            num_input_epsilons,
            num_output_epsilons,
            arcs,
            mutate_arcs-states fst state f,
            get_elem?-modify_self fst.states state (λ t. record t { arcs = map f t.arcs }) e,
            e,
          )
          (c.input, c.output)
  ]
