-- ===== src/Rational/Closure/Language.antt =====
-- `closure` of sicada/src/algorithms/closure.rs: what the result accepts.
use sicada.Prelude.{
  ◌≡◌, refl, sym, ap, ◌∙◌, ◌↔◌, inl, inr, ◌<◌, false, Option, Option-cases, none, some, List, [],
  ◌∷◌, ◌++◌, map, length, length-map, append_nil, arith,
}
use sicada.Weight.{Weight, IsSemiring}
use sicada.Arc.{Label, StateId, no_state}
use sicada.VectorFst.Defs
use sicada.VectorFst.Defs.{VectorFst}
use sicada.Rational.Graph.{Graph, graph, node}
use sicada.Rational.Runs.{final_at, Accepts}
use sicada.Rational.Language.{AcceptsFrom, Accepts-from}
use sicada.Rational.Positions.{arcs_at-right, final_at-right}
use sicada.Rational.Union.{epsilon_arc}
use sicada.Rational.UnionCalls.{IsWhole}
use sicada.Rational.UnionCorrect.{iff_trans, Accepts-same, Accepts-none}
use sicada.Rational.Rounds.{Repeated, rounds_accepts}
use sicada.Rational.Closure.{ClosureType, closure, returned, add_star}
use sicada.Rational.Closure.Calls.{
  lead_back, returned-graph, returned-none, add_star-none, add_star-some,
}
use sicada.Rational.Closure.Correct.{
  Closed, Repeated-map, looped_final, looped-HasExits, star_accepts, lone_accepts, stop_at_once,
}

module _ {W : Type 0} ⦃w : Weight W⦄ where
  closure-plus :
      (fst : VectorFst W)
      → (graph (closure fst ClosureType.plus) ≡ graph (returned fst))
        × ((closure fst ClosureType.plus).start ≡ (returned fst).start)
  unfolding closure Defs.set_properties
  closure-plus fst = (refl, refl)

  closure-star :
      (fst : VectorFst W)
      → (graph (closure fst ClosureType.star) ≡ graph (add_star fst (returned fst)))
        × ((closure fst ClosureType.star).start ≡ (add_star fst (returned fst)).start)
  unfolding closure Defs.set_properties
  closure-star fst = (refl, refl)

  Repeated-none :
      (g : Graph W) (s : Option StateId) (ins outs : List Label) (v : W)
      → s ≡ none
      → Repeated (Accepts g s) ins outs v
      → ⊥
  Repeated-none g s ins outs v e (Repeated.once a) = Accepts-none g s ins outs v e a
  Repeated-none g s ins outs v e (Repeated.again {i1} {o1} {v1} a rest ei eo ev) =
      Accepts-none g s i1 o1 _ e a

module _ {W : Type 0} ⦃w : Weight W⦄ (laws : IsSemiring w) (fst : VectorFst W) (whole : IsWhole fst)
    (ins outs : List Label) (v : W) where
  -- From a state to the start.
  from_start :
      (t : StateId)
      → fst.start ≡ some t
      → Repeated (AcceptsFrom (graph fst) t) ins outs v
        ↔ Repeated (Accepts (graph fst) fst.start) ins outs v
  from_start t e = rw e (
    λ r.
        Repeated-map (AcceptsFrom (graph fst) t) (Accepts (graph fst) (some t))
          (λ i o x. (Accepts-from (graph fst) t i o x).1) r,
    λ r.
        Repeated-map (Accepts (graph fst) (some t)) (AcceptsFrom (graph fst) t)
          (λ i o x. (Accepts-from (graph fst) t i o x).0) r,
  )

  looped-Accepts :
      (rest : Graph W) (t : StateId)
      → fst.start ≡ some t
      → AcceptsFrom (map (lead_back t) (graph fst) ++ rest) t ins outs v
        ↔ Repeated (Accepts (graph fst) fst.start) ins outs v
  looped-Accepts rest t e =
      iff_trans
        (rounds_accepts laws (graph fst) (map (lead_back t) (graph fst) ++ rest) t
          (looped-HasExits t (graph fst) rest whole.closed)
          (omega (arith, whole.start_lt t e, length-map node fst.states))
          (looped_final t (graph fst) rest whole.closed) ins outs v)
        (from_start t e)

  plus_language :
      Accepts (graph (closure fst ClosureType.plus)) (closure fst ClosureType.plus).start ins outs v
      ↔ Repeated (Accepts (graph fst) fst.start) ins outs v
  plus_language =
      let (g0, s0) = closure-plus fst in
      elim (Option-cases fst.start) [
        | inl e ↦
            let k = returned-none fst e in
            (
              λ a. absurd (
                  Accepts-none (graph (closure fst ClosureType.plus))
                    (closure fst ClosureType.plus).start ins outs v (s0 ∙ ap (λ f. f.start) k ∙ e)
                    a),
              λ r. absurd (Repeated-none (graph fst) fst.start ins outs v e r),
            )
        | inr (t, e) ↦
            let (g, st) = returned-graph fst t e in
            iff_trans
              (Accepts-same (graph (closure fst ClosureType.plus))
                (map (lead_back t) (graph fst) ++ []) (closure fst ClosureType.plus).start (some t)
                ins outs v (g0 ∙ g ∙ sym (append_nil (map (lead_back t) (graph fst)))) (s0 ∙ st))
              (iff_trans (Accepts-from (map (lead_back t) (graph fst) ++ []) t ins outs v)
                (looped-Accepts [] t e))
      ]

  module _ (nontrivial : w.eq w.one w.zero ≡ false) (bound : length fst.states < no_state) where
    abbrev Empty : Type 0
    Empty = (ins ≡ []) × (outs ≡ []) × (v ≡ w.one)

    -- Without a start only the new one is left.
    star_lone :
        fst.start ≡ none
        → Accepts
            (graph (closure fst ClosureType.star))
            (closure fst ClosureType.star).start
            ins
            outs
            v
          ↔ Empty
    star_lone e =
        let (g0, s0) = closure-star fst in
        let k = returned-none fst e in
        let (g, st) =
          add_star-none fst (returned fst) e (omega (arith, ap (λ f. length f.states) k, bound)) in
        let h : Graph W = graph fst ++ (w.one, []) ∷ [] in
        let s = length (graph fst) in
        let final : final_at h s ≡ w.one =
          final_at-right (graph fst) ((w.one, []) ∷ []) 0 s (omega arith) in
        iff_trans
          (Accepts-same (graph (closure fst ClosureType.star)) h
            (closure fst ClosureType.star).start (some s) ins outs v
            (g0 ∙ g ∙ ap (λ f. graph f ++ (w.one, []) ∷ []) k)
            (s0 ∙ st ∙ ap (λ f. some (length (graph f))) k))
          (iff_trans (Accepts-from h s ins outs v) (
            lone_accepts laws nontrivial h s final ins outs v
                (arcs_at-right (graph fst) ((w.one, []) ∷ []) 0 s (omega arith)),
            λ (i, o, x). stop_at_once laws nontrivial h s final ins outs v i o x,
          ))

    star_started :
        (t : StateId)
        → fst.start ≡ some t
        → Accepts
            (graph (closure fst ClosureType.star))
            (closure fst ClosureType.star).start
            ins
            outs
            v
          ↔ Closed ClosureType.star (Accepts (graph fst) fst.start) ins outs v
    star_started t e =
        let (g0, s0) = closure-star fst in
        let (gr, sr) = returned-graph fst t e in
        let looped = map (lead_back t) (graph fst) in
        let (g, st) = add_star-some fst (returned fst) t e (
          omega (
            arith,
            ap length gr,
            length-map node (returned fst).states,
            length-map node fst.states,
            length-map (lead_back t) (graph fst),
            bound,
          )) in
        let rest : Graph W = (w.one, epsilon_arc t ∷ []) ∷ [] in
        let h : Graph W = looped ++ rest in
        let s = length looped in
        let (to, from) =
          star_accepts laws nontrivial h s (final_at-right looped rest 0 s (omega arith)) t ins outs
            v (arcs_at-right looped rest 0 s (omega arith)) in
        let (to', from') = looped-Accepts rest t e in
        iff_trans
          (Accepts-same (graph (closure fst ClosureType.star)) h
            (closure fst ClosureType.star).start (some s) ins outs v
            (g0 ∙ g ∙ ap (λ x. x ++ rest) gr) (s0 ∙ st ∙ ap (λ x. some (length x)) gr))
          (iff_trans (Accepts-from h s ins outs v) (
            λ x. elim (to x) [ inl k ↦ inl k | inr k ↦ inr (to' k) ],
            λ x. from (elim x [ inl k ↦ inl k | inr k ↦ inr (from' k) ]),
          ))

    star_language :
        Accepts
          (graph (closure fst ClosureType.star))
          (closure fst ClosureType.star).start
          ins
          outs
          v
        ↔ Closed ClosureType.star (Accepts (graph fst) fst.start) ins outs v
    star_language = elim (Option-cases fst.start) [
      | inl e ↦
          let (to, from) = star_lone e in
          (
            λ a. inl (to a),
            λ x. elim x [
              | inl k ↦ from k
              | inr k ↦ absurd (Repeated-none (graph fst) fst.start ins outs v e k)
            ],
          )
      | inr (t, e) ↦ star_started t e
    ]

module _ {W : Type 0} ⦃w : Weight W⦄ where
  -- Over a semiring in which one is not zero, for an FST whose arcs and start lead to states of its
  -- own and that has fewer states than the largest word: the closure accepts a pair of strings with
  -- a weight exactly when the strings are joined from one or more pairs that the FST accepts, and
  -- the weight is the product of theirs; with `star` also the empty strings with weight one. This
  -- holds without a start state too.
  pub closure_language :
      IsSemiring w
      → w.eq w.one w.zero ≡ false
      → (fst : VectorFst W) → IsWhole fst
      → length fst.states < no_state
      → (closure_type : ClosureType) (ins outs : List Label) (v : W)
      → Accepts (graph (closure fst closure_type)) (closure fst closure_type).start ins outs v
        ↔ Closed closure_type (Accepts (graph fst) fst.start) ins outs v
  closure_language laws nontrivial fst whole bound ClosureType.plus ins outs v =
      plus_language laws fst whole ins outs v
  closure_language laws nontrivial fst whole bound ClosureType.star ins outs v =
      star_language laws fst whole ins outs v nontrivial bound
