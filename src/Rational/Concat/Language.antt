-- ===== src/Rational/Concat/Language.antt =====
-- `concat` of sicada/src/algorithms/concat.rs: what the result accepts.
use mathlib.Core.List.{Memᴰ}
use sicada.Prelude.{
  append_nil, ◌+◌, ◌≡◌, refl, ◌∙◌, ◌↔◌, inl, inr, ◌<◌, true, Bool-cases, Option, Option-cases, none,
  some, List, [], ◌∷◌, ◌++◌, map, length, length-map, if◌then◌else◌, arith, zero, suc,
}
use sicada.Weight.{Weight, IsSemiring}
use sicada.Arc.{Arc, Label, StateId}
use sicada.Symbols.{compat_symbols}
use sicada.VectorFst.Defs.{VectorFst}
use sicada.Rational.Graph.{Graph, graph, node}
use sicada.Rational.Runs.{region, region_end, arcs_at, final_at, Accepts}
use sicada.Rational.Language.{AcceptsFrom, Accepts-from, copied_accepts}
use sicada.Rational.Positions.{
  arcs_at-left, final_at-left, arcs_at-right, final_at-right, arcs_at-shift, final_at-shift,
}
use sicada.Rational.Copy.{shift_node}
use sicada.Rational.Union.{Outcome}
use sicada.Rational.UnionCalls.{IsWhole}
use sicada.Rational.UnionCorrect.{iff_trans, Accepts-same, Accepts-none}
use sicada.Rational.Exits.{exit_arc, appended-HasExits}
use sicada.Rational.Sequel.{Relation, Then, sequel_accepts}
use sicada.Rational.Concat.{concat, concat_compat}
use sicada.Rational.Concat.Calls.{cut_node, concat-unstarted, concat-started}

module _ {W : Type 0} ⦃w : Weight W⦄ where
  pub Then-iff :
      (A B C D : Relation W) (ins outs : List Label) (v : W)
      → ((i o : List Label) (x : W) → A i o x ↔ C i o x)
      → ((i o : List Label) (x : W) → B i o x ↔ D i o x)
      → Then A B ins outs v ↔ Then C D ins outs v
  Then-iff A B C D ins outs v f g = (
    λ (i1, o1, i2, o2, v1, v2, ei, eo, ev, a, b).
        (i1, o1, i2, o2, v1, v2, ei, eo, ev, (f i1 o1 v1).0 a, (g i2 o2 v2).0 b),
    λ (i1, o1, i2, o2, v1, v2, ei, eo, ev, a, b).
        (i1, o1, i2, o2, v1, v2, ei, eo, ev, (f i1 o1 v1).1 a, (g i2 o2 v2).1 b),
  )

  module _ (o : Option StateId) where
    final_at-cut_node :
        (laws : IsSemiring w) (g : Graph W) (s : StateId) → final_at (map (cut_node o) g) s ≡ w.zero
    final_at-cut_node laws [] s = refl
    final_at-cut_node laws (n ∷ g) zero = elim (Bool-cases (w.eq n.0 w.zero)) [
      | inl e ↦ rw e ((laws.eq_iff n.0 w.zero).0 e)
      | inr e ↦ rw e refl
    ]
    final_at-cut_node laws (n ∷ g) (suc s) = final_at-cut_node laws g s

  arcs_at-cut_node :
      (t : StateId) (g : Graph W) (s : StateId)
      → s < length g
      → arcs_at (map (cut_node (some t)) g) s ≡ (
          if w.eq (final_at g s) w.zero
          then arcs_at g s
          else arcs_at g s ++ exit_arc (final_at g s) t ∷ [])
  arcs_at-cut_node t [] s k = absurd (omega (arith, k))
  arcs_at-cut_node t (n ∷ g) zero k = ground arith
  arcs_at-cut_node t (n ∷ g) (suc s) k = arcs_at-cut_node t g s (omega (arith, k))

  arcs_at-cut_node-none :
      (g : Graph W) (s : StateId) → arcs_at (map (cut_node none) g) s ≡ arcs_at g s
  arcs_at-cut_node-none [] s = refl
  arcs_at-cut_node-none (n ∷ g) zero = ground (arith, append_nil n.1)
  arcs_at-cut_node-none (n ∷ g) (suc s) = arcs_at-cut_node-none g s

module _ {W : Type 0} ⦃w : Weight W⦄ (laws : IsSemiring w) (fst1 fst2 : VectorFst W)
    (whole1 : IsWhole fst1) (whole2 : IsWhole fst2) (ins outs : List Label) (v : W) where
  abbrev Both : Type 0
  Both = Then (Accepts (graph fst1) fst1.start) (Accepts (graph fst2) fst2.start) ins outs v

  abbrev Result : Type 0
  Result = Accepts (graph (concat_compat fst1 fst2)) (concat_compat fst1 fst2).start ins outs v

  joined : Option StateId → Graph W
  joined o = map (cut_node o) (graph fst1) ++ map (shift_node (length fst1.states)) (graph fst2)

  joined_arcs :
      (t s : StateId)
      → s < length (graph fst1)
      → arcs_at (joined (some t)) s ≡ (
          if w.eq (final_at (graph fst1) s) w.zero
          then arcs_at (graph fst1) s
          else arcs_at (graph fst1) s ++ exit_arc (final_at (graph fst1) s) t ∷ [])
  unfolding joined
  joined_arcs t s k =
      arcs_at-left (map (cut_node (some t)) (graph fst1))
        (map (shift_node (length fst1.states)) (graph fst2)) s
        (omega (arith, k, length-map (cut_node (some t)) (graph fst1)))
      ∙ arcs_at-cut_node t (graph fst1) s k

  joined_arcs_none :
      (s : StateId) → s < length (graph fst1) → arcs_at (joined none) s ≡ arcs_at (graph fst1) s
  unfolding joined
  joined_arcs_none s k =
      arcs_at-left (map (cut_node none) (graph fst1))
        (map (shift_node (length fst1.states)) (graph fst2)) s
        (omega (arith, k, length-map (cut_node none) (graph fst1)))
      ∙ arcs_at-cut_node-none (graph fst1) s

  joined_final :
      (o : Option StateId) (s : StateId) → s < length (graph fst1) → final_at (joined o) s ≡ w.zero
  unfolding joined
  joined_final o s k =
      final_at-left (map (cut_node o) (graph fst1))
        (map (shift_node (length fst1.states)) (graph fst2)) s
        (omega (arith, k, length-map (cut_node o) (graph fst1)))
      ∙ final_at-cut_node o laws (graph fst1) s

  joined_second :
      (o : Option StateId) (s : StateId) (i1 o1 : List Label) (x : W)
      → s < length (graph fst2)
      → AcceptsFrom (joined o) (s + length fst1.states) i1 o1 x ↔ AcceptsFrom (graph fst2) s i1 o1 x
  unfolding joined
  joined_second o s i1 o1 x k =
      let n1 = length fst1.states in
      let left = map (cut_node o) (graph fst1) in
      let size : (r : StateId) → r + n1 ≡ r + length left =
        λ r. omega (arith, length-map (cut_node o) (graph fst1), length-map node fst1.states) in
      copied_accepts (graph fst2) (joined o) n1 whole2.closed
        (λ r _.
          arcs_at-right left (map (shift_node n1) (graph fst2)) r (r + n1) (size r)
          ∙ arcs_at-shift n1 (graph fst2) r)
        (λ r _.
          final_at-right left (map (shift_node n1) (graph fst2)) r (r + n1) (size r)
          ∙ final_at-shift n1 (graph fst2) r)
        s i1 o1 x k

  start1_lt : (s1 : StateId) → fst1.start ≡ some s1 → s1 < length (graph fst1)
  start1_lt s1 e = omega (arith, whole1.start_lt s1 e, length-map node fst1.states)

  start2_lt : (s2 : StateId) → fst2.start ≡ some s2 → s2 < length (graph fst2)
  start2_lt s2 e = omega (arith, whole2.start_lt s2 e, length-map node fst2.states)

  both_started : (s1 s2 : StateId) → fst1.start ≡ some s1 → fst2.start ≡ some s2 → Result ↔ Both
  unfolding joined
  both_started s1 s2 e1 e2 =
      let t = s2 + length fst1.states in
      let (g, st) = concat-started (some s2) fst1 fst2 s1 e1 e2 in
      iff_trans
        (Accepts-same (graph (concat_compat fst1 fst2)) (joined (some t))
          (concat_compat fst1 fst2).start (some s1) ins outs v g st)
        (iff_trans (Accepts-from (joined (some t)) s1 ins outs v) (
          iff_trans
            (sequel_accepts laws (graph fst1) (joined (some t)) (λ x. x) t
              (appended-HasExits (graph fst1) (joined (some t)) t whole1.closed (joined_arcs t))
              (joined_final (some t)) s1 ins outs v (start1_lt s1 e1))
            (Then-iff (AcceptsFrom (graph fst1) s1) (AcceptsFrom (joined (some t)) t)
              (Accepts (graph fst1) fst1.start) (Accepts (graph fst2) fst2.start) ins outs v
              (λ i o x.
                rw e1
                  ((Accepts-from (graph fst1) s1 i o x).1, (Accepts-from (graph fst1) s1 i o x).0))
              (λ i o x.
                let (to, from) = Accepts-from (graph fst2) s2 i o x in
                let (to2, from2) = joined_second (some t) s2 i o x (start2_lt s2 e2) in
                rw e2 (λ a. from (to2 a), λ a. from2 (to a))))))

  -- A run of the first FST ends nowhere.
  second_unstarted : (s1 : StateId) → fst1.start ≡ some s1 → fst2.start ≡ none → Result → ⊥
  unfolding joined
  second_unstarted s1 e1 e2 a =
      let (g, st) = concat-started none fst1 fst2 s1 e1 e2 in
      let a' =
        (Accepts-same (graph (concat_compat fst1 fst2)) (joined none)
            (concat_compat fst1 fst2).start (some s1) ins outs v g st).0
          a in
      let (q, p, run, (fin, i, o, total)) = (Accepts-from (joined none) s1 ins outs v).0 a' in
      let inside = λ (r : StateId). r < length (graph fst1) in
      let stays =
        λ (r : StateId) (b : Arc W) (_ : r < length (graph fst1))
            (m : Memᴰ b (arcs_at (graph fst1) r)).
          whole1.closed r b m in
      let run1 =
        (region (graph fst1) (joined none) inside joined_arcs_none stays s1 q p (start1_lt s1 e1)).1
          run in
      let end = region_end (graph fst1) inside stays s1 q p (start1_lt s1 e1) run1 in
      let same = (laws.eq_iff w.zero w.zero).1 refl in
      let fin0 = rw (joined_final none q end) at fin in cc

  concat_compat_language : Result ↔ Both
  concat_compat_language = elim (Option-cases fst1.start) [
    | inl e1 ↦ (
      λ a. absurd (
          Accepts-none (graph (concat_compat fst1 fst2)) (concat_compat fst1 fst2).start ins outs v
            (concat-unstarted fst1 fst2 e1) a),
      λ (i1, o1, i2, o2, v1, v2, ei, eo, ev, a, b).
          absurd (Accepts-none (graph fst1) fst1.start i1 o1 v1 e1 a),
    )
    | inr (s1, e1) ↦ elim (Option-cases fst2.start) [
      | inl e2 ↦ (
        λ a. absurd (second_unstarted s1 e1 e2 a),
        λ (i1, o1, i2, o2, v1, v2, ei, eo, ev, a, b).
            absurd (Accepts-none (graph fst2) fst2.start i2 o2 v2 e2 b),
      )
      | inr (s2, e2) ↦ both_started s1 s2 e1 e2
    ]
  ]

module _ {W : Type 0} ⦃w : Weight W⦄ where
  -- Over a semiring, for two FSTs whose arcs and starts lead to states of theirs, with symbol tables
  -- that agree: `concat` succeeds, and its result accepts a pair of strings with a weight exactly
  -- when they are a pair that the first FST accepts followed by one that the second accepts, and
  -- the weight is the product of theirs.
  pub concat_language :
      IsSemiring w
      → (fst1 fst2 : VectorFst W) → compat_symbols fst1.isymbols fst2.isymbols ≡ true
      → compat_symbols fst1.osymbols fst2.osymbols ≡ true
      → IsWhole fst1
      → IsWhole fst2
      → (u : VectorFst W) × (concat fst1 fst2 ≡ Outcome.done u)
        × ((ins outs : List Label) (v : W)
            → Accepts (graph u) u.start ins outs v
              ↔ Then (Accepts (graph fst1) fst1.start) (Accepts (graph fst2) fst2.start) ins outs v)
  unfolding concat
  concat_language laws fst1 fst2 icompat ocompat whole1 whole2 = (
    concat_compat fst1 fst2,
    rw (concat, icompat, ocompat) refl,
    concat_compat_language laws fst1 fst2 whole1 whole2,
  )
