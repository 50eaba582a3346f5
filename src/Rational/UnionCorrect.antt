-- ===== src/Rational/UnionCorrect.antt =====
-- `union` of sicada/src/algorithms/union.rs: what the result accepts.
use sicada.Prelude.{
  append_nil, length-map, ℕ, ◌+◌, ◌≡◌, refl, sym, ap, ◌∙◌, ◌↔◌, ◌⊎◌, inl, inr, ◌<◌, true, false,
  Bool-cases, Option, Option-cases, none, some, List, [], ◌∷◌, length, modify, arith, ◌++◌,
}
use sicada.Weight.{Weight, IsSemiring}
use sicada.Arc.{Label, StateId, no_state}
use sicada.Symbols.{compat_symbols}
use sicada.Properties.Flags.{initial_acyclic}
use sicada.VectorFst.Defs.{VectorFst}
use sicada.Rational.Union.{Outcome, epsilon_arc, union_compat, union}
use sicada.Rational.Graph.{Graph, graph, node, with_arc}
use sicada.Rational.Copy.{copy_states-start}
use sicada.Rational.Runs.{Accepts}
use sicada.Rational.Language.{AcceptsFrom, Accepts-from}
use sicada.Rational.UnionLanguage.{
  beside, length-beside, second_accepts, fork_language, grown_language,
}
use sicada.Rational.UnionCalls.{
  IsWhole, HonestStart, join-grown, join-forked, copied_graph, second_empty, copied, first_empty,
  both_start,
}

pub iff_trans : {A B C : Type 0} → A ↔ B → B ↔ C → A ↔ C
iff_trans h k = (λ a. k.0 (h.0 a), λ c. h.1 (k.1 c))

module _ {W : Type 0} ⦃w : Weight W⦄ where
  pub Accepts-same :
      (g h : Graph W) (s t : Option StateId) (ins outs : List Label) (v : W)
      → g ≡ h
      → s ≡ t
      → Accepts g s ins outs v ↔ Accepts h t ins outs v
  Accepts-same g h s t ins outs v e k = rw (e, k) (λ a. a, λ a. a)

  pub Accepts-none :
      (g : Graph W) (s : Option StateId) (ins outs : List Label) (v : W)
      → s ≡ none
      → Accepts g s ins outs v
      → ⊥
  Accepts-none g s ins outs v e (t, q, p, k, _, _, _, _, _) = cc

module _ {W : Type 0} ⦃w : Weight W⦄ (laws : IsSemiring w) (fst1 fst2 : VectorFst W)
    (whole1 : IsWhole fst1) (whole2 : IsWhole fst2) (honest : HonestStart fst1)
    (bound : length fst1.states + length fst2.states < no_state) (ins outs : List Label)
    (v : W) where
  abbrev n1 : ℕ
  n1 = length fst1.states

  abbrev size : n1 ≡ length (graph fst1)
  size = sym (length-map node fst1.states)

  abbrev Either : Type 0
  Either = Accepts (graph fst1) fst1.start ins outs v ⊎ Accepts (graph fst2) fst2.start ins outs v

  -- From a start state of each.
  from_starts :
      (s1 s2 : StateId)
      → fst1.start ≡ some s1
      → fst2.start ≡ some s2
      → (AcceptsFrom (graph fst1) s1 ins outs v ⊎ AcceptsFrom (graph fst2) s2 ins outs v) ↔ Either
  from_starts s1 s2 e1 e2 =
      let (to1, from1) = Accepts-from (graph fst1) s1 ins outs v in
      let (to2, from2) = Accepts-from (graph fst2) s2 ins outs v in
      rw (e1, e2)
        (
          λ h. elim h [ inl k ↦ inl (from1 k) | inr k ↦ inr (from2 k) ],
          λ h. elim h [ inl k ↦ inl (to1 k) | inr k ↦ inr (to2 k) ],
        )

  start1_lt : (s1 : StateId) → fst1.start ≡ some s1 → s1 < length (graph fst1)
  start1_lt s1 e = omega (arith, whole1.start_lt s1 e, size)

  start2_lt : (s2 : StateId) → fst2.start ≡ some s2 → s2 < length (graph fst2)
  start2_lt s2 e = omega (arith, whole2.start_lt s2 e, length-map node fst2.states)

  small : length (copied fst1 fst2).states < no_state
  small = omega (
    arith,
    length-map node (copied fst1 fst2).states,
    ap length (copied_graph fst1 fst2),
    length-beside (graph fst1) (graph fst2) n1 size,
    length-map node fst2.states,
    bound,
  )

  -- The result is known by its graph and its start.
  known :
      (h : Graph W) (s s1 s2 : StateId)
      → fst1.start ≡ some s1
      → fst2.start ≡ some s2
      → graph (union_compat fst1 fst2) ≡ h
      → (union_compat fst1 fst2).start ≡ some s
      → AcceptsFrom h s ins outs v
        ↔ (AcceptsFrom (graph fst1) s1 ins outs v ⊎ AcceptsFrom (graph fst2) s2 ins outs v)
      → Accepts (graph (union_compat fst1 fst2)) (union_compat fst1 fst2).start ins outs v ↔ Either
  known h s s1 s2 e1 e2 g st language =
      iff_trans
        (Accepts-same (graph (union_compat fst1 fst2)) h (union_compat fst1 fst2).start (some s) ins
          outs v g st)
        (iff_trans (Accepts-from h s ins outs v) (iff_trans language (from_starts s1 s2 e1 e2)))

  grown_case :
      (s1 s2 : StateId)
      → fst1.start ≡ some s1
      → fst2.start ≡ some s2
      → fst1.properties initial_acyclic ≡ true
      → Accepts (graph (union_compat fst1 fst2)) (union_compat fst1 fst2).start ins outs v ↔ Either
  grown_case s1 s2 e1 e2 bit =
      let (g, st) = both_start fst1 fst2 s2 e2 s1 true e1 bit in
      let (g', st') = join-grown s1 (s2 + n1) (copied fst1 fst2) in
      let with_epsilon = λ (t : Graph W). modify t s1 (with_arc (epsilon_arc (s2 + n1))) in
      known (with_epsilon (beside (graph fst1) (graph fst2) n1 size)) s1 s1 s2 e1 e2
        (g ∙ g' ∙ ap with_epsilon (copied_graph fst1 fst2))
        (st ∙ st' ∙ copy_states-start n1 fst2.states fst1 ∙ e1)
        (grown_language (graph fst1) (graph fst2) n1 size whole1.closed whole2.closed ins outs v
          laws s1 s2 (start1_lt s1 e1) (start2_lt s2 e2) (λ r a m. honest bit s1 r a e1 m))

  forked_case :
      (s1 s2 : StateId)
      → fst1.start ≡ some s1
      → fst2.start ≡ some s2
      → fst1.properties initial_acyclic ≡ false
      → Accepts (graph (union_compat fst1 fst2)) (union_compat fst1 fst2).start ins outs v ↔ Either
  forked_case s1 s2 e1 e2 bit =
      let (g, st) = both_start fst1 fst2 s2 e2 s1 false e1 bit in
      let (g', st') = join-forked s1 (s2 + n1) (copied fst1 fst2) small in
      let fork : Graph W = (w.zero, epsilon_arc s1 ∷ epsilon_arc (s2 + n1) ∷ []) ∷ [] in
      let apart = beside (graph fst1) (graph fst2) n1 size in
      known (apart ++ fork) (length apart) s1 s2 e1 e2
        (g ∙ g' ∙ ap (λ t. t ++ fork) (copied_graph fst1 fst2))
        (st ∙ st' ∙ ap (λ t. some (length t)) (copied_graph fst1 fst2))
        (fork_language (graph fst1) (graph fst2) n1 size whole1.closed whole2.closed ins outs v laws
          s1 s2 (start1_lt s1 e1) (start2_lt s2 e2))

  first_empty_case :
      (s2 : StateId)
      → fst1.start ≡ none
      → fst2.start ≡ some s2
      → Accepts (graph (union_compat fst1 fst2)) (union_compat fst1 fst2).start ins outs v ↔ Either
  first_empty_case s2 e1 e2 =
      let in_range = start2_lt s2 e2 in
      let real : s2 + n1 < no_state = omega (arith, bound, in_range, length-map node fst2.states) in
      let (g, st) = first_empty fst1 fst2 s2 e2 real e1 in
      let apart = beside (graph fst1) (graph fst2) n1 size in
      let (to, from) =
        iff_trans
          (Accepts-same (graph (union_compat fst1 fst2)) (apart ++ [])
            (union_compat fst1 fst2).start (some (s2 + n1)) ins outs v
            (g ∙ copied_graph fst1 fst2 ∙ sym (append_nil apart)) st)
          (iff_trans (Accepts-from (apart ++ []) (s2 + n1) ins outs v) (
            second_accepts (graph fst1) (graph fst2) n1 size whole1.closed whole2.closed ins outs v
              [] s2 in_range)) in
      let (to2, from2) = Accepts-from (graph fst2) s2 ins outs v in
      (
        λ h. inr (rw e2 (from2 (to h))),
        λ h. elim h [
          | inl k ↦ absurd (Accepts-none (graph fst1) fst1.start ins outs v e1 k)
          | inr k ↦ from (to2 (rw e2 at k))
        ],
      )

  -- The graph and the start of the union accept exactly what one of the two FSTs accepts.
  union_compat_language :
      Accepts (graph (union_compat fst1 fst2)) (union_compat fst1 fst2).start ins outs v ↔ Either
  union_compat_language = elim (Option-cases fst2.start) [
    | inl e2 ↦
        let (g, st) = second_empty fst1 fst2 e2 in
        let (to, from) =
          Accepts-same (graph (union_compat fst1 fst2)) (graph fst1) (union_compat fst1 fst2).start
            fst1.start ins outs v g st in
        (
          λ h. inl (to h),
          λ h. elim h [
            | inl k ↦ from k
            | inr k ↦ absurd (Accepts-none (graph fst2) fst2.start ins outs v e2 k)
          ],
        )
    | inr (s2, e2) ↦ elim (Option-cases fst1.start) [
      | inl e1 ↦ first_empty_case s2 e1 e2
      | inr (s1, e1) ↦ elim (Bool-cases (fst1.properties initial_acyclic)) [
        | inl bit ↦ grown_case s1 s2 e1 e2 bit
        | inr bit ↦ forked_case s1 s2 e1 e2 bit
      ]
    ]
  ]

module _ {W : Type 0} ⦃w : Weight W⦄ where
  -- Over a semiring, for two FSTs whose arcs and starts lead to states of theirs, with symbol tables
  -- that agree and fewer states together than the largest word: `union` succeeds, and its result
  -- reads a string, writes a string and carries a weight along some path exactly when one of the two
  -- FSTs does. Where the first FST has the bit for an acyclic start, no arc of it may enter the start.
  pub union_language :
      IsSemiring w
      → (fst1 fst2 : VectorFst W) → compat_symbols fst1.isymbols fst2.isymbols ≡ true
      → compat_symbols fst1.osymbols fst2.osymbols ≡ true
      → IsWhole fst1
      → IsWhole fst2
      → HonestStart fst1
      → length fst1.states + length fst2.states < no_state
      → (u : VectorFst W) × (union fst1 fst2 ≡ Outcome.done u)
        × ((ins outs : List Label) (v : W)
            → Accepts (graph u) u.start ins outs v ↔ (
                Accepts (graph fst1) fst1.start ins outs v
                ⊎ Accepts (graph fst2) fst2.start ins outs v))
  unfolding union
  union_language laws fst1 fst2 icompat ocompat whole1 whole2 honest bound = (
    union_compat fst1 fst2,
    rw (union, icompat, ocompat) refl,
    union_compat_language laws fst1 fst2 whole1 whole2 honest bound,
  )
