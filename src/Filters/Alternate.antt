-- ===== src/Filters/Alternate.antt =====
-- `AltSequenceComposeFilter` of sicada/src/algorithms/compose_filter.rs lets exactly one interleaving
-- through: the second FST's epsilons come first.
use sicada.Prelude.{
  ℕ, ◌≤◌, ◌≡◌, ◌↔◌, refl, sym, ap, ◌∙◌, true, List, [], ◌∷◌, map, mem_map, length-map, arith,
}
use sicada.Weight.{Weight}
use sicada.Arc.{Arc, StateId}
use sicada.Fst.{Fst, IsFst}
use sicada.VectorFst.Delete.{count_input, count_output}
use sicada.Filters.Defs.{SequenceComposeFilter, state_default, sequence_new, alt_set_state}
use sicada.Filters.Paths.{labels, input, output, IsPath}
use sicada.Filters.Runs.{Move, loop1, loop2, accepts, accepts_left, accepts_right, accepts_both}
use sicada.Filters.Sequence.Cache.{IsReady, sequence_new-IsReady}
use sicada.Filters.Sequence.Order.{sequence_filter, first_first}
use sicada.Filters.Sequence.Exact.{sequence_exact}
use sicada.Filters.Mirror.{
  swap, flip, mirror_fst, mirror, alt_filter, mirror_set, alt_set_state-fs, mirror_left,
  mirror_right, mirror_both, alt_small,
}

swap-swap : (ms : List Move) → map swap (map swap ms) ≡ ms
swap-swap [] = refl
swap-swap (Move.left ∷ ms) = ap (◌∷◌ Move.left) (swap-swap ms)
swap-swap (Move.right ∷ ms) = ap (◌∷◌ Move.right) (swap-swap ms)
swap-swap (Move.both ∷ ms) = ap (◌∷◌ Move.both) (swap-swap ms)

module _ {W : Type 0} where
  labels-flip :
      (p : List (Arc W))
      → (labels output (map flip p) ≡ labels input p)
        × (labels input (map flip p) ≡ labels output p)
  labels-flip [] = (refl, refl)
  labels-flip (a ∷ p) = let (i, o) = labels-flip p in (rw i refl, rw o refl)

  count-flip :
      (as' : List (Arc W))
      → (count_input as' ≡ count_output (map flip as'))
        × (count_output as' ≡ count_input (map flip as'))
  unfolding count_input count_output
  count-flip [] = (refl, refl)
  count-flip (a ∷ as') = let (i, o) = count-flip as' in ground (arith, i, o)

module _ {W : Type 0} ⦃w : Weight W⦄ where
  mirror_fst-IsFst : (fst : Fst W) → IsFst fst → IsFst (mirror_fst fst)
  mirror_fst-IsFst fst laws = record {
    num_arcs_eq = λ s. laws.num_arcs_eq s ∙ sym (length-map flip (fst.arcs s));
    num_input_eq = λ s. laws.num_output_eq s ∙ (count-flip (fst.arcs s)).1;
    num_output_eq = λ s. laws.num_input_eq s ∙ (count-flip (fst.arcs s)).0;
    no_state_arcs = ap (map flip) laws.no_state_arcs;
    no_state_final = laws.no_state_final;
  }

  mirror_fst-IsPath :
      (fst : Fst W) (s : StateId) (p : List (Arc W))
      → IsPath fst input s p
      → IsPath (mirror_fst fst) output s (map flip p)
  mirror_fst-IsPath fst s [] h = h
  mirror_fst-IsPath fst s (a ∷ p) (m, ne, rest) =
      (mem_map flip a (fst.arcs s) m, ne, mirror_fst-IsPath fst a.nextstate p rest)

  -- The alternate filter accepts what the sequence filter accepts of the mirror image.
  mirror-accepts :
      (f : SequenceComposeFilter W) (s1 s2 : StateId) (fs : ℕ) (ms : List Move)
      (p1 p2 : List (Arc W))
      → fs ≤ 1
      → (accepts alt_filter f s1 s2 fs ms p1 p2 ≡ true) ↔ (
          accepts sequence_filter (mirror f) s2 s1 fs (map swap ms) (map flip p2) (map flip p1)
          ≡ true)
  mirror-accepts f s1 s2 fs [] [] [] k = (λ e. unfold accepts in refl, λ e. unfold accepts in refl)
  mirror-accepts f s1 s2 fs [] [] (b ∷ p2) k = (λ e. unfold accepts in e, λ e. unfold accepts in e)
  mirror-accepts f s1 s2 fs [] (a ∷ p1) [] k = (λ e. unfold accepts in e, λ e. unfold accepts in e)
  mirror-accepts f s1 s2 fs [] (a ∷ p1) (b ∷ p2) k =
      (λ e. unfold accepts in e, λ e. unfold accepts in e)
  mirror-accepts f s1 s2 fs (Move.left ∷ ms) [] p2 k =
      (λ e. unfold accepts in cc, λ e. unfold accepts in cc)
  mirror-accepts f s1 s2 fs (Move.left ∷ ms) (a ∷ p1) p2 k =
      let g = alt_set_state f s1 s2 fs in
      let alt = accepts_left alt_filter f s1 s2 fs ms a p1 p2 in
      let seq =
        accepts_right sequence_filter (mirror f) s2 s1 fs (map swap ms) (flip a) (map flip p2)
          (map flip p1) in
      let same = rw (mirror_set f s1 s2 fs) at (mirror_left g s2 a) in
      (
        λ e.
            let (eps, more) = alt.0 e in
            let (next, decided, rest) = more in
            let small = alt_small g a (loop2 s2) next decided in
            let rest' = (mirror-accepts g a.nextstate s2 next ms p1 p2 small).0 rest in
            seq.1 (eps, (next, sym same ∙ decided, rw (mirror_set f s1 s2 fs) at rest')),
        λ e.
            let (eps, more) = seq.0 e in
            let (next, decided, rest) = more in
            let decided' = same ∙ decided in
            let small = alt_small g a (loop2 s2) next decided' in
            alt.1 (
              eps,
              (
                next,
                decided',
                (mirror-accepts g a.nextstate s2 next ms p1 p2 small).1
                    (rw (← mirror_set f s1 s2 fs) at rest),
              ),
            ),
      )
  mirror-accepts f s1 s2 fs (Move.right ∷ ms) [] [] k =
      (λ e. unfold accepts in cc, λ e. unfold accepts in cc)
  mirror-accepts f s1 s2 fs (Move.right ∷ ms) (a ∷ p1) [] k =
      (λ e. unfold accepts in cc, λ e. unfold accepts in cc)
  mirror-accepts f s1 s2 fs (Move.right ∷ ms) p1 (b ∷ p2) k =
      let g = alt_set_state f s1 s2 fs in
      let alt = accepts_right alt_filter f s1 s2 fs ms b p1 p2 in
      let seq =
        accepts_left sequence_filter (mirror f) s2 s1 fs (map swap ms) (flip b) (map flip p2)
          (map flip p1) in
      let state : g.fs ≤ 1 = omega (arith, alt_set_state-fs f s1 s2 fs, k) in
      (
        λ e.
            let (eps, more) = alt.0 e in
            let (next, decided, rest) = more in
            let same = rw (mirror_set f s1 s2 fs) at (mirror_right g s1 b eps state) in
            let small = alt_small g (loop1 s1) b next decided in
            let rest' = (mirror-accepts g s1 b.nextstate next ms p1 p2 small).0 rest in
            seq.1 (eps, (next, sym same ∙ decided, rw (mirror_set f s1 s2 fs) at rest')),
        λ e.
            let (eps, more) = seq.0 e in
            let (next, decided, rest) = more in
            let same = rw (mirror_set f s1 s2 fs) at (mirror_right g s1 b eps state) in
            let decided' = same ∙ decided in
            let small = alt_small g (loop1 s1) b next decided' in
            let rest' = rw (← mirror_set f s1 s2 fs) at rest in
            alt.1 (
              eps,
              (next, decided', (mirror-accepts g s1 b.nextstate next ms p1 p2 small).1 rest'),
            ),
      )
  mirror-accepts f s1 s2 fs (Move.both ∷ ms) [] [] k =
      (λ e. unfold accepts in cc, λ e. unfold accepts in cc)
  mirror-accepts f s1 s2 fs (Move.both ∷ ms) [] (b ∷ p2) k =
      (λ e. unfold accepts in cc, λ e. unfold accepts in cc)
  mirror-accepts f s1 s2 fs (Move.both ∷ ms) (a ∷ p1) [] k =
      (λ e. unfold accepts in cc, λ e. unfold accepts in cc)
  mirror-accepts f s1 s2 fs (Move.both ∷ ms) (a ∷ p1) (b ∷ p2) k =
      let g = alt_set_state f s1 s2 fs in
      let alt = accepts_both alt_filter f s1 s2 fs ms a b p1 p2 in
      let seq =
        accepts_both sequence_filter (mirror f) s2 s1 fs (map swap ms) (flip b) (flip a)
          (map flip p2) (map flip p1) in
      (
        λ e.
            let (meet, more) = alt.0 e in
            let (next, decided, rest) = more in
            let same = rw (mirror_set f s1 s2 fs) at (mirror_both g a b meet) in
            let small = alt_small g a b next decided in
            let rest' = (mirror-accepts g a.nextstate b.nextstate next ms p1 p2 small).0 rest in
            seq.1 (sym meet, (next, sym same ∙ decided, rw (mirror_set f s1 s2 fs) at rest')),
        λ e.
            let (meet, more) = seq.0 e in
            let (next, decided, rest) = more in
            let same = rw (mirror_set f s1 s2 fs) at (mirror_both g a b (sym meet)) in
            let decided' = same ∙ decided in
            let small = alt_small g a b next decided' in
            let rest' = rw (← mirror_set f s1 s2 fs) at rest in
            alt.1 (
              sym meet,
              (
                next,
                decided',
                (mirror-accepts g a.nextstate b.nextstate next ms p1 p2 small).1 rest',
              ),
            ),
      )

  -- The order that the filter keeps: the sequence filter's, with the sides exchanged.
  abbrev pub second_first : List (Arc W) → List (Arc W) → List Move
  second_first p1 p2 = map swap (first_first (map flip p2) (map flip p1))

  -- What is cached is true of the second FST's state that was set last.
  abbrev pub IsAltReady : Fst W → SequenceComposeFilter W → Type 0
  IsAltReady fst f = IsReady (mirror_fst fst) (mirror f)

  pub alt_new-IsAltReady : (fst : Fst W) → IsAltReady fst (sequence_new fst)
  unfolding sequence_new
  alt_new-IsAltReady fst = sequence_new-IsReady (mirror_fst fst)

  -- Along any arcs of the first FST, and a path of the second from a state to a final one, the filter
  -- lets exactly one order of moves through, the one with the epsilons of the second FST in front,
  -- and that when the labels that the first writes are those that the second reads, and none
  -- otherwise. The counts of the second FST are those of its arcs, and the filter's cache is right at
  -- the start, as it is in a new filter.
  pub alternate_exact :
      (fst : Fst W)
      → IsFst fst
      → (f : SequenceComposeFilter W) (s1 s2 : StateId) (ms : List Move) (p1 p2 : List (Arc W))
      → IsAltReady fst f
      → IsPath fst input s2 p2
      → (accepts alt_filter f s1 s2 state_default ms p1 p2 ≡ true)
        ↔ ((labels output p1 ≡ labels input p2) × (ms ≡ second_first p1 p2))
  alternate_exact fst laws f s1 s2 ms p1 p2 ready h =
      let (to, from) = mirror-accepts f s1 s2 0 ms p1 p2 (omega arith) in
      let (exact, exact') =
        sequence_exact (mirror_fst fst) (mirror_fst-IsFst fst laws) (mirror f) s2 s1 (map swap ms)
          (map flip p2) (map flip p1) ready (mirror_fst-IsPath fst s2 p2 h) in
      let o = (labels-flip p2).0 in
      let i = (labels-flip p1).1 in
      (
        λ e.
            let (ls, order) = exact (to e) in
            (sym (sym o ∙ ls ∙ i), sym (swap-swap ms) ∙ ap (map swap) order),
        λ (ls, order). from (
            exact' (
              o ∙ sym ls ∙ sym i,
              ap (map swap) order ∙ swap-swap (first_first (map flip p2) (map flip p1)),
            )),
      )
