-- ===== src/Filters/Sequence/Exact.antt =====
-- `SequenceComposeFilter` lets exactly one interleaving through: the first FST's epsilons come first.
use sicada.Prelude.{
  cons_eq, ℕ, ◌≡◌, refl, sym, ◌∙◌, ap, ◌≢◌, ◌↔◌, ◌⊎◌, inl, inr, Bool, true, false, not, none, some,
  List, [], ◌∷◌, ◌==◌, ==_iff, Bool-cases, if◌then◌else◌, arith,
}
use sicada.Weight.{Weight}
use sicada.Arc.{Arc, StateId, epsilon}
use sicada.Fst.{Fst, IsFst}
use sicada.Filters.Defs.{
  SequenceComposeFilter, state_default, sequence_set_state, all_output_epsilons, no_output_epsilons,
}
use sicada.Filters.Paths.{
  labels, starts_real, output, input, IsPath, IsPath-ne, none-starts_real, starts_real-all,
  count_output-count, labels-skip, labels-keep, starts_real-ne, labels-nil, labels_meet,
}
use sicada.Filters.Runs.{Move, accepts, accepts_left, accepts_right, accepts_both}
use sicada.Filters.Sequence.Cache.{
  IsReady, sequence_set_state-IsCurrent, IsCurrent-IsReady, filter_arc-left, filter_arc-right,
  filter_arc-both,
}
use sicada.Filters.Sequence.Order.{
  sequence_filter, first_first, first_first-left, first_first-right, first_first-both,
}

if_not_zero : (fs next : ℕ) → (if not (fs == 0) then none else some 0) ≡ some next → fs ≡ 0
if_not_zero fs next e = ground arith

if_zero : (l next : ℕ) → (if l == 0 then none else some 0) ≡ some next → l ≢ 0
if_zero l next e k = ground arith

if_one : (b : Bool) (next : ℕ) → (if b then none else some 1) ≡ some next → next ≡ 1
if_one b next e = ground arith

if_some : (b : Bool) → (next : ℕ) × ((if b then some 0 else some 1) ≡ some next)
if_some true = (0, refl)
if_some false = (1, refl)

module _ {W : Type 0} ⦃w : Weight W⦄ (fst : Fst W) (laws : IsFst fst) where
  none_output :
      (s : StateId) (p : List (Arc W))
      → no_output_epsilons fst s ≡ true
      → IsPath fst output s p
      → starts_real output p ≡ true
  unfolding no_output_epsilons
  none_output s p e h =
      none-starts_real fst output s p (fst.num_output_epsilons s)
        (laws.num_output_eq s ∙ count_output-count (fst.arcs s)) e h

  all_output :
      (s : StateId) (p : List (Arc W))
      → starts_real output p ≡ true
      → IsPath fst output s p
      → all_output_epsilons fst s ≡ false
  unfolding all_output_epsilons
  all_output s p real h =
      starts_real-all fst output s p (fst.num_arcs s) (fst.num_output_epsilons s)
        (laws.num_arcs_eq s) (laws.num_output_eq s ∙ count_output-count (fst.arcs s)) real h

  real_after :
      (s : StateId) (p : List (Arc W)) (next : ℕ)
      → IsPath fst output s p
      → (if all_output_epsilons fst s
          then none
          else if no_output_epsilons fst s
          then some 0
          else some 1)
        ≡ some next
      → (next ≡ 1 → starts_real output p ≡ true)
      → starts_real output p ≡ true
  real_after s p next h e k = elim (Bool-cases (no_output_epsilons fst s)) [
    | inl e' ↦ none_output s p e' h
    | inr e' ↦ k (if_one (all_output_epsilons fst s) next (rw e' at e))
  ]

  sequence_sound :
      (f : SequenceComposeFilter W) (s1 s2 : StateId) (fs : ℕ) (ms : List Move)
      (p1 p2 : List (Arc W))
      → IsReady fst f
      → IsPath fst output s1 p1
      → accepts sequence_filter f s1 s2 fs ms p1 p2 ≡ true
      → (labels output p1 ≡ labels input p2)
        × (ms ≡ first_first p1 p2)
        × (fs ≡ 1 → starts_real output p1 ≡ true)
  sequence_sound f s1 s2 fs [] [] [] ready h e = (refl, refl, λ _. refl)
  sequence_sound f s1 s2 fs [] [] (b ∷ p2) ready h e = unfold accepts in cc
  sequence_sound f s1 s2 fs [] (a ∷ p1) p2 ready h e = unfold accepts in cc
  sequence_sound f s1 s2 fs (Move.left ∷ ms) [] p2 ready h e = unfold accepts in cc
  sequence_sound f s1 s2 fs (Move.left ∷ ms) (a ∷ p1) p2 ready h e =
      let set =
        sequence_set_state-IsCurrent fst f s1 s2 fs ready
          (IsPath-ne fst output s1 (a ∷ p1) laws h) in
      let (eps, more) = (accepts_left sequence_filter f s1 s2 fs ms a p1 p2).0 e in
      let (next, decided, rest) = more in
      let decision = filter_arc-left fst _ s1 s2 fs a set eps in
      let (ls, order, _) =
        sequence_sound (sequence_set_state f s1 s2 fs) a.nextstate s2 next ms p1 p2
          (IsCurrent-IsReady fst _ s1 fs set) h.2 rest in
      let fs_eq = if_not_zero fs next (sym decision ∙ decided) in
      (
        labels-skip output a p1 eps ∙ ls,
        ap (◌∷◌ Move.left) order ∙ sym (first_first-left a p1 p2 eps),
        λ e'. absurd (omega (arith, fs_eq, e')),
      )
  sequence_sound f s1 s2 fs (Move.right ∷ ms) p1 [] ready h e = unfold accepts in cc
  sequence_sound f s1 s2 fs (Move.right ∷ ms) p1 (b ∷ p2) ready h e =
      let set =
        sequence_set_state-IsCurrent fst f s1 s2 fs ready (IsPath-ne fst output s1 p1 laws h) in
      let (eps, more) = (accepts_right sequence_filter f s1 s2 fs ms b p1 p2).0 e in
      let (next, decided, rest) = more in
      let decision = filter_arc-right fst _ s1 fs b set in
      let (ls, order, real) =
        sequence_sound (sequence_set_state f s1 s2 fs) s1 b.nextstate next ms p1 p2
          (IsCurrent-IsReady fst _ s1 fs set) h rest in
      let starts = real_after s1 p1 next h (sym decision ∙ decided) real in
      (
        ls ∙ sym (labels-skip input b p2 eps),
        ap (◌∷◌ Move.right) order ∙ sym (first_first-right b p1 p2 eps starts),
        λ _. starts,
      )
  sequence_sound f s1 s2 fs (Move.both ∷ ms) [] p2 ready h e = unfold accepts in cc
  sequence_sound f s1 s2 fs (Move.both ∷ ms) (a ∷ p1) [] ready h e = unfold accepts in cc
  sequence_sound f s1 s2 fs (Move.both ∷ ms) (a ∷ p1) (b ∷ p2) ready h e =
      let set =
        sequence_set_state-IsCurrent fst f s1 s2 fs ready
          (IsPath-ne fst output s1 (a ∷ p1) laws h) in
      let (meet, more) = (accepts_both sequence_filter f s1 s2 fs ms a b p1 p2).0 e in
      let (next, decided, rest) = more in
      let decision = filter_arc-both fst (sequence_set_state f s1 s2 fs) a b h.1 meet in
      let (ls, order, _) =
        sequence_sound (sequence_set_state f s1 s2 fs) a.nextstate b.nextstate next ms p1 p2
          (IsCurrent-IsReady fst _ s1 fs set) h.2 rest in
      let ne = if_zero a.olabel next (sym decision ∙ decided) in
      let ne' : b.ilabel ≢ epsilon = λ k. ne (meet ∙ k) in
      (
        labels-keep output a p1 ne ∙ cons_eq meet ls ∙ sym (labels-keep input b p2 ne'),
        ap (◌∷◌ Move.both) order ∙ sym (first_first-both a b p1 p2 ne meet),
        λ _. starts_real-ne output a p1 ne,
      )

  IsReady-set :
      (f : SequenceComposeFilter W) (s1 s2 : StateId) (fs : ℕ) (p : List (Arc W))
      → IsReady fst f
      → IsPath fst output s1 p
      → IsReady fst (sequence_set_state f s1 s2 fs)
  IsReady-set f s1 s2 fs p ready h =
      IsCurrent-IsReady fst _ s1 fs
        (sequence_set_state-IsCurrent fst f s1 s2 fs ready (IsPath-ne fst output s1 p laws h))

  left_complete :
      (f : SequenceComposeFilter W) (s1 s2 : StateId) (fs : ℕ) (ms : List Move) (a : Arc W)
      (p1 p2 : List (Arc W))
      → IsReady fst f
      → IsPath fst output s1 (a ∷ p1)
      → a.olabel ≡ epsilon
      → (fs ≡ 0) ⊎ (starts_real output (a ∷ p1) ≡ true)
      → accepts sequence_filter (sequence_set_state f s1 s2 fs) a.nextstate s2 0 ms p1 p2 ≡ true
      → accepts sequence_filter f s1 s2 fs (Move.left ∷ ms) (a ∷ p1) p2 ≡ true
  left_complete f s1 s2 fs ms a p1 p2 ready h eps zero_or rest =
      let set =
        sequence_set_state-IsCurrent fst f s1 s2 fs ready
          (IsPath-ne fst output s1 (a ∷ p1) laws h) in
      let decision = filter_arc-left fst (sequence_set_state f s1 s2 fs) s1 s2 fs a set eps in
      let zero : fs ≡ 0 = ground (arith, zero_or, eps) in
      (accepts_left sequence_filter f s1 s2 fs ms a p1 p2).1
        (eps, (0, decision ∙ rw zero refl, rest))

  right_complete :
      (f : SequenceComposeFilter W) (s1 s2 : StateId) (fs : ℕ) (ms : List Move) (b : Arc W)
      (p1 p2 : List (Arc W))
      → IsReady fst f
      → IsPath fst output s1 p1
      → starts_real output p1 ≡ true
      → b.ilabel ≡ epsilon
      → ((next : ℕ)
          → accepts sequence_filter (sequence_set_state f s1 s2 fs) s1 b.nextstate next ms p1 p2
            ≡ true)
      → accepts sequence_filter f s1 s2 fs (Move.right ∷ ms) p1 (b ∷ p2) ≡ true
  right_complete f s1 s2 fs ms b p1 p2 ready h real eps rest =
      let set =
        sequence_set_state-IsCurrent fst f s1 s2 fs ready (IsPath-ne fst output s1 p1 laws h) in
      let decision = filter_arc-right fst (sequence_set_state f s1 s2 fs) s1 fs b set in
      let (next, decided) = if_some (no_output_epsilons fst s1) in
      (accepts_right sequence_filter f s1 s2 fs ms b p1 p2).1
        (eps, (next, decision ∙ rw (all_output s1 p1 real h) decided, rest next))

  both_complete :
      (f : SequenceComposeFilter W) (s1 s2 : StateId) (fs : ℕ) (ms : List Move) (a b : Arc W)
      (p1 p2 : List (Arc W))
      → IsReady fst f
      → IsPath fst output s1 (a ∷ p1)
      → a.olabel ≢ epsilon
      → a.olabel ≡ b.ilabel
      → accepts sequence_filter (sequence_set_state f s1 s2 fs) a.nextstate b.nextstate 0 ms p1 p2
        ≡ true
      → accepts sequence_filter f s1 s2 fs (Move.both ∷ ms) (a ∷ p1) (b ∷ p2) ≡ true
  both_complete f s1 s2 fs ms a b p1 p2 ready h ne meet rest =
      let decision = filter_arc-both fst (sequence_set_state f s1 s2 fs) a b h.1 meet in
      let k : (a.olabel == epsilon) ≡ false = ground arith in
      (accepts_both sequence_filter f s1 s2 fs ms a b p1 p2).1
        (meet, (0, decision ∙ rw k refl, rest))

  sequence_complete :
      (f : SequenceComposeFilter W) (s1 s2 : StateId) (fs : ℕ) (p1 p2 : List (Arc W))
      → IsReady fst f
      → IsPath fst output s1 p1
      → (fs ≡ 0) ⊎ (starts_real output p1 ≡ true)
      → labels output p1 ≡ labels input p2
      → accepts sequence_filter f s1 s2 fs (first_first p1 p2) p1 p2 ≡ true
  unfolding accepts
  sequence_complete f s1 s2 fs [] [] ready h z ls = refl
  sequence_complete f s1 s2 fs [] (b ∷ p2) ready h z ls =
      let (eps, ls') = labels-nil input b p2 (sym ls) in
      let ready' = IsReady-set f s1 s2 fs [] ready h in
      right_complete f s1 s2 fs _ b [] p2 ready h refl eps (λ next.
        sequence_complete (sequence_set_state f s1 s2 fs) s1 b.nextstate next [] p2 ready' h
          (inr refl) (sym ls'))
  sequence_complete f s1 s2 fs (a ∷ p1) [] ready h z ls =
      let (eps, ls') = labels-nil output a p1 ls in
      let ready' = IsReady-set f s1 s2 fs (a ∷ p1) ready h in
      left_complete f s1 s2 fs _ a p1 [] ready h eps z (
        sequence_complete (sequence_set_state f s1 s2 fs) a.nextstate s2 0 p1 [] ready' h.2
          (inl refl) ls')
  sequence_complete f s1 s2 fs (a ∷ p1) (b ∷ p2) ready h z ls =
      let g = sequence_set_state f s1 s2 fs in
      let ready' = IsReady-set f s1 s2 fs (a ∷ p1) ready h in
      elim (Bool-cases (a.olabel == epsilon)) [
        | inl e ↦
            let eps = (==_iff a.olabel epsilon).0 e in
            rw (first_first-left a p1 (b ∷ p2) eps) (
              left_complete f s1 s2 fs _ a p1 (b ∷ p2) ready h eps z (
                sequence_complete g a.nextstate s2 0 p1 (b ∷ p2) ready' h.2 (inl refl)
                  (sym (labels-skip output a p1 eps) ∙ ls)))
        | inr e ↦
            let ne : a.olabel ≢ epsilon = λ k. ground (arith, (==_iff a.olabel epsilon).1 k) in
            let real = starts_real-ne output a p1 ne in
            elim (Bool-cases (b.ilabel == epsilon)) [
              | inl e' ↦
                  let eps = (==_iff b.ilabel epsilon).0 e' in
                  rw (first_first-right b (a ∷ p1) p2 eps real) (
                    right_complete f s1 s2 fs _ b (a ∷ p1) p2 ready h real eps (λ next.
                      sequence_complete g s1 b.nextstate next (a ∷ p1) p2 ready' h (inr real)
                        (ls ∙ labels-skip input b p2 eps)))
              | inr e' ↦
                  let ne' : b.ilabel ≢ epsilon =
                    λ k. ground (arith, (==_iff b.ilabel epsilon).1 k) in
                  let (meet, ls') = labels_meet output input a b p1 p2 ne ne' ls in
                  rw (first_first-both a b p1 p2 ne meet) (
                    both_complete f s1 s2 fs _ a b p1 p2 ready h ne meet (
                      sequence_complete g a.nextstate b.nextstate 0 p1 p2 ready' h.2 (inl refl)
                        ls'))
            ]
      ]

  -- Along a path of the first FST from a state to a final one, and any arcs of the second, the filter
  -- lets exactly one order of moves through, the one with the epsilons of the first FST in front, and
  -- that when the labels that the first writes are those that the second reads, and none otherwise.
  -- The counts of the first FST are those of its arcs, and the filter's cache is right at the start,
  -- as it is in a new filter.
  pub sequence_exact :
      (f : SequenceComposeFilter W) (s1 s2 : StateId) (ms : List Move) (p1 p2 : List (Arc W))
      → IsReady fst f
      → IsPath fst output s1 p1
      → (accepts sequence_filter f s1 s2 state_default ms p1 p2 ≡ true)
        ↔ ((labels output p1 ≡ labels input p2) × (ms ≡ first_first p1 p2))
  sequence_exact f s1 s2 ms p1 p2 ready h = (
    λ e. let (ls, order, _) = sequence_sound f s1 s2 0 ms p1 p2 ready h e in (ls, order),
    λ (ls, order). rw order (sequence_complete f s1 s2 0 p1 p2 ready h (inl refl) ls),
  )
