-- ===== src/Filters/Mirror.antt =====
-- `AltSequenceComposeFilter` of sicada/src/algorithms/compose_filter.rs is the mirror image of
-- `SequenceComposeFilter`: the sides, the labels and the moves change places.
use sicada.Prelude.{
  ℕ, ◌≤◌, ◌≡◌, refl, not, ◌&&◌, Bool-cases, three_tests, none, some, map, ◌==◌, if◌then◌else◌,
  arith, inl, inr,
}
use sicada.Weight.{Weight}
use sicada.Arc.{Arc, StateId, epsilon, no_label}
use sicada.Fst.{Fst}
use sicada.Filters.Defs.{
  ComposeFilter, CharFilterState, SequenceComposeFilter, state_default, sequence_set_state,
  sequence_filter_arc, alt_set_state, alt_filter_arc, all_input_epsilons, no_input_epsilons,
  all_output_epsilons, no_output_epsilons,
}
use sicada.Filters.Runs.{Move, loop1, loop2}

abbrev pub swap : Move → Move
swap Move.left = Move.right
swap Move.right = Move.left
swap Move.both = Move.both

module _ {W : Type 0} where
  abbrev pub flip : Arc W → Arc W
  flip a = record {
    ilabel = a.olabel;
    olabel = a.ilabel;
    weight = a.weight;
    nextstate = a.nextstate;
  }

  abbrev pub mirror_fst : Fst W → Fst W
  mirror_fst fst = record fst {
    num_input_epsilons = fst.num_output_epsilons;
    num_output_epsilons = fst.num_input_epsilons;
    arcs = λ s. map flip (fst.arcs s);
  }

  abbrev pub mirror : SequenceComposeFilter W → SequenceComposeFilter W
  mirror f = record f { fst = mirror_fst f.fst; s1 = f.s2; s2 = f.s1 }

module _ {W : Type 0} ⦃w : Weight W⦄ where
  abbrev pub alt_filter : ComposeFilter W (SequenceComposeFilter W) CharFilterState
  alt_filter = record {
    start = λ f. state_default;
    set_state = alt_set_state;
    filter_arc = λ f a b. (alt_filter_arc f a b, a, b);
  }

  pub mirror_set :
      (f : SequenceComposeFilter W) (s1 s2 : StateId) (fs : ℕ)
      → mirror (alt_set_state f s1 s2 fs) ≡ sequence_set_state (mirror f) s2 s1 fs
  unfolding alt_set_state sequence_set_state all_input_epsilons no_input_epsilons
      all_output_epsilons no_output_epsilons
  mirror_set f s1 s2 fs = elim (Bool-cases (f.s1 == s1)) [
    | inl e1 ↦ elim (Bool-cases (f.s2 == s2)) [
      | inl e2 ↦ elim (Bool-cases (f.fs == fs)) [
        | inl e3 ↦ rw (alt_set_state, sequence_set_state, e1, e2, e3) refl
        | inr e3 ↦ rw (alt_set_state, sequence_set_state, e1, e2, e3) refl
      ]
      | inr e2 ↦ rw (alt_set_state, sequence_set_state, e1, e2) refl
    ]
    | inr e1 ↦ elim (Bool-cases (f.s2 == s2)) [
      | inl e2 ↦ rw (alt_set_state, sequence_set_state, e1, e2) refl
      | inr e2 ↦ rw (alt_set_state, sequence_set_state, e1, e2) refl
    ]
  ]

  pub alt_set_state-fs :
      (f : SequenceComposeFilter W) (s1 s2 : StateId) (fs : ℕ) → (alt_set_state f s1 s2 fs).fs ≡ fs
  unfolding alt_set_state
  alt_set_state-fs f s1 s2 fs = elim (Bool-cases (f.s1 == s1 && f.s2 == s2 && f.fs == fs)) [
    | inl e ↦ let (_, _, e3) = three_tests f.s1 s1 f.s2 s2 f.fs fs e in rw (alt_set_state, e) e3
    | inr e ↦ rw (alt_set_state, e) refl
  ]

  pub mirror_left :
      (g : SequenceComposeFilter W) (s2 : StateId) (a : Arc W)
      → alt_filter_arc g a (loop2 s2) ≡ sequence_filter_arc (mirror g) (loop1 s2) (flip a)
  unfolding alt_filter_arc sequence_filter_arc loop1 loop2
  mirror_left g s2 a = refl

  pub mirror_right :
      (g : SequenceComposeFilter W) (s1 : StateId) (b : Arc W)
      → b.ilabel ≡ epsilon
      → g.fs ≤ 1
      → alt_filter_arc g (loop1 s1) b ≡ sequence_filter_arc (mirror g) (flip b) (loop2 s1)
  unfolding alt_filter_arc sequence_filter_arc loop1 loop2
  mirror_right g s1 b e k = rw e (two_states g.fs k)
    where
      two_states :
          (n : ℕ)
          → n ≤ 1
          → (if n == 1 then none else some state_default)
            ≡ (if not (n == 0) then none else some state_default)
      two_states n k = ground arith

  pub mirror_both :
      (g : SequenceComposeFilter W) (a b : Arc W)
      → a.olabel ≡ b.ilabel
      → alt_filter_arc g a b ≡ sequence_filter_arc (mirror g) (flip b) (flip a)
  unfolding alt_filter_arc sequence_filter_arc
  mirror_both g a b e = elim (Bool-cases (b.ilabel == no_label)) [
    | inl k ↦ rw (e, k) refl
    | inr k ↦ rw (e, k) refl
  ]

  pub alt_small :
      (g : SequenceComposeFilter W) (a b : Arc W) (n : ℕ) → alt_filter_arc g a b ≡ some n → n ≤ 1
  unfolding alt_filter_arc
  alt_small g a b n e = ground arith
