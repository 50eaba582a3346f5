-- ===== src/Filters/Sequence/Cache.antt =====
-- What `SequenceComposeFilter` caches about the state that was set last, and how it decides.
use sicada.Prelude.{
  ℕ, ◌≡◌, refl, sym, ◌∙◌, ap, ◌≢◌, inl, inr, false, not, ◌&&◌, none, some, ◌==◌, three_tests,
  Bool-cases, if◌then◌else◌, arith,
}
use sicada.Weight.{Weight}
use sicada.Arc.{Arc, StateId, epsilon, no_label, no_state}
use sicada.Fst.{Fst}
use sicada.Filters.Defs.{
  SequenceComposeFilter, state_default, sequence_new, sequence_set_state, sequence_filter_arc,
  all_output_epsilons, no_output_epsilons,
}
use sicada.Filters.Runs.{loop1, loop2}

module _ {W : Type 0} ⦃w : Weight W⦄ where
  -- What is cached is true of the state that was set last, or no state was set.
  pub record IsReady (fst : Fst W) (f : SequenceComposeFilter W) : Type 0 where
    pub same : f.fst ≡ fst
    pub alleps_eq : f.s1 ≢ no_state → f.alleps ≡ all_output_epsilons fst f.s1
    pub noeps_eq : f.s1 ≢ no_state → f.noeps ≡ no_output_epsilons fst f.s1

  pub record IsCurrent (fst : Fst W) (f : SequenceComposeFilter W) (s1 : StateId) (fs : ℕ)
      : Type 0 where
    pub same : f.fst ≡ fst
    pub s1_eq : f.s1 ≡ s1
    pub fs_eq : f.fs ≡ fs
    pub alleps_eq : f.alleps ≡ all_output_epsilons fst s1
    pub noeps_eq : f.noeps ≡ no_output_epsilons fst s1

  pub sequence_new-IsReady : (fst : Fst W) → IsReady fst (sequence_new fst)
  unfolding sequence_new
  sequence_new-IsReady fst = record {
    same = refl;
    alleps_eq = λ h. absurd (h refl);
    noeps_eq = λ h. absurd (h refl);
  }

  pub sequence_set_state-IsCurrent :
      (fst : Fst W) (f : SequenceComposeFilter W) (s1 s2 : StateId) (fs : ℕ)
      → IsReady fst f
      → s1 ≢ no_state
      → IsCurrent fst (sequence_set_state f s1 s2 fs) s1 fs
  unfolding sequence_set_state
  sequence_set_state-IsCurrent fst f s1 s2 fs ready ne =
      elim (Bool-cases (f.s1 == s1 && f.s2 == s2 && f.fs == fs)) [
        | inl e ↦
            let (e1, _, e3) = three_tests f.s1 s1 f.s2 s2 f.fs fs e in
            let real : f.s1 ≢ no_state = λ k. ne (sym e1 ∙ k) in
            rw e (record {
              same = ready.same;
              s1_eq = e1;
              fs_eq = e3;
              alleps_eq = ready.alleps_eq real ∙ ap (all_output_epsilons fst) e1;
              noeps_eq = ready.noeps_eq real ∙ ap (no_output_epsilons fst) e1;
            })
        | inr e ↦ rw e (record {
          same = ready.same;
          s1_eq = refl;
          fs_eq = refl;
          alleps_eq = ap (λ t. all_output_epsilons t s1) ready.same;
          noeps_eq = ap (λ t. no_output_epsilons t s1) ready.same;
        })
      ]

  pub IsCurrent-IsReady :
      (fst : Fst W) (f : SequenceComposeFilter W) (s1 : StateId) (fs : ℕ)
      → IsCurrent fst f s1 fs
      → IsReady fst f
  IsCurrent-IsReady fst f s1 fs h = record {
    same = h.same;
    alleps_eq = λ _. h.alleps_eq ∙ ap (all_output_epsilons fst) (sym h.s1_eq);
    noeps_eq = λ _. h.noeps_eq ∙ ap (no_output_epsilons fst) (sym h.s1_eq);
  }

  pub filter_arc-left :
      (fst : Fst W) (g : SequenceComposeFilter W) (s1 s2 : StateId) (fs : ℕ) (a : Arc W)
      → IsCurrent fst g s1 fs
      → a.olabel ≡ epsilon
      → sequence_filter_arc g a (loop2 s2)
        ≡ (if not (fs == state_default) then none else some state_default)
  unfolding sequence_filter_arc loop2
  filter_arc-left fst g s1 s2 fs a h e = rw (e, h.fs_eq) refl

  pub filter_arc-right :
      (fst : Fst W) (g : SequenceComposeFilter W) (s1 : StateId) (fs : ℕ) (b : Arc W)
      → IsCurrent fst g s1 fs
      → sequence_filter_arc g (loop1 s1) b ≡ (
          if all_output_epsilons fst s1
          then none
          else if no_output_epsilons fst s1
          then some 0
          else some 1)
  unfolding sequence_filter_arc loop1
  filter_arc-right fst g s1 fs b h = rw (h.alleps_eq, h.noeps_eq) refl

  pub filter_arc-both :
      (fst : Fst W) (g : SequenceComposeFilter W) (a b : Arc W)
      → a.olabel ≢ no_label
      → a.olabel ≡ b.ilabel
      → sequence_filter_arc g a b ≡ (if a.olabel == epsilon then none else some state_default)
  unfolding sequence_filter_arc
  filter_arc-both fst g a b ne e =
      let k : (a.olabel == no_label) ≡ false = ground arith in rw (← e, k) refl
