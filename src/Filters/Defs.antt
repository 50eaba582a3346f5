-- ===== src/Filters/Defs.antt =====
-- The trait and the filters of sicada/src/algorithms/compose_filter.rs, with the filter states of
-- sicada/src/algorithms/filter_state.rs. The matchers that a filter carries are left out: a filter
-- only hands them on. No filter here changes itself in `filter_arc`, and `filter_final` does
-- nothing.
use sicada.Prelude.{ℕ, Bool, true, false, not, ◌&&◌, ◌||◌, Option, none, some, ◌==◌, if◌then◌else◌}
use sicada.Weight.{Weight}
use sicada.Arc.{Arc, StateId, epsilon, no_label, no_state}
use sicada.Fst.{Fst, is_final}

-- `filter_arc` answers with the next filter state, if the pair is allowed, and the arcs as it
-- leaves them.
pub record ComposeFilter (W F S : Type 0) : Type 0 where
  pub start : F → S
  pub set_state : F → StateId → StateId → S → F
  pub filter_arc : F → Arc W → Arc W → Option S × Arc W × Arc W

abbrev pub CharFilterState : Type 0
CharFilterState = ℕ

abbrev pub state_default : CharFilterState
state_default = 0

abbrev pub state_eps1 : CharFilterState
state_eps1 = 1

abbrev pub state_eps2 : CharFilterState
state_eps2 = 2

-- The filters that remember nothing.
pub data Stateless : Type 0 where
  stateless : Stateless

module _ {W : Type 0} where
  unfoldable pub null_filter_arc : Stateless → Arc W → Arc W → Option Bool
  null_filter_arc f arc1 arc2 =
      if arc1.olabel == no_label || arc2.ilabel == no_label then none else some true

  unfoldable pub trivial_filter_arc : Stateless → Arc W → Arc W → Option Bool
  trivial_filter_arc f arc1 arc2 = some true

  unfoldable pub no_match_filter_arc : Stateless → Arc W → Arc W → Option Bool
  no_match_filter_arc f arc1 arc2 =
      if not (arc1.olabel == epsilon) || not (arc2.ilabel == epsilon) then some true else none

-- `SequenceComposeFilter`, and `AltSequenceComposeFilter` for the other FST: the FST whose epsilons
-- are counted, the state that was set last, and what is cached about it.
pub record SequenceComposeFilter (W : Type 0) : Type 0 where
  pub fst : Fst W
  pub s1 : StateId
  pub s2 : StateId
  pub fs : CharFilterState
  pub alleps : Bool
  pub noeps : Bool

pub record MatchComposeFilter (W : Type 0) : Type 0 where
  pub fst1 : Fst W
  pub fst2 : Fst W
  pub s1 : StateId
  pub s2 : StateId
  pub fs : CharFilterState
  pub alleps1 : Bool
  pub alleps2 : Bool
  pub noeps1 : Bool
  pub noeps2 : Bool

module _ {W : Type 0} ⦃w : Weight W⦄ where
  -- Every arc leaves with an epsilon, and the path cannot end here.
  unfoldable pub all_output_epsilons : Fst W → StateId → Bool
  all_output_epsilons fst s = fst.num_arcs s == fst.num_output_epsilons s && not (is_final fst s)

  unfoldable pub no_output_epsilons : Fst W → StateId → Bool
  no_output_epsilons fst s = fst.num_output_epsilons s == 0

  unfoldable pub all_input_epsilons : Fst W → StateId → Bool
  all_input_epsilons fst s = fst.num_arcs s == fst.num_input_epsilons s && not (is_final fst s)

  unfoldable pub no_input_epsilons : Fst W → StateId → Bool
  no_input_epsilons fst s = fst.num_input_epsilons s == 0

  unfoldable pub sequence_new : Fst W → SequenceComposeFilter W
  sequence_new fst = record {
    fst = fst;
    s1 = no_state;
    s2 = no_state;
    fs = state_default;
    alleps = false;
    noeps = false;
  }

  unfoldable pub sequence_set_state :
      SequenceComposeFilter W → StateId → StateId → CharFilterState → SequenceComposeFilter W
  unfolding all_output_epsilons no_output_epsilons
  sequence_set_state f s1 s2 fs = if f.s1 == s1 && f.s2 == s2 && f.fs == fs then f else record {
    fst = f.fst;
    s1 = s1;
    s2 = s2;
    fs = fs;
    alleps = all_output_epsilons f.fst s1;
    noeps = no_output_epsilons f.fst s1;
  }

  unfoldable pub sequence_filter_arc :
      SequenceComposeFilter W → Arc W → Arc W → Option CharFilterState
  sequence_filter_arc f arc1 arc2 =
      if arc1.olabel == no_label
      then (if f.alleps then none else if f.noeps then some state_default else some state_eps1)
      else if arc2.ilabel == no_label
      then (if not (f.fs == state_default) then none else some state_default)
      else if arc1.olabel == epsilon
      then none
      else some state_default

  unfoldable pub alt_set_state :
      SequenceComposeFilter W → StateId → StateId → CharFilterState → SequenceComposeFilter W
  unfolding all_input_epsilons no_input_epsilons
  alt_set_state f s1 s2 fs = if f.s1 == s1 && f.s2 == s2 && f.fs == fs then f else record {
    fst = f.fst;
    s1 = s1;
    s2 = s2;
    fs = fs;
    alleps = all_input_epsilons f.fst s2;
    noeps = no_input_epsilons f.fst s2;
  }

  unfoldable pub alt_filter_arc : SequenceComposeFilter W → Arc W → Arc W → Option CharFilterState
  alt_filter_arc f arc1 arc2 =
      if arc2.ilabel == no_label
      then (if f.alleps then none else if f.noeps then some state_default else some state_eps1)
      else if arc1.olabel == no_label
      then (if f.fs == state_eps1 then none else some state_default)
      else if arc1.olabel == epsilon
      then none
      else some state_default

  unfoldable pub match_new : Fst W → Fst W → MatchComposeFilter W
  match_new fst1 fst2 = record {
    fst1 = fst1;
    fst2 = fst2;
    s1 = no_state;
    s2 = no_state;
    fs = state_default;
    alleps1 = false;
    alleps2 = false;
    noeps1 = false;
    noeps2 = false;
  }

  unfoldable pub match_set_state :
      MatchComposeFilter W → StateId → StateId → CharFilterState → MatchComposeFilter W
  unfolding all_output_epsilons no_output_epsilons all_input_epsilons no_input_epsilons
  match_set_state f s1 s2 fs = if f.s1 == s1 && f.s2 == s2 && f.fs == fs then f else record {
    fst1 = f.fst1;
    fst2 = f.fst2;
    s1 = s1;
    s2 = s2;
    fs = fs;
    alleps1 = all_output_epsilons f.fst1 s1;
    alleps2 = all_input_epsilons f.fst2 s2;
    noeps1 = no_output_epsilons f.fst1 s1;
    noeps2 = no_input_epsilons f.fst2 s2;
  }

  unfoldable pub match_filter_arc : MatchComposeFilter W → Arc W → Arc W → Option CharFilterState
  match_filter_arc f arc1 arc2 =
      if arc2.ilabel == no_label
      then (if f.fs == state_default
          then (if f.noeps2
              then some state_default
              else if f.alleps2
              then none
              else some state_eps1)
          else if f.fs == state_eps1
          then some state_eps1
          else none)
      else if arc1.olabel == no_label
      then (if f.fs == state_default
          then (if f.noeps1
              then some state_default
              else if f.alleps1
              then none
              else some state_eps2)
          else if f.fs == state_eps2
          then some state_eps2
          else none)
      else if arc1.olabel == epsilon
      then (if f.fs == state_default then some state_default else none)
      else some state_default
