-- ===== src/Matchers/Tests.antt =====
-- A sorted matcher on the inputs of one state.
use sicada.Prelude.{
  ℕ, ◌+◌, ◌*◌, ◌==◌, ◌≡◌, refl, true, some, List, [], ◌∷◌, ◌++◌, if◌then◌else◌, arith,
}
use sicada.Weight.{Weight}
use sicada.Arc.{Arc, Label}
use sicada.Fst.{Fst}
use sicada.Matchers.Sorted.{MatchType, SortedMatcher, made, new_loop, find_all}
use sicada.Matchers.Order.{IsSorted, with_label, sought}
use sicada.Matchers.Collect.{loop_if}
use sicada.Matchers.Exact.{Rests, find_all_exact}

instance numbers : Weight ℕ
numbers = record { zero = 0; one = 1; plus = ◌+◌; times = ◌*◌; eq = ◌==◌ }

abbrev reads : Label → Arc ℕ
reads l = record { ilabel = l; olabel = 7; weight = 1; nextstate = 1 }

-- Two arcs read epsilon, one 3, two 5.
abbrev arcs_of_zero : List (Arc ℕ)
arcs_of_zero = reads 0 ∷ reads 0 ∷ reads 3 ∷ reads 5 ∷ reads 5 ∷ []

abbrev five_arcs : Fst ℕ
five_arcs = record {
  start = some 0;
  final_weight = λ s. if s == 1 then 1 else 0;
  num_arcs = λ s. if s == 0 then 5 else 0;
  num_input_epsilons = λ s. if s == 0 then 2 else 0;
  num_output_epsilons = λ s. 0;
  arcs = λ s. if s == 0 then arcs_of_zero else [];
}

abbrev matcher : SortedMatcher ℕ
matcher = made five_arcs MatchType.input

matcher-Rests : Rests MatchType.input matcher
matcher-Rests = record { kind = refl; fine = refl; loop_ends = refl; at_state = λ s e. cc }

in_order : IsSorted (λ a. a.ilabel) arcs_of_zero
in_order = omega arith

find_all_exact_example :
    find_all matcher 0 0
    ≡ some (
        loop_if true (new_loop MatchType.input 0)
        ++ with_label (λ a. a.ilabel) (sought 0) arcs_of_zero)
find_all_exact_example = find_all_exact MatchType.input matcher 0 0 matcher-Rests in_order
