-- ===== src/VectorFst/Tests.antt =====
-- The methods of sicada/src/fsts/vector_fst.rs run on a small FST over the counting semiring.
use sicada.Prelude.{ℕ, ◌+◌, ◌*◌, ◌≡◌, refl, Option, none, some, List, [], ◌∷◌, ◌==◌}
use sicada.Weight.{Weight}
use sicada.Arc.{Arc, epsilon}
use sicada.VectorFst.State
use sicada.VectorFst.State.{VectorState}
use sicada.VectorFst.Defs.{
  VectorFst, new, add_states, add_arc, arcs_mut, mutate_arcs, num_input_epsilons,
  num_output_epsilons, arcs,
}
use sicada.VectorFst.Delete.{count_input, count_output, delete_states}
use sicada.VectorFst.Edit
use sicada.VectorFst.Edit.{Built}
use sicada.VectorFst.Counted.{AllCounted}
use sicada.VectorFst.Epsilons.{counts_invariant, mutate_arcs_stale}

instance counting : Weight ℕ
counting = record { zero = 0; one = 1; plus = ◌+◌; times = ◌*◌; eq = ◌==◌ }

abbrev eps_to : ℕ → Arc ℕ
eps_to q = record { ilabel = epsilon; olabel = 7; weight = 1; nextstate = q }

abbrev label_to : ℕ → Arc ℕ
label_to q = record { ilabel = 5; olabel = epsilon; weight = 2; nextstate = q }

abbrev empty_fst : VectorFst ℕ
empty_fst = new

abbrev two_states : VectorFst ℕ
two_states = add_arc (add_arc (add_states empty_fst 2) 1 (eps_to 1)) 1 (label_to 0)

-- After `delete_states`: state 1 becomes state 0, and its arc to state 0 is dropped.
abbrev one_left : List (VectorState ℕ)
one_left = record { final_weight = 0; arcs = eps_to 0 ∷ []; niepsilons = 1; noepsilons = 0 } ∷ []

abbrev map_states : Option (VectorFst ℕ) → Option (List (VectorState ℕ))
map_states none = none
map_states (some fst) = some fst.states

delete_states_test : map_states (delete_states two_states (0 ∷ [])) ≡ some one_left
unfolding delete_states new add_states add_arc State.add_arc counting
delete_states_test = refl

empty-AllCounted : AllCounted empty_fst.states
unfolding new
empty-AllCounted = tt

two_states-Built : Built empty_fst two_states
two_states-Built =
    Built.call (Edit.add_arc 1 (label_to 0))
      (Built.call (Edit.add_arc 1 (eps_to 1)) (Built.call (Edit.add_states 2) Built.start refl tt)
        refl tt)
      refl tt

-- The two arcs of state 1 change places, through the slice of `arcs_mut`.
abbrev rearranged : VectorFst ℕ
rearranged = arcs_mut two_states 1 (label_to 0 ∷ eps_to 1 ∷ [])

rearranged_arcs : arcs rearranged 1 ≡ label_to 0 ∷ eps_to 1 ∷ []
unfolding arcs arcs_mut new add_states add_arc State.add_arc
rearranged_arcs = refl

rearranged-Built : Built empty_fst rearranged
unfolding arcs new add_states add_arc State.add_arc count_input count_output
rearranged-Built =
    Built.call (Edit.arcs_mut 1 (label_to 0 ∷ eps_to 1 ∷ [])) two_states-Built refl (refl, refl)

counts_invariant_example : AllCounted rearranged.states
counts_invariant_example = counts_invariant empty_fst empty-AllCounted rearranged-Built

abbrev drop_labels : Arc ℕ → Arc ℕ
drop_labels arc = record arc { ilabel = 3; olabel = 3 }

mutate_arcs_stale_example :
    (num_input_epsilons (mutate_arcs two_states 1 drop_labels) 1 ≡ count_input (arcs two_states 1))
    × (num_output_epsilons (mutate_arcs two_states 1 drop_labels) 1
        ≡ count_output (arcs two_states 1))
mutate_arcs_stale_example =
    mutate_arcs_stale two_states 1 drop_labels
      (counts_invariant empty_fst empty-AllCounted two_states-Built)
