-- ===== src/VectorFst/Defs.antt =====
-- `VectorFst` of sicada/src/fsts/vector_fst.rs and its `Fst` and `MutableFst` methods, over
-- `ArcTpl<W, usize, usize>`. The property cache is a plain field, since nothing here is shared; the
-- file format is left out.

use sicada.Prelude.{
  ℕ, Option, none, some, List, [], ◌∷◌, ◌++◌, ◌==◌, if◌then◌else◌, length, get_elem?, set,
  replicate, map,
}
use sicada.Weight.{Weight}
use sicada.Arc.{Arc, StateId, no_state}
use sicada.Symbols.{SymbolTable}
use sicada.Properties.Flags.{Props, mask, ◌&◌, ◌∪◌, without, expanded, mutable, error}
use sicada.Properties.Masks.{k_null_properties}
use sicada.Properties.Update.{
  set_start_properties, set_final_properties, add_state_properties, add_arc_properties,
  set_arc_properties, delete_arcs_properties, delete_all_states_properties,
}
use sicada.VectorFst.State
use sicada.VectorFst.State.{VectorState}

pub record VectorFst (W : Type 0) : Type 0 where
  pub states : List (VectorState W)
  pub start : Option StateId
  pub properties : Props
  pub isymbols : Option SymbolTable
  pub osymbols : Option SymbolTable

unfoldable pub static_properties : Props
unfolding mask
static_properties = mask (expanded ∷ mutable ∷ [])

-- The last arc and the one before it.
unfoldable pub last_two {ℓ} : {A : Type ℓ} → List A → Option (A × Option A)
last_two [] = none
last_two (x ∷ []) = some (x, none)
last_two (x ∷ y ∷ []) = some (y, some x)
last_two (x ∷ y ∷ z ∷ xs) = last_two (y ∷ z ∷ xs)

module _ {W : Type 0} where
  abbrev pub num_states : VectorFst W → ℕ
  num_states fst = length fst.states

  -- `arcs` and `arcs_slice`.
  unfoldable pub arcs : VectorFst W → StateId → List (Arc W)
  arcs fst state = elim (get_elem? fst.states state) [ none ↦ [] | some s ↦ s.arcs ]

  unfoldable pub num_arcs : VectorFst W → StateId → ℕ
  num_arcs fst state = elim (get_elem? fst.states state) [ none ↦ 0 | some s ↦ length s.arcs ]

  unfoldable pub num_input_epsilons : VectorFst W → StateId → ℕ
  num_input_epsilons fst state = elim (get_elem? fst.states state) [
    | none ↦ 0
    | some s ↦ s.niepsilons
  ]

  unfoldable pub num_output_epsilons : VectorFst W → StateId → ℕ
  num_output_epsilons fst state = elim (get_elem? fst.states state) [
    | none ↦ 0
    | some s ↦ s.noepsilons
  ]

  unfoldable pub set_start : VectorFst W → StateId → VectorFst W
  unfolding set_start_properties
  set_start fst state = record fst {
    start = if state == no_state then none else some state;
    properties = set_start_properties fst.properties;
  }

  -- The error bit cannot be cleared.
  unfoldable pub set_properties : VectorFst W → Props → Props → VectorFst W
  unfolding mask
  set_properties fst props m = record fst {
    properties = without fst.properties m ∪ fst.properties & mask (error ∷ []) ∪ props & m;
  }

  unfoldable pub set_input_symbols : VectorFst W → Option SymbolTable → VectorFst W
  set_input_symbols fst syms = record fst { isymbols = syms }

  unfoldable pub set_output_symbols : VectorFst W → Option SymbolTable → VectorFst W
  set_output_symbols fst syms = record fst { osymbols = syms }

  unfoldable pub delete_arcs_n : VectorFst W → StateId → ℕ → VectorFst W
  unfolding State.delete_arcs_n delete_arcs_properties
  delete_arcs_n fst state n = elim (get_elem? fst.states state) [
    | none ↦ fst
    | some s ↦ record fst {
      states = set fst.states state (State.delete_arcs_n s n);
      properties = delete_arcs_properties fst.properties;
    }
  ]

  unfoldable pub delete_arcs : VectorFst W → StateId → VectorFst W
  unfolding State.delete_all_arcs delete_arcs_properties
  delete_arcs fst state = elim (get_elem? fst.states state) [
    | none ↦ fst
    | some s ↦ record fst {
      states = set fst.states state (State.delete_all_arcs s);
      properties = delete_arcs_properties fst.properties;
    }
  ]

  -- What a caller of `arcs_mut` leaves in the slice it is given, which keeps its length.
  abbrev pub overwrite : List (Arc W) → List (Arc W) → List (Arc W)
  overwrite [] left = []
  overwrite (arc ∷ rest) [] = arc ∷ rest
  overwrite (arc ∷ rest) (new_arc ∷ left) = new_arc ∷ overwrite rest left

  -- Neither the counts nor the property bits change with the arcs.
  unfoldable pub arcs_mut : VectorFst W → StateId → List (Arc W) → VectorFst W
  arcs_mut fst state left = elim (get_elem? fst.states state) [
    | none ↦ fst
    | some s ↦ record fst {
      states = set fst.states state (record s { arcs = overwrite s.arcs left });
    }
  ]

  unfoldable pub delete_all_states : VectorFst W → VectorFst W
  unfolding delete_all_states_properties static_properties
  delete_all_states fst = record fst {
    states = [];
    start = none;
    properties = delete_all_states_properties fst.properties static_properties;
  }

module _ {W : Type 0} ⦃w : Weight W⦄ where
  unfoldable pub new : VectorFst W
  unfolding static_properties k_null_properties
  new = record {
    states = [];
    start = none;
    properties = k_null_properties ∪ static_properties;
    isymbols = none;
    osymbols = none;
  }

  unfoldable pub final_weight : VectorFst W → StateId → W
  final_weight fst state = elim (get_elem? fst.states state) [
    | none ↦ w.zero
    | some s ↦ s.final_weight
  ]

  unfoldable pub set_final : VectorFst W → StateId → W → VectorFst W
  unfolding set_final_properties
  set_final fst state weight = elim (get_elem? fst.states state) [
    | none ↦ fst
    | some s ↦ record fst {
      states = set fst.states state (record s { final_weight = weight });
      properties = set_final_properties fst.properties s.final_weight weight;
    }
  ]

  -- The state that is added gets the number of states before it as its id.
  unfoldable pub add_state : VectorFst W → VectorFst W
  unfolding State.new add_state_properties
  add_state fst = record fst {
    states = fst.states ++ State.new ∷ [];
    properties = add_state_properties fst.properties;
  }

  unfoldable pub add_states : VectorFst W → ℕ → VectorFst W
  unfolding State.new add_state_properties
  add_states fst n = record fst {
    states = fst.states ++ replicate n State.new;
    properties = add_state_properties fst.properties;
  }

  -- `update_properties_after_add_arc` reads the arc that was just added and the one before it.
  unfoldable pub update_properties_after_add_arc : VectorFst W → StateId → VectorFst W
  unfolding last_two add_arc_properties
  update_properties_after_add_arc fst state = elim (get_elem? fst.states state) [
    | none ↦ fst
    | some s ↦ elim (last_two s.arcs) [
      | none ↦ fst
      | some (arc, prev_arc) ↦ record fst {
        properties = add_arc_properties fst.properties state arc prev_arc;
      }
    ]
  ]

  unfoldable pub add_arc : VectorFst W → StateId → Arc W → VectorFst W
  unfolding State.add_arc update_properties_after_add_arc
  add_arc fst state arc = elim (get_elem? fst.states state) [
    | none ↦ fst
    | some s ↦
        update_properties_after_add_arc
          (record fst { states = set fst.states state (State.add_arc s arc) }) state
  ]

  -- The bits after each arc of a list has been rewritten in turn.
  unfoldable pub mutate_properties : (Arc W → Arc W) → List (Arc W) → Props → Props
  unfolding set_arc_properties
  mutate_properties mutator [] props = props
  mutate_properties mutator (arc ∷ rest) props =
      mutate_properties mutator rest (set_arc_properties props arc (mutator arc))

  -- The cached counts of epsilons are left as they are.
  unfoldable pub mutate_arcs : VectorFst W → StateId → (Arc W → Arc W) → VectorFst W
  unfolding mutate_properties
  mutate_arcs fst state mutator = elim (get_elem? fst.states state) [
    | none ↦ fst
    | some s ↦ record fst {
      states = set fst.states state (record s { arcs = map mutator s.arcs });
      properties = mutate_properties mutator s.arcs fst.properties;
    }
  ]
