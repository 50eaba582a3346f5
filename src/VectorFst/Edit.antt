-- ===== src/VectorFst/Edit.antt =====
-- The mutating methods of sicada/src/fsts/vector_fst.rs as data, so that a theorem can speak of any
-- sequence of calls. Those that reserve room change nothing, and those that hand out a symbol table
-- reach no state; both are left out.
use sicada.Prelude.{ℕ, ◌≡◌, Option, some, List, map}
use sicada.Weight.{Weight}
use sicada.Arc.{Arc, StateId}
use sicada.VectorFst.Defs
use sicada.VectorFst.Defs.{VectorFst}
use sicada.VectorFst.Delete.{count_input, count_output, delete_states as delete}
use sicada.Properties.Flags.{Props}
use sicada.Symbols.{SymbolTable}

pub data Edit (W : Type 0) : Type 0 where
  set_start : StateId → Edit W
  set_final : StateId → W → Edit W
  add_state : Edit W
  add_states : ℕ → Edit W
  add_arc : StateId → Arc W → Edit W
  delete_arcs_n : StateId → ℕ → Edit W
  delete_arcs : StateId → Edit W
  delete_all_states : Edit W
  delete_states : List StateId → Edit W
  set_properties : Props → Props → Edit W
  set_input_symbols : Option SymbolTable → Edit W
  set_output_symbols : Option SymbolTable → Edit W
  mutate_arcs : StateId → (Arc W → Arc W) → Edit W
  -- With what the caller leaves in the slice.
  arcs_mut : StateId → List (Arc W) → Edit W

module _ {W : Type 0} where
  abbrev pub SameEpsilons : List (Arc W) → List (Arc W) → Type 0
  SameEpsilons as' bs = (count_input as' ≡ count_input bs) × (count_output as' ≡ count_output bs)

  -- The arcs that the call rewrites in place, if it does, have as many epsilons on each side as
  -- before.
  abbrev pub KeepsEpsilons : VectorFst W → Edit W → Type 0
  KeepsEpsilons fst (mutate_arcs s f) = SameEpsilons (map f (Defs.arcs fst s)) (Defs.arcs fst s)
  KeepsEpsilons fst (arcs_mut s left) =
      SameEpsilons (Defs.overwrite (Defs.arcs fst s) left) (Defs.arcs fst s)
  KeepsEpsilons fst e = Unit {0}

module _ {W : Type 0} ⦃w : Weight W⦄ where
  -- One call; `none` is the panic of `delete_states` at an arc that leads out of the FST.
  abbrev pub apply : VectorFst W → Edit W → Option (VectorFst W)
  apply fst (set_start s) = some (Defs.set_start fst s)
  apply fst (set_final s weight) = some (Defs.set_final fst s weight)
  apply fst add_state = some (Defs.add_state fst)
  apply fst (add_states n) = some (Defs.add_states fst n)
  apply fst (add_arc s arc) = some (Defs.add_arc fst s arc)
  apply fst (delete_arcs_n s n) = some (Defs.delete_arcs_n fst s n)
  apply fst (delete_arcs s) = some (Defs.delete_arcs fst s)
  apply fst delete_all_states = some (Defs.delete_all_states fst)
  apply fst (delete_states ds) = delete fst ds
  apply fst (set_properties props m) = some (Defs.set_properties fst props m)
  apply fst (set_input_symbols syms) = some (Defs.set_input_symbols fst syms)
  apply fst (set_output_symbols syms) = some (Defs.set_output_symbols fst syms)
  apply fst (mutate_arcs s f) = some (Defs.mutate_arcs fst s f)
  apply fst (arcs_mut s left) = some (Defs.arcs_mut fst s left)

  -- What a sequence of calls can make of an FST, where those that rewrite arcs in place keep the
  -- epsilons; to rearrange the arcs, which is what `arcs_mut` is there for, does.
  pub data Built (fst : VectorFst W) : VectorFst W → Type 0 where
    start : Built fst fst
    call :
        {before after : VectorFst W} (e : Edit W)
        → Built fst before
        → apply before e ≡ some after
        → KeepsEpsilons before e
        → Built fst after
