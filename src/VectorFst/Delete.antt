-- ===== src/VectorFst/Delete.antt =====
-- `delete_states` of sicada/src/fsts/vector_fst.rs. The `usize::MAX` that marks a deleted state in
-- `newid` is `none` here, and an index past the end of `newid` is the panic `none` of the results.
-- A swap moves the state that is read to the next free slot, and the slots before it hold the
-- states that are kept, in order; the truncation forgets the others.
use sicada.Prelude.{
  ℕ, suc, Option, none, some, List, [], ◌∷◌, ◌==◌, if◌then◌else◌, length, get_elem?, set, replicate,
  ◌>>=◌,
}
use sicada.Arc.{Arc, StateId, epsilon}
use sicada.Properties.Update.{delete_states_properties}
use sicada.VectorFst.State.{VectorState}
use sicada.VectorFst.Defs.{VectorFst}

-- `newid[dstate] = usize::MAX` for each state in range; a write out of range is skipped.
unfoldable pub mark_deleted : List StateId → List (Option ℕ) → List (Option ℕ)
mark_deleted [] newid = newid
mark_deleted (dstate ∷ dstates) newid = mark_deleted dstates (set newid dstate none)

-- The states that are kept get the numbers from `nstates` on.
unfoldable pub number_states : ℕ → List (Option ℕ) → List (Option ℕ)
number_states nstates [] = []
number_states nstates (none ∷ newid) = none ∷ number_states nstates newid
number_states nstates (some _ ∷ newid) = some nstates ∷ number_states (suc nstates) newid

unfoldable pub keep_states {ℓ} : {A : Type ℓ} → List (Option ℕ) → List A → List A
keep_states (some _ ∷ newid) (x ∷ xs) = x ∷ keep_states newid xs
keep_states (none ∷ newid) (x ∷ xs) = keep_states newid xs
keep_states newid xs = []

-- The table from old state ids to new ones.
unfoldable pub new_ids : List StateId → ℕ → List (Option ℕ)
unfolding mark_deleted number_states
new_ids dstates n = number_states 0 (mark_deleted dstates (replicate n (some 0)))

unfoldable pub remap_start : List (Option ℕ) → Option StateId → Option (Option StateId)
remap_start newid none = some none
remap_start newid (some id) = get_elem? newid id

module _ {W : Type 0} where
  unfoldable pub remap_arcs : List (Option ℕ) → List (Arc W) → Option (List (Arc W))
  remap_arcs newid [] = some []
  remap_arcs newid (arc ∷ arcs) = do
    t ← get_elem? newid arc.nextstate
    rest ← remap_arcs newid arcs
    some (elim t [ none ↦ rest | some t' ↦ record arc { nextstate = t' } ∷ rest ])

  unfoldable pub count_input : List (Arc W) → ℕ
  count_input [] = 0
  count_input (arc ∷ arcs) =
      if arc.ilabel == epsilon then suc (count_input arcs) else count_input arcs

  unfoldable pub count_output : List (Arc W) → ℕ
  count_output [] = 0
  count_output (arc ∷ arcs) =
      if arc.olabel == epsilon then suc (count_output arcs) else count_output arcs

  unfoldable pub remap_state : List (Option ℕ) → VectorState W → Option (VectorState W)
  unfolding remap_arcs count_input count_output
  remap_state newid s = do
    arcs ← remap_arcs newid s.arcs
    some (record {
      final_weight = s.final_weight;
      arcs = arcs;
      niepsilons = count_input arcs;
      noepsilons = count_output arcs;
    })

  unfoldable pub remap_states :
      List (Option ℕ) → List (VectorState W) → Option (List (VectorState W))
  unfolding remap_state
  remap_states newid [] = some []
  remap_states newid (s ∷ states) = do
    s' ← remap_state newid s
    rest ← remap_states newid states
    some (s' ∷ rest)

  unfoldable pub delete_states : VectorFst W → List StateId → Option (VectorFst W)
  unfolding new_ids keep_states remap_states remap_start delete_states_properties
  delete_states fst [] = some fst
  delete_states fst (d ∷ ds) = do
    let newid = new_ids (d ∷ ds) (length fst.states)
    states ← remap_states newid (keep_states newid fst.states)
    start ← remap_start newid fst.start
    some (record {
      states = states;
      start = start;
      properties = delete_states_properties fst.properties;
      isymbols = fst.isymbols;
      osymbols = fst.osymbols;
    })
