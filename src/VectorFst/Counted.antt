-- ===== src/VectorFst/Counted.antt =====
-- What it is that the cached epsilon counts of sicada/src/fsts/vector_fst.rs are right, and that each
-- change of a state keeps it.
use sicada.Prelude.{
  ℕ, zero, suc, ◌+◌, ◌≡◌, refl, Option, none, some, List, [], ◌∷◌, ◌++◌, arith, ap, ◌∙◌, inl, inr,
  Option-cases, >>=-eq-some, some-subst, modify, min, length, get_elem?, replicate,
}
use sicada.Weight.{Weight}
use sicada.Arc.{Arc}
use sicada.VectorFst.State
use sicada.VectorFst.State.{VectorState, pop}
use sicada.VectorFst.Defs.{VectorFst}
use sicada.VectorFst.Delete.{
  count_input, count_output, remap_states, remap_state, remap_arcs, keep_states,
}

module _ {W : Type 0} where
  count_input-append :
      (as' bs : List (Arc W)) → count_input (as' ++ bs) ≡ count_input as' + count_input bs
  unfolding count_input
  count_input-append [] bs = omega arith
  count_input-append (a ∷ as') bs = ground (arith, count_input-append as' bs)

  count_output-append :
      (as' bs : List (Arc W)) → count_output (as' ++ bs) ≡ count_output as' + count_output bs
  unfolding count_output
  count_output-append [] bs = omega arith
  count_output-append (a ∷ as') bs = ground (arith, count_output-append as' bs)

  -- The counts are those of the arcs that the state holds.
  pub record IsCounted (s : VectorState W) : Type 0 where
    pub input : s.niepsilons ≡ count_input s.arcs
    pub output : s.noepsilons ≡ count_output s.arcs

  abbrev pub AllCounted : List (VectorState W) → Type 0
  AllCounted [] = Unit {0}
  AllCounted (s ∷ states) = IsCounted s × AllCounted states

  pub add_arc-IsCounted :
      (s : VectorState W) (arc : Arc W) → IsCounted s → IsCounted (State.add_arc s arc)
  unfolding State.add_arc count_input count_output
  add_arc-IsCounted s arc h =
      ground (arith, count_input-append s.arcs (arc ∷ []), count_output-append s.arcs (arc ∷ []))

  pop-append :
      (as' rest : List (Arc W)) (arc : Arc W) → pop as' ≡ some (rest, arc) → as' ≡ rest ++ arc ∷ []
  unfolding pop
  pop-append [] rest arc e = cc
  pop-append (a ∷ []) rest arc e = ground arith
  pop-append (a ∷ b ∷ as') [] arc e = ground arith
  pop-append (a ∷ b ∷ as') (c ∷ rest) arc e = ground (arith, pop-append (b ∷ as') rest arc)

  without_last-IsCounted :
      (s : VectorState W) (rest : List (Arc W)) (arc : Arc W)
      → pop s.arcs ≡ some (rest, arc)
      → IsCounted s
      → IsCounted (State.without_last s rest arc)
  unfolding State.without_last count_input count_output
  without_last-IsCounted s rest arc e h =
      let split = pop-append s.arcs rest arc e in
      let input = ap count_input split ∙ count_input-append rest (arc ∷ []) in
      let output = ap count_output split ∙ count_output-append rest (arc ∷ []) in
      ground (arith, input, output)

  delete_arcs_loop-IsCounted :
      (n : ℕ) (s : VectorState W) → IsCounted s → IsCounted (State.delete_arcs_loop n s)
  unfolding State.delete_arcs_loop
  delete_arcs_loop-IsCounted zero s h = h
  delete_arcs_loop-IsCounted (suc n) s h = elim (Option-cases (pop s.arcs)) [
    | inl e ↦ rw (e, State.delete_arcs_loop) h
    | inr ((rest, arc), e) ↦
        rw (e, State.delete_arcs_loop)
          (delete_arcs_loop-IsCounted n (State.without_last s rest arc)
            (without_last-IsCounted s rest arc e h))
  ]

  pub delete_arcs_n-IsCounted :
      (s : VectorState W) (n : ℕ) → IsCounted s → IsCounted (State.delete_arcs_n s n)
  unfolding State.delete_arcs_n
  delete_arcs_n-IsCounted s n h = delete_arcs_loop-IsCounted (min n (length s.arcs)) s h

  pub delete_all_arcs-IsCounted : (s : VectorState W) → IsCounted (State.delete_all_arcs s)
  unfolding State.delete_all_arcs count_input count_output
  delete_all_arcs-IsCounted s = record { input = refl; output = refl }

  -- One state is rewritten, if it is there.
  pub AllCounted-modify_at :
      (states : List (VectorState W)) (i : ℕ) (f : VectorState W → VectorState W)
      → ((s : VectorState W) → get_elem? states i ≡ some s → IsCounted s → IsCounted (f s))
      → AllCounted states
      → AllCounted (modify states i f)
  AllCounted-modify_at [] i f k h = tt
  AllCounted-modify_at (t ∷ states) zero f k h = (k t refl h.0, h.1)
  AllCounted-modify_at (t ∷ states) (suc i) f k h = (h.0, AllCounted-modify_at states i f k h.1)

  pub AllCounted-modify :
      (states : List (VectorState W)) (i : ℕ) (f : VectorState W → VectorState W)
      → ((s : VectorState W) → IsCounted s → IsCounted (f s))
      → AllCounted states
      → AllCounted (modify states i f)
  AllCounted-modify states i f k h = AllCounted-modify_at states i f (λ s _. k s) h

  pub AllCounted-append :
      (states others : List (VectorState W))
      → AllCounted states
      → AllCounted others
      → AllCounted (states ++ others)
  AllCounted-append [] others h k = k
  AllCounted-append (s ∷ states) others h k = (h.0, AllCounted-append states others h.1 k)

  pub AllCounted-get :
      (states : List (VectorState W)) (i : ℕ) {s : VectorState W}
      → AllCounted states
      → get_elem? states i ≡ some s
      → IsCounted s
  AllCounted-get [] i h e = cc
  AllCounted-get (t ∷ states) zero h e = some-subst IsCounted e h.0
  AllCounted-get (t ∷ states) (suc i) h e = AllCounted-get states i h.1 e

  pub AllCounted-keep :
      (newid : List (Option ℕ)) (states : List (VectorState W))
      → AllCounted states
      → AllCounted (keep_states newid states)
  unfolding keep_states
  AllCounted-keep [] states h = tt
  AllCounted-keep (none ∷ newid) [] h = tt
  AllCounted-keep (some k ∷ newid) [] h = tt
  AllCounted-keep (none ∷ newid) (s ∷ states) h = AllCounted-keep newid states h.1
  AllCounted-keep (some k ∷ newid) (s ∷ states) h = (h.0, AllCounted-keep newid states h.1)

  remap_state-IsCounted :
      (newid : List (Option ℕ)) (s : VectorState W) {t : VectorState W}
      → remap_state newid s ≡ some t
      → IsCounted t
  unfolding remap_state
  remap_state-IsCounted newid s e =
      let (arcs', _, e') = >>=-eq-some (remap_arcs newid s.arcs) _ e in
      some-subst IsCounted e' (record { input = refl; output = refl })

  pub AllCounted-remap :
      (newid : List (Option ℕ)) (states : List (VectorState W)) {out : List (VectorState W)}
      → remap_states newid states ≡ some out
      → AllCounted out
  unfolding remap_states
  AllCounted-remap newid [] e = some-subst AllCounted e tt
  AllCounted-remap newid (s ∷ states) e =
      let (s', first, e') = >>=-eq-some (remap_state newid s) _ e in
      let (rest, others, e'') = >>=-eq-some (remap_states newid states) _ e' in
      some-subst AllCounted e''
        (remap_state-IsCounted newid s first, AllCounted-remap newid states others)

abbrev pub AllCountedIn : {W : Type 0} → VectorFst W → Type 0
AllCountedIn fst = AllCounted fst.states

module _ (W : Type 0) ⦃w : Weight W⦄ where
  pub new-IsCounted : IsCounted (State.new {W = W})
  unfolding State.new count_input count_output
  new-IsCounted = record { input = refl; output = refl }

  pub replicate-AllCounted : (n : ℕ) → AllCounted (replicate n (State.new {W = W}))
  replicate-AllCounted zero = tt
  replicate-AllCounted (suc n) = (new-IsCounted, replicate-AllCounted n)
