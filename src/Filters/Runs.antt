-- ===== src/Filters/Runs.antt =====
-- How a composition runs a filter along one path through each FST. At a pair of states the walk of
-- sicada/src/algorithms/compose.rs asks the filter about an arc of one side against the arc that
-- stands for staying on the other, or about two arcs whose labels meet.
use sicada.Prelude.{
  ℕ, ◌≡◌, ◌==◌, ==_iff, Bool, true, false, ◌&&◌, Option, none, some, List, [], ◌∷◌, refl, sym, ◌↔◌,
  some-subst, Bool-cases, inl, inr,
}
use sicada.Weight.{Weight}
use sicada.Arc.{Arc, StateId, epsilon, no_label}
use sicada.Filters.Defs.{ComposeFilter}

-- The first side alone, the second side alone, or both.
pub data Move : Type 0 where
  left : Move
  right : Move
  both : Move

module _ {W : Type 0} ⦃w : Weight W⦄ where
  -- The arc that stands for taking nothing in the first FST, and in the second.
  unfoldable pub loop1 : StateId → Arc W
  loop1 s1 = record { ilabel = epsilon; olabel = no_label; weight = w.one; nextstate = s1 }

  unfoldable pub loop2 : StateId → Arc W
  loop2 s2 = record { ilabel = no_label; olabel = epsilon; weight = w.one; nextstate = s2 }

-- The run goes on from the filter state, if there is one.
abbrev follow : {S : Type 0} → Option S → (S → Bool) → Bool
follow none next = false
follow (some fs) next = next fs

follow_iff :
    {S : Type 0} (m : Option S) (next : S → Bool)
    → (follow m next ≡ true) ↔ ((fs : S) × (m ≡ some fs) × (next fs ≡ true))
follow_iff none next = (λ e. cc, λ (fs, m, e). cc)
follow_iff (some fs) next =
    (λ e. (fs, refl, e), λ (fs', m, e). some-subst (λ x. next x ≡ true) (sym m) e)

-- The test of a move, and what follows it.
step_iff :
    {S : Type 0} (x y : ℕ) (m : Option S) (next : S → Bool)
    → ((x == y) && follow m next ≡ true) ↔ ((x ≡ y) × ((fs : S) × (m ≡ some fs) × (next fs ≡ true)))
step_iff x y m next = elim (Bool-cases (x == y)) [
  | inl e ↦ (
    λ h. ((==_iff x y).0 e, (follow_iff m next).0 (rw e at h)),
    λ h. rw e ((follow_iff m next).1 h.1),
  )
  | inr e ↦ (λ h. let k = rw e at h in cc, λ h. let k = rw e at ((==_iff x y).1 h.0) in cc)
]

module _ {W F S : Type 0} ⦃w : Weight W⦄ (filter : ComposeFilter W F S) where
  -- Whether the filter lets the moves through, from a pair of states on, along the whole of the two
  -- lists of arcs.
  unfoldable pub accepts :
      F → StateId → StateId → S → List Move → List (Arc W) → List (Arc W) → Bool
  unfolding loop1 loop2
  accepts f s1 s2 fs [] [] [] = true
  accepts f s1 s2 fs (Move.left ∷ ms) (a ∷ p1) p2 =
      let g = filter.set_state f s1 s2 fs in
      a.olabel == epsilon
      && follow (filter.filter_arc g a (loop2 s2)).0 (λ fs'. accepts g a.nextstate s2 fs' ms p1 p2)
  accepts f s1 s2 fs (Move.right ∷ ms) p1 (b ∷ p2) =
      let g = filter.set_state f s1 s2 fs in
      b.ilabel == epsilon
      && follow (filter.filter_arc g (loop1 s1) b).0 (λ fs'. accepts g s1 b.nextstate fs' ms p1 p2)
  accepts f s1 s2 fs (Move.both ∷ ms) (a ∷ p1) (b ∷ p2) =
      let g = filter.set_state f s1 s2 fs in
      a.olabel == b.ilabel
      && follow (filter.filter_arc g a b).0 (λ fs'. accepts g a.nextstate b.nextstate fs' ms p1 p2)
  accepts f s1 s2 fs ms p1 p2 = false

  -- A move that is let through, taken apart.

  pub accepts_left :
      (f : F) (s1 s2 : StateId) (fs : S) (ms : List Move) (a : Arc W) (p1 p2 : List (Arc W))
      → (accepts f s1 s2 fs (Move.left ∷ ms) (a ∷ p1) p2 ≡ true) ↔ (
          (a.olabel ≡ epsilon)
          × ((next : S) × ((filter.filter_arc (filter.set_state f s1 s2 fs) a (loop2 s2)).0
                ≡ some next)
              × (accepts (filter.set_state f s1 s2 fs) a.nextstate s2 next ms p1 p2 ≡ true)))
  unfolding accepts
  accepts_left f s1 s2 fs ms a p1 p2 = step_iff (a.olabel) (epsilon) _ _

  pub accepts_right :
      (f : F) (s1 s2 : StateId) (fs : S) (ms : List Move) (b : Arc W) (p1 p2 : List (Arc W))
      → (accepts f s1 s2 fs (Move.right ∷ ms) p1 (b ∷ p2) ≡ true) ↔ (
          (b.ilabel ≡ epsilon)
          × ((next : S) × ((filter.filter_arc (filter.set_state f s1 s2 fs) (loop1 s1) b).0
                ≡ some next)
              × (accepts (filter.set_state f s1 s2 fs) s1 b.nextstate next ms p1 p2 ≡ true)))
  unfolding accepts
  accepts_right f s1 s2 fs ms b p1 p2 = step_iff (b.ilabel) (epsilon) _ _

  pub accepts_both :
      (f : F) (s1 s2 : StateId) (fs : S) (ms : List Move) (a b : Arc W) (p1 p2 : List (Arc W))
      → (accepts f s1 s2 fs (Move.both ∷ ms) (a ∷ p1) (b ∷ p2) ≡ true) ↔ (
          (a.olabel ≡ b.ilabel)
          × ((next : S) × ((filter.filter_arc (filter.set_state f s1 s2 fs) a b).0 ≡ some next)
              × (accepts (filter.set_state f s1 s2 fs) a.nextstate b.nextstate next ms p1 p2
                  ≡ true)))
  unfolding accepts
  accepts_both f s1 s2 fs ms a b p1 p2 = step_iff (a.olabel) (b.ilabel) _ _
