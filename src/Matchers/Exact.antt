-- ===== src/Matchers/Exact.antt =====
-- What `SortedMatcher` of sicada/src/matcher.rs finds on sorted arcs.
use sicada.Prelude.{
  ◌+◌, ◌≡◌, sym, ap, ◌∙◌, ◌⊎◌, Bool, false, Option, none, some, List, [], ◌++◌, length, ◌==◌,
  ==_iff, Bool-cases, Option-cases, inl, inr, if◌then◌else◌,
}
use mathlib.Core.Path.{subst}
use sicada.Weight.{Weight}
use sicada.Arc.{Arc, Label, StateId, epsilon}
use sicada.Matchers.Sorted.{
  MatchType, extract_label, SortedMatcher, new_loop, set_state, collect, find_all,
}
use sicada.Matchers.Order.{IsSorted, with_label, sought}
use sicada.Matchers.Collect.{side_of, find-ready, answer, loop_if}

module _ {W : Type 0} ⦃w : Weight W⦄ where
  -- The matcher rests on a state of its FST, or on none yet.
  pub record Rests (t : MatchType) (m : SortedMatcher W) : Type 0 where
    pub kind : m.match_type ≡ t
    pub fine : m.error ≡ false
    pub loop_ends : m.loop_arc ≡ new_loop t m.loop_arc.nextstate
    pub at_state :
        (s : StateId) → m.state ≡ some s → (m.arcs ≡ m.fst.arcs s) × (m.loop_arc.nextstate ≡ s)

  moved_loop :
      (t : MatchType) (a : Arc W) (s : StateId)
      → a ≡ new_loop t a.nextstate
      → record a { nextstate = s } ≡ new_loop t s
  moved_loop MatchType.input a s e = ap (λ (x : Arc W). record x { nextstate = s }) e
  moved_loop MatchType.output a s e = ap (λ (x : Arc W). record x { nextstate = s }) e
  moved_loop MatchType.both a s e = ap (λ (x : Arc W). record x { nextstate = s }) e
  moved_loop MatchType.neither a s e = ap (λ (x : Arc W). record x { nextstate = s }) e
  moved_loop MatchType.unknown a s e = ap (λ (x : Arc W). record x { nextstate = s }) e

  abbrev at_new : SortedMatcher W → StateId → SortedMatcher W
  at_new m s = record m {
    state = some s;
    arcs = m.fst.arcs s;
    loop_arc = record m.loop_arc { nextstate = s };
  }

  set_state-moved :
      (m : SortedMatcher W) (s : StateId)
      → (((r : StateId) × (m.state ≡ some r) × (r ≡ s)) × (set_state m s ≡ m))
        ⊎ (set_state m s ≡ at_new m s)
  unfolding set_state
  set_state-moved m s =
      let by_state = λ (o : Option StateId). elim o as (λ x. SortedMatcher W) [
        | none ↦ at_new m s
        | some r ↦ if r == s then m else at_new m s
      ] in
      elim (Option-cases m.state) [
        | inl e ↦ inr (ap by_state e)
        | inr (r, e) ↦ elim (Bool-cases (r == s)) [
          | inl k ↦
              inl
                ((r, e, (==_iff r s).0 k), ap by_state e ∙ ap (λ b. if b then m else at_new m s) k)
          | inr k ↦ inr (ap by_state e ∙ ap (λ b. if b then m else at_new m s) k)
        ]
      ]

  -- After `set_state` the matcher has the arcs and the loop of the state.
  pub set_state-at :
      (t : MatchType) (m : SortedMatcher W) (s : StateId)
      → Rests t m
      → ((set_state m s).fst ≡ m.fst)
        × ((set_state m s).match_type ≡ t)
        × ((set_state m s).error ≡ false)
        × ((set_state m s).arcs ≡ m.fst.arcs s)
        × ((set_state m s).loop_arc ≡ new_loop t s)
  set_state-at t m s rests = elim (set_state-moved m s) [
    | inl ((r, e, k), same) ↦
        let (as', n) = rests.at_state r e in
        (
          ap (λ x. x.fst) same,
          ap (λ x. x.match_type) same ∙ rests.kind,
          ap (λ x. x.error) same ∙ rests.fine,
          ap (λ x. x.arcs) same ∙ as' ∙ ap m.fst.arcs k,
          ap (λ x. x.loop_arc) same ∙ rests.loop_ends ∙ ap (new_loop t) (n ∙ k),
        )
    | inr same ↦ (
      ap (λ x. x.fst) same,
      ap (λ x. x.match_type) same ∙ rests.kind,
      ap (λ x. x.error) same ∙ rests.fine,
      ap (λ x. x.arcs) same,
      ap (λ x. x.loop_arc) same ∙ moved_loop t m.loop_arc s rests.loop_ends,
    )
  ]

  -- A sorted matcher that rests on some state or on none: asked for a label at any state whose
  -- arcs are in the order of the labels on the matched side, `find` and the loop over the matches
  -- end without a panic, and give the arcs with that label in their order, in front of them the
  -- loop that stands for staying if the label is epsilon; asked for no label, the epsilon arcs.
  pub find_all_exact :
      (t : MatchType) (m : SortedMatcher W) (s : StateId) (label : Label)
      → Rests t m
      → IsSorted (extract_label t) (m.fst.arcs s)
      → find_all m s label
        ≡ some (
            loop_if (label == epsilon) (new_loop t s)
            ++ with_label (extract_label t) (sought label) (m.fst.arcs s))
  unfolding find_all
  find_all_exact t m s label rests sorted =
      let (same_fst, kind, fine, as', loop) = set_state-at t m s rests in
      let at_s = set_state m s in
      let in_order : IsSorted (side_of at_s) at_s.arcs =
        subst (λ (x : MatchType). IsSorted (extract_label x) at_s.arcs) (sym kind)
          (subst (λ x. IsSorted (extract_label t) x) (sym as') sorted) in
      let matched = λ (p : Bool × SortedMatcher W).
        if p.0 then collect (length p.1.arcs + 2) p.1 else some [] in
      let target = λ (x : MatchType) (ys : List (Arc W)) (l : Arc W).
        some (loop_if (label == epsilon) l ++ with_label (extract_label x) (sought label) ys) in
      ap matched (find-ready at_s label fine in_order)
      ∙ answer at_s label fine in_order
      ∙ (λ i. target (kind i) (as' i) (loop i))
