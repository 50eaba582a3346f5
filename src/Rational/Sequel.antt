-- ===== src/Rational/Sequel.antt =====
-- What a graph accepts whose final states all lead on, by epsilon arcs, to another state.
use sicada.Prelude.{◌≡◌, refl, sym, ap, ◌∙◌, ◌↔◌, inl, inr, ◌<◌, List, ◌∷◌, ◌++◌, map, length}
use sicada.Weight.{Weight, IsSemiring}
use sicada.Arc.{Arc, Label, StateId}
use sicada.Filters.Paths.{labels, input, output}
use sicada.Rational.Graph.{Graph}
use sicada.Rational.Runs.{final_at, path_weight}
use sicada.Rational.Language.{AcceptsFrom, Carries}
use sicada.Rational.Exits.{
  move, exit_arc, HasExits, Leaves, run_cases, leaving-IsRun, leaving_labels,
}

-- The strings that are read and written, and a weight.
abbrev pub Relation : Type 0 → Type 1
Relation W = List Label → List Label → W → Type 0

module _ {W : Type 0} ⦃w : Weight W⦄ where
  -- One after the other: the strings joined, the weights multiplied.
  abbrev pub Then : Relation W → Relation W → Relation W
  Then A B ins outs v =
      (i1 o1 i2 o2 : List Label) × (v1 v2 : W) × (ins ≡ i1 ++ i2)
      × (outs ≡ o1 ++ o2)
      × (v ≡ w.times v1 v2)
      × A i1 o1 v1
      × B i2 o2 v2

  module _ (laws : IsSemiring w) (g h : Graph W) (f : StateId → StateId) (t : StateId)
      (exits : HasExits g h f t) where
    pub leave_accepts :
        (s q : StateId) (p : List (Arc W)) (ins outs : List Label) (v : W)
        → Leaves g h f t exits s p q
        → Carries h q p ins outs v
        → Then (AcceptsFrom g s) (AcceptsFrom h t) ins outs v
    leave_accepts s q p ins outs v (m, r, rest, inside, fin, ep, out) (fin', i, o, total) =
        let (li, lo, lw) = leaving_labels g h f t exits laws m r rest (final_at h q) in
        (
          labels input r,
          labels output r,
          labels input rest,
          labels output rest,
          w.times (path_weight r) (final_at g m),
          w.times (path_weight rest) (final_at h q),
          sym i ∙ ap (labels input) ep ∙ li,
          sym o ∙ ap (labels output) ep ∙ lo,
          sym total ∙ ap (λ x. w.times (path_weight x) (final_at h q)) ep ∙ lw,
          (m, r, inside, (fin, refl, refl, refl)),
          (q, rest, out, (fin', refl, refl, refl)),
        )

    pub accepts_leaving :
        (s : StateId) (ins outs : List Label) (v : W)
        → s < length g
        → Then (AcceptsFrom g s) (AcceptsFrom h t) ins outs v
        → AcceptsFrom h (f s) ins outs v
    accepts_leaving s ins outs v k
          (
            i1,
            o1,
            i2,
            o2,
            v1,
            v2,
            ei,
            eo,
            ev,
            (m, r, inside, (fin, l1, k1, t1)),
            (q, rest, out, (fin', l2, k2, t2)),
          ) =
        let (li, lo, lw) = leaving_labels g h f t exits laws m r rest (final_at h q) in
        (
          q,
          map (move f) r ++ exit_arc (final_at g m) t ∷ rest,
          leaving-IsRun g h f t exits s m q r rest k inside fin out,
          (fin', li ∙ rw (l1, l2) (sym ei), lo ∙ rw (k1, k2) (sym eo), lw ∙ rw (t1, t2) (sym ev)),
        )

    -- Where the final states are no longer final, every accepting run leaves.
    pub sequel_accepts :
        ((s : StateId) → s < length g → final_at h (f s) ≡ w.zero)
        → (s : StateId) (ins outs : List Label) (v : W) → s < length g
        → AcceptsFrom h (f s) ins outs v ↔ Then (AcceptsFrom g s) (AcceptsFrom h t) ins outs v
    sequel_accepts closed_off s ins outs v k = (
      λ (q, p, run, (fin, i, o, total)). elim (run_cases g h f t exits s q p k run) [
        | inl (m, r, inside, lt, eq, ep) ↦
            let none_left : final_at h q ≡ w.zero = ap (final_at h) eq ∙ closed_off m lt in
            let same = (laws.eq_iff w.zero w.zero).1 refl in
            let fin0 = rw none_left at fin in absurd cc
        | inr leaves ↦ leave_accepts s q p ins outs v leaves (fin, i, o, total)
      ],
      λ parts. accepts_leaving s ins outs v k parts,
    )
