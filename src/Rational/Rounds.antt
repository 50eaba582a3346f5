-- ===== src/Rational/Rounds.antt =====
-- What a graph accepts whose final states also lead back, by epsilon arcs, to the start.
use sicada.Prelude.{
  ℕ, zero, suc, ◌≡◌, refl, sym, ap, ◌∙◌, ◌↔◌, inl, inr, ◌<◌, false, List, ◌∷◌, ◌++◌, map, length,
  length-append, arith,
}
use sicada.Weight.{Weight, IsSemiring}
use sicada.Arc.{Arc, Label, StateId}
use sicada.Filters.Paths.{labels, input, output}
use sicada.Rational.Graph.{Graph}
use sicada.Rational.Runs.{final_at, IsRun, path_weight}
use sicada.Rational.Language.{AcceptsFrom}
use sicada.Rational.Exits.{
  move, exit_arc, HasExits, run_cases, inner-IsRun, leaving_labels, labels-move, path_weight-move,
}
use sicada.Rational.Sequel.{Relation, accepts_leaving}

-- One time or more: the strings joined, the weights multiplied.
pub data Repeated {W : Type 0} ⦃w : Weight W⦄ (A : Relation W)
    : List Label → List Label → W → Type 0 where
  once : {ins outs : List Label} {v : W} → A ins outs v → Repeated A ins outs v
  again :
      {i1 o1 i2 o2 ins outs : List Label} {v1 v2 v : W}
      → A i1 o1 v1
      → Repeated A i2 o2 v2
      → ins ≡ i1 ++ i2
      → outs ≡ o1 ++ o2
      → v ≡ w.times v1 v2
      → Repeated A ins outs v

module _ {W : Type 0} ⦃w : Weight W⦄ (laws : IsSemiring w) (g h : Graph W) (s : StateId)
    (exits : HasExits g h (λ x. x) s) (start_lt : s < length g)
    (finals : (q : StateId) → q < length g → final_at h q ≡ final_at g q) where
  -- A run is cut at the ways back, the shorter rest by recursion.
  rounds_of :
      (fuel : ℕ) (q : StateId) (p : List (Arc W))
      → length p < fuel
      → IsRun h s p q
      → w.eq (final_at h q) w.zero ≡ false
      → Repeated
          (AcceptsFrom g s)
          (labels input p)
          (labels output p)
          (w.times (path_weight p) (final_at h q))
  rounds_of zero q p k run fin = absurd (omega (arith, k))
  rounds_of (suc fuel) q p k run fin = elim (run_cases g h (λ x. x) s exits s q p start_lt run) [
    | inl (m, r, inside, lt, eq, ep) ↦
        let (li, lo) = labels-move (λ x. x) r in
        let lw = path_weight-move (λ x. x) r in
        let f : final_at h q ≡ final_at g m = ap (final_at h) eq ∙ finals m lt in
        Repeated.once (
          m,
          r,
          inside,
          (
            rw f at fin,
            sym li ∙ ap (labels input) (sym ep),
            sym lo ∙ ap (labels output) (sym ep),
            rw f (ap (λ x. w.times x (final_at g m)) (sym lw ∙ ap path_weight (sym ep))),
          ),
        )
    | inr (m, r, rest, inside, fin', ep, out) ↦
        let (li, lo, lw) = leaving_labels g h (λ x. x) s exits laws m r rest (final_at h q) in
        let shorter : length rest < fuel = omega (
          arith,
          k,
          ap length ep,
          length-append (map (move (λ x. x)) r) (exit_arc (final_at g m) s ∷ rest),
        ) in
        Repeated.again (m, r, inside, (fin', refl, refl, refl))
          (rounds_of fuel q rest shorter out fin) (ap (labels input) ep ∙ li)
          (ap (labels output) ep ∙ lo) (ap (λ x. w.times (path_weight x) (final_at h q)) ep ∙ lw)
  ]

  of_rounds :
      {ins outs : List Label} {v : W}
      → Repeated (AcceptsFrom g s) ins outs v
      → AcceptsFrom h s ins outs v
  of_rounds (Repeated.once (q, p, run, (fin, i, o, total))) =
      let (run', lt) = inner-IsRun g h (λ x. x) s exits s q p start_lt run in
      let (li, lo) = labels-move (λ x. x) p in
      let f = finals q lt in
      (
        q,
        map (move (λ x. x)) p,
        run',
        (rw f fin, li ∙ i, lo ∙ o, rw (f, path_weight-move (λ x. x) p) total),
      )
  of_rounds (Repeated.again {i1} {o1} {i2} {o2} {ins} {outs} {v1} {v2} {v} first rest ei eo ev) =
      accepts_leaving laws g h (λ x. x) s exits s ins outs v start_lt
        (i1, o1, i2, o2, v1, v2, ei, eo, ev, first, of_rounds rest)

  pub rounds_accepts :
      (ins outs : List Label) (v : W)
      → AcceptsFrom h s ins outs v ↔ Repeated (AcceptsFrom g s) ins outs v
  rounds_accepts ins outs v = (
    λ (q, p, run, (fin, i, o, total)).
        let r = rounds_of (suc (length p)) q p (omega arith) run fin in rw (i, o, total) at r,
    of_rounds,
  )
