-- ===== src/Rational/Language.antt =====
-- Two graphs joined by epsilon arcs accept what either one accepts.
use sicada.Prelude.{ℕ, ◌+◌, ◌≡◌, refl, sym, ap, ◌∙◌, ◌↔◌, ◌<◌, false, some, List, ◌∷◌, map, length}
use mathlib.Core.List.{Memᴰ}
use mathlib.Core.Option.{some-injective}
use sicada.Weight.{Weight, IsSemiring}
use sicada.Arc.{Arc, Label, StateId}
use sicada.Filters.Paths.{labels, input, output}
use sicada.Rational.Union.{shift_arc, epsilon_arc}
use sicada.Rational.Graph.{Graph}
use sicada.Rational.Runs.{
  arcs_at, final_at, IsRun, IsClosed, Accepts, path_weight, region, region_end,
}
use sicada.Rational.Shift.{shift-IsRun, unshift-IsRun, labels-shift}

module _ {W : Type 0} ⦃w : Weight W⦄ where
  -- What is left of `Accepts` once the run is known.
  abbrev pub Carries : Graph W → StateId → List (Arc W) → List Label → List Label → W → Type 0
  Carries g q p ins outs v =
      (w.eq (final_at g q) w.zero ≡ false)
      × (labels input p ≡ ins)
      × (labels output p ≡ outs)
      × (w.times (path_weight p) (final_at g q) ≡ v)

  -- From this state on.
  abbrev pub AcceptsFrom : Graph W → StateId → List Label → List Label → W → Type 0
  AcceptsFrom g s ins outs v =
      (q : StateId) × (p : List (Arc W)) × IsRun g s p q × Carries g q p ins outs v

  pub Accepts-from :
      (g : Graph W) (s : StateId) (ins outs : List Label) (v : W)
      → Accepts g (some s) ins outs v ↔ AcceptsFrom g s ins outs v
  Accepts-from g s ins outs v = (
    λ (t, q, p, e, run, fin, i, o, total).
        (q, p, rw (some-injective s t e) run, (fin, i, o, total)),
    λ (q, p, run, (fin, i, o, total)). (s, q, p, refl, run, fin, i, o, total),
  )

  module _ (laws : IsSemiring w) where
    -- An epsilon arc of weight one in front changes nothing that a path carries.
    pub skip_epsilon :
        (g : Graph W) (s q : StateId) (p : List (Arc W)) (ins outs : List Label) (v : W)
        → Carries g q (epsilon_arc s ∷ p) ins outs v ↔ Carries g q p ins outs v
    unfolding epsilon_arc
    skip_epsilon g s q p ins outs v = (
      λ (fin, i, o, total). (
        fin,
        i,
        o,
        sym (ap (λ x. w.times x (final_at g q)) (laws.one_times (path_weight p))) ∙ total,
      ),
      λ (fin, i, o, total).
          (fin, i, o, ap (λ x. w.times x (final_at g q)) (laws.one_times (path_weight p)) ∙ total),
    )

  -- The copied part accepts from its states what the original does.
  module _ (g h : Graph W) (n1 : ℕ) (closed : IsClosed g)
      (copied : (s : StateId)
        → s < length g
        → arcs_at h (s + n1) ≡ map (shift_arc n1) (arcs_at g s))
      (copied_final : (s : StateId) → s < length g → final_at h (s + n1) ≡ final_at g s) where
    pub copied_accepts :
        (s : StateId) (ins outs : List Label) (v : W)
        → s < length g
        → AcceptsFrom h (s + n1) ins outs v ↔ AcceptsFrom g s ins outs v
    copied_accepts s ins outs v k = (
      λ (q, p, run, (fin, i, o, total)).
          let (t, r, lt, eq, ep, run') = unshift-IsRun g h n1 closed copied s q p k run in
          let (li, lo, lw) = labels-shift n1 r in
          let f : final_at h q ≡ final_at g t = rw eq (copied_final t lt) in
          (
            t,
            r,
            run',
            (
              rw f at fin,
              sym li ∙ rw ep at i,
              sym lo ∙ rw ep at o,
              let e = ap path_weight ep in cc,
            ),
          ),
      λ (q, p, run, (fin, i, o, total)).
          let lt = region_end g (λ t. t < length g) (λ t a _ m. closed t a m) s q p k run in
          let (li, lo, lw) = labels-shift n1 p in
          let f = copied_final q lt in
          (
            q + n1,
            map (shift_arc n1) p,
            shift-IsRun g h n1 closed copied s q p k run,
            (rw f fin, li ∙ i, lo ∙ o, cc),
          ),
    )

  -- A region that no arc leaves accepts the same in any graph that agrees with it there.
  module _ (g h : Graph W) (R : StateId → Type 0)
      (same : (s : StateId) → R s → arcs_at h s ≡ arcs_at g s)
      (same_final : (s : StateId) → R s → final_at h s ≡ final_at g s)
      (stays : (s : StateId) (a : Arc W) → R s → Memᴰ a (arcs_at g s) → R a.nextstate) where
    pub region_accepts :
        (s : StateId) (ins outs : List Label) (v : W)
        → R s
        → AcceptsFrom h s ins outs v ↔ AcceptsFrom g s ins outs v
    region_accepts s ins outs v r = (
      λ (q, p, run, (fin, i, o, total)).
          let run' = (region g h R same stays s q p r).1 run in
          let f = same_final q (region_end g R stays s q p r run') in
          (q, p, run', (rw f at fin, i, o, rw f at total)),
      λ (q, p, run, (fin, i, o, total)).
          let f = same_final q (region_end g R stays s q p r run) in
          (q, p, (region g h R same stays s q p r).0 run, (rw f fin, i, o, rw f total)),
    )
