-- ===== src/Rational/Join.antt =====
-- Both ways of joining two graphs that `join` of sicada/src/algorithms/union.rs chooses between.
use sicada.Prelude.{◌≡◌, refl, ◌↔◌, ◌⊎◌, inl, inr, List, [], ◌∷◌, ◌++◌}
use mathlib.Core.List.Memᴰ
use mathlib.Core.List.{Memᴰ}
use sicada.Weight.{Weight, IsSemiring}
use sicada.Arc.{Arc, Label, StateId}
use sicada.Rational.Union.{epsilon_arc}
use sicada.Rational.Graph.{Graph}
use sicada.Rational.Runs.{arcs_at, final_at, IsRun, region, region_end}
use sicada.Rational.Language.{AcceptsFrom, Carries, skip_epsilon}

module _ {W : Type 0} ⦃w : Weight W⦄ (laws : IsSemiring w) (g : Graph W) where
  -- Following an epsilon arc first.
  pub through :
      (s t : StateId) (ins outs : List Label) (v : W)
      → Memᴰ (epsilon_arc t) (arcs_at g s)
      → AcceptsFrom g t ins outs v
      → AcceptsFrom g s ins outs v
  unfolding epsilon_arc
  through s t ins outs v m (q, p, run, carries) =
      (q, epsilon_arc t ∷ p, (m, run), (skip_epsilon laws g t q p ins outs v).1 carries)

  pub behind :
      (t q : StateId) (a : Arc W) (p : List (Arc W)) (ins outs : List Label) (v : W)
      → a ≡ epsilon_arc t
      → IsRun g a.nextstate p q
      → Carries g q (a ∷ p) ins outs v
      → AcceptsFrom g t ins outs v
  unfolding epsilon_arc
  behind t q a p ins outs v e run carries =
      let run' : IsRun g t p q = rw e at run in
      let carries' : Carries g q (epsilon_arc t ∷ p) ins outs v = rw e at carries in
      (q, p, run', (skip_epsilon laws g t q p ins outs v).0 carries')

  -- A new start state, not final, with two epsilon arcs.
  pub fork_accepts :
      (s t1 t2 : StateId) (ins outs : List Label) (v : W)
      → arcs_at g s ≡ epsilon_arc t1 ∷ epsilon_arc t2 ∷ []
      → final_at g s ≡ w.zero
      → AcceptsFrom g s ins outs v ↔ (AcceptsFrom g t1 ins outs v ⊎ AcceptsFrom g t2 ins outs v)
  fork_accepts s t1 t2 ins outs v arcs final = (
    λ (q, p, run, carries). fork_back q p run carries,
    λ h. elim h [
      | inl k ↦ through s t1 ins outs v (rw arcs (Memᴰ.head refl)) k
      | inr k ↦ through s t2 ins outs v (rw arcs (Memᴰ.tail (Memᴰ.head refl))) k
    ],
  )
    where
      fork_back :
          (q : StateId) (p : List (Arc W))
          → IsRun g s p q
          → Carries g q p ins outs v
          → AcceptsFrom g t1 ins outs v ⊎ AcceptsFrom g t2 ins outs v
      fork_back q [] run carries =
          let fin = rw (← run, final) at carries.0 in
          let same = (laws.eq_iff w.zero w.zero).1 refl in absurd cc
      fork_back q (a ∷ p) (m, run) carries =
          let m' : Memᴰ a (epsilon_arc t1 ∷ epsilon_arc t2 ∷ []) = rw arcs at m in
          elim (Memᴰ.cases_cons m') [
            | inl e ↦ inl (behind t1 q a p ins outs v e run carries)
            | inr m'' ↦ elim (Memᴰ.cases_cons m'') [
              | inl e ↦ inr (behind t2 q a p ins outs v e run carries)
              | inr m3 ↦ elim m3 [ ]
            ]
          ]

-- An epsilon arc added at a state that no arc enters.
module _ {W : Type 0} ⦃w : Weight W⦄ (laws : IsSemiring w) (g h : Graph W) (s t : StateId)
    (R : StateId → Type 0) (same : (r : StateId) → R r → arcs_at h r ≡ arcs_at g r)
    (same_final : (r : StateId) → R r → final_at h r ≡ final_at g r)
    (stays : (r : StateId) (a : Arc W) → R r → Memᴰ a (arcs_at g r) → R a.nextstate)
    (enters : (a : Arc W) → Memᴰ a (arcs_at g s) → R a.nextstate)
    (arcs : arcs_at h s ≡ arcs_at g s ++ epsilon_arc t ∷ [])
    (final : final_at h s ≡ final_at g s) where
  old_way :
      (ins outs : List Label) (v : W) → AcceptsFrom g s ins outs v → AcceptsFrom h s ins outs v
  old_way ins outs v (q, [], run, (fin, i, o, total)) =
      let f : final_at h q ≡ final_at g q = rw (← run) final in
      (q, [], run, (rw f fin, i, o, rw f total))
  old_way ins outs v (q, a ∷ p, (m, run), (fin, i, o, total)) =
      let f = same_final q (region_end g R stays a.nextstate q p (enters a m) run) in
      let run' = (region g h R same stays a.nextstate q p (enters a m)).0 run in
      (
        q,
        a ∷ p,
        (rw arcs (Memᴰ.append_left (epsilon_arc t ∷ []) m), run'),
        (rw f fin, i, o, rw f total),
      )

  grown_back :
      (ins outs : List Label) (v : W)
      → AcceptsFrom h s ins outs v
      → AcceptsFrom g s ins outs v ⊎ AcceptsFrom h t ins outs v
  grown_back ins outs v (q, [], run, (fin, i, o, total)) =
      let f : final_at h q ≡ final_at g q = rw (← run) final in
      inl (q, [], run, (rw f at fin, i, o, rw f at total))
  grown_back ins outs v (q, a ∷ p, (m, run), (fin, i, o, total)) =
      let m' : Memᴰ a (arcs_at g s ++ epsilon_arc t ∷ []) = rw arcs at m in
      elim (Memᴰ.append_cases (arcs_at g s) m') [
        | inl old ↦
            let run' = (region g h R same stays a.nextstate q p (enters a old)).1 run in
            let f = same_final q (region_end g R stays a.nextstate q p (enters a old) run') in
            inl (q, a ∷ p, (old, run'), (rw f at fin, i, o, rw f at total))
        | inr new ↦ elim (Memᴰ.cases_cons new) [
          | inl e ↦ inr (behind laws h t q a p ins outs v e run (fin, i, o, total))
          | inr m'' ↦ elim m'' [ ]
        ]
      ]

  pub grown_accepts :
      (ins outs : List Label) (v : W)
      → AcceptsFrom h s ins outs v ↔ (AcceptsFrom g s ins outs v ⊎ AcceptsFrom h t ins outs v)
  grown_accepts ins outs v = (
    grown_back ins outs v,
    λ k. elim k [
      | inl l ↦ old_way ins outs v l
      | inr l ↦
          through laws h s t ins outs v (rw arcs (Memᴰ.append_right (arcs_at g s) (Memᴰ.head refl)))
            l
    ],
  )
