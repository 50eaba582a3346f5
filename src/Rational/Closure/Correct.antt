-- ===== src/Rational/Closure/Correct.antt =====
-- What `closure` of sicada/src/algorithms/closure.rs leaves accepts.
use sicada.Prelude.{
  ◌≡◌, refl, sym, ◌∙◌, ◌↔◌, ◌⊎◌, inl, inr, ◌<◌, false, List, [], ◌∷◌, ◌++◌, map, length, length-map,
  if◌then◌else◌, arith, zero, suc,
}
use mathlib.Core.List.{Memᴰ}
use mathlib.Core.List.Memᴰ
use sicada.Weight.{Weight, IsSemiring}
use sicada.Arc.{Arc, Label, StateId}
use sicada.Rational.Graph.{Graph}
use sicada.Rational.Runs.{arcs_at, final_at, IsRun, IsClosed}
use sicada.Rational.Language.{AcceptsFrom, Carries}
use sicada.Rational.Positions.{arcs_at-left, final_at-left}
use sicada.Rational.Join.{through, behind}
use sicada.Rational.Union.{epsilon_arc}
use sicada.Rational.Exits.{exit_arc, HasExits, appended-HasExits}
use sicada.Rational.Sequel.{Relation}
use sicada.Rational.Rounds.{Repeated}
use sicada.Rational.Closure.{ClosureType}
use sicada.Rational.Closure.Calls.{lead_back}

module _ {W : Type 0} ⦃w : Weight W⦄ where
  -- What the closure of what `A` relates is: one time or more, or also not at all.
  abbrev pub Closed : ClosureType → Relation W → Relation W
  Closed ClosureType.plus A ins outs v = Repeated A ins outs v
  Closed ClosureType.star A ins outs v =
      ((ins ≡ []) × (outs ≡ []) × (v ≡ w.one)) ⊎ Repeated A ins outs v

  pub Repeated-map :
      (A B : Relation W)
      → ((ins outs : List Label) (v : W) → A ins outs v → B ins outs v)
      → {ins outs : List Label} {v : W} → Repeated A ins outs v
      → Repeated B ins outs v
  Repeated-map A B f (Repeated.once a) = Repeated.once (f _ _ _ a)
  Repeated-map A B f (Repeated.again a rest ei eo ev) =
      Repeated.again (f _ _ _ a) (Repeated-map A B f rest) ei eo ev

  module _ (t : StateId) where
    arcs_at-lead_back :
        (g : Graph W) (s : StateId)
        → s < length g
        → arcs_at (map (lead_back t) g) s ≡ (
            if w.eq (final_at g s) w.zero
            then arcs_at g s
            else arcs_at g s ++ exit_arc (final_at g s) t ∷ [])
    arcs_at-lead_back [] s k = absurd (omega (arith, k))
    arcs_at-lead_back (n ∷ g) zero k = ground arith
    arcs_at-lead_back (n ∷ g) (suc s) k = arcs_at-lead_back g s (omega (arith, k))

    final_at-lead_back :
        (g : Graph W) (s : StateId) → final_at (map (lead_back t) g) s ≡ final_at g s
    final_at-lead_back [] s = refl
    final_at-lead_back (n ∷ g) zero = ground arith
    final_at-lead_back (n ∷ g) (suc s) = final_at-lead_back g s

    -- The states of the FST in the closure, more states after them or not.
    module _ (g rest : Graph W) (closed : IsClosed g) where
      abbrev looped : Graph W
      looped = map (lead_back t) g ++ rest

      pub looped_final : (s : StateId) → s < length g → final_at looped s ≡ final_at g s
      looped_final s k =
          final_at-left (map (lead_back t) g) rest s (omega (arith, k, length-map (lead_back t) g))
          ∙ final_at-lead_back g s

      looped_arcs :
          (s : StateId)
          → s < length g
          → arcs_at looped s ≡ (
              if w.eq (final_at g s) w.zero
              then arcs_at g s
              else arcs_at g s ++ exit_arc (final_at g s) t ∷ [])
      looped_arcs s k =
          arcs_at-left (map (lead_back t) g) rest s (omega (arith, k, length-map (lead_back t) g))
          ∙ arcs_at-lead_back g s k

      pub looped-HasExits : HasExits g looped (λ x. x) t
      looped-HasExits = appended-HasExits g looped t closed looped_arcs

  module _ (laws : IsSemiring w) (nontrivial : w.eq w.one w.zero ≡ false) (h : Graph W)
      (s : StateId) (final : final_at h s ≡ w.one) where
    -- Stopping at the new start.
    pub stop_at_once :
        (ins outs : List Label) (v : W)
        → ins ≡ []
        → outs ≡ []
        → v ≡ w.one
        → AcceptsFrom h s ins outs v
    stop_at_once ins outs v i o e =
        (s, [], refl, (rw final nontrivial, sym i, sym o, rw final (laws.one_times w.one ∙ sym e)))

    pub star_accepts :
        (t : StateId) (ins outs : List Label) (v : W)
        → arcs_at h s ≡ epsilon_arc t ∷ []
        → AcceptsFrom h s ins outs v
          ↔ (((ins ≡ []) × (outs ≡ []) × (v ≡ w.one)) ⊎ AcceptsFrom h t ins outs v)
    star_accepts t ins outs v arcs = (
      λ (q, p, run, carries). back q p run carries,
      λ x. elim x [
        | inl (i, o, e) ↦ stop_at_once ins outs v i o e
        | inr k ↦ through laws h s t ins outs v (rw arcs (Memᴰ.head refl)) k
      ],
    )
      where
        back :
            (q : StateId) (p : List (Arc W))
            → IsRun h s p q
            → Carries h q p ins outs v
            → ((ins ≡ []) × (outs ≡ []) × (v ≡ w.one)) ⊎ AcceptsFrom h t ins outs v
        back q [] e (fin, i, o, total) =
            inl (sym i, sym o, sym total ∙ rw (← e, final) (laws.one_times w.one))
        back q (a ∷ p) (m, run) carries =
            let m' : Memᴰ a (epsilon_arc t ∷ []) = rw arcs at m in
            elim (Memᴰ.cases_cons m') [
              | inl e ↦ inr (behind laws h t q a p ins outs v e run carries)
              | inr none_left ↦ elim none_left [ ]
            ]

    pub lone_accepts :
        (ins outs : List Label) (v : W)
        → arcs_at h s ≡ []
        → AcceptsFrom h s ins outs v
        → (ins ≡ []) × (outs ≡ []) × (v ≡ w.one)
    lone_accepts ins outs v arcs (q, [], e, (fin, i, o, total)) =
        (sym i, sym o, sym total ∙ rw (← e, final) (laws.one_times w.one))
    lone_accepts ins outs v arcs (q, a ∷ p, (m, run), carries) =
        let m' : Memᴰ a [] = rw arcs at m in elim m' [ ]
