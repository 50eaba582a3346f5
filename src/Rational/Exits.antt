-- ===== src/Rational/Exits.antt =====
-- A graph that stands inside another one, with an epsilon arc out of each of its final states that
-- carries the final weight: the construction that concatenation and closure share.
use sicada.Prelude.{
  Bool-cases, if◌then◌else◌, mem_map, map_mem, cons_eq, ◌≡◌, refl, sym, ap, ◌∙◌, ◌⊎◌, inl, inr, ◌<◌,
  false, List, [], ◌∷◌, ◌++◌, map, length, arith,
}
use mathlib.Core.List.{Memᴰ}
use mathlib.Core.List.Memᴰ
use sicada.Weight.{Weight, IsSemiring}
use sicada.Arc.{Arc, Label, StateId, epsilon}
use sicada.Filters.Paths.{labels, input, output}
use sicada.Rational.Graph.{Graph}
use sicada.Rational.Runs.{arcs_at, final_at, IsRun, IsClosed, path_weight}

module _ {W : Type 0} where
  -- An arc, with the state that it leads to renamed.
  abbrev pub move : (StateId → StateId) → Arc W → Arc W
  move f a = record a { nextstate = f a.nextstate }

  -- The way out of a final state.
  unfoldable pub exit_arc : W → StateId → Arc W
  exit_arc weight s = record { ilabel = epsilon; olabel = epsilon; weight = weight; nextstate = s }

  pub IsRun-append :
      (g : Graph W) (s m q : StateId) (p r : List (Arc W))
      → IsRun g s p m
      → IsRun g m r q
      → IsRun g s (p ++ r) q
  IsRun-append g s m q [] r e run = rw e run
  IsRun-append g s m q (a ∷ p) r (mem, rest) run =
      (mem, IsRun-append g a.nextstate m q p r rest run)

  pub labels-append :
      (side : Arc W → Label) (p r : List (Arc W))
      → labels side (p ++ r) ≡ labels side p ++ labels side r
  labels-append side [] r = refl
  labels-append side (a ∷ p) r = ground (arith, labels-append side p r)

  pub labels-move :
      (f : StateId → StateId) (p : List (Arc W))
      → (labels input (map (move f) p) ≡ labels input p)
        × (labels output (map (move f) p) ≡ labels output p)
  labels-move f [] = (refl, refl)
  labels-move f (a ∷ p) = let (i, o) = labels-move f p in (rw i refl, rw o refl)

module _ {W : Type 0} ⦃w : Weight W⦄ where
  pub path_weight-move :
      (f : StateId → StateId) (p : List (Arc W)) → path_weight (map (move f) p) ≡ path_weight p
  path_weight-move f [] = refl
  path_weight-move f (a ∷ p) = ap (w.times a.weight) (path_weight-move f p)

  pub path_weight-append :
      IsSemiring w
      → (p r : List (Arc W)) → path_weight (p ++ r) ≡ w.times (path_weight p) (path_weight r)
  path_weight-append laws [] r = sym (laws.one_times (path_weight r))
  path_weight-append laws (a ∷ p) r =
      ap (w.times a.weight) (path_weight-append laws p r)
      ∙ sym (laws.times_assoc a.weight (path_weight p) (path_weight r))

  -- `h` holds `g` under the names that `f` gives, and a way out to `t`.
  pub record HasExits (g h : Graph W) (f : StateId → StateId) (t : StateId) : Type 0 where
    pub closed : IsClosed g
    pub inner :
        (s : StateId) (a : Arc W)
        → s < length g
        → Memᴰ a (arcs_at g s)
        → Memᴰ (move f a) (arcs_at h (f s))
    pub exit :
        (s : StateId)
        → s < length g
        → w.eq (final_at g s) w.zero ≡ false
        → Memᴰ (exit_arc (final_at g s) t) (arcs_at h (f s))
    pub only :
        (s : StateId) (a : Arc W)
        → s < length g
        → Memᴰ a (arcs_at h (f s))
        → ((b : Arc W) × Memᴰ b (arcs_at g s) × (a ≡ move f b))
          ⊎ ((w.eq (final_at g s) w.zero ≡ false) × (a ≡ exit_arc (final_at g s) t))

  -- The exits stand behind the arcs of the final states, and the names are kept.
  module _ (g h : Graph W) (t : StateId) (closed : IsClosed g)
      (arcs : (s : StateId)
        → s < length g
        → arcs_at h s ≡ (
            if w.eq (final_at g s) w.zero
            then arcs_at g s
            else arcs_at g s ++ exit_arc (final_at g s) t ∷ [])) where
    appended_inner :
        (s : StateId) (a : Arc W) → s < length g → Memᴰ a (arcs_at g s) → Memᴰ a (arcs_at h s)
    appended_inner s a k m = elim (Bool-cases (w.eq (final_at g s) w.zero)) [
      | inl e ↦ rw (arcs s k, e) m
      | inr e ↦ rw (arcs s k, e) (Memᴰ.append_left (exit_arc (final_at g s) t ∷ []) m)
    ]

    appended_only :
        (s : StateId) (a : Arc W)
        → s < length g
        → Memᴰ a (arcs_at h s)
        → ((b : Arc W) × Memᴰ b (arcs_at g s) × (a ≡ move (λ x. x) b))
          ⊎ ((w.eq (final_at g s) w.zero ≡ false) × (a ≡ exit_arc (final_at g s) t))
    appended_only s a k m = elim (Bool-cases (w.eq (final_at g s) w.zero)) [
      | inl e ↦ inl (a, (rw (arcs s k, e) at m), refl)
      | inr e ↦
          let m' : Memᴰ a (arcs_at g s ++ exit_arc (final_at g s) t ∷ []) = rw (arcs s k, e) at m in
          elim (Memᴰ.append_cases (arcs_at g s) m') [
            | inl old ↦ inl (a, old, refl)
            | inr new ↦ elim (Memᴰ.cases_cons new) [
              | inl e' ↦ inr (e, e')
              | inr none_left ↦ elim none_left [ ]
            ]
          ]
    ]

    pub appended-HasExits : HasExits g h (λ x. x) t
    appended-HasExits = record {
      closed = closed;
      inner = appended_inner;
      exit = λ s k e. rw (arcs s k, e) (Memᴰ.append_right (arcs_at g s) (Memᴰ.head refl));
      only = appended_only;
    }

  -- The exits stand in front of the arcs of the final states.
  module _ (g h : Graph W) (f : StateId → StateId) (t : StateId) (closed : IsClosed g)
      (arcs : (s : StateId)
        → s < length g
        → arcs_at h (f s)
          ≡ (if w.eq (final_at g s) w.zero then [] else exit_arc (final_at g s) t ∷ [])
            ++ map (move f) (arcs_at g s)) where
    prepended_inner :
        (s : StateId) (a : Arc W)
        → s < length g
        → Memᴰ a (arcs_at g s)
        → Memᴰ (move f a) (arcs_at h (f s))
    prepended_inner s a k m = rw (arcs s k) (
        Memᴰ.append_right
          (if w.eq (final_at g s) w.zero then [] else exit_arc (final_at g s) t ∷ [])
          (mem_map (move f) a (arcs_at g s) m))

    moved_only :
        (s : StateId) (a : Arc W)
        → Memᴰ a (map (move f) (arcs_at g s))
        → (b : Arc W) × Memᴰ b (arcs_at g s) × (a ≡ move f b)
    moved_only s a m = map_mem (move f) a (arcs_at g s) m

    prepended_only :
        (s : StateId) (a : Arc W)
        → s < length g
        → Memᴰ a (arcs_at h (f s))
        → ((b : Arc W) × Memᴰ b (arcs_at g s) × (a ≡ move f b))
          ⊎ ((w.eq (final_at g s) w.zero ≡ false) × (a ≡ exit_arc (final_at g s) t))
    prepended_only s a k m = elim (Bool-cases (w.eq (final_at g s) w.zero)) [
      | inl e ↦ inl (moved_only s a (rw (arcs s k, e) at m))
      | inr e ↦
          let m' : Memᴰ a (exit_arc (final_at g s) t ∷ map (move f) (arcs_at g s)) =
            rw (arcs s k, e) at m in
          elim (Memᴰ.cases_cons m') [ inl e' ↦ inr (e, e') | inr old ↦ inl (moved_only s a old) ]
    ]

    pub prepended-HasExits : HasExits g h f t
    prepended-HasExits = record {
      closed = closed;
      inner = prepended_inner;
      exit = λ s k e. rw (arcs s k, e) (Memᴰ.head refl);
      only = prepended_only;
    }

  module _ (g h : Graph W) (f : StateId → StateId) (t : StateId) (exits : HasExits g h f t) where
    -- A run that stays.
    abbrev pub Stays : StateId → List (Arc W) → StateId → Type 0
    Stays s p q =
        (m : StateId) × (r : List (Arc W)) × IsRun g s r m
        × (m < length g)
        × (q ≡ f m)
        × (p ≡ map (move f) r)

    -- A run that leaves, at the first exit that it takes.
    abbrev pub Leaves : StateId → List (Arc W) → StateId → Type 0
    Leaves s p q =
        (m : StateId) × (r rest : List (Arc W)) × IsRun g s r m
        × (w.eq (final_at g m) w.zero ≡ false)
        × (p ≡ map (move f) r ++ exit_arc (final_at g m) t ∷ rest)
        × IsRun h t rest q

    pub run_cases :
        (s q : StateId) (p : List (Arc W))
        → s < length g
        → IsRun h (f s) p q
        → Stays s p q ⊎ Leaves s p q
    unfolding exit_arc
    run_cases s q [] k e = inl (s, [], refl, k, sym e, refl)
    run_cases s q (a ∷ p) k (m, run) = elim (exits.only s a k m) [
      | inl (b, mb, e) ↦
          let run' : IsRun h (f b.nextstate) p q = rw e at run in
          elim (run_cases b.nextstate q p (exits.closed s b mb) run') [
            | inl (z, r, inside, lt, eq, ep) ↦ inl (z, b ∷ r, (mb, inside), lt, eq, cons_eq e ep)
            | inr (z, r, rest, inside, fin, ep, out) ↦
                inr (z, b ∷ r, rest, (mb, inside), fin, cons_eq e ep, out)
          ]
      | inr (fin, e) ↦
          let run' : IsRun h t p q = rw e at run in
          inr (s, [], p, refl, fin, ap (λ x. x ∷ p) e, run')
    ]

    pub inner-IsRun :
        (s q : StateId) (p : List (Arc W))
        → s < length g
        → IsRun g s p q
        → IsRun h (f s) (map (move f) p) (f q) × (q < length g)
    inner-IsRun s q [] k e = (ap f e, rw⁻¹ e k)
    inner-IsRun s q (a ∷ p) k (m, run) =
        let (run', lt) = inner-IsRun a.nextstate q p (exits.closed s a m) run in
        ((exits.inner s a k m, run'), lt)

    pub leaving-IsRun :
        (s m q : StateId) (p rest : List (Arc W))
        → s < length g
        → IsRun g s p m
        → w.eq (final_at g m) w.zero ≡ false
        → IsRun h t rest q
        → IsRun h (f s) (map (move f) p ++ exit_arc (final_at g m) t ∷ rest) q
    unfolding exit_arc
    leaving-IsRun s m q p rest k run fin out =
        let (run', lt) = inner-IsRun s m p k run in
        IsRun-append h (f s) (f m) q (map (move f) p) (exit_arc (final_at g m) t ∷ rest) run'
          (exits.exit m lt fin, out)

    -- What such a path says.
    pub leaving_labels :
        IsSemiring w
        → (m : StateId) (p rest : List (Arc W)) (fin : W)
        → let path = map (move f) p ++ exit_arc (final_at g m) t ∷ rest in
          (labels input path ≡ labels input p ++ labels input rest)
          × (labels output path ≡ labels output p ++ labels output rest)
          × (w.times (path_weight path) fin
              ≡ w.times (w.times (path_weight p) (final_at g m)) (w.times (path_weight rest) fin))
    unfolding exit_arc
    leaving_labels laws m p rest fin =
        let way = exit_arc (final_at g m) t ∷ rest in
        let (i, o) = labels-move f p in
        let moved = map (move f) p in
        let end : path_weight way ≡ w.times (final_at g m) (path_weight rest) = refl in
        (
          labels-append input moved way ∙ ap (λ x. x ++ labels input rest) i,
          labels-append output moved way ∙ ap (λ x. x ++ labels output rest) o,
          ap (λ x. w.times x fin)
                (path_weight-append laws moved way
                  ∙ ap (λ x. w.times x (w.times (final_at g m) (path_weight rest)))
                      (path_weight-move f p)
                  ∙ sym (laws.times_assoc (path_weight p) (final_at g m) (path_weight rest)))
              ∙ laws.times_assoc (w.times (path_weight p) (final_at g m)) (path_weight rest) fin,
        )
