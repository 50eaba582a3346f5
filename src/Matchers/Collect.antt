-- ===== src/Matchers/Collect.antt =====
-- The loop over what `find` of `SortedMatcher` in sicada/src/matcher.rs has found.
use sicada.Prelude.{
  ℕ, zero, suc, ◌+◌, ◌≤◌, ◌<◌, ◌≡◌, refl, sym, ap, ◌∙◌, Bool, true, false, ◌||◌, Option, none, some,
  List, [], ◌∷◌, ◌++◌, length, ltb, leb, ◌==◌, Bool-cases, inl, inr, if◌then◌else◌, get_elem?,
  get_elem?-drop, drop-suc, partition_point, drop, select, All, All-select, arith,
}
use sicada.Weight.{Weight}
use sicada.Arc.{Arc, Label, epsilon, no_label}
use sicada.Matchers.Sorted.{
  extract_label, SortedMatcher, search, find, done, value, next, collect, pushed,
}
use sicada.Matchers.Order.{IsSorted, with_label, drop-below, with_label-drop, leading, sought}

module _ {W : Type 0} ⦃w : Weight W⦄ where
  abbrev pub side_of : SortedMatcher W → Arc W → Label
  side_of m a = extract_label m.match_type a

  collect-stop :
      (fuel : ℕ) (m : SortedMatcher W) → done m ≡ some true → collect (suc fuel) m ≡ some []
  unfolding collect
  collect-stop fuel m e =
      ap
        (λ (o : Option Bool). elim o as (λ x. Option (List (Arc W))) [
          | none ↦ none
          | some stop ↦ if stop then some [] else pushed (value m) (collect fuel (next m))
        ])
        e

  collect-step :
      (fuel : ℕ) (m : SortedMatcher W) (x : Arc W) (xs : List (Arc W))
      → done m ≡ some false
      → value m ≡ some x
      → collect fuel (next m) ≡ some xs
      → collect (suc fuel) m ≡ some (x ∷ xs)
  unfolding collect
  collect-step fuel m x xs e v ih =
      ap
        (λ (o : Option Bool). elim o as (λ x. Option (List (Arc W))) [
          | none ↦ none
          | some stop ↦ if stop then some [] else pushed (value m) (collect fuel (next m))
        ])
        e
      ∙ ap (λ o. pushed o (collect fuel (next m))) v
      ∙ ap (pushed (some x)) ih

  done-over : (m : SortedMatcher W) → m.current_loop ≡ false → m.end ≤ m.pos → done m ≡ some true
  unfolding done
  done-over m loop k = ground arith

  done-match :
      (m : SortedMatcher W) (x : Arc W)
      → m.current_loop ≡ false
      → m.pos < m.end
      → m.exact_match ≡ true
      → get_elem? m.arcs m.pos ≡ some x
      → (side_of m x == m.match_label) ≡ true
      → done m ≡ some false
  unfolding done
  done-match m x loop k exact here label = ground arith

  value-here : (m : SortedMatcher W) → m.current_loop ≡ false → value m ≡ get_elem? m.arcs m.pos
  unfolding value
  value-here m loop = ground arith

  next-here : (m : SortedMatcher W) → m.current_loop ≡ false → next m ≡ record m { pos = m.pos + 1 }
  unfolding next
  next-here m loop = ground arith

  -- The loop from a position on, over the arcs up to the end.
  collect-run :
      (fuel : ℕ) (m : SortedMatcher W) (xs rest : List (Arc W))
      → length xs < fuel
      → m.current_loop ≡ false
      → m.exact_match ≡ true
      → m.end ≡ m.pos + length xs
      → drop m.pos m.arcs ≡ xs ++ rest
      → All (λ a. (side_of m a == m.match_label) ≡ true) xs
      → collect fuel m ≡ some xs
  collect-run zero m xs rest k loop exact stop at labels = absurd (omega (arith, k))
  collect-run (suc fuel) m [] rest k loop exact stop at labels =
      collect-stop fuel m (done-over m loop (omega (arith, stop)))
  collect-run (suc fuel) m (x ∷ xs) rest k loop exact stop at (l, labels) =
      let here = get_elem?-drop m.pos m.arcs (xs ++ rest) x at in
      let onward : drop (m.pos + 1) m.arcs ≡ xs ++ rest =
        let e : m.pos + 1 ≡ suc m.pos = omega arith in
        rw e (drop-suc m.pos m.arcs (xs ++ rest) x at) in
      let ih =
        collect-run fuel (record m { pos = m.pos + 1 }) xs rest (omega (arith, k)) loop exact
          (omega (arith, stop)) onward labels in
      collect-step fuel m x xs (done-match m x loop (omega (arith, stop)) exact here l)
        (value-here m loop ∙ here) (ap (collect fuel) (next-here m loop) ∙ ih)

  done-loop : (m : SortedMatcher W) → m.current_loop ≡ true → done m ≡ some false
  unfolding done
  done-loop m loop = ground arith

  value-loop : (m : SortedMatcher W) → m.current_loop ≡ true → value m ≡ some m.loop_arc
  unfolding value
  value-loop m loop = ground arith

  next-loop :
      (m : SortedMatcher W) → m.current_loop ≡ true → next m ≡ record m { current_loop = false }
  unfolding next
  next-loop m loop = ground arith

  -- The loop in front, where epsilon is looked for.
  collect-loop :
      (fuel : ℕ) (m : SortedMatcher W) (xs : List (Arc W))
      → m.current_loop ≡ true
      → collect fuel (record m { current_loop = false }) ≡ some xs
      → collect (suc fuel) m ≡ some (m.loop_arc ∷ xs)
  collect-loop fuel m xs loop rest =
      collect-step fuel m m.loop_arc xs (done-loop m loop) (value-loop m loop)
        (ap (collect fuel) (next-loop m loop) ∙ rest)

  length-select-le : (p : Arc W → Bool) (as' : List (Arc W)) → length (select p as') ≤ length as'
  length-select-le p [] = omega arith
  length-select-le p (a ∷ as') = ground (arith, length-select-le p as')

  module _ (m : SortedMatcher W) where
    abbrev pub start : ℕ
    start = partition_point (λ a. ltb (side_of m a) m.match_label) m.arcs

    abbrev pub after : ℕ
    after = partition_point (λ a. leb (side_of m a) m.match_label) (drop start m.arcs)

    abbrev chosen : List (Arc W)
    chosen = with_label (side_of m) m.match_label m.arcs

    search-exact : m.exact_match ≡ true → search m ≡ record m { pos = start; end = start + after }
    unfolding search
    search-exact e = ground arith

    module _ (sorted : IsSorted (side_of m) m.arcs) where
      range : (rest : List (Arc W)) × (drop start m.arcs ≡ chosen ++ rest) × (after ≡ length chosen)
      range =
          let (rest, split, count) =
            leading (side_of m) m.match_label (drop start m.arcs)
              (drop-below (side_of m) m.match_label 0 m.arcs sorted) in
          let same = with_label-drop (side_of m) m.match_label m.arcs in
          (rest, split ∙ ap (λ x. x ++ rest) same, count ∙ ap length same)

      -- The range that the two searches find holds the arcs with the label.
      collect-range :
          (fuel : ℕ)
          → length m.arcs < fuel
          → m.exact_match ≡ true
          → collect fuel (record m { pos = start; end = start + after; current_loop = false })
            ≡ some chosen
      collect-range fuel k exact =
          let (rest, split, count) = range in
          collect-run fuel (record m { pos = start; end = start + after; current_loop = false })
            chosen rest
            (omega (arith, k, length-select-le (λ a. side_of m a == m.match_label) m.arcs)) refl
            exact (ap (λ n. start + n) count) split
            (All-select (λ a. side_of m a == m.match_label) m.arcs)

      empty_range : after ≡ 0 → chosen ≡ []
      empty_range e = let (rest, split, count) = range in empty chosen (sym count ∙ e)
        where
          empty : (xs : List (Arc W)) → length xs ≡ 0 → xs ≡ []
          empty [] h = refl
          empty (x ∷ xs) h = absurd (omega (arith, h))

  abbrev pub loop_if : Bool → Arc W → List (Arc W)
  loop_if b a = if b then a ∷ [] else []

  -- At a state that is set, with sorted arcs.
  module _ (m : SortedMatcher W) (label : Label) (fine : m.error ≡ false)
      (sorted : IsSorted (side_of m) m.arcs) where
    abbrev pub ready : SortedMatcher W
    ready = record m {
      exact_match = true;
      current_loop = label == epsilon;
      match_label = sought label;
    }

    abbrev pub searched : SortedMatcher W
    searched = record ready { pos = start ready; end = start ready + after ready }

    pub find-ready :
        find m label
        ≡ (ltb (start ready) (start ready + after ready) || (label == epsilon), searched)
    unfolding find
    find-ready =
        ap
          (λ (b : Bool).
            if b
            then (
              false,
              record m { exact_match = true; current_loop = false; match_label = no_label },
            )
            else (
              ltb (search ready).pos (search ready).end || (search ready).current_loop,
              search ready,
            ))
          fine
        ∙ ap (λ (x : SortedMatcher W). (ltb x.pos x.end || x.current_loop, x))
            (search-exact ready refl)

    -- What the loop over the matches pushes.
    pub found_at :
        collect (length m.arcs + 2) searched
        ≡ some
            (loop_if (label == epsilon) m.loop_arc ++ with_label (side_of m) (sought label) m.arcs)
    found_at = elim (Bool-cases (label == epsilon)) [
      | inl e ↦
          let two : length m.arcs + 2 ≡ suc (length m.arcs + 1) = omega arith in
          let k : collect (suc (length m.arcs + 1)) searched ≡ some (m.loop_arc ∷ chosen ready) =
            collect-loop (length m.arcs + 1) searched (chosen ready) e
              (collect-range ready sorted (length m.arcs + 1) (omega arith) refl) in
          ap (λ n. collect n searched) two
          ∙ k
          ∙ ap (λ b. some (loop_if b m.loop_arc ++ with_label (side_of m) (sought label) m.arcs))
              (sym e)
      | inr e ↦
          let plain : searched ≡ record ready {
            pos = start ready;
            end = start ready + after ready;
            current_loop = false;
          } =
            ap (λ b. record searched { current_loop = b }) e in
          ap (collect (length m.arcs + 2)) plain
          ∙ collect-range ready sorted (length m.arcs + 2) (omega arith) refl
          ∙ rw e refl
    ]

    -- Where `find` says no, there was nothing to push.
    pub not_found :
        (ltb (start ready) (start ready + after ready) || (label == epsilon)) ≡ false
        → [] ≡ loop_if (label == epsilon) m.loop_arc ++ with_label (side_of m) (sought label) m.arcs
    not_found e =
        let real : (label == epsilon) ≡ false = ground arith in
        let no_range : after ready ≡ 0 = ground arith in
        rw real (sym (empty_range ready sorted no_range))

  pub answer :
      (m : SortedMatcher W) (label : Label) (fine : m.error ≡ false)
      (sorted : IsSorted (side_of m) m.arcs)
      → (if ltb
              (start (ready m label fine sorted))
              (start (ready m label fine sorted) + after (ready m label fine sorted))
            || (label == epsilon)
          then collect (length m.arcs + 2) (searched m label fine sorted)
          else some [])
        ≡ some
            (loop_if (label == epsilon) m.loop_arc ++ with_label (side_of m) (sought label) m.arcs)
  answer m label fine sorted =
      let r = ready m label fine sorted in
      let choose = λ (b : Bool).
        if b then collect (length m.arcs + 2) (searched m label fine sorted) else some [] in
      elim (Bool-cases (ltb (start r) (start r + after r) || (label == epsilon))) [
        | inl e ↦ ap choose e ∙ found_at m label fine sorted
        | inr e ↦ ap choose e ∙ ap some (not_found m label fine sorted e)
      ]
