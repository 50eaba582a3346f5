-- ===== src/Filters/Tests.antt =====
-- The composition filters run on two small FSTs over the counting semiring.
use sicada.Prelude.{ℕ, ◌+◌, ◌*◌, ◌≡◌, ◌↔◌, refl, true, List, [], ◌∷◌, ◌==◌, arith}
use mathlib.Core.List.{Memᴰ}
use sicada.Weight.{Weight}
use sicada.Arc.{Arc, epsilon}
use sicada.VectorFst.Defs
use sicada.VectorFst.Defs.{VectorFst}
use sicada.VectorFst.State
use sicada.VectorFst.Delete.{count_input, count_output}
use sicada.VectorFst.AsFst.{as_fst, as_fst-IsFst}
use sicada.Fst.{IsFst}
use sicada.Filters.Defs.{sequence_new}
use sicada.Filters.Paths.{labels, input, output, IsPath}
use sicada.Filters.Runs.{Move, accepts}
use sicada.Filters.Sequence.Cache.{sequence_new-IsReady}
use sicada.Filters.Sequence.Order.{sequence_filter, first_first}
use sicada.Filters.Mirror.{alt_filter}
use sicada.Filters.Alternate.{second_first, alternate_exact, alt_new-IsAltReady}
use sicada.Filters.Sequence.Exact.{sequence_exact}

instance counting : Weight ℕ
counting = record { zero = 0; one = 1; plus = ◌+◌; times = ◌*◌; eq = ◌==◌ }

abbrev arc : ℕ → ℕ → ℕ → Arc ℕ
arc i o q = record { ilabel = i; olabel = o; weight = 1; nextstate = q }

-- State 0 writes an epsilon, state 1 the label 5, and state 2 is final.
abbrev first : VectorFst ℕ
first =
    Defs.set_final
      (Defs.add_arc (Defs.add_arc (Defs.add_states Defs.new 3) 0 (arc 3 epsilon 1)) 1 (arc 4 5 2)) 2
      1

first-IsFst : IsFst (as_fst first)
unfolding Defs.set_final Defs.add_arc State.add_arc Defs.add_states Defs.new count_input
    count_output counting
first-IsFst =
    as_fst-IsFst first refl
      (
        record { input = refl; output = refl },
        (record { input = refl; output = refl }, (record { input = refl; output = refl }, tt)),
      )
      (omega arith)

-- A path of the second FST: an epsilon is read, then the label 5.
abbrev second_path : List (Arc ℕ)
second_path = arc epsilon 8 1 ∷ arc 5 9 2 ∷ []

abbrev first_path : List (Arc ℕ)
first_path = arc 3 epsilon 1 ∷ arc 4 5 2 ∷ []

first-IsPath : IsPath (as_fst first) output 0 first_path
unfolding as_fst Defs.arcs Defs.final_weight Defs.set_final Defs.add_arc State.add_arc
    Defs.add_states Defs.new counting
first-IsPath =
    (Memᴰ.head refl, λ e. omega (arith, e), (Memᴰ.head refl, λ e. omega (arith, e), refl))

sequence_exact_example :
    (accepts sequence_filter
        (sequence_new (as_fst first))
        0
        0
        0
        (Move.left ∷ Move.right ∷ Move.both ∷ [])
        first_path
        second_path
      ≡ true)
    ↔ ((labels output first_path ≡ labels input second_path)
        × (Move.left ∷ Move.right ∷ Move.both ∷ [] ≡ first_first first_path second_path))
sequence_exact_example =
    sequence_exact (as_fst first) first-IsFst (sequence_new (as_fst first)) 0 0
      (Move.left ∷ Move.right ∷ Move.both ∷ []) first_path second_path
      (sequence_new-IsReady (as_fst first)) first-IsPath

abbrev second : VectorFst ℕ
second =
    Defs.set_final
      (Defs.add_arc (Defs.add_arc (Defs.add_states Defs.new 3) 0 (arc epsilon 8 1)) 1 (arc 5 9 2)) 2
      1

second-IsFst : IsFst (as_fst second)
unfolding Defs.set_final Defs.add_arc State.add_arc Defs.add_states Defs.new count_input
    count_output counting
second-IsFst =
    as_fst-IsFst second refl
      (
        record { input = refl; output = refl },
        (record { input = refl; output = refl }, (record { input = refl; output = refl }, tt)),
      )
      (omega arith)

second-IsPath : IsPath (as_fst second) input 0 second_path
unfolding as_fst Defs.arcs Defs.final_weight Defs.set_final Defs.add_arc State.add_arc
    Defs.add_states Defs.new counting
second-IsPath =
    (Memᴰ.head refl, λ e. omega (arith, e), (Memᴰ.head refl, λ e. omega (arith, e), refl))

alternate_exact_example :
    (accepts alt_filter
        (sequence_new (as_fst second))
        0
        0
        0
        (Move.right ∷ Move.left ∷ Move.both ∷ [])
        first_path
        second_path
      ≡ true)
    ↔ ((labels output first_path ≡ labels input second_path)
        × (Move.right ∷ Move.left ∷ Move.both ∷ [] ≡ second_first first_path second_path))
alternate_exact_example =
    alternate_exact (as_fst second) second-IsFst (sequence_new (as_fst second)) 0 0
      (Move.right ∷ Move.left ∷ Move.both ∷ []) first_path second_path
      (alt_new-IsAltReady (as_fst second)) second-IsPath

second_first_test : second_first first_path second_path ≡ Move.right ∷ Move.left ∷ Move.both ∷ []
second_first_test = refl
