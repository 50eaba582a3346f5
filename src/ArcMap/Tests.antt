-- ===== src/ArcMap/Tests.antt =====
-- The inverse and a projection of a small transducer over the semiring of the natural numbers.
use sicada.Prelude.{◌≡◌, ◌↔◌, ℕ, ◌+◌, ◌*◌, ◌==◌, List}
use sicada.Weight.{Weight}
use sicada.Arc.{Label}
use sicada.VectorFst.Defs
use sicada.VectorFst.Defs.{VectorFst}
use sicada.Rational.Graph.{graph}
use sicada.Rational.Runs.{Accepts}
use sicada.ArcMap.Defs.{MapOutcome}
use sicada.ArcMap.Invert.{invert}
use sicada.ArcMap.Project.{ProjectType, project}
use sicada.ArcMap.ProjectLanguage.{Kept, project_language}
use sicada.ArcMap.InvertLanguage.{invert_language}

instance numbers : Weight ℕ
numbers = record { zero = 0; one = 1; plus = ◌+◌; times = ◌*◌; eq = ◌==◌ }

-- Reads 3 and writes 4.
abbrev three_to_four : VectorFst ℕ
three_to_four =
    Defs.set_final
      (Defs.add_arc (Defs.set_start (Defs.add_states Defs.new 2) 0) 0
        (record { ilabel = 3; olabel = 4; weight = 5; nextstate = 1 }))
      1 2

invert_language_example :
    (m : VectorFst ℕ) × (invert three_to_four ≡ MapOutcome.done m)
    × ((ins outs : List Label) (v : ℕ)
        → Accepts (graph m) m.start ins outs v
          ↔ Accepts (graph three_to_four) three_to_four.start outs ins v)
invert_language_example = invert_language three_to_four

project_language_example :
    (m : VectorFst ℕ) × (project three_to_four ProjectType.keep_output ≡ MapOutcome.done m)
    × ((ins outs : List Label) (v : ℕ)
        → Accepts (graph m) m.start ins outs v
          ↔ (ins ≡ outs)
            × Kept ProjectType.keep_output (graph three_to_four) three_to_four.start ins v)
project_language_example = project_language ProjectType.keep_output three_to_four
