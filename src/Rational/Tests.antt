-- ===== src/Rational/Tests.antt =====
-- The union, the closure and the concatenation of small FSTs over the Boolean semiring.
use sicada.Prelude.{
  ℕ, zero, suc, sym, ◌∙◌, ◌≡◌, ◌↔◌, ◌⊎◌, refl, ap, Bool, true, false, not, ◌&&◌, ◌||◌, some, List,
  [], ◌∷◌, length, arith,
}
use mathlib.Core.List.{Memᴰ}
use mathlib.Core.Option.{some-injective}
use sicada.Weight.{Weight, IsSemiring}
use sicada.Arc.{Arc, Label}
use sicada.Symbols.{compat_symbols}
use sicada.VectorFst.State
use sicada.VectorFst.Defs
use sicada.VectorFst.Defs.{VectorFst}
use sicada.Rational.Union.{Outcome, union}
use sicada.Rational.Graph.{Graph, graph}
use sicada.Rational.Runs.{arcs_at, Accepts}
use sicada.Rational.UnionCalls.{IsWhole, HonestStart}
use sicada.Rational.UnionCorrect.{union_language}
use sicada.Rational.Sequel.{Then}
use sicada.Rational.Closure.{ClosureType, closure}
use sicada.Rational.Closure.Correct.{Closed}
use sicada.Rational.Closure.Language.{closure_language}
use sicada.Rational.Concat.{concat, concat_onto}
use sicada.Rational.Concat.Language.{concat_language}
use sicada.Rational.Concat.OntoLanguage.{concat_onto_language}

abbrev both_or_neither : Bool → Bool → Bool
both_or_neither true b = b
both_or_neither false b = not b

instance boolean : Weight Bool
boolean = record { zero = false; one = true; plus = ◌||◌; times = ◌&&◌; eq = both_or_neither }

neither_iff : (a b : Bool) → (both_or_neither a b ≡ true) ↔ (a ≡ b)
neither_iff true true = (λ e. refl, λ e. refl)
neither_iff true false = (λ e. cc, λ e. cc)
neither_iff false true = (λ e. cc, λ e. cc)
neither_iff false false = (λ e. refl, λ e. refl)

boolean-IsSemiring : IsSemiring boolean
unfolding boolean
boolean-IsSemiring = record {
  eq_iff = neither_iff;
  plus_assoc = λ a b c. ground arith;
  plus_comm = λ a b. ground arith;
  zero_plus = λ a. ground arith;
  times_assoc = λ a b c. ground arith;
  one_times = λ a. ground arith;
  times_one = λ a. ground arith;
  zero_times = λ a. ground arith;
  times_zero = λ a. ground arith;
  times_plus = λ a b c. ground arith;
  plus_times = λ a b c. ground arith;
}

abbrev one_label : Label → VectorFst Bool
one_label l =
    Defs.set_final
      (Defs.add_arc (Defs.set_start (Defs.add_states Defs.new 2) 0) 0
        (record { ilabel = l; olabel = l; weight = true; nextstate = 1 }))
      1 true

abbrev arc_to : Label → Arc Bool
arc_to l = record { ilabel = l; olabel = l; weight = true; nextstate = 1 }

abbrev one_label_graph : Label → Graph Bool
one_label_graph l = (false, arc_to l ∷ []) ∷ (true, []) ∷ []

one_label-graph : (l : Label) → graph (one_label l) ≡ one_label_graph l
unfolding Defs.set_final Defs.add_arc State.add_arc Defs.set_start Defs.add_states Defs.new
    State.new boolean
one_label-graph l = refl

one_label-start : (l : Label) → (one_label l).start ≡ some 0
unfolding Defs.set_final Defs.add_arc State.add_arc Defs.set_start Defs.add_states Defs.new
    State.new
one_label-start l = refl

one_label-length : (l : Label) → length (one_label l).states ≡ 2
unfolding Defs.set_final Defs.add_arc State.add_arc Defs.set_start Defs.add_states Defs.new
    State.new
one_label-length l = refl

only_arc :
    (l : Label) (s : ℕ) (a : Arc Bool) → Memᴰ a (arcs_at (one_label_graph l) s) → a.nextstate ≡ 1
only_arc l zero a (Memᴰ.head e) = ap (λ (b : Arc Bool). b.nextstate) e
only_arc l zero a (Memᴰ.tail m) = elim m [ ]
only_arc l (suc zero) a m = elim m [ ]
only_arc l (suc (suc s)) a m = elim m [ ]

one_label-IsWhole : (l : Label) → IsWhole (one_label l)
one_label-IsWhole l = record {
  closed = λ s a m.
      let m' : Memᴰ a (arcs_at (one_label_graph l) s) = rw (one_label-graph l) at m in
      omega (arith, only_arc l s a m', ap length (one_label-graph l));
  start_lt = λ s e.
      let k : 0 ≡ s = some-injective 0 s (sym (one_label-start l) ∙ e) in
      omega (arith, k, one_label-length l);
}

one_label-HonestStart : (l : Label) → HonestStart (one_label l)
one_label-HonestStart l bit s r a e m k =
    let start : 0 ≡ s = some-injective 0 s (sym (one_label-start l) ∙ e) in
    let m' : Memᴰ a (arcs_at (one_label_graph l) r) = rw (one_label-graph l) at m in
    omega (arith, start, only_arc l r a m', k)

tables_agree :
    (compat_symbols (one_label 3).isymbols (one_label 4).isymbols ≡ true)
    × (compat_symbols (one_label 3).osymbols (one_label 4).osymbols ≡ true)
unfolding Defs.set_final Defs.add_arc State.add_arc Defs.set_start Defs.add_states Defs.new
    State.new compat_symbols
tables_agree = (refl, refl)

union_language_example :
    (u : VectorFst Bool) × (union (one_label 3) (one_label 4) ≡ Outcome.done u)
    × ((ins outs : List Label) (v : Bool)
        → Accepts (graph u) u.start ins outs v ↔ (
            Accepts (graph (one_label 3)) (one_label 3).start ins outs v
            ⊎ Accepts (graph (one_label 4)) (one_label 4).start ins outs v))
union_language_example =
    union_language boolean-IsSemiring (one_label 3) (one_label 4) tables_agree.0 tables_agree.1
      (one_label-IsWhole 3) (one_label-IsWhole 4) (one_label-HonestStart 3)
      (omega (arith, one_label-length 3, one_label-length 4))

true_is_not_zero : boolean.eq boolean.one boolean.zero ≡ false
unfolding boolean
true_is_not_zero = refl

closure_language_example :
    Accepts
      (graph (closure (one_label 3) ClosureType.star))
      (closure (one_label 3) ClosureType.star).start
      (3 ∷ 3 ∷ [])
      (3 ∷ 3 ∷ [])
      true
    ↔ Closed ClosureType.star
        (Accepts (graph (one_label 3)) (one_label 3).start)
        (3 ∷ 3 ∷ [])
        (3 ∷ 3 ∷ [])
        true
closure_language_example =
    closure_language boolean-IsSemiring true_is_not_zero (one_label 3) (one_label-IsWhole 3)
      (omega (arith, one_label-length 3)) ClosureType.star (3 ∷ 3 ∷ []) (3 ∷ 3 ∷ []) true

concat_language_example :
    (u : VectorFst Bool) × (concat (one_label 3) (one_label 4) ≡ Outcome.done u)
    × ((ins outs : List Label) (v : Bool)
        → Accepts (graph u) u.start ins outs v
          ↔ Then
              (Accepts (graph (one_label 3)) (one_label 3).start)
              (Accepts (graph (one_label 4)) (one_label 4).start)
              ins
              outs
              v)
concat_language_example =
    concat_language boolean-IsSemiring (one_label 3) (one_label 4) tables_agree.0 tables_agree.1
      (one_label-IsWhole 3) (one_label-IsWhole 4)

concat_onto_language_example :
    (u : VectorFst Bool) × (concat_onto (one_label 3) (one_label 4) ≡ Outcome.done u)
    × ((ins outs : List Label) (v : Bool)
        → Accepts (graph u) u.start ins outs v
          ↔ Then
              (Accepts (graph (one_label 3)) (one_label 3).start)
              (Accepts (graph (one_label 4)) (one_label 4).start)
              ins
              outs
              v)
concat_onto_language_example =
    concat_onto_language boolean-IsSemiring (one_label 3) (one_label 4) tables_agree.0
      tables_agree.1 (one_label-IsWhole 3) (one_label-IsWhole 4)
      (omega (arith, one_label-length 3, one_label-length 4))
