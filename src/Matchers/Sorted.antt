-- ===== src/Matchers/Sorted.antt =====
-- `SortedMatcher` of sicada/src/matcher.rs, and the loop over `find`, `done`, `value` and `next`
-- that its callers write, which is `match_arc` of sicada/src/algorithms/compose.rs here.
use sicada.Prelude.{
  ℕ, zero, suc, ◌+◌, Bool, true, false, not, ◌||◌, Option, none, some, List, [], ◌∷◌, length, ltb,
  leb, ◌==◌, if◌then◌else◌, get_elem?, partition_point, drop,
}
use sicada.Weight.{Weight}
use sicada.Arc.{Arc, Label, StateId, epsilon, no_label, no_state}
use sicada.Fst.{Fst}

pub data MatchType : Type 0 where
  input : MatchType
  output : MatchType
  both : MatchType
  neither : MatchType
  unknown : MatchType

module _ {W : Type 0} where
  -- The label on the side that is matched, which `extract_label` and `done` choose alike.
  abbrev pub extract_label : MatchType → Arc W → Label
  extract_label MatchType.input arc = arc.ilabel
  extract_label t arc = arc.olabel

pub record SortedMatcher (W : Type 0) : Type 0 where
  pub fst : Fst W
  pub match_type : MatchType
  pub state : Option StateId
  pub arcs : List (Arc W)
  pub pos : ℕ
  pub end : ℕ
  pub loop_arc : Arc W
  pub current_loop : Bool
  pub match_label : Label
  pub exact_match : Bool
  pub error : Bool

module _ {W : Type 0} ⦃w : Weight W⦄ where
  abbrev pub new_loop : MatchType → StateId → Arc W
  new_loop MatchType.input s = record {
    ilabel = no_label;
    olabel = epsilon;
    weight = w.one;
    nextstate = s;
  }
  new_loop t s = record { ilabel = epsilon; olabel = no_label; weight = w.one; nextstate = s }

  abbrev pub made : Fst W → MatchType → SortedMatcher W
  made fst t = record {
    fst = fst;
    match_type = t;
    state = none;
    arcs = [];
    pos = 0;
    end = 0;
    loop_arc = new_loop t no_state;
    current_loop = false;
    match_label = no_label;
    exact_match = true;
    error = false;
  }

  -- `none` is the error for a match type that is not one side.
  unfoldable pub new : Fst W → MatchType → Option (SortedMatcher W)
  new fst MatchType.input = some (made fst MatchType.input)
  new fst MatchType.output = some (made fst MatchType.output)
  new fst t = none

  unfoldable pub set_state : SortedMatcher W → StateId → SortedMatcher W
  set_state m state =
      let moved = record m {
        state = some state;
        arcs = m.fst.arcs state;
        loop_arc = record m.loop_arc { nextstate = state };
      } in
      elim m.state [ none ↦ moved | some s ↦ if s == state then m else moved ]

  unfoldable pub search : SortedMatcher W → SortedMatcher W
  unfolding partition_point
  search m =
      let start = partition_point (λ a. ltb (extract_label m.match_type a) m.match_label) m.arcs in
      let after =
        partition_point (λ a. leb (extract_label m.match_type a) m.match_label)
          (drop start m.arcs) in
      if m.exact_match
      then record m { pos = start; end = start + after }
      else record m { pos = start; end = length m.arcs }

  -- The answer, and the matcher as it is left.
  unfoldable pub find : SortedMatcher W → Label → Bool × SortedMatcher W
  unfolding search
  find m label =
      let exact = record m { exact_match = true } in
      let searched = search (record exact {
        current_loop = label == epsilon;
        match_label = if label == no_label then epsilon else label;
      }) in
      if m.error
      then (false, record exact { current_loop = false; match_label = no_label })
      else (ltb searched.pos searched.end || searched.current_loop, searched)

  -- `none` is the panic of an index out of range.
  unfoldable pub done : SortedMatcher W → Option Bool
  done m =
      if m.current_loop
      then some false
      else if leb m.end m.pos
      then some true
      else if not m.exact_match
      then some false
      else elim (get_elem? m.arcs m.pos) [
        | none ↦ none
        | some arc ↦ some (not (extract_label m.match_type arc == m.match_label))
      ]

  unfoldable pub value : SortedMatcher W → Option (Arc W)
  value m = if m.current_loop then some m.loop_arc else get_elem? m.arcs m.pos

  unfoldable pub next : SortedMatcher W → SortedMatcher W
  next m =
      if m.current_loop then record m { current_loop = false } else record m { pos = m.pos + 1 }

  unfoldable pub lower_bound : SortedMatcher W → Label → SortedMatcher W
  unfolding search
  lower_bound m label =
      let inexact = record m { exact_match = false; current_loop = false } in
      if m.error
      then record inexact { match_label = no_label }
      else search (record inexact { match_label = label })

  -- One arc in front of those of the rest of the loop, if neither part failed.
  abbrev pub pushed : Option (Arc W) → Option (List (Arc W)) → Option (List (Arc W))
  pushed none rest = none
  pushed (some a) none = none
  pushed (some a) (some rest) = some (a ∷ rest)

  -- `while !matcher.done() { out.push(matcher.value()); matcher.next(); }`. `none` is a panic, or
  -- fuel that ran out.
  unfoldable pub collect : ℕ → SortedMatcher W → Option (List (Arc W))
  unfolding done value next
  collect zero m = none
  collect (suc fuel) m =
      let rest = pushed (value m) (collect fuel (next m)) in
      elim (done m) [ none ↦ none | some stop ↦ if stop then some [] else rest ]

  -- All that is found for a label at a state. Each round uses up an arc or the loop.
  unfoldable pub find_all : SortedMatcher W → StateId → Label → Option (List (Arc W))
  unfolding set_state find collect
  find_all m state label =
      let (found, at_label) = find (set_state m state) label in
      if found then collect (length at_label.arcs + 2) at_label else some []
