-- ===== src/Arc.antt =====
-- sicada/src/arc.rs: `ArcTpl<W, usize, usize>`, whose labels and state ids are the machine words
-- themselves, so `as_usize` and `from_usize` are the identity. Epsilon is 0, and the largest word
-- stands for no label and for no state.
use sicada.Prelude.{ℕ, ◌-◌, ◌^◌}

abbrev pub Label : Type 0
Label = ℕ

abbrev pub StateId : Type 0
StateId = ℕ

abbrev pub epsilon : Label
epsilon = 0

abbrev pub no_label : Label
no_label = 2 ^ 64 - 1

abbrev pub no_state : StateId
no_state = 2 ^ 64 - 1

pub record Arc (W : Type 0) : Type 0 where
  pub ilabel : Label
  pub olabel : Label
  pub weight : W
  pub nextstate : StateId
