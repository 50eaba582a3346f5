-- ===== src/Properties/Flags.antt =====
-- The property bits of sicada/src/properties.rs. A `u64` of bits is a test of each flag; the bits
-- with no flag (3 to 15 and 48 to 63) are never set by the code that is modelled.
use sicada.Prelude.{ℕ, Bool, false, ◌&&◌, ◌||◌, not, List, [], ◌∷◌, ◌==◌}

pub data Flag : Type 0 where
  expanded mutable error acceptor not_acceptor i_deterministic non_i_deterministic : Flag
  o_deterministic non_o_deterministic epsilons no_epsilons i_epsilons no_i_epsilons : Flag
  o_epsilons no_o_epsilons i_label_sorted not_i_label_sorted o_label_sorted : Flag
  not_o_label_sorted weighted unweighted cyclic acyclic initial_cyclic initial_acyclic : Flag
  top_sorted not_top_sorted accessible not_accessible co_accessible not_co_accessible : Flag
  string not_string weighted_cycles unweighted_cycles : Flag

-- The position of the flag's bit.
unfoldable pub flag_bit : Flag → ℕ
flag_bit expanded = 0
flag_bit mutable = 1
flag_bit error = 2
flag_bit acceptor = 16
flag_bit not_acceptor = 17
flag_bit i_deterministic = 18
flag_bit non_i_deterministic = 19
flag_bit o_deterministic = 20
flag_bit non_o_deterministic = 21
flag_bit epsilons = 22
flag_bit no_epsilons = 23
flag_bit i_epsilons = 24
flag_bit no_i_epsilons = 25
flag_bit o_epsilons = 26
flag_bit no_o_epsilons = 27
flag_bit i_label_sorted = 28
flag_bit not_i_label_sorted = 29
flag_bit o_label_sorted = 30
flag_bit not_o_label_sorted = 31
flag_bit weighted = 32
flag_bit unweighted = 33
flag_bit cyclic = 34
flag_bit acyclic = 35
flag_bit initial_cyclic = 36
flag_bit initial_acyclic = 37
flag_bit top_sorted = 38
flag_bit not_top_sorted = 39
flag_bit accessible = 40
flag_bit not_accessible = 41
flag_bit co_accessible = 42
flag_bit not_co_accessible = 43
flag_bit string = 44
flag_bit not_string = 45
flag_bit weighted_cycles = 46
flag_bit unweighted_cycles = 47

-- A `u64` of property bits.
abbrev pub Props : Type 0
Props = Flag → Bool

infixl 60 ◌&◌
infixl 58 ◌∪◌
abbrev pub ◌&◌ : Props → Props → Props
◌&◌ p q f = p f && q f

abbrev pub ◌∪◌ : Props → Props → Props
◌∪◌ p q f = p f || q f

-- `p & !q`.
abbrev pub without : Props → Props → Props
without p q f = p f && not (q f)

-- The union of single bits, as the constants are written.
unfoldable pub mask : List Flag → Props
unfolding flag_bit
mask [] f = false
mask (g ∷ gs) f = flag_bit g == flag_bit f || mask gs f
