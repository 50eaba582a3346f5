-- ===== src/BitSet.antt =====
-- The bit sets of sicada/src/data_structures/bit_set.rs. A word is the list of its 64 bits, the
-- lowest first; GrowableBitSet, which only wraps a DenseBitSet, is one here. `none` is a panic.
pub mod Words
pub mod Growing
pub mod Change
pub mod Update
pub mod Relations
mod Tests
use sicada.Prelude.{
  ℕ, zero, suc, ◌+◌, ◌-◌, ◌/◌, ◌%◌, ◌^◌, ◌==◌, leb, ltb, not, ◌&&◌, ◌||◌, Bool, true, false, Option,
  none, some, List, [], ◌∷◌, ◌++◌, length, get_elem?, set, replicate, take, drop, min,
  if◌then◌else◌, ◌>>=◌,
}

abbrev pub Word : Type 0
Word = List Bool

abbrev pub zero_word : Word
zero_word = replicate 64 false

abbrev pub num_words : ℕ → ℕ
num_words domain_size = (domain_size + 63) / 64

-- `1 << i`.
abbrev pub mask : ℕ → Word
mask i = set zero_word i true

-- An operation on each pair of bits.
abbrev pub bitwise : (Bool → Bool → Bool) → Word → Word → Word
bitwise op [] v = []
bitwise op (a ∷ w) [] = []
bitwise op (a ∷ w) (b ∷ v) = op a b ∷ bitwise op w v

abbrev pub and_not : Bool → Bool → Bool
and_not a b = a && not b

abbrev pub is_zero : Word → Bool
is_zero [] = true
is_zero (a ∷ w) = not a && is_zero w

abbrev pub same_bit : Bool → Bool → Bool
same_bit true b = b
same_bit false b = not b

abbrev pub same_word : Word → Word → Bool
same_word [] v = true
same_word (a ∷ w) [] = true
same_word (a ∷ w) (b ∷ v) = same_bit a b && same_word w v

pub record DenseBitSet : Type 0 where
  pub domain_size : ℕ
  pub words : List Word

abbrev pub new_empty : ℕ → DenseBitSet
new_empty domain_size = record {
  domain_size = domain_size;
  words = replicate (num_words domain_size) zero_word;
}

abbrev pub dense_contains : DenseBitSet → ℕ → Option Bool
dense_contains s index =
    if ltb index s.domain_size
    then (get_elem? s.words (index / 64) >>= λ w.
        some (not (is_zero (bitwise (◌&&◌) w (mask (index % 64))))))
    else none

-- The set with the word written back, and whether it changed.
abbrev pub written : DenseBitSet → ℕ → Word → Word → DenseBitSet × Bool
written s word_index old word =
    (record s { words = set s.words word_index word }, not (same_word old word))

abbrev pub dense_insert : DenseBitSet → ℕ → Option (DenseBitSet × Bool)
dense_insert s index =
    if ltb index s.domain_size
    then (get_elem? s.words (index / 64) >>= λ w.
        some (written s (index / 64) w (bitwise (◌||◌) w (mask (index % 64)))))
    else none

abbrev pub dense_remove : DenseBitSet → ℕ → Option (DenseBitSet × Bool)
dense_remove s index =
    if ltb index s.domain_size
    then (get_elem? s.words (index / 64) >>= λ w.
        some (written s (index / 64) w (bitwise and_not w (mask (index % 64)))))
    else none

-- The words of `ensure`, which only ever adds some.
abbrev pub grown_words : List Word → ℕ → List Word
grown_words words required_words =
    if ltb (length words) required_words
    then words ++ replicate (required_words - length words) zero_word
    else words

-- `ensure` of the growable set.
abbrev pub ensure : DenseBitSet → ℕ → DenseBitSet
ensure s min_domain_size =
    if ltb s.domain_size min_domain_size
    then record {
      domain_size = min_domain_size;
      words = grown_words s.words (num_words min_domain_size);
    }
    else s

-- `index + 1` overflows at the largest usize: with overflow checks that is a panic, and without them
-- the sum is 0, the set does not grow, and the bound check of the insertion panics.
unfoldable pub insert : DenseBitSet → ℕ → Option (DenseBitSet × Bool)
insert s index =
    if ltb (index + 1) (2 ^ 64) then dense_insert (ensure s (index + 1)) index else none

unfoldable pub remove : DenseBitSet → ℕ → Option (DenseBitSet × Bool)
remove s index = if leb s.domain_size index then some (s, false) else dense_remove s index

unfoldable pub contains : DenseBitSet → ℕ → Option Bool
contains s index = if leb s.domain_size index then some false else dense_contains s index

-- `update_words`: the words of the first list, and whether any of them changed. Both lists have the
-- same length there.
abbrev pub update_words : (Bool → Bool → Bool) → List Word → List Word → List Word × Bool
update_words op [] vs = ([], false)
update_words op (w ∷ ws) [] = ([], false)
update_words op (w ∷ ws) (v ∷ vs) =
    let rest = update_words op ws vs in
    (bitwise op w v ∷ rest.0, not (same_word w (bitwise op w v)) || rest.1)

-- The first `n` words are updated.
abbrev pub update_first : (Bool → Bool → Bool) → DenseBitSet → DenseBitSet → ℕ → DenseBitSet × Bool
update_first op s other n =
    let updated = update_words op (take n s.words) (take n other.words) in
    (record s { words = updated.0 ++ drop n s.words }, updated.1)

-- A slice beyond the words panics.
unfoldable pub union : DenseBitSet → DenseBitSet → Option (DenseBitSet × Bool)
union s other =
    let grown = ensure s other.domain_size in
    let min_words = length other.words in
    if leb min_words (length grown.words)
    then some (update_first (◌||◌) grown other min_words)
    else none

unfoldable pub subtract : DenseBitSet → DenseBitSet → DenseBitSet × Bool
subtract s other = update_first and_not s other (min (length s.words) (length other.words))

abbrev pub any_set : List Word → Bool
any_set [] = false
any_set (w ∷ ws) = not (is_zero w) || any_set ws

unfoldable pub intersect : DenseBitSet → DenseBitSet → DenseBitSet × Bool
intersect s other =
    let min_words = min (length s.words) (length other.words) in
    let updated = update_words (◌&&◌) (take min_words s.words) (take min_words other.words) in
    let rest = drop min_words s.words in
    let cleared = any_set rest in
    (
      record s {
        words = updated.0 ++ (if cleared then replicate (length rest) zero_word else rest);
      },
      updated.1 || cleared,
    )
