-- ===== src/CompactSet.antt =====
-- CompactSet of sicada/src/data_structures/compact_set.rs, over usize keys: a sorted vector with its
-- bounds beside it.
pub mod Keys
pub mod Members
pub mod Dense
pub mod Correct
pub mod Erase
pub mod Many
mod Tests
use sicada.Prelude.{
  ℕ, zero, suc, ◌+◌, ◌-◌, ◌^◌, ◌==◌, ltb, leb, ◌&&◌, ◌||◌, Bool, true, false, Option, none, some,
  List, [], ◌∷◌, length, get_elem?, partition_point, if◌then◌else◌,
}

-- The largest word stands for no key.
abbrev pub no_key : ℕ
no_key = 2 ^ 64 - 1

pub record CompactSet : Type 0 where
  pub keys : List ℕ
  pub min_key : ℕ
  pub max_key : ℕ

abbrev pub new : CompactSet
new = record { keys = []; min_key = no_key; max_key = no_key }

abbrev pub clear : CompactSet → CompactSet
clear s = new

-- The answer of the standard library's `binary_search` on sorted keys: where the key is, or where it
-- belongs.
pub data Search : Type 0 where
  ok : ℕ → Search
  err : ℕ → Search

abbrev pub found : ℕ → ℕ → Option ℕ → Search
found key i none = Search.err i
found key i (some x) = if x == key then Search.ok i else Search.err i

abbrev pub binary_search : ℕ → List ℕ → Search
binary_search key keys =
    let i = partition_point (λ x. ltb x key) keys in found key i (get_elem? keys i)

-- `Vec::insert` and `Vec::remove`.
abbrev pub insert_at : List ℕ → ℕ → ℕ → List ℕ
insert_at xs zero a = a ∷ xs
insert_at [] (suc i) a = a ∷ []
insert_at (x ∷ xs) (suc i) a = x ∷ insert_at xs i a

abbrev pub remove_at : List ℕ → ℕ → List ℕ
remove_at [] i = []
remove_at (x ∷ xs) zero = xs
remove_at (x ∷ xs) (suc i) = x ∷ remove_at xs i

abbrev pub with_key : List ℕ → ℕ → Search → List ℕ
with_key keys key (Search.ok i) = keys
with_key keys key (Search.err i) = insert_at keys i key

unfoldable pub insert : CompactSet → ℕ → CompactSet
insert s key = record {
  keys = with_key s.keys key (binary_search key s.keys);
  min_key = if s.min_key == no_key || ltb key s.min_key then key else s.min_key;
  max_key = if s.max_key == no_key || ltb s.max_key key then key else s.max_key;
}

-- `self.keys[0]` and the last of the keys, which are not empty there.
abbrev pub first_key : List ℕ → ℕ
first_key [] = no_key
first_key (x ∷ xs) = x

abbrev pub last_key : List ℕ → ℕ
last_key [] = no_key
last_key (x ∷ []) = x
last_key (x ∷ y ∷ xs) = last_key (y ∷ xs)

abbrev pub is_nil : List ℕ → Bool
is_nil [] = true
is_nil (x ∷ xs) = false

-- The bounds after the key went.
abbrev pub erased : CompactSet → ℕ → List ℕ → CompactSet
erased s key keys =
    if is_nil keys
    then new
    else if key == s.min_key
    then record s { keys = keys; min_key = first_key keys }
    else if key == s.max_key
    then record s { keys = keys; max_key = last_key keys }
    else record s { keys = keys }

abbrev pub erase_found : CompactSet → ℕ → Search → CompactSet
erase_found s key (Search.err i) = s
erase_found s key (Search.ok i) = erased s key (remove_at s.keys i)

unfoldable pub erase : CompactSet → ℕ → CompactSet
erase s key = erase_found s key (binary_search key s.keys)

-- The number of keys from `min` to `max`; `none` where it is negative or no word.
abbrev pub span : ℕ → ℕ → Option ℕ
span min max =
    if leb min (max + 1) && ltb (max + 1 - min) (2 ^ 64) then some (max + 1 - min) else none

abbrev pub is_ok : Search → Bool
is_ok (Search.ok i) = true
is_ok (Search.err i) = false

abbrev pub same_count : Option ℕ → ℕ → Bool
same_count none n = false
same_count (some m) n = m == n

unfoldable pub is_member : CompactSet → ℕ → Bool
is_member s key =
    if s.min_key == no_key || ltb key s.min_key || ltb s.max_key key
    then false
    else if same_count (span s.min_key s.max_key) (length s.keys)
    then true
    else is_ok (binary_search key s.keys)

abbrev pub is_empty : CompactSet → Bool
is_empty s = is_nil s.keys

abbrev pub len : CompactSet → ℕ
len s = length s.keys

abbrev pub lower_bound : CompactSet → ℕ
lower_bound s = s.min_key

abbrev pub upper_bound : CompactSet → ℕ
upper_bound s = s.max_key

unfoldable pub insert_all : CompactSet → List ℕ → CompactSet
insert_all s [] = s
insert_all s (k ∷ ks) = insert_all (insert s k) ks

-- `from_iter`.
abbrev pub from_keys : List ℕ → CompactSet
from_keys ks = insert_all new ks
