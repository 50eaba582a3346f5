-- ===== src/CompactSet/Tests.antt =====
-- Runs of compact_set.rs on small sets, and instances of the theorems.
use sicada.Prelude.{
  ℕ, ◌<◌, ◌≡◌, ◌≢◌, refl, ◌↔◌, true, false, List, [], ◌∷◌, All, arith, partition_point,
}
use mathlib.Core.List.{Memᴰ}
use sicada.CompactSet.{CompactSet, no_key, from_keys, insert, erase, is_member, insert_all}
use sicada.CompactSet.Correct.{IsValid, is_member-Mem}
use sicada.CompactSet.Erase.{erase_correct}
use sicada.CompactSet.Many.{from_keys_correct}

abbrev some_keys : List ℕ
some_keys = 7 ∷ 3 ∷ 7 ∷ 9 ∷ []

real : All (λ k. k < no_key) some_keys
real = (omega arith, (omega arith, (omega arith, (omega arith, tt))))

abbrev three_keys : CompactSet
three_keys = from_keys some_keys

three_sorted : three_keys.keys ≡ 3 ∷ 7 ∷ 9 ∷ []
unfolding insert_all insert partition_point
three_sorted = refl

gap : is_member three_keys 4 ≡ false
unfolding insert_all insert is_member partition_point
gap = refl

three_keys-IsValid : IsValid three_keys
three_keys-IsValid = (from_keys_correct some_keys real).0

from_keys_correct_example :
    IsValid three_keys × ((k : ℕ) → (is_member three_keys k ≡ true) ↔ Memᴰ k some_keys)
from_keys_correct_example = from_keys_correct some_keys real

is_member-Mem_example : (is_member three_keys 7 ≡ true) ↔ Memᴰ 7 three_keys.keys
is_member-Mem_example = is_member-Mem three_keys 7 three_keys-IsValid

erase_correct_example :
    IsValid (erase three_keys 3)
    × ((k : ℕ)
        → (is_member (erase three_keys 3) k ≡ true) ↔ ((k ≢ 3) × (is_member three_keys k ≡ true)))
erase_correct_example = erase_correct three_keys 3 three_keys-IsValid
