-- ===== src/CompactSet/Many.antt =====
-- `from_iter` of CompactSet in sicada/src/data_structures/compact_set.rs: a set made of many keys.
use sicada.Prelude.{ℕ, ◌<◌, ◌≡◌, ◌↔◌, ◌⊎◌, true, List, [], ◌∷◌, inl, inr, All}
use mathlib.Core.List.{Memᴰ}
use sicada.CompactSet.{CompactSet, no_key, new, insert, is_member, insert_all, from_keys}
use sicada.CompactSet.Members.{Mem-cons}
use sicada.CompactSet.Correct.{IsValid, new-IsValid, is_member-Mem, insert_correct}

insert_all_correct :
    (ks : List ℕ) (s : CompactSet)
    → IsValid s
    → All (λ k. k < no_key) ks
    → IsValid (insert_all s ks)
      × ((k : ℕ) → (is_member (insert_all s ks) k ≡ true) ↔ (Memᴰ k ks ⊎ (is_member s k ≡ true)))
unfolding insert_all
insert_all_correct [] s v all =
    (v, λ k. (λ h. inr h, λ h. elim h [ inl m ↦ elim m [ ] | inr h ↦ h ]))
insert_all_correct (x ∷ xs) s v (real, all) =
    let (v1, same1) = insert_correct s x v real in
    let (v2, same2) = insert_all_correct xs (insert s x) v1 all in
    (
      v2,
      λ k. (
        λ h. elim ((same2 k).0 h) [
          | inl m ↦ inl (Memᴰ.tail m)
          | inr h ↦ elim ((same1 k).0 h) [ inl e ↦ inl (Memᴰ.head e) | inr h ↦ inr h ]
        ],
        λ h. elim h [
          | inl m ↦ elim (Mem-cons k x xs m) [
            | inl e ↦ (same2 k).1 (inr ((same1 k).1 (inl e)))
            | inr m ↦ (same2 k).1 (inl m)
          ]
          | inr h ↦ (same2 k).1 (inr ((same1 k).1 (inr h)))
        ],
      ),
    )

-- A set made of keys, none of them the one that stands for none, is valid and has exactly those keys
-- as members, in whatever order and however often they come.
pub from_keys_correct :
    (ks : List ℕ)
    → All (λ k. k < no_key) ks
    → IsValid (from_keys ks) × ((k : ℕ) → (is_member (from_keys ks) k ≡ true) ↔ Memᴰ k ks)
from_keys_correct ks all =
    let (v, same) = insert_all_correct ks new new-IsValid all in
    (
      v,
      λ k. (
        λ h. elim ((same k).0 h) [
          | inl m ↦ m
          | inr h ↦ elim ((is_member-Mem new k new-IsValid).0 h) [ ]
        ],
        λ m. (same k).1 (inl m),
      ),
    )
