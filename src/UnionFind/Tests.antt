-- ===== src/UnionFind/Tests.antt =====
-- The union-find of sicada/src/data_structures/union_find.rs on four elements.
use sicada.Prelude.{ℕ, ◌≡◌, refl, ◌↔◌, ◌<◌, Option, none, some, List, [], ◌∷◌}
use sicada.UnionFind.{
  UnionFind, new, parent_of, find_root, compress, find_set, link, link_found, union, make_set,
  make_all_set,
}
use sicada.UnionFind.Forest.{Root}
use sicada.UnionFind.Attach.{Together}
use sicada.UnionFind.Find.{Found, SameSets, find_set_correct}
use sicada.UnionFind.Union.{IsValid, Merged, union_correct}
use sicada.UnionFind.Sets.{make_set_correct}
use sicada.UnionFind.AllSets.{make_all_set_correct, new_lem}

abbrev empty : UnionFind
empty = new 2

abbrev four : UnionFind
four = make_all_set empty 4

four-IsValid : IsValid four
four-IsValid = (make_all_set_correct empty 4).0

empty-IsValid : IsValid empty
empty-IsValid = (new_lem 2).0

-- The chain 0, 1, 2: element 3 has no set.
abbrev chain : List (Option ℕ)
chain = some 1 ∷ some 2 ∷ some 2 ∷ none ∷ []

find_set_test :
    find_set (record { parent = chain; rank = 0 ∷ 1 ∷ 2 ∷ 0 ∷ [] }) 0
    ≡ some (
      some 2,
      record { parent = some 2 ∷ some 2 ∷ some 2 ∷ none ∷ []; rank = 0 ∷ 1 ∷ 2 ∷ 0 ∷ [] },
    )
unfolding find_set find_root compress parent_of
find_set_test = refl

union_test :
    union (record { parent = some 0 ∷ some 1 ∷ []; rank = 0 ∷ 0 ∷ [] }) 0 1
    ≡ some (record { parent = some 1 ∷ some 1 ∷ []; rank = 0 ∷ 1 ∷ [] })
unfolding union link_found link find_set find_root compress parent_of
union_test = refl

find_set_correct_example :
    (answer : Option ℕ) × (after : UnionFind) × (find_set four 3 ≡ some (answer, after))
    × Found four 3 answer
    × SameSets four after
find_set_correct_example = find_set_correct four 3 four-IsValid.forest

union_correct_example :
    (after : UnionFind) × (union four 0 2 ≡ some after)
    × IsValid after
    × ((a b : ℕ) → Together after.parent a b ↔ Merged four.parent 0 2 a b)
union_correct_example = union_correct four 0 2 four-IsValid

make_set_correct_example :
    IsValid (make_set empty 5)
    × (parent_of (make_set empty 5).parent 5 ≡ some 5)
    × (parent_of empty.parent 5 ≡ none
        → (n x r : ℕ) → Root empty.parent n x r
        → Root (make_set empty 5).parent n x r)
make_set_correct_example = make_set_correct empty 5 empty-IsValid

make_all_set_correct_example :
    IsValid (make_all_set empty 4)
    × ((a b : ℕ) → Together (make_all_set empty 4).parent a b ↔ ((a ≡ b) × (a < 4)))
make_all_set_correct_example = make_all_set_correct empty 4
