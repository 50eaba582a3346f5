-- ===== src/UnionFind.antt =====
-- `UnionFind` of sicada/src/data_structures/union_find.rs. The word that marks an element without a
-- set is `none` in `parent`. A read without a bounds check that would fall outside, or a loop that
-- outlasts its fuel, is `none` of the outer Option: the theorems of `Find` show that neither
-- happens.
mod Forest
mod Bound
mod Compress
mod Find
mod Attach
mod Union
mod Sets
mod AllSets
mod Tests
use sicada.Prelude.{
  ℕ, zero, suc, ◌+◌, ◌*◌, ◌-◌, ◌%◌, ◌^◌, Option, none, some, List, [], ◌∷◌, ◌++◌, ◌==◌, ltb, leb,
  if◌then◌else◌, length, get_elem?, set, replicate, take, ◌>>=◌,
}

pub record UnionFind : Type 0 where
  pub parent : List (Option ℕ)
  pub rank : List ℕ

pub new : ℕ → UnionFind
new max = record { parent = replicate max none; rank = replicate max 0 }

-- The parent of an element; `none` past the end and at an element without a set.
pub parent_of : List (Option ℕ) → ℕ → Option ℕ
parent_of [] x = none
parent_of (p ∷ parent) zero = p
parent_of (p ∷ parent) (suc x) = parent_of parent x

-- The method `parent`.
pub direct_parent : UnionFind → ℕ → Option ℕ
unfolding parent_of
direct_parent u x = parent_of u.parent x

-- `while root != parent[root]`.
pub find_root : ℕ → List (Option ℕ) → ℕ → Option ℕ
unfolding parent_of
find_root zero parent root = none
find_root (suc fuel) parent root = do
  next ← parent_of parent root
  let rest = find_root fuel parent next
  if root == next then some root else rest

-- `while item != root`: everything along the way comes to point at the root.
pub compress : ℕ → List (Option ℕ) → ℕ → ℕ → Option (List (Option ℕ))
unfolding parent_of
compress zero parent item root = none
compress (suc fuel) parent item root =
    let rest =
      parent_of parent item >>= (λ next. compress fuel (set parent item (some root)) next root) in
    if item == root then some parent else rest

-- No chain of parents is longer than the number of elements.
pub find_set : UnionFind → ℕ → Option (Option ℕ × UnionFind)
unfolding find_root compress
find_set u item = elim (parent_of u.parent item) [
  | none ↦ some (none, u)
  | some next ↦ do
    root ← find_root (length u.parent) u.parent next
    parent ← compress (length u.parent) u.parent item root
    some (some root, record u { parent = parent })
]

-- Hangs the shallower tree under the deeper one. A rank is a u8, whose sum wraps, or panics with
-- overflow checks: it takes more than 2 ^ 255 calls to raise a rank so far.
pub link : UnionFind → ℕ → ℕ → Option UnionFind
link u x y =
    let linked = get_elem? u.rank x >>= (λ rank_x. get_elem? u.rank y >>= (λ rank_y. some (
      if ltb rank_y rank_x then record u { parent = set u.parent y (some x) } else record {
        parent = set u.parent x (some y);
        rank = if rank_x == rank_y then set u.rank y ((rank_y + 1) % 2 ^ 8) else u.rank;
      }))) in
    if x == y then some u else linked

-- The `if let` of `union`, after both searches.
pub link_found : UnionFind → Option ℕ → Option ℕ → Option UnionFind
unfolding link
link_found u (some root_x) (some root_y) = link u root_x root_y
link_found u none root_y = some u
link_found u (some root_x) none = some u

pub union : UnionFind → ℕ → ℕ → Option UnionFind
unfolding find_set link_found
union u x y = do
  (root_x, u1) ← find_set u x
  (root_y, u2) ← find_set u1 y
  link_found u2 root_x root_y

-- `Vec::resize`.
pub resize {ℓ} : {A : Type ℓ} → List A → ℕ → A → List A
resize xs n a = if leb n (length xs) then take n xs else xs ++ replicate (n - length xs) a

-- The resizing of `make_set`. From 2 ^ 63 on twice the element is no usize, nor could the vector be
-- allocated: the source panics there.
pub grown : UnionFind → ℕ → UnionFind
unfolding resize
grown u item =
    let new_size = if ltb 0 item then 2 * item else 2 in
    if leb (length u.parent) item
    then record { parent = resize u.parent new_size none; rank = resize u.rank new_size 0 }
    else u

pub make_set : UnionFind → ℕ → UnionFind
unfolding grown
make_set u item =
    let resized = grown u item in
    record { parent = set resized.parent item (some item); rank = set resized.rank item 0 }

-- `for i in 0..max`, from `i` on.
pub self_parents : ℕ → ℕ → List (Option ℕ) → List (Option ℕ)
self_parents zero i parent = parent
self_parents (suc n) i parent = self_parents n (suc i) (set parent i (some i))

pub zero_ranks : ℕ → ℕ → List ℕ → List ℕ
zero_ranks zero i rank = rank
zero_ranks (suc n) i rank = zero_ranks n (suc i) (set rank i 0)

pub make_all_set : UnionFind → ℕ → UnionFind
unfolding resize self_parents zero_ranks
make_all_set u max = record {
  parent = self_parents max 0 (resize u.parent max none);
  rank = zero_ranks max 0 (resize u.rank max 0);
}
