-- ===== src/UnionFind/AllSets.antt =====
-- `new` and `make_all_set` of sicada/src/data_structures/union_find.rs.
use sicada.Prelude.{
  ℕ, zero, suc, ◌+◌, ◌≡◌, refl, sym, ◌∙◌, ◌↔◌, ◌≤◌, ◌<◌, eq_or_ne, Option, none, some, List, set,
  length, length-set, length-replicate, arith, inl, inr,
}
use mathlib.Core.Option.{some-injective}
use sicada.UnionFind.{UnionFind, new, parent_of, resize, make_all_set, self_parents, zero_ranks}
use sicada.UnionFind.Forest.{Root, IsForest}
use sicada.UnionFind.Bound.{parent_of-lt}
use sicada.UnionFind.Compress.{parent_of-set_ne}
use sicada.UnionFind.Attach.{Together}
use sicada.UnionFind.Union.{IsValid}
use sicada.UnionFind.Sets.{parent_of-set_in, parent_of-replicate, length-resize}

length-self_parents :
    (n i : ℕ) (parent : List (Option ℕ)) → length (self_parents n i parent) ≡ length parent
unfolding self_parents
length-self_parents zero i parent = refl
length-self_parents (suc n) i parent =
    length-self_parents n (suc i) (set parent i (some i)) ∙ length-set parent i (some i)

length-zero_ranks : (n i : ℕ) (rank : List ℕ) → length (zero_ranks n i rank) ≡ length rank
unfolding zero_ranks
length-zero_ranks zero i rank = refl
length-zero_ranks (suc n) i rank = length-zero_ranks n (suc i) (set rank i 0) ∙ length-set rank i 0

self_parents_before :
    (n i x : ℕ) (parent : List (Option ℕ))
    → x < i
    → parent_of (self_parents n i parent) x ≡ parent_of parent x
unfolding self_parents
self_parents_before zero i x parent h = refl
self_parents_before (suc n) i x parent h =
    self_parents_before n (suc i) x (set parent i (some i)) (omega (arith, h))
    ∙ parent_of-set_ne parent i x (some i) (λ e. omega (arith, h, e))

self_parents_in :
    (n i x : ℕ) (parent : List (Option ℕ))
    → i ≤ x
    → x < i + n
    → i + n ≤ length parent
    → parent_of (self_parents n i parent) x ≡ some x
unfolding self_parents
self_parents_in zero i x parent h k l = absurd (omega (arith, h, k))
self_parents_in (suc n) i x parent h k l = elim (eq_or_ne i x) [
  | inl e ↦ rw (← e) (
      self_parents_before n (suc i) i (set parent i (some i)) (omega arith)
      ∙ parent_of-set_in parent i (some i) (omega (arith, l)))
  | inr ne ↦
      self_parents_in n (suc i) x (set parent i (some i)) (ground (arith, h, ne)) (omega (arith, k))
        (omega (arith, l, length-set parent i (some i)))
]

-- Every element is its own representative.
module _ (parent : List (Option ℕ)) (max : ℕ) where
  own-Together :
      length parent ≡ max
      → ((x : ℕ) → x < max → parent_of parent x ≡ some x)
      → (a b : ℕ) → Together parent a b ↔ ((a ≡ b) × (a < max))
  own-Together size own a b = (
    λ (r, (n, h), (m, k)).
        let (ea, la) = own_root n a r h in let (eb, _) = own_root m b r k in (ea ∙ sym eb, la),
    λ (e, lt). (a, (0, (own a lt, refl)), rw (← e) (0, (own a lt, refl))),
  )
    where
      own_root : (n x r : ℕ) → Root parent n x r → (x ≡ r) × (x < max)
      own_root zero x r (e, same) = (same, rw size at (parent_of-lt parent x x e))
      own_root (suc n) x r (p, e, ne, rest) =
          let lt = rw size at (parent_of-lt parent x p e) in
          absurd (ne (some-injective _ _ (sym (own x lt) ∙ e)))

  own-IsForest :
      length parent ≡ max → ((x : ℕ) → x < max → parent_of parent x ≡ some x) → IsForest parent
  own-IsForest size own x p e = (0, x, (own x (rw size at (parent_of-lt parent x p e)), refl))

-- After `make_all_set` the forest is valid, and the sets are the singletons of the numbers below the
-- bound, whatever was there before.
pub make_all_set_correct :
    (u : UnionFind) (max : ℕ)
    → IsValid (make_all_set u max)
      × ((a b : ℕ) → Together (make_all_set u max).parent a b ↔ ((a ≡ b) × (a < max)))
unfolding make_all_set
make_all_set_correct u max =
    let resized = resize u.parent max none in
    let parent = self_parents max 0 resized in
    let room = length-resize u.parent max none in
    let size = length-self_parents max 0 resized ∙ room in
    let own : (x : ℕ) → x < max → parent_of parent x ≡ some x = λ x h.
      self_parents_in max 0 x resized (omega arith) (omega (arith, h)) (omega (arith, room)) in
    (
      record {
        forest = own-IsForest parent max size own;
        ranked =
            length-zero_ranks max 0 (resize u.rank max 0) ∙ length-resize u.rank max 0 ∙ sym size;
      },
      own-Together parent max size own,
    )

-- A new forest is valid and has no set.
pub new_lem : (max : ℕ) → IsValid (new max) × ((x : ℕ) → parent_of (new max).parent x ≡ none)
unfolding new
new_lem max = (
  record {
    forest = λ x p e. let k = parent_of-replicate max x in absurd cc;
    ranked = length-replicate max 0 ∙ sym (length-replicate {A = Option ℕ} max none);
  },
  parent_of-replicate max,
)
