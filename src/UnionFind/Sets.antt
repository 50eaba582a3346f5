-- ===== src/UnionFind/Sets.antt =====
-- `new`, `make_set` and `make_all_set` of sicada/src/data_structures/union_find.rs.
use sicada.Prelude.{
  ℕ, zero, suc, ◌-◌, ◌*◌, ◌≡◌, ◌≢◌, refl, sym, ◌∙◌, ◌≤◌, ◌<◌, ltb, leb, leb_iff, eq_or_ne, false,
  Bool-cases, Option, none, some, List, [], ◌∷◌, ◌++◌, set, length, length-set, length-append,
  length-replicate, length-take, replicate, arith, inl, inr, if◌then◌else◌,
}
use sicada.UnionFind.{UnionFind, parent_of, resize, grown, make_set}
use sicada.UnionFind.Forest.{Root, IsForest}
use sicada.UnionFind.Compress.{parent_of-set_ne}
use sicada.UnionFind.Union.{IsValid}

pub parent_of-set_in :
    (parent : List (Option ℕ)) (x : ℕ) (v : Option ℕ)
    → x < length parent
    → parent_of (set parent x v) x ≡ v
unfolding parent_of
parent_of-set_in [] x v h = absurd (omega (arith, h))
parent_of-set_in (q ∷ parent) zero v h = refl
parent_of-set_in (q ∷ parent) (suc x) v h = parent_of-set_in parent x v (omega (arith, h))

pub parent_of-replicate : (n x : ℕ) → parent_of (replicate n none) x ≡ none
unfolding parent_of
parent_of-replicate zero x = refl
parent_of-replicate (suc n) zero = refl
parent_of-replicate (suc n) (suc x) = parent_of-replicate n x

-- Empty slots at the end change no parent.
parent_of-grow :
    (parent : List (Option ℕ)) (n x : ℕ)
    → parent_of (parent ++ replicate n none) x ≡ parent_of parent x
unfolding parent_of
parent_of-grow [] n x = parent_of-replicate n x
parent_of-grow (p ∷ parent) n zero = refl
parent_of-grow (p ∷ parent) n (suc x) = parent_of-grow parent n x

parent_of-past : (parent : List (Option ℕ)) (x : ℕ) → length parent ≤ x → parent_of parent x ≡ none
unfolding parent_of
parent_of-past [] x h = refl
parent_of-past (p ∷ parent) zero h = absurd (omega (arith, h))
parent_of-past (p ∷ parent) (suc x) h = parent_of-past parent x (omega (arith, h))

-- The chain of an element depends on the parents alone.
Root-same :
    (before after : List (Option ℕ))
    → ((x : ℕ) → parent_of after x ≡ parent_of before x)
    → (n x r : ℕ) → Root before n x r
    → Root after n x r
Root-same before after same zero x r (e, k) = (same x ∙ e, k)
Root-same before after same (suc n) x r (p, e, ne, rest) =
    (p, same x ∙ e, ne, Root-same before after same n p r rest)

module _ (parent : List (Option ℕ)) (item : ℕ) (bound : item < length parent) where
  cut_self : (x : ℕ) → item ≡ x → parent_of (set parent item (some item)) x ≡ some x
  cut_self x k = rw (← k) (parent_of-set_in parent item (some item) bound)

  -- Cutting an element off leaves every chain with an end.
  cut-Root :
      (n x r : ℕ) → Root parent n x r → (k : ℕ) × (s : ℕ) × Root (set parent item (some item)) k x s
  cut-Root zero x r (e, same) = elim (eq_or_ne item x) [
    | inl k ↦ (0, x, (cut_self x k, refl))
    | inr k ↦ (0, x, (parent_of-set_ne parent item x (some item) k ∙ e, refl))
  ]
  cut-Root (suc n) x r (p, e, step, rest) = elim (eq_or_ne item x) [
    | inl k ↦ (0, x, (cut_self x k, refl))
    | inr k ↦
        let (left, s, h) = cut-Root n p r rest in
        (suc left, s, (p, parent_of-set_ne parent item x (some item) k ∙ e, step, h))
  ]

  cut-IsForest : IsForest parent → IsForest (set parent item (some item))
  cut-IsForest forest x p e = elim (eq_or_ne item x) [
    | inl k ↦ (0, x, (cut_self x k, refl))
    | inr k ↦
        let (n, r, h) = forest x p (sym (parent_of-set_ne parent item x (some item) k) ∙ e) in
        cut-Root n x r h
  ]

  -- A new element leaves every chain as it was.
  fresh-Root :
      parent_of parent item ≡ none
      → (n x r : ℕ) → Root parent n x r
      → Root (set parent item (some item)) n x r
  fresh-Root fresh zero x r (e, same) =
      let other : item ≢ x = λ k. let e' = rw (← k) at e in cc in
      (parent_of-set_ne parent item x (some item) other ∙ e, same)
  fresh-Root fresh (suc n) x r (p, e, step, rest) =
      let other : item ≢ x = λ k. let e' = rw (← k) at e in cc in
      (p, parent_of-set_ne parent item x (some item) other ∙ e, step, fresh-Root fresh n p r rest)

pub length-resize : {A : Type 0} (xs : List A) (n : ℕ) (a : A) → length (resize xs n a) ≡ n
unfolding resize
length-resize xs n a = elim (Bool-cases (leb n (length xs))) [
  | inl e ↦ rw (resize, e) (length-take n xs ((leb_iff n (length xs)).0 e))
  | inr e ↦
      let big : length xs ≤ n = ground arith in
      rw (resize, e)
        (length-append xs (replicate (n - length xs) a)
          ∙ omega (arith, length-replicate (n - length xs) a, big))
]

-- Growing a table changes no parent.
parent_of-resize :
    (parent : List (Option ℕ)) (n x : ℕ)
    → length parent < n
    → parent_of (resize parent n none) x ≡ parent_of parent x
unfolding resize
parent_of-resize parent n x h =
    let k : leb n (length parent) ≡ false = ground arith in
    rw (resize, k) (parent_of-grow parent (n - length parent) x)

size_lt : (item : ℕ) → item < (if ltb 0 item then 2 * item else 2)
size_lt item = ground arith

-- The growth of `make_set` makes room for the element and changes no parent.
grown_lem :
    (u : UnionFind) (item : ℕ)
    → IsValid u
    → ((x : ℕ) → parent_of (grown u item).parent x ≡ parent_of u.parent x)
      × (item < length (grown u item).parent)
      × (length (grown u item).rank ≡ length (grown u item).parent)
unfolding grown
grown_lem u item valid = elim (Bool-cases (leb (length u.parent) item)) [
  | inl e ↦
      let size = if ltb 0 item then 2 * item else 2 in
      let room = size_lt item in
      let big : length u.parent ≤ item = (leb_iff (length u.parent) item).0 e in
      rw (grown, e)
        (
          λ x. parent_of-resize u.parent size x (omega (arith, room, big)),
          omega (arith, room, length-resize u.parent size none),
          length-resize u.rank size 0 ∙ sym (length-resize u.parent size none),
        )
  | inr e ↦ rw (grown, e) (λ x. refl, ground arith, valid.ranked)
]

IsForest-same :
    (before after : List (Option ℕ))
    → ((x : ℕ) → parent_of after x ≡ parent_of before x)
    → IsForest before
    → IsForest after
IsForest-same before after same forest x p e =
    let (n, r, h) = forest x p (sym (same x) ∙ e) in (n, r, Root-same before after same n x r h)

-- After `make_set` the forest is valid, whatever the element was before; an element that had no set is
-- its own representative, and the others keep theirs.
pub make_set_correct :
    (u : UnionFind) (item : ℕ)
    → IsValid u
    → IsValid (make_set u item)
      × (parent_of (make_set u item).parent item ≡ some item)
      × (parent_of u.parent item ≡ none
          → (n x r : ℕ) → Root u.parent n x r
          → Root (make_set u item).parent n x r)
unfolding make_set
make_set_correct u item valid =
    let (same, bound, ranked) = grown_lem u item valid in
    let parent = (grown u item).parent in
    (
      record {
        forest = cut-IsForest parent item bound (IsForest-same u.parent parent same valid.forest);
        ranked =
            length-set (grown u item).rank item 0
            ∙ ranked
            ∙ sym (length-set parent item (some item));
      },
      parent_of-set_in parent item (some item) bound,
      λ fresh n x r h.
          fresh-Root parent item bound (same item ∙ fresh) n x r
            (Root-same u.parent parent same n x r h),
    )
