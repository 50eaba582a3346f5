-- ===== src/UnionFind/Attach.antt =====
-- Hanging one root under another, the step that `link` of
-- sicada/src/data_structures/union_find.rs takes.
use sicada.Prelude.{
  ℕ, zero, suc, ◌≡◌, ◌≢◌, refl, sym, ◌∙◌, ◌↔◌, ◌⊎◌, ◌==◌, ==_iff, ==-false, eq_or_ne, Option, some,
  List, set, arith, inl, inr, if◌then◌else◌,
}
use mathlib.Core.Option.{some-injective}
use sicada.UnionFind.{parent_of}
use sicada.UnionFind.Forest.{Root, IsForest, Root-unique, Root-parent}
use sicada.UnionFind.Compress.{parent_of-set_self, parent_of-set_ne}

-- The root of an element after `child` was hung under `top`.
abbrev pub moved : ℕ → ℕ → ℕ → ℕ
moved child top r = if r == child then top else r

-- Two elements with the same root.
abbrev pub Together : List (Option ℕ) → ℕ → ℕ → Type 0
Together parent a b = (r : ℕ) × ((n : ℕ) × Root parent n a r) × ((m : ℕ) × Root parent m b r)

moved-eq :
    (child top r s : ℕ)
    → moved child top r ≡ moved child top s
    → (r ≡ s) ⊎ (((r ≡ child) × (s ≡ top)) ⊎ ((r ≡ top) × (s ≡ child)))
moved-eq child top r s e = ground arith

-- The root that an element shares with a root is that root.
Together-fixed :
    (parent : List (Option ℕ)) (a r : ℕ)
    → parent_of parent r ≡ some r
    → Together parent a r ↔ ((n : ℕ) × Root parent n a r)
Together-fixed parent a r is_root = (
  λ (s, (n, h), (m, k)).
      let (_, same) = Root-unique parent 0 m r r s (is_root, refl) k in (n, rw same h),
  λ h. (r, h, (0, (is_root, refl))),
)

pub Together-comm : (parent : List (Option ℕ)) (a b : ℕ) → Together parent a b → Together parent b a
Together-comm parent a b (r, h, k) = (r, k, h)

pub Together-trans :
    (parent : List (Option ℕ)) (a b c : ℕ)
    → Together parent a b
    → Together parent b c
    → Together parent a c
Together-trans parent a b c (r, h, (n, k)) (s, (m, k'), (l, h')) =
    let (_, same) = Root-unique parent n m b r s k k' in (r, h, (l, rw same h'))

module _ (parent : List (Option ℕ)) (child top : ℕ) where
  attach-Root :
      parent_of parent child ≡ some child
      → parent_of parent top ≡ some top
      → child ≢ top
      → (n x r : ℕ) → Root parent n x r
      → (k : ℕ) × Root (set parent child (some top)) k x (moved child top r)
  attach-Root is_child is_top ne zero x r (e, same) = elim (eq_or_ne r child) [
    | inl k ↦
        let k' : x ≡ child = same ∙ k in
        rw (k', k, (==_iff child child).1 refl)
          (
            1,
            (
              top,
              parent_of-set_self parent child child (some top) is_child,
              ne,
              (parent_of-set_ne parent child top (some top) ne ∙ is_top, refl),
            ),
          )
    | inr k ↦
        rw (==-false r child k)
          (0, (parent_of-set_ne parent child x (some top) (λ e'. k (sym (e' ∙ same))) ∙ e, same))
  ]
  attach-Root is_child is_top ne (suc n) x r (p, e, step, rest) =
      let (k, h) = attach-Root is_child is_top ne n p r rest in
      let other : child ≢ x = λ c.
        let is_x : parent_of parent x ≡ some x = rw⁻¹ c is_child in
        step (some-injective _ _ (sym is_x ∙ e)) in
      (suc k, (p, parent_of-set_ne parent child x (some top) other ∙ e, step, h))

  -- An element that has a set afterwards had one before.
  attach-back :
      parent_of parent child ≡ some child
      → (x p : ℕ) → parent_of (set parent child (some top)) x ≡ some p
      → (q : ℕ) × (parent_of parent x ≡ some q)
  attach-back is_child x p e = elim (eq_or_ne child x) [
    | inl k ↦ (child, rw (← k) is_child)
    | inr k ↦ (p, sym (parent_of-set_ne parent child x (some top) k) ∙ e)
  ]

  pub attach-IsForest :
      parent_of parent child ≡ some child
      → parent_of parent top ≡ some top
      → child ≢ top
      → IsForest parent
      → IsForest (set parent child (some top))
  attach-IsForest is_child is_top ne forest x p e =
      let (q, e') = attach-back is_child x p e in
      let (n, r, h) = forest x q e' in
      let (k, h') = attach-Root is_child is_top ne n x r h in (k, moved child top r, h')

  before_attach :
      parent_of parent child ≡ some child
      → parent_of parent top ≡ some top
      → child ≢ top
      → IsForest parent
      → (n x r : ℕ) → Root (set parent child (some top)) n x r
      → (s : ℕ) × ((m : ℕ) × Root parent m x s) × (moved child top s ≡ r)
  before_attach is_child is_top ne forest n x r h =
      let (p, e) = Root-parent (set parent child (some top)) n x r h in
      let (q, e') = attach-back is_child x p e in
      let (m, s, h') = forest x q e' in
      let (k, h'') = attach-Root is_child is_top ne m x s h' in
      let (_, same) = Root-unique (set parent child (some top)) k n x (moved child top s) r h'' h in
      (s, (m, h'), same)

  joined :
      parent_of parent child ≡ some child
      → parent_of parent top ≡ some top
      → child ≢ top
      → (a b : ℕ) → Together parent a child
      → Together parent b top
      → Together (set parent child (some top)) a b
  joined is_child is_top ne a b h k =
      let (n, to_child) = (Together-fixed parent a child is_child).0 h in
      let (m, to_top) = (Together-fixed parent b top is_top).0 k in
      let at_child : moved child top child ≡ top = rw ((==_iff child child).1 refl) refl in
      let at_top : moved child top top ≡ top = rw (==-false top child (λ e. ne (sym e))) refl in
      (
        top,
        rw at_child at (attach-Root is_child is_top ne n a child to_child),
        rw at_top at (attach-Root is_child is_top ne m b top to_top),
      )

  -- The sets of the two roots become one, and nothing else changes.
  pub attach-Together :
      parent_of parent child ≡ some child
      → parent_of parent top ≡ some top
      → child ≢ top
      → IsForest parent
      → (a b : ℕ)
      → Together (set parent child (some top)) a b ↔ (
          Together parent a b
          ⊎ ((Together parent a child × Together parent b top)
              ⊎ (Together parent a top × Together parent b child)))
  attach-Together is_child is_top ne forest a b = (
    λ (r, (n, h), (m, k)).
        let (s, to_s, e) = before_attach is_child is_top ne forest n a r h in
        let (t, to_t, e') = before_attach is_child is_top ne forest m b r k in
        elim (moved-eq child top s t (e ∙ sym e')) [
          | inl same ↦ inl (s, to_s, rw same to_t)
          | inr split ↦ inr (elim split [
            | inl (k1, k2) ↦ inl (
              (Together-fixed parent a child is_child).1 (rw k1 at to_s),
              (Together-fixed parent b top is_top).1 (rw k2 at to_t),
            )
            | inr (k1, k2) ↦ inr (
              (Together-fixed parent a top is_top).1 (rw k1 at to_s),
              (Together-fixed parent b child is_child).1 (rw k2 at to_t),
            )
          ])
        ],
    λ h. elim h [
      | inl (r, (n, h1), (m, h2)) ↦ (
        moved child top r,
        attach-Root is_child is_top ne n a r h1,
        attach-Root is_child is_top ne m b r h2,
      )
      | inr split ↦ elim split [
        | inl (h1, h2) ↦ joined is_child is_top ne a b h1 h2
        | inr (h1, h2) ↦
            Together-comm (set parent child (some top)) b a (joined is_child is_top ne b a h2 h1)
      ]
    ],
  )
