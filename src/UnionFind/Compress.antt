-- ===== src/UnionFind/Compress.antt =====
-- The path compression of `find_set` keeps every element's root.
use sicada.Prelude.{
  ℕ, zero, suc, ◌≡◌, ◌≢◌, refl, ap, ◌∙◌, ◌<◌, ◌≤◌, ==_iff, ==-false, eq_or_ne, inl, inr, Option,
  none, some, List, [], ◌∷◌, length, set, length-set, arith,
}
use sicada.UnionFind.{parent_of, compress}
use sicada.UnionFind.Forest.{Root, Root-fixed, Root-unique, Root-parent}

pub parent_of-set_self :
    (parent : List (Option ℕ)) (x p : ℕ) (v : Option ℕ)
    → parent_of parent x ≡ some p
    → parent_of (set parent x v) x ≡ v
unfolding parent_of
parent_of-set_self [] x p v e = cc
parent_of-set_self (q ∷ parent) zero p v e = refl
parent_of-set_self (q ∷ parent) (suc x) p v e = parent_of-set_self parent x p v e

pub parent_of-set_ne :
    (parent : List (Option ℕ)) (x y : ℕ) (v : Option ℕ)
    → x ≢ y
    → parent_of (set parent x v) y ≡ parent_of parent y
unfolding parent_of
parent_of-set_ne [] x y v ne = refl
parent_of-set_ne (q ∷ parent) zero zero v ne = absurd (ne refl)
parent_of-set_ne (q ∷ parent) zero (suc y) v ne = refl
parent_of-set_ne (q ∷ parent) (suc x) zero v ne = refl
parent_of-set_ne (q ∷ parent) (suc x) (suc y) v ne =
    parent_of-set_ne parent x y v (λ e. ne (ap suc e))

-- Every element keeps its root, at no greater distance, and no element gets a set.
pub record Keeps (before after : List (Option ℕ)) : Type 0 where
  pub roots : (n x r : ℕ) → Root before n x r → (k : ℕ) × (k ≤ n) × Root after k x r
  pub absent : (x : ℕ) → parent_of before x ≡ none → parent_of after x ≡ none
  pub same_length : length after ≡ length before

pub Keeps-refl : (parent : List (Option ℕ)) → Keeps parent parent
Keeps-refl parent = record {
  roots = λ n x r h. (n, omega arith, h);
  absent = λ x e. e;
  same_length = refl;
}

Keeps-trans :
    (before between after : List (Option ℕ))
    → Keeps before between
    → Keeps between after
    → Keeps before after
Keeps-trans before between after h h' = record {
  roots = λ n x r root.
      let (k, le, there) = h.roots n x r root in
      let (k', le', there') = h'.roots k x r there in (k', omega (arith, le, le'), there');
  absent = λ x e. h'.absent x (h.absent x e);
  same_length = h'.same_length ∙ h.same_length;
}

-- Pointing an element at its root.
module _ (parent : List (Option ℕ)) (item root distance : ℕ) where
  point_self :
      Root parent distance item root → item ≢ root → Root (set parent item (some root)) 1 item root
  point_self there ne =
      let (p, e) = Root-parent parent distance item root there in
      let stays = parent_of-set_ne parent item root (some root) ne in
      (
        root,
        parent_of-set_self parent item p (some root) e,
        ne,
        (stays ∙ Root-fixed parent distance item root there, refl),
      )

  point-Root :
      Root parent distance item root
      → item ≢ root
      → (n x r : ℕ) → Root parent n x r
      → (k : ℕ) × (k ≤ n) × Root (set parent item (some root)) k x r
  point-Root there ne zero x r (e, same) = elim (eq_or_ne item x) [
    | inl k ↦
        let there' : Root parent distance x root = rw⁻¹ k there in
        let (_, same') = Root-unique parent 0 distance x r root (e, same) there' in
        absurd (ne (k ∙ same ∙ same'))
    | inr k ↦ (0, omega arith, (parent_of-set_ne parent item x (some root) k ∙ e, same))
  ]
  point-Root there ne (suc n) x r (p, e, step, rest) = elim (eq_or_ne item x) [
    | inl k ↦
        let there' : Root parent distance x root = rw⁻¹ k there in
        let (_, same') = Root-unique parent (suc n) distance x r root (p, e, step, rest) there' in
        (1, omega arith, rw (← k, same') (point_self there ne))
    | inr k ↦
        let (left, le, there') = point-Root there ne n p r rest in
        (
          suc left,
          omega (arith, le),
          (p, parent_of-set_ne parent item x (some root) k ∙ e, step, there'),
        )
  ]

  point-Keeps :
      Root parent distance item root → item ≢ root → Keeps parent (set parent item (some root))
  point-Keeps there ne = record {
    roots = point-Root there ne;
    absent = λ x e. elim (eq_or_ne item x) [
      | inl k ↦
          let (p, e') = Root-parent parent distance item root there in
          let e'' : parent_of parent x ≡ some p = rw⁻¹ k e' in cc
      | inr k ↦ parent_of-set_ne parent item x (some root) k ∙ e
    ];
    same_length = length-set parent item (some root);
  }

pub compress-Keeps :
    (fuel distance : ℕ) (parent : List (Option ℕ)) (item root : ℕ)
    → Root parent distance item root
    → distance < fuel
    → (after : List (Option ℕ)) × (compress fuel parent item root ≡ some after) × Keeps parent after
unfolding compress
compress-Keeps zero distance parent item root h lt = absurd (omega (arith, lt))
compress-Keeps (suc fuel) zero parent item root (e, same) lt =
    (parent, rw (compress, (==_iff item root).1 same) refl, Keeps-refl parent)
compress-Keeps (suc fuel) (suc distance) parent item root (p, e, step, rest) lt =
    elim (eq_or_ne item root) [
      | inl same ↦ (parent, rw (compress, (==_iff item root).1 same) refl, Keeps-refl parent)
      | inr ne ↦
          let pointed = set parent item (some root) in
          let h : Root parent (suc distance) item root = (p, e, step, rest) in
          let (left, le, there) =
            point-Root parent item root (suc distance) h ne distance p root rest in
          let (after, ok, keeps) =
            compress-Keeps fuel left pointed p root there (omega (arith, le, lt)) in
          (
            after,
            rw (compress, ==-false item root ne, e) ok,
            Keeps-trans parent pointed after (point-Keeps parent item root (suc distance) h ne)
                keeps,
          )
    ]
