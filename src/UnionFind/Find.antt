-- ===== src/UnionFind/Find.antt =====
-- `find_set` of sicada/src/data_structures/union_find.rs: it answers, and answers the root.
use sicada.Prelude.{
  ℕ, ◌≡◌, refl, ◌↔◌, Option, Option-cases, none, some, List, length, arith, inl, inr,
}
use sicada.UnionFind.{UnionFind, parent_of, find_set}
use sicada.UnionFind.Forest.{Root, IsForest, Root-unique, Root-parent, find_root-Root, Root-step}
use sicada.UnionFind.Bound.{Root-lt}
use sicada.UnionFind.Compress.{Keeps, Keeps-refl, compress-Keeps}

-- `r` represents the set of `x`.
abbrev pub Represents : UnionFind → ℕ → ℕ → Type 0
Represents u x r = (n : ℕ) × Root u.parent n x r

-- The same elements have sets, and the same representatives.
pub record SameSets (u v : UnionFind) : Type 0 where
  pub represents : (x r : ℕ) → Represents u x r ↔ Represents v x r
  pub absent : (x : ℕ) → parent_of u.parent x ≡ none → parent_of v.parent x ≡ none
  pub forest : IsForest v.parent
  pub same_length : length v.parent ≡ length u.parent
  pub same_rank : v.rank ≡ u.rank

Keeps-IsForest :
    (before after : List (Option ℕ)) → Keeps before after → IsForest before → IsForest after
Keeps-IsForest before after keeps forest x p e = elim (Option-cases (parent_of before x)) [
  | inl none_before ↦ let k = keeps.absent x none_before in cc
  | inr (q, e') ↦
      let (n, r, h) = forest x q e' in let (k, _, h') = keeps.roots n x r h in (k, r, h')
]

Keeps-back :
    (before after : List (Option ℕ))
    → Keeps before after
    → IsForest before
    → (n x r : ℕ) → Root after n x r
    → (k : ℕ) × Root before k x r
Keeps-back before after keeps forest n x r h = elim (Option-cases (parent_of before x)) [
  | inl none_before ↦
      let (p, e) = Root-parent after n x r h in let k = keeps.absent x none_before in absurd cc
  | inr (q, e) ↦
      let (m, s, h') = forest x q e in
      let (k, _, h'') = keeps.roots m x s h' in
      let (_, same) = Root-unique after n k x r s h h'' in (m, rw same h')
]

Keeps-SameSets :
    (u : UnionFind) (after : List (Option ℕ))
    → IsForest u.parent
    → Keeps u.parent after
    → SameSets u (record u { parent = after })
Keeps-SameSets u after forest keeps = record {
  represents = λ x r. (
    λ (n, h). let (k, _, h') = keeps.roots n x r h in (k, h'),
    λ (n, h). Keeps-back u.parent after keeps forest n x r h,
  );
  absent = keeps.absent;
  forest = Keeps-IsForest u.parent after keeps forest;
  same_length = keeps.same_length;
  same_rank = refl;
}

-- What `find_set` answers: nothing for an element without a set, and its representative for any
-- other.
pub data Found (u : UnionFind) (x : ℕ) : Option ℕ → Type 0 where
  missing : parent_of u.parent x ≡ none → Found u x none
  found : {r : ℕ} → Represents u x r → Found u x (some r)

-- On a forest `find_set` always ends and answers the representative of the element, or that it has no
-- set; the paths that it shortens leave every set as it was.
pub find_set_correct :
    (u : UnionFind) (x : ℕ)
    → IsForest u.parent
    → (answer : Option ℕ) × (after : UnionFind) × (find_set u x ≡ some (answer, after))
      × Found u x answer
      × SameSets u after
unfolding find_set
find_set_correct u x forest = elim (Option-cases (parent_of u.parent x)) [
  | inl e ↦ (
    none,
    u,
    rw (find_set, e) refl,
    Found.missing e,
    Keeps-SameSets u u.parent forest (Keeps-refl u.parent),
  )
  | inr (p, e) ↦
      let (n, r, h) = forest x p e in
      let (k, le, h') = Root-step u.parent n x p r e h in
      let short = Root-lt u.parent n x r h in
      let root = find_root-Root u.parent (length u.parent) k p r h' (omega (arith, le, short)) in
      let (after, ok, keeps) = compress-Keeps (length u.parent) n u.parent x r h short in
      (
        some r,
        record u { parent = after },
        rw (find_set, e, root, ok) refl,
        Found.found (n, h),
        Keeps-SameSets u after forest keeps,
      )
]
