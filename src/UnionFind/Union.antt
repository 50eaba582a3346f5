-- ===== src/UnionFind/Union.antt =====
-- `union` of sicada/src/data_structures/union_find.rs merges two sets and nothing else.
use sicada.Prelude.{
  ℕ, ◌≡◌, refl, sym, ap, ◌∙◌, ◌↔◌, ◌⊎◌, ◌==◌, ltb, ==_iff, ==-false, eq_or_ne, Bool, true, false,
  Bool-cases, ◌+◌, ◌%◌, ◌^◌, Option, Option-cases, none, some, List, set, length, length-set,
  get_elem?-some, arith, inl, inr, if◌then◌else◌,
}
use sicada.UnionFind.{UnionFind, parent_of, link, link_found, union}
use sicada.UnionFind.Forest.{IsForest, Root-fixed, Root-parent}
use sicada.UnionFind.Bound.{parent_of-lt}
use sicada.UnionFind.Find.{Represents, SameSets, Found, find_set_correct}
use sicada.UnionFind.Attach.{
  Together, Together-comm, Together-trans, attach-Together, attach-IsForest,
}

pub record IsValid (u : UnionFind) : Type 0 where
  pub forest : IsForest u.parent
  pub ranked : length u.rank ≡ length u.parent

SameSets-IsValid : (u v : UnionFind) → SameSets u v → IsValid u → IsValid v
SameSets-IsValid u v same valid = record {
  forest = same.forest;
  ranked = ap length same.same_rank ∙ valid.ranked ∙ sym same.same_length;
}

SameSets-Together :
    (u v : UnionFind) → SameSets u v → (a b : ℕ) → Together u.parent a b ↔ Together v.parent a b
SameSets-Together u v same a b = (
  λ (r, h, k). (r, (same.represents a r).0 h, (same.represents b r).0 k),
  λ (r, h, k). (r, (same.represents a r).1 h, (same.represents b r).1 k),
)

-- `a` and `b` were in one set, or the sets of `x` and `y` held one of them each.
abbrev pub Merged : List (Option ℕ) → ℕ → ℕ → ℕ → ℕ → Type 0
Merged parent x y a b =
    Together parent a b
    ⊎ ((Together parent a x × Together parent b y) ⊎ (Together parent a y × Together parent b x))

Merged-comm :
    (parent : List (Option ℕ)) (x y a b : ℕ) → Merged parent x y a b → Merged parent y x a b
Merged-comm parent x y a b (inl h) = inl h
Merged-comm parent x y a b (inr (inl h)) = inr (inr h)
Merged-comm parent x y a b (inr (inr h)) = inr (inl h)

Merged-self :
    (parent : List (Option ℕ)) (x y a b : ℕ) → x ≡ y → Merged parent x y a b → Together parent a b
Merged-self parent x y a b same (inl h) = h
Merged-self parent x y a b same (inr (inl (h, k))) =
    Together-trans parent a x b h (Together-comm parent b x (rw same k))
Merged-self parent x y a b same (inr (inr (h, k))) =
    Together-trans parent a y b h (Together-comm parent b y (rw⁻¹ same k))

raised_length :
    (raise : Bool) (rank : List ℕ) (y r : ℕ)
    → length (if raise then set rank y r else rank) ≡ length rank
raised_length true rank y r = length-set rank y r
raised_length false rank y r = refl

-- What `link` makes of two roots.
pub link_lem :
    (u : UnionFind) (x y : ℕ)
    → IsValid u
    → parent_of u.parent x ≡ some x
    → parent_of u.parent y ≡ some y
    → (after : UnionFind) × (link u x y ≡ some after)
      × IsValid after
      × ((a b : ℕ) → Together after.parent a b ↔ Merged u.parent x y a b)
unfolding link
link_lem u x y valid is_x is_y = elim (eq_or_ne x y) [
  | inl same ↦ (
    u,
    rw (link, (==_iff x y).1 same) refl,
    valid,
    λ a b. (λ h. inl h, Merged-self u.parent x y a b same),
  )
  | inr ne ↦
      let (rank_x, ex) =
        get_elem?-some u.rank x (omega (arith, valid.ranked, parent_of-lt u.parent x x is_x)) in
      let (rank_y, ey) =
        get_elem?-some u.rank y (omega (arith, valid.ranked, parent_of-lt u.parent y y is_y)) in
      elim (Bool-cases (ltb rank_y rank_x)) [
        | inl lt ↦ (
          record u { parent = set u.parent y (some x) },
          rw (link, ==-false x y ne, ex, ey, lt) refl,
          record {
            forest = attach-IsForest u.parent y x is_y is_x (λ e. ne (sym e)) valid.forest;
            ranked = valid.ranked ∙ sym (length-set u.parent y (some x));
          },
          λ a b.
              let (to, from) =
                attach-Together u.parent y x is_y is_x (λ e. ne (sym e)) valid.forest a b in
              (
                λ h. Merged-comm u.parent y x a b (to h),
                λ h. from (Merged-comm u.parent x y a b h),
              ),
        )
        | inr ge ↦ (
          record {
            parent = set u.parent x (some y);
            rank = if rank_x == rank_y then set u.rank y ((rank_y + 1) % 2 ^ 8) else u.rank;
          },
          rw (link, ==-false x y ne, ex, ey, ge) refl,
          record {
            forest = attach-IsForest u.parent x y is_x is_y ne valid.forest;
            ranked =
                raised_length (rank_x == rank_y) u.rank y ((rank_y + 1) % 2 ^ 8)
                ∙ valid.ranked
                ∙ sym (length-set u.parent x (some y));
          },
          λ a b. attach-Together u.parent x y is_x is_y ne valid.forest a b,
        )
      ]
]

-- Merging with the representatives is merging with the elements, in any forest with the same sets.
Merged-SameSets :
    (u v : UnionFind) (x y rx ry a b : ℕ)
    → SameSets u v
    → Together u.parent x rx
    → Together u.parent y ry
    → Merged v.parent rx ry a b ↔ Merged u.parent x y a b
Merged-SameSets u v x y rx ry a b same hx hy = (
  λ h. elim h [
    | inl k ↦ inl (to a b k)
    | inr (inl (k, l)) ↦ inr (inl (back a x rx hx (to a rx k), back b y ry hy (to b ry l)))
    | inr (inr (k, l)) ↦ inr (inr (back a y ry hy (to a ry k), back b x rx hx (to b rx l)))
  ],
  λ h. elim h [
    | inl k ↦ inl (forth a b k)
    | inr (inl (k, l)) ↦ inr (
        inl (
          forth a rx (Together-trans u.parent a x rx k hx),
          forth b ry (Together-trans u.parent b y ry l hy),
        ))
    | inr (inr (k, l)) ↦ inr (
        inr (
          forth a ry (Together-trans u.parent a y ry k hy),
          forth b rx (Together-trans u.parent b x rx l hx),
        ))
  ],
)
  where
    forth : (c d : ℕ) → Together u.parent c d → Together v.parent c d
    forth c d = (SameSets-Together u v same c d).0

    to : (c d : ℕ) → Together v.parent c d → Together u.parent c d
    to c d = (SameSets-Together u v same c d).1

    back : (c z r : ℕ) → Together u.parent z r → Together u.parent c r → Together u.parent c z
    back c z r hz hc = Together-trans u.parent c r z hc (Together-comm u.parent z r hz)

alone : (parent : List (Option ℕ)) (c z : ℕ) → parent_of parent z ≡ none → Together parent c z → ⊥
alone parent c z e (r, h, (n, k)) = let (p, e') = Root-parent parent n z r k in cc

-- Where one of the two has no set, the sets stay as they were.
Merged-alone :
    (parent : List (Option ℕ)) (x y a b : ℕ)
    → (parent_of parent x ≡ none) ⊎ (parent_of parent y ≡ none)
    → Merged parent x y a b
    → Together parent a b
Merged-alone parent x y a b e (inl h) = h
Merged-alone parent x y a b (inl e) (inr (inl (h, k))) = absurd (alone parent a x e h)
Merged-alone parent x y a b (inl e) (inr (inr (h, k))) = absurd (alone parent b x e k)
Merged-alone parent x y a b (inr e) (inr (inl (h, k))) = absurd (alone parent b y e k)
Merged-alone parent x y a b (inr e) (inr (inr (h, k))) = absurd (alone parent a y e h)

SameSets-trans : (u v t : UnionFind) → SameSets u v → SameSets v t → SameSets u t
SameSets-trans u v t h k = record {
  represents = λ x r. (
    λ a. (k.represents x r).0 ((h.represents x r).0 a),
    λ a. (h.represents x r).1 ((k.represents x r).1 a),
  );
  absent = λ x e. k.absent x (h.absent x e);
  forest = k.forest;
  same_length = k.same_length ∙ h.same_length;
  same_rank = k.same_rank ∙ h.same_rank;
}

root_of : (u : UnionFind) (x r : ℕ) → Represents u x r → parent_of u.parent r ≡ some r
root_of u x r (n, h) = Root-fixed u.parent n x r h

with_root : (u : UnionFind) (x r : ℕ) → Represents u x r → Together u.parent x r
with_root u x r h = (r, h, (0, (root_of u x r h, refl)))

absent_before :
    (u v : UnionFind)
    → SameSets u v
    → (y : ℕ) → IsValid u
    → parent_of v.parent y ≡ none
    → parent_of u.parent y ≡ none
absent_before u v same y valid e = elim (Option-cases (parent_of u.parent y)) [
  | inl e' ↦ e'
  | inr (p, e') ↦
      let (n, r, h) = valid.forest y p e' in
      let (m, h') = (same.represents y r).0 (n, h) in
      let (q, e'') = Root-parent v.parent m y r h' in absurd cc
]

-- What `union` does after the two searches.
link_found_lem :
    (u u1 u2 : UnionFind) (x y : ℕ) (ax ay : Option ℕ)
    → IsValid u
    → SameSets u u1
    → SameSets u1 u2
    → Found u x ax
    → Found u1 y ay
    → (after : UnionFind) × (link_found u2 ax ay ≡ some after)
      × IsValid after
      × ((a b : ℕ) → Together after.parent a b ↔ Merged u.parent x y a b)
unfolding link_found
link_found_lem u u1 u2 x y none ay valid s1 s2 (Found.missing e) fy =
    let same = SameSets-trans u u1 u2 s1 s2 in
    (
      u2,
      refl,
      SameSets-IsValid u u2 same valid,
      λ a b. (
        λ h. inl ((SameSets-Together u u2 same a b).1 h),
        λ h. (SameSets-Together u u2 same a b).0 (Merged-alone u.parent x y a b (inl e) h),
      ),
    )
link_found_lem u u1 u2 x y (some rx) none valid s1 s2 (Found.found hx) (Found.missing e) =
    let same = SameSets-trans u u1 u2 s1 s2 in
    let absent = absent_before u u1 s1 y valid e in
    (
      u2,
      refl,
      SameSets-IsValid u u2 same valid,
      λ a b. (
        λ h. inl ((SameSets-Together u u2 same a b).1 h),
        λ h. (SameSets-Together u u2 same a b).0 (Merged-alone u.parent x y a b (inr absent) h),
      ),
    )
link_found_lem u u1 u2 x y (some rx) (some ry) valid s1 s2 (Found.found hx) (Found.found hy) =
    let same = SameSets-trans u u1 u2 s1 s2 in
    let hy' = (s1.represents y ry).1 hy in
    let is_x = root_of u2 x rx ((same.represents x rx).0 hx) in
    let is_y = root_of u2 y ry ((same.represents y ry).0 hy') in
    let (after, ok, valid', merged) =
      link_lem u2 rx ry (SameSets-IsValid u u2 same valid) is_x is_y in
    (
      after,
      ok,
      valid',
      λ a b.
          let (to, from) =
            Merged-SameSets u u2 x y rx ry a b same (with_root u x rx hx) (with_root u y ry hy') in
          (λ h. to ((merged a b).0 h), λ h. (merged a b).1 (from h)),
    )

-- `union` always ends; afterwards two elements are in one set exactly when they were before, or when
-- one was in the set of `x` and the other in the set of `y`. With an element that has no set nothing
-- is merged. The forest stays valid.
pub union_correct :
    (u : UnionFind) (x y : ℕ)
    → IsValid u
    → (after : UnionFind) × (union u x y ≡ some after)
      × IsValid after
      × ((a b : ℕ) → Together after.parent a b ↔ Merged u.parent x y a b)
unfolding union
union_correct u x y valid =
    let (ax, u1, e1, fx, same1) = find_set_correct u x valid.forest in
    let (ay, u2, e2, fy, same2) = find_set_correct u1 y same1.forest in
    let (after, ok, valid', merged) = link_found_lem u u1 u2 x y ax ay valid same1 same2 fx fy in
    (after, rw (union, e1, e2) ok, valid', merged)
