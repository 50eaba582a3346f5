-- ===== src/CompactSet/Erase.antt =====
-- `erase` of CompactSet in sicada/src/data_structures/compact_set.rs as the removal of a key from a
-- set.
use sicada.Prelude.{
  ℕ, ◌≡◌, ◌≢◌, refl, sym, ap, ◌∙◌, ◌↔◌, ◌⊎◌, ◌==◌, ==_iff, ==-false, true, false, Bool-cases, List,
  [], ◌∷◌, inl, inr, if◌then◌else◌, arith,
}
use mathlib.Core.List.{Memᴰ}
use mathlib.Core.Path.{subst}
use sicada.CompactSet.{
  CompactSet, no_key, Search, binary_search, erased, erase_found, erase, is_ok, is_member,
}
use sicada.CompactSet.Keys.{IsSorted, without, has, is_ok-has, removed, removed-without}
use sicada.CompactSet.Members.{
  without-Mem, without-IsSorted, has-Mem, IsLeast, IsGreatest, first_key-IsLeast,
  last_key-IsGreatest,
}
use sicada.CompactSet.Correct.{IsValid, new-IsValid, is_member-Mem}

erase_found_lem :
    (s : CompactSet) (key : ℕ) (r : Search)
    → erase_found s key r ≡ (if is_ok r then erased s key (removed s.keys r) else s)
erase_found_lem s key (Search.ok i) = refl
erase_found_lem s key (Search.err i) = refl

erase_lem :
    (s : CompactSet) (key : ℕ)
    → erase s key ≡ (if has key s.keys then erased s key (without key s.keys) else s)
unfolding erase
erase_lem s key =
    let r = binary_search key s.keys in
    erase_found_lem s key r
    ∙ ap (λ b. if b then erased s key (removed s.keys r) else s) (is_ok-has key s.keys)
    ∙ ap (λ ks. if has key s.keys then erased s key ks else s) (removed-without key s.keys)

erased_keys : (s : CompactSet) (key : ℕ) (ks : List ℕ) → (erased s key ks).keys ≡ ks
erased_keys s key [] = refl
erased_keys s key (x ∷ xs) = elim (Bool-cases (key == s.min_key)) [
  | inl e ↦ rw e refl
  | inr e ↦ rw e (elim (Bool-cases (key == s.max_key)) [ inl k ↦ rw k refl | inr k ↦ rw k refl ])
]

module _ (s : CompactSet) (key : ℕ) (v : IsValid s) where
  -- A bound other than the key stays a member.
  kept : (m : ℕ) → Memᴰ m s.keys → (key == m) ≡ false → Memᴰ m (without key s.keys)
  kept m there ne =
      (without-Mem key m s.keys v.sorted).1
        (λ e. ground (arith, ne, (==_iff key m).1 (sym e)), there)

  old : (k : ℕ) → Memᴰ k (without key s.keys) → (k ≢ key) × Memᴰ k s.keys
  old k m = (without-Mem key k s.keys v.sorted).0 m

  erased-bounds :
      (x : ℕ) (xs : List ℕ)
      → without key s.keys ≡ x ∷ xs
      → IsLeast s.min_key s.keys
      → IsGreatest s.max_key s.keys
      → IsLeast (erased s key (x ∷ xs)).min_key (x ∷ xs)
        × IsGreatest (erased s key (x ∷ xs)).max_key (x ∷ xs)
  erased-bounds x xs e (low, least) (high, most) =
      let sorted : IsSorted (x ∷ xs) = subst IsSorted e (without-IsSorted key s.keys v.sorted) in
      let back = λ (k : ℕ) (m : Memᴰ k (x ∷ xs)). old k (subst (Memᴰ k) (sym e) m) in
      let forth = λ (k : ℕ) (m : Memᴰ k (without key s.keys)). subst (Memᴰ k) e m in
      elim (Bool-cases (key == s.min_key)) [
        | inl at_min ↦
            let (ne, there) = back x (Memᴰ.head refl) in
            let l = least x there in
            let g = most x there in
            let same = (==_iff key s.min_key).0 at_min in
            let apart : (key == s.max_key) ≡ false =
              ==-false key s.max_key (λ z. ne (omega (arith, z, l, g, same))) in
            rw at_min (
              first_key-IsLeast x xs sorted,
              (forth s.max_key (kept s.max_key high apart), λ k m. most k ((back k m).1)),
            )
        | inr not_min ↦
            let lower : IsLeast s.min_key (x ∷ xs) =
              (forth s.min_key (kept s.min_key low not_min), λ k m. least k ((back k m).1)) in
            rw not_min (elim (Bool-cases (key == s.max_key)) [
              | inl at_max ↦ rw at_max (lower, last_key-IsGreatest x xs sorted)
              | inr not_max ↦ rw not_max (
                lower,
                (forth s.max_key (kept s.max_key high not_max), λ k m. most k ((back k m).1)),
              )
            ])
      ]

  erased-IsValid :
      (ks : List ℕ) → without key s.keys ≡ ks → Memᴰ key s.keys → IsValid (erased s key ks)
  erased-IsValid [] e there = new-IsValid
  erased-IsValid (x ∷ xs) e there =
      let keys = erased_keys s key (x ∷ xs) in
      let (least, greatest) = some_bounds v.bounds in
      let (least', greatest') = erased-bounds x xs e least greatest in
      record {
        sorted =
            subst IsSorted (sym keys) (subst IsSorted e (without-IsSorted key s.keys v.sorted));
        real = λ k m. v.real k ((old k (subst (Memᴰ k) (sym e) (subst (Memᴰ k) keys m))).1);
        bounds = inr (
          subst (IsLeast (erased s key (x ∷ xs)).min_key) (sym keys) least',
          subst (IsGreatest (erased s key (x ∷ xs)).max_key) (sym keys) greatest',
        );
      }
    where
      some_bounds :
          ((s.keys ≡ []) × (s.min_key ≡ no_key) × (s.max_key ≡ no_key))
            ⊎ (IsLeast s.min_key s.keys × IsGreatest s.max_key s.keys)
          → IsLeast s.min_key s.keys × IsGreatest s.max_key s.keys
      some_bounds (inl (nil, _, _)) = elim (subst (Memᴰ key) nil there) [ ]
      some_bounds (inr both) = both

  erase-Mem :
      IsValid (erase s key) × ((k : ℕ) → Memᴰ k (erase s key).keys ↔ ((k ≢ key) × Memᴰ k s.keys))
  erase-Mem =
      let shape = erase_lem s key in
      elim (Bool-cases (has key s.keys)) [
        | inl h ↦
            let ks = without key s.keys in
            let there = (has-Mem key s.keys v.sorted).0 h in
            let whole : erase s key ≡ erased s key ks = rw h at shape in
            let keys : (erase s key).keys ≡ ks = ap (λ t. t.keys) whole ∙ erased_keys s key ks in
            (
              subst IsValid (sym whole) (erased-IsValid ks refl there),
              λ k. (
                λ m. old k (subst (Memᴰ k) keys m),
                λ m. subst (Memᴰ k) (sym keys) ((without-Mem key k s.keys v.sorted).1 m),
              ),
            )
        | inr h ↦
            let whole : erase s key ≡ s = rw h at shape in
            (
              subst IsValid (sym whole) v,
              λ k. (
                λ m.
                    let m' = subst (λ t. Memᴰ k t.keys) whole m in
                    (
                      λ e.
                          let yes =
                            (has-Mem key s.keys v.sorted).1 (subst (λ j. Memᴰ j s.keys) e m') in
                          cc,
                      m',
                    ),
                λ (_, m). subst (λ t. Memᴰ k t.keys) (sym whole) m,
              ),
            )
      ]

-- After an erasure the members are those from before other than the key, whichever bound the key
-- was, and the set is still valid.
pub erase_correct :
    (s : CompactSet) (key : ℕ)
    → IsValid s
    → IsValid (erase s key)
      × ((k : ℕ) → (is_member (erase s key) k ≡ true) ↔ ((k ≢ key) × (is_member s k ≡ true)))
erase_correct s key v =
    let (v', same) = erase-Mem s key v in
    (
      v',
      λ k. (
        λ h.
            let (ne, m) = (same k).0 ((is_member-Mem (erase s key) k v').0 h) in
            (ne, (is_member-Mem s k v).1 m),
        λ (ne, h).
            (is_member-Mem (erase s key) k v').1 ((same k).1 (ne, (is_member-Mem s k v).0 h)),
      ),
    )
