-- ===== src/IntervalSet/Normalize.antt =====
-- `normalize` of interval_set.rs: the sort, the sweep, and what they keep.
use sicada.Prelude.{
  ℕ, suc, ◌≤◌, ◌<◌, ◌≡◌, refl, ◌∙◌, none, some, List, [], ◌∷◌, arith, leb, if◌then◌else◌, ◌==◌,
  Bool-cases, inl, inr,
}
use sicada.IntervalSet.{IntInterval, IntervalSet, less, insert, sort, extend, sweep, normalize}
use sicada.IntervalSet.Members.{covers, IsNormalFrom, IsNormalized, IsNormalFrom-weaken}

-- No interval ends before it begins.
abbrev pub IsProper : List IntInterval → Type 0
IsProper [] = Unit {0}
IsProper (iv ∷ ivs) = (iv.begin ≤ iv.end) × IsProper ivs

abbrev IsSortedFrom : ℕ → List IntInterval → Type 0
IsSortedFrom lo [] = Unit {0}
IsSortedFrom lo (iv ∷ ivs) = (lo ≤ iv.begin) × (iv.begin ≤ iv.end) × IsSortedFrom iv.begin ivs

IsSortedFrom-weaken :
    (lo hi : ℕ) (ivs : List IntInterval) → lo ≤ hi → IsSortedFrom hi ivs → IsSortedFrom lo ivs
IsSortedFrom-weaken lo hi [] h s = tt
IsSortedFrom-weaken lo hi (iv ∷ ivs) h s = (omega arith, s.1, s.2)

insert-IsSortedFrom :
    (lo : ℕ) (a : IntInterval) (ivs : List IntInterval)
    → lo ≤ a.begin
    → a.begin ≤ a.end
    → IsSortedFrom lo ivs
    → IsSortedFrom lo (insert a ivs)
unfolding insert less
insert-IsSortedFrom lo a [] h p s = omega arith
insert-IsSortedFrom lo a (b ∷ bs) h p s =
    ground (arith, insert-IsSortedFrom b.begin a bs, IsSortedFrom-weaken b.begin a.begin bs)

covers-insert :
    (a : IntInterval) (ivs : List IntInterval) (v : ℕ)
    → covers (insert a ivs) v ≡ covers (a ∷ ivs) v
unfolding insert
covers-insert a [] v = refl
covers-insert a (b ∷ bs) v = ground (arith, covers-insert a bs v)

sort-IsSortedFrom : (ivs : List IntInterval) → IsProper ivs → IsSortedFrom 0 (sort ivs)
unfolding sort
sort-IsSortedFrom [] h = tt
sort-IsSortedFrom (a ∷ ivs) h =
    insert-IsSortedFrom 0 a (sort ivs) (omega arith) h.0 (sort-IsSortedFrom ivs h.1)

covers-sort : (ivs : List IntInterval) (v : ℕ) → covers (sort ivs) v ≡ covers ivs v
unfolding sort
covers-sort [] v = refl
covers-sort (a ∷ ivs) v = ground (arith, covers-insert a (sort ivs) v, covers-sort ivs v)

-- One round of the loop, over the results of the rounds that may follow it.
abbrev round_none : IntInterval → List IntInterval → List IntInterval → List IntInterval
round_none iv skip write = if iv.begin == iv.end then skip else write

abbrev round_some :
    IntInterval
    → IntInterval
    → List IntInterval
    → List IntInterval
    → List IntInterval
    → List IntInterval
round_some last iv skip merge write =
    if iv.begin == iv.end then skip else if leb iv.begin last.end then merge else last ∷ write

sweep-none :
    (iv : IntInterval) (ivs : List IntInterval)
    → sweep none (iv ∷ ivs) ≡ round_none iv (sweep none ivs) (sweep (some iv) ivs)
unfolding sweep
sweep-none iv ivs = refl

sweep-some :
    (last iv : IntInterval) (ivs : List IntInterval)
    → sweep (some last) (iv ∷ ivs)
      ≡ round_some last iv
          (sweep (some last) ivs)
          (sweep (some (extend last iv)) ivs)
          (sweep (some iv) ivs)
unfolding sweep
sweep-some last iv ivs = refl

-- What a list of sorted intervals behind `last` has to become.
record Sweeps (last : IntInterval) (ivs : List IntInterval) (swept : List IntInterval)
    : Type 0 where
  normal : IsNormalFrom last.begin swept
  same : (v : ℕ) → covers swept v ≡ covers (last ∷ ivs) v

module _ (last iv : IntInterval) (ivs : List IntInterval) (nonempty : last.begin < last.end)
    (sorted : IsSortedFrom last.begin (iv ∷ ivs)) where
  Sweeps-skip :
      {out : List IntInterval}
      → iv.begin ≡ iv.end
      → Sweeps last ivs out
      → Sweeps last (iv ∷ ivs) out
  Sweeps-skip e w = record { normal = w.normal; same = λ v. w.same v ∙ ground arith }

  Sweeps-merge :
      {out : List IntInterval}
      → iv.begin ≤ last.end
      → Sweeps (extend last iv) ivs out
      → Sweeps last (iv ∷ ivs) out
  Sweeps-merge h w = record { normal = w.normal; same = λ v. w.same v ∙ ground arith }

  Sweeps-write :
      {out : List IntInterval}
      → last.end < iv.begin
      → Sweeps iv ivs out
      → Sweeps last (iv ∷ ivs) (last ∷ out)
  Sweeps-write {out} h w = record {
    normal = (omega arith, nonempty, IsNormalFrom-weaken (suc last.end) iv.begin out h w.normal);
    same = λ v. ground (arith, w.same v);
  }

  extend-nonempty : (extend last iv).begin < (extend last iv).end
  extend-nonempty = ground arith

sweep-Sweeps :
    (last : IntInterval) (ivs : List IntInterval)
    → last.begin < last.end
    → IsSortedFrom last.begin ivs
    → Sweeps last ivs (sweep (some last) ivs)
sweep-Sweeps last [] h s = unfold sweep in record { normal = omega arith; same = λ v. refl }
sweep-Sweeps last (iv ∷ ivs) h s =
    let rest = IsSortedFrom-weaken last.begin iv.begin ivs s.0 s.2 in
    rw (sweep-some last iv ivs) (elim (Bool-cases (iv.begin == iv.end)) [
      | inl e ↦ rw e (Sweeps-skip last iv ivs h s (ground arith) (sweep-Sweeps last ivs h rest))
      | inr e ↦ rw e (elim (Bool-cases (leb iv.begin last.end)) [
        | inl t ↦ rw t (
            Sweeps-merge last iv ivs h s (ground arith)
              (sweep-Sweeps (extend last iv) ivs (extend-nonempty last iv ivs h s) rest))
        | inr t ↦
            rw t
              (Sweeps-write last iv ivs h s (ground arith) (sweep-Sweeps iv ivs (ground arith) s.2))
      ])
    ])

sweep-none-normal :
    (lo : ℕ) (ivs : List IntInterval)
    → IsSortedFrom lo ivs
    → IsNormalFrom lo (sweep none ivs) × ((v : ℕ) → covers (sweep none ivs) v ≡ covers ivs v)
sweep-none-normal lo [] s = unfold sweep in (tt, λ v. refl)
sweep-none-normal lo (iv ∷ ivs) s = rw (sweep-none iv ivs) (elim (Bool-cases (iv.begin == iv.end)) [
  | inl e ↦
      let ih = sweep-none-normal iv.begin ivs s.2 in
      rw e (IsNormalFrom-weaken lo iv.begin _ s.0 ih.0, λ v. ih.1 v ∙ ground arith)
  | inr e ↦
      let w = sweep-Sweeps iv ivs (ground arith) s.2 in
      rw e (IsNormalFrom-weaken lo iv.begin _ s.0 w.normal, w.same)
])

-- From intervals in any order, none of which ends before it begins, `normalize` leaves a normalized
-- set, sorted with gaps between its intervals and with the count of its points, and every point is
-- a member afterwards exactly when it lay in one of the intervals before.
pub normalize_correct :
    (s : IntervalSet)
    → IsProper s.intervals
    → IsNormalized (normalize s)
      × ((v : ℕ) → covers (normalize s).intervals v ≡ covers s.intervals v)
unfolding normalize
normalize_correct s h =
    let swept = sweep-none-normal 0 (sort s.intervals) (sort-IsSortedFrom s.intervals h) in
    (record { ordered = swept.0; counted = refl }, λ v. swept.1 v ∙ covers-sort s.intervals v)
