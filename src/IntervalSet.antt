-- ===== src/IntervalSet.antt =====
-- sicada/src/data_structures/interval_set.rs: sets of half-open integer intervals, over the
-- non-negative integers (labels and state ids). `sort_unstable` and `partition_point` are the
-- standard library's: a sort by the same order, and the length of the leading run that passes.
-- The casts through `i64` are left out: on an interval with begin ≤ end they change nothing.
mod Members
mod Normalize
mod Tests
mod Strict
mod Contains
mod Search
mod Compare
mod Complement
use Prim.Native.Nat.{compare, Ordering}
use sicada.Prelude.{
  ℕ, suc, ◌+◌, ◌-◌, min, max, Bool, true, false, ◌&&◌, ◌||◌, Option, none, some, List, [], ◌∷◌,
  ◌++◌, ltb, leb, ◌==◌, if◌then◌else◌, length, get_elem?, partition_point,
}

pub record IntInterval : Type 0 where
  pub begin : ℕ
  pub end : ℕ

pub record IntervalSet : Type 0 where
  pub intervals : List IntInterval
  pub count : ℕ

abbrev then_with : Ordering → Ordering → Ordering
then_with Ordering.eq second = second
then_with first _ = first

-- By `begin` ascending, then by `end` descending.
pub cmp : IntInterval → IntInterval → Ordering
cmp a b = then_with (compare a.begin b.begin) (compare b.end a.end)

pub less : IntInterval → IntInterval → Bool
unfolding cmp
less a b = elim (cmp a b) [ Ordering.lt ↦ true | _ ↦ false ]

pub new : IntervalSet
new = record { intervals = []; count = 0 }

pub is_empty : IntervalSet → Bool
is_empty s = elim s.intervals [ [] ↦ true | _ ∷ _ ↦ false ]

pub len : IntervalSet → ℕ
len s = length s.intervals

pub clear : IntervalSet → IntervalSet
clear s = record { intervals = []; count = 0 }

pub push : IntervalSet → IntInterval → IntervalSet
push s iv = record s { intervals = s.intervals ++ iv ∷ [] }

pub union : IntervalSet → IntervalSet → IntervalSet
union s other = record s { intervals = s.intervals ++ other.intervals }

pub is_singleton : IntervalSet → Bool
unfolding len
is_singleton s =
    if len s == 1
    then elim (get_elem? s.intervals 0) [ some iv ↦ iv.begin + 1 == iv.end | none ↦ false ]
    else false

pub member : IntervalSet → ℕ → Bool
unfolding is_empty
member s value =
    let target : IntInterval = record { begin = value; end = value } in
    let pos = partition_point (λ iv. less iv target) s.intervals in
    if is_empty s
    then false
    else if pos == 0
    then false
    else elim (get_elem? s.intervals (pos - 1)) [ some iv ↦ ltb value iv.end | none ↦ false ]

pub insert : IntInterval → List IntInterval → List IntInterval
insert a [] = a ∷ []
insert a (b ∷ bs) = if less b a then b ∷ insert a bs else a ∷ b ∷ bs

pub sort : List IntInterval → List IntInterval
sort [] = []
sort (a ∷ as') = insert a (sort as')

-- `last.end` is moved where the interval ends later.
abbrev pub extend : IntInterval → IntInterval → IntInterval
extend last interval = record last {
  end = if ltb last.end interval.end then interval.end else last.end;
}

-- The loop of `normalize`: `last` is `intervals[..write_idx].last_mut()`, the interval that is being
-- built, and those before it are final. The slots that are read lie at or past `write_idx`, so they
-- still hold what the sort left.
pub sweep : Option IntInterval → List IntInterval → List IntInterval
sweep none [] = []
sweep (some last) [] = last ∷ []
sweep none (interval ∷ rest) =
    let skip = sweep none rest in
    let write = sweep (some interval) rest in if interval.begin == interval.end then skip else write
sweep (some last) (interval ∷ rest) =
    let skip = sweep (some last) rest in
    let merge = sweep (some (extend last interval)) rest in
    let write = last ∷ sweep (some interval) rest in
    if interval.begin == interval.end
    then skip
    else if leb interval.begin last.end
    then merge
    else write

pub points : List IntInterval → ℕ
points [] = 0
points (iv ∷ ivs) = (iv.end - iv.begin) + points ivs

pub normalize : IntervalSet → IntervalSet
normalize s =
    let merged = sweep none (sort s.intervals) in
    record { intervals = merged; count = points merged }

-- What the loops of `intersect` and `complement` push, and the count that they keep beside it.
abbrev pub with_pushed : IntInterval → List IntInterval × ℕ → List IntInterval × ℕ
with_pushed iv (pushed, count) = (iv ∷ pushed, (iv.end - iv.begin) + count)

pub intersect_loop : List IntInterval → List IntInterval → List IntInterval × ℕ
intersect_loop [] ys = ([], 0)
intersect_loop (x ∷ xs) [] = ([], 0)
intersect_loop (x ∷ xs) (y ∷ ys) =
    let past_x = intersect_loop xs (y ∷ ys) in
    let past_y = intersect_loop (x ∷ xs) ys in
    let common : IntInterval = record { begin = max x.begin y.begin; end = min x.end y.end } in
    if leb x.end y.begin
    then past_x
    else if leb y.end x.begin
    then past_y
    else if ltb x.end y.end
    then with_pushed common past_x
    else with_pushed common past_y

abbrev filled : List IntInterval × ℕ → IntervalSet
filled (pushed, count) = record { intervals = pushed; count = count }

pub intersect : IntervalSet → IntervalSet → IntervalSet
intersect s iset = filled (intersect_loop s.intervals iset.intervals)

pub complement_loop : ℕ → ℕ → List IntInterval → List IntInterval × ℕ
complement_loop maxval current_begin [] =
    if ltb current_begin maxval
    then with_pushed (record { begin = current_begin; end = maxval }) ([], 0)
    else ([], 0)
complement_loop maxval current_begin (iv ∷ ivs) =
    let end' = min iv.begin maxval in
    let rest = complement_loop maxval iv.end ivs in
    if ltb current_begin end'
    then with_pushed (record { begin = current_begin; end = end' }) rest
    else rest

pub complement : IntervalSet → ℕ → IntervalSet
complement s maxval = filled (complement_loop maxval 0 s.intervals)

pub last_end : List IntInterval → ℕ
last_end [] = 0
last_end (iv ∷ []) = iv.end
last_end (iv ∷ next ∷ ivs) = last_end (next ∷ ivs)

-- The last interval is read only of a set that is not empty.
pub difference : IntervalSet → IntervalSet → IntervalSet
unfolding is_empty
difference s iset = if is_empty s then new else intersect s (complement iset (last_end s.intervals))

pub overlaps_loop : List IntInterval → List IntInterval → Bool
overlaps_loop [] ys = false
overlaps_loop (x ∷ xs) [] = false
overlaps_loop (x ∷ xs) (y ∷ ys) =
    let past_x = overlaps_loop xs (y ∷ ys) in
    let past_y = overlaps_loop (x ∷ xs) ys in
    if leb x.end y.begin then past_x else if leb y.end x.begin then past_y else true

pub overlaps : IntervalSet → IntervalSet → Bool
overlaps s iset = overlaps_loop s.intervals iset.intervals

pub contains_loop : List IntInterval → List IntInterval → Bool
contains_loop xs [] = true
contains_loop [] (y ∷ ys) = false
contains_loop (x ∷ xs) (y ∷ ys) =
    let past_x = contains_loop xs (y ∷ ys) in
    let past_both = contains_loop xs ys in
    let past_y = contains_loop (x ∷ xs) ys in
    if leb x.end y.begin
    then past_x
    else if ltb y.begin x.begin || ltb x.end y.end
    then false
    else if y.end == x.end
    then past_both
    else past_y

pub contains : IntervalSet → IntervalSet → Bool
contains s iset = if ltb s.count iset.count then false else contains_loop s.intervals iset.intervals

-- Whether only the first set, only the second, and both have shown a member so far.
pub record Seen : Type 0 where
  pub only1 : Bool
  pub only2 : Bool
  pub overlap : Bool

abbrev pub all_seen : Seen → Bool
all_seen f = f.only1 && f.only2 && f.overlap

-- What is left of each side once the loop ends: the flags, set by a side that is not used up.
abbrev pub leftover : List IntInterval → List IntInterval → Seen → Bool
leftover [] [] f = all_seen f
leftover (x ∷ xs) [] f = all_seen (record f { only1 = true })
leftover [] (y ∷ ys) f = all_seen (record f { only2 = true })
leftover (x ∷ xs) (y ∷ ys) f = all_seen (record f { only1 = true; only2 = true })

-- The loop returns at once where all three flags are set; the last branch sets all three.
pub strictly_overlaps_loop : List IntInterval → List IntInterval → Seen → Bool
strictly_overlaps_loop [] ys f = leftover [] ys f
strictly_overlaps_loop (x ∷ xs) [] f = leftover (x ∷ xs) [] f
strictly_overlaps_loop (x ∷ xs) (y ∷ ys) f =
    let past_x = strictly_overlaps_loop xs (y ∷ ys) in
    let past_y = strictly_overlaps_loop (x ∷ xs) ys in
    let past_both = strictly_overlaps_loop xs ys in
    let on = λ (g : Seen) (next : Seen → Bool). all_seen g || next g in
    if leb x.end y.begin
    then on (record f { only1 = true }) past_x
    else if leb y.end x.begin
    then on (record f { only2 = true }) past_y
    else if y.begin == x.begin && y.end == x.end
    then on (record f { overlap = true }) past_both
    else if leb y.begin x.begin && leb x.end y.end
    then on (record f { only2 = true; overlap = true }) past_x
    else if leb x.begin y.begin && leb y.end x.end
    then on (record f { only1 = true; overlap = true }) past_y
    else true

pub strictly_overlaps : IntervalSet → IntervalSet → Bool
strictly_overlaps s iset =
    strictly_overlaps_loop s.intervals iset.intervals
      (record { only1 = false; only2 = false; overlap = false })
