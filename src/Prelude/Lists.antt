-- ===== src/Prelude/Lists.antt =====
-- Lists measured and indexed by the native numbers, under the library's names.
use Prim.Native.Nat.{ℕ, zero, suc, ◌+◌, ◌<◌, ◌≤◌}
use mathlib.Core.Path.{◌≡◌, refl, ap, sym, ◌∙◌}
use mathlib.Core.Logic.{◌≢◌, ◌⊎◌, inl, inr}
use mathlib.Core.List.{List, [], ◌∷◌, ◌++◌, map, Memᴰ}
use mathlib.Core.Option.{Option, none, some, some-injective}
use mathlib.Core.Bool.{Bool, true}
use sicada.Prelude.Tests.{if◌then◌else◌, Bool-cases}
use native.Mathlib.Omega.{arith}

module _ {ℓ} {A : Type ℓ} where
  abbrev pub length : List A → ℕ
  length [] = 0
  length (x ∷ xs) = suc (length xs)

  abbrev pub get_elem? : List A → ℕ → Option A
  get_elem? [] i = none
  get_elem? (x ∷ xs) zero = some x
  get_elem? (x ∷ xs) (suc i) = get_elem? xs i

  -- A write out of bounds changes nothing.
  abbrev pub set : List A → ℕ → A → List A
  set [] i v = []
  set (x ∷ xs) zero v = v ∷ xs
  set (x ∷ xs) (suc i) v = x ∷ set xs i v

  abbrev pub replicate : ℕ → A → List A
  replicate zero a = []
  replicate (suc n) a = a ∷ replicate n a

  abbrev pub take : ℕ → List A → List A
  take zero xs = []
  take (suc n) [] = []
  take (suc n) (x ∷ xs) = x ∷ take n xs

module _ {ℓ} {A : Type ℓ} where
  pub length-append : (xs ys : List A) → length (xs ++ ys) ≡ length xs + length ys
  length-append [] ys = omega arith
  length-append (x ∷ xs) ys = omega (arith, length-append xs ys)

  pub length-set : (xs : List A) (i : ℕ) (v : A) → length (set xs i v) ≡ length xs
  length-set [] i v = refl
  length-set (x ∷ xs) zero v = refl
  length-set (x ∷ xs) (suc i) v = ap suc (length-set xs i v)

  pub length-replicate : (n : ℕ) (a : A) → length (replicate n a) ≡ n
  length-replicate zero a = refl
  length-replicate (suc n) a = ap suc (length-replicate n a)

  pub length-take : (n : ℕ) (xs : List A) → n ≤ length xs → length (take n xs) ≡ n
  length-take zero xs h = refl
  length-take (suc n) [] h = absurd (omega (arith, h))
  length-take (suc n) (x ∷ xs) h = ap suc (length-take n xs (omega (arith, h)))

  pub get_elem?-some : (xs : List A) (i : ℕ) → i < length xs → (x : A) × (get_elem? xs i ≡ some x)
  get_elem?-some [] i h = absurd (omega (arith, h))
  get_elem?-some (x ∷ xs) zero h = (x, refl)
  get_elem?-some (x ∷ xs) (suc i) h = get_elem?-some xs i (omega (arith, h))

  pub List-cases : (xs : List A) → (xs ≡ []) ⊎ ((x : A) × (rest : List A) × (xs ≡ x ∷ rest))
  List-cases [] = inl refl
  List-cases (x ∷ xs) = inr (x, xs, refl)

module _ {ℓ} {A : Type ℓ} where
  -- The element at a position is replaced, where there is one.
  abbrev pub modify : List A → ℕ → (A → A) → List A
  modify [] i f = []
  modify (x ∷ xs) zero f = f x ∷ xs
  modify (x ∷ xs) (suc i) f = x ∷ modify xs i f

  pub set-modify :
      (xs : List A) (i : ℕ) (f : A → A) (x : A)
      → get_elem? xs i ≡ some x
      → set xs i (f x) ≡ modify xs i f
  set-modify [] i f x e = refl
  set-modify (y ∷ xs) zero f x e = ap (λ z. f z ∷ xs) (sym (some-injective y x e))
  set-modify (y ∷ xs) (suc i) f x e = ap (◌∷◌ y) (set-modify xs i f x e)

  pub modify-none : (xs : List A) (i : ℕ) (f : A → A) → get_elem? xs i ≡ none → xs ≡ modify xs i f
  modify-none [] i f e = refl
  modify-none (y ∷ xs) zero f e = cc
  modify-none (y ∷ xs) (suc i) f e = ap (◌∷◌ y) (modify-none xs i f e)

  pub length-modify : (xs : List A) (i : ℕ) (f : A → A) → length (modify xs i f) ≡ length xs
  length-modify [] i f = refl
  length-modify (x ∷ xs) zero f = refl
  length-modify (x ∷ xs) (suc i) f = ap suc (length-modify xs i f)

  pub get_elem?-modify_self :
      (xs : List A) (i : ℕ) (f : A → A) {x : A}
      → get_elem? xs i ≡ some x
      → get_elem? (modify xs i f) i ≡ some (f x)
  get_elem?-modify_self [] i f e = cc
  get_elem?-modify_self (y ∷ xs) zero f {x} e = ap (λ z. some (f z)) (some-injective y x e)
  get_elem?-modify_self (y ∷ xs) (suc i) f e = get_elem?-modify_self xs i f e

  pub get_elem?-modify_ne :
      (xs : List A) (i j : ℕ) (f : A → A) → i ≢ j → get_elem? (modify xs i f) j ≡ get_elem? xs j
  get_elem?-modify_ne [] i j f h = refl
  get_elem?-modify_ne (x ∷ xs) zero zero f h = absurd (h refl)
  get_elem?-modify_ne (x ∷ xs) zero (suc j) f h = refl
  get_elem?-modify_ne (x ∷ xs) (suc i) zero f h = refl
  get_elem?-modify_ne (x ∷ xs) (suc i) (suc j) f h =
      get_elem?-modify_ne xs i j f (λ e. h (ap suc e))

  pub get_elem?-modify-none :
      (xs : List A) (i : ℕ) (f : A → A) → get_elem? xs i ≡ none → get_elem? (modify xs i f) i ≡ none
  get_elem?-modify-none [] i f e = refl
  get_elem?-modify-none (x ∷ xs) zero f e = cc
  get_elem?-modify-none (x ∷ xs) (suc i) f e = get_elem?-modify-none xs i f e

pub cons_eq {ℓ} : {A : Type ℓ} {x y : A} {xs ys : List A} → x ≡ y → xs ≡ ys → x ∷ xs ≡ y ∷ ys
cons_eq e k = cc

pub length-map : {A B : Type 0} (f : A → B) (xs : List A) → length (map f xs) ≡ length xs
length-map f [] = refl
length-map f (x ∷ xs) = ap suc (length-map f xs)

pub mem_map : {A B : Type 0} (f : A → B) (x : A) (xs : List A) → Memᴰ x xs → Memᴰ (f x) (map f xs)
mem_map f x [] m = elim m [ ]
mem_map f x (y ∷ xs) (Memᴰ.head e) = Memᴰ.head (ap f e)
mem_map f x (y ∷ xs) (Memᴰ.tail m) = Memᴰ.tail (mem_map f x xs m)

pub map_mem :
    {A B : Type 0} (f : A → B) (y : B) (xs : List A)
    → Memᴰ y (map f xs)
    → (x : A) × Memᴰ x xs × (y ≡ f x)
map_mem f y [] m = elim m [ ]
map_mem f y (x ∷ xs) (Memᴰ.head e) = (x, Memᴰ.head refl, e)
map_mem f y (x ∷ xs) (Memᴰ.tail m) = let (x', m', e) = map_mem f y xs m in (x', Memᴰ.tail m', e)

module _ {ℓ} {A : Type ℓ} where
  pub append_assoc : (xs ys zs : List A) → (xs ++ ys) ++ zs ≡ xs ++ (ys ++ zs)
  append_assoc [] ys zs = refl
  append_assoc (x ∷ xs) ys zs = ap (◌∷◌ x) (append_assoc xs ys zs)

  pub append_nil : (xs : List A) → xs ++ [] ≡ xs
  append_nil [] = refl
  append_nil (x ∷ xs) = ap (◌∷◌ x) (append_nil xs)

-- The function is applied at `n` places, from `i` on.
abbrev pub modify_from : {A : Type 0} → ℕ → ℕ → (A → A) → List A → List A
modify_from zero i f xs = xs
modify_from (suc n) i f xs = modify_from n (suc i) f (modify xs i f)

modify-middle :
    {A : Type 0} (f : A → A) (xs ys : List A) (y : A)
    → modify (xs ++ y ∷ ys) (length xs) f ≡ (xs ++ f y ∷ []) ++ ys
modify-middle f [] ys y = refl
modify-middle f (x ∷ xs) ys y = ap (◌∷◌ x) (modify-middle f xs ys y)

length-snoc : {A : Type 0} (xs : List A) (y : A) → length (xs ++ y ∷ []) ≡ suc (length xs)
length-snoc [] y = refl
length-snoc (x ∷ xs) y = ap suc (length-snoc xs y)

modify_from-append :
    {A : Type 0} (f : A → A) (xs ys zs : List A)
    → modify_from (length ys) (length xs) f (xs ++ (ys ++ zs)) ≡ xs ++ (map f ys ++ zs)
modify_from-append f xs [] zs = refl
modify_from-append f xs (y ∷ ys) zs =
    ap (modify_from (length ys) (suc (length xs)) f) (modify-middle f xs (ys ++ zs) y)
    ∙ ap (λ i. modify_from (length ys) i f ((xs ++ f y ∷ []) ++ (ys ++ zs)))
        (sym (length-snoc xs (f y)))
    ∙ modify_from-append f (xs ++ f y ∷ []) ys zs
    ∙ append_assoc xs (f y ∷ []) (map f ys ++ zs)

-- The places from the first on, as many as `xs` has.
pub modify_from-front :
    {A : Type 0} (f : A → A) (xs zs : List A)
    → modify_from (length xs) 0 f (xs ++ zs) ≡ map f xs ++ zs
modify_from-front f xs zs = modify_from-append f [] xs zs

pub modify_from-all :
    {A : Type 0} (f : A → A) (xs : List A) → modify_from (length xs) 0 f xs ≡ map f xs
modify_from-all f xs =
    ap (modify_from (length xs) 0 f) (sym (append_nil xs))
    ∙ modify_from-front f xs []
    ∙ append_nil (map f xs)

module _ {A : Type 0} where
  -- The standard library's: the length of the leading run that passes.
  unfoldable pub partition_point : (A → Bool) → List A → ℕ
  partition_point p [] = 0
  partition_point p (x ∷ xs) = if p x then suc (partition_point p xs) else 0

  abbrev pub drop : ℕ → List A → List A
  drop zero xs = xs
  drop (suc n) [] = []
  drop (suc n) (x ∷ xs) = drop n xs

  -- Those that pass, in order.
  abbrev pub select : (A → Bool) → List A → List A
  select p [] = []
  select p (x ∷ xs) = if p x then x ∷ select p xs else select p xs

  abbrev pub All : (A → Type 0) → List A → Type 0
  All P [] = Unit
  All P (x ∷ xs) = P x × All P xs

  pub get_elem?-drop :
      (n : ℕ) (xs ys : List A) (y : A) → drop n xs ≡ y ∷ ys → get_elem? xs n ≡ some y
  get_elem?-drop zero xs ys y e = rw e refl
  get_elem?-drop (suc n) [] ys y e = cc
  get_elem?-drop (suc n) (x ∷ xs) ys y e = get_elem?-drop n xs ys y e

  pub drop-suc : (n : ℕ) (xs ys : List A) (y : A) → drop n xs ≡ y ∷ ys → drop (suc n) xs ≡ ys
  drop-suc zero xs ys y e = rw e refl
  drop-suc (suc n) [] ys y e = cc
  drop-suc (suc n) (x ∷ xs) ys y e = drop-suc n xs ys y e

  pub All-select : (p : A → Bool) (xs : List A) → All (λ x. p x ≡ true) (select p xs)
  All-select p [] = tt
  All-select p (x ∷ xs) = elim (Bool-cases (p x)) [
    | inl e ↦ rw e (e, All-select p xs)
    | inr e ↦ rw e (All-select p xs)
  ]

module _ {A : Type 0} where
  pub get_elem?-append_left :
      (xs ys : List A) (i : ℕ) (x : A) → get_elem? xs i ≡ some x → get_elem? (xs ++ ys) i ≡ some x
  get_elem?-append_left [] ys i x h = cc
  get_elem?-append_left (y ∷ xs) ys zero x h = h
  get_elem?-append_left (y ∷ xs) ys (suc i) x h = get_elem?-append_left xs ys i x h

  pub get_elem?-snoc_self : (xs : List A) (y : A) → get_elem? (xs ++ y ∷ []) (length xs) ≡ some y
  get_elem?-snoc_self [] y = refl
  get_elem?-snoc_self (x ∷ xs) y = get_elem?-snoc_self xs y

  -- An element of a list with one more at the end is old, or the last.
  pub get_elem?-snoc_cases :
      (xs : List A) (y : A) (i : ℕ) (x : A)
      → get_elem? (xs ++ y ∷ []) i ≡ some x
      → (get_elem? xs i ≡ some x) ⊎ ((i ≡ length xs) × (y ≡ x))
  get_elem?-snoc_cases [] y zero x h = inr (refl, some-injective y x h)
  get_elem?-snoc_cases [] y (suc i) x h = cc
  get_elem?-snoc_cases (z ∷ xs) y zero x h = inl h
  get_elem?-snoc_cases (z ∷ xs) y (suc i) x h = elim (get_elem?-snoc_cases xs y i x h) [
    | inl k ↦ inl k
    | inr k ↦ inr (ap suc (k.0), k.1)
  ]

module _ {A : Type 0} where
  pub get_elem?-set_ne :
      (xs : List A) (i k : ℕ) (v : A) → i ≢ k → get_elem? (set xs i v) k ≡ get_elem? xs k
  get_elem?-set_ne [] i k v h = refl
  get_elem?-set_ne (x ∷ xs) zero zero v h = absurd (h refl)
  get_elem?-set_ne (x ∷ xs) zero (suc k) v h = refl
  get_elem?-set_ne (x ∷ xs) (suc i) zero v h = refl
  get_elem?-set_ne (x ∷ xs) (suc i) (suc k) v h = get_elem?-set_ne xs i k v (λ e. h (ap suc e))

  -- An element after a write is the new one, or an old one.
  pub get_elem?-set_cases :
      (xs : List A) (i k : ℕ) (v b : A)
      → get_elem? (set xs i v) k ≡ some b
      → (v ≡ b) ⊎ ((i ≢ k) × (get_elem? xs k ≡ some b))
  get_elem?-set_cases [] i k v b h = cc
  get_elem?-set_cases (x ∷ xs) zero zero v b h = inl (some-injective v b h)
  get_elem?-set_cases (x ∷ xs) zero (suc k) v b h = inr (λ e. omega (arith, e), h)
  get_elem?-set_cases (x ∷ xs) (suc i) zero v b h = inr (λ e. omega (arith, e), h)
  get_elem?-set_cases (x ∷ xs) (suc i) (suc k) v b h = elim (get_elem?-set_cases xs i k v b h) [
    | inl e ↦ inl e
    | inr (ne, e) ↦ inr (λ q. ne (omega (arith, q)), e)
  ]

  pub get_elem?-lt : (xs : List A) (k : ℕ) (b : A) → get_elem? xs k ≡ some b → k < length xs
  get_elem?-lt [] k b h = cc
  get_elem?-lt (x ∷ xs) zero b h = omega arith
  get_elem?-lt (x ∷ xs) (suc k) b h = omega (arith, get_elem?-lt xs k b h)
