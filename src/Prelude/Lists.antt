-- ===== src/Prelude/Lists.antt =====
-- Lists measured, indexed and counted by native numbers, under the library's names.
use Prim.Native.Nat.{ℕ, zero, suc, ◌+◌, ◌-◌, min}
use mathlib.Core.Path.{◌≡◌, refl, ap}
use mathlib.Core.Bool.{Bool, true, false, ◌||◌}
use mathlib.Core.List.{List, [], ◌∷◌, ◌++◌, map}
use mathlib.Core.Logic.{◌⊎◌, inl, inr}
use mathlib.Core.Option.{Option, none, some}
use native.Mathlib.Omega.{arith}
use nifre.Prelude.Tests.{ltb, ◌==◌, if◌then◌else◌}

module _ {ℓ} {A : Type ℓ} where
  abbrev pub length : List A → ℕ
  length [] = 0
  length (x ∷ xs) = suc (length xs)

  abbrev pub get_elem? : List A → ℕ → Option A
  get_elem? [] i = none
  get_elem? (x ∷ xs) zero = some x
  get_elem? (x ∷ xs) (suc i) = get_elem? xs i

  abbrev pub set : List A → ℕ → A → List A
  set [] i v = []
  set (x ∷ xs) zero v = v ∷ xs
  set (x ∷ xs) (suc i) v = x ∷ set xs i v

  abbrev pub take : ℕ → List A → List A
  take zero xs = []
  take (suc n) [] = []
  take (suc n) (x ∷ xs) = x ∷ take n xs

  abbrev pub drop : ℕ → List A → List A
  drop zero xs = xs
  drop (suc n) [] = []
  drop (suc n) (x ∷ xs) = drop n xs

  abbrev pub replicate : ℕ → A → List A
  replicate zero a = []
  replicate (suc n) a = a ∷ replicate n a

  pub length-append : (xs ys : List A) → length (xs ++ ys) ≡ length xs + length ys
  length-append [] ys = omega arith
  length-append (x ∷ xs) ys = omega (arith, length-append xs ys)

  pub length-take : (n : ℕ) (xs : List A) → length (take n xs) ≡ min n (length xs)
  length-take zero xs = omega arith
  length-take (suc n) [] = omega arith
  length-take (suc n) (x ∷ xs) = omega (arith, length-take n xs)

  pub length-drop : (n : ℕ) (xs : List A) → length (drop n xs) ≡ length xs - n
  length-drop zero xs = omega arith
  length-drop (suc n) [] = omega arith
  length-drop (suc n) (x ∷ xs) = omega (arith, length-drop n xs)

  pub length-replicate : (n : ℕ) (a : A) → length (replicate n a) ≡ n
  length-replicate zero a = refl
  length-replicate (suc n) a = ap suc (length-replicate n a)

  pub drop-length-append : (xs ys : List A) → drop (length xs) (xs ++ ys) ≡ ys
  drop-length-append [] ys = refl
  drop-length-append (x ∷ xs) ys = drop-length-append xs ys

  pub length-set : (xs : List A) (i : ℕ) (v : A) → length (set xs i v) ≡ length xs
  length-set [] i v = refl
  length-set (x ∷ xs) zero v = refl
  length-set (x ∷ xs) (suc i) v = ap suc (length-set xs i v)

-- The numbers of `l` that equal `a`, counted.
abbrev pub count : ℕ → List ℕ → ℕ
count a [] = 0
count a (x ∷ l) = (if x == a then 1 else 0) + count a l

-- `a in l`
abbrev pub contains : List ℕ → ℕ → Bool
contains [] a = false
contains (x ∷ l) a = (x == a) || contains l a

-- `l.remove(a)`: the first occurrence goes.
abbrev pub erase : List ℕ → ℕ → List ℕ
erase [] a = []
erase (x ∷ l) a = if x == a then l else x ∷ erase l a

pub contains-count : (l : List ℕ) (a : ℕ) → contains l a ≡ ltb 0 (count a l)
contains-count [] a = ground arith
contains-count (x ∷ l) a = ground (arith, contains-count l a)

pub count-append : (b : ℕ) (l l' : List ℕ) → count b (l ++ l') ≡ count b l + count b l'
count-append b [] l' = ground arith
count-append b (first ∷ l) l' = ground (arith, count-append b l l')

pub count-erase :
    (b : ℕ) (l : List ℕ) (a : ℕ)
    → contains l a ≡ true
    → count b (erase l a) + (if a == b then 1 else 0) ≡ count b l
count-erase b [] a h = ground arith
count-erase b (x ∷ l) a h = ground (arith, count-erase b l a)

pub length-erase : (l : List ℕ) (a : ℕ) → contains l a ≡ true → length (erase l a) + 1 ≡ length l
length-erase [] a h = ground arith
length-erase (x ∷ l) a h = ground (arith, length-erase l a)

pub List-cases {ℓ} :
    {A : Type ℓ} (l : List A) → (l ≡ []) ⊎ ((x : A) × (rest : List A) × (l ≡ x ∷ rest))
List-cases [] = inl refl
List-cases (x ∷ rest) = inr (x, rest, refl)

pub get_elem?-set :
    {A : Type 0} (l : List A) (i j : ℕ) (a : A)
    → get_elem? (set l i a) j
      ≡ (if i == j then (if ltb i (length l) then some a else none) else get_elem? l j)
get_elem?-set [] i j a = ground arith
get_elem?-set (x ∷ l) zero zero a = ground arith
get_elem?-set (x ∷ l) zero (suc j) a = ground arith
get_elem?-set (x ∷ l) (suc i) zero a = ground arith
get_elem?-set (x ∷ l) (suc i) (suc j) a = ground (arith, get_elem?-set l i j a)

pub map-set :
    {A B : Type 0} (f : A → B) (l : List A) (i : ℕ) (a : A)
    → map f (set l i a) ≡ set (map f l) i (f a)
map-set f [] i a = refl
map-set f (x ∷ l) zero a = refl
map-set f (x ∷ l) (suc i) a = ap (λ r. f x ∷ r) (map-set f l i a)

pub map-replicate :
    {A B : Type 0} (f : A → B) (n : ℕ) (a : A) → map f (replicate n a) ≡ replicate n (f a)
map-replicate f zero a = refl
map-replicate f (suc n) a = ap (λ r. f a ∷ r) (map-replicate f n a)
