-- ===== src/Scheduler/Sorting.antt =====
-- src/inference/scheduler.py: the sorting of the free slots.
use mathlib.Core.Path.{subst}
use nifre.Prelude.{
  ℕ, ◌≤◌, ◌≡◌, refl, inl, inr, List, [], ◌∷◌, count, leb, if◌then◌else◌, Bool-cases, arith,
}

-- `list.sort`
insert_sorted : ℕ → List ℕ → List ℕ
insert_sorted x [] = x ∷ []
insert_sorted x (y ∷ l) = if leb x y then x ∷ y ∷ l else y ∷ insert_sorted x l

unfoldable pub sort : List ℕ → List ℕ
unfolding insert_sorted
sort [] = []
sort (x ∷ l) = insert_sorted x (sort l)

-- No element is above the next one.
abbrev pub IsSorted : List ℕ → Type 0
IsSorted [] = Unit {0}
IsSorted (x ∷ []) = Unit {0}
IsSorted (x ∷ y ∷ l) = (x ≤ y) × IsSorted (y ∷ l)

insert_sorted-IsSorted : (x : ℕ) (l : List ℕ) → IsSorted l → IsSorted (insert_sorted x l)
unfolding insert_sorted
insert_sorted-IsSorted x [] h = tt
insert_sorted-IsSorted x (y ∷ []) h = elim (Bool-cases (leb x y)) [
  | inl e ↦ rw e (ground arith, tt)
  | inr e ↦ rw e (ground arith, tt)
]
insert_sorted-IsSorted x (y ∷ z ∷ l) h =
    let rest = insert_sorted-IsSorted x (z ∷ l) h.1 in
    elim (Bool-cases (leb x y)) [
      | inl e ↦ rw e (ground arith, h)
      | inr e ↦ rw e (elim (Bool-cases (leb x z)) [
        | inl f ↦ rw f (ground arith, (ground arith, h.1))
        | inr f ↦
            rw f
              (h.0, subst (λ b. IsSorted (if b then x ∷ z ∷ l else z ∷ insert_sorted x l)) f rest)
      ])
    ]

pub sort-IsSorted : (l : List ℕ) → IsSorted (sort l)
unfolding sort
sort-IsSorted [] = tt
sort-IsSorted (x ∷ l) = insert_sorted-IsSorted x (sort l) (sort-IsSorted l)

count-insert_sorted : (k x : ℕ) (l : List ℕ) → count k (insert_sorted x l) ≡ count k (x ∷ l)
unfolding insert_sorted
count-insert_sorted k x [] = refl
count-insert_sorted k x (y ∷ l) = ground (arith, count-insert_sorted k x l)

pub count-sort : (k : ℕ) (l : List ℕ) → count k (sort l) ≡ count k l
unfolding sort
count-sort k [] = refl
count-sort k (x ∷ l) = omega (arith, count-insert_sorted k x (sort l), count-sort k l)
