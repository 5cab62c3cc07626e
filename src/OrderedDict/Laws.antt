-- ===== src/OrderedDict/Laws.antt =====
-- The laws of the ordered dictionary. A key that stands once is found where it was put, whatever
-- moves to the end.
use mathlib.Core.Option.{some_inj}
use nifre.Prelude.{
  ℕ, ◌+◌, ◌<◌, ◌≡◌, inl, inr, List, [], ◌∷◌, ◌++◌, none, some, arith, ◌==◌, if◌then◌else◌, length,
  length-append, count, Option-cases, Bool-cases, inl, inr, ap, refl,
}
use nifre.OrderedDict.{CacheKey, key_eq, key_eq_iff, key_eq_refl, find, without, move_to_end}

module _ {V : Type 0} where
  -- No key stands twice.
  abbrev pub IsDict : List (CacheKey × V) → Type 0
  IsDict [] = Unit
  IsDict ((j, v) ∷ d) = (find j d ≡ none) × IsDict d

  pub find-cons-none :
      (k j : CacheKey) (v : V) (d : List (CacheKey × V))
      → find k ((j, v) ∷ d) ≡ none
      → find k d ≡ none
  unfolding find
  find-cons-none k j v d e = ground arith

  pub find-cons-some :
      (k j : CacheKey) (v w : V) (d : List (CacheKey × V))
      → IsDict ((j, v) ∷ d)
      → find k d ≡ some w
      → find k ((j, v) ∷ d) ≡ some w
  unfolding find
  find-cons-some k j v w d h e = ground (arith, h.0, key_eq_iff j k)

  pub find-append :
      (j k : CacheKey) (v : V) (d : List (CacheKey × V))
      → find j (d ++ (k, v) ∷ [])
        ≡ elim (find j d) [ none ↦ (if key_eq k j then some v else none) | some w ↦ some w ]
  unfolding find
  find-append j k v [] = ground arith
  find-append j k v ((i, w) ∷ d) = ground (arith, find-append j k v d)

  pub find-without :
      (j k : CacheKey) (d : List (CacheKey × V))
      → IsDict d
      → find j (without k d) ≡ (if key_eq k j then none else find j d)
  unfolding find without
  find-without j k [] h = ground arith
  find-without j k ((i, w) ∷ d) h =
      ground (arith, find-without j k d h.1, key_eq_iff i k, key_eq_iff i j, key_eq_iff k j, h.0)

  pub IsDict-without : (k : CacheKey) (d : List (CacheKey × V)) → IsDict d → IsDict (without k d)
  unfolding without
  IsDict-without k [] h = h
  IsDict-without k ((i, w) ∷ d) h = ground (arith, IsDict-without k d h.1, find-without i k d h.1)

  pub IsDict-append :
      (k : CacheKey) (v : V) (d : List (CacheKey × V))
      → IsDict d
      → find k d ≡ none
      → IsDict (d ++ (k, v) ∷ [])
  unfolding find
  IsDict-append k v [] h e = ground arith
  IsDict-append k v ((i, w) ∷ d) h e =
      ground (arith, IsDict-append k v d h.1, find-append i k v d, key_eq_iff i k, key_eq_iff k i)

  -- Moving an entry to the end changes no answer.
  pub find-move_to_end :
      (j k : CacheKey) (d : List (CacheKey × V)) → IsDict d → find j (move_to_end k d) ≡ find j d
  unfolding move_to_end
  find-move_to_end j k d h = elim (Option-cases (find k d)) [
    | inl e ↦ rw (e, move_to_end)
    | inr (v, e) ↦
        rw (e, move_to_end, find-append j k v (without k d), find-without j k d h)
          (ground (arith, key_eq_iff k j))
  ]

  pub IsDict-move_to_end :
      (k : CacheKey) (d : List (CacheKey × V)) → IsDict d → IsDict (move_to_end k d)
  unfolding move_to_end
  IsDict-move_to_end k d h = elim (Option-cases (find k d)) [
    | inl e ↦ rw (e, move_to_end) h
    | inr (v, e) ↦
        rw (e, move_to_end)
          (IsDict-append k v (without k d) (IsDict-without k d h)
            (ground (arith, find-without k k d h, key_eq_refl k)))
  ]

  pub length-without :
      (k : CacheKey) (d : List (CacheKey × V)) (v : V)
      → find k d ≡ some v
      → length (without k d) + 1 ≡ length d
  unfolding find without
  length-without k [] v e = ground arith
  length-without k ((i, w) ∷ d) v e = ground (arith, length-without k d v)

  pub length-move_to_end :
      (k : CacheKey) (d : List (CacheKey × V)) → length (move_to_end k d) ≡ length d
  unfolding move_to_end
  length-move_to_end k d = elim (Option-cases (find k d)) [
    | inl e ↦ rw (e, move_to_end)
    | inr (v, e) ↦
        rw (e, move_to_end)
          (omega (arith, length-without k d v e, length-append (without k d) ((k, v) ∷ [])))
  ]

  -- The sum of a measure over the entries' values.
  abbrev pub total : (V → ℕ) → List (CacheKey × V) → ℕ
  total f [] = 0
  total f ((j, v) ∷ d) = f v + total f d

  pub total-append :
      (f : V → ℕ) (k : CacheKey) (v : V) (d : List (CacheKey × V))
      → total f (d ++ (k, v) ∷ []) ≡ total f d + f v
  total-append f k v [] = omega arith
  total-append f k v ((i, w) ∷ d) = omega (arith, total-append f k v d)

  pub total-without :
      (f : V → ℕ) (k : CacheKey) (d : List (CacheKey × V)) (v : V)
      → find k d ≡ some v
      → total f (without k d) + f v ≡ total f d
  unfolding find without
  total-without f k [] v e = ground arith
  total-without f k ((i, w) ∷ d) v e = elim (Bool-cases (key_eq i k)) [
    | inl same ↦
        let found : w ≡ v = some_inj.0 (rw same at e) in rw same (omega (arith, ap f found))
    | inr other ↦ rw other (omega (arith, total-without f k d v (rw other at e)))
  ]

  pub total-move_to_end :
      (f : V → ℕ) (k : CacheKey) (d : List (CacheKey × V)) → total f (move_to_end k d) ≡ total f d
  unfolding move_to_end
  total-move_to_end f k d = elim (Option-cases (find k d)) [
    | inl e ↦ rw (e, move_to_end)
    | inr (v, e) ↦
        rw (e, move_to_end)
          (omega (arith, total-append f k v (without k d), total-without f k d v e))
  ]

-- The blocks that the entries hold.
abbrev pub values : List (CacheKey × ℕ) → List ℕ
values [] = []
values ((j, v) ∷ d) = v ∷ values d

-- 1 for a block.
abbrev pub is_block : ℕ → ℕ → ℕ
is_block b v = if v == b then 1 else 0

pub count-values : (b : ℕ) (d : List (CacheKey × ℕ)) → count b (values d) ≡ total (is_block b) d
count-values b [] = refl
count-values b ((j, v) ∷ d) = ground (arith, count-values b d)

pub count-values-append :
    (b v : ℕ) (k : CacheKey) (d : List (CacheKey × ℕ))
    → count b (values (d ++ (k, v) ∷ [])) ≡ count b (values d) + is_block b v
count-values-append b v k d =
    omega
      (arith, count-values b (d ++ (k, v) ∷ []), count-values b d, total-append (is_block b) k v d)

pub count-values-move_to_end :
    (b : ℕ) (k : CacheKey) (d : List (CacheKey × ℕ))
    → count b (values (move_to_end k d)) ≡ count b (values d)
count-values-move_to_end b k d =
    omega (
      arith,
      count-values b (move_to_end k d),
      count-values b d,
      total-move_to_end (is_block b) k d,
    )

pub count-values-find :
    (k : CacheKey) (d : List (CacheKey × ℕ)) (v : ℕ) → find k d ≡ some v → 0 < count v (values d)
unfolding find
count-values-find k [] v e = ground arith
count-values-find k ((i, w) ∷ d) v e = ground (arith, count-values-find k d v)
