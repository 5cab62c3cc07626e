-- ===== src/OrderedDict.antt =====
-- Python's OrderedDict as the prefix caches use it (src/inference/prefix_cache.py and
-- src/inference/hf_kv_cache.py): keys are a parent hash with the tokens of a block, oldest first.
pub mod Laws
use nifre.Prelude.{
  ℕ, zero, suc, ◌+◌, ◌≡◌, refl, ap, ◌⊎◌, inl, inr, Bool, true, false, ◌&&◌, List, [], ◌∷◌, ◌++◌,
  Option, none, some, arith, ◌==◌, if◌then◌else◌, length, length-append, count, count-append, map,
  Bool-cases, ◌↔◌,
}

-- CacheKey
abbrev pub CacheKey : Type 0
CacheKey = ℕ × List ℕ

abbrev pub tokens_eq : List ℕ → List ℕ → Bool
tokens_eq [] [] = true
tokens_eq (x ∷ xs) (y ∷ ys) = (x == y) && tokens_eq xs ys
tokens_eq xs ys = false

unfoldable pub key_eq : CacheKey → CacheKey → Bool
key_eq (h, xs) (h', ys) = (h == h') && tokens_eq xs ys

tokens_eq→eq : (xs ys : List ℕ) → tokens_eq xs ys ≡ true → xs ≡ ys
tokens_eq→eq [] [] e = refl
tokens_eq→eq [] (y ∷ ys) e = cc
tokens_eq→eq (x ∷ xs) [] e = cc
tokens_eq→eq (x ∷ xs) (y ∷ ys) e = ground (arith, tokens_eq→eq xs ys)

tokens_eq_refl : (xs : List ℕ) → tokens_eq xs xs ≡ true
tokens_eq_refl [] = refl
tokens_eq_refl (x ∷ xs) = ground (arith, tokens_eq_refl xs)

pub key_eq→eq : (k j : CacheKey) → key_eq k j ≡ true → k ≡ j
unfolding key_eq
key_eq→eq (h, xs) (h', ys) e = ground (arith, tokens_eq→eq xs ys)

pub key_eq_refl : (k : CacheKey) → key_eq k k ≡ true
unfolding key_eq
key_eq_refl (h, xs) = ground (arith, tokens_eq_refl xs)

pub key_eq_iff : (k j : CacheKey) → (key_eq k j ≡ true) ↔ (k ≡ j)
key_eq_iff k j = (key_eq→eq k j, λ e. rw e (key_eq_refl j))

module _ {V : Type 0} where
  -- `d.get(k)`, and `k in d`
  unfoldable pub find : CacheKey → List (CacheKey × V) → Option V
  find k [] = none
  find k ((j, v) ∷ d) = if key_eq j k then some v else find k d

  -- `del d[k]`
  unfoldable pub without : CacheKey → List (CacheKey × V) → List (CacheKey × V)
  without k [] = []
  without k ((j, v) ∷ d) = if key_eq j k then d else (j, v) ∷ without k d

  -- `d.move_to_end(k)`, for a key that is there.
  unfoldable pub move_to_end : CacheKey → List (CacheKey × V) → List (CacheKey × V)
  move_to_end k d = elim (find k d) [ none ↦ d | some v ↦ without k d ++ (k, v) ∷ [] ]
