-- ===== src/Allocator/Allocation.antt =====
-- src/inference/block_allocator.py, `allocate_many` and `allocate` against the ledger of `Accounts`.
use nifre.Prelude.{
  ℕ, zero, suc, ◌+◌, ◌≤◌, ◌<◌, ◌≡◌, refl, ◌⊎◌, inl, inr, List, [], ◌∷◌, arith, length, List-cases,
  count, ltb, Bool-cases,
}
use nifre.Prelude.Exec.{ok, raised, value_error, pool_exhausted}
use nifre.Allocator.{Allocator, claim, take_blocks, allocate, allocate_many, free_count}
use nifre.Allocator.Accounts.{Accounts, hold, Accounts-ext, claim-Accounts, claim-unheld}

-- What `k` rounds of the loop do: `k` blocks that nobody held, each once, are now held once more.
pub record Allocates (own : ℕ → ℕ) (a : Allocator) (k : ℕ) (l : List ℕ) (a' : Allocator)
    : Type 0 where
  pub size : length l ≡ k
  pub fresh : (b : ℕ) → 0 < count b l → own b ≡ 0
  pub distinct : (b : ℕ) → count b l ≤ 1
  pub accounts : Accounts (hold own l) a'
  pub pool : a'.num_blocks ≡ a.num_blocks
  pub fewer : length a'.free + k ≡ length a.free

take_blocks-next :
    (k : ℕ) (a : Allocator) (b : ℕ) (rest l : List ℕ) {a' : Allocator}
    → a.free ≡ b ∷ rest
    → take_blocks k (claim b rest a) ≡ (ok l, a')
    → take_blocks (suc k) a ≡ (ok (b ∷ l), a')
unfolding take_blocks
take_blocks-next k a b rest l e p = ground arith

Allocates-next :
    (own : ℕ → ℕ) (k : ℕ) (a : Allocator) (b : ℕ) (rest l : List ℕ) {a' : Allocator}
    → Accounts own a
    → a.free ≡ b ∷ rest
    → Allocates (hold own (b ∷ [])) (claim b rest a) k l a'
    → Allocates own a (suc k) (b ∷ l) a'
Allocates-next own k a b rest l h e next = record {
  size = ground (arith, next.size);
  fresh = λ j p. ground (arith, next.fresh j, claim-unheld own a h b rest e);
  distinct = λ j. ground (arith, next.distinct j, next.fresh j);
  accounts = Accounts-ext (λ j. omega arith) next.accounts;
  pool = next.pool;
  fewer = ground (arith, next.fewer);
}

pub take_blocks-Allocates :
    (own : ℕ → ℕ) (k : ℕ) (a : Allocator)
    → Accounts own a
    → k ≤ length a.free
    → (l : List ℕ) × (a' : Allocator) × (take_blocks k a ≡ (ok l, a')) × Allocates own a k l a'
unfolding take_blocks
take_blocks-Allocates own zero a h fits = (
  [],
  a,
  refl,
  record {
    size = refl;
    fresh = λ b p. ground arith;
    distinct = λ b. ground arith;
    accounts = Accounts-ext (λ b. omega arith) h;
    pool = refl;
    fewer = ground arith;
  },
)
take_blocks-Allocates own (suc k) a h fits = elim (List-cases a.free) [
  | inl e ↦ absurd (ground arith)
  | inr (b, rest, e) ↦
      let (l, a', p, next) =
        take_blocks-Allocates (hold own (b ∷ [])) k (claim b rest a)
          (claim-Accounts own a h b rest e) (ground arith) in
      (b ∷ l, a', take_blocks-next k a b rest l e p, Allocates-next own k a b rest l h e next)
]

-- The three outcomes of `allocate_many(k)`.
abbrev pub Allocating : (ℕ → ℕ) → Allocator → ℕ → Type 0
Allocating own a k =
    ((k ≡ 0) × (allocate_many k a ≡ (raised value_error, a)))
    ⊎ (((0 < k) × (free_count a < k) × (allocate_many k a ≡ (raised pool_exhausted, a)))
        ⊎ ((0 < k)
            × (k ≤ free_count a)
            × (l : List ℕ) × (a' : Allocator) × (allocate_many k a ≡ (ok l, a'))
            × Allocates own a k l a'))

-- `allocate_many(count)` on a pool that the ledger accounts for. It refuses a count of 0, and a
-- count above the number of free blocks, without a change. Otherwise it returns that many blocks,
-- each once and none of them held before; afterwards each is held once, nothing else has changed
-- hands, and as many fewer blocks are free.
pub allocate_many-Accounts :
    (own : ℕ → ℕ) (a : Allocator) (k : ℕ) → Accounts own a → Allocating own a k
unfolding allocate_many
allocate_many-Accounts own a zero h = inl (refl, refl)
allocate_many-Accounts own a (suc k) h = elim (Bool-cases (ltb (length a.free) (suc k))) [
  | inl few ↦ inr (inl (ground arith, ground arith, ground arith))
  | inr enough ↦
      let (l, a', p, done) = take_blocks-Allocates own (suc k) a h (ground arith) in
      inr (inr (ground arith, ground arith, l, a', ground arith, done))
]

only_block : (l : List ℕ) → length l ≡ 1 → (b : ℕ) × (l ≡ b ∷ [])
only_block [] e = absurd (omega arith)
only_block (b ∷ []) e = (b, refl)
only_block (b ∷ c ∷ l) e = absurd (omega arith)

-- `allocate()` raises on an empty pool without a change, and otherwise returns one block that
-- nobody held.
pub allocate-Accounts :
    (own : ℕ → ℕ) (a : Allocator)
    → Accounts own a
    → ((free_count a ≡ 0) × (allocate a ≡ (raised pool_exhausted, a)))
      ⊎ ((0 < free_count a)
          × (b : ℕ) × (a' : Allocator) × (allocate a ≡ (ok b, a'))
          × (own b ≡ 0)
          × Accounts (hold own (b ∷ [])) a'
          × (a'.num_blocks ≡ a.num_blocks)
          × (free_count a' + 1 ≡ free_count a))
unfolding allocate free_count
allocate-Accounts own a h = elim (allocate_many-Accounts own a 1 h) [
  | inl (e, _) ↦ absurd (omega arith)
  | inr (inl (_, few, e)) ↦ inl (omega arith, rw e)
  | inr (inr (_, enough, l, a', e, done)) ↦
      let (b, single) = only_block l done.size in
      let f = done.fresh b in
      inr (
        omega arith,
        b,
        a',
        rw (e, single),
        ground arith,
        rw single at done.accounts,
        done.pool,
        done.fewer,
      )
]
