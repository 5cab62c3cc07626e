-- ===== src/Tests/Blocks.antt =====
-- The block pool and a block table at small inputs.
use nifre.Prelude.{ℕ, ◌<◌, ◌≡◌, refl, [], ◌∷◌, arith, some, update, ◌==◌, if◌then◌else◌, get_elem?}
use nifre.Prelude.Exec.{ok}
use nifre.Prelude.Int.{pos}
use nifre.Allocator.{Allocator, init, allocate_many, free_many}
use nifre.Allocator.Accounts.{Accounts, Accounts-ext, init-Accounts}
use nifre.Allocator.Allocation.{Allocating, allocate_many-Accounts}
use nifre.Allocator.Release.{Releasing, release-Accounts, free_many-Accounts, unhold}
use nifre.BlockTable.{BlockTable, Shared, ensure_capacity, resolve, blocks_for}
use nifre.BlockTable.Capacity.{Growth, ensure_capacity-Growth, resolve-in_block}

abbrev fresh_pool : Allocator
fresh_pool = record { num_blocks = 3; free = 2 ∷ 1 ∷ 0 ∷ []; in_use = []; refcount = λ b. pos 0 }

fresh_pool-Accounts : Accounts (λ b. 0) fresh_pool
unfolding init
fresh_pool-Accounts = init-Accounts 3 refl

allocate_many_runs : (allocate_many 2 fresh_pool).0 ≡ ok (2 ∷ 1 ∷ [])
unfolding allocate_many
allocate_many_runs = refl

allocate_many-Accounts_example : Allocating (λ b. 0) fresh_pool 2
allocate_many-Accounts_example = allocate_many-Accounts (λ b. 0) fresh_pool 2 fresh_pool-Accounts

-- Block 1 with two references, block 2 with one, block 0 free.
abbrev used_pool : Allocator
used_pool = record {
  num_blocks = 3;
  free = 0 ∷ [];
  in_use = 1 ∷ 2 ∷ [];
  refcount = update (update (λ b. pos 0) 1 (pos 2)) 2 (pos 1);
}

abbrev used_by : ℕ → ℕ
used_by b = if b == 1 then 2 else if b == 2 then 1 else 0

used_pool-Accounts : Accounts used_by used_pool
used_pool-Accounts = record {
  placed = λ b. ground arith;
  held = λ b. ground arith;
  counted = λ b. ground arith;
  total = refl;
}

release-Accounts_example : Releasing used_by used_pool 2
release-Accounts_example = release-Accounts used_by used_pool 2 used_pool-Accounts

free_many-Accounts_example :
    (a' : Allocator) × (free_many (1 ∷ 2 ∷ []) used_pool ≡ (ok tt, a'))
    × Accounts (unhold used_by (1 ∷ 2 ∷ [])) a'
    × (a'.num_blocks ≡ 3)
free_many-Accounts_example =
    free_many-Accounts used_by used_pool (1 ∷ 2 ∷ []) used_pool-Accounts (λ b. ground arith)
      (λ b p. ground arith)

-- Room for five tokens in blocks of two, where the table has one block and the pool one to give.
abbrev sharing : Shared
sharing = record { pool = used_pool; table = record { block_size = 2; physical_blocks = 2 ∷ [] } }

abbrev other_holders : ℕ → ℕ
other_holders b = if b == 1 then 2 else 0

ensure_capacity-Growth_example : Growth other_holders 2 sharing (ensure_capacity 5 sharing)
unfolding blocks_for
ensure_capacity-Growth_example =
    ensure_capacity-Growth other_holders 5 sharing
      (Accounts-ext {own = used_by} (λ b. ground arith) used_pool-Accounts)

abbrev long_table : BlockTable
long_table = record { block_size = 2; physical_blocks = 7 ∷ 4 ∷ [] }

resolve-in_block_example :
    (b : ℕ) × (resolve long_table 3 ≡ ok (b, 1)) × (get_elem? (7 ∷ 4 ∷ []) 1 ≡ some b) × (1 < 2)
unfolding blocks_for
resolve-in_block_example = resolve-in_block long_table 4 3 (omega arith) (omega arith) (omega arith)
