-- ===== src/BlockTable.antt =====
-- src/inference/block_table.py: the blocks of one sequence. The allocator is shared, so a method
-- runs on the pool and the table together.
pub mod Ownership
pub mod Capacity
use nifre.Prelude.{
  ℕ, zero, suc, ◌+◌, ◌-◌, ◌/◌, ◌%◌, Bool, true, false, not, List, [], ◌∷◌, ◌++◌, some, none, length,
  get_elem?, ltb, leb, if◌then◌else◌,
}
use nifre.Prelude.Exec.{
  Exec, Outcome, ok, raised, value_error, index_error, pure, raise, raise_if, get_state, modify,
  when, ◌>>=◌, ◌>>◌,
}
use nifre.Allocator.{Allocator, allocate, retain, free_many}

pub record BlockTable : Type 0 where
  pub block_size : ℕ
  pub physical_blocks : List ℕ

-- A table beside the pool that it shares.
pub record Shared : Type 0 where
  pub pool : Allocator
  pub table : BlockTable

abbrev pub on_pool : {A : Type 0} → Exec Allocator A → Exec Shared A
on_pool m s = let (r, p) = m s.pool in (r, record s { pool = p })

-- BlockTable(allocator, block_size)
unfoldable pub new_table : ℕ → Outcome BlockTable
new_table zero = raised value_error
new_table (suc n) = ok (record { block_size = suc n; physical_blocks = [] })

abbrev pub is_nonempty : List ℕ → Bool
is_nonempty [] = false
is_nonempty (b ∷ l) = true

abbrev pub set_blocks : List ℕ → Shared → Shared
set_blocks l s = record s { table = record s.table { physical_blocks = l } }

unfoldable pub retain_all : List ℕ → Exec Allocator (Unit {0})
retain_all [] = pure tt
retain_all (b ∷ l) = do retain b; retain_all l

unfoldable pub import_blocks : List ℕ → Exec Shared (Unit {0})
unfolding retain_all
import_blocks l = do
  s ← get_state
  raise_if (is_nonempty s.table.physical_blocks) value_error
  on_pool (retain_all l)
  modify (set_blocks l)

-- One round of the loop of `ensure_capacity`.
unfoldable pub add_block : Exec Shared (Unit {0})
add_block = do b ← on_pool allocate; modify (λ s. set_blocks (s.table.physical_blocks ++ b ∷ []) s)

-- The loop; `needed` rounds are fuel enough, since each one adds a block.
unfoldable pub grow : ℕ → ℕ → Exec Shared (Unit {0})
unfolding add_block
grow zero needed = pure tt
grow (suc f) needed = do
  s ← get_state
  when (ltb (length s.table.physical_blocks) needed) (add_block >> grow f needed)

-- `(total_tokens + block_size - 1) // block_size`
unfoldable pub blocks_for : ℕ → ℕ → ℕ
blocks_for block_size total = (total + block_size - 1) / block_size

-- Token counts are natural numbers, so `total_tokens < 0` is never so.
unfoldable pub ensure_capacity : ℕ → Exec Shared (Unit {0})
unfolding grow
ensure_capacity total = do
  s ← get_state
  grow (blocks_for s.table.block_size total) (blocks_for s.table.block_size total)

-- The block and the offset in it.
unfoldable pub resolve : BlockTable → ℕ → Outcome (ℕ × ℕ)
resolve t i = elim (get_elem? t.physical_blocks (i / t.block_size)) [
  | none ↦ raised index_error
  | some b ↦ ok (b, i % t.block_size)
]

unfoldable pub clear : Exec Shared (Unit {0})
clear = do
  s ← get_state
  when (is_nonempty s.table.physical_blocks)
      (on_pool (free_many s.table.physical_blocks) >> modify (set_blocks []))
