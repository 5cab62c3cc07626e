-- ===== src/Allocator.antt =====
-- src/inference/block_allocator.py: the pool of physical KV blocks and their reference counts.
-- `_free` is held with its end first, so that `pop()` takes the head and `append` adds one.
-- `_refcount` is a map: its list has an entry for each block of the pool, and an index is read
-- or written behind a range check, or comes out of `_free`.
pub mod Accounts
pub mod Allocation
pub mod Release
use nifre.Prelude.{
  ℕ, zero, suc, List, [], ◌∷◌, not, length, contains, erase, leb, ltb, if◌then◌else◌, update,
}
use nifre.Prelude.Exec.{
  Exec, Outcome, ok, raised, value_error, pool_exhausted, index_error, pure, raise, raise_if,
  get_state, modify, ◌>>=◌, ◌>>◌,
}
use nifre.Prelude.Int.{ℤ, pos, inc, dec, is_negative, is_zero}

pub record Allocator : Type 0 where
  pub num_blocks : ℕ
  pub free : List ℕ
  pub in_use : List ℕ
  pub refcount : ℕ → ℤ

-- `list(range(n))`, its end first.
unfoldable pub range_reversed : ℕ → List ℕ
range_reversed zero = []
range_reversed (suc n) = n ∷ range_reversed n

-- BlockAllocator(num_blocks)
unfoldable pub init : ℕ → Outcome Allocator
unfolding range_reversed
init zero = raised value_error
init (suc n) = ok (record {
  num_blocks = suc n;
  free = range_reversed (suc n);
  in_use = [];
  refcount = λ b. pos 0;
})

unfoldable pub allocated_count : Allocator → ℕ
allocated_count a = length a.in_use

unfoldable pub free_count : Allocator → ℕ
free_count a = length a.free

-- `self._in_use.add(b)`
abbrev pub add_member : List ℕ → ℕ → List ℕ
add_member l b = if contains l b then l else b ∷ l

-- What one round of the loop of `allocate_many` writes.
abbrev pub claim : ℕ → List ℕ → Allocator → Allocator
claim b rest a = record a {
  free = rest;
  in_use = add_member a.in_use b;
  refcount = update a.refcount b (pos 1);
}

unfoldable pub take_block : Exec Allocator ℕ
take_block a = elim a.free [ [] ↦ (raised index_error, a) | b ∷ rest ↦ (ok b, claim b rest a) ]

-- The loop; the blocks in the order in which they were popped.
unfoldable pub take_blocks : ℕ → Exec Allocator (List ℕ)
unfolding take_block
take_blocks zero = pure []
take_blocks (suc k) = do b ← take_block; rest ← take_blocks k; pure (b ∷ rest)

unfoldable pub allocate_many : ℕ → Exec Allocator (List ℕ)
unfolding take_blocks free_count
allocate_many k = do
  a ← get_state
  raise_if (leb k 0) value_error
  raise_if (ltb (free_count a) k) pool_exhausted
  take_blocks k

-- `l[0]`
abbrev first_of_list : List ℕ → Exec Allocator ℕ
first_of_list [] = raise index_error
first_of_list (b ∷ l) = pure b

unfoldable pub allocate : Exec Allocator ℕ
unfolding allocate_many
allocate = do l ← allocate_many 1; first_of_list l

-- Block ids are natural numbers, so `block_id < 0` is never so.
unfoldable pub validate_block_id : ℕ → Exec Allocator (Unit {0})
validate_block_id b = do a ← get_state; raise_if (leb a.num_blocks b) value_error

-- `if block_id not in self._in_use: raise ValueError`
unfoldable pub require_in_use : ℕ → Exec Allocator (Unit {0})
require_in_use b = do a ← get_state; raise_if (not (contains a.in_use b)) value_error

-- `self._refcount[block_id] += 1` and `-= 1`.
abbrev pub count_up : ℕ → Allocator → Allocator
count_up b a = record a { refcount = update a.refcount b (inc (a.refcount b)) }

abbrev pub count_down : ℕ → Allocator → Allocator
count_down b a = record a { refcount = update a.refcount b (dec (a.refcount b)) }

unfoldable pub retain : ℕ → Exec Allocator (Unit {0})
unfolding validate_block_id require_in_use
retain b = do validate_block_id b; require_in_use b; modify (count_up b)

-- A block whose count came to zero goes back to the pool.
abbrev pub drop_if_zero : ℕ → Allocator → Allocator
drop_if_zero b a =
    if is_zero (a.refcount b) then record a { in_use = erase a.in_use b; free = b ∷ a.free } else a

unfoldable pub release : ℕ → Exec Allocator (Unit {0})
unfolding validate_block_id require_in_use
release b = do
  validate_block_id b
  require_in_use b
  modify (count_down b)
  a ← get_state
  raise_if (is_negative (a.refcount b)) value_error
  modify (drop_if_zero b)

unfoldable pub refcount_of : ℕ → Exec Allocator ℤ
unfolding validate_block_id
refcount_of b = do validate_block_id b; a ← get_state; pure (a.refcount b)

-- The first loop of `free_many`: every id in range, and none twice.
unfoldable pub validate_all : List ℕ → List ℕ → Exec Allocator (Unit {0})
unfolding validate_block_id
validate_all seen [] = pure tt
validate_all seen (b ∷ l) = do
  validate_block_id b
  raise_if (contains seen b) value_error
  validate_all (add_member seen b) l

-- The second loop.
unfoldable pub release_all : List ℕ → Exec Allocator (Unit {0})
unfolding release
release_all [] = pure tt
release_all (b ∷ l) = do release b; release_all l

-- On the empty list both loops do nothing, as the early return does.
unfoldable pub free_many : List ℕ → Exec Allocator (Unit {0})
unfolding validate_all release_all
free_many [] = pure tt
free_many (b ∷ l) = do validate_all [] (b ∷ l); release_all (b ∷ l)

unfoldable pub free_block : ℕ → Exec Allocator (Unit {0})
unfolding free_many
free_block b = free_many (b ∷ [])
