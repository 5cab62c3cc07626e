-- ===== src/BlockTable/Capacity.antt =====
-- src/inference/block_table.py, `ensure_capacity` and `resolve`: when they succeed, and what for.
use native.Mathlib.Nat.{le-div_iff_mul-le, mul-div-le, mul_comm, mod-lt}
use nifre.Prelude.{
  ℕ, zero, suc, ◌+◌, ◌-◌, ◌/◌, ◌%◌, ◌≤◌, ◌<◌, ◌≡◌, refl, sym, ap, ◌∙◌, ◌⊎◌, inl, inr, true, false,
  List, [], ◌∷◌, ◌++◌, some, length, get_elem?, ltb, length-append, Option-cases, arith,
  append_assoc, append-nil,
}
use nifre.Prelude.Exec.{Outcome, ok, raised, pool_exhausted, when}
use nifre.Allocator.{free_count}
use nifre.BlockTable.{BlockTable, Shared, grow, ensure_capacity, blocks_for, resolve}
use nifre.BlockTable.Ownership.{Holds, add_block-Adds}

-- The table got `extra` new blocks behind those that it had.
pub record Grown (rest : ℕ → ℕ) (extra : ℕ) (s s' : Shared) : Type 0 where
  pub added : List ℕ
  pub blocks : s'.table.physical_blocks ≡ s.table.physical_blocks ++ added
  pub extra_blocks : length added ≡ extra
  pub same_size : s'.table.block_size ≡ s.table.block_size
  pub holds : Holds rest s'

-- Every free block went to the table, and that was not enough.
pub record Exhausted (rest : ℕ → ℕ) (s s' : Shared) : Type 0 where
  pub none_free : free_count s'.pool ≡ 0
  pub added : List ℕ
  pub blocks : s'.table.physical_blocks ≡ s.table.physical_blocks ++ added
  pub holds : Holds rest s'

abbrev pub Growth : (ℕ → ℕ) → ℕ → Shared → Outcome (Unit {0}) × Shared → Type 0
Growth rest extra s r =
    ((extra ≤ free_count s.pool) × (s' : Shared) × (r ≡ (ok tt, s')) × Grown rest extra s s')
    ⊎ ((free_count s.pool < extra)
        × (s' : Shared) × (r ≡ (raised pool_exhausted, s'))
        × Exhausted rest s s')

-- Allocating the next block, `t` being the state with it.
Growth-next :
    (rest : ℕ → ℕ) (k b : ℕ) (s t : Shared) (r : Outcome (Unit {0}) × Shared)
    → t.table.physical_blocks ≡ s.table.physical_blocks ++ b ∷ []
    → t.table.block_size ≡ s.table.block_size
    → free_count t.pool + 1 ≡ free_count s.pool
    → Growth rest k t r
    → Growth rest (suc k) s r
Growth-next rest k b s t r e z f (inl (fits, s', p, g)) = inl (
  omega arith,
  s',
  p,
  record {
    added = b ∷ g.added;
    blocks =
        g.blocks ∙ ap (λ l. l ++ g.added) e ∙ append_assoc s.table.physical_blocks (b ∷ []) g.added;
    extra_blocks = ap suc g.extra_blocks;
    same_size = g.same_size ∙ z;
    holds = g.holds;
  },
)
Growth-next rest k b s t r e z f (inr (few, s', p, g)) = inr (
  omega arith,
  s',
  p,
  record {
    none_free = g.none_free;
    added = b ∷ g.added;
    blocks =
        g.blocks ∙ ap (λ l. l ++ g.added) e ∙ append_assoc s.table.physical_blocks (b ∷ []) g.added;
    holds = g.holds;
  },
)

grow-Growth :
    (rest : ℕ → ℕ) (f needed k : ℕ) (s : Shared)
    → Holds rest s
    → needed ≤ length s.table.physical_blocks + f
    → k ≡ needed - length s.table.physical_blocks
    → Growth rest k s (grow f needed s)
unfolding grow
grow-Growth rest zero needed k s h fuel e = inl (
  omega arith,
  s,
  refl,
  record {
    added = [];
    blocks = sym (append-nil s.table.physical_blocks);
    extra_blocks = omega arith;
    same_size = refl;
    holds = h;
  },
)
grow-Growth rest (suc f) needed zero s h fuel e =
    let done : ltb (length s.table.physical_blocks) needed ≡ false = ground arith in
    rw (done, when)
      (inl (
        omega arith,
        s,
        refl,
        record {
          added = [];
          blocks = sym (append-nil s.table.physical_blocks);
          extra_blocks = refl;
          same_size = refl;
          holds = h;
        },
      ))
grow-Growth rest (suc f) needed (suc k) s h fuel e =
    let more : ltb (length s.table.physical_blocks) needed ≡ true = ground arith in
    elim (add_block-Adds rest s h) [
      | inl (none_free, p) ↦
          rw (more, when, p)
            (inr (
              omega arith,
              s,
              refl,
              record {
                none_free = none_free;
                added = [];
                blocks = sym (append-nil s.table.physical_blocks);
                holds = h;
              },
            ))
      | inr (t, p, adds) ↦
          let l = ap length adds.blocks ∙ length-append s.table.physical_blocks (adds.block ∷ []) in
          rw (more, when, p)
            (Growth-next rest k adds.block s t (grow f needed t) adds.blocks adds.keeps.same_size
              adds.fewer
              (grow-Growth rest f needed k t adds.keeps.holds (omega arith) (omega arith)))
    ]

-- `ensure_capacity(total_tokens)` on a table that the pool accounts for. When the pool has as many
-- free blocks as the table lacks, it returns, and the table has gained exactly those behind its
-- old ones. Otherwise it raises BlockPoolExhaustedError, with every free block now in the table.
-- Either way the account still holds.
pub ensure_capacity-Growth :
    (rest : ℕ → ℕ) (total : ℕ) (s : Shared)
    → Holds rest s
    → Growth rest
        (blocks_for s.table.block_size total - length s.table.physical_blocks)
        s
        (ensure_capacity total s)
unfolding ensure_capacity
ensure_capacity-Growth rest total s h = grow-Growth rest _ _ _ s h (omega arith) refl

get_elem?-append :
    (xs ys : List ℕ) (i b : ℕ) → get_elem? xs i ≡ some b → get_elem? (xs ++ ys) i ≡ some b
get_elem?-append [] ys i b e = absurd (ground arith)
get_elem?-append (x ∷ xs) ys zero b e = e
get_elem?-append (x ∷ xs) ys (suc i) b e = get_elem?-append xs ys i b e

get_elem?-total : (xs : List ℕ) (i : ℕ) → i < length xs → (b : ℕ) × (get_elem? xs i ≡ some b)
get_elem?-total [] i h = elim h [ ]
get_elem?-total (x ∷ xs) zero h = (x, refl)
get_elem?-total (x ∷ xs) (suc i) h = get_elem?-total xs i (omega arith)

-- The blocks that `ensure_capacity` counts are enough for every token below the total.
block_in_range :
    (block_size total i : ℕ)
    → 0 < block_size
    → i < total
    → i / block_size < blocks_for block_size total
unfolding blocks_for
block_in_range n total i p h =
    (le-div_iff_mul-le p).1 (omega (arith, mul-div-le i n, mul_comm (i / n) n))

-- A table with blocks enough for `total` tokens resolves each of them, to the block of the table
-- at the token's index over the block size, and an offset inside that block.
pub resolve-in_block :
    (t : BlockTable) (total i : ℕ)
    → 0 < t.block_size
    → blocks_for t.block_size total ≤ length t.physical_blocks
    → i < total
    → (b : ℕ) × (resolve t i ≡ ok (b, i % t.block_size))
      × (get_elem? t.physical_blocks (i / t.block_size) ≡ some b)
      × (i % t.block_size < t.block_size)
unfolding resolve
resolve-in_block t total i p enough h =
    let r = block_in_range t.block_size total i p h in
    let (b, e) = get_elem?-total t.physical_blocks (i / t.block_size) (omega arith) in
    (b, rw (e, resolve), e, mod-lt i p)

-- Blocks that are added behind do not change where a token is.
pub resolve-append :
    (t : BlockTable) (added : List ℕ) (i b o : ℕ)
    → resolve t i ≡ ok (b, o)
    → resolve (record t { physical_blocks = t.physical_blocks ++ added }) i ≡ ok (b, o)
unfolding resolve
resolve-append t added i b o h =
    elim (Option-cases (get_elem? t.physical_blocks (i / t.block_size))) [
      | inl e ↦ absurd (ground arith)
      | inr (c, e) ↦ rw (get_elem?-append t.physical_blocks added _ c e, resolve) (ground arith)
    ]
