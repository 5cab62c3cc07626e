-- ===== src/PagedCache.antt =====
-- src/inference/paged_kv_cache.py: the cache over a pool of blocks, with a table for each slot.
-- A `Row` is the key and the value of one token in one layer, which are written and read together.
-- The tensors are the map `store`, from a layer, a block and an offset in it.
pub mod Ownership
pub mod History
use nifre.Prelude.{
  ℕ, zero, suc, ◌+◌, ◌-◌, ◌*◌, ◌/◌, Bool, true, false, List, [], ◌∷◌, ◌++◌, Option, none, some,
  length, get_elem?, set, replicate, ltb, leb, ◌==◌, if◌then◌else◌, update, min, map,
}
use nifre.Prelude.Exec.{
  Exec, Outcome, ok, raised, value_error, index_error, assertion_error, runtime_error, pure, raise,
  raise_if, get_state, modify, when, lift, item, ◌>>=◌, ◌>>◌,
}
use nifre.Allocator
use nifre.Allocator.{Allocator}
use nifre.BlockTable.{
  BlockTable, Shared, new_table, import_blocks, ensure_capacity, resolve, clear, blocks_for,
}
use nifre.PrefixCache.{PrefixCache, Caching, new_cache, lookup, insert}

-- The constructor's arguments that the methods read.
pub record Config : Type 0 where
  pub num_layers : ℕ
  pub max_seq_len : ℕ
  pub block_size : ℕ
  pub enable_prefix_cache : Bool
  pub prefix_cache_max_entries : ℕ

-- The fields that `init_batch` sets.
pub record Paged (Row : Type 0) : Type 0 where
  pub config : Config
  pub pos : List ℕ
  pub pool : Allocator
  pub tables : List BlockTable
  pub prefix : Option PrefixCache
  pub store : ℕ → ℕ → ℕ → Row

abbrev pub or_raise : {A B : Type 0} → Outcome A → (A → Outcome B) → Outcome B
or_raise (ok a) f = f a
or_raise (raised e) f = raised e

-- `PrefixCache(...) if self.enable_prefix_cache else None`
unfoldable pub make_prefix : Config → Outcome (Option PrefixCache)
unfolding new_cache
make_prefix c =
    if c.enable_prefix_cache
    then or_raise (new_cache c.block_size c.prefix_cache_max_entries) (λ p. ok (some p))
    else ok none

module _ {Row : Type 0} where
  abbrev pub new_batch :
      (ℕ → ℕ → ℕ → Row) → Config → ℕ → BlockTable → Allocator → Option PrefixCache → Paged Row
  new_batch blank c batch_size table pool prefix = record {
    config = c;
    pos = replicate batch_size 0;
    pool = pool;
    tables = replicate batch_size table;
    prefix = prefix;
    store = blank;
  }

  -- `init_batch`, on a cache that the constructor made; `blank` is what `torch.empty` leaves.
  unfoldable pub init_batch : (ℕ → ℕ → ℕ → Row) → Config → ℕ → Outcome (Paged Row)
  init_batch blank c batch_size = or_raise (new_table c.block_size) λ table.
      or_raise (Allocator.init (blocks_for c.block_size c.max_seq_len * batch_size)) λ pool.
        or_raise (make_prefix c) λ prefix. ok (new_batch blank c batch_size table pool prefix)

  -- A method of the table of a slot, or of the prefix cache.
  abbrev pub on_table : {A : Type 0} → ℕ → Exec Shared A → Exec (Paged Row) A
  on_table i m s = elim (get_elem? s.tables i) [
    | none ↦ (raised index_error, s)
    | some t ↦
        let (r, s') = m (record { pool = s.pool; table = t }) in
        (r, record s { pool = s'.pool; tables = set s.tables i s'.table })
  ]

  abbrev pub on_cache : {A : Type 0} → PrefixCache → Exec Caching A → Exec (Paged Row) A
  on_cache c m s =
      let (r, s') = m (record { pool = s.pool; cache = c }) in
      (r, record s { pool = s'.pool; prefix = some s'.cache })

  -- `self.pos[batch_idx] = n`
  unfoldable pub set_pos : ℕ → ℕ → Exec (Paged Row) (Unit {0})
  set_pos i n = do
    s ← get_state
    raise_if (leb (length s.pos) i) index_error
    modify (λ s. record s { pos = set s.pos i n })

  -- The slot loads the blocks that a lookup matched, if it matched any.
  unfoldable pub load_matched : ℕ → ℕ → List ℕ → Exec (Paged Row) ℕ
  unfolding set_pos
  load_matched i zero blocks = pure 0
  load_matched i (suc n) blocks = do
    on_table i (import_blocks blocks)
    set_pos i (suc n)
    pure (suc n)

  unfoldable pub try_load_prefix : (ℕ → List ℕ → ℕ) → ℕ → List ℕ → Exec (Paged Row) ℕ
  unfolding load_matched
  try_load_prefix hash i token_ids s = elim s.prefix [
    | none ↦ (ok 0, s)
    | some c ↦
        let (found, c') = lookup hash token_ids c in
        load_matched i found.0 found.1 (record s { prefix = some c' })
  ]

  unfoldable pub register_prefix : (ℕ → List ℕ → ℕ) → ℕ → List ℕ → Exec (Paged Row) (Unit {0})
  register_prefix hash i token_ids s = elim s.prefix [
    | none ↦ (ok tt, s)
    | some c ↦
        (do t ← item (get_elem? s.tables i); on_cache c (insert hash token_ids t.physical_blocks)) s
  ]

  -- `self.k[layer_id][block, offset] = key[token_offset]`, and the value.
  abbrev pub write_row : ℕ → ℕ → ℕ → Row → Paged Row → Paged Row
  write_row layer b o r s = record s {
    store = update s.store layer (update (s.store layer) b (update (s.store layer b) o r));
  }

  -- The loop over the new tokens, from position `p` on.
  unfoldable pub write_rows : BlockTable → ℕ → ℕ → List Row → Exec (Paged Row) (Unit {0})
  unfolding resolve
  write_rows t layer p [] = pure tt
  write_rows t layer p (r ∷ rows) = do
    (b, o) ← lift (resolve t p)
    s ← get_state
    raise_if (leb s.config.num_layers layer) index_error
    modify (write_row layer b o r)
    write_rows t layer (suc p) rows

  unfoldable pub append : ℕ → ℕ → List Row → Exec (Paged Row) (Unit {0})
  unfolding write_rows set_pos
  append i layer rows = do
    s ← get_state
    p ← item (get_elem? s.pos i)
    raise_if (ltb s.config.max_seq_len (p + length rows)) assertion_error
    on_table i (ensure_capacity (p + length rows))
    s ← get_state
    t ← item (get_elem? s.tables i)
    write_rows t layer p rows
    when (suc layer == s.config.num_layers) (set_pos i (p + length rows))

  -- `range(n)` from a start.
  unfoldable pub read_rows : (ℕ → Row) → ℕ → ℕ → List Row
  read_rows block start zero = []
  read_rows block start (suc n) = block start ∷ read_rows block (suc start) n

  -- The loop of `get`; it ends when nothing remains.
  unfoldable pub gather : (ℕ → ℕ → Row) → ℕ → List ℕ → ℕ → List Row
  unfolding read_rows
  gather layer block_size [] remaining = []
  gather layer block_size (b ∷ blocks) zero = []
  gather layer block_size (b ∷ blocks) (suc n) =
      let taken = min (suc n) block_size in
      read_rows (layer b) 0 taken ++ gather layer block_size blocks (suc n - taken)

  -- `torch.cat` refuses an empty list of blocks, and `self.k` a layer out of range.
  unfoldable pub get_filled : ℕ → ℕ → ℕ → Exec (Paged Row) (List Row)
  unfolding gather
  get_filled i layer zero = pure []
  get_filled i layer (suc n) = do
    s ← get_state
    t ← item (get_elem? s.tables i)
    raise_if (leb (length t.physical_blocks) 0) runtime_error
    raise_if (leb s.config.num_layers layer) index_error
    pure (gather (s.store layer) s.config.block_size t.physical_blocks (suc n))

  -- The rows of a slot in a layer.
  unfoldable pub get : ℕ → ℕ → Exec (Paged Row) (List Row)
  unfolding get_filled
  get i layer = do s ← get_state; p ← item (get_elem? s.pos i); get_filled i layer p

  -- `length(batch_idx)`
  unfoldable pub cached_length : ℕ → Exec (Paged Row) ℕ
  cached_length i = do s ← get_state; item (get_elem? s.pos i)

  unfoldable pub reset_slot : ℕ → Exec (Paged Row) (Unit {0})
  unfolding set_pos
  reset_slot i = do on_table i clear; set_pos i 0

  unfoldable pub allocated_blocks : Paged Row → ℕ
  allocated_blocks s = Allocator.allocated_count s.pool

  -- `free`: back to the state before `init_batch`, in which there is no batch.
  unfoldable pub free_cache : Option (Paged Row) → Option (Paged Row)
  free_cache s = none
