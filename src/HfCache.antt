-- ===== src/HfCache.antt =====
-- src/inference/hf_kv_cache.py: the cache for models of other libraries, with its block prefix
-- cache. A `Past` holds, for each layer of the model, the rows (key and value) of the cached
-- tokens; the length of a past is that of its first layer. The shape and the type of a row are
-- fixed by the model: `row_bytes` are the bytes of one row. The time that a lookup takes is not
-- modelled.
pub mod Methods
pub mod Prefix
pub mod Insert
pub mod Lookup
pub mod Slots
pub mod Forward
pub mod Load
pub mod Eviction
use nifre.Prelude.{
  ℕ, zero, suc, ◌+◌, ◌-◌, ◌*◌, ◌/◌, Bool, true, false, List, [], ◌∷◌, ◌++◌, Option, none, some,
  length, get_elem?, set, replicate, take, drop, map, min, ltb, leb, ◌==◌, if◌then◌else◌,
}
use nifre.Prelude.Exec.{
  Exec, Outcome, ok, raised, value_error, index_error, key_error, zero_division_error, pure,
  raise_if, get_state, modify, when, lift, item, ◌>>=◌, ◌>>◌,
}
use nifre.OrderedDict.{CacheKey, find, move_to_end}
use nifre.PrefixCache.{block_tokens, walk, root_hash, is_missing}

abbrev pub Past : Type 0 → Type 0
Past Row = List (List Row)

-- The block prefix cache. `memory_bytes` never falls below zero, since what is taken from it was
-- added before.
pub record BlockCache (Row : Type 0) : Type 0 where
  pub block_size : ℕ
  pub max_entries : ℕ
  pub entries : List (CacheKey × Past Row)
  pub lookups : ℕ
  pub hits : ℕ
  pub misses : ℕ
  pub tokens_reused : ℕ
  pub memory_bytes : ℕ

-- The cache after `init_batch`.
pub record HfCache (Row : Type 0) : Type 0 where
  pub max_seq_len : ℕ
  pub pos : List ℕ
  pub past : List (Option (Past Row))
  pub prefix : Option (BlockCache Row)

module _ {Row : Type 0} where
  abbrev pub past_length : Past Row → ℕ
  past_length [] = 0
  past_length (layer ∷ layers) = length layer

  -- `past_key_values_length`, of None too.
  abbrev pub past_key_values_length : Option (Past Row) → ℕ
  past_key_values_length none = 0
  past_key_values_length (some p) = past_length p

  abbrev pub rows_of : Past Row → ℕ
  rows_of [] = 0
  rows_of (layer ∷ layers) = length layer + rows_of layers

  unfoldable pub new_block_cache : ℕ → ℕ → BlockCache Row
  new_block_cache block_size max_entries = record {
    block_size = block_size;
    max_entries = max_entries;
    entries = [];
    lookups = 0;
    hits = 0;
    misses = 0;
    tokens_reused = 0;
    memory_bytes = 0;
  }

  abbrev pub set_entries : List (CacheKey × Past Row) → BlockCache Row → BlockCache Row
  set_entries d c = record c { entries = d }

  -- `keys[:, :, start:stop, :]` of each layer, and the values.
  unfoldable pub block_slices : ℕ → ℕ → Past Row → Past Row
  block_slices block_size start layers = map (λ rows. take block_size (drop start rows)) layers

  -- The rows of one layer, from all blocks.
  unfoldable pub layer_rows : ℕ → List (Past Row) → Outcome (List Row)
  layer_rows layer [] = ok []
  layer_rows layer (block ∷ blocks) =
      let rest = layer_rows layer blocks in
      elim (get_elem? block layer) [
        | none ↦ raised index_error
        | some rows ↦ elim rest [ raised e ↦ raised e | ok more ↦ ok (rows ++ more) ]
      ]

  -- The layers from `layer` on, `n` of them.
  unfoldable pub join_layers : ℕ → ℕ → List (Past Row) → Outcome (Past Row)
  unfolding layer_rows
  join_layers layer zero blocks = ok []
  join_layers layer (suc n) blocks =
      let rest = join_layers (suc layer) n blocks in
      elim (layer_rows layer blocks) [
        | raised e ↦ raised e
        | ok rows ↦ elim rest [ raised e ↦ raised e | ok more ↦ ok (rows ∷ more) ]
      ]

  -- The counters of `lookup`, without and with a match.
  abbrev pub count_miss : BlockCache Row → BlockCache Row
  count_miss c = record c { lookups = c.lookups + 1; misses = c.misses + 1 }

  abbrev pub count_hit : ℕ → BlockCache Row → BlockCache Row
  count_hit blocks c = record c {
    lookups = c.lookups + 1;
    hits = c.hits + 1;
    tokens_reused = c.tokens_reused + blocks * c.block_size;
  }

  abbrev pub found : List (Past Row) → Exec (BlockCache Row) (Option (Past Row))
  found [] c = (ok none, count_miss c)
  found (first ∷ blocks) c = (
    elim (join_layers 0 (length first) (first ∷ blocks)) [
      | raised e ↦ raised e
      | ok layers ↦ ok (some layers)
    ],
    count_hit (suc (length blocks)) c,
  )

  unfoldable pub clear : BlockCache Row → BlockCache Row
  clear c = record c { entries = []; memory_bytes = 0 }

module _ {Row : Type 0} (row_bytes : ℕ) where
  abbrev pub block_bytes : Past Row → ℕ
  block_bytes block = rows_of block * row_bytes

  unfoldable pub evict_oldest : Exec (BlockCache Row) (Unit {0})
  evict_oldest c = elim c.entries [
    | [] ↦ (raised key_error, c)
    | (key, block) ∷ rest ↦
        (ok tt, record c { entries = rest; memory_bytes = c.memory_bytes - block_bytes block })
  ]

  -- The loop of evictions; as many rounds as there are entries, and one more, are fuel enough.
  unfoldable pub make_room : ℕ → Exec (BlockCache Row) (Unit {0})
  unfolding evict_oldest
  make_room zero = pure tt
  make_room (suc fuel) = do
    c ← get_state
    when (leb c.max_entries (length c.entries)) (evict_oldest >> make_room fuel)

  abbrev pub put_entry : CacheKey → Past Row → BlockCache Row → BlockCache Row
  put_entry key block c = record c {
    entries = c.entries ++ (key, block) ∷ [];
    memory_bytes = c.memory_bytes + block_bytes block;
  }

  -- The body of `if key not in self.entries`.
  unfoldable pub add_entry : CacheKey → Past Row → Exec (BlockCache Row) (Unit {0})
  unfolding make_room
  add_entry key block = do
    c ← get_state
    make_room (suc (length c.entries))
    modify (put_entry key block)

  unfoldable pub touch_entry : CacheKey → Past Row → Exec (BlockCache Row) (Unit {0})
  unfolding add_entry find move_to_end
  touch_entry key block = do
    c ← get_state
    when (is_missing (find key c.entries)) (add_entry key block)
    modify (λ c. set_entries (move_to_end key c.entries) c)

  module _ (hash : ℕ → List ℕ → ℕ) where
    unfoldable pub insert_blocks :
        ℕ → ℕ → ℕ → ℕ → List ℕ → Past Row → Exec (BlockCache Row) (Unit {0})
    unfolding block_tokens touch_entry block_slices
    insert_blocks block_size zero idx parent token_ids layers = pure tt
    insert_blocks block_size (suc n) idx parent token_ids layers =
        let tokens = block_tokens block_size token_ids idx in
        (do
          touch_entry (parent, tokens) (block_slices block_size (idx * block_size) layers)
          insert_blocks block_size n (suc idx) (hash parent tokens) token_ids layers)

    -- `// self.block_size` raises for a block size of zero.
    unfoldable pub insert : List ℕ → Past Row → ℕ → Exec (BlockCache Row) (Unit {0})
    unfolding insert_blocks
    insert token_ids layers cached_len = do
      c ← get_state
      raise_if (c.block_size == 0) zero_division_error
      insert_blocks c.block_size (min (length token_ids) cached_len / c.block_size) 0 root_hash
          token_ids layers

    -- With no token, `(len - 1) // block_size` is negative, and there are no rounds either. The
    -- lookup is counted also when the division raises.
    unfoldable pub lookup : List ℕ → Exec (BlockCache Row) (Option (Past Row))
    unfolding walk join_layers
    lookup token_ids = do
      c ← get_state
      when (c.block_size == 0) (modify (λ c. record c { lookups = c.lookups + 1 }))
      raise_if (c.block_size == 0) zero_division_error
      let (blocks, d) =
          walk hash c.block_size ((length token_ids - 1) / c.block_size) 0 root_hash token_ids
            c.entries
      modify (set_entries d)
      found blocks
