-- ===== src/DenseCache.antt =====
-- src/inference/kv_cache.py: the cache with one row of the tensors for each slot. As in the paged
-- cache, the key and the value of a token are one `Row`, and the tensors are a map `store`, from a
-- layer, a slot and a position.
pub mod Rows
use nifre.Prelude.{
  ℕ, zero, suc, ◌+◌, Bool, true, false, List, [], ◌∷◌, ◌++◌, Option, none, some, length, get_elem?,
  set, replicate, ltb, leb, ◌==◌, if◌then◌else◌, update,
}
use nifre.Prelude.Exec.{
  Exec, ok, raised, index_error, assertion_error, pure, raise_if, get_state, modify, when, item,
  ◌>>=◌, ◌>>◌,
}
use nifre.PagedCache.{read_rows}

-- The cache after `init_batch`.
pub record Dense (Row : Type 0) : Type 0 where
  pub num_layers : ℕ
  pub max_seq_len : ℕ
  pub pos : List ℕ
  pub store : ℕ → ℕ → ℕ → Row

module _ {Row : Type 0} where
  -- A new batch; `blank` is what the tensors hold before they are written.
  unfoldable pub init_batch : ℕ → ℕ → (ℕ → ℕ → ℕ → Row) → ℕ → Dense Row
  init_batch num_layers max_seq_len blank batch_size = record {
    num_layers = num_layers;
    max_seq_len = max_seq_len;
    pos = replicate batch_size 0;
    store = blank;
  }

  -- `row[p : p + n] = rows`
  unfoldable pub write_from : List Row → ℕ → (ℕ → Row) → ℕ → Row
  write_from [] p slot = slot
  write_from (r ∷ rows) p slot = write_from rows (suc p) (update slot p r)

  abbrev pub written : ℕ → ℕ → ℕ → List Row → Dense Row → Dense Row
  written i layer p rows c = record c {
    store = update c.store layer (update (c.store layer) i (write_from rows p (c.store layer i)));
  }

  abbrev pub moved : ℕ → ℕ → Dense Row → Dense Row
  moved i p c = record c { pos = set c.pos i p }

  unfoldable pub append : ℕ → ℕ → List Row → Exec (Dense Row) (Unit {0})
  unfolding write_from
  append i layer rows = do
    c ← get_state
    p ← item (get_elem? c.pos i)
    raise_if (ltb c.max_seq_len (p + length rows)) assertion_error
    raise_if (leb c.num_layers layer) index_error
    modify (written i layer p rows)
    when (suc layer == c.num_layers) (modify (moved i (p + length rows)))

  unfoldable pub get : ℕ → ℕ → Exec (Dense Row) (List Row)
  unfolding read_rows
  get i layer = do
    c ← get_state
    p ← item (get_elem? c.pos i)
    raise_if (leb c.num_layers layer) index_error
    pure (read_rows (c.store layer i) 0 p)

  unfoldable pub cached_length : ℕ → Exec (Dense Row) ℕ
  cached_length i = do c ← get_state; item (get_elem? c.pos i)

  unfoldable pub reset_slot : ℕ → Exec (Dense Row) (Unit {0})
  reset_slot i = do c ← get_state; p ← item (get_elem? c.pos i); modify (moved i 0)
