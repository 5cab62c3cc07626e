-- ===== src/HfCache/Methods.antt =====
-- src/inference/hf_kv_cache.py, the class HFKVCache, and the forward pass over its slots of
-- src/inference/backends/hf_auto.py. The model itself is a parameter: from the token ids of a
-- row and the past of its slot, it yields what the object of that past holds afterwards, and the
-- new past with the greedy token, or an exception.
use nifre.Prelude.{
  ℕ, ◌-◌, Bool, true, false, List, [], ◌∷◌, Option, none, some, length, get_elem?, set, replicate,
  drop, ltb, if◌then◌else◌,
}
use nifre.Prelude.Exec.{
  Exec, Outcome, ok, raised, value_error, index_error, type_error, pure, raise, raise_if, get_state,
  modify, lift, item, ◌>>=◌, ◌>>◌,
}
use nifre.HfCache.{Past, BlockCache, HfCache, new_block_cache, past_length, insert, lookup, clear}
use nifre.Engine.{Backend}

module _ {Row : Type 0} where
  -- HFKVCache(...) and `init_batch(batch_size)`; `block_size` is used with a prefix cache only.
  unfoldable pub make_prefix : Bool → ℕ → ℕ → Option (BlockCache Row)
  unfolding new_block_cache
  make_prefix false block_size max_entries = none
  make_prefix true block_size max_entries = some (new_block_cache block_size max_entries)

  unfoldable pub new_hf_cache : ℕ → Bool → ℕ → ℕ → HfCache Row
  unfolding make_prefix
  new_hf_cache max_seq_len enable_prefix_cache block_size max_entries = record {
    max_seq_len = max_seq_len;
    pos = [];
    past = [];
    prefix = make_prefix enable_prefix_cache block_size max_entries;
  }

  unfoldable pub init_batch : ℕ → Exec (HfCache Row) (Unit {0})
  init_batch batch_size =
      modify (λ c. record c { pos = replicate batch_size 0; past = replicate batch_size none })

  unfoldable pub get_past : ℕ → Exec (HfCache Row) (Option (Past Row))
  get_past i = do c ← get_state; item (get_elem? c.past i)

  abbrev pub filled : ℕ → Option (Past Row) → ℕ → HfCache Row → HfCache Row
  filled i p n c = record c { past = set c.past i p; pos = set c.pos i n }

  unfoldable pub set_past : ℕ → Past Row → Exec (HfCache Row) (Unit {0})
  set_past i p = do
    c ← get_state
    raise_if (ltb c.max_seq_len (past_length p)) value_error
    old ← item (get_elem? c.past i)
    modify (filled i (some p) (past_length p))

  unfoldable pub reset_slot : ℕ → Exec (HfCache Row) (Unit {0})
  reset_slot i = do c ← get_state; old ← item (get_elem? c.past i); modify (filled i none 0)

  abbrev pub cleared : Option (BlockCache Row) → Option (BlockCache Row)
  cleared none = none
  cleared (some b) = some (clear b)

  unfoldable pub free : HfCache Row → HfCache Row
  free c = record c { pos = []; past = []; prefix = cleared c.prefix }

  -- A method of the prefix cache.
  abbrev pub on_prefix :
      {A : Type 0} → BlockCache Row → Exec (BlockCache Row) A → Exec (HfCache Row) A
  on_prefix b m c = let (r, b') = m b in (r, record c { prefix = some b' })

  -- `layer_tensors[0][0].shape[2]`
  abbrev pub matched_length : Past Row → Exec (HfCache Row) ℕ
  matched_length [] = raise index_error
  matched_length (layer ∷ layers) = pure (length layer)

  abbrev pub load_layers : ℕ → Option (Past Row) → Exec (HfCache Row) ℕ
  load_layers i none = pure 0
  load_layers i (some layers) = do
    matched_len ← matched_length layers
    c ← get_state
    old ← item (get_elem? c.past i)
    modify (filled i (some layers) matched_len)
    pure matched_len

module _ {Row : Type 0} (row_bytes : ℕ) (hash : ℕ → List ℕ → ℕ) where
  unfoldable pub register_past :
      BlockCache Row → List ℕ → Option (Past Row) → Exec (HfCache Row) (Unit {0})
  unfolding insert
  register_past b token_ids none = pure tt
  register_past b token_ids (some p) =
      on_prefix b (insert row_bytes hash token_ids p (past_length p))

  unfoldable pub register_with :
      Option (BlockCache Row) → ℕ → List ℕ → Exec (HfCache Row) (Unit {0})
  unfolding register_past
  register_with none i token_ids = pure tt
  register_with (some b) i token_ids = do
    c ← get_state
    p ← item (get_elem? c.past i)
    register_past b token_ids p

  unfoldable pub register_prefix : ℕ → List ℕ → Exec (HfCache Row) (Unit {0})
  unfolding register_with
  register_prefix i token_ids = do c ← get_state; register_with c.prefix i token_ids

  unfoldable pub load_with : Option (BlockCache Row) → ℕ → List ℕ → Exec (HfCache Row) ℕ
  unfolding lookup
  load_with none i token_ids = pure 0
  load_with (some b) i token_ids = do
    layers ← on_prefix b (lookup row_bytes hash token_ids)
    load_layers i layers

  unfoldable pub try_load_prefix : ℕ → List ℕ → Exec (HfCache Row) ℕ
  unfolding load_with
  try_load_prefix i token_ids = do c ← get_state; load_with c.prefix i token_ids

-- The ids of a row that the model gets: with a number of tokens, the last ones. For a number above
-- the length the slice starts at a negative index, which counts from the end.
unfoldable pub row_ids : Option ℕ → List ℕ → List ℕ
row_ids none row = row
row_ids (some input_len) row =
    if ltb (length row) input_len
    then drop (length row - (input_len - length row)) row
    else drop (length row - input_len) row

-- `input_lens[i]` for the rows in turn.
abbrev pub first_len : Option (List ℕ) → Outcome (Option ℕ)
first_len none = ok none
first_len (some []) = raised index_error
first_len (some (n ∷ lens)) = ok (some n)

abbrev pub rest_lens : Option (List ℕ) → Option (List ℕ)
rest_lens none = none
rest_lens (some []) = some []
rest_lens (some (n ∷ lens)) = some lens

abbrev pub first_slot : List ℕ → Outcome ℕ
first_slot [] = raised index_error
first_slot (slot ∷ slots) = ok slot

-- The object in a slot after a call that it was passed to; of None nothing is passed.
abbrev pub held : {Row : Type 0} → Option (Past Row) → Past Row → Option (Past Row)
held none grown = none
held (some old) grown = some grown

abbrev pub with_grown : {Row : Type 0} → ℕ → Option (Past Row) → HfCache Row → HfCache Row
with_grown slot q c = record c { past = set c.past slot q }

module _ {Row : Type 0}
    (model : List ℕ → Option (Past Row) → Past Row × Outcome (Past Row × ℕ)) where
  -- The model writes into the past that it is passed, also when it raises: the object stands in the
  -- slot all the time, and has what the model left in it before `set_past` is called.
  unfoldable pub forward_row : List ℕ → Option ℕ → ℕ → Exec (HfCache Row) ℕ
  unfolding get_past row_ids set_past
  forward_row row input_len slot = do
    past ← get_past slot
    let (grown, result) = model (row_ids input_len row) past
    modify (with_grown slot (held past grown))
    out ← lift result
    set_past slot out.0
    pure out.1

  -- `__call__` with a cache and slots.
  unfoldable pub forward : List (List ℕ) → Option (List ℕ) → List ℕ → Exec (HfCache Row) (List ℕ)
  unfolding forward_row
  forward [] lens slots = pure []
  forward (row ∷ rows) lens slots = do
    slot ← lift (first_slot slots)
    input_len ← lift (first_len lens)
    token ← forward_row row input_len slot
    tokens ← forward rows (rest_lens lens) (drop 1 slots)
    pure (token ∷ tokens)

  module _ (row_bytes : ℕ) (hash : ℕ → List ℕ → ℕ) (max_seq_len block_size pad_id : ℕ) where
    -- HfCausalLM as the engine's model. The engine takes its `make_kv_cache`, and so never asks
    -- for one of its own caches.
    unfoldable pub hf_backend : Backend (HfCache Row)
    unfolding new_hf_cache init_batch try_load_prefix register_prefix reset_slot forward
    hf_backend = record {
      supports_paged_kv_cache = false;
      supports_prefix_cache = true;
      make_model_cache = some (λ prefix. ok (new_hf_cache max_seq_len prefix block_size 1024));
      make_paged_kv_cache = λ prefix. raised type_error;
      make_kv_cache = raised type_error;
      init_batch = init_batch;
      try_load_prefix = some (try_load_prefix row_bytes hash);
      register_prefix = some (register_prefix row_bytes hash);
      reset_slot = reset_slot;
      pad_token_id = pad_id;
      forward = forward;
    }
