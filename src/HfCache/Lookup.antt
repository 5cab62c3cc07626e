-- ===== src/HfCache/Lookup.antt =====
-- src/inference/hf_kv_cache.py, `_BlockPrefixCache.lookup`.
use native.Mathlib.Nat.{mod-add-div'}
use nifre.Prelude.{
  ℕ, zero, suc, ◌+◌, ◌-◌, ◌*◌, ◌/◌, ◌≤◌, ◌<◌, ◌≡◌, false, refl, sym, ap, ◌∙◌, ◌⊎◌, inl, inr, List,
  [], ◌∷◌, ◌++◌, Option, none, some, length, get_elem?, ◌==◌, arith, length-append,
}
use nifre.Prelude.Exec.{Outcome, ok, raise_if}
use nifre.OrderedDict.{CacheKey}
use nifre.PrefixCache.{walk, root_hash}
use nifre.PrefixCache.Lookup.{IsLongest, Reordered, walk-Longest, chain_hash}
use nifre.HfCache.{
  Past, BlockCache, past_length, set_entries, layer_rows, join_layers, found, lookup, block_bytes,
}
use nifre.HfCache.Prefix.{BlockValid, BlockKeeps}

-- The rows of one layer of a block, and of all blocks in turn.
abbrev pub rows_or_none : {Row : Type 0} → Option (List Row) → List Row
rows_or_none none = []
rows_or_none (some rows) = rows

abbrev pub rows_at : {Row : Type 0} → ℕ → Past Row → List Row
rows_at layer block = rows_or_none (get_elem? block layer)

abbrev pub all_rows : {Row : Type 0} → ℕ → List (Past Row) → List Row
all_rows layer [] = []
all_rows layer (block ∷ blocks) = rows_at layer block ++ all_rows layer blocks

module _ {Row : Type 0} (num_layers size : ℕ) where
  -- Every block of the list has `size` rows in its first layer, and `num_layers` layers.
  abbrev Even : List (Past Row) → Type 0
  Even [] = Unit {0}
  Even (block ∷ blocks) = (past_length block ≡ size) × (length block ≡ num_layers) × Even blocks

  Even-intro :
      (blocks : List (Past Row))
      → ((i : ℕ) (block : Past Row)
          → get_elem? blocks i ≡ some block
          → (past_length block ≡ size) × (length block ≡ num_layers))
      → Even blocks
  Even-intro [] h = tt
  Even-intro (block ∷ blocks) h =
      let first = h 0 block refl in (first.0, first.1, Even-intro blocks (λ i b e. h (suc i) b e))

  elem_below :
      (block : Past Row) (layer : ℕ)
      → layer < length block
      → (rows : List Row) × (get_elem? block layer ≡ some rows)
        × (layer ≡ 0 → length rows ≡ past_length block)
  elem_below [] layer h = absurd (omega arith)
  elem_below (rows ∷ block) zero h = (rows, refl, λ e. refl)
  elem_below (rows ∷ block) (suc layer) h =
      let (found_rows, e, _) = elem_below block layer (omega arith) in
      (found_rows, e, λ z. absurd (omega arith))

  layer_rows-ok :
      (blocks : List (Past Row)) (layer : ℕ)
      → Even blocks
      → layer < num_layers
      → (rows : List Row) × (layer_rows layer blocks ≡ ok rows)
        × (layer ≡ 0 → length rows ≡ length blocks * size)
        × (rows ≡ all_rows layer blocks)
  unfolding layer_rows
  layer_rows-ok [] layer even h = ([], refl, λ e. omega arith, refl)
  layer_rows-ok (block ∷ blocks) layer (rows_eq, depth, even) h =
      let (first, e, l) = elem_below block layer (omega arith) in
      let own : rows_at layer block ≡ first = ap rows_or_none e in
      let (rest, e', l', q) = layer_rows-ok blocks layer even h in
      (
        first ++ rest,
        rw (e, layer_rows, e') refl,
        λ z. omega (arith, l z, l' z, length-append first rest, rows_eq),
        ap (λ r. first ++ r) q ∙ ap (λ r. r ++ all_rows layer blocks) (sym own),
      )

  join_layers-ok :
      (n layer : ℕ) (blocks : List (Past Row))
      → Even blocks
      → layer + n ≤ num_layers
      → (layers : Past Row) × (join_layers layer n blocks ≡ ok layers)
        × (length layers ≡ n)
        × (layer ≡ 0 → 0 < n → past_length layers ≡ length blocks * size)
        × ((i j : ℕ) → i < n → j ≡ layer + i → get_elem? layers i ≡ some (all_rows j blocks))
  unfolding join_layers
  join_layers-ok zero layer blocks even h =
      ([], refl, refl, λ e p. absurd (omega arith), λ i j p q. absurd (omega arith))
  join_layers-ok (suc n) layer blocks even h =
      let (rows, e, l, q) = layer_rows-ok blocks layer even (omega arith) in
      let (rest, e', d, _, qs) = join_layers-ok n (suc layer) blocks even (omega arith) in
      (
        rows ∷ rest,
        rw (e, join_layers, e') refl,
        ap suc d,
        λ z p. l z,
        λ i j p r. rows_of_layer rows rest q qs i j p r,
      )
    where
      rows_of_layer :
          (rows : List Row) (rest : Past Row)
          → rows ≡ all_rows layer blocks
          → ((i j : ℕ) → i < n → j ≡ suc layer + i → get_elem? rest i ≡ some (all_rows j blocks))
          → (i j : ℕ) → i < suc n
          → j ≡ layer + i
          → get_elem? (rows ∷ rest) i ≡ some (all_rows j blocks)
      rows_of_layer rows rest q qs zero j p r = let z : j ≡ layer = omega arith in rw z (ap some q)
      rows_of_layer rows rest q qs (suc i) j p r = qs i j (omega arith) (omega arith)

below : (n len size : ℕ) → n ≤ (len - 1) / size → 0 < n → n * size < len
below n len size h p = grind (arith, mod-add-div')

-- What a lookup finds: nothing, or the rows of the longest cached prefix in every layer. At least
-- one token of the prompt is left for the model.
pub record Found {Row : Type 0} (num_layers : ℕ) (hash : ℕ → List ℕ → ℕ) (token_ids : List ℕ)
    (c : BlockCache Row) (result : Outcome (Option (Past Row))) : Type 0 where
  pub blocks : List (Past Row)
  pub longest :
      IsLongest hash c.block_size token_ids c.entries
        ((length token_ids - 1) / c.block_size)
        0
        blocks
  pub leaves_token : 0 < length blocks → length blocks * c.block_size < length token_ids
  pub answer :
      ((blocks ≡ []) × (result ≡ ok none))
      ⊎ ((layers : Past Row) × (result ≡ ok (some layers))
          × (length layers ≡ num_layers)
          × (past_length layers ≡ length blocks * c.block_size)
          × (0 < length blocks)
          × ((layer : ℕ)
              → layer < num_layers
              → get_elem? layers layer ≡ some (all_rows layer blocks)))

module _ {Row : Type 0} (row_bytes num_layers : ℕ) (hash : ℕ → List ℕ → ℕ) where
  found-Keeps :
      (blocks : List (Past Row)) (c : BlockCache Row)
      → BlockValid row_bytes num_layers c
      → BlockKeeps row_bytes num_layers c (found blocks c).1
  found-Keeps [] c v = record {
    valid = record {
      dict = v.dict;
      sized = v.sized;
      layered = v.layered;
      memory = v.memory;
      counted = omega (arith, v.counted);
      bounded = v.bounded;
      positive = v.positive;
    };
    same_size = refl;
    same_max = refl;
  }
  found-Keeps (block ∷ blocks) c v = record {
    valid = record {
      dict = v.dict;
      sized = v.sized;
      layered = v.layered;
      memory = v.memory;
      counted = omega (arith, v.counted);
      bounded = v.bounded;
      positive = v.positive;
    };
    same_size = refl;
    same_max = refl;
  }

  Reordered-Keeps :
      (c : BlockCache Row) (d : List (CacheKey × Past Row))
      → BlockValid row_bytes num_layers c
      → Reordered c.entries d
      → BlockValid row_bytes num_layers (set_entries d c)
  Reordered-Keeps c d v r = record {
    dict = r.dict;
    sized = λ k b e. v.sized k b (sym (r.answers k) ∙ e);
    layered = λ k b e. v.layered k b (sym (r.answers k) ∙ e);
    memory = v.memory ∙ sym (r.totals (block_bytes row_bytes));
    counted = v.counted;
    bounded = omega (arith, v.bounded, r.size);
    positive = v.positive;
  }

  found_answer :
      (size : ℕ) (blocks : List (Past Row)) (c : BlockCache Row)
      → 0 < size
      → Even num_layers size blocks
      → ((blocks ≡ []) × ((found blocks c).0 ≡ ok none))
        ⊎ ((layers : Past Row) × ((found blocks c).0 ≡ ok (some layers))
            × (length layers ≡ num_layers)
            × (past_length layers ≡ length blocks * size)
            × (0 < length blocks)
            × ((layer : ℕ)
                → layer < num_layers
                → get_elem? layers layer ≡ some (all_rows layer blocks)))
  found_answer size [] c pos even = inl (refl, refl)
  found_answer size ([] ∷ blocks) c pos (rows_eq, depth, even) = absurd (omega arith)
  found_answer size ((rows ∷ block) ∷ blocks) c pos even =
      let all = (rows ∷ block) ∷ blocks in
      let (layers, e, d, l, q) =
        join_layers-ok num_layers size (suc (length block)) 0 all even (omega arith) in
      inr (
        layers,
        rw (e, found) refl,
        d ∙ even.1,
        l refl (omega arith),
        omega arith,
        λ layer p. q layer layer (omega (arith, even.1)) (omega arith),
      )

  -- `lookup` of a prompt in a cache of blocks that is not of size zero, with its invariant. It
  -- returns; the result is nothing if the first block is not cached, and otherwise it has all
  -- layers, and in each of them the rows of the blocks of the longest chain of cached blocks, one
  -- block after the other; the chain leaves at least one token of the prompt. The invariant still
  -- holds.
  pub lookup-Found :
      (token_ids : List ℕ) (c : BlockCache Row)
      → BlockValid row_bytes num_layers c
      → 0 < c.block_size
      → Found num_layers hash token_ids c (lookup row_bytes hash token_ids c).0
        × BlockKeeps row_bytes num_layers c (lookup row_bytes hash token_ids c).1
  unfolding lookup chain_hash
  lookup-Found token_ids c v pos =
      let out =
        walk hash c.block_size ((length token_ids - 1) / c.block_size) 0 root_hash token_ids
          c.entries in
      let nonzero : (c.block_size == 0) ≡ false = ground arith in
      let (longest, order) =
        walk-Longest hash c.block_size ((length token_ids - 1) / c.block_size) 0 token_ids c.entries
          v.dict in
      let even : Even num_layers c.block_size out.0 =
        Even-intro num_layers c.block_size out.0 (λ i block e.
          let cached = longest.cached i i block (omega arith) e in
          (v.sized _ block cached, v.layered _ block cached)) in
      let kept = found-Keeps out.0 (set_entries out.1 c) (Reordered-Keeps c out.1 v order) in
      rw (nonzero, raise_if)
        (
          record {
            blocks = out.0;
            longest = longest;
            leaves_token =
                λ p. below (length out.0) (length token_ids) c.block_size longest.within p;
            answer = found_answer c.block_size out.0 (set_entries out.1 c) pos even;
          },
          record { valid = kept.valid; same_size = kept.same_size; same_max = kept.same_max },
        )
