-- ===== src/HfCache/Insert.antt =====
-- src/inference/hf_kv_cache.py, `_BlockPrefixCache.insert`: what stands in the cache afterwards.
use native.Mathlib.Nat.{mod-add-div'}
use mathlib.Core.Path.{subst}
use nifre.Prelude.{
  ℕ, zero, suc, ◌+◌, ◌*◌, ◌/◌, ◌≤◌, ◌<◌, ◌≡◌, false, refl, sym, ap, ◌∙◌, ◌⊎◌, inl, inr, List, [],
  ◌∷◌, Option, none, some, length, get_elem?, take, drop, min, ltb, ◌==◌, if◌then◌else◌, arith,
  length-take, length-drop,
}
use nifre.Prelude.Exec.{ok, raise_if}
use nifre.OrderedDict.{CacheKey, find}
use nifre.PrefixCache.{block_tokens, root_hash}
use nifre.PrefixCache.Lookup.{chain_hash, chain_key}
use nifre.HfCache.{Past, BlockCache, past_length, block_slices, insert_blocks, insert}
use nifre.HfCache.Prefix.{BlockValid, BlockKeeps, BlockKeeps-trans, Stores, touch_entry-Keeps}

-- Row `j` of a layer.
abbrev pub row_in : {Row : Type 0} → Option (List Row) → ℕ → Option Row
row_in none j = none
row_in (some rows) j = get_elem? rows j

abbrev pub row_at : {Row : Type 0} → Past Row → ℕ → ℕ → Option Row
row_at p layer j = row_in (get_elem? p layer) j

-- Block `i` of a past: in every layer the `size` rows from `i * size` on, and no others.
pub record IsBlockOf {Row : Type 0} (size i : ℕ) (layers block : Past Row) : Type 0 where
  pub all_layers : length block ≡ length layers
  pub rows :
      (layer j : ℕ)
      → row_at block layer j ≡ (if ltb j size then row_at layers layer (i * size + j) else none)

get_elem?-take :
    {A : Type 0} (n : ℕ) (l : List A) (j : ℕ)
    → get_elem? (take n l) j ≡ (if ltb j n then get_elem? l j else none)
get_elem?-take zero l j = ground arith
get_elem?-take (suc n) [] j = ground arith
get_elem?-take (suc n) (x ∷ l) zero = ground arith
get_elem?-take (suc n) (x ∷ l) (suc j) = ground (arith, get_elem?-take n l j)

get_elem?-drop :
    {A : Type 0} (n : ℕ) (l : List A) (j : ℕ) → get_elem? (drop n l) j ≡ get_elem? l (n + j)
get_elem?-drop zero l j = let z : j ≡ 0 + j = omega arith in ap (get_elem? l) z
get_elem?-drop (suc n) [] j = refl
get_elem?-drop (suc n) (x ∷ l) j =
    let z : suc (n + j) ≡ suc n + j = omega arith in get_elem?-drop n l j ∙ ap (get_elem? (x ∷ l)) z

module _ {Row : Type 0} where
  row_at-block_slices :
      (size start : ℕ) (layers : Past Row) (layer j : ℕ)
      → row_at (block_slices size start layers) layer j
        ≡ (if ltb j size then row_at layers layer (start + j) else none)
  unfolding block_slices
  row_at-block_slices size start [] layer j = ground arith
  row_at-block_slices size start (rows ∷ layers) zero j =
      get_elem?-take size (drop start rows) j
      ∙ ap (λ (o : Option Row). if ltb j size then o else none) (get_elem?-drop start rows j)
  row_at-block_slices size start (rows ∷ layers) (suc layer) j =
      row_at-block_slices size start layers layer j

  past_length-block_slices :
      (size start : ℕ) (layers : Past Row)
      → start + size ≤ past_length layers
      → past_length (block_slices size start layers) ≡ size
  unfolding block_slices
  past_length-block_slices size start [] h = omega arith
  past_length-block_slices size start (rows ∷ layers) h =
      omega (arith, length-take size (drop start rows), length-drop start rows)

  length-block_slices :
      (size start : ℕ) (layers : Past Row) → length (block_slices size start layers) ≡ length layers
  unfolding block_slices
  length-block_slices size start [] = refl
  length-block_slices size start (rows ∷ layers) = ap suc (length-block_slices size start layers)

  block_slices-IsBlockOf :
      (size i : ℕ) (layers : Past Row)
      → IsBlockOf size i layers (block_slices size (i * size) layers)
  block_slices-IsBlockOf size i layers = record {
    all_layers = length-block_slices size (i * size) layers;
    rows = row_at-block_slices size (i * size) layers;
  }

  module _ (hash : ℕ → List ℕ → ℕ) where
    -- Of a past, `n` blocks from block `idx` on are put into a cache. Each entry was there before, or
    -- stands under the key of one of these blocks and holds its rows; the last of them is there.
    pub record Inserted (size n idx : ℕ) (token_ids : List ℕ) (layers : Past Row)
        (c c' : BlockCache Row) : Type 0 where
      pub origin :
          (k : CacheKey) (b : Past Row)
          → find k c'.entries ≡ some b
          → (find k c.entries ≡ some b)
            ⊎ ((i : ℕ) × (idx ≤ i)
                × (i < idx + n)
                × (k ≡ chain_key hash size token_ids i)
                × IsBlockOf size i layers b)
      pub last :
          (m : ℕ)
          → n ≡ m + 1
          → (b : Past Row) × (find (chain_key hash size token_ids (idx + m)) c'.entries ≡ some b)
      pub unchanged : n ≡ 0 → c' ≡ c

    Inserted-next :
        (size n idx : ℕ) (token_ids : List ℕ) (layers : Past Row) (c t c' : BlockCache Row)
        → Stores (chain_key hash size token_ids idx) (block_slices size (idx * size) layers) c t
        → Inserted size n (suc idx) token_ids layers t c'
        → Inserted size (suc n) idx token_ids layers c c'
    Inserted-next size n idx token_ids layers c t c' first rest = record {
      origin = λ k b e. elim (rest.origin k b e) [
        | inr (i, from, to, key, rows) ↦ inr (i, omega arith, omega arith, key, rows)
        | inl there ↦ elim (first.origin k b there) [
          | inl before ↦ inl before
          | inr (key, same) ↦ inr (
            idx,
            omega arith,
            omega arith,
            key,
            subst (λ p. IsBlockOf size idx layers p) (sym same)
                (block_slices-IsBlockOf size idx layers),
          )
        ]
      ];
      last = λ m e. last_of m (omega arith);
      unchanged = λ e. absurd (omega arith);
    }
      where
        last_of :
            (m : ℕ)
            → n ≡ m
            → (b : Past Row) × (find (chain_key hash size token_ids (idx + m)) c'.entries ≡ some b)
        last_of zero e =
            let z : idx + 0 ≡ idx = omega arith in
            (
              first.stored.0,
              ap (λ j. find (chain_key hash size token_ids j) c'.entries) z
                  ∙ ap (λ (d : BlockCache Row). find (chain_key hash size token_ids idx) d.entries)
                      (rest.unchanged e)
                  ∙ first.stored.1,
            )
        last_of (suc m) e =
            let (b, f) = rest.last m (omega arith) in
            let z : idx + suc m ≡ suc idx + m = omega arith in
            (b, ap (λ j. find (chain_key hash size token_ids j) c'.entries) z ∙ f)

    module _ (row_bytes num_layers : ℕ) where
      insert_blocks-Inserted :
          (size n idx parent : ℕ) (token_ids : List ℕ) (layers : Past Row) (c : BlockCache Row)
          → BlockValid row_bytes num_layers c
          → c.block_size ≡ size
          → parent ≡ chain_hash hash size token_ids idx
          → length layers ≡ num_layers
          → idx * size + n * size ≤ past_length layers
          → (c' : BlockCache Row) × (insert_blocks row_bytes hash size n idx parent token_ids layers
                c
              ≡ (ok tt, c'))
            × BlockKeeps row_bytes num_layers c c'
            × Inserted size n idx token_ids layers c c'
      unfolding insert_blocks chain_hash
      insert_blocks-Inserted size zero idx parent token_ids layers c v e chain depth h = (
        c,
        refl,
        record { valid = v; same_size = refl; same_max = refl },
        record {
          origin = λ k b q. inl q;
          last = λ m q. absurd (omega arith);
          unchanged = λ q. refl;
        },
      )
      insert_blocks-Inserted size (suc n) idx parent token_ids layers c v e chain depth h =
          let tokens = block_tokens size token_ids idx in
          let block = block_slices size (idx * size) layers in
          let fits : past_length block ≡ c.block_size =
            past_length-block_slices size (idx * size) layers (omega (arith, h)) ∙ sym e in
          let (t, p, k, stores) =
            touch_entry-Keeps row_bytes num_layers c (parent, tokens) block v fits
              (length-block_slices size (idx * size) layers ∙ depth) in
          let (c', q, k', inserted) =
            insert_blocks-Inserted size n (suc idx) (hash parent tokens) token_ids layers t k.valid
              (k.same_size ∙ e) (ap (λ o. hash o tokens) chain) depth (omega (arith, h)) in
          let first = subst (λ o. Stores (o, tokens) block c t) chain stores in
          (
            c',
            rw p q,
            BlockKeeps-trans row_bytes num_layers k k',
            Inserted-next size n idx token_ids layers c t c' first inserted,
          )

      -- `insert` of the blocks of a prompt, from layers that hold as many tokens as it is told, into
      -- a cache whose block size is not zero. It returns. The cache keeps its invariant: no key
      -- twice, at most `max_entries` entries, and `memory_bytes` the sum of the bytes of all rows.
      -- Each entry was there before, or stands under the chained key of a full block of the prompt
      -- and holds just the rows of that block, in every layer. The last full block is there.
      pub insert-Inserted :
          (token_ids : List ℕ) (layers : Past Row) (c : BlockCache Row)
          → BlockValid row_bytes num_layers c
          → 0 < c.block_size
          → length layers ≡ num_layers
          → (c' : BlockCache Row) × (insert row_bytes hash token_ids layers (past_length layers) c
              ≡ (ok tt, c'))
            × BlockKeeps row_bytes num_layers c c'
            × Inserted c.block_size
                (min (length token_ids) (past_length layers) / c.block_size)
                0
                token_ids
                layers
                c
                c'
      unfolding insert chain_hash
      insert-Inserted token_ids layers c v pos depth =
          let n = min (length token_ids) (past_length layers) / c.block_size in
          let fits : 0 * c.block_size + n * c.block_size ≤ past_length layers =
            omega
              (arith, mod-add-div' (min (length token_ids) (past_length layers)) c.block_size) in
          let (c', p, k, inserted) =
            insert_blocks-Inserted c.block_size n 0 root_hash token_ids layers c v refl refl depth
              fits in
          let nonzero : (c.block_size == 0) ≡ false = ground arith in
          (c', rw (nonzero, raise_if) p, k, inserted)
