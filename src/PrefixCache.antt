-- ===== src/PrefixCache.antt =====
-- src/inference/prefix_cache.py: block-chained prefix cache. Python's `hash` of a parent hash and
-- a block's tokens is the parameter `hash`; a hash value is named by a natural number.
pub mod Ownership
pub mod Lookup
use nifre.Prelude.{
  ℕ, zero, suc, ◌+◌, ◌*◌, ◌/◌, Bool, true, false, List, [], ◌∷◌, ◌++◌, Option, none, some, length,
  get_elem?, take, drop, ltb, leb, if◌then◌else◌,
}
use nifre.Prelude.Exec.{
  Exec, Outcome, ok, raised, value_error, key_error, pure, get_state, modify, when, ◌>>=◌, ◌>>◌,
}
use nifre.Allocator.{Allocator, retain, release}
use nifre.OrderedDict.{CacheKey, find, move_to_end}

pub record PrefixCache : Type 0 where
  pub block_size : ℕ
  pub max_entries : ℕ
  pub entries : List (CacheKey × ℕ)
  pub lookups : ℕ
  pub hits : ℕ
  pub tokens_saved : ℕ

-- The cache beside the pool that it shares.
pub record Caching : Type 0 where
  pub pool : Allocator
  pub cache : PrefixCache

abbrev pub on_pool : {A : Type 0} → Exec Allocator A → Exec Caching A
on_pool m s = let (r, p) = m s.pool in (r, record s { pool = p })

abbrev pub set_entries : List (CacheKey × ℕ) → Caching → Caching
set_entries d s = record s { cache = record s.cache { entries = d } }

-- ROOT_HASH
abbrev pub root_hash : ℕ
root_hash = 0

-- PrefixCache(block_allocator, block_size, max_entries)
unfoldable pub new_cache : ℕ → ℕ → Outcome PrefixCache
new_cache zero max_entries = raised value_error
new_cache (suc n) zero = raised value_error
new_cache (suc n) (suc m) = ok (record {
  block_size = suc n;
  max_entries = suc m;
  entries = [];
  lookups = 0;
  hits = 0;
  tokens_saved = 0;
})

-- `tuple(token_ids[start : start + block_size])` for the block at an index.
unfoldable pub block_tokens : ℕ → List ℕ → ℕ → List ℕ
block_tokens block_size token_ids idx = take block_size (drop (idx * block_size) token_ids)

-- `_evict_oldest`
unfoldable pub evict_oldest : Exec Caching (Unit {0})
evict_oldest s = elim s.cache.entries [
  | [] ↦ (raised key_error, s)
  | (key, b) ∷ rest ↦ on_pool (release b) (set_entries rest s)
]

-- `while len(self.entries) >= self.max_entries`; each round drops an entry, so as many rounds as
-- there are entries are fuel enough.
unfoldable pub make_room : ℕ → Exec Caching (Unit {0})
unfolding evict_oldest
make_room zero = pure tt
make_room (suc f) = do
  s ← get_state
  when (leb s.cache.max_entries (length s.cache.entries)) (evict_oldest >> make_room f)

-- The body of `if key not in self.entries`.
unfoldable pub add_entry : CacheKey → ℕ → Exec Caching (Unit {0})
unfolding make_room
add_entry key b = do
  s ← get_state
  make_room (suc (length s.cache.entries))
  modify (λ s. set_entries (s.cache.entries ++ (key, b) ∷ []) s)
  on_pool (retain b)

abbrev pub is_missing : {V : Type 0} → Option V → Bool
is_missing none = true
is_missing (some v) = false

-- One block of a prompt is registered: added if it is new, and made the most recent.
unfoldable pub touch_entry : CacheKey → ℕ → Exec Caching (Unit {0})
unfolding add_entry find move_to_end
touch_entry key b = do
  s ← get_state
  when (is_missing (find key s.cache.entries)) (add_entry key b)
  modify (λ s. set_entries (move_to_end key s.cache.entries) s)

-- The counters of `lookup`, at its start and its end.
abbrev pub count_lookup : PrefixCache → PrefixCache
count_lookup c = record c { lookups = c.lookups + 1 }

abbrev pub count_hit : ℕ → PrefixCache → PrefixCache
count_hit matched c = record c {
  hits = if ltb 0 matched then c.hits + 1 else c.hits;
  tokens_saved = if ltb 0 matched then c.tokens_saved + matched else c.tokens_saved;
}

module _ (hash : ℕ → List ℕ → ℕ) where
  -- The loop of `lookup`, from the block at `idx` on, for `n` more blocks: the matched blocks, and
  -- the entries with those moved to the end.
  unfoldable pub walk :
      {V : Type 0} → ℕ → ℕ → ℕ → ℕ → List ℕ → List (CacheKey × V) → List V × List (CacheKey × V)
  unfolding block_tokens find move_to_end
  walk block_size zero idx parent token_ids d = ([], d)
  walk block_size (suc n) idx parent token_ids d =
      let tokens = block_tokens block_size token_ids idx in
      elim (find (parent, tokens) d) [
        | none ↦ ([], d)
        | some b ↦
            let (blocks, d') =
              walk block_size n (suc idx) (hash parent tokens) token_ids
                (move_to_end (parent, tokens) d) in
            (b ∷ blocks, d')
      ]

  -- `(matched_tokens, matched_blocks)`; each matched block adds `block_size` tokens.
  unfoldable pub lookup : List ℕ → PrefixCache → (ℕ × List ℕ) × PrefixCache
  unfolding walk
  lookup token_ids c =
      let (blocks, d) =
        walk c.block_size (length token_ids / c.block_size) 0 root_hash token_ids c.entries in
      let matched = length blocks * c.block_size in
      ((matched, blocks), count_hit matched (record (count_lookup c) { entries = d }))

  -- The loop of `insert`; it ends where the physical blocks do.
  unfoldable pub insert_blocks : ℕ → ℕ → ℕ → ℕ → List ℕ → List ℕ → Exec Caching (Unit {0})
  unfolding block_tokens touch_entry
  insert_blocks block_size zero idx parent token_ids blocks = pure tt
  insert_blocks block_size (suc n) idx parent token_ids blocks =
      let tokens = block_tokens block_size token_ids idx in
      elim (get_elem? blocks idx) [
        | none ↦ pure tt
        | some b ↦ (do
          touch_entry (parent, tokens) b
          insert_blocks block_size n (suc idx) (hash parent tokens) token_ids blocks)
      ]

  unfoldable pub insert : List ℕ → List ℕ → Exec Caching (Unit {0})
  unfolding insert_blocks
  insert token_ids blocks = do
    s ← get_state
    insert_blocks s.cache.block_size (length token_ids / s.cache.block_size) 0 root_hash token_ids
        blocks
