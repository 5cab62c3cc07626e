-- ===== src/Tests/Caches.antt =====
-- The prefix cache and the paged cache at small inputs.
use nifre.Prelude.{
  ℕ, zero, suc, ◌+◌, ◌*◌, ◌<◌, ◌≡◌, refl, List, [], ◌∷◌, arith, length, count, some, get_elem?,
  true, if◌then◌else◌, ◌==◌,
}
use nifre.Prelude.Exec.{ok}
use nifre.Prelude.Int.{pos}
use nifre.Allocator
use nifre.Allocator.{Allocator, free_count, allocated_count}
use nifre.BlockTable.{blocks_for, new_table}
use nifre.OrderedDict.{find, without, key_eq}
use nifre.OrderedDict.Laws.{IsDict}
use nifre.PrefixCache.{PrefixCache, Caching, lookup, insert, block_tokens}
use nifre.PrefixCache.Lookup.{IsLongest, Reordered, lookup-IsLongest}
use nifre.PrefixCache.Ownership.{CacheHolds, CacheKeeps, insert-Keeps}
use nifre.PagedCache.{Config, Paged, init_batch, make_prefix}
use nifre.PagedCache.Ownership.{Owned}
use nifre.PagedCache.History.{Call, loads, registers, appends, resets, run, init_batch-run-Owned}

-- Stands for Python's `hash`.
abbrev toy_hash : ℕ → List ℕ → ℕ
toy_hash h [] = h * 7 + 1
toy_hash h (x ∷ xs) = toy_hash (h * 7 + x) xs

-- The prompt 5 6 7 8 is cached in two blocks of two tokens.
abbrev warm_cache : PrefixCache
warm_cache = record {
  block_size = 2;
  max_entries = 4;
  entries = ((0, 5 ∷ 6 ∷ []), 2) ∷ ((288, 7 ∷ 8 ∷ []), 1) ∷ [];
  lookups = 0;
  hits = 0;
  tokens_saved = 0;
}

warm_cache-IsDict : IsDict warm_cache.entries
unfolding find key_eq
warm_cache-IsDict = (refl, (refl, tt))

abbrev prompt : List ℕ
prompt = 5 ∷ 6 ∷ 7 ∷ 8 ∷ []

lookup_runs : (lookup toy_hash prompt warm_cache).0 ≡ (4, 2 ∷ 1 ∷ [])
unfolding lookup key_eq without
lookup_runs = refl

lookup-IsLongest_example :
    IsLongest toy_hash 2
      (5 ∷ 6 ∷ 9 ∷ 9 ∷ [])
      warm_cache.entries
      2
      0
      (lookup toy_hash (5 ∷ 6 ∷ 9 ∷ 9 ∷ []) warm_cache).0.1
    × ((lookup toy_hash (5 ∷ 6 ∷ 9 ∷ 9 ∷ []) warm_cache).0.0
        ≡ length (lookup toy_hash (5 ∷ 6 ∷ 9 ∷ 9 ∷ []) warm_cache).0.1 * 2)
    × Reordered warm_cache.entries (lookup toy_hash (5 ∷ 6 ∷ 9 ∷ 9 ∷ []) warm_cache).1.entries
lookup-IsLongest_example =
    lookup-IsLongest toy_hash (5 ∷ 6 ∷ 9 ∷ 9 ∷ []) warm_cache warm_cache-IsDict

-- All four tokens of the prompt are matched, and none is left for the model.
whole_prompt_matched : (lookup toy_hash prompt warm_cache).0.0 ≡ 4
unfolding lookup key_eq block_tokens without
whole_prompt_matched = refl

-- Two slots of at most four tokens, in blocks of two.
abbrev config : Config
config = record {
  num_layers = 1;
  max_seq_len = 4;
  block_size = 2;
  enable_prefix_cache = true;
  prefix_cache_max_entries = 2;
}

abbrev blank : ℕ → ℕ → ℕ → ℕ
blank layer b o = 0

abbrev fresh : Paged ℕ
fresh = record {
  config = config;
  pos = 0 ∷ 0 ∷ [];
  pool = record { num_blocks = 4; free = 3 ∷ 2 ∷ 1 ∷ 0 ∷ []; in_use = []; refcount = λ b. pos 0 };
  tables =
      record { block_size = 2; physical_blocks = [] }
      ∷ record { block_size = 2; physical_blocks = [] }
      ∷ [];
  prefix = some (record {
    block_size = 2;
    max_entries = 2;
    entries = [];
    lookups = 0;
    hits = 0;
    tokens_saved = 0;
  });
  store = blank;
}

fresh_made : init_batch blank config 2 ≡ ok fresh
unfolding init_batch new_table Allocator.init make_prefix blocks_for
fresh_made = refl

-- Slot 0 caches a prompt, registers it and ends; slot 1 shares it.
abbrev script : List (Call ℕ)
script = loads 0 prompt ∷ appends 0 0 prompt ∷ registers 0 prompt ∷ resets 0 ∷ loads 1 prompt ∷ []

init_batch-run-Owned_example : Owned (run toy_hash fresh script)
init_batch-run-Owned_example = init_batch-run-Owned toy_hash blank config 2 fresh script fresh_made

-- Blocks 1 and 2 are held by the cache and by a table.
abbrev caching : Caching
caching = record {
  pool = record {
    num_blocks = 4;
    free = 3 ∷ 0 ∷ [];
    in_use = 2 ∷ 1 ∷ [];
    refcount = λ b. pos (if b == 1 then 2 else if b == 2 then 2 else 0);
  };
  cache = warm_cache;
}

abbrev in_table : ℕ → ℕ
in_table b = count b (2 ∷ 1 ∷ [])

caching-CacheHolds : CacheHolds in_table caching
caching-CacheHolds = record {
  dict = warm_cache-IsDict;
  accounts = record {
    placed = λ b. ground arith;
    held = λ b. ground arith;
    counted = λ b. ground arith;
    total = refl;
  };
  bounded = omega arith;
  positive = omega arith;
}

-- A third block is registered: block 1, under the key of another prompt.
abbrev other_prompt : List ℕ
other_prompt = 5 ∷ 6 ∷ 9 ∷ 9 ∷ []

blocks_in_table : (i b : ℕ) → get_elem? (2 ∷ 1 ∷ []) i ≡ some b → 0 < in_table b
blocks_in_table zero b e = ground arith
blocks_in_table (suc zero) b e = ground arith
blocks_in_table (suc (suc i)) b e = absurd (ground arith)

insert-Keeps_example :
    (s' : Caching) × (insert toy_hash other_prompt (2 ∷ 1 ∷ []) caching ≡ (ok tt, s'))
    × CacheKeeps in_table caching s'
insert-Keeps_example =
    insert-Keeps toy_hash in_table other_prompt (2 ∷ 1 ∷ []) caching blocks_in_table
      caching-CacheHolds
