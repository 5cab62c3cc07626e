-- ===== src/PagedCache/History.antt =====
-- src/inference/paged_kv_cache.py over any sequence of calls, from `init_batch` on.
use nifre.Prelude.{
  ℕ, zero, suc, ◌*◌, ◌<◌, ◌≡◌, refl, ap, Bool, true, false, List, [], ◌∷◌, Option, none, some,
  replicate, if◌then◌else◌, arith, count,
}
use nifre.Prelude.Exec.{Outcome, ok, raised}
use nifre.Allocator.{Allocator, free_count}
use nifre.Allocator.Accounts.{Accounts-ext, init-Accounts, init-free}
use nifre.BlockTable.{BlockTable, new_table, blocks_for}
use nifre.PrefixCache.{PrefixCache, new_cache}
use nifre.PagedCache.{
  Paged, Config, make_prefix, init_batch, new_batch, or_raise, try_load_prefix, register_prefix,
  append, reset_slot,
}
use nifre.PagedCache.Ownership.{
  Owned, PrefixIsValid, table_refs, prefix_refs, append-Owned, reset_slot-Owned,
  try_load_prefix-Owned, register_prefix-Owned,
}

-- The calls that the engine, the model runner and the attention layers make.
pub data Call (Row : Type 0) : Type 0 where
  loads : ℕ → List ℕ → Call Row
  registers : ℕ → List ℕ → Call Row
  appends : ℕ → ℕ → List Row → Call Row
  resets : ℕ → Call Row

module _ {Row : Type 0} where
  -- The cache after a call, whether the call returned or raised.
  abbrev pub step : (ℕ → List ℕ → ℕ) → Paged Row → Call Row → Paged Row
  step hash s (loads i token_ids) = (try_load_prefix hash i token_ids s).1
  step hash s (registers i token_ids) = (register_prefix hash i token_ids s).1
  step hash s (appends i layer rows) = (append i layer rows s).1
  step hash s (resets i) = (reset_slot i s).1

  abbrev pub run : (ℕ → List ℕ → ℕ) → Paged Row → List (Call Row) → Paged Row
  run hash s [] = s
  run hash s (c ∷ cs) = run hash (step hash s c) cs

table_refs-replicate :
    (n b : ℕ) (t : BlockTable) → t.physical_blocks ≡ [] → table_refs (replicate n t) b ≡ 0
table_refs-replicate zero b t e = refl
table_refs-replicate (suc n) b t e = omega (arith, ap (count b) e, table_refs-replicate n b t e)

new_table-empty : (n : ℕ) {t : BlockTable} → new_table n ≡ ok t → t.physical_blocks ≡ []
unfolding new_table
new_table-empty zero e = absurd (ground arith)
new_table-empty (suc n) e = ground arith

new_cache-empty :
    (n m : ℕ) {c : PrefixCache} → new_cache n m ≡ ok c → (c.entries ≡ []) × (0 < c.max_entries)
unfolding new_cache
new_cache-empty zero m e = absurd (ground arith)
new_cache-empty (suc n) zero e = absurd (ground arith)
new_cache-empty (suc n) (suc m) e = (ground arith, ground arith)

make_prefix-some :
    (c : Config) {q : PrefixCache}
    → make_prefix c ≡ ok (some q)
    → new_cache c.block_size c.prefix_cache_max_entries ≡ ok q
unfolding make_prefix
make_prefix-some c e =
    go c.enable_prefix_cache (new_cache c.block_size c.prefix_cache_max_entries) e
  where
    go :
        {q : PrefixCache} (on : Bool) (r : Outcome PrefixCache)
        → (if on then or_raise r (λ p. ok (some p)) else ok none) ≡ ok (some q)
        → r ≡ ok q
    go true (ok p) e = ground arith
    go true (raised x) e = cc
    go false r e = cc

make_prefix-empty :
    (c : Config) (p : Option PrefixCache)
    → make_prefix c ≡ ok p
    → PrefixIsValid p × ((b : ℕ) → prefix_refs p b ≡ 0)
make_prefix-empty c none e = (tt, λ b. refl)
make_prefix-empty c (some q) e =
    let (empty, positive) = new_cache-empty _ _ (make_prefix-some c e) in
    (rw empty (tt, omega arith, positive), λ b. rw empty)

-- The three constructors that `init_batch` calls returned, and it put the results together.
init_batch-parts :
    {Row : Type 0} (blank : ℕ → ℕ → ℕ → Row) (c : Config) (n : ℕ) {s : Paged Row}
    (rt : Outcome BlockTable) (rp : Outcome Allocator) (rx : Outcome (Option PrefixCache))
    → or_raise rt (λ t. or_raise rp (λ p. or_raise rx (λ x. ok (new_batch blank c n t p x)))) ≡ ok s
    → (t : BlockTable) × (p : Allocator) × (x : Option PrefixCache) × (rt ≡ ok t)
      × (rp ≡ ok p)
      × (rx ≡ ok x)
      × (new_batch blank c n t p x ≡ s)
init_batch-parts blank c n (ok t) (ok p) (ok x) e = (t, p, x, refl, refl, refl, ground arith)
init_batch-parts blank c n (ok t) (ok p) (raised y) e = cc
init_batch-parts blank c n (ok t) (raised y) rx e = cc
init_batch-parts blank c n (raised y) rp rx e = cc

-- A cache that `init_batch` made has all its blocks free, as many as the slots need at their
-- longest, and holds no reference.
pub init_batch-Owned :
    {Row : Type 0} (blank : ℕ → ℕ → ℕ → Row) (config : Config) (batch_size : ℕ) {s : Paged Row}
    → init_batch blank config batch_size ≡ ok s
    → Owned s
      × (free_count s.pool ≡ s.pool.num_blocks)
      × (s.pool.num_blocks ≡ blocks_for config.block_size config.max_seq_len * batch_size)
unfolding init_batch
init_batch-Owned blank config batch_size {s = s} made =
    let (table, pool, prefix, t, p, x, e) =
      init_batch-parts blank config batch_size {s = s} (new_table config.block_size) _
        (make_prefix config) made in
    let (valid, no_refs) = make_prefix-empty config prefix x in
    let (size, all_free) = init-free _ p in
    rw (← e) (
      record {
        accounts =
            Accounts-ext
              (λ b.
                omega
                  (arith, no_refs b, table_refs-replicate batch_size b table (new_table-empty _ t)))
              (init-Accounts _ p);
        prefix_valid = valid;
      },
      all_free,
      size,
    )

module _ {Row : Type 0} (hash : ℕ → List ℕ → ℕ) where
  step-Owned : (s : Paged Row) (c : Call Row) → Owned s → Owned (step hash s c)
  step-Owned s (loads i token_ids) h = try_load_prefix-Owned hash i token_ids s h
  step-Owned s (registers i token_ids) h = register_prefix-Owned hash i token_ids s h
  step-Owned s (appends i layer rows) h = append-Owned i layer rows s h
  step-Owned s (resets i) h = reset_slot-Owned i s h

  run-Owned : (s : Paged Row) (cs : List (Call Row)) → Owned s → Owned (run hash s cs)
  run-Owned s [] h = h
  run-Owned s (c ∷ cs) h = run-Owned (step hash s c) cs (step-Owned s c h)

  -- After `init_batch` and any calls, in any order and whether or not some of them raised: the
  -- reference count of each block is the number of entries in the slots' tables and in the prefix
  -- cache that name it; a block is in use exactly when that number is not zero, and free
  -- otherwise; no block is free twice or both free and in use; and the prefix cache has at most
  -- `max_entries` entries, under different keys.
  pub init_batch-run-Owned :
      (blank : ℕ → ℕ → ℕ → Row) (config : Config) (batch_size : ℕ) (s : Paged Row)
      (cs : List (Call Row))
      → init_batch blank config batch_size ≡ ok s
      → Owned (run hash s cs)
  init_batch-run-Owned blank config batch_size s cs made =
      run-Owned s cs (init_batch-Owned blank config batch_size made).0
