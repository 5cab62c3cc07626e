-- ===== src/PrefixCache/Lookup.antt =====
-- src/inference/prefix_cache.py, `lookup`: what it returns, and what it leaves of the entries.
use nifre.Prelude.{
  ℕ, zero, suc, ◌+◌, ◌*◌, ◌/◌, ◌≤◌, ◌<◌, ◌≡◌, refl, ◌∙◌, inl, inr, List, [], ◌∷◌, none, some,
  length, get_elem?, arith, Option-cases, Bool-cases, count, ◌==◌,
}
use nifre.OrderedDict.{CacheKey, find, move_to_end}
use nifre.OrderedDict.Laws.{
  IsDict, IsDict-move_to_end, length-move_to_end, values, total, total-move_to_end, is_block,
  count-values, find-move_to_end, count-values-find,
}
use nifre.PrefixCache.{PrefixCache, walk, lookup, block_tokens, root_hash}

index_of : (b : ℕ) (l : List ℕ) → 0 < count b l → (i : ℕ) × (get_elem? l i ≡ some b)
index_of b [] p = absurd (omega arith)
index_of b (x ∷ l) p = elim (Bool-cases (x == b)) [
  | inl e ↦ (0, ground arith)
  | inr e ↦ let (i, q) = index_of b l (ground arith) in (suc i, q)
]

-- The entries in another order.
pub record Reordered {V : Type 0} (d d' : List (CacheKey × V)) : Type 0 where
  pub dict : IsDict d'
  pub answers : (k : CacheKey) → find k d' ≡ find k d
  pub totals : (f : V → ℕ) → total f d' ≡ total f d
  pub size : length d' ≡ length d

pub Reordered-count :
    {d d' : List (CacheKey × ℕ)}
    → Reordered d d'
    → (b : ℕ) → count b (values d') ≡ count b (values d)
Reordered-count {d} {d'} r b =
    omega (arith, count-values b d, count-values b d', r.totals (is_block b))

module _ (hash : ℕ → List ℕ → ℕ) where
  -- The parent hash at a block of a prompt.
  unfoldable pub chain_hash : ℕ → List ℕ → ℕ → ℕ
  chain_hash size token_ids zero = root_hash
  chain_hash size token_ids (suc i) =
      hash (chain_hash size token_ids i) (block_tokens size token_ids i)

  -- The key under which a block of a prompt is looked up.
  abbrev pub chain_key : ℕ → List ℕ → ℕ → CacheKey
  chain_key size token_ids i = (chain_hash size token_ids i, block_tokens size token_ids i)

  -- Of `n` blocks from `idx` on, `blocks` are those up to the first whose key is not cached.
  pub record IsLongest {V : Type 0} (size : ℕ) (token_ids : List ℕ) (d : List (CacheKey × V))
      (n idx : ℕ) (blocks : List V) : Type 0 where
    pub within : length blocks ≤ n
    pub cached :
        (i j : ℕ) (b : V)
        → j ≡ idx + i
        → get_elem? blocks i ≡ some b
        → find (chain_key size token_ids j) d ≡ some b
    pub stops :
        (j : ℕ)
        → j ≡ idx + length blocks
        → length blocks < n
        → find (chain_key size token_ids j) d ≡ none

  module _ {V : Type 0} (size n idx : ℕ) (token_ids : List ℕ) (d : List (CacheKey × V))
      (k : CacheKey) (b : V) (blocks : List V) (e : find (chain_key size token_ids idx) d ≡ some b)
      (h : IsDict d) (rest : IsLongest size token_ids (move_to_end k d) n (suc idx) blocks) where
    cached-next :
        (i j : ℕ) (c : V)
        → j ≡ idx + i
        → get_elem? (b ∷ blocks) i ≡ some c
        → find (chain_key size token_ids j) d ≡ some c
    cached-next zero j c p q = let z : j ≡ idx = omega arith in rw z (e ∙ q)
    cached-next (suc i) j c p q =
        rw (← find-move_to_end (chain_key size token_ids j) k d h)
          (rest.cached i j c (omega arith) q)

    IsLongest-next : IsLongest size token_ids d (suc n) idx (b ∷ blocks)
    IsLongest-next = record {
      within = omega (arith, rest.within);
      cached = cached-next;
      stops = λ j p q.
          rw (← find-move_to_end (chain_key size token_ids j) k d h)
            (rest.stops j (omega arith) (omega arith));
    }

  Reordered-next :
      {V : Type 0} (d d' : List (CacheKey × V)) (k : CacheKey)
      → IsDict d
      → Reordered (move_to_end k d) d'
      → Reordered d d'
  Reordered-next d d' k h r = record {
    dict = r.dict;
    answers = λ j. r.answers j ∙ find-move_to_end j k d h;
    totals = λ f. r.totals f ∙ total-move_to_end f k d;
    size = r.size ∙ length-move_to_end k d;
  }

  pub walk-Longest :
      {V : Type 0} (size n idx : ℕ) (token_ids : List ℕ) (d : List (CacheKey × V))
      → IsDict d
      → IsLongest size token_ids d n idx
          (walk hash size n idx (chain_hash size token_ids idx) token_ids d).0
        × Reordered d (walk hash size n idx (chain_hash size token_ids idx) token_ids d).1
  unfolding walk chain_hash
  walk-Longest size zero idx token_ids d h = (
    record {
      within = omega arith;
      cached = λ i j b p e. absurd (ground arith);
      stops = λ j p q. absurd (omega arith);
    },
    record { dict = h; answers = λ k. refl; totals = λ f. refl; size = refl },
  )
  walk-Longest size (suc n) idx token_ids d h =
      elim (Option-cases (find (chain_key size token_ids idx) d)) [
        | inl e ↦
            rw (e, walk)
              (
                record {
                  within = omega arith;
                  cached = λ i j b p e. absurd (ground arith);
                  stops = λ j p q. let z : j ≡ idx = omega arith in rw z e;
                },
                record { dict = h; answers = λ k. refl; totals = λ f. refl; size = refl },
              )
        | inr (b, e) ↦
            let k = chain_key size token_ids idx in
            let (found, order) =
              walk-Longest size n (suc idx) token_ids (move_to_end k d)
                (IsDict-move_to_end k d h) in
            rw (e, walk)
              (IsLongest-next size n idx token_ids d k b _ e h found, Reordered-next d _ k h order)
      ]

  -- `lookup(token_ids)` returns the blocks of the longest cached prefix: block after block of the
  -- prompt is found under its chained key, and the walk ends at the end of the prompt's full
  -- blocks or at the first key that is not cached. The tokens that it reports are those of these
  -- blocks. The entries change their order only.
  pub lookup-IsLongest :
      (token_ids : List ℕ) (c : PrefixCache)
      → IsDict c.entries
      → IsLongest c.block_size token_ids c.entries
          (length token_ids / c.block_size)
          0
          (lookup hash token_ids c).0.1
        × ((lookup hash token_ids c).0.0 ≡ length (lookup hash token_ids c).0.1 * c.block_size)
        × Reordered c.entries (lookup hash token_ids c).1.entries
  unfolding lookup chain_hash
  lookup-IsLongest token_ids c h =
      let (found, order) = walk-Longest c.block_size _ 0 token_ids c.entries h in
      (found, refl, order)

  pub lookup_bounds :
      (token_ids : List ℕ) (c : PrefixCache)
      → ((lookup hash token_ids c).1.max_entries ≡ c.max_entries)
        × ((lookup hash token_ids c).1.block_size ≡ c.block_size)
  unfolding lookup
  lookup_bounds token_ids c = (refl, refl)

  -- Each block that a lookup returns is held by an entry.
  pub lookup-held :
      (token_ids : List ℕ) (c : PrefixCache)
      → IsDict c.entries
      → (b : ℕ) → 0 < count b (lookup hash token_ids c).0.1
      → 0 < count b (values c.entries)
  lookup-held token_ids c h b p =
      let (found, _, _) = lookup-IsLongest token_ids c h in
      let (i, e) = index_of b (lookup hash token_ids c).0.1 p in
      count-values-find _ c.entries b (found.cached i i b (omega arith) e)
