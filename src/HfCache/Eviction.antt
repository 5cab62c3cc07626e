-- ===== src/HfCache/Eviction.antt =====
-- src/inference/hf_kv_cache.py, the loop of evictions in `_BlockPrefixCache.insert`: it ends.
use nifre.Prelude.{
  ℕ, zero, suc, ◌+◌, ◌-◌, ◌<◌, ◌≡◌, refl, sym, ap, ◌∙◌, inl, inr, List, ◌∷◌, length, drop, leb,
  arith, Bool-cases, List-cases,
}
use nifre.Prelude.Exec.{ok}
use nifre.OrderedDict.{CacheKey}
use nifre.HfCache.{Past, BlockCache, block_bytes, evict_oldest, make_room}

drop-suc :
    {A : Type 0} (n m : ℕ) (l : List A) (first : A) (rest : List A)
    → l ≡ first ∷ rest
    → n ≡ suc m
    → drop n l ≡ drop m rest
drop-suc n m l first rest e h = ap (drop n) e ∙ ap (λ k. drop k (first ∷ rest)) h

module _ {Row : Type 0} (row_bytes : ℕ) where
  evict_oldest-first :
      (c : BlockCache Row) (first : CacheKey × Past Row) (rest : List (CacheKey × Past Row))
      → c.entries ≡ first ∷ rest
      → (c' : BlockCache Row) × (evict_oldest row_bytes c ≡ (ok tt, c'))
        × (c'.entries ≡ rest)
        × (c'.max_entries ≡ c.max_entries)
  unfolding evict_oldest
  evict_oldest-first c (key, block) rest e = (
    record c { entries = rest; memory_bytes = c.memory_bytes - block_bytes row_bytes block },
    rw (e, evict_oldest),
    refl,
    refl,
  )

  -- The loop of evictions ends, with any fuel above the number of entries, where the cache may hold
  -- at least one. It returns; there is room for one entry more afterwards; and of the entries just
  -- as many are gone as was needed for this, the oldest ones.
  pub make_room-terminates :
      (fuel : ℕ) (c : BlockCache Row)
      → 0 < c.max_entries
      → length c.entries < fuel
      → (c' : BlockCache Row) × (make_room row_bytes fuel c ≡ (ok tt, c'))
        × (length c'.entries < c'.max_entries)
        × (c'.max_entries ≡ c.max_entries)
        × (c'.entries ≡ drop (length c.entries + 1 - c.max_entries) c.entries)
  unfolding make_room
  make_room-terminates zero c pos enough = absurd (omega arith)
  make_room-terminates (suc fuel) c pos enough =
      elim (Bool-cases (leb c.max_entries (length c.entries))) [
        | inr room ↦
            let none_gone : 0 ≡ length c.entries + 1 - c.max_entries = ground arith in
            (c, rw (room, make_room), ground arith, refl, ap (λ k. drop k c.entries) none_gone)
        | inl full ↦ elim (List-cases c.entries) [
          | inl e ↦ absurd (ground arith)
          | inr (first, rest, e) ↦
              let (t, p, q, m) = evict_oldest-first c first rest e in
              let (c', r, room, m', gone) =
                make_room-terminates fuel t (omega (arith, m))
                  (omega (arith, ap length e, ap length q)) in
              let one_more : length c.entries + 1 - c.max_entries
                  ≡ suc (length t.entries + 1 - t.max_entries) =
                ground (arith, full, m, ap length e, ap length q) in
              (
                c',
                rw (full, make_room, p) r,
                room,
                m' ∙ m,
                gone
                    ∙ ap (drop (length t.entries + 1 - t.max_entries)) q
                    ∙ sym (drop-suc _ _ c.entries first rest e one_more),
              )
        ]
      ]
