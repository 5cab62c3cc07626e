-- ===== src/PrefixCache/Ownership.antt =====
-- src/inference/prefix_cache.py, `insert` and its eviction: the references that the entries hold.
use nifre.Prelude.{
  ℕ, zero, suc, ◌≤◌, ◌<◌, ◌≡◌, refl, sym, ap, ◌∙◌, inl, inr, List, [], ◌∷◌, ◌++◌, none, some,
  length, get_elem?, leb, arith, List-cases, Option-cases, Bool-cases, length-append,
}
use nifre.Prelude.Exec.{ok}
use nifre.Allocator.{count_up}
use nifre.Allocator.Accounts.{Accounts, hold, Accounts-ext}
use nifre.Allocator.Release.{retain-Accounts, release-Accounts}
use nifre.OrderedDict.{CacheKey, find, move_to_end}
use nifre.OrderedDict.Laws.{
  IsDict, IsDict-append, IsDict-move_to_end, length-move_to_end, values, count-values-append,
  count-values-move_to_end,
}
use nifre.PrefixCache.{
  Caching, set_entries, evict_oldest, make_room, add_entry, touch_entry, insert_blocks, insert,
  block_tokens,
}

-- With `rest` references held elsewhere, the pool accounts for those of the entries too; no key
-- stands twice, and there are at most `max_entries` entries.
pub record CacheHolds (rest : ℕ → ℕ) (s : Caching) : Type 0 where
  pub dict : IsDict s.cache.entries
  pub accounts : Accounts (hold rest (values s.cache.entries)) s.pool
  pub bounded : length s.cache.entries ≤ s.cache.max_entries
  pub positive : 0 < s.cache.max_entries

pub record CacheKeeps (rest : ℕ → ℕ) (s s' : Caching) : Type 0 where
  pub holds : CacheHolds rest s'
  pub same_pool : s'.pool.num_blocks ≡ s.pool.num_blocks
  pub same_size : s'.cache.block_size ≡ s.cache.block_size
  pub same_max : s'.cache.max_entries ≡ s.cache.max_entries

CacheKeeps-trans :
    {rest : ℕ → ℕ} {s t u : Caching}
    → CacheKeeps rest s t
    → CacheKeeps rest t u
    → CacheKeeps rest s u
CacheKeeps-trans k l = record {
  holds = l.holds;
  same_pool = l.same_pool ∙ k.same_pool;
  same_size = l.same_size ∙ k.same_size;
  same_max = l.same_max ∙ k.same_max;
}

-- `popitem` finds the oldest entry, and its block is held, so the release does not raise.
evict_oldest-Keeps :
    (rest : ℕ → ℕ) (s : Caching) (key : CacheKey) (b : ℕ) (d : List (CacheKey × ℕ))
    → CacheHolds rest s
    → s.cache.entries ≡ (key, b) ∷ d
    → (s' : Caching) × (evict_oldest s ≡ (ok tt, s'))
      × CacheKeeps rest s s'
      × (s'.cache.entries ≡ d)
unfolding evict_oldest
evict_oldest-Keeps rest s key b d h e =
    elim (release-Accounts (hold rest (values s.cache.entries)) s.pool b h.accounts) [
      | inl (z, _) ↦ absurd (ground arith)
      | inr (_, a, p, h', n) ↦ (
        set_entries d (record s { pool = a }),
        ground arith,
        record {
          holds = record {
            dict = ground (arith, h.dict);
            accounts = Accounts-ext {own' = hold rest (values d)} (λ j. ground arith) h';
            bounded = ground (arith, h.bounded);
            positive = h.positive;
          };
          same_pool = n;
          same_size = refl;
          same_max = refl;
        },
        refl,
      )
    ]

-- The loop ends with room for one more entry, having dropped the oldest ones only.
pub make_room-Keeps :
    (rest : ℕ → ℕ) (f : ℕ) (s : Caching)
    → CacheHolds rest s
    → length s.cache.entries < f
    → (s' : Caching) × (make_room f s ≡ (ok tt, s'))
      × CacheKeeps rest s s'
      × (length s'.cache.entries < s'.cache.max_entries)
      × (dropped : List (CacheKey × ℕ)) × (s.cache.entries ≡ dropped ++ s'.cache.entries)
unfolding make_room
make_room-Keeps rest zero s h fuel = absurd (omega arith)
make_room-Keeps rest (suc f) s h fuel =
    elim (Bool-cases (leb s.cache.max_entries (length s.cache.entries))) [
      | inr room ↦ (
        s,
        rw (room, make_room),
        record { holds = h; same_pool = refl; same_size = refl; same_max = refl },
        ground arith,
        [],
        refl,
      )
      | inl full ↦ elim (List-cases s.cache.entries) [
        | inl e ↦ let p = h.positive in absurd (ground arith)
        | inr ((key, b), d, e) ↦
            let (t, p, k, q) = evict_oldest-Keeps rest s key b d h e in
            let (s', r, k', room, dropped, split) =
              make_room-Keeps rest f t k.holds (omega (arith, ap length e, ap length q)) in
            (
              s',
              rw (full, make_room, p) r,
              CacheKeeps-trans k k',
              room,
              (key, b) ∷ dropped,
              e ∙ ap (λ l. (key, b) ∷ l) (sym q ∙ split),
            )
      ]
    ]

-- A key that was found nowhere is found nowhere after the oldest entries went.
find-dropped :
    (key : CacheKey) (dropped d : List (CacheKey × ℕ))
    → find key (dropped ++ d) ≡ none
    → find key d ≡ none
unfolding find
find-dropped key [] d e = e
find-dropped key ((j, w) ∷ dropped) d e = ground (arith, find-dropped key dropped d)

module _ (rest : ℕ → ℕ) (key : CacheKey) (b : ℕ) (s : Caching) (held : 0 < rest b) where
  add_entry-Keeps :
      CacheHolds rest s
      → find key s.cache.entries ≡ none
      → (s' : Caching) × (add_entry key b s ≡ (ok tt, s')) × CacheKeeps rest s s'
  unfolding add_entry
  add_entry-Keeps h e =
      let (t, p, k, room, dropped, split) =
        make_room-Keeps rest (suc (length s.cache.entries)) s h (omega arith) in
      let new = find-dropped key dropped t.cache.entries (rw split at e) in
      elim (retain-Accounts (hold rest (values t.cache.entries)) t.pool b k.holds.accounts) [
        | inl (z, _) ↦ absurd (omega arith)
        | inr (_, r, h') ↦ (
          set_entries (t.cache.entries ++ (key, b) ∷ []) (record t { pool = count_up b t.pool }),
          rw (p, add_entry, r),
          record {
            holds = record {
              dict = IsDict-append key b t.cache.entries k.holds.dict new;
              accounts =
                  Accounts-ext (λ j. omega (arith, count-values-append j b key t.cache.entries)) h';
              bounded = omega (arith, length-append t.cache.entries ((key, b) ∷ []));
              positive = k.holds.positive;
            };
            same_pool = k.same_pool;
            same_size = k.same_size;
            same_max = k.same_max;
          },
        )
      ]

move_entry-Keeps :
    (rest : ℕ → ℕ) (key : CacheKey) (s : Caching)
    → CacheHolds rest s
    → CacheKeeps rest s (set_entries (move_to_end key s.cache.entries) s)
move_entry-Keeps rest key s h = record {
  holds = record {
    dict = IsDict-move_to_end key s.cache.entries h.dict;
    accounts =
        Accounts-ext (λ j. omega (arith, count-values-move_to_end j key s.cache.entries))
          h.accounts;
    bounded = omega (arith, length-move_to_end key s.cache.entries, h.bounded);
    positive = h.positive;
  };
  same_pool = refl;
  same_size = refl;
  same_max = refl;
}

touch_entry-Keeps :
    (rest : ℕ → ℕ) (key : CacheKey) (b : ℕ) (s : Caching)
    → 0 < rest b
    → CacheHolds rest s
    → (s' : Caching) × (touch_entry key b s ≡ (ok tt, s')) × CacheKeeps rest s s'
unfolding touch_entry
touch_entry-Keeps rest key b s held h = elim (Option-cases (find key s.cache.entries)) [
  | inr (v, e) ↦ (
    set_entries (move_to_end key s.cache.entries) s,
    rw (e, touch_entry),
    move_entry-Keeps rest key s h,
  )
  | inl e ↦
      let (t, p, k) = add_entry-Keeps rest key b s held h e in
      (
        set_entries (move_to_end key t.cache.entries) t,
        rw (e, touch_entry, p),
        CacheKeeps-trans k (move_entry-Keeps rest key t k.holds),
      )
]

module _ (hash : ℕ → List ℕ → ℕ) where
  insert_blocks-Keeps :
      (rest : ℕ → ℕ) (size n idx parent : ℕ) (token_ids blocks : List ℕ) (s : Caching)
      → ((i b : ℕ) → get_elem? blocks i ≡ some b → 0 < rest b)
      → CacheHolds rest s
      → (s' : Caching) × (insert_blocks hash size n idx parent token_ids blocks s ≡ (ok tt, s'))
        × CacheKeeps rest s s'
  unfolding insert_blocks
  insert_blocks-Keeps rest size zero idx parent token_ids blocks s held h =
      (s, refl, record { holds = h; same_pool = refl; same_size = refl; same_max = refl })
  insert_blocks-Keeps rest size (suc n) idx parent token_ids blocks s held h =
      elim (Option-cases (get_elem? blocks idx)) [
        | inl e ↦ (
          s,
          rw (e, insert_blocks),
          record { holds = h; same_pool = refl; same_size = refl; same_max = refl },
        )
        | inr (b, e) ↦
            let (t, p, k) =
              touch_entry-Keeps rest (parent, block_tokens size token_ids idx) b s (held idx b e)
                h in
            let (s', q, k') =
              insert_blocks-Keeps rest size n (suc idx)
                (hash parent (block_tokens size token_ids idx)) token_ids blocks t held k.holds in
            (s', rw (e, insert_blocks, p) q, CacheKeeps-trans k k')
      ]

  -- `insert` of blocks that are held elsewhere (by the table of the sequence) never raises. The
  -- entries then hold one reference each, there are at most `max_entries` of them, and no key
  -- stands twice; references that were held elsewhere stay.
  pub insert-Keeps :
      (rest : ℕ → ℕ) (token_ids blocks : List ℕ) (s : Caching)
      → ((i b : ℕ) → get_elem? blocks i ≡ some b → 0 < rest b)
      → CacheHolds rest s
      → (s' : Caching) × (insert hash token_ids blocks s ≡ (ok tt, s')) × CacheKeeps rest s s'
  unfolding insert
  insert-Keeps rest token_ids blocks s held h =
      insert_blocks-Keeps rest _ _ _ _ token_ids blocks s held h
