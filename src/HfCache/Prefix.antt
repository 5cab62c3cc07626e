-- ===== src/HfCache/Prefix.antt =====
-- src/inference/hf_kv_cache.py, the class _BlockPrefixCache: its invariant, under the writing of one
-- entry.
use mathlib.Core.Path.{subst}
use mathlib.Core.Option.{some_inj}
use nifre.Prelude.{
  ℕ, zero, suc, ◌+◌, ◌-◌, ◌≤◌, ◌<◌, ◌≡◌, refl, sym, ap, ◌∙◌, ◌⊎◌, inl, inr, List, [], ◌∷◌, ◌++◌,
  none, some, length, leb, arith, List-cases, Option-cases, Bool-cases, length-append,
}
use nifre.Prelude.Exec.{ok, when}
use nifre.OrderedDict.{CacheKey, find, move_to_end, key_eq, key_eq_refl, key_eq_iff}
use nifre.OrderedDict.Laws.{
  IsDict, IsDict-append, IsDict-move_to_end, length-move_to_end, find-append, find-cons-none,
  find-cons-some, find-move_to_end, total, total-append, total-move_to_end,
}
use nifre.HfCache.{
  Past, BlockCache, past_length, set_entries, block_bytes, evict_oldest, make_room, put_entry,
  add_entry, touch_entry,
}

-- One entry is there afterwards; the others were there before.
pub record Stores {Row : Type 0} (key : CacheKey) (block : Past Row) (c c' : BlockCache Row)
    : Type 0 where
  pub stored : (b : Past Row) × (find key c'.entries ≡ some b)
  pub origin :
      (k : CacheKey) (b : Past Row)
      → find k c'.entries ≡ some b
      → (find k c.entries ≡ some b) ⊎ ((k ≡ key) × (b ≡ block))

module _ {Row : Type 0} (row_bytes num_layers : ℕ) where
  -- No key stands twice; there are at most `max_entries` entries, each with all layers, the first
  -- of them as long as a block; `memory_bytes` is the sum of the bytes of all entries, and each
  -- lookup was a hit or a miss.
  pub record BlockValid (c : BlockCache Row) : Type 0 where
    pub dict : IsDict c.entries
    pub sized :
        (k : CacheKey) (block : Past Row)
        → find k c.entries ≡ some block
        → past_length block ≡ c.block_size
    pub layered :
        (k : CacheKey) (block : Past Row)
        → find k c.entries ≡ some block
        → length block ≡ num_layers
    pub memory : c.memory_bytes ≡ total (block_bytes row_bytes) c.entries
    pub counted : c.lookups ≡ c.hits + c.misses
    pub bounded : length c.entries ≤ c.max_entries
    pub positive : 0 < c.max_entries

  pub record BlockKeeps (c c' : BlockCache Row) : Type 0 where
    pub valid : BlockValid c'
    pub same_size : c'.block_size ≡ c.block_size
    pub same_max : c'.max_entries ≡ c.max_entries

  pub BlockKeeps-trans : {c d e : BlockCache Row} → BlockKeeps c d → BlockKeeps d e → BlockKeeps c e
  BlockKeeps-trans k l = record {
    valid = l.valid;
    same_size = l.same_size ∙ k.same_size;
    same_max = l.same_max ∙ k.same_max;
  }

  evict_oldest-Keeps :
      (c : BlockCache Row) (key : CacheKey) (block : Past Row) (d : List (CacheKey × Past Row))
      → BlockValid c
      → c.entries ≡ (key, block) ∷ d
      → (c' : BlockCache Row) × (evict_oldest row_bytes c ≡ (ok tt, c'))
        × BlockKeeps c c'
        × (c'.entries ≡ d)
  unfolding evict_oldest find
  evict_oldest-Keeps c key block d v e =
      let dict : IsDict ((key, block) ∷ d) = subst (λ l. IsDict l) e v.dict in
      (
        record c { entries = d; memory_bytes = c.memory_bytes - block_bytes row_bytes block },
        rw (e, evict_oldest),
        record {
          valid = record {
            dict = dict.1;
            sized = λ k b q. v.sized k b (ap (find k) e ∙ find-cons-some k key block b d dict q);
            layered =
                λ k b q. v.layered k b (ap (find k) e ∙ find-cons-some k key block b d dict q);
            memory = omega (arith, v.memory, ap (total (block_bytes row_bytes)) e);
            counted = v.counted;
            bounded = omega (arith, v.bounded, ap length e);
            positive = v.positive;
          };
          same_size = refl;
          same_max = refl;
        },
        refl,
      )

  make_room-Keeps :
      (f : ℕ) (c : BlockCache Row)
      → BlockValid c
      → length c.entries < f
      → (c' : BlockCache Row) × (make_room row_bytes f c ≡ (ok tt, c'))
        × BlockKeeps c c'
        × (length c'.entries < c'.max_entries)
        × ((k : CacheKey) → find k c.entries ≡ none → find k c'.entries ≡ none)
        × ((k : CacheKey) (b : Past Row) → find k c'.entries ≡ some b → find k c.entries ≡ some b)
  unfolding make_room find
  make_room-Keeps zero c v fuel = absurd (omega arith)
  make_room-Keeps (suc f) c v fuel = elim (Bool-cases (leb c.max_entries (length c.entries))) [
    | inr room ↦ (
      c,
      rw (room, make_room),
      record { valid = v; same_size = refl; same_max = refl },
      ground arith,
      λ k e. e,
      λ k b e. e,
    )
    | inl full ↦ elim (List-cases c.entries) [
      | inl e ↦ let p = v.positive in absurd (ground arith)
      | inr ((key, block), d, e) ↦
          let (t, p, k, q') = evict_oldest-Keeps c key block d v e in
          let dict : IsDict ((key, block) ∷ d) = subst (λ l. IsDict l) e v.dict in
          let (c', r, k', room, absent, old) =
            make_room-Keeps f t k.valid (omega (arith, ap length e, ap length q')) in
          (
            c',
            rw (full, make_room, p) r,
            BlockKeeps-trans k k',
            room,
            λ j q.
                absent j (ap (find j) q' ∙ find-cons-none j key block d (ap (find j) (sym e) ∙ q)),
            λ j b q.
                ap (find j) e
                ∙ find-cons-some j key block b d dict (ap (find j) (sym q') ∙ old j b q),
          )
    ]
  ]

  find-put :
      (d : List (CacheKey × Past Row)) (key : CacheKey) (block : Past Row)
      → find key d ≡ none
      → find key (d ++ (key, block) ∷ []) ≡ some block
  find-put d key block e = find-append key key block d ∙ rw (e, key_eq_refl key) refl

  put-origin :
      (d : List (CacheKey × Past Row)) (key : CacheKey) (block : Past Row) (j : CacheKey)
      (b : Past Row)
      → find j (d ++ (key, block) ∷ []) ≡ some b
      → (find j d ≡ some b) ⊎ ((j ≡ key) × (b ≡ block))
  put-origin d key block j b e = elim (Option-cases (find j d)) [
    | inr (w, f) ↦ inl (f ∙ sym (find-append j key block d ∙ rw f refl) ∙ e)
    | inl f ↦ elim (Bool-cases (key_eq key j)) [
      | inl same ↦
          let put : some block ≡ some b = sym (find-append j key block d ∙ rw (f, same) refl) ∙ e in
          inr (sym ((key_eq_iff key j).0 same), sym (some_inj.0 put))
      | inr other ↦
          let absent : none ≡ some b = sym (find-append j key block d ∙ rw (f, other) refl) ∙ e in
          absurd cc
    ]
  ]

  add_entry-Keeps :
      (c : BlockCache Row) (key : CacheKey) (block : Past Row)
      → BlockValid c
      → find key c.entries ≡ none
      → past_length block ≡ c.block_size
      → length block ≡ num_layers
      → (c' : BlockCache Row) × (add_entry row_bytes key block c ≡ (ok tt, c'))
        × BlockKeeps c c'
        × Stores key block c c'
  unfolding add_entry
  add_entry-Keeps c key block v new size depth =
      let (t, p, k, room, absent, old) =
        make_room-Keeps (suc (length c.entries)) c v (omega arith) in
      (
        put_entry row_bytes key block t,
        rw p,
        record {
          valid = record {
            dict = IsDict-append key block t.entries k.valid.dict (absent key new);
            sized = λ j b e.
                ground
                  (arith, find-append j key block t.entries, k.valid.sized j b, k.same_size, size);
            layered = λ j b e.
                ground (arith, find-append j key block t.entries, k.valid.layered j b, depth);
            memory =
                omega
                  (arith, k.valid.memory, total-append (block_bytes row_bytes) key block t.entries);
            counted = k.valid.counted;
            bounded = omega (arith, room, length-append t.entries ((key, block) ∷ []));
            positive = k.valid.positive;
          };
          same_size = k.same_size;
          same_max = k.same_max;
        },
        record {
          stored = (block, find-put t.entries key block (absent key new));
          origin = λ j b e. elim (put-origin t.entries key block j b e) [
            | inl there ↦ inl (old j b there)
            | inr put ↦ inr put
          ];
        },
      )

  pub touch_entry-Keeps :
      (c : BlockCache Row) (key : CacheKey) (block : Past Row)
      → BlockValid c
      → past_length block ≡ c.block_size
      → length block ≡ num_layers
      → (c' : BlockCache Row) × (touch_entry row_bytes key block c ≡ (ok tt, c'))
        × BlockKeeps c c'
        × Stores key block c c'
  unfolding touch_entry
  touch_entry-Keeps c key block v size depth = elim (Option-cases (find key c.entries)) [
    | inr (b, e) ↦ (
      moved c,
      rw (e, when) refl,
      moved-Keeps c v,
      moved-Stores c v record { stored = (b, e); origin = λ j w f. inl f },
    )
    | inl new ↦
        let (t, p, k, stores) = add_entry-Keeps c key block v new size depth in
        (
          moved t,
          rw (new, when, p) refl,
          BlockKeeps-trans k (moved-Keeps t k.valid),
          moved-Stores t k.valid stores,
        )
  ]
    where
      moved : BlockCache Row → BlockCache Row
      moved d = set_entries (move_to_end key d.entries) d

      moved-Keeps : (d : BlockCache Row) → BlockValid d → BlockKeeps d (moved d)
      moved-Keeps d w = record {
        valid = record {
          dict = IsDict-move_to_end key d.entries w.dict;
          sized = λ j b e. w.sized j b (sym (find-move_to_end j key d.entries w.dict) ∙ e);
          layered = λ j b e. w.layered j b (sym (find-move_to_end j key d.entries w.dict) ∙ e);
          memory = w.memory ∙ sym (total-move_to_end (block_bytes row_bytes) key d.entries);
          counted = w.counted;
          bounded = omega (arith, w.bounded, length-move_to_end key d.entries);
          positive = w.positive;
        };
        same_size = refl;
        same_max = refl;
      }

      moved-Stores :
          (t : BlockCache Row) → BlockValid t → Stores key block c t → Stores key block c (moved t)
      moved-Stores t w h = record {
        stored = (h.stored.0, find-move_to_end key key t.entries w.dict ∙ h.stored.1);
        origin = λ j b e. h.origin j b (sym (find-move_to_end j key t.entries w.dict) ∙ e);
      }
