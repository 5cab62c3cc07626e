-- ===== src/HfCache/Slots.antt =====
-- src/inference/hf_kv_cache.py, the class HFKVCache: its cursors, its pasts and its prefix cache,
-- under its methods.
use mathlib.Core.Option.{some_inj}
use nifre.Prelude.{
  ℕ, zero, suc, ◌<◌, ◌≡◌, refl, sym, ap, ◌∙◌, inl, inr, List, [], ◌∷◌, Option, none, some, map,
  length, get_elem?, set, replicate, ltb, ◌==◌, arith, Bool-cases, Option-cases, get_elem?-set,
  map-set, map-replicate,
}
use nifre.Prelude.Exec.{item, Keeps, bind-Keeps, get_state-Keeps, item-Keeps, modify-Keeps}
use nifre.HfCache.{Past, BlockCache, HfCache, past_key_values_length}
use nifre.HfCache.Methods.{
  filled, init_batch, reset_slot, register_past, register_with, register_prefix,
}
use nifre.HfCache.Prefix.{BlockValid}
use nifre.HfCache.Insert.{insert-Inserted}

module _ {Row : Type 0} where
  pub get_elem?-set-same :
      (l : List (Option (Past Row))) (i : ℕ) (old q : Option (Past Row))
      → get_elem? l i ≡ some old
      → get_elem? (set l i q) i ≡ some q
  get_elem?-set-same [] i old q e = cc
  get_elem?-set-same (x ∷ l) zero old q e = refl
  get_elem?-set-same (x ∷ l) (suc i) old q e = get_elem?-set-same l i old q e

module _ {Row : Type 0} (row_bytes num_layers : ℕ) where
  abbrev pub PrefixValid : Option (BlockCache Row) → Type 0
  PrefixValid none = Unit {0}
  PrefixValid (some b) = BlockValid row_bytes num_layers b × (0 < b.block_size)

  -- The cursor of each slot is the length of its past; each past has all layers.
  pub record HfValid (c : HfCache Row) : Type 0 where
    pub cursors : c.pos ≡ map past_key_values_length c.past
    pub layered :
        (i : ℕ) (p : Past Row) → get_elem? c.past i ≡ some (some p) → length p ≡ num_layers
    pub prefix : PrefixValid c.prefix

  get_elem?-replicate-ne :
      (n i : ℕ) (p : Past Row) → get_elem? (replicate n none) i ≡ some (some p) → ⊥
  get_elem?-replicate-ne zero i p e = cc
  get_elem?-replicate-ne (suc n) zero p e = ground arith
  get_elem?-replicate-ne (suc n) (suc i) p e = get_elem?-replicate-ne n i p e

  pub init_batch-Keeps : (n : ℕ) → Keeps HfValid (init_batch n)
  unfolding init_batch
  init_batch-Keeps n = modify-Keeps (λ c v. record {
    cursors = sym (map-replicate past_key_values_length n none);
    layered = λ i p e. absurd (get_elem?-replicate-ne n i p e);
    prefix = v.prefix;
  })

  pub filled-Valid :
      (i : ℕ) (q : Option (Past Row)) (n : ℕ)
      → n ≡ past_key_values_length q
      → ((p : Past Row) → q ≡ some p → length p ≡ num_layers)
      → (c : HfCache Row) → HfValid c
      → HfValid (filled i q n c)
  filled-Valid i q n e depth c v = record {
    cursors =
        ap (λ l. set l i n) v.cursors
        ∙ ap (set (map past_key_values_length c.past) i) e
        ∙ sym (map-set past_key_values_length c.past i q);
    layered = λ j p f. elim (Bool-cases (i == j)) [
      | inr other ↦ v.layered j p (sym (get_elem?-set c.past i j q ∙ rw other refl) ∙ f)
      | inl same ↦ elim (Bool-cases (ltb i (length c.past))) [
        | inl inside ↦
            depth p (some_inj.0 (sym (get_elem?-set c.past i j q ∙ rw (same, inside) refl) ∙ f))
        | inr outside ↦
            let absent : none ≡ some (some p) =
              sym (get_elem?-set c.past i j q ∙ rw (same, outside) refl) ∙ f in
            cc
      ]
    ];
    prefix = v.prefix;
  }

  pub reset_slot-Keeps : (i : ℕ) → Keeps HfValid (reset_slot i)
  unfolding reset_slot
  reset_slot-Keeps i = bind-Keeps get_state-Keeps (λ c.
      bind-Keeps (item-Keeps (get_elem? c.past i))
        (λ old. modify-Keeps (filled-Valid i none 0 refl (λ q e. cc))))

  module _ (hash : ℕ → List ℕ → ℕ) where
    register_past-Valid :
        (b : BlockCache Row) (token_ids : List ℕ) (q : Option (Past Row))
        → ((p : Past Row) → q ≡ some p → length p ≡ num_layers)
        → PrefixValid (some b)
        → (c : HfCache Row) → HfValid c
        → HfValid (register_past row_bytes hash b token_ids q c).1
    unfolding register_past
    register_past-Valid b token_ids none depth w c v = v
    register_past-Valid b token_ids (some p) depth w c v =
        let (b', e, k, _) =
          insert-Inserted hash row_bytes num_layers token_ids p b w.0 w.1 (depth p refl) in
        record {
          cursors = v.cursors;
          layered = v.layered;
          prefix = rw e (k.valid, rw k.same_size w.1);
        }

    register_with-Valid :
        (o : Option (BlockCache Row)) (i : ℕ) (token_ids : List ℕ)
        → PrefixValid o
        → (c : HfCache Row) → HfValid c
        → HfValid (register_with row_bytes hash o i token_ids c).1
    unfolding register_with
    register_with-Valid none i token_ids w c v = v
    register_with-Valid (some b) i token_ids w c v = elim (Option-cases (get_elem? c.past i)) [
      | inl e ↦ rw (e, item) v
      | inr (q, e) ↦
          rw (e, item)
            (register_past-Valid b token_ids q (λ p f. v.layered i p (e ∙ ap some f)) w c v)
    ]

    pub register_prefix-Keeps :
        (i : ℕ) (token_ids : List ℕ) → Keeps HfValid (register_prefix row_bytes hash i token_ids)
    unfolding register_prefix
    register_prefix-Keeps i token_ids = record {
      keeps = λ c v. register_with-Valid c.prefix i token_ids v.prefix c v;
    }
