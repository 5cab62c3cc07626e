-- ===== src/HfCache/Load.antt =====
-- src/inference/hf_kv_cache.py, `HFKVCache.try_load_prefix`.
use mathlib.Core.Option.{some_inj}
use nifre.Prelude.{
  ℕ, zero, suc, ◌<◌, ◌≡◌, refl, sym, ap, ◌∙◌, ◌⊎◌, inl, inr, List, [], ◌∷◌, Option, none, some, map,
  length, get_elem?, set, arith, Option-cases,
}
use nifre.Prelude.Exec.{Outcome, ok, raised, index_error, item}
use nifre.HfCache.{Past, BlockCache, HfCache, past_length, past_key_values_length, lookup}
use nifre.HfCache.Methods.{load_layers, load_with, try_load_prefix}
use nifre.HfCache.Lookup.{lookup-Found}
use nifre.HfCache.Slots.{HfValid, PrefixValid, filled-Valid, get_elem?-set-same}

module _ {Row : Type 0} where
  -- Slot `i` holds a past of `n` tokens, and its cursor says so.
  pub record Holds (i n : ℕ) (c : HfCache Row) : Type 0 where
    pub layers : Past Row
    pub kept : get_elem? c.past i ≡ some (some layers)
    pub rows : past_length layers ≡ n
    pub cursor : get_elem? c.pos i ≡ some n

  get_elem?-map :
      (l : List (Option (Past Row))) (i n : ℕ)
      → (q : Option (Past Row)) → get_elem? l i ≡ some q
      → past_key_values_length q ≡ n
      → get_elem? (map past_key_values_length l) i ≡ some n
  get_elem?-map [] i n q e h = cc
  get_elem?-map (x ∷ l) zero n q e h = ground arith
  get_elem?-map (x ∷ l) (suc i) n q e h = get_elem?-map l i n q e h

  module _ (row_bytes num_layers : ℕ) where
    -- What `try_load_prefix` does: nothing, or a past of some tokens, fewer than the prompt has,
    -- is put in the slot; it raises for a slot that is not there.
    pub record Loaded (i : ℕ) (token_ids : List ℕ) (c : HfCache Row) (out : Outcome ℕ × HfCache Row)
        : Type 0 where
      pub valid : HfValid row_bytes num_layers out.1
      pub answer :
          ((out.0 ≡ ok 0) × (out.1.past ≡ c.past))
          ⊎ ((n : ℕ) × (out.0 ≡ ok n) × (0 < n) × (n < length token_ids) × Holds i n out.1)
          ⊎ ((out.0 ≡ raised index_error) × (get_elem? c.past i ≡ none) × (out.1.past ≡ c.past))

    load_layers-Loaded :
        (i : ℕ) (token_ids : List ℕ) (layers : Past Row) (c : HfCache Row)
        → HfValid row_bytes num_layers c
        → length layers ≡ num_layers
        → 0 < past_length layers
        → past_length layers < length token_ids
        → Loaded i token_ids c (load_layers i (some layers) c)
    load_layers-Loaded i token_ids [] c v depth pos less = absurd (omega arith)
    load_layers-Loaded i token_ids (layer ∷ layers) c v depth pos less =
        elim (Option-cases (get_elem? c.past i)) [
          | inl e ↦ rw (e, item) record { valid = v; answer = inr (inr (refl, e, refl)) }
          | inr (old, e) ↦
              let v' =
                filled-Valid row_bytes num_layers i (some (layer ∷ layers)) (length layer) refl
                  (λ p f. ap length (sym (some_inj.0 f)) ∙ depth) c v in
              let kept = get_elem?-set-same c.past i old (some (layer ∷ layers)) e in
              rw (e, item)
                record {
                  valid = v';
                  answer = inr (
                      inl (
                        length layer,
                        refl,
                        pos,
                        less,
                        record {
                          layers = layer ∷ layers;
                          kept = kept;
                          rows = refl;
                          cursor =
                              ap (λ l. get_elem? l i) v'.cursors
                              ∙ get_elem?-map (set c.past i (some (layer ∷ layers))) i
                                  (length layer) (some (layer ∷ layers)) kept refl;
                        },
                      ));
                }
        ]

    module _ (hash : ℕ → List ℕ → ℕ) where
      load_with-Loaded :
          (o : Option (BlockCache Row)) (i : ℕ) (token_ids : List ℕ) (c : HfCache Row)
          → PrefixValid row_bytes num_layers o
          → HfValid row_bytes num_layers c
          → Loaded i token_ids c (load_with row_bytes hash o i token_ids c)
      unfolding load_with
      load_with-Loaded none i token_ids c w v = record { valid = v; answer = inl (refl, refl) }
      load_with-Loaded (some b) i token_ids c w v =
          let (f, k) = lookup-Found row_bytes num_layers hash token_ids b w.0 w.1 in
          let v' : HfValid row_bytes num_layers
              (record c { prefix = some (lookup row_bytes hash token_ids b).1 }) =
            record {
              cursors = v.cursors;
              layered = v.layered;
              prefix = (k.valid, rw k.same_size w.1);
            } in
          elim f.answer [
            | inl (_, e) ↦ rw e record { valid = v'; answer = inl (refl, refl) }
            | inr (layers, e, depth, rows, some_block, _) ↦
                let enough : 0 < past_length layers = grind (arith, rows, some_block, w.1) in
                let less : past_length layers < length token_ids =
                  rw rows (f.leaves_token some_block) in
                let l =
                  load_layers-Loaded i token_ids layers
                    (record c { prefix = some (lookup row_bytes hash token_ids b).1 }) v' depth
                    enough less in
                rw e record { valid = l.valid; answer = l.answer }
          ]

      -- `try_load_prefix` of any prompt into any slot keeps the invariant. It either loads nothing
      -- and leaves the pasts as they are; or the slot gets a past of `n` tokens and the cursor
      -- `n`, where `n` is positive and less than the number of tokens of the prompt; or the slot
      -- is not there, and it raises and leaves the pasts as they are.
      pub try_load_prefix-Loaded :
          (i : ℕ) (token_ids : List ℕ) (c : HfCache Row)
          → HfValid row_bytes num_layers c
          → Loaded i token_ids c (try_load_prefix row_bytes hash i token_ids c)
      unfolding try_load_prefix
      try_load_prefix-Loaded i token_ids c v = load_with-Loaded c.prefix i token_ids c v.prefix v
