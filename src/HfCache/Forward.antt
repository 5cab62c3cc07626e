-- ===== src/HfCache/Forward.antt =====
-- src/inference/backends/hf_auto.py: the forward pass over the slots of the cache of
-- src/inference/hf_kv_cache.py, where the model writes into the pasts in place.
use mathlib.Core.Option.{some_inj}
use nifre.Prelude.{
  ℕ, zero, suc, ◌≤◌, ◌≡◌, refl, sym, ap, ◌∙◌, ◌⊎◌, inl, inr, List, [], ◌∷◌, Option, none, some,
  length, get_elem?, set, drop, ltb, ◌==◌, arith, Bool-cases, Option-cases, get_elem?-set,
  length-set,
}
use nifre.Prelude.Exec.{
  Error, Exec, Outcome, ok, raised, index_error, value_error, item, raise_if, Outcome-cases, ◌>>=◌,
}
use nifre.HfCache.{Past, HfCache, past_length}
use nifre.HfCache.Methods.{
  filled, get_past, set_past, reset_slot, row_ids, held, with_grown, forward_row, first_len,
  rest_lens, first_slot, forward,
}
use nifre.HfCache.Slots.{HfValid, filled-Valid, reset_slot-Keeps, get_elem?-set-same}

set-set : {A : Type 0} (l : List A) (i : ℕ) (a b : A) → set (set l i a) i b ≡ set l i b
set-set [] i a b = refl
set-set (x ∷ l) zero a b = refl
set-set (x ∷ l) (suc i) a b = ap (λ r. x ∷ r) (set-set l i a b)

module _ {Row : Type 0} where
  -- No cursor is above the maximal length.
  abbrev pub Fits : HfCache Row → Type 0
  Fits c = (i n : ℕ) → get_elem? c.pos i ≡ some n → n ≤ c.max_seq_len

  module _ (row_bytes num_layers : ℕ) where
    -- A result for each of `n` rows, and the invariant; or an exception at one slot, and the
    -- invariant would hold with this slot empty.
    abbrev pub Ended : {A : Type 0} → (A → Type 0) → Outcome A × HfCache Row → Type 0
    Ended Good out =
        ((a : _) × (out.0 ≡ ok a) × Good a × HfValid row_bytes num_layers out.1)
        ⊎ ((err : Error) × (j : ℕ) × (out.0 ≡ raised err)
            × HfValid row_bytes num_layers (reset_slot j out.1).1)

    pub record Forwarded {A : Type 0} (Good : A → Type 0) (c : HfCache Row)
        (out : Outcome A × HfCache Row) : Type 0 where
      pub same_prefix : out.1.prefix ≡ c.prefix
      pub same_slots : length out.1.past ≡ length c.past
      pub fits : Fits out.1
      pub ended : Ended Good out

    untouched :
        {A : Type 0} (Good : A → Type 0) (c : HfCache Row) (err : Error) (j : ℕ)
        → HfValid row_bytes num_layers c
        → Fits c
        → Forwarded Good c (raised err, c)
    untouched Good c err j v fit = record {
      same_prefix = refl;
      same_slots = refl;
      fits = fit;
      ended = inr (err, j, refl, (reset_slot-Keeps row_bytes num_layers j).keeps c v);
    }

    bind-Forwarded :
        {A B : Type 0} {Good : A → Type 0} {Good' : B → Type 0} (m : Exec (HfCache Row) A)
        (k : A → Exec (HfCache Row) B) (c : HfCache Row)
        → Forwarded Good c (m c)
        → ((a : A)
            → Good a
            → (c' : HfCache Row) → HfValid row_bytes num_layers c'
            → Fits c'
            → Forwarded Good' c' (k a c'))
        → Forwarded Good' c ((m >>= k) c)
    bind-Forwarded m k c r next = elim r.ended [
      | inr (err, j, e, v) ↦ rw e record {
        same_prefix = r.same_prefix;
        same_slots = r.same_slots;
        fits = r.fits;
        ended = inr (err, j, refl, v);
      }
      | inl (a, e, g, v) ↦
          let n = next a g (m c).1 v r.fits in
          rw e record {
            same_prefix = n.same_prefix ∙ r.same_prefix;
            same_slots = n.same_slots ∙ r.same_slots;
            fits = n.fits;
            ended = n.ended;
          }
    ]

    -- An object in a slot that has grown, and a cursor that has not moved.
    grown-Forwarded :
        {A : Type 0} (Good : A → Type 0) (c : HfCache Row) (err : Error) (j : ℕ)
        (old q : Option (Past Row))
        → get_elem? c.past j ≡ some old
        → HfValid row_bytes num_layers c
        → Fits c
        → Forwarded Good c (raised err, with_grown j q c)
    unfolding reset_slot
    grown-Forwarded Good c err j old q e v fit = record {
      same_prefix = refl;
      same_slots = length-set c.past j q;
      fits = fit;
      ended = inr (
        err,
        j,
        refl,
        rw (get_elem?-set-same c.past j old q e, item, set-set)
            (filled-Valid row_bytes num_layers j none 0 refl (λ p f. absurd cc) c v),
      );
    }

    filled-Fits :
        (c : HfCache Row) (j n : ℕ) (q : Option (Past Row))
        → Fits c
        → n ≤ c.max_seq_len
        → Fits (filled j q n c)
    filled-Fits c j n q fit h i m e = elim (Bool-cases (j == i)) [
      | inr other ↦ fit i m (sym (get_elem?-set c.pos j i n ∙ rw other refl) ∙ e)
      | inl same ↦ elim (Bool-cases (ltb j (length c.pos))) [
        | inl inside ↦
            let z : n ≡ m =
              some_inj.0 (sym (get_elem?-set c.pos j i n ∙ rw (same, inside) refl) ∙ e) in
            omega arith
        | inr outside ↦
            let absent : none ≡ some m =
              sym (get_elem?-set c.pos j i n ∙ rw (same, outside) refl) ∙ e in
            absurd cc
      ]
    ]

    module _ (model : List ℕ → Option (Past Row) → Past Row × Outcome (Past Row × ℕ))
        (layered : (ids : List ℕ) (q : Option (Past Row)) (p : Past Row) (t : ℕ)
          → (model ids q).1 ≡ ok (p, t)
          → length p ≡ num_layers) where
      forward_row-Forwarded :
          (row : List ℕ) (input_len : Option ℕ) (slot : ℕ) (c : HfCache Row)
          → HfValid row_bytes num_layers c
          → Fits c
          → Forwarded (λ t. Unit {0}) c (forward_row model row input_len slot c)
      unfolding forward_row get_past set_past
      forward_row-Forwarded row input_len slot c v fit =
          elim (Option-cases (get_elem? c.past slot)) [
            | inl e ↦ rw (e, item) (untouched _ c index_error slot v fit)
            | inr (old, e) ↦
                let out = model (row_ids input_len row) old in
                let q = held old out.0 in
                elim (Outcome-cases out.1) [
                  | inr (err, f) ↦ rw (e, item, f) (grown-Forwarded _ c err slot old q e v fit)
                  | inl ((p, t), f) ↦ elim (Bool-cases (ltb c.max_seq_len (past_length p))) [
                    | inl long ↦
                        rw (e, item, f, long, raise_if)
                          (grown-Forwarded _ c value_error slot old q e v fit)
                    | inr short ↦
                        let kept = get_elem?-set-same c.past slot old q e in
                        rw (e, item, f, short, raise_if, kept, set-set)
                          record {
                            same_prefix = refl;
                            same_slots = length-set c.past slot (some p);
                            fits = filled-Fits c slot (past_length p) (some p) fit (ground arith);
                            ended = inl (
                              t,
                              refl,
                              tt,
                              filled-Valid row_bytes num_layers slot (some p) (past_length p) refl
                                  (λ r g. ap length (sym (some_inj.0 g)) ∙ layered _ old p t f) c v,
                            );
                          }
                  ]
                ]
          ]

      -- `__call__` over any rows and slots, for a model that may raise and may write into the past
      -- that it is passed. The prefix cache and the number of slots stay as they are, and no
      -- cursor is above the maximal length. Either there is a token for each row, and each cursor
      -- is the length of the past of its slot; or it raises, and resetting one slot makes this
      -- true again: the past of that slot may have grown while its cursor stayed.
      pub forward-Forwarded :
          (rows : List (List ℕ)) (lens : Option (List ℕ)) (slots : List ℕ) (c : HfCache Row)
          → HfValid row_bytes num_layers c
          → Fits c
          → Forwarded (λ tokens. length tokens ≡ length rows) c (forward model rows lens slots c)
      unfolding forward
      forward-Forwarded [] lens slots c v fit = record {
        same_prefix = refl;
        same_slots = refl;
        fits = fit;
        ended = inl ([], refl, refl, v);
      }
      forward-Forwarded (row ∷ rows) lens slots c v fit = elim (Outcome-cases (first_slot slots)) [
        | inr (err, e) ↦ rw e (untouched _ c err 0 v fit)
        | inl (slot, e) ↦ elim (Outcome-cases (first_len lens)) [
          | inr (err, f) ↦ rw (e, f) (untouched _ c err 0 v fit)
          | inl (input_len, f) ↦
              rw (e, f)
                (bind-Forwarded (forward_row model row input_len slot) _ c
                  (forward_row-Forwarded row input_len slot c v fit)
                  (λ token u c1 v1 fit1.
                    bind-Forwarded (forward model rows (rest_lens lens) (drop 1 slots)) _ c1
                      (forward-Forwarded rows (rest_lens lens) (drop 1 slots) c1 v1 fit1)
                      (λ tokens g c2 v2 fit2. record {
                        same_prefix = refl;
                        same_slots = refl;
                        fits = fit2;
                        ended = inl (token ∷ tokens, refl, ap suc g, v2);
                      })))
        ]
      ]
