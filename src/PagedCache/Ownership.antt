-- ===== src/PagedCache/Ownership.antt =====
-- src/inference/paged_kv_cache.py: who holds the blocks. Each reference is one entry of a slot's
-- table or one entry of the prefix cache.
use nifre.Prelude.{
  ℕ, zero, suc, ◌+◌, ◌-◌, ◌≤◌, ◌<◌, ◌≡◌, ap, inl, inr, Bool, true, false, List, [], ◌∷◌, Option,
  none, some, length, get_elem?, set, ltb, leb, ◌==◌, arith, Option-cases, Bool-cases, count,
}
use nifre.Prelude.Exec.{
  Exec, Error, Outcome, ok, raised, index_error, assertion_error, raise_if, when, lift, item,
  continue,
}
use nifre.Allocator.Accounts.{Accounts, Accounts-ext}
use nifre.BlockTable.{BlockTable, Shared, import_blocks, ensure_capacity, resolve, clear}
use nifre.BlockTable.Ownership.{
  Holds, Keeps, ensure_capacity-Keeps, import_blocks-Keeps, clear-Keeps,
}
use nifre.OrderedDict.Laws.{IsDict, values}
use nifre.PrefixCache.{PrefixCache, lookup, insert}
use nifre.PrefixCache.Ownership.{CacheHolds, insert-Keeps}
use nifre.PrefixCache.Lookup.{lookup-IsLongest, lookup_bounds, lookup-held, Reordered-count}
use nifre.PagedCache.{
  Paged, set_pos, load_matched, try_load_prefix, register_prefix, append, write_rows, reset_slot,
  on_table, on_cache,
}

-- How many times the tables name a block.
abbrev pub table_refs : List BlockTable → ℕ → ℕ
table_refs [] b = 0
table_refs (t ∷ tables) b = count b t.physical_blocks + table_refs tables b

abbrev pub prefix_refs : Option PrefixCache → ℕ → ℕ
prefix_refs none b = 0
prefix_refs (some c) b = count b (values c.entries)

abbrev pub PrefixIsValid : Option PrefixCache → Type 0
PrefixIsValid none = Unit
PrefixIsValid (some c) = IsDict c.entries × (length c.entries ≤ c.max_entries) × (0 < c.max_entries)

module _ {Row : Type 0} where
  -- The references that the tables and the prefix cache hold to a block.
  abbrev pub owners : Paged Row → ℕ → ℕ
  owners s b = table_refs s.tables b + prefix_refs s.prefix b

  -- The pool accounts for exactly these references, and the prefix cache is within its bounds.
  pub record Owned (s : Paged Row) : Type 0 where
    pub accounts : Accounts (owners s) s.pool
    pub prefix_valid : PrefixIsValid s.prefix

table_refs-set :
    (tables : List BlockTable) (i b : ℕ) (t t' : BlockTable)
    → get_elem? tables i ≡ some t
    → table_refs (set tables i t') b + count b t.physical_blocks
      ≡ table_refs tables b + count b t'.physical_blocks
table_refs-set [] i b t t' e = absurd (ground arith)
table_refs-set (u ∷ tables) zero b t t' e = ground arith
table_refs-set (u ∷ tables) (suc i) b t t' e = omega (arith, table_refs-set tables i b t t' e)

count-get_elem? : (l : List ℕ) (i b : ℕ) → get_elem? l i ≡ some b → 0 < count b l
count-get_elem? [] i b e = absurd (ground arith)
count-get_elem? (x ∷ l) zero b e = ground arith
count-get_elem? (x ∷ l) (suc i) b e = omega (arith, count-get_elem? l i b e)

table_refs-get :
    (tables : List BlockTable) (i b : ℕ) (t : BlockTable)
    → get_elem? tables i ≡ some t
    → count b t.physical_blocks ≤ table_refs tables b
table_refs-get [] i b t e = absurd (ground arith)
table_refs-get (u ∷ tables) zero b t e = ground arith
table_refs-get (u ∷ tables) (suc i) b t e = omega (arith, table_refs-get tables i b t e)

-- The references that others hold than a table.
abbrev elsewhere : {Row : Type 0} → Paged Row → BlockTable → ℕ → ℕ
elsewhere s t b = owners s b - count b t.physical_blocks

module _ {Row : Type 0} (s : Paged Row) (i : ℕ) (t : BlockTable) (e : get_elem? s.tables i ≡ some t)
    (h : Owned s) where
  table-Holds : Holds (elsewhere s t) (record { pool = s.pool; table = t })
  table-Holds = Accounts-ext (λ b. omega (arith, table_refs-get s.tables i b t e)) h.accounts

  on_table-Owned :
      (s' : Shared)
      → Keeps (elsewhere s t) (record { pool = s.pool; table = t }) s'
      → Owned (record s { pool = s'.pool; tables = set s.tables i s'.table })
  on_table-Owned s' k = record {
    accounts =
        Accounts-ext
          (λ b.
            omega
              (arith, table_refs-get s.tables i b t e, table_refs-set s.tables i b t s'.table e))
          k.holds;
    prefix_valid = h.prefix_valid;
  }

module _ {Row : Type 0} where
  Owned-bind :
      {A B : Type 0} (r : Outcome A × Paged Row) (f : A → Exec (Paged Row) B)
      → Owned r.1
      → ((a : A) (s : Paged Row) → Owned s → Owned (f a s).1)
      → Owned (continue r.0 f r.1).1
  Owned-bind (ok a, s) f h next = next a s h
  Owned-bind (raised e, s) f h next = h

  Owned-on_table :
      {A : Type 0} (i : ℕ) (m : Exec Shared A) (s : Paged Row)
      → Owned s
      → ((t : BlockTable)
          → get_elem? s.tables i ≡ some t
          → Holds (elsewhere s t) (record { pool = s.pool; table = t })
          → Keeps
              (elsewhere s t)
              (record { pool = s.pool; table = t })
              (m (record { pool = s.pool; table = t })).1)
      → Owned (on_table i m s).1
  Owned-on_table i m s h keeps = elim (Option-cases (get_elem? s.tables i)) [
    | inl e ↦ rw (e, on_table) h
    | inr (t, e) ↦ rw (e, on_table) (on_table-Owned s i t e h _ (keeps t e (table-Holds s i t e h)))
  ]

  set_pos-Owned : (i n : ℕ) (s : Paged Row) → Owned s → Owned (set_pos i n s).1
  unfolding set_pos
  set_pos-Owned i n s h = elim (Bool-cases (leb (length s.pos) i)) [
    | inl out ↦ rw (out, raise_if) h
    | inr fits ↦
        rw (fits, raise_if) (record { accounts = h.accounts; prefix_valid = h.prefix_valid })
  ]

  -- `reset_slot` keeps the account.
  pub reset_slot-Owned : (i : ℕ) (s : Paged Row) → Owned s → Owned (reset_slot i s).1
  unfolding reset_slot
  reset_slot-Owned i s h =
      Owned-bind (on_table i clear s) (λ _. set_pos i 0)
        (Owned-on_table i clear s h (λ t e holds. clear-Keeps (elsewhere s t) _ holds))
        (λ _. set_pos-Owned i 0)

  raise_if-Owned : (test : Bool) (e : Error) (s : Paged Row) → Owned s → Owned (raise_if test e s).1
  raise_if-Owned true e s h = h
  raise_if-Owned false e s h = h

  when-Owned :
      (test : Bool) (m : Exec (Paged Row) (Unit {0})) (s : Paged Row)
      → Owned s
      → Owned (m s).1
      → Owned (when test m s).1
  when-Owned true m s h h' = h'
  when-Owned false m s h h' = h

  item-Owned : {A : Type 0} (o : Option A) (s : Paged Row) → Owned s → Owned (item o s).1
  item-Owned none s h = h
  item-Owned (some a) s h = h

  write_rows-Owned :
      (t : BlockTable) (layer p : ℕ) (rows : List Row) (s : Paged Row)
      → Owned s
      → Owned (write_rows t layer p rows s).1
  unfolding write_rows
  write_rows-Owned t layer p [] s h = h
  write_rows-Owned t layer p (r ∷ rows) s h = Owned-bind (lift (resolve t p) s) _ h λ (b, o) s₁ h₁.
      Owned-bind (raise_if (leb s₁.config.num_layers layer) index_error s₁) _
        (raise_if-Owned (leb s₁.config.num_layers layer) index_error s₁ h₁)
        (λ _ s₂ h₂.
          write_rows-Owned t layer (suc p) rows _
            (record { accounts = h₂.accounts; prefix_valid = h₂.prefix_valid }))

  -- `append` keeps the account on every path: the assertion, a pool that runs out halfway, a layer
  -- out of range.
  pub append-Owned :
      (i layer : ℕ) (rows : List Row) (s : Paged Row) → Owned s → Owned (append i layer rows s).1
  unfolding append
  append-Owned i layer rows s h =
      Owned-bind (item (get_elem? s.pos i) s) _ (item-Owned (get_elem? s.pos i) s h) λ p s₁ h₁.
        Owned-bind (raise_if (ltb s.config.max_seq_len (p + length rows)) assertion_error s₁) _
          (raise_if-Owned (ltb s.config.max_seq_len (p + length rows)) assertion_error s₁ h₁)
          λ _ s₂ h₂.
            Owned-bind (on_table i (ensure_capacity (p + length rows)) s₂) _
              (Owned-on_table i (ensure_capacity (p + length rows)) s₂ h₂
                (λ t e holds. ensure_capacity-Keeps (elsewhere s₂ t) _ _ holds))
              λ _ s₃ h₃.
                Owned-bind (item (get_elem? s₃.tables i) s₃) _
                  (item-Owned (get_elem? s₃.tables i) s₃ h₃)
                  λ t s₄ h₄.
                    Owned-bind (write_rows t layer p rows s₄) _
                      (write_rows-Owned t layer p rows s₄ h₄)
                      λ _ s₅ h₅.
                        when-Owned (suc layer == s₃.config.num_layers) _ s₅ h₅
                          (set_pos-Owned i (p + length rows) s₅ h₅)

module _ {Row : Type 0} (hash : ℕ → List ℕ → ℕ) where
  load_matched-Owned :
      (i n : ℕ) (blocks : List ℕ) (s : Paged Row)
      → Owned s
      → ((b : ℕ) → 0 < count b blocks → 0 < prefix_refs s.prefix b)
      → Owned (load_matched i n blocks s).1
  unfolding load_matched
  load_matched-Owned i zero blocks s h held = h
  load_matched-Owned i (suc n) blocks s h held =
      Owned-bind (on_table i (import_blocks blocks) s) _
        (Owned-on_table i (import_blocks blocks) s h (λ t e holds.
          import_blocks-Keeps (elsewhere s t) blocks _ holds
            (λ b p. omega (arith, held b p, table_refs-get s.tables i b t e))))
        (λ _ s₁ h₁.
          Owned-bind (set_pos i (suc n) s₁) _ (set_pos-Owned i (suc n) s₁ h₁) (λ _ s₂ h₂. h₂))

  module _ (s : Paged Row) (c : PrefixCache) (e : s.prefix ≡ some c) (h : Owned s) where
    entries_valid : IsDict c.entries × (length c.entries ≤ c.max_entries) × (0 < c.max_entries)
    entries_valid = let v = h.prefix_valid in rw e at v

    looked_up-Owned :
        (token_ids : List ℕ) → Owned (record s { prefix = some (lookup hash token_ids c).1 })
    looked_up-Owned token_ids =
        let (_, _, order) = lookup-IsLongest hash token_ids c entries_valid.0 in
        let (max, _) = lookup_bounds hash token_ids c in
        let valid = entries_valid in
        record {
          accounts =
              Accounts-ext
                (λ b. omega (arith, Reordered-count order b, ap (λ p. prefix_refs p b) e))
                h.accounts;
          prefix_valid =
              (order.dict, omega (arith, order.size, max, valid.1), omega (arith, max, valid.2));
        }

    cache-Holds : CacheHolds (table_refs s.tables) (record { pool = s.pool; cache = c })
    cache-Holds = record {
      dict = entries_valid.0;
      accounts = Accounts-ext (λ b. omega (arith, ap (λ p. prefix_refs p b) e)) h.accounts;
      bounded = entries_valid.1;
      positive = entries_valid.2;
    }

  -- `try_load_prefix` keeps the account: the slot gets one reference to each block that it shares.
  pub try_load_prefix-Owned :
      (i : ℕ) (token_ids : List ℕ) (s : Paged Row)
      → Owned s
      → Owned (try_load_prefix hash i token_ids s).1
  unfolding try_load_prefix
  try_load_prefix-Owned i token_ids s h = elim (Option-cases s.prefix) [
    | inl e ↦ rw (e, try_load_prefix) h
    | inr (c, e) ↦
        let (_, _, order) = lookup-IsLongest hash token_ids c (entries_valid s c e h).0 in
        rw (e, try_load_prefix)
          (load_matched-Owned i (lookup hash token_ids c).0.0 (lookup hash token_ids c).0.1 _
            (looked_up-Owned s c e h token_ids)
            (λ b p. omega (
              arith,
              Reordered-count order b,
              lookup-held hash token_ids c (entries_valid s c e h).0 b p,
            )))
  ]

  register-Owned :
      (c : PrefixCache) (t : BlockTable) (token_ids : List ℕ) (s : Paged Row)
      → Owned s
      → s.prefix ≡ some c
      → ((b : ℕ) → count b t.physical_blocks ≤ table_refs s.tables b)
      → Owned (on_cache c (insert hash token_ids t.physical_blocks) s).1
  register-Owned c t token_ids s h e held =
      let (s', p, k) =
        insert-Keeps hash (table_refs s.tables) token_ids t.physical_blocks
          (record { pool = s.pool; cache = c })
          (λ i b q. omega (arith, held b, count-get_elem? t.physical_blocks i b q))
          (cache-Holds s c e h) in
      rw (p, on_cache)
        (record {
          accounts = k.holds.accounts;
          prefix_valid = (k.holds.dict, k.holds.bounded, k.holds.positive);
        })

  -- `register_prefix` keeps the account: each new entry gets one reference to its block, and an
  -- entry that is evicted gives its reference back.
  pub register_prefix-Owned :
      (i : ℕ) (token_ids : List ℕ) (s : Paged Row)
      → Owned s
      → Owned (register_prefix hash i token_ids s).1
  unfolding register_prefix
  register_prefix-Owned i token_ids s h = elim (Option-cases s.prefix) [
    | inl e ↦ rw (e, register_prefix) h
    | inr (c, e) ↦ elim (Option-cases (get_elem? s.tables i)) [
      | inl out ↦ rw (e, register_prefix, out) h
      | inr (t, f) ↦
          rw (e, register_prefix, f)
            (register-Owned c t token_ids s h e (λ b. table_refs-get s.tables i b t f))
    ]
  ]
