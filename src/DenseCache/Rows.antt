-- ===== src/DenseCache/Rows.antt =====
-- src/inference/kv_cache.py: `get` after `append`.
use nifre.Prelude.{
  get_elem?-set, ℕ, zero, suc, ◌+◌, ◌≤◌, ◌<◌, ◌≡◌, ◌≢◌, ◌⊎◌, refl, ap, ◌∙◌, true, false, List, [],
  ◌∷◌, ◌++◌, some, length, get_elem?, set, ltb, leb, ◌==◌, ==_refl, ==_iff, if◌then◌else◌, update,
  arith, inl, inr, Bool-cases, Option-cases,
}
use nifre.Prelude.Exec.{ok, raised, index_error, assertion_error, raise_if, when, item}
use nifre.PagedCache.{read_rows}
use nifre.DenseCache.{Dense, write_from, written, append}

module _ {Row : Type 0} where
  read_rows-ext :
      (f g : ℕ → Row) (start n : ℕ)
      → ((j : ℕ) → start ≤ j → j < start + n → f j ≡ g j)
      → read_rows f start n ≡ read_rows g start n
  unfolding read_rows
  read_rows-ext f g start zero h = refl
  read_rows-ext f g start (suc n) h =
      rw
        (
          h start (omega arith) (omega arith),
          read_rows-ext f g (suc start) n (λ j lo hi. h j (omega arith) (omega arith)),
        )
        refl

  write_from-before :
      (rows : List Row) (p : ℕ) (f : ℕ → Row) (j : ℕ) → j < p → write_from rows p f j ≡ f j
  unfolding write_from
  write_from-before [] p f j h = refl
  write_from-before (r ∷ rows) p f j h =
      let rest = write_from-before rows (suc p) (update f p r) j (omega arith) in
      let other : (p == j) ≡ false = ground arith in rest ∙ rw other refl

  read_rows-append :
      (f : ℕ → Row) (start m n : ℕ)
      → read_rows f start (m + n) ≡ read_rows f start m ++ read_rows f (start + m) n
  unfolding read_rows
  read_rows-append f start zero n =
      let none_first : 0 + n ≡ n = omega arith in
      let here : start + 0 ≡ start = omega arith in rw (none_first, here) refl
  read_rows-append f start (suc m) n =
      let shorter : suc m + n ≡ suc (m + n) = omega arith in
      let next : start + suc m ≡ suc start + m = omega arith in
      rw (shorter, next) (ap (λ l. f start ∷ l) (read_rows-append f (suc start) m n))

  read_rows-write_from :
      (rows : List Row) (p : ℕ) (f : ℕ → Row)
      → read_rows (write_from rows p f) p (length rows) ≡ rows
  unfolding read_rows write_from
  read_rows-write_from [] p f = refl
  read_rows-write_from (r ∷ rows) p f =
      let first : write_from rows (suc p) (update f p r) p ≡ r =
        write_from-before rows (suc p) (update f p r) p (omega arith) ∙ rw (==_refl p) refl in
      rw (first, read_rows-write_from rows (suc p) (update f p r)) refl

  -- The rows that a slot holds after new ones are written behind the old.
  read_written :
      (rows : List Row) (p : ℕ) (f : ℕ → Row)
      → read_rows (write_from rows p f) 0 (p + length rows) ≡ read_rows f 0 p ++ rows
  read_written rows p f =
      let behind : 0 + p ≡ p = omega arith in
      rw
        (
          read_rows-append (write_from rows p f) 0 p (length rows),
          behind,
          read_rows-write_from rows p f,
          read_rows-ext (write_from rows p f) f 0 p
              (λ j lo hi. write_from-before rows p f j (omega arith)),
        )
        refl

elem_in_range :
    {A : Type 0} (l : List A) (i : ℕ) (a : A) → get_elem? l i ≡ some a → ltb i (length l) ≡ true
elem_in_range [] i a e = ground arith
elem_in_range (x ∷ l) zero a e = ground arith
elem_in_range (x ∷ l) (suc i) a e = ground (arith, elem_in_range l i a e)

-- The three outcomes of `append` in a slot of the batch.
abbrev pub Appended : {Row : Type 0} → Dense Row → ℕ → ℕ → ℕ → List Row → Type 0
Appended c i layer p rows =
    ((c.max_seq_len < p + length rows) × (append i layer rows c ≡ (raised assertion_error, c)))
    ⊎ (((p + length rows ≤ c.max_seq_len)
          × (c.num_layers ≤ layer)
          × (append i layer rows c ≡ (raised index_error, c)))
        ⊎ ((p + length rows ≤ c.max_seq_len)
            × (layer < c.num_layers)
            × ((append i layer rows c).0 ≡ ok tt)
            × (get_elem? (append i layer rows c).1.pos i
                ≡ some (if suc layer == c.num_layers then p + length rows else p))
            × (read_rows ((append i layer rows c).1.store layer i) 0 (p + length rows)
                ≡ read_rows (c.store layer i) 0 p ++ rows)))

module _ {Row : Type 0} where
  -- `append` of rows to a slot of the batch, whose cursor is at `p`. It raises AssertionError
  -- when they do not fit, and IndexError for a layer that does not exist, without a change.
  -- Otherwise the slot holds, in that layer, the old rows and the new ones behind them; the
  -- cursor moves behind the new rows with the last layer, and with no other.
  pub append-Appended :
      (c : Dense Row) (i layer p : ℕ) (rows : List Row)
      → get_elem? c.pos i ≡ some p
      → Appended c i layer p rows
  unfolding append
  append-Appended c i layer p rows e = elim (Bool-cases (ltb c.max_seq_len (p + length rows))) [
    | inl long ↦ inl (ground arith, rw (e, item, long, raise_if) refl)
    | inr fits ↦ elim (Bool-cases (leb c.num_layers layer)) [
      | inl absent ↦
          inr (inl (ground arith, ground arith, rw (e, item, fits, raise_if, absent) refl))
      | inr present ↦
          let stored : read_rows ((written i layer p rows c).store layer i) 0 (p + length rows)
              ≡ read_rows (c.store layer i) 0 p ++ rows =
            rw (==_refl layer, ==_refl i) (read_written rows p (c.store layer i)) in
          elim (Bool-cases (suc layer == c.num_layers)) [
            | inr inner ↦ inr (
                inr (
                  ground arith,
                  ground arith,
                  rw (e, item, fits, raise_if, present, inner, when) refl,
                  rw (e, item, fits, raise_if, present, inner, when) e,
                  rw (e, item, fits, raise_if, present, inner, when) stored,
                ))
            | inl last ↦
                let moved_on : get_elem? (set c.pos i (p + length rows)) i
                    ≡ some (p + length rows) =
                  rw
                    (
                      get_elem?-set c.pos i i (p + length rows),
                      ==_refl i,
                      elem_in_range c.pos i p e,
                    )
                    refl in
                inr (
                  inr (
                    ground arith,
                    ground arith,
                    rw (e, item, fits, raise_if, present, last, when) refl,
                    rw (e, item, fits, raise_if, present, last, when) moved_on,
                    rw (e, item, fits, raise_if, present, last, when) stored,
                  ))
          ]
    ]
  ]

  -- `append` to a slot, whether or not it raises, leaves the cursor of every other slot and all
  -- of that slot's rows in every layer.
  pub append-elsewhere :
      (c : Dense Row) (i j layer other_layer : ℕ) (rows : List Row)
      → i ≢ j
      → (get_elem? (append i layer rows c).1.pos j ≡ get_elem? c.pos j)
        × ((append i layer rows c).1.store other_layer j ≡ c.store other_layer j)
  unfolding append
  append-elsewhere c i j layer other_layer rows apart =
      let other : (i == j) ≡ false = ground (arith, apart) in
      elim (Option-cases (get_elem? c.pos i)) [
        | inl absent ↦ (rw (absent, item) refl, rw (absent, item) refl)
        | inr (p, e) ↦ elim (Bool-cases (ltb c.max_seq_len (p + length rows))) [
          | inl long ↦ (rw (e, item, long, raise_if) refl, rw (e, item, long, raise_if) refl)
          | inr fits ↦ elim (Bool-cases (leb c.num_layers layer)) [
            | inl no_layer ↦ (
              rw (e, item, fits, raise_if, no_layer) refl,
              rw (e, item, fits, raise_if, no_layer) refl,
            )
            | inr present ↦
                let rows_same : (written i layer p rows c).store other_layer j
                    ≡ c.store other_layer j =
                  elim (Bool-cases (layer == other_layer)) [
                    | inl same ↦ rw (same, other) (ap (λ l. c.store l j) ((==_iff _ _).0 same))
                    | inr differs ↦ rw differs refl
                  ] in
                elim (Bool-cases (suc layer == c.num_layers)) [
                  | inr inner ↦ (
                    rw (e, item, fits, raise_if, present, inner, when) refl,
                    rw (e, item, fits, raise_if, present, inner, when) rows_same,
                  )
                  | inl last ↦ (
                    rw (e, item, fits, raise_if, present, last, when)
                        (rw (get_elem?-set c.pos i j (p + length rows), other) refl),
                    rw (e, item, fits, raise_if, present, last, when) rows_same,
                  )
                ]
          ]
        ]
      ]
