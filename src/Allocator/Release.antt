-- ===== src/Allocator/Release.antt =====
-- src/inference/block_allocator.py, `retain`, `release` and `free_many` against the ledger.
use nifre.Prelude.{
  ℕ, ◌+◌, ◌-◌, ◌≤◌, ◌<◌, ◌≡◌, refl, ◌∙◌, ◌⊎◌, inl, inr, List, [], ◌∷◌, arith, count, count-erase,
  length-erase, contains, ltb, if◌then◌else◌, Bool-cases,
}
use nifre.Prelude.Exec.{ok, raised, value_error}
use nifre.Allocator.{
  Allocator, add_member, count_up, count_down, drop_if_zero, retain, release, validate_all,
  release_all, free_many,
}
use nifre.Allocator.Accounts.{Accounts, hold, Accounts-ext, in_use_iff, in_range}

-- The ledger with one reference less to each block of `l`.
abbrev pub unhold : (ℕ → ℕ) → List ℕ → ℕ → ℕ
unhold own l b = own b - count b l

abbrev after_release : ℕ → Allocator → Allocator
after_release b a = drop_if_zero b (count_down b a)

-- The two outcomes of `retain` and of `release`.
abbrev pub Retaining : (ℕ → ℕ) → Allocator → ℕ → Type 0
Retaining own a b =
    ((own b ≡ 0) × (retain b a ≡ (raised value_error, a)))
    ⊎ ((0 < own b)
        × (retain b a ≡ (ok tt, count_up b a))
        × Accounts (hold own (b ∷ [])) (count_up b a))

abbrev pub Releasing : (ℕ → ℕ) → Allocator → ℕ → Type 0
Releasing own a b =
    ((own b ≡ 0) × (release b a ≡ (raised value_error, a)))
    ⊎ ((0 < own b)
        × (a' : Allocator) × (release b a ≡ (ok tt, a'))
        × Accounts (unhold own (b ∷ [])) a'
        × (a'.num_blocks ≡ a.num_blocks))

module _ (own : ℕ → ℕ) (a : Allocator) (b : ℕ) (h : Accounts own a) where
  -- `retain(block_id)` adds one reference to a block that somebody holds, and to no other block;
  -- on a block that nobody holds, in the pool or out of range, it raises and changes nothing.
  pub retain-Accounts : Retaining own a b
  unfolding retain
  retain-Accounts = elim (Bool-cases (ltb 0 (own b))) [
    | inl some_hold ↦ inr (
      ground arith,
      ground (arith, in_use_iff own a h b, in_range own a h b),
      record {
        placed = h.placed;
        held = λ j. ground (arith, h.held j);
        counted = λ j. ground (arith, h.counted j, h.counted b);
        total = h.total;
      },
    )
    | inr none_hold ↦ inl (ground arith, ground (arith, in_use_iff own a h b))
  ]

  after_release-Accounts : 0 < own b → Accounts (unhold own (b ∷ [])) (after_release b a)
  after_release-Accounts p = record {
    placed = λ j.
        ground (arith, h.placed j, h.counted b, in_use_iff own a h b, count-erase j a.in_use b);
    held = λ j.
        ground
          (arith, h.held j, h.held b, h.counted b, in_use_iff own a h b, count-erase j a.in_use b);
    counted = λ j. ground (arith, h.counted j, h.counted b);
    total = ground (arith, h.total, h.counted b, in_use_iff own a h b, length-erase a.in_use b);
  }

  -- `release(block_id)` takes one reference from a block that somebody holds, and the block goes
  -- back to the pool with the last one; on a block that nobody holds it raises and changes
  -- nothing. So the count never falls below zero.
  pub release-Accounts : Releasing own a b
  unfolding release
  release-Accounts = elim (Bool-cases (ltb 0 (own b))) [
    | inl some_hold ↦ inr (
      ground arith,
      after_release b a,
      ground (arith, in_use_iff own a h b, in_range own a h b, h.counted b),
      after_release-Accounts (ground arith),
      ground arith,
    )
    | inr none_hold ↦ inl (ground arith, ground (arith, in_use_iff own a h b))
  ]

-- When every block of the list has as many holders as the list has entries for it, the loop of
-- releases goes through.
pub release_all-Accounts :
    (own : ℕ → ℕ) (l : List ℕ) (a : Allocator)
    → Accounts own a
    → ((b : ℕ) → count b l ≤ own b)
    → (a' : Allocator) × (release_all l a ≡ (ok tt, a'))
      × Accounts (unhold own l) a'
      × (a'.num_blocks ≡ a.num_blocks)
unfolding release_all
release_all-Accounts own [] a h held = (a, refl, Accounts-ext (λ b. omega arith) h, refl)
release_all-Accounts own (x ∷ l) a h held = elim (release-Accounts own a x h) [
  | inl (e, _) ↦ let p = held x in absurd (ground arith)
  | inr (_, a₁, p, h₁, n₁) ↦
      let (a', q, h', n') =
        release_all-Accounts (unhold own (x ∷ [])) l a₁ h₁ (λ b. ground (arith, held b)) in
      (a', rw (p, release_all) q, Accounts-ext (λ b. omega arith) h', n' ∙ n₁)
]

pub validate_all-ok :
    (seen l : List ℕ) (a : Allocator)
    → ((b : ℕ) → (if contains seen b then 1 else 0) + count b l ≤ 1)
    → ((b : ℕ) → 0 < count b l → b < a.num_blocks)
    → validate_all seen l a ≡ (ok tt, a)
unfolding validate_all
validate_all-ok seen [] a once range = refl
validate_all-ok seen (x ∷ l) a once range =
    let r = range x in
    let o = once x in
    let rest =
      validate_all-ok (add_member seen x) l a (λ b. ground (arith, once b, once x))
        (λ b p. ground (arith, range b)) in
    ground arith

pub validate_all-duplicate :
    (seen l : List ℕ) (a : Allocator) (b : ℕ)
    → 1 < (if contains seen b then 1 else 0) + count b l
    → validate_all seen l a ≡ (raised value_error, a)
unfolding validate_all
validate_all-duplicate seen [] a b h = absurd (ground arith)
validate_all-duplicate seen (x ∷ l) a b h =
    ground (arith, validate_all-duplicate (add_member seen x) l a b)

free_many-validated :
    (l : List ℕ) (a a' : Allocator)
    → validate_all [] l a ≡ (ok tt, a)
    → release_all l a ≡ (ok tt, a')
    → free_many l a ≡ (ok tt, a')
unfolding free_many
free_many-validated [] a a' v r = r
free_many-validated (x ∷ l) a a' v r = rw v r

-- `free_many` raises on a list that names a block twice, before it has released anything.
pub free_many-duplicate :
    (l : List ℕ) (a : Allocator) (b : ℕ) → 1 < count b l → free_many l a ≡ (raised value_error, a)
unfolding free_many
free_many-duplicate [] a b h = absurd (ground arith)
free_many-duplicate (x ∷ l) a b h = rw (validate_all-duplicate [] (x ∷ l) a b (ground arith))

module _ (own : ℕ → ℕ) (a : Allocator) (l : List ℕ) (h : Accounts own a) where
  -- `free_many(block_ids)` with distinct blocks that are all held returns, and takes one
  -- reference from each of them and from no other block.
  pub free_many-Accounts :
      ((b : ℕ) → count b l ≤ 1)
      → ((b : ℕ) → 0 < count b l → 0 < own b)
      → (a' : Allocator) × (free_many l a ≡ (ok tt, a'))
        × Accounts (unhold own l) a'
        × (a'.num_blocks ≡ a.num_blocks)
  free_many-Accounts once held =
      let (a', r, h', n) = release_all-Accounts own l a h (λ b. ground (arith, once b, held b)) in
      let v =
        validate_all-ok [] l a (λ b. ground (arith, once b))
          (λ b p. in_range own a h b (held b p)) in
      (a', free_many-validated l a a' v r, h', n)
