-- ===== src/BlockTable/Ownership.antt =====
-- src/inference/block_table.py: what each method does to the references that the table holds.
use nifre.Prelude.{
  ℕ, zero, suc, ◌+◌, ◌≤◌, ◌<◌, ◌≡◌, refl, ap, ◌∙◌, ◌⊎◌, inl, inr, false, List, [], ◌∷◌, ◌++◌,
  length, ltb, count, count-append, Bool-cases, arith,
}
use nifre.Prelude.Exec.{Exec, Outcome, ok, raised, pool_exhausted, continue, when}
use nifre.Allocator.{Allocator, free_count, count_up}
use nifre.Allocator.Accounts.{Accounts, hold, Accounts-ext}
use nifre.Allocator.Allocation.{allocate-Accounts}
use nifre.Allocator.Release.{retain-Accounts, free_many-Accounts, free_many-duplicate}
use nifre.BlockTable.{
  Shared, set_blocks, import_blocks, retain_all, add_block, grow, ensure_capacity, clear,
  is_nonempty,
}

-- With `rest` references held elsewhere, the pool accounts for those of the table too.
abbrev pub Holds : (ℕ → ℕ) → Shared → Type 0
Holds rest s = Accounts (hold rest s.table.physical_blocks) s.pool

-- Whether the method returns or raises, the references stay accounted for, and the pool and the
-- table keep their sizes.
pub record Keeps (rest : ℕ → ℕ) (s s' : Shared) : Type 0 where
  pub holds : Holds rest s'
  pub same_pool : s'.pool.num_blocks ≡ s.pool.num_blocks
  pub same_size : s'.table.block_size ≡ s.table.block_size

abbrev Keeps-refl : {rest : ℕ → ℕ} {s : Shared} → Holds rest s → Keeps rest s s
Keeps-refl h = record { holds = h; same_pool = refl; same_size = refl }

Keeps-trans : {rest : ℕ → ℕ} {s t u : Shared} → Keeps rest s t → Keeps rest t u → Keeps rest s u
Keeps-trans k l = record {
  holds = l.holds;
  same_pool = l.same_pool ∙ k.same_pool;
  same_size = l.same_size ∙ k.same_size;
}

-- One round of the loop adds one free block, or finds the pool empty and changes nothing.
pub record Adds (rest : ℕ → ℕ) (s t : Shared) : Type 0 where
  pub block : ℕ
  pub blocks : t.table.physical_blocks ≡ s.table.physical_blocks ++ block ∷ []
  pub fewer : free_count t.pool + 1 ≡ free_count s.pool
  pub keeps : Keeps rest s t

pub add_block-Adds :
    (rest : ℕ → ℕ) (s : Shared)
    → Holds rest s
    → ((free_count s.pool ≡ 0) × (add_block s ≡ (raised pool_exhausted, s)))
      ⊎ ((t : Shared) × (add_block s ≡ (ok tt, t)) × Adds rest s t)
unfolding add_block
add_block-Adds rest s h = elim (allocate-Accounts (hold rest s.table.physical_blocks) s.pool h) [
  | inl (none_free, e) ↦ inl (none_free, rw e)
  | inr (_, b, a, e, _, h', n, fewer) ↦ inr (
    set_blocks (s.table.physical_blocks ++ b ∷ []) (record s { pool = a }),
    rw e,
    record {
      block = b;
      blocks = refl;
      fewer = fewer;
      keeps = record {
        holds =
            Accounts-ext (λ j. omega (arith, count-append j s.table.physical_blocks (b ∷ []))) h';
        same_pool = n;
        same_size = refl;
      };
    },
  )
]

add_block-Keeps : (rest : ℕ → ℕ) (s : Shared) → Holds rest s → Keeps rest s (add_block s).1
add_block-Keeps rest s h = elim (add_block-Adds rest s h) [
  | inl (_, e) ↦ rw e (Keeps-refl h)
  | inr (t, e, adds) ↦ rw e adds.keeps
]

Keeps-bind :
    {A B : Type 0} {rest : ℕ → ℕ} {s : Shared} (r : Outcome A × Shared) (f : A → Exec Shared B)
    → Keeps rest s r.1
    → ((a : A) (t : Shared) → Holds rest t → Keeps rest t (f a t).1)
    → Keeps rest s (continue r.0 f r.1).1
Keeps-bind (ok a, t) f k next = Keeps-trans k (next a t k.holds)
Keeps-bind (raised e, t) f k next = k

grow-Keeps :
    (rest : ℕ → ℕ) (f needed : ℕ) (s : Shared) → Holds rest s → Keeps rest s (grow f needed s).1
unfolding grow
grow-Keeps rest zero needed s h = Keeps-refl h
grow-Keeps rest (suc f) needed s h =
    elim (Bool-cases (ltb (length s.table.physical_blocks) needed)) [
      | inl more ↦
          rw (more, when)
            (Keeps-bind (add_block s) (λ _. grow f needed) (add_block-Keeps rest s h)
              (λ _. grow-Keeps rest f needed))
      | inr done ↦ rw (done, when) (Keeps-refl h)
    ]

-- `ensure_capacity` keeps the account, also where the pool runs out halfway and it raises.
pub ensure_capacity-Keeps :
    (rest : ℕ → ℕ) (total : ℕ) (s : Shared)
    → Holds rest s
    → Keeps rest s (ensure_capacity total s).1
unfolding ensure_capacity
ensure_capacity-Keeps rest total s h = grow-Keeps rest _ _ s h

retain_all-Accounts :
    (own : ℕ → ℕ) (l : List ℕ) (a : Allocator)
    → Accounts own a
    → ((b : ℕ) → 0 < count b l → 0 < own b)
    → (a' : Allocator) × (retain_all l a ≡ (ok tt, a'))
      × Accounts (hold own l) a'
      × (a'.num_blocks ≡ a.num_blocks)
unfolding retain_all
retain_all-Accounts own [] a h held = (a, refl, Accounts-ext (λ b. omega arith) h, refl)
retain_all-Accounts own (x ∷ l) a h held = elim (retain-Accounts own a x h) [
  | inl (e, _) ↦ let p = held x in absurd (ground arith)
  | inr (_, p, h₁) ↦
      let (a', q, h', n') =
        retain_all-Accounts (hold own (x ∷ [])) l (count_up x a) h₁ (λ b. ground (arith, held b)) in
      (a', rw (p, retain_all) q, Accounts-ext (λ b. omega arith) h', n')
]

empty_of_test : (l : List ℕ) → is_nonempty l ≡ false → l ≡ []
empty_of_test [] e = refl
empty_of_test (b ∷ l) e = cc

-- `import_blocks` of blocks that are held elsewhere takes one reference to each; it refuses a
-- table that has blocks already, without a change.
pub import_blocks-Keeps :
    (rest : ℕ → ℕ) (l : List ℕ) (s : Shared)
    → Holds rest s
    → ((b : ℕ) → 0 < count b l → 0 < rest b)
    → Keeps rest s (import_blocks l s).1
unfolding import_blocks
import_blocks-Keeps rest l s h held = elim (Bool-cases (is_nonempty s.table.physical_blocks)) [
  | inr e ↦
      let (a', p, h', n) =
        retain_all-Accounts rest l s.pool
          (Accounts-ext {own' = rest}
            (λ j. ground (arith, ap (count j) (empty_of_test s.table.physical_blocks e))) h)
          held in
      rw (e, import_blocks, p) (record { holds = h'; same_pool = n; same_size = refl })
  | inl e ↦ rw (e, import_blocks) (Keeps-refl h)
]

once_or_twice : (l : List ℕ) → ((b : ℕ) → count b l ≤ 1) ⊎ ((b : ℕ) × (1 < count b l))
once_or_twice [] = inl (λ b. omega arith)
once_or_twice (x ∷ l) = elim (once_or_twice l) [
  | inr (b, twice) ↦ inr (b, omega arith)
  | inl once ↦ elim (Bool-cases (ltb 0 (count x l))) [
    | inl again ↦ inr (x, ground arith)
    | inr fresh ↦ inl (λ b. ground (arith, once b))
  ]
]

-- `clear` gives the references of the table back, or, for a table that names a block twice,
-- raises and changes nothing.
pub clear-Keeps : (rest : ℕ → ℕ) (s : Shared) → Holds rest s → Keeps rest s (clear s).1
unfolding clear
clear-Keeps rest s h = elim (Bool-cases (is_nonempty s.table.physical_blocks)) [
  | inr e ↦ rw (e, when) (Keeps-refl h)
  | inl e ↦ elim (once_or_twice s.table.physical_blocks) [
    | inl once ↦
        let (a', p, h', n) =
          free_many-Accounts (hold rest s.table.physical_blocks) s.pool _ h once
            (λ b q. omega arith) in
        rw (e, when, p)
          (record { holds = Accounts-ext (λ b. omega arith) h'; same_pool = n; same_size = refl })
    | inr (b, twice) ↦
        rw (e, when, free_many-duplicate s.table.physical_blocks s.pool b twice) (Keeps-refl h)
  ]
]
