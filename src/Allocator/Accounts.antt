-- ===== src/Allocator/Accounts.antt =====
-- src/inference/block_allocator.py against a ledger: `own b` references to block `b` are held.
use nifre.Prelude.{
  ℕ, zero, suc, ◌+◌, ◌<◌, ◌≡◌, refl, List, [], ◌∷◌, arith, length, count, contains, contains-count,
  ltb, if◌then◌else◌,
}
use nifre.Prelude.Exec.{ok}
use nifre.Prelude.Int.{pos}
use nifre.Allocator.{Allocator, free_count, init, range_reversed, claim}

-- The pool is split into free blocks and blocks in use; a block is in use when somebody holds it,
-- and its count is the number of holders.
pub record Accounts (own : ℕ → ℕ) (a : Allocator) : Type 0 where
  pub placed : (b : ℕ) → count b a.free + count b a.in_use ≡ (if ltb b a.num_blocks then 1 else 0)
  pub held : (b : ℕ) → count b a.in_use ≡ (if ltb 0 (own b) then 1 else 0)
  pub counted : (b : ℕ) → a.refcount b ≡ pos (own b)
  pub total : length a.free + length a.in_use ≡ a.num_blocks

-- The ledger with one more reference to each block of `l`.
abbrev pub hold : (ℕ → ℕ) → List ℕ → ℕ → ℕ
hold own l b = own b + count b l

pub Accounts-ext :
    {own own' : ℕ → ℕ} {a : Allocator}
    → ((b : ℕ) → own b ≡ own' b)
    → Accounts own a
    → Accounts own' a
Accounts-ext e h = record {
  placed = h.placed;
  held = λ b. ground (arith, e b, h.held b);
  counted = λ b. ground (arith, e b, h.counted b);
  total = h.total;
}

count-range_reversed : (n b : ℕ) → count b (range_reversed n) ≡ (if ltb b n then 1 else 0)
unfolding range_reversed
count-range_reversed zero b = ground arith
count-range_reversed (suc n) b = ground (arith, count-range_reversed n b)

length-range_reversed : (n : ℕ) → length (range_reversed n) ≡ n
unfolding range_reversed
length-range_reversed zero = refl
length-range_reversed (suc n) = omega (arith, length-range_reversed n)

pub init-Accounts : (n : ℕ) {a : Allocator} → init n ≡ ok a → Accounts (λ b. 0) a
unfolding init
init-Accounts zero e = absurd (ground arith)
init-Accounts (suc n) e = record {
  placed = λ b. ground (arith, count-range_reversed (suc n) b);
  held = λ b. ground arith;
  counted = λ b. ground arith;
  total = ground (arith, length-range_reversed (suc n));
}

pub init-free :
    (n : ℕ) {a : Allocator} → init n ≡ ok a → (a.num_blocks ≡ n) × (free_count a ≡ a.num_blocks)
unfolding init free_count
init-free zero e = absurd (ground arith)
init-free (suc n) e = (ground arith, ground (arith, length-range_reversed (suc n)))

module _ (own : ℕ → ℕ) (a : Allocator) (h : Accounts own a) where
  pub claim-unheld : (b : ℕ) (rest : List ℕ) → a.free ≡ b ∷ rest → own b ≡ 0
  claim-unheld b rest e = ground (arith, h.placed b, h.held b)

  pub claim-Accounts :
      (b : ℕ) (rest : List ℕ) → a.free ≡ b ∷ rest → Accounts (hold own (b ∷ [])) (claim b rest a)
  claim-Accounts b rest e = record {
    placed = λ j. ground (arith, h.placed j, h.placed b, h.held b, contains-count a.in_use b);
    held = λ j. ground (arith, h.placed b, h.held j, h.held b, contains-count a.in_use b);
    counted = λ j. ground (arith, h.counted j, claim-unheld b rest e);
    total = ground (arith, h.total, h.placed b, h.held b, contains-count a.in_use b);
  }

  pub in_use_iff : (b : ℕ) → contains a.in_use b ≡ ltb 0 (own b)
  in_use_iff b = ground (arith, contains-count a.in_use b, h.held b)

  pub in_range : (b : ℕ) → 0 < own b → b < a.num_blocks
  in_range b p = ground (arith, h.placed b, h.held b)
