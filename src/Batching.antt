-- ===== src/Batching.antt =====
-- src/inference/batching.py, `batch_token_ids`, and the slices of src/inference/attention.py that
-- undo its padding; the causal mask of a chunk.
use nifre.Prelude.{
  ℕ, zero, suc, ◌+◌, ◌-◌, ◌≤◌, ◌<◌, ◌≡◌, refl, Bool, false, List, [], ◌∷◌, ◌++◌, Option, none, some,
  length, map, replicate, drop, max, ltb, if◌then◌else◌, arith, length-append, length-replicate,
  drop-length-append, Bool-cases, inl, inr,
}
use nifre.Prelude.Exec.{Outcome, ok, raised, value_error}

-- `max(len(tokens) for tokens in token_lists)`, of lists that are not none.
abbrev pub max_length : List (List ℕ) → ℕ
max_length [] = 0
max_length (tokens ∷ lists) = max (length tokens) (max_length lists)

-- `padding + tokens`
unfoldable pub pad_left : ℕ → ℕ → List ℕ → List ℕ
pad_left pad_id max_len tokens = replicate (max_len - length tokens) pad_id ++ tokens

-- The rows of the batch, and the number of tokens of each.
unfoldable pub batch_token_ids : ℕ → List (List ℕ) → Outcome (List (List ℕ) × List ℕ)
unfolding pad_left
batch_token_ids pad_id [] = raised value_error
batch_token_ids pad_id (tokens ∷ lists) =
    let max_len = max_length (tokens ∷ lists) in
    ok (map (pad_left pad_id max_len) (tokens ∷ lists), map length (tokens ∷ lists))

-- `row[-n:]`, which for 0 is the whole row.
unfoldable pub last_slice : {A : Type 0} → ℕ → List A → List A
last_slice zero row = row
last_slice (suc n) row = drop (length row - suc n) row

-- The part of a row that `_forward_with_cache` reads and appends to the cache.
unfoldable pub used_part : {A : Type 0} → Option ℕ → List A → List A
unfolding last_slice
used_part none row = row
used_part (some valid_len) row = if ltb 1 (length row) then last_slice valid_len row else row

-- `_causal_mask` at a query and a key: true where the key is hidden.
unfoldable pub causal_mask : ℕ → ℕ → ℕ → Bool
causal_mask past_len query key = ltb (query + past_len) key

-- `torch.triu(..., diagonal=1)` at a query and a key.
unfoldable pub full_mask : ℕ → ℕ → Bool
full_mask query key = ltb query key

pub length-pad_left :
    (pad_id max_len : ℕ) (tokens : List ℕ)
    → length tokens ≤ max_len
    → length (pad_left pad_id max_len tokens) ≡ max_len
unfolding pad_left
length-pad_left pad_id max_len tokens h = omega (
  arith,
  length-append (replicate (max_len - length tokens) pad_id) tokens,
  length-replicate (max_len - length tokens) pad_id,
)

last_slice-append :
    {A : Type 0} (front back : List A) (n : ℕ)
    → length back ≡ suc n
    → last_slice (suc n) (front ++ back) ≡ back
unfolding last_slice
last_slice-append front back n e =
    let k : length (front ++ back) - suc n ≡ length front =
      omega (arith, length-append front back) in
    rw k (drop-length-append front back)

-- A chunk with at least one token, in a batch whose longest chunk has `max_len` tokens: of its
-- left-padded row the attention layer uses exactly the chunk, and none of the padding.
pub used_part-pad_left :
    (pad_id max_len token : ℕ) (tokens : List ℕ)
    → length (token ∷ tokens) ≤ max_len
    → used_part (some (length (token ∷ tokens))) (pad_left pad_id max_len (token ∷ tokens))
      ≡ token ∷ tokens
unfolding used_part pad_left
used_part-pad_left pad_id max_len token tokens h =
    elim (Bool-cases (ltb 1 (length (pad_left pad_id max_len (token ∷ tokens))))) [
      | inl e ↦ rw e (
          last_slice-append (replicate (max_len - suc (length tokens)) pad_id) (token ∷ tokens)
            (length tokens) refl)
      | inr e ↦
          let l = length-pad_left pad_id max_len (token ∷ tokens) h in
          let short : max_len ≤ 1 = ground (arith, l, e) in
          let no_padding : max_len - suc (length tokens) ≡ 0 = omega (arith, short) in
          rw (e, no_padding) refl
    ]

-- A query of a chunk sees the keys that it sees when the whole prompt is processed at once, where
-- it stands `past_len` positions later.
pub causal_mask-full_mask :
    (past_len query key : ℕ) → causal_mask past_len query key ≡ full_mask (past_len + query) key
unfolding causal_mask full_mask
causal_mask-full_mask past_len query key = ground arith

-- The one query of a decode step would see all keys under the mask, so that it needs none.
pub causal_mask-decode :
    (past_len key : ℕ) → key < past_len + 1 → causal_mask past_len 0 key ≡ false
unfolding causal_mask
causal_mask-decode past_len key h = ground arith
