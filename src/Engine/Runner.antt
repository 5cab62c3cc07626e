-- ===== src/Engine/Runner.antt =====
-- src/inference/model_runner.py: a prefill chunk of each request, and a decode step.
use nifre.Prelude.{
  ℕ, ◌+◌, ◌-◌, Bool, true, false, not, List, [], ◌∷◌, Option, none, some, take, drop, map, min, ltb,
  ◌==◌, if◌then◌else◌,
}
use nifre.Prelude.Exec.{
  Exec, ok, index_error, pure, raise, get_state, modify, lift, when, item, ◌>>=◌, ◌>>◌,
}
use nifre.DataModel.{InferenceRequest, num_prompt_tokens, prefill_complete}
use nifre.Scheduler.{set_request}
use nifre.Batching.{batch_token_ids}
use nifre.Engine.{Backend, Engine, set_scheduler, on_cache, index}

abbrev pub with_loaded : ℕ → InferenceRequest → InferenceRequest
with_loaded loaded r = record r { prefill_offset = loaded; prefix_cache_hit_tokens = loaded }

abbrev pub prepared : InferenceRequest → InferenceRequest
prepared r = record r { slot_prepared = true }

abbrev pub advanced : ℕ → InferenceRequest → InferenceRequest
advanced chunk_len r = record r { prefill_offset = r.prefill_offset + chunk_len }

module _ {Cache : Type 0} where
  -- An assignment to the fields of a request object.
  abbrev pub edit_request :
      ℕ → (InferenceRequest → InferenceRequest) → Exec (Engine Cache) (Unit {0})
  edit_request id f =
      modify (λ e. set_scheduler e (set_request id (f (e.scheduler.requests id)) e.scheduler))

  abbrev pub get_request : ℕ → Exec (Engine Cache) InferenceRequest
  get_request id e = (ok (e.scheduler.requests id), e)

-- `prompt_token_ids[start:end]`
unfoldable pub prefill_chunk : InferenceRequest → List ℕ
prefill_chunk r =
    let end = min (r.prefill_offset + r.prefill_chunk_size) (num_prompt_tokens r) in
    take (end - r.prefill_offset) (drop r.prefill_offset r.prompt_token_ids)

-- `output_token_ids[-1]`
unfoldable pub last_token : List ℕ → Option ℕ
last_token [] = none
last_token (token ∷ []) = some token
last_token (token ∷ token' ∷ tokens) = last_token (token' ∷ tokens)

module _ {Cache : Type 0} (backend : Backend Cache) where
  unfoldable pub load_prefix :
      Option (ℕ → List ℕ → Exec Cache ℕ) → InferenceRequest → Exec (Engine Cache) ℕ
  load_prefix none r = pure 0
  load_prefix (some try_load_prefix) r = do
    slot ← index r.batch_idx
    on_cache (try_load_prefix slot r.prompt_token_ids)

  abbrev reset_index : Option ℕ → Exec (Engine Cache) (Unit {0})
  reset_index batch_idx = do slot ← index batch_idx; on_cache (backend.reset_slot slot)

  unfoldable pub fill_slot : ℕ → InferenceRequest → ℕ → Exec (Engine Cache) (Unit {0})
  fill_slot id r loaded =
      if ltb 0 loaded
      then edit_request id (with_loaded loaded)
      else when (r.prefill_offset == 0) (reset_index r.batch_idx)

  unfoldable pub prepare_slot : ℕ → Exec (Engine Cache) (Unit {0})
  unfolding load_prefix fill_slot
  prepare_slot id = do
    r ← get_request id
    when (not r.slot_prepared) (do
      loaded ← load_prefix backend.try_load_prefix r
      fill_slot id r loaded
      edit_request id prepared)

  unfoldable pub prepare_slots : List ℕ → Exec (Engine Cache) (Unit {0})
  unfolding prepare_slot
  prepare_slots [] = pure tt
  prepare_slots (id ∷ ids) = do prepare_slot id; prepare_slots ids

  unfoldable pub slots_of : List ℕ → Exec (Engine Cache) (List ℕ)
  slots_of [] = pure []
  slots_of (id ∷ ids) = do
    r ← get_request id
    slot ← index r.batch_idx
    slots ← slots_of ids
    pure (slot ∷ slots)

  -- The greedy token of row `i`, where the prompt is cached completely.
  abbrev pub sampled : Bool → List ℕ → Exec (Engine Cache) (Option ℕ)
  sampled false logits = pure none
  sampled true [] = raise index_error
  sampled true (token ∷ logits) = pure (some token)

  unfoldable pub advance_all : List ℕ → List ℕ → List ℕ → Exec (Engine Cache) (List (Option ℕ))
  advance_all (id ∷ ids) (chunk_len ∷ lens) logits = do
    edit_request id (advanced chunk_len)
    r ← get_request id
    result ← sampled (prefill_complete r) logits
    results ← advance_all ids lens (drop 1 logits)
    pure (result ∷ results)
  advance_all _ _ logits = pure []

  unfoldable pub prefill : List ℕ → Exec (Engine Cache) (List (Option ℕ))
  unfolding prepare_slots slots_of advance_all prefill_chunk batch_token_ids
  prefill ids = do
    prepare_slots ids
    e ← get_state
    let token_lists = map (λ id. prefill_chunk (e.scheduler.requests id)) ids
    batch ← lift (batch_token_ids backend.pad_token_id token_lists)
    slots ← slots_of ids
    logits ← on_cache (backend.forward batch.0 (some batch.1) slots)
    advance_all ids batch.1 logits

  unfoldable pub last_tokens : List ℕ → Exec (Engine Cache) (List (List ℕ))
  unfolding last_token
  last_tokens [] = pure []
  last_tokens (id ∷ ids) = do
    r ← get_request id
    token ← item (last_token r.output_token_ids)
    tokens ← last_tokens ids
    pure ((token ∷ []) ∷ tokens)

  -- One token for each row.
  unfoldable pub sample_all : List ℕ → List ℕ → Exec (Engine Cache) (List ℕ)
  sample_all [] logits = pure []
  sample_all (id ∷ ids) [] = raise index_error
  sample_all (id ∷ ids) (token ∷ logits) = do tokens ← sample_all ids logits; pure (token ∷ tokens)

  unfoldable pub decode : List ℕ → Exec (Engine Cache) (List ℕ)
  unfolding last_tokens slots_of sample_all
  decode ids = do
    tokens ← last_tokens ids
    slots ← slots_of ids
    logits ← on_cache (backend.forward tokens none slots)
    sample_all ids logits
