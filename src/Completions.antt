-- ===== src/Completions.antt =====
-- src/inference/openai_api.py: the stream of completion events. An event is the arguments of
-- `completion_chunk_sse` that differ from chunk to chunk; the id, the model and the time of
-- creation are the same for the stream, and their printing as JSON is left out. The tokenizer's
-- `decode` is a parameter, and the tokens of the worker's stream are a list.
use Prim.Native.String.{String}
use nifre.Prelude.{ℕ, ◌≡◌, refl, ap, List, [], ◌∷◌, ◌++◌, Option, none, some, map}

pub data Event : Type 0 where
  chunk : String → Option String → Event
  done : Event

module _ (decode : List ℕ → String) where
  -- The chunk of a token, which finishes the stream or not.
  abbrev pub token_chunk : Option String → ℕ → Event
  token_chunk finish_reason token = Event.chunk (decode (token ∷ [])) finish_reason

  -- `if pending_token_id is not None: yield`
  abbrev pub pending_chunk : Option ℕ → Option String → List Event
  pending_chunk none finish_reason = []
  pending_chunk (some token) finish_reason = token_chunk finish_reason token ∷ []

  -- The loop over the tokens, and what follows it.
  unfoldable pub stream_from : Option ℕ → List ℕ → List Event
  stream_from pending [] = pending_chunk pending (some "length") ++ Event.done ∷ []
  stream_from pending (token ∷ tokens) =
      pending_chunk pending none ++ stream_from (some token) tokens

  unfoldable pub stream_openai_completion_events : List ℕ → List Event
  unfolding stream_from
  stream_openai_completion_events tokens = stream_from none tokens

  stream_from_pending :
      (token : ℕ) (tokens : List ℕ) (last : ℕ)
      → stream_from (some token) (tokens ++ last ∷ [])
        ≡ token_chunk none token ∷ map (token_chunk none) tokens
          ++ token_chunk (some "length") last ∷ Event.done ∷ []
  unfolding stream_from
  stream_from_pending token [] last = refl
  stream_from_pending token (next ∷ tokens) last =
      ap (λ l. token_chunk none token ∷ l) (stream_from_pending next tokens last)

  -- The stream of a worker that yields at least one token has one event for each token, in order,
  -- and the closing one. The last token's event, and no other, gives the reason "length".
  pub stream-one_per_token :
      (tokens : List ℕ) (last : ℕ)
      → stream_openai_completion_events (tokens ++ last ∷ [])
        ≡ map (token_chunk none) tokens ++ token_chunk (some "length") last ∷ Event.done ∷ []
  unfolding stream_openai_completion_events
  stream-one_per_token [] last = refl
  stream-one_per_token (token ∷ tokens) last = stream_from_pending token tokens last
