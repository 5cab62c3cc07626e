-- ===== src/DataModel.antt =====
-- src/inference/data_model.py: requests and configurations. The time stamps of a request are read
-- and written by the metrics collector alone, and are not part of the record.
use Prim.Native.String.{String}
use nifre.Prelude.{ℕ, zero, Bool, true, false, List, Option, none, some, length, leb, if◌then◌else◌}
use nifre.Prelude.Exec.{Outcome, ok, raised, value_error}

pub data RequestState : Type 0 where
  waiting prefill decode finished : RequestState

pub record InferenceRequest : Type 0 where
  pub prompt_token_ids : List ℕ
  pub max_new_tokens : ℕ
  pub state : RequestState
  pub output_token_ids : List ℕ
  pub batch_idx : Option ℕ
  pub prefill_offset : ℕ
  pub prefill_chunk_size : ℕ
  pub slot_prepared : Bool
  pub prefix_cache_hit_tokens : ℕ
  pub status : String

-- `InferenceRequest(...)` with the defaults, as the engine makes it.
unfoldable pub new_request : List ℕ → ℕ → ℕ → InferenceRequest
new_request prompt max_new_tokens chunk_size = record {
  prompt_token_ids = prompt;
  max_new_tokens = max_new_tokens;
  state = RequestState.waiting;
  output_token_ids = List.[];
  batch_idx = none;
  prefill_offset = 0;
  prefill_chunk_size = chunk_size;
  slot_prepared = false;
  prefix_cache_hit_tokens = 0;
  status = "ok";
}

abbrev pub num_prompt_tokens : InferenceRequest → ℕ
num_prompt_tokens r = length r.prompt_token_ids

abbrev pub num_generated : InferenceRequest → ℕ
num_generated r = length r.output_token_ids

abbrev pub prefill_complete : InferenceRequest → Bool
prefill_complete r = leb (num_prompt_tokens r) r.prefill_offset

abbrev pub is_waiting : RequestState → Bool
is_waiting RequestState.waiting = true
is_waiting _ = false

abbrev pub is_prefill : RequestState → Bool
is_prefill RequestState.prefill = true
is_prefill _ = false

abbrev pub is_decode : RequestState → Bool
is_decode RequestState.decode = true
is_decode _ = false

abbrev pub is_finished : RequestState → Bool
is_finished RequestState.finished = true
is_finished _ = false

pub record EngineConfig : Type 0 where
  pub max_concurrent_requests : ℕ
  pub prefill_chunk_size : ℕ
  pub max_tokens_per_step : ℕ
  pub use_paged_kv_cache : Bool
  pub use_prefix_cache : Bool

-- The keyword arguments of `reconfigure`, each of them optional.
pub record Changes : Type 0 where
  pub prefill_chunk_size : Option ℕ
  pub max_tokens_per_step : Option ℕ
  pub max_concurrent_requests : Option ℕ
  pub use_paged_kv_cache : Option Bool
  pub use_prefix_cache : Option Bool

-- `value is not None and value <= 0`
abbrev pub is_given_zero : Option ℕ → Bool
is_given_zero (some zero) = true
is_given_zero _ = false

-- `validate_engine_config`: it raises the same error for each of the three.
unfoldable pub validate_engine_config : Option ℕ → Option ℕ → Option ℕ → Outcome (Unit {0})
validate_engine_config max_concurrent chunk budget =
    if is_given_zero max_concurrent
    then raised value_error
    else if is_given_zero chunk
    then raised value_error
    else if is_given_zero budget
    then raised value_error
    else ok tt
