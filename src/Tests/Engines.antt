-- ===== src/Tests/Engines.antt =====
-- The engine, the batches and the tuning policy at small inputs.
use nifre.Prelude.{ℕ, suc, ◌≡◌, refl, true, false, List, [], ◌∷◌, Option, none, some, map, arith}
use nifre.Prelude.Exec.{Exec, Outcome, ok, pure}
use nifre.DataModel.{Changes, new_request, EngineConfig}
use nifre.Batching.{batch_token_ids, pad_left, used_part, used_part-pad_left}
use nifre.Scheduler.{Scheduler, has_work, schedule, mark_prefill_done, mark_decode_done, free_slot}
use nifre.Scheduler.Slots.{SlotsValid}
use nifre.Scheduler.Reconfigure.{Resizing, apply_max_concurrent-outcome}
use nifre.Engine.{Backend, Engine, emit_token, ensure_cache}
use nifre.Engine.Runner.{prefill, decode}
use nifre.Engine.Steps.{step, run_prefill, run_decode, run_until_done}
use nifre.Engine.Reconfigure.{Reconfigured, reconfigure-Reconfigured}
use nifre.Engine.Slots.{step-SlotsValid}
use nifre.Policy.{WorkloadLabels}

-- A cache that counts forward passes, and a model that answers with this count.
abbrev forward : List (List ℕ) → Option (List ℕ) → List ℕ → Exec ℕ (List ℕ)
forward rows lens slots passes = (ok (map (λ row. passes) rows), suc passes)

abbrev backend : Backend ℕ
backend = record {
  supports_paged_kv_cache = true;
  supports_prefix_cache = true;
  make_model_cache = none;
  make_paged_kv_cache = λ prefix. ok 10;
  make_kv_cache = ok 20;
  init_batch = λ n. pure tt;
  try_load_prefix = none;
  register_prefix = none;
  reset_slot = λ slot. pure tt;
  pad_token_id = 0;
  forward = forward;
}

abbrev prompt : List ℕ
prompt = 1 ∷ 2 ∷ 3 ∷ []

abbrev scheduler : Scheduler
scheduler = record {
  max_concurrent_requests = 2;
  max_tokens_per_step = 4;
  waiting = 0 ∷ [];
  running = [];
  completed = [];
  failed = [];
  free_slots = 0 ∷ 1 ∷ [];
  requests = λ id. new_request prompt 2 2;
}

abbrev engine : Engine ℕ
engine = record {
  scheduler = scheduler;
  cache = none;
  max_concurrent_requests = 2;
  prefill_chunk_size = 2;
  max_tokens_per_step = 4;
  use_paged_kv_cache = true;
  use_prefix_cache = true;
  token_callbacks = 0 ∷ [];
  delivered = [];
}

-- Two prefill chunks, the second of which yields a token, one decode step, and the idle step.
abbrev delivered_tokens : Option (Outcome (Unit {0}) × Engine ℕ) → List (ℕ × ℕ)
delivered_tokens none = []
delivered_tokens (some (r, e)) = e.delivered

three_steps : delivered_tokens (run_until_done backend 4 engine) ≡ (0, 11) ∷ (0, 12) ∷ []
unfolding run_until_done has_work ensure_cache schedule new_request run_prefill prefill
    mark_prefill_done mark_decode_done emit_token run_decode decode free_slot
three_steps = refl

scheduler-SlotsValid : SlotsValid scheduler
unfolding new_request
scheduler-SlotsValid = record {
  slots = λ k. ground arith;
  distinct = λ id. ground arith;
  active = λ id p. ground arith;
  queued = λ id p. refl;
}

step-SlotsValid_example : SlotsValid (step backend engine).1.scheduler
step-SlotsValid_example = step-SlotsValid backend engine scheduler-SlotsValid

apply_max_concurrent-outcome_example : Resizing scheduler 1 true
apply_max_concurrent-outcome_example =
    apply_max_concurrent-outcome scheduler 1 true scheduler-SlotsValid

padded :
    batch_token_ids 0 ((7 ∷ []) ∷ prompt ∷ []) ≡ ok ((0 ∷ 0 ∷ 7 ∷ []) ∷ prompt ∷ [], 1 ∷ 3 ∷ [])
unfolding batch_token_ids
padded = refl

used_part-pad_left_example : used_part (some 1) (pad_left 0 3 (7 ∷ [])) ≡ 7 ∷ []
used_part-pad_left_example = used_part-pad_left 0 3 7 [] (omega arith)

-- An empty chunk in a batch with longer ones: the padding is used.
empty_chunk_padded : used_part (some 0) (pad_left 0 2 []) ≡ 0 ∷ 0 ∷ []
unfolding used_part pad_left
empty_chunk_padded = refl

abbrev current : EngineConfig
current = record {
  max_concurrent_requests = 4;
  prefill_chunk_size = 128;
  max_tokens_per_step = 2048;
  use_paged_kv_cache = true;
  use_prefix_cache = false;
}

abbrev labels : WorkloadLabels
labels = record {
  queue_high = true;
  prefix_friendly = true;
  latency_sensitive = true;
  throughput_low = true;
  error_elevated = false;
}

abbrev smaller_chunks : Changes
smaller_chunks = record {
  prefill_chunk_size = some 1;
  max_tokens_per_step = none;
  max_concurrent_requests = some 1;
  use_paged_kv_cache = some true;
  use_prefix_cache = none;
}

reconfigure-Reconfigured_example : Reconfigured smaller_chunks engine
reconfigure-Reconfigured_example =
    reconfigure-Reconfigured smaller_chunks engine scheduler-SlotsValid
