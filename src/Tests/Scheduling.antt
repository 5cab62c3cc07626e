-- ===== src/Tests/Scheduling.antt =====
-- The scheduler at small inputs.
use nifre.Prelude.{
  ℕ, ◌+◌, ◌≤◌, ◌<◌, ◌≡◌, refl, inr, false, List, [], ◌∷◌, arith, length, none, some, if◌then◌else◌,
  ◌==◌,
}
use nifre.DataModel.{RequestState, InferenceRequest}
use nifre.Scheduler.{Scheduler, schedule, prefill_chunk_tokens, assign_waiting_to_slots}
use nifre.Scheduler.Assignment.{Assigned, schedule-Assigned}
use nifre.Scheduler.Slots.{SlotsValid}
use nifre.Scheduler.Retirement.{Decoded, mark_decode_done-outcome}
use nifre.Scheduler.Cancellation.{Cancelled, cancel_request-outcome}
use nifre.Scheduler.Budget.{chunk_sum, schedule-within_budget, schedule-progress, schedule-stuck}

abbrev request : RequestState → List ℕ → InferenceRequest
request state output = record {
  prompt_token_ids = 1 ∷ 2 ∷ 3 ∷ 4 ∷ [];
  max_new_tokens = 2;
  state = state;
  output_token_ids = output;
  batch_idx = none;
  prefill_offset = 0;
  prefill_chunk_size = 3;
  slot_prepared = false;
  prefix_cache_hit_tokens = 0;
  status = "ok";
}

-- Request 0 decodes in slot 1; request 1 waits.
abbrev objects : ℕ → InferenceRequest
objects id =
    if id == 0
    then record (request RequestState.decode (9 ∷ [])) { batch_idx = some 1 }
    else request RequestState.waiting []

abbrev busy : Scheduler
busy = record {
  max_concurrent_requests = 2;
  max_tokens_per_step = 4;
  waiting = 1 ∷ [];
  running = 0 ∷ [];
  completed = [];
  failed = [];
  free_slots = 0 ∷ [];
  requests = objects;
}

busy-SlotsValid : SlotsValid busy
busy-SlotsValid = record {
  slots = λ k. ground arith;
  distinct = λ id. ground arith;
  active = λ id p. ground arith;
  queued = λ id p. ground arith;
}

schedule-Assigned_example : Assigned busy.waiting busy.free_slots busy (schedule busy).1
schedule-Assigned_example = schedule-Assigned busy busy-SlotsValid

mark_decode_done-outcome_example : Decoded busy 0 7
mark_decode_done-outcome_example = mark_decode_done-outcome busy 0 7 busy-SlotsValid refl refl

cancel_request-outcome_example : Cancelled busy 0 "timeout"
cancel_request-outcome_example = cancel_request-outcome busy 0 "timeout" busy-SlotsValid

schedule_runs : (schedule busy).0 ≡ record { prefill_requests = 1 ∷ []; decode_requests = 0 ∷ [] }
unfolding schedule
schedule_runs = refl

schedule-within_budget_example :
    length (schedule busy).0.decode_requests
      + chunk_sum (assign_waiting_to_slots busy).requests (schedule busy).0.prefill_requests
    ≤ 4
unfolding assign_waiting_to_slots
schedule-within_budget_example = schedule-within_budget busy

schedule-progress_example :
    0 < length (schedule busy).0.decode_requests + length (schedule busy).0.prefill_requests
unfolding assign_waiting_to_slots prefill_chunk_tokens
schedule-progress_example =
    schedule-progress busy 1 (omega arith) (omega arith) (inr (refl, omega arith))

-- A chunk of three tokens never fits a budget of two.
abbrev narrow : Scheduler
narrow = record busy { max_tokens_per_step = 2; running = []; free_slots = 0 ∷ 1 ∷ [] }

schedule-stuck_example :
    (schedule narrow).0 ≡ record { prefill_requests = []; decode_requests = [] }
unfolding assign_waiting_to_slots prefill_chunk_tokens
schedule-stuck_example = schedule-stuck narrow (λ id p. ground arith)
