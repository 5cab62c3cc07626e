-- ===== src/Tests/Measures.antt =====
-- The metrics at small inputs, with thousandths for floats.
use nifre.Prelude.{ℕ, ◌/◌, ◌==◌, ◌≡◌, refl, true, List, [], ◌∷◌, none, some}
use nifre.Prelude.Exec.{ok}
use nifre.Prelude.Floats.{thousandths}
use nifre.Metrics.{
  new_store, record_enqueue, record_completion, count_status, append_ttft, append_bounded,
}
use nifre.Metrics.Collector.{
  RequestTimes, RequestView, new_collector, on_request_enqueued, on_prefill_batch, on_decode_token,
  on_request_finished,
}
use nifre.Metrics.Collector.Hooks.{Hook, hooks}
use nifre.Metrics.Tally.{Call, run}
use nifre.Metrics.History.{Tallied, new_store-run-Tallied}
use nifre.Metrics.Percentile.{Rounding, percentile, sorted}
use nifre.Metrics.Report.{Report}

abbrev rounding : Rounding ℕ
rounding = record { floor = λ x. x / 1000; round = λ x digits. x; is_zero = λ x. x == 0 }

abbrev calls : List (Call ℕ)
calls =
    Call.enqueue
    ∷ Call.completion
        record {
          ttft_sec = some 200;
          total_latency_sec = 900;
          input_tokens = 10;
          output_tokens = 5;
          status = "ok";
        }
        1000
    ∷ Call.completion
        record {
          ttft_sec = none;
          total_latency_sec = 700;
          input_tokens = 3;
          output_tokens = 0;
          status = "timeout";
        }
        2000
    ∷ []

new_store-run-Tallied_example : Tallied calls (run calls (new_store 60000))
new_store-run-Tallied_example = new_store-run-Tallied 60000 calls

-- Halfway between the two middle values.
median : percentile rounding (4000 ∷ 1000 ∷ 2000 ∷ 3000 ∷ []) 50 ≡ ok 2500
unfolding percentile sorted
median = refl

timeouts_counted : (run calls (new_store 60000)).total_timeouts ≡ 1
unfolding new_store record_enqueue record_completion count_status
timeouts_counted = refl

abbrev times : ℕ → RequestTimes ℕ
times id = record {
  created_at = 100;
  first_token_at = none;
  last_token_at = none;
  finished_at = none;
  prefill_duration_sec = none;
}

abbrev request : RequestView
request = record {
  id = 1;
  num_prompt_tokens = 10;
  num_generated = 2;
  prefill_complete = true;
  status = "ok";
}

abbrev script : List (Hook ℕ)
script =
    Hook.enqueued
    ∷ Hook.prefilled (request ∷ []) 50 10 400
    ∷ Hook.token request 450
    ∷ Hook.ended request 500
    ∷ []

-- The first token came 300 thousandths after the request, and the next one 50 later.
ttft_runs : (hooks script (new_collector 60000 times)).store.ttft_samples ≡ 300 ∷ []
unfolding new_collector new_store on_request_enqueued on_prefill_batch on_decode_token
    on_request_finished record_completion count_status append_ttft append_bounded
ttft_runs = refl
