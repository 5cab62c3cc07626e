-- ===== src/Metrics/History.antt =====
-- src/observability/metrics_store.py: the store after any sequence of calls.
use Prim.Native.String.{String}
use text.Mathlib.Text.{◌==◌ as same_text}
use nifre.Prelude.{ℕ, ◌+◌, ◌≡◌, refl, ◌∙◌, List, [], Option, none, some, if-keeps, arith}
use nifre.Prelude.Floats.{Floats}
use nifre.Metrics.{
  MetricsStore, Completion, TokenEvent, append_bounded, new_store, record_enqueue, count_status,
  append_ttft, record_completion, record_prefix_cache_hit, record_inter_token,
  record_runtime_sample, record_prefill_step, record_decode_step,
}
use nifre.Metrics.Tally.{
  last, pushes, pushes-last, Call, new_requests, ends, inputs, outputs, prefilled, latency_of,
  given, ttft_of, gap_of, event_of, total_of, collect, call, run, run-total, run-pushes,
}

module _ {W : Type 0} where
  abbrev pub finished : MetricsStore W → ℕ
  finished m = m.total_completed + m.total_errors + m.total_timeouts

  -- One of three counters goes up, and nothing else changes.
  count_status-all :
      (P : MetricsStore W → Type 0) (status : String) (m : MetricsStore W)
      → P (record m { total_timeouts = m.total_timeouts + 1 })
      → P (record m { total_errors = m.total_errors + 1 })
      → P (record m { total_completed = m.total_completed + 1 })
      → P (count_status status m)
  unfolding count_status
  count_status-all P status m p q r =
      if-keeps P (same_text status "timeout") _ _ (λ e. p)
        (if-keeps P (same_text status "error") _ _ (λ e. q) r)

  abbrev event : Completion W → W → TokenEvent W
  event c now = record {
    timestamp = now;
    input_tokens = c.input_tokens;
    output_tokens = c.output_tokens;
  }

  ttft_pushes : (t : Option W) (l : List W) → append_ttft t l ≡ pushes 2000 l (given t)
  unfolding append_ttft
  ttft_pushes none l = refl
  ttft_pushes (some t) l = refl

  module _ ⦃f : Floats W⦄ where
    finished-step : (c : Call W) (m : MetricsStore W) → finished (call c m) ≡ finished m + ends c
    unfolding record_enqueue record_completion record_prefix_cache_hit record_inter_token
        record_runtime_sample record_prefill_step record_decode_step
    finished-step Call.enqueue m = omega arith
    finished-step (Call.completion c now) m =
        count_status-all (λ m'. finished m' ≡ finished m + 1) c.status m (omega arith) (omega arith)
          (omega arith)
    finished-step (Call.prefix_hit tokens) m = omega arith
    finished-step (Call.prefill_step duration batch_size tokens now) m = omega arith
    finished-step (Call.decode_step duration batch_size now) m = omega arith
    finished-step (Call.inter_token gap) m = omega arith
    finished-step (Call.runtime_sample utilization memory_gb cache now) m = omega arith

    enqueued-step :
        (c : Call W) (m : MetricsStore W)
        → (call c m).total_enqueued ≡ m.total_enqueued + new_requests c
    unfolding record_enqueue record_completion record_prefix_cache_hit record_inter_token
        record_runtime_sample record_prefill_step record_decode_step
    enqueued-step Call.enqueue m = omega arith
    enqueued-step (Call.completion c now) m =
        count_status-all (λ m'. m'.total_enqueued ≡ m.total_enqueued + 0) c.status m (omega arith)
          (omega arith) (omega arith)
    enqueued-step (Call.prefix_hit tokens) m = omega arith
    enqueued-step (Call.prefill_step duration batch_size tokens now) m = omega arith
    enqueued-step (Call.decode_step duration batch_size now) m = omega arith
    enqueued-step (Call.inter_token gap) m = omega arith
    enqueued-step (Call.runtime_sample utilization memory_gb cache now) m = omega arith

    input-step :
        (c : Call W) (m : MetricsStore W)
        → (call c m).total_input_tokens ≡ m.total_input_tokens + inputs c
    unfolding record_enqueue record_completion record_prefix_cache_hit record_inter_token
        record_runtime_sample record_prefill_step record_decode_step
    input-step Call.enqueue m = omega arith
    input-step (Call.completion c now) m =
        count_status-all
          (λ m'. m'.total_input_tokens + c.input_tokens ≡ m.total_input_tokens + c.input_tokens)
          c.status m (omega arith) (omega arith) (omega arith)
    input-step (Call.prefix_hit tokens) m = omega arith
    input-step (Call.prefill_step duration batch_size tokens now) m = omega arith
    input-step (Call.decode_step duration batch_size now) m = omega arith
    input-step (Call.inter_token gap) m = omega arith
    input-step (Call.runtime_sample utilization memory_gb cache now) m = omega arith

    output-step :
        (c : Call W) (m : MetricsStore W)
        → (call c m).total_output_tokens ≡ m.total_output_tokens + outputs c
    unfolding record_enqueue record_completion record_prefix_cache_hit record_inter_token
        record_runtime_sample record_prefill_step record_decode_step
    output-step Call.enqueue m = omega arith
    output-step (Call.completion c now) m =
        count_status-all
          (λ m'. m'.total_output_tokens + c.output_tokens ≡ m.total_output_tokens + c.output_tokens)
          c.status m (omega arith) (omega arith) (omega arith)
    output-step (Call.prefix_hit tokens) m = omega arith
    output-step (Call.prefill_step duration batch_size tokens now) m = omega arith
    output-step (Call.decode_step duration batch_size now) m = omega arith
    output-step (Call.inter_token gap) m = omega arith
    output-step (Call.runtime_sample utilization memory_gb cache now) m = omega arith

    prefill-step :
        (c : Call W) (m : MetricsStore W)
        → (call c m).total_prefill_tokens ≡ m.total_prefill_tokens + prefilled c
    unfolding record_enqueue record_completion record_prefix_cache_hit record_inter_token
        record_runtime_sample record_prefill_step record_decode_step
    prefill-step Call.enqueue m = omega arith
    prefill-step (Call.completion c now) m =
        count_status-all (λ m'. m'.total_prefill_tokens ≡ m.total_prefill_tokens + 0) c.status m
          (omega arith) (omega arith) (omega arith)
    prefill-step (Call.prefix_hit tokens) m = omega arith
    prefill-step (Call.prefill_step duration batch_size tokens now) m = omega arith
    prefill-step (Call.decode_step duration batch_size now) m = omega arith
    prefill-step (Call.inter_token gap) m = omega arith
    prefill-step (Call.runtime_sample utilization memory_gb cache now) m = omega arith

    latency-step :
        (c : Call W) (m : MetricsStore W)
        → (call c m).total_latency_samples ≡ pushes 2000 m.total_latency_samples (latency_of c)
    unfolding record_enqueue record_completion record_prefix_cache_hit record_inter_token
        record_runtime_sample record_prefill_step record_decode_step
    latency-step Call.enqueue m = refl
    latency-step (Call.completion c now) m =
        count_status-all
          (λ m'.
            append_bounded 2000 m'.total_latency_samples c.total_latency_sec
            ≡ append_bounded 2000 m.total_latency_samples c.total_latency_sec)
          c.status m refl refl refl
    latency-step (Call.prefix_hit tokens) m = refl
    latency-step (Call.prefill_step duration batch_size tokens now) m = refl
    latency-step (Call.decode_step duration batch_size now) m = refl
    latency-step (Call.inter_token gap) m = refl
    latency-step (Call.runtime_sample utilization memory_gb cache now) m = refl

    ttft-step :
        (c : Call W) (m : MetricsStore W)
        → (call c m).ttft_samples ≡ pushes 2000 m.ttft_samples (ttft_of c)
    unfolding record_enqueue record_completion record_prefix_cache_hit record_inter_token
        record_runtime_sample record_prefill_step record_decode_step
    ttft-step Call.enqueue m = refl
    ttft-step (Call.completion c now) m =
        count_status-all
          (λ m'.
            append_ttft c.ttft_sec m'.ttft_samples ≡ pushes 2000 m.ttft_samples (given c.ttft_sec))
          c.status m (ttft_pushes c.ttft_sec m.ttft_samples) (ttft_pushes c.ttft_sec m.ttft_samples)
          (ttft_pushes c.ttft_sec m.ttft_samples)
    ttft-step (Call.prefix_hit tokens) m = refl
    ttft-step (Call.prefill_step duration batch_size tokens now) m = refl
    ttft-step (Call.decode_step duration batch_size now) m = refl
    ttft-step (Call.inter_token gap) m = refl
    ttft-step (Call.runtime_sample utilization memory_gb cache now) m = refl

    gap-step :
        (c : Call W) (m : MetricsStore W)
        → (call c m).inter_token_samples ≡ pushes 5000 m.inter_token_samples (gap_of c)
    unfolding record_enqueue record_completion record_prefix_cache_hit record_inter_token
        record_runtime_sample record_prefill_step record_decode_step
    gap-step Call.enqueue m = refl
    gap-step (Call.completion c now) m =
        count_status-all (λ m'. m'.inter_token_samples ≡ m.inter_token_samples) c.status m refl refl
          refl
    gap-step (Call.prefix_hit tokens) m = refl
    gap-step (Call.prefill_step duration batch_size tokens now) m = refl
    gap-step (Call.decode_step duration batch_size now) m = refl
    gap-step (Call.inter_token gap) m = refl
    gap-step (Call.runtime_sample utilization memory_gb cache now) m = refl

    event-step :
        (c : Call W) (m : MetricsStore W)
        → (call c m).token_events ≡ pushes 10000 m.token_events (event_of c)
    unfolding record_enqueue record_completion record_prefix_cache_hit record_inter_token
        record_runtime_sample record_prefill_step record_decode_step
    event-step Call.enqueue m = refl
    event-step (Call.completion c now) m =
        count_status-all
          (λ m'.
            append_bounded 10000 m'.token_events (event c now)
            ≡ append_bounded 10000 m.token_events (event c now))
          c.status m refl refl refl
    event-step (Call.prefix_hit tokens) m = refl
    event-step (Call.prefill_step duration batch_size tokens now) m = refl
    event-step (Call.decode_step duration batch_size now) m = refl
    event-step (Call.inter_token gap) m = refl
    event-step (Call.runtime_sample utilization memory_gb cache now) m = refl

    -- What the store holds after the calls.
    pub record Tallied (calls : List (Call W)) (m : MetricsStore W) : Type 0 where
      pub enqueued : m.total_enqueued ≡ total_of new_requests calls
      pub ended : finished m ≡ total_of ends calls
      pub input : m.total_input_tokens ≡ total_of inputs calls
      pub output : m.total_output_tokens ≡ total_of outputs calls
      pub prefill : m.total_prefill_tokens ≡ total_of prefilled calls
      pub latencies : m.total_latency_samples ≡ last 2000 (collect latency_of calls)
      pub ttfts : m.ttft_samples ≡ last 2000 (collect ttft_of calls)
      pub gaps : m.inter_token_samples ≡ last 5000 (collect gap_of calls)
      pub events : m.token_events ≡ last 10000 (collect event_of calls)

    -- A new store after any calls, in any order. The number of requests that were enqueued, of
    -- those that ended, with any status, and of their input, output and prefilled tokens is that of
    -- all the calls; and the samples of latencies, of times to the first token and of gaps, and the
    -- token events, are the last ones of all the calls, as many as the deque may hold.
    pub new_store-run-Tallied :
        (window : W) (calls : List (Call W)) → Tallied calls (run calls (new_store window))
    unfolding new_store
    new_store-run-Tallied window calls =
        let m = new_store window in
        record {
          enqueued =
              omega (arith, run-total (λ m. m.total_enqueued) new_requests enqueued-step calls m);
          ended = omega (arith, run-total finished ends finished-step calls m);
          input = omega (arith, run-total (λ m. m.total_input_tokens) inputs input-step calls m);
          output =
              omega (arith, run-total (λ m. m.total_output_tokens) outputs output-step calls m);
          prefill =
              omega (arith, run-total (λ m. m.total_prefill_tokens) prefilled prefill-step calls m);
          latencies =
              run-pushes 2000 (λ m. m.total_latency_samples) latency_of latency-step calls m
              ∙ pushes-last 2000 [] (collect latency_of calls);
          ttfts =
              run-pushes 2000 (λ m. m.ttft_samples) ttft_of ttft-step calls m
              ∙ pushes-last 2000 [] (collect ttft_of calls);
          gaps =
              run-pushes 5000 (λ m. m.inter_token_samples) gap_of gap-step calls m
              ∙ pushes-last 5000 [] (collect gap_of calls);
          events =
              run-pushes 10000 (λ m. m.token_events) event_of event-step calls m
              ∙ pushes-last 10000 [] (collect event_of calls);
        }
