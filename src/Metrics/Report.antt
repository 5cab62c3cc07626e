-- ===== src/Metrics/Report.antt =====
-- src/observability/metrics_store.py: the rates and `snapshot`. The information
-- on the runtime and on the experiments is passed through by the code, and left out.
use nifre.Prelude.{ℕ, ◌+◌, ltb, List, [], ◌∷◌, length, if◌then◌else◌}
use nifre.Prelude.Exec.{
  Exec, Outcome, ok, raised, zero_division_error, pure, get_state, modify, lift, ◌>>=◌, ◌>>◌,
}
use nifre.Prelude.Floats.{Floats, zero_float}
use nifre.Metrics.Percentile.{Rounding, LatencySummary, latency_summary, over_count}
use nifre.Metrics.{MetricsStore, TokenEvent, Series, add_point}

pub record HealthReport (W : Type 0) : Type 0 where
  pub requests_per_sec : W
  pub active_requests : ℕ
  pub queued_requests : ℕ
  pub completed_requests : ℕ
  pub error_rate : W
  pub timeout_rate : W

pub record LatencyReport (W : Type 0) : Type 0 where
  pub ttft : LatencySummary W
  pub total_request_latency : LatencySummary W
  pub prefill_step_latency : LatencySummary W
  pub decode_step_latency : LatencySummary W
  pub inter_token_latency : LatencySummary W

pub record ThroughputReport (W : Type 0) : Type 0 where
  pub tokens_per_sec : W
  pub input_tokens_per_sec : W
  pub output_tokens_per_sec : W
  pub tokens_per_request : W
  pub decode_iterations_per_sec : W
  pub total_prefill_tokens : ℕ
  pub avg_prefill_tokens_per_step : W
  pub prefix_cache_hits : ℕ
  pub prefix_cache_tokens_saved : ℕ
  pub prefix_cache_reuse_ratio : W

pub record Report (W : Type 0) : Type 0 where
  pub timestamp : W
  pub request_health : HealthReport W
  pub latency : LatencyReport W
  pub throughput : ThroughputReport W
  pub timeseries : Series W

abbrev pub sum_of : List ℕ → ℕ
sum_of [] = 0
sum_of (n ∷ l) = n + sum_of l

-- What `snapshot` computes first, while it holds the lock.
pub record Rates (W : Type 0) : Type 0 where
  pub requests_per_sec : W
  pub decode_iterations_per_sec : W
  pub tokens_per_sec : W
  pub input_tokens_per_sec : W
  pub output_tokens_per_sec : W
  pub error_rate : W
  pub timeout_rate : W
  pub tokens_per_request : W

module _ {W : Type 0} ⦃f : Floats W⦄ where
  -- A quotient of two counts, or 0.0 where the second is zero.
  unfoldable pub quotient : ℕ → ℕ → Outcome W
  unfolding over_count
  quotient a b = if ltb 0 b then over_count (f.of_nat a) b else ok zero_float

  module _ (g : Rounding W) where
    -- A count over a float; Python raises for zero.
    unfoldable pub over_float : ℕ → W → Outcome W
    over_float n w = if g.is_zero w then raised zero_division_error else ok (f.div (f.of_nat n) w)

    abbrev pub count_since : W → List W → ℕ
    count_since cutoff [] = 0
    count_since cutoff (t ∷ l) = (if f.le cutoff t then 1 else 0) + count_since cutoff l

    unfoldable pub rate : W → W → List W → Outcome W
    unfolding over_float
    rate window now timestamps =
        if g.is_zero window
        then ok zero_float
        else over_float (count_since (f.sub now window) timestamps) window

    abbrev pub tokens_since : (TokenEvent W → ℕ) → W → List (TokenEvent W) → ℕ
    tokens_since part cutoff [] = 0
    tokens_since part cutoff (e ∷ l) =
        (if f.le cutoff e.timestamp then part e else 0) + tokens_since part cutoff l

    -- `window = self.window_sec or 1.0`; the totals are the sum of both kinds.
    unfoldable pub token_rate : (TokenEvent W → ℕ) → W → W → List (TokenEvent W) → Outcome W
    unfolding over_float
    token_rate part window now events =
        over_float (tokens_since part (f.sub now window) events)
          (if g.is_zero window then f.ratio 1 1 else window)

    abbrev pub finished_total : MetricsStore W → ℕ
    finished_total m = m.total_completed + m.total_errors + m.total_timeouts

    unfoldable pub rates : {S : Type 0} → W → MetricsStore W → Exec S (Rates W)
    unfolding rate token_rate quotient
    rates now m = do
      requests ← lift (rate m.window_sec now m.completion_timestamps)
      iterations ← lift (rate m.window_sec now m.decode_iteration_timestamps)
      tokens ←
          lift (token_rate (λ e. e.input_tokens + e.output_tokens) m.window_sec now m.token_events)
      inputs ← lift (token_rate (λ e. e.input_tokens) m.window_sec now m.token_events)
      outputs ← lift (token_rate (λ e. e.output_tokens) m.window_sec now m.token_events)
      errors ← lift (quotient m.total_errors (finished_total m))
      timeouts ← lift (quotient m.total_timeouts (finished_total m))
      per_request ← lift (quotient (m.total_input_tokens + m.total_output_tokens) m.total_completed)
      pure record {
        requests_per_sec = requests;
        decode_iterations_per_sec = iterations;
        tokens_per_sec = tokens;
        input_tokens_per_sec = inputs;
        output_tokens_per_sec = outputs;
        error_rate = errors;
        timeout_rate = timeouts;
        tokens_per_request = per_request;
      }

    abbrev pub rated : ℕ → ℕ → W → Rates W → Series W → Series W
    rated active queued now r s = record s {
      requests_per_sec = add_point s.requests_per_sec r.requests_per_sec now;
      active_requests = add_point s.active_requests (f.of_nat active) now;
      queued_requests = add_point s.queued_requests (f.of_nat queued) now;
      tokens_per_sec = add_point s.tokens_per_sec r.tokens_per_sec now;
      input_tokens_per_sec = add_point s.input_tokens_per_sec r.input_tokens_per_sec now;
      output_tokens_per_sec = add_point s.output_tokens_per_sec r.output_tokens_per_sec now;
      decode_iterations_per_sec =
          add_point s.decode_iterations_per_sec r.decode_iterations_per_sec now;
    }

    abbrev pub health_of : ℕ → ℕ → Rates W → MetricsStore W → HealthReport W
    health_of active queued r m = record {
      requests_per_sec = g.round r.requests_per_sec 3;
      active_requests = active;
      queued_requests = queued;
      completed_requests = m.total_completed;
      error_rate = g.round r.error_rate 4;
      timeout_rate = g.round r.timeout_rate 4;
    }

    abbrev pub rounded : Outcome W → Outcome W
    rounded (ok a) = ok (g.round a 4)
    rounded (raised e) = raised e

    unfoldable pub reuse_ratio : MetricsStore W → Outcome W
    unfolding over_count
    reuse_ratio m =
        let all = m.prefix_cache_tokens_saved + m.total_prefill_tokens in
        if ltb 0 all
        then rounded (over_count (f.of_nat m.prefix_cache_tokens_saved) all)
        else ok zero_float

    abbrev pub throughput_of : Rates W → W → W → MetricsStore W → ThroughputReport W
    throughput_of r prefill reuse m = record {
      tokens_per_sec = g.round r.tokens_per_sec 2;
      input_tokens_per_sec = g.round r.input_tokens_per_sec 2;
      output_tokens_per_sec = g.round r.output_tokens_per_sec 2;
      tokens_per_request = g.round r.tokens_per_request 2;
      decode_iterations_per_sec = g.round r.decode_iterations_per_sec 2;
      total_prefill_tokens = m.total_prefill_tokens;
      avg_prefill_tokens_per_step = g.round prefill 2;
      prefix_cache_hits = m.prefix_cache_hits;
      prefix_cache_tokens_saved = m.prefix_cache_tokens_saved;
      prefix_cache_reuse_ratio = reuse;
    }

    unfoldable pub latencies : MetricsStore W → Exec (MetricsStore W) (LatencyReport W)
    unfolding latency_summary
    latencies m = do
      ttft ← latency_summary g m.ttft_samples
      total ← latency_summary g m.total_latency_samples
      prefill ← latency_summary g m.prefill_step_samples
      decode ← latency_summary g m.decode_step_samples
      inter ← latency_summary g m.inter_token_samples
      pure record {
        ttft = ttft;
        total_request_latency = total;
        prefill_step_latency = prefill;
        decode_step_latency = decode;
        inter_token_latency = inter;
      }

    -- The new points are written before the summaries are made.
    unfoldable pub snapshot : ℕ → ℕ → W → Exec (MetricsStore W) (Report W)
    unfolding rates latencies reuse_ratio quotient
    snapshot active queued now = do
      m ← get_state
      r ← rates now m
      modify (λ m. record m { series = rated active queued now r m.series })
      m ← get_state
      prefill ← lift (
          quotient (sum_of m.prefill_tokens_per_step_samples)
            (length m.prefill_tokens_per_step_samples))
      latency ← latencies m
      reuse ← lift (reuse_ratio m)
      pure record {
        timestamp = now;
        request_health = health_of active queued r m;
        latency = latency;
        throughput = throughput_of r prefill reuse m;
        timeseries = m.series;
      }
