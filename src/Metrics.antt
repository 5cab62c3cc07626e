-- ===== src/Metrics.antt =====
-- src/observability/metrics_store.py. A `deque(maxlen=n)` is the list of what it holds, the oldest
-- first. The clock is an argument of the calls that read it, and the same for one call. The lock is
-- held for the body of each call that records, so that each is a single step; `snapshot` releases
-- it before it reads the counters for its answer, and the model reads them at once.
pub mod Percentile
pub mod Report
pub mod Tally
pub mod History
pub mod Rates
pub mod Summary
pub mod Collector
use Prim.Native.String.{String}
use text.Mathlib.Text.{◌==◌ as same_text}
use nifre.Prelude.{
  ℕ, ◌+◌, ltb, Bool, true, false, List, [], ◌∷◌, ◌++◌, Option, none, some, length, drop,
  if◌then◌else◌,
}
use nifre.Prelude.Floats.{Floats}

-- `append` of a deque of a maximal length: the oldest element goes when there are too many.
unfoldable pub append_bounded : {A : Type 0} → ℕ → List A → A → List A
append_bounded maxlen l a = let l' = l ++ a ∷ [] in if ltb maxlen (length l') then drop 1 l' else l'

-- `TimeSeries.points`, of the default length.
unfoldable pub add_point : {W : Type 0} → List (W × W) → W → W → List (W × W)
unfolding append_bounded
add_point points value now = append_bounded 120 points (now, value)

pub record TokenEvent (W : Type 0) : Type 0 where
  pub timestamp : W
  pub input_tokens : ℕ
  pub output_tokens : ℕ

-- The twelve time series.
pub record Series (W : Type 0) : Type 0 where
  pub requests_per_sec : List (W × W)
  pub active_requests : List (W × W)
  pub queued_requests : List (W × W)
  pub tokens_per_sec : List (W × W)
  pub input_tokens_per_sec : List (W × W)
  pub output_tokens_per_sec : List (W × W)
  pub batch_size : List (W × W)
  pub prefill_tokens_per_step : List (W × W)
  pub decode_iterations_per_sec : List (W × W)
  pub gpu_utilization : List (W × W)
  pub gpu_memory_gb : List (W × W)
  pub kv_cache_utilization : List (W × W)

pub record MetricsStore (W : Type 0) : Type 0 where
  pub window_sec : W
  pub total_enqueued : ℕ
  pub total_completed : ℕ
  pub total_errors : ℕ
  pub total_timeouts : ℕ
  pub total_input_tokens : ℕ
  pub total_output_tokens : ℕ
  pub total_decode_iterations : ℕ
  pub total_prefill_tokens : ℕ
  pub prefix_cache_hits : ℕ
  pub prefix_cache_tokens_saved : ℕ
  pub completion_timestamps : List W
  pub ttft_samples : List W
  pub total_latency_samples : List W
  pub prefill_step_samples : List W
  pub prefill_tokens_per_step_samples : List ℕ
  pub decode_step_samples : List W
  pub inter_token_samples : List W
  pub series : Series W
  pub token_events : List (TokenEvent W)
  pub decode_iteration_timestamps : List W

abbrev pub new_series : {W : Type 0} → Series W
new_series = record {
  requests_per_sec = [];
  active_requests = [];
  queued_requests = [];
  tokens_per_sec = [];
  input_tokens_per_sec = [];
  output_tokens_per_sec = [];
  batch_size = [];
  prefill_tokens_per_step = [];
  decode_iterations_per_sec = [];
  gpu_utilization = [];
  gpu_memory_gb = [];
  kv_cache_utilization = [];
}

unfoldable pub new_store : {W : Type 0} → W → MetricsStore W
new_store window_sec = record {
  window_sec = window_sec;
  total_enqueued = 0;
  total_completed = 0;
  total_errors = 0;
  total_timeouts = 0;
  total_input_tokens = 0;
  total_output_tokens = 0;
  total_decode_iterations = 0;
  total_prefill_tokens = 0;
  prefix_cache_hits = 0;
  prefix_cache_tokens_saved = 0;
  completion_timestamps = [];
  ttft_samples = [];
  total_latency_samples = [];
  prefill_step_samples = [];
  prefill_tokens_per_step_samples = [];
  decode_step_samples = [];
  inter_token_samples = [];
  series = new_series;
  token_events = [];
  decode_iteration_timestamps = [];
}

-- The arguments of `record_completion`.
pub record Completion (W : Type 0) : Type 0 where
  pub ttft_sec : Option W
  pub total_latency_sec : W
  pub input_tokens : ℕ
  pub output_tokens : ℕ
  pub status : String

module _ {W : Type 0} where
  unfoldable pub record_enqueue : MetricsStore W → MetricsStore W
  record_enqueue m = record m { total_enqueued = m.total_enqueued + 1 }

  -- The counter of the status.
  unfoldable pub count_status : String → MetricsStore W → MetricsStore W
  count_status status m =
      if same_text status "timeout"
      then record m { total_timeouts = m.total_timeouts + 1 }
      else if same_text status "error"
      then record m { total_errors = m.total_errors + 1 }
      else record m { total_completed = m.total_completed + 1 }

  unfoldable pub append_ttft : Option W → List W → List W
  unfolding append_bounded
  append_ttft none l = l
  append_ttft (some t) l = append_bounded 2000 l t

  unfoldable pub record_completion : Completion W → W → MetricsStore W → MetricsStore W
  unfolding count_status append_ttft append_bounded
  record_completion c now m =
      let m' = count_status c.status m in
      record m' {
        completion_timestamps = append_bounded 5000 m'.completion_timestamps now;
        total_latency_samples = append_bounded 2000 m'.total_latency_samples c.total_latency_sec;
        ttft_samples = append_ttft c.ttft_sec m'.ttft_samples;
        total_input_tokens = m'.total_input_tokens + c.input_tokens;
        total_output_tokens = m'.total_output_tokens + c.output_tokens;
        token_events = append_bounded 10000 m'.token_events record {
          timestamp = now;
          input_tokens = c.input_tokens;
          output_tokens = c.output_tokens;
        };
      }

  unfoldable pub record_prefix_cache_hit : ℕ → MetricsStore W → MetricsStore W
  record_prefix_cache_hit tokens_saved m = record m {
    prefix_cache_hits = m.prefix_cache_hits + 1;
    prefix_cache_tokens_saved = m.prefix_cache_tokens_saved + tokens_saved;
  }

  unfoldable pub record_inter_token : W → MetricsStore W → MetricsStore W
  unfolding append_bounded
  record_inter_token gap m = record m {
    inter_token_samples = append_bounded 5000 m.inter_token_samples gap;
  }

  unfoldable pub record_runtime_sample : W → W → W → W → MetricsStore W → MetricsStore W
  unfolding add_point
  record_runtime_sample utilization memory_gb cache_utilization now m = record m {
    series = record m.series {
      gpu_utilization = add_point m.series.gpu_utilization utilization now;
      gpu_memory_gb = add_point m.series.gpu_memory_gb memory_gb now;
      kv_cache_utilization = add_point m.series.kv_cache_utilization cache_utilization now;
    };
  }

  module _ ⦃f : Floats W⦄ where
    unfoldable pub record_prefill_step : W → ℕ → ℕ → W → MetricsStore W → MetricsStore W
    unfolding append_bounded add_point
    record_prefill_step duration batch_size tokens now m = record m {
      prefill_step_samples = append_bounded 2000 m.prefill_step_samples duration;
      prefill_tokens_per_step_samples =
          append_bounded 2000 m.prefill_tokens_per_step_samples tokens;
      total_prefill_tokens = m.total_prefill_tokens + tokens;
      series = record m.series {
        batch_size = add_point m.series.batch_size (f.of_nat batch_size) now;
        prefill_tokens_per_step = add_point m.series.prefill_tokens_per_step (f.of_nat tokens) now;
      };
    }

    unfoldable pub record_decode_step : W → ℕ → W → MetricsStore W → MetricsStore W
    unfolding append_bounded add_point
    record_decode_step duration batch_size now m = record m {
      decode_step_samples = append_bounded 2000 m.decode_step_samples duration;
      series = record m.series {
        batch_size = add_point m.series.batch_size (f.of_nat batch_size) now;
      };
      total_decode_iterations = m.total_decode_iterations + 1;
      decode_iteration_timestamps = append_bounded 5000 m.decode_iteration_timestamps now;
    }
