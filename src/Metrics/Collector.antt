-- ===== src/Metrics/Collector.antt =====
-- src/observability/collector.py: the hooks that the engine calls. The times of a request, which
-- only the metrics use, are kept beside the request; what a hook reads of the request itself is an
-- argument; the status that `on_request_failed` writes into it is one. The probe of the device is not
-- modelled.
pub mod Hooks
pub mod Expected
pub mod Memory
use Prim.Native.String.{String}
use nifre.Prelude.{
  ℕ, ◌+◌, leb, ltb, Bool, true, false, not, ◌&&◌, List, [], ◌∷◌, Option, none, some, length,
  or_else, update, if◌then◌else◌,
}
use nifre.Prelude.Floats.{Floats, zero_float}
use nifre.Optimization.{Tracker, new_tracker, set_baseline, update_current, record_promotion}
use nifre.Metrics.{
  MetricsStore, Completion, new_store, record_enqueue, record_completion, record_prefix_cache_hit,
  record_inter_token, record_prefill_step, record_decode_step,
}

-- src/inference/data_model.py: the time stamps of a request.
pub record RequestTimes (W : Type 0) : Type 0 where
  pub created_at : W
  pub first_token_at : Option W
  pub last_token_at : Option W
  pub finished_at : Option W
  pub prefill_duration_sec : Option W

-- What a hook reads of a request.
pub record RequestView : Type 0 where
  pub id : ℕ
  pub num_prompt_tokens : ℕ
  pub num_generated : ℕ
  pub prefill_complete : Bool
  pub status : String

pub record MetricsCollector (W : Type 0) : Type 0 where
  pub store : MetricsStore W
  pub optimization : Tracker W
  pub times : ℕ → RequestTimes W
  pub optimizations_recorded : Bool

-- The settings of the engine that `attach` reads, and the texts made from them.
pub record EngineView : Type 0 where
  pub use_paged_kv_cache : Bool
  pub use_prefix_cache : Bool
  pub block_details : String
  pub chunk_details : String
  pub budget_details : String
  pub concurrency_details : String

module _ {W : Type 0} where
  abbrev pub on_store : (MetricsStore W → MetricsStore W) → MetricsCollector W → MetricsCollector W
  on_store g c = record c { store = g c.store }

  abbrev pub set_times : ℕ → RequestTimes W → MetricsCollector W → MetricsCollector W
  set_times id t c = record c { times = update c.times id t }

  unfoldable pub new_collector : W → (ℕ → RequestTimes W) → MetricsCollector W
  unfolding new_store new_tracker
  new_collector window times = record {
    store = new_store window;
    optimization = new_tracker;
    times = times;
    optimizations_recorded = false;
  }

  -- `_record_enabled_optimizations`, the promotions in turn.
  abbrev pub cache_promotion : EngineView → W → Tracker W → Tracker W
  unfolding record_promotion
  cache_promotion e now t =
      if e.use_paged_kv_cache
      then record_promotion "paged-kv-cache" e.block_details now t
      else record_promotion "dense-kv-cache" "" now t

  abbrev pub prefix_promotion : EngineView → W → Tracker W → Tracker W
  unfolding record_promotion
  prefix_promotion e now t =
      if e.use_prefix_cache
      then record_promotion "prefix-cache"
          (if e.use_paged_kv_cache then e.block_details else "block-chained (hf)") now t
      else t

  unfoldable pub promotions : EngineView → W → Tracker W → Tracker W
  unfolding cache_promotion prefix_promotion record_promotion
  promotions e now t =
      let t1 = cache_promotion e now t in
      let t2 = record_promotion "chunked-prefill" e.chunk_details now t1 in
      let t3 = record_promotion "token-budget-scheduler" e.budget_details now t2 in
      let t4 = record_promotion "continuous-batching" e.concurrency_details now t3 in
      prefix_promotion e now t4

  unfoldable pub attach : EngineView → W → MetricsCollector W → MetricsCollector W
  unfolding promotions
  attach e now c = if c.optimizations_recorded then c else record c {
    optimizations_recorded = true;
    optimization = promotions e now c.optimization;
  }

  unfoldable pub on_request_enqueued : MetricsCollector W → MetricsCollector W
  unfolding record_enqueue
  on_request_enqueued c = on_store record_enqueue c

  unfoldable pub on_prefix_cache_hit : ℕ → MetricsCollector W → MetricsCollector W
  unfolding record_prefix_cache_hit
  on_prefix_cache_hit tokens_saved c = on_store (record_prefix_cache_hit tokens_saved) c

  module _ ⦃f : Floats W⦄ where
    unfoldable pub on_decode_batch : ℕ → W → W → MetricsCollector W → MetricsCollector W
    unfolding record_decode_step
    on_decode_batch batch_size duration now c =
        on_store (record_decode_step duration batch_size now) c

    -- The times of one request of a prefill batch; an empty duration is 0.0.
    abbrev pub prefill_times : Bool → W → W → RequestTimes W → RequestTimes W
    prefill_times complete duration now t =
        let t' = record t {
          prefill_duration_sec = some (f.add (or_else t.prefill_duration_sec zero_float) duration);
        } in
        if complete then record t' { first_token_at = some now; last_token_at = some now } else t'

    abbrev pub time_prefills : List RequestView → W → W → MetricsCollector W → MetricsCollector W
    time_prefills [] duration now c = c
    time_prefills (r ∷ requests) duration now c =
        time_prefills requests duration now
          (set_times r.id (prefill_times r.prefill_complete duration now (c.times r.id)) c)

    unfoldable pub on_prefill_batch :
        List RequestView → W → ℕ → W → MetricsCollector W → MetricsCollector W
    unfolding record_prefill_step
    on_prefill_batch requests duration tokens now c =
        time_prefills requests duration now
          (on_store (record_prefill_step duration (length requests) tokens now) c)

    -- The gap since the last token, where there is one.
    abbrev pub gap_since : Option W → ℕ → W → List W
    gap_since none generated now = []
    gap_since (some last) generated now = if leb 1 generated then f.sub now last ∷ [] else []

    abbrev pub record_gaps : List W → MetricsCollector W → MetricsCollector W
    unfolding record_inter_token
    record_gaps [] c = c
    record_gaps (gap ∷ gaps) c = on_store (record_inter_token gap) c

    unfoldable pub on_decode_token : RequestView → W → MetricsCollector W → MetricsCollector W
    unfolding record_gaps
    on_decode_token r now c =
        let t = c.times r.id in
        set_times r.id (record t { last_token_at = some now })
          (record_gaps (gap_since t.last_token_at r.num_generated now) c)

    abbrev pub is_none : Option W → Bool
    is_none none = true
    is_none (some a) = false

    unfoldable pub maybe_update_optimization : W → RequestView → Tracker W → Tracker W
    unfolding set_baseline update_current
    maybe_update_optimization total_latency r t =
        let latency_ms = f.mul total_latency (f.of_nat 1000) in
        let tokens = f.of_nat (r.num_prompt_tokens + r.num_generated) in
        let throughput =
          if f.lt zero_float total_latency then f.div tokens total_latency else zero_float in
        if is_none t.baseline_latency_ms
        then set_baseline latency_ms throughput t
        else update_current latency_ms throughput t

    -- `record_completion` with the numbers of a request that has ended.
    abbrev pub completion_of : Option W → RequestView → String → W → RequestTimes W → Completion W
    completion_of ttft r status now t = record {
      ttft_sec = ttft;
      total_latency_sec = f.sub now t.created_at;
      input_tokens = r.num_prompt_tokens;
      output_tokens = r.num_generated;
      status = status;
    }

    abbrev pub first_token_latency : RequestTimes W → Option W
    first_token_latency t = elim t.first_token_at [
      | none ↦ none
      | some first ↦ some (f.sub first t.created_at)
    ]

    unfoldable pub on_request_finished : RequestView → W → MetricsCollector W → MetricsCollector W
    unfolding record_completion maybe_update_optimization
    on_request_finished r now c =
        let t = c.times r.id in
        let c' =
          on_store (record_completion (completion_of (first_token_latency t) r r.status now t) now)
            (set_times r.id (record t { finished_at = some now }) c) in
        record c' {
          optimization = maybe_update_optimization (f.sub now t.created_at) r c'.optimization;
        }

    unfoldable pub on_request_failed :
        RequestView → String → W → MetricsCollector W → MetricsCollector W
    unfolding record_completion
    on_request_failed r status now c =
        let t = c.times r.id in
        on_store (record_completion (completion_of none r status now t) now)
          (set_times r.id (record t { finished_at = some now }) c)
