-- ===== src/Autotune/Workload.antt =====
-- src/autotune/workload.py. The dict of metrics is a record; an entry that may miss is optional,
-- and the default of `get` stands where the code has it.
use nifre.Prelude.{ℕ, Option, none, some, or_else, if◌then◌else◌}
use nifre.Prelude.Floats.{Floats, zero_float}

pub record RequestHealth (W : Type 0) : Type 0 where
  pub queued_requests : Option ℕ
  pub active_requests : Option ℕ
  pub completed_requests : Option ℕ
  pub error_rate : Option W

pub record Ttft (W : Type 0) : Type 0 where
  pub p50_ms : Option W
  pub p95_ms : Option W

pub record Throughput (W : Type 0) : Type 0 where
  pub tokens_per_sec : Option W
  pub avg_prefill_tokens_per_step : Option W
  pub prefix_cache_tokens_saved : Option ℕ
  pub total_prefill_tokens : Option ℕ

-- The entry `latency` holds a dict with the entry `ttft`.
pub record MetricsSnapshot (W : Type 0) : Type 0 where
  pub timestamp : Option W
  pub request_health : Option (RequestHealth W)
  pub latency : Option (Option (Ttft W))
  pub throughput : Option (Throughput W)

pub record WorkloadSnapshot (W : Type 0) : Type 0 where
  pub timestamp : W
  pub queued_requests : ℕ
  pub active_requests : ℕ
  pub ttft_p95_ms : W
  pub ttft_p50_ms : W
  pub tokens_per_sec : W
  pub prefix_cache_hit_rate : W
  pub error_rate : W
  pub avg_prefill_tokens_per_step : W

-- `d.get(key, default)`, of a dict that itself may be the empty default.
abbrev pub get_or {ℓ} : {R : Type 0} {A : Type ℓ} → Option R → (R → Option A) → A → A
get_or none f default = default
get_or (some r) f default = or_else (f r) default

abbrev pub ttft_of : {W : Type 0} → Option (Option (Ttft W)) → Option (Ttft W)
ttft_of none = none
ttft_of (some ttft) = ttft

module _ {W : Type 0} ⦃f : Floats W⦄ where
  -- `prefix_hit_rate`
  unfoldable pub hit_rate : ℕ → ℕ → W
  hit_rate saved prefill =
      let denominator = f.add (f.of_nat saved) (f.of_nat prefill) in
      if f.lt zero_float denominator then f.div (f.of_nat saved) denominator else zero_float

  unfoldable pub workload_snapshot_from_metrics : MetricsSnapshot W → WorkloadSnapshot W
  unfolding hit_rate
  workload_snapshot_from_metrics m =
      let ttft = ttft_of m.latency in
      record {
        timestamp = or_else m.timestamp zero_float;
        queued_requests = get_or m.request_health (λ h. h.queued_requests) 0;
        active_requests = get_or m.request_health (λ h. h.active_requests) 0;
        ttft_p95_ms = get_or ttft (λ t. t.p95_ms) zero_float;
        ttft_p50_ms = get_or ttft (λ t. t.p50_ms) zero_float;
        tokens_per_sec = get_or m.throughput (λ t. t.tokens_per_sec) zero_float;
        prefix_cache_hit_rate =
            hit_rate (get_or m.throughput (λ t. t.prefix_cache_tokens_saved) 0)
              (get_or m.throughput (λ t. t.total_prefill_tokens) 0);
        error_rate = get_or m.request_health (λ h. h.error_rate) zero_float;
        avg_prefill_tokens_per_step =
            get_or m.throughput (λ t. t.avg_prefill_tokens_per_step) zero_float;
      }
