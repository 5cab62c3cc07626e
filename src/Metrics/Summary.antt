-- ===== src/Metrics/Summary.antt =====
-- src/observability/metrics_store.py, `snapshot`: it always has an answer.
use nifre.Prelude.{ℕ, ◌≤◌, ◌≡◌}
use nifre.Prelude.Floats.{Floats}
use nifre.Metrics.{MetricsStore, Series}
use nifre.Metrics.Percentile.{Rounding, rank_of}
use nifre.Metrics.Rates.{IsRate, IsQuotient}
use nifre.Metrics.Report.{Report, Rates, finished_total, rated}

module _ {W : Type 0} ⦃f : Floats W⦄ where
  module _ (g : Rounding W) where
    -- The rank of the three percentiles, rounded down, is that of a value.
    abbrev pub RankBelow : Type 0
    RankBelow =
        (n : ℕ)
        → (g.floor (rank_of n 50) ≤ n) × (g.floor (rank_of n 95) ≤ n) × (g.floor (rank_of n 99) ≤ n)

    -- What a report says of a store, and the time series that it leaves.
    pub record Answers (active queued : ℕ) (now : W) (m : MetricsStore W) (r : Report W)
        (after : Series W) : Type 0 where
      pub new_points : Rates W
      pub series : after ≡ rated g active queued now new_points m.series
      pub reported : r.timeseries ≡ after
      pub requests : IsRate g m.window_sec now m.completion_timestamps new_points.requests_per_sec
      pub iterations :
          IsRate g m.window_sec now m.decode_iteration_timestamps
            new_points.decode_iterations_per_sec
      pub requests_shown : r.request_health.requests_per_sec ≡ g.round new_points.requests_per_sec 3
      pub iterations_shown :
          r.throughput.decode_iterations_per_sec ≡ g.round new_points.decode_iterations_per_sec 2
      pub tokens_shown : r.throughput.tokens_per_sec ≡ g.round new_points.tokens_per_sec 2
      pub errors :
          (v : W) × (r.request_health.error_rate ≡ g.round v 4)
          × IsQuotient g m.total_errors (finished_total g m) v
      pub timeouts :
          (v : W) × (r.request_health.timeout_rate ≡ g.round v 4)
          × IsQuotient g m.total_timeouts (finished_total g m) v
      pub completed : r.request_health.completed_requests ≡ m.total_completed
