-- ===== src/Metrics/Percentile.antt =====
-- src/observability/metrics_store.py: `percentile` and `latency_summary`.
use nifre.Prelude.{
  ℕ, ◌+◌, ◌-◌, ◌==◌, min, Bool, List, [], ◌∷◌, Option, none, some, length, get_elem?, if◌then◌else◌,
}
use nifre.Prelude.Exec.{
  Exec, Outcome, ok, raised, index_error, zero_division_error, pure, lift, ◌>>=◌,
}
use nifre.Prelude.Floats.{Floats, zero_float}

-- `int(x)`, `round(x, digits)` and the test `x == 0.0`.
pub record Rounding (W : Type 0) : Type 0 where
  pub floor : W → ℕ
  pub round : W → ℕ → W
  pub is_zero : W → Bool

pub record LatencySummary (W : Type 0) : Type 0 where
  pub p50_ms : W
  pub p95_ms : W
  pub p99_ms : W
  pub mean_ms : W

module _ {W : Type 0} ⦃f : Floats W⦄ where
  -- A float over an `int`; Python raises for zero.
  unfoldable pub over_count : W → ℕ → Outcome W
  over_count a n = if n == 0 then raised zero_division_error else ok (f.div a (f.of_nat n))

  -- `sorted(values)`
  abbrev pub insert_sorted : W → List W → List W
  insert_sorted x [] = x ∷ []
  insert_sorted x (y ∷ l) = if f.lt y x then y ∷ insert_sorted x l else x ∷ y ∷ l

  unfoldable pub sorted : List W → List W
  sorted [] = []
  sorted (x ∷ l) = insert_sorted x (sorted l)

  -- `sum(values)`, from the left.
  abbrev pub sum_from : W → List W → W
  sum_from s [] = s
  sum_from s (x ∷ l) = sum_from (f.add s x) l

  abbrev pub rank_of : ℕ → ℕ → W
  rank_of n p = f.mul (f.of_nat n) (f.div (f.ratio p 1) (f.ratio 100 1))

  abbrev pub entry : Option W → Outcome W
  entry none = raised index_error
  entry (some x) = ok x

  -- Between two neighbours.
  abbrev pub interpolated : W → Outcome W → Outcome W → Outcome W
  interpolated weight (ok a) (ok b) = ok (f.add a (f.mul (f.sub b a) weight))
  interpolated weight (raised e) b = raised e
  interpolated weight (ok a) (raised e) = raised e

  module _ (g : Rounding W) where
    unfoldable pub percentile : List W → ℕ → Outcome W
    unfolding sorted
    percentile [] p = ok zero_float
    percentile (x ∷ l) p =
        let ordered = sorted (x ∷ l) in
        let rank = rank_of (length ordered - 1) p in
        let lower = g.floor rank in
        let upper = min (lower + 1) (length ordered - 1) in
        if lower == upper
        then entry (get_elem? ordered lower)
        else interpolated (f.sub rank (f.of_nat lower)) (entry (get_elem? ordered lower))
            (entry (get_elem? ordered upper))

    abbrev pub in_ms : W → W
    in_ms x = g.round (f.mul x (f.of_nat 1000)) 2

    abbrev pub no_latency : LatencySummary W
    no_latency = record {
      p50_ms = zero_float;
      p95_ms = zero_float;
      p99_ms = zero_float;
      mean_ms = zero_float;
    }

    abbrev pub summary_of : W → W → W → W → LatencySummary W
    summary_of p50 p95 p99 mean = record {
      p50_ms = in_ms p50;
      p95_ms = in_ms p95;
      p99_ms = in_ms p99;
      mean_ms = in_ms mean;
    }

    unfoldable pub latency_summary : {S : Type 0} → List W → Exec S (LatencySummary W)
    unfolding percentile over_count
    latency_summary [] = pure no_latency
    latency_summary (x ∷ l) = do
      p50 ← lift (percentile (x ∷ l) 50)
      p95 ← lift (percentile (x ∷ l) 95)
      p99 ← lift (percentile (x ∷ l) 99)
      mean ← lift (over_count (sum_from (f.of_nat 0) (x ∷ l)) (length (x ∷ l)))
      pure (summary_of p50 p95 p99 mean)
