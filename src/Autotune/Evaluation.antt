-- ===== src/Autotune/Evaluation.antt =====
-- src/autotune/controller.py: the settings of the controller, the goal, the names of attempts, and
-- the comparison of the metrics before and after.
use Prim.Native.String.{String, ◌++◌ as join_text}
use text.Mathlib.Text.{◌==◌ as same_text}
use nifre.Prelude.{
  ℕ, Bool, true, false, ◌&&◌, ◌||◌, List, [], ◌∷◌, ◌++◌, Option, none, some, if◌then◌else◌,
}
use nifre.Prelude.Exec.{Outcome, ok, raised, value_error}
use nifre.Prelude.Floats.{Floats, zero_float}
use nifre.DataModel.{EngineConfig, Changes}
use nifre.Policy.{TuningGoal, is_given}
use nifre.Autotune.Workload.{MetricsSnapshot, workload_snapshot_from_metrics}

pub record ControllerConfig (W : Type 0) : Type 0 where
  pub interval_sec : W
  pub evaluation_sec : W
  pub cooldown_sec : W
  pub min_completed_requests : ℕ
  pub latency_regression_threshold_pct : W
  pub throughput_regression_threshold_pct : W
  pub error_rate_regression_delta : W

pub record EvaluationSnapshot (W : Type 0) : Type 0 where
  pub ttft_p95_ms : W
  pub tokens_per_sec : W
  pub error_rate : W

-- `TuningGoal | str`
pub data Goal : Type 0 where
  known : TuningGoal → Goal
  named : String → Goal

-- `TuningGoal(value)`
unfoldable pub parse_goal : String → Outcome TuningGoal
parse_goal s =
    if same_text s "latency"
    then ok TuningGoal.latency
    else if same_text s "throughput"
    then ok TuningGoal.throughput
    else if same_text s "balanced"
    then ok TuningGoal.balanced
    else raised value_error

abbrev pub as_goal : Goal → Outcome TuningGoal
as_goal (known goal) = ok goal
as_goal (named s) = parse_goal s

abbrev pub goal_value : Goal → String
goal_value (known TuningGoal.latency) = "latency"
goal_value (known TuningGoal.throughput) = "throughput"
goal_value (known TuningGoal.balanced) = "balanced"
goal_value (named s) = s

-- The sorted names of the settings that a change gives.
unfoldable pub changed_keys : Changes → List String
changed_keys changes =
    (if is_given changes.max_concurrent_requests then "max_concurrent_requests" ∷ [] else [])
    ++ (if is_given changes.max_tokens_per_step then "max_tokens_per_step" ∷ [] else [])
    ++ (if is_given changes.prefill_chunk_size then "prefill_chunk_size" ∷ [] else [])
    ++ (if is_given changes.use_paged_kv_cache then "use_paged_kv_cache" ∷ [] else [])
    ++ (if is_given changes.use_prefix_cache then "use_prefix_cache" ∷ [] else [])

abbrev pub join_from : String → String → List String → String
join_from separator s [] = s
join_from separator s (t ∷ l) = join_from separator (join_text s (join_text separator t)) l

-- `separator.join(l)`
abbrev pub joined : String → List String → String
joined separator [] = ""
joined separator (s ∷ l) = join_from separator s l

unfoldable pub attempt_name : Changes → String
unfolding changed_keys
attempt_name changes = join_text "autotune:" (joined "," (changed_keys changes))

-- `getattr(previous_config, key)` for each key of the changes.
abbrev pub previous : {A : Type 0} → Option A → A → Option A
previous none a = none
previous (some b) a = some a

unfoldable pub rollback_changes : Changes → EngineConfig → Changes
rollback_changes changes config = record {
  prefill_chunk_size = previous changes.prefill_chunk_size config.prefill_chunk_size;
  max_tokens_per_step = previous changes.max_tokens_per_step config.max_tokens_per_step;
  max_concurrent_requests = previous changes.max_concurrent_requests config.max_concurrent_requests;
  use_paged_kv_cache = previous changes.use_paged_kv_cache config.use_paged_kv_cache;
  use_prefix_cache = previous changes.use_prefix_cache config.use_prefix_cache;
}

module _ {W : Type 0} ⦃f : Floats W⦄ where
  abbrev pub default_controller_config : ControllerConfig W
  default_controller_config = record {
    interval_sec = f.ratio 30 1;
    evaluation_sec = f.ratio 60 1;
    cooldown_sec = f.ratio 30 1;
    min_completed_requests = 1;
    latency_regression_threshold_pct = f.ratio 5 1;
    throughput_regression_threshold_pct = f.ratio 5 1;
    error_rate_regression_delta = f.ratio 2 100;
  }

  unfoldable pub evaluation_from_metrics : MetricsSnapshot W → EvaluationSnapshot W
  unfolding workload_snapshot_from_metrics
  evaluation_from_metrics metrics =
      let workload = workload_snapshot_from_metrics metrics in
      record {
        ttft_p95_ms = workload.ttft_p95_ms;
        tokens_per_sec = workload.tokens_per_sec;
        error_rate = workload.error_rate;
      }

  module _ (config : ControllerConfig W) (baseline current : EvaluationSnapshot W) where
    abbrev pub more_errors : Bool
    more_errors =
        f.lt (f.add baseline.error_rate config.error_rate_regression_delta) current.error_rate

    -- `1.0 + pct / 100.0` and `1.0 - pct / 100.0`
    abbrev pub raised_by : W → W
    raised_by pct = f.add (f.ratio 1 1) (f.div pct (f.ratio 100 1))

    abbrev pub lowered_by : W → W
    lowered_by pct = f.sub (f.ratio 1 1) (f.div pct (f.ratio 100 1))

    -- `baseline.ttft_p95_ms * threshold`, of the latency, and so of the throughput.
    abbrev pub latency_limit : W
    latency_limit = f.mul baseline.ttft_p95_ms (raised_by config.latency_regression_threshold_pct)

    abbrev pub improved : TuningGoal → Bool
    improved TuningGoal.latency =
        if f.le baseline.ttft_p95_ms zero_float
        then false
        else f.lt current.ttft_p95_ms baseline.ttft_p95_ms
    improved TuningGoal.throughput =
        if f.le baseline.tokens_per_sec zero_float
        then f.lt zero_float current.tokens_per_sec
        else f.le
            (f.mul baseline.tokens_per_sec (raised_by config.throughput_regression_threshold_pct))
            current.tokens_per_sec
    improved TuningGoal.balanced =
        (f.le baseline.ttft_p95_ms zero_float
          || f.le current.ttft_p95_ms (f.mul baseline.ttft_p95_ms (f.ratio 102 100)))
        && (f.le baseline.tokens_per_sec zero_float
            || f.le (f.mul baseline.tokens_per_sec (f.ratio 98 100)) current.tokens_per_sec)
        && (f.lt current.ttft_p95_ms baseline.ttft_p95_ms
            || f.lt baseline.tokens_per_sec current.tokens_per_sec)

    abbrev pub regressed : TuningGoal → Bool
    regressed TuningGoal.latency =
        if f.le baseline.ttft_p95_ms zero_float
        then false
        else f.lt latency_limit current.ttft_p95_ms
    regressed TuningGoal.throughput =
        if f.le baseline.tokens_per_sec zero_float
        then false
        else f.lt current.tokens_per_sec
            (f.mul baseline.tokens_per_sec (lowered_by config.throughput_regression_threshold_pct))
    regressed TuningGoal.balanced =
        (f.lt zero_float baseline.ttft_p95_ms && f.lt latency_limit current.ttft_p95_ms)
        || (f.lt zero_float baseline.tokens_per_sec
            && f.lt current.tokens_per_sec (
                f.mul baseline.tokens_per_sec
                  (lowered_by config.throughput_regression_threshold_pct)))

    -- The goal is read first here, and after the errors there.
    unfoldable pub is_improvement : Goal → Outcome Bool
    unfolding parse_goal
    is_improvement goal = elim (as_goal goal) [
      | raised e ↦ raised e
      | ok g ↦ ok (if more_errors then false else improved g)
    ]

    unfoldable pub is_regression : Goal → Outcome Bool
    unfolding parse_goal
    is_regression goal =
        if more_errors
        then ok true
        else elim (as_goal goal) [ raised e ↦ raised e | ok g ↦ ok (regressed g) ]
