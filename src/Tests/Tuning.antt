-- ===== src/Tests/Tuning.antt =====
-- The tuning at small inputs, with thousandths for floats.
use nifre.Prelude.{ℕ, ◌≡◌, ◌↔◌, refl, inl, [], ◌∷◌, true, false, Option, none, some, arith}
use nifre.Prelude.Exec.{ok, raised, value_error}
use nifre.Prelude.Floats.{thousandths, thousandths-IsOrdered}
use nifre.DataModel.{new_request, validate_engine_config}
use nifre.Scheduler.Reconfigure
use nifre.Scheduler.{Scheduler}
use nifre.Scheduler.Slots.{SlotsValid}
use nifre.Engine.{Engine}
use nifre.Engine.Config.{config_of, reconfigure}
use nifre.Policy.{WorkloadLabels, TuningGoal, TuningPlan, default_policy, propose, no_changes}
use nifre.Policy.Limits.{PolicyValid}
use nifre.Autotune.Workload.{MetricsSnapshot, WorkloadSnapshot, workload_snapshot_from_metrics}
use nifre.Autotune.Classifier.{WorkloadClassifier, default_classifier_config, observe}
use nifre.Autotune.Window.{High, window, observe-High}
use nifre.Autotune.Evaluation.{known, is_regression, evaluation_from_metrics}
use nifre.Autotune.Controller.{PendingAttempt, System, LastAction, new_controller}
use nifre.Autotune.Tick.{tick}
use nifre.Autotune.Balance.{Balanced, tick-Balanced}
use nifre.Autotune.Rollback.{RolledBack, Reverts, tick-RolledBack}
use nifre.Autotune.Acceptance.{propose-reconfigure}

abbrev metrics : MetricsSnapshot ℕ
metrics = record {
  timestamp = some 90000;
  request_health = some record {
    queued_requests = some 5;
    active_requests = some 2;
    completed_requests = some 7;
    error_rate = some 0;
  };
  latency = some (some record { p50_ms = some 300000; p95_ms = some 700000 });
  throughput = some record {
    tokens_per_sec = some 20000;
    avg_prefill_tokens_per_step = some 4000;
    prefix_cache_tokens_saved = some 10;
    total_prefill_tokens = some 90;
  };
}

abbrev snapshot : WorkloadSnapshot ℕ
snapshot = record {
  timestamp = 90000;
  queued_requests = 5;
  active_requests = 2;
  ttft_p95_ms = 700000;
  ttft_p50_ms = 300000;
  tokens_per_sec = 20000;
  prefix_cache_hit_rate = 100;
  error_rate = 0;
  avg_prefill_tokens_per_step = 4000;
}

workload_runs : workload_snapshot_from_metrics metrics ≡ snapshot
unfolding workload_snapshot_from_metrics
workload_runs = refl

-- Samples at 10, 31 and 60 seconds, before the one at 90 seconds.
abbrev classifier : WorkloadClassifier ℕ
classifier = record {
  config = default_classifier_config;
  queue_samples = (10000, 0) ∷ (31000, 3) ∷ (60000, 2) ∷ [];
}

observe-High_example :
    (labels : WorkloadLabels) × (observe snapshot classifier
      ≡ (ok labels, record classifier { queue_samples = window snapshot classifier }))
    × ((labels.queue_high ≡ true) ↔ High classifier.config (window snapshot classifier))
observe-High_example =
    observe-High thousandths-IsOrdered snapshot classifier (refl, (refl, (refl, tt))) (omega arith)

abbrev scheduler : Scheduler
scheduler = record {
  max_concurrent_requests = 2;
  max_tokens_per_step = 512;
  waiting = [];
  running = [];
  completed = [];
  failed = [];
  free_slots = 0 ∷ 1 ∷ [];
  requests = λ id. new_request (1 ∷ []) 2 2;
}

scheduler-SlotsValid : SlotsValid scheduler
unfolding new_request
scheduler-SlotsValid = record {
  slots = λ k. ground arith;
  distinct = λ id. ground arith;
  active = λ id p. ground arith;
  queued = λ id p. refl;
}

abbrev engine : Engine ℕ
engine = record {
  scheduler = scheduler;
  cache = none;
  max_concurrent_requests = 2;
  prefill_chunk_size = 128;
  max_tokens_per_step = 512;
  use_paged_kv_cache = true;
  use_prefix_cache = false;
  token_callbacks = [];
  delivered = [];
}

abbrev system : System ℕ ℕ
system = record {
  controller = new_controller (known TuningGoal.balanced);
  engine = engine;
  tracker = record {
    baseline_latency_ms = none;
    current_latency_ms = none;
    baseline_throughput_tps = none;
    current_throughput_tps = none;
    attempted = 0;
    promoted = 0;
    rolled_back = 0;
    events = [];
  };
}

tick-Balanced_example : Balanced system (tick 90000 91000 metrics system)
tick-Balanced_example = tick-Balanced 90000 91000 metrics system

-- The first attempt: the latency is high, so that the chunks get smaller.
attempt_runs : (tick 90000 91000 metrics system).1.engine.prefill_chunk_size ≡ 96
unfolding tick validate_engine_config Reconfigure.reconfigure
attempt_runs = refl

abbrev labels : WorkloadLabels
labels = record {
  queue_high = false;
  prefix_friendly = false;
  latency_sensitive = true;
  throughput_low = false;
  error_elevated = false;
}

abbrev plan : TuningPlan
plan = record {
  config = record (config_of engine) { prefill_chunk_size = 96 };
  reasons = "trim prefill chunks to protect latency" ∷ [];
  changes = record no_changes { prefill_chunk_size = some 96 };
}

default_policy-Valid : PolicyValid default_policy
default_policy-Valid = record {
  chunk_min = omega arith;
  chunk = omega arith;
  budget_min = omega arith;
  budget = omega arith;
  concurrency_min = omega arith;
  concurrency = omega arith;
}

plan_runs : propose default_policy (config_of engine) labels TuningGoal.balanced false ≡ some plan
unfolding propose
plan_runs = refl

propose-reconfigure_example :
    ((reconfigure plan.changes engine).0 ≡ ok plan.config)
    × (config_of (reconfigure plan.changes engine).1 ≡ plan.config)
    × SlotsValid (reconfigure plan.changes engine).1.scheduler
propose-reconfigure_example =
    propose-reconfigure default_policy default_policy-Valid labels TuningGoal.balanced engine plan
      plan_runs scheduler-SlotsValid (λ e. refl)

abbrev attempt : PendingAttempt ℕ
attempt = record {
  name = "autotune:use_prefix_cache";
  reason = "enable prefix cache for shared-prefix workload" ∷ [];
  previous_config = config_of engine;
  baseline = record { ttft_p95_ms = 500000; tokens_per_sec = 20000; error_rate = 0 };
  started_at = 20000;
  changes = record no_changes { use_prefix_cache = some true };
}

-- The attempt has turned the prefix cache on, and the engine may have made its cache since.
abbrev open_system : Option ℕ → System ℕ ℕ
open_system cache = record system {
  engine = record engine { cache = cache; use_prefix_cache = true };
  controller = record system.controller { pending = some attempt };
}

worse : Reverts attempt (open_system none) metrics
unfolding is_regression evaluation_from_metrics
worse = inl refl

tick-RolledBack_example :
    RolledBack attempt
      (some LastAction.rolled_back)
      (open_system none)
      (tick 90000 91000 metrics (open_system none))
tick-RolledBack_example =
    tick-RolledBack attempt 90000 91000 metrics (open_system none) refl refl worse
      scheduler-SlotsValid

-- Once there is a cache, the rollback is refused each time.
refused_rollback : (tick 90000 91000 metrics (open_system (some 0))).0 ≡ raised value_error
unfolding tick reconfigure validate_engine_config
refused_rollback = refl

rollback_runs : config_of (tick 90000 91000 metrics (open_system none)).1.engine ≡ config_of engine
unfolding tick reconfigure validate_engine_config Reconfigure.reconfigure
rollback_runs = refl
