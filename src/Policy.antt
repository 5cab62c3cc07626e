-- ===== src/Policy.antt =====
-- src/autotune/policy.py: rules from the labels of the workload to changes of the configuration.
-- The reasons stay a list, which the code joins by "; " into one string.

pub mod Limits
use Prim.Native.String.{String}
use nifre.Prelude.{
  ℕ, zero, suc, ◌+◌, ◌-◌, ◌/◌, min, max, Bool, true, false, not, ◌&&◌, ◌||◌, List, [], ◌∷◌, ◌++◌,
  Option, none, some, ◌==◌, if◌then◌else◌, or_else,
}
use nifre.Prelude.Int.{ℤ, pos, negsuc, is_zero}
use nifre.DataModel.{EngineConfig, Changes}

pub data TuningGoal : Type 0 where
  latency throughput balanced : TuningGoal

pub record PolicyConfig : Type 0 where
  pub min_prefill_chunk_size : ℕ
  pub max_prefill_chunk_size : ℕ
  pub prefill_chunk_step : ℕ
  pub min_max_tokens_per_step : ℕ
  pub max_max_tokens_per_step : ℕ
  pub token_budget_step : ℕ
  pub min_max_concurrent_requests : ℕ
  pub max_max_concurrent_requests : ℕ
  pub concurrency_step : ℕ

abbrev pub default_policy : PolicyConfig
default_policy = record {
  min_prefill_chunk_size = 32;
  max_prefill_chunk_size = 512;
  prefill_chunk_step = 64;
  min_max_tokens_per_step = 256;
  max_max_tokens_per_step = 4096;
  token_budget_step = 256;
  min_max_concurrent_requests = 1;
  max_max_concurrent_requests = 16;
  concurrency_step = 1;
}

-- src/autotune/classifier.py, `WorkloadLabels`.
pub record WorkloadLabels : Type 0 where
  pub queue_high : Bool
  pub prefix_friendly : Bool
  pub latency_sensitive : Bool
  pub throughput_low : Bool
  pub error_elevated : Bool

pub record TuningPlan : Type 0 where
  pub config : EngineConfig
  pub reasons : List String
  pub changes : Changes

-- `-n`
abbrev pub negated : ℕ → ℤ
negated zero = pos 0
negated (suc n) = negsuc n

-- `current + delta`, or 0 where this is negative: `step_int` takes its maximum with a number.
abbrev pub shifted : ℕ → ℤ → ℕ
shifted current (pos d) = current + d
shifted current (negsuc d) = current - suc d

unfoldable pub step_int : ℕ → ℤ → ℕ → ℕ → Option ℕ
step_int current delta minimum maximum =
    let new_value = max minimum (min maximum (shifted current delta)) in
    if is_zero delta then none else if new_value == current then none else some new_value

-- `_apply_updates`
unfoldable pub apply_updates : EngineConfig → Changes → EngineConfig
apply_updates current changes = record {
  max_concurrent_requests = or_else changes.max_concurrent_requests current.max_concurrent_requests;
  prefill_chunk_size = or_else changes.prefill_chunk_size current.prefill_chunk_size;
  max_tokens_per_step = or_else changes.max_tokens_per_step current.max_tokens_per_step;
  use_paged_kv_cache = or_else changes.use_paged_kv_cache current.use_paged_kv_cache;
  use_prefix_cache = or_else changes.use_prefix_cache current.use_prefix_cache;
}

-- `updates` and `reasons`
pub record Draft : Type 0 where
  pub updates : Changes
  pub reasons : List String

abbrev pub no_changes : Changes
no_changes = record {
  prefill_chunk_size = none;
  max_tokens_per_step = none;
  max_concurrent_requests = none;
  use_paged_kv_cache = none;
  use_prefix_cache = none;
}

abbrev pub empty_draft : Draft
empty_draft = record { updates = no_changes; reasons = [] }

-- `if value is not None: updates[key] = value; reasons.append(reason)`
abbrev pub put_chunk : Option ℕ → String → Draft → Draft
put_chunk none reason d = d
put_chunk (some n) reason d = record {
  updates = record d.updates { prefill_chunk_size = some n };
  reasons = d.reasons ++ reason ∷ [];
}

abbrev pub put_budget : Option ℕ → String → Draft → Draft
put_budget none reason d = d
put_budget (some n) reason d = record {
  updates = record d.updates { max_tokens_per_step = some n };
  reasons = d.reasons ++ reason ∷ [];
}

abbrev pub put_concurrency : Option ℕ → String → Draft → Draft
put_concurrency none reason d = d
put_concurrency (some n) reason d = record {
  updates = record d.updates { max_concurrent_requests = some n };
  reasons = d.reasons ++ reason ∷ [];
}

abbrev pub is_given : {A : Type 0} → Option A → Bool
is_given none = false
is_given (some a) = true

module _ (policy : PolicyConfig) (current : EngineConfig) (labels : WorkloadLabels) where
  unfoldable pub step_chunk : ℤ → Option ℕ
  unfolding step_int
  step_chunk delta =
      step_int current.prefill_chunk_size delta policy.min_prefill_chunk_size
        policy.max_prefill_chunk_size

  unfoldable pub step_budget : ℤ → Option ℕ
  unfolding step_int
  step_budget delta =
      step_int current.max_tokens_per_step delta policy.min_max_tokens_per_step
        policy.max_max_tokens_per_step

  unfoldable pub step_concurrency : ℤ → Option ℕ
  unfolding step_int
  step_concurrency delta =
      step_int current.max_concurrent_requests delta policy.min_max_concurrent_requests
        policy.max_max_concurrent_requests

  -- `-prefill_chunk_step // 2` rounds down.
  abbrev pub half_chunk : ℤ
  half_chunk = negated ((policy.prefill_chunk_step + 1) / 2)

  unfoldable pub latency_rules : Draft → Draft
  unfolding step_chunk step_budget
  latency_rules d =
      let d' =
        if labels.latency_sensitive || labels.queue_high
        then put_chunk (step_chunk (negated policy.prefill_chunk_step))
            "reduce prefill chunk size for lower TTFT" d
        else d in
      if labels.latency_sensitive
      then put_budget (step_budget (negated policy.token_budget_step))
          "lower token budget to interleave decode sooner" d'
      else d'

  unfoldable pub throughput_rules : Bool → Draft → Draft
  unfolding step_budget step_concurrency
  throughput_rules cache_initialized d =
      let d' =
        if labels.queue_high && not cache_initialized
        then put_concurrency (step_concurrency (pos policy.concurrency_step))
            "raise concurrency to drain queue" d
        else d in
      if labels.throughput_low
      then put_budget (step_budget (pos policy.token_budget_step))
          "raise token budget for higher throughput" d'
      else d'

  -- The rule for a high queue, without and with a cache.
  unfoldable pub queue_rule : Bool → Draft → Draft
  unfolding step_chunk step_concurrency
  queue_rule false d =
      put_concurrency (step_concurrency (pos policy.concurrency_step))
        "raise concurrency to reduce queue wait" d
  queue_rule true d =
      if is_given d.updates.prefill_chunk_size
      then d
      else put_chunk (step_chunk half_chunk) "reduce prefill chunks while queue is high" d

  unfoldable pub balanced_rules : Bool → Draft → Draft
  unfolding step_chunk step_budget queue_rule
  balanced_rules cache_initialized d =
      let d1 =
        if labels.latency_sensitive
        then put_chunk (step_chunk half_chunk) "trim prefill chunks to protect latency" d
        else d in
      let d2 =
        if labels.throughput_low
        then put_budget (step_budget (pos (max (policy.token_budget_step / 2) 1)))
            "nudge token budget up for throughput" d1
        else d1 in
      if labels.queue_high then queue_rule cache_initialized d2 else d2

  unfoldable pub prefix_rules : Bool → Draft → Draft
  prefix_rules cache_initialized d =
      if labels.prefix_friendly
        && not current.use_prefix_cache
        && current.use_paged_kv_cache
        && not cache_initialized
      then record {
        updates = record d.updates { use_prefix_cache = some true };
        reasons = d.reasons ++ "enable prefix cache for shared-prefix workload" ∷ [];
      }
      else d

  abbrev pub goal_rules : TuningGoal → Bool → Draft → Draft
  goal_rules TuningGoal.latency cache_initialized = latency_rules
  goal_rules TuningGoal.throughput cache_initialized = throughput_rules cache_initialized
  goal_rules TuningGoal.balanced cache_initialized = balanced_rules cache_initialized

  abbrev pub draft : TuningGoal → Bool → Draft
  draft goal cache_initialized =
      prefix_rules cache_initialized (goal_rules goal cache_initialized empty_draft)

  -- `not updates`; no rule sets `use_paged_kv_cache`.
  abbrev pub has_updates : Changes → Bool
  has_updates c =
      is_given c.prefill_chunk_size
      || is_given c.max_tokens_per_step
      || is_given c.max_concurrent_requests
      || is_given c.use_paged_kv_cache
      || is_given c.use_prefix_cache

  abbrev pub plan_of : Draft → TuningPlan
  plan_of d = record {
    config = apply_updates current d.updates;
    reasons = d.reasons;
    changes = d.updates;
  }

  unfoldable pub propose : TuningGoal → Bool → Option TuningPlan
  unfolding apply_updates latency_rules throughput_rules balanced_rules prefix_rules
  propose goal cache_initialized =
      if labels.error_elevated
      then none
      else if has_updates (draft goal cache_initialized).updates
      then some (plan_of (draft goal cache_initialized))
      else none
