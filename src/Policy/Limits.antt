-- ===== src/Policy/Limits.antt =====
-- src/autotune/policy.py: what `propose` can propose.
use nifre.Prelude.{
  if-keeps, ℕ, zero, suc, ◌≤◌, ◌≡◌, refl, Bool, true, false, not, ◌&&◌, ◌||◌, Option, none, some,
  Bool-cases, inl, inr, ◌==◌, max, min, ◌/◌, arith,
}
use nifre.Prelude.Exec.{ok}
use nifre.Prelude.Int.{ℤ, pos, is_zero}
use nifre.DataModel.{EngineConfig, Changes, validate_engine_config, is_given_zero}
use nifre.Policy.{
  TuningGoal, PolicyConfig, WorkloadLabels, TuningPlan, shifted, step_int, apply_updates, Draft,
  empty_draft, put_chunk, put_budget, put_concurrency, is_given, step_chunk, step_budget,
  step_concurrency, half_chunk, latency_rules, throughput_rules, queue_rule, balanced_rules,
  prefix_rules, goal_rules, draft, has_updates, propose,
}

-- A value within limits, where there is one.
abbrev pub Within : ℕ → ℕ → Option ℕ → Type 0
Within minimum maximum none = Unit {0}
Within minimum maximum (some n) = (minimum ≤ n) × (n ≤ maximum)

-- The limits of a policy leave room.
pub record PolicyValid (policy : PolicyConfig) : Type 0 where
  pub chunk_min : 1 ≤ policy.min_prefill_chunk_size
  pub chunk : policy.min_prefill_chunk_size ≤ policy.max_prefill_chunk_size
  pub budget_min : 1 ≤ policy.min_max_tokens_per_step
  pub budget : policy.min_max_tokens_per_step ≤ policy.max_max_tokens_per_step
  pub concurrency_min : 1 ≤ policy.min_max_concurrent_requests
  pub concurrency : policy.min_max_concurrent_requests ≤ policy.max_max_concurrent_requests

-- Each proposed number is within the policy's limits; with a cache neither the concurrency nor a
-- flag of the cache changes.
pub record Sound (policy : PolicyConfig) (cached : Bool) (c : Changes) : Type 0 where
  pub chunk_within :
      Within policy.min_prefill_chunk_size policy.max_prefill_chunk_size c.prefill_chunk_size
  pub budget_within :
      Within policy.min_max_tokens_per_step policy.max_max_tokens_per_step c.max_tokens_per_step
  pub concurrency_within :
      Within policy.min_max_concurrent_requests policy.max_max_concurrent_requests
        c.max_concurrent_requests
  pub concurrency_fixed : cached ≡ true → c.max_concurrent_requests ≡ none
  pub prefix_fixed : cached ≡ true → c.use_prefix_cache ≡ none
  pub paged_fixed : c.use_paged_kv_cache ≡ none

-- What holds of the result of `propose`.
abbrev pub Proposed :
    PolicyConfig → Bool → EngineConfig → WorkloadLabels → Option TuningPlan → Type 0
Proposed policy cached current labels none = Unit {0}
Proposed policy cached current labels (some plan) =
    Sound policy cached plan.changes
    × (plan.config ≡ apply_updates current plan.changes)
    × (has_updates policy current labels plan.changes ≡ true)
    × (validate_engine_config plan.changes.max_concurrent_requests plan.changes.prefill_chunk_size
          plan.changes.max_tokens_per_step
        ≡ ok tt)

step_int-Within :
    (current : ℕ) (delta : ℤ) (minimum maximum : ℕ)
    → minimum ≤ maximum
    → Within minimum maximum (step_int current delta minimum maximum)
unfolding step_int
step_int-Within current delta minimum maximum h =
    let n = max minimum (min maximum (shifted current delta)) in
    if-keeps (Within minimum maximum) (is_zero delta) none _ (λ e. tt)
      (if-keeps (Within minimum maximum) (n == current) none (some n) (λ e. tt)
        (omega arith, omega arith))

pub positive :
    (o : Option ℕ) (minimum maximum : ℕ)
    → 1 ≤ minimum
    → Within minimum maximum o
    → is_given_zero o ≡ false
positive none minimum maximum h w = refl
positive (some zero) minimum maximum h w = absurd (omega arith)
positive (some (suc n)) minimum maximum h w = refl

module _ (policy : PolicyConfig) (cached : Bool) where
  abbrev SoundDraft : Draft → Type 0
  SoundDraft d = Sound policy cached d.updates

  put_chunk-Sound :
      (o : Option ℕ) (reason : _) (d : Draft)
      → Within policy.min_prefill_chunk_size policy.max_prefill_chunk_size o
      → SoundDraft d
      → SoundDraft (put_chunk o reason d)
  put_chunk-Sound none reason d w s = s
  put_chunk-Sound (some n) reason d w s = record {
    chunk_within = w;
    budget_within = s.budget_within;
    concurrency_within = s.concurrency_within;
    concurrency_fixed = s.concurrency_fixed;
    prefix_fixed = s.prefix_fixed;
    paged_fixed = s.paged_fixed;
  }

  put_budget-Sound :
      (o : Option ℕ) (reason : _) (d : Draft)
      → Within policy.min_max_tokens_per_step policy.max_max_tokens_per_step o
      → SoundDraft d
      → SoundDraft (put_budget o reason d)
  put_budget-Sound none reason d w s = s
  put_budget-Sound (some n) reason d w s = record {
    chunk_within = s.chunk_within;
    budget_within = w;
    concurrency_within = s.concurrency_within;
    concurrency_fixed = s.concurrency_fixed;
    prefix_fixed = s.prefix_fixed;
    paged_fixed = s.paged_fixed;
  }

  put_concurrency-Sound :
      (o : Option ℕ) (reason : _) (d : Draft)
      → Within policy.min_max_concurrent_requests policy.max_max_concurrent_requests o
      → cached ≡ false
      → SoundDraft d
      → SoundDraft (put_concurrency o reason d)
  put_concurrency-Sound none reason d w c s = s
  put_concurrency-Sound (some n) reason d w c s = record {
    chunk_within = s.chunk_within;
    budget_within = s.budget_within;
    concurrency_within = w;
    concurrency_fixed = λ e. absurd (ground arith);
    prefix_fixed = s.prefix_fixed;
    paged_fixed = s.paged_fixed;
  }

  module _ (current : EngineConfig) (labels : WorkloadLabels) (valid : PolicyValid policy) where
    step_chunk-Within :
        (delta : ℤ)
        → Within policy.min_prefill_chunk_size policy.max_prefill_chunk_size
            (step_chunk policy current labels delta)
    unfolding step_chunk
    step_chunk-Within delta = step_int-Within current.prefill_chunk_size delta _ _ valid.chunk

    step_budget-Within :
        (delta : ℤ)
        → Within policy.min_max_tokens_per_step policy.max_max_tokens_per_step
            (step_budget policy current labels delta)
    unfolding step_budget
    step_budget-Within delta = step_int-Within current.max_tokens_per_step delta _ _ valid.budget

    step_concurrency-Within :
        (delta : ℤ)
        → Within policy.min_max_concurrent_requests policy.max_max_concurrent_requests
            (step_concurrency policy current labels delta)
    unfolding step_concurrency
    step_concurrency-Within delta =
        step_int-Within current.max_concurrent_requests delta _ _ valid.concurrency

    latency_rules-Sound :
        (d : Draft) → SoundDraft d → SoundDraft (latency_rules policy current labels d)
    unfolding latency_rules
    latency_rules-Sound d s =
        let s' =
          if-keeps SoundDraft (labels.latency_sensitive || labels.queue_high) _ d
            (λ e.
              put_chunk-Sound _ "reduce prefill chunk size for lower TTFT" d (step_chunk-Within _)
                s)
            s in
        if-keeps SoundDraft labels.latency_sensitive _ _
          (λ e.
            put_budget-Sound _ "lower token budget to interleave decode sooner" _
              (step_budget-Within _) s')
          s'

    queue_rule-Sound :
        (b : Bool) (d : Draft)
        → cached ≡ b
        → SoundDraft d
        → SoundDraft (queue_rule policy current labels b d)
    unfolding queue_rule
    queue_rule-Sound false d c s =
        put_concurrency-Sound _ "raise concurrency to reduce queue wait" d
          (step_concurrency-Within (pos policy.concurrency_step)) c s
    queue_rule-Sound true d c s =
        if-keeps SoundDraft (is_given d.updates.prefill_chunk_size) d _ (λ e. s)
          (put_chunk-Sound _ "reduce prefill chunks while queue is high" d
            (step_chunk-Within (half_chunk policy current labels)) s)

    balanced_rules-Sound :
        (d : Draft) → SoundDraft d → SoundDraft (balanced_rules policy current labels cached d)
    unfolding balanced_rules
    balanced_rules-Sound d s =
        let chunk = step_chunk-Within (half_chunk policy current labels) in
        let s1 =
          if-keeps SoundDraft labels.latency_sensitive _ d
            (λ e. put_chunk-Sound _ "trim prefill chunks to protect latency" d chunk s) s in
        let s2 =
          if-keeps SoundDraft labels.throughput_low _ _
            (λ e.
              put_budget-Sound _ "nudge token budget up for throughput" _
                (step_budget-Within (pos (max (policy.token_budget_step / 2) 1))) s1)
            s1 in
        if-keeps SoundDraft labels.queue_high _ _ (λ e. queue_rule-Sound cached _ refl s2) s2

    throughput_rules-Sound :
        (d : Draft) → SoundDraft d → SoundDraft (throughput_rules policy current labels cached d)
    unfolding throughput_rules
    throughput_rules-Sound d s =
        let s' =
          if-keeps SoundDraft (labels.queue_high && not cached) _ d
            (λ e.
              put_concurrency-Sound _ "raise concurrency to drain queue" d
                (step_concurrency-Within (pos policy.concurrency_step)) (ground arith) s)
            s in
        if-keeps SoundDraft labels.throughput_low _ _
          (λ e.
            put_budget-Sound _ "raise token budget for higher throughput" _
              (step_budget-Within (pos policy.token_budget_step)) s')
          s'

    prefix_rules-Sound :
        (d : Draft) → SoundDraft d → SoundDraft (prefix_rules policy current labels cached d)
    unfolding prefix_rules
    prefix_rules-Sound d s =
        if-keeps SoundDraft _ _ d
          (λ h. record {
            chunk_within = s.chunk_within;
            budget_within = s.budget_within;
            concurrency_within = s.concurrency_within;
            concurrency_fixed = s.concurrency_fixed;
            prefix_fixed = λ e. absurd (ground arith);
            paged_fixed = s.paged_fixed;
          })
          s

    goal_rules-Sound :
        (goal : TuningGoal) (d : Draft)
        → SoundDraft d
        → SoundDraft (goal_rules policy current labels goal cached d)
    goal_rules-Sound TuningGoal.latency = latency_rules-Sound
    goal_rules-Sound TuningGoal.throughput = throughput_rules-Sound
    goal_rules-Sound TuningGoal.balanced = balanced_rules-Sound

    draft-Sound : (goal : TuningGoal) → SoundDraft (draft policy current labels goal cached)
    draft-Sound goal = prefix_rules-Sound _ (
        goal_rules-Sound goal empty_draft (record {
          chunk_within = tt;
          budget_within = tt;
          concurrency_within = tt;
          concurrency_fixed = λ e. refl;
          prefix_fixed = λ e. refl;
          paged_fixed = refl;
        }))

    Sound-accepted :
        (c : Changes)
        → Sound policy cached c
        → validate_engine_config c.max_concurrent_requests c.prefill_chunk_size
            c.max_tokens_per_step
          ≡ ok tt
    unfolding validate_engine_config
    Sound-accepted c s = rw (
      positive c.max_concurrent_requests _ _ valid.concurrency_min s.concurrency_within,
      positive c.prefill_chunk_size _ _ valid.chunk_min s.chunk_within,
      positive c.max_tokens_per_step _ _ valid.budget_min s.budget_within,
    )

    pub propose-Proposed :
        (goal : TuningGoal)
        → Proposed policy cached current labels (propose policy current labels goal cached)
    unfolding propose
    propose-Proposed goal =
        let d = draft policy current labels goal cached in
        let s = draft-Sound goal in
        elim (Bool-cases labels.error_elevated) [
          | inl e ↦ rw e tt
          | inr e ↦ elim (Bool-cases (has_updates policy current labels d.updates)) [
            | inr none_left ↦ rw (e, none_left) tt
            | inl some_left ↦ rw (e, some_left) (s, refl, some_left, Sound-accepted d.updates s)
          ]
        ]
