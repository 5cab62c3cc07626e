-- ===== src/Autotune/Tick.antt =====
-- src/autotune/controller.py: the cycle of the controller.
use Prim.Native.String.{String, ◌++◌ as join_text}
use nifre.Prelude.{ltb, Bool, true, false, Option, none, some, if◌then◌else◌}
use nifre.Prelude.Exec.{
  Exec, Outcome, Error, ok, raised, assertion_error, pure, raise, get_state, modify, lift, ◌>>=◌,
  ◌>>◌,
}
use nifre.Prelude.Floats.{Floats}
use nifre.DataModel.{EngineConfig}
use nifre.Policy.{PolicyConfig, TuningPlan, WorkloadLabels, propose}
use nifre.Optimization.{record_attempt, record_promotion, record_rollback}
use nifre.Engine.Config.{config_of, has_cache}
use nifre.Autotune.Workload.{MetricsSnapshot, workload_snapshot_from_metrics, get_or}
use nifre.Autotune.Evaluation.{
  EvaluationSnapshot, Goal, as_goal, parse_goal, joined, attempt_name, evaluation_from_metrics,
  is_improvement, is_regression,
}
use nifre.Autotune.Classifier.{observe}
use nifre.Autotune.Controller.{
  PendingAttempt, LastAction, Reason, TuningController, System, set_controller, on_classifier,
  on_tracker, apply_changes, rollback, attempt_started, attempt_done,
}

-- `propose`, which reads the goal after the errors.
unfoldable pub propose_for :
    Goal → PolicyConfig → EngineConfig → WorkloadLabels → Bool → Outcome (Option TuningPlan)
unfolding propose parse_goal
propose_for goal policy current labels cached =
    if labels.error_elevated then ok none else elim (as_goal goal) [
      | raised e ↦ raised e
      | ok g ↦ ok (propose policy current labels g cached)
    ]

module _ {W : Type 0} ⦃f : Floats W⦄ where
  unfoldable pub new_attempt : W → MetricsSnapshot W → EngineConfig → TuningPlan → PendingAttempt W
  unfolding attempt_name evaluation_from_metrics
  new_attempt now metrics current plan = record {
    name = attempt_name plan.changes;
    reason = plan.reasons;
    previous_config = current;
    baseline = evaluation_from_metrics metrics;
    started_at = now;
    changes = plan.changes;
  }

module _ {W : Type 0} where
  -- One round of `_loop`, without the wait: an exception of `tick` is written down.
  abbrev pub note_error : Error → TuningController W → TuningController W
  note_error e c = record c {
    last_action = some LastAction.error;
    last_reason = some (Reason.text_of e);
  }

module _ {Cache W : Type 0} ⦃f : Floats W⦄ where
  -- What follows once there is a plan.
  unfoldable pub start_attempt :
      W
      → W
      → MetricsSnapshot W
      → EngineConfig
      → TuningPlan
      → Exec (System Cache W) (Option LastAction)
  unfolding new_attempt record_attempt apply_changes
  start_attempt now stamp metrics current plan =
      let attempt = new_attempt now metrics current plan in
      (do
        on_tracker (record_attempt attempt.name (joined "; " plan.reasons) stamp)
        apply_changes plan.changes
        modify (λ s. set_controller s (attempt_started attempt now s.controller))
        pure (some LastAction.attempted))

  abbrev pub follow :
      W
      → W
      → MetricsSnapshot W
      → EngineConfig
      → Option TuningPlan
      → Exec (System Cache W) (Option LastAction)
  follow now stamp metrics current none = pure none
  follow now stamp metrics current (some plan) = start_attempt now stamp metrics current plan

  unfoldable pub maybe_start_attempt :
      W → W → MetricsSnapshot W → Exec (System Cache W) (Option LastAction)
  unfolding workload_snapshot_from_metrics observe propose_for start_attempt
  maybe_start_attempt now stamp metrics s =
      let completed = get_or metrics.request_health (λ h. h.completed_requests) 0 in
      if ltb completed s.controller.config.min_completed_requests
      then (ok none, s)
      else (do
        labels ← on_classifier (observe (workload_snapshot_from_metrics metrics))
        s ← get_state
        plan ← lift (
            propose_for s.controller.goal s.controller.policy (config_of s.engine) labels
              (has_cache s.engine))
        follow now stamp metrics (config_of s.engine) plan)
          s

  -- The three ends of an evaluation.
  unfoldable pub take_back : PendingAttempt W → String → W → W → Exec (System Cache W) LastAction
  unfolding rollback record_rollback
  take_back attempt details now stamp = do
    rollback attempt
    on_tracker (record_rollback attempt.name details stamp)
    modify (λ s.
        set_controller s (attempt_done LastAction.rolled_back attempt.reason now s.controller))
    pure LastAction.rolled_back

  unfoldable pub promote : PendingAttempt W → W → W → Exec (System Cache W) LastAction
  unfolding record_promotion
  promote attempt now stamp = do
    on_tracker (record_promotion attempt.name (joined "; " attempt.reason) stamp)
    modify
        (λ s. set_controller s (attempt_done LastAction.promoted attempt.reason now s.controller))
    pure LastAction.promoted

  abbrev pub settle : PendingAttempt W → Bool → W → W → Exec (System Cache W) LastAction
  settle attempt true now stamp = promote attempt now stamp
  settle attempt false now stamp =
      take_back attempt (join_text "neutral result, reverted: " (joined "; " attempt.reason)) now
        stamp

  abbrev pub judge :
      PendingAttempt W → EvaluationSnapshot W → Bool → W → W → Exec (System Cache W) LastAction
  judge attempt current true now stamp =
      take_back attempt (join_text "regression vs baseline: " (joined "; " attempt.reason)) now
        stamp
  judge attempt current false now stamp = do
    s ← get_state
    better ← lift (is_improvement s.controller.config attempt.baseline current s.controller.goal)
    settle attempt better now stamp

  unfoldable pub finish_with :
      Option (PendingAttempt W) → W → W → MetricsSnapshot W → Exec (System Cache W) LastAction
  unfolding evaluation_from_metrics is_regression is_improvement take_back promote
  finish_with none now stamp metrics = raise assertion_error
  finish_with (some attempt) now stamp metrics = do
    s ← get_state
    let current = evaluation_from_metrics metrics
    worse ← lift (is_regression s.controller.config attempt.baseline current s.controller.goal)
    judge attempt current worse now stamp

  unfoldable pub finish_evaluation : W → W → MetricsSnapshot W → Exec (System Cache W) LastAction
  unfolding finish_with
  finish_evaluation now stamp metrics = do
    s ← get_state
    finish_with s.controller.pending now stamp metrics

  abbrev pub evaluate_after :
      PendingAttempt W → W → W → MetricsSnapshot W → Exec (System Cache W) (Option LastAction)
  unfolding finish_evaluation
  evaluate_after attempt now stamp metrics s =
      if f.le s.controller.config.evaluation_sec (f.sub now attempt.started_at)
      then (do action ← finish_evaluation now stamp metrics; pure (some action)) s
      else (ok none, s)

  unfoldable pub tick_with :
      Option (PendingAttempt W)
      → W
      → W
      → MetricsSnapshot W
      → Exec (System Cache W) (Option LastAction)
  unfolding maybe_start_attempt finish_evaluation
  tick_with (some attempt) now stamp metrics s = evaluate_after attempt now stamp metrics s
  tick_with none now stamp metrics s =
      if f.lt (f.sub now s.controller.last_attempt_at) s.controller.config.cooldown_sec
      then (ok none, s)
      else maybe_start_attempt now stamp metrics s

  unfoldable pub tick : W → W → MetricsSnapshot W → Exec (System Cache W) (Option LastAction)
  unfolding tick_with
  tick now stamp metrics s = tick_with s.controller.pending now stamp metrics s

  unfoldable pub loop_round : W → W → MetricsSnapshot W → System Cache W → System Cache W
  unfolding tick
  loop_round now stamp metrics s =
      let (r, s') = tick now stamp metrics s in
      elim r [ ok a ↦ s' | raised e ↦ set_controller s' (note_error e s'.controller) ]
