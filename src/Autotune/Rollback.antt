-- ===== src/Autotune/Rollback.antt =====
-- src/autotune/controller.py: what an attempt and its rollback do to the engine's configuration.
use mathlib.Core.Path.{subst}
use nifre.Prelude.{
  ◌+◌, ◌≡◌, refl, sym, ap, ◌∙◌, ◌⊎◌, inl, inr, true, false, Option, none, some, or_else,
}
use nifre.Prelude.Exec.{Outcome, ok, raised, value_error, continue, pure}
use nifre.Prelude.Floats.{Floats}
use nifre.DataModel.{EngineConfig, Changes}
use nifre.Optimization.{record_rollback}
use nifre.Scheduler.Slots.{SlotsValid}
use nifre.Engine.Config.{config_of}
use nifre.Engine.Reconfigure.{changed, refused, reconfigure-Reconfigured}
use nifre.Autotune.Workload.{MetricsSnapshot}
use nifre.Autotune.Evaluation.{
  previous, rollback_changes, is_regression, is_improvement, evaluation_from_metrics,
}
use nifre.Autotune.Controller.{PendingAttempt, LastAction, System, apply_changes, rollback}
use nifre.Autotune.Tick.{take_back, finish_with, finish_evaluation, tick_with, tick}

or_else-previous : {A : Type 0} (o : Option A) (a : A) → or_else (previous o a) (or_else o a) ≡ a
or_else-previous none a = refl
or_else-previous (some b) a = refl

-- The changes of the rollback undo the changes.
changed-rollback :
    (c : Changes) (config : EngineConfig)
    → changed (rollback_changes c config) (changed c config) ≡ config
unfolding rollback_changes
changed-rollback c config =
    let a = or_else-previous c.max_concurrent_requests config.max_concurrent_requests in
    let b = or_else-previous c.prefill_chunk_size config.prefill_chunk_size in
    let d = or_else-previous c.max_tokens_per_step config.max_tokens_per_step in
    let p = or_else-previous c.use_paged_kv_cache config.use_paged_kv_cache in
    let q = or_else-previous c.use_prefix_cache config.use_prefix_cache in rw (a, b, d, p, q) refl

module _ {Cache W : Type 0} where
  -- The two ends of a rollback: the engine refuses, and the attempt stays open; or the attempt is
  -- closed, and the settings that it changed have their old values. Where nothing else has changed
  -- the configuration since, it is the old one.
  abbrev pub RolledBack :
      {A : Type 0} → PendingAttempt W → A → System Cache W → Outcome A × System Cache W → Type 0
  RolledBack attempt answer s out =
      let back = rollback_changes attempt.changes attempt.previous_config in
      ((refused back s.engine ≡ true)
        × (out.0 ≡ raised value_error)
        × (out.1.controller ≡ s.controller)
        × (out.1.tracker ≡ s.tracker))
      ⊎ ((refused back s.engine ≡ false)
          × (out.0 ≡ ok answer)
          × (out.1.controller.pending ≡ none)
          × (out.1.tracker.rolled_back ≡ s.tracker.rolled_back + 1)
          × SlotsValid out.1.engine.scheduler
          × (config_of out.1.engine ≡ changed back (config_of s.engine))
          × (config_of s.engine ≡ changed attempt.changes attempt.previous_config
              → config_of out.1.engine ≡ attempt.previous_config))

  module _ ⦃f : Floats W⦄ where
    take_back-RolledBack :
        (attempt : PendingAttempt W) (details : _) (now stamp : W) (s : System Cache W)
        → SlotsValid s.engine.scheduler
        → RolledBack attempt LastAction.rolled_back s (take_back attempt details now stamp s)
    unfolding take_back rollback apply_changes record_rollback
    take_back-RolledBack attempt details now stamp s valid =
        let back = rollback_changes attempt.changes attempt.previous_config in
        elim (reconfigure-Reconfigured back s.engine valid) [
          | inl (r, e) ↦ inl (r, rw e refl, rw e refl, rw e refl)
          | inr (r, e, config, valid', _, _) ↦ inr (
            r,
            rw e refl,
            rw e refl,
            rw e refl,
            rw e valid',
            rw e config,
            λ same. rw e (
                config
                ∙ ap (changed back) same
                ∙ changed-rollback attempt.changes attempt.previous_config),
          )
        ]

    -- The metrics are worse than those at the start of the attempt, or not better.
    abbrev pub Reverts : PendingAttempt W → System Cache W → MetricsSnapshot W → Type 0
    Reverts attempt s metrics =
        let config = s.controller.config in
        let current = evaluation_from_metrics metrics in
        (is_regression config attempt.baseline current s.controller.goal ≡ ok true)
        ⊎ ((is_regression config attempt.baseline current s.controller.goal ≡ ok false)
            × (is_improvement config attempt.baseline current s.controller.goal ≡ ok false))

    finish_with-RolledBack :
        (attempt : PendingAttempt W) (now stamp : W) (metrics : MetricsSnapshot W)
        (s : System Cache W)
        → Reverts attempt s metrics
        → SlotsValid s.engine.scheduler
        → RolledBack attempt LastAction.rolled_back s
            (finish_with (some attempt) now stamp metrics s)
    unfolding finish_with
    finish_with-RolledBack attempt now stamp metrics s reverts valid = elim reverts [
      | inl worse ↦ rw worse (take_back-RolledBack attempt _ now stamp s valid)
      | inr (not_worse, not_better) ↦
          rw (not_worse, not_better) (take_back-RolledBack attempt _ now stamp s valid)
    ]

    then_some-RolledBack :
        (attempt : PendingAttempt W) (s : System Cache W)
        (out : Outcome LastAction × System Cache W)
        → RolledBack attempt LastAction.rolled_back s out
        → RolledBack attempt
            (some LastAction.rolled_back)
            s
            (continue out.0 (λ a. pure (some a)) out.1)
    then_some-RolledBack attempt s out r = elim r [
      | inl (refuses, e, c, t) ↦ inl (refuses, rw e refl, rw e c, rw e t)
      | inr (accepts, e, p, t, v, c, d) ↦
          inr (accepts, rw e refl, rw e p, rw e t, rw e v, rw e c, rw e d)
    ]

    -- At the end of the evaluation of an open attempt, with metrics that are worse or not better,
    -- for an engine whose slots each have one owner. If the engine refuses the old settings, the
    -- cycle raises ValueError and the controller is as before, with the attempt still open.
    -- Otherwise the attempt is closed and counted as rolled back, and each setting that it changed
    -- has its old value: if nothing else changed the configuration since, it is the old one.
    pub tick-RolledBack :
        (attempt : PendingAttempt W) (now stamp : W) (metrics : MetricsSnapshot W)
        (s : System Cache W)
        → s.controller.pending ≡ some attempt
        → f.le s.controller.config.evaluation_sec (f.sub now attempt.started_at) ≡ true
        → Reverts attempt s metrics
        → SlotsValid s.engine.scheduler
        → RolledBack attempt (some LastAction.rolled_back) s (tick now stamp metrics s)
    unfolding tick tick_with finish_evaluation
    tick-RolledBack attempt now stamp metrics s pending due reverts valid =
        let out = finish_with (some attempt) now stamp metrics s in
        subst
          (λ p.
            RolledBack attempt (some LastAction.rolled_back) s (tick_with p now stamp metrics s))
          (sym pending)
          (rw due (
            subst
              (λ p.
                let out = finish_with p now stamp metrics s in
                RolledBack attempt (some LastAction.rolled_back) s
                  (continue out.0 (λ a. pure (some a)) out.1))
              (sym pending)
              (then_some-RolledBack attempt s out
                (finish_with-RolledBack attempt now stamp metrics s reverts valid))))
