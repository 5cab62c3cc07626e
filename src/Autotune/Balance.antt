-- ===== src/Autotune/Balance.antt =====
-- src/autotune/controller.py: each attempt that is counted is open, or counted as promoted or as
-- rolled back.
use nifre.Prelude.{
  ℕ, ◌+◌, ◌≤◌, ◌≡◌, refl, ap, ◌∙◌, inl, inr, Bool, true, false, Option, none, some, ltb, Bool-cases,
  arith,
}
use nifre.Prelude.Exec.{Outcome, ok, raised, Error, Outcome-cases, continue, pure}
use nifre.Prelude.Floats.{Floats}
use nifre.DataModel.{EngineConfig}
use nifre.Policy.{TuningPlan}
use nifre.Optimization.{record_attempt, record_promotion, record_rollback}
use nifre.Engine.Config.{config_of, has_cache, reconfigure}
use nifre.Autotune.Workload.{MetricsSnapshot, workload_snapshot_from_metrics, get_or}
use nifre.Autotune.Classifier.{observe}
use nifre.Autotune.Evaluation.{
  is_regression, is_improvement, evaluation_from_metrics, EvaluationSnapshot, rollback_changes,
}
use nifre.Autotune.Controller.{PendingAttempt, System, apply_changes, rollback}
use nifre.Autotune.Tick.{
  propose_for, start_attempt, follow, maybe_start_attempt, take_back, promote, settle, judge,
  finish_with, finish_evaluation, evaluate_after, tick_with, tick,
}

abbrev pub open_attempts : {A : Type 0} → Option A → ℕ
open_attempts none = 0
open_attempts (some a) = 1

module _ {Cache W : Type 0} where
  -- The attempts that are accounted for.
  abbrev pub accounted : System Cache W → ℕ
  accounted s = s.tracker.promoted + s.tracker.rolled_back + open_attempts s.controller.pending

  -- A method that returns accounts for as many attempts more as it counts more. One that raises
  -- leaves the open attempt as it was, and accounts for no more than it counts.
  pub record Balanced {A : Type 0} (s : System Cache W) (out : Outcome A × System Cache W)
      : Type 0 where
    pub fair : accounted out.1 + s.tracker.attempted ≤ accounted s + out.1.tracker.attempted
    pub exact :
        (a : A)
        → out.0 ≡ ok a
        → accounted out.1 + s.tracker.attempted ≡ accounted s + out.1.tracker.attempted
    pub kept : (e : Error) → out.0 ≡ raised e → out.1.controller.pending ≡ s.controller.pending

  same-Balanced : {A : Type 0} (s : System Cache W) (r : Outcome A) → Balanced s (r, s)
  same-Balanced s r = record { fair = omega arith; exact = λ a e. refl; kept = λ e h. refl }

  -- From another start with the same tracker and the same open attempt.
  moved-Balanced :
      {A : Type 0} (s s' : System Cache W) {out : Outcome A × System Cache W}
      → Balanced s' out
      → s'.tracker ≡ s.tracker
      → s'.controller.pending ≡ s.controller.pending
      → Balanced s out
  moved-Balanced s s' b t p = record {
    fair = omega (
      arith,
      b.fair,
      ap (λ r. r.promoted) t,
      ap (λ r. r.rolled_back) t,
      ap (λ r. r.attempted) t,
      ap open_attempts p,
    );
    exact = λ a h. omega (
      arith,
      b.exact a h,
      ap (λ r. r.promoted) t,
      ap (λ r. r.rolled_back) t,
      ap (λ r. r.attempted) t,
      ap open_attempts p,
    );
    kept = λ e h. b.kept e h ∙ p;
  }

  then-Balanced :
      {A B : Type 0} (g : A → B) (s : System Cache W) (r : Outcome A) (s' : System Cache W)
      → Balanced s (r, s')
      → Balanced s (continue r (λ a. pure (g a)) s')
  then-Balanced g s (ok a) s' b = record {
    fair = b.fair;
    exact = λ c h. b.exact a refl;
    kept = λ e h. cc;
  }
  then-Balanced g s (raised err) s' b = record {
    fair = b.fair;
    exact = λ c h. cc;
    kept = λ e h. b.kept err refl;
  }

  module _ ⦃f : Floats W⦄ where
    start_attempt-Balanced :
        (now stamp : W) (metrics : MetricsSnapshot W) (current : EngineConfig) (plan : TuningPlan)
        (s : System Cache W)
        → s.controller.pending ≡ none
        → Balanced s (start_attempt now stamp metrics current plan s)
    unfolding start_attempt apply_changes record_attempt
    start_attempt-Balanced now stamp metrics current plan s free =
        elim (Outcome-cases (reconfigure plan.changes s.engine).0) [
          | inl (c, e) ↦ rw e record {
            fair = omega (arith, ap open_attempts free);
            exact = λ a h. omega (arith, ap open_attempts free);
            kept = λ err h. cc;
          }
          | inr (err, e) ↦
              rw e record { fair = omega arith; exact = λ a h. cc; kept = λ err h. refl }
        ]

    take_back-Balanced :
        (attempt : PendingAttempt W) (details : _) (now stamp : W) (s : System Cache W)
        → s.controller.pending ≡ some attempt
        → Balanced s (take_back attempt details now stamp s)
    unfolding take_back rollback apply_changes record_rollback
    take_back-Balanced attempt details now stamp s pending =
        let back = rollback_changes attempt.changes attempt.previous_config in
        elim (Outcome-cases (reconfigure back s.engine).0) [
          | inl (c, e) ↦ rw e record {
            fair = omega (arith, ap open_attempts pending);
            exact = λ a h. omega (arith, ap open_attempts pending);
            kept = λ err h. cc;
          }
          | inr (err, e) ↦
              rw e record { fair = omega arith; exact = λ a h. cc; kept = λ err h. refl }
        ]

    promote-Balanced :
        (attempt : PendingAttempt W) (now stamp : W) (s : System Cache W)
        → s.controller.pending ≡ some attempt
        → Balanced s (promote attempt now stamp s)
    unfolding promote record_promotion
    promote-Balanced attempt now stamp s pending = record {
      fair = omega (arith, ap open_attempts pending);
      exact = λ a h. omega (arith, ap open_attempts pending);
      kept = λ err h. cc;
    }

    settle-Balanced :
        (attempt : PendingAttempt W) (better : Bool) (now stamp : W) (s : System Cache W)
        → s.controller.pending ≡ some attempt
        → Balanced s (settle attempt better now stamp s)
    settle-Balanced attempt true now stamp s pending = promote-Balanced attempt now stamp s pending
    settle-Balanced attempt false now stamp s pending =
        take_back-Balanced attempt _ now stamp s pending

    judge-Balanced :
        (attempt : PendingAttempt W) (current : EvaluationSnapshot W) (worse : Bool) (now stamp : W)
        (s : System Cache W)
        → s.controller.pending ≡ some attempt
        → Balanced s (judge attempt current worse now stamp s)
    judge-Balanced attempt current true now stamp s pending =
        take_back-Balanced attempt _ now stamp s pending
    judge-Balanced attempt current false now stamp s pending =
        elim (Outcome-cases
          (is_improvement s.controller.config attempt.baseline current s.controller.goal)) [
            | inl (better, e) ↦ rw e (settle-Balanced attempt better now stamp s pending)
            | inr (err, e) ↦ rw e (same-Balanced s (raised err))
          ]

    finish_with-Balanced :
        (pending : Option (PendingAttempt W)) (now stamp : W) (metrics : MetricsSnapshot W)
        (s : System Cache W)
        → s.controller.pending ≡ pending
        → Balanced s (finish_with pending now stamp metrics s)
    unfolding finish_with
    finish_with-Balanced none now stamp metrics s pending = same-Balanced s (raised _)
    finish_with-Balanced (some attempt) now stamp metrics s pending =
        let current = evaluation_from_metrics metrics in
        elim (Outcome-cases
          (is_regression s.controller.config attempt.baseline current s.controller.goal)) [
            | inl (worse, e) ↦ rw e (judge-Balanced attempt current worse now stamp s pending)
            | inr (err, e) ↦ rw e (same-Balanced s (raised err))
          ]

    follow-Balanced :
        (now stamp : W) (metrics : MetricsSnapshot W) (current : EngineConfig)
        (plan : Option TuningPlan) (s : System Cache W)
        → s.controller.pending ≡ none
        → Balanced s (follow now stamp metrics current plan s)
    follow-Balanced now stamp metrics current none s free = same-Balanced s (ok none)
    follow-Balanced now stamp metrics current (some plan) s free =
        start_attempt-Balanced now stamp metrics current plan s free

    maybe_start_attempt-Balanced :
        (now stamp : W) (metrics : MetricsSnapshot W) (s : System Cache W)
        → s.controller.pending ≡ none
        → Balanced s (maybe_start_attempt now stamp metrics s)
    unfolding maybe_start_attempt
    maybe_start_attempt-Balanced now stamp metrics s free =
        let workload = workload_snapshot_from_metrics metrics in
        let seen = observe workload s.controller.classifier in
        let s' = record s { controller = record s.controller { classifier = seen.1 } } in
        elim (Bool-cases (
          ltb (get_or metrics.request_health (λ h. h.completed_requests) 0)
            s.controller.config.min_completed_requests)) [
              | inl few ↦ rw few (same-Balanced s (ok none))
              | inr enough ↦ elim (Outcome-cases seen.0) [
                | inr (err, e) ↦
                    rw (enough, e) (moved-Balanced s s' (same-Balanced s' (raised err)) refl refl)
                | inl (labels, e) ↦
                    elim (Outcome-cases (
                      propose_for s.controller.goal s.controller.policy (config_of s.engine) labels
                        (has_cache s.engine))) [
                          | inr (err, e') ↦
                              rw (enough, e, e')
                                (moved-Balanced s s' (same-Balanced s' (raised err)) refl refl)
                          | inl (plan, e') ↦
                              rw (enough, e, e')
                                (moved-Balanced s s'
                                  (follow-Balanced now stamp metrics (config_of s.engine) plan s'
                                    free)
                                  refl refl)
                        ]
              ]
            ]

    evaluate_after-Balanced :
        (attempt : PendingAttempt W) (now stamp : W) (metrics : MetricsSnapshot W)
        (s : System Cache W)
        → Balanced s (evaluate_after attempt now stamp metrics s)
    unfolding finish_evaluation
    evaluate_after-Balanced attempt now stamp metrics s =
        let out = finish_with s.controller.pending now stamp metrics s in
        elim (Bool-cases (f.le s.controller.config.evaluation_sec (f.sub now attempt.started_at))) [
          | inr early ↦ rw early (same-Balanced s (ok none))
          | inl due ↦ rw due (
              then-Balanced some s out.0 out.1
                (finish_with-Balanced s.controller.pending now stamp metrics s refl))
        ]

    tick_with-Balanced :
        (pending : Option (PendingAttempt W)) (now stamp : W) (metrics : MetricsSnapshot W)
        (s : System Cache W)
        → s.controller.pending ≡ pending
        → Balanced s (tick_with pending now stamp metrics s)
    unfolding tick_with
    tick_with-Balanced (some attempt) now stamp metrics s e =
        evaluate_after-Balanced attempt now stamp metrics s
    tick_with-Balanced none now stamp metrics s e =
        elim (Bool-cases
          (f.lt (f.sub now s.controller.last_attempt_at) s.controller.config.cooldown_sec)) [
            | inl cooling ↦ rw cooling (same-Balanced s (ok none))
            | inr over ↦ rw over (maybe_start_attempt-Balanced now stamp metrics s e)
          ]

    -- A cycle of the controller, at any time, with any metrics, engine and goal. When it returns,
    -- the promoted, the rolled back and the open attempts have grown by as much as the attempts
    -- counted. When it raises, they have grown by no more, and the open attempt is the one before.
    pub tick-Balanced :
        (now stamp : W) (metrics : MetricsSnapshot W) (s : System Cache W)
        → Balanced s (tick now stamp metrics s)
    unfolding tick
    tick-Balanced now stamp metrics s =
        tick_with-Balanced s.controller.pending now stamp metrics s refl
