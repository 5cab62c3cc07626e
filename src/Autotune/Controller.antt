-- ===== src/Autotune/Controller.antt =====
-- src/autotune/controller.py. A method works on the controller, its engine and the tracker of
-- experiments; the lock of the worker, where there is one, changes nothing of what a call does.
-- The clock, the metrics and whether the thread is alive are arguments. `stamp` is the time that
-- the tracker writes into an event.
use Prim.Native.String.{String}
use nifre.Prelude.{Bool, true, false, ◌&&◌, List, Option, none, some, if◌then◌else◌}
use nifre.Prelude.Exec.{Exec, Outcome, Error, ok, raised, get_state, modify, lift, ◌>>=◌}
use nifre.Prelude.Floats.{Floats, zero_float}
use nifre.DataModel.{EngineConfig, Changes}
use nifre.Policy.{PolicyConfig, default_policy}
use nifre.Optimization.{Tracker}
use nifre.Engine.{Engine}
use nifre.Engine.Config.{reconfigure}
use nifre.Autotune.Evaluation.{
  ControllerConfig, EvaluationSnapshot, Goal, known, as_goal, parse_goal, rollback_changes,
  default_controller_config,
}
use nifre.Autotune.Classifier.{WorkloadClassifier, default_classifier_config, new_classifier}

pub record PendingAttempt (W : Type 0) : Type 0 where
  pub name : String
  pub reason : List String
  pub previous_config : EngineConfig
  pub baseline : EvaluationSnapshot W
  pub started_at : W
  pub changes : Changes

-- The strings of `_last_action`.
pub data LastAction : Type 0 where
  attempted promoted rolled_back error : LastAction

-- `_last_reason`: the reason of a plan, or the text of an exception.
pub data Reason : Type 0 where
  planned : List String → Reason
  text_of : Error → Reason

-- `has_thread`: `_thread` is not None.
pub record TuningController (W : Type 0) : Type 0 where
  pub goal : Goal
  pub config : ControllerConfig W
  pub classifier : WorkloadClassifier W
  pub policy : PolicyConfig
  pub pending : Option (PendingAttempt W)
  pub last_attempt_at : W
  pub last_action : Option LastAction
  pub last_reason : Option Reason
  pub enabled : Bool
  pub stopped : Bool
  pub has_thread : Bool

pub record System (Cache W : Type 0) : Type 0 where
  pub controller : TuningController W
  pub engine : Engine Cache
  pub tracker : Tracker W

module _ {W : Type 0} ⦃f : Floats W⦄ where
  abbrev pub new_controller : Goal → TuningController W
  new_controller goal = record {
    goal = goal;
    config = default_controller_config;
    classifier = new_classifier default_classifier_config;
    policy = default_policy;
    pending = none;
    last_attempt_at = zero_float;
    last_action = none;
    last_reason = none;
    enabled = false;
    stopped = false;
    has_thread = false;
  }

module _ {W : Type 0} where
  abbrev pub attempt_started : PendingAttempt W → W → TuningController W → TuningController W
  attempt_started attempt now c = record c {
    pending = some attempt;
    last_attempt_at = now;
    last_action = some LastAction.attempted;
    last_reason = some (Reason.planned attempt.reason);
  }

  abbrev pub attempt_done : LastAction → List String → W → TuningController W → TuningController W
  attempt_done action reason now c = record c {
    pending = none;
    last_attempt_at = now;
    last_action = some action;
    last_reason = some (Reason.planned reason);
  }

  -- `start`, `stop` and `set_enabled`. `alive` is what `is_alive` says of the thread; the join of
  -- `stop` may time out, and the thread is forgotten nevertheless.
  unfoldable pub start : Bool → Exec (TuningController W) (Unit {0})
  unfolding parse_goal
  start alive = do
    c ← get_state
    if c.has_thread && alive then modify (λ c. record c { enabled = true }) else (do
      goal ← lift (as_goal c.goal)
      modify
          (λ c. record c { goal = known goal; stopped = false; enabled = true; has_thread = true }))

  unfoldable pub stop : Exec (TuningController W) (Unit {0})
  stop = modify (λ c. record c { enabled = false; stopped = true; has_thread = false })

  unfoldable pub set_enabled : Bool → Bool → Exec (TuningController W) (Unit {0})
  unfolding start stop
  set_enabled enabled alive = if enabled then start alive else stop

  unfoldable pub set_goal : Goal → Exec (TuningController W) (Unit {0})
  unfolding parse_goal
  set_goal goal = do g ← lift (as_goal goal); modify (λ c. record c { goal = known g })

module _ {Cache W : Type 0} where
  abbrev pub set_controller : System Cache W → TuningController W → System Cache W
  set_controller s c = record s { controller = c }

  abbrev pub on_classifier : {A : Type 0} → Exec (WorkloadClassifier W) A → Exec (System Cache W) A
  on_classifier m s =
      let (r, c) = m s.controller.classifier in
      (r, set_controller s (record s.controller { classifier = c }))

  abbrev pub on_tracker : (Tracker W → Tracker W) → Exec (System Cache W) (Unit {0})
  on_tracker g = modify (λ s. record s { tracker = g s.tracker })

  abbrev pub applied :
      Outcome EngineConfig → Engine Cache → System Cache W → Outcome (Unit {0}) × System Cache W
  applied (ok config) e s = (ok tt, record s { engine = e })
  applied (raised err) e s = (raised err, record s { engine = e })

  -- `_apply_changes`; what `reconfigure` returns is not used.
  unfoldable pub apply_changes : Changes → Exec (System Cache W) (Unit {0})
  unfolding reconfigure
  apply_changes changes s = let (r, e) = reconfigure changes s.engine in applied r e s

  unfoldable pub rollback : PendingAttempt W → Exec (System Cache W) (Unit {0})
  unfolding apply_changes rollback_changes
  rollback attempt = apply_changes (rollback_changes attempt.changes attempt.previous_config)
