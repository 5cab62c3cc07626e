-- ===== src/Worker.antt =====
-- src/inference/engine_worker.py: a thread that steps the engine, and clients that submit and wait.
-- What a thread does while it holds the lock is one step; the steps of all threads interleave. The
-- clock is an argument: `late` says whether the deadline of a call has passed.
pub mod Interleaving
pub mod Waiting
use nifre.Prelude.{ℕ, Bool, true, false, ◌||◌, List, Option, none, some, contains, if◌then◌else◌}
use nifre.Prelude.Exec.{
  Exec, Outcome, ok, raised, runtime_error, pure, raise, raise_if, get_state, modify, when, lift,
  ◌>>=◌, ◌>>◌,
}
use nifre.DataModel.{InferenceRequest, EngineConfig, Changes}
use nifre.Scheduler.{has_work}
use nifre.Engine.{Backend, Engine, add_request, register_token_callback, unregister_token_callback}
use nifre.Engine.Config
use nifre.Engine.Steps.{step, cancel_request}

-- `stopped` is the event, `started` and `alive` the state of the thread.
pub record Worker (Cache : Type 0) : Type 0 where
  pub engine : Engine Cache
  pub stopped : Bool
  pub started : Bool
  pub alive : Bool

module _ {Cache : Type 0} where
  abbrev pub new_worker : Engine Cache → Worker Cache
  new_worker e = record { engine = e; stopped = false; started = false; alive = false }

  abbrev pub set_engine : Worker Cache → Engine Cache → Worker Cache
  set_engine w e = record w { engine = e }

  abbrev pub on_engine : {A : Type 0} → Exec (Engine Cache) A → Exec (Worker Cache) A
  on_engine m w = let (r, e) = m w.engine in (r, set_engine w e)

  -- A thread can be started once: `Thread.start` raises the second time, after the event is cleared.
  unfoldable pub start : Exec (Worker Cache) (Unit {0})
  start w =
      if w.alive
      then (ok tt, w)
      else (do
        modify (λ w. record w { stopped = false })
        raise_if w.started runtime_error
        modify (λ w. record w { started = true; alive = true }))
          w

  -- The thread ends at its next test of the event.
  unfoldable pub stop : Exec (Worker Cache) (Unit {0})
  stop = modify (λ w. record w { stopped = true })

  -- The first sections of `generate` and of `generate_stream`.
  unfoldable pub submit : ℕ → List ℕ → ℕ → Exec (Worker Cache) (Unit {0})
  unfolding add_request
  submit id prompt max_new_tokens = on_engine (add_request id prompt max_new_tokens)

  unfoldable pub submit_stream : ℕ → List ℕ → ℕ → Exec (Worker Cache) (Unit {0})
  unfolding add_request register_token_callback
  submit_stream id prompt max_new_tokens =
      on_engine (do add_request id prompt max_new_tokens; modify (register_token_callback id))

  -- `finished` of `generate_stream`, and its last section.
  unfoldable pub finished : ℕ → Exec (Worker Cache) Bool
  finished id = do
    w ← get_state
    pure (contains w.engine.scheduler.completed id || contains w.engine.scheduler.failed id)

  unfoldable pub close_stream : ℕ → Exec (Worker Cache) (Unit {0})
  unfolding unregister_token_callback
  close_stream id = on_engine (modify (unregister_token_callback id))

  unfoldable pub reconfigure : Changes → Exec (Worker Cache) EngineConfig
  unfolding Config.reconfigure
  reconfigure changes = on_engine (Config.reconfigure changes)

module _ {Cache : Type 0} (backend : Backend Cache) where
  -- `failed[request_id]` after a cancellation that has not raised.
  unfoldable pub time_out : ℕ → Exec (Worker Cache) (Option InferenceRequest)
  unfolding cancel_request
  time_out id = do
    on_engine (cancel_request backend id "timeout")
    w ← get_state
    pure (some (w.engine.scheduler.requests id))

  -- One section of the loop of `generate`; none where the loop goes on.
  unfoldable pub poll : ℕ → Bool → Exec (Worker Cache) (Option InferenceRequest)
  unfolding time_out
  poll id late w =
      let s = w.engine.scheduler in
      if contains s.completed id
      then (ok (some (s.requests id)), w)
      else if contains s.failed id
      then (ok (some (s.requests id)), w)
      else if late
      then time_out id w
      else (ok none, w)

  unfoldable pub generate_round : ℕ → Bool → Exec (Worker Cache) (Option InferenceRequest)
  unfolding poll
  generate_round id late w = if w.stopped then (raised runtime_error, w) else poll id late w

  abbrev pub ended : Worker Cache → Worker Cache
  ended w = record w { alive = false }

  -- The thread ends also when a step raises, since the loop catches nothing.
  abbrev pub after_step : Outcome Bool × Engine Cache → Worker Cache → Worker Cache
  after_step (ok worked, e) w = set_engine w e
  after_step (raised err, e) w = ended (set_engine w e)

  -- One round of `_loop`; without work it waits.
  unfoldable pub loop_round : Worker Cache → Worker Cache
  unfolding has_work step
  loop_round w =
      if w.stopped
      then ended w
      else if has_work w.engine.scheduler
      then after_step (step backend w.engine) w
      else w
