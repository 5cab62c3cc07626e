-- ===== src/Worker/Interleaving.antt =====
-- src/inference/engine_worker.py: every interleaving of the sections that hold the lock.
use nifre.Prelude.{
  ℕ, ◌≡◌, Bool, true, false, List, Option, none, some, inl, inr, contains, if-keeps, ==_refl, arith,
  contains-count,
}
use Prim.Native.String.{String}
use nifre.Prelude.Exec.{
  Exec, Outcome, ok, raised, continue, modify, runtime_error, bind-Keeps, raise_if-Keeps,
  modify-Keeps,
}
use nifre.DataModel.{Changes, InferenceRequest, new_request}
use nifre.Scheduler.{Scheduler, has_work, set_request}
use nifre.Scheduler.Slots.{SlotsValid, add_request-SlotsValid, slot_refs-absent}
use nifre.Scheduler.Cancellation.{cancel_request-outcome, dequeued, evicted}
use nifre.Engine.{
  run_on, set_scheduler, Backend, Engine, add_request, register_token_callback,
  unregister_token_callback,
}
use nifre.Engine.Steps.{step, cancel_request, reset_some}
use nifre.Engine.Slots.{step-SlotsValid}
use nifre.Engine.Refusal.{reconfigure-Keeps}
use nifre.Worker.{
  Worker, set_engine, start, stop, submit, submit_stream, close_stream, reconfigure, time_out, poll,
  after_step, loop_round,
}

-- A section of some thread. The id of a request is new: the code draws it at random. The waiting
-- loop tests the event before it takes the lock, so that it may still poll a stopped worker.
pub data Step {Cache : Type 0} (backend : Backend Cache)
    : Worker Cache → Worker Cache → Type 0 where
  looped : (w : Worker Cache) → w.alive ≡ true → Step backend w (loop_round backend w)
  submitted :
      (w : Worker Cache) (id : ℕ) (prompt : List ℕ) (n : ℕ)
      → contains w.engine.scheduler.waiting id ≡ false
      → contains w.engine.scheduler.running id ≡ false
      → Step backend w (submit id prompt n w).1
  streamed :
      (w : Worker Cache) (id : ℕ) (prompt : List ℕ) (n : ℕ)
      → contains w.engine.scheduler.waiting id ≡ false
      → contains w.engine.scheduler.running id ≡ false
      → Step backend w (submit_stream id prompt n w).1
  polled : (w : Worker Cache) (id : ℕ) (late : Bool) → Step backend w (poll backend id late w).1
  closed : (w : Worker Cache) (id : ℕ) → Step backend w (close_stream id w).1
  reconfigured : (w : Worker Cache) (changes : Changes) → Step backend w (reconfigure changes w).1
  begun : (w : Worker Cache) → Step backend w (start w).1
  halted : (w : Worker Cache) → Step backend w (stop w).1

pub data Reach {Cache : Type 0} (backend : Backend Cache) (w : Worker Cache)
    : Worker Cache → Type 0 where
  here : Reach backend w w
  next : {u v : Worker Cache} → Reach backend w u → Step backend u v → Reach backend w v

set_request-SlotsValid :
    (s : Scheduler) (id : ℕ) (r : InferenceRequest)
    → contains s.waiting id ≡ false
    → contains s.running id ≡ false
    → SlotsValid s
    → SlotsValid (set_request id r s)
set_request-SlotsValid s id r w n h = record {
  slots = λ k. ground (arith, h.slots k, slot_refs-absent s.requests k s.running id r n);
  distinct = h.distinct;
  active = λ j p. ground (arith, h.active j, contains-count s.running id);
  queued = λ j p. ground (arith, h.queued j, contains-count s.waiting id);
}

module _ {Cache : Type 0} where
  -- Each slot of the engine has one owner.
  abbrev pub WorkerValid : Worker Cache → Type 0
  WorkerValid w = SlotsValid w.engine.scheduler

module _ {Cache : Type 0} (backend : Backend Cache) where
  add_request-Valid :
      (e : Engine Cache) (id : ℕ) (prompt : List ℕ) (n : ℕ)
      → contains e.scheduler.waiting id ≡ false
      → contains e.scheduler.running id ≡ false
      → SlotsValid e.scheduler
      → SlotsValid (add_request id prompt n e).1.scheduler
  unfolding add_request new_request
  add_request-Valid e id prompt n w r h =
      let request = new_request prompt n e.prefill_chunk_size in
      let s = set_request id request e.scheduler in
      let slotless : (s.requests id).batch_idx ≡ none = ground (arith, ==_refl id) in
      add_request-SlotsValid id s w r slotless (set_request-SlotsValid e.scheduler id request w r h)

  run_on-Valid :
      {A : Type 0} (c : Option Cache) (m : Exec Cache A) (e : Engine Cache)
      → SlotsValid e.scheduler
      → SlotsValid (run_on c m e).1.scheduler
  run_on-Valid none m e h = h
  run_on-Valid (some c) m e h = h

  streamed-Valid :
      (e : Engine Cache) (id : ℕ) (o : Outcome (Unit {0}))
      → SlotsValid e.scheduler
      → SlotsValid (continue o (λ u. modify (register_token_callback id)) e).1.scheduler
  unfolding register_token_callback
  streamed-Valid e id (ok u) h = h
  streamed-Valid e id (raised err) h = h

  reset_some-Valid :
      (o : Option ℕ) (c : Option Cache) (e : Engine Cache)
      → SlotsValid e.scheduler
      → SlotsValid (reset_some backend o c e).1.scheduler
  reset_some-Valid (some slot) (some c) e h = run_on-Valid e.cache (backend.reset_slot slot) e h
  reset_some-Valid (some slot) none e h = h
  reset_some-Valid none c e h = h

  cancel_request-Valid :
      (e : Engine Cache) (id : ℕ) (status : String)
      → SlotsValid e.scheduler
      → SlotsValid (cancel_request backend id status e).1.scheduler
  unfolding cancel_request
  cancel_request-Valid e id status h = elim (cancel_request-outcome e.scheduler id status h) [
    | inl (w, e', v) ↦
        rw e' (reset_some-Valid _ e.cache (set_scheduler e (dequeued id status e.scheduler)) v)
    | inr (inl (r, slot, b, e', v, b')) ↦
        rw e' (reset_some-Valid _ e.cache (set_scheduler e (evicted id status slot e.scheduler)) v)
    | inr (inr (w, r, e')) ↦ rw e' h
  ]

  timed-Valid :
      (o : Outcome (Unit {0})) (w : Worker Cache) (id : ℕ)
      → WorkerValid w
      → WorkerValid (continue o (λ u w. (ok (some (w.engine.scheduler.requests id)), w)) w).1
  timed-Valid (ok u) w id h = h
  timed-Valid (raised err) w id h = h

  time_out-Valid :
      (w : Worker Cache) (id : ℕ) → WorkerValid w → WorkerValid (time_out backend id w).1
  unfolding time_out
  time_out-Valid w id h =
      let out = cancel_request backend id "timeout" w.engine in
      timed-Valid out.0 (set_engine w out.1) id (cancel_request-Valid w.engine id "timeout" h)

  poll-Valid :
      (w : Worker Cache) (id : ℕ) (late : Bool)
      → WorkerValid w
      → WorkerValid (poll backend id late w).1
  unfolding poll
  poll-Valid w id late h =
      let P = λ (out : Outcome (Option InferenceRequest) × Worker Cache). WorkerValid out.1 in
      if-keeps P (contains w.engine.scheduler.completed id) _ _ (λ b. h)
        (if-keeps P (contains w.engine.scheduler.failed id) _ _ (λ c. h)
          (if-keeps P late _ _ (λ d. time_out-Valid w id h) h))

  after_step-Valid :
      (r : Outcome Bool) (e : Engine Cache) (w : Worker Cache)
      → SlotsValid e.scheduler
      → WorkerValid (after_step backend (r, e) w)
  after_step-Valid (ok worked) e w h = h
  after_step-Valid (raised err) e w h = h

  loop_round-Valid : (w : Worker Cache) → WorkerValid w → WorkerValid (loop_round backend w)
  unfolding loop_round
  loop_round-Valid w h =
      let out = step backend w.engine in
      if-keeps WorkerValid w.stopped _ _ (λ a. h)
        (if-keeps WorkerValid (has_work w.engine.scheduler) _ _
          (λ b. after_step-Valid out.0 out.1 w (step-SlotsValid backend w.engine h)) h)

  start-Valid : (w : Worker Cache) → WorkerValid w → WorkerValid (start w).1
  unfolding start
  start-Valid w h =
      if-keeps (λ (out : Outcome (Unit {0}) × Worker Cache). WorkerValid out.1) w.alive _ _ (λ a. h)
        ((bind-Keeps {P = WorkerValid} (raise_if-Keeps w.started runtime_error)
            (λ u. modify-Keeps (λ w h. h))).keeps
          (record w { stopped = false }) h)

  reconfigure-Valid :
      (w : Worker Cache) (changes : Changes) → WorkerValid w → WorkerValid (reconfigure changes w).1
  unfolding reconfigure
  reconfigure-Valid w changes h = (reconfigure-Keeps changes).keeps w.engine h

  Step-Valid : {u v : Worker Cache} → Step backend u v → WorkerValid u → WorkerValid v
  unfolding submit submit_stream close_stream stop unregister_token_callback
  Step-Valid (looped w a) h = loop_round-Valid w h
  Step-Valid (submitted w id prompt n a b) h = add_request-Valid w.engine id prompt n a b h
  Step-Valid (streamed w id prompt n a b) h =
      let out = add_request id prompt n w.engine in
      streamed-Valid out.1 id out.0 (add_request-Valid w.engine id prompt n a b h)
  Step-Valid (polled w id late) h = poll-Valid w id late h
  Step-Valid (closed w id) h = h
  Step-Valid (reconfigured w changes) h = reconfigure-Valid w changes h
  Step-Valid (begun w) h = start-Valid w h
  Step-Valid (halted w) h = h

  -- From a worker whose engine has one owner for each slot, any interleaving of the sections of the
  -- thread and its clients, whether their calls return or raise, with any model and any cache, and
  -- new ids for new requests, leads to a worker whose engine has one owner for each slot: no slot
  -- is lost, and none is given to two requests.
  pub Reach-Valid : {u v : Worker Cache} → Reach backend u v → WorkerValid u → WorkerValid v
  Reach-Valid here h = h
  Reach-Valid (next r s) h = Step-Valid s (Reach-Valid r h)
