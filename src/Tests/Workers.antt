-- ===== src/Tests/Workers.antt =====
-- The worker and its clients at small inputs.
use nifre.Prelude.{
  ℕ, suc, ◌≡◌, refl, inl, true, false, List, [], ◌∷◌, Option, none, map, arith, contains,
}
use nifre.Prelude.Exec.{Exec, ok, pure}
use nifre.DataModel.{new_request}
use nifre.Scheduler.{Scheduler, schedule}
use nifre.Engine.{Backend, ensure_cache}
use nifre.Engine.Steps.{run_prefill}
use nifre.Engine.Runner.{prefill}
use nifre.Worker.{Worker, submit, loop_round, generate_round}
use nifre.Worker.Interleaving.{Step, Reach, WorkerValid, Reach-Valid}
use nifre.Worker.Waiting.{Known, Waited, generate_round-Waited}

-- A cache that counts forward passes, and a model that answers with this count.
abbrev forward : List (List ℕ) → Option (List ℕ) → List ℕ → Exec ℕ (List ℕ)
forward rows lens slots passes = (ok (map (λ row. passes) rows), suc passes)

abbrev backend : Backend ℕ
backend = record {
  supports_paged_kv_cache = true;
  supports_prefix_cache = true;
  make_model_cache = none;
  make_paged_kv_cache = λ prefix. ok 10;
  make_kv_cache = ok 20;
  init_batch = λ n. pure tt;
  try_load_prefix = none;
  register_prefix = none;
  reset_slot = λ slot. pure tt;
  pad_token_id = 0;
  forward = forward;
}

abbrev scheduler : Scheduler
scheduler = record {
  max_concurrent_requests = 2;
  max_tokens_per_step = 4;
  waiting = 0 ∷ [];
  running = [];
  completed = [];
  failed = [];
  free_slots = 0 ∷ 1 ∷ [];
  requests = λ id. new_request (1 ∷ 2 ∷ 3 ∷ []) 2 2;
}

abbrev worker : Worker ℕ
worker = record {
  engine = record {
    scheduler = scheduler;
    cache = none;
    max_concurrent_requests = 2;
    prefill_chunk_size = 2;
    max_tokens_per_step = 4;
    use_paged_kv_cache = true;
    use_prefix_cache = false;
    token_callbacks = [];
    delivered = [];
  };
  stopped = false;
  started = true;
  alive = true;
}

worker-Valid : WorkerValid worker
unfolding new_request
worker-Valid = record {
  slots = λ k. ground arith;
  distinct = λ id. ground arith;
  active = λ id p. ground arith;
  queued = λ id p. refl;
}

-- The thread steps the engine, and a client submits a second request.
abbrev after : Worker ℕ
after = (submit 1 (5 ∷ []) 3 (loop_round backend worker)).1

fresh_waiting : contains (loop_round backend worker).engine.scheduler.waiting 1 ≡ false
unfolding loop_round ensure_cache schedule new_request run_prefill prefill
fresh_waiting = refl

fresh_running : contains (loop_round backend worker).engine.scheduler.running 1 ≡ false
unfolding loop_round ensure_cache schedule new_request run_prefill prefill
fresh_running = refl

Reach-Valid_example : WorkerValid after
Reach-Valid_example =
    Reach-Valid backend
      (Reach.next (Reach.next Reach.here (Step.looped worker refl))
        (Step.submitted (loop_round backend worker) 1 (5 ∷ []) 3 fresh_waiting fresh_running))
      worker-Valid

waits : Known 0 scheduler
unfolding new_request
waits = record { somewhere = inl refl; slotless = λ e. refl }

generate_round-Waited_example : Waited 0 true worker (generate_round backend 0 true worker)
generate_round-Waited_example = generate_round-Waited backend 0 true worker refl waits worker-Valid
