-- ===== src/Worker/Waiting.antt =====
-- src/inference/engine_worker.py, `generate`: what a client waits for.
use mathlib.Core.Path.{subst}
use nifre.Prelude.{
  sym, ℕ, ◌≡◌, refl, ◌∙◌, ◌⊎◌, inl, inr, Bool, true, false, ◌||◌, List, [], ◌∷◌, ◌++◌, Option, none,
  some, contains, ==_refl, Bool-cases, if◌then◌else◌, arith, contains-count, count-append,
}
use nifre.Prelude.Exec.{Outcome, ok, raised, runtime_error}
use nifre.DataModel.{RequestState, InferenceRequest}
use nifre.Scheduler.{Scheduler, put_key}
use nifre.Scheduler.Slots.{SlotsValid}
use nifre.Scheduler.Cancellation.{cancel_request-outcome, dequeued, evicted}
use nifre.Engine.{Backend}
use nifre.Engine.Steps.{cancel_request}
use nifre.Worker.{Worker, time_out, poll, generate_round}
use nifre.Worker.Interleaving.{WorkerValid}

contains-put_key : (l : List ℕ) (id : ℕ) → contains (put_key l id) id ≡ true
contains-put_key l id = elim (Bool-cases (contains l id)) [
  | inl there ↦ rw there there
  | inr new ↦ rw new (ground (arith, contains-count (l ++ id ∷ []) id, count-append id l (id ∷ [])))
]

abbrev pub is_done : ℕ → Scheduler → Bool
is_done id s = contains s.completed id || contains s.failed id

-- A request that waits, runs, or is done, and has no slot while it waits.
pub record Known (id : ℕ) (s : Scheduler) : Type 0 where
  pub somewhere :
      (contains s.waiting id ≡ true) ⊎ ((contains s.running id ≡ true) ⊎ (is_done id s ≡ true))
  pub slotless : contains s.waiting id ≡ true → (s.requests id).batch_idx ≡ none

abbrev pub timed_out : InferenceRequest → InferenceRequest
timed_out r = record r { state = RequestState.finished; status = "timeout"; batch_idx = none }

-- A finished request neither waits nor runs.
out_of_lists :
    (id : ℕ) (s : Scheduler)
    → SlotsValid s
    → (s.requests id).state ≡ RequestState.finished
    → (contains s.waiting id ≡ false) × (contains s.running id ≡ false)
out_of_lists id s v e =
    let q = v.queued id in
    let a = v.active id in
    (
      ground (arith, contains-count s.waiting id, e, q),
      ground (arith, contains-count s.running id, e, a),
    )

module _ {Cache : Type 0} where
  -- The request `before` is returned, finished with the status of a time-out and without a slot;
  -- it is a failed one, and neither waits nor runs. The scheduler has the same request.
  abbrev pub TimedOut :
      ℕ → InferenceRequest → Outcome (Option InferenceRequest) × Worker Cache → Type 0
  TimedOut id before out =
      (out.0 ≡ ok (some (timed_out before)))
      × (out.1.engine.scheduler.requests id ≡ timed_out before)
      × (contains out.1.engine.scheduler.failed id ≡ true)
      × (contains out.1.engine.scheduler.waiting id ≡ false)
      × (contains out.1.engine.scheduler.running id ≡ false)

  -- What a section of the waiting loop does.
  abbrev pub Waited :
      ℕ → Bool → Worker Cache → Outcome (Option InferenceRequest) × Worker Cache → Type 0
  Waited id late w out =
      ((is_done id w.engine.scheduler ≡ true)
        × (out ≡ (ok (some (w.engine.scheduler.requests id)), w)))
      ⊎ (((is_done id w.engine.scheduler ≡ false) × (late ≡ false) × (out ≡ (ok none, w)))
          ⊎ ((is_done id w.engine.scheduler ≡ false)
              × (late ≡ true)
              × TimedOut id (w.engine.scheduler.requests id) out))

  module _ (backend : Backend Cache) where
    poll-done :
        (id : ℕ) (late : Bool) (w : Worker Cache)
        → is_done id w.engine.scheduler ≡ true
        → poll backend id late w ≡ (ok (some (w.engine.scheduler.requests id)), w)
    unfolding poll
    poll-done id late w d = elim (Bool-cases (contains w.engine.scheduler.completed id)) [
      | inl a ↦ rw a refl
      | inr a ↦ elim (Bool-cases (contains w.engine.scheduler.failed id)) [
        | inl b ↦ rw (a, b) refl
        | inr b ↦ absurd (ground arith)
      ]
    ]

    poll-open :
        (id : ℕ) (late : Bool) (w : Worker Cache)
        → is_done id w.engine.scheduler ≡ false
        → poll backend id late w ≡ (if late then time_out backend id w else (ok none, w))
    unfolding poll
    poll-open id late w d =
        let a : contains w.engine.scheduler.completed id ≡ false = ground arith in
        let b : contains w.engine.scheduler.failed id ≡ false = ground arith in rw (a, b) refl

    time_out-TimedOut :
        (id : ℕ) (w : Worker Cache)
        → is_done id w.engine.scheduler ≡ false
        → Known id w.engine.scheduler
        → WorkerValid w
        → TimedOut id (w.engine.scheduler.requests id) (time_out backend id w)
    unfolding time_out cancel_request
    time_out-TimedOut id w d known h =
        let s = w.engine.scheduler in
        elim (cancel_request-outcome s id "timeout" h) [
          | inl (a, e, v) ↦
              let same = ==_refl id in
              let out = out_of_lists id (dequeued id "timeout" s) v (rw same refl) in
              let slot = known.slotless a in
              (
                rw (e, same, slot) (rw same refl),
                rw (e, same, slot) (rw same refl),
                rw (e, same, slot) (contains-put_key s.failed id),
                rw (e, same, slot) out.0,
                rw (e, same, slot) out.1,
              )
          | inr (inl (a, slot, b, e, v, b')) ↦
              let same = ==_refl id in
              let out = out_of_lists id (evicted id "timeout" slot s) v (rw same refl) in
              (
                rw (e, same) (rw same refl),
                rw (e, same) (rw same refl),
                rw (e, same) (contains-put_key s.failed id),
                rw (e, same) out.0,
                rw (e, same) out.1,
              )
          | inr (inr (a, b, e)) ↦ elim known.somewhere [
            | inl waits ↦ absurd cc
            | inr (inl runs) ↦ absurd cc
            | inr (inr done) ↦ absurd cc
          ]
        ]

    -- A section of the loop of `generate`, for a worker that is not stopped, with one owner for
    -- each slot, and a request that waits without a slot, runs or is done. For a request that is
    -- done it returns the request; for another one before the deadline the loop goes on, and
    -- nothing has changed; after the deadline it always returns that request, finished with the
    -- status timeout and without a slot, otherwise as it was; it is then among the failed ones, and
    -- neither waits nor runs.
    pub generate_round-Waited :
        (id : ℕ) (late : Bool) (w : Worker Cache)
        → w.stopped ≡ false
        → Known id w.engine.scheduler
        → WorkerValid w
        → Waited id late w (generate_round backend id late w)
    unfolding generate_round
    generate_round-Waited id late w going known h =
        subst
          (λ b. Waited id late w (if b then (raised runtime_error, w) else poll backend id late w))
          (sym going)
          (elim (Bool-cases (is_done id w.engine.scheduler)) [
            | inl d ↦ inl (d, poll-done id late w d)
            | inr d ↦ elim (Bool-cases late) [
              | inr early ↦ inr (inl (d, early, poll-open id late w d ∙ rw early refl))
              | inl too_late ↦
                  let path : poll backend id late w ≡ time_out backend id w =
                    poll-open id late w d ∙ rw too_late refl in
                  let out = time_out-TimedOut id w d known h in
                  inr (
                    inr (
                      d,
                      too_late,
                      subst (TimedOut id (w.engine.scheduler.requests id)) (sym path) out,
                    ))
            ]
          ])
