-- ===== src/Scheduler/Cancellation.antt =====
-- src/inference/scheduler.py, `cancel_request`: a request that waits, one that runs, and neither.
use Prim.Native.String.{String}
use nifre.Prelude.{
  ℕ, ◌≡◌, refl, ap, ◌⊎◌, inl, inr, true, false, List, [], ◌∷◌, ◌++◌, none, some, contains, erase,
  count, ◌==◌, ==_refl, if◌then◌else◌, update, arith, contains-count, Bool-cases,
}
use nifre.Prelude.Exec.{ok, raised, key_error}
use nifre.DataModel.{RequestState}
use nifre.Scheduler.{Scheduler, put_key, without_id, cancel_request, fail_request}
use nifre.Scheduler.Slots.{SlotsValid, slot_refs-absent}
use nifre.Scheduler.Retirement.{retire-SlotsValid, free_slot-some, running_slot}

count-without_id :
    (j : ℕ) (l : List ℕ) (id : ℕ) → count j (without_id l id) ≡ (if id == j then 0 else count j l)
unfolding without_id
count-without_id j [] id = ground arith
count-without_id j (x ∷ l) id = ground (arith, count-without_id j l id)

without_id_absent : (l : List ℕ) (id : ℕ) → contains l id ≡ false → without_id l id ≡ l
unfolding without_id
without_id_absent [] id e = refl
without_id_absent (x ∷ l) id e = ground (arith, without_id_absent l id)

-- The scheduler after the cancellation of a request that waits, and of one that runs.
abbrev pub dequeued : ℕ → String → Scheduler → Scheduler
dequeued id status s =
    fail_request id status
      (record s { waiting = without_id s.waiting id; failed = put_key s.failed id })

abbrev pub stopped : ℕ → String → Scheduler → Scheduler
stopped id status s =
    fail_request id status (record s { running = erase s.running id; failed = put_key s.failed id })

abbrev pub evicted : ℕ → String → ℕ → Scheduler → Scheduler
evicted id status slot s = record (stopped id status s) {
  free_slots = s.free_slots ++ slot ∷ [];
  requests =
      update (stopped id status s).requests id
        (record ((stopped id status s).requests id) { batch_idx = none });
}

dequeued-SlotsValid :
    (s : Scheduler) (id : ℕ) (status : String)
    → SlotsValid s
    → contains s.waiting id ≡ true
    → SlotsValid (dequeued id status s)
dequeued-SlotsValid s id status h w = record {
  slots = λ k. ground (
    arith,
    h.slots k,
    slot_refs-absent s.requests k s.running id
        (record (s.requests id) { state = RequestState.finished; status = status })
        (ground (arith, contains-count s.waiting id, contains-count s.running id, h.distinct id)),
  );
  distinct = λ j. ground (arith, h.distinct j, count-without_id j s.waiting id);
  active = λ j p. ground (arith, h.active j, h.distinct j, contains-count s.waiting id);
  queued = λ j p. ground (arith, h.queued j, count-without_id j s.waiting id);
}

-- The three outcomes of `cancel_request`.
abbrev pub Cancelled : Scheduler → ℕ → String → Type 0
Cancelled s id status =
    ((contains s.waiting id ≡ true)
      × (cancel_request id status s ≡ (ok tt, dequeued id status s))
      × SlotsValid (dequeued id status s))
    ⊎ (((contains s.running id ≡ true)
          × (slot : ℕ) × ((s.requests id).batch_idx ≡ some slot)
          × (cancel_request id status s ≡ (ok tt, evicted id status slot s))
          × SlotsValid (evicted id status slot s)
          × (((evicted id status slot s).requests id).batch_idx ≡ none))
        ⊎ ((contains s.waiting id ≡ false)
            × (contains s.running id ≡ false)
            × (cancel_request id status s ≡ (raised key_error, s))))

module _ (s : Scheduler) (id : ℕ) (status : String) (h : SlotsValid s) where
  -- `cancel_request`. A request that waits leaves the queue and is recorded as failed. A request
  -- that runs leaves `running`, is recorded as failed, its slot is free again, and it no longer
  -- says which slot that was. For any other id it raises KeyError and changes nothing. Each slot
  -- keeps one owner.
  pub cancel_request-outcome : Cancelled s id status
  unfolding cancel_request
  cancel_request-outcome = elim (Bool-cases (contains s.waiting id)) [
    | inl w ↦ inl (w, rw w, dequeued-SlotsValid s id status h w)
    | inr w ↦ elim (Bool-cases (contains s.running id)) [
      | inr r ↦ inr (inr (w, r, rw (w, r, without_id_absent s.waiting id w)))
      | inl r ↦
          let (slot, e) = running_slot s id h r in
          let same : ((stopped id status s).requests id).batch_idx ≡ some slot =
            ground (arith, ==_refl id) in
          inr (
            inl (
              r,
              slot,
              e,
              rw (w, r) (ap (λ t. (ok tt, t)) (free_slot-some id slot (stopped id status s) same)),
              retire-SlotsValid s (evicted id status slot s) id slot
                  (record (s.requests id) {
                    state = RequestState.finished;
                    status = status;
                    batch_idx = none;
                  })
                  h r e refl refl refl refl (λ j. ground (arith, ==_refl id)),
              ground (arith, ==_refl id),
            ))
    ]
  ]
