-- ===== src/Scheduler/Retirement.antt =====
-- src/inference/scheduler.py: the ends of a request, `mark_prefill_done`, `mark_decode_done` and
-- `cancel_request`, against the slots.
use nifre.Prelude.{
  ℕ, ◌+◌, ◌≤◌, ◌<◌, ◌≡◌, refl, ap, ◌⊎◌, inl, inr, true, false, [], ◌∷◌, ◌++◌, none, some, contains,
  erase, count, leb, ==_refl, update, arith, contains-count, count-append, count-erase,
  length-append, Option-cases, Bool-cases,
}
use nifre.Prelude.Exec.{ok, raise_if, when}
use nifre.DataModel.{
  RequestState, InferenceRequest, num_generated, prefill_complete, is_prefill, is_decode,
}
use nifre.Scheduler.{
  Scheduler, put_key, set_request, mark_prefill_done, free_slot, finish_request, mark_decode_done,
}
use nifre.Scheduler.Slots.{
  SlotsValid, is_active, slot_refs, slot_refs-erase, slot_refs-absent, slot_refs-ext,
  set_request-SlotsValid,
}

-- A running request leaves, and gives its slot back.
pub retire-SlotsValid :
    (s s' : Scheduler) (id slot : ℕ) (r : InferenceRequest)
    → SlotsValid s
    → contains s.running id ≡ true
    → (s.requests id).batch_idx ≡ some slot
    → s'.running ≡ erase s.running id
    → s'.waiting ≡ s.waiting
    → s'.free_slots ≡ s.free_slots ++ slot ∷ []
    → s'.max_concurrent_requests ≡ s.max_concurrent_requests
    → ((j : ℕ) → s'.requests j ≡ update s.requests id r j)
    → SlotsValid s'
retire-SlotsValid s s' id slot r h in_running e run wait free max reqs = record {
  slots = λ k.
      let requests = update s.requests id r in
      let gone : contains (erase s.running id) id ≡ false = ground (
        arith,
        contains-count (erase s.running id) id,
        count-erase id s.running id,
        h.distinct id,
      ) in
      ground (
        arith,
        h.slots k,
        ap (λ l. slot_refs s'.requests l k) run,
        slot_refs-ext s'.requests requests (erase s.running id) k reqs,
        slot_refs-absent s.requests k (erase s.running id) id r gone,
        slot_refs-erase s.requests k s.running id in_running,
        ap (count k) free,
        count-append k s.free_slots (slot ∷ []),
      );
  distinct = λ j.
      ground (arith, h.distinct j, ap (count j) run, ap (count j) wait, count-erase j s.running id);
  active = λ j p.
      ground
        (arith, h.active j, reqs j, h.distinct id, ap (count j) run, count-erase j s.running id);
  queued = λ j p.
      ground
        (arith, h.queued j, reqs j, h.distinct j, contains-count s.running j, ap (count j) wait);
}

module _ (s : Scheduler) (id : ℕ) (h : SlotsValid s)
    (in_running : contains s.running id ≡ true) where
  running_active : is_active (s.requests id) ≡ true
  running_active = h.active id (ground (arith, contains-count s.running id))

  pub not_waiting : contains s.waiting id ≡ false
  not_waiting =
      ground (arith, contains-count s.waiting id, contains-count s.running id, h.distinct id)

  pub running_slot : (slot : ℕ) × ((s.requests id).batch_idx ≡ some slot)
  running_slot = elim (Option-cases (s.requests id).batch_idx) [
    | inl e ↦ let a = running_active in absurd (ground arith)
    | inr found ↦ found
  ]

  -- `mark_prefill_done` of a running request keeps the slots; it raises unless the request is in
  -- PREFILL with its whole prompt cached.
  pub mark_prefill_done-SlotsValid : SlotsValid (mark_prefill_done id s).1
  unfolding mark_prefill_done
  mark_prefill_done-SlotsValid = elim (Bool-cases (is_prefill (s.requests id).state)) [
    | inr e ↦ rw (e, raise_if) h
    | inl e ↦ elim (Bool-cases (prefill_complete (s.requests id))) [
      | inr f ↦ rw (e, raise_if, f) h
      | inl f ↦
          let a = running_active in
          rw (e, raise_if, f)
            (set_request-SlotsValid s id (record (s.requests id) { state = RequestState.decode })
              refl (ground arith) not_waiting h)
    ]
  ]

-- What `_finish_request` leaves of the scheduler; `stopped` are the requests with this one finished.
abbrev stopped : ℕ → Scheduler → ℕ → InferenceRequest
stopped id s = update s.requests id (record (s.requests id) { state = RequestState.finished })

abbrev pub finished : ℕ → ℕ → Scheduler → Scheduler
finished id slot s = record s {
  running = erase s.running id;
  completed = put_key s.completed id;
  free_slots = s.free_slots ++ slot ∷ [];
  requests = update (stopped id s) id (record (stopped id s id) { batch_idx = none });
}

update_self :
    (requests : ℕ → InferenceRequest) (id : ℕ) (r : InferenceRequest) → update requests id r id ≡ r
update_self requests id r = rw (==_refl id)

pub free_slot-some :
    (id slot : ℕ) (s : Scheduler)
    → (s.requests id).batch_idx ≡ some slot
    → free_slot id s ≡ record s {
      free_slots = s.free_slots ++ slot ∷ [];
      requests = update s.requests id (record (s.requests id) { batch_idx = none });
    }
unfolding free_slot
free_slot-some id slot s e = rw (e, free_slot)

finish_request-finished :
    (s : Scheduler) (id slot : ℕ)
    → contains s.running id ≡ true
    → (s.requests id).batch_idx ≡ some slot
    → finish_request id s ≡ (ok tt, finished id slot s)
unfolding finish_request
finish_request-finished s id slot r e =
    rw (r, raise_if) (ap (λ t. (ok tt, t)) (free_slot-some id slot _ (ground (arith, ==_refl id))))

module _ (s : Scheduler) (id : ℕ) (h : SlotsValid s)
    (in_running : contains s.running id ≡ true) where
  finished-SlotsValid :
      (slot : ℕ) → (s.requests id).batch_idx ≡ some slot → SlotsValid (finished id slot s)
  finished-SlotsValid slot e =
      retire-SlotsValid s (finished id slot s) id slot
        (record (s.requests id) { state = RequestState.finished; batch_idx = none }) h in_running e
        refl refl refl refl (λ j. ground (arith, ==_refl id))

-- `request.output_token_ids.append(token_id)`
abbrev pub with_token : ℕ → InferenceRequest → InferenceRequest
with_token token_id r = record r { output_token_ids = r.output_token_ids ++ token_id ∷ [] }

-- The scheduler with a token appended to a request.
abbrev pub emitted : ℕ → ℕ → Scheduler → Scheduler
emitted id token_id s = set_request id (with_token token_id (s.requests id)) s

-- The two outcomes of `mark_decode_done` for a running request that decodes.
abbrev pub Decoded : Scheduler → ℕ → ℕ → Type 0
Decoded s id token_id =
    ((num_generated (s.requests id) + 1 < (s.requests id).max_new_tokens)
      × (mark_decode_done id token_id s ≡ (ok tt, emitted id token_id s))
      × SlotsValid (emitted id token_id s))
    ⊎ (((s.requests id).max_new_tokens ≤ num_generated (s.requests id) + 1)
        × (slot : ℕ) × ((s.requests id).batch_idx ≡ some slot)
        × (mark_decode_done id token_id s ≡ (ok tt, finished id slot (emitted id token_id s)))
        × SlotsValid (finished id slot (emitted id token_id s)))

module _ (s : Scheduler) (id token_id : ℕ) (h : SlotsValid s)
    (in_running : contains s.running id ≡ true)
    (decodes : is_decode (s.requests id).state ≡ true) where
  emitted-SlotsValid : SlotsValid (emitted id token_id s)
  emitted-SlotsValid =
      let a = running_active s id h in_running in
      set_request-SlotsValid s id (with_token token_id (s.requests id)) refl (ground arith)
        (not_waiting s id h in_running) h

  -- `mark_decode_done` of a running request in DECODE. The token is appended. Below
  -- `max_new_tokens` the request goes on running with its slot. With that many tokens or more it
  -- is finished: it leaves `running` for `completed`, and its slot is free. Either way every slot
  -- keeps one owner.
  pub mark_decode_done-outcome : Decoded s id token_id
  unfolding mark_decode_done
  mark_decode_done-outcome =
      let more = length-append (s.requests id).output_token_ids (token_id ∷ []) in
      elim (Bool-cases (
        leb (s.requests id).max_new_tokens (num_generated (with_token token_id (s.requests id))))) [
          | inr below ↦ inl (ground arith, rw (decodes, raise_if, below, when), emitted-SlotsValid)
          | inl enough ↦
              let (slot, e) = running_slot s id h in_running in
              let same : ((emitted id token_id s).requests id).batch_idx ≡ some slot =
                ground (arith, ==_refl id) in
              inr (
                ground arith,
                slot,
                e,
                rw (decodes, raise_if, enough, when)
                    (finish_request-finished (emitted id token_id s) id slot in_running same),
                finished-SlotsValid (emitted id token_id s) id emitted-SlotsValid in_running slot
                    same,
              )
        ]
