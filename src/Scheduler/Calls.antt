-- ===== src/Scheduler/Calls.antt =====
-- src/inference/scheduler.py: `mark_prefill_done` and `mark_decode_done` of any request, whether
-- or not it runs, keep the slots.
use nifre.Prelude.{ℕ, ◌≡◌, inl, inr, false, contains, leb, arith, contains-count, Bool-cases}
use nifre.Prelude.Exec.{raise_if, when}
use nifre.DataModel.{
  RequestState, is_waiting, is_prefill, is_decode, num_generated, prefill_complete,
}
use nifre.Scheduler.{Scheduler, mark_prefill_done, mark_decode_done, finish_request}
use nifre.Scheduler.Slots.{SlotsValid, outside-SlotsValid}
use nifre.Scheduler.Retirement.{
  mark_prefill_done-SlotsValid, mark_decode_done-outcome, with_token, emitted,
}

module _ (s : Scheduler) (id : ℕ) (h : SlotsValid s) where
  busy_not_waiting : is_waiting (s.requests id).state ≡ false → contains s.waiting id ≡ false
  busy_not_waiting e = ground (arith, h.queued id, contains-count s.waiting id)

  prefill_done_outside : contains s.running id ≡ false → SlotsValid (mark_prefill_done id s).1
  unfolding mark_prefill_done
  prefill_done_outside out = elim (Bool-cases (is_prefill (s.requests id).state)) [
    | inr e ↦ rw (e, raise_if) h
    | inl e ↦ elim (Bool-cases (prefill_complete (s.requests id))) [
      | inr f ↦ rw (e, raise_if, f) h
      | inl f ↦
          rw (e, raise_if, f)
            (outside-SlotsValid s id (record (s.requests id) { state = RequestState.decode })
              (busy_not_waiting (ground arith)) out h)
    ]
  ]

  pub any_prefill_done-SlotsValid : SlotsValid (mark_prefill_done id s).1
  any_prefill_done-SlotsValid = elim (Bool-cases (contains s.running id)) [
    | inl r ↦ mark_prefill_done-SlotsValid s id h r
    | inr out ↦ prefill_done_outside out
  ]

  module _ (token_id : ℕ) where
    decode_done_outside :
        contains s.running id ≡ false → SlotsValid (mark_decode_done id token_id s).1
    unfolding mark_decode_done finish_request
    decode_done_outside out = elim (Bool-cases (is_decode (s.requests id).state)) [
      | inr e ↦ rw (e, raise_if) h
      | inl e ↦
          let w = busy_not_waiting (ground arith) in
          let h' = outside-SlotsValid s id (with_token token_id (s.requests id)) w out h in
          elim (Bool-cases (
            leb (s.requests id).max_new_tokens
              (num_generated (with_token token_id (s.requests id))))) [
                | inr below ↦ rw (e, raise_if, below, when) h'
                | inl enough ↦
                    let s' = emitted id token_id s in
                    rw (e, raise_if, enough, when, out)
                      (outside-SlotsValid s' id
                        (record (s'.requests id) { state = RequestState.finished }) w out h')
              ]
    ]

    pub any_decode_done-SlotsValid : SlotsValid (mark_decode_done id token_id s).1
    unfolding mark_decode_done
    any_decode_done-SlotsValid = elim (Bool-cases (contains s.running id)) [
      | inr out ↦ decode_done_outside out
      | inl r ↦ elim (Bool-cases (is_decode (s.requests id).state)) [
        | inr e ↦ rw (e, raise_if) h
        | inl e ↦ elim (mark_decode_done-outcome s id token_id h r e) [
          | inl below ↦ rw below.1 below.2
          | inr enough ↦ rw enough.3 enough.4
        ]
      ]
    ]
