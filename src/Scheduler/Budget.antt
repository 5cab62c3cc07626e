-- ===== src/Scheduler/Budget.antt =====
-- src/inference/scheduler.py, `schedule`: the token budget of a step, and when a step does work.
use nifre.Prelude.{
  ℕ, ◌+◌, ◌-◌, ◌≤◌, ◌<◌, ◌≡◌, refl, ap, ◌⊎◌, inl, inr, true, false, List, [], ◌∷◌, length, count,
  ltb, arith, Bool-cases,
}
use nifre.DataModel.{InferenceRequest, is_prefill, is_decode}
use nifre.Scheduler.{
  Scheduler, schedule, pick_decode, pick_prefill, prefill_chunk_tokens, assign_waiting_to_slots,
}

-- The prompt tokens that the next chunks of the requests have.
abbrev pub chunk_sum : (ℕ → InferenceRequest) → List ℕ → ℕ
chunk_sum requests [] = 0
chunk_sum requests (id ∷ l) = prefill_chunk_tokens (requests id) + chunk_sum requests l

module _ (requests : ℕ → InferenceRequest) where
  -- Each request that decodes takes one token of the budget.
  pick_decode-budget :
      (l : List ℕ) (budget : ℕ)
      → length (pick_decode requests l budget).0 + (pick_decode requests l budget).1 ≡ budget
  unfolding pick_decode
  pick_decode-budget [] budget = omega arith
  pick_decode-budget (id ∷ l) budget =
      ground (arith, pick_decode-budget l budget, pick_decode-budget l (budget - 1))

  pick_decode-decodes :
      (l : List ℕ) (budget id : ℕ)
      → 0 < count id (pick_decode requests l budget).0
      → (is_decode (requests id).state ≡ true) × (0 < count id l)
  unfolding pick_decode
  pick_decode-decodes [] budget id h = absurd (omega arith)
  pick_decode-decodes (j ∷ l) budget id h =
      ground (arith, pick_decode-decodes l budget id, pick_decode-decodes l (budget - 1) id)

  pick_decode-nonempty :
      (l : List ℕ) (budget id : ℕ)
      → 0 < budget
      → 0 < count id l
      → is_decode (requests id).state ≡ true
      → 0 < length (pick_decode requests l budget).0
  unfolding pick_decode
  pick_decode-nonempty [] budget id b h d = absurd (omega arith)
  pick_decode-nonempty (j ∷ l) budget id b h d = ground (arith, pick_decode-nonempty l budget id)

  pick_prefill-budget :
      (l : List ℕ) (budget : ℕ) → chunk_sum requests (pick_prefill requests l budget) ≤ budget
  unfolding pick_prefill
  pick_prefill-budget [] budget = omega arith
  pick_prefill-budget (id ∷ l) budget = ground (
    arith,
    pick_prefill-budget l budget,
    pick_prefill-budget l (budget - prefill_chunk_tokens (requests id)),
  )

  pick_prefill-prefills :
      (l : List ℕ) (budget id : ℕ)
      → 0 < count id (pick_prefill requests l budget)
      → (is_prefill (requests id).state ≡ true) × (0 < count id l)
  unfolding pick_prefill
  pick_prefill-prefills [] budget id h = absurd (omega arith)
  pick_prefill-prefills (j ∷ l) budget id h = ground (
    arith,
    pick_prefill-prefills l budget id,
    pick_prefill-prefills l (budget - prefill_chunk_tokens (requests j)) id,
  )

  pick_prefill-nonempty :
      (l : List ℕ) (budget id : ℕ)
      → 0 < count id l
      → is_prefill (requests id).state ≡ true
      → prefill_chunk_tokens (requests id) ≤ budget
      → 0 < length (pick_prefill requests l budget)
  unfolding pick_prefill
  pick_prefill-nonempty [] budget id h p c = absurd (omega arith)
  pick_prefill-nonempty (j ∷ l) budget id h p c = ground (arith, pick_prefill-nonempty l budget id)

  pick_prefill-empty :
      (l : List ℕ) (budget : ℕ)
      → ((id : ℕ) → 0 < count id l → budget < prefill_chunk_tokens (requests id))
      → pick_prefill requests l budget ≡ []
  unfolding pick_prefill
  pick_prefill-empty [] budget h = refl
  pick_prefill-empty (j ∷ l) budget h =
      let big = h j in ground (arith, pick_prefill-empty l budget (λ id p. h id (omega arith)))

  pick_decode-empty :
      (l : List ℕ) (budget : ℕ)
      → ((id : ℕ) → 0 < count id l → is_decode (requests id).state ≡ false)
      → pick_decode requests l budget ≡ ([], budget)
  unfolding pick_decode
  pick_decode-empty [] budget h = refl
  pick_decode-empty (j ∷ l) budget h =
      let d = h j in ground (arith, pick_decode-empty l budget (λ id p. h id (omega arith)))

module _ (s : Scheduler) where
  -- The scheduler when the waiting requests have their slots, and the batches that it picks then.
  abbrev assigned : Scheduler
  assigned = assign_waiting_to_slots s

  -- One token for each request that decodes, and the chunks of those in prefill, are together
  -- within `max_tokens_per_step`.
  pub schedule-within_budget :
      length (schedule s).0.decode_requests
        + chunk_sum assigned.requests (schedule s).0.prefill_requests
      ≤ assigned.max_tokens_per_step
  unfolding schedule
  schedule-within_budget = omega (
    arith,
    pick_decode-budget assigned.requests assigned.running assigned.max_tokens_per_step,
    pick_prefill-budget assigned.requests assigned.running
        (pick_decode assigned.requests assigned.running assigned.max_tokens_per_step).1,
  )

  pub schedule-decodes :
      (id : ℕ)
      → 0 < count id (schedule s).0.decode_requests
      → (is_decode (assigned.requests id).state ≡ true) × (0 < count id assigned.running)
  unfolding schedule
  schedule-decodes id =
      pick_decode-decodes assigned.requests assigned.running assigned.max_tokens_per_step id

  pub schedule-prefills :
      (id : ℕ)
      → 0 < count id (schedule s).0.prefill_requests
      → (is_prefill (assigned.requests id).state ≡ true) × (0 < count id assigned.running)
  unfolding schedule
  schedule-prefills id = pick_prefill-prefills assigned.requests assigned.running _ id

  -- A step does some work as soon as one running request decodes, or has a next chunk of at most
  -- `max_tokens_per_step` tokens.
  pub schedule-progress :
      (id : ℕ)
      → 0 < assigned.max_tokens_per_step
      → 0 < count id assigned.running
      → (is_decode (assigned.requests id).state ≡ true)
        ⊎ ((is_prefill (assigned.requests id).state ≡ true)
            × (prefill_chunk_tokens (assigned.requests id) ≤ assigned.max_tokens_per_step))
      → 0 < length (schedule s).0.decode_requests + length (schedule s).0.prefill_requests
  unfolding schedule
  schedule-progress id pos r (inl d) =
      omega (arith, pick_decode-nonempty assigned.requests assigned.running _ id pos r d)
  schedule-progress id pos r (inr (p, fits)) =
      let picked = pick_decode assigned.requests assigned.running assigned.max_tokens_per_step in
      let spent =
        pick_decode-budget assigned.requests assigned.running assigned.max_tokens_per_step in
      elim (Bool-cases (ltb 0 (length picked.0))) [
        | inl some_decode ↦ ground arith
        | inr none_decodes ↦ omega (
          arith,
          pick_prefill-nonempty assigned.requests assigned.running picked.1 id r p (ground arith),
        )
      ]

  -- When each running request is in prefill with a next chunk above `max_tokens_per_step`, the step
  -- picks nothing.
  pub schedule-stuck :
      ((id : ℕ)
        → 0 < count id assigned.running
        → (is_decode (assigned.requests id).state ≡ false)
          × (assigned.max_tokens_per_step < prefill_chunk_tokens (assigned.requests id)))
      → (schedule s).0 ≡ record { prefill_requests = []; decode_requests = [] }
  unfolding schedule
  schedule-stuck big =
      let d =
        pick_decode-empty assigned.requests assigned.running assigned.max_tokens_per_step
          (λ id p. (big id p).0) in
      rw d (
        ap (λ l. record { prefill_requests = l; decode_requests = [] })
          (pick_prefill-empty assigned.requests assigned.running assigned.max_tokens_per_step
            (λ id p. (big id p).1)))
