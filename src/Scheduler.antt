-- ===== src/Scheduler.antt =====
-- src/inference/scheduler.py. A request object is shared by the scheduler and its callers: it is
-- named by its `request_id`, a number here, and `requests` is the store of the objects. A dict
-- from ids to these objects is the list of its keys, in the order of insertion.
pub mod Slots
pub mod Assignment
pub mod Sorting
pub mod Reconfigure
pub mod Retirement
pub mod Calls
pub mod Cancellation
pub mod Budget
use Prim.Native.String.{String}
use nifre.Prelude.{
  ℕ, zero, suc, ◌+◌, ◌-◌, Bool, true, false, not, ◌&&◌, ◌||◌, List, [], ◌∷◌, ◌++◌, Option, none,
  some, length, contains, erase, ltb, leb, ◌==◌, if◌then◌else◌, update, min,
}
use nifre.Prelude.Exec.{
  Exec, Outcome, ok, raised, value_error, key_error, pure, raise, raise_if, get_state, modify, when,
  ◌>>=◌, ◌>>◌,
}
use nifre.DataModel.{
  RequestState, InferenceRequest, num_prompt_tokens, num_generated, prefill_complete, is_waiting,
  is_prefill, is_decode,
}

pub record Scheduler : Type 0 where
  pub max_concurrent_requests : ℕ
  pub max_tokens_per_step : ℕ
  pub waiting : List ℕ
  pub running : List ℕ
  pub completed : List ℕ
  pub failed : List ℕ
  pub free_slots : List ℕ
  pub requests : ℕ → InferenceRequest

pub record ScheduleResult : Type 0 where
  pub prefill_requests : List ℕ
  pub decode_requests : List ℕ

-- `list(range(start, start + n))`
unfoldable pub range_from : ℕ → ℕ → List ℕ
range_from start zero = []
range_from start (suc n) = start ∷ range_from (suc start) n

-- Scheduler(max_concurrent_requests, max_tokens_per_step); `requests` are the objects that exist.
unfoldable pub init : (ℕ → InferenceRequest) → ℕ → ℕ → Outcome Scheduler
unfolding range_from
init requests zero budget = raised value_error
init requests (suc n) zero = raised value_error
init requests (suc n) (suc b) = ok (record {
  max_concurrent_requests = suc n;
  max_tokens_per_step = suc b;
  waiting = [];
  running = [];
  completed = [];
  failed = [];
  free_slots = range_from 0 (suc n);
  requests = requests;
})

abbrev pub set_request : ℕ → InferenceRequest → Scheduler → Scheduler
set_request id r s = record s { requests = update s.requests id r }

-- `d[id] = request`
abbrev pub put_key : List ℕ → ℕ → List ℕ
put_key l id = if contains l id then l else l ++ id ∷ []

unfoldable pub add_request : ℕ → Exec Scheduler (Unit {0})
add_request id = do
  s ← get_state
  raise_if (not (is_waiting (s.requests id).state)) value_error
  modify (λ s. record s { waiting = s.waiting ++ id ∷ [] })

-- `request.batch_idx = batch_idx; request.state = PREFILL`
abbrev pub assigned : ℕ → InferenceRequest → InferenceRequest
assigned slot r = record r { batch_idx = some slot; state = RequestState.prefill }

-- One round of `_assign_waiting_to_slots`: the first waiting request gets the first free slot.
abbrev pub assign : ℕ → ℕ → List ℕ → List ℕ → Scheduler → Scheduler
assign id slot waiting free_slots s = record s {
  waiting = waiting;
  free_slots = free_slots;
  running = put_key s.running id;
  requests = update s.requests id (assigned slot (s.requests id));
}

unfoldable pub assign_all : List ℕ → List ℕ → Scheduler → Scheduler
assign_all (id ∷ waiting) (slot ∷ free_slots) s =
    assign_all waiting free_slots (assign id slot waiting free_slots s)
assign_all _ _ s = s

unfoldable pub assign_waiting_to_slots : Scheduler → Scheduler
unfolding assign_all
assign_waiting_to_slots s = assign_all s.waiting s.free_slots s

-- The first loop of `schedule`: the requests that decode, and the budget that they leave.
unfoldable pub pick_decode : (ℕ → InferenceRequest) → List ℕ → ℕ → List ℕ × ℕ
pick_decode requests [] budget = ([], budget)
pick_decode requests (id ∷ running) budget =
    let skipped = pick_decode requests running budget in
    let picked = pick_decode requests running (budget - 1) in
    if not (is_decode (requests id).state)
    then skipped
    else if ltb budget 1
    then ([], budget)
    else (id ∷ picked.0, picked.1)

-- The offset of a request is at most the length of its prompt.
unfoldable pub prefill_chunk_tokens : InferenceRequest → ℕ
prefill_chunk_tokens r = min r.prefill_chunk_size (num_prompt_tokens r - r.prefill_offset)

-- The second loop: a chunk that does not fit the budget is passed over.
unfoldable pub pick_prefill : (ℕ → InferenceRequest) → List ℕ → ℕ → List ℕ
unfolding prefill_chunk_tokens
pick_prefill requests [] budget = []
pick_prefill requests (id ∷ running) budget =
    let tokens = prefill_chunk_tokens (requests id) in
    let skipped = pick_prefill requests running budget in
    let picked = pick_prefill requests running (budget - tokens) in
    if not (is_prefill (requests id).state)
    then skipped
    else if ltb budget tokens
    then skipped
    else id ∷ picked

unfoldable pub schedule : Scheduler → ScheduleResult × Scheduler
unfolding assign_waiting_to_slots pick_decode pick_prefill
schedule s =
    let s' = assign_waiting_to_slots s in
    let (decode, budget) = pick_decode s'.requests s'.running s'.max_tokens_per_step in
    (
      record {
        prefill_requests = pick_prefill s'.requests s'.running budget;
        decode_requests = decode;
      },
      s',
    )

unfoldable pub mark_prefill_done : ℕ → Exec Scheduler (Unit {0})
mark_prefill_done id = do
  s ← get_state
  raise_if (not (is_prefill (s.requests id).state)) value_error
  raise_if (not (prefill_complete (s.requests id))) value_error
  modify (set_request id (record (s.requests id) { state = RequestState.decode }))

-- `if request.batch_idx is not None: free_slots.append(request.batch_idx); batch_idx = None`
unfoldable pub free_slot : ℕ → Scheduler → Scheduler
free_slot id s = elim (s.requests id).batch_idx [
  | none ↦ s
  | some slot ↦ record s {
    free_slots = s.free_slots ++ slot ∷ [];
    requests = update s.requests id (record (s.requests id) { batch_idx = none });
  }
]

-- `_finish_request`; `del` raises KeyError where the request does not run.
unfoldable pub finish_request : ℕ → Exec Scheduler (Unit {0})
finish_request id = do
  s ← get_state
  modify (set_request id (record (s.requests id) { state = RequestState.finished }))
  raise_if (not (contains s.running id)) key_error
  modify (λ s.
      free_slot id (record s { running = erase s.running id; completed = put_key s.completed id }))

unfoldable pub mark_decode_done : ℕ → ℕ → Exec Scheduler (Unit {0})
unfolding finish_request
mark_decode_done id token_id = do
  s ← get_state
  raise_if (not (is_decode (s.requests id).state)) value_error
  let r = record (s.requests id) {
    output_token_ids = (s.requests id).output_token_ids ++ token_id ∷ [];
  }
  modify (set_request id r)
  when (leb r.max_new_tokens (num_generated r)) (finish_request id)

-- The requests with the other ids, as the first loop of `cancel_request` keeps them.
unfoldable pub without_id : List ℕ → ℕ → List ℕ
without_id [] id = []
without_id (j ∷ l) id = let rest = without_id l id in if j == id then rest else j ∷ rest

abbrev pub fail_request : ℕ → String → Scheduler → Scheduler
fail_request id status s = record s {
  requests =
      update s.requests id
        (record (s.requests id) { state = RequestState.finished; status = status });
}

unfoldable pub cancel_request : ℕ → String → Exec Scheduler (Unit {0})
unfolding without_id
cancel_request id status s =
    if contains s.waiting id
    then (
      ok tt,
      fail_request id status
          (record s { waiting = without_id s.waiting id; failed = put_key s.failed id }),
    )
    else if contains s.running id
    then (
      ok tt,
      free_slot id (
          fail_request id status
            (record s { running = erase s.running id; failed = put_key s.failed id })),
    )
    else (raised key_error, record s { waiting = without_id s.waiting id })

unfoldable pub has_work : Scheduler → Bool
has_work s = ltb 0 (length s.waiting) || ltb 0 (length s.running)
