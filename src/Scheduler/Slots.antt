-- ===== src/Scheduler/Slots.antt =====
-- src/inference/scheduler.py: who has which cache slot.
use nifre.Prelude.{
  ℕ, ◌+◌, ◌≤◌, ◌<◌, ◌≡◌, refl, ap, inl, inr, Bool, true, false, not, ◌&&◌, ◌||◌, List, [], ◌∷◌,
  ◌++◌, Option, none, some, contains, erase, count, ltb, ◌==◌, if◌then◌else◌, update, arith,
  contains-count, count-append, Bool-cases,
}
use nifre.DataModel.{InferenceRequest, is_waiting, is_prefill, is_decode}
use nifre.Scheduler.{
  Scheduler, add_request, assign, assigned, assign_all, assign_waiting_to_slots, schedule,
  set_request,
}

-- 1 for the request that has the slot.
abbrev pub has_slot : Option ℕ → ℕ → ℕ
has_slot none k = 0
has_slot (some j) k = if j == k then 1 else 0

-- How many of the requests have the slot.
abbrev pub slot_refs : (ℕ → InferenceRequest) → List ℕ → ℕ → ℕ
slot_refs requests [] k = 0
slot_refs requests (id ∷ l) k = has_slot (requests id).batch_idx k + slot_refs requests l k

abbrev pub is_some : Option ℕ → Bool
is_some none = false
is_some (some k) = true

-- A request that runs is in prefill or decode, and has a slot.
abbrev pub is_active : InferenceRequest → Bool
is_active r = (is_prefill r.state || is_decode r.state) && is_some r.batch_idx

abbrev pub is_queued : InferenceRequest → Bool
is_queued r = is_waiting r.state && not (is_some r.batch_idx)

-- Each slot below the maximum is free, or has one running request; no request waits or runs twice.
pub record SlotsValid (s : Scheduler) : Type 0 where
  pub slots :
      (k : ℕ)
      → count k s.free_slots + slot_refs s.requests s.running k
        ≡ (if ltb k s.max_concurrent_requests then 1 else 0)
  pub distinct : (id : ℕ) → count id s.waiting + count id s.running ≤ 1
  pub active : (id : ℕ) → 0 < count id s.running → is_active (s.requests id) ≡ true
  pub queued : (id : ℕ) → 0 < count id s.waiting → is_queued (s.requests id) ≡ true

module _ (requests : ℕ → InferenceRequest) (k : ℕ) where
  pub slot_refs-append :
      (l l' : List ℕ)
      → slot_refs requests (l ++ l') k ≡ slot_refs requests l k + slot_refs requests l' k
  slot_refs-append [] l' = omega arith
  slot_refs-append (id ∷ l) l' = omega (arith, slot_refs-append l l')

  pub slot_refs-erase :
      (l : List ℕ) (id : ℕ)
      → contains l id ≡ true
      → slot_refs requests (erase l id) k + has_slot (requests id).batch_idx k
        ≡ slot_refs requests l k
  slot_refs-erase [] id h = ground arith
  slot_refs-erase (j ∷ l) id h = ground (arith, slot_refs-erase l id)

  -- A write to a request that is not in the list.
  pub slot_refs-absent :
      (l : List ℕ) (id : ℕ) (r : InferenceRequest)
      → contains l id ≡ false
      → slot_refs (update requests id r) l k ≡ slot_refs requests l k
  slot_refs-absent [] id r h = refl
  slot_refs-absent (j ∷ l) id r h = ground (arith, slot_refs-absent l id r)

  -- A write that leaves the slot alone.
  pub slot_refs-same :
      (l : List ℕ) (id : ℕ) (r : InferenceRequest)
      → r.batch_idx ≡ (requests id).batch_idx
      → slot_refs (update requests id r) l k ≡ slot_refs requests l k
  slot_refs-same [] id r h = refl
  slot_refs-same (j ∷ l) id r h = ground (arith, slot_refs-same l id r h)

pub slot_refs-ext :
    (f g : ℕ → InferenceRequest) (l : List ℕ) (k : ℕ)
    → ((j : ℕ) → f j ≡ g j)
    → slot_refs f l k ≡ slot_refs g l k
slot_refs-ext f g [] k e = refl
slot_refs-ext f g (j ∷ l) k e =
    ground (arith, ap (λ r. has_slot r.batch_idx k) (e j), slot_refs-ext f g l k e)

pub assign-SlotsValid :
    (s : Scheduler) (id slot : ℕ) (waiting free_slots : List ℕ)
    → s.waiting ≡ id ∷ waiting
    → s.free_slots ≡ slot ∷ free_slots
    → SlotsValid s
    → SlotsValid (assign id slot waiting free_slots s)
assign-SlotsValid s id slot waiting free_slots e f h =
    let new : contains s.running id ≡ false =
      ground (arith, contains-count s.running id, h.distinct id) in
    let requests = update s.requests id (assigned slot (s.requests id)) in
    rw new (record {
      slots = λ k. ground (
        arith,
        h.slots k,
        slot_refs-append requests k s.running (id ∷ []),
        slot_refs-absent s.requests k s.running id (assigned slot (s.requests id)) new,
      );
      distinct = λ j. ground (arith, h.distinct j, count-append j s.running (id ∷ []));
      active = λ j p. ground (arith, h.active j, count-append j s.running (id ∷ []));
      queued = λ j p. ground (arith, h.queued j, h.distinct j);
    })

assign_all-SlotsValid :
    (waiting free_slots : List ℕ) (s : Scheduler)
    → s.waiting ≡ waiting
    → s.free_slots ≡ free_slots
    → SlotsValid s
    → SlotsValid (assign_all waiting free_slots s)
unfolding assign_all
assign_all-SlotsValid (id ∷ waiting) (slot ∷ free_slots) s e f h =
    assign_all-SlotsValid waiting free_slots (assign id slot waiting free_slots s) refl refl
      (assign-SlotsValid s id slot waiting free_slots e f h)
assign_all-SlotsValid [] free_slots s e f h = h
assign_all-SlotsValid (id ∷ waiting) [] s e f h = h

-- `schedule` keeps one owner for each slot.
pub schedule-SlotsValid : (s : Scheduler) → SlotsValid s → SlotsValid (schedule s).1
unfolding schedule assign_waiting_to_slots
schedule-SlotsValid s h = assign_all-SlotsValid s.waiting s.free_slots s refl refl h

-- A write to a request that neither waits nor changes its slot, and leaves it active.
pub set_request-SlotsValid :
    (s : Scheduler) (id : ℕ) (r : InferenceRequest)
    → r.batch_idx ≡ (s.requests id).batch_idx
    → is_active r ≡ true
    → contains s.waiting id ≡ false
    → SlotsValid s
    → SlotsValid (set_request id r s)
set_request-SlotsValid s id r same act out h = record {
  slots = λ k. ground (arith, h.slots k, slot_refs-same s.requests k s.running id r same);
  distinct = h.distinct;
  active = λ j p. ground (arith, h.active j p);
  queued = λ j p. ground (arith, h.queued j p, contains-count s.waiting j);
}

-- `add_request` of a new request that has no slot; it refuses one that is not in WAITING.
pub add_request-SlotsValid :
    (id : ℕ) (s : Scheduler)
    → contains s.waiting id ≡ false
    → contains s.running id ≡ false
    → (s.requests id).batch_idx ≡ none
    → SlotsValid s
    → SlotsValid (add_request id s).1
unfolding add_request
add_request-SlotsValid id s w r b h = elim (Bool-cases (is_waiting (s.requests id).state)) [
  | inr e ↦ rw e h
  | inl e ↦ rw e (record {
    slots = h.slots;
    distinct = λ j. ground (
      arith,
      h.distinct j,
      count-append j s.waiting (id ∷ []),
      contains-count s.waiting id,
      contains-count s.running id,
    );
    active = h.active;
    queued = λ j p. ground (arith, h.queued j, count-append j s.waiting (id ∷ []));
  })
]

-- A write to a request that neither waits nor runs.
pub outside-SlotsValid :
    (s : Scheduler) (id : ℕ) (r : InferenceRequest)
    → contains s.waiting id ≡ false
    → contains s.running id ≡ false
    → SlotsValid s
    → SlotsValid (set_request id r s)
outside-SlotsValid s id r w out h = record {
  slots = λ k. ground (arith, h.slots k, slot_refs-absent s.requests k s.running id r out);
  distinct = h.distinct;
  active = λ j p. ground (arith, h.active j p, contains-count s.running j);
  queued = λ j p. ground (arith, h.queued j p, contains-count s.waiting j);
}

-- A write to other fields of a request than its state and its slot.
pub edit-SlotsValid :
    (s : Scheduler) (id : ℕ) (r : InferenceRequest)
    → r.batch_idx ≡ (s.requests id).batch_idx
    → r.state ≡ (s.requests id).state
    → SlotsValid s
    → SlotsValid (set_request id r s)
edit-SlotsValid s id r slot state h = record {
  slots = λ k. ground (arith, h.slots k, slot_refs-same s.requests k s.running id r slot);
  distinct = h.distinct;
  active = λ j p. ground (arith, h.active j p);
  queued = λ j p. ground (arith, h.queued j p);
}
