-- ===== src/Scheduler/Reconfigure.antt =====
-- src/inference/scheduler.py, `reconfigure` and `_apply_max_concurrent`, and what they keep.
use nifre.Prelude.{
  ℕ, zero, suc, ◌+◌, ◌≤◌, ◌<◌, ◌≡◌, refl, ◌⊎◌, inl, inr, Bool, true, false, not, ◌&&◌, ◌||◌, List,
  [], ◌∷◌, ◌++◌, Option, none, some, length, contains, count, ltb, leb, ◌==◌, ==_iff, if◌then◌else◌,
  arith, contains-count, count-append, Bool-cases, ◌-◌,
}
use nifre.Prelude.Exec.{
  Exec, ok, raised, value_error, pure, raise_if, get_state, modify, when, ◌>>=◌, ◌>>◌,
}
use nifre.DataModel.{InferenceRequest}
use nifre.Scheduler.{Scheduler, range_from}
use nifre.Scheduler.Sorting.{IsSorted, sort, sort-IsSorted, count-sort}
use nifre.Scheduler.Slots.{SlotsValid, slot_refs}

-- `request.batch_idx is not None and request.batch_idx >= new_max`, for some running request.
abbrev pub slot_above : ℕ → Option ℕ → Bool
slot_above new_max none = false
slot_above new_max (some slot) = leb new_max slot

unfoldable pub some_slot_above : (ℕ → InferenceRequest) → List ℕ → ℕ → Bool
some_slot_above requests [] new_max = false
some_slot_above requests (id ∷ running) new_max =
    slot_above new_max (requests id).batch_idx || some_slot_above requests running new_max

-- The slots of a range that are not in the list go to its end.
unfoldable pub add_missing : List ℕ → List ℕ → List ℕ
add_missing free_slots [] = free_slots
add_missing free_slots (slot ∷ slots) =
    add_missing (if contains free_slots slot then free_slots else free_slots ++ slot ∷ []) slots

-- `[slot for slot in free_slots if slot < new_max]`
unfoldable pub keep_below : List ℕ → ℕ → List ℕ
keep_below [] new_max = []
keep_below (slot ∷ l) new_max =
    let rest = keep_below l new_max in if ltb slot new_max then slot ∷ rest else rest

unfoldable pub resized_slots : List ℕ → ℕ → ℕ → List ℕ
unfolding add_missing keep_below range_from
resized_slots free_slots old_max new_max =
    if ltb old_max new_max
    then add_missing free_slots (range_from old_max (new_max - old_max))
    else keep_below free_slots new_max

abbrev pub resized : ℕ → Scheduler → Scheduler
resized new_max s = record s {
  free_slots = sort (resized_slots s.free_slots s.max_concurrent_requests new_max);
  max_concurrent_requests = new_max;
}

unfoldable pub apply_max_concurrent : ℕ → Bool → Exec Scheduler (Unit {0})
apply_max_concurrent new_max cache_initialized = do
  raise_if (leb new_max 0) value_error
  s ← get_state
  when (not (new_max == s.max_concurrent_requests)) (do
    raise_if (cache_initialized && ltb s.max_concurrent_requests new_max) value_error
    raise_if (ltb new_max (length s.running)) value_error
    raise_if (some_slot_above s.requests s.running new_max) value_error
    modify (resized new_max))

unfoldable pub set_budget : Option ℕ → Exec Scheduler (Unit {0})
set_budget none = pure tt
set_budget (some budget) = do
  raise_if (leb budget 0) value_error
  modify (λ s. record s { max_tokens_per_step = budget })

unfoldable pub set_concurrency : Option ℕ → Bool → Exec Scheduler (Unit {0})
unfolding apply_max_concurrent
set_concurrency none cache_initialized = pure tt
set_concurrency (some new_max) cache_initialized = apply_max_concurrent new_max cache_initialized

unfoldable pub reconfigure : Option ℕ → Option ℕ → Bool → Exec Scheduler (Unit {0})
unfolding set_budget set_concurrency
reconfigure budget max_concurrent cache_initialized = do
  set_budget budget
  set_concurrency max_concurrent cache_initialized

count-keep_below :
    (k : ℕ) (l : List ℕ) (n : ℕ) → count k (keep_below l n) ≡ (if ltb k n then count k l else 0)
unfolding keep_below
count-keep_below k [] n = ground arith
count-keep_below k (x ∷ l) n = ground (arith, count-keep_below k l n)

count-range_from :
    (k start n : ℕ)
    → count k (range_from start n) ≡ (if leb start k && ltb k (start + n) then 1 else 0)
unfolding range_from
count-range_from k start zero = ground arith
count-range_from k start (suc n) = ground (arith, count-range_from k (suc start) n)

-- Slots that are not in the list, each once.
count-add_missing :
    (k : ℕ) (slots l : List ℕ)
    → count k slots ≤ 1
    → ((j : ℕ) → 0 < count j slots → count j l ≡ 0)
    → ((j : ℕ) → count j slots ≤ 1)
    → count k (add_missing l slots) ≡ count k l + count k slots
unfolding add_missing
count-add_missing k [] l once new all = omega arith
count-add_missing k (slot ∷ slots) l once new all =
    let fresh : contains l slot ≡ false =
      let n = new slot in ground (arith, contains-count l slot) in
    rw fresh (
      omega (
        arith,
        count-add_missing k slots (l ++ slot ∷ []) (omega arith)
            (λ j p. let o = all j in let n = new j in ground (arith, count-append j l (slot ∷ [])))
            (λ j. let o = all j in omega arith),
        count-append k l (slot ∷ []),
      ))

slot_refs_below :
    (requests : ℕ → InferenceRequest) (l : List ℕ) (n k : ℕ)
    → some_slot_above requests l n ≡ false
    → n ≤ k
    → slot_refs requests l k ≡ 0
unfolding some_slot_above
slot_refs_below requests [] n k e h = refl
slot_refs_below requests (id ∷ l) n k e h = ground (arith, slot_refs_below requests l n k)

module _ (s : Scheduler) (h : SlotsValid s) (new_max : ℕ)
    (below : some_slot_above s.requests s.running new_max ≡ false) where
  resized_slots-count :
      (k : ℕ)
      → count k (resized_slots s.free_slots s.max_concurrent_requests new_max)
          + slot_refs s.requests s.running k
        ≡ (if ltb k new_max then 1 else 0)
  unfolding resized_slots
  resized_slots-count k = elim (Bool-cases (ltb s.max_concurrent_requests new_max)) [
    | inr shrinks ↦ rw shrinks (
        ground (
          arith,
          h.slots k,
          count-keep_below k s.free_slots new_max,
          slot_refs_below s.requests s.running new_max k below,
        ))
    | inl grows ↦
        let range = new_max - s.max_concurrent_requests in
        rw grows (
          ground (
            arith,
            h.slots k,
            count-add_missing k (range_from s.max_concurrent_requests range) s.free_slots
                (ground (arith, count-range_from k s.max_concurrent_requests range))
                (λ j p.
                  ground (arith, h.slots j, count-range_from j s.max_concurrent_requests range))
                (λ j. ground (arith, count-range_from j s.max_concurrent_requests range)),
            count-range_from k s.max_concurrent_requests range,
          ))
  ]

  resized-SlotsValid : SlotsValid (resized new_max s)
  resized-SlotsValid = record {
    slots = λ k. omega (
      arith,
      count-sort k (resized_slots s.free_slots s.max_concurrent_requests new_max),
      resized_slots-count k,
    );
    distinct = h.distinct;
    active = h.active;
    queued = h.queued;
  }

-- What `_apply_max_concurrent` refuses: no slots at all, more slots than a cache that exists has
-- rows for, fewer slots than requests run, and a slot in use that would be gone.
abbrev pub refuses : Scheduler → ℕ → Bool → Bool
refuses s new_max cache_initialized =
    leb new_max 0
    || (not (new_max == s.max_concurrent_requests)
        && ((cache_initialized && ltb s.max_concurrent_requests new_max)
            || (ltb new_max (length s.running) || some_slot_above s.requests s.running new_max)))

-- The three outcomes of a change of the number of slots.
abbrev pub Resizing : Scheduler → ℕ → Bool → Type 0
Resizing s new_max cache_initialized =
    ((refuses s new_max cache_initialized ≡ true)
      × (apply_max_concurrent new_max cache_initialized s ≡ (raised value_error, s)))
    ⊎ (((refuses s new_max cache_initialized ≡ false)
          × (new_max ≡ s.max_concurrent_requests)
          × (apply_max_concurrent new_max cache_initialized s ≡ (ok tt, s)))
        ⊎ ((refuses s new_max cache_initialized ≡ false)
            × (apply_max_concurrent new_max cache_initialized s ≡ (ok tt, resized new_max s))
            × SlotsValid (resized new_max s)
            × IsSorted (resized new_max s).free_slots
            × ((resized new_max s).max_concurrent_requests ≡ new_max)))

-- A change of the number of slots is refused without any change; or it is to the number there is;
-- or the scheduler has the new number of slots afterwards, the free ones sorted, and each slot
-- below that number is free or has one running request.
pub apply_max_concurrent-outcome :
    (s : Scheduler) (new_max : ℕ) (cache_initialized : Bool)
    → SlotsValid s
    → Resizing s new_max cache_initialized
unfolding apply_max_concurrent
apply_max_concurrent-outcome s new_max cached h = elim (Bool-cases (leb new_max 0)) [
  | inl zero_slots ↦ inl (rw zero_slots, rw (zero_slots, raise_if))
  | inr pos ↦ elim (Bool-cases (new_max == s.max_concurrent_requests)) [
    | inl same ↦ inr (inl (rw (pos, same), (==_iff _ _).0 same, rw (pos, raise_if, same, when)))
    | inr other ↦ elim (Bool-cases (cached && ltb s.max_concurrent_requests new_max)) [
      | inl grows ↦ inl (rw (pos, other, grows), rw (pos, raise_if, other, when, grows))
      | inr fine ↦ elim (Bool-cases (ltb new_max (length s.running))) [
        | inl few ↦ inl (rw (pos, other, fine, few), rw (pos, raise_if, other, when, fine, few))
        | inr room ↦ elim (Bool-cases (some_slot_above s.requests s.running new_max)) [
          | inl used ↦
              inl (
                rw (pos, other, fine, room, used),
                rw (pos, raise_if, other, when, fine, room, used),
              )
          | inr unused ↦ inr (
              inr (
                rw (pos, other, fine, room, unused),
                rw (pos, raise_if, other, when, fine, room, unused),
                resized-SlotsValid s h new_max unused,
                sort-IsSorted (resized_slots s.free_slots s.max_concurrent_requests new_max),
                refl,
              ))
        ]
      ]
    ]
  ]
]
