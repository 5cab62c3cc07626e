-- ===== src/Scheduler/Assignment.antt =====
-- src/inference/scheduler.py, `_assign_waiting_to_slots`: which requests get which slots.
use mathlib.Core.Option.{some_inj}
use nifre.Prelude.{
  ℕ, zero, suc, ◌≤◌, ◌<◌, ◌≡◌, refl, sym, ap, ◌∙◌, ◌⊎◌, inl, inr, false, List, [], ◌∷◌, ◌++◌, some,
  length, get_elem?, take, drop, contains, count, ◌==◌, ==_refl, ==_iff, arith, contains-count,
  append_assoc, append-nil, Bool-cases,
}
use nifre.Scheduler.{Scheduler, assign, assigned, assign_all, assign_waiting_to_slots, schedule}
use nifre.Scheduler.Slots.{SlotsValid, assign-SlotsValid}

count-take : (j n : ℕ) (l : List ℕ) → count j (take n l) ≤ count j l
count-take j zero l = omega arith
count-take j (suc n) [] = omega arith
count-take j (suc n) (x ∷ l) = ground (arith, count-take j n l)

count-get_elem? : (l : List ℕ) (i j : ℕ) → get_elem? l i ≡ some j → 0 < count j l
count-get_elem? [] i j e = absurd cc
count-get_elem? (x ∷ l) zero j e = ground arith
count-get_elem? (x ∷ l) (suc i) j e = ground (arith, count-get_elem? l i j e)

-- The first requests of a queue get the first of the free slots, in order, until one of the two
-- lists is empty; they go to the end of the running ones, and no other request changes.
pub record Assigned (waiting free_slots : List ℕ) (s s' : Scheduler) : Type 0 where
  pub taken : ℕ
  pub until_empty : (taken ≡ length waiting) ⊎ (taken ≡ length free_slots)
  pub left_waiting : s'.waiting ≡ drop taken waiting
  pub left_free : s'.free_slots ≡ drop taken free_slots
  pub now_running : s'.running ≡ s.running ++ take taken waiting
  pub owners :
      (i id slot : ℕ)
      → get_elem? waiting i ≡ some id
      → get_elem? free_slots i ≡ some slot
      → s'.requests id ≡ assigned slot (s.requests id)
  pub others : (j : ℕ) → contains (take taken waiting) j ≡ false → s'.requests j ≡ s.requests j
  pub valid : SlotsValid s'

module _ (id slot : ℕ) (waiting free_slots : List ℕ) (s s' : Scheduler)
    (e : s.waiting ≡ id ∷ waiting) (f : s.free_slots ≡ slot ∷ free_slots) (h : SlotsValid s)
    (rest : Assigned waiting free_slots (assign id slot waiting free_slots s) s') where
  once : count id waiting ≡ 0
  once = let d = h.distinct id in ground (arith, e, ==_refl id)

  new : contains s.running id ≡ false
  new = let d = h.distinct id in ground (arith, e, ==_refl id, contains-count s.running id)

  -- The first request of the queue is not written to again.
  first_kept : s'.requests id ≡ assigned slot (s.requests id)
  first_kept =
      rest.others id (
        let o = once in
        ground
          (arith, contains-count (take rest.taken waiting) id, count-take id rest.taken waiting))
      ∙ rw (==_refl id) refl

  owners-next :
      (i j k : ℕ)
      → get_elem? (id ∷ waiting) i ≡ some j
      → get_elem? (slot ∷ free_slots) i ≡ some k
      → s'.requests j ≡ assigned k (s.requests j)
  owners-next zero j k p q =
      let same : id ≡ j = some_inj.0 p in
      let slot_eq : slot ≡ k = some_inj.0 q in rw (← same, ← slot_eq) first_kept
  owners-next (suc i) j k p q =
      let there = count-get_elem? waiting i j p in
      let o = once in
      elim (Bool-cases (id == j)) [
        | inl same ↦
            let z : id ≡ j = (==_iff id j).0 same in
            absurd (omega (arith, ap (λ x. count x waiting) z))
        | inr other ↦ rest.owners i j k p q ∙ rw other refl
      ]

  Assigned-next : Assigned (id ∷ waiting) (slot ∷ free_slots) s s'
  Assigned-next = record {
    taken = suc rest.taken;
    until_empty = elim rest.until_empty [
      | inl p ↦ inl (omega (arith, p))
      | inr p ↦ inr (omega (arith, p))
    ];
    left_waiting = rest.left_waiting;
    left_free = rest.left_free;
    now_running =
        rest.now_running ∙ rw new (append_assoc s.running (id ∷ []) (take rest.taken waiting));
    owners = owners-next;
    others = λ j p. elim (Bool-cases (id == j)) [
      | inl same ↦ absurd (ground arith)
      | inr other ↦ rest.others j (ground arith) ∙ rw other refl
    ];
    valid = rest.valid;
  }

assign_all-Assigned :
    (waiting free_slots : List ℕ) (s : Scheduler)
    → s.waiting ≡ waiting
    → s.free_slots ≡ free_slots
    → SlotsValid s
    → Assigned waiting free_slots s (assign_all waiting free_slots s)
unfolding assign_all
assign_all-Assigned (id ∷ waiting) (slot ∷ free_slots) s e f h =
    Assigned-next id slot waiting free_slots s _ e f h (
      assign_all-Assigned waiting free_slots (assign id slot waiting free_slots s) refl refl
        (assign-SlotsValid s id slot waiting free_slots e f h))
assign_all-Assigned [] free_slots s e f h = record {
  taken = 0;
  until_empty = inl refl;
  left_waiting = e;
  left_free = f;
  now_running = sym (append-nil s.running);
  owners = λ i id slot p q. absurd cc;
  others = λ j p. refl;
  valid = h;
}
assign_all-Assigned (id ∷ waiting) [] s e f h = record {
  taken = 0;
  until_empty = inr refl;
  left_waiting = e;
  left_free = f;
  now_running = sym (append-nil s.running);
  owners = λ i id slot p q. absurd cc;
  others = λ j p. refl;
  valid = h;
}

-- `schedule` of a scheduler where each slot has one owner. The waiting requests get the free slots
-- in the order of both lists until no request waits or no slot is free; each of them is in prefill
-- with its slot, and otherwise as before; they are the last of the running ones. The other
-- requests do not change, and each slot keeps one owner.
pub schedule-Assigned :
    (s : Scheduler) → SlotsValid s → Assigned s.waiting s.free_slots s (schedule s).1
unfolding schedule assign_waiting_to_slots
schedule-Assigned s h = assign_all-Assigned s.waiting s.free_slots s refl refl h
