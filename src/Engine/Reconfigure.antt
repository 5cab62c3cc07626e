-- ===== src/Engine/Reconfigure.antt =====
-- src/inference/engine.py, `reconfigure`: when it accepts, and what it leaves behind.
use nifre.Prelude.{
  ℕ, zero, suc, ◌≡◌, refl, sym, ap, ◌⊎◌, inl, inr, Bool, true, false, ◌||◌, ◌&&◌, Option, none,
  some, if◌then◌else◌, or_else, Bool-cases, leb, arith,
}
use nifre.Prelude.Exec.{ok, raised, value_error, raise_if, when}
use nifre.DataModel.{Changes, EngineConfig, is_given_zero, validate_engine_config}
use nifre.Scheduler.{Scheduler}
use nifre.Scheduler.Slots.{SlotsValid}
use nifre.Scheduler.Reconfigure
use nifre.Scheduler.Reconfigure.{
  apply_max_concurrent, apply_max_concurrent-outcome, resized, refuses,
}
use nifre.Engine.{Engine}
use nifre.Engine.Config.{config_of, has_cache, differ, set_paged, set_prefix, reconfigure}

-- A flag that is given, and differs from the engine's, once there is a cache.
abbrev pub flag_refused : Option Bool → Bool → Bool → Bool
flag_refused none current cached = false
flag_refused (some flag) current cached = differ flag current && cached

differ-false : (a b : Bool) → differ a b ≡ false → a ≡ b
differ-false true true e = refl
differ-false false false e = refl
differ-false true false e = e
differ-false false true e = sym e

module _ {Cache : Type 0} where
  set_paged-outcome :
      (o : Option Bool) (cached : Bool) (e : Engine Cache)
      → set_paged o cached e ≡ (
          if flag_refused o e.use_paged_kv_cache cached
          then (raised value_error, e)
          else (ok tt, record e { use_paged_kv_cache = or_else o e.use_paged_kv_cache }))
  unfolding set_paged
  set_paged-outcome none cached e = refl
  set_paged-outcome (some flag) cached e = elim (Bool-cases (differ flag e.use_paged_kv_cache)) [
    | inr same ↦
        rw (same, when)
          (ap (λ b. (ok tt, record e { use_paged_kv_cache = b }))
            (sym (differ-false flag e.use_paged_kv_cache same)))
    | inl other ↦ elim (Bool-cases cached) [
      | inl c ↦ rw (other, when, c, raise_if) refl
      | inr c ↦ rw (other, when, c, raise_if) refl
    ]
  ]

  set_prefix-outcome :
      (o : Option Bool) (cached : Bool) (e : Engine Cache)
      → set_prefix o cached e ≡ (
          if flag_refused o e.use_prefix_cache cached
          then (raised value_error, e)
          else (ok tt, record e { use_prefix_cache = or_else o e.use_prefix_cache }))
  unfolding set_prefix
  set_prefix-outcome none cached e = refl
  set_prefix-outcome (some flag) cached e = elim (Bool-cases (differ flag e.use_prefix_cache)) [
    | inr same ↦
        rw (same, when)
          (ap (λ b. (ok tt, record e { use_prefix_cache = b }))
            (sym (differ-false flag e.use_prefix_cache same)))
    | inl other ↦ elim (Bool-cases cached) [
      | inl c ↦ rw (other, when, c, raise_if) refl
      | inr c ↦ rw (other, when, c, raise_if) refl
    ]
  ]

-- A number of slots that is given, and that the scheduler refuses.
abbrev pub limits_refused : Scheduler → Option ℕ → Bool → Bool
limits_refused s none cached = false
limits_refused s (some n) cached = refuses s n cached

abbrev pub budgeted : Option ℕ → Scheduler → Scheduler
budgeted o s = record s { max_tokens_per_step = or_else o s.max_tokens_per_step }

set_budget-outcome :
    (o : Option ℕ) (s : Scheduler)
    → is_given_zero o ≡ false
    → Reconfigure.set_budget o s ≡ (ok tt, budgeted o s)
unfolding Reconfigure.set_budget
set_budget-outcome none s e = refl
set_budget-outcome (some zero) s e = absurd (ground arith)
set_budget-outcome (some (suc n)) s e =
    let positive : leb (suc n) 0 ≡ false = ground arith in rw (positive, raise_if) refl

pub budgeted-SlotsValid : (o : Option ℕ) (s : Scheduler) → SlotsValid s → SlotsValid (budgeted o s)
budgeted-SlotsValid o s h = record {
  slots = h.slots;
  distinct = h.distinct;
  active = h.active;
  queued = h.queued;
}

-- The two outcomes of a change of the scheduler's number of slots.
abbrev Limited : Scheduler → Option ℕ → Bool → Type 0
Limited s o cached =
    ((limits_refused s o cached ≡ true)
      × (Reconfigure.set_concurrency o cached s ≡ (raised value_error, s)))
    ⊎ ((limits_refused s o cached ≡ false)
        × (s' : Scheduler) × (Reconfigure.set_concurrency o cached s ≡ (ok tt, s'))
        × SlotsValid s'
        × (s'.max_concurrent_requests ≡ or_else o s.max_concurrent_requests)
        × (s'.max_tokens_per_step ≡ s.max_tokens_per_step))

set_concurrency-Limited :
    (s : Scheduler) (o : Option ℕ) (cached : Bool) → SlotsValid s → Limited s o cached
unfolding Reconfigure.set_concurrency
set_concurrency-Limited s none cached h = inr (refl, s, refl, h, refl, refl)
set_concurrency-Limited s (some n) cached h = elim (apply_max_concurrent-outcome s n cached h) [
  | inl refused ↦ inl refused
  | inr accepted ↦ elim accepted [
    | inl same ↦ inr (same.0, s, same.2, h, sym same.1, refl)
    | inr resize ↦ inr (resize.0, resized n s, resize.1, resize.2, refl, refl)
  ]
]

-- The configuration with the changes in it.
abbrev pub changed : Changes → EngineConfig → EngineConfig
changed changes c = record {
  max_concurrent_requests = or_else changes.max_concurrent_requests c.max_concurrent_requests;
  prefill_chunk_size = or_else changes.prefill_chunk_size c.prefill_chunk_size;
  max_tokens_per_step = or_else changes.max_tokens_per_step c.max_tokens_per_step;
  use_paged_kv_cache = or_else changes.use_paged_kv_cache c.use_paged_kv_cache;
  use_prefix_cache = or_else changes.use_prefix_cache c.use_prefix_cache;
}

validation :
    (c : Changes)
    → is_given_zero c.max_concurrent_requests ≡ false
    → is_given_zero c.prefill_chunk_size ≡ false
    → is_given_zero c.max_tokens_per_step ≡ false
    → validate_engine_config c.max_concurrent_requests c.prefill_chunk_size c.max_tokens_per_step
      ≡ ok tt
unfolding validate_engine_config
validation c x y z = rw (x, y, z) refl

module _ {Cache : Type 0} where
  -- What `reconfigure` refuses: a setting of zero, another flag of a cache that exists, and a
  -- number of slots that the scheduler refuses.
  abbrev pub refused : Changes → Engine Cache → Bool
  refused c e =
      is_given_zero c.max_concurrent_requests
      || (is_given_zero c.prefill_chunk_size
          || (is_given_zero c.max_tokens_per_step
              || (flag_refused c.use_paged_kv_cache e.use_paged_kv_cache (has_cache e)
                  || (flag_refused c.use_prefix_cache e.use_prefix_cache (has_cache e)
                      || limits_refused (budgeted c.max_tokens_per_step e.scheduler)
                          c.max_concurrent_requests (has_cache e)))))

  -- The two outcomes of `reconfigure`.
  abbrev pub Reconfigured : Changes → Engine Cache → Type 0
  Reconfigured c e =
      ((refused c e ≡ true) × ((reconfigure c e).0 ≡ raised value_error))
      ⊎ ((refused c e ≡ false)
          × ((reconfigure c e).0 ≡ ok (changed c (config_of e)))
          × (config_of (reconfigure c e).1 ≡ changed c (config_of e))
          × SlotsValid (reconfigure c e).1.scheduler
          × ((reconfigure c e).1.scheduler.max_concurrent_requests
              ≡ or_else c.max_concurrent_requests e.scheduler.max_concurrent_requests)
          × ((reconfigure c e).1.scheduler.max_tokens_per_step
              ≡ or_else c.max_tokens_per_step e.scheduler.max_tokens_per_step))

  abbrev paged_set : Changes → Engine Cache → Engine Cache
  paged_set c e = record e {
    use_paged_kv_cache = or_else c.use_paged_kv_cache e.use_paged_kv_cache;
  }

  module _ (c : Changes) (e : Engine Cache) (h : SlotsValid e.scheduler)
      (x : is_given_zero c.max_concurrent_requests ≡ false)
      (y : is_given_zero c.prefill_chunk_size ≡ false)
      (z : is_given_zero c.max_tokens_per_step ≡ false) where
    valid_numbers : Reconfigured c e
    unfolding reconfigure Reconfigure.reconfigure
    valid_numbers =
        let s = budgeted c.max_tokens_per_step e.scheduler in
        let v = validation c x y z in
        let paged = set_paged-outcome c.use_paged_kv_cache (has_cache e) e in
        let prefix = set_prefix-outcome c.use_prefix_cache (has_cache e) (paged_set c e) in
        let budget = set_budget-outcome c.max_tokens_per_step e.scheduler z in
        elim (Bool-cases (flag_refused c.use_paged_kv_cache e.use_paged_kv_cache (has_cache e))) [
          | inl p ↦ inl (rw (x, y, z, p) refl, rw (v, paged, p) refl)
          | inr p ↦
              elim (Bool-cases (flag_refused c.use_prefix_cache e.use_prefix_cache (has_cache e))) [
                | inl q ↦ inl (rw (x, y, z, p, q) refl, rw (v, paged, p, prefix, q) refl)
                | inr q ↦
                    elim (set_concurrency-Limited s c.max_concurrent_requests (has_cache e)
                      (budgeted-SlotsValid c.max_tokens_per_step e.scheduler h)) [
                        | inl r ↦
                            inl (
                              rw (x, y, z, p, q) r.0,
                              rw (v, paged, p, prefix, q, budget, r.1) refl,
                            )
                        | inr r ↦ inr (
                          rw (x, y, z, p, q) r.0,
                          rw (v, paged, p, prefix, q, budget, r.2) refl,
                          rw (v, paged, p, prefix, q, budget, r.2) refl,
                          rw (v, paged, p, prefix, q, budget, r.2) r.3,
                          rw (v, paged, p, prefix, q, budget, r.2) r.4,
                          rw (v, paged, p, prefix, q, budget, r.2) r.5,
                        )
                      ]
              ]
        ]

  -- `reconfigure`, of an engine whose slots each have one owner. It raises ValueError for a setting
  -- of zero, for another flag of a cache that exists, and for a number of slots that the scheduler
  -- refuses; never otherwise. Where it returns, its result and the engine's configuration are the
  -- old configuration with the changes, the scheduler has the new limits, and each slot has one
  -- owner.
  pub reconfigure-Reconfigured :
      (c : Changes) (e : Engine Cache) → SlotsValid e.scheduler → Reconfigured c e
  unfolding reconfigure validate_engine_config Reconfigure.reconfigure
  reconfigure-Reconfigured c e h = elim (Bool-cases (is_given_zero c.max_concurrent_requests)) [
    | inl x ↦ inl (rw x refl, rw x refl)
    | inr x ↦ elim (Bool-cases (is_given_zero c.prefill_chunk_size)) [
      | inl y ↦ inl (rw (x, y) refl, rw (x, y) refl)
      | inr y ↦ elim (Bool-cases (is_given_zero c.max_tokens_per_step)) [
        | inl z ↦ inl (rw (x, y, z) refl, rw (x, y, z) refl)
        | inr z ↦ valid_numbers c e h x y z
      ]
    ]
  ]
