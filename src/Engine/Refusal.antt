-- ===== src/Engine/Refusal.antt =====
-- src/inference/engine.py, `reconfigure`: the slots of the scheduler, also when it raises halfway.
use nifre.Prelude.{ℕ, Bool, Option, none, some, inl, inr}
use nifre.Prelude.Exec.{
  Exec, Keeps, bind-Keeps, when-Keeps, pure-Keeps, get_state-Keeps, lift-Keeps, modify-Keeps,
  raise_if-Keeps,
}
use nifre.DataModel.{Changes}
use nifre.Scheduler.{Scheduler}
use nifre.Scheduler.Slots.{SlotsValid}
use nifre.Scheduler.Reconfigure
use nifre.Scheduler.Reconfigure.{apply_max_concurrent, apply_max_concurrent-outcome}
use nifre.Engine.{Engine, on_scheduler}
use nifre.Engine.Slots.{Valid}
use nifre.Engine.Config.{
  config_of, has_cache, differ, set_paged, set_prefix, set_chunk, set_budget, set_concurrency,
  reconfigure,
}
use nifre.Engine.Reconfigure.{budgeted-SlotsValid}

set_budget-Keeps : (o : Option ℕ) → Keeps SlotsValid (Reconfigure.set_budget o)
unfolding Reconfigure.set_budget
set_budget-Keeps none = pure-Keeps tt
set_budget-Keeps (some n) =
    bind-Keeps (raise_if-Keeps _ _) (λ u. modify-Keeps (λ s h. budgeted-SlotsValid (some n) s h))

set_concurrency-Keeps :
    (o : Option ℕ) (cached : Bool) → Keeps SlotsValid (Reconfigure.set_concurrency o cached)
unfolding Reconfigure.set_concurrency
set_concurrency-Keeps none cached = pure-Keeps tt
set_concurrency-Keeps (some n) cached = record {
  keeps = λ s h. elim (apply_max_concurrent-outcome s n cached h) [
    | inl (r, e) ↦ rw e h
    | inr (inl (r, same, e)) ↦ rw e h
    | inr (inr (r, e, v, _, _)) ↦ rw e v
  ];
}

scheduler-Keeps :
    (budget concurrency : Option ℕ) (cached : Bool)
    → Keeps SlotsValid (Reconfigure.reconfigure budget concurrency cached)
unfolding Reconfigure.reconfigure
scheduler-Keeps budget concurrency cached =
    bind-Keeps (set_budget-Keeps budget) (λ u. set_concurrency-Keeps concurrency cached)

module _ {Cache : Type 0} where
  on_scheduler-Keeps :
      {A : Type 0} {m : Exec Scheduler A}
      → Keeps SlotsValid m
      → Keeps {S = Engine Cache} Valid (on_scheduler m)
  on_scheduler-Keeps k = record { keeps = λ e h. k.keeps e.scheduler h }

  set_paged-Keeps :
      (o : Option Bool) (cached : Bool) → Keeps {S = Engine Cache} Valid (set_paged o cached)
  unfolding set_paged
  set_paged-Keeps none cached = pure-Keeps tt
  set_paged-Keeps (some flag) cached = bind-Keeps get_state-Keeps (λ e.
      when-Keeps (differ flag e.use_paged_kv_cache)
        (bind-Keeps (raise_if-Keeps _ _) (λ u. modify-Keeps (λ e h. h))))

  set_prefix-Keeps :
      (o : Option Bool) (cached : Bool) → Keeps {S = Engine Cache} Valid (set_prefix o cached)
  unfolding set_prefix
  set_prefix-Keeps none cached = pure-Keeps tt
  set_prefix-Keeps (some flag) cached = bind-Keeps get_state-Keeps (λ e.
      when-Keeps (differ flag e.use_prefix_cache)
        (bind-Keeps (raise_if-Keeps _ _) (λ u. modify-Keeps (λ e h. h))))

  pub reconfigure-Keeps : (c : Changes) → Keeps {S = Engine Cache} Valid (reconfigure c)
  unfolding reconfigure
  reconfigure-Keeps c = bind-Keeps (lift-Keeps _) (λ u. bind-Keeps get_state-Keeps (λ e.
      bind-Keeps (set_paged-Keeps c.use_paged_kv_cache (has_cache e)) (λ u.
        bind-Keeps (set_prefix-Keeps c.use_prefix_cache (has_cache e)) (λ u.
          bind-Keeps (modify-Keeps {f = set_chunk c.prefill_chunk_size} (λ e h. h)) (λ u.
            bind-Keeps (modify-Keeps {f = set_budget c.max_tokens_per_step} (λ e h. h)) (λ u.
              bind-Keeps
                (on_scheduler-Keeps
                  (scheduler-Keeps c.max_tokens_per_step c.max_concurrent_requests (has_cache e)))
                (λ u.
                  bind-Keeps
                    (modify-Keeps {f = set_concurrency c.max_concurrent_requests} (λ e h. h))
                    (λ u. bind-Keeps get_state-Keeps (λ e. pure-Keeps (config_of e))))))))))
