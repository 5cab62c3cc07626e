-- ===== src/Autotune/Acceptance.antt =====
-- src/autotune/policy.py and `reconfigure` of src/inference/engine.py: the engine takes what the
-- policy proposes for it.
use mathlib.Core.Path.{subst}
use nifre.Prelude.{
  ℕ, ◌≤◌, ◌≡◌, refl, sym, ap, ◌∙◌, inl, inr, Bool, true, false, [], Option, none, some, ltb, leb,
  ◌==◌, Bool-cases, arith,
}
use nifre.Prelude.Exec.{ok}
use nifre.DataModel.{Changes}
use nifre.Scheduler.{Scheduler}
use nifre.Scheduler.Slots.{SlotsValid}
use nifre.Scheduler.Reconfigure.{some_slot_above, refuses}
use nifre.Engine.{Engine}
use nifre.Engine.Config.{config_of, has_cache, reconfigure}
use nifre.Engine.Reconfigure.{
  refused, flag_refused, limits_refused, budgeted, reconfigure-Reconfigured,
}
use nifre.Policy.{TuningPlan, PolicyConfig, WorkloadLabels, TuningGoal, propose, apply_updates}
use nifre.Policy.Limits.{Within, PolicyValid, Sound, Proposed, positive, propose-Proposed}

flag_refused-kept :
    (o : Option Bool) (current cached : Bool)
    → (cached ≡ true → o ≡ none)
    → flag_refused o current cached ≡ false
flag_refused-kept none current cached h = refl
flag_refused-kept (some flag) current false h = ground arith
flag_refused-kept (some flag) current true h = let e = h refl in cc

-- With no running request each number of slots but zero is taken.
refuses-idle : (s : Scheduler) (n : ℕ) → s.running ≡ [] → 1 ≤ n → refuses s n false ≡ false
unfolding some_slot_above
refuses-idle s n idle h =
    let not_zero : leb n 0 ≡ false = ground arith in
    let enough : ltb n 0 ≡ false = ground arith in
    elim (Bool-cases (n == s.max_concurrent_requests)) [
      | inl same ↦ rw (not_zero, same) refl
      | inr other ↦ rw (not_zero, other, idle, enough) refl
    ]

limits_refused-kept :
    (s : Scheduler) (o : Option ℕ) (cached : Bool) (minimum maximum : ℕ)
    → Within minimum maximum o
    → 1 ≤ minimum
    → (cached ≡ true → o ≡ none)
    → (cached ≡ false → s.running ≡ [])
    → limits_refused s o cached ≡ false
limits_refused-kept s none cached minimum maximum w h k idle = refl
limits_refused-kept s (some n) true minimum maximum w h k idle = let e = k refl in cc
limits_refused-kept s (some n) false minimum maximum w h k idle =
    refuses-idle s n (idle refl) (omega arith)

module _ {Cache : Type 0} (policy : PolicyConfig) (valid : PolicyValid policy) where
  Sound-accepted :
      (c : Changes) (e : Engine Cache)
      → Sound policy (has_cache e) c
      → (has_cache e ≡ false → e.scheduler.running ≡ [])
      → refused c e ≡ false
  Sound-accepted c e s idle =
      rw
        (
          positive c.max_concurrent_requests _ _ valid.concurrency_min s.concurrency_within,
          positive c.prefill_chunk_size _ _ valid.chunk_min s.chunk_within,
          positive c.max_tokens_per_step _ _ valid.budget_min s.budget_within,
          s.paged_fixed,
          flag_refused-kept c.use_prefix_cache e.use_prefix_cache (has_cache e) s.prefix_fixed,
          limits_refused-kept (budgeted c.max_tokens_per_step e.scheduler) c.max_concurrent_requests
              (has_cache e) _ _ s.concurrency_within valid.concurrency_min s.concurrency_fixed idle,
        )
        refl

  -- A plan that the policy proposes for the configuration of an engine is accepted by that engine,
  -- where the limits of the policy are positive and leave room, each slot of the engine has one
  -- owner, and no request runs as long as there is no cache: `reconfigure` returns the
  -- configuration of the plan, and it is the engine's afterwards.
  pub propose-reconfigure :
      (labels : WorkloadLabels) (goal : TuningGoal) (e : Engine Cache) (plan : TuningPlan)
      → propose policy (config_of e) labels goal (has_cache e) ≡ some plan
      → SlotsValid e.scheduler
      → (has_cache e ≡ false → e.scheduler.running ≡ [])
      → ((reconfigure plan.changes e).0 ≡ ok plan.config)
        × (config_of (reconfigure plan.changes e).1 ≡ plan.config)
        × SlotsValid (reconfigure plan.changes e).1.scheduler
  unfolding apply_updates
  propose-reconfigure labels goal e plan given slots idle =
      let proposed : Proposed policy (has_cache e) (config_of e) labels (some plan) =
        subst (Proposed policy (has_cache e) (config_of e) labels) given
          (propose-Proposed policy (has_cache e) (config_of e) labels valid goal) in
      let (sound, config, _, _) = proposed in
      elim (reconfigure-Reconfigured plan.changes e slots) [
        | inl (r, _) ↦
            let accepted = Sound-accepted plan.changes e sound idle in
            absurd (let no : true ≡ false = sym r ∙ accepted in cc)
        | inr (_, answer, after, slots', _, _) ↦
            (answer ∙ ap ok (sym config), after ∙ sym config, slots')
      ]
