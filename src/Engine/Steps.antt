-- ===== src/Engine/Steps.antt =====
-- src/inference/engine.py: `step`, `run_until_done` and `_cancel_request`.
use Prim.Native.String.{String}
use nifre.Prelude.{
  ℕ, zero, suc, Bool, true, false, List, [], ◌∷◌, Option, none, some, if◌then◌else◌,
}
use nifre.Prelude.Exec.{Exec, Outcome, ok, raised, pure, get_state, modify, when, ◌>>=◌, ◌>>◌}
use nifre.DataModel.{InferenceRequest, prefill_complete, is_finished}
use nifre.Scheduler
use nifre.Scheduler.{Scheduler, ScheduleResult}
use nifre.Engine.{
  Backend, Engine, on_scheduler, on_cache, set_scheduler, index, ensure_cache, emit_token,
}
use nifre.Engine.Runner.{get_request, prefill, decode}

module _ {Cache : Type 0} (backend : Backend Cache) where
  -- `_release_cache_slot`; the cache is not None where it is called.
  unfoldable pub release_cache_slot : Option ℕ → ℕ → Exec (Engine Cache) (Unit {0})
  release_cache_slot none id = pure tt
  release_cache_slot (some slot) id = do
    r ← get_request id
    when (is_finished r.state) (on_cache (backend.reset_slot slot))

  unfoldable pub register :
      Option (ℕ → List ℕ → Exec Cache (Unit {0}))
      → InferenceRequest
      → Exec (Engine Cache) (Unit {0})
  register none r = pure tt
  register (some register_prefix) r =
      when (prefill_complete r)
        (do slot ← index r.batch_idx; on_cache (register_prefix slot r.prompt_token_ids))

  -- The first token of a request, where its prefill is complete.
  unfoldable pub accept_first : ℕ → Option ℕ → Option ℕ → Exec (Engine Cache) (Unit {0})
  unfolding release_cache_slot
  accept_first id none batch_idx = pure tt
  accept_first id (some token) batch_idx = do
    on_scheduler (Scheduler.mark_prefill_done id)
    on_scheduler (Scheduler.mark_decode_done id token)
    modify (emit_token id token)
    release_cache_slot batch_idx id

  unfoldable pub accept_prefill : List ℕ → List (Option ℕ) → Exec (Engine Cache) (Unit {0})
  unfolding register accept_first
  accept_prefill (id ∷ ids) (token ∷ tokens) = do
    r ← get_request id
    register backend.register_prefix r
    accept_first id token r.batch_idx
    accept_prefill ids tokens
  accept_prefill _ _ = pure tt

  unfoldable pub run_prefill : List ℕ → Exec (Engine Cache) (Unit {0})
  unfolding accept_prefill
  run_prefill ids = do tokens ← prefill backend ids; accept_prefill ids tokens

  unfoldable pub accept_decode : List ℕ → List ℕ → Exec (Engine Cache) (Unit {0})
  unfolding release_cache_slot
  accept_decode (id ∷ ids) (token ∷ tokens) = do
    r ← get_request id
    on_scheduler (Scheduler.mark_decode_done id token)
    modify (emit_token id token)
    release_cache_slot r.batch_idx id
    accept_decode ids tokens
  accept_decode _ _ = pure tt

  unfoldable pub run_decode : List ℕ → Exec (Engine Cache) (Unit {0})
  unfolding accept_decode
  run_decode ids = do tokens ← decode backend ids; accept_decode ids tokens

  -- `if requests: run(requests)`
  abbrev pub unless_empty :
      (List ℕ → Exec (Engine Cache) (Unit {0})) → List ℕ → Exec (Engine Cache) (Unit {0})
  unless_empty run [] = pure tt
  unless_empty run (id ∷ ids) = run (id ∷ ids)

  abbrev pub schedule : Exec (Engine Cache) ScheduleResult
  schedule e = let (result, s) = Scheduler.schedule e.scheduler in (ok result, set_scheduler e s)

  abbrev pub work : Exec (Engine Cache) Bool
  work = do
    ensure_cache backend
    result ← schedule
    unless_empty run_prefill result.prefill_requests
    unless_empty run_decode result.decode_requests
    pure true

  unfoldable pub step : Exec (Engine Cache) Bool
  step e = if Scheduler.has_work e.scheduler then work e else (ok false, e)

  -- `run_until_done` on fuel: none when it is used up.
  unfoldable pub run_until_done : ℕ → Engine Cache → Option (Outcome (Unit {0}) × Engine Cache)
  unfolding step
  run_until_done zero e = none
  run_until_done (suc fuel) e =
      let (r, e') = step e in
      let rest = run_until_done fuel e' in
      elim r [
        | raised err ↦ some (raised err, e')
        | ok more ↦ if more then rest else some (ok tt, e')
      ]

  -- `if request.batch_idx is not None and self.cache is not None`
  abbrev pub reset_some : Option ℕ → Option Cache → Exec (Engine Cache) (Unit {0})
  reset_some (some slot) (some c) = on_cache (backend.reset_slot slot)
  reset_some _ _ = pure tt

  -- `_cancel_request` reads the slot of the request after the scheduler has cancelled it.
  unfoldable pub cancel_request : ℕ → String → Exec (Engine Cache) (Unit {0})
  cancel_request id status = do
    on_scheduler (Scheduler.cancel_request id status)
    e ← get_state
    reset_some (e.scheduler.requests id).batch_idx e.cache
