-- ===== src/Engine/Slots.antt =====
-- src/inference/engine.py, `step`: the slots of the scheduler, whatever the cache and the model do.
use nifre.Prelude.{
  ℕ, ◌≡◌, refl, Bool, true, false, List, [], ◌∷◌, Option, none, some, drop, not, ltb, ◌==◌,
  Bool-cases, contains, inl, inr,
}
use nifre.Prelude.Exec.{
  Exec, Outcome, ok, raised, Keeps, bind-Keeps, when-Keeps, pure-Keeps, get_state-Keeps, lift-Keeps,
  item-Keeps, modify-Keeps,
}
use nifre.DataModel.{InferenceRequest, prefill_complete, is_finished}
use nifre.Scheduler
use nifre.Scheduler.{ScheduleResult, has_work}
use nifre.Scheduler.Slots.{SlotsValid, schedule-SlotsValid, edit-SlotsValid}
use nifre.Scheduler.Calls.{any_prefill_done-SlotsValid, any_decode_done-SlotsValid}
use nifre.Engine.{
  Backend, Engine, on_scheduler, on_cache, run_on, index, install, ensure, ensure_cache, make_cache,
  emit_token,
}
use nifre.Engine.Runner.{
  edit_request, get_request, with_loaded, prepared, advanced, load_prefix, fill_slot, prepare_slot,
  prepare_slots, slots_of, sampled, advance_all, prefill, last_token, last_tokens, sample_all,
  decode,
}
use nifre.Engine.Steps
use nifre.Engine.Steps.{
  release_cache_slot, register, accept_first, accept_prefill, run_prefill, accept_decode,
  run_decode, step, unless_empty, work,
}

abbrev pub Valid : {Cache : Type 0} → Engine Cache → Type 0
Valid e = SlotsValid e.scheduler

module _ {Cache : Type 0} where
  -- The expressions that read.
  get_request-Keeps : (id : ℕ) → Keeps {S = Engine Cache} Valid (get_request id)
  get_request-Keeps id = record { keeps = λ e v. v }

  index-Keeps : (k : Option ℕ) → Keeps {S = Engine Cache} Valid (index k)
  index-Keeps none = record { keeps = λ e v. v }
  index-Keeps (some k) = record { keeps = λ e v. v }

  -- The cache is not part of the scheduler.
  run_on-Keeps :
      {A : Type 0} (c : Option Cache) (m : Exec Cache A)
      → Keeps {S = Engine Cache} Valid (run_on c m)
  run_on-Keeps none m = record { keeps = λ e v. v }
  run_on-Keeps (some c) m = record { keeps = λ e v. v }

  on_cache-Keeps : {A : Type 0} (m : Exec Cache A) → Keeps {S = Engine Cache} Valid (on_cache m)
  on_cache-Keeps m = record { keeps = λ e v. (run_on-Keeps e.cache m).keeps e v }

  edit_request-Keeps :
      (id : ℕ) (f : InferenceRequest → InferenceRequest)
      → ((r : InferenceRequest) → (f r).batch_idx ≡ r.batch_idx)
      → ((r : InferenceRequest) → (f r).state ≡ r.state)
      → Keeps {S = Engine Cache} Valid (edit_request id f)
  edit_request-Keeps id f slot state = record {
    keeps = λ e v.
        let r = e.scheduler.requests id in
        edit-SlotsValid e.scheduler id (f r) (slot r) (state r) v;
  }

  emit_token-Valid : (id token : ℕ) (e : Engine Cache) → Valid e → Valid (emit_token id token e)
  unfolding emit_token
  emit_token-Valid id token e v = elim (Bool-cases (contains e.token_callbacks id)) [
    | inl c ↦ rw c v
    | inr c ↦ rw c v
  ]

module _ {Cache : Type 0} (backend : Backend Cache) where
  install-Keeps : (o : Outcome Cache) → Keeps Valid (install backend o)
  install-Keeps (raised err) = record { keeps = λ e v. v }
  install-Keeps (ok c) = record { keeps = λ e v. v }

  ensure-Keeps : (o : Option Cache) → Keeps Valid (ensure backend o)
  ensure-Keeps (some c) = record { keeps = λ e v. v }
  ensure-Keeps none = record {
    keeps = λ e v.
        (install-Keeps (
            make_cache backend backend.make_model_cache e.use_paged_kv_cache
              e.use_prefix_cache)).keeps
          e v;
  }

  ensure_cache-Keeps : Keeps Valid (ensure_cache backend)
  unfolding ensure_cache
  ensure_cache-Keeps = record { keeps = λ e v. (ensure-Keeps e.cache).keeps e v }

  load_prefix-Keeps : (o : _) (r : InferenceRequest) → Keeps Valid (load_prefix backend o r)
  unfolding load_prefix
  load_prefix-Keeps none r = record { keeps = λ e v. v }
  load_prefix-Keeps (some f) r =
      bind-Keeps (index-Keeps r.batch_idx) (λ slot. on_cache-Keeps (f slot r.prompt_token_ids))

  fill_slot-Keeps :
      (id : ℕ) (r : InferenceRequest) (loaded : ℕ) → Keeps Valid (fill_slot backend id r loaded)
  unfolding fill_slot
  fill_slot-Keeps id r loaded = elim (Bool-cases (ltb 0 loaded)) [
    | inl hit ↦ rw hit (edit_request-Keeps id (with_loaded loaded) (λ r. refl) (λ r. refl))
    | inr miss ↦ rw miss (
        when-Keeps (r.prefill_offset == 0)
          (bind-Keeps (index-Keeps r.batch_idx) (λ slot. on_cache-Keeps (backend.reset_slot slot))))
  ]

  prepare_slot-Keeps : (id : ℕ) → Keeps Valid (prepare_slot backend id)
  unfolding prepare_slot
  prepare_slot-Keeps id = bind-Keeps (get_request-Keeps id) (λ r. when-Keeps (not r.slot_prepared) (
      bind-Keeps (load_prefix-Keeps backend.try_load_prefix r) (λ loaded.
        bind-Keeps (fill_slot-Keeps id r loaded)
          (λ u. edit_request-Keeps id prepared (λ r. refl) (λ r. refl)))))

  prepare_slots-Keeps : (ids : List ℕ) → Keeps Valid (prepare_slots backend ids)
  unfolding prepare_slots
  prepare_slots-Keeps [] = record { keeps = λ e v. v }
  prepare_slots-Keeps (id ∷ ids) = bind-Keeps (prepare_slot-Keeps id) (λ u. prepare_slots-Keeps ids)

  slots_of-Keeps : (ids : List ℕ) → Keeps Valid (slots_of backend ids)
  unfolding slots_of
  slots_of-Keeps [] = record { keeps = λ e v. v }
  slots_of-Keeps (id ∷ ids) = bind-Keeps (get_request-Keeps id) (λ r.
      bind-Keeps (index-Keeps r.batch_idx)
        (λ slot. bind-Keeps (slots_of-Keeps ids) (λ slots. pure-Keeps (slot ∷ slots))))

  sampled-Keeps : (b : Bool) (logits : List ℕ) → Keeps Valid (sampled backend b logits)
  sampled-Keeps false logits = record { keeps = λ e v. v }
  sampled-Keeps true [] = record { keeps = λ e v. v }
  sampled-Keeps true (token ∷ logits) = record { keeps = λ e v. v }

  advance_all-Keeps : (ids lens logits : List ℕ) → Keeps Valid (advance_all backend ids lens logits)
  unfolding advance_all
  advance_all-Keeps (id ∷ ids) (chunk_len ∷ lens) logits =
      bind-Keeps (edit_request-Keeps id (advanced chunk_len) (λ r. refl) (λ r. refl)) (λ u.
        bind-Keeps (get_request-Keeps id) (λ r.
          bind-Keeps (sampled-Keeps (prefill_complete r) logits) (λ result.
            bind-Keeps (advance_all-Keeps ids lens (drop 1 logits))
              (λ results. pure-Keeps (result ∷ results)))))
  advance_all-Keeps [] lens logits = record { keeps = λ e v. v }
  advance_all-Keeps (id ∷ ids) [] logits = record { keeps = λ e v. v }

  prefill-Keeps : (ids : List ℕ) → Keeps Valid (prefill backend ids)
  unfolding prefill
  prefill-Keeps ids = bind-Keeps (prepare_slots-Keeps ids) (λ u. bind-Keeps get_state-Keeps (λ e.
      bind-Keeps (lift-Keeps _) (λ batch. bind-Keeps (slots_of-Keeps ids) (λ slots.
        bind-Keeps (on_cache-Keeps (backend.forward batch.0 (some batch.1) slots))
          (λ logits. advance_all-Keeps ids batch.1 logits)))))

  last_tokens-Keeps : (ids : List ℕ) → Keeps Valid (last_tokens backend ids)
  unfolding last_tokens
  last_tokens-Keeps [] = record { keeps = λ e v. v }
  last_tokens-Keeps (id ∷ ids) = bind-Keeps (get_request-Keeps id) (λ r.
      bind-Keeps (item-Keeps (last_token r.output_token_ids)) (λ token.
        bind-Keeps (last_tokens-Keeps ids) (λ tokens. pure-Keeps ((token ∷ []) ∷ tokens))))

  sample_all-Keeps : (ids logits : List ℕ) → Keeps Valid (sample_all backend ids logits)
  unfolding sample_all
  sample_all-Keeps [] logits = record { keeps = λ e v. v }
  sample_all-Keeps (id ∷ ids) [] = record { keeps = λ e v. v }
  sample_all-Keeps (id ∷ ids) (token ∷ logits) =
      bind-Keeps (sample_all-Keeps ids logits) (λ tokens. pure-Keeps (token ∷ tokens))

  decode-Keeps : (ids : List ℕ) → Keeps Valid (decode backend ids)
  unfolding decode
  decode-Keeps ids = bind-Keeps (last_tokens-Keeps ids) (λ tokens.
      bind-Keeps (slots_of-Keeps ids) (λ slots.
        bind-Keeps (on_cache-Keeps (backend.forward tokens none slots))
          (λ logits. sample_all-Keeps ids logits)))

  release_cache_slot-Keeps :
      (slot : Option ℕ) (id : ℕ) → Keeps Valid (release_cache_slot backend slot id)
  unfolding release_cache_slot
  release_cache_slot-Keeps none id = record { keeps = λ e v. v }
  release_cache_slot-Keeps (some slot) id =
      bind-Keeps (get_request-Keeps id)
        (λ r. when-Keeps (is_finished r.state) (on_cache-Keeps (backend.reset_slot slot)))

  register-Keeps : (o : _) (r : InferenceRequest) → Keeps Valid (register backend o r)
  unfolding register
  register-Keeps none r = record { keeps = λ e v. v }
  register-Keeps (some f) r =
      when-Keeps (prefill_complete r)
        (bind-Keeps (index-Keeps r.batch_idx) (λ slot. on_cache-Keeps (f slot r.prompt_token_ids)))

  prefill_done-Keeps :
      (id : ℕ) → Keeps {S = Engine Cache} Valid (on_scheduler (Scheduler.mark_prefill_done id))
  prefill_done-Keeps id = record { keeps = λ e v. any_prefill_done-SlotsValid e.scheduler id v }

  decode_done-Keeps :
      (id token : ℕ)
      → Keeps {S = Engine Cache} Valid (on_scheduler (Scheduler.mark_decode_done id token))
  decode_done-Keeps id token = record {
    keeps = λ e v. any_decode_done-SlotsValid e.scheduler id v token;
  }

  accept_first-Keeps :
      (id : ℕ) (token slot : Option ℕ) → Keeps Valid (accept_first backend id token slot)
  unfolding accept_first
  accept_first-Keeps id none slot = record { keeps = λ e v. v }
  accept_first-Keeps id (some token) slot = bind-Keeps (prefill_done-Keeps id) (λ u.
      bind-Keeps (decode_done-Keeps id token) (λ u.
        bind-Keeps (modify-Keeps {f = emit_token id token} (emit_token-Valid id token))
          (λ u. release_cache_slot-Keeps slot id)))

  accept_prefill-Keeps :
      (ids : List ℕ) (tokens : List (Option ℕ)) → Keeps Valid (accept_prefill backend ids tokens)
  unfolding accept_prefill
  accept_prefill-Keeps (id ∷ ids) (token ∷ tokens) = bind-Keeps (get_request-Keeps id) (λ r.
      bind-Keeps (register-Keeps backend.register_prefix r) (λ u.
        bind-Keeps (accept_first-Keeps id token r.batch_idx)
          (λ u. accept_prefill-Keeps ids tokens)))
  accept_prefill-Keeps [] tokens = record { keeps = λ e v. v }
  accept_prefill-Keeps (id ∷ ids) [] = record { keeps = λ e v. v }

  accept_decode-Keeps : (ids tokens : List ℕ) → Keeps Valid (accept_decode backend ids tokens)
  unfolding accept_decode
  accept_decode-Keeps (id ∷ ids) (token ∷ tokens) = bind-Keeps (get_request-Keeps id) (λ r.
      bind-Keeps (decode_done-Keeps id token) (λ u.
        bind-Keeps (modify-Keeps {f = emit_token id token} (emit_token-Valid id token)) (λ u.
          bind-Keeps (release_cache_slot-Keeps r.batch_idx id)
            (λ u. accept_decode-Keeps ids tokens))))
  accept_decode-Keeps [] tokens = record { keeps = λ e v. v }
  accept_decode-Keeps (id ∷ ids) [] = record { keeps = λ e v. v }

  run_prefill-Keeps : (ids : List ℕ) → Keeps Valid (run_prefill backend ids)
  unfolding run_prefill
  run_prefill-Keeps ids = bind-Keeps (prefill-Keeps ids) (λ tokens. accept_prefill-Keeps ids tokens)

  run_decode-Keeps : (ids : List ℕ) → Keeps Valid (run_decode backend ids)
  unfolding run_decode
  run_decode-Keeps ids = bind-Keeps (decode-Keeps ids) (λ tokens. accept_decode-Keeps ids tokens)

  unless_empty-Keeps :
      (run : List ℕ → Exec (Engine Cache) (Unit {0}))
      → ((ids : List ℕ) → Keeps Valid (run ids))
      → (ids : List ℕ) → Keeps Valid (unless_empty backend run ids)
  unless_empty-Keeps run h [] = record { keeps = λ e v. v }
  unless_empty-Keeps run h (id ∷ ids) = record { keeps = λ e v. (h (id ∷ ids)).keeps e v }

  schedule-Keeps : Keeps Valid (Steps.schedule backend)
  schedule-Keeps = record { keeps = λ e v. schedule-SlotsValid e.scheduler v }

  work-Keeps : Keeps Valid (work backend)
  work-Keeps = bind-Keeps ensure_cache-Keeps (λ u.
      bind-Keeps schedule-Keeps (λ (result : ScheduleResult).
        bind-Keeps
          (unless_empty-Keeps (run_prefill backend) run_prefill-Keeps result.prefill_requests)
          (λ u.
            bind-Keeps
              (unless_empty-Keeps (run_decode backend) run_decode-Keeps result.decode_requests)
              (λ u. pure-Keeps true))))

  -- A step of the engine, with any model and any cache, and whether it returns or raises: each slot
  -- below the number of slots is free afterwards or has one running request, if this was so before.
  pub step-SlotsValid :
      (e : Engine Cache) → SlotsValid e.scheduler → SlotsValid (step backend e).1.scheduler
  unfolding step
  step-SlotsValid e v = elim (Bool-cases (has_work e.scheduler)) [
    | inl w ↦ rw w (work-Keeps.keeps e v)
    | inr w ↦ rw w v
  ]
