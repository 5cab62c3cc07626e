-- ===== src/Engine.antt =====
-- src/inference/engine.py, without a metrics collector. The cache and the model are a record of
-- operations on a type of caches: paged, dense and the model's own caches fill it. The id of a
-- request, a random string in the code, is an argument of `add_request`.
pub mod Config
pub mod Runner
pub mod Steps
pub mod Slots
pub mod Reconfigure
pub mod Refusal
use Prim.Native.String.{String}
use nifre.Prelude.{
  ℕ, Bool, true, false, not, List, [], ◌∷◌, ◌++◌, Option, none, some, contains, erase, ◌==◌,
  if◌then◌else◌,
}
use nifre.Prelude.Exec.{
  Exec, Outcome, ok, raised, value_error, type_error, pure, raise, raise_if, get_state, modify,
  lift, ◌>>=◌, ◌>>◌,
}
use nifre.DataModel.{InferenceRequest, new_request}
use nifre.Scheduler
use nifre.Scheduler.{Scheduler}

-- A model and its KV caches: the dense and the paged cache, which the engine makes for it, or the
-- model's own. Not every cache can load or register prefixes. A forward pass yields the greedy
-- token of each row.
pub record Backend (Cache : Type 0) : Type 0 where
  pub supports_paged_kv_cache : Bool
  pub supports_prefix_cache : Bool
  pub make_model_cache : Option (Bool → Outcome Cache)
  pub make_paged_kv_cache : Bool → Outcome Cache
  pub make_kv_cache : Outcome Cache
  pub init_batch : ℕ → Exec Cache (Unit {0})
  pub try_load_prefix : Option (ℕ → List ℕ → Exec Cache ℕ)
  pub register_prefix : Option (ℕ → List ℕ → Exec Cache (Unit {0}))
  pub reset_slot : ℕ → Exec Cache (Unit {0})
  pub pad_token_id : ℕ
  pub forward : List (List ℕ) → Option (List ℕ) → List ℕ → Exec Cache (List ℕ)

-- A token callback puts the token into a queue: `delivered` are the calls, the last one last.
pub record Engine (Cache : Type 0) : Type 0 where
  pub scheduler : Scheduler
  pub cache : Option Cache
  pub max_concurrent_requests : ℕ
  pub prefill_chunk_size : ℕ
  pub max_tokens_per_step : ℕ
  pub use_paged_kv_cache : Bool
  pub use_prefix_cache : Bool
  pub token_callbacks : List ℕ
  pub delivered : List (ℕ × ℕ)

-- `request.batch_idx`, used as an index.
abbrev pub index : {S : Type 0} → Option ℕ → Exec S ℕ
index none s = (raised type_error, s)
index (some k) s = (ok k, s)

module _ {Cache : Type 0} where
  abbrev pub set_scheduler : Engine Cache → Scheduler → Engine Cache
  set_scheduler e s = record e { scheduler = s }

  abbrev pub set_cache : Engine Cache → Cache → Engine Cache
  set_cache e c = record e { cache = some c }

  -- A method of the scheduler, and one of the cache; there is none on None.
  abbrev pub on_scheduler : {A : Type 0} → Exec Scheduler A → Exec (Engine Cache) A
  on_scheduler m e = let (r, s) = m e.scheduler in (r, set_scheduler e s)

  abbrev pub run_on : {A : Type 0} → Option Cache → Exec Cache A → Exec (Engine Cache) A
  run_on none m e = (raised type_error, e)
  run_on (some c) m e = let (r, c') = m c in (r, set_cache e c')

  abbrev pub on_cache : {A : Type 0} → Exec Cache A → Exec (Engine Cache) A
  on_cache m e = run_on e.cache m e

module _ {Cache : Type 0} (backend : Backend Cache) where
  unfoldable pub init : (ℕ → InferenceRequest) → ℕ → ℕ → ℕ → Bool → Bool → Outcome (Engine Cache)
  init requests max_concurrent chunk budget paged prefix =
      elim (Scheduler.init requests max_concurrent budget) [
        | raised e ↦ raised e
        | ok s ↦ ok (record {
          scheduler = s;
          cache = none;
          max_concurrent_requests = max_concurrent;
          prefill_chunk_size = chunk;
          max_tokens_per_step = budget;
          use_paged_kv_cache = if backend.supports_paged_kv_cache then paged else false;
          use_prefix_cache = if backend.supports_prefix_cache then prefix else false;
          token_callbacks = [];
          delivered = [];
        })
      ]

  -- The cache that `_ensure_cache` makes.
  unfoldable pub make_cache : Option (Bool → Outcome Cache) → Bool → Bool → Outcome Cache
  make_cache (some make) paged prefix = make prefix
  make_cache none paged prefix =
      if paged then backend.make_paged_kv_cache prefix else backend.make_kv_cache

  -- The cache stays in place when `init_batch` raises.
  abbrev pub install : Outcome Cache → Exec (Engine Cache) (Unit {0})
  install (raised err) e = (raised err, e)
  install (ok c) e = run_on (some c) (backend.init_batch e.max_concurrent_requests) e

  abbrev pub ensure : Option Cache → Exec (Engine Cache) (Unit {0})
  ensure (some c) e = (ok tt, e)
  ensure none e =
      install (make_cache backend.make_model_cache e.use_paged_kv_cache e.use_prefix_cache) e

  unfoldable pub ensure_cache : Exec (Engine Cache) (Unit {0})
  unfolding make_cache
  ensure_cache e = ensure e.cache e

module _ {Cache : Type 0} where
  unfoldable pub add_request : ℕ → List ℕ → ℕ → Exec (Engine Cache) (Unit {0})
  add_request id prompt max_new_tokens = do
    e ← get_state
    let request = new_request prompt max_new_tokens e.prefill_chunk_size
    on_scheduler (modify (Scheduler.set_request id request))
    on_scheduler (Scheduler.add_request id)

  unfoldable pub register_token_callback : ℕ → Engine Cache → Engine Cache
  register_token_callback id e = record e {
    token_callbacks = Scheduler.put_key e.token_callbacks id;
  }

  unfoldable pub unregister_token_callback : ℕ → Engine Cache → Engine Cache
  unregister_token_callback id e = record e { token_callbacks = erase e.token_callbacks id }

  unfoldable pub emit_token : ℕ → ℕ → Engine Cache → Engine Cache
  emit_token id token e =
      if contains e.token_callbacks id
      then record e { delivered = e.delivered ++ (id, token) ∷ [] }
      else e
