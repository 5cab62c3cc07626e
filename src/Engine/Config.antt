-- ===== src/Engine/Config.antt =====
-- src/inference/engine.py: `get_config` and `reconfigure`.
use nifre.Prelude.{or_else, ℕ, Bool, true, false, not, Option, none, some}
use nifre.Prelude.Exec.{
  Exec, value_error, pure, raise_if, get_state, modify, lift, when, ◌>>=◌, ◌>>◌,
}
use nifre.DataModel.{EngineConfig, Changes, validate_engine_config}
use nifre.Scheduler.Reconfigure
use nifre.Engine.{Engine, on_scheduler}

abbrev pub differ : Bool → Bool → Bool
differ true b = not b
differ false b = b

module _ {Cache : Type 0} where
  abbrev pub config_of : Engine Cache → EngineConfig
  config_of e = record {
    max_concurrent_requests = e.max_concurrent_requests;
    prefill_chunk_size = e.prefill_chunk_size;
    max_tokens_per_step = e.max_tokens_per_step;
    use_paged_kv_cache = e.use_paged_kv_cache;
    use_prefix_cache = e.use_prefix_cache;
  }

  abbrev pub has_cache : Engine Cache → Bool
  has_cache e = elim e.cache [ none ↦ false | some c ↦ true ]

  -- The two flags can change only as long as there is no cache.
  unfoldable pub set_paged : Option Bool → Bool → Exec (Engine Cache) (Unit {0})
  set_paged none cached = pure tt
  set_paged (some flag) cached = do
    e ← get_state
    when (differ flag e.use_paged_kv_cache)
        (do raise_if cached value_error; modify (λ e. record e { use_paged_kv_cache = flag }))

  unfoldable pub set_prefix : Option Bool → Bool → Exec (Engine Cache) (Unit {0})
  set_prefix none cached = pure tt
  set_prefix (some flag) cached = do
    e ← get_state
    when (differ flag e.use_prefix_cache)
        (do raise_if cached value_error; modify (λ e. record e { use_prefix_cache = flag }))

  -- `if value is not None: self.field = value`
  abbrev pub set_chunk : Option ℕ → Engine Cache → Engine Cache
  set_chunk o e = record e { prefill_chunk_size = or_else o e.prefill_chunk_size }

  abbrev pub set_budget : Option ℕ → Engine Cache → Engine Cache
  set_budget o e = record e { max_tokens_per_step = or_else o e.max_tokens_per_step }

  abbrev pub set_concurrency : Option ℕ → Engine Cache → Engine Cache
  set_concurrency o e = record e { max_concurrent_requests = or_else o e.max_concurrent_requests }

  -- With both arguments None the scheduler would change nothing; the code does not call it then.
  unfoldable pub reconfigure : Changes → Exec (Engine Cache) EngineConfig
  unfolding set_paged set_prefix
  reconfigure changes = do
    lift (
        validate_engine_config changes.max_concurrent_requests changes.prefill_chunk_size
          changes.max_tokens_per_step)
    e ← get_state
    set_paged changes.use_paged_kv_cache (has_cache e)
    set_prefix changes.use_prefix_cache (has_cache e)
    modify (set_chunk changes.prefill_chunk_size)
    modify (set_budget changes.max_tokens_per_step)
    on_scheduler (
        Reconfigure.reconfigure changes.max_tokens_per_step changes.max_concurrent_requests
          (has_cache e))
    modify (set_concurrency changes.max_concurrent_requests)
    e ← get_state
    pure (config_of e)
