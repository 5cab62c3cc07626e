-- ===== src/Metrics/Collector/Hooks.antt =====
-- src/observability/collector.py: the metrics store after any hooks of the engine.
use Prim.Native.String.{String}
use nifre.Prelude.{
  ℕ, ◌+◌, ◌≡◌, refl, sym, ap, ◌∙◌, List, [], ◌∷◌, ◌++◌, none, length, if-keeps, arith,
}
use nifre.Prelude.Floats.{Floats}
use nifre.Metrics.{MetricsStore}
use nifre.Metrics.Tally.{Call, call, run, total_of, ends, new_requests}
use nifre.Metrics.Collector.{
  RequestView, EngineView, MetricsCollector, attach, on_request_enqueued, on_prefix_cache_hit,
  on_decode_batch, on_prefill_batch, time_prefills, gap_since, record_gaps, on_decode_token,
  completion_of, first_token_latency, on_request_finished, on_request_failed,
}

-- The hooks with their arguments, the time of the call last.
pub data Hook (W : Type 0) : Type 0 where
  attached : EngineView → W → Hook W
  enqueued : Hook W
  prefix_hit : ℕ → Hook W
  prefilled : List RequestView → W → ℕ → W → Hook W
  decoded : ℕ → W → W → Hook W
  token : RequestView → W → Hook W
  ended : RequestView → W → Hook W
  failed : RequestView → String → W → Hook W

module _ {W : Type 0} ⦃f : Floats W⦄ where
  abbrev pub hook : Hook W → MetricsCollector W → MetricsCollector W
  hook (attached e now) = attach e now
  hook enqueued = on_request_enqueued
  hook (prefix_hit tokens) = on_prefix_cache_hit tokens
  hook (prefilled requests duration tokens now) = on_prefill_batch requests duration tokens now
  hook (decoded batch_size duration now) = on_decode_batch batch_size duration now
  hook (token r now) = on_decode_token r now
  hook (ended r now) = on_request_finished r now
  hook (failed r status now) = on_request_failed r status now

  abbrev pub hooks : List (Hook W) → MetricsCollector W → MetricsCollector W
  hooks [] c = c
  hooks (h ∷ more) c = hooks more (hook h c)

  abbrev pub gap_calls : List W → List (Call W)
  gap_calls [] = []
  gap_calls (gap ∷ gaps) = Call.inter_token gap ∷ []

  -- The call of the store that a hook makes, if it makes one.
  abbrev pub calls_of : Hook W → MetricsCollector W → List (Call W)
  calls_of (attached e now) c = []
  calls_of enqueued c = Call.enqueue ∷ []
  calls_of (prefix_hit tokens) c = Call.prefix_hit tokens ∷ []
  calls_of (prefilled requests duration tokens now) c =
      Call.prefill_step duration (length requests) tokens now ∷ []
  calls_of (decoded batch_size duration now) c = Call.decode_step duration batch_size now ∷ []
  calls_of (token r now) c = gap_calls (gap_since (c.times r.id).last_token_at r.num_generated now)
  calls_of (ended r now) c =
      let t = c.times r.id in
      Call.completion (completion_of (first_token_latency t) r r.status now t) now ∷ []
  calls_of (failed r status now) c =
      Call.completion (completion_of none r status now (c.times r.id)) now ∷ []

  abbrev pub all_calls : List (Hook W) → MetricsCollector W → List (Call W)
  all_calls [] c = []
  all_calls (h ∷ more) c = calls_of h c ++ all_calls more (hook h c)

  store-time_prefills :
      (requests : List RequestView) (duration now : W) (c : MetricsCollector W)
      → (time_prefills requests duration now c).store ≡ c.store
  store-time_prefills [] duration now c = refl
  store-time_prefills (r ∷ requests) duration now c = store-time_prefills requests duration now _

  store-record_gaps :
      (gaps : List W) (c : MetricsCollector W)
      → (record_gaps gaps c).store ≡ run (gap_calls gaps) c.store
  unfolding record_gaps
  store-record_gaps [] c = refl
  store-record_gaps (gap ∷ gaps) c = refl

  store-hook : (h : Hook W) (c : MetricsCollector W) → (hook h c).store ≡ run (calls_of h c) c.store
  unfolding attach on_request_enqueued on_prefix_cache_hit on_prefill_batch on_decode_batch
      on_decode_token on_request_finished on_request_failed
  store-hook (attached e now) c =
      if-keeps (λ (d : MetricsCollector W). d.store ≡ c.store) c.optimizations_recorded _ _
        (λ e. refl) refl
  store-hook enqueued c = refl
  store-hook (prefix_hit tokens) c = refl
  store-hook (prefilled requests duration tokens now) c =
      store-time_prefills requests duration now _
  store-hook (decoded batch_size duration now) c = refl
  store-hook (token r now) c =
      store-record_gaps (gap_since (c.times r.id).last_token_at r.num_generated now) c
  store-hook (ended r now) c = refl
  store-hook (failed r status now) c = refl

  run-append : (xs ys : List (Call W)) (m : MetricsStore W) → run (xs ++ ys) m ≡ run ys (run xs m)
  run-append [] ys m = refl
  run-append (x ∷ xs) ys m = run-append xs ys (call x m)

  pub store-hooks :
      (hs : List (Hook W)) (c : MetricsCollector W)
      → (hooks hs c).store ≡ run (all_calls hs c) c.store
  store-hooks [] c = refl
  store-hooks (h ∷ hs) c =
      store-hooks hs (hook h c)
      ∙ ap (run (all_calls hs (hook h c))) (store-hook h c)
      ∙ sym (run-append (calls_of h c) (all_calls hs (hook h c)) c.store)

  -- 1 for the end of a request, and for a new one.
  abbrev pub ends_one : Hook W → ℕ
  ends_one (ended r now) = 1
  ends_one (failed r status now) = 1
  ends_one _ = 0

  abbrev pub starts_one : Hook W → ℕ
  starts_one enqueued = 1
  starts_one _ = 0

  abbrev pub count_hooks : (Hook W → ℕ) → List (Hook W) → ℕ
  count_hooks g [] = 0
  count_hooks g (h ∷ hs) = g h + count_hooks g hs

  total_of-append :
      (g : Call W → ℕ) (xs ys : List (Call W))
      → total_of g (xs ++ ys) ≡ total_of g xs + total_of g ys
  total_of-append g [] ys = omega arith
  total_of-append g (x ∷ xs) ys = omega (arith, total_of-append g xs ys)

  total_of-gap_calls :
      (g : Call W → ℕ) (gaps : List W)
      → ((gap : W) → g (Call.inter_token gap) ≡ 0)
      → total_of g (gap_calls gaps) ≡ 0
  total_of-gap_calls g [] h = refl
  total_of-gap_calls g (gap ∷ gaps) h = omega (arith, h gap)

  pub total_of-calls_of :
      (g : Call W → ℕ) (n : Hook W → ℕ)
      → ((h : Hook W) (c : MetricsCollector W) → total_of g (calls_of h c) ≡ n h)
      → (hs : List (Hook W)) (c : MetricsCollector W)
      → total_of g (all_calls hs c) ≡ count_hooks n hs
  total_of-calls_of g n step [] c = refl
  total_of-calls_of g n step (h ∷ hs) c = omega (
    arith,
    total_of-append g (calls_of h c) (all_calls hs (hook h c)),
    step h c,
    total_of-calls_of g n step hs (hook h c),
  )

  pub ends-calls_of :
      (h : Hook W) (c : MetricsCollector W) → total_of ends (calls_of h c) ≡ ends_one h
  ends-calls_of (attached e now) c = refl
  ends-calls_of enqueued c = omega arith
  ends-calls_of (prefix_hit tokens) c = omega arith
  ends-calls_of (prefilled requests duration tokens now) c = omega arith
  ends-calls_of (decoded batch_size duration now) c = omega arith
  ends-calls_of (token r now) c = total_of-gap_calls ends _ (λ gap. refl)
  ends-calls_of (ended r now) c = omega arith
  ends-calls_of (failed r status now) c = omega arith

  pub starts-calls_of :
      (h : Hook W) (c : MetricsCollector W) → total_of new_requests (calls_of h c) ≡ starts_one h
  starts-calls_of (attached e now) c = refl
  starts-calls_of enqueued c = omega arith
  starts-calls_of (prefix_hit tokens) c = omega arith
  starts-calls_of (prefilled requests duration tokens now) c = omega arith
  starts-calls_of (decoded batch_size duration now) c = omega arith
  starts-calls_of (token r now) c = total_of-gap_calls new_requests _ (λ gap. refl)
  starts-calls_of (ended r now) c = omega arith
  starts-calls_of (failed r status now) c = omega arith
