-- ===== src/Metrics/Collector/Expected.antt =====
-- src/observability/collector.py: what the hooks are to record, read off the hooks that came before,
-- without the times that the collector keeps.
use Prim.Native.String.{String}
use nifre.Prelude.{
  ℕ, zero, suc, Bool, false, ◌&&◌, ◌||◌, List, [], ◌∷◌, ◌++◌, Option, none, some, length, ◌==◌,
  if◌then◌else◌,
}
use nifre.Prelude.Floats.{Floats}
use nifre.Metrics.Tally.{Call}
use nifre.Metrics.Collector.{RequestTimes, RequestView}
use nifre.Metrics.Collector.Hooks.{Hook}

-- When a request was made, and when it got its first and its last token.
abbrev pub Stamps : Type 0 → Type 0
Stamps W = W × Option W × Option W

-- The prompt of the request is complete with this batch.
abbrev pub completes : ℕ → List RequestView → Bool
completes id [] = false
completes id (r ∷ requests) = ((r.id == id) && r.prefill_complete) || completes id requests

module _ {W : Type 0} where
  abbrev pub stamps : RequestTimes W → Stamps W
  stamps t = (t.created_at, t.first_token_at, t.last_token_at)

  -- The stamps of a request after some hooks, the latest hook first.
  abbrev pub stamps_of : (ℕ → RequestTimes W) → List (Hook W) → ℕ → Stamps W
  stamps_of times [] id = stamps (times id)
  stamps_of times (Hook.prefilled requests duration tokens now ∷ past) id =
      let s = stamps_of times past id in
      if completes id requests then (s.0, some now, some now) else s
  stamps_of times (Hook.token r now ∷ past) id =
      let s = stamps_of times past id in if r.id == id then (s.0, s.1, some now) else s
  stamps_of times (_ ∷ past) id = stamps_of times past id

  abbrev pub newest_first : List (Hook W) → List (Hook W) → List (Hook W)
  newest_first past [] = past
  newest_first past (h ∷ hs) = newest_first (h ∷ past) hs

  module _ ⦃f : Floats W⦄ where
    abbrev pub since : W → Option W → Option W
    since created none = none
    since created (some t) = some (f.sub t created)

    -- The time since the last token, for a request that has one and has generated something.
    abbrev pub gap_between : Option W → ℕ → W → List (Call W)
    gap_between none n now = []
    gap_between (some t) zero now = []
    gap_between (some t) (suc n) now = Call.inter_token (f.sub now t) ∷ []

    abbrev pub completion : Option W → RequestView → String → W → Stamps W → Call W
    completion ttft r status now s =
        Call.completion
          record {
            ttft_sec = ttft;
            total_latency_sec = f.sub now s.0;
            input_tokens = r.num_prompt_tokens;
            output_tokens = r.num_generated;
            status = status;
          }
          now

    -- What a hook is to record, from the hooks before it.
    abbrev pub expected : (ℕ → RequestTimes W) → List (Hook W) → Hook W → List (Call W)
    expected times past (Hook.attached e now) = []
    expected times past Hook.enqueued = Call.enqueue ∷ []
    expected times past (Hook.prefix_hit tokens) = Call.prefix_hit tokens ∷ []
    expected times past (Hook.prefilled requests duration tokens now) =
        Call.prefill_step duration (length requests) tokens now ∷ []
    expected times past (Hook.decoded batch_size duration now) =
        Call.decode_step duration batch_size now ∷ []
    expected times past (Hook.token r now) =
        gap_between (stamps_of times past r.id).2 r.num_generated now
    expected times past (Hook.ended r now) =
        let s = stamps_of times past r.id in completion (since s.0 s.1) r r.status now s ∷ []
    expected times past (Hook.failed r status now) =
        completion none r status now (stamps_of times past r.id) ∷ []

    abbrev pub all_expected : (ℕ → RequestTimes W) → List (Hook W) → List (Hook W) → List (Call W)
    all_expected times past [] = []
    all_expected times past (h ∷ hs) = expected times past h ++ all_expected times (h ∷ past) hs
