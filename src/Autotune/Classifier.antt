-- ===== src/Autotune/Classifier.antt =====
-- src/autotune/classifier.py.
use Prim.Native.String.{String}
use nifre.Prelude.{
  ℕ, ltb, leb, Bool, true, false, ◌&&◌, ◌||◌, List, [], ◌∷◌, ◌++◌, length, if◌then◌else◌,
}
use nifre.Prelude.Exec.{
  Exec, Outcome, ok, raised, index_error, pure, get_state, modify, lift, ◌>>=◌, ◌>>◌,
}
use nifre.Prelude.Floats.{Floats, zero_float}
use nifre.Policy.{WorkloadLabels}
use nifre.Autotune.Workload.{WorkloadSnapshot}

pub record ClassifierConfig (W : Type 0) : Type 0 where
  pub queue_high_threshold : ℕ
  pub queue_high_window_sec : W
  pub queue_high_min_samples : ℕ
  pub ttft_p95_latency_sensitive_ms : W
  pub prefix_friendly_hit_rate : W
  pub throughput_low_tps : W
  pub error_elevated_rate : W

pub record WorkloadClassifier (W : Type 0) : Type 0 where
  pub config : ClassifierConfig W
  pub queue_samples : List (W × ℕ)

-- `WorkloadLabels.active`, the set as a list without repetition.
unfoldable pub active : WorkloadLabels → List String
active labels =
    (if labels.queue_high then "queue_high" ∷ [] else [])
    ++ (if labels.prefix_friendly then "prefix_friendly" ∷ [] else [])
    ++ (if labels.latency_sensitive then "latency_sensitive" ∷ [] else [])
    ++ (if labels.throughput_low then "throughput_low" ∷ [] else [])
    ++ (if labels.error_elevated then "error_elevated" ∷ [] else [])

-- The last sample, after a first one.
abbrev pub last_of : {A : Type 0} → A → List A → A
last_of a [] = a
last_of a (b ∷ l) = last_of b l

module _ {W : Type 0} where
  abbrev pub all_high : ℕ → List (W × ℕ) → Bool
  all_high threshold [] = true
  all_high threshold (s ∷ samples) = leb threshold s.1 && all_high threshold samples

module _ {W : Type 0} ⦃f : Floats W⦄ where
  abbrev pub default_classifier_config : ClassifierConfig W
  default_classifier_config = record {
    queue_high_threshold = 2;
    queue_high_window_sec = f.ratio 60 1;
    queue_high_min_samples = 3;
    ttft_p95_latency_sensitive_ms = f.ratio 500 1;
    prefix_friendly_hit_rate = f.ratio 30 100;
    throughput_low_tps = f.ratio 10 1;
    error_elevated_rate = f.ratio 5 100;
  }

  abbrev pub new_classifier : ClassifierConfig W → WorkloadClassifier W
  new_classifier config = record { config = config; queue_samples = [] }

  -- The loop that drops samples before the cutoff from the front.
  unfoldable pub prune : W → List (W × ℕ) → List (W × ℕ)
  prune cutoff [] = []
  prune cutoff (s ∷ samples) =
      let rest = prune cutoff samples in if f.lt s.0 cutoff then rest else s ∷ samples

  abbrev pub cutoff_of : ClassifierConfig W → W → W
  cutoff_of config now = f.sub now config.queue_high_window_sec

  unfoldable pub prune_queue_samples : W → WorkloadClassifier W → WorkloadClassifier W
  unfolding prune
  prune_queue_samples now c = record c {
    queue_samples = prune (cutoff_of c.config now) c.queue_samples;
  }

  -- `recent[-1][0] - recent[0][0] >= min_span`; there is no `recent[-1]` in an empty list.
  abbrev pub spans : W → List (W × ℕ) → Outcome Bool
  spans min_span [] = raised index_error
  spans min_span (first ∷ rest) = ok (f.le min_span (f.sub (last_of first rest).0 first.0))

  unfoldable pub queue_sustained_high : WorkloadClassifier W → Outcome Bool
  queue_sustained_high c =
      if ltb (length c.queue_samples) c.config.queue_high_min_samples
      then ok false
      else if all_high c.config.queue_high_threshold c.queue_samples
      then spans (f.mul c.config.queue_high_window_sec (f.ratio 9 10)) c.queue_samples
      else ok false

  abbrev pub labels_of : ClassifierConfig W → WorkloadSnapshot W → Bool → WorkloadLabels
  labels_of config snapshot queue_high = record {
    queue_high = queue_high;
    prefix_friendly = f.le config.prefix_friendly_hit_rate snapshot.prefix_cache_hit_rate;
    latency_sensitive =
        f.le config.ttft_p95_latency_sensitive_ms snapshot.ttft_p95_ms
        && f.lt zero_float snapshot.ttft_p95_ms;
    throughput_low =
        f.lt snapshot.tokens_per_sec config.throughput_low_tps
        && (ltb 0 snapshot.active_requests || ltb 0 snapshot.queued_requests);
    error_elevated = f.le config.error_elevated_rate snapshot.error_rate;
  }

  unfoldable pub classify : WorkloadSnapshot W → Exec (WorkloadClassifier W) WorkloadLabels
  unfolding queue_sustained_high
  classify snapshot = do
    c ← get_state
    queue_high ← lift (queue_sustained_high c)
    pure (labels_of c.config snapshot queue_high)

  abbrev pub put_sample : W × ℕ → WorkloadClassifier W → WorkloadClassifier W
  put_sample s c = record c { queue_samples = c.queue_samples ++ s ∷ [] }

  unfoldable pub observe : WorkloadSnapshot W → Exec (WorkloadClassifier W) WorkloadLabels
  unfolding prune_queue_samples classify
  observe snapshot = do
    modify (put_sample (snapshot.timestamp, snapshot.queued_requests))
    modify (prune_queue_samples snapshot.timestamp)
    classify snapshot
