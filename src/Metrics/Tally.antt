-- ===== src/Metrics/Tally.antt =====
-- src/observability/metrics_store.py: what the counters and the samples are after any calls.
use nifre.Prelude.{
  ℕ, zero, suc, ◌+◌, ◌-◌, ◌≤◌, ◌≡◌, refl, sym, ap, ◌∙◌, List, [], ◌∷◌, ◌++◌, Option, none, some,
  length, drop, ltb, Bool-cases, inl, inr, arith, length-append, append_assoc, append-nil,
  length-drop,
}
use nifre.Prelude.Floats.{Floats}
use nifre.Metrics.{
  MetricsStore, Completion, TokenEvent, append_bounded, record_enqueue, record_completion,
  record_prefix_cache_hit, record_inter_token, record_runtime_sample, record_prefill_step,
  record_decode_step,
}

-- The last `maxlen` elements.
abbrev pub last : {A : Type 0} → ℕ → List A → List A
last maxlen l = drop (length l - maxlen) l

drop-append :
    {A : Type 0} (n : ℕ) (l : List A) (a : A)
    → n ≤ length l
    → drop n (l ++ a ∷ []) ≡ drop n l ++ a ∷ []
drop-append zero l a h = refl
drop-append (suc n) [] a h = absurd (omega arith)
drop-append (suc n) (x ∷ l) a h = drop-append n l a (omega arith)

drop-drop : {A : Type 0} (n : ℕ) (l : List A) → drop 1 (drop n l) ≡ drop (suc n) l
drop-drop zero [] = refl
drop-drop zero (x ∷ l) = refl
drop-drop (suc n) [] = refl
drop-drop (suc n) (x ∷ l) = drop-drop n l

-- A bounded deque that has the last elements of a history has them after one more.
append_bounded-last :
    {A : Type 0} (maxlen : ℕ) (history : List A) (a : A)
    → append_bounded maxlen (last maxlen history) a ≡ last maxlen (history ++ a ∷ [])
unfolding append_bounded
append_bounded-last maxlen history a =
    let n = length history in
    let kept : length (last maxlen history ++ a ∷ []) ≡ n - (n - maxlen) + 1 =
      length-append (last maxlen history) (a ∷ [])
      ∙ ap (λ k. k + 1) (length-drop (n - maxlen) history) in
    let all : length (history ++ a ∷ []) ≡ n + 1 = length-append history (a ∷ []) in
    let moved = drop-append (n - maxlen) history a (omega arith) in
    elim (Bool-cases (ltb maxlen (length (last maxlen history ++ a ∷ [])))) [
      | inl full ↦
          let one_more : suc (n - maxlen) ≡ length (history ++ a ∷ []) - maxlen =
            ground (arith, full, kept, all) in
          rw full (
            ap (drop 1) (sym moved)
            ∙ drop-drop (n - maxlen) (history ++ a ∷ [])
            ∙ ap (λ k. drop k (history ++ a ∷ [])) one_more)
      | inr room ↦
          let same : n - maxlen ≡ length (history ++ a ∷ []) - maxlen =
            ground (arith, room, kept, all) in
          rw room (sym moved ∙ ap (λ k. drop k (history ++ a ∷ [])) same)
    ]

-- One append for each element.
abbrev pub pushes : {A : Type 0} → ℕ → List A → List A → List A
pushes maxlen l [] = l
pushes maxlen l (a ∷ more) = pushes maxlen (append_bounded maxlen l a) more

pushes-append :
    {A : Type 0} (maxlen : ℕ) (l xs ys : List A)
    → pushes maxlen l (xs ++ ys) ≡ pushes maxlen (pushes maxlen l xs) ys
pushes-append maxlen l [] ys = refl
pushes-append maxlen l (x ∷ xs) ys = pushes-append maxlen (append_bounded maxlen l x) xs ys

pub pushes-last :
    {A : Type 0} (maxlen : ℕ) (history xs : List A)
    → pushes maxlen (last maxlen history) xs ≡ last maxlen (history ++ xs)
pushes-last maxlen history [] = ap (last maxlen) (sym (append-nil history))
pushes-last maxlen history (x ∷ xs) =
    ap (λ l. pushes maxlen l xs) (append_bounded-last maxlen history x)
    ∙ pushes-last maxlen (history ++ x ∷ []) xs
    ∙ ap (last maxlen) (append_assoc history (x ∷ []) xs)

-- The calls of the collector.
pub data Call (W : Type 0) : Type 0 where
  enqueue : Call W
  completion : Completion W → W → Call W
  prefix_hit : ℕ → Call W
  prefill_step : W → ℕ → ℕ → W → Call W
  decode_step : W → ℕ → W → Call W
  inter_token : W → Call W
  runtime_sample : W → W → W → W → Call W

module _ {W : Type 0} where
  -- The numbers and samples that a call brings.
  abbrev pub new_requests : Call W → ℕ
  new_requests enqueue = 1
  new_requests _ = 0

  abbrev pub ends : Call W → ℕ
  ends (completion c now) = 1
  ends _ = 0

  abbrev pub inputs : Call W → ℕ
  inputs (completion c now) = c.input_tokens
  inputs _ = 0

  abbrev pub outputs : Call W → ℕ
  outputs (completion c now) = c.output_tokens
  outputs _ = 0

  abbrev pub prefilled : Call W → ℕ
  prefilled (prefill_step duration batch_size tokens now) = tokens
  prefilled _ = 0

  abbrev pub latency_of : Call W → List W
  latency_of (completion c now) = c.total_latency_sec ∷ []
  latency_of _ = []

  abbrev pub given : Option W → List W
  given none = []
  given (some t) = t ∷ []

  abbrev pub ttft_of : Call W → List W
  ttft_of (completion c now) = given c.ttft_sec
  ttft_of _ = []

  abbrev pub gap_of : Call W → List W
  gap_of (inter_token gap) = gap ∷ []
  gap_of _ = []

  abbrev pub event_of : Call W → List (TokenEvent W)
  event_of (completion c now) =
      record { timestamp = now; input_tokens = c.input_tokens; output_tokens = c.output_tokens }
      ∷ []
  event_of _ = []

  abbrev pub total_of : (Call W → ℕ) → List (Call W) → ℕ
  total_of g [] = 0
  total_of g (c ∷ calls) = g c + total_of g calls

  abbrev pub collect : {A : Type 0} → (Call W → List A) → List (Call W) → List A
  collect g [] = []
  collect g (c ∷ calls) = g c ++ collect g calls

  module _ ⦃f : Floats W⦄ where
    abbrev pub call : Call W → MetricsStore W → MetricsStore W
    call enqueue = record_enqueue
    call (completion c now) = record_completion c now
    call (prefix_hit tokens) = record_prefix_cache_hit tokens
    call (prefill_step duration batch_size tokens now) =
        record_prefill_step duration batch_size tokens now
    call (decode_step duration batch_size now) = record_decode_step duration batch_size now
    call (inter_token gap) = record_inter_token gap
    call (runtime_sample utilization memory_gb cache now) =
        record_runtime_sample utilization memory_gb cache now

    abbrev pub run : List (Call W) → MetricsStore W → MetricsStore W
    run [] m = m
    run (c ∷ calls) m = run calls (call c m)

    pub run-total :
        (field : MetricsStore W → ℕ) (g : Call W → ℕ)
        → ((c : Call W) (m : MetricsStore W) → field (call c m) ≡ field m + g c)
        → (calls : List (Call W)) (m : MetricsStore W)
        → field (run calls m) ≡ field m + total_of g calls
    run-total field g step [] m = omega arith
    run-total field g step (c ∷ calls) m =
        omega (arith, run-total field g step calls (call c m), step c m)

    pub run-pushes :
        {A : Type 0} (maxlen : ℕ) (field : MetricsStore W → List A) (g : Call W → List A)
        → ((c : Call W) (m : MetricsStore W) → field (call c m) ≡ pushes maxlen (field m) (g c))
        → (calls : List (Call W)) (m : MetricsStore W)
        → field (run calls m) ≡ pushes maxlen (field m) (collect g calls)
    run-pushes maxlen field g step [] m = refl
    run-pushes maxlen field g step (c ∷ calls) m =
        run-pushes maxlen field g step calls (call c m)
        ∙ ap (λ l. pushes maxlen l (collect g calls)) (step c m)
        ∙ sym (pushes-append maxlen (field m) (g c) (collect g calls))
