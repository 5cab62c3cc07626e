-- ===== src/Autotune/Window.antt =====
-- src/autotune/classifier.py: the window of queue samples, and when the queue counts as high.
use nifre.Prelude.{
  ℕ, zero, suc, ◌-◌, ◌≤◌, ◌<◌, ◌≡◌, refl, sym, ap, ◌∙◌, ◌↔◌, inl, inr, Bool, true, false, List, [],
  ◌∷◌, ◌++◌, some, length, get_elem?, ltb, if◌then◌else◌, Bool-cases, arith,
}
use mathlib.Core.Option.{some_inj}
use native.Mathlib.Numerals.{unary_clauses}
use nifre.Prelude.Exec.{ok}
use nifre.Prelude.Floats.{Floats, IsOrdered}
use nifre.Policy.{WorkloadLabels}
use nifre.Autotune.Workload.{WorkloadSnapshot}
use nifre.Autotune.Classifier.{
  ClassifierConfig, WorkloadClassifier, last_of, prune, cutoff_of, prune_queue_samples, all_high,
  spans, queue_sustained_high, labels_of, classify, observe,
}

all_high-get_elem? :
    {W : Type 0} (threshold : ℕ) (l : List (W × ℕ)) (i : ℕ) (s : W × ℕ)
    → all_high threshold l ≡ true
    → get_elem? l i ≡ some s
    → threshold ≤ s.1
all_high-get_elem? threshold [] i s h e = cc
all_high-get_elem? threshold (t ∷ l) zero s h e =
    let same : t.1 ≡ s.1 = ap (λ x. x.1) (some_inj.0 e) in ground (arith, h)
all_high-get_elem? threshold (t ∷ l) (suc i) s h e =
    all_high-get_elem? threshold l i s (ground (arith, h)) e

all_high-true :
    {W : Type 0} (threshold : ℕ) (l : List (W × ℕ))
    → ((i : ℕ) (s : W × ℕ) → get_elem? l i ≡ some s → threshold ≤ s.1)
    → all_high threshold l ≡ true
all_high-true threshold [] h = refl
all_high-true threshold (s ∷ l) h =
    let rest = all_high-true threshold l (λ i t e. h (suc i) t e) in
    let first = h 0 s refl in ground arith

get_elem?-last :
    {A : Type 0} (first : A) (l : List A)
    → get_elem? (first ∷ l) (length l) ≡ some (last_of first l)
get_elem?-last first [] = refl
get_elem?-last first (a ∷ l) = get_elem?-last a l

module _ {W : Type 0} ⦃f : Floats W⦄ where
  -- The samples that are not before the cutoff.
  abbrev pub recent : W → List (W × ℕ) → List (W × ℕ)
  recent cutoff [] = []
  recent cutoff (s ∷ l) = let rest = recent cutoff l in if f.lt s.0 cutoff then rest else s ∷ rest

  -- No time is before the one in front of it.
  abbrev pub SortedAfter : W → List (W × ℕ) → Type 0
  SortedAfter t [] = Unit {0}
  SortedAfter t (s ∷ l) = (f.le t s.0 ≡ true) × SortedAfter s.0 l

  abbrev pub Sorted : List (W × ℕ) → Type 0
  Sorted [] = Unit {0}
  Sorted (s ∷ l) = SortedAfter s.0 l

  -- Enough samples, all of them high, from the start to the end of a long enough time.
  pub record High (config : ClassifierConfig W) (l : List (W × ℕ)) : Type 0 where
    pub enough : config.queue_high_min_samples ≤ length l
    pub high : (i : ℕ) (s : W × ℕ) → get_elem? l i ≡ some s → config.queue_high_threshold ≤ s.1
    pub long :
        (first last : W × ℕ)
        → get_elem? l 0 ≡ some first
        → get_elem? l (length l - 1) ≡ some last
        → f.le (f.mul config.queue_high_window_sec (f.ratio 9 10)) (f.sub last.0 first.0) ≡ true

  module _ (ordered : IsOrdered W) where
    recent-SortedAfter :
        (cutoff t : W) (l : List (W × ℕ))
        → f.lt t cutoff ≡ false
        → SortedAfter t l
        → recent cutoff l ≡ l
    recent-SortedAfter cutoff t [] h k = refl
    recent-SortedAfter cutoff t (s ∷ l) h k =
        let after = ordered.not_below t s.0 cutoff h k.0 in
        rw (after, recent-SortedAfter cutoff s.0 l after k.1) refl

    tail-Sorted : (t : W) (l : List (W × ℕ)) → SortedAfter t l → Sorted l
    tail-Sorted t [] k = tt
    tail-Sorted t (s ∷ l) k = k.1

    -- Dropping from the front until the first recent sample leaves the recent samples.
    prune-recent : (cutoff : W) (l : List (W × ℕ)) → Sorted l → prune cutoff l ≡ recent cutoff l
    unfolding prune
    prune-recent cutoff [] k = refl
    prune-recent cutoff (s ∷ l) k = elim (Bool-cases (f.lt s.0 cutoff)) [
      | inl before ↦ rw before (prune-recent cutoff l (tail-Sorted s.0 l k))
      | inr after ↦ rw (after, recent-SortedAfter cutoff s.0 l after k) refl
    ]

  spans-High :
      (config : ClassifierConfig W) (l : List (W × ℕ))
      → config.queue_high_min_samples ≤ length l
      → 0 < config.queue_high_min_samples
      → all_high config.queue_high_threshold l ≡ true
      → (b : Bool) × (spans (f.mul config.queue_high_window_sec (f.ratio 9 10)) l ≡ ok b)
        × ((b ≡ true) ↔ High config l)
  spans-High config [] enough some_needed high = absurd (omega arith)
  spans-High config (first ∷ rest) enough some_needed high =
      let min_span = f.mul config.queue_high_window_sec (f.ratio 9 10) in
      let at_last : get_elem? (first ∷ rest) (suc (length rest) - 1) ≡ some (last_of first rest) =
        simp unary_clauses (get_elem?-last first rest) in
      (
        f.le min_span (f.sub (last_of first rest).0 first.0),
        refl,
        (
          λ e. record {
            enough = enough;
            high =
                λ i s e. all_high-get_elem? config.queue_high_threshold (first ∷ rest) i s high e;
            long = λ a b p q.
                let is_first = some_inj.0 p in
                let is_last = some_inj.0 (sym at_last ∙ q) in rw (← is_first, ← is_last) e;
          },
          λ h. h.long first (last_of first rest) refl at_last,
        ),
      )

  queue_sustained_high-High :
      (c : WorkloadClassifier W)
      → 0 < c.config.queue_high_min_samples
      → (b : Bool) × (queue_sustained_high c ≡ ok b) × ((b ≡ true) ↔ High c.config c.queue_samples)
  unfolding queue_sustained_high
  queue_sustained_high-High c some_needed =
      let l = c.queue_samples in
      elim (Bool-cases (ltb (length l) c.config.queue_high_min_samples)) [
        | inl few ↦ (false, rw few refl, (λ e. cc, λ h. absurd (let n = h.enough in ground arith)))
        | inr enough ↦ elim (Bool-cases (all_high c.config.queue_high_threshold l)) [
          | inr low ↦ (
            false,
            rw (enough, low) refl,
            (
              λ e. cc,
              λ h. absurd (let yes = all_high-true c.config.queue_high_threshold l h.high in cc),
            ),
          )
          | inl high ↦
              let (b, e, answer) = spans-High c.config l (ground arith) some_needed high in
              (b, rw (enough, high) e, answer)
        ]
      ]

  -- The samples that `observe` keeps, from those before and the new one.
  abbrev pub window : WorkloadSnapshot W → WorkloadClassifier W → List (W × ℕ)
  window snapshot c =
      recent (cutoff_of c.config snapshot.timestamp)
        (c.queue_samples ++ (snapshot.timestamp, snapshot.queued_requests) ∷ [])

  -- `observe`, where no sample is before the one in front of it, with ordered numbers and at least
  -- one sample needed. It returns; the classifier then has the samples in the window, the new one
  -- among them if it is. The label `queue_high` is set exactly if there are enough samples in the
  -- window, all of them at the threshold or above it, and the last one is late enough after the
  -- first.
  pub observe-High :
      (ordered : IsOrdered W) (snapshot : WorkloadSnapshot W) (c : WorkloadClassifier W)
      → Sorted (c.queue_samples ++ (snapshot.timestamp, snapshot.queued_requests) ∷ [])
      → 0 < c.config.queue_high_min_samples
      → (labels : WorkloadLabels) × (observe snapshot c
          ≡ (ok labels, record c { queue_samples = window snapshot c }))
        × ((labels.queue_high ≡ true) ↔ High c.config (window snapshot c))
  unfolding observe classify prune_queue_samples
  observe-High ordered snapshot c sorted some_needed =
      let same =
        prune-recent ordered (cutoff_of c.config snapshot.timestamp)
          (c.queue_samples ++ (snapshot.timestamp, snapshot.queued_requests) ∷ []) sorted in
      let c' = record c { queue_samples = window snapshot c } in
      let (b, e, answer) = queue_sustained_high-High c' some_needed in
      (labels_of c.config snapshot b, rw (same, e) refl, answer)
