-- ===== src/Metrics/Rates.antt =====
-- src/observability/metrics_store.py: the rates and quotients, and why no division is by zero.
use nifre.Prelude.{
  ℕ, ◌+◌, ◌<◌, ◌≡◌, ◌⊎◌, refl, ap, inl, inr, true, false, List, [], ◌∷◌, length, ltb, ◌==◌,
  if◌then◌else◌, Bool-cases, arith,
}
use nifre.Prelude.Exec.{ok}
use nifre.Prelude.Floats.{Floats, zero_float}
use nifre.Metrics.{MetricsStore, TokenEvent}
use nifre.Metrics.Percentile.{Rounding, over_count}
use nifre.Metrics.Report.{
  quotient, over_float, count_since, rate, tokens_since, token_rate, reuse_ratio,
}

module _ {W : Type 0} ⦃f : Floats W⦄ where
  module _ (g : Rounding W) where
    -- The calls within the window.
    abbrev pub recent : W → List W → List W
    recent cutoff [] = []
    recent cutoff (t ∷ l) = let rest = recent cutoff l in if f.le cutoff t then t ∷ rest else rest

    -- 0.0 for a window of zero, and otherwise the calls in it over its length.
    abbrev pub IsRate : W → W → List W → W → Type 0
    IsRate window now timestamps v =
        ((g.is_zero window ≡ true) × (v ≡ zero_float))
        ⊎ ((g.is_zero window ≡ false)
            × (v ≡ f.div (f.of_nat (length (recent (f.sub now window) timestamps))) window))

    -- 0.0 where the second count is zero.
    abbrev pub IsQuotient : ℕ → ℕ → W → Type 0
    IsQuotient a b v =
        ((b ≡ 0) × (v ≡ zero_float)) ⊎ ((0 < b) × (v ≡ f.div (f.of_nat a) (f.of_nat b)))

    count_since-recent :
        (cutoff : W) (l : List W) → count_since g cutoff l ≡ length (recent cutoff l)
    count_since-recent cutoff [] = refl
    count_since-recent cutoff (t ∷ l) = elim (Bool-cases (f.le cutoff t)) [
      | inl e ↦ rw e (omega (arith, count_since-recent cutoff l))
      | inr e ↦ rw e (omega (arith, count_since-recent cutoff l))
    ]

    pub over_count-ok : (a : W) (n : ℕ) → 0 < n → over_count a n ≡ ok (f.div a (f.of_nat n))
    unfolding over_count
    over_count-ok a n pos = let e : (n == 0) ≡ false = ground arith in rw e refl

    pub quotient-ok : (a b : ℕ) → (v : W) × (quotient a b ≡ ok v) × IsQuotient a b v
    unfolding quotient
    quotient-ok a b = elim (Bool-cases (ltb 0 b)) [
      | inl e ↦
          let pos : 0 < b = ground arith in
          (
            f.div (f.of_nat a) (f.of_nat b),
            rw e (over_count-ok (f.of_nat a) b pos),
            inr (pos, refl),
          )
      | inr e ↦ (zero_float, rw e refl, inl (ground arith, refl))
    ]

    pub rate-ok :
        (window now : W) (timestamps : List W)
        → (v : W) × (rate g window now timestamps ≡ ok v) × IsRate window now timestamps v
    unfolding rate over_float
    rate-ok window now timestamps = elim (Bool-cases (g.is_zero window)) [
      | inl e ↦ (zero_float, rw e refl, inl (e, refl))
      | inr e ↦
          let n = count_since g (f.sub now window) timestamps in
          (
            f.div (f.of_nat n) window,
            rw e refl,
            inr (
              e,
              ap (λ k. f.div (f.of_nat k) window)
                  (count_since-recent (f.sub now window) timestamps),
            ),
          )
    ]

    pub reuse_ratio-ok : (m : MetricsStore W) → (v : W) × (reuse_ratio g m ≡ ok v)
    unfolding reuse_ratio
    reuse_ratio-ok m =
        let all = m.prefix_cache_tokens_saved + m.total_prefill_tokens in
        elim (Bool-cases (ltb 0 all)) [
          | inr e ↦ (zero_float, rw e refl)
          | inl e ↦ (
            g.round (f.div (f.of_nat m.prefix_cache_tokens_saved) (f.of_nat all)) 4,
            rw (e, over_count-ok (f.of_nat m.prefix_cache_tokens_saved) all (ground arith)) refl,
          )
        ]

    module _ (one : g.is_zero (f.ratio 1 1) ≡ false) where
      pub token_rate-ok :
          (part : TokenEvent W → ℕ) (window now : W) (events : List (TokenEvent W))
          → (v : W) × (token_rate g part window now events ≡ ok v)
      unfolding token_rate over_float
      token_rate-ok part window now events = elim (Bool-cases (g.is_zero window)) [
        | inl e ↦ (
          f.div (f.of_nat (tokens_since g part (f.sub now window) events)) (f.ratio 1 1),
          rw (e, one) refl,
        )
        | inr e ↦ (
          f.div (f.of_nat (tokens_since g part (f.sub now window) events)) window,
          rw (e, e) refl,
        )
      ]
