-- ===== src/Metrics/Collector/Memory.antt =====
-- src/observability/collector.py: the metrics store and the kept times after any hooks.
use nifre.Prelude.{ℕ, ◌≡◌, List}
use nifre.Prelude.Floats.{Floats}
use nifre.Metrics.Collector.{RequestTimes, MetricsCollector}
use nifre.Metrics.Collector.Hooks.{Hook}
use nifre.Metrics.Collector.Expected.{stamps, stamps_of}

module _ {W : Type 0} where
  module _ ⦃f : Floats W⦄ where
    module _ (times : ℕ → RequestTimes W) where
      -- The collector has the stamps of the hooks so far.
      abbrev Remembers : List (Hook W) → MetricsCollector W → Type 0
      Remembers past c = (id : ℕ) → stamps (c.times id) ≡ stamps_of times past id
