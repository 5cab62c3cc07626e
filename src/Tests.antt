-- ===== src/Tests.antt =====
-- The theorems of the library at concrete inputs.
mod Blocks
mod Caches
mod Scheduling
mod Engines
mod Streams
mod Hf
mod Tuning
mod Workers
mod Measures
