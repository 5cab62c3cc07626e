-- ===== src/Autotune.antt =====
-- src/autotune: the numbers that the tuning looks at (Workload), the labels it gives them
-- (Classifier), the comparison of numbers
-- (Evaluation), and the controller that changes the engine's configuration, compares, and keeps
-- the change or takes it back (Controller). The policy between them is the module Policy.
pub mod Workload
pub mod Classifier
pub mod Window
pub mod Evaluation
pub mod Controller
pub mod Tick
pub mod Balance
pub mod Rollback
pub mod Acceptance
