-- ===== src/Flywheel/Engine.antt =====
-- internal/flywheel/engine.go: the loop that runs fix batches until the barrier is clean.
pub mod Ports
pub mod State
pub mod Step
pub mod Attempt
pub mod Batch
pub mod Barrier
pub mod Loop
pub mod Budget
