-- ===== src/Flywheel.antt =====
-- internal/flywheel: the fix loop. Plans of batches, execution rails, and the engine that runs
-- batches until the barrier is clean.
pub mod Rails
pub mod Multiset
pub mod Plan
pub mod Brief
pub mod Engine
pub mod Validate
