-- ===== src/Flywheel/Engine/Budget.antt =====
-- internal/flywheel/engine.go: the attempts that the engine makes, and the iterations rail.
-- Rules for the ways to build a step, then one lemma for each function of the engine.
pub mod Steps
pub mod Cases
pub mod Attempt
pub mod Run
pub mod Loop
pub mod Execute
pub mod Total
