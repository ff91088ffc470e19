-- ===== src/Tests.antt =====
-- Runs at concrete inputs.
mod Sample
mod Findings
mod Engine
mod Scope
mod Versions
mod Diff
mod Brief
mod Validate
mod Resolve
mod Report
mod Select
