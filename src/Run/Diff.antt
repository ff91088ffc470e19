-- ===== src/Run/Diff.antt =====
-- internal/run/diff.go: the committed diff of a run. Parse reads the output of git, Ranges merges
-- changed lines, Resolve calls git.
pub mod Parse
pub mod Ranges
pub mod Hunks
pub mod Index
pub mod Resolve
pub mod Report
