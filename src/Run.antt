-- ===== src/Run.antt =====
-- internal/run: one run of the gates over a diff, and what it reports.
pub mod Diff
pub mod Report
pub mod Exit
pub mod Finish
pub mod Select
