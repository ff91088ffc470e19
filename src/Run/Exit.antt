-- ===== src/Run/Exit.antt =====
-- internal/run/exit.go: verdicts and errors as the status of the process.
use togi.Prelude.{ℕ, ◌||◌, Option, none, some, if◌then◌else◌}
use togi.Prelude.Int.{ℤ, pos, ltb_ℤ}
use togi.Text.{Bytes}
use togi.Run.Report.{
  Verdict, verdict_unverified, verdict_findings, verdict_blocked, verdict_rails, verdict_errored,
  verdict_unsealed, other_verdict,
}

-- An error that carries a status, a nil one among its wrappers, or an error without one.
pub data RunError : Type 0 where
  exit_error : ℤ → RunError
  nil_exit_error : RunError
  other_error : Bytes → RunError

unfoldable pub exit_code : Verdict → ℕ
exit_code verdict_findings = 1
exit_code verdict_blocked = 2
exit_code verdict_rails = 3
exit_code verdict_errored = 4
exit_code verdict_unverified = 5
exit_code verdict_unsealed = 6
exit_code (other_verdict s) = 70

abbrev status_of : ℤ → ℤ
status_of code = if ltb_ℤ code (pos 1) || ltb_ℤ (pos 6) code then pos 70 else code

unfoldable pub resolve_exit : Option RunError → ℤ
resolve_exit none = pos 0
resolve_exit (some (exit_error code)) = status_of code
resolve_exit (some nil_exit_error) = pos 70
resolve_exit (some (other_error text)) = pos 70

-- The error that a run without a fix ends with.
unfoldable pub verdict_exit : Verdict → Option RunError
verdict_exit v = some (exit_error (pos (exit_code v)))
