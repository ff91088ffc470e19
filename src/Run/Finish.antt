-- ===== src/Run/Finish.antt =====
-- internal/run/run.go: the end of `runReportOnly`, from the reports of the gates on. The ledger of
-- the run and the rendering are ports, whose errors may carry a status; the reference to the run's
-- directory, which a report is given before it is rendered, is left out.
pub mod Status
use togi.Prelude.{ℕ, Option, none, some, List, ◌∷◌, ◌++◌}
use togi.Text.{Bytes, ascii}
use togi.Run.Diff.Resolve.{Diff}
use togi.Run.Report.{
  GateReport, Report, ReportError, Composition, composed, refused, compose_report,
}
use togi.Run.Exit.{RunError, exit_error, nil_exit_error, other_error, verdict_exit}

pub record FinishPorts : Type 1 where
  pub World : Type 0
  -- active.WriteReport, active.Close and Render
  pub write_report : Report → World → Option RunError × World
  pub close : World → Option RunError × World
  pub render : Report → World → Option RunError × World
  pub report_error_text : ReportError → Bytes

-- fmt.Errorf with %w: a status stays behind the text.
unfoldable pub wrap : Bytes → RunError → RunError
wrap prefix (exit_error code) = exit_error code
wrap prefix nil_exit_error = nil_exit_error
wrap prefix (other_error text) = other_error (prefix ++ text)

-- errors.Join, as errors.As searches it: the first error with a status decides.
unfoldable pub join_errors : RunError → Option RunError → RunError
join_errors e none = e
join_errors (exit_error code) (some e) = exit_error code
join_errors nil_exit_error (some e) = nil_exit_error
join_errors (other_error text) (some (exit_error code)) = exit_error code
join_errors (other_error text) (some nil_exit_error) = nil_exit_error
join_errors (other_error text) (some (other_error more)) = other_error (text ++ 10 ∷ more)

module _ (P : FinishPorts) where
  open P use {World}

  -- An error of the function, behind which the deferred call closes the ledger.
  abbrev pub close_behind : RunError → World → Option RunError × World
  close_behind e w = let (closed, w') = P.close w in (some (join_errors e closed), w')

  abbrev pub of_rendered : Report → Option RunError × World → Option RunError × World
  of_rendered r (some e, w) = (some (wrap (ascii "render report: ") e), w)
  of_rendered r (none, w) = (verdict_exit r.verdict, w)

  abbrev pub of_closed : Report → Option RunError × World → Option RunError × World
  of_closed r (some e, w) = close_behind (wrap (ascii "close run ledger: ") e) w
  of_closed r (none, w) = of_rendered r (P.render r w)

  abbrev pub of_written : Report → Option RunError × World → Option RunError × World
  of_written r (some e, w) = close_behind (wrap (ascii "write report: ") e) w
  of_written r (none, w) = of_closed r (P.close w)

  abbrev pub of_composition : Composition → World → Option RunError × World
  of_composition (refused e) w = close_behind (other_error (P.report_error_text e)) w
  of_composition (composed r) w = of_written r (P.write_report r w)

module _ (sha256 : Bytes → Bytes) (P : FinishPorts) where
  -- The error that `runReportOnly` returns, and the world behind it.
  unfoldable pub finish_report_only :
      Bytes → Bytes → ℕ → ℕ → Diff → List GateReport → P.World → Option RunError × P.World
  finish_report_only run_id repo_id started finished diff gates w =
      of_composition P (compose_report sha256 run_id repo_id started finished diff gates) w
