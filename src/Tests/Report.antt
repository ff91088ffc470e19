-- ===== src/Tests/Report.antt =====
-- A run of the report and its status.
use togi.Prelude.{Bool, true, false, ◌≡◌, refl, subst, none, some, List, [], ◌∷◌, if◌then◌else◌}
use togi.Prelude.Int.{pos}
use togi.Text.{ascii}
use togi.Finding.{error, warning}
use togi.Run.Diff.Resolve.{Diff}
use togi.Run.Report.{
  GateReport, Report, gate_findings, gate_passed, llm_fix, report_only, report_of, compose_report,
}
use togi.Run.Report.Verdicts.{HasErrored, HasBlocking}
use togi.Run.Exit.{RunError, other_error, resolve_exit}
use togi.Run.Finish.{FinishPorts, finish_report_only}
use togi.Run.Finish.Status.{
  IsStatusOf, HasNoStatus, HaveNoStatus, IsFinished, resolve_exit-finish_report_only,
}
use togi.Tests.Sample.{zero_digest, blockers, head_revision}

abbrev one_file : Diff
one_file = record {
  base_ref = ascii "main";
  base_commit = head_revision;
  merge_base = head_revision;
  head = head_revision;
  changed_files = 1;
  changed_lines = 2;
  lines = (ascii "a.go", record { start = 1; end = 2 } ∷ []) ∷ [];
}

-- A gate that passed, behind one with a blocking finding.
abbrev two_gates : List GateReport
two_gates =
    record {
      gate = ascii "vet";
      language = ascii "go";
      blocking = error ∷ [];
      fix_policy = report_only;
      position = pos 3;
      status = gate_passed;
      findings = [];
      duration_ms = pos 4;
      observed_version = [];
      warnings = [];
      error_text = [];
    }
    ∷ record {
      gate = ascii "lint";
      language = ascii "go";
      blocking = error ∷ warning ∷ [];
      fix_policy = llm_fix;
      position = pos 1;
      status = gate_findings;
      findings = blockers;
      duration_ms = pos 20;
      observed_version = [];
      warnings = [];
      error_text = [];
    }
    ∷ []

abbrev sample_report : Report
sample_report = report_of (ascii "run-1") head_revision 5 9 one_file two_gates blockers

-- A ledger on a disk that is full at first.
abbrev small_disk : FinishPorts
small_disk = record {
  World = Bool;
  write_report =
      λ r full. if full then (some (other_error (ascii "no space left")), false) else (none, full);
  close = λ w. (none, w);
  render = λ r w. (none, w);
  report_error_text = λ e. ascii "report";
}

never : (e : RunError) → none ≡ some e → HasNoStatus e
never e h = cc h

small_disk-HaveNoStatus : HaveNoStatus small_disk
unfolding resolve_exit
small_disk-HaveNoStatus = record {
  writing = λ r w e h. on_full w e h;
  closing = λ w e h. never e h;
  rendering = λ r w e h. never e h;
}
  where
    on_full :
        (w : Bool) (e : RunError)
        → (small_disk.write_report sample_report w).0 ≡ some e
        → HasNoStatus e
    on_full true e h = subst (λ o. resolve_exit o ≡ pos 70) h refl
    on_full false e h = never e h

resolve_exit-finish_report_only_example :
    IsStatusOf
      (IsFinished small_disk
        (compose_report zero_digest (ascii "run-1") head_revision 5 9 one_file two_gates)
        false)
      (HasErrored two_gates)
      (HasBlocking two_gates)
      (resolve_exit
        (finish_report_only zero_digest small_disk
          (ascii "run-1")
          head_revision
          5
          9
          one_file
          two_gates
          false).0)
resolve_exit-finish_report_only_example =
    resolve_exit-finish_report_only zero_digest small_disk small_disk-HaveNoStatus (ascii "run-1")
      head_revision 5 9 one_file two_gates false
