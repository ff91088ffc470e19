-- ===== src/Run/Report.antt =====
-- internal/run/report.go, and of internal/run/run.go `ComposeReport` with what it calls of
-- internal/run/ledger.go: the report of a run without a fix. A time is its distance from the zero
-- time; lists of a report are not nil. SHA-256 is a parameter.
pub mod Verdicts
pub mod Composed
use togi.Prelude.{
  ℕ, suc, ◌+◌, Bool, true, false, not, ◌&&◌, ◌||◌, Option, none, some, List, [], ◌∷◌, ◌++◌, ◌==◌,
  ltb, leb, if◌then◌else◌, length,
}
use togi.Prelude.Int.{ℤ, pos, eqb_ℤ, ltb_ℤ}
use togi.Prelude.Sort.{sort}
use togi.Prelude.Exists.{exists}
use togi.Text.{Bytes, ascii, bytes_eqb, bytes_ltb, is_empty}
use togi.Text.Space.{is_blank}
use togi.Finding.{
  Severity, error, warning, info, other, valid_severity, Finding, FindingError, validate,
}
use togi.Finding.Group.{GroupResult, grouped, invalid, panicked, group, severity_eqb}
use togi.Flywheel.Plan.{finding_eqb}
use togi.Run.Diff.Resolve.{Diff}
use togi.Run.Diff.Report.{
  DiffReport, DiffError, diff_report, validate_diff, validate_diff_report, valid_object_id_string,
}

pub data GateStatus : Type 0 where
  gate_passed gate_findings gate_errored : GateStatus
  other_status : Bytes → GateStatus

pub data Verdict : Type 0 where
  verdict_unverified verdict_findings verdict_blocked verdict_rails verdict_errored
        verdict_unsealed :
      Verdict
  other_verdict : Bytes → Verdict

pub data FixPolicy : Type 0 where
  autofix_only autofix_then_llm llm_fix report_only : FixPolicy
  other_policy : Bytes → FixPolicy

pub record GateReport : Type 0 where
  pub gate : Bytes
  pub language : Bytes
  pub blocking : List Severity
  pub fix_policy : FixPolicy
  pub position : ℤ
  pub status : GateStatus
  pub findings : List Finding
  pub duration_ms : ℤ
  pub observed_version : Bytes
  pub warnings : List Bytes
  pub error_text : Bytes

pub record FindingCounts : Type 0 where
  pub errors : ℕ
  pub warnings : ℕ
  pub info_count : ℕ
  pub occurrences : ℕ

pub record Report : Type 0 where
  pub schema_version : ℕ
  pub run_id : Bytes
  pub repo_id : Bytes
  pub diff : DiffReport
  pub started_at : ℕ
  pub finished_at : ℕ
  pub verdict : Verdict
  pub gates : List GateReport
  pub findings : List Finding
  pub counts : FindingCounts

pub data ReportError : Type 0 where
  gate_unnamed negative_duration negative_position blocking_invalid blocking_duplicate
        policy_invalid :
      ReportError
  status_invalid status_inconsistent finding_invalid foreign_finding not_grouped : ReportError
  positions_duplicated gates_out_of_order : ReportError
  schema_unsupported run_id_differs repo_id_invalid timestamps_required verdict_invalid
        fix_required :
      ReportError
  finished_before_start gates_required : ReportError
  diff_invalid : DiffError → ReportError
  findings_differ counts_differ verdict_differs : ReportError
  ungroupable : ReportError

-- The first error.
infixr 3 ◌>>◌
abbrev pub ◌>>◌ : Option ReportError → Option ReportError → Option ReportError
some e >> o = some e
none >> o = o

abbrev pub require : Bool → ReportError → Option ReportError
require b e = if b then none else some e

-- `verdictFor`
unfoldable pub is_errored : GateStatus → Bool
is_errored gate_errored = true
is_errored _ = false

-- slices.Contains
unfoldable pub contains_severity : Severity → List Severity → Bool
contains_severity s = exists (severity_eqb s)

abbrev pub blocks : GateReport → Finding → Bool
blocks g f = contains_severity f.severity g.blocking

unfoldable pub any_errored : List GateReport → Bool
any_errored = exists λ g. is_errored g.status

unfoldable pub any_blocking : List GateReport → Bool
any_blocking = exists λ g. exists (blocks g) g.findings

unfoldable pub verdict_for : List GateReport → Verdict
verdict_for gates =
    if any_errored gates
    then verdict_errored
    else if any_blocking gates
    then verdict_findings
    else verdict_unverified

-- `countFindings`: n places of a severity
unfoldable pub add_severity : Severity → ℕ → FindingCounts → FindingCounts
add_severity error n c = record c { errors = c.errors + n }
add_severity warning n c = record c { warnings = c.warnings + n }
add_severity info n c = record c { info_count = c.info_count + n }
add_severity (other s) n c = c

abbrev pub add_counts : Finding → FindingCounts → FindingCounts
add_counts f c =
    let n = 1 + length f.occurrences in
    add_severity f.severity n (record c { occurrences = c.occurrences + n })

unfoldable pub count_from : FindingCounts → List Finding → FindingCounts
count_from c [] = c
count_from c (f ∷ fs) = count_from (add_counts f c) fs

unfoldable pub count_findings : List Finding → FindingCounts
count_findings = count_from (record { errors = 0; warnings = 0; info_count = 0; occurrences = 0 })

-- compareGateReports(left, right) < 0, for positions whose difference does not wrap
unfoldable pub less_gate_report : GateReport → GateReport → Bool
less_gate_report left right =
    if not (eqb_ℤ left.position right.position)
    then ltb_ℤ left.position right.position
    else if not (bytes_eqb left.gate right.gate)
    then bytes_ltb left.gate right.gate
    else bytes_ltb left.language right.language

unfoldable pub validate_gate_status : GateReport → Option ReportError
validate_gate_status g = elim g.status [
  | gate_passed ↦ require (length g.findings == 0 && is_empty g.error_text) status_inconsistent
  | gate_findings ↦
      require (not (length g.findings == 0) && is_empty g.error_text) status_inconsistent
  | gate_errored ↦
      require (length g.findings == 0 && not (is_blank g.error_text)) status_inconsistent
  | other_status s ↦ some status_invalid
]

unfoldable pub validate_blocking : List Severity → List Severity → Option ReportError
validate_blocking seen [] = none
validate_blocking seen (s ∷ ss) =
    require (valid_severity s) blocking_invalid
    >> require (not (contains_severity s seen)) blocking_duplicate
    >> validate_blocking (s ∷ seen) ss

unfoldable pub valid_policy : FixPolicy → Bool
valid_policy (other_policy s) = false
valid_policy _ = true

unfoldable pub findings_eqb : List Finding → List Finding → Bool
findings_eqb [] [] = true
findings_eqb (f ∷ fs) (g ∷ gs) = finding_eqb f g && findings_eqb fs gs
findings_eqb _ _ = false

unfoldable pub valid_verdict : Verdict → Bool
valid_verdict (other_verdict s) = false
valid_verdict _ = true

-- A verdict that a report without a fix can have
unfoldable pub needs_no_fix : Verdict → Bool
needs_no_fix verdict_blocked = false
needs_no_fix verdict_rails = false
needs_no_fix verdict_unsealed = false
needs_no_fix _ = true

abbrev pub finding_error : Option FindingError → Option ReportError
finding_error none = none
finding_error (some e) = some finding_invalid

abbrev pub diff_error : Option DiffError → Option ReportError
diff_error none = none
diff_error (some e) = some (diff_invalid e)

unfoldable pub all_findings : List GateReport → List Finding
all_findings [] = []
all_findings (g ∷ gs) = g.findings ++ all_findings gs

-- `repoid.ValidKey`
unfoldable pub valid_key : Bytes → Bool
valid_key key = valid_object_id_string key

abbrev counts_eqb : FindingCounts → FindingCounts → Bool
counts_eqb a b =
    a.errors == b.errors
    && (a.warnings == b.warnings
        && (a.info_count == b.info_count && a.occurrences == b.occurrences))

unfoldable pub verdict_eqb : Verdict → Verdict → Bool
verdict_eqb verdict_unverified verdict_unverified = true
verdict_eqb verdict_findings verdict_findings = true
verdict_eqb verdict_blocked verdict_blocked = true
verdict_eqb verdict_rails verdict_rails = true
verdict_eqb verdict_errored verdict_errored = true
verdict_eqb verdict_unsealed verdict_unsealed = true
verdict_eqb (other_verdict s) (other_verdict t) = bytes_eqb s t
verdict_eqb _ _ = false

pub data Composition : Type 0 where
  composed : Report → Composition
  refused : ReportError → Composition

-- The report of gates whose findings are grouped.
abbrev pub report_of : Bytes → Bytes → ℕ → ℕ → Diff → List GateReport → List Finding → Report
report_of run_id repo_id started finished diff gates findings =
    let ordered = sort less_gate_report gates in
    record {
      schema_version = 4;
      run_id = run_id;
      repo_id = repo_id;
      diff = diff_report diff;
      started_at = started;
      finished_at = if ltb finished started then started else finished;
      verdict = verdict_for ordered;
      gates = ordered;
      findings = findings;
      counts = count_findings findings;
    }

abbrev pub checked_report : Report → Option ReportError → Composition
checked_report r none = composed r
checked_report r (some e) = refused e

module _ (sha256 : Bytes → Bytes) where
  abbrev pub all_valid : List Finding → Option ReportError
  all_valid [] = none
  all_valid (f ∷ fs) = finding_error (validate sha256 f) >> all_valid fs

  abbrev owned : GateReport → List Finding → Option ReportError
  owned g [] = none
  owned g (f ∷ fs) =
      finding_error (validate sha256 f)
      >> require (bytes_eqb f.gate g.gate && bytes_eqb f.language g.language) foreign_finding
      >> owned g fs

  abbrev pub is_grouped_as : List Finding → GroupResult → Bool
  is_grouped_as fs (grouped gs) = findings_eqb gs fs
  is_grouped_as fs _ = false

  unfoldable pub validate_gate_report : GateReport → Option ReportError
  validate_gate_report g =
      require (not (is_blank g.gate || is_blank g.language)) gate_unnamed
      >> require (not (ltb_ℤ g.duration_ms (pos 0))) negative_duration
      >> require (not (ltb_ℤ g.position (pos 0))) negative_position
      >> validate_blocking [] g.blocking
      >> require (valid_policy g.fix_policy) policy_invalid
      >> validate_gate_status g
      >> owned g g.findings
      >> require (length g.findings == 0 || is_grouped_as g.findings (group sha256 g.findings))
          not_grouped

  -- A gate behind the one before it.
  abbrev pub validate_order : Option GateReport → GateReport → Option ReportError
  validate_order none g = none
  validate_order (some before) g =
      require (not (eqb_ℤ before.position g.position)) positions_duplicated
      >> require (less_gate_report before g) gates_out_of_order

  unfoldable pub validate_gates_from : Option GateReport → List GateReport → Option ReportError
  validate_gates_from before [] = none
  validate_gates_from before (g ∷ gs) =
      validate_gate_report g >> validate_order before g >> validate_gates_from (some g) gs

  unfoldable pub validate_report_header : Report → Bytes → Option ReportError
  validate_report_header r run_id =
      require (r.schema_version == 4) schema_unsupported
      >> require (bytes_eqb r.run_id run_id) run_id_differs
      >> require (valid_key r.repo_id) repo_id_invalid
      >> require (not (r.started_at == 0 || r.finished_at == 0)) timestamps_required
      >> require (valid_verdict r.verdict) verdict_invalid
      >> require (needs_no_fix r.verdict) fix_required
      >> require (not (ltb r.finished_at r.started_at)) finished_before_start
      >> require (not (length r.gates == 0)) gates_required
      >> diff_error (validate_diff_report r.diff)

  unfoldable pub validate_report_summary : Report → List Finding → Option ReportError
  validate_report_summary r flattened =
      all_valid r.findings
      >> require (is_grouped_as r.findings (group sha256 flattened)) findings_differ
      >> require (counts_eqb (count_findings r.findings) r.counts) counts_differ
      >> require (verdict_eqb (verdict_for r.gates) r.verdict) verdict_differs

  unfoldable pub validate_report : Report → Bytes → Option ReportError
  validate_report r run_id =
      validate_report_header r run_id
      >> validate_gates_from none r.gates
      >> validate_report_summary r (all_findings r.gates)

  abbrev pub of_group : Bytes → Bytes → ℕ → ℕ → Diff → List GateReport → GroupResult → Composition
  of_group run_id repo_id started finished diff gates (grouped findings) =
      let r = report_of run_id repo_id started finished diff gates findings in
      checked_report r (validate_report r run_id)
  of_group run_id repo_id started finished diff gates _ = refused ungroupable

  abbrev pub of_diff :
      Bytes → Bytes → ℕ → ℕ → Diff → List GateReport → Option DiffError → Composition
  of_diff run_id repo_id started finished diff gates (some e) = refused (diff_invalid e)
  of_diff run_id repo_id started finished diff gates none =
      of_group run_id repo_id started finished diff gates (group sha256 (all_findings gates))

  -- `ComposeReport`
  unfoldable pub compose_report : Bytes → Bytes → ℕ → ℕ → Diff → List GateReport → Composition
  compose_report run_id repo_id started finished diff gates =
      of_diff run_id repo_id started finished diff gates (validate_diff diff)
