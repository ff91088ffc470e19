-- ===== src/Run/Report/Composed.antt =====
-- internal/run/run.go: what a composed report says of its gates.
use togi.Prelude.{
  ℕ, ◌+◌, ◌≡◌, refl, ◌∙◌, subst, Bool, true, false, not, Option, none, some, List, [], ◌∷◌, arith,
  All, length, if◌then◌else◌,
}
use mathlib.Core.List.{Perm}
use togi.Prelude.Int.{eqb_ℤ}
use togi.Prelude.Sort.{sort, sort-perm}
use togi.Prelude.Exists.{exists, exists-sort}
use togi.Text.{Bytes}
use togi.Finding.{
  Severity, error, warning, info, other, valid_severity, Finding, FindingError, validate_identity,
  validate,
}
use togi.Finding.Group.{GroupResult, grouped, invalid, panicked, group, severity_eqb}
use togi.Flywheel.Plan.{count_of}
use togi.Flywheel.Plan.Canonical.{occurrence_total}
use togi.Run.Diff.Resolve.{Diff}
use togi.Run.Diff.Report.{DiffError, validate_diff}
use togi.Run.Report.{
  GateReport, FindingCounts, Report, ReportError, ◌>>◌, require, finding_error, is_errored, blocks,
  any_errored, any_blocking, verdict_for, add_severity, add_counts, count_from, count_findings,
  less_gate_report, all_findings, all_valid, validate_order, validate_gates_from,
  validate_report_summary, validate_report, report_of, checked_report, of_group, of_diff, composed,
  compose_report,
}

-- The errors of a chain.
then-none : (a b : Option ReportError) → (a >> b) ≡ none → (a ≡ none) × (b ≡ none)
then-none none b h = (refl, h)
then-none (some e) b h = ground (arith, h)

require-none : (b : Bool) (e : ReportError) → require b e ≡ none → b ≡ true
require-none true e h = refl
require-none false e h = ground (arith, h)

not-true : (b : Bool) → not b ≡ true → b ≡ false
not-true b h = ground (arith, h)

-- The gates are in order, each strictly behind the one before it.
abbrev Behind : Option GateReport → GateReport → Type 0
Behind none g = Unit
Behind (some before) g =
    (eqb_ℤ before.position g.position ≡ false) × (less_gate_report before g ≡ true)

abbrev AreBehind : Option GateReport → List GateReport → Type 0
AreBehind before [] = Unit
AreBehind before (g ∷ gs) = Behind before g × AreBehind (some g) gs

pub AreOrdered : List GateReport → Type 0
AreOrdered gates = AreBehind none gates

finding_error-none : (o : Option FindingError) → finding_error o ≡ none → o ≡ none
finding_error-none none h = refl
finding_error-none (some e) h = ground (arith, h)

identity_severity : (f : Finding) → validate_identity f ≡ none → valid_severity f.severity ≡ true
unfolding validate_identity
identity_severity f h = ground (arith, h)

module _ (sha256 : Bytes → Bytes) where
  validate_order-Behind :
      (before : Option GateReport) (g : GateReport)
      → validate_order sha256 before g ≡ none
      → Behind before g
  validate_order-Behind none g h = tt
  validate_order-Behind (some before) g h =
      let (a, b) = then-none _ _ h in (not-true _ (require-none _ _ a), require-none _ _ b)

  validate_gates_from-AreBehind :
      (before : Option GateReport) (gs : List GateReport)
      → validate_gates_from sha256 before gs ≡ none
      → AreBehind before gs
  unfolding validate_gates_from
  validate_gates_from-AreBehind before [] h = tt
  validate_gates_from-AreBehind before (g ∷ gs) h =
      let (_, k) = then-none _ _ h in
      let (b, l) = then-none _ _ k in
      (validate_order-Behind before g b, validate_gates_from-AreBehind (some g) gs l)

  validate-severity : (f : Finding) → validate sha256 f ≡ none → valid_severity f.severity ≡ true
  validate-severity f h = identity_severity f (unfold validate in go (validate_identity f) _ h)
    where
      go :
          (o : Option FindingError) (rest : Option FindingError)
          → (elim o as (λ _. Option FindingError) [ some e ↦ some e | none ↦ rest ]) ≡ none
          → o ≡ none
      go none rest h = refl
      go (some e) rest h = h

  all_valid-severities :
      (fs : List Finding)
      → all_valid sha256 fs ≡ none
      → All (λ f. valid_severity f.severity ≡ true) fs
  all_valid-severities [] h = tt
  all_valid-severities (f ∷ fs) h =
      let (a, b) = then-none _ _ h in
      (validate-severity f (finding_error-none (validate sha256 f) a), all_valid-severities fs b)

-- The places that the findings of one severity name: the primary one of each, and its occurrences.
unfoldable pub places_of : Severity → List Finding → ℕ
places_of s [] = 0
places_of s (f ∷ fs) =
    (if severity_eqb f.severity s then 1 + length f.occurrences else 0) + places_of s fs

add_counts-each :
    (f : Finding) (c : FindingCounts)
    → ((add_counts f c).errors ≡ c.errors + places_of error (f ∷ []))
      × ((add_counts f c).warnings ≡ c.warnings + places_of warning (f ∷ []))
      × ((add_counts f c).info_count ≡ c.info_count + places_of info (f ∷ []))
unfolding add_severity places_of severity_eqb
add_counts-each f c =
    go f.severity (1 + length f.occurrences)
      (record c { occurrences = c.occurrences + (1 + length f.occurrences) })
  where
    go :
        (s : Severity) (n : ℕ) (c : FindingCounts)
        → ((add_severity s n c).errors ≡ c.errors + ((if severity_eqb s error then n else 0) + 0))
          × ((add_severity s n c).warnings
              ≡ c.warnings + ((if severity_eqb s warning then n else 0) + 0))
          × ((add_severity s n c).info_count
              ≡ c.info_count + ((if severity_eqb s info then n else 0) + 0))
    go error n c = (omega arith, omega arith, omega arith)
    go warning n c = (omega arith, omega arith, omega arith)
    go info n c = (omega arith, omega arith, omega arith)
    go (other t) n c = (omega arith, omega arith, omega arith)

count_from-each :
    (c : FindingCounts) (fs : List Finding)
    → ((count_from c fs).errors ≡ c.errors + places_of error fs)
      × ((count_from c fs).warnings ≡ c.warnings + places_of warning fs)
      × ((count_from c fs).info_count ≡ c.info_count + places_of info fs)
unfolding count_from places_of
count_from-each c [] = (omega arith, omega arith, omega arith)
count_from-each c (f ∷ fs) =
    let (a, b, d) = count_from-each (add_counts f c) fs in
    let (i, j, k) = add_counts-each f c in
    (omega (arith, a, i), omega (arith, b, j), omega (arith, d, k))

count_findings-each :
    (fs : List Finding)
    → ((count_findings fs).errors ≡ places_of error fs)
      × ((count_findings fs).warnings ≡ places_of warning fs)
      × ((count_findings fs).info_count ≡ places_of info fs)
unfolding count_findings
count_findings-each fs =
    let (a, b, d) =
      count_from-each (record { errors = 0; warnings = 0; info_count = 0; occurrences = 0 }) fs in
    (omega (arith, a), omega (arith, b), omega (arith, d))

-- The places of the findings, one by one and by severity.
abbrev severity_sum : FindingCounts → ℕ
severity_sum c = c.errors + c.warnings + c.info_count

add_severity-occurrences :
    (s : Severity) (n : ℕ) (c : FindingCounts) → (add_severity s n c).occurrences ≡ c.occurrences
unfolding add_severity
add_severity-occurrences error n c = refl
add_severity-occurrences warning n c = refl
add_severity-occurrences info n c = refl
add_severity-occurrences (other s) n c = refl

add_severity-sum :
    (s : Severity) (n : ℕ) (c : FindingCounts)
    → valid_severity s ≡ true
    → severity_sum (add_severity s n c) ≡ severity_sum c + n
unfolding add_severity valid_severity
add_severity-sum error n c h = omega arith
add_severity-sum warning n c h = omega arith
add_severity-sum info n c h = omega arith
add_severity-sum (other s) n c h = ground (arith, h)

count_from-occurrences :
    (c : FindingCounts) (fs : List Finding)
    → (count_from c fs).occurrences ≡ c.occurrences + occurrence_total fs
unfolding count_from occurrence_total count_of
count_from-occurrences c [] = omega arith
count_from-occurrences c (f ∷ fs) =
    count_from-occurrences (add_counts f c) fs
    ∙ omega (
      arith,
      add_severity-occurrences f.severity (1 + length f.occurrences)
          (record c { occurrences = c.occurrences + (1 + length f.occurrences) }),
    )

count_from-sum :
    (c : FindingCounts) (fs : List Finding)
    → All (λ f. valid_severity f.severity ≡ true) fs
    → severity_sum (count_from c fs) ≡ severity_sum c + occurrence_total fs
unfolding count_from occurrence_total count_of
count_from-sum c [] h = omega arith
count_from-sum c (f ∷ fs) h =
    count_from-sum (add_counts f c) fs h.1
    ∙ omega (
      arith,
      add_severity-sum f.severity (1 + length f.occurrences)
          (record c { occurrences = c.occurrences + (1 + length f.occurrences) }) h.0,
    )

count_findings-sums :
    (fs : List Finding)
    → All (λ f. valid_severity f.severity ≡ true) fs
    → (severity_sum (count_findings fs) ≡ (count_findings fs).occurrences)
      × ((count_findings fs).occurrences ≡ occurrence_total fs)
unfolding count_findings
count_findings-sums fs h =
    let zero_counts : FindingCounts = record {
      errors = 0;
      warnings = 0;
      info_count = 0;
      occurrences = 0;
    } in
    let places = count_from-occurrences zero_counts fs in
    (omega (arith, count_from-sum zero_counts fs h, places), omega (arith, places))

-- What a report that is composed says.
pub record IsComposed (sha256 : Bytes → Bytes) (gates : List GateReport) (r : Report) : Type 0 where
  pub same_gates : Perm r.gates gates
  pub ordered : AreOrdered r.gates
  pub merged : group sha256 (all_findings gates) ≡ grouped r.findings
  pub errors_counted : r.counts.errors ≡ places_of error r.findings
  pub warnings_counted : r.counts.warnings ≡ places_of warning r.findings
  pub info_counted : r.counts.info_count ≡ places_of info r.findings
  pub by_severity : severity_sum r.counts ≡ r.counts.occurrences
  pub places : r.counts.occurrences ≡ occurrence_total r.findings
  pub judged : r.verdict ≡ verdict_for gates

verdict_for-sort :
    (gates : List GateReport) → verdict_for (sort less_gate_report gates) ≡ verdict_for gates
unfolding verdict_for any_errored any_blocking
verdict_for-sort gates =
    rw (exists-sort (λ g. is_errored g.status) less_gate_report gates)
      (rw (exists-sort (λ g. exists (blocks g) g.findings) less_gate_report gates) refl)

module _ (sha256 : Bytes → Bytes) where
  IsComposed-report_of :
      (run_id repo_id : Bytes) (started finished : ℕ) (diff : Diff) (gates : List GateReport)
      (fs : List Finding)
      → group sha256 (all_findings gates) ≡ grouped fs
      → validate_report sha256 (report_of run_id repo_id started finished diff gates fs) run_id
        ≡ none
      → IsComposed sha256 gates (report_of run_id repo_id started finished diff gates fs)
  unfolding validate_report validate_report_summary AreOrdered
  IsComposed-report_of run_id repo_id started finished diff gates fs merged h =
      let (_, k) = then-none _ _ h in
      let (ordered, l) = then-none _ _ k in
      let (valid, _) = then-none _ _ l in
      let (by_severity, places) = count_findings-sums fs (all_valid-severities sha256 fs valid) in
      let (errors_counted, warnings_counted, info_counted) = count_findings-each fs in
      record {
        same_gates = sort-perm less_gate_report gates;
        ordered = validate_gates_from-AreBehind sha256 none (sort less_gate_report gates) ordered;
        merged = merged;
        errors_counted = errors_counted;
        warnings_counted = warnings_counted;
        info_counted = info_counted;
        by_severity = by_severity;
        places = places;
        judged = verdict_for-sort gates;
      }

  checked_report-none :
      (r s : Report) (o : Option ReportError)
      → checked_report r o ≡ composed s
      → (o ≡ none) × (r ≡ s)
  checked_report-none r s none h = (refl, ground (arith, h))
  checked_report-none r s (some e) h = ground (arith, h)

  pub compose_report-IsComposed :
      (run_id repo_id : Bytes) (started finished : ℕ) (diff : Diff) (gates : List GateReport)
      (r : Report)
      → compose_report sha256 run_id repo_id started finished diff gates ≡ composed r
      → IsComposed sha256 gates r
  unfolding compose_report
  compose_report-IsComposed run_id repo_id started finished diff gates r h =
      by_diff (validate_diff diff) h
    where
      by_group :
          (g : GroupResult)
          → group sha256 (all_findings gates) ≡ g
          → of_group sha256 run_id repo_id started finished diff gates g ≡ composed r
          → IsComposed sha256 gates r
      by_group (grouped fs) e h =
          let (valid, same) = checked_report-none _ r _ h in
          subst (IsComposed sha256 gates) same
            (IsComposed-report_of run_id repo_id started finished diff gates fs e valid)
      by_group (invalid n x) e h = ground (arith, h)
      by_group panicked e h = ground (arith, h)

      by_diff :
          (o : Option DiffError)
          → of_diff sha256 run_id repo_id started finished diff gates o ≡ composed r
          → IsComposed sha256 gates r
      by_diff none h = by_group (group sha256 (all_findings gates)) refl h
      by_diff (some e) h = ground (arith, h)
