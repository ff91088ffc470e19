-- ===== src/Flywheel/Validate.antt =====
-- internal/flywheel/validate.go: `AttemptValidator.Validate` judges one attempt. The tree, the module
-- file, the gates and the suite are the parameter `Validator`, a context that ends shows as a text.
pub mod Soundness
use togi.Prelude.{
  ℕ, zero, suc, ◌+◌, ◌-◌, Bool, true, false, not, ◌&&◌, ◌||◌, Option, none, some, List, [], ◌∷◌,
  ◌++◌, ◌==◌, ltb, leb, if◌then◌else◌, length,
}
use togi.Prelude.Check.{
  Passage, onward, refuse, Check, give, call, refuse_with, require, of_option, ◌>>=◌, ◌>>◌,
}
use togi.Text.{Bytes, ascii, bytes_eqb, is_empty, mem_bytes}
use togi.Text.Space.{is_blank, join}
use togi.Text.Trim.{trim_space, contains_any, sorted_set}
use togi.Finding.{Finding}
use togi.Flywheel.Multiset.{Counts, lookup_count, strictly_shrinks, multiset_subset}
use togi.Flywheel.Plan.{Batch, PlanResult, blocking_multiset}
use togi.Flywheel.Brief.{max_identity_field_bytes, max_diagnostic_field_bytes}
use togi.Flywheel.Engine.Ports.{
  ValidationKind, ValidationResult, passed, semantic_failure, infrastructure_failure, Reply, ok,
  err, bounded_failure,
}

abbrev max_validation_findings : ℕ
max_validation_findings = 10000

abbrev max_validation_occurrences : ℕ
max_validation_occurrences = 100000

abbrev max_validation_evidence_bytes : ℕ
max_validation_evidence_bytes = 33554432

abbrev max_validation_gate_errors : ℕ
max_validation_gate_errors = 8192

pub record GateValidation : Type 0 where
  pub blocking : List Finding
  pub errored : List Bytes

pub record SuiteValidation : Type 0 where
  pub passed : Bool
  pub infrastructure_error : Bytes

-- strings.ReplaceAll(failure, "\x00", "")
unfoldable pub without_zeros : Bytes → Bytes
without_zeros [] = []
without_zeros (c ∷ s) = if c == 0 then without_zeros s else c ∷ without_zeros s

unfoldable pub bound_validation_failure : Bytes → Bytes
bound_validation_failure failure = bounded_failure (without_zeros failure)

-- The bytes of the fields with those before them; none where one is out of bounds.
unfoldable pub fields_within : ℕ → ℕ → List Bytes → Option ℕ
fields_within limit bytes [] = some bytes
fields_within limit bytes (field ∷ fields) =
    if ltb limit (length field) || ltb (max_validation_evidence_bytes - bytes) (length field)
    then none
    else fields_within limit (bytes + length field) fields

abbrev and_then : Option ℕ → (ℕ → Bool) → Bool
and_then none k = false
and_then (some n) k = k n

-- The loop of `validationEvidenceWithinBounds`, with the occurrences and the bytes so far.
unfoldable pub evidence_within : ℕ → ℕ → List Finding → Bool
evidence_within occurrences bytes [] = true
evidence_within occurrences bytes (f ∷ fs) =
    if ltb (max_validation_occurrences - occurrences) (length f.occurrences)
    then false
    else and_then
        (fields_within max_identity_field_bytes bytes
          (f.gate ∷ f.language ∷ f.rule_id ∷ f.file ∷ f.fingerprint ∷ []))
        λ more.
          and_then (fields_within max_diagnostic_field_bytes more (f.snippet ∷ f.message ∷ []))
            λ bytes'. evidence_within (occurrences + length f.occurrences) bytes' fs

unfoldable pub validation_evidence_within_bounds : List Finding → Bool
validation_evidence_within_bounds items =
    if ltb max_validation_findings (length items) then false else evidence_within 0 0 items

unfoldable pub valid_gate_error : Bytes → Bool
valid_gate_error name = not (
    is_empty name
    || (ltb max_identity_field_bytes (length name)
        || (not (bytes_eqb (trim_space name) name) || contains_any name (0 ∷ 13 ∷ 10 ∷ []))))

abbrev all_valid_errors : List Bytes → Bool
all_valid_errors [] = true
all_valid_errors (name ∷ names) = if valid_gate_error name then all_valid_errors names else false

unfoldable pub canonical_gate_errors : List Bytes → Option (List Bytes)
canonical_gate_errors errored = if all_valid_errors errored then some (sorted_set errored) else none

unfoldable pub unwaived_integrity_findings : List Bytes → List Finding → List Finding
unwaived_integrity_findings waived [] = []
unwaived_integrity_findings waived (f ∷ fs) =
    let rest = unwaived_integrity_findings waived fs in
    if mem_bytes f.fingerprint waived then rest else f ∷ rest

-- `for fingerprint := range assigned`: is a finding left that was assigned?
unfoldable pub assigned_remains : Counts → Counts → Bool
assigned_remains [] after = false
assigned_remains ((fingerprint, n) ∷ assigned) after =
    if not (lookup_count fingerprint after == 0) then true else assigned_remains assigned after

pub record Validator : Type 1 where
  pub World : Type 0
  pub Tree : Type 0
  pub Proof : Type 0
  -- the text of the cause, once the context has ended
  pub context_end : World → Option Bytes × World
  pub present : Proof → Bool
  pub no_proof : Proof
  pub validation_root : Proof → Bytes
  -- proof.verify
  pub verify : Proof → World → Reply (Unit {0}) × World
  pub module_confined : Bytes → World → Reply (Unit {0}) × World
  pub changed_packages : Bytes → List Bytes → World → Reply (List Bytes × Bool) × World
  pub snapshot_attempt : Bytes → World → Reply Tree × World
  pub check_integrity : Tree → Tree → Reply (List Finding)
  -- the fields of `AttemptValidator`
  pub original : Tree
  pub baseline : List Finding
  pub waived : List Bytes
  pub run_gates : Bytes → Batch → World → GateValidation × World
  pub run_packages : Bytes → List Bytes → Bool → World → SuiteValidation × World

module _ (V : Validator) where
  open V use {World, Proof}

  -- `validationFailure`
  unfoldable pub validation_failure :
      List Bytes → ValidationKind → Bytes → List Finding → ValidationResult Proof
  validation_failure files kind failure findings = record {
    kind = kind;
    failure = bound_validation_failure failure;
    findings = findings;
    changed_files = files;
    proof = V.no_proof;
  }

  -- A failure of the infrastructure without findings, and one of the attempt.
  abbrev pub broken : List Bytes → Bytes → ValidationResult Proof
  broken files failure = validation_failure files infrastructure_failure failure []

  abbrev pub failed : List Bytes → Bytes → List Finding → ValidationResult Proof
  failed files failure findings = validation_failure files semantic_failure failure findings

  abbrev pub Stage : Type 0 → Type 0
  Stage A = Check World (ValidationResult Proof) A

  unfoldable pub of_reply : {A : Type 0} → Reply A → (Bytes → ValidationResult Proof) → Stage A
  of_reply r f = elim r [ ok a ↦ give a | err text ↦ refuse_with (f text) ]

  unfoldable pub of_plan : {A : Type 0} → PlanResult A → ValidationResult Proof → Stage A
  of_plan r otherwise = elim r [
    | PlanResult.ok a ↦ give a
    | PlanResult.err e ↦ refuse_with otherwise
  ]

  -- `validationCancellation`
  unfoldable pub check_context : List Bytes → Stage (Unit {0})
  check_context files = call V.context_end >>= λ end. elim end [
    | none ↦ give tt
    | some cause ↦ refuse_with (broken files (ascii "attempt validation canceled: " ++ cause))
  ]

  -- `verifyPreparedBatchRecovering`, whose context has not ended
  unfoldable pub verify_prepared : List Bytes → Bytes → Proof → Stage (Unit {0})
  verify_prepared files stage proof =
      require (V.present proof) (broken files (stage ++ ascii ": prepared batch proof is required"))
      >> (call (V.verify proof) >>= λ reply.
          of_reply reply λ text. broken files (stage ++ (ascii ": " ++ text)))

module _ (sha256 : Bytes → Bytes) (V : Validator) where
  open V use {World, Proof}

  -- Up to the packages that the changed files select; true for the whole module.
  unfoldable pub select_packages : List Bytes → Proof → Stage V (List Bytes × Bool)
  select_packages changed proof = do
    check_context V []
    require (not (length changed == 0))
        (failed V [] (ascii "agent produced no worktree changes") [])
    require (V.present proof) (broken V [] (ascii "prepared batch proof is required"))
    require (not (is_empty (V.validation_root proof)))
        (broken V [] (ascii "prepared validation snapshot is required"))
    confined ← call (V.module_confined (V.validation_root proof))
    of_reply V confined (λ _. broken V [] (ascii "validation module is not confined"))
    selected ← call (V.changed_packages (V.validation_root proof) changed)
    of_reply V selected (λ text. broken V [] (ascii "select changed Go packages: " ++ text))

  -- The multisets of the baseline and of the batch.
  unfoldable pub baseline_and_assigned : List Bytes → Batch → Stage V (Counts × Counts)
  baseline_and_assigned files batch = do
    require (validation_evidence_within_bounds V.baseline)
        (broken V files (ascii "baseline blocker evidence exceeds resource limits"))
    baseline ←
        of_plan V (blocking_multiset sha256 V.baseline)
          (broken V files (ascii "validate baseline blocker evidence"))
    require (validation_evidence_within_bounds batch.findings)
        (broken V files (ascii "assigned blocker evidence exceeds resource limits"))
    assigned ←
        of_plan V (blocking_multiset sha256 batch.findings)
          (broken V files (ascii "validate assigned blocker evidence"))
    require (not (length assigned == 0))
        (broken V files (ascii "validate assigned blocker evidence"))
    require (multiset_subset assigned baseline)
        (broken V files (ascii "assigned blockers are absent from baseline evidence"))
    give (baseline, assigned)

  unfoldable pub validate_integrity : List Bytes → Bytes → Proof → Stage V (Unit {0})
  validate_integrity files root proof = do
    snapshot ← call (V.snapshot_attempt root)
    attempted ←
        of_reply V snapshot (λ text. broken V files (ascii "snapshot attempted tree: " ++ text))
    check_context V files
    findings ←
        of_reply V (V.check_integrity V.original attempted)
          (λ text. broken V files (ascii "evaluate integrity evidence: " ++ text))
    require (length (unwaived_integrity_findings V.waived findings) == 0) (
        failed V files (ascii "integrity validation found regressions")
          (unwaived_integrity_findings V.waived findings))
    verify_prepared V files (ascii "prepared batch invalid after integrity validation") proof
    check_context V files

  -- The gates' evidence against the baseline and what was assigned.
  unfoldable pub judge_gates : List Bytes → Counts → Counts → GateValidation → Stage V (Unit {0})
  judge_gates files baseline assigned gates = do
    require
        (validation_evidence_within_bounds gates.blocking
          && not (ltb max_validation_gate_errors (length gates.errored)))
        (broken V files (ascii "gate validation evidence exceeds resource limits"))
    after ←
        of_plan V (blocking_multiset sha256 gates.blocking)
          (broken V files (ascii "gate validation returned malformed finding evidence"))
    errors ←
        of_option (canonical_gate_errors gates.errored)
          (broken V files (ascii "gate validation returned malformed error evidence"))
    require (length errors == 0) (
        validation_failure V files infrastructure_failure
          (ascii "gate validation errored: " ++ join (ascii ", ") errors) gates.blocking)
    require (not (assigned_remains assigned after))
        (failed V files (ascii "assigned blocking finding remains") gates.blocking)
    require (multiset_subset after baseline)
        (failed V files (ascii "gate validation introduced replacement blockers") gates.blocking)
    require (strictly_shrinks after baseline)
        (failed V files (ascii "blocking finding multiset did not strictly shrink") gates.blocking)

  unfoldable pub validate_gates :
      List Bytes → Batch → Proof → Counts → Counts → Stage V GateValidation
  validate_gates files batch proof baseline assigned = do
    gates ← call (V.run_gates (V.validation_root proof) batch)
    verify_prepared V files (ascii "prepared batch invalid after gate validation") proof
    check_context V files
    judge_gates files baseline assigned gates
    give gates

  unfoldable pub validate_suite :
      List Bytes → Proof → List Finding → List Bytes → Bool → Stage V (Unit {0})
  validate_suite files proof blocking packages full = do
    check_context V files
    suite ← call (V.run_packages (V.validation_root proof) packages full)
    verify_prepared V files (ascii "prepared batch invalid after behavioral suite") proof
    check_context V files
    require (is_blank suite.infrastructure_error) (
        validation_failure V files infrastructure_failure
          (ascii "behavioral suite infrastructure failed") blocking)
    require suite.passed (failed V files (ascii "local behavioral suite failed") blocking)

  -- The suite runs where a package is selected.
  unfoldable pub suite_stage :
      List Bytes → Proof → List Finding → List Bytes → Bool → Stage V (Unit {0})
  suite_stage files proof blocking packages full =
      if full || not (length packages == 0)
      then validate_suite files proof blocking packages full
      else give tt

  unfoldable pub validate_stages :
      Bytes → List Bytes → Batch → Proof → Stage V (ValidationResult Proof)
  validate_stages root changed batch proof = do
    (packages, full) ← select_packages changed proof
    let files = sorted_set changed
    (baseline, assigned) ← baseline_and_assigned files batch
    validate_integrity files root proof
    gates ← validate_gates files batch proof baseline assigned
    suite_stage files proof gates.blocking packages full
    verify_prepared V files (ascii "prepared batch invalid at validation completion") proof
    check_context V files
    give (record {
      kind = passed;
      failure = [];
      findings = [];
      changed_files = files;
      proof = proof;
    })

  -- `Validate` with a context and callbacks that are not nil; the proof is the batch's.
  unfoldable pub validate :
      Bytes → List Bytes → Batch → Proof → World → ValidationResult Proof × World
  validate root changed batch proof w =
      let (passage, w') = validate_stages root changed batch proof w in
      elim passage [ onward result ↦ (result, w') | refuse result ↦ (result, w') ]
