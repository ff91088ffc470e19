-- ===== src/Tests/Validate.antt =====
-- A run of the validation of an attempt.
use togi.Prelude.{◌≡◌, refl, none, List, [], ◌∷◌, true, Bool}
use togi.Prelude.Check.{give, call, refuse_with, require, of_option, ◌>>=◌, ◌>>◌}
use togi.Prelude.Sort.{sort, insert}
use togi.Text.{Bytes, ascii, bytes_eqb, bytes_ltb, has_prefix, index_byte, mem_bytes}
use togi.Text.Encode.{hex_encode, put_uint64, write_field, write_fields}
use togi.Text.Space.{
  fields, fields_from, is_blank, is_blank_from, join, space_width, trim_left_from,
}
use togi.Text.Trim.{sorted_set, compact}
use togi.Text.Split.{split}
use togi.Finding.{
  fingerprint, identity_bytes, identity_fields, normalize_file, normalize_snippet,
  tool_qualified_rule_id, valid_severity, validate_identity, validate_location,
  validate_occurrences, validate as validate_finding, hex_character, valid_fingerprint,
}
use togi.Finding.FilePath.{
  clean_components, clean_path, clean_step, has_dotdot, is_windows_absolute, parse_path, portable,
}
use togi.Finding.Group.{
  group, group_from, combine_groups, add_group, combine, collect_locations, append_occurrences,
  canonical_copy, append_location, seen_location, severity_eqb, highest_severity_from, less_finding,
  less_located, less_metadata, less_occurrence, severity_precedence,
}
use togi.Flywheel.Multiset.{
  add_count, lookup_count, strictly_shrinks, multiset_subset, shrink_counts, has_key,
  some_count_fell, some_key_gone, all_positive,
}
use togi.Flywheel.Plan.{
  Batch, batch_pending, blocking_multiset, counts_from, count_of, canonical_findings,
  check_findings, check_finding, finding_eqb, occurrences_eqb, less_plan_finding,
}
use togi.Flywheel.Engine.Ports.{passed, ok}
use togi.Flywheel.Validate.{
  Validator, validate, validate_stages, select_packages, baseline_and_assigned, validate_integrity,
  judge_gates, validate_gates, validate_suite, suite_stage, verify_prepared, check_context, of_plan,
  of_reply, validation_failure, validation_evidence_within_bounds, evidence_within, fields_within,
  canonical_gate_errors, unwaived_integrity_findings, assigned_remains,
}
use togi.Flywheel.Validate.Soundness.{IsAccepted, validate-passed}
use togi.Tests.Sample.{zero_digest, blockers}

-- A tree without integrity findings, gates that find nothing any more, and a suite that passes.
abbrev sample_validator : Validator
sample_validator = record {
  World = Unit;
  Tree = Unit;
  Proof = Unit;
  context_end = λ w. (none, w);
  present = λ p. true;
  no_proof = tt;
  validation_root = λ p. ascii "/snapshot";
  verify = λ p w. (ok tt, w);
  module_confined = λ root w. (ok tt, w);
  changed_packages = λ root files w. (ok (ascii "./internal/run" ∷ [], Bool.false), w);
  snapshot_attempt = λ root w. (ok tt, w);
  check_integrity = λ before after. ok [];
  original = tt;
  baseline = blockers;
  waived = [];
  run_gates = λ root batch w. (record { blocking = []; errored = [] }, w);
  run_packages = λ root packages full w. (record { passed = true; infrastructure_error = [] }, w);
}

abbrev assigned_batch : Batch
assigned_batch = record {
  id = ascii "batch";
  primary_file = ascii "internal/run/run.go";
  findings = blockers;
  status = batch_pending;
  attempts = [];
  identity = record { wave_digest = []; identity_proof = [] };
}

abbrev one_change : List Bytes
one_change = ascii "internal/run/run.go" ∷ []

passed_sample :
    (validate zero_digest sample_validator (ascii "/r") one_change assigned_batch tt tt).0.kind
    ≡ passed
unfolding validate validate_stages select_packages baseline_and_assigned validate_integrity
    judge_gates validate_gates validate_suite suite_stage verify_prepared check_context of_plan
    of_reply validation_failure validation_evidence_within_bounds evidence_within fields_within
    canonical_gate_errors unwaived_integrity_findings assigned_remains give call refuse_with require
    of_option ◌>>=◌ ◌>>◌ lookup_count strictly_shrinks multiset_subset shrink_counts has_key
    some_count_fell some_key_gone all_positive blocking_multiset counts_from count_of add_count
    sorted_set compact canonical_findings check_findings check_finding finding_eqb occurrences_eqb
    less_plan_finding group group_from combine_groups add_group combine collect_locations
    append_occurrences canonical_copy append_location seen_location severity_eqb
    highest_severity_from less_finding less_located less_metadata less_occurrence
    severity_precedence clean_components clean_path clean_step has_dotdot is_windows_absolute
    parse_path portable fingerprint identity_bytes identity_fields normalize_file normalize_snippet
    tool_qualified_rule_id valid_severity validate_identity validate_location validate_occurrences
    validate_finding hex_character valid_fingerprint sort insert hex_encode put_uint64 write_field
    write_fields fields fields_from is_blank is_blank_from join space_width trim_left_from split
    bytes_eqb bytes_ltb has_prefix index_byte mem_bytes
passed_sample = refl

validate-passed_example :
    IsAccepted zero_digest sample_validator (ascii "/r") one_change assigned_batch tt
validate-passed_example =
    validate-passed zero_digest sample_validator (ascii "/r") one_change assigned_batch tt tt
      passed_sample
