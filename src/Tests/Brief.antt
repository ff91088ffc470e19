-- ===== src/Tests/Brief.antt =====
-- A run of the brief on the batch of a plan.
use togi.Prelude.{◌≡◌, ◌≤◌, refl, ap, ◌∙◌, Bool, true, List, [], ◌∷◌, ◌++◌, arith, All, length}
use togi.Prelude.Sort.{sort, insert}
use togi.Text.{Bytes, ascii, bytes_eqb, bytes_ltb, has_prefix, index_byte, mem_bytes}
use togi.Text.Decimal.{itoa, decimal, decimal_from}
use togi.Text.Encode.{hex_encode, put_uint64, write_field, write_fields}
use togi.Text.Space.{
  fields, fields_from, is_blank, is_blank_from, join, space_width, trim_left_from,
}
use togi.Text.Split.{split}
use togi.Finding.{
  fingerprint, identity_bytes, identity_fields, normalize_file, normalize_snippet,
  tool_qualified_rule_id, valid_severity, validate_identity, validate_location,
  validate_occurrences, validate, hex_character, valid_fingerprint,
}
use togi.Finding.FilePath.{
  clean_components, clean_path, clean_step, has_dotdot, is_windows_absolute, parse_path, portable,
}
use togi.Finding.Group.{
  group, group_from, combine_groups, add_group, combine, collect_locations, append_occurrences,
  canonical_copy, append_location, seen_location, severity_eqb, highest_severity_from, less_finding,
  less_located, less_metadata, less_occurrence, severity_precedence,
}
use togi.Flywheel.Plan.{
  Batch, Attempt, attempt_failed, attempt_running, batch_pending, batch_running, canonical_findings,
  batch_id, batch_identity_proof, check_findings, check_finding, finding_eqb, occurrences_eqb,
  less_plan_finding,
}
use togi.Flywheel.Brief.{
  BriefInput, BriefError, brief_too_long, BriefResult, ok, build_brief, write_brief, check_brief,
  check_identity, valid_revision, valid_brief_batch_id, validate_brief_input_bounds,
  findings_bounds, long_fields, brief_prefix, brief_data_introduction, brief_data_conclusion,
  max_brief_bytes, write, ◌>>◌, separated, write_occurrence, write_json_string, write_string,
  write_int, write_finding_json, write_brief_data,
}
use togi.Flywheel.Brief.Identity.{IsDigest, input_of, new_plan-build_brief}
use togi.Tests.Findings.{new_plan-blockers, all_small-IsByte}
use togi.Flywheel.Plan.{
  blocker_wave_digest, new_batch, identify, identify_all, plan_of, add_item, add_items,
}
use togi.Prelude.{Memᴰ, none}
use togi.Tests.Sample.{blocker}
use togi.Flywheel.Brief.Layout.{IsInline, build_brief-IsLine}
use togi.Tests.Sample.{zero_digest, blockers, head_revision}

-- The batch of the sample's file.
abbrev sample_batch : Batch
sample_batch = record {
  id = batch_id zero_digest (ascii "internal/run/run.go") (ascii "d");
  primary_file = ascii "internal/run/run.go";
  findings = blockers;
  status = batch_pending;
  attempts = [];
  identity = record {
    wave_digest = ascii "d";
    identity_proof =
        batch_identity_proof zero_digest
          (batch_id zero_digest (ascii "internal/run/run.go") (ascii "d"))
          (ascii "internal/run/run.go") (ascii "d") blockers;
  };
}

abbrev quoted : Bytes → Bytes
quoted s = ascii "\"\""

abbrev sample_input : BriefInput
sample_input = record {
  merge_base = head_revision;
  original_head = head_revision;
  batch = sample_batch;
  retry_failure = ascii "tests failed";
}

abbrev text_of : BriefResult Bytes → Bytes
text_of (ok t) = t
text_of (BriefResult.err e) = []

abbrev is_ok : BriefResult Bytes → Bool
is_ok (ok t) = true
is_ok (BriefResult.err e) = Bool.false

is_ok-text_of : (r : BriefResult Bytes) → is_ok r ≡ true → r ≡ ok (text_of r)
is_ok-text_of (ok t) h = refl
is_ok-text_of (BriefResult.err e) h = absurd (ground (arith, h))

checked_sample : check_brief zero_digest sample_input ≡ ok blockers
unfolding check_brief check_identity valid_revision valid_brief_batch_id validate_brief_input_bounds
    findings_bounds long_fields batch_id batch_identity_proof canonical_findings check_findings
    check_finding finding_eqb occurrences_eqb less_plan_finding group group_from combine_groups
    add_group combine collect_locations append_occurrences canonical_copy append_location
    seen_location severity_eqb highest_severity_from less_finding less_located less_metadata
    less_occurrence severity_precedence clean_components clean_path clean_step has_dotdot
    is_windows_absolute parse_path portable fingerprint identity_bytes identity_fields
    normalize_file normalize_snippet tool_qualified_rule_id valid_severity validate_identity
    validate_location validate_occurrences validate hex_character valid_fingerprint sort insert
    hex_encode put_uint64 write_field write_fields fields fields_from is_blank is_blank_from join
    space_width trim_left_from split bytes_eqb bytes_ltb has_prefix index_byte mem_bytes
checked_sample = refl

written_sample : is_ok (write_brief quoted sample_input blockers []) ≡ true
unfolding write_brief brief_prefix brief_data_introduction brief_data_conclusion write ◌>>◌
    separated write_occurrence write_json_string write_string write_int write_finding_json
    write_brief_data itoa decimal decimal_from
written_sample = refl

built_sample :
    build_brief zero_digest quoted sample_input
    ≡ ok (text_of (write_brief quoted sample_input blockers []))
unfolding build_brief
built_sample =
    ap
      (λ r. elim r as (λ _. BriefResult Bytes) [
        | BriefResult.err e ↦ BriefResult.err e
        | ok canonical ↦ write_brief quoted sample_input canonical []
      ])
      checked_sample
    ∙ is_ok-text_of (write_brief quoted sample_input blockers []) written_sample

build_brief-IsLine_example :
    (line : Bytes) × (text_of (write_brief quoted sample_input blockers [])
      ≡ brief_prefix head_revision head_revision
        ++ (brief_data_introduction ++ (line ++ 10 ∷ brief_data_conclusion)))
    × All IsInline line
    × (length (text_of (write_brief quoted sample_input blockers [])) ≤ max_brief_bytes)
    × (valid_revision head_revision ≡ true)
    × (valid_revision head_revision ≡ true)
build_brief-IsLine_example =
    build_brief-IsLine quoted (λ s. (ground arith, (ground arith, tt))) zero_digest sample_input
      (text_of (write_brief quoted sample_input blockers [])) built_sample

zero_digest-IsDigest : (s : Bytes) → IsDigest (zero_digest s)
zero_digest-IsDigest s = (refl, all_small-IsByte (zero_digest s) refl)

-- The one batch of the plan.
abbrev planned_batch : Batch
planned_batch =
    identify zero_digest (blocker_wave_digest zero_digest blockers)
      (new_batch zero_digest (blocker_wave_digest zero_digest blockers) blocker)

planned : Memᴰ planned_batch (plan_of zero_digest blockers).batches
unfolding plan_of add_items add_item identify_all
planned = Memᴰ.head refl

-- The batch as its second attempt finds it.
abbrev one_failed : List Attempt
one_failed =
    record {
      number = 1;
      status = attempt_failed;
      failure = ascii "tests failed";
      changed_files = [];
      commit = [];
    }
    ∷ record { number = 2; status = attempt_running; failure = []; changed_files = []; commit = [] }
    ∷ []

abbrev planned_input : BriefInput
planned_input =
    input_of planned_batch batch_running one_failed head_revision head_revision
      (ascii "tests failed")

planned_within : validate_brief_input_bounds planned_input ≡ none
unfolding validate_brief_input_bounds findings_bounds long_fields identify
planned_within = refl

valid_head : valid_revision head_revision ≡ true
unfolding valid_revision
valid_head = refl

new_plan-build_brief_example :
    (build_brief zero_digest quoted planned_input
      ≡ write_brief quoted planned_input planned_batch.findings [])
    × ((e : BriefError)
        → build_brief zero_digest quoted planned_input ≡ BriefResult.err e
        → e ≡ brief_too_long)
new_plan-build_brief_example =
    new_plan-build_brief zero_digest zero_digest-IsDigest quoted blockers
      (plan_of zero_digest blockers) new_plan-blockers planned_batch batch_running one_failed
      head_revision head_revision (ascii "tests failed") planned valid_head valid_head
      planned_within
