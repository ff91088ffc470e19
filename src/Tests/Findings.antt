-- ===== src/Tests/Findings.antt =====
-- Runs of the findings, the multisets and the plan.
use togi.Prelude.{◌≡◌, refl, ap, [], ◌∷◌, Bool, true, ◌<◌, ◌↔◌, ◌≤◌, arith, All, ltb, ◌&&◌}
use togi.Prelude.Sort.{sort, insert}
use mathlib.Core.List.{Perm}
use togi.Text.{Bytes, ascii, bytes_eqb, bytes_ltb, has_prefix, index_byte, mem_bytes}
use togi.Text.Encode.{hex_encode, put_uint64, write_field, write_fields}
use togi.Text.Space.{
  fields, fields_from, is_blank, is_blank_from, join, space_width, trim_left_from,
}
use togi.Text.Split.{split}
use togi.Finding.{
  Finding, sample_finding, fingerprint, identity_bytes, identity_fields, normalize_file,
  normalize_snippet, tool_qualified_rule_id, valid_severity, validate_identity, validate_location,
  validate_occurrences, validate, hex_character, valid_fingerprint,
}
use togi.Finding.FilePath.{
  clean_components, clean_path, clean_step, has_dotdot, is_windows_absolute, parse_path, portable,
}
use togi.Finding.Group.{
  group, group_from, combine_groups, add_group, combine, collect_locations, append_occurrences,
  canonical_copy, append_location, seen_location, severity_eqb, highest_severity_from, less_finding,
  less_located, less_metadata, less_occurrence, severity_precedence,
}
use togi.Flywheel.Multiset.{
  Counts, lookup_count, strictly_shrinks, multiset_subset, shrink_counts, has_key, some_count_fell,
  some_key_gone, all_positive,
}
use togi.Flywheel.Multiset.Shrink.{
  IsCounts, total, IsBelow, strictly_shrinks_iff, multiset_subset_iff, total-strictly_shrinks,
}
use togi.Flywheel.Plan.{
  ok, new_plan, plan_of, map_ok, blocking_multiset, counts_from, finding_eqb, occurrences_eqb,
  less_plan_finding, check_findings, check_finding, canonical_findings,
}
use togi.Flywheel.Plan.Partition.{findings_of, IsFiled, new_plan-partition}
use togi.Flywheel.Plan.Canonical.{places_at, occurrence_total, blocking_multiset-IsCounts}
use togi.Finding.Identity.{
  IsByte, FieldsFit, AreAlike, fingerprint-identity, valid_fingerprint-fingerprint,
}
use togi.Tests.Sample.{zero_digest, blockers}

canonical_blockers : canonical_findings zero_digest blockers ≡ ok blockers
unfolding finding_eqb occurrences_eqb less_plan_finding check_findings check_finding
    canonical_findings group group_from combine_groups add_group combine collect_locations
    append_occurrences canonical_copy append_location seen_location severity_eqb
    highest_severity_from less_finding less_located less_metadata less_occurrence
    severity_precedence clean_components clean_path clean_step has_dotdot is_windows_absolute
    parse_path portable fingerprint identity_bytes identity_fields normalize_file normalize_snippet
    tool_qualified_rule_id valid_severity validate_identity validate_location validate_occurrences
    validate hex_character valid_fingerprint sort insert hex_encode put_uint64 write_field
    write_fields fields fields_from is_blank is_blank_from join space_width trim_left_from split
    bytes_eqb bytes_ltb has_prefix index_byte mem_bytes
canonical_blockers = refl

pub new_plan-blockers : new_plan zero_digest blockers ≡ ok (plan_of zero_digest blockers)
unfolding new_plan
new_plan-blockers = ap (map_ok (plan_of zero_digest)) canonical_blockers

new_plan-partition_example :
    (findings_of (plan_of zero_digest blockers).batches ≡ sort less_plan_finding blockers)
    × Perm (findings_of (plan_of zero_digest blockers).batches) blockers
    × All IsFiled (plan_of zero_digest blockers).batches
new_plan-partition_example =
    new_plan-partition zero_digest blockers (plan_of zero_digest blockers) new_plan-blockers

blocking_blockers : blocking_multiset zero_digest blockers ≡ ok (counts_from [] blockers)
unfolding blocking_multiset
blocking_blockers = ap (map_ok (counts_from [])) canonical_blockers

blocking_multiset-IsCounts_example :
    IsCounts (counts_from [] blockers)
    × ((k : Bytes) → lookup_count k (counts_from [] blockers) ≡ places_at k blockers)
    × (total (counts_from [] blockers) ≡ occurrence_total blockers)
blocking_multiset-IsCounts_example =
    blocking_multiset-IsCounts zero_digest blockers (counts_from [] blockers) blocking_blockers

-- Two fingerprints, then one of them.
abbrev two_counts : Counts
two_counts = (ascii "a", 2) ∷ (ascii "b", 1) ∷ []

abbrev one_count : Counts
one_count = (ascii "a", 1) ∷ []

two_counts-IsCounts : IsCounts two_counts
unfolding has_key bytes_eqb
two_counts-IsCounts = (omega arith, refl, (omega arith, refl, tt))

one_count-IsCounts : IsCounts one_count
unfolding has_key
one_count-IsCounts = (omega arith, refl, tt)

strictly_shrinks_iff_example :
    (strictly_shrinks one_count two_counts ≡ true) ↔ IsBelow one_count two_counts
strictly_shrinks_iff_example =
    strictly_shrinks_iff one_count two_counts one_count-IsCounts two_counts-IsCounts

one_shrinks : strictly_shrinks one_count two_counts ≡ true
unfolding strictly_shrinks shrink_counts lookup_count has_key some_count_fell some_key_gone
    all_positive bytes_eqb
one_shrinks = refl

total-strictly_shrinks_example : total one_count < total two_counts
total-strictly_shrinks_example =
    total-strictly_shrinks one_count two_counts one_count-IsCounts two_counts-IsCounts one_shrinks

multiset_subset_iff_example :
    (multiset_subset one_count two_counts ≡ true)
    ↔ ((k : Bytes) → lookup_count k one_count ≤ lookup_count k two_counts)
multiset_subset_iff_example = multiset_subset_iff one_count two_counts one_count-IsCounts

abbrev pub all_small : Bytes → Bool
all_small [] = true
all_small (b ∷ s) = ltb b 256 && all_small s

pub all_small-IsByte : (s : Bytes) → all_small s ≡ true → All IsByte s
all_small-IsByte [] h = tt
all_small-IsByte (b ∷ s) h = (ground (arith, h), all_small-IsByte s (ground (arith, h)))

-- The sample with other white space in its snippet.
abbrev reformatted : Finding
reformatted = record sample_finding { snippet = ascii "defer file.Close() " }

sample_bytes : all_small (identity_bytes sample_finding) ≡ true
unfolding identity_bytes identity_fields normalize_file normalize_snippet parse_path portable
    is_windows_absolute has_dotdot clean_path clean_components clean_step split join fields
    fields_from space_width is_blank is_blank_from bytes_eqb has_prefix write_fields write_field
    put_uint64
sample_bytes = refl

reformatted_bytes : all_small (identity_bytes reformatted) ≡ true
unfolding identity_bytes identity_fields normalize_file normalize_snippet parse_path portable
    is_windows_absolute has_dotdot clean_path clean_components clean_step split join fields
    fields_from space_width is_blank is_blank_from bytes_eqb has_prefix write_fields write_field
    put_uint64
reformatted_bytes = refl

sample_fits : FieldsFit sample_finding
unfolding identity_bytes identity_fields normalize_file normalize_snippet parse_path portable
    is_windows_absolute has_dotdot clean_path clean_components clean_step split join fields
    fields_from space_width is_blank is_blank_from bytes_eqb has_prefix write_fields write_field
    put_uint64
sample_fits = (omega arith, (omega arith, (omega arith, (omega arith, tt))))

reformatted_fits : FieldsFit reformatted
unfolding identity_bytes identity_fields normalize_file normalize_snippet parse_path portable
    is_windows_absolute has_dotdot clean_path clean_components clean_step split join fields
    fields_from space_width is_blank is_blank_from bytes_eqb has_prefix write_fields write_field
    put_uint64
reformatted_fits = (omega arith, (omega arith, (omega arith, (omega arith, tt))))

fingerprint-identity_example :
    (fingerprint (λ s. s) sample_finding ≡ fingerprint (λ s. s) reformatted)
    ↔ AreAlike sample_finding reformatted
fingerprint-identity_example =
    fingerprint-identity (λ s. s) sample_finding reformatted sample_fits reformatted_fits
      (all_small-IsByte (identity_bytes sample_finding) sample_bytes)
      (all_small-IsByte (identity_bytes reformatted) reformatted_bytes) (λ e. e)

valid_fingerprint-fingerprint_example :
    valid_fingerprint (fingerprint zero_digest sample_finding) ≡ true
valid_fingerprint-fingerprint_example =
    valid_fingerprint-fingerprint zero_digest sample_finding refl
      (all_small-IsByte (zero_digest (identity_bytes sample_finding)) refl)
