-- ===== src/Tests/Scope.antt =====
-- Runs of the scope of changed lines.
use togi.Prelude.{◌≡◌, refl, [], ◌∷◌}
use togi.Prelude.Int.{pos}
use togi.Prelude.Sort.{sort, insert}
use togi.Text.{ascii, bytes_eqb, has_prefix, index_byte, mem_bytes}
use togi.Text.Space.{
  fields, fields_from, is_blank, is_blank_from, join, space_width, trim_left_from,
}
use togi.Text.Split.{split}
use togi.Text.Encode.{hex_encode, put_uint64, write_field, write_fields}
use togi.Finding.{
  sample_finding, fingerprint, identity_bytes, identity_fields, normalize_file, normalize_snippet,
  tool_qualified_rule_id, valid_severity, validate_identity, validate_location,
  validate_occurrences, validate, hex_character, valid_fingerprint,
}
use togi.Finding.FilePath.{
  clean_components, clean_path, clean_step, has_dotdot, is_windows_absolute, parse_path, portable,
}
use togi.Finding.Group.{less_occurrence}
use togi.Finding.Scope.{
  ChangedLines, ok, bad_range, add_ranges, validated_from, validated_changed_lines, lookup_ranges,
  overlaps_changed, survivors_of, touch_finding, filter_from, filter_touched,
}
use togi.Finding.Scope.Kept.{AreKept, filter_touched-AreKept}

-- The file by another name, with a range that ends where the finding starts.
abbrev changed_run : ChangedLines
changed_run = (ascii "internal/./run/run.go", record { start = pos 10; end = pos 12 } ∷ []) ∷ []

filtered_sample :
    filter_touched (λ s. s) (sample_finding ∷ []) changed_run ≡ ok (sample_finding ∷ [])
unfolding filter_touched filter_from validated_changed_lines validated_from bad_range add_ranges
    touch_finding sort insert lookup_ranges survivors_of overlaps_changed less_occurrence bytes_eqb
    has_prefix index_byte mem_bytes fields fields_from is_blank is_blank_from join space_width
    trim_left_from split hex_encode put_uint64 write_field write_fields fingerprint identity_bytes
    identity_fields normalize_file normalize_snippet tool_qualified_rule_id valid_severity
    validate_identity validate_location validate_occurrences validate hex_character
    valid_fingerprint clean_components clean_path clean_step has_dotdot is_windows_absolute
    parse_path portable
filtered_sample = refl

filter_touched-AreKept_example : AreKept changed_run (sample_finding ∷ []) (sample_finding ∷ [])
filter_touched-AreKept_example =
    filter_touched-AreKept (λ s. s) (sample_finding ∷ []) changed_run (sample_finding ∷ [])
      filtered_sample
