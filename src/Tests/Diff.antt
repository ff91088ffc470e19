-- ===== src/Tests/Diff.antt =====
-- Runs of the ranges and the paths of a diff.
use togi.Prelude.{ℕ, ◌≡◌, refl, List, [], ◌∷◌, All, arith, map}
use togi.Text.{Bytes, ascii, bytes_eqb, mem_bytes, has_prefix, index_byte}
use togi.Text.Split.{split}
use togi.Text.Utf8.{utf8_valid, utf8_valid_from}
use togi.Finding.FilePath.{
  clean_components, clean_path, clean_step, has_dotdot, is_windows_absolute, parse_path, portable,
}
use togi.Run.Diff.Parse.{ok, check_name, validate_diff_path, path_within_root, parse_changed_paths}
use togi.Run.Diff.Parse.Paths.{
  Entry, one, two, added, copied, path_of, IsPrintable, AreDistinct, zero_terminated, all_records,
  parse_changed_paths-zero_terminated,
}
use togi.Prelude.{true}
use togi.Run.Diff.Hunks.{hunk_numbers, ends_line}
use togi.Run.Diff.Hunks.Header.{header, hunk_numbers-header}
use togi.Run.Diff.Ranges.{HunkRange, merge_line_ranges}
use togi.Run.Diff.Ranges.Merged.{IsRange, IsSeparated, covered, merge_line_ranges-covered}

-- Two ranges that touch, given in the wrong order, and one behind a gap.
abbrev three_ranges : List HunkRange
three_ranges =
    record { start = 4; end = 6 }
    ∷ record { start = 1; end = 3 }
    ∷ record { start = 9; end = 9 }
    ∷ []

three_ranges-IsRange : All IsRange three_ranges
three_ranges-IsRange =
    ((omega arith, omega arith), ((omega arith, omega arith), ((omega arith, omega arith), tt)))

merge_line_ranges-covered_example :
    ((n : ℕ) → covered n (merge_line_ranges three_ranges) ≡ covered n three_ranges)
    × IsSeparated (merge_line_ranges three_ranges)
merge_line_ranges-covered_example = merge_line_ranges-covered three_ranges three_ranges-IsRange

abbrev top : Bytes
top = ascii "/r"

-- An added path and a copied one.
abbrev two_paths : List Entry
two_paths = one added (ascii "a.go") ∷ two copied 75 (ascii "b.go") (ascii "d/b.go") ∷ []

checked_a : check_name top (ascii "a.go") ≡ ok tt
unfolding check_name validate_diff_path path_within_root utf8_valid utf8_valid_from clean_components
    clean_path clean_step has_dotdot is_windows_absolute parse_path portable bytes_eqb has_prefix
    index_byte split
checked_a = refl

checked_b : check_name top (ascii "b.go") ≡ ok tt
unfolding check_name validate_diff_path path_within_root utf8_valid utf8_valid_from clean_components
    clean_path clean_step has_dotdot is_windows_absolute parse_path portable bytes_eqb has_prefix
    index_byte split
checked_b = refl

checked_d : check_name top (ascii "d/b.go") ≡ ok tt
unfolding check_name validate_diff_path path_within_root utf8_valid utf8_valid_from clean_components
    clean_path clean_step has_dotdot is_windows_absolute parse_path portable bytes_eqb has_prefix
    index_byte split
checked_d = refl

two_paths-IsPrintable : All (IsPrintable top) two_paths
unfolding IsPrintable
two_paths-IsPrintable = (
  (checked_a, (ground arith, (ground arith, (ground arith, (ground arith, tt))))),
  (
    (
      omega arith,
      (checked_b, (ground arith, (ground arith, (ground arith, (ground arith, tt))))),
      (
        checked_d,
        (
          ground arith,
          (ground arith, (ground arith, (ground arith, (ground arith, (ground arith, tt))))),
        ),
      ),
    ),
    tt,
  ),
)

two_paths-AreDistinct : AreDistinct [] two_paths
unfolding path_of mem_bytes bytes_eqb
two_paths-AreDistinct = (refl, (refl, tt))

parse_changed_paths-zero_terminated_example :
    parse_changed_paths top (zero_terminated (all_records two_paths)) ≡ ok (map path_of two_paths)
parse_changed_paths-zero_terminated_example =
    parse_changed_paths-zero_terminated top two_paths two_paths-IsPrintable two_paths-AreDistinct

heading_test : ends_line (ascii " func f()") ≡ true
unfolding ends_line
heading_test = refl

hunk_numbers-header_example : hunk_numbers (header 3 2 10 1 (ascii " func f()")) ≡ ok (10, 1)
hunk_numbers-header_example =
    hunk_numbers-header 3 2 10 1 (ascii " func f()") (omega arith) (omega arith) heading_test
