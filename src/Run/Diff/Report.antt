-- ===== src/Run/Diff/Report.antt =====
-- internal/run/run.go and internal/run/ledger.go: `validateDiff`, which a report asks of its diff.
-- Numbers are natural, as in a diff that is resolved. The base is valid UTF-8 where it is looked through
-- for control characters.
pub mod Accepted
pub mod Bases
pub mod Steps
pub mod Resolved
use togi.Prelude.{
  ℕ, zero, suc, ◌+◌, ◌-◌, Bool, true, false, not, ◌&&◌, ◌||◌, Option, none, some, List, [], ◌∷◌,
  ◌==◌, ltb, leb, if◌then◌else◌, length,
}
use togi.Text.{Bytes}
use togi.Text.Decimal.{max_int}
use togi.Finding.Scope.{LineRange, ChangedLines, ScopeResult, validated_changed_lines}
use togi.Run.Diff.Parse.{Parsed, ok, err, validate_requested_base}
use togi.Run.Diff.Ranges.{HunkRange, line_range_of}
use togi.Run.Diff.Resolve.{Diff}

pub record DiffReport : Type 0 where
  pub base_ref : Bytes
  pub base_commit : Bytes
  pub merge_base : Bytes
  pub head : Bytes
  pub changed_files : ℕ
  pub changed_lines : ℕ

pub data DiffError : Type 0 where
  base_ref_invalid control_character base_commit_invalid merge_base_invalid head_invalid : DiffError
  inconsistent_lengths lines_without_files file_count_differs lines_invalid : DiffError
  ranges_not_merged : Bytes → DiffError
  count_overflows count_differs : DiffError

-- unicode.IsControl on the runes
unfoldable pub has_control : Bytes → Bool
has_control [] = false
has_control (c ∷ []) = ltb c 32 || c == 0x7F
has_control (c ∷ d ∷ s) =
    let rest = has_control (d ∷ s) in ltb c 32 || (c == 0x7F || (c == 0xC2 && leb d 0x9F || rest))

abbrev pub lower_hex : Bytes → Bool
lower_hex [] = true
lower_hex (c ∷ s) = not (ltb c b'0' || (ltb b'9' c && ltb c b'a' || ltb b'f' c)) && lower_hex s

unfoldable pub valid_object_id_string : Bytes → Bool
valid_object_id_string value = (length value == 40 || length value == 64) && lower_hex value

-- The checks behind that of the base.
unfoldable pub validate_commits : DiffReport → Option DiffError
validate_commits d =
    if has_control d.base_ref
    then some control_character
    else if not (valid_object_id_string d.base_commit)
    then some base_commit_invalid
    else if not (valid_object_id_string d.merge_base)
    then some merge_base_invalid
    else if not (valid_object_id_string d.head)
    then some head_invalid
    else if not (length d.base_commit == length d.merge_base)
        || not (length d.base_commit == length d.head)
    then some inconsistent_lengths
    else if d.changed_files == 0 && not (d.changed_lines == 0)
    then some lines_without_files
    else none

abbrev pub with_base : DiffReport → Parsed (Unit {0}) → Option DiffError
with_base d (err e) = some base_ref_invalid
with_base d (ok _) = validate_commits d

unfoldable pub validate_diff_report : DiffReport → Option DiffError
validate_diff_report d = with_base d (validate_requested_base d.base_ref)

unfoldable pub diff_report : Diff → DiffReport
diff_report d = record {
  base_ref = d.base_ref;
  base_commit = d.base_commit;
  merge_base = d.merge_base;
  head = d.head;
  changed_files = d.changed_files;
  changed_lines = d.changed_lines;
}

unfoldable pub ranges_of : List HunkRange → List LineRange
ranges_of [] = []
ranges_of (r ∷ rs) = line_range_of r ∷ ranges_of rs

unfoldable pub changed_lines_of : List (Bytes × List HunkRange) → ChangedLines
changed_lines_of [] = []
changed_lines_of ((path, ranges) ∷ rest) = (path, ranges_of ranges) ∷ changed_lines_of rest

-- The count of lines so far, or the error.
pub data Counted : Type 0 where
  counted : ℕ → Counted
  miscounted : DiffError → Counted

-- One range behind the previous one.
abbrev pub not_behind : Option HunkRange → HunkRange → Bool
not_behind none r = false
not_behind (some previous) r =
    leb r.start previous.end || (ltb previous.end max_int && r.start == previous.end + 1)

-- The inner loop of `validateDiff`, over the ranges of a path.
unfoldable pub count_ranges : Bytes → Option HunkRange → ℕ → List HunkRange → Counted
count_ranges path previous n [] = counted n
count_ranges path previous n (r ∷ rs) =
    if not_behind previous r
    then miscounted (ranges_not_merged path)
    else if ltb (max_int - (r.end - r.start + 1)) n
    then miscounted count_overflows
    else count_ranges path (some r) (n + (r.end - r.start + 1)) rs

unfoldable pub count_lines : ℕ → List (Bytes × List HunkRange) → Counted
count_lines n [] = counted n
count_lines n ((path, ranges) ∷ rest) = elim (count_ranges path none n ranges) [
  | miscounted e ↦ miscounted e
  | counted m ↦ count_lines m rest
]

abbrev pub with_count : Diff → Counted → Option DiffError
with_count d (miscounted e) = some e
with_count d (counted n) = if n == d.changed_lines then none else some count_differs

abbrev pub with_lines : Diff → ScopeResult ChangedLines → Option DiffError
with_lines d (ScopeResult.err e) = some lines_invalid
with_lines d (ScopeResult.ok _) = with_count d (count_lines 0 d.lines)

abbrev pub with_report : Diff → Option DiffError → Option DiffError
with_report d (some e) = some e
with_report d none =
    if not (length d.lines == d.changed_files)
    then some file_count_differs
    else with_lines d (validated_changed_lines (changed_lines_of d.lines))

-- `validateDiff` with lines that are not nil.
unfoldable pub validate_diff : Diff → Option DiffError
validate_diff d = with_report d (validate_diff_report (diff_report d))
