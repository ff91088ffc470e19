-- ===== src/Run/Diff/Ranges.antt =====
-- internal/run/diff.go: `mergeLineRanges`. The ranges of a diff are positive, so numbers are natural.
pub mod Merged
use togi.Prelude.{ℕ, ◌+◌, Bool, ◌&&◌, ◌||◌, List, [], ◌∷◌, ltb, leb, ◌==◌, if◌then◌else◌}
use togi.Prelude.Int.{pos}
use togi.Prelude.Sort.{sort}
use togi.Text.Decimal.{max_int}
use togi.Finding.Scope.{LineRange}

-- A `finding.LineRange` of positive lines
pub record HunkRange : Type 0 where
  pub start : ℕ
  pub end : ℕ

abbrev pub line_range_of : HunkRange → LineRange
line_range_of r = record { start = pos r.start; end = pos r.end }

unfoldable pub less_range : HunkRange → HunkRange → Bool
less_range left right =
    if left.start == right.start then ltb left.end right.end else ltb left.start right.start

abbrev pub max : ℕ → ℕ → ℕ
max a b = if ltb a b then b else a

abbrev pub joins : HunkRange → HunkRange → Bool
joins current candidate =
    leb candidate.start current.end
    || (ltb current.end max_int && candidate.start == current.end + 1)

-- The loop, with the range that is written last.
unfoldable pub merge_from : HunkRange → List HunkRange → List HunkRange
merge_from current [] = current ∷ []
merge_from current (candidate ∷ rest) =
    if joins current candidate
    then merge_from (record current { end = max current.end candidate.end }) rest
    else current ∷ merge_from candidate rest

abbrev pub merge_sorted : List HunkRange → List HunkRange
merge_sorted [] = []
merge_sorted (r ∷ rs) = merge_from r rs

unfoldable pub merge_line_ranges : List HunkRange → List HunkRange
merge_line_ranges ranges = merge_sorted (sort less_range ranges)
