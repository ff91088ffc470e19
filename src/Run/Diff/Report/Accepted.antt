-- ===== src/Run/Diff/Report/Accepted.antt =====
-- internal/run/run.go: the changed lines that a report accepts.
use togi.Prelude.{
  ℕ, suc, ◌+◌, ◌-◌, ◌≤◌, ◌≡◌, refl, ap, ◌∙◌, false, Option, none, some, List, [], ◌∷◌, arith, All,
}
use togi.Text.{Bytes}
use togi.Text.Decimal.{max_int}
use togi.Finding.FilePath.{minted, parse_path}
use togi.Finding.Scope.{ChangedLines, ok, bad_range, add_ranges, validated_from}
use togi.Run.Diff.Ranges.{HunkRange}
use togi.Run.Diff.Ranges.Merged.{IsSeparated}
use togi.Run.Diff.Hunks.Positive.{IsPositive}
use togi.Run.Diff.Resolve.{line_count, changed_line_count}
use togi.Run.Diff.Report.{
  ranges_of, changed_lines_of, Counted, counted, miscounted, not_behind, count_ranges, count_lines,
}

-- A path in canonical form, with merged ranges.
pub record IsEntry (e : Bytes × List HunkRange) : Type 0 where
  pub canonical : Bytes
  pub safe : parse_path e.0 ≡ minted canonical
  pub positive : All IsPositive e.1
  pub separated : IsSeparated e.1

bad_range-ranges_of :
    (index : ℕ) (rs : List HunkRange) → All IsPositive rs → bad_range index (ranges_of rs) ≡ none
unfolding bad_range ranges_of
bad_range-ranges_of index [] h = refl
bad_range-ranges_of index (r ∷ rs) h = ground (arith, h.0, bad_range-ranges_of (suc index) rs h.1)

pub validated_from-changed_lines_of :
    (acc : ChangedLines) (es : List (Bytes × List HunkRange))
    → All IsEntry es
    → (out : ChangedLines) × (validated_from acc (changed_lines_of es) ≡ ok out)
unfolding validated_from changed_lines_of
validated_from-changed_lines_of acc [] h = (acc, refl)
validated_from-changed_lines_of acc ((path, ranges) ∷ es) h =
    let (out, e) =
      validated_from-changed_lines_of (add_ranges h.0.canonical (ranges_of ranges) acc) es h.1 in
    (out, ground (arith, h.0.safe, bad_range-ranges_of 0 ranges h.0.positive, e))

-- The first of the ranges is behind the previous one.
unfoldable Behind : Option HunkRange → List HunkRange → Type 0
Behind previous [] = Unit
Behind previous (r ∷ rs) = not_behind previous r ≡ false

count_ranges-line_count :
    (path : Bytes) (previous : Option HunkRange) (n : ℕ) (rs : List HunkRange)
    → All IsPositive rs
    → IsSeparated rs
    → Behind previous rs
    → n + line_count rs ≤ max_int
    → count_ranges path previous n rs ≡ counted (n + line_count rs)
unfolding count_ranges line_count Behind
count_ranges-line_count path previous n [] p s b h = ap counted (omega arith)
count_ranges-line_count path previous n (r ∷ []) p s b h =
    let first : not_behind previous r ≡ false = b in rw first (ground (arith, h, p.0))
count_ranges-line_count path previous n (r ∷ q ∷ rs) p s b h =
    let first : not_behind previous r ≡ false = b in
    rw first (
      ground (
        arith,
        h,
        p.0,
        count_ranges-line_count path (some r) (n + (r.end - r.start + 1)) (q ∷ rs) p.1 s.1
            (ground (arith, s.0)) (omega (arith, h)),
      ))

count_ranges-first :
    (path : Bytes) (n : ℕ) (rs : List HunkRange)
    → All IsPositive rs
    → IsSeparated rs
    → n + line_count rs ≤ max_int
    → count_ranges path none n rs ≡ counted (n + line_count rs)
unfolding Behind
count_ranges-first path n [] p s h = count_ranges-line_count path none n [] p s tt h
count_ranges-first path n (r ∷ rs) p s h = count_ranges-line_count path none n (r ∷ rs) p s refl h

pub count_lines-changed_line_count :
    (n : ℕ) (es : List (Bytes × List HunkRange))
    → All IsEntry es
    → n + changed_line_count es ≤ max_int
    → count_lines n es ≡ counted (n + changed_line_count es)
unfolding count_lines changed_line_count
count_lines-changed_line_count n [] p h = ap counted (omega arith)
count_lines-changed_line_count n ((path, ranges) ∷ es) p h =
    ap
      (λ c. elim c as (λ _. Counted) [ miscounted e ↦ miscounted e | counted m ↦ count_lines m es ])
      (count_ranges-first path n ranges p.0.positive p.0.separated (omega (arith, h)))
    ∙ count_lines-changed_line_count (n + line_count ranges) es p.1 (omega (arith, h))
    ∙ ap counted (omega arith)
