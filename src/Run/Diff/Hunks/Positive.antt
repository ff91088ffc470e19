-- ===== src/Run/Diff/Hunks/Positive.antt =====
-- internal/run/diff.go: the ranges that `parseDiffHunks` returns.
use togi.Prelude.{
  ℕ, ◌≤◌, ◌≡◌, refl, not, Option, none, some, List, [], ◌∷◌, arith, All, ◌==◌, Bool-cases, inl, inr,
}
use togi.Prelude.Check.Sound.{
  Sound, Sound-bind, Sound-then, Sound-give, Sound-refuse, Sound-require, Sure-any,
}
use togi.Prelude.Sort.{sort, All-sort}
use togi.Text.{Bytes, ascii, has_prefix, is_empty}
use togi.Text.Split.{split}
use togi.Text.Decimal.{atoi, max_int}
use togi.Run.Diff.Parse.{Parsed, ok, err}
use togi.Run.Diff.Ranges.{
  HunkRange, less_range, max, joins, merge_from, merge_sorted, merge_line_ranges,
}
use togi.Run.Diff.Ranges.Merged.{IsRange, IsSeparated, merge_line_ranges-covered}
use togi.Run.Diff.Hunks.{
  GitPorts, Reading, anchor_in, hunk_header, hunk_numbers, numbers_of, count_number, range_at,
  of_parsed, deletion_anchor, add_hunk, hunks_from, parse_diff_hunks,
}

-- A range of positive lines, whose last is an `int`.
abbrev pub IsPositive : HunkRange → Type 0
IsPositive r = (1 ≤ r.start) × (r.start ≤ r.end) × (r.end ≤ max_int)

All-merge_from :
    (current : HunkRange) (rs : List HunkRange)
    → IsPositive current
    → All IsPositive rs
    → All IsPositive (merge_from current rs)
unfolding merge_from
All-merge_from current [] p ps = (p, tt)
All-merge_from current (c ∷ rs) p ps = elim (Bool-cases (joins current c)) [
  | inl e ↦ rw e (
      All-merge_from (record current { end = max current.end c.end }) rs (ground (arith, p, ps.0))
        ps.1)
  | inr e ↦ rw e (p, All-merge_from c rs ps.0 ps.1)
]

All-merge_line_ranges :
    (rs : List HunkRange) → All IsPositive rs → All IsPositive (merge_line_ranges rs)
unfolding merge_line_ranges
All-merge_line_ranges rs h = go (sort less_range rs) (All-sort IsPositive less_range rs h)
  where
    go : (ss : List HunkRange) → All IsPositive ss → All IsPositive (merge_sorted ss)
    go [] h = tt
    go (r ∷ ss) h = All-merge_from r ss h.0 h.1

atoi-bound : (s : Bytes) (n : ℕ) → atoi s ≡ some n → n ≤ max_int
unfolding atoi
atoi-bound s n h = ground (arith, h)

count_number-bound : (s : Bytes) (n : ℕ) → count_number s ≡ ok n → n ≤ max_int
count_number-bound [] n h = ground (arith, h)
count_number-bound (c ∷ s) n h = ground (arith, h, atoi-bound (c ∷ s) n)

hunk_numbers-bound :
    (line : Bytes) (n m : ℕ) → hunk_numbers line ≡ ok (n, m) → (n ≤ max_int) × (m ≤ max_int)
unfolding hunk_numbers
hunk_numbers-bound line n m h = go (hunk_header line) h
  where
    go : (o : Option (Bytes × Bytes)) → numbers_of o ≡ ok (n, m) → (n ≤ max_int) × (m ≤ max_int)
    go none h = ground (arith, h)
    go (some (start, count)) h =
        (ground (arith, h, atoi-bound start n), ground (arith, h, count_number-bound count m))

anchor_in-bound : (count requested : ℕ) → requested ≤ max_int → anchor_in count requested ≤ max_int
unfolding anchor_in
anchor_in-bound count requested h = ground (arith, h)

ranges-IsRange : (rs : List HunkRange) → All IsPositive rs → All IsRange rs
ranges-IsRange [] h = tt
ranges-IsRange (r ∷ rs) h = ((h.0.1, h.0.2), ranges-IsRange rs h.1)

-- Nothing is asked of an error.
abbrev pub Any : Bytes → Type 0
Any r = Unit

module _ (G : GitPorts) where
  pub Sure-of_parsed : {A : Type 0} (p : Parsed A) → Sound Any (λ a. p ≡ ok a) (of_parsed G p)
  unfolding of_parsed
  Sure-of_parsed (ok a) = Sound-give Any (λ x. ok a ≡ ok x) a refl
  Sure-of_parsed (err e) = Sound-refuse Any (λ x. err e ≡ ok x) e tt

  Sure-anchor :
      (root head path : Bytes) (requested : ℕ)
      → requested ≤ max_int
      → Sound Any (λ n. n ≤ max_int) (deletion_anchor G root head path requested)
  unfolding deletion_anchor
  Sure-anchor root head path requested h = Sound-then Any Unit _ _ _ (Sure-any _) λ _.
      Sound-then Any Unit _ _ _ (Sure-any _) λ _. Sound-then Any Unit _ _ _ (Sure-any _) λ _.
        Sound-bind Any (λ _. Unit) _ _ _ (Sure-any _)
          λ cached _.
            Sound-bind Any (λ _. Unit) _ _ _ (Sure-any _)
              λ count _. Sound-give Any (λ n. n ≤ max_int) _ (anchor_in-bound count requested h)

  All-range_at :
      (anchor : ℕ) (rs : List HunkRange)
      → anchor ≤ max_int
      → All IsPositive rs
      → All IsPositive (range_at anchor rs)
  All-range_at anchor rs b h = elim (Bool-cases (anchor == 0)) [
    | inl e ↦ rw e h
    | inr e ↦ rw e ((ground (arith, e), omega arith, b), h)
  ]

  Sure-add_hunk :
      (root head path : Bytes) (rest : Reading G (List HunkRange)) (hunk : ℕ × ℕ)
      → (hunk.0 ≤ max_int) × (hunk.1 ≤ max_int)
      → Sound Any (All IsPositive) rest
      → Sound Any (All IsPositive) (add_hunk G root head path rest hunk)
  unfolding add_hunk
  Sure-add_hunk root head path rest (start, count) b others = elim (Bool-cases (count == 0)) [
    | inl e ↦ rw e (
        Sound-bind Any _ _ _ _ (Sure-anchor root head path start b.0) λ anchor within.
          Sound-bind Any _ _ _ _ others
            λ ranges h. Sound-give Any (All IsPositive) _ (All-range_at anchor ranges within h))
    | inr e ↦ rw e (
        Sound-then Any _ _ _ _ (Sound-require Any _ _ tt) λ fits.
          Sound-bind Any _ _ _ _ others λ ranges h. Sound-give Any (All IsPositive) _ (
            (ground (arith, e, fits, b), ground (arith, e, fits, b), ground (arith, e, fits, b)),
            h,
          ))
  ]

  Sure-hunks :
      (root head path : Bytes) (lines : List Bytes)
      → Sound Any (All IsPositive) (hunks_from G root head path lines)
  unfolding hunks_from
  Sure-hunks root head path [] = Sound-give Any (All IsPositive) [] tt
  Sure-hunks root head path (line ∷ lines) =
      elim (Bool-cases (not (has_prefix line (ascii "@@")))) [
        | inl e ↦ rw e (Sure-hunks root head path lines)
        | inr e ↦ rw e (
            Sound-bind Any (λ hunk. hunk_numbers line ≡ ok hunk) _ _ _
              (Sure-of_parsed (hunk_numbers line))
              λ hunk read.
                Sure-add_hunk root head path _ hunk (hunk_numbers-bound line hunk.0 hunk.1 read)
                  (Sure-hunks root head path lines))
      ]

  -- The ranges of a patch, merged.
  pub Sure-parse_diff_hunks :
      (root head path patch : Bytes)
      → Sound Any
          (λ rs. All IsPositive rs × IsSeparated rs)
          (parse_diff_hunks G root head path patch)
  unfolding parse_diff_hunks
  Sure-parse_diff_hunks root head path patch = elim (Bool-cases (is_empty patch)) [
    | inl e ↦ rw e (Sound-give Any (λ rs. All IsPositive rs × IsSeparated rs) [] (tt, tt))
    | inr e ↦ rw e (
        Sound-then Any Unit _ _ _ (Sure-any _) λ _.
          Sound-bind Any _ _ _ _ (Sure-hunks root head path (split 10 patch)) λ ranges h.
            Sound-give Any (λ rs. All IsPositive rs × IsSeparated rs) _
              (
                All-merge_line_ranges ranges h,
                (merge_line_ranges-covered ranges (ranges-IsRange ranges h)).1,
              ))
  ]
