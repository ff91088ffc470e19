-- ===== src/Run/Diff/Ranges/Merged.antt =====
-- internal/run/diff.go: the lines that merged ranges cover.
use togi.Prelude.{
  ℕ, ◌+◌, ◌≤◌, ◌<◌, ◌≡◌, refl, subst, ◌∙◌, Bool, false, Bool-cases, inl, inr, ◌&&◌, ◌||◌, List, [],
  ◌∷◌, arith, All, leb,
}
use togi.Prelude.Order.{IsWeakOrder}
use togi.Prelude.Sort.{sort, insert, IsSorted, sort-IsSorted, All-sort}
use togi.Text.Decimal.{max_int}
use togi.Run.Diff.Ranges.{
  HunkRange, less_range, max, joins, merge_from, merge_sorted, merge_line_ranges,
}

-- Is a line in one of the ranges?
unfoldable pub covered : ℕ → List HunkRange → Bool
covered n [] = false
covered n (r ∷ rs) = leb r.start n && leb n r.end || covered n rs

-- A range of lines that an `int` can number.
abbrev pub IsRange : HunkRange → Type 0
IsRange r = (r.start ≤ r.end) × (r.end ≤ max_int)

-- Between two neighbours there is a line that neither covers.
abbrev pub IsSeparated : List HunkRange → Type 0
IsSeparated [] = Unit
IsSeparated (r ∷ []) = Unit
IsSeparated (r ∷ s ∷ rs) = (r.end + 1 < s.start) × IsSeparated (s ∷ rs)

covered-insert :
    (n : ℕ) (r : HunkRange) (rs : List HunkRange)
    → covered n (insert less_range r rs) ≡ covered n (r ∷ rs)
unfolding covered insert
covered-insert n r [] = refl
covered-insert n r (s ∷ rs) = elim (Bool-cases (less_range s r)) [
  | inl e ↦ rw e (ground (arith, covered-insert n r rs))
  | inr e ↦ rw e refl
]

covered-sort : (n : ℕ) (rs : List HunkRange) → covered n (sort less_range rs) ≡ covered n rs
unfolding covered sort
covered-sort n [] = refl
covered-sort n (r ∷ rs) =
    covered-insert n r (sort less_range rs) ∙ ground (arith, covered-sort n rs)

less_range-IsWeakOrder : IsWeakOrder less_range
unfolding less_range
less_range-IsWeakOrder = record {
  asym = λ a b h. ground (arith, h);
  not_less_trans = λ a b c h k. ground (arith, h, k);
}

-- Ranges from a start on.
abbrev From : ℕ → List HunkRange → Type 0
From n = All (λ r. n ≤ r.start)

-- The starts do not fall.
abbrev IsAscending : List HunkRange → Type 0
IsAscending [] = Unit
IsAscending (r ∷ rs) = From r.start rs × IsAscending rs

IsSorted-From :
    (r : HunkRange) (rs : List HunkRange) → All (λ s. less_range s r ≡ false) rs → From r.start rs
unfolding less_range
IsSorted-From r [] h = tt
IsSorted-From r (s ∷ rs) h = (ground (arith, h.0), IsSorted-From r rs h.1)

IsSorted-IsAscending : (rs : List HunkRange) → IsSorted less_range rs → IsAscending rs
IsSorted-IsAscending [] h = tt
IsSorted-IsAscending (r ∷ rs) h = (IsSorted-From r rs h.0, IsSorted-IsAscending rs h.1)

From-weaken : (m n : ℕ) (rs : List HunkRange) → m ≤ n → From n rs → From m rs
From-weaken m n [] h f = tt
From-weaken m n (r ∷ rs) h f = (omega (arith, h, f.0), From-weaken m n rs h f.1)

covered-merge_from :
    (n : ℕ) (current : HunkRange) (rs : List HunkRange)
    → IsRange current
    → All IsRange rs
    → From current.start rs
    → IsAscending rs
    → covered n (merge_from current rs) ≡ covered n (current ∷ rs)
unfolding covered merge_from
covered-merge_from n current [] v vs f s = refl
covered-merge_from n current (c ∷ rs) v vs f s = elim (Bool-cases (joins current c)) [
  | inl e ↦ rw e (
      covered-merge_from n (record current { end = max current.end c.end }) rs
        (ground (arith, v, vs.0)) vs.1 f.1 s.1
      ∙ ground (arith, e, v, vs.0, f.0))
  | inr e ↦ rw e (ground (arith, covered-merge_from n c rs vs.0 vs.1 s.0 s.1))
]

IsSeparated-merge_from :
    (current : HunkRange) (rs : List HunkRange)
    → IsRange current
    → All IsRange rs
    → From current.start rs
    → IsAscending rs
    → IsSeparated (merge_from current rs)
      × (first : HunkRange) × (more : List HunkRange) × (merge_from current rs ≡ first ∷ more)
      × (first.start ≡ current.start)
unfolding merge_from
IsSeparated-merge_from current [] v vs f s = (tt, current, [], refl, refl)
IsSeparated-merge_from current (c ∷ rs) v vs f s = elim (Bool-cases (joins current c)) [
  | inl e ↦ rw e (
      IsSeparated-merge_from (record current { end = max current.end c.end }) rs
        (ground (arith, v, vs.0)) vs.1 f.1 s.1)
  | inr e ↦
      let (sep, first, more, split', same) = IsSeparated-merge_from c rs vs.0 vs.1 s.0 s.1 in
      let gap : current.end + 1 < first.start = ground (arith, e, v, vs.0, same) in
      rw e (rw split' (gap, subst IsSeparated split' sep), current, merge_from c rs, refl, refl)
]

-- Of ranges whose start is not behind their end, which is an `int`: merged, they cover exactly the
-- lines that they cover, and between two neighbours there is a line that neither covers.
pub merge_line_ranges-covered :
    (rs : List HunkRange)
    → All IsRange rs
    → ((n : ℕ) → covered n (merge_line_ranges rs) ≡ covered n rs)
      × IsSeparated (merge_line_ranges rs)
unfolding merge_line_ranges
merge_line_ranges-covered rs h =
    go (sort less_range rs) (All-sort IsRange less_range rs h)
      (IsSorted-IsAscending _ (sort-IsSorted less_range-IsWeakOrder rs)) (λ n. covered-sort n rs)
  where
    go :
        (ss : List HunkRange)
        → All IsRange ss
        → IsAscending ss
        → ((n : ℕ) → covered n ss ≡ covered n rs)
        → ((n : ℕ) → covered n (merge_sorted ss) ≡ covered n rs) × IsSeparated (merge_sorted ss)
    go [] v s c = (c, tt)
    go (r ∷ ss) v s c = (
      λ n. covered-merge_from n r ss v.0 v.1 s.0 s.1 ∙ c n,
      (IsSeparated-merge_from r ss v.0 v.1 s.0 s.1).0,
    )
