-- ===== src/Finding/Scope/Kept.antt =====
-- internal/finding/scope.go: what `FilterTouched` keeps of findings.
use togi.Prelude.{
  ℕ, suc, ◌≤◌, ◌≡◌, refl, ◌↔◌, inl, inr, Option, none, some, List, [], ◌∷◌, ◌++◌, arith, All, Memᴰ,
  length,
}
use togi.Prelude.Int.{ℤ}
use togi.Prelude.Sort.{sort}
use togi.Text.{Bytes}
use togi.Finding.FilePath.{PathResult, minted, refused, parse_path}
use togi.Finding.{Occurrence, Finding, FindingError, bad_path, validate}
use togi.Finding.Group.{locations_of, less_occurrence}
use togi.Finding.Scope.{
  LineRange, ChangedLines, ScopeResult, ok, err, scope_finding, map_ok, lookup_ranges,
  validated_from, validated_changed_lines, survivors_of, narrowed, touch_finding, filter_from,
  filter_touched,
}
use togi.Finding.Scope.Touched.{IsTouched, IsLocated, touch_finding-locations}
use togi.Finding.Scope.Changed.{
  HasRange, validated_from→HasRange, HasRange→validated_from, HasRange-valid,
}
use togi.Finding.Scope.Lines.{
  IsLocation, IsLineOf, IsLineIn, ShareLine-of, of-ShareLine, validate-IsLocation,
}

-- A line of a location that is in a changed range for a path of the file
abbrev pub IsOnChanged : ChangedLines → Bytes → Occurrence → Type 0
IsOnChanged changed file l =
    (r : LineRange) × HasRange changed file r × (n : ℤ) × IsLineOf n l × IsLineIn n r

-- A finding is kept as one with another file and other locations.
abbrev pub IsCopy : Bytes → Finding → Finding → Type 0
IsCopy file f p =
    p ≡ record f { file = file; line = p.line; end_line = p.end_line; occurrences = p.occurrences }

-- What is kept of one finding: at most one copy of it in its canonical file, with those of its
-- locations that have a changed line
pub record IsKept (changed : ChangedLines) (f : Finding) (pieces : List Finding) : Type 0 where
  pub file : Bytes
  pub canonical : parse_path f.file ≡ minted file
  pub one : length pieces ≤ 1
  pub copies : All (IsCopy file f) pieces
  pub locations :
      (l : Occurrence) → IsLocated l pieces ↔ (Memᴰ l (locations_of f) × IsOnChanged changed file l)

-- The result is what is kept of the findings, one after the other.
abbrev pub AreKept : ChangedLines → List Finding → List Finding → Type 0
AreKept changed [] out = out ≡ []
AreKept changed (f ∷ fs) out =
    (pieces : List Finding) × (rest : List Finding) × (out ≡ pieces ++ rest)
    × IsKept changed f pieces
    × AreKept changed fs rest

narrowed-IsCopy :
    (f : Finding) (file : Bytes) (ls : List Occurrence)
    → (length (narrowed f file ls) ≤ 1) × All (IsCopy file f) (narrowed f file ls)
narrowed-IsCopy f file [] = (omega arith, tt)
narrowed-IsCopy f file (l ∷ ls) = (omega arith, (refl, tt))

module _ (changed paths : ChangedLines) (valid : validated_from [] changed ≡ ok paths) where
  IsTouched→IsOnChanged :
      (file : Bytes) (l : Occurrence)
      → IsTouched l (lookup_ranges file paths)
      → IsOnChanged changed file l
  IsTouched→IsOnChanged file l t =
      elim (validated_from→HasRange [] changed paths file t.range valid t.among) [
        | inl m ↦ absurd (none_there m)
        | inr h ↦
            let v = HasRange-valid [] changed paths file t.range valid h in
            let (n, a, b) = ShareLine-of l t.range v t.starts t.ends in (t.range, h, n, a, b)
      ]
    where
      none_there : Memᴰ t.range (lookup_ranges file []) → ⊥
      none_there m = unfold lookup_ranges in elim m [ ]

  IsOnChanged→IsTouched :
      (file : Bytes) (l : Occurrence)
      → IsLocation l
      → IsOnChanged changed file l
      → IsTouched l (lookup_ranges file paths)
  IsOnChanged→IsTouched file l v (r, h, n, a, b) =
      let (s, t) = of-ShareLine l r v (n, a, b) in
      record {
        range = r;
        among = HasRange→validated_from [] changed paths file r valid (inr h);
        starts = s;
        ends = t;
      }

  module _ (sha256 : Bytes → Bytes) where
    touch_finding-IsKept :
        (f : Finding) (file : Bytes)
        → validate sha256 f ≡ none
        → parse_path f.file ≡ minted file
        → IsKept changed f (touch_finding paths f file)
    touch_finding-IsKept f file v e =
        let (one, copies) =
          narrowed-IsCopy f file
            (sort less_occurrence (survivors_of (lookup_ranges file paths) (locations_of f))) in
        record {
          file = file;
          canonical = e;
          one = unfold touch_finding in one;
          copies = unfold touch_finding in copies;
          locations = λ l.
              let (there, back) = touch_finding-locations paths f file l in
              (
                λ h. let (m, t) = there h in (m, IsTouched→IsOnChanged file l t),
                λ h.
                    back (
                      h.0,
                      IsOnChanged→IsTouched file l (validate-IsLocation sha256 f l v h.0) h.1,
                    ),
              );
        }

    -- What the filter found of the first finding.
    abbrev Filtered : ℕ → Finding → List Finding → List Finding → Type 0
    Filtered index f fs out =
        (validate sha256 f ≡ none)
        × (file : Bytes) × (parse_path f.file ≡ minted file)
        × (rest : List Finding) × (filter_from sha256 paths (suc index) fs ≡ ok rest)
        × (out ≡ touch_finding paths f file ++ rest)

    filter_from-first :
        (index : ℕ) (f : Finding) (fs out : List Finding)
        → filter_from sha256 paths index (f ∷ fs) ≡ ok out
        → Filtered index f fs out
    unfolding filter_from
    filter_from-first index f fs out h = by_validate (validate sha256 f) refl h
      where
        by_rest :
            (file : Bytes) (r : ScopeResult (List Finding))
            → validate sha256 f ≡ none
            → parse_path f.file ≡ minted file
            → filter_from sha256 paths (suc index) fs ≡ r
            → map_ok (λ rest. touch_finding paths f file ++ rest) r ≡ ok out
            → Filtered index f fs out
        by_rest file (ok rest) v e q k = (v, file, e, rest, q, ground (arith, k))
        by_rest file (err x) v e q k = cc k

        by_path :
            (p : PathResult)
            → validate sha256 f ≡ none
            → parse_path f.file ≡ p
            → (elim p as (λ _. ScopeResult (List Finding)) [
              | refused e ↦ err (scope_finding index (bad_path e))
              | minted file ↦
                  map_ok
                    (λ rest. touch_finding paths f file ++ rest)
                    (filter_from sha256 paths (suc index) fs)
            ])
              ≡ ok out
            → Filtered index f fs out
        by_path (minted file) v e k =
            by_rest file (filter_from sha256 paths (suc index) fs) v e refl k
        by_path (refused x) v e k = cc k

        by_validate :
            (o : Option FindingError)
            → validate sha256 f ≡ o
            → (elim o as (λ _. ScopeResult (List Finding)) [
              | some e ↦ err (scope_finding index e)
              | none ↦ elim (parse_path f.file) as (λ _. ScopeResult (List Finding)) [
                | refused e ↦ err (scope_finding index (bad_path e))
                | minted file ↦
                    map_ok
                      (λ rest. touch_finding paths f file ++ rest)
                      (filter_from sha256 paths (suc index) fs)
              ]
            ])
              ≡ ok out
            → Filtered index f fs out
        by_validate none v k = by_path (parse_path f.file) v refl k
        by_validate (some x) v k = cc k

    filter_from-AreKept :
        (index : ℕ) (fs out : List Finding)
        → filter_from sha256 paths index fs ≡ ok out
        → AreKept changed fs out
    unfolding filter_from
    filter_from-AreKept index [] out h = ended out h
      where
        ended : (b : List Finding) → ok [] ≡ ok b → b ≡ []
        ended b q = ground (arith, q)
    filter_from-AreKept index (f ∷ fs) out h =
        let (v, file, e, rest, q, same) = filter_from-first index f fs out h in
        (
          touch_finding paths f file,
          rest,
          same,
          touch_finding-IsKept f file v e,
          filter_from-AreKept (suc index) fs rest q,
        )

-- Where `FilterTouched` returns no error, it keeps of each finding, in order, at most one copy, in
-- the canonical path of its file. The copy differs at most in its file and its locations, and it
-- has a location exactly when the finding has it and a line of the location (its line, or one from
-- it through its end line) is in a range that the changed lines have for a path with this canonical
-- path.
pub filter_touched-AreKept :
    (sha256 : Bytes → Bytes) (findings : List Finding) (changed : ChangedLines) (out : List Finding)
    → filter_touched sha256 findings changed ≡ ok out
    → AreKept changed findings out
unfolding filter_touched validated_changed_lines
filter_touched-AreKept sha256 findings changed out h = by_changed (validated_from [] changed) refl h
  where
    by_changed :
        (r : ScopeResult ChangedLines)
        → validated_from [] changed ≡ r
        → (elim r as (λ _. ScopeResult (List Finding)) [
          | err e ↦ err e
          | ok paths ↦ filter_from sha256 paths 0 findings
        ])
          ≡ ok out
        → AreKept changed findings out
    by_changed (ok paths) e k = filter_from-AreKept changed paths e sha256 0 findings out k
    by_changed (err x) e k = cc k
