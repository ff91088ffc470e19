-- ===== src/Finding/Scope.antt =====
-- internal/finding/scope.go: findings are kept where a location overlaps changed lines. Go's map of
-- changed lines is an association list; the order of its entries does not show.
pub mod Touched
pub mod Kept
pub mod Lines
pub mod Changed
use togi.Prelude.{
  ℕ, suc, Bool, false, ◌&&◌, ◌||◌, List, [], ◌∷◌, ◌++◌, Option, none, some, if◌then◌else◌,
}
use togi.Prelude.Int.{ℤ, pos, ltb_ℤ, leb_ℤ, eqb_ℤ}
use togi.Prelude.Sort.{sort}
use togi.Text.{Bytes, bytes_eqb}
use togi.Finding.FilePath.{PathError, minted, refused, parse_path}
use togi.Finding.{Occurrence, Finding, FindingError, bad_path, validate}
use togi.Finding.Group.{locations_of, less_occurrence}

pub record LineRange : Type 0 where
  pub start : ℤ
  pub end : ℤ

abbrev pub ChangedLines : Type 0
ChangedLines = List (Bytes × List LineRange)

pub data ScopeError : Type 0 where
  changed_path : PathError → ScopeError
  changed_range : Bytes → ℕ → ScopeError
  scope_finding : ℕ → FindingError → ScopeError

pub data ScopeResult {ℓ} (A : Type ℓ) : Type ℓ where
  ok : A → ScopeResult A
  err : ScopeError → ScopeResult A

abbrev pub map_ok : {A B : Type 0} → (A → B) → ScopeResult A → ScopeResult B
map_ok f (ok a) = ok (f a)
map_ok f (err e) = err e

unfoldable pub bad_range : ℕ → List LineRange → Option ℕ
bad_range index [] = none
bad_range index (r ∷ rs) =
    if leb_ℤ r.start (pos 0) || ltb_ℤ r.end r.start then some index else bad_range (suc index) rs

-- validated[key] = append(validated[key], ranges...)
unfoldable pub add_ranges : Bytes → List LineRange → ChangedLines → ChangedLines
add_ranges key ranges [] = (key, ranges) ∷ []
add_ranges key ranges ((k, rs) ∷ m) =
    if bytes_eqb key k then (k, rs ++ ranges) ∷ m else (k, rs) ∷ add_ranges key ranges m

unfoldable pub validated_from : ChangedLines → ChangedLines → ScopeResult ChangedLines
validated_from acc [] = ok acc
validated_from acc ((path, ranges) ∷ changed) = elim (parse_path path) [
  | refused e ↦ err (changed_path e)
  | minted canonical ↦ elim (bad_range 0 ranges) [
    | some index ↦ err (changed_range path index)
    | none ↦ validated_from (add_ranges canonical ranges acc) changed
  ]
]

unfoldable pub validated_changed_lines : ChangedLines → ScopeResult ChangedLines
validated_changed_lines changed = validated_from [] changed

-- changedPaths[file], nil for a missing key
unfoldable pub lookup_ranges : Bytes → ChangedLines → List LineRange
lookup_ranges key [] = []
lookup_ranges key ((k, rs) ∷ m) = if bytes_eqb key k then rs else lookup_ranges key m

-- The last line of a location; 0 stands for a single line.
abbrev pub location_end : Occurrence → ℤ
location_end l = if eqb_ℤ l.end_line (pos 0) then l.line else l.end_line

unfoldable pub overlaps_changed : Occurrence → List LineRange → Bool
overlaps_changed l [] = false
overlaps_changed l (r ∷ rs) =
    leb_ℤ l.line r.end && leb_ℤ r.start (location_end l) || overlaps_changed l rs

unfoldable pub survivors_of : List LineRange → List Occurrence → List Occurrence
survivors_of ranges [] = []
survivors_of ranges (l ∷ ls) =
    if overlaps_changed l ranges then l ∷ survivors_of ranges ls else survivors_of ranges ls

-- The finding at its surviving locations, if there are any.
abbrev pub narrowed : Finding → Bytes → List Occurrence → List Finding
narrowed f file [] = []
narrowed f file (primary ∷ rest) =
    record f { file = file; line = primary.line; end_line = primary.end_line; occurrences = rest }
    ∷ []

unfoldable pub touch_finding : ChangedLines → Finding → Bytes → List Finding
touch_finding changed f file =
    narrowed f file
      (sort less_occurrence (survivors_of (lookup_ranges file changed) (locations_of f)))

module _ (sha256 : Bytes → Bytes) where
  unfoldable pub filter_from : ChangedLines → ℕ → List Finding → ScopeResult (List Finding)
  filter_from changed index [] = ok []
  filter_from changed index (f ∷ fs) = elim (validate sha256 f) [
    | some e ↦ err (scope_finding index e)
    | none ↦ elim (parse_path f.file) [
      | refused e ↦ err (scope_finding index (bad_path e))
      | minted file ↦
          map_ok (λ rest. touch_finding changed f file ++ rest) (filter_from changed (suc index) fs)
    ]
  ]

  unfoldable pub filter_touched : List Finding → ChangedLines → ScopeResult (List Finding)
  filter_touched findings changed = elim (validated_changed_lines changed) [
    | err e ↦ err e
    | ok paths ↦ filter_from paths 0 findings
  ]
