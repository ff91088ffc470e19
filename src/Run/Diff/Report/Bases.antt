-- ===== src/Run/Diff/Report/Bases.antt =====
-- internal/run/diff.go: what the parsers of a base and of a commit let through.
use togi.Prelude.{◌≡◌, refl, subst, true, some, List, [], ◌∷◌, arith, All, Bool-cases, inl, inr}
use togi.Text.{Bytes, ascii, mem_bytes, has_prefix, bytes_eqb}
use togi.Text.Trim.{trim_space, trim_right}
use togi.Text.Utf8.{utf8_valid, utf8_valid_from}
use togi.Run.Diff.Parse.{
  Parsed, ok, err, ChangedPath, object_id_of, parse_object_id, parse_single_git_line,
  parse_diff_ref, validate_requested_base, automatic_base_refs, first_automatic,
  parse_changed_paths,
}
use togi.Run.Diff.Resolve.{doing}
use togi.Run.Diff.Report.{
  DiffError, diff_report, valid_object_id_string, has_control, with_base, with_count, with_lines,
  with_report, Counted, counted, validate_commits, validate_diff_report, changed_lines_of,
  count_lines, validate_diff,
}

lower_hex-same :
    (s : Bytes) → togi.Run.Diff.Parse.lower_hex s ≡ true → togi.Run.Diff.Report.lower_hex s ≡ true
lower_hex-same [] h = refl
lower_hex-same (c ∷ s) h = ground (arith, h, lower_hex-same s (ground (arith, h)))

object_id_of-valid :
    (s value : Bytes) → object_id_of s ≡ ok value → valid_object_id_string value ≡ true
unfolding object_id_of valid_object_id_string
object_id_of-valid s value h =
    let same : s ≡ value = ground (arith, h) in
    subst (λ v. valid_object_id_string v ≡ true) same
      (ground (arith, h, lower_hex-same s (ground (arith, h))))

pub parse_object_id-valid :
    (s value : Bytes) → parse_object_id s ≡ ok value → valid_object_id_string value ≡ true
unfolding parse_object_id
parse_object_id-valid s value h = go (parse_single_git_line s) h
  where
    go :
        (p : Parsed Bytes)
        → (elim p as (λ _. Parsed Bytes) [
          | err e ↦ err (ascii "Git returned an invalid object ID")
          | ok v ↦ object_id_of v
        ])
          ≡ ok value
        → valid_object_id_string value ≡ true
    go (ok v) h = object_id_of-valid v value h
    go (err e) h = ground (arith, h)

pub doing-ok :
    {A : Type 0} (prefix : Bytes) (p : Parsed A) (a : A) → doing prefix p ≡ ok a → p ≡ ok a
doing-ok prefix (ok x) a h = h
doing-ok prefix (err e) a h = ground (arith, h)

abbrev pub IsBase : Bytes → Type 0
IsBase ref = validate_requested_base ref ≡ ok tt

pub first_automatic-IsBase :
    (existing : List Bytes) (refs : List (Bytes × Bytes)) (short : Bytes)
    → All (λ r. IsBase r.1) refs
    → first_automatic existing refs ≡ some short
    → IsBase short
unfolding first_automatic
first_automatic-IsBase existing [] short b h = ground (arith, h)
first_automatic-IsBase existing ((full, name) ∷ refs) short b h =
    elim (Bool-cases (mem_bytes full existing)) [
      | inl e ↦ let same : name ≡ short = ground (arith, e, h) in subst IsBase same b.0
      | inr e ↦ first_automatic-IsBase existing refs short b.1 (ground (arith, e, h))
    ]

pub automatic_base_refs-IsBase : All (λ r. IsBase r.1) automatic_base_refs
unfolding validate_requested_base trim_space trim_right has_prefix utf8_valid utf8_valid_from
    bytes_eqb
automatic_base_refs-IsBase = (refl, (refl, (refl, (refl, tt))))
