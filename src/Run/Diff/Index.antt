-- ===== src/Run/Diff/Index.antt =====
-- internal/run/diff.go: `trackedGitlinks` on the output of git ls-files --stage -z.
use togi.Prelude.{ℕ, Bool, not, ◌||◌, Option, none, some, List, [], ◌∷◌, ◌++◌, ◌==◌, if◌then◌else◌}
use togi.Text.{Bytes, ascii, bytes_eqb, is_empty, mem_bytes}
use togi.Text.Space.{fields}
use togi.Text.Utf8.{utf8_valid}
use togi.Run.Diff.Parse.{Parsed, ok, err, zero_records, validate_diff_path, parse_object_id}

-- bytes.Cut at the first separator
unfoldable pub cut_at : ℕ → Bytes → Option (Bytes × Bytes)
cut_at sep [] = none
cut_at sep (c ∷ s) =
    let rest = cut_at sep s in
    if c == sep then some ([], s) else elim rest [ none ↦ none | some (a, b) ↦ some (c ∷ a, b) ]

abbrev malformed : {A : Type 0} → Parsed A
malformed = err (ascii "inspect repository gitlinks: Git returned malformed output")

-- mode, object and stage of an entry
abbrev entry_fields : List Bytes → Option (Bytes × Bytes × Bytes)
entry_fields (mode ∷ object ∷ stage ∷ []) = some (mode, object, stage)
entry_fields _ = none

abbrev is_stage : Bytes → Bool
is_stage s =
    bytes_eqb s (ascii "0")
    || (bytes_eqb s (ascii "1") || (bytes_eqb s (ascii "2") || bytes_eqb s (ascii "3")))

-- What one entry adds to the gitlinks seen so far: itself, if it is one.
unfoldable pub gitlink_entry :
    Bytes → List Bytes → Bytes × Bytes × Bytes → Bytes → Parsed (List Bytes)
gitlink_entry root seen (mode, object, stage) path =
    if is_empty path || (not (utf8_valid path) || not (is_stage stage))
    then malformed
    else elim (validate_diff_path root path) [
      | err e ↦ err (ascii "Git returned an unsafe submodule path")
      | ok _ ↦
          if not (bytes_eqb mode (ascii "160000"))
          then ok seen
          else if not (bytes_eqb stage (ascii "0"))
          then err (ascii "repository contains a conflicted submodule gitlink")
          else elim (parse_object_id object) [
            | err e ↦ malformed
            | ok _ ↦
                if mem_bytes path seen
                then err
                    (ascii "inspect repository gitlinks: Git returned a duplicate submodule path")
                else ok (seen ++ path ∷ [])
          ]
    ]

unfoldable pub gitlink_record : Bytes → List Bytes → Bytes → Parsed (List Bytes)
gitlink_record root seen record' = elim (cut_at 9 record') [
  | none ↦ malformed
  | some (metadata, path) ↦ elim (entry_fields (fields metadata)) [
    | none ↦ malformed
    | some entry ↦ gitlink_entry root seen entry path
  ]
]

unfoldable pub gitlinks_from : Bytes → List Bytes → List Bytes → Parsed (List Bytes)
gitlinks_from root seen [] = ok seen
gitlinks_from root seen (r ∷ rs) = elim (gitlink_record root seen r) [
  | err e ↦ err e
  | ok seen' ↦ gitlinks_from root seen' rs
]

unfoldable pub tracked_gitlinks : Bytes → Bytes → Parsed (List Bytes)
tracked_gitlinks root output = elim (zero_records output) [
  | none ↦ malformed
  | some records ↦ gitlinks_from root [] records
]
