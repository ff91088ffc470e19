-- ===== src/Run/Diff/Hunks.antt =====
-- internal/run/diff.go: `parseDiffHunks`, `trackedGitlinks` and `deletionAnchor`, with the blobs of
-- git as a parameter.
pub mod Positive
pub mod Header
use togi.Prelude.{
  ℕ, zero, suc, ◌+◌, ◌-◌, Bool, true, false, not, ◌&&◌, ◌||◌, Option, none, some, List, [], ◌∷◌,
  ◌++◌, ◌==◌, ltb, leb, if◌then◌else◌, length, drop,
}
use togi.Prelude.Check.{Check, give, call, refuse_with, require, ◌>>=◌, ◌>>◌}
use togi.Text.{Bytes, ascii, bytes_eqb, is_empty, has_prefix, contains_byte, mem_bytes}
use togi.Text.Decimal.{atoi, max_int}
use togi.Text.Space.{fields}
use togi.Text.Split.{split}
use togi.Text.Utf8.{utf8_valid}
use togi.Run.Diff.Parse.{
  Parsed, ok, err, zero_records, validate_diff_path, parse_object_id, count_blob_lines,
}
use togi.Run.Diff.Ranges.{HunkRange, merge_line_ranges}

abbrev digit : ℕ → Bool
digit c = leb b'0' c && leb c b'9'

-- The digits that a text begins with, and what follows.
unfoldable pub take_digits : Bytes → Bytes × Bytes
take_digits [] = ([], [])
take_digits (c ∷ s) =
    let (digits, rest) = take_digits s in if digit c then (c ∷ digits, rest) else ([], c ∷ s)

-- One or more digits.
abbrev some_digits : Bytes → Option (Bytes × Bytes)
some_digits s =
    let (digits, rest) = take_digits s in if is_empty digits then none else some (digits, rest)

-- A literal, and what follows.
unfoldable pub expect : Bytes → Bytes → Option Bytes
expect [] s = some s
expect (c ∷ cs) [] = none
expect (c ∷ cs) (d ∷ s) = if c == d then expect cs s else none

-- `(?:,([0-9]+))?`, with no digits where there is no comma
abbrev pub optional_count : Bytes → Option (Bytes × Bytes)
optional_count [] = some ([], [])
optional_count (c ∷ s) = if c == b',' then some_digits s else some ([], c ∷ s)

-- `[^\r\n]*\r?$`
unfoldable pub ends_line : Bytes → Bool
ends_line [] = true
ends_line (c ∷ []) = not (c == 10)
ends_line (c ∷ d ∷ s) = not (c == 10 || c == 13) && ends_line (d ∷ s)

abbrev then_some : {A B : Type 0} → Option A → (A → Option B) → Option B
then_some none f = none
then_some (some a) f = f a

-- The digits of the new start and of the new count, by `diffHunkHeader`.
unfoldable pub hunk_header : Bytes → Option (Bytes × Bytes)
hunk_header line = then_some (expect (ascii "@@ -") line) λ s.
    then_some (some_digits s) λ old_start. then_some (optional_count old_start.1) λ old_count.
      then_some (expect (ascii " +") old_count.1) λ s'. then_some (some_digits s') λ start.
        then_some (optional_count start.1) λ count.
          then_some (expect (ascii " @@") count.1)
            λ rest. if ends_line rest then some (start.0, count.0) else none

abbrev pub number : Bytes → Bytes → Parsed ℕ
number error digits = elim (atoi digits) [ none ↦ err error | some n ↦ ok n ]

abbrev pub count_number : Bytes → Parsed ℕ
count_number [] = ok 1
count_number (c ∷ s) = number (ascii "Git returned an invalid hunk count") (c ∷ s)

abbrev pub numbers_of : Option (Bytes × Bytes) → Parsed (ℕ × ℕ)
numbers_of none = err (ascii "Git returned a malformed hunk header")
numbers_of (some (start, count)) =
    elim (number (ascii "Git returned an invalid hunk start") start) [
      | err e ↦ err e
      | ok first ↦ elim (count_number count) [ err e ↦ err e | ok n ↦ ok (first, n) ]
    ]

-- The start and the count of a hunk.
unfoldable pub hunk_numbers : Bytes → Parsed (ℕ × ℕ)
hunk_numbers line = numbers_of (hunk_header line)

-- What a call of git gives: its output, or the text of its error. A context that has ended is one
-- error, an exit with a status another.
pub data GitReply : Type 0 where
  output : Bytes → GitReply
  canceled : Bytes → GitReply
  exited : ℕ → Bytes → GitReply
  failed : Bytes → GitReply

pub record GitPorts : Type 1 where
  pub World : Type 0
  -- the text of ctx.Err(), once the context has ended
  pub context_end : World → Option Bytes × World
  -- diffGitOutput in the repository, with a limit on the output
  pub git : ℕ → List Bytes → World → GitReply × World

abbrev pub git_paths_output_limit : ℕ
git_paths_output_limit = 8388608

abbrev pub git_diff_output_limit : ℕ
git_diff_output_limit = 33554432

-- The line counts of blobs that have been read.
abbrev pub BlobLineCounts : Type 0
BlobLineCounts = List (Bytes × ℕ)

unfoldable pub lookup_blob : Bytes → BlobLineCounts → Option ℕ
lookup_blob path [] = none
lookup_blob path ((p, n) ∷ counts) = if bytes_eqb path p then some n else lookup_blob path counts

-- The line that a deletion counts for.
unfoldable pub anchor_in : ℕ → ℕ → ℕ
anchor_in line_count requested =
    if line_count == 0
    then 0
    else if requested == 0
    then 1
    else if leb requested line_count
    then requested
    else line_count

abbrev pub range_at : ℕ → List HunkRange → List HunkRange
range_at line rest = if line == 0 then rest else record { start = line; end = line } ∷ rest

module _ (G : GitPorts) where
  open G use {World}

  -- A step of the diff: the world with the cache of line counts, and errors as texts.
  abbrev pub Reading : Type 0 → Type 0
  Reading A = Check (World × BlobLineCounts) Bytes A

  abbrev pub with_world :
      {A : Type 0} → (World → A × World) → World × BlobLineCounts → A × (World × BlobLineCounts)
  with_world f (w, counts) = let (a, w') = f w in (a, (w', counts))

  unfoldable pub of_parsed : {A : Type 0} → Parsed A → Reading A
  of_parsed p = elim p [ ok a ↦ give a | err e ↦ refuse_with e ]

  unfoldable pub check_running : Reading (Unit {0})
  check_running = call (with_world G.context_end) >>= λ end. elim end [
    | none ↦ give tt
    | some text ↦ refuse_with text
  ]

  -- The output of git, where an error's text gets a prefix.
  unfoldable pub output_of : Bytes → GitReply → Reading Bytes
  output_of prefix (output text) = give text
  output_of prefix (canceled text) = refuse_with (prefix ++ text)
  output_of prefix (exited status text) = refuse_with (prefix ++ text)
  output_of prefix (failed text) = refuse_with (prefix ++ text)

  unfoldable pub git_output : Bytes → ℕ → List Bytes → Reading Bytes
  git_output prefix limit args = call (with_world (G.git limit args)) >>= output_of prefix

  abbrev remember : Bytes → ℕ → World × BlobLineCounts → Unit {0} × (World × BlobLineCounts)
  remember path n (w, counts) = (tt, (w, (path, n) ∷ counts))

  unfoldable pub blob_line_count : Bytes → Bytes → Option ℕ → Reading ℕ
  blob_line_count head path (some n) = give n
  blob_line_count head path none = do
    blob ←
        git_output (ascii "read captured repository blob for deletion anchor: ")
          git_diff_output_limit (ascii "cat-file" ∷ ascii "blob" ∷ (head ++ b':' ∷ path) ∷ [])
    check_running
    call (remember path (count_blob_lines blob))
    give (count_blob_lines blob)

  -- `parseObjectID` for a head that has been parsed before
  abbrev captured_head : Bytes → Parsed (Unit {0})
  captured_head head = elim (parse_object_id head) [
    | ok _ ↦ ok tt
    | err e ↦ err (ascii "deletion anchor HEAD is invalid")
  ]

  unfoldable pub deletion_anchor : Bytes → Bytes → Bytes → ℕ → Reading ℕ
  deletion_anchor root head path requested = do
    check_running
    of_parsed (captured_head head)
    of_parsed (validate_diff_path root path)
    cached ← call (λ s. (lookup_blob path s.1, s))
    line_count ← blob_line_count head path cached
    give (anchor_in line_count requested)

  -- A hunk's start and count, in front of the ranges of the other lines.
  unfoldable pub add_hunk :
      Bytes → Bytes → Bytes → Reading (List HunkRange) → ℕ × ℕ → Reading (List HunkRange)
  add_hunk root head path rest (start, count) =
      if count == 0
      then (deletion_anchor root head path start >>= λ anchor.
          rest >>= λ ranges. give (range_at anchor ranges))
      else (require (ltb 0 start && leb start (max_int - count + 1))
            (ascii "Git returned an invalid changed-line range")
          >> (rest >>= λ ranges. give (record { start = start; end = start + count - 1 } ∷ ranges)))

  -- The loop of `parseDiffHunks` over the lines of a patch.
  unfoldable pub hunks_from : Bytes → Bytes → Bytes → List Bytes → Reading (List HunkRange)
  hunks_from root head path [] = give []
  hunks_from root head path (line ∷ lines) =
      let rest = hunks_from root head path lines in
      if not (has_prefix line (ascii "@@"))
      then rest
      else (of_parsed (hunk_numbers line) >>= add_hunk root head path rest)

  unfoldable pub parse_diff_hunks : Bytes → Bytes → Bytes → Bytes → Reading (List HunkRange)
  parse_diff_hunks root head path patch =
      if is_empty patch
      then give []
      else (require (has_prefix patch (ascii "diff --git ") && not (contains_byte patch 0))
            (ascii "Git returned malformed diff output")
          >> (hunks_from root head path (split 10 patch) >>= λ ranges.
              give (merge_line_ranges ranges)))
