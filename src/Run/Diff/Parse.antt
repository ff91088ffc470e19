-- ===== src/Run/Diff/Parse.antt =====
-- internal/run/diff.go: what the output of git is read as. An error is its text.
pub mod Paths
pub mod Checked
use togi.Prelude.{
  ℕ, zero, suc, ◌+◌, ◌-◌, Bool, true, false, not, ◌&&◌, ◌||◌, Option, none, some, List, [], ◌∷◌,
  ◌++◌, ◌==◌, ltb, leb, if◌then◌else◌, length, drop,
}
use togi.Text.{Bytes, ascii, bytes_eqb, is_empty, has_prefix, contains_byte, mem_bytes}
use togi.Text.Decimal.{atoi}
use togi.Text.Space.{fields, join}
use togi.Text.Split.{split}
use togi.Text.Trim.{trim_space, contains_any}
use togi.Text.Utf8.{utf8_valid}
use togi.Finding.FilePath.{PathResult, minted, refused, parse_path, clean_path}

pub data Parsed {ℓ} (A : Type ℓ) : Type ℓ where
  ok : A → Parsed A
  err : Bytes → Parsed A

infixl 5 ◌>>=◌ ◌>>◌
abbrev pub ◌>>=◌ : {A B : Type 0} → Parsed A → (A → Parsed B) → Parsed B
ok a >>= f = f a
err e >>= f = err e

abbrev pub ◌>>◌ : {B : Type 0} → Parsed (Unit {0}) → Parsed B → Parsed B
m >> k = m >>= λ _. k

abbrev pub guard : Bool → Bytes → Parsed (Unit {0})
guard true e = ok tt
guard false e = err e

-- The text before a last byte, where that is the one given.
unfoldable pub before_last : ℕ → Bytes → Option Bytes
before_last sep [] = none
before_last sep (c ∷ []) = if c == sep then some [] else none
before_last sep (c ∷ d ∷ s) = elim (before_last sep (d ∷ s)) [ none ↦ none | some t ↦ some (c ∷ t) ]

-- bytes.TrimSuffix by one byte
abbrev pub trim_last : ℕ → Bytes → Bytes
trim_last sep s = elim (before_last sep s) [ none ↦ s | some t ↦ t ]

unfoldable pub parse_single_git_line : Bytes → Parsed Bytes
parse_single_git_line output =
    let text = trim_last 10 output in
    if is_empty text || (contains_any text (13 ∷ 10 ∷ 0 ∷ []) || not (utf8_valid text))
    then err (ascii "Git returned malformed output")
    else ok text

abbrev pub lower_hex : Bytes → Bool
lower_hex [] = true
lower_hex (c ∷ s) = (leb b'0' c && leb c b'9' || leb b'a' c && leb c b'f') && lower_hex s

unfoldable pub object_id_of : Bytes → Parsed Bytes
object_id_of value =
    if (length value == 40 || length value == 64) && lower_hex value
    then ok value
    else err (ascii "Git returned an invalid object ID")

unfoldable pub parse_object_id : Bytes → Parsed Bytes
parse_object_id output = elim (parse_single_git_line output) [
  | err e ↦ err (ascii "Git returned an invalid object ID")
  | ok value ↦ object_id_of value
]

abbrev printable_bytes : Bytes → Bool
printable_bytes [] = true
printable_bytes (c ∷ s) = not (ltb c 32 || c == 0x7F) && printable_bytes s

unfoldable pub validate_requested_base : Bytes → Parsed (Unit {0})
validate_requested_base base =
    guard
      (not (is_empty (trim_space base))
        && (bytes_eqb (trim_space base) base
            && (not (has_prefix base (ascii "-")) && (utf8_valid base && printable_bytes base))))
      (ascii "base revision is invalid")

unfoldable pub parse_diff_ref : Bytes → Parsed Bytes
parse_diff_ref output = do
  value ← parse_single_git_line output
  validate_requested_base value
  ok value

-- `automaticBaseRefs`, each with its short name
abbrev pub automatic_base_refs : List (Bytes × Bytes)
automatic_base_refs =
    (ascii "refs/remotes/origin/main", ascii "origin/main")
    ∷ (ascii "refs/remotes/origin/master", ascii "origin/master")
    ∷ (ascii "refs/heads/main", ascii "main")
    ∷ (ascii "refs/heads/master", ascii "master")
    ∷ []

abbrev is_automatic : Bytes → List (Bytes × Bytes) → Bool
is_automatic ref [] = false
is_automatic ref ((full, short) ∷ refs) = bytes_eqb ref full || is_automatic ref refs

unfoldable pub automatic_refs_from : List Bytes → List Bytes → Parsed (List Bytes)
automatic_refs_from seen [] = ok seen
automatic_refs_from seen (ref ∷ refs) =
    if not (is_automatic ref automatic_base_refs)
    then err (ascii "Git returned an unexpected conventional trunk ref")
    else if mem_bytes ref seen
    then err (ascii "Git returned a duplicate conventional trunk ref")
    else automatic_refs_from (ref ∷ seen) refs

abbrev refs_of_lines : Bytes → Option Bytes → Parsed (List Bytes)
refs_of_lines output none = err (ascii "Git returned malformed conventional trunk refs")
refs_of_lines output (some text) =
    if not (utf8_valid output) || contains_any output (13 ∷ 0 ∷ [])
    then err (ascii "Git returned malformed conventional trunk refs")
    else automatic_refs_from [] (split 10 text)

unfoldable pub parse_automatic_base_refs : Bytes → Parsed (List Bytes)
parse_automatic_base_refs output =
    if is_empty output then ok [] else refs_of_lines output (before_last 10 output)

-- The first candidate that exists.
unfoldable pub first_automatic : List Bytes → List (Bytes × Bytes) → Option Bytes
first_automatic existing [] = none
first_automatic existing ((full, short) ∷ refs) =
    if mem_bytes full existing then some short else first_automatic existing refs

-- The records of an output that ends each by a zero byte; none for one that does not end so.
unfoldable pub zero_records : Bytes → Option (List Bytes)
zero_records [] = some []
zero_records (c ∷ s) = elim (before_last 0 (c ∷ s)) [
  | none ↦ none
  | some text ↦ some (split 0 text)
]

abbrev hidden_tag : ℕ → Bool
hidden_tag tag = tag == b'S' || leb b'a' tag && leb tag b'z'

unfoldable pub check_index_record : Bytes → Parsed (Unit {0})
check_index_record (tag ∷ space ∷ c ∷ _) =
    if not (space == 32)
    then err (ascii "inspect repository index flags: Git returned malformed output")
    else guard (not (hidden_tag tag)) (
        ascii
          "repository index contains hidden entries; clear assume-unchanged and skip-worktree flags")
check_index_record _ = err (ascii "inspect repository index flags: Git returned malformed output")

unfoldable pub check_index_records : List Bytes → Parsed (Unit {0})
check_index_records [] = ok tt
check_index_records (r ∷ rs) = do check_index_record r; check_index_records rs

-- `rejectHiddenIndexEntries` on the output of git ls-files -v -z
unfoldable pub reject_hidden_index_entries : Bytes → Parsed (Unit {0})
reject_hidden_index_entries output = elim (zero_records output) [
  | none ↦ err (ascii "inspect repository index flags: Git returned malformed output")
  | some records ↦ check_index_records records
]

abbrev non_empty_parts : List Bytes → List Bytes
non_empty_parts [] = []
non_empty_parts ([] ∷ ps) = non_empty_parts ps
non_empty_parts ((c ∷ p) ∷ ps) = (c ∷ p) ∷ non_empty_parts ps

abbrev parts_prefix : List Bytes → List Bytes → Bool
parts_prefix [] qs = true
parts_prefix (p ∷ ps) [] = false
parts_prefix (p ∷ ps) (q ∷ qs) = bytes_eqb p q && parts_prefix ps qs

-- `pathWithinRoot` on absolute paths: filepath.Rel goes up nowhere.
unfoldable pub path_within_root : Bytes → Bytes → Bool
path_within_root root path =
    parts_prefix (non_empty_parts (split b'/' (clean_path root)))
      (non_empty_parts (split b'/' (clean_path path)))

abbrev pub path_checked : Bytes → Bytes → PathResult → Parsed (Unit {0})
path_checked root path (refused e) = err (ascii "Git returned an unsafe repository path")
path_checked root path (minted canonical) =
    guard (bytes_eqb canonical path && path_within_root root (root ++ b'/' ∷ path))
      (ascii "Git returned an unsafe repository path")

unfoldable pub validate_diff_path : Bytes → Bytes → Parsed (Unit {0})
validate_diff_path root path = path_checked root path (parse_path path)

pub record ChangedPath : Type 0 where
  pub previous : Bytes
  pub current : Bytes

abbrev digit : ℕ → Bool
digit c = leb b'0' c && leb c b'9'

-- `changedPathCount`: whether a status has two paths, none for a malformed one
unfoldable pub has_two_paths : Bytes → Option Bool
has_two_paths (s ∷ []) = if contains_byte (ascii "AMTUXB") s then some false else none
has_two_paths (s ∷ a ∷ b ∷ c ∷ []) =
    if (s == b'R' || s == b'C') && (digit a && (digit b && digit c))
    then elim (atoi (a ∷ b ∷ c ∷ [])) [
      | none ↦ none
      | some score ↦ if leb score 100 then some true else none
    ]
    else none
has_two_paths _ = none

unfoldable pub check_name : Bytes → Bytes → Parsed (Unit {0})
check_name root record' =
    if is_empty record' || not (utf8_valid record')
    then err (ascii "Git returned an invalid changed path")
    else validate_diff_path root record'

abbrev malformed_status : {A : Type 0} → Parsed A
malformed_status = err (ascii "Git returned malformed changed-path status")

-- The path that records name behind a status, and the records behind it.
abbrev pub named_paths :
    Bytes → Bytes → List Bytes → Option Bool → Parsed (ChangedPath × List Bytes)
named_paths root a rest none = malformed_status
named_paths root a rest (some false) = do
  check_name root a
  ok (record { previous = []; current = a }, rest)
named_paths root a [] (some true) = malformed_status
named_paths root a (b ∷ rest) (some true) = do
  check_name root a
  check_name root b
  ok (record { previous = a; current = b }, rest)

unfoldable pub next_path : Bytes → List Bytes → Parsed (ChangedPath × List Bytes)
next_path root [] = malformed_status
next_path root (status ∷ []) = malformed_status
next_path root (status ∷ a ∷ rest) = named_paths root a rest (has_two_paths status)

-- The loop of `parseChangedPaths`; as much fuel as there are records is enough.
unfoldable pub paths_from : ℕ → Bytes → List Bytes → List Bytes → Parsed (List ChangedPath)
paths_from fuel root seen [] = ok []
paths_from zero root seen (r ∷ rs) = malformed_status
paths_from (suc fuel) root seen (r ∷ rs) = do
  (path, rest) ← next_path root (r ∷ rs)
  guard (not (mem_bytes path.current seen)) (ascii "Git returned a duplicate changed path")
  paths ← paths_from fuel root (path.current ∷ seen) rest
  ok (path ∷ paths)

unfoldable pub parse_changed_paths : Bytes → Bytes → Parsed (List ChangedPath)
parse_changed_paths root output = elim (zero_records output) [
  | none ↦ err (ascii "Git returned unterminated changed-path output")
  | some records ↦ paths_from (length records) root [] records
]

unfoldable pub literal_pathspec : Bytes → Bytes
literal_pathspec path = ascii ":(literal)" ++ path

-- bytes.Count
unfoldable pub count_byte : ℕ → Bytes → ℕ
count_byte c [] = 0
count_byte c (d ∷ s) = if d == c then suc (count_byte c s) else count_byte c s

unfoldable pub count_blob_lines : Bytes → ℕ
count_blob_lines [] = 0
count_blob_lines (c ∷ s) = elim (before_last 10 (c ∷ s)) [
  | some _ ↦ count_byte 10 (c ∷ s)
  | none ↦ suc (count_byte 10 (c ∷ s))
]
