-- ===== src/Run/Diff/Parse/Paths.antt =====
-- internal/run/diff.go: the changed paths that git prints are read back.
use togi.Prelude.{
  ℕ, zero, suc, ◌+◌, ◌/◌, ◌%◌, ◌≤◌, ◌≡◌, ◌≢◌, refl, sym, ap, ◌∙◌, true, false, Option, none, some,
  List, [], ◌∷◌, ◌++◌, arith, All, All-append, length, map,
}
use mathlib.Core.List.{append_assoc}
use togi.Text.{Bytes, ascii, mem_bytes, contains_byte}
use togi.Text.Decimal.{atoi, digits_value}
use togi.Text.Split.{split}
use togi.Text.Split.Joined.{HasNo, joined, split-joined}
use togi.Run.Diff.Parse.{
  Parsed, ok, err, ◌>>◌, before_last, zero_records, ChangedPath, has_two_paths, check_name,
  named_paths, next_path, paths_from, parse_changed_paths,
}

-- What `git diff --name-status -z` prints: each record ends with a zero byte.
pub zero_terminated : List Bytes → Bytes
zero_terminated [] = []
zero_terminated (r ∷ rs) = r ++ 0 ∷ zero_terminated rs

-- The letter of a status with one path
pub data Letter : Type 0 where
  added modified type_changed unmerged unknown broken : Letter

-- The kind of a status with two paths
pub data Move : Type 0 where
  renamed copied : Move

-- A path that git names, or two with a score of similarity
pub data Entry : Type 0 where
  one : Letter → Bytes → Entry
  two : Move → ℕ → Bytes → Bytes → Entry

unfoldable pub path_of : Entry → ChangedPath
path_of (one l c) = record { previous = []; current = c }
path_of (two m n a c) = record { previous = a; current = c }

abbrev letter_byte : Letter → ℕ
letter_byte added = b'A'
letter_byte modified = b'M'
letter_byte type_changed = b'T'
letter_byte unmerged = b'U'
letter_byte unknown = b'X'
letter_byte broken = b'B'

abbrev move_byte : Move → ℕ
move_byte renamed = b'R'
move_byte copied = b'C'

-- The status, a score with three digits
abbrev status_of : Entry → Bytes
status_of (one l c) = letter_byte l ∷ []
status_of (two m n a c) = move_byte m ∷ (48 + n / 100) ∷ (48 + n / 10 % 10) ∷ (48 + n % 10) ∷ []

abbrev records_of : Entry → List Bytes
records_of (one l c) = status_of (one l c) ∷ c ∷ []
records_of (two m n a c) = status_of (two m n a c) ∷ a ∷ c ∷ []

pub all_records : List Entry → List Bytes
all_records [] = []
all_records (p ∷ ps) = records_of p ++ all_records ps

abbrev pub HasNoZero : Bytes → Type 0
HasNoZero = HasNo 0

zero_terminated-joined :
    (r : Bytes) (rs : List Bytes) → zero_terminated (r ∷ rs) ≡ joined 0 r rs ++ 0 ∷ []
unfolding zero_terminated
zero_terminated-joined r [] = refl
zero_terminated-joined r (s ∷ rs) =
    ap (λ t. r ++ 0 ∷ t) (zero_terminated-joined s rs)
    ∙ sym (append_assoc r (0 ∷ joined 0 s rs) (0 ∷ []))

before_last-append : (s : Bytes) → before_last 0 (s ++ 0 ∷ []) ≡ some s
unfolding before_last
before_last-append [] = refl
before_last-append (c ∷ []) = refl
before_last-append (c ∷ d ∷ s) = rw (before_last-append (d ∷ s)) refl

zero_records-append : (s : Bytes) → zero_records (s ++ 0 ∷ []) ≡ some (split 0 s)
unfolding zero_records
zero_records-append [] = unfold before_last split in refl
zero_records-append (c ∷ s) =
    ap (λ o. elim o as (λ _. Option (List Bytes)) [ none ↦ none | some text ↦ some (split 0 text) ])
      (before_last-append (c ∷ s))

zero_records-zero_terminated :
    (rs : List Bytes) → All HasNoZero rs → zero_records (zero_terminated rs) ≡ some rs
zero_records-zero_terminated [] h = unfold zero_records zero_terminated in refl
zero_records-zero_terminated (r ∷ rs) h =
    rw (zero_terminated-joined r rs)
      (zero_records-append (joined 0 r rs) ∙ ap some (split-joined 0 r rs h.0 h.1))

-- A name that the checks accept, with nothing in it that ends a record
abbrev IsName : Bytes → Bytes → Type 0
IsName root name = (check_name root name ≡ ok tt) × HasNoZero name

-- An entry with such names, and a score in percent
unfoldable pub IsPrintable : Bytes → Entry → Type 0
IsPrintable root (one l c) = IsName root c
IsPrintable root (two m n a c) = (n ≤ 100) × IsName root a × IsName root c

-- No current path twice.
abbrev pub AreDistinct : List Bytes → List Entry → Type 0
AreDistinct seen [] = Unit
AreDistinct seen (p ∷ ps) =
    (mem_bytes (path_of p).current seen ≡ false) × AreDistinct ((path_of p).current ∷ seen) ps

records_of-HasNoZero :
    (root : Bytes) (p : Entry) → IsPrintable root p → All HasNoZero (records_of p)
unfolding IsPrintable
records_of-HasNoZero root (one added c) h = ((ground arith, tt), (h.1, tt))
records_of-HasNoZero root (one modified c) h = ((ground arith, tt), (h.1, tt))
records_of-HasNoZero root (one type_changed c) h = ((ground arith, tt), (h.1, tt))
records_of-HasNoZero root (one unmerged c) h = ((ground arith, tt), (h.1, tt))
records_of-HasNoZero root (one unknown c) h = ((ground arith, tt), (h.1, tt))
records_of-HasNoZero root (one broken c) h = ((ground arith, tt), (h.1, tt))
records_of-HasNoZero root (two m n a c) h =
    ((kind m, (ground arith, (ground arith, (ground arith, tt)))), (h.1.1, (h.2.1, tt)))
  where
    kind : (m : Move) → move_byte m ≢ 0
    kind renamed = ground arith
    kind copied = ground arith

records-HasNoZero :
    (root : Bytes) (ps : List Entry) → All (IsPrintable root) ps → All HasNoZero (all_records ps)
unfolding all_records
records-HasNoZero root [] h = tt
records-HasNoZero root (p ∷ ps) h =
    All-append HasNoZero (records_of p) (all_records ps) (records_of-HasNoZero root p h.0)
      (records-HasNoZero root ps h.1)

has_two_paths-one : (l : Letter) → has_two_paths (letter_byte l ∷ []) ≡ some false
unfolding has_two_paths contains_byte
has_two_paths-one added = refl
has_two_paths-one modified = refl
has_two_paths-one type_changed = refl
has_two_paths-one unmerged = refl
has_two_paths-one unknown = refl
has_two_paths-one broken = refl

atoi-score :
    (n : ℕ) → n ≤ 100 → atoi ((48 + n / 100) ∷ (48 + n / 10 % 10) ∷ (48 + n % 10) ∷ []) ≡ some n
unfolding atoi digits_value
atoi-score n h = ground (arith, h)

has_two_paths-two :
    (m : Move) (n : ℕ) (a c : Bytes) → n ≤ 100 → has_two_paths (status_of (two m n a c)) ≡ some true
unfolding has_two_paths
has_two_paths-two renamed n a c h = ground (arith, atoi-score n h)
has_two_paths-two copied n a c h = ground (arith, atoi-score n h)

next_path-records :
    (root : Bytes) (p : Entry) (rest : List Bytes)
    → IsPrintable root p
    → next_path root (records_of p ++ rest) ≡ ok (path_of p, rest)
unfolding next_path path_of IsPrintable
next_path-records root (one l c) rest h =
    ap (named_paths root c rest) (has_two_paths-one l)
    ∙ ap (λ r. r >> ok (record { previous = []; current = c }, rest)) h.0
next_path-records root (two m n a c) rest h =
    ap (named_paths root a (c ∷ rest)) (has_two_paths-two m n a c h.0)
    ∙ ap (λ r. r >> (check_name root c >> ok (record { previous = a; current = c }, rest))) h.1.0
    ∙ ap (λ r. r >> ok (record { previous = a; current = c }, rest)) h.2.0

paths_from-step :
    (fuel : ℕ) (root : Bytes) (seen xs : List Bytes) (p : ChangedPath) (rest : List Bytes)
    (ps : List ChangedPath)
    → next_path root xs ≡ ok (p, rest)
    → mem_bytes p.current seen ≡ false
    → paths_from fuel root (p.current ∷ seen) rest ≡ ok ps
    → paths_from (suc fuel) root seen xs ≡ ok (p ∷ ps)
unfolding paths_from
paths_from-step fuel root seen [] p rest ps n d r = absurd (go n)
  where
    go : next_path root [] ≡ ok (p, rest) → ⊥
    go e = unfold next_path in cc e
paths_from-step fuel root seen (x ∷ xs) p rest ps n d r = ground (arith, n, d, r)

records_length : (p : Entry) (rest : List Bytes) → length rest + 2 ≤ length (records_of p ++ rest)
records_length (one l c) rest = omega arith
records_length (two m n a c) rest = omega arith

paths_from-records :
    (fuel : ℕ) (root : Bytes) (seen : List Bytes) (ps : List Entry)
    → length (all_records ps) ≤ fuel
    → All (IsPrintable root) ps
    → AreDistinct seen ps
    → paths_from fuel root seen (all_records ps) ≡ ok (map path_of ps)
unfolding all_records
paths_from-records zero root seen [] l h d = unfold paths_from in refl
paths_from-records (suc fuel) root seen [] l h d = unfold paths_from in refl
paths_from-records zero root seen (p ∷ ps) l h d =
    ground (arith, l, records_length p (all_records ps))
paths_from-records (suc fuel) root seen (p ∷ ps) l h d =
    paths_from-step fuel root seen (records_of p ++ all_records ps) (path_of p) (all_records ps)
      (map path_of ps) (next_path-records root p (all_records ps) h.0) d.0
      (paths_from-records fuel root ((path_of p).current ∷ seen) ps
        (omega (arith, l, records_length p (all_records ps))) h.1 d.1)

-- What git prints of changed paths (a letter of A, M, T, U, X and B and one path, or R or C with a
-- score of at most 100 in three digits and two paths), where the checks accept the paths, no path
-- has a zero byte in it, and no current path stands twice, is read back as these paths.
pub parse_changed_paths-zero_terminated :
    (root : Bytes) (ps : List Entry)
    → All (IsPrintable root) ps
    → AreDistinct [] ps
    → parse_changed_paths root (zero_terminated (all_records ps)) ≡ ok (map path_of ps)
unfolding parse_changed_paths
parse_changed_paths-zero_terminated root ps h d =
    ap
      (λ o. elim o as (λ _. Parsed (List ChangedPath)) [
        | none ↦ err (ascii "Git returned unterminated changed-path output")
        | some records ↦ paths_from (length records) root [] records
      ])
      (zero_records-zero_terminated (all_records ps) (records-HasNoZero root ps h))
    ∙ paths_from-records (length (all_records ps)) root [] ps (omega arith) h d
