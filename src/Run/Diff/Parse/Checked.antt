-- ===== src/Run/Diff/Parse/Checked.antt =====
-- internal/run/diff.go: what holds of the values that git's output is parsed to.
use togi.Prelude.{
  ℕ, zero, suc, ◌≡◌, refl, subst, Bool, true, false, not, ◌||◌, Option, none, some, List, [], ◌∷◌,
  arith, All, length, if◌then◌else◌,
}
use togi.Text.{Bytes, ascii, mem_bytes, is_empty}
use togi.Text.Utf8.{utf8_valid}
use togi.Finding.FilePath.{PathResult, minted, refused, parse_path}
use togi.Run.Diff.Parse.{
  Parsed, ok, err, ◌>>=◌, ◌>>◌, guard, parse_diff_ref, parse_single_git_line,
  validate_requested_base, path_checked, validate_diff_path, ChangedPath, check_name, has_two_paths,
  named_paths, next_path, paths_from, parse_changed_paths, zero_records,
}

-- Both steps of a chain that succeeds have succeeded.
bind-ok :
    {A B : Type 0} (p : Parsed A) (f : A → Parsed B) (b : B)
    → (p >>= f) ≡ ok b
    → (a : A) × (p ≡ ok a) × (f a ≡ ok b)
bind-ok (ok a) f b h = (a, refl, h)
bind-ok (err e) f b h = ground (arith, h)

then-ok :
    {B : Type 0} (p : Parsed (Unit {0})) (k : Parsed B) (b : B)
    → (p >> k) ≡ ok b
    → (p ≡ ok tt) × (k ≡ ok b)
then-ok (ok tt) k b h = (refl, h)
then-ok (err e) k b h = ground (arith, h)

path_checked-minted :
    (root path : Bytes) (r : PathResult)
    → path_checked root path r ≡ ok tt
    → (canonical : Bytes) × (r ≡ minted canonical)
path_checked-minted root path (minted canonical) h = (canonical, refl)
path_checked-minted root path (refused e) h = ground (arith, h)

pub check_name-minted :
    (root path : Bytes)
    → check_name root path ≡ ok tt
    → (canonical : Bytes) × (parse_path path ≡ minted canonical)
unfolding check_name validate_diff_path
check_name-minted root path h = go (is_empty path || not (utf8_valid path)) h
  where
    go :
        (b : Bool)
        → (if b
            then err (ascii "Git returned an invalid changed path")
            else path_checked root path (parse_path path))
          ≡ ok tt
        → (canonical : Bytes) × (parse_path path ≡ minted canonical)
    go true h = ground (arith, h)
    go false h = path_checked-minted root path (parse_path path) h

named_paths-checked :
    (root a : Bytes) (rest : List Bytes) (two : Option Bool) (p : ChangedPath) (left : List Bytes)
    → named_paths root a rest two ≡ ok (p, left)
    → check_name root p.current ≡ ok tt
named_paths-checked root a rest none p left h = ground (arith, h)
named_paths-checked root a rest (some false) p left h =
    let (checked, e) =
      then-ok (check_name root a) (ok (record { previous = []; current = a }, rest)) (p, left) h in
    let same : a ≡ p.current = ground (arith, e) in
    subst (λ c. check_name root c ≡ ok tt) same checked
named_paths-checked root a [] (some true) p left h = ground (arith, h)
named_paths-checked root a (b ∷ rest) (some true) p left h =
    let (_, k) =
      then-ok (check_name root a)
        (check_name root b >> ok (record { previous = a; current = b }, rest)) (p, left) h in
    let (checked, e) =
      then-ok (check_name root b) (ok (record { previous = a; current = b }, rest)) (p, left) k in
    let same : b ≡ p.current = ground (arith, e) in
    subst (λ c. check_name root c ≡ ok tt) same checked

next_path-checked :
    (root : Bytes) (records : List Bytes) (p : ChangedPath) (left : List Bytes)
    → next_path root records ≡ ok (p, left)
    → check_name root p.current ≡ ok tt
unfolding next_path
next_path-checked root [] p left h = ground (arith, h)
next_path-checked root (status ∷ []) p left h = ground (arith, h)
next_path-checked root (status ∷ a ∷ rest) p left h =
    named_paths-checked root a rest (has_two_paths status) p left h

abbrev pub IsChecked : Bytes → ChangedPath → Type 0
IsChecked root p = check_name root p.current ≡ ok tt

paths_from-IsChecked :
    (fuel : ℕ) (root : Bytes) (seen records : List Bytes) (ps : List ChangedPath)
    → paths_from fuel root seen records ≡ ok ps
    → All (IsChecked root) ps
unfolding paths_from
paths_from-IsChecked fuel root seen [] ps h =
    let same : [] ≡ ps = ground (arith, h) in subst (All (IsChecked root)) same tt
paths_from-IsChecked zero root seen (r ∷ rs) ps h = ground (arith, h)
paths_from-IsChecked (suc fuel) root seen (r ∷ rs) ps h =
    let ((p, left), first, k) = bind-ok (next_path root (r ∷ rs)) _ ps h in
    let (_, k') =
      then-ok
        (guard (not (mem_bytes p.current seen)) (ascii "Git returned a duplicate changed path")) _
        ps k in
    let (more, others, e) = bind-ok (paths_from fuel root (p.current ∷ seen) left) _ ps k' in
    let same : p ∷ more ≡ ps = ground (arith, e) in
    subst (All (IsChecked root)) same (
      next_path-checked root (r ∷ rs) p left first,
      paths_from-IsChecked fuel root (p.current ∷ seen) left more others,
    )

pub parse_changed_paths-IsChecked :
    (root output : Bytes) (ps : List ChangedPath)
    → parse_changed_paths root output ≡ ok ps
    → All (IsChecked root) ps
unfolding parse_changed_paths
parse_changed_paths-IsChecked root output ps h = go (zero_records output) h
  where
    go :
        (o : Option (List Bytes))
        → (elim o as (λ _. Parsed (List ChangedPath)) [
          | none ↦ err (ascii "Git returned unterminated changed-path output")
          | some records ↦ paths_from (length records) root [] records
        ])
          ≡ ok ps
        → All (IsChecked root) ps
    go none h = ground (arith, h)
    go (some records) h = paths_from-IsChecked (length records) root [] records ps h

pub parse_diff_ref-base :
    (output ref : Bytes) → parse_diff_ref output ≡ ok ref → validate_requested_base ref ≡ ok tt
unfolding parse_diff_ref
parse_diff_ref-base output ref h =
    let (value, _, k) = bind-ok (parse_single_git_line output) _ ref h in
    let (checked, e) = then-ok (validate_requested_base value) (ok value) ref k in
    let same : value ≡ ref = ground (arith, e) in
    subst (λ b. validate_requested_base b ≡ ok tt) same checked
