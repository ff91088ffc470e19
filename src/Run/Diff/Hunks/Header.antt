-- ===== src/Run/Diff/Hunks/Header.antt =====
-- internal/run/diff.go: the header of a hunk is read back.
use togi.Prelude.{
  ℕ, zero, suc, ◌+◌, ◌/◌, ◌%◌, ◌<◌, ◌≤◌, ◌≡◌, refl, ap, ◌∙◌, true, false, Bool-cases, inl, inr,
  none, some, [], ◌∷◌, ◌++◌, arith, All, All-append, ltb, ◌==◌, if◌then◌else◌,
}
use togi.Text.{Bytes, ascii, is_empty}
use togi.Text.Decimal.{decimal, decimal_from, atoi, digits_value-decimal, max_int}
use togi.Run.Diff.Parse.{Parsed, ok, err}
use togi.Run.Diff.Hunks.{
  take_digits, expect, ends_line, some_digits, optional_count, hunk_header, numbers_of,
  hunk_numbers, count_number,
}

-- A byte that is a digit
abbrev IsDigit : ℕ → Type 0
IsDigit c = (48 ≤ c) × (c ≤ 57)

IsDigit-decimal_from : (fuel n : ℕ) → All IsDigit (decimal_from fuel n)
unfolding decimal_from
IsDigit-decimal_from zero n = tt
IsDigit-decimal_from (suc fuel) n = elim (Bool-cases (ltb n 10)) [
  | inl e ↦ rw e ((ground (arith, e), ground (arith, e)), tt)
  | inr e ↦ rw e (
      All-append IsDigit (decimal_from fuel (n / 10)) ((48 + n % 10) ∷ [])
        (IsDigit-decimal_from fuel (n / 10)) ((omega arith, omega arith), tt))
]

-- A text that does not begin with a digit
abbrev NoDigit : Bytes → Type 0
NoDigit s = take_digits s ≡ ([], s)

take_digits-append : (d s : Bytes) → All IsDigit d → NoDigit s → take_digits (d ++ s) ≡ (d, s)
unfolding take_digits
take_digits-append [] s h n = n
take_digits-append (c ∷ d) s h n = rw (take_digits-append d s h.1 n) (ground (arith, h.0))

no_digit : (c : ℕ) (s : Bytes) → c < 48 → NoDigit (c ∷ s)
unfolding take_digits
no_digit c s h = ground (arith, h)

expect-append : (cs s : Bytes) → expect cs (cs ++ s) ≡ some s
unfolding expect
expect-append [] s = refl
expect-append (c ∷ cs) s = ground (arith, expect-append cs s)

snoc-nonempty : (r : Bytes) (c : ℕ) → is_empty (r ++ c ∷ []) ≡ false
snoc-nonempty [] c = refl
snoc-nonempty (x ∷ r) c = refl

decimal-nonempty : (n : ℕ) → is_empty (decimal n) ≡ false
unfolding decimal decimal_from
decimal-nonempty n = elim (Bool-cases (ltb n 10)) [
  | inl e ↦ rw e refl
  | inr e ↦ rw e (snoc-nonempty (decimal_from n (n / 10)) (48 + n % 10))
]

atoi-decimal : (n : ℕ) → n ≤ max_int → atoi (decimal n) ≡ some n
unfolding atoi
atoi-decimal n h = rw (digits_value-decimal n) (ground (arith, h))

some_digits-decimal :
    (n : ℕ) (s : Bytes) → NoDigit s → some_digits (decimal n ++ s) ≡ some (decimal n, s)
some_digits-decimal n s h =
    let digits : All IsDigit (decimal n) = unfold decimal in IsDigit-decimal_from (suc n) n in
    rw (take_digits-append (decimal n) s digits h) (rw (decimal-nonempty n) refl)

count_number-decimal : (n : ℕ) → n ≤ max_int → count_number (decimal n) ≡ ok n
count_number-decimal n h = go (decimal n) (decimal-nonempty n) (atoi-decimal n h)
  where
    go : (s : Bytes) → is_empty s ≡ false → atoi s ≡ some n → count_number s ≡ ok n
    go [] e k = ground (arith, e)
    go (c ∷ s) e k =
        ap
          (λ o. elim o as (λ x. Parsed ℕ) [
            | none ↦ err (ascii "Git returned an invalid hunk count")
            | some m ↦ ok m
          ])
          k

-- A count with its comma; git omits a count of 1.
abbrev counted : ℕ → Bytes → Bytes
counted count rest = if count == 1 then rest else b',' ∷ (decimal count ++ rest)

-- The header of a hunk, as git prints it
abbrev behind_new : ℕ → Bytes → Bytes
behind_new count heading = counted count (ascii " @@" ++ heading)

abbrev behind_old : ℕ → ℕ → ℕ → Bytes → Bytes
behind_old old_count start count heading =
    counted old_count (ascii " +" ++ (decimal start ++ behind_new count heading))

pub header : ℕ → ℕ → ℕ → ℕ → Bytes → Bytes
header old_start old_count start count heading =
    ascii "@@ -" ++ (decimal old_start ++ behind_old old_count start count heading)

-- The digits that are read of a count
abbrev count_digits : ℕ → Bytes
count_digits count = if count == 1 then [] else decimal count

counted-NoDigit : (n : ℕ) (s : Bytes) → NoDigit s → NoDigit (counted n s)
counted-NoDigit n s h = elim (Bool-cases (n == 1)) [
  | inl e ↦ rw e h
  | inr e ↦ rw e (no_digit b',' _ (omega arith))
]

optional_count-counted :
    (n c : ℕ) (s : Bytes)
    → c < 44
    → optional_count (counted n (c ∷ s)) ≡ some (count_digits n, c ∷ s)
optional_count-counted n c s h = elim (Bool-cases (n == 1)) [
  | inl e ↦ rw e (ground (arith, h))
  | inr e ↦ rw e (some_digits-decimal n (c ∷ s) (no_digit c s (omega (arith, h))))
]

hunk_header-header :
    (a b c d : ℕ) (heading : Bytes)
    → ends_line heading ≡ true
    → hunk_header (header a b c d heading) ≡ some (decimal c, count_digits d)
unfolding hunk_header header
hunk_header-header a b c d heading e =
    let new = ascii " @@" ++ heading in
    let old = ascii " +" ++ (decimal c ++ counted d new) in
    rw (expect-append (ascii "@@ -") (decimal a ++ counted b old)) (
      rw
        (some_digits-decimal a (counted b old)
          (counted-NoDigit b old (no_digit 32 _ (omega arith))))
        (rw (optional_count-counted b 32 (b'+' ∷ (decimal c ++ counted d new)) (omega arith)) (
          rw (expect-append (ascii " +") (decimal c ++ counted d new)) (
            rw
              (some_digits-decimal c (counted d new)
                (counted-NoDigit d new (no_digit 32 _ (omega arith))))
              (rw (optional_count-counted d 32 (b'@' ∷ b'@' ∷ heading) (omega arith))
                (rw (expect-append (ascii " @@") heading) (rw e refl)))))))

count_number-count_digits : (n : ℕ) → n ≤ max_int → count_number (count_digits n) ≡ ok n
count_number-count_digits n h = elim (Bool-cases (n == 1)) [
  | inl e ↦ rw e (ap ok (ground (arith, e)))
  | inr e ↦ rw e (count_number-decimal n h)
]

-- A header of a hunk as git prints it, where it omits a count of 1, with a new start and count that
-- an int holds, and a heading on its line, is read as its new start and its new count.
pub hunk_numbers-header :
    (old_start old_count start count : ℕ) (heading : Bytes)
    → start ≤ max_int
    → count ≤ max_int
    → ends_line heading ≡ true
    → hunk_numbers (header old_start old_count start count heading) ≡ ok (start, count)
unfolding hunk_numbers
hunk_numbers-header a b c d heading h k e =
    ap numbers_of (hunk_header-header a b c d heading e)
    ∙ ground (arith, atoi-decimal c h, count_number-count_digits d k)
