-- ===== src/Text/Decimal.antt =====
-- strconv.Itoa, and strconv.Atoi on texts of digits.
use togi.Prelude.{
  ℕ, zero, suc, ◌+◌, ◌-◌, ◌*◌, ◌/◌, ◌%◌, ◌^◌, ◌<◌, ◌≡◌, refl, Option, none, some, [], ◌∷◌, ◌++◌,
  arith, All, All-append, ltb, Bool-cases, inl, inr, if◌then◌else◌, ◌∙◌,
}
use togi.Prelude.Int.{ℤ, pos, negsuc}
use togi.Text.{Bytes}

-- The digits of a number; fuel above the number is enough.
unfoldable pub decimal_from : ℕ → ℕ → Bytes
decimal_from zero n = []
decimal_from (suc fuel) n =
    let rest = decimal_from fuel (n / 10) in
    if ltb n 10 then (48 + n) ∷ [] else rest ++ (48 + n % 10) ∷ []

unfoldable pub decimal : ℕ → Bytes
unfolding decimal_from
decimal n = decimal_from (suc n) n

unfoldable pub itoa : ℤ → Bytes
unfolding decimal
itoa (pos n) = decimal n
itoa (negsuc n) = b'-' ∷ decimal (suc n)

-- The number that digits stand for, behind the ones read so far.
unfoldable pub digits_value : ℕ → Bytes → ℕ
digits_value acc [] = acc
digits_value acc (c ∷ s) = digits_value (acc * 10 + (c - 48)) s

-- The greatest `int`
abbrev pub max_int : ℕ
max_int = 2 ^ 63 - 1

-- strconv.Atoi on digits: none where the number is out of range
unfoldable pub atoi : Bytes → Option ℕ
unfolding digits_value
atoi s = if ltb max_int (digits_value 0 s) then none else some (digits_value 0 s)

digits_value-append :
    (acc : ℕ) (s : Bytes) (c : ℕ)
    → digits_value acc (s ++ c ∷ []) ≡ digits_value acc s * 10 + (c - 48)
unfolding digits_value
digits_value-append acc [] c = refl
digits_value-append acc (x ∷ s) c = digits_value-append (acc * 10 + (x - 48)) s c

digits_value-decimal_from : (fuel n : ℕ) → n < fuel → digits_value 0 (decimal_from fuel n) ≡ n
unfolding decimal_from digits_value
digits_value-decimal_from zero n h = omega (arith, h)
digits_value-decimal_from (suc fuel) n h = elim (Bool-cases (ltb n 10)) [
  | inl e ↦ rw e (omega arith)
  | inr e ↦
      let big : 9 < n = ground (arith, e) in
      let ih = digits_value-decimal_from fuel (n / 10) (omega (arith, h, big)) in
      rw e (digits_value-append 0 (decimal_from fuel (n / 10)) (48 + n % 10) ∙ omega (arith, ih))
]

-- Reading the digits of a number gives the number.
pub digits_value-decimal : (n : ℕ) → digits_value 0 (decimal n) ≡ n
unfolding decimal
digits_value-decimal n = digits_value-decimal_from (suc n) n (omega arith)

-- The bytes of a printed number are the minus sign and digits.
abbrev pub IsNumeral : ℕ → Type 0
IsNumeral c = 44 < c

decimal_from-IsNumeral : (fuel n : ℕ) → All IsNumeral (decimal_from fuel n)
unfolding decimal_from
decimal_from-IsNumeral zero n = tt
decimal_from-IsNumeral (suc fuel) n = elim (Bool-cases (ltb n 10)) [
  | inl e ↦ rw e (omega arith, tt)
  | inr e ↦ rw e (
      All-append IsNumeral (decimal_from fuel (n / 10)) ((48 + n % 10) ∷ [])
        (decimal_from-IsNumeral fuel (n / 10)) (omega arith, tt))
]

pub itoa-IsNumeral : (n : ℤ) → All IsNumeral (itoa n)
unfolding itoa decimal
itoa-IsNumeral (pos n) = decimal_from-IsNumeral (suc n) n
itoa-IsNumeral (negsuc n) = (omega arith, decimal_from-IsNumeral (suc (suc n)) (suc n))
