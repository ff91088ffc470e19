-- ===== src/Text/Utf8.antt =====
-- UTF-8 as packages strings and unicode/utf8 read it: `strings.ToValidUTF8` with U+FFFD, and the
-- bytes at which a rune starts.
use togi.Prelude.{
  ℕ, zero, suc, ◌≡◌, refl, Bool, true, false, ◌&&◌, not, [], ◌∷◌, ◌++◌, ltb, leb, ◌==◌,
  if◌then◌else◌,
}
use togi.Text.{Bytes}

abbrev is_continuation : ℕ → Bool
is_continuation b = leb 0x80 b && leb b 0xBF

-- The second bytes that may follow a first byte.
abbrev second_of_three : ℕ → ℕ → Bool
second_of_three a b =
    if a == 0xE0
    then leb 0xA0 b && leb b 0xBF
    else if a == 0xED
    then leb 0x80 b && leb b 0x9F
    else is_continuation b

abbrev second_of_four : ℕ → ℕ → Bool
second_of_four a b =
    if a == 0xF0
    then leb 0x90 b && leb b 0xBF
    else if a == 0xF4
    then leb 0x80 b && leb b 0x8F
    else is_continuation b

abbrev width2 : ℕ → ℕ → ℕ
width2 a b = if leb 0xC2 a && leb a 0xDF && is_continuation b then 2 else 0

abbrev width3 : ℕ → ℕ → ℕ → ℕ
width3 a b c =
    if leb 0xE0 a && leb a 0xEF && second_of_three a b && is_continuation c then 3 else width2 a b

abbrev width4 : ℕ → ℕ → ℕ → ℕ → ℕ
width4 a b c d =
    if leb 0xF0 a && leb a 0xF4 && second_of_four a b && is_continuation c && is_continuation d
    then 4
    else width3 a b c

-- The width of the rune that a text begins with; 0 where the first byte is invalid.
unfoldable pub rune_width : Bytes → ℕ
rune_width [] = 0
rune_width (a ∷ []) = if ltb a 0x80 then 1 else 0
rune_width (a ∷ b ∷ []) = if ltb a 0x80 then 1 else width2 a b
rune_width (a ∷ b ∷ c ∷ []) = if ltb a 0x80 then 1 else width3 a b c
rune_width (a ∷ b ∷ c ∷ d ∷ _) = if ltb a 0x80 then 1 else width4 a b c d

-- `copy` bytes of the current rune are still to be copied; `bad` says that the text before was
-- invalid, and has its replacement already.
unfoldable pub valid_from : ℕ → Bool → Bytes → Bytes
unfolding rune_width
valid_from copy bad [] = []
valid_from (suc copy) bad (a ∷ s) = a ∷ valid_from copy false s
valid_from zero bad (a ∷ s) = elim (rune_width (a ∷ s)) [
  | suc more ↦ a ∷ valid_from more false s
  | zero ↦ (if bad then [] else 0xEF ∷ 0xBF ∷ 0xBD ∷ []) ++ valid_from 0 true s
]

unfoldable pub to_valid_utf8 : Bytes → Bytes
unfolding valid_from
to_valid_utf8 s = valid_from 0 false s

-- utf8.RuneStart
abbrev pub rune_start : ℕ → Bool
rune_start b = not (leb 0x80 b && ltb b 0xC0)

valid_test :
    to_valid_utf8 (b'a' ∷ 0xFF ∷ 0xC0 ∷ b'b' ∷ 0xC3 ∷ 0xA9 ∷ [])
    ≡ b'a' ∷ 0xEF ∷ 0xBF ∷ 0xBD ∷ b'b' ∷ 0xC3 ∷ 0xA9 ∷ []
unfolding to_valid_utf8
valid_test = refl

-- utf8.Valid, with the bytes of the current rune that are still to come.
unfoldable pub utf8_valid_from : ℕ → Bytes → Bool
unfolding rune_width
utf8_valid_from more [] = true
utf8_valid_from (suc more) (a ∷ s) = utf8_valid_from more s
utf8_valid_from zero (a ∷ s) = elim (rune_width (a ∷ s)) [
  | zero ↦ false
  | suc more ↦ utf8_valid_from more s
]

unfoldable pub utf8_valid : Bytes → Bool
unfolding utf8_valid_from
utf8_valid s = utf8_valid_from 0 s
