-- ===== src/Text/Space.antt =====
-- White space as package strings reads it in UTF-8 text: `TrimSpace` and `Fields`. A byte that
-- begins no encoded space is kept, so a scan byte by byte agrees with Go's scan by runes: the
-- bytes inside a rune are below 0xC0 and begin no space.
pub mod Words
use togi.Prelude.{
  ℕ, zero, suc, ◌≡◌, refl, Bool, true, false, ◌&&◌, ◌||◌, List, [], ◌∷◌, ◌++◌, leb, ◌==◌,
  if◌then◌else◌,
}
use togi.Text.{Bytes, ascii}

-- U+0009 to U+000D, U+0020
abbrev space1 : ℕ → Bool
space1 a = leb 9 a && leb a 13 || a == 32

-- U+0085, U+00A0
abbrev space2 : ℕ → ℕ → Bool
space2 a b = a == 0xC2 && (b == 0x85 || b == 0xA0)

-- U+1680, U+2000 to U+200A, U+2028, U+2029, U+202F, U+205F, U+3000
abbrev space3 : ℕ → ℕ → ℕ → Bool
space3 a b c =
    a == 0xE1 && b == 0x9A && c == 0x80
    || a == 0xE2 && b == 0x80 && (leb 0x80 c && leb c 0x8A || c == 0xA8 || c == 0xA9 || c == 0xAF)
    || a == 0xE2 && b == 0x81 && c == 0x9F
    || a == 0xE3 && b == 0x80 && c == 0x80

-- The number of bytes of the white space that a text begins with; 0 if it begins with none.
unfoldable pub space_width : Bytes → ℕ
space_width [] = 0
space_width (a ∷ []) = if space1 a then 1 else 0
space_width (a ∷ b ∷ []) = if space1 a then 1 else if space2 a b then 2 else 0
space_width (a ∷ b ∷ c ∷ _) =
    if space1 a then 1 else if space2 a b then 2 else if space3 a b c then 3 else 0

-- `skip` bytes of the current space are still to be passed over.
unfoldable pub trim_left_from : ℕ → Bytes → Bytes
unfolding space_width
trim_left_from skip [] = []
trim_left_from (suc skip) (a ∷ s) = trim_left_from skip s
trim_left_from zero (a ∷ s) = elim (space_width (a ∷ s)) [
  | zero ↦ a ∷ s
  | suc more ↦ trim_left_from more s
]

-- Does the text consist of white space?
unfoldable pub is_blank_from : ℕ → Bytes → Bool
unfolding space_width
is_blank_from skip [] = true
is_blank_from (suc skip) (a ∷ s) = is_blank_from skip s
is_blank_from zero (a ∷ s) = elim (space_width (a ∷ s)) [
  | zero ↦ false
  | suc more ↦ is_blank_from more s
]

-- strings.TrimSpace(s) == ""
unfoldable pub is_blank : Bytes → Bool
unfolding is_blank_from
is_blank s = is_blank_from 0 s

-- Ends the word that has been read, if there is one.
abbrev pub close_word : Bytes → List Bytes → List Bytes
close_word [] rest = rest
close_word (a ∷ w) rest = (a ∷ w) ∷ rest

-- strings.Fields, with the word read so far.
unfoldable pub fields_from : ℕ → Bytes → Bytes → List Bytes
unfolding space_width
fields_from skip word [] = close_word word []
fields_from (suc skip) word (a ∷ s) = fields_from skip word s
fields_from zero word (a ∷ s) = elim (space_width (a ∷ s)) [
  | zero ↦ fields_from zero (word ++ a ∷ []) s
  | suc more ↦ close_word word (fields_from more [] s)
]

unfoldable pub fields : Bytes → List Bytes
unfolding fields_from
fields s = fields_from 0 [] s

-- strings.Join
unfoldable pub join : Bytes → List Bytes → Bytes
join sep [] = []
join sep (w ∷ []) = w
join sep (w ∷ v ∷ ws) = w ++ sep ++ join sep (v ∷ ws)

fields_test :
    fields (ascii "  if  err != nil ") ≡ ascii "if" ∷ ascii "err" ∷ ascii "!=" ∷ ascii "nil" ∷ []
unfolding fields
fields_test = refl

wide_space_test :
    fields (b'a' ∷ 0xE3 ∷ 0x80 ∷ 0x80 ∷ b'b' ∷ 0xC2 ∷ 0xA0 ∷ []) ≡ ascii "a" ∷ ascii "b" ∷ []
unfolding fields
wide_space_test = refl

join_test : join (ascii " ") (ascii "a" ∷ ascii "b" ∷ ascii "c" ∷ []) ≡ ascii "a b c"
unfolding join
join_test = refl
