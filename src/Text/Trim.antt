-- ===== src/Text/Trim.antt =====
-- strings.TrimSpace, strings.ContainsAny, and slices.Sort with slices.Compact on texts.
use togi.Prelude.{◌≡◌, refl, Bool, false, ◌||◌, List, [], ◌∷◌, if◌then◌else◌}
use togi.Prelude.Sort.{sort}
use togi.Text.{Bytes, ascii, bytes_eqb, bytes_ltb, contains_byte}
use togi.Text.Space.{is_blank, is_blank_from, space_width, trim_left_from}

unfoldable pub trim_right : Bytes → Bytes
unfolding is_blank
trim_right [] = []
trim_right (c ∷ s) = let rest = trim_right s in if is_blank (c ∷ s) then [] else c ∷ rest

unfoldable pub trim_space : Bytes → Bytes
unfolding trim_right trim_left_from
trim_space s = trim_right (trim_left_from 0 s)

unfoldable pub contains_any : Bytes → Bytes → Bool
unfolding contains_byte
contains_any s [] = false
contains_any s (c ∷ cs) = contains_byte s c || contains_any s cs

-- Of equal neighbours, one is kept.
unfoldable pub compact : List Bytes → List Bytes
unfolding bytes_eqb
compact [] = []
compact (a ∷ []) = a ∷ []
compact (a ∷ b ∷ rest) =
    let others = compact (b ∷ rest) in if bytes_eqb a b then others else a ∷ others

unfoldable pub sorted_set : List Bytes → List Bytes
unfolding compact sort
sorted_set xs = compact (sort bytes_ltb xs)

trim_test : trim_space (ascii " \t a b\n ") ≡ ascii "a b"
unfolding trim_space is_blank_from space_width
trim_test = refl
