-- ===== src/Text/Split.antt =====
-- strings.Split by one byte, and its inverse.
pub mod Joined
use togi.Prelude.{ℕ, ◌≡◌, refl, List, [], ◌∷◌, ◌==◌, if◌then◌else◌}
use togi.Text.{Bytes, ascii}

-- Puts a byte in front of the first part.
abbrev pub push_first : ℕ → List Bytes → List Bytes
push_first c [] = (c ∷ []) ∷ []
push_first c (w ∷ ws) = (c ∷ w) ∷ ws

-- strings.Split(s, sep), which has a part before, between and after the separators.
unfoldable pub split : ℕ → Bytes → List Bytes
split sep [] = [] ∷ []
split sep (c ∷ s) = if c == sep then [] ∷ split sep s else push_first c (split sep s)

split_test : split b'/' (ascii "a//b/") ≡ ascii "a" ∷ [] ∷ ascii "b" ∷ [] ∷ []
unfolding split
split_test = refl
