-- ===== src/Text/Split/Joined.antt =====
-- Parts that are joined by a byte, which `strings.Split` splits again.
use togi.Prelude.{
  ℕ, ◌≡◌, ◌≢◌, refl, ap, ◌∙◌, Bool-cases, inl, inr, List, [], ◌∷◌, ◌++◌, arith, All, ◌==◌,
}
use togi.Text.{Bytes}
use togi.Text.Split.{split, push_first}

abbrev pub HasNo : ℕ → Bytes → Type 0
HasNo sep = All (λ c. c ≢ sep)

-- The byte between the parts, and not behind the last.
abbrev pub joined : ℕ → Bytes → List Bytes → Bytes
joined sep r [] = r
joined sep r (s ∷ rs) = r ++ sep ∷ joined sep s rs

split-HasNo : (sep : ℕ) (r : Bytes) → HasNo sep r → split sep r ≡ r ∷ []
unfolding split
split-HasNo sep [] h = refl
split-HasNo sep (c ∷ r) h = elim (Bool-cases (c == sep)) [
  | inl e ↦ absurd (h.0 (ground (arith, e)))
  | inr e ↦ rw e (ap (push_first c) (split-HasNo sep r h.1))
]

split-append : (sep : ℕ) (r t : Bytes) → HasNo sep r → split sep (r ++ sep ∷ t) ≡ r ∷ split sep t
unfolding split
split-append sep [] t h = ground arith
split-append sep (c ∷ r) t h = elim (Bool-cases (c == sep)) [
  | inl e ↦ absurd (h.0 (ground (arith, e)))
  | inr e ↦ rw e (ap (push_first c) (split-append sep r t h.1))
]

pub split-joined :
    (sep : ℕ) (r : Bytes) (rs : List Bytes)
    → HasNo sep r
    → All (HasNo sep) rs
    → split sep (joined sep r rs) ≡ r ∷ rs
split-joined sep r [] h hs = split-HasNo sep r h
split-joined sep r (s ∷ rs) h hs =
    split-append sep r (joined sep s rs) h ∙ ap (λ t. r ∷ t) (split-joined sep s rs hs.0 hs.1)
