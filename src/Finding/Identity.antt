-- ===== src/Finding/Identity.antt =====
-- internal/finding/finding.go: what a fingerprint identifies.
use togi.Prelude.{
  ℕ, ◌+◌, ◌/◌, ◌%◌, ◌^◌, ◌<◌, ◌≡◌, refl, ap, sym, ◌∙◌, ◌↔◌, true, List, [], ◌∷◌, arith, All, length,
  ltb, if◌then◌else◌,
}
use mathlib.Core.List.{append-nil}
use togi.Text.{Bytes, ascii}
use togi.Text.Space.{fields, join}
use togi.Text.Space.Words.{join-fields_injective}
use togi.Finding.FilePath.{clean_path}
use togi.Text.Encode.{length-hex_encode, write_fields, write_fields_injective, hex_encode}
use togi.Finding.{
  Finding, identity_fields, identity_bytes, fingerprint, valid_fingerprint, hex_character, all_hex,
  normalize_file, normalize_snippet,
}

abbrev pub IsByte : ℕ → Type 0
IsByte b = b < 256

-- Field lengths are below 2^64, as Go's `len` always is.
abbrev pub FieldsFit : Finding → Type 0
FieldsFit f = All (λ (s : Bytes). length s < 2 ^ 64) (identity_fields f)

hex_digits_injective :
    (a b : ℕ)
    → (if ltb a 10 then 48 + a else 87 + a) ≡ (if ltb b 10 then 48 + b else 87 + b)
    → a < 16
    → b < 16
    → a ≡ b
hex_digits_injective a b h ha hb = ground arith

hex_encode_injective :
    (s t : Bytes) → All IsByte s → All IsByte t → hex_encode s ≡ hex_encode t → s ≡ t
unfolding hex_encode
hex_encode_injective [] [] hs ht h = refl
hex_encode_injective [] (y ∷ t) hs ht h = cc
hex_encode_injective (x ∷ s) [] hs ht h = cc
hex_encode_injective (x ∷ s) (y ∷ t) hs ht h =
    let e1 : x / 16 ≡ y / 16 =
      hex_digits_injective (x / 16) (y / 16) (cc) (omega arith) (omega arith) in
    let e2 : x % 16 ≡ y % 16 =
      hex_digits_injective (x % 16) (y % 16) (cc) (omega arith) (omega arith) in
    let e : x ≡ y = omega (arith, e1, e2) in cc (e, hex_encode_injective s t hs.1 ht.1 (cc))

-- One gate, one rule, one file, and the same words in the snippets
abbrev pub AreAlike : Finding → Finding → Type 0
AreAlike f g =
    (f.gate ≡ g.gate)
    × (f.rule_id ≡ g.rule_id)
    × (clean_path f.file ≡ clean_path g.file)
    × (fields f.snippet ≡ fields g.snippet)

first : List Bytes → Bytes
first [] = []
first (s ∷ ss) = s

rest_of : List Bytes → List Bytes
rest_of [] = []
rest_of (s ∷ ss) = ss

AreAlike-identity_fields : (f g : Finding) → identity_fields f ≡ identity_fields g → AreAlike f g
unfolding identity_fields normalize_file normalize_snippet first rest_of
AreAlike-identity_fields f g e = (
  ap first e,
  ap (λ t. first (rest_of t)) e,
  ap (λ t. first (rest_of (rest_of t))) e,
  join-fields_injective f.snippet g.snippet (ap (λ t. first (rest_of (rest_of (rest_of t)))) e),
)

identity_fields-AreAlike : (f g : Finding) → AreAlike f g → identity_fields f ≡ identity_fields g
unfolding identity_fields normalize_file normalize_snippet
identity_fields-AreAlike f g (a, b, c, d) i = a i ∷ b i ∷ c i ∷ join (ascii " ") (d i) ∷ []

module _ (sha256 : Bytes → Bytes) where
  identity_of_fingerprint :
      (f g : Finding)
      → FieldsFit f
      → FieldsFit g
      → All IsByte (sha256 (identity_bytes f))
      → All IsByte (sha256 (identity_bytes g))
      → (sha256 (identity_bytes f) ≡ sha256 (identity_bytes g)
          → identity_bytes f ≡ identity_bytes g)
      → fingerprint sha256 f ≡ fingerprint sha256 g
      → identity_fields f ≡ identity_fields g
  unfolding fingerprint
  identity_of_fingerprint f g hf hg bf bg no_collision h =
      let e : identity_bytes f ≡ identity_bytes g =
        no_collision
          (hex_encode_injective (sha256 (identity_bytes f)) (sha256 (identity_bytes g)) bf bg h) in
      (write_fields_injective (identity_fields f) (identity_fields g) [] []
        (unfold identity_fields in refl) hf hg
        (append-nil (write_fields (identity_fields f))
          ∙ (unfold identity_bytes in e)
          ∙ sym (append-nil (write_fields (identity_fields g))))).0

  -- Two findings whose hash inputs do not collide, where a digest has bytes and a length of a field is
  -- below 2^64, have one fingerprint exactly when their gates are the same, their rules are, their
  -- files are after path.Clean, and their snippets have the same words.
  pub fingerprint-identity :
      (f g : Finding)
      → FieldsFit f
      → FieldsFit g
      → All IsByte (sha256 (identity_bytes f))
      → All IsByte (sha256 (identity_bytes g))
      → (sha256 (identity_bytes f) ≡ sha256 (identity_bytes g)
          → identity_bytes f ≡ identity_bytes g)
      → (fingerprint sha256 f ≡ fingerprint sha256 g) ↔ AreAlike f g
  fingerprint-identity f g hf hg bf bg no_collision = (
    λ e. AreAlike-identity_fields f g (identity_of_fingerprint f g hf hg bf bg no_collision e),
    λ a.
        unfold fingerprint identity_bytes in
        ap (λ fs. hex_encode (sha256 (write_fields fs))) (identity_fields-AreAlike f g a),
  )

  all_hex-hex_encode : (s : Bytes) → All IsByte s → all_hex (hex_encode s) ≡ true
  unfolding hex_encode hex_character
  all_hex-hex_encode [] h = refl
  all_hex-hex_encode (b ∷ bs) h = ground (arith, all_hex-hex_encode bs)

  -- A fingerprint made from a 32-byte digest is one that `ValidFingerprint` accepts.
  pub valid_fingerprint-fingerprint :
      (f : Finding)
      → length (sha256 (identity_bytes f)) ≡ 32
      → All IsByte (sha256 (identity_bytes f))
      → valid_fingerprint (fingerprint sha256 f) ≡ true
  unfolding valid_fingerprint fingerprint
  valid_fingerprint-fingerprint f h b = ground (
    arith,
    length-hex_encode (sha256 (identity_bytes f)),
    all_hex-hex_encode (sha256 (identity_bytes f)),
  )
