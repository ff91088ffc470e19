-- ===== src/Text/Encode.antt =====
-- Length-prefixed encoding, as the program feeds it to its hashes: encoding/binary's
-- `BigEndian.PutUint64` of the length, then the bytes; and encoding/hex.
use togi.Prelude.{
  ℕ, ◌+◌, ◌*◌, ◌/◌, ◌%◌, ◌^◌, ◌<◌, ◌≡◌, refl, List, [], ◌∷◌, ◌++◌, arith, ltb, length,
  if◌then◌else◌, All,
}
use mathlib.Core.List.{append_assoc}
use togi.Prelude.{sym, ◌∙◌}
use togi.Text.{Bytes}

-- binary.BigEndian.PutUint64: the eight bytes of a number, the most significant first
unfoldable pub put_uint64 : ℕ → Bytes
put_uint64 n =
    (n / 2 ^ 56 % 256)
    ∷ (n / 2 ^ 48 % 256)
    ∷ (n / 2 ^ 40 % 256)
    ∷ (n / 2 ^ 32 % 256)
    ∷ (n / 2 ^ 24 % 256)
    ∷ (n / 2 ^ 16 % 256)
    ∷ (n / 2 ^ 8 % 256)
    ∷ (n % 256)
    ∷ []

-- a field: its length, then its bytes
unfoldable pub write_field : Bytes → Bytes
unfolding put_uint64
write_field s = put_uint64 (length s) ++ s

unfoldable pub write_fields : List Bytes → Bytes
unfolding write_field
write_fields [] = []
write_fields (s ∷ rest) = write_field s ++ write_fields rest

-- encoding/hex
abbrev pub hex_digit : ℕ → ℕ
hex_digit n = if ltb n 10 then 48 + n else 87 + n

unfoldable pub hex_encode : Bytes → Bytes
hex_encode [] = []
hex_encode (b ∷ bs) = hex_digit (b / 16) ∷ hex_digit (b % 16) ∷ hex_encode bs

pub length-hex_encode : (s : Bytes) → length (hex_encode s) ≡ 2 * length s
unfolding hex_encode
length-hex_encode [] = refl
length-hex_encode (b ∷ bs) = omega (arith, length-hex_encode bs)

-- A 64-bit number is read back from its eight bytes.
uint64_of_bytes :
    (n : ℕ)
    → n < 2 ^ 64
    → n / 2 ^ 56 % 256 * 2 ^ 56
        + n / 2 ^ 48 % 256 * 2 ^ 48
        + n / 2 ^ 40 % 256 * 2 ^ 40
        + n / 2 ^ 32 % 256 * 2 ^ 32
        + n / 2 ^ 24 % 256 * 2 ^ 24
        + n / 2 ^ 16 % 256 * 2 ^ 16
        + n / 2 ^ 8 % 256 * 2 ^ 8
        + n % 256
      ≡ n
uint64_of_bytes n h = omega arith

cons_injective {ℓ} : {A : Type ℓ} {x y : A} {xs ys : List A} → x ∷ xs ≡ y ∷ ys → (x ≡ y) × (xs ≡ ys)
cons_injective h = (cc, cc)

-- The eight bytes in front of two texts determine the number and the texts.
pub put_uint64_injective :
    (n m : ℕ) (s t : Bytes)
    → n < 2 ^ 64
    → m < 2 ^ 64
    → put_uint64 n ++ s ≡ put_uint64 m ++ t
    → (n ≡ m) × (s ≡ t)
unfolding put_uint64
put_uint64_injective n m s t hn hm h =
    let (e0, h0) = cons_injective h in
    let (e1, h1) = cons_injective h0 in
    let (e2, h2) = cons_injective h1 in
    let (e3, h3) = cons_injective h2 in
    let (e4, h4) = cons_injective h3 in
    let (e5, h5) = cons_injective h4 in
    let (e6, h6) = cons_injective h5 in
    let (e7, h7) = cons_injective h6 in
    (omega (arith, uint64_of_bytes n hn, uint64_of_bytes m hm, e0, e1, e2, e3, e4, e5, e6, e7), h7)

append_cancel : (s t r r' : Bytes) → length s ≡ length t → s ++ r ≡ t ++ r' → (s ≡ t) × (r ≡ r')
append_cancel [] [] r r' e h = (refl, h)
append_cancel [] (y ∷ t) r r' e h = absurd (omega arith)
append_cancel (x ∷ s) [] r r' e h = absurd (omega arith)
append_cancel (x ∷ s) (y ∷ t) r r' e h =
    let (p, q) = cons_injective h in let (u, v) = append_cancel s t r r' (omega arith) q in (cc, v)

pub write_field_injective :
    (s t r r' : Bytes)
    → length s < 2 ^ 64
    → length t < 2 ^ 64
    → write_field s ++ r ≡ write_field t ++ r'
    → (s ≡ t) × (r ≡ r')
unfolding write_field
write_field_injective s t r r' hs ht h =
    let (e, k) = put_uint64_injective (length s) (length t) (s ++ r) (t ++ r') hs ht (
      sym (append_assoc (put_uint64 (length s)) s r)
      ∙ h
      ∙ append_assoc (put_uint64 (length t)) t r') in
    append_cancel s t r r' e k

-- Encoded lists of as many fields determine the fields, and what follows them.
pub write_fields_injective :
    (xs ys : List Bytes) (r r' : Bytes)
    → length xs ≡ length ys
    → All (λ s. length s < 2 ^ 64) xs
    → All (λ s. length s < 2 ^ 64) ys
    → write_fields xs ++ r ≡ write_fields ys ++ r'
    → (xs ≡ ys) × (r ≡ r')
unfolding write_fields
write_fields_injective [] [] r r' e hx hy h = (refl, h)
write_fields_injective [] (y ∷ ys) r r' e hx hy h = absurd (omega arith)
write_fields_injective (x ∷ xs) [] r r' e hx hy h = absurd (omega arith)
write_fields_injective (x ∷ xs) (y ∷ ys) r r' e hx hy h =
    let (p, q) =
      write_field_injective x y (write_fields xs ++ r) (write_fields ys ++ r') hx.0 hy.0 (
        sym (append_assoc (write_field x) (write_fields xs) r)
        ∙ h
        ∙ append_assoc (write_field y) (write_fields ys) r') in
    let (u, v) = write_fields_injective xs ys r r' (omega arith) hx.1 hy.1 q in (cc, v)
