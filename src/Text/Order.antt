-- ===== src/Text/Order.antt =====
-- Go's order on strings is a strict total order.
use togi.Prelude.{◌≡◌, refl, ◌↔◌, true, false, [], ◌∷◌, arith}
use togi.Prelude.Order.{IsStrictOrder}
use togi.Text.{Bytes, bytes_eqb, bytes_ltb}

bytes_eqb→eq : (a b : Bytes) → bytes_eqb a b ≡ true → a ≡ b
unfolding bytes_eqb
bytes_eqb→eq [] [] h = refl
bytes_eqb→eq [] (y ∷ ys) h = cc
bytes_eqb→eq (x ∷ xs) [] h = cc
bytes_eqb→eq (x ∷ xs) (y ∷ ys) h = ground (arith, bytes_eqb→eq xs ys)

pub bytes_eqb_refl : (a : Bytes) → bytes_eqb a a ≡ true
unfolding bytes_eqb
bytes_eqb_refl [] = refl
bytes_eqb_refl (x ∷ xs) = ground (arith, bytes_eqb_refl xs)

pub bytes_eqb_iff : (a b : Bytes) → (bytes_eqb a b ≡ true) ↔ (a ≡ b)
bytes_eqb_iff a b = (bytes_eqb→eq a b, λ e. rw e (bytes_eqb_refl b))

bytes_ltb_irrefl : (a : Bytes) → bytes_ltb a a ≡ false
unfolding bytes_ltb
bytes_ltb_irrefl [] = refl
bytes_ltb_irrefl (x ∷ xs) = ground (arith, bytes_ltb_irrefl xs)

bytes_ltb_trans :
    (a b c : Bytes) → bytes_ltb a b ≡ true → bytes_ltb b c ≡ true → bytes_ltb a c ≡ true
unfolding bytes_ltb
bytes_ltb_trans [] [] c h k = cc
bytes_ltb_trans [] (y ∷ ys) [] h k = cc
bytes_ltb_trans [] (y ∷ ys) (z ∷ zs) h k = refl
bytes_ltb_trans (x ∷ xs) [] c h k = cc
bytes_ltb_trans (x ∷ xs) (y ∷ ys) [] h k = cc
bytes_ltb_trans (x ∷ xs) (y ∷ ys) (z ∷ zs) h k = ground (arith, bytes_ltb_trans xs ys zs)

bytes_ltb-total : (a b : Bytes) → bytes_ltb a b ≡ false → bytes_ltb b a ≡ false → a ≡ b
unfolding bytes_ltb
bytes_ltb-total [] [] h k = refl
bytes_ltb-total [] (y ∷ ys) h k = cc
bytes_ltb-total (x ∷ xs) [] h k = cc
bytes_ltb-total (x ∷ xs) (y ∷ ys) h k = ground (arith, bytes_ltb-total xs ys)

pub bytes-IsStrictOrder : IsStrictOrder bytes_eqb bytes_ltb
bytes-IsStrictOrder = record {
  eqb_iff = bytes_eqb_iff;
  irrefl = bytes_ltb_irrefl;
  trans = bytes_ltb_trans;
  total = bytes_ltb-total;
}
