-- ===== src/Prelude/Sort.antt =====
-- The sorts of Go's standard library: a stable sort by a `less` test. (`sort.Slice` promises less;
-- where ties could matter, the theorems say why they do not.)
use mathlib.Core.Path.{◌≡◌}
use mathlib.Core.Bool.{Bool, false}
use mathlib.Core.Logic.{inl, inr}
use mathlib.Core.List.{List, [], ◌∷◌, Perm, Memᴰ}
use mathlib.Core.List.Perm
use togi.Prelude.Tests.{if◌then◌else◌, Bool-cases}
use togi.Prelude.Lists.{All, All-imp}
use togi.Prelude.Order.{IsWeakOrder}

module _ {ℓ} {A : Type ℓ} where
  unfoldable pub insert : (A → A → Bool) → A → List A → List A
  insert less x [] = x ∷ []
  insert less x (y ∷ ys) = if less y x then y ∷ insert less x ys else x ∷ y ∷ ys

  unfoldable pub sort : (A → A → Bool) → List A → List A
  unfolding insert
  sort less [] = []
  sort less (x ∷ xs) = insert less x (sort less xs)

  -- No later element is less than an earlier one.
  abbrev pub IsSorted : (A → A → Bool) → List A → Type ℓ
  IsSorted less [] = Unit
  IsSorted less (x ∷ xs) = All (λ y. less y x ≡ false) xs × IsSorted less xs

  pub All-insert :
      (P : A → Type 0) (less : A → A → Bool) (x : A) (ys : List A)
      → P x
      → All P ys
      → All P (insert less x ys)
  unfolding insert
  All-insert P less x [] p h = (p, tt)
  All-insert P less x (y ∷ ys) p h = elim (Bool-cases (less y x)) [
    | inl e ↦ rw e (h.0, All-insert P less x ys p h.1)
    | inr e ↦ rw e (p, h)
  ]

  insert-perm : (less : A → A → Bool) (x : A) (ys : List A) → Perm (insert less x ys) (x ∷ ys)
  unfolding insert
  insert-perm less x [] = Perm.refl (x ∷ [])
  insert-perm less x (y ∷ ys) = elim (Bool-cases (less y x)) [
    | inl e ↦ rw e (Perm.trans (Perm.cons y (insert-perm less x ys)) (Perm.swap x y ys))
    | inr e ↦ rw e (Perm.refl (x ∷ y ∷ ys))
  ]

  pub sort-perm : (less : A → A → Bool) (xs : List A) → Perm (sort less xs) xs
  unfolding sort
  sort-perm less [] = Perm.refl []
  sort-perm less (x ∷ xs) =
      Perm.trans (insert-perm less x (sort less xs)) (Perm.cons x (sort-perm less xs))

  pub All-sort :
      (P : A → Type 0) (less : A → A → Bool) (xs : List A) → All P xs → All P (sort less xs)
  unfolding sort
  All-sort P less [] h = tt
  All-sort P less (x ∷ xs) h = All-insert P less x (sort less xs) h.0 (All-sort P less xs h.1)

  insert-IsSorted :
      {less : A → A → Bool} (w : IsWeakOrder less) (x : A) (ys : List A)
      → IsSorted less ys
      → IsSorted less (insert less x ys)
  unfolding insert
  insert-IsSorted w x [] h = (tt, tt)
  insert-IsSorted {less} w x (y ∷ ys) h = elim (Bool-cases (less y x)) [
    | inl e ↦ rw e (
      All-insert (λ z. less z y ≡ false) less x ys (w.asym y x e) h.0,
      insert-IsSorted w x ys h.1,
    )
    | inr e ↦ rw e (
      (
        e,
        All-imp (λ z. less z y ≡ false) (λ z. less z x ≡ false) ys
            (λ z k. w.not_less_trans x y z e k) h.0,
      ),
      h,
    )
  ]

  pub sort-IsSorted :
      {less : A → A → Bool} → IsWeakOrder less → (xs : List A) → IsSorted less (sort less xs)
  unfolding sort
  sort-IsSorted w [] = tt
  sort-IsSorted {less} w (x ∷ xs) = insert-IsSorted w x (sort less xs) (sort-IsSorted w xs)

  Memᴰ-insert :
      {a : A} (less : A → A → Bool) (x : A) (ys : List A)
      → Memᴰ a (insert less x ys)
      → Memᴰ a (x ∷ ys)
  unfolding insert
  Memᴰ-insert less x [] m = m
  Memᴰ-insert less x (y ∷ ys) m = elim (Bool-cases (less y x)) [
    | inl e ↦ swap_front (Memᴰ-insert less x ys) (rw e at m)
    | inr e ↦ rw e at m
  ]
    where
      swap_front :
          {a : A}
          → (Memᴰ a (insert less x ys) → Memᴰ a (x ∷ ys))
          → Memᴰ a (y ∷ insert less x ys)
          → Memᴰ a (x ∷ y ∷ ys)
      swap_front f (Memᴰ.head e) = Memᴰ.tail (Memᴰ.head e)
      swap_front f (Memᴰ.tail n) = elim (f n) [
        | Memᴰ.head e ↦ Memᴰ.head e
        | Memᴰ.tail k ↦ Memᴰ.tail (Memᴰ.tail k)
      ]
