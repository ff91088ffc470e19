-- ===== src/Prelude/Exists.antt =====
-- A Boolean search of a list.
use mathlib.Core.Path.{◌≡◌, refl, sym, ◌∙◌}
use mathlib.Core.Bool.{Bool, true, false}
use mathlib.Core.List.{List, [], ◌∷◌, Memᴰ}
use native.Mathlib.Omega.{arith}
use togi.Prelude.{◌||◌, Bool-cases, inl, inr, ◌↔◌, ap}
use togi.Prelude.Sort.{sort, insert}

module _ {ℓ} {A : Type ℓ} where
  unfoldable pub exists : (A → Bool) → List A → Bool
  exists p [] = false
  exists p (x ∷ xs) = p x || exists p xs

  found : (p : A → Bool) (xs : List A) → exists p xs ≡ true → (x : A) × Memᴰ x xs × (p x ≡ true)
  unfolding exists
  found p [] h = ground (arith, h)
  found p (x ∷ xs) h = elim (Bool-cases (p x)) [
    | inl e ↦ (x, Memᴰ.head refl, e)
    | inr e ↦ let (y, m, k) = found p xs (ground (arith, h, e)) in (y, Memᴰ.tail m, k)
  ]

  seen : (p : A → Bool) (xs : List A) (x : A) → Memᴰ x xs → p x ≡ true → exists p xs ≡ true
  unfolding exists
  seen p [] x m k = elim m [ ]
  seen p (y ∷ xs) x (Memᴰ.head e) k =
      let same : p y ≡ true = sym (ap p e) ∙ k in ground (arith, same)
  seen p (y ∷ xs) x (Memᴰ.tail m) k = ground (arith, seen p xs x m k)

  pub exists_iff :
      (p : A → Bool) (xs : List A) → (exists p xs ≡ true) ↔ (x : A) × Memᴰ x xs × (p x ≡ true)
  exists_iff p xs = (found p xs, λ h. seen p xs h.0 h.1 h.2)

  exists-insert :
      (p : A → Bool) (less : A → A → Bool) (x : A) (xs : List A)
      → exists p (insert less x xs) ≡ exists p (x ∷ xs)
  unfolding exists insert
  exists-insert p less x [] = refl
  exists-insert p less x (y ∷ xs) = elim (Bool-cases (less y x)) [
    | inl e ↦ rw e (ground (arith, exists-insert p less x xs))
    | inr e ↦ rw e refl
  ]

  pub exists-sort :
      (p : A → Bool) (less : A → A → Bool) (xs : List A) → exists p (sort less xs) ≡ exists p xs
  unfolding exists sort
  exists-sort p less [] = refl
  exists-sort p less (x ∷ xs) =
      exists-insert p less x (sort less xs) ∙ ground (arith, exists-sort p less xs)
