-- ===== src/Flywheel/Plan/Distinct.antt =====
-- internal/flywheel/plan.go: findings in order, no two of them with one fingerprint.
use togi.Prelude.{
  ℕ, ◌≡◌, refl, sym, ap, ◌∙◌, Bool, true, false, Bool-cases, inl, inr, none, List, [], ◌∷◌, ◌++◌,
  arith, All, All-append_left, All-append_right,
}
use togi.Prelude.Order.{IsWeakOrder, by_key-IsWeakOrder, int-IsStrictOrder, strict-IsWeakOrder}
use togi.Prelude.Int.{ltb_ℤ, eqb_ℤ}
use togi.Prelude.Sort.{sort, insert, IsSorted, All-insert, All-sort}
use togi.Text.{Bytes, bytes_eqb, bytes_ltb, mem_bytes}
use togi.Text.Order.{bytes_eqb_iff, bytes-IsStrictOrder}
use togi.Finding.{Finding}
use togi.Finding.Group.{GroupResult, grouped, invalid, panicked}
use togi.Flywheel.Plan.{regrouped, less_plan_finding}

-- Lists that are sorted already.
module _ {ℓ} {A : Type ℓ} (less : A → A → Bool) where
  insert-front : (x : A) (xs : List A) → All (λ y. less y x ≡ false) xs → insert less x xs ≡ x ∷ xs
  unfolding insert
  insert-front x [] h = refl
  insert-front x (y ∷ xs) h = rw h.0 refl

  pub sort-sorted : (xs : List A) → IsSorted less xs → sort less xs ≡ xs
  unfolding sort
  sort-sorted [] h = refl
  sort-sorted (x ∷ xs) h = ap (insert less x) (sort-sorted xs h.1) ∙ insert-front x xs h.0

pub All-split :
    {A : Type 0} (P : A → Type 0) (xs ys : List A) → All P (xs ++ ys) → All P xs × All P ys
All-split P xs ys h = (All-append_left P xs ys h, All-append_right P xs ys h)

pub IsSorted-split :
    (less : Finding → Finding → Bool) (xs ys : List Finding)
    → IsSorted less (xs ++ ys)
    → IsSorted less xs × IsSorted less ys
IsSorted-split less [] ys h = (tt, h)
IsSorted-split less (x ∷ xs) ys h =
    let (a, b) = IsSorted-split less xs ys h.1 in
    (((All-split (λ y. less y x ≡ false) xs ys h.0).0, a), b)

fingerprint-IsWeakOrder :
    IsWeakOrder {A = Finding} (λ left right. bytes_ltb left.fingerprint right.fingerprint)
fingerprint-IsWeakOrder = record {
  asym = λ a b h. (strict-IsWeakOrder bytes-IsStrictOrder).asym a.fingerprint b.fingerprint h;
  not_less_trans = λ a b c h k.
      (strict-IsWeakOrder bytes-IsStrictOrder).not_less_trans a.fingerprint b.fingerprint
        c.fingerprint h k;
}

pub less_plan_finding-IsWeakOrder : IsWeakOrder less_plan_finding
unfolding less_plan_finding
less_plan_finding-IsWeakOrder =
    by_key-IsWeakOrder bytes_eqb bytes_ltb (λ f. f.file) _ bytes-IsStrictOrder
      (by_key-IsWeakOrder eqb_ℤ ltb_ℤ (λ f. f.line) _ int-IsStrictOrder
        (by_key-IsWeakOrder bytes_eqb bytes_ltb (λ f. f.gate) _ bytes-IsStrictOrder
          (by_key-IsWeakOrder bytes_eqb bytes_ltb (λ f. f.rule_id) _ bytes-IsStrictOrder
            fingerprint-IsWeakOrder)))

-- No two of the findings have one fingerprint.
abbrev Differs : Finding → Finding → Type 0
Differs f g = bytes_eqb f.fingerprint g.fingerprint ≡ false

Differs-sym : (f g : Finding) → Differs f g → Differs g f
Differs-sym f g d = elim (Bool-cases (bytes_eqb g.fingerprint f.fingerprint)) [
  | inl e ↦
      let back : bytes_eqb f.fingerprint g.fingerprint ≡ true =
        (bytes_eqb_iff f.fingerprint g.fingerprint).1
          (sym ((bytes_eqb_iff g.fingerprint f.fingerprint).0 e)) in
      ground (arith, back, d)
  | inr e ↦ e
]

unfoldable pub AreDistinct : List Finding → Type 0
AreDistinct [] = Unit
AreDistinct (f ∷ fs) = All (Differs f) fs × AreDistinct fs

AreDistinct-insert :
    (less : Finding → Finding → Bool) (f : Finding) (fs : List Finding)
    → All (Differs f) fs
    → AreDistinct fs
    → AreDistinct (insert less f fs)
unfolding insert AreDistinct
AreDistinct-insert less f [] d h = (tt, tt)
AreDistinct-insert less f (g ∷ fs) d h = elim (Bool-cases (less g f)) [
  | inl e ↦ rw e (
    All-insert (Differs g) less f fs (Differs-sym f g d.0) h.0,
    AreDistinct-insert less f fs d.1 h.1,
  )
  | inr e ↦ rw e (d, h)
]

pub AreDistinct-sort :
    (less : Finding → Finding → Bool) (fs : List Finding)
    → AreDistinct fs
    → AreDistinct (sort less fs)
unfolding sort AreDistinct
AreDistinct-sort less [] h = tt
AreDistinct-sort less (f ∷ fs) h =
    AreDistinct-insert less f (sort less fs) (All-sort (Differs f) less fs h.0)
      (AreDistinct-sort less fs h.1)

pub AreDistinct-split :
    (xs ys : List Finding) → AreDistinct (xs ++ ys) → AreDistinct xs × AreDistinct ys
unfolding AreDistinct
AreDistinct-split [] ys h = (tt, h)
AreDistinct-split (x ∷ xs) ys h =
    let (a, b) = AreDistinct-split xs ys h.1 in (((All-split (Differs x) xs ys h.0).0, a), b)

-- No finding has one of the fingerprints.
abbrev pub IsNew : List Bytes → Finding → Type 0
IsNew seen f = mem_bytes f.fingerprint seen ≡ false

pub IsNew-tail :
    (f : Finding) (seen : List Bytes) (fs : List Finding)
    → All (IsNew (f.fingerprint ∷ seen)) fs
    → All (IsNew seen) fs × All (Differs f) fs
unfolding mem_bytes
IsNew-tail f seen [] h = (tt, tt)
IsNew-tail f seen (g ∷ fs) h =
    let (a, b) = IsNew-tail f seen fs h.1 in
    let differs : Differs g f = ground (arith, h.0) in
    ((ground (arith, h.0), a), (Differs-sym g f differs, b))

pub IsNew-cons :
    (f : Finding) (seen : List Bytes) (fs : List Finding)
    → All (IsNew seen) fs
    → All (Differs f) fs
    → All (IsNew (f.fingerprint ∷ seen)) fs
unfolding mem_bytes
IsNew-cons f seen [] h d = tt
IsNew-cons f seen (g ∷ fs) h d =
    let differs : Differs g f = Differs-sym f g d.0 in
    (ground (arith, h.0, differs), IsNew-cons f seen fs h.1 d.1)

pub regrouped-any :
    (m n : ℕ) (f : Finding) (r : GroupResult) → regrouped m f r ≡ none → regrouped n f r ≡ none
regrouped-any m n f (grouped []) h = ground (arith, h)
regrouped-any m n f (grouped (g ∷ [])) h = ground (arith, h)
regrouped-any m n f (grouped (g ∷ k ∷ gs)) h = ground (arith, h)
regrouped-any m n f (invalid i e) h = ground (arith, h)
regrouped-any m n f panicked h = ground (arith, h)
