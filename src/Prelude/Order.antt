-- ===== src/Prelude/Order.antt =====
-- Strict orders given by a Boolean test, as Go's `less` functions are, and how ladders of
-- `if left.f != right.f { return left.f < right.f }` combine them.
use mathlib.Core.Path.{◌≡◌, refl, sym, ◌∙◌}
use mathlib.Core.Bool.{Bool, true, false}
use mathlib.Core.Logic.{◌↔◌, ◌⊎◌, inl, inr}
use native.Mathlib.Omega.{arith}
use togi.Prelude.Tests.{if◌then◌else◌, Bool-cases, ltb, ◌==◌}
use togi.Prelude.Int.{ltb_ℤ, eqb_ℤ, eqb_ℤ_iff}

-- "not less" is transitive and "less" is asymmetric: what a sort needs.
pub record IsWeakOrder {ℓ} {A : Type ℓ} (less : A → A → Bool) : Type ℓ where
  pub asym : (a b : A) → less a b ≡ true → less b a ≡ false
  pub not_less_trans : (a b c : A) → less b a ≡ false → less c b ≡ false → less c a ≡ false

-- A strict total order with its equality test.
pub record IsStrictOrder {ℓ} {A : Type ℓ} (eqb less : A → A → Bool) : Type ℓ where
  pub eqb_iff : (a b : A) → (eqb a b ≡ true) ↔ (a ≡ b)
  pub irrefl : (a : A) → less a a ≡ false
  pub trans : (a b c : A) → less a b ≡ true → less b c ≡ true → less a c ≡ true
  pub total : (a b : A) → less a b ≡ false → less b a ≡ false → a ≡ b

module _ {ℓ} {A : Type ℓ} {eqb less : A → A → Bool} (o : IsStrictOrder eqb less) where
  pub eqb_refl : (a : A) → eqb a a ≡ true
  eqb_refl a = (o.eqb_iff a a).1 refl

  pub less_asym : (a b : A) → less a b ≡ true → less b a ≡ false
  less_asym a b h = elim (Bool-cases (less b a)) [
    | inl k ↦ cc (o.trans a b a h k, o.irrefl a)
    | inr k ↦ k
  ]

  pub not_less : (a b : A) → less b a ≡ false → (less a b ≡ true) ⊎ (a ≡ b)
  not_less a b h = elim (Bool-cases (less a b)) [ inl k ↦ inl k | inr k ↦ inr (o.total a b k h) ]

  pub less-eqb : (a b : A) → less a b ≡ true → eqb a b ≡ false
  less-eqb a b h = elim (Bool-cases (eqb a b)) [
    | inl k ↦ cc ((o.eqb_iff a b).0 k, o.irrefl a, h)
    | inr k ↦ k
  ]

  pub strict-IsWeakOrder : IsWeakOrder less
  strict-IsWeakOrder = record {
    asym = less_asym;
    not_less_trans = λ a b c h k. elim (not_less a b h) [
      | inl ab ↦ elim (not_less b c k) [
        | inl bc ↦ less_asym a c (o.trans a b c ab bc)
        | inr e ↦ cc (less_asym a b ab)
      ]
      | inr e ↦ cc
    ];
  }

-- `if left.f != right.f { return left.f < right.f }; …rest…`
module _ {ℓ κ} {A : Type ℓ} {K : Type κ} where
  abbrev pub by_key : (K → K → Bool) → (K → K → Bool) → (A → K) → (A → A → Bool) → A → A → Bool
  by_key eqb less key rest a b = if eqb (key a) (key b) then rest a b else less (key a) (key b)

  pub by_key-asym :
      (eqb less : K → K → Bool) (key : A → K) (rest : A → A → Bool)
      → IsStrictOrder eqb less
      → IsWeakOrder rest
      → (a b : A) → by_key eqb less key rest a b ≡ true
      → by_key eqb less key rest b a ≡ false
  by_key-asym eqb less key rest o w a b h = elim (Bool-cases (eqb (key a) (key b))) [
    | inl e ↦
        let k : eqb (key b) (key a) ≡ true =
          (o.eqb_iff (key b) (key a)).1 (sym ((o.eqb_iff (key a) (key b)).0 e)) in
        rw k (w.asym a b (rw e at h))
    | inr n ↦
        let k : less (key b) (key a) ≡ false = less_asym o (key a) (key b) (rw n at h) in
        let m : eqb (key b) (key a) ≡ false = less_eqb_flip o (key a) (key b) (rw n at h) in rw m k
  ]
    where
      less_eqb_flip : IsStrictOrder eqb less → (x y : K) → less x y ≡ true → eqb y x ≡ false
      less_eqb_flip s x y l = elim (Bool-cases (eqb y x)) [
        | inl e ↦ cc ((s.eqb_iff y x).0 e, s.irrefl x, l)
        | inr e ↦ e
      ]

  -- Of two keys, `by_key` is not less exactly where the keys are in order or tie.
  by_key_not_less :
      (eqb less : K → K → Bool) (key : A → K) (rest : A → A → Bool)
      → IsStrictOrder eqb less
      → (a b : A) → by_key eqb less key rest b a ≡ false
      → (less (key a) (key b) ≡ true) ⊎ ((key b ≡ key a) × (rest b a ≡ false))
  by_key_not_less eqb less key rest o a b h = elim (Bool-cases (eqb (key b) (key a))) [
    | inl e ↦ inr ((o.eqb_iff (key b) (key a)).0 e, rw e at h)
    | inr n ↦ elim (not_less o (key a) (key b) (rw n at h)) [
      | inl l ↦ inl l
      | inr e ↦ cc ((o.eqb_iff (key b) (key a)).1 (sym e), n)
    ]
  ]

  by_key_lt :
      (eqb less : K → K → Bool) (key : A → K) (rest : A → A → Bool)
      → IsStrictOrder eqb less
      → (a c : A) → less (key a) (key c) ≡ true
      → by_key eqb less key rest c a ≡ false
  by_key_lt eqb less key rest o a c l =
      let n : eqb (key c) (key a) ≡ false = elim (Bool-cases (eqb (key c) (key a))) [
        | inl e ↦ cc ((o.eqb_iff (key c) (key a)).0 e, o.irrefl (key a), l)
        | inr e ↦ e
      ] in
      rw n (less_asym o (key a) (key c) l)

  pub by_key-IsWeakOrder :
      (eqb less : K → K → Bool) (key : A → K) (rest : A → A → Bool)
      → IsStrictOrder eqb less
      → IsWeakOrder rest
      → IsWeakOrder (by_key eqb less key rest)
  by_key-IsWeakOrder eqb less key rest o w = record {
    asym = by_key-asym eqb less key rest o w;
    not_less_trans = λ a b c h k. elim (by_key_not_less eqb less key rest o a b h) [
      | inl ab ↦ elim (by_key_not_less eqb less key rest o b c k) [
        | inl bc ↦ by_key_lt eqb less key rest o a c (o.trans (key a) (key b) (key c) ab bc)
        | inr e ↦ by_key_lt eqb less key rest o a c (rw e.0 ab)
      ]
      | inr d ↦ elim (by_key_not_less eqb less key rest o b c k) [
        | inl bc ↦ by_key_lt eqb less key rest o a c (rw d.0 at bc)
        | inr e ↦ rw ((o.eqb_iff (key c) (key a)).1 (e.0 ∙ d.0)) (w.not_less_trans a b c d.1 e.1)
      ]
    ];
  }

pub nat-IsStrictOrder : IsStrictOrder ◌==◌ ltb
nat-IsStrictOrder = record {
  eqb_iff = λ a b. ground arith;
  irrefl = λ a. ground arith;
  trans = λ a b c h k. ground arith;
  total = λ a b h k. ground arith;
}

pub int-IsStrictOrder : IsStrictOrder eqb_ℤ ltb_ℤ
int-IsStrictOrder = record {
  eqb_iff = eqb_ℤ_iff;
  irrefl = λ a. ground arith;
  trans = λ a b c h k. ground arith;
  total = λ a b h k. ground arith;
}
