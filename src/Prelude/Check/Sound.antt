-- ===== src/Prelude/Check/Sound.antt =====
-- What is known of the value that a check goes on with, and of the result that it ends with.
use mathlib.Core.Path.{◌≡◌, refl}
use mathlib.Core.Bool.{Bool, true, false}
use mathlib.Core.Option.{Option, none, some}
use togi.Prelude.Check.{
  Passage, onward, refuse, Check, go_on, ◌>>=◌, ◌>>◌, give, call, refuse_with, require, of_option,
  with_refusal, explain,
}

abbrev pub Holds : {R A : Type 0} → (R → Type 0) → (A → Type 0) → Passage R A → Type 0
Holds Refused Q (onward a) = Q a
Holds Refused Q (refuse r) = Refused r

module _ {W R : Type 0} (Refused : R → Type 0) where
  pub record Sound {A : Type 0} (Q : A → Type 0) (m : Check W R A) : Type 0 where
    pub at : (w : W) → Holds Refused Q (m w).0

  pub Sound-bind :
      {A B : Type 0} (P : A → Type 0) (Q : B → Type 0) (m : Check W R A) (f : A → Check W R B)
      → Sound P m
      → ((a : A) → P a → Sound Q (f a))
      → Sound Q (m >>= f)
  unfolding ◌>>=◌
  Sound-bind {A} P Q m f sm sf = record { at = λ w. go (m w).0 (m w).1 (sm.at w) }
    where
      go : (p : Passage R A) (w' : W) → Holds Refused P p → Holds Refused Q (go_on p f w').0
      go (onward a) w' h = (sf a h).at w'
      go (refuse r) w' h = h

  pub Sound-then :
      {B : Type 0} (P : Type 0) (Q : B → Type 0) (m : Check W R (Unit {0})) (k : Check W R B)
      → Sound (λ _. P) m
      → (P → Sound Q k)
      → Sound Q (m >> k)
  unfolding ◌>>◌
  Sound-then P Q m k sm sk = Sound-bind (λ _. P) Q m (λ _. k) sm (λ _ p. sk p)

  pub Sound-give : {A : Type 0} (Q : A → Type 0) (a : A) → Q a → Sound Q (give a)
  unfolding give
  Sound-give Q a q = record { at = λ w. q }

  -- A call's value is one that the call gives in some world.
  pub Sound-call : {A : Type 0} (f : W → A × W) → Sound (λ a. (w : W) × ((f w).0 ≡ a)) (call f)
  unfolding call
  Sound-call f = record { at = λ w. (w, refl) }

  pub Sound-refuse : {A : Type 0} (Q : A → Type 0) (r : R) → Refused r → Sound Q (refuse_with r)
  unfolding refuse_with
  Sound-refuse Q r h = record { at = λ w. h }

  pub Sound-require : (b : Bool) (r : R) → Refused r → Sound (λ _. b ≡ true) (require b r)
  unfolding require
  Sound-require true r h = Sound-give (λ _. true ≡ true) tt refl
  Sound-require false r h = Sound-refuse (λ _. false ≡ true) r h

  pub Sound-of_option :
      {A : Type 0} (o : Option A) (r : R) → Refused r → Sound (λ a. o ≡ some a) (of_option o r)
  unfolding of_option
  Sound-of_option (some a) r h = Sound-give (λ x. some a ≡ some x) a refl
  Sound-of_option none r h = Sound-refuse (λ x. none ≡ some x) r h

  pub Sound-weaken :
      {A : Type 0} (P Q : A → Type 0) (m : Check W R A)
      → ((a : A) → P a → Q a)
      → Sound P m
      → Sound Q m
  Sound-weaken {A} P Q m f s = record { at = λ w. go (m w).0 (s.at w) }
    where
      go : (p : Passage R A) → Holds Refused P p → Holds Refused Q p
      go (onward a) h = f a h
      go (refuse r) h = h

  pub Sound-explain :
      {A : Type 0} (Q : A → Type 0) (f : R → R) (m : Check W R A)
      → ((r : R) → Refused r → Refused (f r))
      → Sound Q m
      → Sound Q (explain f m)
  unfolding explain
  Sound-explain {A} Q f m g s = record { at = λ w. go (m w).0 (s.at w) }
    where
      go : (p : Passage R A) → Holds Refused Q p → Holds Refused Q (with_refusal f p)
      go (onward a) h = h
      go (refuse r) h = g r h

-- Nothing is asked of a refusal.
module _ {W R : Type 0} where
  abbrev pub Sure : {A : Type 0} → (A → Type 0) → Check W R A → Type 0
  Sure Q m = Sound {W = W} {R = R} (λ _. Unit) Q m

  pub Sure-any : {A : Type 0} (m : Check W R A) → Sure (λ _. Unit) m
  Sure-any {A} m = record { at = λ w. go (m w).0 }
    where
      go : (p : Passage R A) → Holds (λ _. Unit) (λ _. Unit) p
      go (onward a) = tt
      go (refuse r) = tt
