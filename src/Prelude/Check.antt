-- ===== src/Prelude/Check.antt =====
-- Functions that return early: a check takes a world, and goes on with a value or ends with a result.
pub mod Sound
use mathlib.Core.Bool.{Bool}
use mathlib.Core.Option.{Option, none, some}
use togi.Prelude.Tests.{if◌then◌else◌}

pub data Passage (R A : Type 0) : Type 0 where
  onward : A → Passage R A
  refuse : R → Passage R A

abbrev pub Check : Type 0 → Type 0 → Type 0 → Type 0
Check W R A = W → Passage R A × W

abbrev pub with_refusal : {R A : Type 0} → (R → R) → Passage R A → Passage R A
with_refusal f (onward a) = onward a
with_refusal f (refuse r) = refuse (f r)

module _ {W R : Type 0} where
  abbrev pub go_on : {A B : Type 0} → Passage R A → (A → Check W R B) → W → Passage R B × W
  go_on (onward a) f w = f a w
  go_on (refuse r) f w = (refuse r, w)

  infixl 5 ◌>>=◌ ◌>>◌
  unfoldable pub ◌>>=◌ : {A B : Type 0} → Check W R A → (A → Check W R B) → Check W R B
  ◌>>=◌ m f w = let (a, w') = m w in go_on a f w'

  unfoldable pub ◌>>◌ : {B : Type 0} → Check W R (Unit {0}) → Check W R B → Check W R B
  m >> k = m >>= λ _. k

  unfoldable pub give : {A : Type 0} → A → Check W R A
  give a w = (onward a, w)

  -- A call that cannot end the function.
  unfoldable pub call : {A : Type 0} → (W → A × W) → Check W R A
  call f w = let (a, w') = f w in (onward a, w')

  unfoldable pub refuse_with : {A : Type 0} → R → Check W R A
  refuse_with r w = (refuse r, w)

  unfoldable pub require : Bool → R → Check W R (Unit {0})
  require b r = if b then give tt else refuse_with r

  unfoldable pub of_option : {A : Type 0} → Option A → R → Check W R A
  of_option o r = elim o [ some a ↦ give a | none ↦ refuse_with r ]

  -- The result that a check ends with, changed.
  unfoldable pub explain : {A : Type 0} → (R → R) → Check W R A → Check W R A
  explain f m w = let (a, w') = m w in (with_refusal f a, w')
