-- ===== src/Flywheel/Engine/Step.antt =====
-- internal/flywheel/engine.go: the way `batchAttempt.run` returns early. A step either goes on with
-- a value or stops with an attempt's result; the state comes back beside both.
use togi.Prelude.{Bool, List}
use togi.Text.{Bytes}
use togi.Finding.{Finding}
use togi.Flywheel.Engine.Ports.{Ports, Outcome}
use togi.Flywheel.Engine.State.{State}

pub data AttemptResult : Type 0 where
  succeeded : AttemptResult
  -- the failure, and `stopIfCancelled`
  semantic_failed : Bytes → Bool → AttemptResult
  -- the failure, the findings, and `retryable`
  infrastructure_failed : Bytes → List Finding → Bool → AttemptResult
  stopped : Outcome → AttemptResult

pub data Step (A : Type 0) : Type 0 where
  next : A → Step A
  stop : AttemptResult → Step A

module _ (P : Ports) where
  abbrev pub Run : Type 0 → Type 0
  Run A = State P → Step A × State P

module _ {P : Ports} where
  abbrev pub continue : {A B : Type 0} → Step A → (A → Run P B) → Run P B
  continue (next a) f st = f a st
  continue (stop r) f st = (stop r, st)

  infixl 5 ◌>>=◌ ◌>>◌
  unfoldable pub ◌>>=◌ : {A B : Type 0} → Run P A → (A → Run P B) → Run P B
  ◌>>=◌ m f st = let (a, st') = m st in continue a f st'

  unfoldable pub ◌>>◌ : {B : Type 0} → Run P (Unit {0}) → Run P B → Run P B
  m >> k = m >>= λ _. k

  abbrev pub pure : {A : Type 0} → A → Run P A
  pure a st = (next a, st)

  abbrev pub halt : {A : Type 0} → AttemptResult → Run P A
  halt r st = (stop r, st)

  -- A call that cannot return early.
  abbrev pub lift : {A : Type 0} → (State P → A × State P) → Run P A
  lift f st = let (a, st') = f st in (next a, st')

  abbrev pub modify : (State P → State P) → Run P (Unit {0})
  modify f st = (next tt, f st)

  abbrev pub gets : {A : Type 0} → (State P → A) → Run P A
  gets f st = (next (f st), st)
