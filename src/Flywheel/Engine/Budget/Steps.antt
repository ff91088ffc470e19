-- ===== src/Flywheel/Engine/Budget/Steps.antt =====
-- internal/flywheel/engine.go: what holds of the engine's state throughout, and of an outcome.
use togi.Prelude.{
  ℕ, ◌+◌, ◌≤◌, ◌≡◌, inl, inr, true, Option, none, some, List, [], arith, if◌then◌else◌, Bool-cases,
}
use togi.Text.{Bytes}
use togi.Finding.{Finding}
use togi.Flywheel.Rails.{
  RailError, admit_attempt, admit_landing, snapshot, observe_locked, rail_error_text,
  observe_execution_context,
}
use togi.Flywheel.Rails.Budget.{IsRunning}
use togi.Flywheel.Engine.Ports.{Ports, ContextEnd, Outcome, OutcomeKind}
use togi.Flywheel.Engine.State.{
  State, act, persist, engine_outcome, attempt_admission, landing_admission, rail_exhausted_now,
  stop_for_end, stop_for_context, stop_for_rail, rail_kind,
}
use togi.Flywheel.Engine.Step.{
  AttemptResult, stopped, Step, next, stop, Run, continue, ◌>>=◌, ◌>>◌, halt, lift, modify, gets,
  pure,
}
use togi.Flywheel.Engine.Budget.Total.{attempt_total}

-- The attempts that an outcome shows were all admitted, and as many as the limit at most.
abbrev pub IsWithin : ℕ → Outcome → Type 0
IsWithin limit o = (attempt_total o.plan.batches ≤ o.iterations) × (o.iterations ≤ limit)

abbrev pub IsWithinOption : ℕ → Option Outcome → Type 0
IsWithinOption limit none = Unit
IsWithinOption limit (some o) = IsWithin limit o

abbrev pub IsWithinStep : {A : Type 0} → ℕ → Step A → Type 0
IsWithinStep limit (next a) = Unit
IsWithinStep limit (stop (stopped o)) = IsWithin limit o
IsWithinStep limit (stop _) = Unit

-- `slack` admitted attempts are not in the plan yet.
pub record Fits {P : Ports} (limit slack : ℕ) (st : State P) : Type 0 where
  pub running : IsRunning st.rails
  pub limited : st.rails.max_iterations ≡ limit
  pub planned : attempt_total st.plan.batches + slack ≤ st.rails.iterations
  pub kept : attempt_total st.persisted.batches ≤ st.rails.iterations

module _ {P : Ports} (limit : ℕ) where
  -- A function that keeps `Fits`.
  pub record Keeps {A : Type 0} (f : State P → A × State P) : Type 0 where
    pub at : (slack : ℕ) (st : State P) → Fits limit slack st → Fits limit slack (f st).1

  -- One whose outcomes, too, are within the limit.
  pub record KeepsOutcome (f : State P → Outcome × State P) : Type 0 where
    pub at :
        (slack : ℕ) (st : State P)
        → Fits limit slack st
        → IsWithin limit (f st).0 × Fits limit slack (f st).1

  pub record KeepsOption (f : State P → Option Outcome × State P) : Type 0 where
    pub at :
        (slack : ℕ) (st : State P)
        → Fits limit slack st
        → IsWithinOption limit (f st).0 × Fits limit slack (f st).1

  pub record KeepsRun {A : Type 0} (m : Run P A) : Type 0 where
    pub at : (st : State P) → Fits limit 0 st → IsWithinStep limit (m st).0 × Fits limit 0 (m st).1

  pub Keeps-act : {A : Type 0} (port : P.World → A × P.World) → Keeps (act P port)
  Keeps-act port = record {
    at = λ slack st h. record {
      running = h.running;
      limited = h.limited;
      planned = h.planned;
      kept = h.kept;
    };
  }

  pub Keeps-persist : Keeps (persist P)
  unfolding persist
  Keeps-persist = record { at = λ slack st h. ground (arith, h) }

  pub Keeps-landing : Keeps (landing_admission P)
  unfolding landing_admission admit_landing observe_locked
  Keeps-landing = record { at = λ slack st h. ground (arith, h) }

  pub admitted :
      (st : State P)
      → Fits limit 0 st
      → let (e, st') = attempt_admission P st in (e ≡ none → Fits limit 1 st') × Fits limit 0 st'
  unfolding attempt_admission admit_attempt observe_locked
  admitted st h = (λ e. ground (arith, h), ground (arith, h))

  pub Keeps-engine_outcome :
      (kind : OutcomeKind) (fs : List Finding) (failure : Bytes)
      → KeepsOutcome (engine_outcome P kind fs failure)
  unfolding engine_outcome snapshot observe_locked
  Keeps-engine_outcome kind fs failure = record {
    at = λ slack st h. (ground (arith, h), ground (arith, h));
  }

  Keeps-exhausted_now : Keeps (rail_exhausted_now P)
  unfolding rail_exhausted_now
  Keeps-exhausted_now = record { at = λ slack st h. ground (arith, Keeps-landing.at slack st h) }

  Fits-observe_end :
      (slack : ℕ) (st : State P)
      → Fits limit slack st
      → Fits limit slack (record st { rails = observe_execution_context st.rails true })
  unfolding observe_execution_context
  Fits-observe_end slack st h = ground (arith, h)

  pub Keeps-stop_for_end : (e : ContextEnd) → KeepsOutcome (stop_for_end P e)
  unfolding stop_for_end
  Keeps-stop_for_end e = record {
    at = λ slack st h. elim (Bool-cases e.by_rail) [
      | inl b ↦ rw b (
          (Keeps-engine_outcome OutcomeKind.rails_exhausted [] e.cause).at slack
            (record st { rails = observe_execution_context st.rails true })
            (Fits-observe_end slack st h))
      | inr b ↦
          let (late, st') = rail_exhausted_now P st in
          rw b (
            (Keeps-engine_outcome
                (if late then OutcomeKind.rails_exhausted else OutcomeKind.errored) [] e.text).at
              slack st' (Keeps-exhausted_now.at slack st h))
    ];
  }

  pub Keeps-stop_for_context : KeepsOption (stop_for_context P)
  unfolding stop_for_context
  Keeps-stop_for_context = record {
    at = λ slack st h.
        let (e, st1) = act P P.context_err st in
        go slack e st1 ((Keeps-act P.context_err).at slack st h);
  }
    where
      go :
          (slack : ℕ) (e : Option ContextEnd) (st1 : State P)
          → Fits limit slack st1
          → let r : Option Outcome × State P = elim e [
            | none ↦ (none, st1)
            | some x ↦ (some (stop_for_end P x st1).0, (stop_for_end P x st1).1)
          ] in
            IsWithinOption limit r.0 × Fits limit slack r.1
      go slack none st1 h = (tt, h)
      go slack (some x) st1 h = (Keeps-stop_for_end x).at slack st1 h

  pub Keeps-stop_for_rail : KeepsOption (stop_for_rail P)
  unfolding stop_for_rail
  Keeps-stop_for_rail = record {
    at = λ slack st h.
        let (e, st1) = landing_admission P st in go slack e st1 (Keeps-landing.at slack st h);
  }
    where
      go :
          (slack : ℕ) (e : Option RailError) (st1 : State P)
          → Fits limit slack st1
          → let refuse : RailError → Outcome × State P =
              λ x. engine_outcome P (rail_kind P x) [] (rail_error_text x) st1 in
            let r : Option Outcome × State P = elim e [
              | none ↦ (none, st1)
              | some x ↦ (some (refuse x).0, (refuse x).1)
            ] in
            IsWithinOption limit r.0 × Fits limit slack r.1
      go slack none st1 h = (tt, h)
      go slack (some x) st1 h =
          (Keeps-engine_outcome (rail_kind P x) [] (rail_error_text x)).at slack st1 h

  -- The rules for `Run`.
  pub Keeps-pure : {A : Type 0} (a : A) → KeepsRun {A = A} (pure a)
  Keeps-pure a = record { at = λ st h. (tt, h) }

  pub Keeps-halt :
      {A : Type 0} (r : AttemptResult)
      → IsWithinStep {A = A} limit (stop r)
      → KeepsRun {A = A} (halt r)
  Keeps-halt r w = record { at = λ st h. (w, h) }

  pub Keeps-lift : {A : Type 0} (f : State P → A × State P) → Keeps f → KeepsRun (lift f)
  Keeps-lift f k = record { at = λ st h. (tt, k.at 0 st h) }

  pub Keeps-gets : {A : Type 0} (f : State P → A) → KeepsRun (gets f)
  Keeps-gets f = record { at = λ st h. (tt, h) }

  continue_keeps :
      {A B : Type 0} (f : A → Run P B) (a : Step A) (st : State P)
      → ((x : A) → KeepsRun (f x))
      → IsWithinStep limit a
      → Fits limit 0 st
      → IsWithinStep limit (continue a f st).0 × Fits limit 0 (continue a f st).1
  continue_keeps f (next x) st k w h = (k x).at st h
  continue_keeps f (stop AttemptResult.succeeded) st k w h = (w, h)
  continue_keeps f (stop (AttemptResult.semantic_failed t c)) st k w h = (w, h)
  continue_keeps f (stop (AttemptResult.infrastructure_failed t fs r)) st k w h = (w, h)
  continue_keeps f (stop (stopped o)) st k w h = (w, h)

  pub Keeps-bind :
      {A B : Type 0} (m : Run P A) (f : A → Run P B)
      → KeepsRun m
      → ((a : A) → KeepsRun (f a))
      → KeepsRun (m >>= f)
  unfolding ◌>>=◌
  Keeps-bind m f km kf = record {
    at = λ st h. let r = km.at st h in continue_keeps f (m st).0 (m st).1 kf r.0 r.1;
  }

  pub Keeps-then :
      {B : Type 0} (m : Run P (Unit {0})) (k : Run P B)
      → KeepsRun m
      → KeepsRun k
      → KeepsRun (m >> k)
  unfolding ◌>>◌
  Keeps-then m k km kk = Keeps-bind m (λ _. k) km (λ _. kk)

  -- An outcome that a step stops with.
  pub Keeps-stop :
      {A : Type 0} (f : State P → Outcome × State P)
      → KeepsOutcome f
      → KeepsRun {A = A} (lift f >>= λ o. halt (stopped o))
  unfolding ◌>>=◌
  Keeps-stop f k = record { at = λ st h. k.at 0 st h }

  -- A stop, if there is one, ends the attempt.
  pub Keeps-option_stop :
      {A : Type 0} (f : State P → Option Outcome × State P)
      → KeepsOption f
      → (k : Run P A) → KeepsRun k
      → KeepsRun (lift f >>= λ o. elim o [ some x ↦ halt (stopped x) | none ↦ k ])
  unfolding ◌>>=◌
  Keeps-option_stop {A} f kf k kk = record {
    at = λ st h. let r = kf.at 0 st h in go (f st).0 (f st).1 r.0 r.1;
  }
    where
      go :
          (o : Option Outcome) (st : State P)
          → IsWithinOption limit o
          → Fits limit 0 st
          → let m : Run P A = elim o [ some x ↦ halt (stopped x) | none ↦ k ] in
            IsWithinStep limit (m st).0 × Fits limit 0 (m st).1
      go none st w h = kk.at st h
      go (some x) st w h = (w, h)

  -- A run that begins by putting the admitted attempt into the plan.
  pub start_keeps :
      {A B : Type 0} (start : State P → State P) (m : Run P A) (f : A → Run P B)
      → ((st : State P) → Fits limit 1 st → Fits limit 0 (start st))
      → KeepsRun (m >>= f)
      → (st : State P) → Fits limit 1 st
      → IsWithinStep limit (((modify start >> m) >>= f) st).0
        × Fits limit 0 (((modify start >> m) >>= f) st).1
  unfolding ◌>>=◌ ◌>>◌
  start_keeps start m f k km st h = km.at (start st) (k st h)
