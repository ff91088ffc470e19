-- ===== src/Flywheel/Engine/Batch.antt =====
-- internal/flywheel/engine.go: `executeBatch`, at most two attempts at one batch.
use togi.Prelude.{
  ℕ, zero, suc, ◌+◌, Bool, not, ◌||◌, Option, none, some, [], ◌++◌, ◌==◌, if◌then◌else◌,
}
use togi.Text.{Bytes, ascii}
use togi.Flywheel.Rails.{rail_error_text}
use togi.Flywheel.Plan.{batch_stuck}
use togi.Flywheel.Engine.Ports.{Ports, written, write_failed, Outcome, errored, max_attempts}
use togi.Flywheel.Engine.State.{
  State, set_semantic, act, persist, engine_outcome, attempt_admission, rail_kind, stop_for_context,
}
use togi.Flywheel.Engine.Step.{
  AttemptResult, succeeded, semantic_failed, infrastructure_failed, stopped, Step, next, stop,
}
use togi.Flywheel.Engine.Attempt.{fail_and_reset, run_attempt, update_batch}

-- What follows an attempt: the batch is over, with the outcome that stops the engine if there is
-- one, or another attempt is made with the failure of this one.
pub data AfterAttempt : Type 0 where
  finished : Option Outcome → AfterAttempt
  again : Bytes → AfterAttempt

abbrev pub result_of : Step (Unit {0}) → AttemptResult
result_of (next _) = succeeded
result_of (stop r) = r

module _ (sha256 : Bytes → Bytes) (P : Ports) where
  abbrev halted : Outcome × State P → AfterAttempt × State P
  halted (o, st) = (finished (some o), st)

  abbrev set_stuck : ℕ → State P → State P
  set_stuck index st = record st {
    plan = record (st.plan) {
      batches = update_batch index (λ b. record b { status = batch_stuck }) st.plan.batches;
    };
  }

  -- `abortSemantic`: the outcome that it stops with, if any
  unfoldable pub abort_semantic : ℕ → ℕ → Bytes → State P → Option Outcome × State P
  abort_semantic index number failure st =
      let (reset, st1) = fail_and_reset sha256 P index number failure st in
      elim reset [
        | some text ↦ let (o, st2) = engine_outcome P errored [] text st1 in (some o, st2)
        | none ↦
            if number == max_attempts
            then (let (w, st2) = persist P (set_stuck index st1) in
                elim w [
                  | written ↦ (none, st2)
                  | write_failed text _ ↦
                      let (o, st3) =
                        engine_outcome P errored [] (ascii "write stuck plan: " ++ text) st2 in
                      (some o, st3)
                ])
            else (none, st1)
      ]

  -- Where the attempt's changes were undone: on to the next attempt, or the batch is stuck.
  abbrev after_semantic : ℕ → Bytes → State P → AfterAttempt × State P
  after_semantic number failure st =
      if number == max_attempts then (finished none, st) else (again failure, st)

  unfoldable pub settle_semantic : ℕ → ℕ → Bytes → Bool → State P → AfterAttempt × State P
  settle_semantic index number failure stop_if_cancelled st =
      let (aborted, st1) = abort_semantic index number failure st in
      elim aborted [
        | some o ↦ (finished (some o), st1)
        | none ↦
            if stop_if_cancelled
            then (let (end, st2) = act P P.context_err st1 in
                elim end [
                  | some _ ↦ halted (engine_outcome P errored [] failure st2)
                  | none ↦ after_semantic number failure st2
                ])
            else after_semantic number failure st1
      ]

  -- The `switch` on an attempt's result.
  unfoldable pub settle : ℕ → ℕ → AttemptResult → State P → AfterAttempt × State P
  settle index number succeeded st = (finished none, st)
  settle index number (stopped o) st = (finished (some o), st)
  settle index number (semantic_failed failure stop_if_cancelled) st =
      settle_semantic index number failure stop_if_cancelled st
  settle index number (infrastructure_failed failure findings retryable) st =
      let (reset, st1) = fail_and_reset sha256 P index number failure st in
      elim reset [
        | some text ↦ halted (engine_outcome P errored findings text st1)
        | none ↦
            if not retryable || number == max_attempts
            then halted (engine_outcome P errored findings failure st1)
            else (again failure, st1)
      ]

  -- The body of the loop of `executeBatch`.
  unfoldable pub try_attempt : ℕ → ℕ → Bytes → State P → AfterAttempt × State P
  try_attempt index number retry_failure st =
      let (early, st1) = stop_for_context P st in
      elim early [
        | some o ↦ (finished (some o), st1)
        | none ↦
            let (refusal, st2) = attempt_admission P st1 in
            elim refusal [
              | some e ↦ halted (engine_outcome P (rail_kind P e) [] (rail_error_text e) st2)
              | none ↦
                  let (late, st3) = stop_for_context P (set_semantic P index [] st2) in
                  elim late [
                    | some o ↦ (finished (some o), st3)
                    | none ↦
                        let (result, st4) = run_attempt sha256 P index number retry_failure st3 in
                        settle index number (result_of result) st4
                  ]
            ]
      ]

  -- `left` attempts may still be made.
  unfoldable pub attempts_from : ℕ → ℕ → ℕ → Bytes → State P → Option Outcome × State P
  attempts_from index zero number retry_failure st = (none, st)
  attempts_from index (suc left) number retry_failure st =
      let (after, st') = try_attempt index number retry_failure st in
      elim after [
        | finished o ↦ (o, st')
        | again failure ↦ attempts_from index left (number + 1) failure st'
      ]

  unfoldable pub execute_batch : ℕ → State P → Option Outcome × State P
  execute_batch index st = attempts_from index max_attempts 1 [] st
