-- ===== src/Flywheel/Engine/Barrier.antt =====
-- internal/flywheel/engine.go: `evaluateBarrier`, the decision behind a wave of batches.
pub mod Readiness
use togi.Prelude.{
  ℕ, zero, suc, ◌+◌, Bool, true, false, not, ◌&&◌, ◌||◌, Option, none, some, List, [], ◌∷◌, ◌++◌,
  ◌==◌, leb, ltb, if◌then◌else◌, length,
}
use togi.Text.{Bytes, ascii, is_empty}
use togi.Finding.{Finding}
use togi.Flywheel.Rails.{
  Rails, rail_error_text, is_exhausted, execution_context, ExecutionContextResult, timeout_after,
  no_context,
}
use togi.Flywheel.Multiset.{Counts, strictly_shrinks}
use togi.Flywheel.Plan
use togi.Flywheel.Plan.{
  Batch, BatchStatus, batch_pending, batch_running, batch_done, batch_stuck, Plan, empty_plan,
  PlanError, PlanResult, blocking_multiset, new_plan,
}
use togi.Flywheel.Engine.Ports.{
  Ports, ValidationKind, ValidationResult, passed, semantic_failure, infrastructure_failure,
  other_kind, WriteReply, written, write_failed, ContextEnd, Outcome, OutcomeKind, ready, blocked,
  errored, rails_exhausted,
}
use togi.Flywheel.Engine.State.{
  State, act, persist, engine_outcome, landing_admission, rail_kind, stop_for_end, stop_for_context,
  stop_for_rail, outcome_findings,
}
use togi.Flywheel.Engine.Attempt.{batch_at}

-- `validateBarrierResult`
unfoldable pub validate_barrier_result : {Proof : Type 0} → ValidationResult Proof → Option Bytes
validate_barrier_result v = elim v.kind [
  | passed ↦
      if not (is_empty v.failure) then some (ascii "passed result includes a failure") else none
  | semantic_failure ↦
      if is_empty v.failure then some (ascii "semantic failure requires a reason") else none
  | infrastructure_failure ↦
      if is_empty v.failure then some (ascii "infrastructure failure requires a reason") else none
  | other_kind k ↦ some (ascii "unknown validation kind \"" ++ (k ++ ascii "\""))
]

-- What the barrier decides before the plan is written: the run ends, by the context or with a kind
-- and a failure, or a next wave begins from the blockers.
pub data Verdict : Type 0 where
  cancelled : ContextEnd → Verdict
  terminal : OutcomeKind → Bytes → Verdict
  shrunk : Counts → Verdict

pub data BarrierResult : Type 0 where
  ended : Outcome → BarrierResult
  go_on : Counts → BarrierResult

abbrev pub is_stuck : BatchStatus → Bool
is_stuck batch_stuck = true
is_stuck _ = false

-- The inner `switch` of `evaluateBarrier`.
unfoldable pub classify_barrier : ValidationKind → Bytes → Counts → Counts → Bool → Verdict
classify_barrier infrastructure_failure failure after before wave_stuck = terminal errored failure
classify_barrier semantic_failure failure after before wave_stuck = terminal blocked failure
classify_barrier _ failure after before wave_stuck =
    if wave_stuck then terminal blocked (ascii "one or more batches are stuck") else elim after [
      | [] ↦ terminal ready []
      | c ∷ cs ↦
          if not (strictly_shrinks (c ∷ cs) before)
          then terminal blocked (ascii "blocking findings did not strictly shrink")
          else shrunk (c ∷ cs)
    ]

module _ (sha256 : Bytes → Bytes) (P : Ports) where
  open P use {Proof}

  -- The checks of the barrier's own evidence.
  unfoldable pub classify_evidence : ValidationResult Proof → Counts → Bool → Verdict
  classify_evidence v before wave_stuck = elim (blocking_multiset sha256 v.findings) [
    | PlanResult.err e ↦
        terminal errored (ascii "classify barrier blockers: " ++ P.plan_error_text e)
    | PlanResult.ok after ↦ elim (validate_barrier_result v) [
      | some text ↦ terminal errored (ascii "invalid barrier validation: " ++ text)
      | none ↦ classify_barrier v.kind v.failure after before wave_stuck
    ]
  ]

  unfoldable pub judge_barrier :
      ValidationResult Proof → Counts → Bool → State P → Verdict × State P
  judge_barrier v before wave_stuck st =
      let (end, st1) = act P P.context_err st in
      elim end [
        | some e ↦ (cancelled e, st1)
        | none ↦
            let (refusal, st2) = landing_admission P st1 in
            elim refusal [
              | some e ↦ (terminal (rail_kind P e) (rail_error_text e), st2)
              | none ↦ (classify_evidence v before wave_stuck, st2)
            ]
      ]

  abbrev pub with_findings : List Finding → Outcome → Outcome
  with_findings fs o = record o { findings = fs }

  abbrev is_ready : OutcomeKind → Bool
  is_ready ready = true
  is_ready _ = false

  -- The part of `evaluateBarrier` behind its decision.
  unfoldable pub conclude_barrier : List Finding → Verdict → State P → BarrierResult × State P
  conclude_barrier fs (cancelled e) st =
      let (o, st') = stop_for_end P e st in (ended (with_findings fs o), st')
  conclude_barrier fs (terminal kind failure) st =
      let (o, st') = engine_outcome P kind (if is_ready kind then [] else fs) failure st in
      (ended o, st')
  conclude_barrier fs (shrunk after) st = (go_on after, st)

  unfoldable pub evaluate_barrier :
      ValidationResult Proof → Counts → Bool → State P → BarrierResult × State P
  evaluate_barrier v before wave_stuck st =
      let fs = outcome_findings P sha256 st v.findings in
      let (verdict, st1) = judge_barrier v before wave_stuck st in
      let (w, st2) = persist P st1 in
      elim w [
        | write_failed text _ ↦
            let (o, st3) = engine_outcome P errored fs (ascii "write barrier plan: " ++ text) st2 in
            (ended o, st3)
        | written ↦ conclude_barrier fs verdict st2
      ]
