-- ===== src/Flywheel/Engine/Loop.antt =====
-- internal/flywheel/engine.go: `Execute`, waves of batches up to the barrier. The loop takes fuel;
-- none means that it ran out.
pub mod Termination
use togi.Prelude.{
  ℕ, zero, suc, ◌+◌, ◌-◌, Bool, true, false, not, ◌&&◌, ◌||◌, Option, none, some, List, [], ◌∷◌,
  ◌++◌, ◌==◌, leb, ltb, if◌then◌else◌, length,
}
use togi.Text.{Bytes, ascii, is_empty}
use togi.Finding.{Finding}
use togi.Flywheel.Rails.{
  Rails, rail_error_text, is_exhausted, execution_context, ExecutionContextResult, timeout_after,
  no_context,
}
use togi.Flywheel.Multiset.{Counts, strictly_shrinks}
use togi.Flywheel.Plan
use togi.Flywheel.Plan.{
  Batch, BatchStatus, batch_pending, batch_running, batch_done, batch_stuck, Plan, empty_plan,
  PlanError, PlanResult, blocking_multiset, new_plan,
}
use togi.Flywheel.Engine.Ports.{
  Ports, ValidationKind, ValidationResult, passed, semantic_failure, infrastructure_failure,
  other_kind, WriteReply, written, write_failed, ContextEnd, Outcome, OutcomeKind, ready, blocked,
  errored, rails_exhausted,
}
use togi.Flywheel.Engine.State.{
  State, act, persist, engine_outcome, landing_admission, rail_kind, stop_for_end, stop_for_context,
  stop_for_rail, outcome_findings,
}
use togi.Flywheel.Brief.{valid_revision}
use togi.Flywheel.Engine.Attempt.{batch_at}
use togi.Flywheel.Engine.Batch.{execute_batch}
use togi.Flywheel.Engine.Barrier.{
  Verdict, BarrierResult, ended, go_on, is_stuck, evaluate_barrier, with_findings,
}

pub record Request : Type 0 where
  pub merge_base : Bytes
  pub original_head : Bytes
  pub initial_findings : List Finding
  pub rails : Rails

-- Either the run is over, or the next wave starts at an index, from the blockers that are left.
pub data AfterWave : Type 0 where
  over : Outcome → AfterWave
  wave : ℕ → Counts → AfterWave

module _ (sha256 : Bytes → Bytes) (P : Ports) where
  open P use {Proof}

  -- `count` batches of the wave are left, from `index` on; is a batch of the wave stuck?
  unfoldable pub run_wave : ℕ → ℕ → Bool → State P → Option Outcome × Bool × State P
  run_wave zero index stuck st = (none, stuck, st)
  run_wave (suc count) index stuck st =
      let (o, st') = execute_batch sha256 P index st in
      elim o [
        | some out ↦ (
          some (with_findings sha256 P (outcome_findings P sha256 st' out.findings) out),
          stuck,
          st',
        )
        | none ↦
            run_wave count (suc index) (stuck || is_stuck (batch_at index st'.plan.batches).status)
              st'
      ]

  abbrev append_batches : List Batch → State P → State P
  append_batches bs st = record st { plan = record (st.plan) { batches = st.plan.batches ++ bs } }

  -- A stop of `Execute` after a wave, with the findings of its batches.
  abbrev pub with_outcome_findings : Option Outcome × State P → Option Outcome × State P
  with_outcome_findings (o, st) = elim o [
    | none ↦ (none, st)
    | some out ↦ (some (with_findings sha256 P (outcome_findings P sha256 st out.findings) out), st)
  ]

  unfoldable pub next_wave : ValidationResult Proof → Counts → State P → AfterWave × State P
  next_wave v after st = elim (new_plan sha256 v.findings) [
    | PlanResult.err e ↦
        let (o, st') =
          engine_outcome P errored (outcome_findings P sha256 st v.findings)
            (ascii "create next plan wave: " ++ P.plan_error_text e) st in
        (over o, st')
    | PlanResult.ok next ↦
        let start = length st.plan.batches in
        let (w, st1) = persist P (append_batches next.batches st) in
        elim w [
          | written ↦ (wave start after, st1)
          | write_failed text _ ↦
              let (o, st2) =
                engine_outcome P errored (outcome_findings P sha256 st1 v.findings)
                  (ascii "write next plan wave: " ++ text) st1 in
              (over o, st2)
        ]
  ]

  -- The barrier behind a wave whose batches have run.
  unfoldable pub cross_barrier : Counts → Bool → State P → AfterWave × State P
  cross_barrier blockers stuck st =
      let (cancelled_now, st1) = with_outcome_findings (stop_for_context P st) in
      elim cancelled_now [
        | some o ↦ (over o, st1)
        | none ↦
            let (late, st2) = with_outcome_findings (stop_for_rail P st1) in
            elim late [
              | some o ↦ (over o, st2)
              | none ↦
                  let (v, st3) = act P P.barrier st2 in
                  let (decision, st4) = evaluate_barrier sha256 P v blockers stuck st3 in
                  elim decision [ ended o ↦ (over o, st4) | go_on after ↦ next_wave v after st4 ]
            ]
      ]

  -- The body of the loop of `Execute`.
  unfoldable pub one_wave : ℕ → Counts → State P → AfterWave × State P
  one_wave start blockers st =
      let (o, stuck, st1) = run_wave (length st.plan.batches - start) start false st in
      elim o [ some out ↦ (over out, st1) | none ↦ cross_barrier blockers stuck st1 ]

  unfoldable pub waves : ℕ → ℕ → Counts → State P → Option (Outcome × State P)
  waves zero start blockers st = none
  waves (suc fuel) start blockers st =
      let (after, st') = one_wave start blockers st in
      elim after [
        | over o ↦ some (o, st')
        | wave start' blockers' ↦ waves fuel start' blockers' st'
      ]

  abbrev pub initial_state : Rails → P.World → State P
  initial_state rails w = record {
    plan = empty_plan;
    persisted = empty_plan;
    semantic = λ i. [];
    rails = rails;
    world = w;
  }

  -- A stop before the loop.
  abbrev pub stop_at : OutcomeKind → Bytes → State P → Option (Outcome × State P)
  stop_at kind failure st = some (engine_outcome P kind [] failure st)

  -- The part of `Execute` behind the derivation of its context.
  unfoldable pub begin : ℕ → List Finding → State P → Option (Outcome × State P)
  begin fuel findings st = elim (new_plan sha256 findings) [
    | PlanResult.err e ↦ stop_at errored (ascii "create initial plan: " ++ P.plan_error_text e) st
    | PlanResult.ok plan ↦ elim (blocking_multiset sha256 findings) [
      | PlanResult.err e ↦
          stop_at errored (ascii "classify initial blockers: " ++ P.plan_error_text e) st
      | PlanResult.ok blockers ↦
          let (cancelled_now, st1) = stop_for_context P (record st { plan = plan }) in
          elim cancelled_now [
            | some o ↦ some (o, st1)
            | none ↦
                let (late, st2) = stop_for_rail P st1 in
                elim late [
                  | some o ↦ some (o, st2)
                  | none ↦
                      let (w, st3) = persist P st2 in
                      elim w [
                        | write_failed text _ ↦ stop_at errored (ascii "write plan: " ++ text) st3
                        | written ↦ waves fuel 0 blockers st3
                      ]
                ]
          ]
    ]
  ]

  -- `request.Rails.ExecutionContext`, and what follows
  unfoldable pub enter : ℕ → List Finding → State P → Option (Outcome × State P)
  enter fuel findings st =
      let (now, w) = P.clock st.world in
      let (r, derived) = execution_context st.rails now in
      let st1 = record st { rails = r; world = w } in
      elim derived [
        | no_context e ↦ stop_at rails_exhausted (rail_error_text e) st1
        | timeout_after _ ↦ begin fuel findings st1
      ]

  -- `Execute` with a context, rails and ports that are not nil.
  unfoldable pub execute : ℕ → Request → P.World → Option (Outcome × State P)
  execute fuel request w =
      let st = initial_state request.rails w in
      if not (valid_revision request.merge_base)
      then stop_at errored (ascii "merge base must be a 40- or 64-character hexadecimal object ID")
          st
      else if not (valid_revision request.original_head)
      then stop_at errored
          (ascii "original HEAD must be a 40- or 64-character hexadecimal object ID") st
      else let (cancelled_now, st1) = stop_for_context P st in
        elim cancelled_now [
          | some o ↦ some (o, st1)
          | none ↦
              let (late, st2) = stop_for_rail P st1 in
              elim late [ some o ↦ some (o, st2) | none ↦ enter fuel request.initial_findings st2 ]
        ]
