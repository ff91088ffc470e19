-- ===== src/Flywheel/Engine/Budget/Execute.antt =====
-- internal/flywheel/engine.go: `Execute` and the iterations rail.
use togi.Prelude.{
  ℕ, zero, suc, ◌-◌, ◌≤◌, ◌<◌, ◌≡◌, refl, Bool, false, not, Option, none, some, List, [], ◌++◌,
  arith, length,
}
use togi.Text.{Bytes, ascii}
use togi.Finding.{Finding}
use togi.Flywheel.Rails.{
  Rails, rail_error_text, execution_context, ExecutionContextResult, timeout_after, no_context,
  snapshot, observe_locked,
}
use togi.Flywheel.Rails.Budget.{IsRunning}
use togi.Flywheel.Multiset.{Counts}
use togi.Flywheel.Plan.{Plan, PlanResult, new_plan, blocking_multiset}
use togi.Flywheel.Engine.Ports.{
  Ports, written, write_failed, Outcome, OutcomeKind, errored, rails_exhausted,
}
use togi.Flywheel.Engine.State.{State, persist, stop_for_context, stop_for_rail}
use togi.Flywheel.Brief.{valid_revision}
use togi.Flywheel.Engine.Loop.{
  AfterWave, over, wave, run_wave, cross_barrier, one_wave, waves, begin, enter, execute, Request,
  initial_state, stop_at,
}
use togi.Flywheel.Engine.Loop.Termination.{execute-returns}
use togi.Flywheel.Plan.Canonical.{occurrence_total}
use togi.Flywheel.Engine.Budget.Total.{attempt_total, attempt_total-empty}
use togi.Flywheel.Engine.Budget.Steps.{
  Fits, IsWithin, IsWithinOption, Keeps-stop_for_context, Keeps-stop_for_rail,
}
use togi.Flywheel.Engine.Budget.Run.{case_write, case_if, outcome_good, persist_good, stop_or}
use togi.Flywheel.Engine.Budget.Loop.{
  IsGoodWave, IsUntried, attempt_total-new_plan, cross_barrier_good, run_wave_good,
}

-- The result of a run, where there is one.
abbrev IsWithinRun : {P : Ports} → ℕ → Option (Outcome × State P) → Type 0
IsWithinRun limit none = Unit
IsWithinRun limit (some r) = IsWithin limit r.0

module _ (sha256 : Bytes → Bytes) {P : Ports} (limit : ℕ) where
  one_wave_good :
      (start : ℕ) (blockers : Counts) (st : State P)
      → Fits limit 0 st
      → IsGoodWave sha256 limit (one_wave sha256 P start blockers st)
  unfolding one_wave
  one_wave_good start blockers st h =
      let r = run_wave sha256 P (length st.plan.batches - start) start false st in
      go r.0 r.1 r.2 (run_wave_good sha256 limit (length st.plan.batches - start) start false st h)
    where
      go :
          (o : Option Outcome) (stuck : Bool) (st1 : State P)
          → IsWithinOption limit o × Fits limit 0 st1
          → IsGoodWave sha256 {P = P} limit (elim o [
            | some out ↦ (over out, st1)
            | none ↦ cross_barrier sha256 P blockers stuck st1
          ])
      go (some o) stuck st1 g = g
      go none stuck st1 g = cross_barrier_good sha256 limit blockers stuck st1 g.1

  waves_good :
      (fuel start : ℕ) (blockers : Counts) (st : State P)
      → Fits limit 0 st
      → IsWithinRun limit (waves sha256 P fuel start blockers st)
  unfolding waves
  waves_good zero start blockers st h = tt
  waves_good (suc fuel) start blockers st h =
      let r = one_wave sha256 P start blockers st in
      go r.0 r.1 (one_wave_good start blockers st h) (waves_good fuel)
    where
      go :
          (a : AfterWave) (st1 : State P)
          → IsGoodWave sha256 {P = P} limit (a, st1)
          → ((start' : ℕ) (blockers' : Counts) (st' : State P)
              → Fits limit 0 st'
              → IsWithinRun limit (waves sha256 P fuel start' blockers' st'))
          → IsWithinRun limit (elim a [
            | over o ↦ some (o, st1)
            | wave start' blockers' ↦ waves sha256 P fuel start' blockers' st1
          ])
      go (over o) st1 g k = g.0
      go (wave start' blockers') st1 g k = k start' blockers' st1 g.1

  stop_at_good :
      (kind : OutcomeKind) (failure : Bytes) (st : State P)
      → Fits limit 0 st
      → IsWithinRun limit (stop_at sha256 P kind failure st)
  stop_at_good kind failure st h = (outcome_good sha256 limit kind [] failure st h).0

  write_good :
      (fuel : ℕ) (blockers : Counts) (st : State P)
      → Fits limit 0 st
      → let (w, st1) = persist P st in
        IsWithinRun limit (elim w [
          | write_failed text _ ↦ stop_at sha256 P errored (ascii "write plan: " ++ text) st1
          | written ↦ waves sha256 P fuel 0 blockers st1
        ])
  write_good fuel blockers st h =
      case_write (IsWithinRun limit) (persist P st).0 _ _
        (waves_good fuel 0 blockers _ (persist_good sha256 limit st h))
        λ text b. stop_at_good errored _ _ (persist_good sha256 limit st h)

  -- The checks of the context and the rails before a step of the run.
  guarded_good :
      (k : State P → Option (Outcome × State P)) (st : State P)
      → ((st' : State P) → Fits limit 0 st' → IsWithinRun limit (k st'))
      → Fits limit 0 st
      → let (cancelled_now, st1) = stop_for_context P st in
        IsWithinRun limit (elim cancelled_now [
          | some o ↦ some (o, st1)
          | none ↦
              let (late, st2) = stop_for_rail P st1 in
              elim late [ some o ↦ some (o, st2) | none ↦ k st2 ]
        ])
  guarded_good k st kk h =
      stop_or sha256 limit (IsWithinRun limit) 0 (stop_for_context P st)
        ((Keeps-stop_for_context limit).at 0 st h) (λ o st1. some (o, st1))
        (λ st1.
          let (late, st2) = stop_for_rail P st1 in
          elim late [ some o ↦ some (o, st2) | none ↦ k st2 ])
        (λ o st1 w f. w)
        λ st1 f.
          stop_or sha256 limit (IsWithinRun limit) 0 (stop_for_rail P st1)
            ((Keeps-stop_for_rail limit).at 0 st1 f) (λ o st2. some (o, st2)) k (λ o st2 w g. w) kk

  begin_good :
      (fuel : ℕ) (findings : List Finding) (st : State P)
      → Fits limit 0 st
      → IsWithinRun limit (begin sha256 P fuel findings st)
  unfolding begin
  begin_good fuel findings st h =
      go (new_plan sha256 findings) (attempt_total-new_plan sha256 findings)
        (blocking_multiset sha256 findings)
    where
      go :
          (p : PlanResult Plan)
          → IsUntried p
          → (b : PlanResult Counts)
          → IsWithinRun limit (elim p [
            | PlanResult.err e ↦
                stop_at sha256 P errored (ascii "create initial plan: " ++ P.plan_error_text e) st
            | PlanResult.ok plan ↦ elim b [
              | PlanResult.err e ↦
                  stop_at sha256 P errored
                    (ascii "classify initial blockers: " ++ P.plan_error_text e)
                    st
              | PlanResult.ok blockers ↦
                  let (cancelled_now, st1) = stop_for_context P (record st { plan = plan }) in
                  elim cancelled_now [
                    | some o ↦ some (o, st1)
                    | none ↦
                        let (late, st2) = stop_for_rail P st1 in
                        elim late [
                          | some o ↦ some (o, st2)
                          | none ↦
                              let (w, st3) = persist P st2 in
                              elim w [
                                | write_failed text _ ↦
                                    stop_at sha256 P errored (ascii "write plan: " ++ text) st3
                                | written ↦ waves sha256 P fuel 0 blockers st3
                              ]
                        ]
                  ]
            ]
          ])
      go (PlanResult.err e) n b = stop_at_good errored _ st h
      go (PlanResult.ok plan) n (PlanResult.err e) = stop_at_good errored _ st h
      go (PlanResult.ok plan) n (PlanResult.ok blockers) =
          let h1 : Fits limit 0 (record st { plan = plan }) = record {
            running = h.running;
            limited = h.limited;
            planned = omega (arith, n);
            kept = h.kept;
          } in
          guarded_good
            (λ st2.
              let (w, st3) = persist P st2 in
              elim w [
                | write_failed text _ ↦ stop_at sha256 P errored (ascii "write plan: " ++ text) st3
                | written ↦ waves sha256 P fuel 0 blockers st3
              ])
            (record st { plan = plan }) (λ st' k. write_good fuel blockers st' k) h1

  derived_good :
      (now : ℕ) (w : P.World) (st : State P)
      → Fits limit 0 st
      → Fits limit 0 (record st { rails = (execution_context st.rails now).0; world = w })
  unfolding execution_context snapshot observe_locked
  derived_good now w st h = ground (arith, h)

  enter_good :
      (fuel : ℕ) (findings : List Finding) (st : State P)
      → Fits limit 0 st
      → IsWithinRun limit (enter sha256 P fuel findings st)
  unfolding enter
  enter_good fuel findings st h =
      go (execution_context st.rails (P.clock st.world).0).1 _
        (derived_good (P.clock st.world).0 (P.clock st.world).1 st h)
    where
      go :
          (derived : ExecutionContextResult) (st1 : State P)
          → Fits limit 0 st1
          → IsWithinRun limit (elim derived [
            | no_context e ↦ stop_at sha256 P rails_exhausted (rail_error_text e) st1
            | timeout_after _ ↦ begin sha256 P fuel findings st1
          ])
      go (no_context e) st1 k = stop_at_good rails_exhausted _ st1 k
      go (timeout_after n) st1 k = begin_good fuel findings st1 k

  execute_good :
      (fuel : ℕ) (request : Request) (w : P.World)
      → Fits limit 0 (initial_state sha256 P request.rails w)
      → IsWithinRun limit (execute sha256 P fuel request w)
  unfolding execute
  execute_good fuel request w h =
      case_if (IsWithinRun limit) (not (valid_revision request.merge_base)) _ _
        (stop_at_good errored _ _ h)
        (case_if (IsWithinRun limit) (not (valid_revision request.original_head)) _ _
          (stop_at_good errored _ _ h)
          (guarded_good (enter sha256 P fuel request.initial_findings) _
            (λ st' k. enter_good fuel _ st' k) h))

IsWithin-of :
    {P : Ports} (limit : ℕ) (run : Option (Outcome × State P)) (r : Outcome × State P)
    → IsWithinRun limit run
    → run ≡ some r
    → IsWithin limit r.0
IsWithin-of limit none r g e = ground (arith, e)
IsWithin-of limit (some q) r g e = ground (arith, e, g)

Fits-initial :
    (sha256 : Bytes → Bytes) (P : Ports) (rails : Rails) (w : P.World)
    → IsRunning rails
    → Fits rails.max_iterations 0 (initial_state sha256 P rails w)
Fits-initial sha256 P rails w h = record {
  running = h;
  limited = refl;
  planned = omega (arith, attempt_total-empty);
  kept = omega (arith, attempt_total-empty);
}

-- With fuel above the number of places that the initial findings name, and rails that are running,
-- `Execute` returns an outcome, whose plan holds no more attempts than the rails admitted, and
-- these are no more than the iterations limit, whatever the adapter, the workspace, the validator,
-- the barrier, the clock and the context do.
pub execute_within_rails :
    (sha256 : Bytes → Bytes) (P : Ports) (fuel : ℕ) (request : Request) (w : P.World)
    → occurrence_total request.initial_findings < fuel
    → IsRunning request.rails
    → (r : Outcome × State P) × (execute sha256 P fuel request w ≡ some r)
      × (attempt_total r.0.plan.batches ≤ r.0.iterations)
      × (r.0.iterations ≤ request.rails.max_iterations)
execute_within_rails sha256 P fuel request w h running =
    let (r, e) = execute-returns sha256 P fuel request w h in
    let good =
      execute_good sha256 request.rails.max_iterations fuel request w
        (Fits-initial sha256 P request.rails w running) in
    let (recorded, allowed) =
      IsWithin-of request.rails.max_iterations (execute sha256 P fuel request w) r good e in
    (r, e, recorded, allowed)
