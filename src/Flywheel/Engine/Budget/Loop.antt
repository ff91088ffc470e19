-- ===== src/Flywheel/Engine/Budget/Loop.antt =====
-- internal/flywheel/engine.go: the waves of `Execute` and the iterations rail.
use togi.Prelude.{
  ℕ, zero, suc, ◌≡◌, refl, Bool, ◌||◌, Option, none, some, List, [], ◌∷◌, ◌++◌, arith, length,
  Bool-cases, inl, inr,
}
use togi.Text.{Bytes, ascii, bytes_eqb}
use togi.Finding.{Finding}
use togi.Flywheel.Multiset.{Counts}
use togi.Flywheel.Plan.{
  Batch, Plan, PlanResult, new_plan, plan_of, identify_all, add_items, add_item, identify,
  blocker_wave_digest, canonical_findings, map_ok,
}
use togi.Flywheel.Engine.Ports.{
  Ports, ValidationResult, written, write_failed, Outcome, OutcomeKind, errored,
}
use togi.Flywheel.Engine.State.{
  State, act, persist, engine_outcome, stop_for_context, stop_for_rail, outcome_findings,
  landing_admission,
}
use togi.Flywheel.Engine.Barrier.{
  Verdict, cancelled, terminal, shrunk, BarrierResult, ended, go_on, judge_barrier,
  conclude_barrier, evaluate_barrier, with_findings, is_stuck,
}
use togi.Flywheel.Engine.Attempt.{batch_at}
use togi.Flywheel.Engine.Batch.{execute_batch}
use togi.Flywheel.Engine.Loop.{
  AfterWave, over, wave, run_wave, next_wave, cross_barrier, with_outcome_findings,
}
use togi.Flywheel.Engine.Budget.Total.{attempt_total, attempt_total-append, attempt_total-empty}
use togi.Flywheel.Engine.Budget.Steps.{
  Fits, IsWithin, IsWithinOption, Keeps-act, Keeps-landing, Keeps-stop_for_end,
  Keeps-stop_for_context, Keeps-stop_for_rail,
}
use togi.Flywheel.Engine.Budget.Run.{
  case_option, case_write, outcome_good, persist_good, stop_or, execute_batch-IsGood,
}

abbrev pub IsWithinWave : ℕ → AfterWave → Type 0
IsWithinWave limit (over o) = IsWithin limit o
IsWithinWave limit (wave _ _) = Unit

abbrev IsWithinBarrier : ℕ → BarrierResult → Type 0
IsWithinBarrier limit (ended o) = IsWithin limit o
IsWithinBarrier limit (go_on _) = Unit

-- A plan that `NewPlan` gives has no attempt.
abbrev pub IsUntried : PlanResult Plan → Type 0
IsUntried (PlanResult.ok plan) = attempt_total plan.batches ≡ 0
IsUntried (PlanResult.err e) = Unit

module _ (sha256 : Bytes → Bytes) where
  attempt_total-add_item :
      (digest : Bytes) (bs : List Batch) (item : Finding)
      → attempt_total (add_item sha256 digest bs item) ≡ attempt_total bs
  unfolding add_item attempt_total
  attempt_total-add_item digest [] item = refl
  attempt_total-add_item digest (b ∷ []) item =
      elim (Bool-cases (bytes_eqb b.primary_file item.file)) [
        | inl e ↦ rw e refl
        | inr e ↦ rw e refl
      ]
  attempt_total-add_item digest (b ∷ c ∷ bs) item =
      omega (arith, attempt_total-add_item digest (c ∷ bs) item)

  attempt_total-add_items :
      (digest : Bytes) (bs : List Batch) (items : List Finding)
      → attempt_total (add_items sha256 digest bs items) ≡ attempt_total bs
  unfolding add_items
  attempt_total-add_items digest bs [] = refl
  attempt_total-add_items digest bs (item ∷ items) = omega (
    arith,
    attempt_total-add_items digest (add_item sha256 digest bs item) items,
    attempt_total-add_item digest bs item,
  )

  attempt_total-identify_all :
      (digest : Bytes) (bs : List Batch)
      → attempt_total (identify_all sha256 digest bs) ≡ attempt_total bs
  unfolding identify_all identify attempt_total
  attempt_total-identify_all digest [] = refl
  attempt_total-identify_all digest (b ∷ bs) = omega (arith, attempt_total-identify_all digest bs)

  attempt_total-plan_of : (fs : List Finding) → attempt_total (plan_of sha256 fs).batches ≡ 0
  unfolding plan_of
  attempt_total-plan_of fs = omega (
    arith,
    attempt_total-identify_all (blocker_wave_digest sha256 fs)
        (add_items sha256 (blocker_wave_digest sha256 fs) [] fs),
    attempt_total-add_items (blocker_wave_digest sha256 fs) [] fs,
    attempt_total-empty,
  )

  pub attempt_total-new_plan : (fs : List Finding) → IsUntried (new_plan sha256 fs)
  unfolding new_plan
  attempt_total-new_plan fs = go (canonical_findings sha256 fs)
    where
      go : (r : PlanResult (List Finding)) → IsUntried (map_ok (plan_of sha256) r)
      go (PlanResult.ok gs) = attempt_total-plan_of gs
      go (PlanResult.err e) = tt

module _ (sha256 : Bytes → Bytes) {P : Ports} (limit : ℕ) where
  abbrev pub IsGoodWave : AfterWave × State P → Type 0
  IsGoodWave r = IsWithinWave limit r.0 × Fits limit 0 r.1

  abbrev IsGoodBarrier : BarrierResult × State P → Type 0
  IsGoodBarrier r = IsWithinBarrier limit r.0 × Fits limit 0 r.1

  out :
      (kind : OutcomeKind) (fs : List Finding) (failure : Bytes) (st : State P)
      → Fits limit 0 st
      → let r = engine_outcome P kind fs failure st in IsWithin limit r.0 × Fits limit 0 r.1
  out = outcome_good sha256 limit

  judge_barrier_good :
      (v : ValidationResult P.Proof) (before : Counts) (stuck : Bool) (st : State P)
      → Fits limit 0 st
      → Fits limit 0 (judge_barrier sha256 P v before stuck st).1
  unfolding judge_barrier
  judge_barrier_good v before stuck st h =
      let h1 = (Keeps-act limit P.context_err).at 0 st h in
      let h2 = (Keeps-landing limit).at 0 _ h1 in
      case_option (λ (r : Verdict × State P). Fits limit 0 r.1) (act P P.context_err st).0 _ _
        (case_option (λ (r : Verdict × State P). Fits limit 0 r.1)
          (landing_admission P (act P P.context_err st).1).0 _ _ h2 (λ e. h2))
        λ e. h1

  conclude_barrier_good :
      (fs : List Finding) (verdict : Verdict) (st : State P)
      → Fits limit 0 st
      → IsGoodBarrier (conclude_barrier sha256 P fs verdict st)
  unfolding conclude_barrier
  conclude_barrier_good fs (cancelled e) st h = (Keeps-stop_for_end limit e).at 0 st h
  conclude_barrier_good fs (terminal kind failure) st h = out kind _ failure st h
  conclude_barrier_good fs (shrunk after) st h = (tt, h)

  evaluate_barrier_good :
      (v : ValidationResult P.Proof) (before : Counts) (stuck : Bool) (st : State P)
      → Fits limit 0 st
      → IsGoodBarrier (evaluate_barrier sha256 P v before stuck st)
  unfolding evaluate_barrier
  evaluate_barrier_good v before stuck st h =
      let st1 = (judge_barrier sha256 P v before stuck st).1 in
      let h2 = persist_good sha256 limit st1 (judge_barrier_good v before stuck st h) in
      case_write IsGoodBarrier (persist P st1).0 _ _ (conclude_barrier_good _ _ _ h2)
        λ text b. out errored _ _ _ h2

  pub run_wave_good :
      (count index : ℕ) (stuck : Bool) (st : State P)
      → Fits limit 0 st
      → let r = run_wave sha256 P count index stuck st in
        IsWithinOption limit r.0 × Fits limit 0 r.2
  unfolding run_wave
  run_wave_good zero index stuck st h = (tt, h)
  run_wave_good (suc count) index stuck st h =
      stop_or sha256 limit
        (λ (r : Option Outcome × Bool × State P). IsWithinOption limit r.0 × Fits limit 0 r.2) 0
        (execute_batch sha256 P index st) (execute_batch-IsGood sha256 limit index st h)
        (λ o st'.
          (some (with_findings sha256 P (outcome_findings P sha256 st' o.findings) o), stuck, st'))
        (λ st'.
          run_wave sha256 P count (suc index)
            (stuck || is_stuck (batch_at index st'.plan.batches).status) st')
        (λ o st' w k. (w, k)) λ st' k. run_wave_good count (suc index) _ st' k

  next_wave_good :
      (v : ValidationResult P.Proof) (after : Counts) (st : State P)
      → Fits limit 0 st
      → IsGoodWave (next_wave sha256 P v after st)
  unfolding next_wave
  next_wave_good v after st h =
      go (new_plan sha256 v.findings) (attempt_total-new_plan sha256 v.findings)
    where
      go :
          (r : PlanResult Plan)
          → IsUntried r
          → IsGoodWave (elim r [
            | PlanResult.err e ↦
                let (o, st') =
                  engine_outcome P errored
                    (outcome_findings P sha256 st v.findings)
                    (ascii "create next plan wave: " ++ P.plan_error_text e)
                    st in
                (over o, st')
            | PlanResult.ok plan ↦
                let start = length st.plan.batches in
                let (w, st1) = persist P (record st {
                  plan = record (st.plan) { batches = st.plan.batches ++ plan.batches };
                }) in
                elim w [
                  | written ↦ (wave start after, st1)
                  | write_failed text _ ↦
                      let (o, st2) =
                        engine_outcome P errored
                          (outcome_findings P sha256 st1 v.findings)
                          (ascii "write next plan wave: " ++ text)
                          st1 in
                      (over o, st2)
                ]
          ])
      go (PlanResult.err e) n = out _ _ _ st h
      go (PlanResult.ok plan) n =
          let h1 : Fits limit 0 (record st {
            plan = record (st.plan) { batches = st.plan.batches ++ plan.batches };
          }) =
            record {
              running = h.running;
              limited = h.limited;
              planned =
                  omega (arith, h.planned, n, attempt_total-append st.plan.batches plan.batches);
              kept = h.kept;
            } in
          case_write IsGoodWave (persist P _).0 _ _ (tt, persist_good sha256 limit _ h1)
            λ text b. out errored _ _ _ (persist_good sha256 limit _ h1)

  findings_good :
      (r : Option Outcome × State P)
      → IsWithinOption limit r.0 × Fits limit 0 r.1
      → let q = with_outcome_findings sha256 P r in IsWithinOption limit q.0 × Fits limit 0 q.1
  findings_good (none, st) g = g
  findings_good (some o, st) g = g

  decided_good :
      (r : BarrierResult × State P) (v : ValidationResult P.Proof)
      → IsGoodBarrier r
      → IsGoodWave
          (elim r.0 [ ended o ↦ (over o, r.1) | go_on after ↦ next_wave sha256 P v after r.1 ])
  decided_good (ended o, st) v g = g
  decided_good (go_on after, st) v g = next_wave_good v after st g.1

  barrier_good :
      (blockers : Counts) (stuck : Bool) (st : State P)
      → Fits limit 0 st
      → let (v, st1) = act P P.barrier st in
        let r = evaluate_barrier sha256 P v blockers stuck st1 in
        IsGoodWave
          (elim r.0 [ ended o ↦ (over o, r.1) | go_on after ↦ next_wave sha256 P v after r.1 ])
  barrier_good blockers stuck st h =
      decided_good _ _
        (evaluate_barrier_good _ blockers stuck _ ((Keeps-act limit P.barrier).at 0 st h))

  rail_good :
      (blockers : Counts) (stuck : Bool) (st : State P)
      → Fits limit 0 st
      → let r = with_outcome_findings sha256 P (stop_for_rail P st) in
        IsGoodWave (elim r.0 [
          | some o ↦ (over o, r.1)
          | none ↦
              let (v, st1) = act P P.barrier r.1 in
              let b = evaluate_barrier sha256 P v blockers stuck st1 in
              elim b.0 [ ended o ↦ (over o, b.1) | go_on after ↦ next_wave sha256 P v after b.1 ]
        ])
  rail_good blockers stuck st h =
      stop_or sha256 limit IsGoodWave 0 (with_outcome_findings sha256 P (stop_for_rail P st))
        (findings_good _ ((Keeps-stop_for_rail limit).at 0 st h)) (λ o st'. (over o, st'))
        (λ st'.
          let (v, st1) = act P P.barrier st' in
          let b = evaluate_barrier sha256 P v blockers stuck st1 in
          elim b.0 [ ended o ↦ (over o, b.1) | go_on after ↦ next_wave sha256 P v after b.1 ])
        (λ o st' w k. (w, k)) λ st' k. barrier_good blockers stuck st' k

  pub cross_barrier_good :
      (blockers : Counts) (stuck : Bool) (st : State P)
      → Fits limit 0 st
      → IsGoodWave (cross_barrier sha256 P blockers stuck st)
  unfolding cross_barrier
  cross_barrier_good blockers stuck st h =
      let r = with_outcome_findings sha256 P (stop_for_context P st) in
      go r.0 r.1 (findings_good _ ((Keeps-stop_for_context limit).at 0 st h))
    where
      go :
          (o : Option Outcome) (st1 : State P)
          → IsWithinOption limit o × Fits limit 0 st1
          → let r = with_outcome_findings sha256 P (stop_for_rail P st1) in
            IsGoodWave (elim o [
              | some o ↦ (over o, st1)
              | none ↦ elim r.0 [
                | some o ↦ (over o, r.1)
                | none ↦
                    let (v, st2) = act P P.barrier r.1 in
                    let b = evaluate_barrier sha256 P v blockers stuck st2 in
                    elim b.0 [
                      | ended o ↦ (over o, b.1)
                      | go_on after ↦ next_wave sha256 P v after b.1
                    ]
              ]
            ])
      go (some o) st1 g = g
      go none st1 g = rail_good blockers stuck st1 g.1
