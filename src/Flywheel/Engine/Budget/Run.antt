-- ===== src/Flywheel/Engine/Budget/Run.antt =====
-- internal/flywheel/engine.go: the attempts at a batch and the iterations rail.
use togi.Prelude.{
  ℕ, zero, suc, ◌+◌, ◌≡◌, refl, Bool, true, false, not, ◌||◌, Option, none, some, List, [], arith,
  length, ◌==◌, if◌then◌else◌,
}
use togi.Text.{Bytes}
use togi.Finding.{Finding}
use togi.Flywheel.Rails.{RailError, rail_error_text}
use togi.Flywheel.Plan.{Batch, batch_stuck}
use togi.Flywheel.Engine.Ports.{
  Ports, WriteReply, written, write_failed, Outcome, OutcomeKind, errored, max_attempts,
}
use togi.Flywheel.Engine.State.{
  State, act, persist, engine_outcome, rail_kind, stop_for_context, set_semantic,
}
use togi.Flywheel.Engine.Step.{
  succeeded, semantic_failed, infrastructure_failed, stopped, Step, next, stop,
}
use togi.Flywheel.Engine.Attempt.{fail_and_reset, run_attempt, update_batch}
use togi.Flywheel.Engine.Batch.{
  AfterAttempt, finished, again, abort_semantic, settle_semantic, settle, try_attempt,
  attempts_from, execute_batch, result_of,
}
use togi.Flywheel.Engine.Budget.Total.{attempt_total-update}
use togi.Flywheel.Engine.Budget.Steps.{
  Fits, IsWithin, IsWithinOption, IsWithinStep, Keeps-act, Keeps-persist, admitted,
  Keeps-engine_outcome, Keeps-stop_for_context,
}
use togi.Flywheel.Engine.Budget.Attempt.{Keeps-fail_and_reset, run_attempt_keeps}

abbrev IsWithinAfter : ℕ → AfterAttempt → Type 0
IsWithinAfter limit (finished o) = IsWithinOption limit o
IsWithinAfter limit (again _) = Unit

-- Splits on a computed value under a predicate.
module _ {T : Type 0} (Q : T → Type 0) where
  pub case_option :
      {A : Type 0} (o : Option A) (n : T) (s : A → T)
      → Q n
      → ((a : A) → Q (s a))
      → Q (elim o [ none ↦ n | some a ↦ s a ])
  case_option none n s qn qs = qn
  case_option (some a) n s qn qs = qs a

  pub case_write :
      (w : WriteReply) (s : T) (f : Bytes → Bool → T)
      → Q s
      → ((t : Bytes) (b : Bool) → Q (f t b))
      → Q (elim w [ written ↦ s | write_failed t b ↦ f t b ])
  case_write written s f qs qf = qs
  case_write (write_failed t b) s f qs qf = qf t b

  pub case_if : (b : Bool) (x y : T) → Q x → Q y → Q (if b then x else y)
  case_if true x y qx qy = qx
  case_if false x y qx qy = qy

module _ (sha256 : Bytes → Bytes) {P : Ports} (limit : ℕ) where
  -- An option that a function gives, and the state beside it.
  abbrev pub IsGood : Option Outcome × State P → Type 0
  IsGood r = IsWithinOption limit r.0 × Fits limit 0 r.1

  abbrev IsGoodAfter : AfterAttempt × State P → Type 0
  IsGoodAfter r = IsWithinAfter limit r.0 × Fits limit 0 r.1

  pub outcome_good :
      (kind : OutcomeKind) (fs : List Finding) (failure : Bytes) (st : State P)
      → Fits limit 0 st
      → let r = engine_outcome P kind fs failure st in IsWithin limit r.0 × Fits limit 0 r.1
  outcome_good kind fs failure st h = (Keeps-engine_outcome limit kind fs failure).at 0 st h

  pub persist_good : (st : State P) → Fits limit 0 st → Fits limit 0 (persist P st).1
  persist_good st h = (Keeps-persist limit).at 0 st h

  reset_good :
      (index number : ℕ) (failure : Bytes) (st : State P)
      → Fits limit 0 st
      → Fits limit 0 (fail_and_reset sha256 P index number failure st).1
  reset_good index number failure st h =
      (Keeps-fail_and_reset sha256 limit index number failure).at 0 st h

  stuck_good :
      (index : ℕ) (f : Batch → Batch) (st : State P)
      → ((b : Batch) → length (f b).attempts ≡ length b.attempts)
      → Fits limit 0 st
      → Fits limit 0
          (record st { plan = record (st.plan) { batches = update_batch index f st.plan.batches } })
  stuck_good index f st e h = record {
    running = h.running;
    limited = h.limited;
    planned = rw (attempt_total-update index f st.plan.batches e) h.planned;
    kept = h.kept;
  }

  abort_semantic-IsGood :
      (index number : ℕ) (failure : Bytes) (st : State P)
      → Fits limit 0 st
      → IsGood (abort_semantic sha256 P index number failure st)
  unfolding abort_semantic
  abort_semantic-IsGood index number failure st h =
      let s1 = (fail_and_reset sha256 P index number failure st).1 in
      let h1 = reset_good index number failure st h in
      let h2 = stuck_good index (λ b. record b { status = batch_stuck }) s1 (λ b. refl) h1 in
      case_option IsGood (fail_and_reset sha256 P index number failure st).0 _ _
        (case_if IsGood (number == max_attempts) _ _
          (case_write IsGood (persist P _).0 _ _ (tt, persist_good _ h2)
            (λ text b. outcome_good errored [] _ _ (persist_good _ h2)))
          (tt, h1))
        λ text. outcome_good errored [] text s1 h1

  after_semantic_good :
      (number : ℕ) (failure : Bytes) (st : State P)
      → Fits limit 0 st
      → IsGoodAfter (if number == max_attempts then (finished none, st) else (again failure, st))
  after_semantic_good number failure st h =
      case_if IsGoodAfter (number == max_attempts) _ _ (tt, h) (tt, h)

  settle_semantic_good :
      (index number : ℕ) (failure : Bytes) (cancelled : Bool) (st : State P)
      → Fits limit 0 st
      → IsGoodAfter (settle_semantic sha256 P index number failure cancelled st)
  unfolding settle_semantic
  settle_semantic_good index number failure cancelled st h =
      let r = abort_semantic sha256 P index number failure st in
      let g = abort_semantic-IsGood index number failure st h in on_abort r.0 r.1 g.0 g.1
    where
      on_abort :
          (o : Option Outcome) (st1 : State P)
          → IsWithinOption limit o
          → Fits limit 0 st1
          → IsGoodAfter (elim o [
            | some x ↦ (finished (some x), st1)
            | none ↦
                if cancelled
                then (let (end, st2) = act P P.context_err st1 in
                    elim end [
                      | some _ ↦ (
                        finished (some (engine_outcome P errored [] failure st2).0),
                        (engine_outcome P errored [] failure st2).1,
                      )
                      | none ↦
                          if number == max_attempts
                          then (finished none, st2)
                          else (again failure, st2)
                    ])
                else if number == max_attempts
                then (finished none, st1)
                else (again failure, st1)
          ])
      on_abort (some x) st1 w k = (w, k)
      on_abort none st1 w k =
          let k2 = (Keeps-act limit P.context_err).at 0 st1 k in
          case_if IsGoodAfter cancelled _ _
            (case_option IsGoodAfter (act P P.context_err st1).0 _ _
              (after_semantic_good number failure _ k2) (λ e. outcome_good errored [] failure _ k2))
            (after_semantic_good number failure st1 k)

  settle_good :
      (index number : ℕ) (r : Step (Unit {0})) (st : State P)
      → IsWithinStep limit r
      → Fits limit 0 st
      → IsGoodAfter (settle sha256 P index number (result_of r) st)
  unfolding settle
  settle_good index number (next u) st w h = (tt, h)
  settle_good index number (stop succeeded) st w h = (tt, h)
  settle_good index number (stop (stopped o)) st w h = (w, h)
  settle_good index number (stop (semantic_failed failure c)) st w h =
      settle_semantic_good index number failure c st h
  settle_good index number (stop (infrastructure_failed failure fs retryable)) st w h =
      let h1 = reset_good index number failure st h in
      case_option IsGoodAfter (fail_and_reset sha256 P index number failure st).0 _ _
        (case_if IsGoodAfter (not retryable || number == max_attempts) _ _
          (outcome_good errored fs failure _ h1) (tt, h1))
        λ text. outcome_good errored fs text _ h1

  -- A function that may stop, and what follows it where it does not.
  pub stop_or :
      {T : Type 0} (Q : T → Type 0) (slack : ℕ) (r : Option Outcome × State P)
      → IsWithinOption limit r.0 × Fits limit slack r.1
      → (s : Outcome → State P → T) (n : State P → T)
      → ((o : Outcome) (st : State P) → IsWithin limit o → Fits limit slack st → Q (s o st))
      → ((st : State P) → Fits limit slack st → Q (n st))
      → Q (elim r.0 [ some o ↦ s o r.1 | none ↦ n r.1 ])
  stop_or Q slack (none, st) g s n qs qn = qn st g.1
  stop_or Q slack (some o, st) g s n qs qn = qs o st g.0 g.1

  Fits-weaken : (st : State P) → Fits limit 1 st → Fits limit 0 st
  Fits-weaken st h = record {
    running = h.running;
    limited = h.limited;
    planned = omega (arith, h.planned);
    kept = h.kept;
  }

  Fits-semantic :
      (index : ℕ) (fs : List Finding) (st : State P)
      → Fits limit 1 st
      → Fits limit 1 (set_semantic P index fs st)
  Fits-semantic index fs st h = record {
    running = h.running;
    limited = h.limited;
    planned = h.planned;
    kept = h.kept;
  }

  run_and_settle_good :
      (index number : ℕ) (retry_failure : Bytes) (st : State P)
      → Fits limit 1 st
      → let r = run_attempt sha256 P index number retry_failure st in
        IsGoodAfter (settle sha256 P index number (result_of r.0) r.1)
  run_and_settle_good index number retry_failure st h =
      let r = run_attempt sha256 P index number retry_failure st in
      let g = run_attempt_keeps sha256 limit index number retry_failure st h in
      settle_good index number r.0 r.1 g.0 g.1

  admitted_good :
      (index number : ℕ) (retry_failure : Bytes) (e : Option RailError) (st : State P)
      → ((e ≡ none → Fits limit 1 st) × Fits limit 0 st)
      → IsGoodAfter (elim e [
        | some x ↦ (
          finished (some (engine_outcome P (rail_kind P x) [] (rail_error_text x) st).0),
          (engine_outcome P (rail_kind P x) [] (rail_error_text x) st).1,
        )
        | none ↦
            let (late, st3) = stop_for_context P (set_semantic P index [] st) in
            elim late [
              | some o ↦ (finished (some o), st3)
              | none ↦
                  let (result, st4) = run_attempt sha256 P index number retry_failure st3 in
                  settle sha256 P index number (result_of result) st4
            ]
      ])
  admitted_good index number retry_failure (some x) st h =
      outcome_good (rail_kind P x) [] (rail_error_text x) st h.1
  admitted_good index number retry_failure none st h =
      stop_or IsGoodAfter 1 (stop_for_context P (set_semantic P index [] st))
        ((Keeps-stop_for_context limit).at 1 _ (Fits-semantic index [] st (h.0 refl)))
        (λ o st3. (finished (some o), st3))
        (λ st3.
          let (result, st4) = run_attempt sha256 P index number retry_failure st3 in
          settle sha256 P index number (result_of result) st4)
        (λ o st3 w k. (w, Fits-weaken st3 k))
        λ st3 k. run_and_settle_good index number retry_failure st3 k

  try_attempt_good :
      (index number : ℕ) (retry_failure : Bytes) (st : State P)
      → Fits limit 0 st
      → IsGoodAfter (try_attempt sha256 P index number retry_failure st)
  unfolding try_attempt
  try_attempt_good index number retry_failure st h =
      stop_or IsGoodAfter 0 (stop_for_context P st) ((Keeps-stop_for_context limit).at 0 st h)
        (λ o st1. (finished (some o), st1)) _ (λ o st1 w k. (w, k))
        λ st1 k. admitted_good index number retry_failure _ _ (admitted limit st1 k)

  attempts_from-IsGood :
      (index left number : ℕ) (retry_failure : Bytes) (st : State P)
      → Fits limit 0 st
      → IsGood (attempts_from sha256 P index left number retry_failure st)
  unfolding attempts_from
  attempts_from-IsGood index zero number retry_failure st h = (tt, h)
  attempts_from-IsGood index (suc left) number retry_failure st h =
      let g = try_attempt_good index number retry_failure st h in
      go (try_attempt sha256 P index number retry_failure st).0
        (try_attempt sha256 P index number retry_failure st).1 g.0 g.1
        (λ failure st' k. attempts_from-IsGood index left (number + 1) failure st' k)
    where
      go :
          (a : AfterAttempt) (st' : State P)
          → IsWithinAfter limit a
          → Fits limit 0 st'
          → ((failure : Bytes) (st'' : State P)
              → Fits limit 0 st''
              → IsGood (attempts_from sha256 P index left (number + 1) failure st''))
          → IsGood (elim a [
            | finished o ↦ (o, st')
            | again failure ↦ attempts_from sha256 P index left (number + 1) failure st'
          ])
      go (finished o) st' w k rec = (w, k)
      go (again failure) st' w k rec = rec failure st' k

  pub execute_batch-IsGood :
      (index : ℕ) (st : State P) → Fits limit 0 st → IsGood (execute_batch sha256 P index st)
  unfolding execute_batch
  execute_batch-IsGood index st h = attempts_from-IsGood index max_attempts 1 [] st h
