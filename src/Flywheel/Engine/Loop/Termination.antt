-- ===== src/Flywheel/Engine/Loop/Termination.antt =====
-- internal/flywheel/engine.go: the loop of `Execute` and its fuel.
use togi.Prelude.{
  ℕ, zero, suc, ◌<◌, ◌≡◌, refl, Bool, true, none, some, List, [], ◌∷◌, arith, Option-cases, ◌≢◌,
  inl, inr,
}
use togi.Text.{Bytes}
use togi.Finding.{Finding}
use togi.Flywheel.Multiset.{Counts, strictly_shrinks}
use togi.Flywheel.Multiset.Shrink.{IsCounts, total, total-strictly_shrinks}
use togi.Flywheel.Plan.{PlanResult, blocking_multiset}
use togi.Flywheel.Plan.Canonical.{occurrence_total, blocking_multiset-IsCounts}
use togi.Flywheel.Engine.Ports.{Ports, ValidationKind, ValidationResult, Outcome}
use togi.Flywheel.Engine.State.{State}
use togi.Flywheel.Engine.Barrier.{
  shrunk, go_on, classify_barrier, classify_evidence, judge_barrier, conclude_barrier,
  evaluate_barrier,
}
use togi.Flywheel.Engine.Loop.{
  AfterWave, over, wave, next_wave, cross_barrier, one_wave, waves, begin, enter, execute, Request,
}

classify_barrier-shrunk :
    (kind : ValidationKind) (failure : Bytes) (after before b : Counts) (stuck : Bool)
    → classify_barrier kind failure after before stuck ≡ shrunk b
    → (b ≡ after) × (strictly_shrinks after before ≡ true)
unfolding classify_barrier
classify_barrier-shrunk ValidationKind.infrastructure_failure failure after before b stuck h =
    ground arith
classify_barrier-shrunk _ failure [] before b stuck h = ground arith
classify_barrier-shrunk _ failure (c ∷ cs) before b stuck h = ground arith

module _ (sha256 : Bytes → Bytes) (P : Ports) where
  open P use {Proof}

  -- Blockers that a barrier lets the loop go on with.
  IsNext : Counts → Counts → Type 0
  IsNext before b = IsCounts b × (total b < total before)

  classify_evidence-shrunk :
      (v : ValidationResult Proof) (before b : Counts) (stuck : Bool)
      → IsCounts before
      → classify_evidence sha256 P v before stuck ≡ shrunk b
      → IsNext before b
  unfolding IsNext classify_evidence
  classify_evidence-shrunk v before b stuck vb h = go (blocking_multiset sha256 v.findings) refl
    where
      go :
          (r : PlanResult Counts)
          → blocking_multiset sha256 v.findings ≡ r
          → IsCounts b × (total b < total before)
      go (PlanResult.err e) q = absurd (ground arith)
      go (PlanResult.ok after) q =
          let k = classify_barrier-shrunk v.kind v.failure after before b stuck (ground arith) in
          let w = blocking_multiset-IsCounts sha256 v.findings after q in
          rw k.0 (w.0, total-strictly_shrinks after before w.0 vb k.1)

  judge_barrier-shrunk :
      (v : ValidationResult Proof) (before b : Counts) (stuck : Bool) (st : State P)
      → IsCounts before
      → (judge_barrier sha256 P v before stuck st).0 ≡ shrunk b
      → IsNext before b
  unfolding judge_barrier
  judge_barrier-shrunk v before b stuck st vb h =
      classify_evidence-shrunk v before b stuck vb (ground arith)

  evaluate_barrier-go_on :
      (v : ValidationResult Proof) (before b : Counts) (stuck : Bool) (st : State P)
      → IsCounts before
      → (evaluate_barrier sha256 P v before stuck st).0 ≡ go_on b
      → IsNext before b
  unfolding evaluate_barrier conclude_barrier
  evaluate_barrier-go_on v before b stuck st vb h =
      judge_barrier-shrunk v before b stuck st vb (ground arith)

  next_wave-wave :
      (v : ValidationResult Proof) (after b : Counts) (start : ℕ) (st : State P)
      → (next_wave sha256 P v after st).0 ≡ wave start b
      → b ≡ after
  unfolding next_wave
  next_wave-wave v after b start st h = ground arith

  cross_barrier-wave :
      (before b : Counts) (stuck : Bool) (start : ℕ) (st : State P)
      → IsCounts before
      → (cross_barrier sha256 P before stuck st).0 ≡ wave start b
      → IsNext before b
  unfolding cross_barrier
  cross_barrier-wave before b stuck start st vb h =
      grind (arith, evaluate_barrier-go_on, next_wave-wave)

  one_wave-wave :
      (before b : Counts) (start' start : ℕ) (st : State P)
      → IsCounts before
      → (one_wave sha256 P start' before st).0 ≡ wave start b
      → IsNext before b
  unfolding one_wave
  one_wave-wave before b start' start st vb h = grind (arith, cross_barrier-wave)

  -- With more fuel than there are blockers, the loop returns an outcome.
  waves_end :
      (fuel start : ℕ) (blockers : Counts) (st : State P)
      → IsCounts blockers
      → total blockers < fuel
      → (r : Outcome × State P) × (waves sha256 P fuel start blockers st ≡ some r)
  unfolding waves IsNext
  waves_end zero start blockers st v h = absurd (omega arith)
  waves_end (suc fuel) start blockers st v h =
      go (one_wave sha256 P start blockers st).0 (one_wave sha256 P start blockers st).1
        (λ s b st' q.
          let next = one_wave-wave blockers b start s st v q in
          waves_end fuel s b st' next.0 (omega (arith, next.1)))
    where
      go :
          (after : AfterWave) (st' : State P)
          → ((s : ℕ) (b : Counts) (st'' : State P)
              → after ≡ wave s b
              → (r : Outcome × State P) × (waves sha256 P fuel s b st'' ≡ some r))
          → (r : Outcome × State P) × ((elim after [
            | over o ↦ some (o, st')
            | wave s b ↦ waves sha256 P fuel s b st'
          ])
              ≡ some r)
      go (over o) st' next = ((o, st'), refl)
      go (wave s b) st' next = next s b st' refl

  waves-ne-none :
      (fuel start : ℕ) (blockers : Counts) (st : State P)
      → IsCounts blockers
      → total blockers < fuel
      → waves sha256 P fuel start blockers st ≢ none
  waves-ne-none fuel start blockers st v h e = cc ((waves_end fuel start blockers st v h).1)

  begin-ne-none :
      (fuel : ℕ) (fs : List Finding) (st : State P)
      → occurrence_total fs < fuel
      → begin sha256 P fuel fs st ≢ none
  unfolding begin
  begin-ne-none fuel fs st h = grind (arith, waves-ne-none, blocking_multiset-IsCounts sha256 fs)

  enter-ne-none :
      (fuel : ℕ) (fs : List Finding) (st : State P)
      → occurrence_total fs < fuel
      → enter sha256 P fuel fs st ≢ none
  unfolding enter
  enter-ne-none fuel fs st h = grind (arith, begin-ne-none)

  execute-ne-none :
      (fuel : ℕ) (request : Request) (w : P.World)
      → occurrence_total request.initial_findings < fuel
      → execute sha256 P fuel request w ≢ none
  unfolding execute
  execute-ne-none fuel request w h = grind (arith, enter-ne-none)

  -- `Execute` returns an outcome on every request and with every behaviour of the adapter, the
  -- workspace, the validator, the barrier, the clock and the context: fuel above the number of
  -- places that the initial findings name is never used up.
  pub execute-returns :
      (fuel : ℕ) (request : Request) (w : P.World)
      → occurrence_total request.initial_findings < fuel
      → (r : Outcome × State P) × (execute sha256 P fuel request w ≡ some r)
  execute-returns fuel request w h = elim (Option-cases (execute sha256 P fuel request w)) [
    | inl e ↦ absurd (execute-ne-none fuel request w h e)
    | inr r ↦ r
  ]
