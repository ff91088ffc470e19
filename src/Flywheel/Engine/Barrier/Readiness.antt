-- ===== src/Flywheel/Engine/Barrier/Readiness.antt =====
-- internal/flywheel/engine.go: when the barrier lets a run end as ready, and when a next wave begins.
use togi.Prelude.{◌≡◌, ◌↔◌, Bool, true, false, [], arith, ◌≢◌}
use togi.Text.{Bytes}
use togi.Flywheel.Multiset.{Counts, strictly_shrinks}
use togi.Flywheel.Plan.{PlanResult, blocking_multiset}
use togi.Flywheel.Engine.Ports.{Ports, ValidationResult, passed, ready}
use togi.Flywheel.Engine.Barrier.{
  terminal, shrunk, classify_evidence, classify_barrier, validate_barrier_result,
}

-- The evidence of a finished run: the full run passed, with no blocking finding and no stuck batch.
pub record IsFinished {Proof : Type 0} (sha256 : Bytes → Bytes) (v : ValidationResult Proof)
    (stuck : Bool) : Type 0 where
  pub kind : v.kind ≡ passed
  pub clear : blocking_multiset sha256 v.findings ≡ PlanResult.ok []
  pub quiet : v.failure ≡ []
  pub unstuck : stuck ≡ false

-- The evidence for a next wave: the full run passed, no batch of the wave is stuck, and the blocking
-- findings are fewer, but not none.
pub record IsProgress {Proof : Type 0} (sha256 : Bytes → Bytes) (v : ValidationResult Proof)
    (before after : Counts) (stuck : Bool) : Type 0 where
  pub kind : v.kind ≡ passed
  pub counted : blocking_multiset sha256 v.findings ≡ PlanResult.ok after
  pub left : after ≢ []
  pub fewer : strictly_shrinks after before ≡ true
  pub quiet : v.failure ≡ []
  pub unstuck : stuck ≡ false

module _ (sha256 : Bytes → Bytes) (P : Ports) where
  IsFinished-of :
      (v : ValidationResult P.Proof) (before : Counts) (stuck : Bool) (failure : Bytes)
      → classify_evidence sha256 P v before stuck ≡ terminal ready failure
      → IsFinished sha256 v stuck
  unfolding classify_evidence classify_barrier validate_barrier_result
  IsFinished-of v before stuck failure h = ground (arith, h)

  finished_terminal :
      (v : ValidationResult P.Proof) (before : Counts) (stuck : Bool)
      → IsFinished sha256 v stuck
      → classify_evidence sha256 P v before stuck ≡ terminal ready []
  unfolding classify_evidence classify_barrier validate_barrier_result
  finished_terminal v before stuck h = ground (arith, h)

  -- The barrier's evidence ends the run as ready exactly when the full run passed without a failure,
  -- no finding blocks and no batch of the wave is stuck.
  pub classify_evidence-ready :
      (v : ValidationResult P.Proof) (before : Counts) (stuck : Bool)
      → (classify_evidence sha256 P v before stuck ≡ terminal ready []) ↔ IsFinished sha256 v stuck
  classify_evidence-ready v before stuck =
      (IsFinished-of v before stuck [], finished_terminal v before stuck)

  IsProgress-of :
      (v : ValidationResult P.Proof) (before after : Counts) (stuck : Bool)
      → classify_evidence sha256 P v before stuck ≡ shrunk after
      → IsProgress sha256 v before after stuck
  unfolding classify_evidence classify_barrier validate_barrier_result
  IsProgress-of v before after stuck h = ground (arith, h)

  shrunk_progress :
      (v : ValidationResult P.Proof) (before after : Counts) (stuck : Bool)
      → IsProgress sha256 v before after stuck
      → classify_evidence sha256 P v before stuck ≡ shrunk after
  unfolding classify_evidence classify_barrier validate_barrier_result
  shrunk_progress v before after stuck h = ground (arith, h)

  -- The barrier's evidence is classified as shrunk to a multiset exactly when the full run passed
  -- without a failure, no batch of the wave is stuck, and the multiset is that of the run's findings,
  -- not empty, and strictly shrunk.
  pub classify_evidence-shrunk :
      (v : ValidationResult P.Proof) (before after : Counts) (stuck : Bool)
      → (classify_evidence sha256 P v before stuck ≡ shrunk after)
        ↔ IsProgress sha256 v before after stuck
  classify_evidence-shrunk v before after stuck =
      (IsProgress-of v before after stuck, shrunk_progress v before after stuck)
