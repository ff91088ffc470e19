-- ===== src/Flywheel/Engine/Ports.antt =====
-- internal/flywheel/engine.go: what the engine is given (`Audit`, `WorkspacePort`, `Ports`), its
-- results, and the bound on a failure's text. `World` is all that the ports and the clock read and
-- change. A port that takes a context may end it: each reading of the context asks the world.
pub mod Bounded
use togi.Prelude.{
  ℕ, zero, suc, ◌-◌, ◌+◌, ◌≡◌, Bool, true, false, Option, none, some, List, [], ◌∷◌, ◌++◌, leb,
  if◌then◌else◌, length, take,
}
use togi.Text.{Bytes, ascii}
use togi.Text.Utf8.{to_valid_utf8, rune_start}
use togi.Finding.{Finding}
use togi.Flywheel.Plan.{Batch, Plan, PlanError}

pub data ValidationKind : Type 0 where
  passed semantic_failure infrastructure_failure : ValidationKind
  other_kind : Bytes → ValidationKind

pub record ValidationResult (Proof : Type 0) : Type 0 where
  pub kind : ValidationKind
  pub failure : Bytes
  pub findings : List Finding
  pub changed_files : List Bytes
  pub proof : Proof

pub data Reply (A : Type 0) : Type 0 where
  ok : A → Reply A
  err : Bytes → Reply A

-- A failed write of the plan says whether the plan was published all the same.
pub data WriteReply : Type 0 where
  written : WriteReply
  write_failed : Bytes → Bool → WriteReply

pub data GitCheck : Type 0 where
  git_intact : GitCheck
  git_restored git_unsafe : Bytes → GitCheck

-- A failed run says whether its error is a retryable `*adapter.Error`.
pub data AdapterReply : Type 0 where
  adapter_done : AdapterReply
  adapter_failed : Bytes → Bool → AdapterReply

-- A context that has ended: the texts of ctx.Err() and of context.Cause(ctx), and whether the
-- cause is an exhausted rail.
pub record ContextEnd : Type 0 where
  pub text : Bytes
  pub cause : Bytes
  pub by_rail : Bool

pub record Ports : Type 1 where
  pub World : Type 0
  pub GitState : Type 0
  pub Proof : Type 0
  pub Sink : Type 0
  pub root : Bytes
  -- the clock of the rails, and ctx.Err() with context.Cause
  pub clock : World → ℕ × World
  pub context_err : World → Option ContextEnd × World
  -- `BatchProof{}` and `present`
  pub no_proof : Proof
  pub present : Proof → Bool
  -- Audit
  pub write_plan : Plan → World → WriteReply × World
  pub write_brief : Bytes → ℕ → Bytes → World → Reply (Unit {0}) × World
  pub adapter_sink : Bytes → ℕ → World → Reply Sink × World
  -- WorkspacePort
  pub snapshot_git_state : World → Reply GitState × World
  pub check_git_state : GitState → World → GitCheck × World
  pub changed_files : World → Reply (List Bytes) × World
  pub prepare_batch : List Bytes → World → Reply Proof × World
  pub verify_batch : Proof → World → Reply (Unit {0}) × World
  pub reset_attempt : World → Reply (Unit {0}) × World
  pub commit_batch : Bytes → Proof → World → Reply Bytes × World
  pub rollback_batch : Bytes → World → Reply (Unit {0}) × World
  -- Adapter, Validate, Barrier; the batch's proof is an argument of its own
  pub run_adapter : Bytes → Bytes → Sink → World → AdapterReply × World
  pub validate : Batch → Proof → World → ValidationResult Proof × World
  pub barrier : World → ValidationResult Proof × World
  -- BuildBrief of brief.go on the run's revisions, the batch and the retry failure; and the text
  -- of a plan's error, which no decision reads
  pub build_brief : Batch → Bytes → Reply Bytes
  pub plan_error_text : PlanError → Bytes

pub data OutcomeKind : Type 0 where
  ready blocked rails_exhausted errored : OutcomeKind

pub record Outcome : Type 0 where
  pub kind : OutcomeKind
  pub plan : Plan
  pub findings : List Finding
  pub iterations : ℕ
  pub failure : Bytes

abbrev pub failure_truncation_marker : Bytes
failure_truncation_marker = 10 ∷ ascii "...[truncated]"

abbrev pub max_diagnostic_bytes : ℕ
max_diagnostic_bytes = 16384

abbrev pub max_attempts : ℕ
max_attempts = 2

-- s[i], in range where it is read
abbrev pub byte_at : ℕ → Bytes → ℕ
byte_at i [] = 0
byte_at zero (c ∷ s) = c
byte_at (suc i) (c ∷ s) = byte_at i s

-- `for limit > 0 && !utf8.RuneStart(failure[limit]) { limit-- }`
unfoldable pub rune_boundary : ℕ → Bytes → ℕ
rune_boundary zero s = 0
rune_boundary (suc n) s =
    let shorter = rune_boundary n s in if rune_start (byte_at (suc n) s) then suc n else shorter

unfoldable pub bounded_failure : Bytes → Bytes
bounded_failure failure =
    let text = to_valid_utf8 failure in
    if leb (length text) max_diagnostic_bytes
    then text
    else take (rune_boundary (max_diagnostic_bytes - length failure_truncation_marker) text) text
      ++ failure_truncation_marker
