-- ===== src/Flywheel/Engine/Attempt.antt =====
-- internal/flywheel/engine.go: one attempt at one batch, `batchAttempt.run`.
use togi.Prelude.{
  ℕ, zero, suc, Bool, true, false, not, Option, none, some, List, [], ◌∷◌, ◌++◌, if◌then◌else◌,
}
use togi.Text.{Bytes, ascii, is_empty}
use togi.Finding.{Finding}
use togi.Flywheel.Rails.{rail_error_text}
use togi.Flywheel.Plan
use togi.Flywheel.Plan.{
  Batch, BatchStatus, batch_running, batch_done, Attempt, attempt_running, attempt_passed,
  attempt_failed, Plan, empty_plan, PlanResult, blocking_multiset,
}
use togi.Flywheel.Engine.Ports.{
  Ports, ValidationResult, passed, semantic_failure, infrastructure_failure, other_kind, ok, err,
  written, write_failed, git_intact, git_restored, git_unsafe, adapter_done, adapter_failed,
  OutcomeKind, errored, bounded_failure,
}
use togi.Flywheel.Engine.State.{
  State, set_semantic, act, persist, engine_outcome, landing_admission, rail_kind, stop_for_end,
  stop_for_context, stop_for_rail,
}
use togi.Flywheel.Engine.Step.{
  semantic_failed, infrastructure_failed, stopped, Run, ◌>>=◌, ◌>>◌, pure, halt, lift, modify, gets,
}

-- plan.Batches[index]; the engine's indices are in range.
abbrev pub no_batch : Batch
no_batch = record {
  id = [];
  primary_file = [];
  findings = [];
  status = Plan.batch_pending;
  attempts = [];
  identity = record { wave_digest = []; identity_proof = [] };
}

abbrev pub batch_at : ℕ → List Batch → Batch
batch_at i [] = no_batch
batch_at zero (b ∷ bs) = b
batch_at (suc i) (b ∷ bs) = batch_at i bs

abbrev pub update_batch : ℕ → (Batch → Batch) → List Batch → List Batch
update_batch i f [] = []
update_batch zero f (b ∷ bs) = f b ∷ bs
update_batch (suc i) f (b ∷ bs) = b ∷ update_batch i f bs

-- attempts[len(attempts)-1] = a
abbrev pub set_last : Attempt → List Attempt → List Attempt
set_last a [] = []
set_last a (b ∷ []) = a ∷ []
set_last a (b ∷ c ∷ bs) = b ∷ set_last a (c ∷ bs)

-- `validateAttemptResult`: the first thing that is wrong, if any
unfoldable pub validate_attempt_result :
    {Proof : Type 0} → (Proof → Bool) → ValidationResult Proof → Option Bytes
validate_attempt_result present v = elim v.kind [
  | passed ↦
      if not (is_empty v.failure)
      then some (ascii "passed result includes a failure")
      else elim v.findings [
        | _ ∷ _ ↦ some (ascii "passed result includes blocking findings")
        | [] ↦
            if not (present v.proof)
            then some (ascii "passed result lacks a prepared batch proof")
            else none
      ]
  | semantic_failure ↦
      if is_empty v.failure
      then some (ascii "semantic failure requires a reason")
      else if present v.proof
      then some (ascii "semantic failure includes a batch proof")
      else none
  | infrastructure_failure ↦
      if is_empty v.failure
      then some (ascii "infrastructure failure requires a reason")
      else if present v.proof
      then some (ascii "infrastructure failure includes a batch proof")
      else none
  | other_kind k ↦ some (ascii "unknown validation kind \"" ++ (k ++ ascii "\""))
]

module _ (sha256 : Bytes → Bytes) (P : Ports) where
  open P use {Proof, Sink}

  abbrev on_batch : ℕ → (Batch → Batch) → State P → State P
  on_batch index f st = record st {
    plan = record (st.plan) { batches = update_batch index f st.plan.batches };
  }

  abbrev current : ℕ → State P → Batch
  current index st = batch_at index st.plan.batches

  -- `failAndReset`: the text of its error, if any
  unfoldable pub fail_and_reset : ℕ → ℕ → Bytes → State P → Option Bytes × State P
  fail_and_reset index number failure st =
      let a : Attempt = record {
        number = number;
        status = attempt_failed;
        failure = bounded_failure failure;
        changed_files = [];
        commit = [];
      } in
      let (w, st1) =
        persist P (on_batch index (λ b. record b { attempts = set_last a b.attempts }) st) in
      let (r, st2) = act P P.reset_attempt st1 in
      (
        elim w [
          | write_failed text _ ↦ elim r [
            | err more ↦
                some (ascii "write failed plan: " ++ (text ++ (ascii "; reset attempt: " ++ more)))
            | ok _ ↦ some (ascii "write failed plan: " ++ text)
          ]
          | written ↦ elim r [ err more ↦ some (ascii "reset attempt: " ++ more) | ok _ ↦ none ]
        ],
        st2,
      )

  -- `attempt.stopped`
  unfoldable pub stop_with : {A : Type 0} → OutcomeKind → Bytes → Run P A
  stop_with kind failure = do o ← lift (engine_outcome P kind [] failure); halt (stopped o)

  unfoldable pub infrastructure : {A : Type 0} → Bytes → Bool → List Finding → Run P A
  infrastructure failure retryable findings =
      halt (infrastructure_failed (bounded_failure failure) findings retryable)

  unfoldable pub checkpoint_context : ℕ → ℕ → Run P (Unit {0})
  checkpoint_context index number = do
    end ← lift (act P P.context_err)
    elim end [
      | none ↦ pure tt
      | some e ↦ do
        reset ← lift (fail_and_reset index number e.text)
        elim reset [
          | some text ↦ stop_with errored text
          | none ↦ do o ← lift (stop_for_end P e); halt (stopped o)
        ]
    ]

  unfoldable pub checkpoint : ℕ → ℕ → Run P (Unit {0})
  checkpoint index number = do
    checkpoint_context index number
    refusal ← lift (landing_admission P)
    elim refusal [
      | none ↦ pure tt
      | some e ↦ do
        let failure = bounded_failure (rail_error_text e)
        reset ← lift (fail_and_reset index number failure)
        elim reset [ some text ↦ stop_with errored text | none ↦ stop_with (rail_kind P e) failure ]
    ]

  -- The first part of `run`: the running plan, the brief and the adapter's sink.
  unfoldable pub prepare : ℕ → ℕ → Bytes → Run P (Bytes × Sink)
  prepare index number retry_failure = do
    let a : Attempt = record {
      number = number;
      status = attempt_running;
      failure = [];
      changed_files = [];
      commit = [];
    }
    modify
        (on_batch index (λ b. record b { status = batch_running; attempts = b.attempts ++ a ∷ [] }))
    w ← lift (persist P)
    elim w [
      | write_failed text _ ↦ infrastructure (ascii "write running plan: " ++ text) false []
      | written ↦ do
        checkpoint index number
        batch ← gets (current index)
        elim (P.build_brief batch retry_failure) [
          | err text ↦ infrastructure (ascii "build brief: " ++ text) false []
          | ok brief ↦ do
            wrote ← lift (act P (P.write_brief batch.id number brief))
            elim wrote [
              | err text ↦ infrastructure (ascii "write brief: " ++ text) false []
              | ok _ ↦ do
                checkpoint index number
                sink ← lift (act P (P.adapter_sink batch.id number))
                elim sink [
                  | err text ↦ infrastructure (ascii "allocate adapter sink: " ++ text) false []
                  | ok s ↦ do checkpoint index number; pure (brief, s)
                ]
            ]
        ]
    ]

  -- The second part: the adapter's run between two looks at the Git state.
  unfoldable pub run_agent : ℕ → ℕ → Bytes × Sink → Run P (Unit {0})
  run_agent index number (brief, sink) = do
    snapshot ← lift (act P P.snapshot_git_state)
    checkpoint index number
    elim snapshot [
      | err text ↦ infrastructure (ascii "snapshot Git state: " ++ text) false []
      | ok git_state ↦ do
        outcome ← lift (act P (P.run_adapter P.root brief sink))
        check ← lift (act P (P.check_git_state git_state))
        elim check [
          | git_unsafe text ↦
              infrastructure (bounded_failure (ascii "check Git state: " ++ text)) false []
          | git_restored text ↦
              halt (semantic_failed (bounded_failure (ascii "check Git state: " ++ text)) true)
          | git_intact ↦ do
            checkpoint index number
            elim outcome [
              | adapter_done ↦ pure tt
              | adapter_failed text retryable ↦
                  infrastructure (ascii "adapter: " ++ text) retryable []
            ]
        ]
    ]

  -- The third part: the changed files and the proof prepared from them.
  unfoldable pub prepare_proof : ℕ → ℕ → Run P (List Bytes × Proof)
  prepare_proof index number = do
    files ← lift (act P P.changed_files)
    checkpoint index number
    elim files [
      | err text ↦ infrastructure (ascii "inspect changed files: " ++ text) true []
      | ok [] ↦ halt (semantic_failed (ascii "agent produced no worktree changes") false)
      | ok (f ∷ fs) ↦ do
        proof ← lift (act P (P.prepare_batch (f ∷ fs)))
        checkpoint_context index number
        elim proof [
          | err text ↦ infrastructure (ascii "prepare batch proof: " ++ text) true []
          | ok p ↦ pure (f ∷ fs, p)
        ]
    ]

  -- The validation that stands behind the proof's verification.
  abbrev with_proof : Proof → ValidationResult Proof → ValidationResult Proof
  with_proof p v = elim v.kind [
    | passed ↦ record v { proof = p }
    | _ ↦ record v { proof = P.no_proof }
  ]

  abbrev unverified : List Bytes → Bytes → ValidationResult Proof
  unverified changed text = record {
    kind = infrastructure_failure;
    failure = bounded_failure (ascii "verify batch proof: " ++ text);
    findings = [];
    changed_files = changed;
    proof = P.no_proof;
  }

  -- The `switch` on the validation's kind, behind its checks.
  unfoldable pub judge : ℕ → ValidationResult Proof → Run P Proof
  judge index v = elim (blocking_multiset sha256 v.findings) [
    | PlanResult.err e ↦
        infrastructure (ascii "classify validation findings: " ++ P.plan_error_text e) false []
    | PlanResult.ok _ ↦ elim (validate_attempt_result P.present v) [
      | some text ↦ infrastructure (ascii "invalid batch validation: " ++ text) false []
      | none ↦ elim v.kind [
        | semantic_failure ↦ do
          modify (set_semantic P index v.findings)
          halt (semantic_failed (bounded_failure v.failure) false)
        | passed ↦ do modify (set_semantic P index []); pure v.proof
        | _ ↦ infrastructure v.failure true v.findings
      ]
    ]
  ]

  -- The fourth part: validation, and the verification of its proof.
  unfoldable pub validate_batch : ℕ → ℕ → List Bytes × Proof → Run P Proof
  validate_batch index number (changed, proof) = do
    batch ← gets (current index)
    v ← lift (act P (P.validate batch proof))
    verified ← lift (act P (P.verify_batch proof))
    elim verified [
      | ok _ ↦ do checkpoint index number; judge index (with_proof proof v)
      | err text ↦ do
        end ← lift (act P P.context_err)
        elim end [
          | some _ ↦ infrastructure (unverified changed text).failure false []
          | none ↦ do checkpoint index number; judge index (unverified changed text)
        ]
    ]

  abbrev done_batch : Attempt → Batch → Batch
  done_batch a b = record b { status = batch_done; attempts = set_last a b.attempts }

  -- The last part: the commit, and the plan that claims it.
  unfoldable pub commit : ℕ → ℕ → List Bytes → Proof → Run P (Unit {0})
  commit index number changed proof = do
    checkpoint index number
    batch ← gets (current index)
    reply ← lift (act P (P.commit_batch batch.primary_file proof))
    elim reply [
      | err text ↦ do
        checkpoint_context index number
        infrastructure (ascii "commit batch: " ++ text) true []
      | ok hash ↦ do
        let a : Attempt = record {
          number = number;
          status = attempt_passed;
          failure = [];
          changed_files = changed;
          commit = hash;
        }
        modify (on_batch index (done_batch a))
        w ← lift (persist P)
        elim w [
          | write_failed text true ↦ stop_with errored (ascii "write completed plan: " ++ text)
          | write_failed text false ↦ do
            rollback ← lift (act P (P.rollback_batch hash))
            elim rollback [
              | err more ↦ stop_with errored (
                  ascii "write completed plan: "
                  ++ (text ++ (ascii "; rollback committed batch: " ++ more)))
              | ok _ ↦ stop_with errored (ascii "write completed plan: " ++ text)
            ]
          | written ↦ do
            cancelled ← lift (stop_for_context P)
            elim cancelled [
              | some o ↦ halt (stopped o)
              | none ↦ do
                late ← lift (stop_for_rail P)
                elim late [ some o ↦ halt (stopped o) | none ↦ pure tt ]
            ]
        ]
    ]

  unfoldable pub run_attempt : ℕ → ℕ → Bytes → Run P (Unit {0})
  run_attempt index number retry_failure = do
    brief ← prepare index number retry_failure
    run_agent index number brief
    prepared ← prepare_proof index number
    proof ← validate_batch index number prepared
    commit index number prepared.0 proof
