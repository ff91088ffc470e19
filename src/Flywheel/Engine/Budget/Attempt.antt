-- ===== src/Flywheel/Engine/Budget/Attempt.antt =====
-- internal/flywheel/engine.go: an attempt and the iterations rail.
use togi.Prelude.{ℕ, ◌+◌, ◌≡◌, Bool, none, some, List, [], ◌∷◌, arith, length, length-append}
use togi.Text.{Bytes}
use togi.Finding.{Finding}
use togi.Flywheel.Rails.{rail_error_text}
use togi.Flywheel.Plan.{Batch, blocking_multiset}
use togi.Flywheel.Engine.Ports.{Ports, ValidationResult, OutcomeKind, errored, bounded_failure}
use togi.Flywheel.Engine.State.{
  State, act, engine_outcome, stop_for_end, stop_for_context, stop_for_rail, set_semantic,
  rail_kind,
}
use togi.Flywheel.Engine.Step.{Step, ◌>>=◌, ◌>>◌, Run, modify}
use togi.Flywheel.Engine.Attempt.{
  update_batch, fail_and_reset, stop_with, infrastructure, checkpoint_context, checkpoint, prepare,
  run_agent, prepare_proof, judge, validate_batch, commit, run_attempt, validate_attempt_result,
}
use togi.Flywheel.Engine.Budget.Total.{attempt_total-update, attempt_total-add, length-set_last}
use togi.Flywheel.Engine.Budget.Cases.{
  Keeps-option, Keeps-reply, Keeps-files, Keeps-write, Keeps-write_commit, Keeps-git, Keeps-adapter,
  Keeps-plan, Keeps-kind,
}
use togi.Flywheel.Engine.Budget.Steps.{
  Fits, Keeps, KeepsRun, Keeps-act, Keeps-persist, Keeps-landing, Keeps-engine_outcome,
  Keeps-stop_for_end, Keeps-stop_for_context, Keeps-stop_for_rail, Keeps-pure, Keeps-halt,
  Keeps-lift, Keeps-gets, Keeps-bind, Keeps-then, Keeps-stop, Keeps-option_stop, IsWithinStep,
  start_keeps,
}

module _ (sha256 : Bytes → Bytes) {P : Ports} (limit : ℕ) where
  Fits-update :
      (slack index : ℕ) (f : Batch → Batch) (st : State P)
      → ((b : Batch) → length (f b).attempts ≡ length b.attempts)
      → Fits limit slack st
      → Fits limit slack
          (record st { plan = record (st.plan) { batches = update_batch index f st.plan.batches } })
  Fits-update slack index f st e h = record {
    running = h.running;
    limited = h.limited;
    planned = rw (attempt_total-update index f st.plan.batches e) h.planned;
    kept = h.kept;
  }

  Keeps-update :
      (index : ℕ) (f : Batch → Batch)
      → ((b : Batch) → length (f b).attempts ≡ length b.attempts)
      → KeepsRun limit (
          modify (λ (st : State P). record st {
            plan = record (st.plan) { batches = update_batch index f st.plan.batches };
          }))
  Keeps-update index f e = record { at = λ st h. (tt, Fits-update 0 index f st e h) }

  pub Keeps-fail_and_reset :
      (index number : ℕ) (failure : Bytes)
      → Keeps limit (fail_and_reset sha256 P index number failure)
  unfolding fail_and_reset
  Keeps-fail_and_reset index number failure = record {
    at = λ slack st h. (Keeps-act limit P.reset_attempt).at slack _ (
        (Keeps-persist limit).at slack _
          (Fits-update slack index _ st (λ b. length-set_last _ b.attempts) h));
  }

  Keeps-stop_with :
      {A : Type 0} (kind : OutcomeKind) (failure : Bytes)
      → KeepsRun limit (stop_with sha256 P {A = A} kind failure)
  unfolding stop_with
  Keeps-stop_with kind failure =
      Keeps-stop limit (engine_outcome P kind [] failure)
        (Keeps-engine_outcome limit kind [] failure)

  Keeps-infrastructure :
      {A : Type 0} (failure : Bytes) (retryable : Bool) (fs : List Finding)
      → KeepsRun limit (infrastructure sha256 P {A = A} failure retryable fs)
  unfolding infrastructure
  Keeps-infrastructure failure retryable fs = Keeps-halt limit _ tt

  Keeps-port :
      {A B : Type 0} (port : P.World → A × P.World) (f : A → Run P B)
      → ((a : A) → KeepsRun limit (f a))
      → KeepsRun limit ((λ st. (Step.next (act P port st).0, (act P port st).1)) >>= f)
  Keeps-port port f k =
      Keeps-bind limit _ f (Keeps-lift limit (act P port) (Keeps-act limit port)) k

  Keeps-checkpoint_context :
      (index number : ℕ) → KeepsRun limit (checkpoint_context sha256 P index number)
  unfolding checkpoint_context
  Keeps-checkpoint_context index number = Keeps-port P.context_err _ (elim [
    | none ↦ Keeps-pure limit tt
    | some e ↦
        Keeps-bind limit _ _ (Keeps-lift limit _ (Keeps-fail_and_reset index number e.text)) (elim [
          | some text ↦ Keeps-stop_with errored text
          | none ↦ Keeps-stop limit (stop_for_end P e) (Keeps-stop_for_end limit e)
        ])
  ])

  Keeps-checkpoint : (index number : ℕ) → KeepsRun limit (checkpoint sha256 P index number)
  unfolding checkpoint
  Keeps-checkpoint index number = Keeps-then limit _ _ (Keeps-checkpoint_context index number) (
      Keeps-bind limit _ _ (Keeps-lift limit _ (Keeps-landing limit)) (elim [
        | none ↦ Keeps-pure limit tt
        | some e ↦
            Keeps-bind limit _ _ (Keeps-lift limit _ (Keeps-fail_and_reset index number _)) (elim [
              | some text ↦ Keeps-stop_with errored text
              | none ↦ Keeps-stop_with (rail_kind P e) (bounded_failure (rail_error_text e))
            ])
      ]))

  Keeps-semantic :
      (index : ℕ) (fs : List Finding) → KeepsRun limit (modify (set_semantic P index fs))
  Keeps-semantic index fs = record {
    at = λ st h. (
      tt,
      record { running = h.running; limited = h.limited; planned = h.planned; kept = h.kept },
    );
  }

  Keeps-run_agent :
      (index number : ℕ) (brief : Bytes) (sink : P.Sink)
      → KeepsRun limit (run_agent sha256 P index number (brief, sink))
  unfolding run_agent
  Keeps-run_agent index number brief sink = Keeps-port P.snapshot_git_state _ λ snapshot.
      Keeps-then limit _ _ (Keeps-checkpoint index number) (
        Keeps-reply limit snapshot _ _ (λ text. Keeps-infrastructure _ _ _)
          λ git_state. Keeps-port (P.run_adapter P.root brief sink) _ λ outcome.
            Keeps-port (P.check_git_state git_state) _ λ check.
              Keeps-git limit check _ _ _ (λ text. Keeps-infrastructure _ _ _)
                (λ text. Keeps-halt limit _ tt)
                (Keeps-then limit _ _ (Keeps-checkpoint index number) (
                  Keeps-adapter limit outcome _ _ (Keeps-pure limit tt)
                    λ text retryable. Keeps-infrastructure _ _ _)))

  Keeps-judge : (index : ℕ) (v : ValidationResult P.Proof) → KeepsRun limit (judge sha256 P index v)
  unfolding judge
  Keeps-judge index v =
      Keeps-plan limit (blocking_multiset sha256 v.findings) _ _ (λ e. Keeps-infrastructure _ _ _)
        λ _.
          Keeps-option limit (validate_attempt_result P.present v) _ _
            (Keeps-kind limit v.kind _ _ _ _
              (Keeps-then limit _ _ (Keeps-semantic index v.findings) (Keeps-halt limit _ tt))
              (Keeps-then limit _ _ (Keeps-semantic index []) (Keeps-pure limit v.proof))
              (Keeps-infrastructure _ _ _) (λ t. Keeps-infrastructure _ _ _))
            (λ text. Keeps-infrastructure _ _ _)

  Keeps-prepare_proof : (index number : ℕ) → KeepsRun limit (prepare_proof sha256 P index number)
  unfolding prepare_proof
  Keeps-prepare_proof index number = Keeps-port P.changed_files _ λ files.
      Keeps-then limit _ _ (Keeps-checkpoint index number) (
        Keeps-files limit files _ _ _ (λ text. Keeps-infrastructure _ _ _) (Keeps-halt limit _ tt)
          λ f fs. Keeps-port (P.prepare_batch (f ∷ fs)) _ λ proof.
            Keeps-then limit _ _ (Keeps-checkpoint_context index number) (
              Keeps-reply limit proof _ _ (λ text. Keeps-infrastructure _ _ _)
                λ p. Keeps-pure limit (f ∷ fs, p)))

  Keeps-validate_batch :
      (index number : ℕ) (changed : List Bytes) (proof : P.Proof)
      → KeepsRun limit (validate_batch sha256 P index number (changed, proof))
  unfolding validate_batch
  Keeps-validate_batch index number changed proof =
      Keeps-bind limit _ _ (Keeps-gets limit _) λ batch. Keeps-port (P.validate batch proof) _ λ v.
        Keeps-port (P.verify_batch proof) _ λ verified.
          Keeps-reply limit verified _ _
            (λ text. Keeps-port P.context_err _ λ end.
              Keeps-option limit end _ _
                (Keeps-then limit _ _ (Keeps-checkpoint index number) (Keeps-judge index _))
                λ e. Keeps-infrastructure _ _ _)
            λ u. Keeps-then limit _ _ (Keeps-checkpoint index number) (Keeps-judge index _)

  Keeps-commit :
      (index number : ℕ) (changed : List Bytes) (proof : P.Proof)
      → KeepsRun limit (commit sha256 P index number changed proof)
  unfolding commit
  Keeps-commit index number changed proof = Keeps-then limit _ _ (Keeps-checkpoint index number) (
      Keeps-bind limit _ _ (Keeps-gets limit _) λ batch.
        Keeps-port (P.commit_batch batch.primary_file proof) _ λ reply.
          Keeps-reply limit reply _ _
            (λ text.
              Keeps-then limit _ _ (Keeps-checkpoint_context index number)
                (Keeps-infrastructure _ _ _))
            λ hash.
              Keeps-then limit _ _ (Keeps-update index _ (λ b. length-set_last _ b.attempts)) (
                Keeps-bind limit _ _ (Keeps-lift limit _ (Keeps-persist limit)) λ w.
                  Keeps-write_commit limit w _ _ _ (λ text. Keeps-stop_with errored _)
                    (λ text. Keeps-port (P.rollback_batch hash) _ λ rollback.
                      Keeps-reply limit rollback _ _ (λ more. Keeps-stop_with errored _)
                        λ u. Keeps-stop_with errored _)
                    (Keeps-option_stop limit (stop_for_context P) (Keeps-stop_for_context limit) _ (
                      Keeps-option_stop limit (stop_for_rail P) (Keeps-stop_for_rail limit) _
                        (Keeps-pure limit tt)))))

  Keeps-prepared :
      (index number : ℕ) (prepared : List Bytes × P.Proof)
      → KeepsRun limit (
          validate_batch sha256 P index number prepared >>= λ proof.
          commit sha256 P index number prepared.0 proof)
  Keeps-prepared index number (changed, proof) =
      Keeps-bind limit _ _ (Keeps-validate_batch index number changed proof)
        λ p. Keeps-commit index number changed p

  Keeps-agent :
      (index number : ℕ) (brief : Bytes × P.Sink)
      → KeepsRun limit (
          run_agent sha256 P index number brief
          >> (prepare_proof sha256 P index number >>= λ prepared.
              validate_batch sha256 P index number prepared >>= λ proof.
              commit sha256 P index number prepared.0 proof))
  Keeps-agent index number (brief, sink) =
      Keeps-then limit _ _ (Keeps-run_agent index number brief sink)
        (Keeps-bind limit _ _ (Keeps-prepare_proof index number) (Keeps-prepared index number))

  Fits-start :
      (index : ℕ) (f : Batch → Batch) (st : State P)
      → ((b : Batch) → length (f b).attempts ≡ length b.attempts + 1)
      → Fits limit 1 st
      → Fits limit 0
          (record st { plan = record (st.plan) { batches = update_batch index f st.plan.batches } })
  Fits-start index f st e h = record {
    running = h.running;
    limited = h.limited;
    planned = omega (arith, h.planned, attempt_total-add index f st.plan.batches e);
    kept = h.kept;
  }

  -- An admitted attempt leaves no more attempts in the plan than have been admitted, and so does the
  -- outcome that it may stop with.
  pub run_attempt_keeps :
      (index number : ℕ) (retry_failure : Bytes) (st : State P)
      → Fits limit 1 st
      → IsWithinStep limit (run_attempt sha256 P index number retry_failure st).0
        × Fits limit 0 (run_attempt sha256 P index number retry_failure st).1
  unfolding run_attempt prepare
  run_attempt_keeps index number retry_failure =
      start_keeps limit _ _ _ (λ st h. Fits-start index _ st (λ b. length-append b.attempts _) h)
        (Keeps-bind limit _ _
          (Keeps-bind limit _ _ (Keeps-lift limit _ (Keeps-persist limit)) λ w.
            Keeps-write limit w _ _ (λ text b. Keeps-infrastructure _ _ _)
              (Keeps-then limit _ _ (Keeps-checkpoint index number) (
                Keeps-bind limit _ _ (Keeps-gets limit _) λ batch.
                  Keeps-reply limit (P.build_brief batch retry_failure) _ _
                    (λ text. Keeps-infrastructure _ _ _)
                    λ brief. Keeps-port (P.write_brief batch.id number brief) _ λ wrote.
                      Keeps-reply limit wrote _ _ (λ text. Keeps-infrastructure _ _ _)
                        λ u. Keeps-then limit _ _ (Keeps-checkpoint index number) (
                          Keeps-port (P.adapter_sink batch.id number) _ λ sink.
                            Keeps-reply limit sink _ _ (λ text. Keeps-infrastructure _ _ _)
                              λ s.
                                Keeps-then limit _ _ (Keeps-checkpoint index number)
                                  (Keeps-pure limit (brief, s))))))
          (Keeps-agent index number))
