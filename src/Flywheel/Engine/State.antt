-- ===== src/Flywheel/Engine/State.antt =====
-- internal/flywheel/engine.go: the engine's state, its persistence, its outcomes, and the stops by
-- context and by rail. Each function takes the state and gives its result and the next state.
use togi.Prelude.{
  ℕ, suc, Bool, true, false, Option, none, some, List, [], ◌∷◌, ◌++◌, ◌==◌, if◌then◌else◌,
}
use togi.Text.{Bytes}
use togi.Finding.{Finding}
use togi.Finding.Group.{grouped, invalid, panicked, group}
use togi.Flywheel.Rails.{
  Rails, RailError, uninitialized, is_uninitialized, is_exhausted, rail_error_text, admit_attempt,
  admit_landing, snapshot, observe_execution_context,
}
use togi.Flywheel.Plan.{Batch, Plan}
use togi.Flywheel.Engine.Ports.{
  Ports, WriteReply, written, write_failed, ContextEnd, Outcome, OutcomeKind, rails_exhausted,
  errored, bounded_failure,
}

module _ (P : Ports) where
  open P use {World}

  -- `engineState`, the rails of the request and the world. A missing key of `semanticFindings`
  -- reads as no finding.
  pub record State : Type 0 where
    pub plan : Plan
    pub persisted : Plan
    pub semantic : ℕ → List Finding
    pub rails : Rails
    pub world : World

  abbrev pub set_semantic : ℕ → List Finding → State → State
  set_semantic index fs st = record st { semantic = λ i. if i == index then fs else st.semantic i }

  -- A port's call.
  abbrev pub act : {A : Type 0} → (World → A × World) → State → A × State
  act port st = let (a, w) = port st.world in (a, record st { world = w })

  unfoldable pub persist : State → WriteReply × State
  persist st =
      let (reply, st') = act (P.write_plan st.plan) st in
      elim reply [
        | written ↦ (written, record st' { persisted = st'.plan })
        | write_failed text published ↦ (
          write_failed text published,
          if published then record st' { persisted = st'.plan } else st',
        )
      ]

  -- Rails that are not usable refuse before they read the clock.
  abbrev with_clock : (Rails → ℕ → Rails × Option RailError) → State → Option RailError × State
  with_clock method st =
      if is_uninitialized st.rails
      then (some uninitialized, st)
      else let (now, w) = P.clock st.world in
        let (r, e) = method st.rails now in (e, record st { rails = r; world = w })

  unfoldable pub attempt_admission : State → Option RailError × State
  attempt_admission = with_clock admit_attempt

  unfoldable pub landing_admission : State → Option RailError × State
  landing_admission = with_clock admit_landing

  -- `engineOutcome`: the snapshot of the rails reads the clock.
  unfoldable pub engine_outcome : OutcomeKind → List Finding → Bytes → State → Outcome × State
  engine_outcome kind findings failure st =
      let (now, w) = P.clock st.world in
      let (r, view) = snapshot st.rails now in
      (
        record {
          kind = kind;
          plan = st.persisted;
          findings = findings;
          iterations = view.iterations;
          failure = bounded_failure failure;
        },
        record st { rails = r; world = if st.rails.has_clock then w else st.world },
      )

  abbrev pub rail_kind : RailError → OutcomeKind
  rail_kind e = if is_exhausted e then rails_exhausted else errored

  -- `railExhaustedNow`
  unfoldable pub rail_exhausted_now : State → Bool × State
  rail_exhausted_now st =
      let (e, st') = landing_admission st in
      elim e [ none ↦ (false, st') | some x ↦ (is_exhausted x, st') ]

  -- `stopForContext` for a context that has ended. A context that has ended stays ended.
  unfoldable pub stop_for_end : ContextEnd → State → Outcome × State
  stop_for_end e st =
      if e.by_rail
      then engine_outcome rails_exhausted [] e.cause
          (record st { rails = observe_execution_context st.rails true })
      else let (late, st') = rail_exhausted_now st in
        engine_outcome (if late then rails_exhausted else errored) [] e.text st'

  unfoldable pub stop_for_context : State → Option Outcome × State
  stop_for_context st =
      let (e, st1) = act P.context_err st in
      elim e [ none ↦ (none, st1) | some x ↦ let (o, st2) = stop_for_end x st1 in (some o, st2) ]

  unfoldable pub stop_for_rail : State → Option Outcome × State
  stop_for_rail st =
      let (e, st1) = landing_admission st in
      elim e [
        | none ↦ (none, st1)
        | some x ↦
            let (o, st2) = engine_outcome (rail_kind x) [] (rail_error_text x) st1 in (some o, st2)
      ]

  abbrev semantic_of : (ℕ → List Finding) → ℕ → List Batch → List Finding
  semantic_of semantic index [] = []
  semantic_of semantic index (b ∷ bs) = semantic index ++ semantic_of semantic (suc index) bs

  -- A panic of `Group` is the caller's findings too: the source has no result to give then.
  unfoldable pub outcome_findings : (Bytes → Bytes) → State → List Finding → List Finding
  outcome_findings sha256 st additional =
      let combined = additional ++ semantic_of st.semantic 0 st.plan.batches in
      elim (group sha256 combined) [
        | grouped fs ↦ fs
        | invalid _ _ ↦ combined
        | panicked ↦ combined
      ]
