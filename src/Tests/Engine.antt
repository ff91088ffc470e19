-- ===== src/Tests/Engine.antt =====
-- Runs of the rails and the engine.
use togi.Prelude.{
  ℕ, ◌+◌, ◌≡◌, refl, ◌↔◌, ◌≤◌, ◌<◌, ◌⊎◌, List, [], ◌∷◌, ◌++◌, none, some, Bool, true, false, arith,
  length, take,
}
use togi.Prelude.Int.{pos}
use togi.Text.{Bytes, ascii}
use togi.Text.Utf8.{to_valid_utf8, rune_start}
use togi.Flywheel.Rails.{
  wall_clock_rail, exhausted, RailConfig, Rails, new_rails, started, admit_attempt, admit_landing,
  is_uninitialized, observe_locked,
}
use togi.Flywheel.Rails.Budget.{
  RailCall, attempt, landing, call, calls, SawDeadline, IsRunning, calls_within_budget,
  exhausted_for_good,
}
use togi.Flywheel.Plan.{count_of}
use togi.Flywheel.Plan.Canonical.{occurrence_total}
use togi.Flywheel.Engine.Ports.{
  Ports, passed, ValidationResult, ok, written, git_intact, adapter_done, Outcome, ready,
  bounded_failure, byte_at, max_diagnostic_bytes, failure_truncation_marker,
}
use togi.Flywheel.Engine.Ports.Bounded.{length-bounded_failure}
use togi.Flywheel.Engine.State.{State}
use togi.Flywheel.Engine.Barrier.{terminal, shrunk, classify_evidence}
use togi.Flywheel.Engine.Barrier.Readiness.{
  IsFinished, IsProgress, classify_evidence-ready, classify_evidence-shrunk,
}
use togi.Flywheel.Engine.Loop.{Request, execute}
use togi.Flywheel.Engine.Loop.Termination.{execute-returns}
use togi.Flywheel.Engine.Budget.Total.{attempt_total}
use togi.Flywheel.Engine.Budget.Execute.{execute_within_rails}
use togi.Tests.Sample.{zero_digest, zero_print, blockers, head_revision}

-- Rails of three attempts and a hundred nanoseconds, started at 5.
abbrev small_config : RailConfig
small_config = record { max_iterations = pos 3; max_wall_clock = pos 100 }

abbrev small_rails : Rails
small_rails = record {
  max_iterations = 3;
  iterations = 0;
  max_wall_clock = 100;
  started_at = 5;
  deadline = 105;
  observed_at = 5;
  has_clock = true;
}

small_rails-started : new_rails small_config (some 5) ≡ started small_rails
unfolding new_rails
small_rails-started = refl

small_rails-IsRunning : IsRunning small_rails
small_rails-IsRunning = record {
  within = omega arith;
  ends = refl;
  begun = omega arith;
  some_iterations = omega arith;
  some_time = omega arith;
  clocked = refl;
}

-- Four attempts are asked for, and the clock goes back once.
abbrev four_attempts : List RailCall
four_attempts = attempt 6 ∷ attempt 4 ∷ landing 9 ∷ attempt 10 ∷ attempt 11 ∷ []

calls_within_budget_example :
    ((calls small_rails four_attempts).1 ≡ (calls small_rails four_attempts).0.iterations)
    × ((calls small_rails four_attempts).1 ≤ (calls small_rails four_attempts).0.max_iterations)
    × (pos 3 ≡ pos (calls small_rails four_attempts).0.max_iterations)
calls_within_budget_example =
    calls_within_budget small_config (some 5) small_rails four_attempts small_rails-started

late_attempt : SawDeadline small_rails (attempt 105)
unfolding SawDeadline admit_attempt is_uninitialized observe_locked
late_attempt = refl

exhausted_for_good_example :
    ((admit_attempt (calls (call small_rails (attempt 105)).0 four_attempts).0 7).1
      ≡ some (exhausted wall_clock_rail))
    × ((admit_landing (calls (call small_rails (attempt 105)).0 four_attempts).0 7).1
        ≡ some (exhausted wall_clock_rail))
exhausted_for_good_example =
    exhausted_for_good small_rails (attempt 105) 7 four_attempts small_rails-IsRunning late_attempt

abbrev clean_run : ValidationResult Bool
clean_run = record { kind = passed; failure = []; findings = []; changed_files = []; proof = true }

-- The same run, with a finding left.
abbrev partial_run : ValidationResult Bool
partial_run = record clean_run { findings = blockers }

-- Ports on which every step works; each reading of the clock is one nanosecond later, and the
-- barrier finds nothing.
abbrev fair_ports : Ports
fair_ports = record {
  World = ℕ;
  GitState = Unit {0};
  Proof = Bool;
  Sink = Unit {0};
  root = ascii "/work";
  clock = λ w. (w, w + 1);
  context_err = λ w. (none, w);
  no_proof = false;
  present = λ proof. proof;
  write_plan = λ plan w. (written, w);
  write_brief = λ id number brief w. (ok tt, w);
  adapter_sink = λ id number w. (ok tt, w);
  snapshot_git_state = λ w. (ok tt, w);
  check_git_state = λ s w. (git_intact, w);
  changed_files = λ w. (ok (ascii "internal/run/run.go" ∷ []), w);
  prepare_batch = λ files w. (ok true, w);
  verify_batch = λ proof w. (ok tt, w);
  reset_attempt = λ w. (ok tt, w);
  commit_batch = λ file proof w. (ok head_revision, w);
  rollback_batch = λ hash w. (ok tt, w);
  run_adapter = λ root brief sink w. (adapter_done, w);
  validate = λ batch proof w. (clean_run, w);
  barrier = λ w. (clean_run, w);
  build_brief = λ batch failure. ok (ascii "fix it");
  plan_error_text = λ e. ascii "bad findings";
}

abbrev request : Request
request = record {
  merge_base = head_revision;
  original_head = head_revision;
  initial_findings = blockers;
  rails = small_rails;
}

fuel_fits : occurrence_total blockers < 2
unfolding occurrence_total count_of
fuel_fits = omega arith

execute-returns_example :
    (r : Outcome × State fair_ports) × (execute zero_digest fair_ports 2 request 5 ≡ some r)
execute-returns_example = execute-returns zero_digest fair_ports 2 request 5 fuel_fits

execute_within_rails_example :
    (r : Outcome × State fair_ports) × (execute zero_digest fair_ports 2 request 5 ≡ some r)
    × (attempt_total r.0.plan.batches ≤ r.0.iterations)
    × (r.0.iterations ≤ 3)
execute_within_rails_example =
    execute_within_rails zero_digest fair_ports 2 request 5 fuel_fits small_rails-IsRunning

classify_evidence-ready_example :
    (classify_evidence zero_digest fair_ports clean_run ((zero_print, 1) ∷ []) false
      ≡ terminal ready [])
    ↔ IsFinished zero_digest clean_run false
classify_evidence-ready_example =
    classify_evidence-ready zero_digest fair_ports clean_run ((zero_print, 1) ∷ []) false

classify_evidence-shrunk_example :
    (classify_evidence zero_digest fair_ports partial_run ((zero_print, 2) ∷ []) false
      ≡ shrunk ((zero_print, 1) ∷ []))
    ↔ IsProgress zero_digest partial_run ((zero_print, 2) ∷ []) ((zero_print, 1) ∷ []) false
classify_evidence-shrunk_example =
    classify_evidence-shrunk zero_digest fair_ports partial_run ((zero_print, 2) ∷ [])
      ((zero_print, 1) ∷ []) false

abbrev bad_text : Bytes
bad_text = b'a' ∷ 0xFF ∷ 0xC3 ∷ 0xA9 ∷ []

length-bounded_failure_example :
    (length (bounded_failure bad_text) ≤ max_diagnostic_bytes)
    × ((bounded_failure bad_text ≡ to_valid_utf8 bad_text)
        ⊎ ((max_diagnostic_bytes < length (to_valid_utf8 bad_text))
            × (k : ℕ) × (bounded_failure bad_text
                ≡ take k (to_valid_utf8 bad_text) ++ failure_truncation_marker)
            × ((k ≡ 0) ⊎ (rune_start (byte_at k (to_valid_utf8 bad_text)) ≡ true))))
length-bounded_failure_example = length-bounded_failure bad_text
