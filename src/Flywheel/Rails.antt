-- ===== src/Flywheel/Rails.antt =====
-- internal/flywheel/rails.go: the iteration and wall-clock budgets of one fix loop. A reading of
-- the clock is an argument (nanoseconds since an epoch), so a clock that goes back is modelled.
-- The mutex makes each method one step. `NewRails` alone gives a usable value, and its limits are
-- positive, so the fields are natural numbers; the zero `Rails` has zeros and no clock.
pub mod Budget
use togi.Prelude.{
  ℕ, zero, suc, ◌+◌, ◌-◌, Bool, true, false, ◌||◌, not, Option, none, some, ltb, leb, ◌==◌,
  if◌then◌else◌,
}
use togi.Prelude.Int.{ℤ, pos, negsuc, leb_ℤ, pos_part}
use togi.Text.{Bytes, ascii}

pub data RailKind : Type 0 where
  iterations_rail wall_clock_rail : RailKind

-- `*RailExhaustedError`, and the other errors of the methods
pub data RailError : Type 0 where
  exhausted : RailKind → RailError
  uninitialized : RailError

unfoldable pub rail_error_text : RailError → Bytes
rail_error_text (exhausted iterations_rail) = ascii "rail exhausted: iterations"
rail_error_text (exhausted wall_clock_rail) = ascii "rail exhausted: wall-clock"
rail_error_text uninitialized = ascii "rails are uninitialized"

-- errors.Is(err, ErrRailExhausted)
unfoldable pub is_exhausted : RailError → Bool
is_exhausted (exhausted _) = true
is_exhausted uninitialized = false

pub record RailConfig : Type 0 where
  pub max_iterations : ℤ
  pub max_wall_clock : ℤ

pub record RailSnapshot : Type 0 where
  pub max_iterations : ℕ
  pub iterations : ℕ
  pub max_wall_clock : ℕ
  pub started_at : ℕ
  pub deadline : ℕ
  pub elapsed : ℕ

pub record Rails : Type 0 where
  pub max_iterations : ℕ
  pub iterations : ℕ
  pub max_wall_clock : ℕ
  pub started_at : ℕ
  pub deadline : ℕ
  pub observed_at : ℕ
  pub has_clock : Bool

pub data NewRailsError : Type 0 where
  iterations_not_positive wall_clock_not_positive clock_required : NewRailsError

pub data NewRailsResult : Type 0 where
  started : Rails → NewRailsResult
  rejected : NewRailsError → NewRailsResult

-- The clock is none where it is nil.
unfoldable pub new_rails : RailConfig → Option ℕ → NewRailsResult
new_rails config clock =
    if leb_ℤ config.max_iterations (pos 0)
    then rejected iterations_not_positive
    else if leb_ℤ config.max_wall_clock (pos 0)
    then rejected wall_clock_not_positive
    else elim clock [
      | none ↦ rejected clock_required
      | some now ↦ started (record {
        max_iterations = pos_part config.max_iterations;
        iterations = 0;
        max_wall_clock = pos_part config.max_wall_clock;
        started_at = now;
        deadline = now + pos_part config.max_wall_clock;
        observed_at = now;
        has_clock = true;
      })
    ]

unfoldable pub is_uninitialized : Rails → Bool
is_uninitialized r = not r.has_clock || r.max_iterations == 0 || r.max_wall_clock == 0

-- The observed time never goes back.
unfoldable pub observe_locked : Rails → ℕ → Rails
observe_locked r now = record r {
  observed_at = if ltb r.observed_at now then now else r.observed_at;
}

unfoldable pub admit_attempt : Rails → ℕ → Rails × Option RailError
unfolding is_uninitialized observe_locked
admit_attempt r now =
    if is_uninitialized r
    then (r, some uninitialized)
    else let seen = observe_locked r now in
      if not (ltb seen.observed_at seen.deadline)
      then (seen, some (exhausted wall_clock_rail))
      else if leb seen.max_iterations seen.iterations
      then (seen, some (exhausted iterations_rail))
      else (record seen { iterations = seen.iterations + 1 }, none)

unfoldable pub admit_landing : Rails → ℕ → Rails × Option RailError
unfolding is_uninitialized observe_locked
admit_landing r now =
    if is_uninitialized r
    then (r, some uninitialized)
    else let seen = observe_locked r now in
      if not (ltb seen.observed_at seen.deadline)
      then (seen, some (exhausted wall_clock_rail))
      else (seen, none)

-- A snapshot observes the clock; `elapsed < 0` is the truncation of `-`.
unfoldable pub snapshot : Rails → ℕ → Rails × RailSnapshot
unfolding observe_locked
snapshot r now =
    if not r.has_clock
    then (
      r,
      record {
        max_iterations = 0;
        iterations = 0;
        max_wall_clock = 0;
        started_at = 0;
        deadline = 0;
        elapsed = 0;
      },
    )
    else let seen = observe_locked r now in
      (
        seen,
        record {
          max_iterations = seen.max_iterations;
          iterations = seen.iterations;
          max_wall_clock = seen.max_wall_clock;
          started_at = seen.started_at;
          deadline = seen.deadline;
          elapsed = seen.observed_at - seen.started_at;
        },
      )

pub data ExecutionContextResult : Type 0 where
  timeout_after : ℕ → ExecutionContextResult
  no_context : RailError → ExecutionContextResult

-- The time that the derived context is given; the parent context is not nil.
unfoldable pub execution_context : Rails → ℕ → Rails × ExecutionContextResult
unfolding is_uninitialized snapshot
execution_context r now =
    if is_uninitialized r
    then (r, no_context uninitialized)
    else let (seen, view) = snapshot r now in
      let remaining = view.max_wall_clock - view.elapsed in
      if remaining == 0
      then (seen, no_context (exhausted wall_clock_rail))
      else (seen, timeout_after remaining)

-- The argument says whether the context ended by a rail.
unfoldable pub observe_execution_context : Rails → Bool → Rails
observe_execution_context r by_rail = if not by_rail then r else record r {
  observed_at = if ltb r.observed_at r.deadline then r.deadline else r.observed_at;
}
