-- ===== src/Flywheel/Rails/Budget.antt =====
-- internal/flywheel/rails.go: the rails over any sequence of calls and clock readings.
use togi.Prelude.{ℕ, ◌+◌, ◌≤◌, ◌<◌, ◌≡◌, Bool, true, Option, none, some, List, [], ◌∷◌, arith}
use togi.Prelude.Int.{pos}
use togi.Flywheel.Rails.{
  wall_clock_rail, exhausted, Rails, RailConfig, started, new_rails, admit_attempt, admit_landing,
  snapshot, execution_context, no_context, observe_execution_context,
}

-- A call of a method of `Rails`.
pub data RailCall : Type 0 where
  attempt landing view context : ℕ → RailCall
  end_of_context : Bool → RailCall

-- The state after a call, and 1 if the call admitted an attempt.
unfoldable pub call : Rails → RailCall → Rails × ℕ
unfolding admit_attempt admit_landing snapshot execution_context observe_execution_context
call r (attempt now) =
    ((admit_attempt r now).0, elim (admit_attempt r now).1 [ none ↦ 1 | some _ ↦ 0 ])
call r (landing now) = ((admit_landing r now).0, 0)
call r (view now) = ((snapshot r now).0, 0)
call r (context now) = ((execution_context r now).0, 0)
call r (end_of_context by_rail) = (observe_execution_context r by_rail, 0)

-- The state after the calls, and the number of attempts that they admitted.
unfoldable pub calls : Rails → List RailCall → Rails × ℕ
unfolding call
calls r [] = (r, 0)
calls r (c ∷ cs) = let (r1, n) = call r c in let (r2, m) = calls r1 cs in (r2, n + m)

-- Usable rails: positive limits, the deadline where the start puts it, no more consumed than
-- allowed.
pub record IsRunning (r : Rails) : Type 0 where
  pub within : r.iterations ≤ r.max_iterations
  pub ends : r.deadline ≡ r.started_at + r.max_wall_clock
  pub begun : r.started_at ≤ r.observed_at
  pub some_iterations : 0 < r.max_iterations
  pub some_time : 0 < r.max_wall_clock
  pub clocked : r.has_clock ≡ true

new_rails-IsRunning :
    (config : RailConfig) (clock : Option ℕ) (r : Rails)
    → new_rails config clock ≡ started r
    → IsRunning r
unfolding new_rails
new_rails-IsRunning config clock r h = ground arith

call-IsRunning : (r : Rails) (c : RailCall) → IsRunning r → IsRunning (call r c).0
unfolding call
call-IsRunning r (attempt now) h = ground arith
call-IsRunning r (landing now) h = ground arith
call-IsRunning r (view now) h = ground arith
call-IsRunning r (context now) h = ground arith
call-IsRunning r (end_of_context b) h = ground arith

call_counts : (r : Rails) (c : RailCall) → (call r c).0.iterations ≡ r.iterations + (call r c).1
unfolding call
call_counts r (attempt now) = ground arith
call_counts r (landing now) = ground arith
call_counts r (view now) = ground arith
call_counts r (context now) = ground arith
call_counts r (end_of_context b) = ground arith

call_keeps :
    (r : Rails) (c : RailCall)
    → ((call r c).0.max_iterations ≡ r.max_iterations)
      × ((call r c).0.deadline ≡ r.deadline)
      × (r.observed_at ≤ (call r c).0.observed_at)
unfolding call
call_keeps r (attempt now) = ground arith
call_keeps r (landing now) = ground arith
call_keeps r (view now) = ground arith
call_keeps r (context now) = ground arith
call_keeps r (end_of_context b) = ground arith

pub calls-IsRunning : (r : Rails) (cs : List RailCall) → IsRunning r → IsRunning (calls r cs).0
unfolding calls
calls-IsRunning r [] h = h
calls-IsRunning r (c ∷ cs) h = calls-IsRunning (call r c).0 cs (call-IsRunning r c h)

calls_count :
    (r : Rails) (cs : List RailCall) → (calls r cs).0.iterations ≡ r.iterations + (calls r cs).1
unfolding calls
calls_count r [] = omega arith
calls_count r (c ∷ cs) = omega (arith, call_counts r c, calls_count (call r c).0 cs)

calls_keep :
    (r : Rails) (cs : List RailCall)
    → ((calls r cs).0.max_iterations ≡ r.max_iterations)
      × ((calls r cs).0.deadline ≡ r.deadline)
      × (r.observed_at ≤ (calls r cs).0.observed_at)
unfolding calls
calls_keep r [] = omega arith
calls_keep r (c ∷ cs) = omega (arith, call_keeps r c, calls_keep (call r c).0 cs)

-- Of rails started with a limit, whatever calls follow in whatever order and whatever the clock
-- reads, at most as many attempts are admitted as the limit says, and the counter tells how many.
pub calls_within_budget :
    (config : RailConfig) (clock : Option ℕ) (r : Rails) (cs : List RailCall)
    → new_rails config clock ≡ started r
    → ((calls r cs).1 ≡ (calls r cs).0.iterations)
      × ((calls r cs).1 ≤ (calls r cs).0.max_iterations)
      × (config.max_iterations ≡ pos (calls r cs).0.max_iterations)
unfolding new_rails
calls_within_budget config clock r cs h =
    let run : IsRunning (calls r cs).0 =
      calls-IsRunning r cs (new_rails-IsRunning config clock r h) in
    ground (arith, calls_count r cs, calls_keep r cs, run)

-- A call that found the deadline passed: a refusal for the wall clock, a view with no time left, or
-- an end of the derived context by the rails.
unfoldable pub SawDeadline : Rails → RailCall → Type 0
SawDeadline r (attempt now) = (admit_attempt r now).1 ≡ some (exhausted wall_clock_rail)
SawDeadline r (landing now) = (admit_landing r now).1 ≡ some (exhausted wall_clock_rail)
SawDeadline r (view now) = (snapshot r now).1.max_wall_clock ≤ (snapshot r now).1.elapsed
SawDeadline r (context now) = (execution_context r now).1 ≡ no_context (exhausted wall_clock_rail)
SawDeadline r (end_of_context by_rail) = by_rail ≡ true

SawDeadline-late :
    (r : Rails) (c : RailCall)
    → IsRunning r
    → SawDeadline r c
    → (call r c).0.deadline ≤ (call r c).0.observed_at
unfolding SawDeadline call
SawDeadline-late r (attempt now) run h = ground (arith, run, h)
SawDeadline-late r (landing now) run h = ground (arith, run, h)
SawDeadline-late r (view now) run h = ground (arith, run, h)
SawDeadline-late r (context now) run h = ground (arith, run, h)
SawDeadline-late r (end_of_context b) run h = ground (arith, run, h)

refused_late :
    (q : Rails) (t : ℕ)
    → IsRunning q
    → q.deadline ≤ q.observed_at
    → ((admit_attempt q t).1 ≡ some (exhausted wall_clock_rail))
      × ((admit_landing q t).1 ≡ some (exhausted wall_clock_rail))
unfolding admit_attempt admit_landing
refused_late q t v l = ground arith

-- For rails that are running, once a call of a method has found the deadline passed (a refusal of
-- AdmitAttempt, AdmitLanding or ExecutionContext, a Snapshot with no time left, or a context that
-- the rails ended), no later call of AdmitAttempt or AdmitLanding admits anything, whatever is
-- called and whatever the clock reads in between.
pub exhausted_for_good :
    (r : Rails) (c : RailCall) (later : ℕ) (cs : List RailCall)
    → IsRunning r
    → SawDeadline r c
    → let r' = (calls (call r c).0 cs).0 in
      ((admit_attempt r' later).1 ≡ some (exhausted wall_clock_rail))
      × ((admit_landing r' later).1 ≡ some (exhausted wall_clock_rail))
exhausted_for_good r c later cs run h =
    let s = (call r c).0 in
    let late = SawDeadline-late r c run h in
    let kept = calls_keep s cs in
    refused_late (calls s cs).0 later (calls-IsRunning s cs (call-IsRunning r c run))
      (omega (arith, late, kept.1, kept.2))
