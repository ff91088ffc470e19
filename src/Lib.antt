-- ===== src/Lib.antt =====
-- togi: a quality gate that runs tools, turns their output into findings, and lets an agent fix the
-- blocking ones in a loop. This library models the findings (internal/finding), the fix loop
-- (internal/flywheel), the versions of a gate's tools (internal/gate), and the diff, the report and
-- the status of a run (internal/run).
--
-- Findings. Finding.antt: internal/finding/finding.go, `Validate` and `Fingerprint`.
-- Finding/FilePath.antt: path.go, `ParsePath`. Finding/Group.antt: group.go, `Group`.
-- Finding/Scope.antt: scope.go, `FilterTouched`; Scope/Touched is about the locations of one finding,
-- Scope/Changed about the ranges of a file, Scope/Lines about the lines that a location and a range
-- share, and Scope/Kept puts them together. Finding/Identity.antt: what a fingerprint tells.
--
-- The fix loop. Flywheel/Rails.antt: internal/flywheel/rails.go, with Rails/Budget.antt for any
-- sequence of its calls. Flywheel/Multiset.antt: `StrictlyShrinks` of plan.go and `multisetSubset`
-- of validate.go. Flywheel/Plan.antt: plan.go, `NewPlan` and `BlockingMultiset`.
-- Flywheel/Engine: engine.go; Ports is what the engine is given, State its state, its persistence,
-- its outcomes and stops, Step the early returns, Attempt `batchAttempt.run`, Batch `executeBatch`,
-- Barrier `evaluateBarrier`, and Loop `Execute`. Engine/Budget is about
-- the attempts that the engine makes, one function after the other.
-- Flywheel/Brief.antt: brief.go, `BuildBrief`, with Brief/Layout for the text that it writes,
-- Brief/Refusals for its errors and Brief/Identity for the batches of a plan.
-- Flywheel/Validate.antt: validate.go, `AttemptValidator.Validate`, with Validate/Soundness for what
-- a passed validation has seen.
--
-- The gates. Gate/Version.antt: internal/gate/version.go, `Observe`; Version/Order for the
-- comparison. Package regexp is a parameter.
--
-- A run. Run/Diff: internal/run/diff.go; Parse reads what git prints, Ranges merges changed lines,
-- Hunks reads a patch, Index the index, and Resolve is `resolveDiff`. Run/Diff/Report.antt:
-- `validateDiff` of run.go with `validateDiffReport` of ledger.go. Run/Report.antt: report.go, and
-- `ComposeReport` of run.go with the validation of ledger.go. Run/Select.antt: `selectRequests` of
-- run.go. Run/Exit.antt: exit.go. Run/Finish.antt: the end of `runReportOnly` of run.go, with
-- Run/Finish/Status for the status of the process.
--
-- Text holds the operations of Go's strings, Prelude the tests, lists, integers and sorts that the
-- parts share, and Tests the runs at concrete inputs. Prelude/Check is for functions that return
-- early: a check takes a world, and goes on with a value or ends with a result; Check/Sound has the
-- rules by which a proof follows such a function.
--
-- The parts meet so: `Execute` makes a plan of the findings, has each batch of the wave attempted at
-- most twice, each attempt admitted by the rails, then has the barrier judge the whole; the loop
-- goes on while the multiset of blocking findings strictly shrinks. A function of the engine takes
-- the state and gives its result with the next state; what the ports, the clock and the context do
-- is a transition of an unknown world, so that every behaviour of theirs is covered. The attempt's
-- brief is written by `BuildBrief` and its result judged by `Validate`, which the engine sees as
-- ports. A run resolves its diff, whose lines `FilterTouched` takes and `ComposeReport` checks.
--
-- Bounds. Byte strings are lists of numbers. The loop of `Execute` takes fuel, and a wave more than
-- the number of places that the initial findings name is never begun; the attempts at a batch are
-- two. The rails' limits are natural numbers, since `NewRails` refuses all others; the line numbers
-- of findings are integers. Go's maps are association lists. SHA-256 is a parameter.
--
-- Not modelled: nil arguments, the text of the errors of plan.go and of a report, the JSON of the
-- plan, and the parts that read files, run processes or call git (worktree.go, landing.go, the
-- runner, the files of the ledger), which the engine and the run see as ports; the report of a fix,
-- the other parts of the gates, the normalizers, the waivers and the wiki. The root of a diff and
-- its local attributes are resolved by the file system and are parameters.
pub mod Prelude
pub mod Text
pub mod Finding
pub mod Flywheel
pub mod Gate
pub mod Run
pub mod Tests
