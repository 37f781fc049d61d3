-- ===== src/Sched/Rollup/State.antt =====
-- The state that Rollup gives a regression (internal/sched/rollup.go), by the verdicts of its suites.
use distributed_test_runner.Base.{
  ℕ, ◌<◌, ◌≡◌, ◌≢◌, ◌↔◌, refl, Bool, true, some, List, [], ◌∷◌, arith, All, length,
}
use distributed_test_runner.Base.Dict.{lookup}
use distributed_test_runner.Model.State.{RunState, RegressionState}
use distributed_test_runner.Model.Suite.{SuiteSpec}
use distributed_test_runner.Model.Entities.{Run, Regression}
use distributed_test_runner.Sched.Rollup.{latest_per_suite, verdict_state, conclude, rollup_update}
use distributed_test_runner.Sched.Rollup.Verdict.{
  waits, runs, passes, fails, breaks, verdict, count_verdict, count_verdict-sum, tally-AreCounts,
}

-- What Rollup may answer, in terms of the counts of the verdicts.
pub record Concludes (rs : List Run) (reg : Regression) (after : Regression) (completed : Bool)
    : Type 0 where
  pub passed_iff :
      (after.state ≡ RegressionState.passed)
      ↔ ((0 < length reg.suites) × (count_verdict passes rs reg.suites ≡ length reg.suites))
  pub completed_iff : (completed ≡ true) ↔ (
      (0 < length reg.suites)
      × (count_verdict waits rs reg.suites ≡ 0)
      × (count_verdict runs rs reg.suites ≡ 0))
  pub errored_iff :
      (after.state ≡ RegressionState.errored)
      ↔ ((completed ≡ true) × (0 < count_verdict breaks rs reg.suites))
  pub failed_iff : (after.state ≡ RegressionState.failed) ↔ (
      (completed ≡ true)
      × (count_verdict breaks rs reg.suites ≡ 0)
      × (0 < count_verdict fails rs reg.suites))
  pub pending_iff :
      (after.state ≡ RegressionState.pending)
      ↔ (count_verdict waits rs reg.suites ≡ length reg.suites)
  pub not_canceled : after.state ≢ RegressionState.canceled

-- By the newest attempts of its suites, a regression is passed when there are suites and all passed;
-- completed when there are suites and none waits or runs; errored when completed with a broken suite;
-- failed when completed with none broken and one failed; pending when all wait; and never canceled.
pub rollup-Concludes :
    (now : ℕ) (reg : Regression) (rs : List Run)
    → Concludes rs reg (rollup_update now reg rs).0 (rollup_update now reg rs).1
unfolding rollup_update conclude verdict_state
rollup-Concludes now reg rs =
    let (c, f) = tally-AreCounts reg.suites rs in
    let sum = count_verdict-sum rs reg.suites in
    record {
      passed_iff = (λ h. ground arith, λ h. ground arith);
      completed_iff = (λ h. ground arith, λ h. ground arith);
      errored_iff = (λ h. ground arith, λ h. ground arith);
      failed_iff = (λ h. ground arith, λ h. ground arith);
      pending_iff = (λ h. ground arith, λ h. ground arith);
      not_canceled = λ e. ground arith;
    }

abbrev pub IsCanceled : List Run → SuiteSpec → Type 0
IsCanceled rs su =
    (r : Run) × (lookup su.name (latest_per_suite rs) ≡ some r) × (r.state ≡ RunState.canceled)

canceled_breaks :
    (rs : List Run) (sus : List SuiteSpec)
    → All (IsCanceled rs) sus
    → count_verdict breaks rs sus ≡ length sus
canceled_breaks rs [] h = refl
canceled_breaks rs (su ∷ sus) ((r, found, state), more) =
    let v : verdict rs su ≡ breaks = rw (found, state) refl in
    rw v (omega (arith, canceled_breaks rs sus more))

-- A regression with suites, all of whose newest attempts are canceled, is errored after Rollup, also if
-- it was canceled before: Rollup does not read the state that it overwrites.
pub rollup-errored_of_canceled :
    (now : ℕ) (reg : Regression) (rs : List Run)
    → 0 < length reg.suites
    → All (IsCanceled rs) reg.suites
    → (rollup_update now reg rs).0.state ≡ RegressionState.errored
rollup-errored_of_canceled now reg rs some_suite all =
    let c = rollup-Concludes now reg rs in
    let b = canceled_breaks rs reg.suites all in
    let sum = count_verdict-sum rs reg.suites in
    c.errored_iff.1 (c.completed_iff.1 (some_suite, omega arith, omega arith), omega arith)
