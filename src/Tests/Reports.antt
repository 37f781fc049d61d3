-- ===== src/Tests/Reports.antt =====
-- The totals and the state of the test regression.
use distributed_test_runner.Base.{
  ◌+◌, ◌≡◌, ◌<◌, refl, String, Option, none, some, List, [], ◌∷◌, All, arith, length,
}
use distributed_test_runner.Base.Dict.{lookup}
use distributed_test_runner.Model.State.{RunState, RegressionState}
use distributed_test_runner.Model.Entities.{Run, Regression}
use distributed_test_runner.Sched.Rollup.{latest_per_suite, rollup_update}
use distributed_test_runner.Sched.Rollup.Latest.{LatestSpec, latest-LatestSpec}
use distributed_test_runner.Sched.Rollup.State.{
  Concludes, IsCanceled, rollup-Concludes, rollup-errored_of_canceled,
}
use distributed_test_runner.Tests.Fixtures.{queued_run, canceled, reg_one}

abbrev retried : Run
retried = record queued_run { id = "run-c"; attempt = 2; state = RunState.passed }

abbrev stopped : Regression
stopped = record reg_one { state = RegressionState.canceled }

all_canceled : All (IsCanceled (canceled ∷ [])) stopped.suites
unfolding latest_per_suite lookup distributed_test_runner.Base.Dict.insert
all_canceled = ((canceled, refl, refl), tt)

latest-LatestSpec_example :
    LatestSpec "ui"
      (retried ∷ queued_run ∷ [])
      (lookup "ui" (latest_per_suite (retried ∷ queued_run ∷ [])))
latest-LatestSpec_example = latest-LatestSpec "ui" (retried ∷ queued_run ∷ [])

rollup-Concludes_example :
    Concludes
      (queued_run ∷ retried ∷ [])
      reg_one
      (rollup_update 99 reg_one (queued_run ∷ retried ∷ [])).0
      (rollup_update 99 reg_one (queued_run ∷ retried ∷ [])).1
rollup-Concludes_example = rollup-Concludes 99 reg_one (queued_run ∷ retried ∷ [])

rollup-errored_of_canceled_example :
    (rollup_update 99 stopped (canceled ∷ [])).0.state ≡ RegressionState.errored
rollup-errored_of_canceled_example =
    rollup-errored_of_canceled 99 stopped (canceled ∷ []) (omega arith) all_canceled
