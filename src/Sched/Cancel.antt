-- ===== src/Sched/Cancel.antt =====
-- internal/sched/submit.go: cancellation, and Rollup's write (internal/sched/rollup.go).
-- The backend's Stop changes nothing that the scheduler keeps, and its failure is only logged.
pub mod Ended
use mathlib.Core.List.{foldl}
use distributed_test_runner.Base.{
  ℕ, String, Bool, true, false, not, ◌&&◌, ◌==◌, Option, none, some, List, [], ◌∷◌, ◌++◌, map,
  if◌then◌else◌, length,
}
use distributed_test_runner.Base.Keyed.{contains}
use distributed_test_runner.Base.Dict.{or_else, lookup}
use distributed_test_runner.Base.Text.{concat}
use distributed_test_runner.Base.Result.{Result, ok, err, ◌>>=◌}
use distributed_test_runner.Model.State.{RunState, RegressionState, terminal}
use distributed_test_runner.Model.Suite.{BuildArtifact, SuiteSpec, Submission}
use distributed_test_runner.Model.Normalize.{NormalizeError, normalize}
use distributed_test_runner.Model.Entities.{Run, Regression, Totals}
use distributed_test_runner.Config.Types.{Pool, QuotaRule, Catalog, everywhere, in_pool}
use distributed_test_runner.Config.Quota.{user_groups, forbidden}
use distributed_test_runner.Store.{
  Store, CreateError, create, update_run, update_regression, regression,
}
use distributed_test_runner.Sched.Setup.{Config, Fresh, new_run}
use distributed_test_runner.Sched.Ledger.{pool}
use distributed_test_runner.Sched.Ids.{sanitize_id}
use distributed_test_runner.Sched.Admit.{result_prefix}
use distributed_test_runner.Sched.Rollup.{latest_per_suite, rollup_update}

-- Rollup's write.
unfoldable pub rollup : (now : ℕ) → Store → String → Store
unfolding rollup_update
rollup now st id = (update_regression st id (λ reg rs. (rollup_update now reg rs).0)).0

-- The update of Cancel: made on any run whose snapshot is not terminal.
unfoldable pub canceled_run : (now : ℕ) → Run → Run
canceled_run now run = record run {
  state = RunState.canceled;
  finished_at = some now;
  message = "canceled";
}

abbrev pub cancel_step : (now : ℕ) → Store → Run → Store
cancel_step now st r = if terminal r.state then st else (update_run st r.id (canceled_run now)).0

unfoldable pub canceled_regression : (now : ℕ) → Regression → List Run → Regression
canceled_regression now reg rs = record reg {
  state = RegressionState.canceled;
  finished_at = or_else reg.finished_at (some now);
}

-- Cancel; the answer tells whether the regression is known.
unfoldable pub cancel : (now : ℕ) → Store → String → Store × Bool
unfolding canceled_run canceled_regression
cancel now st id = elim (regression st id) [
  | none ↦ (st, false)
  | some (reg, rs) ↦
      ((update_regression (foldl (cancel_step now) st rs) id (canceled_regression now)).0, true)
]

pub data CancelError : Type 0 where
  unknown_regression : (id : String) → CancelError
  no_suite : (suite id : String) → CancelError
  already_finished : (suite : String) → RunState → CancelError

-- The update of CancelSuite.
unfoldable pub canceled_attempt : (now : ℕ) → Run → Run
unfolding canceled_run
canceled_attempt now run = if terminal run.state then run else canceled_run now run

unfoldable pub cancel_suite : (now : ℕ) → Store → (id suite : String) → Store × Option CancelError
unfolding canceled_attempt rollup latest_per_suite
cancel_suite now st id suite = elim (regression st id) [
  | none ↦ (st, some (unknown_regression id))
  | some (reg, rs) ↦ elim (lookup suite (latest_per_suite rs)) [
    | none ↦ (st, some (no_suite suite id))
    | some r ↦
        if terminal r.state
        then (st, some (already_finished suite r.state))
        else (rollup now (update_run st r.id (canceled_attempt now)).0 id, none)
  ]
]
