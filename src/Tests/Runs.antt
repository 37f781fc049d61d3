-- ===== src/Tests/Runs.antt =====
-- Attempts that end, are dispatched, reported and canceled.
use distributed_test_runner.Base.{
  ℕ, ◌+◌, ◌≤◌, ◌<◌, ◌≡◌, ◌≢◌, ◌↔◌, ◌⊎◌, inl, inr, refl, String, Bool, true, false, Option, none,
  some, List, [], ◌∷◌, arith, eq_iff, ◌==◌, Elem, if◌then◌else◌,
}
use distributed_test_runner.Base.Int.{pos}
use distributed_test_runner.Base.Dict.{or_else, lookup}
use distributed_test_runner.Base.Result.{ok}
use distributed_test_runner.Model.State.{RunState, RegressionState, terminal, retryable}
use distributed_test_runner.Model.Suite.{SuiteSpec, Submission}
use distributed_test_runner.Model.Entities.{Run, Regression}
use distributed_test_runner.Store.{Store, run, regression, add_run}
use distributed_test_runner.Sched.Setup.{Fresh}
use distributed_test_runner.Sched.Finish.{Ending, finish}
use distributed_test_runner.Sched.Finish.Final.{IsTerminal, run-finish}
use distributed_test_runner.Sched.Finish.Retry.{
  IsRetried, IsNextAttempt, finish-retries, finish-no_retry,
}
use distributed_test_runner.Sched.Ingest.{ingest}
use distributed_test_runner.Sched.Ingest.Terminal.{StillOver, ingest-StillOver}
use distributed_test_runner.Sched.Reconcile.{apply_status}
use distributed_test_runner.Sched.Reconcile.Verdicts.{apply_status-StillOver}
use distributed_test_runner.Sched.Admit.{dispatch}
use distributed_test_runner.Sched.Admit.Dispatch.{dispatch-overwrites}
use distributed_test_runner.Sched.Submit.{Resolved, submit, new_regression}
use distributed_test_runner.Sched.Cancel.{cancel}
use distributed_test_runner.Sched.Submit.Created.{Submitted, submit-Submitted}
use distributed_test_runner.Sched.Cancel.Ended.{IsOver, cancel-IsOver}
use distributed_test_runner.Tests.Fixtures.{
  config, fresh, store_of, store_of-IsSound, bare_store, queued_run, later_run, canceled, reg_one,
  slot, taken, lost_status, finished_event, suite_spec,
}

abbrev ended_badly : Ending
ended_badly = record { state = RunState.failed; message = "2 tests failed"; exit = some (pos 1) }

abbrev ended_well : Ending
ended_well = record { state = RunState.passed; message = ""; exit = some (pos 0) }

stored : run (store_of queued_run) "run-a" ≡ some queued_run
unfolding add_run run lookup distributed_test_runner.Base.Dict.insert
stored = refl

stored_canceled : run (store_of canceled) "run-a" ≡ some canceled
unfolding add_run run lookup distributed_test_runner.Base.Dict.insert
stored_canceled = refl

listed : regression (store_of queued_run) "reg-1" ≡ some (reg_one, queued_run ∷ [])
unfolding add_run regression lookup distributed_test_runner.Base.Dict.insert
listed = refl

queued_run-IsRetried : IsRetried ended_badly queued_run
unfolding terminal distributed_test_runner.Model.State.retryable
queued_run-IsRetried = record { live = refl; worth = refl; left = omega arith }

finish-retries_example :
    (r : Run) × (run (finish config fresh 99 (store_of queued_run) "run-a" ended_badly) "run-new"
      ≡ some r)
    × IsNextAttempt queued_run reg_one r
unfolding lookup add_run distributed_test_runner.Base.Dict.insert
finish-retries_example =
    finish-retries config fresh 99 (store_of queued_run) (store_of-IsSound queued_run) refl "run-a"
      ended_badly queued_run reg_one (queued_run ∷ []) stored queued_run-IsRetried listed

passed-not-IsRetried :
    (old : Run) → run (store_of queued_run) "run-a" ≡ some old → ¬ IsRetried ended_well old
unfolding retryable
passed-not-IsRetried old e h = cc (h.worth)

finish-no_retry_example :
    run (finish config fresh 99 (store_of queued_run) "run-a" ended_well) "run-new" ≡ none
unfolding lookup add_run distributed_test_runner.Base.Dict.insert
finish-no_retry_example =
    finish-no_retry config fresh 99 (store_of queued_run) (store_of-IsSound queued_run) refl "run-a"
      ended_well passed-not-IsRetried

run_a-ne-new : fresh.run_id ≢ "run-a"
run_a-ne-new e = cc ((eq_iff "run-new" "run-a").1 e)

run-finish_example :
    ((◌≢◌ {A = String} "run-a" "run-a")
      × (run (finish config fresh 99 (store_of queued_run) "run-a" ended_well) "run-a"
          ≡ some queued_run))
    ⊎ ((◌≡◌ {A = String} "run-a" "run-a")
        × IsTerminal queued_run.state
        × (run (finish config fresh 99 (store_of queued_run) "run-a" ended_well) "run-a"
            ≡ some queued_run))
    ⊎ ((◌≡◌ {A = String} "run-a" "run-a")
        × (¬ IsTerminal queued_run.state)
        × (run (finish config fresh 99 (store_of queued_run) "run-a" ended_well) "run-a"
            ≡ some (record queued_run {
              state = ended_well.state;
              finished_at = some 99;
              message = ended_well.message;
              exit_code = or_else ended_well.exit queued_run.exit_code;
            })))
run-finish_example =
    run-finish config fresh 99 (store_of queued_run) (store_of-IsSound queued_run) "run-a"
      ended_well "run-a" queued_run run_a-ne-new stored

ingest-StillOver_example :
    StillOver (ingest config fresh 99 (store_of canceled) finished_event).0 "run-a" canceled
unfolding terminal
ingest-StillOver_example =
    ingest-StillOver config fresh 99 (store_of canceled) (store_of-IsSound canceled) finished_event
      "run-a" canceled run_a-ne-new stored_canceled refl

-- time.Duration's String, cut to one unit.
abbrev text_of : ℕ → String
text_of n = "1m0s"

apply_status-StillOver_example :
    StillOver
      (apply_status text_of config fresh 99 (store_of canceled) canceled lost_status)
      "run-a"
      canceled
unfolding terminal
apply_status-StillOver_example =
    apply_status-StillOver text_of config fresh 99 (store_of canceled) canceled lost_status "run-a"
      canceled (store_of-IsSound canceled) run_a-ne-new stored_canceled refl

abbrev new_ids : Run → Fresh
new_ids r = fresh

dispatched : (dispatch config new_ids 99 taken (store_of canceled) queued_run slot).1 ≡ true
unfolding dispatch distributed_test_runner.Sched.Ledger.pool
    distributed_test_runner.Base.Keyed.find_by
dispatched = refl

dispatch-overwrites_example :
    (q : Run) × (run
        (dispatch config new_ids 99 taken (store_of canceled) queued_run slot).0
        "run-a"
      ≡ some q)
    × (q.state ≡ RunState.dispatched)
    × (q.node_id ≡ queued_run.node_id)
    × (q.attempt ≡ canceled.attempt)
dispatch-overwrites_example =
    dispatch-overwrites config new_ids 99 taken (store_of canceled) (store_of-IsSound canceled)
      queued_run slot canceled stored_canceled dispatched

run_a-ne-b : later_run.id ≢ "run-a"
run_a-ne-b e = cc ((eq_iff "run-b" "run-a").1 e)

cancel-IsOver_example :
    ((r : Run) → Elem r (queued_run ∷ []) → IsOver (cancel 99 (store_of queued_run) "reg-1").0 r.id)
    × ((reg' : Regression) × (rs' : List Run) × (regression
            (cancel 99 (store_of queued_run) "reg-1").0
            "reg-1"
          ≡ some (reg', rs'))
        × (reg'.state ≡ RegressionState.canceled))
cancel-IsOver_example =
    cancel-IsOver 99 (store_of queued_run) "reg-1" reg_one (queued_run ∷ [])
      (store_of-IsSound queued_run) listed

abbrev submission : Submission
submission = record {
  regression_id = "nightly run";
  name = "nightly";
  user = "ann";
  priority = pos 1;
  labels = [];
  defaults = record {
    pool = "";
    runtime = "";
    image = "";
    command = [];
    requires = [];
    build = [];
    env = [];
    timeout = 0;
    retries = none;
  };
  suites = suite_spec ∷ [];
}

abbrev suite_ids : SuiteSpec → Fresh
suite_ids su = fresh

abbrev resolved_suites : Resolved
resolved_suites = record {
  shared = submission.defaults.build;
  suites = suite_spec ∷ [];
  met = suite_spec.build;
}

accepted :
    (submit config none "reg-x" suite_ids 99 true bare_store submission).1
    ≡ ok (new_regression config "reg-x" 99 submission resolved_suites)
unfolding submit distributed_test_runner.Model.Normalize.normalize
    distributed_test_runner.Base.Keyed.contains distributed_test_runner.Config.Quota.forbidden
    distributed_test_runner.Config.Quota.caps_user distributed_test_runner.Config.Quota.covers
    distributed_test_runner.Base.Keyed.find_by distributed_test_runner.Sched.Ledger.pool
    distributed_test_runner.Store.create lookup distributed_test_runner.Sched.Ids.sanitize_id
    distributed_test_runner.Model.Normalize.merge_map distributed_test_runner.Base.Dict.insert_all
    distributed_test_runner.Base.Dict.insert
accepted = refl

submit-Submitted_example :
    Submitted config none submission
      (new_regression config "reg-x" 99 submission resolved_suites)
      (submit config none "reg-x" suite_ids 99 true bare_store submission).0
submit-Submitted_example =
    submit-Submitted config none "reg-x" suite_ids 99 true bare_store submission
      (new_regression config "reg-x" 99 submission resolved_suites) accepted
