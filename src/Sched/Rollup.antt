-- ===== src/Sched/Rollup.antt =====
-- internal/sched/rollup.go: the newest attempt of each suite, and a regression's totals and state.
-- The manifest that is uploaded when a regression completes is output, and not modelled.
pub mod Latest
pub mod Verdict
pub mod State
use mathlib.Core.List.{foldl}
use distributed_test_runner.Base.{
  ℕ, zero, ◌+◌, String, Bool, true, false, ◌&&◌, Option, none, some, List, [], ◌∷◌, if◌then◌else◌,
  ltb, length,
}
use distributed_test_runner.Base.Dict.{lookup, insert, or_else}
use distributed_test_runner.Model.State.{RunState, RegressionState, is_passed}
use distributed_test_runner.Model.Suite.{SuiteSpec}
use distributed_test_runner.Model.Entities.{Run, Summary, Totals, Regression}

-- The body of LatestPerSuite's loop.
unfoldable pub keep_newest : List (String × Run) → Run → List (String × Run)
keep_newest out r = elim (lookup r.suite out) [
  | none ↦ insert r.suite r out
  | some cur ↦ if ltb cur.attempt r.attempt then insert r.suite r out else out
]

unfoldable pub latest_per_suite : List Run → List (String × Run)
unfolding keep_newest
latest_per_suite runs = foldl keep_newest [] runs

-- The variables `t`, `anyStarted` and `allTerminal` of Rollup.
pub record Tally : Type 0 where
  pub totals : Totals
  pub any_started : Bool
  pub all_terminal : Bool

-- The switch on the state of a suite's newest attempt.
unfoldable pub tally_state : Tally → RunState → Tally
tally_state t RunState.queued = record t {
  totals = record t.totals { suites_queued = t.totals.suites_queued + 1 };
  all_terminal = false;
}
tally_state t RunState.dispatched = record t {
  totals = record t.totals { suites_running = t.totals.suites_running + 1 };
  any_started = true;
  all_terminal = false;
}
tally_state t RunState.running = record t {
  totals = record t.totals { suites_running = t.totals.suites_running + 1 };
  any_started = true;
  all_terminal = false;
}
tally_state t RunState.passed = record t {
  totals = record t.totals { suites_passed = t.totals.suites_passed + 1 };
  any_started = true;
}
tally_state t RunState.failed = record t {
  totals = record t.totals { suites_failed = t.totals.suites_failed + 1 };
  any_started = true;
}
tally_state t _ = record t {
  totals = record t.totals { suites_errored = t.totals.suites_errored + 1 };
  any_started = true;
}

-- The test counts that a suite's newest attempt adds.
unfoldable pub add_summary : Totals → Run → Totals
add_summary t r = record t {
  tests = t.tests + r.summary.tests;
  passed = t.passed + r.summary.passed;
  failed = t.failed + (r.summary.failed + r.summary.errors);
  skipped = t.skipped + r.summary.skipped;
  flaky = if is_passed r.state && ltb 1 r.attempt then t.flaky + 1 else t.flaky;
}

-- A suite with no run yet counts as queued.
unfoldable pub tally_run : Tally → Option Run → Tally
unfolding tally_state add_summary
tally_run t none = record t {
  totals = record t.totals { suites_queued = t.totals.suites_queued + 1 };
  all_terminal = false;
}
tally_run t (some r) = let u = tally_state t r.state in record u { totals = add_summary u.totals r }

unfoldable pub tally_suite : List (String × Run) → Tally → SuiteSpec → Tally
unfolding tally_run
tally_suite latest t su = tally_run t (lookup su.name latest)

abbrev no_totals : ℕ → Totals
no_totals n = record {
  suites = n;
  suites_passed = 0;
  suites_failed = 0;
  suites_errored = 0;
  suites_running = 0;
  suites_queued = 0;
  tests = 0;
  passed = 0;
  failed = 0;
  skipped = 0;
  flaky = 0;
}

unfoldable pub tally : List SuiteSpec → List Run → Tally
unfolding tally_suite latest_per_suite
tally suites runs =
    foldl (tally_suite (latest_per_suite runs))
      (record { totals = no_totals (length suites); any_started = false; all_terminal = true })
      suites

unfoldable pub verdict_state : Totals → RegressionState
verdict_state t =
    if ltb 0 t.suites_errored
    then RegressionState.errored
    else if ltb 0 t.suites_failed
    then RegressionState.failed
    else RegressionState.passed

-- The second switch of Rollup; the Boolean is `completed`.
unfoldable pub conclude : ℕ → Regression → Tally → Regression × Bool
unfolding verdict_state
conclude now reg t =
    if t.all_terminal && t.any_started
    then (
      record reg {
        totals = t.totals;
        state = verdict_state t.totals;
        finished_at = or_else reg.finished_at (some now);
      },
      true,
    )
    else if t.any_started
    then (
      record reg {
        totals = t.totals;
        state = RegressionState.running;
        started_at = or_else reg.started_at (some now);
      },
      false,
    )
    else (record reg { totals = t.totals; state = RegressionState.pending }, false)

-- The update that Rollup makes on the stored regression and its runs, at the time `now`.
unfoldable pub rollup_update : ℕ → Regression → List Run → Regression × Bool
unfolding tally conclude
rollup_update now reg runs = conclude now reg (tally reg.suites runs)
