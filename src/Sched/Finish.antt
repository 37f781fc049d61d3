-- ===== src/Sched/Finish.antt =====
-- internal/sched/reconcile.go: finish, the end of an attempt and its retry. The release of the
-- backend's job, which runs in the background, is not modelled.
pub mod Retry
pub mod Final
use distributed_test_runner.Base.{
  ℕ, suc, ◌+◌, String, Bool, true, false, not, ◌&&◌, Option, none, some, if◌then◌else◌, ltb,
}
use distributed_test_runner.Base.Int.{ℤ}
use distributed_test_runner.Base.Dict.{or_else}
use distributed_test_runner.Model.State.{RunState, terminal, retryable}
use distributed_test_runner.Model.Entities.{Run, Regression}
use distributed_test_runner.Store.{Store, update_run, add_run, run, regression}
use distributed_test_runner.Sched.Setup.{Config, Fresh, new_run}

-- An attempt's end: its state, its message and the exit code, if one is known.
pub record Ending : Type 0 where
  pub state : RunState
  pub message : String
  pub exit : Option ℤ

-- The update of finish: a run that is terminal is left alone.
unfoldable pub finish_run : (now : ℕ) → Ending → Run → Run
finish_run now e r = if terminal r.state then r else record r {
  state = e.state;
  finished_at = some now;
  message = e.message;
  exit_code = or_else e.exit r.exit_code;
}

-- The new attempt has the old one's limit of attempts.
unfoldable pub retry_run : Config → Fresh → (now : ℕ) → Regression → Run → Run
unfolding new_run
retry_run cfg fresh now reg finished =
    record (new_run cfg fresh now reg finished.spec (finished.attempt + 1)) {
      max_attempts = finished.max_attempts;
    }

unfoldable pub retry_of : Config → Fresh → (now : ℕ) → Store → Run → Store
retry_of cfg fresh now st finished = elim (regression st finished.regression_id) [
  | none ↦ st
  | some (reg, rs) ↦ add_run st (retry_run cfg fresh now reg finished)
]

unfoldable pub may_retry : RunState → Run → Bool
may_retry state finished = retryable state && ltb finished.attempt finished.max_attempts

-- `old` is the run before the update, if there is one.
unfoldable pub after_finish :
    Config → Fresh → (now : ℕ) → Ending → Store → (old : Option Run) → Store
unfolding finish_run retry_of retry_run may_retry
after_finish cfg fresh now e st none = st
after_finish cfg fresh now e st (some old) =
    let finished = finish_run now e old in
    if not (terminal old.state) && may_retry e.state finished
    then retry_of cfg fresh now st finished
    else st

unfoldable pub finish : Config → Fresh → (now : ℕ) → Store → String → Ending → Store
unfolding after_finish
finish cfg fresh now st id e =
    after_finish cfg fresh now e (update_run st id (finish_run now e)).0 (run st id)
