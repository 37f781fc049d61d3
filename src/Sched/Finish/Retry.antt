-- ===== src/Sched/Finish/Retry.antt =====
-- When finish (internal/sched/reconcile.go) queues a retry, and which one.
use mathlib.Core.Path.{subst}
use distributed_test_runner.Base.{
  ℕ, ◌+◌, ◌≤◌, ◌<◌, ◌≡◌, refl, sym, ◌∙◌, String, true, false, not, ◌&&◌, eq_iff, Option, none, some,
  List, arith, Bool-cases, inl, inr, map,
}
use distributed_test_runner.Model.State.{RunState, terminal, retryable}
use distributed_test_runner.Model.Entities.{Run, Regression}
use distributed_test_runner.Store.{Store, update_run, run, regression}
use distributed_test_runner.Store.Shape.{IsSound}
use distributed_test_runner.Store.Updates.{on_id, regression-update_run}
use distributed_test_runner.Sched.Setup.{Config, Fresh}
use distributed_test_runner.Sched.Finish.{
  Ending, finish_run, retry_run, may_retry, after_finish, finish,
}
use distributed_test_runner.Sched.Finish.Final.{
  IsNewId, ended, ended-IsSound, finish_run-KeepsNames, run-retry_of, update_run-IsNewId,
}

-- The attempt `old` ends in a way that is retried: it was not over, the ending is a failure, an error
-- or a timeout, and an attempt is left.
pub record IsRetried (e : Ending) (old : Run) : Type 0 where
  pub live : terminal old.state ≡ false
  pub worth : retryable e.state ≡ true
  pub left : old.attempt < old.max_attempts

-- The next attempt of the suite of `old`, in the queue of the regression, within the old limit.
pub record IsNextAttempt (old : Run) (reg : Regression) (r : Run) : Type 0 where
  pub queued : r.state ≡ RunState.queued
  pub attempt : r.attempt ≡ old.attempt + 1
  pub within : r.attempt ≤ r.max_attempts
  pub limit : r.max_attempts ≡ old.max_attempts
  pub in_regression : r.regression_id ≡ reg.id
  pub spec : r.spec ≡ old.spec

may_retry_iff :
    (now : ℕ) (e : Ending) (old : Run)
    → ((not (terminal old.state) && may_retry e.state (finish_run now e old)) ≡ true
        → IsRetried e old)
      × (IsRetried e old
          → (not (terminal old.state) && may_retry e.state (finish_run now e old)) ≡ true)
unfolding may_retry finish_run
may_retry_iff now e old = (λ h. ground arith, λ h. ground arith)

module _ (cfg : Config) (fresh : Fresh) (now : ℕ) (st : Store) (s : IsSound st)
    (new : IsNewId st fresh.run_id) (id : String) (e : Ending) where
  regression-ended :
      (g : String) {reg : Regression} {rs : List Run}
      → regression st g ≡ some (reg, rs)
      → (rs' : List Run) × (regression (ended cfg fresh now st s id e) g ≡ some (reg, rs'))
  regression-ended g {reg} {rs} k = elim (Bool-cases (update_run st id (finish_run now e)).1) [
    | inl done ↦ (
      map (on_id (finish_run now e) id) rs,
      regression-update_run st (finish_run now e) id g s (finish_run-KeepsNames now e)
          ∙ ground arith,
    )
    | inr not_done ↦ (
      rs,
      regression-update_run st (finish_run now e) id g s (finish_run-KeepsNames now e)
          ∙ ground arith,
    )
  ]

  run-after_finish :
      (old : Run) (reg : Regression) (rs : List Run)
      → IsRetried e old
      → regression st old.regression_id ≡ some (reg, rs)
      → run (after_finish cfg fresh now e (ended cfg fresh now st s id e) (some old)) fresh.run_id
        ≡ some (retry_run cfg fresh now reg (finish_run now e old))
  unfolding after_finish
  run-after_finish old reg rs retried known =
      let finished = finish_run now e old in
      let (rs', k) = regression-ended old.regression_id known in
      let same : old.regression_id ≡ finished.regression_id =
        sym ((finish_run-KeepsNames now e).regression_id old) in
      rw ((may_retry_iff now e old).1 retried) (
        run-retry_of cfg fresh now (ended cfg fresh now st s id e) finished reg rs' fresh.run_id
          (ended-IsSound cfg fresh now st s id e)
          (subst (λ g. regression (ended cfg fresh now st s id e) g ≡ some (reg, rs')) same k)
        ∙ ground (arith, eq_iff fresh.run_id fresh.run_id))

  retry_run-is_next :
      (old : Run) (reg : Regression)
      → IsRetried e old
      → IsNextAttempt old reg (retry_run cfg fresh now reg (finish_run now e old))
  unfolding retry_run finish_run
  retry_run-is_next old reg retried = ground arith

  -- In a store of sound shape that holds its regression, and with a new id drawn, an attempt that
  -- is retried leaves a new run in the queue: the next attempt of the suite, within the same limit
  -- of attempts, waiting in its regression.
  pub finish-retries :
      (old : Run) (reg : Regression) (rs : List Run)
      → run st id ≡ some old
      → IsRetried e old
      → regression st old.regression_id ≡ some (reg, rs)
      → (r : Run) × (run (finish cfg fresh now st id e) fresh.run_id ≡ some r)
        × IsNextAttempt old reg r
  unfolding finish
  finish-retries old reg rs found retried known =
      let r = retry_run cfg fresh now reg (finish_run now e old) in
      (r, rw found (run-after_finish old reg rs retried known), retry_run-is_next old reg retried)

  unchanged_end :
      (old : Option Run)
      → ((r : Run) → old ≡ some r → ¬ IsRetried e r)
      → after_finish cfg fresh now e (ended cfg fresh now st s id e) old
        ≡ ended cfg fresh now st s id e
  unfolding after_finish
  unchanged_end none h = refl
  unchanged_end (some old) h =
      elim (Bool-cases (not (terminal old.state) && may_retry e.state (finish_run now e old))) [
        | inl again ↦ absurd (h old refl ((may_retry_iff now e old).0 again))
        | inr over ↦ rw over
      ]

  run-none : (st' : Store) (j : String) → IsNewId st' j → run st' j ≡ none
  unfolding run
  run-none st' j n = rw (n, run) refl

  -- In a store of sound shape, with a new id drawn, finish queues nothing for an attempt that was
  -- over already, or ends passed or canceled, or was the last one: no run has the new id
  -- afterwards.
  pub finish-no_retry :
      ((old : Run) → run st id ≡ some old → ¬ IsRetried e old)
      → run (finish cfg fresh now st id e) fresh.run_id ≡ none
  unfolding finish
  finish-no_retry h = rw (unchanged_end (run st id) h) (
      run-none (ended cfg fresh now st s id e) fresh.run_id
        (update_run-IsNewId st id fresh.run_id (finish_run now e) new))
