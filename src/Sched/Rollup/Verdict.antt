-- ===== src/Sched/Rollup/Verdict.antt =====
-- The totals and the state of a regression (Rollup, internal/sched/rollup.go), against the verdicts of
-- its suites.
use mathlib.Core.List.{foldl}
use distributed_test_runner.Base.{
  ℕ, ◌+◌, ◌≡◌, ◌≢◌, ◌↔◌, refl, Option, none, some, List, [], ◌∷◌, arith, All, length, ltb,
}
use distributed_test_runner.Base.Dict.{lookup}
use distributed_test_runner.Model.State.{RunState}
use distributed_test_runner.Model.Suite.{SuiteSpec}
use distributed_test_runner.Model.Entities.{Run, Totals, Regression}
use distributed_test_runner.Sched.Rollup.{
  Tally, tally_run, tally_suite, tally, latest_per_suite, conclude, rollup_update,
}

-- What a suite's newest attempt says of it. A suite with no attempt waits.
pub data Verdict : Type 0 where
  waits runs passes fails breaks : Verdict

abbrev of_state : RunState → Verdict
of_state RunState.queued = waits
of_state RunState.dispatched = runs
of_state RunState.running = runs
of_state RunState.passed = passes
of_state RunState.failed = fails
of_state _ = breaks

abbrev of_run : Option Run → Verdict
of_run none = waits
of_run (some r) = of_state r.state

abbrev pub verdict : List Run → SuiteSpec → Verdict
verdict rs su = of_run (lookup su.name (latest_per_suite rs))

-- 1 for the verdict that is counted.
abbrev pub one_if : Verdict → Verdict → ℕ
one_if waits waits = 1
one_if runs runs = 1
one_if passes passes = 1
one_if fails fails = 1
one_if breaks breaks = 1
one_if _ _ = 0

-- How many suites have a verdict.
abbrev pub count_verdict : Verdict → List Run → List SuiteSpec → ℕ
count_verdict v rs [] = 0
count_verdict v rs (su ∷ sus) = one_if v (verdict rs su) + count_verdict v rs sus

-- A round of the loop counts the suite under its verdict.
record Counted (t u : Tally) (v : Verdict) : Type 0 where
  queued : u.totals.suites_queued ≡ one_if waits v + t.totals.suites_queued
  running : u.totals.suites_running ≡ one_if runs v + t.totals.suites_running
  passed : u.totals.suites_passed ≡ one_if passes v + t.totals.suites_passed
  failed : u.totals.suites_failed ≡ one_if fails v + t.totals.suites_failed
  errored : u.totals.suites_errored ≡ one_if breaks v + t.totals.suites_errored
  total : u.totals.suites ≡ t.totals.suites

tally_run-Counted : (t : Tally) (o : Option Run) → Counted t (tally_run t o) (of_run o)
unfolding tally_run
tally_run-Counted t none = ground arith
tally_run-Counted t (some r) = ground arith

-- The two flags say which of the counts are zero.
pub record AreFlags (t : Tally) : Type 0 where
  pub started :
      t.any_started
      ≡ ltb 0 (
          t.totals.suites_running
          + (t.totals.suites_passed + (t.totals.suites_failed + t.totals.suites_errored)))
  pub terminal : t.all_terminal ≡ ltb (t.totals.suites_queued + t.totals.suites_running) 1

tally_run-AreFlags : (t : Tally) (o : Option Run) → AreFlags t → AreFlags (tally_run t o)
unfolding tally_run
tally_run-AreFlags t none f = ground arith
tally_run-AreFlags t (some r) f = ground arith

-- What the loop adds to the totals that it starts from.
record Added (rs : List Run) (sus : List SuiteSpec) (t u : Tally) : Type 0 where
  queued : u.totals.suites_queued ≡ count_verdict waits rs sus + t.totals.suites_queued
  running : u.totals.suites_running ≡ count_verdict runs rs sus + t.totals.suites_running
  passed : u.totals.suites_passed ≡ count_verdict passes rs sus + t.totals.suites_passed
  failed : u.totals.suites_failed ≡ count_verdict fails rs sus + t.totals.suites_failed
  errored : u.totals.suites_errored ≡ count_verdict breaks rs sus + t.totals.suites_errored
  total : u.totals.suites ≡ t.totals.suites
  flags : AreFlags u

loop-Added :
    (rs : List Run) (sus : List SuiteSpec) (t : Tally)
    → AreFlags t
    → Added rs sus t (foldl (tally_suite (latest_per_suite rs)) t sus)
unfolding tally_suite
loop-Added rs [] t f = ground arith
loop-Added rs (su ∷ sus) t f =
    let o : Option Run = lookup su.name (latest_per_suite rs) in
    let step : Counted t (tally_run t o) (of_run o) = tally_run-Counted t o in
    let rest = loop-Added rs sus (tally_run t o) (tally_run-AreFlags t o f) in
    record {
      queued = omega (arith, step.queued, rest.queued);
      running = omega (arith, step.running, rest.running);
      passed = omega (arith, step.passed, rest.passed);
      failed = omega (arith, step.failed, rest.failed);
      errored = omega (arith, step.errored, rest.errored);
      total = omega (arith, step.total, rest.total);
      flags = rest.flags;
    }

tally-Added :
    (sus : List SuiteSpec) (rs : List Run)
    → (t : Tally) × (t.totals.suites ≡ length sus)
      × Added rs sus t (tally sus rs)
      × (t.totals.suites_queued
            + (t.totals.suites_running
                + (t.totals.suites_passed + (t.totals.suites_failed + t.totals.suites_errored)))
          ≡ 0)
unfolding tally
tally-Added sus rs = (_, refl, loop-Added rs sus _ (ground arith), ground arith)

-- The suites by their verdicts, as Rollup counts them.
pub record AreCounts (rs : List Run) (sus : List SuiteSpec) (t : Totals) : Type 0 where
  pub suites : t.suites ≡ length sus
  pub queued : t.suites_queued ≡ count_verdict waits rs sus
  pub running : t.suites_running ≡ count_verdict runs rs sus
  pub passed : t.suites_passed ≡ count_verdict passes rs sus
  pub failed : t.suites_failed ≡ count_verdict fails rs sus
  pub errored : t.suites_errored ≡ count_verdict breaks rs sus

pub tally-AreCounts :
    (sus : List SuiteSpec) (rs : List Run)
    → AreCounts rs sus (tally sus rs).totals × AreFlags (tally sus rs)
tally-AreCounts sus rs =
    let (t, n, a, z) = tally-Added sus rs in
    (
      record {
        suites = omega (arith, a.total, n);
        queued = omega (arith, a.queued);
        running = omega (arith, a.running);
        passed = omega (arith, a.passed);
        failed = omega (arith, a.failed);
        errored = omega (arith, a.errored);
      },
      a.flags,
    )

-- Each suite has one verdict, so the counts add up to the number of the suites.
pub count_verdict-sum :
    (rs : List Run) (sus : List SuiteSpec)
    → count_verdict waits rs sus
        + (count_verdict runs rs sus
            + (count_verdict passes rs sus
                + (count_verdict fails rs sus + count_verdict breaks rs sus)))
      ≡ length sus
count_verdict-sum rs [] = omega arith
count_verdict-sum rs (su ∷ sus) = ground (arith, count_verdict-sum rs sus)

one_if-zero_iff : (v w : Verdict) → (one_if v w ≡ 0) ↔ (w ≢ v)
one_if-zero_iff v w = (ground arith, ground arith)

pub count_verdict-zero_iff :
    (v : Verdict) (rs : List Run) (sus : List SuiteSpec)
    → (count_verdict v rs sus ≡ 0) ↔ All (λ su. verdict rs su ≢ v) sus
count_verdict-zero_iff v rs [] = (λ h. tt, λ h. refl)
count_verdict-zero_iff v rs (su ∷ sus) =
    let (to, from) = count_verdict-zero_iff v rs sus in
    (
      λ h. ((one_if-zero_iff v (verdict rs su)).0 (omega arith), to (omega arith)),
      λ h. omega (arith, (one_if-zero_iff v (verdict rs su)).1 h.0, from h.1),
    )

totals-conclude :
    (now : ℕ) (reg : Regression) (t : Tally) → (conclude now reg t).0.totals ≡ t.totals
unfolding conclude
totals-conclude now reg t = ground arith

-- Rollup's totals count the regression's suites by the verdict of their newest attempts, and the five
-- counts add up to the number of suites.
pub rollup-AreCounts :
    (now : ℕ) (reg : Regression) (rs : List Run)
    → let t = (rollup_update now reg rs).0.totals in
      AreCounts rs reg.suites t
      × (t.suites_queued
            + (t.suites_running + (t.suites_passed + (t.suites_failed + t.suites_errored)))
          ≡ t.suites)
unfolding rollup_update
rollup-AreCounts now reg rs = rw (totals-conclude now reg (tally reg.suites rs)) (
  (tally-AreCounts reg.suites rs).0,
  omega (arith, (tally-AreCounts reg.suites rs).0, count_verdict-sum rs reg.suites),
)
