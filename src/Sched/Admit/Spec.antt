-- ===== src/Sched/Admit/Spec.antt =====
-- What a node is told to do (buildRunSpec, internal/sched/admit.go).
use distributed_test_runner.Base.{
  ◌≡◌, ◌≢◌, ◌↔◌, ◌⊎◌, inl, inr, refl, String, ◌==◌, Option, none, some, List, [], ◌∷◌,
  if◌then◌else◌, arith, Option-cases,
}
use distributed_test_runner.Base.Dict.{
  or_else, lookup, insert, insert_all, HasUniqueKeys, lookup-insert, lookup-insert_all,
}
use distributed_test_runner.Base.Text.{decimal}
use distributed_test_runner.Base.Result.{ok}
use distributed_test_runner.Model.Entities.{Run, Slot, RunSpec}
use distributed_test_runner.Config.Types.{Pool}
use distributed_test_runner.Sched.Setup.{Config}
use distributed_test_runner.Sched.Ledger.{pool}
use distributed_test_runner.Sched.Admit.{task_env, command_of, spec_on, build_run_spec}

-- The variables of a task: the platform's three names, which a suite cannot set, and else the suite's.
abbrev pub env_value : Run → String → Option String
env_value r k =
    if "DTP_ATTEMPT" == k
    then some (decimal r.attempt)
    else if "DTP_REGRESSION_ID" == k
    then some r.regression_id
    else if "DTP_SUITE" == k
    then some r.suite
    else lookup k r.spec.env

or_else-none {ℓ} : {A : Type ℓ} (o : Option A) → or_else o none ≡ o
or_else-none none = refl
or_else-none (some a) = refl

-- For a suite whose environment names no variable twice, the task's environment gives each variable its
-- value: the attempt, the regression and the suite under the platform's three names, whatever the suite
-- says of them, and the suite's own value under any other.
pub lookup-task_env :
    (r : Run) (k : String) → HasUniqueKeys r.spec.env → lookup k (task_env r) ≡ env_value r k
unfolding task_env lookup
lookup-task_env r k u =
    let base = insert_all r.spec.env [] in
    let with_suite = insert "DTP_SUITE" r.suite base in
    let with_regression = insert "DTP_REGRESSION_ID" r.regression_id with_suite in
    rw
      (
        lookup-insert "DTP_ATTEMPT" k (decimal r.attempt) with_regression,
        lookup-insert "DTP_REGRESSION_ID" k r.regression_id with_suite,
        lookup-insert "DTP_SUITE" k r.suite base,
        lookup-insert_all k r.spec.env [] u,
        or_else-none (lookup k r.spec.env),
      )
      refl

-- A command to run: the suite's, or where it names none the pool's.
abbrev pub HasCommand : Config → Run → Type 0
HasCommand cfg r =
    (p : Pool) × (pool cfg.catalog r.pool ≡ some p)
    × ((r.spec.command ≢ []) ⊎ (p.default_command ≢ []))

command_of-nil :
    (p : Pool) (r : Run)
    → (command_of p r ≢ []) ↔ ((r.spec.command ≢ []) ⊎ (p.default_command ≢ []))
unfolding command_of
command_of-nil p r = (λ h. ground arith, λ h. ground arith)

spec_on-ok :
    (cfg : Config) (p : Pool) (r : Run) (slot : Slot) (command : List String)
    → command ≢ []
    → (spec : RunSpec) × (spec_on cfg p r slot command ≡ ok spec)
spec_on-ok cfg p r slot [] h = absurd (h refl)
spec_on-ok cfg p r slot (c ∷ cs) h = (_, refl)

has_command :
    (cfg : Config) (r : Run) (slot : Slot) (spec : RunSpec)
    → build_run_spec cfg r slot ≡ ok spec
    → HasCommand cfg r
unfolding build_run_spec
has_command cfg r slot spec e = elim (Option-cases (pool cfg.catalog r.pool)) [
  | inl n ↦ absurd (ground arith)
  | inr (p, known) ↦ (p, known, (command_of-nil p r).0 (λ none_set. ground arith))
]

-- A run's instructions can be built exactly if its pool is in the catalog and the suite or the pool has
-- a command.
pub build_run_spec-ok_iff :
    (cfg : Config) (r : Run) (slot : Slot)
    → ((spec : RunSpec) × (build_run_spec cfg r slot ≡ ok spec)) ↔ HasCommand cfg r
unfolding build_run_spec command_of
build_run_spec-ok_iff cfg r slot = (
  λ (spec, e). has_command cfg r slot spec e,
  λ (p, e, h).
      rw (e, build_run_spec) (spec_on-ok cfg p r slot (command_of p r) ((command_of-nil p r).1 h)),
)
