-- ===== src/Sched/Submit.antt =====
-- internal/sched/submit.go: submission.
-- `repo` is the build repository's Resolve, where one is configured, with the text of its error; `fresh`
-- gives the identifiers that newRun draws for a suite, and `fresh_id` the one that NewRegressionID mints.
-- The payloads that suites inherit from the defaults are one array in the code, which each of them
-- resolves in place: `shared` is its content.
pub mod Payloads
pub mod Created
use mathlib.Core.List.{foldl}
use distributed_test_runner.Base.{
  ℕ, String, Bool, true, false, not, ◌&&◌, ◌==◌, Option, none, some, List, [], ◌∷◌, ◌++◌, map,
  if◌then◌else◌, length,
}
use distributed_test_runner.Base.Keyed.{contains}
use distributed_test_runner.Base.Dict.{or_else, lookup}
use distributed_test_runner.Base.Text.{concat}
use distributed_test_runner.Base.Result.{Result, ok, err, ◌>>=◌}
use distributed_test_runner.Model.State.{RunState, RegressionState, terminal}
use distributed_test_runner.Model.Suite.{BuildArtifact, SuiteSpec, Submission}
use distributed_test_runner.Model.Normalize.{NormalizeError, normalize}
use distributed_test_runner.Model.Entities.{Run, Regression, Totals}
use distributed_test_runner.Config.Types.{Pool, QuotaRule, Catalog, everywhere, in_pool}
use distributed_test_runner.Config.Quota.{user_groups, forbidden}
use distributed_test_runner.Store.{
  Store, CreateError, create, update_run, update_regression, regression,
}
use distributed_test_runner.Sched.Setup.{Config, Fresh, new_run}
use distributed_test_runner.Sched.Ledger.{pool}
use distributed_test_runner.Sched.Ids.{sanitize_id}
use distributed_test_runner.Sched.Admit.{result_prefix}
use distributed_test_runner.Sched.Rollup.{latest_per_suite, rollup_update}

pub data SubmitError : Type 0 where
  not_normal : NormalizeError → SubmitError
  barred : QuotaRule → SubmitError
  no_repository : (suite build id : String) → SubmitError
  unresolved : (suite why : String) → SubmitError
  unknown_pool : (suite pool : String) → SubmitError
  other_runtime : (suite pool offered asked : String) → SubmitError
  barred_from_pool : (suite pool : String) → QuotaRule → SubmitError
  not_created : CreateError → SubmitError

abbrev repo_answer : String → Result String BuildArtifact → Result SubmitError BuildArtifact
repo_answer suite (ok b) = ok b
repo_answer suite (err why) = err (unresolved suite why)

-- The suites after the loop, the shared payloads, and the payloads in the order of their resolution.
pub record Resolved : Type 0 where
  pub shared : List BuildArtifact
  pub suites : List SuiteSpec
  pub met : List BuildArtifact

module _ (repo : Option (BuildArtifact → Result String BuildArtifact)) where
  -- One payload of a suite.
  unfoldable pub resolve : String → BuildArtifact → Result SubmitError BuildArtifact
  resolve suite b = elim repo [
    | none ↦ if b.id == "" then ok b else err (no_repository suite b.name b.id)
    | some look ↦ repo_answer suite (look b)
  ]

  unfoldable pub resolve_all : String → List BuildArtifact → Result SubmitError (List BuildArtifact)
  unfolding resolve
  resolve_all suite [] = ok []
  resolve_all suite (b ∷ bs) =
      resolve suite b >>= λ b'. resolve_all suite bs >>= λ bs'. ok (b' ∷ bs')

  -- The loop over the suites, each with whether its payloads are the shared ones: these are resolved
  -- again by each such suite, and all of them show what the last one left.
  unfoldable pub resolve_suites :
      (shared : List BuildArtifact) → List (Bool × SuiteSpec) → Result SubmitError Resolved
  unfolding resolve_all
  resolve_suites shared [] = ok (record { shared = shared; suites = []; met = [] })
  resolve_suites shared ((inherits, su) ∷ sus) =
      resolve_all su.name (if inherits then shared else su.build) >>= λ bs.
      resolve_suites (if inherits then bs else shared) sus >>= λ rest. ok (record {
        shared = rest.shared;
        suites = record su { build = if inherits then rest.shared else bs } ∷ rest.suites;
        met = bs ++ rest.met;
      })

abbrev has_none : List BuildArtifact → Bool
has_none [] = true
has_none (b ∷ bs) = false

abbrev inherits_build : SuiteSpec → Bool
inherits_build su = has_none su.build

-- The filled suites, each with whether it was submitted without payloads.
abbrev with_origin : List SuiteSpec → List SuiteSpec → List (Bool × SuiteSpec)
with_origin (su ∷ sus) (full ∷ fulls) = (inherits_build su, full) ∷ with_origin sus fulls
with_origin _ _ = []

-- The payloads as they were resolved, each name and URL once.
abbrev build_key : BuildArtifact → String
build_key b = concat (b.name ∷ "|" ∷ b.url ∷ [])

unfoldable pub distinct_builds : List String → List BuildArtifact → List BuildArtifact
distinct_builds seen [] = []
distinct_builds seen (b ∷ bs) =
    let repeated = distinct_builds seen bs in
    let first = distinct_builds (build_key b ∷ seen) bs in
    if contains seen (build_key b) then repeated else b ∷ first

-- The checks of one suite against the catalog.
unfoldable pub check_pool : Catalog → String → SuiteSpec → Result SubmitError Unit
check_pool c user su = elim (pool c su.pool) [
  | none ↦ err (unknown_pool su.name su.pool)
  | some p ↦
      if not (su.runtime == "") && not (su.runtime == p.runtime)
      then err (other_runtime su.name p.name p.runtime su.runtime)
      else elim (forbidden c user (in_pool su.pool)) [
        | some r ↦ err (barred_from_pool su.name su.pool r)
        | none ↦ ok tt
      ]
]

unfoldable pub check_pools : Catalog → String → List SuiteSpec → Result SubmitError Unit
unfolding check_pool
check_pools c user [] = ok tt
check_pools c user (su ∷ sus) = check_pool c user su >>= λ _. check_pools c user sus

abbrev queued_totals : ℕ → Totals
queued_totals n = record {
  suites = n;
  suites_passed = 0;
  suites_failed = 0;
  suites_errored = 0;
  suites_running = 0;
  suites_queued = n;
  tests = 0;
  passed = 0;
  failed = 0;
  skipped = 0;
  flaky = 0;
}

unfoldable pub regression_id : String → Submission → String
regression_id fresh_id sub =
    let id = sanitize_id sub.regression_id in if id == "" then fresh_id else id

unfoldable pub new_regression :
    Config → (fresh_id : String) → (now : ℕ) → Submission → Resolved → Regression
unfolding regression_id distinct_builds
new_regression cfg fresh_id now sub res = record {
  id = regression_id fresh_id sub;
  name = sub.name;
  user = sub.user;
  groups = user_groups cfg.catalog sub.user;
  priority = sub.priority;
  labels = sub.labels;
  state = RegressionState.pending;
  submitted_at = now;
  started_at = none;
  finished_at = none;
  suites = res.suites;
  builds = distinct_builds [] res.met;
  totals = queued_totals (length res.suites);
  artifact_uri =
      concat ("s3://" ∷ cfg.s3_bucket ∷ "/" ∷ result_prefix (regression_id fresh_id sub) ∷ []);
}

abbrev normal_suites : Submission → Result SubmitError (List SuiteSpec)
normal_suites sub = elim (normalize sub) [ err e ↦ err (not_normal e) | ok sus ↦ ok sus ]

abbrev allowed : Catalog → String → Result SubmitError Unit
allowed c user = elim (forbidden c user everywhere) [ some r ↦ err (barred r) | none ↦ ok tt ]

-- Submit, up to the store: what the submission is refused for, or its regression.
unfoldable pub accept :
    Config
    → Option (BuildArtifact → Result String BuildArtifact)
    → (fresh_id : String) → (now : ℕ) → Submission
    → Result SubmitError Regression
unfolding resolve_suites check_pools new_regression
accept cfg repo fresh_id now sub = normal_suites sub >>= λ normal.
    allowed cfg.catalog sub.user >>= λ _.
    resolve_suites repo sub.defaults.build (with_origin sub.suites normal) >>= λ res.
    check_pools cfg.catalog sub.user res.suites >>= λ _.
    ok (new_regression cfg fresh_id now sub res)

unfoldable pub first_runs : Config → (SuiteSpec → Fresh) → (now : ℕ) → Regression → List Run
unfolding new_run
first_runs cfg fresh now reg = map (λ su. new_run cfg (fresh su) now reg su 1) reg.suites

abbrev stored : Regression → Store × Option CreateError → Store × Result SubmitError Regression
stored reg (st, none) = (st, ok reg)
stored reg (st, some e) = (st, err (not_created e))

-- `saved` is the answer of the store's mirror.
unfoldable pub submit :
    Config
    → Option (BuildArtifact → Result String BuildArtifact)
    → (fresh_id : String) → (SuiteSpec → Fresh)
    → (now : ℕ) → (saved : Bool) → Store
    → Submission
    → Store × Result SubmitError Regression
unfolding accept first_runs
submit cfg repo fresh_id fresh now saved st sub = elim (accept cfg repo fresh_id now sub) [
  | err e ↦ (st, err e)
  | ok reg ↦ stored reg (create st reg (first_runs cfg fresh now reg) saved)
]
