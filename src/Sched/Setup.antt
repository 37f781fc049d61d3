-- ===== src/Sched/Setup.antt =====
-- What the scheduler's operations share: the configuration that they read (internal/config/config.go),
-- the identifiers that they draw, and newRun (internal/sched/submit.go).
use distributed_test_runner.Base.{ℕ, suc, ◌+◌, String, ◌==◌, Option, none, some, [], if◌then◌else◌}
use distributed_test_runner.Base.Int.{ℤ, pos}
use distributed_test_runner.Model.State.{RunState}
use distributed_test_runner.Model.Suite.{SuiteSpec, max_attempts}
use distributed_test_runner.Model.Entities.{Run, Summary, Regression}
use distributed_test_runner.Config.Types.{Pool, Catalog}
use distributed_test_runner.Sched.Ledger.{pool}

-- The fields of Config that the scheduler reads; `catalog` is the live one.
pub record Config : Type 0 where
  pub catalog : Catalog
  pub public_url : String
  pub default_timeout : ℕ
  pub default_retries : ℤ
  pub s3_endpoint : String
  pub s3_region : String
  pub s3_bucket : String
  pub s3_access_key : String
  pub s3_secret_key : String

-- What NewRunID and NewToken draw at random.
pub record Fresh : Type 0 where
  pub run_id : String
  pub token : String

abbrev pub no_summary : Summary
no_summary = record { tests = 0; passed = 0; failed = 0; errors = 0; skipped = 0 }

abbrev runtime_of : String → Option Pool → String
runtime_of rt none = rt
runtime_of rt (some p) = if rt == "" then p.runtime else rt

-- The suite's own retries, else the configured default where that is positive.
abbrev attempts : Config → SuiteSpec → Option ℤ → ℤ → ℕ
attempts cfg su none (pos (suc n)) = suc n + 1
attempts cfg su _ _ = max_attempts su

unfoldable pub max_attempts_for : Config → SuiteSpec → ℕ
max_attempts_for cfg su = attempts cfg su su.retries cfg.default_retries

unfoldable pub new_run : Config → Fresh → (now : ℕ) → Regression → SuiteSpec → (attempt : ℕ) → Run
unfolding max_attempts_for
new_run cfg fresh now reg su attempt = record {
  id = fresh.run_id;
  regression_id = reg.id;
  suite = su.name;
  attempt = attempt;
  max_attempts = max_attempts_for cfg su;
  pool = su.pool;
  runtime = runtime_of su.runtime (pool cfg.catalog su.pool);
  state = RunState.queued;
  priority = reg.priority;
  user = reg.user;
  groups = reg.groups;
  queued_at = now;
  dispatched_at = none;
  started_at = none;
  finished_at = none;
  backend_id = "";
  alloc_id = "";
  node_id = "";
  node_name = "";
  exit_code = none;
  message = "";
  summary = no_summary;
  cases = [];
  artifact_uri = "";
  artifacts = [];
  token = fresh.token;
  spec = su;
}
