-- ===== src/Model/Entities.antt =====
-- internal/model/model.go: what the store keeps. Times are nanoseconds since an epoch, and a nil
-- `*time.Time` is `none`. The float durations of summaries and cases are left out.
use distributed_test_runner.Base.{ℕ, String, Option, List}
use distributed_test_runner.Base.Int.{ℤ}
use distributed_test_runner.Model.State.{RunState, RegressionState}
use distributed_test_runner.Model.Suite.{SuiteSpec, BuildArtifact}

pub record Summary : Type 0 where
  pub tests : ℕ
  pub passed : ℕ
  pub failed : ℕ
  pub errors : ℕ
  pub skipped : ℕ

pub record Case : Type 0 where
  pub class : String
  pub name : String
  pub status : String
  pub message : String
  pub details : String

pub record ArtRef : Type 0 where
  pub path : String
  pub size : ℕ

pub record Totals : Type 0 where
  pub suites : ℕ
  pub suites_passed : ℕ
  pub suites_failed : ℕ
  pub suites_errored : ℕ
  pub suites_running : ℕ
  pub suites_queued : ℕ
  pub tests : ℕ
  pub passed : ℕ
  pub failed : ℕ
  pub skipped : ℕ
  pub flaky : ℕ

pub record Regression : Type 0 where
  pub id : String
  pub name : String
  pub user : String
  pub groups : List String
  pub priority : ℤ
  pub labels : List (String × String)
  pub state : RegressionState
  pub submitted_at : ℕ
  pub started_at : Option ℕ
  pub finished_at : Option ℕ
  pub suites : List SuiteSpec
  pub builds : List BuildArtifact
  pub totals : Totals
  pub artifact_uri : String

pub record Run : Type 0 where
  pub id : String
  pub regression_id : String
  pub suite : String
  pub attempt : ℕ
  pub max_attempts : ℕ
  pub pool : String
  pub runtime : String
  pub state : RunState
  pub priority : ℤ
  pub user : String
  pub groups : List String
  pub queued_at : ℕ
  pub dispatched_at : Option ℕ
  pub started_at : Option ℕ
  pub finished_at : Option ℕ
  pub backend_id : String
  pub alloc_id : String
  pub node_id : String
  pub node_name : String
  pub exit_code : Option ℤ
  pub message : String
  pub summary : Summary
  pub cases : List Case
  pub artifact_uri : String
  pub artifacts : List ArtRef
  pub token : String
  pub spec : SuiteSpec

-- Slot: the resource envelope of one slot.
pub record Slot : Type 0 where
  pub cores : ℕ
  pub cpu : ℕ
  pub memory : ℕ
  pub disk : ℕ
  pub memory_max : ℕ

pub record S3Target : Type 0 where
  pub endpoint : String
  pub region : String
  pub bucket : String
  pub prefix : String
  pub access_key : String
  pub secret_key : String

-- RunSpec: what the runner on the node is told.
pub record RunSpec : Type 0 where
  pub run_id : String
  pub regression_id : String
  pub suite : String
  pub attempt : ℕ
  pub build : List BuildArtifact
  pub command : List String
  pub env : List (String × String)
  pub timeout : ℕ
  pub slot : Slot
  pub cache_dir : String
  pub s3 : S3Target
  pub master_url : String
  pub token : String

-- RunEvent: what the runner posts to the master; `state` is `none` when the text is empty.
pub record RunEvent : Type 0 where
  pub run_id : String
  pub phase : String
  pub state : Option RunState
  pub node_id : String
  pub node_name : String
  pub alloc_id : String
  pub exit_code : Option ℤ
  pub message : String
  pub summary : Summary
  pub cases : List Case
  pub artifacts : List ArtRef
