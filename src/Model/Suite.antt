-- ===== src/Model/Suite.antt =====
-- internal/model/model.go: the submission. A duration is a number of nanoseconds; a negative
-- one is not modelled. An absent map and an empty one are the same list.
use distributed_test_runner.Base.{ℕ, ◌+◌, ◌≤◌, String, Option, none, some, List, arith}
use distributed_test_runner.Base.Int.{ℤ, pos, negsuc}

pub record BuildArtifact : Type 0 where
  pub name : String
  pub id : String
  pub product : String
  pub url : String
  pub sha256 : String
  pub unpack : String
  pub version : String
  pub ref : String

pub record SuiteSpec : Type 0 where
  pub name : String
  pub pool : String
  pub runtime : String
  pub image : String
  pub command : List String
  pub requires : List (String × String)
  pub build : List BuildArtifact
  pub env : List (String × String)
  pub timeout : ℕ
  pub retries : Option ℤ

pub record SuiteDefaults : Type 0 where
  pub pool : String
  pub runtime : String
  pub image : String
  pub command : List String
  pub requires : List (String × String)
  pub build : List BuildArtifact
  pub env : List (String × String)
  pub timeout : ℕ
  pub retries : Option ℤ

pub record Submission : Type 0 where
  pub regression_id : String
  pub name : String
  pub user : String
  pub priority : ℤ
  pub labels : List (String × String)
  pub defaults : SuiteDefaults
  pub suites : List SuiteSpec

-- the integer `*su.Retries + 1` is read only where it is at least 1
abbrev attempts_of : Option ℤ → ℕ
attempts_of none = 1
attempts_of (some (negsuc n)) = 1
attempts_of (some (pos n)) = n + 1

-- SuiteSpec.MaxAttempts
unfoldable pub max_attempts : SuiteSpec → ℕ
max_attempts su = attempts_of su.retries

pub max_attempts_pos : (su : SuiteSpec) → 1 ≤ max_attempts su
unfolding max_attempts
max_attempts_pos su = ground arith
