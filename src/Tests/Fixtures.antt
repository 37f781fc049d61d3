-- ===== src/Tests/Fixtures.antt =====
-- The data of the tests.
use distributed_test_runner.Base.{refl, String, true, false, none, some, [], ◌∷◌, arith, eq_iff}
use distributed_test_runner.Base.Int.{pos}
use distributed_test_runner.Base.Dict.{lookup}
use distributed_test_runner.Base.Result.{Result, ok}
use distributed_test_runner.Model.State.{RunState, RegressionState}
use distributed_test_runner.Model.Suite.{SuiteSpec}
use distributed_test_runner.Model.Entities.{Totals, Regression, Run, Slot, RunEvent}
use distributed_test_runner.Config.Types.{Pool, QuotaRule, Catalog}
use distributed_test_runner.Backend.{Placement, Status, lost}
use distributed_test_runner.Store.{Rec, Store, add_run}
use distributed_test_runner.Store.Shape.{IsSound}
use distributed_test_runner.Store.Growth.{add_run-IsSound}
use distributed_test_runner.Sched.Setup.{Config, Fresh, no_summary}
use distributed_test_runner.Sched.Ledger.{NodeLedger, Ledger}

abbrev pub hp : Pool
hp = record {
  name = "hp";
  description = "";
  runtime = "process";
  task_driver = "";
  default_image = "";
  default_command = "run-tests" ∷ [];
  runner_command = [];
  docker_network = "";
  constraints = [];
  runner_url = "";
  cache_dir = "/cache";
  host_volume = "";
  spans = [];
}

abbrev pub user_rule : QuotaRule
user_rule = record {
  subject = "user";
  name = "ann";
  together = false;
  scope = "global";
  target = "";
  max_slots = pos 2;
  note = "";
}

abbrev pub pool_rule : QuotaRule
pool_rule = record {
  subject = "global";
  name = "";
  together = true;
  scope = "pool";
  target = "hp";
  max_slots = pos 3;
  note = "";
}

abbrev pub no_slots_rule : QuotaRule
no_slots_rule = record {
  subject = "group";
  name = "guests";
  together = false;
  scope = "global";
  target = "";
  max_slots = pos 0;
  note = "";
}

abbrev pub lab : Catalog
lab = record {
  pools = hp ∷ [];
  nodes = record { name = "n1"; pool = "hp" } ∷ record { name = "n2"; pool = "hp" } ∷ [];
  groups = record { name = "guests"; description = "" } ∷ [];
  users =
      record { name = "ann"; display_name = ""; email = ""; groups = [] }
      ∷ record { name = "bob"; display_name = ""; email = ""; groups = "guests" ∷ [] }
      ∷ [];
  quotas = user_rule ∷ pool_rule ∷ no_slots_rule ∷ [];
}

abbrev pub suite_spec : SuiteSpec
suite_spec = record {
  name = "ui";
  pool = "hp";
  runtime = "";
  image = "";
  command = [];
  requires = [];
  build = [];
  env = ("LANG", "C") ∷ [];
  timeout = 0;
  retries = some (pos 1);
}

abbrev pub queued_run : Run
queued_run = record {
  id = "run-a";
  regression_id = "reg-1";
  suite = "ui";
  attempt = 1;
  max_attempts = 2;
  pool = "hp";
  runtime = "process";
  state = RunState.queued;
  priority = pos 5;
  user = "ann";
  groups = [];
  queued_at = 10;
  dispatched_at = none;
  started_at = none;
  finished_at = none;
  backend_id = "";
  alloc_id = "";
  node_id = "";
  node_name = "";
  exit_code = none;
  message = "";
  summary = no_summary;
  cases = [];
  artifact_uri = "";
  artifacts = [];
  token = "token-a";
  spec = suite_spec;
}

abbrev pub later_run : Run
later_run = record queued_run { id = "run-b"; queued_at = 20; token = "token-b" }

abbrev pub canceled : Run
canceled = record queued_run { state = RunState.canceled }

abbrev pub slot : Slot
slot = record { cores = 1; cpu = 0; memory = 0; disk = 0; memory_max = 0 }

abbrev pub node_one : NodeLedger
node_one = record {
  info = record {
    id = "id-1";
    name = "n1";
    slots = 2;
    slot = slot;
    ready = true;
    status = "ready";
    meta = [];
  };
  pool = "hp";
  used = 0;
}

abbrev pub ledger : Ledger
ledger = record { cat = lab; nodes = node_one ∷ []; by_user = []; in_flight = [] }

abbrev pub totals : Totals
totals = record {
  suites = 1;
  suites_passed = 0;
  suites_failed = 0;
  suites_errored = 0;
  suites_running = 0;
  suites_queued = 1;
  tests = 0;
  passed = 0;
  failed = 0;
  skipped = 0;
  flaky = 0;
}

abbrev pub reg_one : Regression
reg_one = record {
  id = "reg-1";
  name = "nightly";
  user = "ann";
  groups = [];
  priority = pos 5;
  labels = [];
  state = RegressionState.pending;
  submitted_at = 1;
  started_at = none;
  finished_at = none;
  suites = suite_spec ∷ [];
  builds = [];
  totals = totals;
  artifact_uri = "";
}

abbrev pub config : Config
config = record {
  catalog = lab;
  public_url = "http://master";
  default_timeout = 100;
  default_retries = pos 0;
  s3_endpoint = "";
  s3_region = "";
  s3_bucket = "dtp";
  s3_access_key = "";
  s3_secret_key = "";
}

abbrev pub fresh : Fresh
fresh = record { run_id = "run-new"; token = "token-new" }

abbrev pub bare_record : Rec
bare_record = record { regression = reg_one; runs = []; tokens = [] }

-- The regression alone, and with its first run in some state.
abbrev pub bare_store : Store
bare_store = record {
  heap = [];
  by_reg = ("reg-1", bare_record) ∷ [];
  by_run = [];
  by_token = [];
  revision = 0;
}

abbrev pub store_of : Run → Store
store_of r = add_run bare_store r

pub bare_store-IsSound : IsSound bare_store
unfolding lookup
bare_store-IsSound = record {
  run_found = λ id a h. cc;
  token_found = λ token a h. cc;
  header_found = λ id rec h. ground (arith, eq_iff "reg-1" id);
  member_found = λ id rec a h m. ground (arith, eq_iff "reg-1" id);
}

pub store_of-IsSound : (r : Run) → IsSound (store_of r)
unfolding lookup
store_of-IsSound r = add_run-IsSound bare_store bare_store-IsSound r refl

-- A backend that takes every run.
abbrev pub taken : {A B : Type 0} → A → B → Result String Placement
taken r spec = ok (record { backend_id = "job-1"; node_id = ""; node_name = "" })

abbrev pub lost_status : Status
lost_status = record {
  phase = lost;
  alloc_id = "";
  node_id = "id-1";
  node_name = "n1";
  exit_code = none;
  message = "gone";
}

abbrev pub finished_event : RunEvent
finished_event = record {
  run_id = "run-a";
  phase = "finished";
  state = some RunState.passed;
  node_id = "id-1";
  node_name = "n1";
  alloc_id = "";
  exit_code = some (pos 0);
  message = "";
  summary = no_summary;
  cases = [];
  artifacts = [];
}
