-- ===== src/Tests/Attempts.antt =====
-- One attempt of a suite at concrete inputs: its verdict, its environment and its reports.
use distributed_test_runner.Base.{
  ℕ, zero, suc, ◌<◌, ◌≡◌, ◌≢◌, ◌↔◌, refl, Bool, true, false, Option, none, some, List, [], ◌∷◌,
  String, map, not, ◌==◌,
}
use distributed_test_runner.Base.Int.{pos}
use distributed_test_runner.Base.Result.{ok, err}
use distributed_test_runner.Model.State.{RunState}
use distributed_test_runner.Model.Suite.{BuildArtifact}
use distributed_test_runner.Model.Entities.{RunSpec, RunEvent}
use distributed_test_runner.Yaml.Bytes.{Bytes}
use distributed_test_runner.Runner.{NodeIdentity, World, execute}
use distributed_test_runner.Runner.Environment.{detect_node, build_env, env_name}
use distributed_test_runner.Runner.Post.{Answer, unanswered, status, post}
use distributed_test_runner.Runner.Verdict.{Succeeds, execute-zero_iff}
use distributed_test_runner.Runner.Delivery.{DeliversAt, post_iff}
use distributed_test_runner.Tests.Fixtures.{slot}
use distributed_test_runner.Tests.Documents.{results}

abbrev pub spec : RunSpec
spec = record {
  run_id = "run-a";
  regression_id = "reg-1";
  suite = "ui";
  attempt = 1;
  build = [];
  command = "mvn" ∷ "verify" ∷ [];
  env = ("LANG", "C") ∷ [];
  timeout = 0;
  slot = slot;
  cache_dir = "/cache";
  s3 = record {
    endpoint = "";
    region = "";
    bucket = "dtp";
    prefix = "";
    access_key = "";
    secret_key = "";
  };
  master_url = "http://master";
  token = "token-a";
}

abbrev node : NodeIdentity
node = record { id = "id-1"; name = "n1"; alloc_id = "alloc-1" }

abbrev shown : Bytes → String
shown s = "text"

-- The suite ends with 1, and one of its three cases failed.
abbrev world : World
world = record {
  setup = none;
  build = ok [];
  ending = record { past_deadline = false; process_exit = some (pos 1); run_error = none };
  results = results;
  has_store = true;
  uploads =
      record { path = "a.xml"; size = 3; is_stored = true }
      ∷ record { path = "b.log"; size = 9; is_stored = false }
      ∷ [];
}

abbrev states : List RunEvent → List (Option RunState)
states events = map (λ (e : RunEvent). e.state) events

execute_test :
    ((execute shown spec node world).0 ≡ 1)
    × (states (execute shown spec node world).1 ≡ none ∷ some RunState.failed ∷ [])
unfolding execute distributed_test_runner.Base.Text.decimal
execute_test = (refl, refl)

execute_unbuilt :
    states (execute shown spec node (record world { build = err "no such build" })).1
    ≡ none ∷ some RunState.errored ∷ []
unfolding execute
execute_unbuilt = refl

execute-zero_iff_example : ((execute shown spec node world).0 ≡ 0) ↔ Succeeds shown spec node world
execute-zero_iff_example = execute-zero_iff shown spec node world

-- No answer at first, then an error of the master, then a success.
abbrev answers : ℕ → Answer
answers zero = unanswered
answers (suc zero) = status 500
answers (suc (suc n)) = status 204

abbrev lasting : ℕ → Bool
lasting n = false

abbrev is_request : String → Bool
is_request url = not (url == "http://%")

post_bad_url : post answers lasting is_request "http://%" ≡ false
unfolding post
post_bad_url = refl

post_test : post answers lasting is_request "http://master" ≡ true
unfolding post
post_test = refl

post_refused : post (λ n. status 401) lasting is_request "http://master" ≡ false
unfolding post
post_refused = refl

post_iff_example : (post answers lasting is_request "http://master" ≡ true) ↔ (
    ◌≢◌ {A = String} "http://master" ""
    × ((is_request "http://master" ≡ true) × ((n : ℕ) × (n < 6) × DeliversAt answers lasting 0 n)))
post_iff_example = post_iff answers lasting is_request "http://master"

detect_node_test : detect_node (("NOMAD_NODE_ID", "id-7") ∷ []) "host" ≡ ("id-7", ("host", ""))
unfolding detect_node
detect_node_test = refl

env_name_test : env_name "jdk-21_x" ≡ "JDK_21_X"
unfolding env_name
env_name_test = refl

abbrev egit : BuildArtifact
egit = record {
  name = "egit";
  id = "egit-1";
  product = "";
  version = "6.8";
  ref = "";
  url = "";
  sha256 = "";
  unpack = "";
}

build_env_test :
    build_env (λ dir. some "egit-6.8") egit "/cache/egit" []
    ≡ ("DTP_BUILD_EGIT", "/cache/egit/egit-6.8")
      ∷ ("DTP_BUILD_EGIT_VERSION", "6.8")
      ∷ ("DTP_BUILD_EGIT_ID", "egit-1")
      ∷ []
unfolding build_env
build_env_test = refl
