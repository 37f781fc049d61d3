-- ===== src/Tests/Backends.antt =====
-- The backends and the build repository at concrete inputs.
use distributed_test_runner.Base.{
  Bool-cases, inl, inr, ℕ, ◌≡◌, refl, Bool, Option, none, some, List, [], ◌∷◌, String, Elem, ◌==◌,
  if◌then◌else◌,
}
use distributed_test_runner.Base.Int.{pos}
use distributed_test_runner.Base.Dict.{lookup, HasUniqueKeys}
use distributed_test_runner.Base.Result.{ok}
use distributed_test_runner.Model.Suite.{BuildArtifact}
use distributed_test_runner.Model.Entities.{Run}
use distributed_test_runner.Config.Types.{Pool}
use distributed_test_runner.Backend.{Placement, Status}
use distributed_test_runner.Backend.Nomad.Jobs.{Job, NomadConfig, job_of, dispatch, placement_of}
use distributed_test_runner.Backend.Nomad.Allocations.{Alloc, Event, status_of, poll_all}
use distributed_test_runner.Backend.Nomad.Placed.{IsPlaced, dispatch-IsPlaced}
use distributed_test_runner.Backend.Nomad.Newest.{IsStatusOf, poll_all-AreNewest}
use distributed_test_runner.Backend.Local.{LocalNode, Local, Exit, use_of, free_slot, note_exit}
use distributed_test_runner.Backend.Local.Balance.{
  IsBalanced, Reached, at_start, dispatched, freed, noted, Reached-IsBalanced,
}
use distributed_test_runner.Buildrepo.{
  Manifest, Object, payloads_of, complete, wanted_product, resolve,
}
use distributed_test_runner.Buildrepo.Latest.{IsNewestOf, resolve-latest}
use distributed_test_runner.Tests.Fixtures.{hp, slot, queued_run}
use distributed_test_runner.Tests.Attempts.{spec}

abbrev placed_run : Run
placed_run = record queued_run { node_id = "local-n1"; node_name = "n1"; backend_id = "dtp-1" }

-- Nomad

abbrev runner_pool : Pool
runner_pool = record hp { runner_command = "dtp-runner" ∷ []; constraints = ("os", "linux") ∷ [] }

abbrev pool_named : String → Option Pool
pool_named name = if name == "hp" then some runner_pool else none

same_pool : (p q : Pool) (o : Option Pool) → o ≡ some p → o ≡ some q → p ≡ q
same_pool p q o e f = cc

no_pool : (p : Pool) → ◌≡◌ {A = Option Pool} none (some p) → ⊥
no_pool p e = cc

abbrev nomad_config : NomadConfig
nomad_config = record { datacenters = "dc1" ∷ []; namespace = "" }

abbrev accepted : Job → Option String
accepted job = none

abbrev job : Job
job = job_of nomad_config "c3BlYw==" placed_run spec runner_pool (
  some (record {
    image = none;
    command = some "dtp-runner";
    args = [];
    network_mode = none;
    volumes = [];
  }),
  none,
)

abbrev placement : Placement
placement = placement_of placed_run job

job_dispatched :
    dispatch pool_named nomad_config "c3BlYw==" accepted placed_run spec ≡ ok (placement, job)
unfolding dispatch
job_dispatched = refl

job_id_test : job.id ≡ "dtp-reg-1-ui-1"
unfolding distributed_test_runner.Backend.Nomad.Jobs.job_id
job_id_test = refl

pools-HasUniqueKeys :
    (name : String) (pool : Pool) → pool_named name ≡ some pool → HasUniqueKeys pool.constraints
unfolding lookup
pools-HasUniqueKeys name pool e = elim (Bool-cases (name == "hp")) [
  | inl y ↦
      let same : runner_pool ≡ pool = same_pool runner_pool pool _ refl (rw y at e) in
      rw (← same) (refl, tt)
  | inr n ↦ absurd (no_pool pool (rw n at e))
]

dispatch-IsPlaced_example :
    (pool : Pool) × (pool_named placed_run.pool ≡ some pool)
    × IsPlaced placed_run pool accepted placement job
dispatch-IsPlaced_example =
    dispatch-IsPlaced pool_named nomad_config "c3BlYw==" accepted placed_run spec placement job tt
      pools-HasUniqueKeys job_dispatched

abbrev oom : Event
oom = record {
  type = "Terminated";
  display_message = "";
  exit_code = pos 137;
  message = "";
  details = ("oom_killed", "true") ∷ [];
}

abbrev older : Alloc
older = record {
  id = "alloc-1";
  job_id = "dtp-1";
  node_id = "id-1";
  node_name = "n1";
  client_status = "failed";
  client_description = "";
  desired_description = "";
  task_events = (oom ∷ []) ∷ [];
  create_index = 7;
}

abbrev newest : Alloc
newest = record older {
  id = "alloc-2";
  client_status = "running";
  task_events = [];
  create_index = 9;
}

abbrev allocs : List Alloc
allocs = older ∷ newest ∷ record older { job_id = "web"; create_index = 12 } ∷ []

oom_test : (status_of older).message ≡ "OOM killed: the task exceeded its memory limit (exit 137)"
unfolding status_of lookup
oom_test = refl

allocs_polled : poll_all (ok allocs) (placed_run ∷ []) ≡ ok (("run-a", status_of newest) ∷ [])
unfolding poll_all
allocs_polled = refl

found_status : lookup "run-a" (("run-a", status_of newest) ∷ []) ≡ some (status_of newest)
unfolding lookup
found_status = refl

poll_all-AreNewest_example :
    (r : Run) × Elem r (placed_run ∷ []) × (r.id ≡ "run-a") × IsStatusOf allocs r (status_of newest)
poll_all-AreNewest_example =
    poll_all-AreNewest allocs (placed_run ∷ []) (("run-a", status_of newest) ∷ []) allocs_polled
      "run-a" (status_of newest) found_status

-- The local backend: one node with one slot.

abbrev nodes : List LocalNode
nodes = record { name = "n1"; slots = 1; slot = slot; meta = [] } ∷ []

abbrev knows_pool : String → Bool
knows_pool name = name == "hp"

abbrev exited : Exit
exited = record { wait_error = none; code = pos 0 }

abbrev at_rest : Local
at_rest = record { processes = []; procs = []; node_use = [] }

abbrev busy : Local
busy = (distributed_test_runner.Backend.Local.dispatch nodes knows_pool at_rest placed_run none).1

-- A second run finds no slot, and the first one ends.
abbrev after : Local
after =
    note_exit
      (free_slot
        (distributed_test_runner.Backend.Local.dispatch nodes knows_pool busy placed_run none).1 0)
      0 exited

use_test : (use_of busy.node_use "n1" ≡ 1) × (use_of after.node_use "n1" ≡ 0)
unfolding distributed_test_runner.Backend.Local.dispatch free_slot note_exit
use_test = (refl, refl)

after-Reached : Reached nodes knows_pool after
after-Reached =
    noted _ (freed _ (dispatched _ (dispatched _ at_start placed_run none) placed_run none) 0) 0
      exited

Reached-IsBalanced_example : IsBalanced nodes after
Reached-IsBalanced_example = Reached-IsBalanced nodes knows_pool after after-Reached

-- The build repository: two builds of egit.

abbrev manifest : String → ℕ → Manifest
manifest id built = record {
  id = id;
  product = "egit";
  version = "6.8";
  ref = "";
  built = built;
  url = "";
  sha256 = "";
  size = 0;
  unpack = "";
}

abbrev read : String → Option Manifest
read key =
    if key == "a.json"
    then some (manifest "" 3)
    else if key == "b.json"
    then some (manifest "" 5)
    else none

abbrev object : String → Object
object key = record { key = key; size = 100 }

abbrev objects : List Object
objects =
    object "a.json"
    ∷ object "a.tar.gz"
    ∷ object "b.json"
    ∷ object "b.tar.gz"
    ∷ object "notes.txt"
    ∷ []

abbrev wanted : BuildArtifact
wanted = record {
  name = "egit";
  id = "latest";
  product = "";
  version = "";
  ref = "";
  url = "";
  sha256 = "";
  unpack = "";
}

abbrev resolved : BuildArtifact
resolved = record wanted {
  id = "b";
  product = "egit";
  version = "6.8";
  url = "s3://builds/b.tar.gz";
}

latest_resolved : resolve (ok (payloads_of "builds" read objects)) wanted ≡ ok resolved
unfolding resolve payloads_of
latest_resolved = refl

resolve-latest_example :
    (m : Manifest) × (resolved ≡ complete wanted m)
    × IsNewestOf (λ p n. n.product == wanted_product wanted) (payloads_of "builds" read objects) m
resolve-latest_example = resolve-latest "builds" read objects wanted resolved refl latest_resolved
