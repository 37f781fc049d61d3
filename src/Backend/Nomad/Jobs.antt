-- ===== src/Backend/Nomad/Jobs.antt =====
-- The jobs of internal/backend/nomadbackend.go.
use Prim.Native.String.{slice}
use distributed_test_runner.Base.{
  ℕ, String, false, not, ◌&&◌, ◌==◌, Option, none, some, List, [], ◌∷◌, ◌++◌, map, if◌then◌else◌,
  ltb,
}
use distributed_test_runner.Base.Int.{ℤ, pos, negsuc}
use distributed_test_runner.Base.Dict.{lookup, insert, insert_all}
use distributed_test_runner.Base.Text.{concat, decimal, text_less}
use distributed_test_runner.Base.Sort.{sort}
use distributed_test_runner.Base.Result.{Result, ok, err, ◌>>=◌}
use distributed_test_runner.Model.State.{runtime_process, runtime_container}
use distributed_test_runner.Model.Entities.{Run, RunSpec}
use distributed_test_runner.Config.Types.{Pool, driver, runner_cmd}
use distributed_test_runner.Backend.{Placement}
use distributed_test_runner.Sched.Ids.{replace_gaps}

-- A constraint on a node; every operand is "=".
pub record Constraint : Type 0 where
  pub left : String
  pub right : String

pub record Resources : Type 0 where
  pub memory : ℕ
  pub cores : Option ℕ
  pub cpu : Option ℕ
  pub memory_max : Option ℕ

-- The Config of a task; only a container has an image.
pub record TaskConfig : Type 0 where
  pub image : Option String
  pub command : Option String
  pub args : List String
  pub network_mode : Option String
  pub volumes : List String

pub record Task : Type 0 where
  pub env : List (String × String)
  pub resources : Resources
  pub task_driver : String
  pub config : Option TaskConfig
  pub artifact : Option String
  pub volume_mount : Option String

-- A job; what is the same in every job (its type, its restart policy, its log files) is left out.
pub record Job : Type 0 where
  pub id : String
  pub priority : ℤ
  pub datacenters : List String
  pub namespace : Option String
  pub meta : List (String × String)
  pub constraints : List Constraint
  pub host_volume : Option String
  pub disk : ℕ
  pub task : Task

-- JobID
unfoldable pub job_id : Run → String
unfolding replace_gaps decimal
job_id run = concat (
    "dtp-"
    ∷ run.regression_id
    ∷ "-"
    ∷ slice (replace_gaps false run.suite) 0 60
    ∷ "-"
    ∷ decimal run.attempt
    ∷ [])

-- nomadPriority
unfoldable pub nomad_priority : ℤ → ℤ
nomad_priority (negsuc n) = pos 50
nomad_priority (pos n) = if ltb 0 n then (if ltb 100 n then pos 100 else pos n) else pos 50

abbrev pub keys : List (String × String) → List String
keys m = map (λ e. e.0) m

-- The baseline of the pool, under what the suite requires.
abbrev pub wanted : Run → Pool → List (String × String)
wanted run pool = insert_all run.spec.requires (insert_all pool.constraints [])

abbrev pub meta_target : String → String
meta_target key = concat ("${meta.dtp." ∷ key ∷ "}" ∷ [])

abbrev pub value_of : Option String → String
value_of none = ""
value_of (some v) = v

unfoldable pub constraints : Run → Pool → List Constraint
unfolding insert_all sort lookup
constraints run pool =
    map (λ key. record { left = meta_target key; right = value_of (lookup key (wanted run pool)) })
      (sort text_less (keys (wanted run pool)))

-- The constraint to the node that the master chose.
abbrev pub pin : Run → Constraint
pin run = record { left = "${node.unique.id}"; right = run.node_id }

unfoldable pub job_env : String → Run → RunSpec → List (String × String)
unfolding insert insert_all
job_env encoded run spec = insert_all spec.env (
    insert "DTP_NODE_NAME" "${node.unique.name}" (
      insert "DTP_NODE_ID" "${node.unique.id}" (
        insert "DTP_SUITE" run.suite (
          insert "DTP_REGRESSION_ID" run.regression_id
            (insert "DTP_RUN_ID" run.id (insert "DTP_RUN_SPEC" encoded []))))))

unfoldable pub resources_of : RunSpec → Resources
resources_of spec =
    let reserves = ltb 0 spec.slot.cores in
    record {
      memory = spec.slot.memory;
      cores = if reserves then some spec.slot.cores else none;
      cpu = if reserves then none else some spec.slot.cpu;
      memory_max =
          if ltb spec.slot.memory spec.slot.memory_max then some spec.slot.memory_max else none;
    }

abbrev head : List String → Option String
head [] = none
head (c ∷ cs) = some c

abbrev tail : List String → List String
tail [] = []
tail (c ∷ cs) = cs

abbrev unless_empty : String → Option String
unless_empty s = if s == "" then none else some s

abbrev container_config : Pool → String → TaskConfig
container_config pool image = record {
  image = some image;
  command = head (runner_cmd pool);
  args = tail (runner_cmd pool);
  network_mode = unless_empty pool.docker_network;
  volumes =
      if pool.host_volume == "" && not (pool.cache_dir == "")
      then concat (pool.cache_dir ∷ ":" ∷ pool.cache_dir ∷ []) ∷ []
      else [];
}

abbrev process_config : String → List String → TaskConfig
process_config command args = record {
  image = none;
  command = some command;
  args = args;
  network_mode = none;
  volumes = [];
}

abbrev image_of : Run → Pool → String
image_of run pool = if run.spec.image == "" then pool.default_image else run.spec.image

-- The configuration of the task, and the artifact that it fetches.
unfoldable pub task_config : Run → Pool → Result String (Option TaskConfig × Option String)
unfolding runner_cmd
task_config run pool =
    if pool.runtime == runtime_container
    then if image_of run pool == ""
      then err (concat ("pool \"" ∷ pool.name ∷ "\": container runtime needs an image" ∷ []))
      else ok (some (container_config pool (image_of run pool)), none)
    else if pool.runtime == runtime_process
    then elim (runner_cmd pool) [
      | [] ↦
          err (concat ("pool \"" ∷ pool.name ∷ "\": process runtime needs a runner_command" ∷ []))
      | command ∷ args ↦ ok (some (process_config command args), unless_empty pool.runner_url)
    ]
    else ok (none, none)

-- Nomad's part of the configuration.
pub record NomadConfig : Type 0 where
  pub datacenters : List String
  pub namespace : String

abbrev pub job_of :
    NomadConfig → String → Run → RunSpec → Pool → Option TaskConfig × Option String → Job
job_of cfg encoded run spec pool (config, artifact) = record {
  id = job_id run;
  priority = nomad_priority run.priority;
  datacenters = cfg.datacenters;
  namespace = unless_empty cfg.namespace;
  meta =
      ("dtp.regression", run.regression_id)
      ∷ ("dtp.suite", run.suite)
      ∷ ("dtp.run", run.id)
      ∷ ("dtp.attempt", decimal run.attempt)
      ∷ [];
  constraints = constraints run pool ++ pin run ∷ [];
  host_volume = unless_empty pool.host_volume;
  disk = spec.slot.disk;
  task = record {
    env = job_env encoded run spec;
    resources = resources_of spec;
    task_driver = driver pool;
    config = config;
    artifact = artifact;
    volume_mount = if pool.host_volume == "" then none else some pool.cache_dir;
  };
}

-- buildJob; `encoded` is the spec as JSON in base64.
unfoldable pub build_job : NomadConfig → String → Run → RunSpec → Pool → Result String Job
unfolding task_config job_id nomad_priority constraints job_env resources_of driver decimal
build_job cfg encoded run spec pool =
    task_config run pool >>= (λ config. ok (job_of cfg encoded run spec pool config))

abbrev pub placement_of : Run → Job → Placement
placement_of run job = record {
  backend_id = job.id;
  node_id = run.node_id;
  node_name = run.node_name;
}

-- What registering a job comes to, with Nomad's error if any.
abbrev pub registered : Run → Job → Option String → Result String (Placement × Job)
registered run job (some why) = err why
registered run job none = ok (placement_of run job, job)

-- Dispatch: what it returns, with the job that it registered. `register` is Nomad's answer.
unfoldable pub dispatch :
    (String → Option Pool)
    → NomadConfig
    → String
    → (Job → Option String)
    → Run
    → RunSpec
    → Result String (Placement × Job)
unfolding build_job
dispatch pool_named cfg encoded register run spec = elim (pool_named run.pool) [
  | none ↦ err (concat ("unknown pool \"" ∷ run.pool ∷ "\"" ∷ []))
  | some pool ↦
      if run.node_id == ""
      then err (concat ("run " ∷ run.id ∷ " has no node chosen" ∷ []))
      else build_job cfg encoded run spec pool >>= (λ job. registered run job (register job))
]
