-- ===== src/Sched/Admit.antt =====
-- internal/sched/admit.go: what the node is told to do, and the tick's admission.
-- `place` is the backend's Dispatch, with the text of its error; `fresh` gives the identifiers that a
-- retry of a run draws. Logging is not modelled.
pub mod Spec
pub mod Dispatch
use mathlib.Core.List.{foldl}
use distributed_test_runner.Base.{
  ℕ, String, Bool, true, false, ◌==◌, Option, none, some, List, [], ◌∷◌, if◌then◌else◌, nat_eq,
}
use distributed_test_runner.Base.Dict.{insert, insert_all}
use distributed_test_runner.Base.Text.{concat, decimal}
use distributed_test_runner.Base.Path.{join_path}
use distributed_test_runner.Base.Result.{Result, ok, err}
use distributed_test_runner.Model.State.{RunState, is_queued}
use distributed_test_runner.Model.Entities.{Run, Slot, RunSpec}
use distributed_test_runner.Config.Types.{Pool}
use distributed_test_runner.Backend.{NodeInfo, Placement}
use distributed_test_runner.Store.{Store, update_run, all_runs}
use distributed_test_runner.Sched.Setup.{Config, Fresh}
use distributed_test_runner.Sched.Ledger.{Ledger, Refusal, pool, block, why_text, new_ledger}
use distributed_test_runner.Sched.Pick.{pick}
use distributed_test_runner.Sched.Queue.{queue_of, Admission, admit_loop}
use distributed_test_runner.Sched.Finish.{finish}

pub data SpecError : Type 0 where
  unknown_pool : (pool : String) → SpecError
  no_command : (pool : String) → SpecError

abbrev pub spec_error_text : SpecError → String
spec_error_text (unknown_pool p) = concat ("unknown pool \"" ∷ p ∷ "\"" ∷ [])
spec_error_text (no_command p) =
    concat ("pool \"" ∷ p ∷ "\" has no default command and suite sets none" ∷ [])

abbrev pub result_prefix : String → String
result_prefix reg = concat (join_path ("results" ∷ reg ∷ []) ∷ "/" ∷ [])

abbrev pub run_prefix : Run → String
run_prefix r =
    let attempt = concat ("attempt-" ∷ decimal r.attempt ∷ []) in
    concat (join_path ("results" ∷ r.regression_id ∷ r.suite ∷ attempt ∷ []) ∷ "/" ∷ [])

-- The environment of the task: the suite's, then the three names of the platform.
unfoldable pub task_env : Run → List (String × String)
task_env r = insert "DTP_ATTEMPT" (decimal r.attempt) (
    insert "DTP_REGRESSION_ID" r.regression_id
      (insert "DTP_SUITE" r.suite (insert_all r.spec.env [])))

-- The suite's command, else the pool's default one.
unfoldable pub command_of : Pool → Run → List String
command_of p r = elim r.spec.command [ [] ↦ p.default_command | c ∷ cs ↦ c ∷ cs ]

abbrev pub spec_of : Config → Pool → Run → Slot → (command : List String) → RunSpec
spec_of cfg p r slot command = record {
  run_id = r.id;
  regression_id = r.regression_id;
  suite = r.suite;
  attempt = r.attempt;
  build = r.spec.build;
  command = command;
  env = task_env r;
  timeout = if nat_eq r.spec.timeout 0 then cfg.default_timeout else r.spec.timeout;
  slot = slot;
  cache_dir = p.cache_dir;
  s3 = record {
    endpoint = cfg.s3_endpoint;
    region = cfg.s3_region;
    bucket = cfg.s3_bucket;
    prefix = run_prefix r;
    access_key = cfg.s3_access_key;
    secret_key = cfg.s3_secret_key;
  };
  master_url = cfg.public_url;
  token = r.token;
}

abbrev pub spec_on : Config → Pool → Run → Slot → List String → Result SpecError RunSpec
spec_on cfg p r slot [] = err (no_command p.name)
spec_on cfg p r slot (c ∷ cs) = ok (spec_of cfg p r slot (c ∷ cs))

unfoldable pub build_run_spec : Config → Run → Slot → Result SpecError RunSpec
unfolding command_of
build_run_spec cfg r slot = elim (pool cfg.catalog r.pool) [
  | none ↦ err (unknown_pool r.pool)
  | some p ↦ spec_on cfg p r slot (command_of p r)
]

-- The update of dispatch, on the run as stored: `r` is the snapshot that was placed.
unfoldable pub dispatched_run : Config → (now : ℕ) → Run → RunSpec → Placement → Run → Run
dispatched_run cfg now r spec pl run = record run {
  state = RunState.dispatched;
  dispatched_at = some now;
  message = "";
  backend_id = pl.backend_id;
  node_id = r.node_id;
  node_name = r.node_name;
  artifact_uri = concat ("s3://" ∷ cfg.s3_bucket ∷ "/" ∷ spec.s3.prefix ∷ []);
}

-- The update of note.
unfoldable pub noted_run : String → Run → Run
noted_run msg run = if is_queued run.state then record run { message = msg } else run

unfoldable pub note : Store → Run → String → Store
unfolding noted_run
note st r msg = if r.message == msg then st else (update_run st r.id (noted_run msg)).0

-- Why a run that is still queued waits: a rule of its submission, or else one of the nodes.
unfoldable pub waits_for : Ledger → Run → Option Refusal
waits_for l r = elim (block l r none) [
  | some why ↦ some why
  | none ↦ elim (pool l.cat r.pool) [ none ↦ none | some p ↦ (pick l p r).refused ]
]

module _ (cfg : Config) (fresh : Run → Fresh) (now : ℕ)
    (place : Run → RunSpec → Result String Placement) where
  abbrev pub placed_on : Store → Run → RunSpec → Result String Placement → Store × Bool
  placed_on st r spec (err why) = (st, false)
  placed_on st r spec (ok pl) = ((update_run st r.id (dispatched_run cfg now r spec pl)).0, true)

  abbrev pub spec_failed : Store → Run → SpecError → Store
  spec_failed st r e = finish cfg (fresh r) now st r.id (record {
    state = RunState.errored;
    message = concat ("build run spec: " ∷ spec_error_text e ∷ []);
    exit = none;
  })

  unfoldable pub dispatch : Store → Run → Slot → Store × Bool
  unfolding build_run_spec dispatched_run
  dispatch st r slot = elim (build_run_spec cfg r slot) [
    | err e ↦ (spec_failed st r e, false)
    | ok spec ↦ placed_on st r spec (place r spec)
  ]

  unfoldable pub note_waiting : Ledger → Store → Run → Store
  unfolding note waits_for
  note_waiting l st r = note st r (why_text (waits_for l r))

  unfoldable pub admit : (inventory : List NodeInfo) → Store → Store
  unfolding dispatch note_waiting queue_of
  admit inventory st =
      let all = all_runs st in
      let a = admit_loop dispatch (record {
        queue = queue_of all;
        ledger = new_ledger cfg.catalog inventory all;
        state = st;
      }) in
      foldl (note_waiting a.ledger) a.state a.queue
