-- ===== src/Backend/Nomad/Allocations.antt =====
-- What internal/backend/nomadbackend.go and internal/nomad/client.go read off allocations.
use mathlib.Core.List.{foldl}
use distributed_test_runner.Base.{
  ℕ, String, Bool, false, not, ◌||◌, ◌==◌, Option, none, some, List, [], ◌∷◌, if◌then◌else◌, ltb,
  nat_eq,
}
use distributed_test_runner.Base.Int.{ℤ, pos, negsuc}
use distributed_test_runner.Base.Dict.{lookup, insert}
use distributed_test_runner.Base.Text.{concat, decimal_int}
use distributed_test_runner.Base.Scan.{cut_prefix, has_prefix, has_text}
use distributed_test_runner.Base.Result.{Result, ok, err, ◌>>=◌}
use distributed_test_runner.Model.Entities.{Run}
use distributed_test_runner.Backend.{Status, Phase}
use distributed_test_runner.Backend.Phase.{unknown, pending, running, complete, failed, lost}

pub record Event : Type 0 where
  pub type : String
  pub display_message : String
  pub exit_code : ℤ
  pub message : String
  pub details : List (String × String)

-- The events of each task, the oldest first.
pub record Alloc : Type 0 where
  pub id : String
  pub job_id : String
  pub node_id : String
  pub node_name : String
  pub client_status : String
  pub client_description : String
  pub desired_description : String
  pub task_events : List (List Event)
  pub create_index : ℕ

abbrev or_first : {A : Type 0} → Option A → Option A → Option A
or_first none o = o
or_first (some a) o = some a

-- The first that `read` finds from the end of the events.
unfoldable pub from_last : {A : Type 0} → (Event → Option A) → List Event → Option A
from_last read [] = none
from_last read (e ∷ es) = or_first (from_last read es) (read e)

-- That of the first task that has one.
unfoldable pub from_tasks : {A : Type 0} → (Event → Option A) → List (List Event) → Option A
unfolding from_last
from_tasks read [] = none
from_tasks read (es ∷ tasks) = or_first (from_last read es) (from_tasks read tasks)

abbrev exit_of : Event → Option ℤ
exit_of e = if e.type == "Terminated" then some e.exit_code else none

-- Alloc.ExitCode
unfoldable pub alloc_exit : Alloc → Option ℤ
unfolding from_tasks
alloc_exit a = from_tasks exit_of a.task_events

abbrev is_zero : ℤ → Bool
is_zero (pos n) = nat_eq n 0
is_zero (negsuc n) = false

abbrev is_oom : Event → Bool
is_oom e = elim (lookup "oom_killed" e.details) [ none ↦ false | some v ↦ v == "true" ]

abbrev failure_of : Event → Option String
failure_of e =
    if e.type == "Terminated"
    then if is_oom e
      then some (
          concat (
            "OOM killed: the task exceeded its memory limit (exit "
            ∷ decimal_int e.exit_code
            ∷ ")"
            ∷ []))
      else if is_zero e.exit_code
      then none
      else some
          (concat ("task exited " ∷ decimal_int e.exit_code ∷ " without reporting results" ∷ []))
    else if e.type == "Driver Failure" || (e.type == "Setup Failure" || e.type == "Killing")
    then some (if e.display_message == "" then e.message else e.display_message)
    else none

-- Alloc.FailureMessage
unfoldable pub failure_message : Alloc → String
unfolding from_tasks lookup decimal_int
failure_message a = elim (from_tasks failure_of a.task_events) [
  | some message ↦ message
  | none ↦ if a.client_description == "" then a.desired_description else a.client_description
]

abbrev with_phase : Alloc → Phase → String → Status
with_phase a phase message = record {
  phase = phase;
  alloc_id = a.id;
  node_id = a.node_id;
  node_name = a.node_name;
  exit_code = alloc_exit a;
  message = message;
}

-- statusOf
unfoldable pub status_of : Alloc → Status
unfolding alloc_exit failure_message
status_of a =
    if a.client_status == "pending"
    then with_phase a pending ""
    else if a.client_status == "running"
    then with_phase a running ""
    else if a.client_status == "complete"
    then with_phase a complete ""
    else if a.client_status == "failed"
    then with_phase a failed (failure_message a)
    else if a.client_status == "lost"
    then with_phase a lost "allocation lost"
    else with_phase a unknown ""

abbrev bare : Phase → String → Status
bare phase message = record {
  phase = phase;
  alloc_id = "";
  node_id = "";
  node_name = "";
  exit_code = none;
  message = message;
}

-- The last allocation of a list.
unfoldable pub last_alloc : List Alloc → Option Alloc
last_alloc [] = none
last_alloc (a ∷ allocs) = or_first (last_alloc allocs) (some a)

-- Poll; `allocs` is Nomad's answer for the job.
unfoldable pub poll : Result String (List Alloc) → Run → Result String Status
unfolding status_of last_alloc has_text
poll allocs run = if run.backend_id == "" then ok (bare unknown "") else elim allocs [
  | err why ↦
      if has_text why "404" || has_text why "not found"
      then ok (bare lost "job not found in Nomad")
      else err why
  | ok found ↦ elim (last_alloc found) [
    | none ↦ ok (bare pending "waiting for placement")
    | some a ↦ ok (status_of a)
  ]
]

-- The newest allocation of each job so far, with one more.
unfoldable pub keep_latest : List (String × Alloc) → Alloc → List (String × Alloc)
unfolding lookup insert cut_prefix
keep_latest latest a =
    if not (has_prefix a.job_id "dtp-") then latest else elim (lookup a.job_id latest) [
      | none ↦ insert a.job_id a latest
      | some cur ↦ if ltb cur.create_index a.create_index then insert a.job_id a latest else latest
    ]

-- The status of a run whose allocation is known.
unfoldable pub note_status :
    List (String × Alloc) → List (String × Status) → Run → List (String × Status)
unfolding lookup insert status_of
note_status latest out r = elim (lookup r.backend_id latest) [
  | none ↦ out
  | some a ↦ if r.backend_id == "" then out else insert r.id (status_of a) out
]

-- PollAll
unfoldable pub poll_all :
    Result String (List Alloc) → List Run → Result String (List (String × Status))
unfolding keep_latest note_status
poll_all allocs runs =
    allocs >>= (λ found. ok (foldl (note_status (foldl keep_latest [] found)) [] runs))

-- Stop: the job that is stopped, if any.
unfoldable pub stop : Run → Option String
stop run = if run.backend_id == "" then none else some run.backend_id
