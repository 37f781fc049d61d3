-- ===== src/Backend/Local.antt =====
-- internal/backend/localbackend.go: the suites as child processes of the master on simulated nodes.
-- A process has a number here, its place in `processes`; `procs` maps the id of a run to the number
-- of its latest process. The operating system's answers are arguments.
pub mod Uses
pub mod Balance
use distributed_test_runner.Base.{
  ℕ, zero, suc, ◌+◌, ◌-◌, String, Bool, true, false, not, ◌&&◌, ◌||◌, ◌==◌, Option, none, some,
  List, [], ◌∷◌, ◌++◌, if◌then◌else◌, ltb, leb, nat_eq, length, get_elem?,
}
use distributed_test_runner.Base.Int.{ℤ, pos, negsuc}
use distributed_test_runner.Base.Dict.{lookup, insert}
use distributed_test_runner.Base.Text.{concat, decimal}
use distributed_test_runner.Base.Result.{Result, ok, err, ◌>>=◌}
use distributed_test_runner.Model.Entities.{Run, Slot}
use distributed_test_runner.Backend.{NodeInfo, Placement, Status, Phase}
use distributed_test_runner.Backend.Phase.{unknown, running, complete, failed}

-- LocalNode of internal/config/config.go
pub record LocalNode : Type 0 where
  pub name : String
  pub slots : ℕ
  pub slot : Slot
  pub meta : List (String × String)

-- localProc; `is_ended` says that the goroutine of the process has given the slot back after Wait.
pub record Process : Type 0 where
  pub node_id : String
  pub node_name : String
  pub is_ended : Bool
  pub is_done : Bool
  pub exit_code : ℤ
  pub is_failed : Bool
  pub message : String

pub record Local : Type 0 where
  pub processes : List Process
  pub procs : List (String × ℕ)
  pub node_use : List (String × ℕ)

abbrev pub node_id_of : String → String
node_id_of name = concat ("local-" ∷ name ∷ [])

-- Inventory
unfoldable pub inventory : List LocalNode → List NodeInfo
inventory [] = []
inventory (n ∷ ns) =
    record {
      id = node_id_of n.name;
      name = n.name;
      slots = n.slots;
      slot = n.slot;
      ready = true;
      status = "ready";
      meta = n.meta;
    }
    ∷ inventory ns

-- b.nodeUse[name]
unfoldable pub use_of : List (String × ℕ) → String → ℕ
unfolding lookup
use_of node_use name = elim (lookup name node_use) [ none ↦ 0 | some n ↦ n ]

-- The node that the run is for.
unfoldable pub node_for : List LocalNode → String → Option LocalNode
node_for [] node_id = none
node_for (n ∷ ns) node_id = if node_id_of n.name == node_id then some n else node_for ns node_id

-- claim: the node's name, and the use of the nodes after it
unfoldable pub claim :
    List LocalNode → List (String × ℕ) → Run → Result String (String × List (String × ℕ))
unfolding node_for use_of insert decimal
claim nodes node_use run = elim (node_for nodes run.node_id) [
  | none ↦ err (concat ("unknown local node \"" ∷ run.node_id ∷ "\"" ∷ []))
  | some n ↦
      if leb n.slots (use_of node_use n.name)
      then err (
          concat (
            "node "
            ∷ n.name
            ∷ " has no free slot ("
            ∷ decimal (use_of node_use n.name)
            ∷ "/"
            ∷ decimal n.slots
            ∷ ")"
            ∷ []))
      else ok (n.name, insert n.name (use_of node_use n.name + 1) node_use)
]

-- release
unfoldable pub release : List (String × ℕ) → String → List (String × ℕ)
unfolding use_of insert
release node_use name =
    if ltb 0 (use_of node_use name)
    then insert name (use_of node_use name - 1) node_use
    else node_use

abbrev pub started : Run → String → Process
started run name = record {
  node_id = run.node_id;
  node_name = name;
  is_ended = false;
  is_done = false;
  exit_code = pos 0;
  is_failed = false;
  message = "";
}

abbrev local_id : Run → String
local_id run = concat ("local:" ∷ run.id ∷ [])

-- After the claim: the process is started, or the slot is given back. `start` is the error of the
-- directory, of the log file or of the start, if any.
abbrev pub launch :
    Local → Run → Option String → String × List (String × ℕ) → Result String Placement × Local
launch b run (some why) (name, claimed) = (err why, record b { node_use = release claimed name })
launch b run none (name, claimed) = (
  ok (record { backend_id = local_id run; node_id = run.node_id; node_name = name }),
  record {
    processes = b.processes ++ started run name ∷ [];
    procs = insert run.id (length b.processes) b.procs;
    node_use = claimed;
  },
)

-- Dispatch. `knows_pool` says that the configuration has the run's pool.
unfoldable pub dispatch :
    List LocalNode → (String → Bool) → Local → Run → Option String → Result String Placement × Local
unfolding claim release insert
dispatch nodes knows_pool b run start =
    if not (knows_pool run.pool)
    then (err (concat ("unknown pool \"" ∷ run.pool ∷ "\"" ∷ [])), b)
    else if run.node_id == ""
    then (err (concat ("run " ∷ run.id ∷ " has no node chosen" ∷ [])), b)
    else elim (claim nodes b.node_use run) [
      | err why ↦ (err why, b)
      | ok claimed ↦ launch b run start claimed
    ]

-- How a process ended: the error of Wait, if any, and its exit code.
pub record Exit : Type 0 where
  pub wait_error : Option String
  pub code : ℤ

abbrev pub ended : Process → Exit → Process
ended p e = elim e.wait_error [
  | none ↦ record p { is_done = true; exit_code = e.code }
  | some why ↦ record p { is_done = true; is_failed = true; message = why; exit_code = e.code }
]

unfoldable pub set_process : List Process → ℕ → Process → List Process
set_process [] n q = []
set_process (p ∷ ps) zero q = q ∷ ps
set_process (p ∷ ps) (suc n) q = p ∷ set_process ps n q

-- The goroutine of a process takes the lock twice. First, after Wait, it gives the slot back.
unfoldable pub free_slot : Local → ℕ → Local
unfolding release set_process
free_slot b n = elim (get_elem? b.processes n) [
  | none ↦ b
  | some p ↦ if p.is_ended then b else record b {
    processes = set_process b.processes n (record p { is_ended = true });
    node_use = release b.node_use p.node_name;
  }
]

-- Then it keeps the outcome, once.
unfoldable pub note_exit : Local → ℕ → Exit → Local
unfolding set_process
note_exit b n e = elim (get_elem? b.processes n) [
  | none ↦ b
  | some p ↦
      if p.is_ended && not p.is_done
      then record b { processes = set_process b.processes n (ended p e) }
      else b
]

abbrev is_zero : ℤ → Bool
is_zero (pos n) = nat_eq n 0
is_zero (negsuc n) = false

abbrev process_status : Run → Process → Status
process_status run p =
    if not p.is_done
    then record {
      phase = running;
      alloc_id = local_id run;
      node_id = p.node_id;
      node_name = p.node_name;
      exit_code = none;
      message = "";
    }
    else record {
      phase = if p.is_failed || not (is_zero p.exit_code) then failed else complete;
      alloc_id = local_id run;
      node_id = p.node_id;
      node_name = p.node_name;
      exit_code = some p.exit_code;
      message = p.message;
    }

abbrev no_process : Status
no_process = record {
  phase = unknown;
  alloc_id = "";
  node_id = "";
  node_name = "";
  exit_code = none;
  message = "";
}

abbrev process_of : Local → Run → Option Process
process_of b run = elim (lookup run.id b.procs) [ none ↦ none | some n ↦ get_elem? b.processes n ]

-- Poll
unfoldable pub poll : Local → Run → Status
unfolding lookup
poll b run = elim (process_of b run) [ none ↦ no_process | some p ↦ process_status run p ]

-- Stop: whether the process group of the run is killed
unfoldable pub stop : Local → Run → Bool
unfolding lookup
stop b run = elim (process_of b run) [ none ↦ false | some p ↦ not p.is_done ]
