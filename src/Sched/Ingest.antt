-- ===== src/Sched/Ingest.antt =====
-- internal/sched/reconcile.go: Ingest, what a runner reports.
pub mod Terminal
use distributed_test_runner.Base.{
  ℕ, ◌+◌, String, Bool, true, false, not, ◌&&◌, ◌==◌, Option, none, some, if◌then◌else◌, ltb,
}
use distributed_test_runner.Base.Dict.{or_else}
use distributed_test_runner.Model.State.{RunState, terminal, in_flight}
use distributed_test_runner.Model.Entities.{Run, RunEvent, Summary}
use distributed_test_runner.Store.{Store, update_run, run}
use distributed_test_runner.Sched.Setup.{Config, Fresh}
use distributed_test_runner.Sched.Finish.{Ending, finish}

pub data IngestError : Type 0 where
  unknown_run : (id : String) → IngestError
  unknown_phase : (phase : String) → IngestError

-- Where the event names a node, the run is on it.
unfoldable pub locate : RunEvent → Run → Run
locate ev r =
    let s =
      if ev.node_id == "" then r else record r { node_id = ev.node_id; node_name = ev.node_name } in
    if ev.alloc_id == "" then s else record s { alloc_id = ev.alloc_id }

unfoldable pub started_run : (now : ℕ) → RunEvent → Run → Run
unfolding locate
started_run now ev r =
    if terminal r.state
    then r
    else let s = record r {
      state = RunState.running;
      started_at = or_else r.started_at (some now);
    } in
      let t = locate ev s in record t { message = ev.message }

unfoldable pub progress_run : RunEvent → Run → Run
progress_run ev r =
    if not (in_flight r.state)
    then r
    else let s = record r { summary = ev.summary; cases = ev.cases } in
      if ev.message == "" then s else record s { message = ev.message }

-- The results of a finished attempt are stored whatever the run's state.
unfoldable pub report_run : (now : ℕ) → RunEvent → Run → Run
unfolding locate
report_run now ev r =
    let s = record r { summary = ev.summary; cases = ev.cases; artifacts = ev.artifacts } in
    let t = locate ev s in record t { started_at = or_else t.started_at (some now) }

-- The state of the attempt: the reported one, else by the failures.
unfoldable pub reported_state : RunEvent → RunState
reported_state ev = elim ev.state [
  | some s ↦ s
  | none ↦
      if ltb 0 (ev.summary.failed + ev.summary.errors) then RunState.failed else RunState.passed
]

abbrev ending : RunEvent → Ending
ending ev = record { state = reported_state ev; message = ev.message; exit = ev.exit_code }

unfoldable pub ingest_known :
    Config → Fresh → (now : ℕ) → Store → RunEvent → String → Store × Option IngestError
unfolding started_run progress_run report_run reported_state
ingest_known cfg fresh now st ev id =
    if ev.phase == "started"
    then ((update_run st id (started_run now ev)).0, none)
    else if ev.phase == "progress"
    then ((update_run st id (progress_run ev)).0, none)
    else if ev.phase == "finished"
    then (finish cfg fresh now (update_run st id (report_run now ev)).0 id (ending ev), none)
    else (st, some (unknown_phase ev.phase))

unfoldable pub ingest : Config → Fresh → (now : ℕ) → Store → RunEvent → Store × Option IngestError
unfolding ingest_known
ingest cfg fresh now st ev = elim (run st ev.run_id) [
  | none ↦ (st, some (unknown_run ev.run_id))
  | some r ↦ ingest_known cfg fresh now st ev r.id
]
