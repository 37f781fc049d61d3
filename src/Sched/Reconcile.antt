-- ===== src/Sched/Reconcile.antt =====
-- internal/sched/reconcile.go: what the backend says of the runs in flight, and timeouts.
-- `duration_text` is time.Duration's String. One `now` stands for the readings of the clock within one
-- operation. `fresh` gives the identifiers that a retry of a run draws.
pub mod Verdicts
use mathlib.Core.List.{foldl}
use distributed_test_runner.Base.{
  ℕ, ◌+◌, ◌-◌, ◌*◌, ◌/◌, String, Bool, true, false, not, ◌&&◌, ◌||◌, ◌==◌, Option, none, some, List,
  [], ◌∷◌, ◌++◌, if◌then◌else◌, ltb, nat_eq, select,
}
use distributed_test_runner.Base.Int.{ℤ, pos, negsuc}
use distributed_test_runner.Base.Dict.{or_else}
use distributed_test_runner.Base.Text.{concat}
use distributed_test_runner.Model.State.{RunState, terminal, in_flight, is_dispatched}
use distributed_test_runner.Model.Entities.{Run}
use distributed_test_runner.Backend.{
  Phase, unknown, pending, running, complete, failed, lost, Status,
}
use distributed_test_runner.Store.{Store, update_run, run, all_runs}
use distributed_test_runner.Sched.Setup.{Config, Fresh}
use distributed_test_runner.Sched.Finish.{Ending, finish}

abbrev pub second : ℕ
second = 1000000000

-- dispatchGrace: 10 minutes
abbrev pub dispatch_grace : ℕ
dispatch_grace = 600 * second

-- The grace past a timeout: 5 minutes
abbrev pub timeout_grace : ℕ
timeout_grace = 300 * second

-- d.Round(time.Second), half away from zero
abbrev round_second : ℕ → ℕ
round_second d = (d + 500000000) / second * second

unfoldable pub place_run : Status → Run → Run
place_run s r = record r { node_id = s.node_id; node_name = s.node_name; alloc_id = s.alloc_id }

unfoldable pub note_placement : Status → Store → Run → Store
unfolding place_run
note_placement s st r =
    if not (s.node_id == "") && not (r.node_id == s.node_id)
    then (update_run st r.id (place_run s)).0
    else st

unfoldable pub running_run : (now : ℕ) → Run → Run
running_run now r =
    if is_dispatched r.state
    then record r { state = RunState.running; started_at = some now }
    else r

abbrev pub nonzero : Option ℤ → Bool
nonzero none = false
nonzero (some (pos n)) = ltb 0 n
nonzero (some (negsuc n)) = true

-- The verdict on a task that ended without its runner's report; `cur` is the run as stored.
unfoldable pub silent_ending : Bool → Status → Run → Ending
silent_ending has_failed s cur =
    if has_failed || nonzero s.exit_code
    then record {
      state = RunState.errored;
      message =
          if s.message == "" then "task exited non-zero without reporting results" else s.message;
      exit = s.exit_code;
    }
    else if nat_eq cur.summary.tests 0
    then record {
      state = RunState.errored;
      message = "task completed but reported no test results";
      exit = s.exit_code;
    }
    else record { state = RunState.passed; message = ""; exit = s.exit_code }

-- The cases PhaseComplete and PhaseFailed of the switch.
unfoldable pub end_silently : Config → Fresh → (now : ℕ) → Store → Run → Status → Bool → Store
unfolding silent_ending
end_silently cfg fresh now st r s has_failed = elim (run st r.id) [
  | none ↦ st
  | some cur ↦
      if terminal cur.state
      then st
      else finish cfg fresh now st r.id (silent_ending has_failed s cur)
]

-- The timeout of a run, and when it began: at its start, else at its dispatch.
unfoldable pub timeout_of : Config → Run → ℕ
timeout_of cfg r = if nat_eq r.spec.timeout 0 then cfg.default_timeout else r.spec.timeout

unfoldable pub overran : Config → (now : ℕ) → Run → Bool
unfolding timeout_of
overran cfg now r = elim (or_else r.started_at r.dispatched_at) [
  | none ↦ false
  | some start ↦ not (ltb now (start + (timeout_of cfg r + timeout_grace)))
]

module _ (duration_text : ℕ → String) where
  unfoldable pub waiting_run : ℕ → Run → Run
  waiting_run waited r = record r {
    message = concat ("waiting for placement for " ∷ duration_text (round_second waited) ∷ []);
  }

  unfoldable pub note_pending : (now : ℕ) → Store → Run → Store
  unfolding waiting_run
  note_pending now st r = elim r.dispatched_at [
    | none ↦ st
    | some at ↦
        if ltb dispatch_grace (now - at)
        then (update_run st r.id (waiting_run (now - at))).0
        else st
  ]

  -- The switch on the phase; `r` is the snapshot that was polled.
  unfoldable pub apply_phase : Config → Fresh → (now : ℕ) → Store → Run → Status → Phase → Store
  unfolding end_silently note_pending running_run
  apply_phase cfg fresh now st r s running =
      if is_dispatched r.state then (update_run st r.id (running_run now)).0 else st
  apply_phase cfg fresh now st r s complete = end_silently cfg fresh now st r s false
  apply_phase cfg fresh now st r s failed = end_silently cfg fresh now st r s true
  apply_phase cfg fresh now st r s lost = finish cfg fresh now st r.id (record {
    state = RunState.errored;
    message = concat ("allocation lost: " ∷ s.message ∷ []);
    exit = none;
  })
  apply_phase cfg fresh now st r s pending = note_pending now st r
  apply_phase cfg fresh now st r s unknown = st

  unfoldable pub apply_status : Config → Fresh → (now : ℕ) → Store → Run → Status → Store
  unfolding apply_phase note_placement
  apply_status cfg fresh now st r s = apply_phase cfg fresh now (note_placement s st r) r s s.phase

  unfoldable pub enforce_timeout : Config → Fresh → (now : ℕ) → Store → Run → Store × Bool
  unfolding overran
  enforce_timeout cfg fresh now st r =
      if overran cfg now r
      then (
        finish cfg fresh now st r.id (record {
          state = RunState.timeout;
          message = concat ("exceeded timeout " ∷ duration_text (timeout_of cfg r) ∷ []);
          exit = none;
        }),
        true,
      )
      else (st, false)

  module _ (cfg : Config) (fresh : Run → Fresh) (now : ℕ) (poll : Run → Option Status) where
    -- The first loop: the timeouts; the runs that are left are polled.
    unfoldable pub sweep : Store × List Run → Run → Store × List Run
    unfolding enforce_timeout
    sweep (st, inflight) r =
        if not (in_flight r.state)
        then (st, inflight)
        else let (st', stopped) = enforce_timeout cfg (fresh r) now st r in
          if stopped then (st', inflight) else (st', inflight ++ r ∷ [])

    -- The second loop; a run whose poll failed is left alone.
    unfoldable pub apply_poll : Store → Run → Store
    unfolding apply_status
    apply_poll st r = elim (poll r) [ none ↦ st | some s ↦ apply_status cfg (fresh r) now st r s ]

    -- reconcile: `poll` is the backend's answer, from the one listing or run by run.
    unfoldable pub reconcile : Store → Store
    unfolding sweep apply_poll
    reconcile st =
        let (st', inflight) = foldl sweep (st, []) (all_runs st) in foldl apply_poll st' inflight
