-- ===== src/Model/State.antt =====
-- internal/model/model.go: the runtime of a suite and the states of a run and of a regression.
use distributed_test_runner.Base.{Bool, true, false, ◌||◌, ◌==◌, String}

abbrev pub runtime_process : String
runtime_process = "process"

abbrev pub runtime_container : String
runtime_container = "container"

-- Runtime.Valid
unfoldable pub valid : String → Bool
valid r = r == runtime_process || r == runtime_container

-- `RunState` is a text in the source; `other` holds every text that is none of the constants.
pub data RunState : Type 0 where
  queued dispatched running passed failed errored timeout canceled : RunState
  other : String → RunState

unfoldable pub terminal : RunState → Bool
terminal passed = true
terminal failed = true
terminal errored = true
terminal timeout = true
terminal canceled = true
terminal _ = false

unfoldable pub retryable : RunState → Bool
retryable failed = true
retryable errored = true
retryable timeout = true
retryable _ = false

-- r.State == model.RunQueued
abbrev pub is_queued : RunState → Bool
is_queued queued = true
is_queued _ = false

-- r.State == model.RunDispatched
abbrev pub is_dispatched : RunState → Bool
is_dispatched dispatched = true
is_dispatched _ = false

-- r.State == model.RunPassed
abbrev pub is_passed : RunState → Bool
is_passed passed = true
is_passed _ = false

-- r.State == model.RunDispatched || r.State == model.RunRunning: the run holds a slot.
abbrev pub in_flight : RunState → Bool
in_flight dispatched = true
in_flight running = true
in_flight _ = false

-- Only the master writes a regression's state, and only these values.
pub data RegressionState : Type 0 where
  pending running passed failed errored canceled : RegressionState
