-- ===== src/Tests/Stores.antt =====
-- The store with a regression and its runs.
use mathlib.Core.Option
use distributed_test_runner.Base.{◌≡◌, ◌≢◌, String, refl, some, [], ◌∷◌, ◌==◌, if◌then◌else◌, All}
use distributed_test_runner.Model.Entities.{Run}
use distributed_test_runner.Base.Dict.{lookup}
use distributed_test_runner.Store.{Store, add_run, update_run, run, regression}
use distributed_test_runner.Store.Shape.{KeepsNames}
use distributed_test_runner.Store.Updates.{
  on_id, update_entry, run-update_run, regression-update_run,
}
use distributed_test_runner.Store.Added.{IsAdded, add_run-IsAdded}
use distributed_test_runner.Model.State.{RunState}
use distributed_test_runner.Store.Open.{Loaded, IsSettled, open_with, open_with-IsSettled}
use distributed_test_runner.Tests.Fixtures.{
  store_of, store_of-IsSound, queued_run, later_run, reg_one,
}

abbrev hurry : Run → Run
hurry r = record r { message = "soon" }

hurry-KeepsNames : KeepsNames hurry
hurry-KeepsNames = record { id = λ r. refl; regression_id = λ r. refl; token = λ r. refl }

run-update_run_example : run (update_run (store_of queued_run) "run-a" hurry).0 "run-a" ≡ (
    if "run-a" == "run-a"
    then Option.map hurry (run (store_of queued_run) "run-a")
    else run (store_of queued_run) "run-a")
run-update_run_example =
    run-update_run (store_of queued_run) (store_of-IsSound queued_run) hurry hurry-KeepsNames
      "run-a" "run-a"

regression-update_run_example :
    regression (update_run (store_of queued_run) "run-a" hurry).0 "reg-1" ≡ (
      if (update_run (store_of queued_run) "run-a" hurry).1
      then Option.map
          (update_entry (on_id hurry "run-a"))
          (regression (store_of queued_run) "reg-1")
      else regression (store_of queued_run) "reg-1")
regression-update_run_example =
    regression-update_run (store_of queued_run) hurry "run-a" "reg-1" (store_of-IsSound queued_run)
      hurry-KeepsNames

later_token : ◌≢◌ {A = String} "token-b" ""
later_token = λ e. absurd (cc)

add_run-IsAdded_example :
    IsAdded
      (store_of queued_run)
      reg_one
      (queued_run ∷ [])
      later_run
      (add_run (store_of queued_run) later_run)
unfolding lookup regression add_run distributed_test_runner.Base.Dict.insert
add_run-IsAdded_example =
    add_run-IsAdded (store_of queued_run) later_run (store_of-IsSound queued_run) reg_one
      (queued_run ∷ []) refl later_token refl

abbrev empty_store : Store
empty_store = record { heap = []; by_reg = []; by_run = []; by_token = []; revision = 0 }

abbrev in_flight : Run
in_flight = record queued_run { state = RunState.running; started_at = some 50 }

abbrev loaded : Loaded
loaded = record {
  regression = some reg_one;
  runs = in_flight ∷ later_run ∷ [];
  tokens = ("token-a", "run-a") ∷ [];
}

open_with-IsSettled_example : All IsSettled (open_with (loaded ∷ [])).heap
open_with-IsSettled_example = open_with-IsSettled (loaded ∷ [])
