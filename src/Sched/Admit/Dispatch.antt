-- ===== src/Sched/Admit/Dispatch.antt =====
-- What dispatch (internal/sched/admit.go) does to the store.
use distributed_test_runner.Base.{
  ℕ, ◌≡◌, ◌≢◌, inl, inr, refl, ◌∙◌, String, true, false, eq_iff, some, arith,
}
use distributed_test_runner.Base.Result.{Result, ok, err, Result-cases}
use distributed_test_runner.Model.State.{RunState}
use distributed_test_runner.Model.Entities.{Run, Slot, RunSpec}
use distributed_test_runner.Backend.{Placement}
use distributed_test_runner.Store.{Store, run}
use distributed_test_runner.Store.Shape.{IsSound, KeepsNames}
use distributed_test_runner.Store.Updates.{run-update_run}
use distributed_test_runner.Sched.Setup.{Config, Fresh}
use distributed_test_runner.Sched.Finish.Final.{run-finish-map}
use distributed_test_runner.Sched.Admit.{build_run_spec, dispatched_run, dispatch}

dispatched_run-KeepsNames :
    (cfg : Config) (now : ℕ) (r : Run) (spec : RunSpec) (pl : Placement)
    → KeepsNames (dispatched_run cfg now r spec pl)
unfolding dispatched_run
dispatched_run-KeepsNames cfg now r spec pl = record {
  id = λ q. refl;
  regression_id = λ q. refl;
  token = λ q. refl;
}

module _ (cfg : Config) (fresh : Run → Fresh) (now : ℕ)
    (place : Run → RunSpec → Result String Placement) (st : Store) (s : IsSound st) (r : Run)
    (slot : Slot) where
  -- In a store of sound shape, dispatch touches no run but the one that it starts and, where its
  -- instructions cannot be built, the retry under its new id.
  pub run-dispatch_other :
      (j : String)
      → (fresh r).run_id ≢ j
      → r.id ≢ j
      → run (dispatch cfg fresh now place st r slot).0 j ≡ run st j
  unfolding dispatch run
  run-dispatch_other j new other = elim (Result-cases (build_run_spec cfg r slot)) [
    | inl (e, is) ↦
        rw (is, dispatch)
          (run-finish-map cfg (fresh r) now st s r.id _ j new ∙ ground (arith, eq_iff r.id j))
    | inr (spec, is) ↦ elim (Result-cases (place r spec)) [
      | inl (why, refused) ↦ rw (is, dispatch) (rw refused refl)
      | inr (pl, done) ↦
          rw (is, dispatch)
            (rw done (
              run-update_run st s (dispatched_run cfg now r spec pl)
                (dispatched_run-KeepsNames cfg now r spec pl) r.id j
              ∙ ground (arith, eq_iff r.id j)))
    ]
  ]

  -- In a store of sound shape, a dispatch that the backend accepts makes the stored run dispatched,
  -- on the node chosen for the snapshot, whatever the run's state in the store has become in the
  -- meantime: a run that was canceled or that has finished since the snapshot is no exception.
  pub dispatch-overwrites :
      (old : Run)
      → run st r.id ≡ some old
      → (dispatch cfg fresh now place st r slot).1 ≡ true
      → (q : Run) × (run (dispatch cfg fresh now place st r slot).0 r.id ≡ some q)
        × (q.state ≡ RunState.dispatched)
        × (q.node_id ≡ r.node_id)
        × (q.attempt ≡ old.attempt)
  unfolding dispatch run dispatched_run
  dispatch-overwrites old found started = elim (Result-cases (build_run_spec cfg r slot)) [
    | inl (e, is) ↦ absurd (ground arith)
    | inr (spec, is) ↦ elim (Result-cases (place r spec)) [
      | inl (why, refused) ↦ absurd (ground arith)
      | inr (pl, done) ↦
          let e =
            run-update_run st s (dispatched_run cfg now r spec pl)
              (dispatched_run-KeepsNames cfg now r spec pl) r.id r.id in
          (
            dispatched_run cfg now r spec pl old,
            rw (is, dispatch) (rw done (e ∙ ground (arith, eq_iff r.id r.id))),
            refl,
            refl,
            refl,
          )
    ]
  ]

  -- A dispatch that the backend refuses leaves the store as it was.
  dispatch-refused :
      (spec : RunSpec) (why : String)
      → build_run_spec cfg r slot ≡ ok spec
      → place r spec ≡ err why
      → dispatch cfg fresh now place st r slot ≡ (st, false)
  unfolding dispatch
  dispatch-refused spec why is refused = rw (is, dispatch) (rw refused refl)
