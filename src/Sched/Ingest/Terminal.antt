-- ===== src/Sched/Ingest/Terminal.antt =====
-- A runner's event and a run that is over (Ingest, internal/sched/reconcile.go).
use distributed_test_runner.Base.{
  ℕ, ◌≡◌, ◌≢◌, refl, ap, ◌∙◌, String, true, ◌==◌, some, if◌then◌else◌, arith, Option-cases,
  Bool-cases, inl, inr,
}
use distributed_test_runner.Model.State.{terminal}
use distributed_test_runner.Model.Entities.{Run, RunEvent}
use distributed_test_runner.Store.{Store, update_run, run}
use distributed_test_runner.Store.Shape.{IsSound, KeepsNames}
use distributed_test_runner.Store.Updates.{update_run-IsSound, run-update_run}
use distributed_test_runner.Sched.Setup.{Config, Fresh}
use distributed_test_runner.Sched.Finish.{Ending, finish_run, finish}
use distributed_test_runner.Sched.Finish.Final.{run-finish-map}
use distributed_test_runner.Sched.Ingest.{
  started_run, progress_run, report_run, ingest_known, ingest, ending,
}

started_run-KeepsNames : (now : ℕ) (ev : RunEvent) → KeepsNames (started_run now ev)
unfolding started_run
started_run-KeepsNames now ev = record {
  id = λ r. ground arith;
  regression_id = λ r. ground arith;
  token = λ r. ground arith;
}

progress_run-KeepsNames : (ev : RunEvent) → KeepsNames (progress_run ev)
unfolding progress_run
progress_run-KeepsNames ev = record {
  id = λ r. ground arith;
  regression_id = λ r. ground arith;
  token = λ r. ground arith;
}

report_run-KeepsNames : (now : ℕ) (ev : RunEvent) → KeepsNames (report_run now ev)
unfolding report_run
report_run-KeepsNames now ev = record {
  id = λ r. ground arith;
  regression_id = λ r. ground arith;
  token = λ r. ground arith;
}

-- An update that leaves the state of a run that is over.
abbrev pub KeepsVerdict : (Run → Run) → Type 0
KeepsVerdict f = (r : Run) → terminal r.state ≡ true → (f r).state ≡ r.state

started_run-KeepsVerdict : (now : ℕ) (ev : RunEvent) → KeepsVerdict (started_run now ev)
unfolding started_run
started_run-KeepsVerdict now ev r t = ground arith

progress_run-KeepsVerdict : (ev : RunEvent) → KeepsVerdict (progress_run ev)
unfolding progress_run
progress_run-KeepsVerdict ev r t = ground arith

report_run-KeepsVerdict : (now : ℕ) (ev : RunEvent) → KeepsVerdict (report_run now ev)
unfolding report_run
report_run-KeepsVerdict now ev r t = ground arith

finish_run-KeepsVerdict : (now : ℕ) (e : Ending) → KeepsVerdict (finish_run now e)
unfolding finish_run
finish_run-KeepsVerdict now e r t = ground arith

-- The run is still there, in the same state.
abbrev pub StillOver : Store → String → Run → Type 0
StillOver st j old = (r : Run) × (run st j ≡ some r) × (r.state ≡ old.state)

module _ (st : Store) (s : IsSound st) (j : String) (old : Run) (found : run st j ≡ some old)
    (over : terminal old.state ≡ true) where
  pub update_run-StillOver :
      (id : String) (f : Run → Run)
      → KeepsNames f
      → KeepsVerdict f
      → StillOver (update_run st id f).0 j old
  update_run-StillOver id f k v = (
    (if id == j then f old else old),
    run-update_run st s f k id j ∙ ground arith,
    ground (arith, v old over),
  )

pub finish-StillOver :
    (cfg : Config) (fresh : Fresh) (now : ℕ) (st : Store) (s : IsSound st) (id : String)
    (e : Ending) (j : String) (old : Run)
    → fresh.run_id ≢ j
    → run st j ≡ some old
    → terminal old.state ≡ true
    → StillOver (finish cfg fresh now st id e) j old
finish-StillOver cfg fresh now st s id e j old other found over = (
  (if id == j then finish_run now e old else old),
  run-finish-map cfg fresh now st s id e j other ∙ ground arith,
  ground (arith, finish_run-KeepsVerdict now e old over),
)

module _ (cfg : Config) (fresh : Fresh) (now : ℕ) (st : Store) (s : IsSound st) (ev : RunEvent)
    (j : String) (old : Run) (other : fresh.run_id ≢ j) (found : run st j ≡ some old)
    (over : terminal old.state ≡ true) where
  finished-StillOver :
      (id : String)
      → StillOver
          (finish cfg fresh now (update_run st id (report_run now ev)).0 id (ending ev))
          j
          old
  finished-StillOver id =
      let k = report_run-KeepsNames now ev in
      let (r, found', same) =
        update_run-StillOver st s j old found over id (report_run now ev) k
          (report_run-KeepsVerdict now ev) in
      let (r', found'', same') =
        finish-StillOver cfg fresh now (update_run st id (report_run now ev)).0
          (update_run-IsSound st s (report_run now ev) k id) id (ending ev) j r other found'
          (ap terminal same ∙ over) in
      (r', found'', same' ∙ same)

  ingest_known-StillOver : (id : String) → StillOver (ingest_known cfg fresh now st ev id).0 j old
  unfolding ingest_known run
  ingest_known-StillOver id = elim (Bool-cases (ev.phase == "started")) [
    | inl is ↦
        rw (is, ingest_known)
          (update_run-StillOver st s j old found over id (started_run now ev)
            (started_run-KeepsNames now ev) (started_run-KeepsVerdict now ev))
    | inr isnt ↦
        rw (isnt, ingest_known)
          (elim (Bool-cases (ev.phase == "progress")) [
            | inl is ↦
                rw (is, ingest_known)
                  (update_run-StillOver st s j old found over id (progress_run ev)
                    (progress_run-KeepsNames ev) (progress_run-KeepsVerdict ev))
            | inr isnt' ↦ rw isnt' (elim (Bool-cases (ev.phase == "finished")) [
              | inl is ↦ rw (is, ingest_known) (finished-StillOver id)
              | inr isnt'' ↦ rw isnt'' (old, found, refl)
            ])
          ])
  ]

  -- Whatever a runner reports, and about whichever run, a run that is over stays in a store of
  -- sound shape in the state it ended in, as long as the id drawn for a retry is not its own.
  pub ingest-StillOver : StillOver (ingest cfg fresh now st ev).0 j old
  unfolding ingest run
  ingest-StillOver = elim (Option-cases (run st ev.run_id)) [
    | inl n ↦ rw (n, ingest) (old, found, refl)
    | inr (r, e) ↦ rw (e, ingest) (ingest_known-StillOver r.id)
  ]
