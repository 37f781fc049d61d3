-- ===== src/Sched/Reconcile/Verdicts.antt =====
-- What the backend's answers make of runs (applyStatus and enforceTimeout, internal/sched/reconcile.go).
use distributed_test_runner.Base.{
  ℕ, ◌+◌, ◌-◌, ◌≤◌, ◌<◌, ◌≡◌, ◌≢◌, ◌↔◌, ◌⊎◌, refl, ap, ◌∙◌, String, Bool, true, false, none, some,
  if◌then◌else◌, ltb, arith, Option-cases, Bool-cases, inl, inr,
}
use distributed_test_runner.Base.Int.{pos}
use distributed_test_runner.Base.Dict.{or_else}
use distributed_test_runner.Model.State.{RunState, terminal, is_dispatched}
use distributed_test_runner.Model.Entities.{Run}
use distributed_test_runner.Backend.{
  Phase, unknown, pending, running, complete, failed, lost, Status,
}
use distributed_test_runner.Store.{Store, update_run, run}
use distributed_test_runner.Store.Shape.{IsSound, KeepsNames}
use distributed_test_runner.Store.Updates.{update_run-IsSound}
use distributed_test_runner.Sched.Setup.{Config, Fresh}
use distributed_test_runner.Sched.Ingest.Terminal.{
  KeepsVerdict, StillOver, update_run-StillOver, finish-StillOver,
}
use distributed_test_runner.Sched.Reconcile.{
  place_run, note_placement, running_run, silent_ending, end_silently, waiting_run, note_pending,
  dispatch_grace, apply_phase, apply_status, timeout_grace, timeout_of, overran, enforce_timeout,
}

-- A task that ends without a report from its runner passes exactly if the backend calls it complete, with
-- no exit code but 0, and the run has reported tests before.
pub silent_ending-passed_iff :
    (has_failed : Bool) (s : Status) (cur : Run)
    → ((silent_ending has_failed s cur).state ≡ RunState.passed) ↔ (
        (has_failed ≡ false)
        × ((s.exit_code ≡ none) ⊎ (s.exit_code ≡ some (pos 0)))
        × (0 < cur.summary.tests))
unfolding silent_ending
silent_ending-passed_iff has_failed s cur = (λ h. ground arith, λ h. ground arith)

place_run-KeepsNames : (s : Status) → KeepsNames (place_run s)
unfolding place_run
place_run-KeepsNames s = record { id = λ r. refl; regression_id = λ r. refl; token = λ r. refl }

place_run-KeepsVerdict : (s : Status) → KeepsVerdict (place_run s)
unfolding place_run
place_run-KeepsVerdict s r t = refl

running_run-KeepsNames : (now : ℕ) → KeepsNames (running_run now)
unfolding running_run
running_run-KeepsNames now = record {
  id = λ r. ground arith;
  regression_id = λ r. ground arith;
  token = λ r. ground arith;
}

running_run-KeepsVerdict : (now : ℕ) → KeepsVerdict (running_run now)
unfolding running_run terminal
running_run-KeepsVerdict now r t = ground arith

module _ (duration_text : ℕ → String) where
  waiting_run-KeepsNames : (waited : ℕ) → KeepsNames (waiting_run duration_text waited)
  unfolding waiting_run
  waiting_run-KeepsNames waited = record {
    id = λ r. refl;
    regression_id = λ r. refl;
    token = λ r. refl;
  }

  waiting_run-KeepsVerdict : (waited : ℕ) → KeepsVerdict (waiting_run duration_text waited)
  unfolding waiting_run
  waiting_run-KeepsVerdict waited r t = refl

  -- A run is stopped for its time exactly if it began, at its start or else at its dispatch, and
  -- its timeout, its own or the configured one, and the grace have passed since.
  pub enforce_timeout_iff :
      (cfg : Config) (fresh : Fresh) (now : ℕ) (st : Store) (r : Run)
      → ((enforce_timeout duration_text cfg fresh now st r).1 ≡ true) ↔ (
          (start : ℕ) × (or_else r.started_at r.dispatched_at ≡ some start)
          × (start + (timeout_of cfg r + timeout_grace) ≤ now))
  unfolding enforce_timeout overran
  enforce_timeout_iff cfg fresh now st r = (
    λ h. elim (Option-cases (or_else r.started_at r.dispatched_at)) [
      | inl n ↦ absurd (ground arith)
      | inr (start, e) ↦ (start, e, ground arith)
    ],
    λ (start, e, h). ground arith,
  )

  module _ (cfg : Config) (fresh : Fresh) (now : ℕ) (j : String) (old : Run)
      (other : fresh.run_id ≢ j) (over : terminal old.state ≡ true) where
    end_silently-StillOver :
        (st : Store)
        → IsSound st
        → run st j ≡ some old
        → (r : Run) (s : Status) (has_failed : Bool)
        → StillOver (end_silently cfg fresh now st r s has_failed) j old
    unfolding end_silently run
    end_silently-StillOver st sound found r s has_failed = elim (Option-cases (run st r.id)) [
      | inl n ↦ rw (n, end_silently) (old, found, refl)
      | inr (cur, e) ↦
          rw (e, end_silently)
            (elim (Bool-cases (terminal cur.state)) [
              | inl t ↦ rw t (old, found, refl)
              | inr t ↦ rw t (
                  finish-StillOver cfg fresh now st sound r.id (silent_ending has_failed s cur) j
                    old other found over)
            ])
    ]

    waiting-StillOver :
        (st : Store)
        → IsSound st
        → run st j ≡ some old
        → (r : Run) (waited : ℕ) (late : Bool)
        → StillOver
            (if late then (update_run st r.id (waiting_run duration_text waited)).0 else st)
            j
            old
    waiting-StillOver st sound found r waited true =
        update_run-StillOver st sound j old found over r.id (waiting_run duration_text waited)
          (waiting_run-KeepsNames waited) (waiting_run-KeepsVerdict waited)
    waiting-StillOver st sound found r waited false = (old, found, refl)

    note_pending-StillOver :
        (st : Store)
        → IsSound st
        → run st j ≡ some old
        → (r : Run) → StillOver (note_pending duration_text now st r) j old
    unfolding note_pending run
    note_pending-StillOver st sound found r = elim (Option-cases r.dispatched_at) [
      | inl n ↦ rw (n, note_pending) (old, found, refl)
      | inr (at', e) ↦
          rw (e, note_pending)
            (waiting-StillOver st sound found r (now - at') (ltb dispatch_grace (now - at')))
    ]

    apply_phase-StillOver :
        (st : Store)
        → IsSound st
        → run st j ≡ some old
        → (r : Run) (s : Status) (p : Phase)
        → StillOver (apply_phase duration_text cfg fresh now st r s p) j old
    unfolding apply_phase run
    apply_phase-StillOver st sound found r s running = elim (Bool-cases (is_dispatched r.state)) [
      | inl d ↦ rw d (
          update_run-StillOver st sound j old found over r.id (running_run now)
            (running_run-KeepsNames now) (running_run-KeepsVerdict now))
      | inr d ↦ rw d (old, found, refl)
    ]
    apply_phase-StillOver st sound found r s complete =
        end_silently-StillOver st sound found r s false
    apply_phase-StillOver st sound found r s failed = end_silently-StillOver st sound found r s true
    apply_phase-StillOver st sound found r s lost =
        finish-StillOver cfg fresh now st sound r.id _ j old other found over
    apply_phase-StillOver st sound found r s pending = note_pending-StillOver st sound found r
    apply_phase-StillOver st sound found r s unknown = (old, found, refl)

  note_placement-cases :
      (s : Status) (st : Store) (r : Run)
      → (note_placement s st r ≡ st)
        ⊎ (note_placement s st r ≡ (update_run st r.id (place_run s)).0)
  unfolding note_placement
  note_placement-cases s st r = ground arith

  -- Whatever the backend says of a run, and also of one that it still takes to be in flight, a run
  -- that is over stays in a store of sound shape in the state it ended in, as long as the id drawn
  -- for a retry is not its own.
  pub apply_status-StillOver :
      (cfg : Config) (fresh : Fresh) (now : ℕ) (st : Store) (r : Run) (s : Status) (j : String)
      (old : Run)
      → IsSound st
      → fresh.run_id ≢ j
      → run st j ≡ some old
      → terminal old.state ≡ true
      → StillOver (apply_status duration_text cfg fresh now st r s) j old
  unfolding apply_status
  apply_status-StillOver cfg fresh now st r s j old sound other found over =
      elim (note_placement-cases s st r) [
        | inl same ↦
            rw same
              (apply_phase-StillOver cfg fresh now j old other over st sound found r s s.phase)
        | inr moved ↦
            let st' = (update_run st r.id (place_run s)).0 in
            let sound' = update_run-IsSound st sound (place_run s) (place_run-KeepsNames s) r.id in
            let (old', found', same) =
              update_run-StillOver st sound j old found over r.id (place_run s)
                (place_run-KeepsNames s) (place_run-KeepsVerdict s) in
            let (new, found'', same') =
              apply_phase-StillOver cfg fresh now j old' other (ap terminal same ∙ over) st' sound'
                found' r s s.phase in
            rw moved (new, found'', same' ∙ same)
      ]
