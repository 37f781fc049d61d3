-- ===== src/Sched/Finish/Final.antt =====
-- What finish (internal/sched/reconcile.go) makes of the run that it ends and of the others.
use mathlib.Core.Option
use distributed_test_runner.Base.{
  ℕ, ◌≡◌, ◌≢◌, refl, ap, sym, ◌∙◌, String, Bool, true, false, ◌⊎◌, not, ◌&&◌, ◌==◌, eq_iff, Option,
  none, some, List, if◌then◌else◌, arith, Option-cases, Bool-cases, inl, inr,
}
use distributed_test_runner.Base.Dict.{lookup, or_else}
use distributed_test_runner.Model.State.{RunState, terminal}
use distributed_test_runner.Model.State.RunState.{
  queued, dispatched, running, passed, failed, errored, timeout, canceled,
}
use distributed_test_runner.Model.Entities.{Run, Regression}
use distributed_test_runner.Store.{Store, touch, update_run, run, regression}
use distributed_test_runner.Store.Shape.{IsSound, KeepsNames}
use distributed_test_runner.Store.Updates.{update_run-IsSound, run-update_run}
use distributed_test_runner.Store.Growth.{add_run-IsSound, run-add_run, regression-known}
use distributed_test_runner.Sched.Setup.{Config, Fresh}
use distributed_test_runner.Sched.Finish.{
  Ending, finish_run, retry_run, retry_of, may_retry, after_finish, finish,
}

pub finish_run-KeepsNames : (now : ℕ) (e : Ending) → KeepsNames (finish_run now e)
unfolding finish_run
finish_run-KeepsNames now e = record {
  id = λ r. ground arith;
  regression_id = λ r. ground arith;
  token = λ r. ground arith;
}

-- The run is over: the states that the code calls terminal.
abbrev pub IsTerminal : RunState → Type 0
IsTerminal passed = Unit
IsTerminal failed = Unit
IsTerminal errored = Unit
IsTerminal timeout = Unit
IsTerminal canceled = Unit
IsTerminal queued = ⊥
IsTerminal dispatched = ⊥
IsTerminal running = ⊥
IsTerminal (RunState.other s) = ⊥

IsTerminal-terminal : (s : RunState) → IsTerminal s → terminal s ≡ true
unfolding terminal
IsTerminal-terminal passed h = refl
IsTerminal-terminal failed h = refl
IsTerminal-terminal errored h = refl
IsTerminal-terminal timeout h = refl
IsTerminal-terminal canceled h = refl
IsTerminal-terminal queued h = absurd h
IsTerminal-terminal dispatched h = absurd h
IsTerminal-terminal running h = absurd h
IsTerminal-terminal (RunState.other s) h = absurd h

terminal-IsTerminal : (s : RunState) → terminal s ≡ true → IsTerminal s
unfolding terminal
terminal-IsTerminal passed h = tt
terminal-IsTerminal failed h = tt
terminal-IsTerminal errored h = tt
terminal-IsTerminal timeout h = tt
terminal-IsTerminal canceled h = tt
terminal-IsTerminal queued h = cc
terminal-IsTerminal dispatched h = cc
terminal-IsTerminal running h = cc
terminal-IsTerminal (RunState.other s) h = cc

true_or_false : (b : Bool) → b ≡ true → b ≡ false → ⊥
true_or_false b t f = cc

differ : (s t : String) → (s == t) ≡ false → s ≡ t → ⊥
differ s t d e = let q = (eq_iff s t).1 e in cc

-- No run has the id yet.
abbrev pub IsNewId : Store → String → Type 0
IsNewId st id = lookup id st.by_run ≡ none

-- The runs of `after` are those of `before`, but for the id `new`.
abbrev pub SameBut : String → Store → Store → Type 0
SameBut new before after = (j : String) → new ≢ j → run after j ≡ run before j

module _ (cfg : Config) (fresh : Fresh) (now : ℕ) where
  retry_run-names :
      (reg : Regression) (finished : Run)
      → let r = retry_run cfg fresh now reg finished in
        (r.id ≡ fresh.run_id) × (r.regression_id ≡ reg.id)
  unfolding retry_run
  retry_run-names reg finished = (refl, refl)

  -- With the regression known the retry is queued, under its new id.
  pub run-retry_of :
      (st : Store) (finished : Run) (reg : Regression) (rs : List Run) (j : String)
      → IsSound st
      → regression st finished.regression_id ≡ some (reg, rs)
      → run (retry_of cfg fresh now st finished) j
        ≡ (if fresh.run_id == j then some (retry_run cfg fresh now reg finished) else run st j)
  unfolding retry_of
  run-retry_of st finished reg rs j s er =
      let (old, eo, same) = regression-known st finished.regression_id er in
      let (named, in_reg) = retry_run-names reg finished in
      let r = retry_run cfg fresh now reg finished in
      let at : r.regression_id ≡ finished.regression_id =
        in_reg ∙ sym (ap (λ x. x.id) same) ∙ s.header_found finished.regression_id old eo in
      rw (er, retry_of) (rw (run-add_run st r old j s (rw at eo)) (rw named))

  retry_of-SameBut :
      (st : Store) (finished : Run)
      → IsSound st
      → SameBut fresh.run_id st (retry_of cfg fresh now st finished)
  unfolding retry_of
  retry_of-SameBut st finished s j other =
      elim (Option-cases (regression st finished.regression_id)) [
        | inl n ↦ rw (n, retry_of) refl
        | inr ((reg, rs), er) ↦
            let e = run-retry_of st finished reg rs j s er in
            e ∙ ground (arith, eq_iff fresh.run_id j)
      ]

  retry_of-IsSound :
      (st : Store) (finished : Run)
      → IsSound st
      → IsNewId st fresh.run_id
      → IsSound (retry_of cfg fresh now st finished)
  unfolding retry_of
  retry_of-IsSound st finished s new = elim (Option-cases (regression st finished.regression_id)) [
    | inl n ↦ rw (n, retry_of) s
    | inr ((reg, rs), er) ↦
        rw (er, retry_of)
          (add_run-IsSound st s (retry_run cfg fresh now reg finished)
            (rw (retry_run-names reg finished).0 new))
  ]

pub update_run-IsNewId :
    (st : Store) (id new : String) (f : Run → Run)
    → IsNewId st new
    → IsNewId (update_run st id f).0 new
unfolding update_run touch
update_run-IsNewId st id new f n = ground arith

module _ (cfg : Config) (fresh : Fresh) (now : ℕ) (st : Store) (s : IsSound st) (id : String)
    (e : Ending) where
  abbrev pub ended : Store
  ended = (update_run st id (finish_run now e)).0

  pub ended-IsSound : IsSound ended
  ended-IsSound = update_run-IsSound st s (finish_run now e) (finish_run-KeepsNames now e) id

  after_finish-SameBut :
      (old : Option Run) → SameBut fresh.run_id ended (after_finish cfg fresh now e ended old)
  unfolding after_finish
  after_finish-SameBut none j other = refl
  after_finish-SameBut (some old) j other =
      elim (Bool-cases (not (terminal old.state) && may_retry e.state (finish_run now e old))) [
        | inl again ↦
            rw again
              (retry_of-SameBut cfg fresh now ended (finish_run now e old) ended-IsSound j other)
        | inr over ↦ rw over refl
      ]

  pub run-finish-map :
      (j : String)
      → fresh.run_id ≢ j
      → run (finish cfg fresh now st id e) j
        ≡ (if id == j then Option.map (finish_run now e) (run st j) else run st j)
  unfolding finish
  run-finish-map j other =
      after_finish-SameBut (run st id) j other
      ∙ run-update_run st s (finish_run now e) (finish_run-KeepsNames now e) id j

  -- In a store of sound shape, finish leaves every run but the one that it names as it is, the retry
  -- under its new id aside. The run that it names keeps everything when it is terminal already;
  -- otherwise it gets the state and the message of the ending, the time as that of its end, and the
  -- ending's exit code where it has one, and keeps the rest.
  pub run-finish :
      (j : String) (r : Run)
      → fresh.run_id ≢ j
      → run st j ≡ some r
      → ((id ≢ j) × (run (finish cfg fresh now st id e) j ≡ some r))
        ⊎ ((id ≡ j) × IsTerminal r.state × (run (finish cfg fresh now st id e) j ≡ some r))
        ⊎ ((id ≡ j)
            × (¬ IsTerminal r.state)
            × (run (finish cfg fresh now st id e) j
                ≡ some (record r {
                  state = e.state;
                  finished_at = some now;
                  message = e.message;
                  exit_code = or_else e.exit r.exit_code;
                })))
  unfolding finish_run
  run-finish j r other found =
      let all = run-finish-map j other in
      elim (Bool-cases (id == j)) [
        | inr differs ↦ inl (λ same. differ id j differs same, all ∙ rw differs found)
        | inl same ↦
            let named : id ≡ j = (eq_iff id j).0 same in
            elim (Bool-cases (terminal r.state)) [
              | inl over ↦ inr (
                  inl (
                    named,
                    terminal-IsTerminal r.state over,
                    all ∙ rw (same, found) (rw over refl),
                  ))
              | inr live ↦ inr (
                  inr (
                    named,
                    (λ h. true_or_false _ (IsTerminal-terminal r.state h) live),
                    all ∙ rw (same, found) (rw live refl),
                  ))
            ]
      ]

  after_finish-IsSound :
      IsNewId st fresh.run_id
      → (old : Option Run) → IsSound (after_finish cfg fresh now e ended old)
  unfolding after_finish
  after_finish-IsSound new none = ended-IsSound
  after_finish-IsSound new (some old) =
      elim (Bool-cases (not (terminal old.state) && may_retry e.state (finish_run now e old))) [
        | inl again ↦ rw again (
            retry_of-IsSound cfg fresh now ended (finish_run now e old) ended-IsSound
              (update_run-IsNewId st id fresh.run_id (finish_run now e) new))
        | inr over ↦ rw over ended-IsSound
      ]

  -- finish keeps a store's sound shape, the retry that it may queue included, where the retry's id
  -- is new.
  pub finish-IsSound : IsNewId st fresh.run_id → IsSound (finish cfg fresh now st id e)
  unfolding finish
  finish-IsSound new = after_finish-IsSound new (run st id)
