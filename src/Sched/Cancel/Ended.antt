-- ===== src/Sched/Cancel/Ended.antt =====
-- What a cancellation leaves (Cancel and CancelSuite, internal/sched/submit.go).
use mathlib.Core.List.{foldl}
use mathlib.Core.Option
use distributed_test_runner.Base.{
  ℕ, ◌≡◌, ◌⊎◌, inl, inr, refl, ◌∙◌, String, true, not, ◌&&◌, ◌==◌, eq_iff, some, List, [], ◌∷◌, map,
  if◌then◌else◌, arith, Elem, Bool-cases,
}
use distributed_test_runner.Base.Loop.{foldl_keeps}
use distributed_test_runner.Model.State.{RegressionState, terminal}
use distributed_test_runner.Model.Entities.{Run, Regression}
use distributed_test_runner.Store.{Store, update_run, update_regression, run, regression}
use distributed_test_runner.Store.Shape.{IsSound, KeepsNames}
use distributed_test_runner.Store.Updates.{
  update_run-IsSound, run-update_run, regression-update_run, on_id,
}
use distributed_test_runner.Store.Members.{
  run-member, run-update_regression, regression-update_regression,
}
use distributed_test_runner.Sched.Cancel.{canceled_run, cancel_step, canceled_regression, cancel}

canceled_run-KeepsNames : (now : ℕ) → KeepsNames (canceled_run now)
unfolding canceled_run
canceled_run-KeepsNames now = record {
  id = λ r. refl;
  regression_id = λ r. refl;
  token = λ r. refl;
}

canceled_regression-state :
    (now : ℕ) (reg : Regression) (rs : List Run)
    → (canceled_regression now reg rs).state ≡ RegressionState.canceled
unfolding canceled_regression
canceled_regression-state now reg rs = refl

-- The run is in the store, and over.
abbrev pub IsOver : Store → String → Type 0
IsOver st j = (q : Run) × (run st j ≡ some q) × (terminal q.state ≡ true)

module _ (now : ℕ) where
  cancel_step-IsSound : (st : Store) (r : Run) → IsSound st → IsSound (cancel_step now st r)
  cancel_step-IsSound st r s = elim (Bool-cases (terminal r.state)) [
    | inl over ↦ rw over s
    | inr live ↦
        rw live (update_run-IsSound st s (canceled_run now) (canceled_run-KeepsNames now) r.id)
  ]

  run-cancel_step :
      (st : Store) (r : Run) (j : String)
      → IsSound st
      → run (cancel_step now st r) j ≡ (
          if not (terminal r.state) && r.id == j
          then Option.map (canceled_run now) (run st j)
          else run st j)
  run-cancel_step st r j s = elim (Bool-cases (terminal r.state)) [
    | inl over ↦ rw over refl
    | inr live ↦
        rw live (run-update_run st s (canceled_run now) (canceled_run-KeepsNames now) r.id j)
  ]

  canceled_run-over : (q : Run) → terminal (canceled_run now q).state ≡ true
  unfolding canceled_run terminal
  canceled_run-over q = refl

  -- A run that is over stays so.
  cancel_step-IsOver :
      (j : String) (st : Store) (r : Run)
      → IsSound st × IsOver st j
      → IsSound (cancel_step now st r) × IsOver (cancel_step now st r) j
  cancel_step-IsOver j st r (s, (q, found, over)) = (
    cancel_step-IsSound st r s,
    (
      (if not (terminal r.state) && r.id == j then canceled_run now q else q),
      run-cancel_step st r j s ∙ ground arith,
      ground (arith, canceled_run-over q),
    ),
  )

  -- The step on a run that is still as it was, or over already.
  cancel_step-this :
      (st : Store) (r : Run)
      → IsSound st
      → (q : Run) × (run st r.id ≡ some q) × ((q ≡ r) ⊎ (terminal q.state ≡ true))
      → IsOver (cancel_step now st r) r.id
  cancel_step-this st r s (q, found, h) = elim (Bool-cases (terminal r.state)) [
    | inl over ↦ rw over (q, found, ground arith)
    | inr live ↦ (
      canceled_run now q,
      run-cancel_step st r r.id s ∙ ground (arith, eq_iff r.id r.id),
      canceled_run-over q,
    )
  ]

  -- Any other step leaves it so.
  cancel_step-other :
      (st : Store) (x r : Run)
      → IsSound st
      → (q : Run) × (run st r.id ≡ some q) × ((q ≡ r) ⊎ (terminal q.state ≡ true))
      → (q : Run) × (run (cancel_step now st x) r.id ≡ some q)
        × ((q ≡ r) ⊎ (terminal q.state ≡ true))
  cancel_step-other st x r s (q, found, h) =
      elim (Bool-cases (not (terminal x.state) && x.id == r.id)) [
        | inl hit ↦ (
          canceled_run now q,
          run-cancel_step st x r.id s ∙ ground arith,
          inr (canceled_run-over q),
        )
        | inr miss ↦ (q, run-cancel_step st x r.id s ∙ ground arith, h)
      ]

  cancel_all-IsOver :
      (xs : List Run) (st : Store) (r : Run)
      → Elem r xs
      → IsSound st
      → (q : Run) × (run st r.id ≡ some q) × ((q ≡ r) ⊎ (terminal q.state ≡ true))
      → IsOver (foldl (cancel_step now) st xs) r.id
  cancel_all-IsOver [] st r m s h = absurd m
  cancel_all-IsOver (x ∷ xs) st r (inl is) s h =
      (foldl_keeps (λ t. IsSound t × IsOver t r.id) (cancel_step now) (cancel_step-IsOver r.id)
        (cancel_step now st x) xs (cancel_step-IsSound st x s, rw is (cancel_step-this st r s h))).1
  cancel_all-IsOver (x ∷ xs) st r (inr m) s h =
      cancel_all-IsOver xs (cancel_step now st x) r m (cancel_step-IsSound st x s)
        (cancel_step-other st x r s h)

  -- The header of the regression is still the same.
  abbrev HeaderIs : Store → String → Regression → Type 0
  HeaderIs st id reg = (rs : List Run) × (regression st id ≡ some (reg, rs))

  updated-HeaderIs :
      (id : String) (reg : Regression) (st : Store) (r : Run)
      → IsSound st
      → (rs : List Run) → regression st id ≡ some (reg, rs)
      → HeaderIs (update_run st r.id (canceled_run now)).0 id reg
  updated-HeaderIs id reg st r s rs e = (
    (if (update_run st r.id (canceled_run now)).1
        then map (on_id (canceled_run now) r.id) rs
        else rs),
    regression-update_run st (canceled_run now) r.id id s (canceled_run-KeepsNames now)
        ∙ ground arith,
  )

  cancel_step-HeaderIs :
      (id : String) (reg : Regression) (st : Store) (r : Run)
      → IsSound st × HeaderIs st id reg
      → IsSound (cancel_step now st r) × HeaderIs (cancel_step now st r) id reg
  cancel_step-HeaderIs id reg st r (s, (rs, e)) = (
    cancel_step-IsSound st r s,
    elim (Bool-cases (terminal r.state)) [
      | inl over ↦ rw over (rs, e)
      | inr live ↦ rw live (updated-HeaderIs id reg st r s rs e)
    ],
  )

  cancel-known :
      (st : Store) (id : String) (reg : Regression) (rs : List Run)
      → regression st id ≡ some (reg, rs)
      → cancel now st id
        ≡ ((update_regression (foldl (cancel_step now) st rs) id (canceled_regression now)).0, true)
  unfolding cancel
  cancel-known st id reg rs e = rw (e, cancel) refl

  -- Cancel ends every run of a known regression, in a store of sound shape: afterwards each is in a
  -- terminal state, and the regression is canceled.
  pub cancel-IsOver :
      (st : Store) (id : String) (reg : Regression) (rs : List Run)
      → IsSound st
      → regression st id ≡ some (reg, rs)
      → ((r : Run) → Elem r rs → IsOver (cancel now st id).0 r.id)
        × ((reg' : Regression) × (rs' : List Run) × (regression (cancel now st id).0 id
              ≡ some (reg', rs'))
            × (reg'.state ≡ RegressionState.canceled))
  cancel-IsOver st id reg rs s e =
      let st' = foldl (cancel_step now) st rs in
      let (s', (rs', e')) =
        foldl_keeps (λ t. IsSound t × HeaderIs t id reg) (cancel_step now)
          (cancel_step-HeaderIs id reg) st rs (s, (rs, e)) in
      rw (cancel-known st id reg rs e) (
        λ r m.
            let (q, found, over) =
              cancel_all-IsOver rs st r m s (r, run-member st id reg rs r s e m, inl refl) in
            (q, run-update_regression st' id r.id (canceled_regression now) ∙ found, over),
        (
          canceled_regression now reg rs',
          rs',
          regression-update_regression st' id (canceled_regression now) reg rs' e',
          canceled_regression-state now reg rs',
        ),
      )
