-- ===== src/Runner/Passed.antt =====
-- When classify and runSuite of internal/runner/runner.go make a run passed.
use distributed_test_runner.Base.{
  ◌+◌, ◌≡◌, ◌≢◌, ◌⊎◌, inl, inr, refl, ap, if◌then◌else◌, Bool, true, false, Option, none, some,
  String, arith, nat_eq, ltb, not, Bool-cases,
}
use distributed_test_runner.Base.Int.{ℤ, pos, negsuc}
use distributed_test_runner.Model.State.{RunState, passed, failed, errored, is_passed}
use distributed_test_runner.Model.Entities.{Summary}
use distributed_test_runner.Runner.{classify, Ending, run_suite, is_zero}

-- The process ran and exited 0.
abbrev pub ExitsClean : Ending → Type 0
ExitsClean e =
    (e.past_deadline ≡ false)
    × ((e.process_exit ≡ some (pos 0)) ⊎ ((e.process_exit ≡ none) × (e.run_error ≡ none)))

-- The summary has tests, none of them a problem.
abbrev pub AllPass : Summary → Type 0
AllPass s = (s.tests ≢ 0) × (s.failed + s.errors ≡ 0)

zero_exit : (e : ℤ) → is_zero e ≡ true → e ≡ pos 0
zero_exit (pos n) h = ap pos (ground arith)
zero_exit (negsuc n) h = cc

-- The verdict of a process that ran to its end, whatever the texts.
abbrev ended : (empty clean bad : Bool) (a b c d : String) → RunState × String
ended empty clean bad a b c d =
    if empty
    then if clean then (errored, a) else (errored, b)
    else if bad
    then (failed, c)
    else if not clean
    then (failed, d)
    else (passed, "")

ended-passed :
    (empty clean bad : Bool) (a b c d : String)
    → is_passed (ended empty clean bad a b c d).0 ≡ true
    → (empty ≡ false) × ((bad ≡ false) × (clean ≡ true))
ended-passed true true bad a b c d h = cc
ended-passed true false bad a b c d h = cc
ended-passed false clean true a b c d h = cc
ended-passed false true false a b c d h = (refl, (refl, refl))
ended-passed false false false a b c d h = cc

AllPass-intro :
    (s : Summary) → nat_eq s.tests 0 ≡ false → ltb 0 (s.failed + s.errors) ≡ false → AllPass s
AllPass-intro s some_tests no_problem = (ground arith, ground arith)

classify-counted :
    (e : ℤ) (s : Summary) → is_passed (classify e false none s).0 ≡ true → (e ≡ pos 0) × AllPass s
unfolding classify
classify-counted e s h =
    let (some_tests, (no_problem, clean)) =
      ended-passed (nat_eq s.tests 0) (is_zero e) (ltb 0 (s.failed + s.errors)) _ _ _ _ h in
    (zero_exit e clean, AllPass-intro s some_tests no_problem)

pub classify-passed :
    (e : ℤ) (t : Bool) (r : Option String) (s : Summary)
    → is_passed (classify e t r s).0 ≡ true
    → (t ≡ false) × ((r ≡ none) × ((e ≡ pos 0) × AllPass s))
unfolding classify
classify-passed e true r s h = cc
classify-passed e false (some why) s h = cc
classify-passed e false none s h = (refl, (refl, classify-counted e s h))

pub passed-classify : (s : Summary) → AllPass s → is_passed (classify (pos 0) false none s).0 ≡ true
unfolding classify
passed-classify s h =
    let some_tests : nat_eq s.tests 0 ≡ false = ground (arith, h.0) in
    let no_problem : ltb 0 (s.failed + s.errors) ≡ false = ground (arith, h.1) in
    rw (some_tests, classify) (rw no_problem refl)

pub ExitsClean-run_suite :
    (command : String) (e : Ending) → ExitsClean e → run_suite command e ≡ (pos 0, false, none)
unfolding run_suite
ExitsClean-run_suite command e (on_time, inl exit) = rw (on_time, run_suite) (rw exit refl)
ExitsClean-run_suite command e (on_time, inr (no_exit, no_error)) =
    rw (on_time, run_suite) (rw no_exit (rw no_error refl))

late_exit :
    (command : String) (e : Ending) → e.past_deadline ≡ true → (run_suite command e).1 ≡ false → ⊥
unfolding run_suite
late_exit command e a k = ground arith

exit_of :
    (command : String) (e : Ending)
    → e.past_deadline ≡ false
    → (run_suite command e).0 ≡ pos 0
    → (run_suite command e).2 ≡ none
    → (e.process_exit ≡ some (pos 0)) ⊎ ((e.process_exit ≡ none) × (e.run_error ≡ none))
unfolding run_suite
exit_of command e a h l = ground arith

pub run_suite-ExitsClean :
    (command : String) (e : Ending)
    → (run_suite command e).0 ≡ pos 0
    → (run_suite command e).1 ≡ false
    → (run_suite command e).2 ≡ none
    → ExitsClean e
unfolding run_suite
run_suite-ExitsClean command e h k l = elim (Bool-cases e.past_deadline) [
  | inl a ↦ absurd (late_exit command e a k)
  | inr a ↦ (a, exit_of command e a h l)
]
