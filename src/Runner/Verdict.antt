-- ===== src/Runner/Verdict.antt =====
-- When an attempt passes in internal/runner/runner.go.
use distributed_test_runner.Base.{
  ◌⊎◌, ℕ, ◌≡◌, ◌≢◌, ◌↔◌, inl, inr, refl, ap, sym, ◌∙◌, if◌then◌else◌, Bool, true, false, none, some,
  List, [], ◌∷◌, String, arith, length, Option-cases,
}
use distributed_test_runner.Base.Result.{ok, err, Result-cases}
use distributed_test_runner.Model.State.{RunState, is_passed}
use distributed_test_runner.Model.Entities.{RunSpec}
use distributed_test_runner.Yaml.Bytes.{Bytes}
use distributed_test_runner.Junit.{File, problems, parse_dir}
use distributed_test_runner.Junit.Counts.{parse_dir-IsCounted}
use distributed_test_runner.Runner.{classify, run_suite, NodeIdentity, World, conclude, execute}
use distributed_test_runner.Runner.Passed.{
  ExitsClean, AllPass, classify-passed, passed-classify, ExitsClean-run_suite, run_suite-ExitsClean,
}

no_length : {A : Type 0} (xs : List A) → length xs ≡ 0 → xs ≡ []
no_length [] h = refl
no_length (x ∷ xs) h = absurd (omega (arith, h))

zero_code : (b : Bool) → ◌≡◌ {A = ℕ} (if b then 0 else 1) 0 → b ≡ true
zero_code true h = refl
zero_code false h = absurd (omega (arith, h))

-- What the counters say is what the cases say.
AllPass-cases :
    (fs : List File)
    → AllPass (parse_dir fs).0.summary
    → ((parse_dir fs).0.cases ≢ []) × (problems (parse_dir fs).0 ≡ [])
AllPass-cases fs p =
    let (counted, stored) = parse_dir-IsCounted fs in
    (
      λ e. p.0 (omega (arith, counted.all_counted, ap length e)),
      no_length (problems (parse_dir fs).0) (omega (arith, stored, p.1)),
    )

cases-AllPass :
    (fs : List File)
    → (parse_dir fs).0.cases ≢ []
    → problems (parse_dir fs).0 ≡ []
    → AllPass (parse_dir fs).0.summary
cases-AllPass fs some_case no_problem =
    let (counted, stored) = parse_dir-IsCounted fs in
    (
      λ e. some_case (no_length (parse_dir fs).0.cases (omega (arith, counted.all_counted, e))),
      omega (arith, stored, ap length no_problem),
    )

command_cases :
    (cs : List String) → (cs ≡ []) ⊎ ((c : String) × (args : List String) × (cs ≡ c ∷ args))
command_cases [] = inl refl
command_cases (c ∷ args) = inr (c, args, refl)

module _ (show : Bytes → String) (spec : RunSpec) (node : NodeIdentity) where
  -- There is a command, the environment was prepared, the process ran to an exit code of 0 in time, and the results have
  -- a case and no problem.
  abbrev pub Succeeds : World → Type 0
  Succeeds w =
      (spec.command ≢ [])
      × ((w.setup ≡ none)
          × (((env : List (String × String)) × (w.build ≡ ok env))
              × (ExitsClean w.ending
                  × (((parse_dir w.results).0.cases ≢ [])
                      × (problems (parse_dir w.results).0 ≡ [])))))

  concluded : String → World → ℕ
  concluded command w = (conclude show command spec node w).0

  verdict : String → World → RunState × String
  verdict command w =
      let v = run_suite command w.ending in classify v.0 v.1 v.2 (parse_dir w.results).0.summary

  concluded_lem :
      (command : String) (w : World)
      → concluded command w ≡ (if is_passed (verdict command w).0 then 0 else 1)
  unfolding concluded conclude verdict
  concluded_lem command w = refl

  verdict-passed :
      (command : String) (w : World)
      → ExitsClean w.ending
      → AllPass (parse_dir w.results).0.summary
      → is_passed (verdict command w).0 ≡ true
  unfolding verdict
  verdict-passed command w clean pass =
      rw (ExitsClean-run_suite command w.ending clean)
        (passed-classify (parse_dir w.results).0.summary pass)

  conclude-zero :
      (command : String) (w : World)
      → concluded command w ≡ 0
      → ExitsClean w.ending
        × (((parse_dir w.results).0.cases ≢ []) × (problems (parse_dir w.results).0 ≡ []))
  unfolding concluded conclude
  conclude-zero command w h =
      let v = run_suite command w.ending in
      let (on_time, (no_error, (exit, pass))) =
        classify-passed v.0 v.1 v.2 (parse_dir w.results).0.summary (zero_code _ h) in
      (run_suite-ExitsClean command w.ending exit on_time no_error, AllPass-cases w.results pass)

  zero-conclude :
      (command : String) (w : World)
      → ExitsClean w.ending
      → (parse_dir w.results).0.cases ≢ []
      → problems (parse_dir w.results).0 ≡ []
      → concluded command w ≡ 0
  zero-conclude command w clean some_case no_problem =
      concluded_lem command w
      ∙ rw (verdict-passed command w clean (cases-AllPass w.results some_case no_problem)) refl

  execute-prepared :
      (command : String) (args : List String) (w : World) (env : List (String × String))
      → spec.command ≡ command ∷ args
      → w.setup ≡ none
      → w.build ≡ ok env
      → (execute show spec node w).0 ≡ concluded command w
  unfolding execute concluded
  execute-prepared command args w env c e b = rw (e, execute) (rw b (rw c refl))

  execute-empty :
      (w : World) (env : List (String × String))
      → spec.command ≡ []
      → w.setup ≡ none
      → w.build ≡ ok env
      → (execute show spec node w).0 ≡ 2
  unfolding execute
  execute-empty w env c e b = rw (e, execute) (rw b (rw c refl))

  execute-setup : (w : World) (why : String) → w.setup ≡ some why → (execute show spec node w).0 ≡ 1
  unfolding execute
  execute-setup w why e = rw (e, execute) refl

  execute-build :
      (w : World) (why : String)
      → w.setup ≡ none
      → w.build ≡ err why
      → (execute show spec node w).0 ≡ 1
  unfolding execute
  execute-build w why e b = rw (e, execute) (rw b refl)

  -- The task of an attempt exits with 0 exactly when the suite has a command, the workspace and the
  -- builds could be prepared, the process ended by itself with 0, and the JUnit results hold at least
  -- one case and none that failed or had an error.
  pub execute-zero_iff : (w : World) → ((execute show spec node w).0 ≡ 0) ↔ Succeeds w
  execute-zero_iff w = (
    λ h. elim (Option-cases w.setup) [
      | inr (why, e) ↦ absurd (omega (arith, h, execute-setup w why e))
      | inl e ↦ elim (Result-cases w.build) [
        | inl (why, b) ↦ absurd (omega (arith, h, execute-build w why e b))
        | inr (env, b) ↦ elim (command_cases spec.command) [
          | inl c ↦ absurd (omega (arith, h, execute-empty w env c e b))
          | inr (command, args, c) ↦ (
            (λ n. cc),
            (
              e,
              (
                (env, b),
                conclude-zero command w (sym (execute-prepared command args w env c e b) ∙ h),
              ),
            ),
          )
        ]
      ]
    ],
    λ (some_command, (e, (built, (clean, (some_case, no_problem))))).
        elim (command_cases spec.command) [
          | inl c ↦ absurd (some_command c)
          | inr (command, args, c) ↦
              execute-prepared command args w built.0 c e built.1
              ∙ zero-conclude command w clean some_case no_problem
        ],
  )
