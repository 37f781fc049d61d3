-- ===== src/Runner.antt =====
-- internal/runner/runner.go: one attempt of a suite on a node. What the machine answers (the
-- environment, the process, the files of the results, the object store, the master) is an argument;
-- the console log is not modelled. `show` is Go's string of bytes.
pub mod Environment
pub mod Post
pub mod Passed
pub mod Verdict
pub mod Delivery
use distributed_test_runner.Base.{
  ℕ, zero, suc, ◌+◌, Bool, true, false, not, ◌&&◌, ◌||◌, Option, none, some, List, [], ◌∷◌, ◌++◌,
  map, String, ◌==◌, nat_eq, ltb, if◌then◌else◌,
}
use distributed_test_runner.Base.Int.{ℤ, pos, negsuc}
use distributed_test_runner.Base.Text.{concat, decimal, decimal_int}
use distributed_test_runner.Base.Result.{Result, ok, err}
use distributed_test_runner.Model.State.{RunState, passed, failed, errored, timeout, is_passed}
use distributed_test_runner.Model.Entities.{Summary, Case, ArtRef, RunSpec, RunEvent}
use distributed_test_runner.Yaml.Bytes.{Bytes}
use distributed_test_runner.Junit.{Case as JunitCase, Report, File, problems, parse_dir}

abbrev pub is_zero : ℤ → Bool
is_zero (pos n) = nat_eq n 0
is_zero (negsuc n) = false

-- classify; an error is its text.
unfoldable pub classify : ℤ → Bool → Option String → Summary → RunState × String
unfolding decimal decimal_int
classify exit_code timed_out run_err sum =
    if timed_out then (timeout, "suite exceeded its timeout and was killed") else elim run_err [
      | some why ↦ (errored, why)
      | none ↦
          if nat_eq sum.tests 0
          then if is_zero exit_code
            then (errored, "suite exited cleanly but produced no JUnit results")
            else (
              errored,
              concat
                  ("suite exited " ∷ decimal_int exit_code ∷ " and produced no JUnit results" ∷ []),
            )
          else if ltb 0 (sum.failed + sum.errors)
          then (
            failed,
            concat (
                decimal (sum.failed + sum.errors)
                ∷ " of "
                ∷ decimal sum.tests
                ∷ " tests failed"
                ∷ []),
          )
          else if not (is_zero exit_code)
          then (
            failed,
            concat ("all reported tests passed but the suite exited " ∷ decimal_int exit_code ∷ []),
          )
          else (passed, "")
    ]

-- How the process of a suite ended: past its deadline, with an exit code when it ran at all, and
-- with an error of Run or none.
pub record Ending : Type 0 where
  pub past_deadline : Bool
  pub process_exit : Option ℤ
  pub run_error : Option String

-- The result of runSuite from how the process ended.
unfoldable pub run_suite : String → Ending → ℤ × Bool × Option String
run_suite command e = if e.past_deadline then (negsuc 0, true, none) else elim e.process_exit [
  | some code ↦ (code, false, none)
  | none ↦ elim e.run_error [
    | some why ↦
        (negsuc 0, false, some (concat ("could not execute \"" ∷ command ∷ "\": " ∷ why ∷ [])))
    | none ↦ (pos 0, false, none)
  ]
]

-- The timeout of a suite, in nanoseconds.
unfoldable pub timeout_of : RunSpec → ℕ
timeout_of spec = if nat_eq spec.timeout 0 then 1800000000000 else spec.timeout

pub record NodeIdentity : Type 0 where
  pub id : String
  pub name : String
  pub alloc_id : String

abbrev pub no_summary : Summary
no_summary = record { tests = 0; passed = 0; failed = 0; errors = 0; skipped = 0 }

-- notifyStarted's event
abbrev started_event : RunSpec → NodeIdentity → RunEvent
started_event spec node = record {
  run_id = spec.run_id;
  phase = "started";
  state = none;
  node_id = node.id;
  node_name = node.name;
  alloc_id = node.alloc_id;
  exit_code = none;
  message = "";
  summary = no_summary;
  cases = [];
  artifacts = [];
}

-- report's event
abbrev finished_event :
    RunSpec
    → NodeIdentity
    → RunState
    → String
    → Option ℤ
    → Summary
    → List Case
    → List ArtRef
    → RunEvent
finished_event spec node state message exit sum cases arts = record {
  run_id = spec.run_id;
  phase = "finished";
  state = some state;
  node_id = node.id;
  node_name = node.name;
  alloc_id = node.alloc_id;
  exit_code = exit;
  message = message;
  summary = sum;
  cases = cases;
  artifacts = arts;
}

-- A file under the results: its path from there, its size, and whether it was uploaded.
pub record Upload : Type 0 where
  pub path : String
  pub size : ℕ
  pub is_stored : Bool

-- uploadArtifacts over the files of the walk
unfoldable pub upload_artifacts : Bool → List Upload → List ArtRef
upload_artifacts false ups = []
upload_artifacts true [] = []
upload_artifacts true (u ∷ ups) =
    let refs = upload_artifacts true ups in
    if u.is_stored then record { path = u.path; size = u.size } ∷ refs else refs

-- What an attempt meets.
pub record World : Type 0 where
  pub setup : Option String
  pub build : Result String (List (String × String))
  pub ending : Ending
  pub results : List File
  pub has_store : Bool
  pub uploads : List Upload

module _ (show : Bytes → String) where
  abbrev case_event : JunitCase → Case
  case_event c = record {
    class = show c.class;
    name = show c.name;
    status = c.status;
    message = show c.message;
    details = show c.details;
  }

  -- What Execute makes of the ended suite, of that command: the exit code of the task and the last
  -- event.
  unfoldable pub conclude : String → RunSpec → NodeIdentity → World → ℕ × RunEvent
  unfolding classify run_suite problems parse_dir upload_artifacts
  conclude command spec node w =
      let (exit_code, timed_out, run_err) = run_suite command w.ending in
      let report = (parse_dir w.results).0 in
      let (state, message) = classify exit_code timed_out run_err report.summary in
      (
        if is_passed state then 0 else 1,
        finished_event spec node state message (some exit_code) report.summary
            (map case_event (problems report)) (upload_artifacts w.has_store w.uploads),
      )

  -- Execute: the exit code of the task and the events that it posts, in order. Without a command
  -- runSuite panics at its index, and Go ends the process with 2.
  unfoldable pub execute : RunSpec → NodeIdentity → World → ℕ × List RunEvent
  unfolding conclude
  execute spec node w = elim w.setup [
    | some why ↦ (
      1,
      finished_event spec node errored (concat ("runner setup failed: " ∷ why ∷ [])) none no_summary
            [] []
          ∷ [],
    )
    | none ↦ elim w.build [
      | err why ↦ (
        1,
        started_event spec node
            ∷ finished_event spec node errored (concat ("build preparation failed: " ∷ why ∷ []))
                none no_summary [] (upload_artifacts w.has_store w.uploads)
            ∷ [],
      )
      | ok env ↦ elim spec.command [
        | [] ↦ (2, started_event spec node ∷ [])
        | command ∷ args ↦ (
          (conclude command spec node w).0,
          started_event spec node ∷ (conclude command spec node w).1 ∷ [],
        )
      ]
    ]
  ]

abbrev same_summary : Summary → Summary → Bool
same_summary s t =
    nat_eq s.tests t.tests
    && (nat_eq s.passed t.passed
        && (nat_eq s.failed t.failed && (nat_eq s.errors t.errors && nat_eq s.skipped t.skipped)))

-- reportProgress: what each tick of the ticker posts, given what the results hold then (`false`:
-- they could not be scanned) and the summary that was posted last.
unfoldable pub progress : List (Report × Bool) → Summary → List Summary
progress [] last = []
progress ((report, read) ∷ ticks) last = elim (not read || same_summary report.summary last) [
  | true ↦ progress ticks last
  | false ↦ report.summary ∷ progress ticks report.summary
]
