-- ===== src/Lib.antt =====
-- The master of a distributed test platform: it takes regressions (submissions of test suites), keeps
-- them with their run attempts in a store, and places the attempts on the slots of worker nodes, under
-- the quota rules of a catalog, until each suite has a verdict.
--
-- Parts of the program and the files that model them (paths from the repository's root):
--   Model      internal/model/model.go: the run and regression states (RunState, RegressionState), the
--              stored entities, and Submission.Normalize (normalize, fill, merge_map).
--   Config     internal/config: the catalog's types (Types), the quota rules of a user and a scope
--              (Quota: user_cap is UserCap, together_rules TogetherRules, forbidden Forbidden), and
--              the edits (Catalog: set_node is SetNode, remove_pool RemovePool, and so on), the validation
--              of users and rules (Rules: validate_quotas), and Catalog.Normalize (Live: live_catalog).
--   Backend    internal/backend/backend.go: what a backend reports (NodeInfo, Placement, Status).
--     Nomad    nomadbackend.go and internal/nomad/client.go: the inventory; Jobs is Dispatch with the job
--              that it registers, Allocations is Poll, PollAll, Stop and the readings of an allocation.
--     Local    localbackend.go: the slots of the simulated nodes, the processes, and the two steps in which
--              the goroutine of a process handles its end.
--   Store      internal/store/store.go: the regressions and runs in memory. A run is one object that
--              three indexes share, so a store is a heap of runs and indexes into it; create, add_run,
--              update_run, update_regression, run and regression are the methods of those names, and
--              Open is OpenWith, the start from what the mirror holds.
--   Sched      internal/sched, the control loop, one file per step:
--     Ledger   ledger.go: newLedger, charge, count, block. The map of the nodes and the map by pool hold
--              the same objects, so a ledger has one list of nodes. Meaning says which runs a rule is
--              about, in terms of the runs and the catalog.
--     Pick     ledger.go: poolNodes, capacity, satisfies and pick.
--     Queue    admit.go: the order of the queue, the fair-share choice and the admission loop, over any
--              dispatch; Admit is dispatch itself, with buildRunSpec, note and the whole of admit.
--     Submit   submit.go: Submit, with the payloads that suites share; Cancel is Cancel and CancelSuite,
--              with the write of Rollup; Setup is newRun, and Ids SanitizeID of ids.go.
--     Finish   reconcile.go: finish and the retry it queues; Ingest is Ingest, what a runner reports;
--              Reconcile is applyStatus, enforceTimeout and reconcile.
--     Rollup   rollup.go: LatestPerSuite and Rollup.
--     Nodes    nodes.go and catalog.go, with SetCatalog of internal/config/config.go: heartbeats, agents,
--              the inventory, and the catalog as authored and as it is in force.
--     Views    views.go: Pools and Unassigned.
--   Buildrepo  internal/buildrepo/buildrepo.go: List and Resolve.
--   Runner     internal/runner/runner.go: classify and Execute; Environment is the environment of a suite
--              (detectNode, prepareBuild), Post the delivery of an event to the master.
--   Junit      internal/junit/junit.go: Parse and ParseDir, from what encoding/xml decodes.
--   Yaml       internal/yamlite/yamlite.go, on bytes: Quoted is stripComment, splitKey, splitFlow and
--              unquote, Scalar is scalar, Lines the loop of Parse, and Parse the parser of blocks. Print is
--              a printer, which the source does not have, and by which the parser is specified.
--   Base       the helpers that these share: Boolean tests, lists, dictionaries, texts, sorting, loops.
--   Tests      each theorem at concrete inputs, and the definitions run on small data.
--
-- How they interact: Submit checks a submission against the catalog and creates the regression with a
-- queued run per suite. A tick reads all runs, counts the slots in use into a ledger, and dispatches
-- queued runs while a node and the rules allow it. Runners and the backend report on runs; finish ends
-- an attempt once, and queues the next one; Rollup derives the regression's totals and state.
--
-- State is passed explicitly: an operation takes a store and returns it, with its error where it has
-- one. For the scheduler, the backend's Dispatch, the build repository's Resolve, the mirror's answer,
-- the random identifiers, the clock and the text of a duration are arguments. So are the answers of
-- Nomad's API, of the operating system and of the object store, strconv.ParseFloat (parse_float), the
-- JSON of a catalog (marshal), the text of bytes (show) and whether net/http makes a request of a URL
-- (is_request) in the parts that use them. One reading of the clock stands for those within one
-- operation. Times and durations are natural numbers of nanoseconds; the integers that the code compares
-- (priorities, limits, retries) are unbounded, as none comes near 2^63. The slots of a node are a natural
-- number: a configuration that gives one fewer than 0 slots, which the code does not refuse, is left out.
--
-- Bounds and fuel: the admission loop runs on fuel, the length of its queue, which is enough because each
-- round takes a run off the queue; admit_loop_exhausts states what holds at its end. The parser of YAML
-- runs on twice the number of lines and two, and a flow sequence on the length of its token and one;
-- Yaml/Fuel shows that this is enough for every document. Decimal texts are written for numbers below
-- 2^64.
--
-- Where Go ranges over a map, the model fixes an order: of several rules at their limits block reports
-- the first one here, and runs queued at one time keep the order of the store.
--
-- Where the task states of an allocation or the files of a walk have an order that Go leaves open, they
-- are a list. The code trims white space as Unicode has it, the model as ASCII has it.
--
-- Not modelled: the store's mirrors, the drivers of PostgreSQL and of the object store, the HTTP API, the
-- commands and the node agent, which are input and output; of the runner, LoadSpec, setup and the build
-- cache of internal/runner/cache.go, which read and write files; Quotas of internal/sched/views.go and
-- the tick of internal/sched/scheduler.go, which calls the steps in turn; of the backends, the logs and the
-- requests themselves; the sums of test durations, which are floats; logging; locks, since each
-- operation stands for what the code does under one lock or between two; the waiters of the dashboard.
pub mod Base
pub mod Model
pub mod Config
pub mod Backend
pub mod Buildrepo
pub mod Sched
pub mod Store
pub mod Yaml
pub mod Junit
pub mod Runner
pub mod Tests
