-- ===== src/Backend/Nomad/Placed.antt =====
-- What Dispatch of internal/backend/nomadbackend.go registers.
use distributed_test_runner.Base.{
  ◌≤◌, ◌≡◌, ◌≢◌, inl, inr, refl, sym, ap, ◌∙◌, String, true, false, ◌==◌, eq_iff, Option, none,
  some, List, [], ◌∷◌, ◌++◌, arith, ltb, Elem, elem-append, elem-map, Bool-cases, Option-cases,
}
use mathlib.Core.Path.{subst}
use distributed_test_runner.Base.Int.{ℤ, pos, negsuc}
use distributed_test_runner.Base.Dict.{
  or_else, insert_all, HasUniqueKeys, lookup-insert_all, lookup,
}
use distributed_test_runner.Base.Text.{text_less, concat}
use distributed_test_runner.Base.Sort.{sort, elem-sort}
use distributed_test_runner.Base.Result.{Result, ok, err, ◌>>=◌, >>=-eq-ok, ok-injective}
use distributed_test_runner.Model.Entities.{Run, RunSpec}
use distributed_test_runner.Config.Types.{Pool}
use distributed_test_runner.Backend.{Placement}
use distributed_test_runner.Backend.Nomad.Jobs.{
  Constraint, Job, NomadConfig, job_id, nomad_priority, keys, wanted, meta_target, value_of,
  constraints, pin, job_of, task_config, build_job, registered, dispatch, placement_of,
}

-- A priority that Nomad takes.
abbrev IsPriority : ℤ → Type 0
IsPriority (pos n) = (1 ≤ n) × (n ≤ 100)
IsPriority (negsuc n) = ⊥

nomad_priority-IsPriority : (p : ℤ) → IsPriority (nomad_priority p)
unfolding nomad_priority
nomad_priority-IsPriority (negsuc n) = (omega arith, omega arith)
nomad_priority-IsPriority (pos n) = elim (Bool-cases (ltb 0 n)) [
  | inr a ↦ rw (a, nomad_priority) (omega arith, omega arith)
  | inl a ↦ elim (Bool-cases (ltb 100 n)) [
    | inl b ↦ rw (a, nomad_priority) (rw b (omega arith, omega arith))
    | inr b ↦ rw (a, nomad_priority) (rw b (ground arith))
  ]
]

lookup-elem_keys :
    (key value : String) (m : List (String × String))
    → lookup key m ≡ some value
    → Elem key (keys m)
unfolding lookup
lookup-elem_keys key value [] e = cc
lookup-elem_keys key value ((k, v) ∷ m) e =
    ground (arith, eq_iff k key, lookup-elem_keys key value m)

abbrev constraint_on : Run → Pool → String → Constraint
constraint_on run pool key = record {
  left = meta_target key;
  right = value_of (lookup key (wanted run pool));
}

constraints-elem :
    (run : Run) (pool : Pool) (key value : String)
    → lookup key (wanted run pool) ≡ some value
    → Elem (record { left = meta_target key; right = value }) (constraints run pool)
unfolding constraints
constraints-elem run pool key value e =
    let sorted = sort text_less (keys (wanted run pool)) in
    let in_keys = lookup-elem_keys key value (wanted run pool) e in
    let m =
      elem-map (constraint_on run pool) key sorted
        (elem-sort text_less key (keys (wanted run pool)) in_keys) in
    let same : constraint_on run pool key ≡ record { left = meta_target key; right = value } =
      ap (λ v. record { left = meta_target key; right = value_of v }) e in
    subst (λ c. Elem c (constraints run pool)) same m

-- The constraint that a label of the node has a value.
abbrev pub asks : String → String → Constraint
asks key value = record { left = concat ("${meta.dtp." ∷ key ∷ "}" ∷ []); right = value }

-- The job of a run on a pool, as it was registered.
pub record IsPlaced (run : Run) (pool : Pool) (register : Job → Option String) (pl : Placement)
    (job : Job) : Type 0 where
  has_node : run.node_id ≢ ""
  is_registered : register job ≡ none
  same_node : pl.node_id ≡ run.node_id
  same_job : pl.backend_id ≡ job.id
  is_named : job.id ≡ job_id run
  is_pinned : Elem (record { left = "${node.unique.id}"; right = run.node_id }) job.constraints
  required :
      (key value : String)
      → lookup key run.spec.requires ≡ some value
      → Elem (asks key value) job.constraints
  baseline :
      (key value : String)
      → lookup key run.spec.requires ≡ none
      → lookup key pool.constraints ≡ some value
      → Elem (asks key value) job.constraints
  has_priority : IsPriority job.priority

no_text : (s : String) → (s == "") ≡ false → s ≡ "" → ⊥
no_text s d e = let q = (eq_iff s "").1 e in cc

never : {A : Type 0} {a : A} {why : String} → ◌≡◌ {A = Result String A} (err why) (ok a) → ⊥
never e = cc

build_job-eq :
    (cfg : NomadConfig) (encoded : String) (run : Run) (spec : RunSpec) (pool : Pool) (job : Job)
    → build_job cfg encoded run spec pool ≡ ok job
    → (job.id ≡ job_id run)
      × (job.constraints ≡ constraints run pool ++ pin run ∷ [])
      × (job.priority ≡ nomad_priority run.priority)
unfolding build_job
build_job-eq cfg encoded run spec pool job e =
    let (config, c, made) =
      >>=-eq-ok (task_config run pool) (λ config. ok (job_of cfg encoded run spec pool config)) e in
    let same : job_of cfg encoded run spec pool config ≡ job = ok-injective made in
    (
      ap (λ (j : Job). j.id) (sym same),
      ap (λ (j : Job). j.constraints) (sym same),
      ap (λ (j : Job). j.priority) (sym same),
    )

module _ (pool_named : String → Option Pool) (cfg : NomadConfig) (encoded : String)
    (register : Job → Option String) (run : Run) (spec : RunSpec) where
  registered-ok :
      (job : Job) (pl : Placement) (made : Job)
      → registered run job (register job) ≡ ok (pl, made)
      → (register job ≡ none) × ((job ≡ made) × (placement_of run job ≡ pl))
  registered-ok job pl made e = elim (Option-cases (register job)) [
    | inr (why, n) ↦ absurd (never (rw n at e))
    | inl n ↦ let q = ok-injective (rw n at e) in (n, (ap (λ p. p.1) q, ap (λ p. p.0) q))
  ]

  dispatch-some :
      (pool : Pool)
      → pool_named run.pool ≡ some pool
      → (run.node_id == "") ≡ false
      → dispatch pool_named cfg encoded register run spec
        ≡ (build_job cfg encoded run spec pool >>= (λ job. registered run job (register job)))
  unfolding dispatch
  dispatch-some pool e n = rw (e, dispatch) (rw n refl)

  dispatch-none :
      (out : Placement × Job)
      → pool_named run.pool ≡ none
      → dispatch pool_named cfg encoded register run spec ≡ ok out
      → ⊥
  unfolding dispatch
  dispatch-none out e done = ground arith

  dispatch-homeless :
      (pool : Pool) (out : Placement × Job)
      → pool_named run.pool ≡ some pool
      → (run.node_id == "") ≡ true
      → dispatch pool_named cfg encoded register run spec ≡ ok out
      → ⊥
  unfolding dispatch
  dispatch-homeless pool out e n done = never (rw n at (rw (e, dispatch) at done))

  wanted-lookup :
      (pool : Pool) (key : String)
      → HasUniqueKeys run.spec.requires
      → HasUniqueKeys pool.constraints
      → lookup key (wanted run pool)
        ≡ or_else (lookup key run.spec.requires) (lookup key pool.constraints)
  unfolding lookup
  wanted-lookup pool key requires baseline = ground (
    arith,
    lookup-insert_all key run.spec.requires (insert_all pool.constraints []) requires,
    lookup-insert_all key pool.constraints [] baseline,
  )

  asked-elem :
      (pool : Pool) (key value : String) (cs : List Constraint)
      → cs ≡ constraints run pool ++ pin run ∷ []
      → lookup key (wanted run pool) ≡ some value
      → Elem (asks key value) cs
  asked-elem pool key value cs same e = rw same (
      elem-append (asks key value) (constraints run pool) (pin run ∷ [])
        (inl (constraints-elem run pool key value e)))

  job-IsPlaced :
      (pool : Pool) (job : Job) (pl : Placement)
      → HasUniqueKeys run.spec.requires
      → HasUniqueKeys pool.constraints
      → (run.node_id == "") ≡ false
      → build_job cfg encoded run spec pool ≡ ok job
      → register job ≡ none
      → placement_of run job ≡ pl
      → IsPlaced run pool register pl job
  job-IsPlaced pool job pl unique unique_pool n built registered_job placed =
      let (named, cs, priority) = build_job-eq cfg encoded run spec pool job built in
      record {
        has_node = λ e. no_text run.node_id n e;
        is_registered = registered_job;
        same_node = ap (λ (p : Placement). p.node_id) (sym placed);
        same_job = ap (λ (p : Placement). p.backend_id) (sym placed);
        is_named = named;
        is_pinned =
            rw cs (elem-append (pin run) (constraints run pool) (pin run ∷ []) (inr (inl refl)));
        required = λ key value e.
            asked-elem pool key value job.constraints cs
              (wanted-lookup pool key unique unique_pool ∙ rw e refl);
        baseline = λ key value free e.
            asked-elem pool key value job.constraints cs
              (wanted-lookup pool key unique unique_pool ∙ rw (free, e) refl);
        has_priority = rw priority (nomad_priority-IsPriority run.priority);
      }

  -- What Dispatch places is a job of Nomad under the run's own id, on the node that the master chose:
  -- the job is pinned to that node, asks for every label that the suite requires with its value, and
  -- for each label of the pool's baseline that the suite does not require with the pool's, and has a
  -- priority from 1 to 100. The labels of the suite and of a pool are maps: each stands in them once.
  pub dispatch-IsPlaced :
      (pl : Placement) (job : Job)
      → HasUniqueKeys run.spec.requires
      → ((name : String) (pool : Pool)
          → pool_named name ≡ some pool
          → HasUniqueKeys pool.constraints)
      → dispatch pool_named cfg encoded register run spec ≡ ok (pl, job)
      → (pool : Pool) × (pool_named run.pool ≡ some pool) × IsPlaced run pool register pl job
  dispatch-IsPlaced pl job unique unique_pools done = elim (Option-cases (pool_named run.pool)) [
    | inl e ↦ absurd (dispatch-none (pl, job) e done)
    | inr (pool, e) ↦ elim (Bool-cases (run.node_id == "")) [
      | inl n ↦ absurd (dispatch-homeless pool (pl, job) e n done)
      | inr n ↦
          let chain = sym (dispatch-some pool e n) ∙ done in
          let (made, built, rest) =
            >>=-eq-ok (build_job cfg encoded run spec pool) (λ j. registered run j (register j))
              chain in
          let (r, (same, placed)) = registered-ok made pl job rest in
          (
            pool,
            e,
            job-IsPlaced pool job pl unique (unique_pools run.pool pool e) n (built ∙ ap ok same)
                (ap register (sym same) ∙ r) (ap (placement_of run) (sym same) ∙ placed),
          )
    ]
  ]
