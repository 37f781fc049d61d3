-- ===== src/Backend/Nomad/Latest.antt =====
-- The newest allocation of each job, as PollAll of internal/backend/nomadbackend.go finds it.
use mathlib.Core.List.{foldl}
use distributed_test_runner.Base.{
  ◌≤◌, ◌≡◌, inl, inr, refl, sym, ap, ◌∙◌, String, true, false, ◌==◌, eq_iff, Option, none, some,
  List, [], ◌∷◌, arith, ltb, Elem, Bool-cases, Option-cases,
}
use distributed_test_runner.Base.Dict.{lookup, insert, lookup-insert}
use distributed_test_runner.Base.Loop.{foldl_inv, shunt}
use distributed_test_runner.Base.Scan.{has_prefix}
use distributed_test_runner.Backend.Nomad.Allocations.{Alloc, keep_latest}

-- The allocation is the newest of its job among `allocs`.
abbrev pub IsNewest : Alloc → List Alloc → Type 0
IsNewest a allocs =
    Elem a allocs
    × ((b : Alloc) → Elem b allocs → b.job_id ≡ a.job_id → b.create_index ≤ a.create_index)

abbrev pub IsOurs : String → Type 0
IsOurs job = has_prefix job "dtp-" ≡ true

-- What the map of the newest allocations holds when `seen` were met.
pub record IsLatest (seen : List Alloc) (latest : List (String × Alloc)) : Type 0 where
  pub sound :
      (j : String) (a : Alloc)
      → lookup j latest ≡ some a
      → IsOurs j × ((a.job_id ≡ j) × IsNewest a seen)
  pub complete :
      (b : Alloc) → Elem b seen → IsOurs b.job_id → (a : Alloc) × (lookup b.job_id latest ≡ some a)

-- What one more allocation does: it is another's, it is the first or newer, or it is not newer.
data Kept (latest : List (String × Alloc)) (x : Alloc) (after : List (String × Alloc))
    : Type 0 where
  foreign : has_prefix x.job_id "dtp-" ≡ false → after ≡ latest → Kept latest x after
  newer :
      IsOurs x.job_id
      → ((cur : Alloc) → lookup x.job_id latest ≡ some cur → cur.create_index ≤ x.create_index)
      → after ≡ insert x.job_id x latest
      → Kept latest x after
  older :
      (cur : Alloc)
      → lookup x.job_id latest ≡ some cur
      → x.create_index ≤ cur.create_index
      → after ≡ latest
      → Kept latest x after

same_alloc : (a b : Alloc) (o : Option Alloc) → o ≡ some a → o ≡ some b → a ≡ b
same_alloc a b o e f = cc

absent_alloc : (a : Alloc) (o : Option Alloc) → o ≡ none → o ≡ some a → ⊥
absent_alloc a o e f = cc

keep_latest-Kept :
    (latest : List (String × Alloc)) (x : Alloc) → Kept latest x (keep_latest latest x)
unfolding keep_latest
keep_latest-Kept latest x = elim (Bool-cases (has_prefix x.job_id "dtp-")) [
  | inr p ↦ foreign p (rw (p, keep_latest) refl)
  | inl p ↦ elim (Option-cases (lookup x.job_id latest)) [
    | inl e ↦ newer p (λ cur f. absurd (absent_alloc cur _ e f)) (rw (p, keep_latest) (rw e refl))
    | inr (cur, e) ↦ elim (Bool-cases (ltb cur.create_index x.create_index)) [
      | inl l ↦
          newer p
            (λ other f.
              let q : cur ≡ other = same_alloc cur other _ e f in rw (← q) (ground (arith, l)))
            (rw (p, keep_latest) (rw e (rw l refl)))
      | inr l ↦ older cur e (ground (arith, l)) (rw (p, keep_latest) (rw e (rw l refl)))
    ]
  ]
]

ours_not : (job : String) → IsOurs job → has_prefix job "dtp-" ≡ false → ⊥
ours_not job h p = cc

differ : (s t : String) → (s == t) ≡ false → s ≡ t → ⊥
differ s t d e = let q = (eq_iff s t).1 e in cc

module _ (seen : List Alloc) (latest : List (String × Alloc)) (x : Alloc)
    (h : IsLatest seen latest) where
  -- A newer one takes the place of its job's.
  inserted_sound :
      IsOurs x.job_id
      → ((cur : Alloc) → lookup x.job_id latest ≡ some cur → cur.create_index ≤ x.create_index)
      → (j : String) (a : Alloc) → lookup j (insert x.job_id x latest) ≡ some a
      → IsOurs j × ((a.job_id ≡ j) × IsNewest a (x ∷ seen))
  inserted_sound ours newest j a e =
      let found = sym (lookup-insert x.job_id j x latest) ∙ e in
      elim (Bool-cases (x.job_id == j)) [
        | inl same ↦
            let p : x.job_id ≡ j = (eq_iff x.job_id j).0 same in
            let q : x ≡ a = same_alloc x a _ (rw same refl) found in
            rw (← q) (
              rw (← p) (
                ours,
                (
                  refl,
                  (
                    inl refl,
                    λ b m job. elim m [
                      | inl is_x ↦ rw (← is_x) (omega arith)
                      | inr old ↦
                          let (cur, c) = h.complete b old (rw job ours) in
                          let (our_job, (cur_job, (cur_seen, top))) = h.sound b.job_id cur c in
                          omega (arith, top b old (sym cur_job), newest cur (rw (← job) c))
                    ],
                  ),
                ),
              ))
        | inr differs ↦
            let old : lookup j latest ≡ some a = rw differs at found in
            let (ours_j, (job_a, (a_seen, top))) = h.sound j a old in
            (
              ours_j,
              (
                job_a,
                (
                  inr a_seen,
                  λ b m job. elim m [
                    | inl is_x ↦ absurd (
                        differ x.job_id j differs
                          (ap (λ (c : Alloc). c.job_id) is_x ∙ (job ∙ job_a)))
                    | inr b_seen ↦ top b b_seen job
                  ],
                ),
              ),
            )
      ]

  inserted_complete :
      (b : Alloc)
      → Elem b (x ∷ seen)
      → IsOurs b.job_id
      → (a : Alloc) × (lookup b.job_id (insert x.job_id x latest) ≡ some a)
  inserted_complete b m ours = elim (Bool-cases (x.job_id == b.job_id)) [
    | inl same ↦ (x, lookup-insert x.job_id b.job_id x latest ∙ rw same refl)
    | inr differs ↦ elim m [
      | inl is_x ↦ absurd (differ x.job_id b.job_id differs (ap (λ (c : Alloc). c.job_id) is_x))
      | inr old ↦
          let (a, e) = h.complete b old ours in
          (a, lookup-insert x.job_id b.job_id x latest ∙ rw differs e)
    ]
  ]

  abbrev KnownNewest : Type 0
  KnownNewest =
      IsOurs x.job_id
      → (cur : Alloc) × (lookup x.job_id latest ≡ some cur) × (x.create_index ≤ cur.create_index)

  -- Where the map stays, the allocation is not newer than the one of its job, or not one of ours.
  kept_sound :
      KnownNewest
      → (j : String) (a : Alloc) → lookup j latest ≡ some a
      → IsOurs j × ((a.job_id ≡ j) × IsNewest a (x ∷ seen))
  kept_sound known j a e =
      let (ours, (job_a, (a_seen, top))) = h.sound j a e in
      (
        ours,
        (
          job_a,
          (
            inr a_seen,
            λ b m job. elim m [
              | inr old ↦ top b old job
              | inl is_x ↦
                  let p : x.job_id ≡ j = ap (λ (c : Alloc). c.job_id) is_x ∙ (job ∙ job_a) in
                  let (cur, c, le) = known (rw p ours) in
                  let q : cur ≡ a = same_alloc cur a _ (rw (← p) c) e in rw (← is_x) (rw (← q) le)
            ],
          ),
        ),
      )

  kept_complete :
      KnownNewest
      → (b : Alloc) → Elem b (x ∷ seen)
      → IsOurs b.job_id
      → (a : Alloc) × (lookup b.job_id latest ≡ some a)
  kept_complete known b (inr old) ours = h.complete b old ours
  kept_complete known b (inl is_x) ours =
      let (cur, c, le) = known (rw is_x ours) in (cur, rw (← is_x) c)

  Kept-IsLatest : (after : List (String × Alloc)) → Kept latest x after → IsLatest (x ∷ seen) after
  Kept-IsLatest after (foreign p e) =
      let known : KnownNewest = λ ours. absurd (ours_not x.job_id ours p) in
      rw e (record { sound = kept_sound known; complete = kept_complete known })
  Kept-IsLatest after (newer ours newest e) =
      rw e (record { sound = inserted_sound ours newest; complete = inserted_complete })
  Kept-IsLatest after (older cur c le e) =
      let known : KnownNewest = λ ours. (cur, c, le) in
      rw e (record { sound = kept_sound known; complete = kept_complete known })

pub foldl-IsLatest :
    (allocs : List Alloc) → IsLatest (shunt [] allocs) (foldl keep_latest [] allocs)
unfolding lookup
foldl-IsLatest allocs =
    foldl_inv IsLatest keep_latest
      (λ seen latest x h.
        Kept-IsLatest seen latest x h (keep_latest latest x) (keep_latest-Kept latest x))
      [] [] allocs
      (record {
        sound = λ j a e. absurd (absent_alloc a none refl e);
        complete = λ b m ours. absurd m;
      })
