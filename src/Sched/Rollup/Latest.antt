-- ===== src/Sched/Rollup/Latest.antt =====
-- LatestPerSuite (internal/sched/rollup.go) finds the newest attempt.
use distributed_test_runner.Base.{
  ◌≤◌, ◌≡◌, ◌≢◌, refl, String, Option, none, some, List, [], ◌∷◌, arith, eq_iff, inl, inr, Elem,
  Option-cases,
}
use distributed_test_runner.Base.Dict.{lookup, lookup-insert}
use distributed_test_runner.Base.Loop.{shunt, foldl_inv, shunt-elem, elem-shunt}
use distributed_test_runner.Model.Entities.{Run}
use distributed_test_runner.Sched.Rollup.{keep_newest, latest_per_suite}

-- The entry of one suite, after the runs `seen`.
record Inv (suite : String) (seen : List Run) (out : List (String × Run)) : Type 0 where
  found : (r : Run) → lookup suite out ≡ some r → Elem r seen × (r.suite ≡ suite)
  newest :
      (r q : Run)
      → lookup suite out ≡ some r
      → Elem q seen
      → q.suite ≡ suite
      → q.attempt ≤ r.attempt
  missing : (q : Run) → lookup suite out ≡ none → Elem q seen → q.suite ≢ suite

module _ (suite : String) (seen : List Run) (out : List (String × Run)) (x : Run)
    (h : Inv suite seen out) where
  abbrev after : List (String × Run)
  after = keep_newest out x

  found_after : (r : Run) → lookup suite after ≡ some r → Elem r (x ∷ seen) × (r.suite ≡ suite)
  unfolding keep_newest
  found_after r e =
      ground (arith, lookup-insert x.suite suite x out, eq_iff x.suite suite, h.found r)

  newest_after :
      (r q : Run)
      → lookup suite after ≡ some r
      → Elem q (x ∷ seen)
      → q.suite ≡ suite
      → q.attempt ≤ r.attempt
  unfolding keep_newest
  newest_after r q e m s = elim (Option-cases (lookup suite out)) [
    | inl n ↦ ground (arith, lookup-insert x.suite suite x out, eq_iff x.suite suite, h.missing q n)
    | inr (b, eb) ↦
        ground (arith, lookup-insert x.suite suite x out, eq_iff x.suite suite, h.newest b q eb)
  ]

  missing_after : (q : Run) → lookup suite after ≡ none → Elem q (x ∷ seen) → q.suite ≢ suite
  unfolding keep_newest
  missing_after q e m s =
      ground (arith, lookup-insert x.suite suite x out, eq_iff x.suite suite, h.missing q)

  keep_newest-Inv : Inv suite (x ∷ seen) after
  keep_newest-Inv = record { found = found_after; newest = newest_after; missing = missing_after }

latest-Inv : (suite : String) (runs : List Run) → Inv suite (shunt [] runs) (latest_per_suite runs)
unfolding latest_per_suite lookup
latest-Inv suite runs =
    foldl_inv (Inv suite) keep_newest (keep_newest-Inv suite) [] [] runs
      (record { found = λ r e. cc; newest = λ r q e m. absurd m; missing = λ q e m. absurd m })

-- The newest attempt of a suite among the runs, or that there is none.
abbrev pub LatestSpec : String → List Run → Option Run → Type 0
LatestSpec suite runs none = (q : Run) → Elem q runs → q.suite ≢ suite
LatestSpec suite runs (some r) =
    Elem r runs
    × (r.suite ≡ suite)
    × ((q : Run) → Elem q runs → q.suite ≡ suite → q.attempt ≤ r.attempt)

-- LatestPerSuite has, for each suite name, a run of that suite that no other run of it exceeds in its
-- attempt number, and no entry exactly where the suite has no run.
pub latest-LatestSpec :
    (suite : String) (runs : List Run)
    → LatestSpec suite runs (lookup suite (latest_per_suite runs))
latest-LatestSpec suite runs = go (lookup suite (latest_per_suite runs)) refl
  where
    go : (o : Option Run) → lookup suite (latest_per_suite runs) ≡ o → LatestSpec suite runs o
    go none e = λ q m. (latest-Inv suite runs).missing q e (elem-shunt q runs m)
    go (some r) e =
        let (m, s) = (latest-Inv suite runs).found r e in
        (shunt-elem r runs m, s, λ q i. (latest-Inv suite runs).newest r q e (elem-shunt q runs i))
