-- ===== src/Sched/Submit/Created.antt =====
-- What an accepted submission leaves in the store (Submit, internal/sched/submit.go).
use mathlib.Core.Path.{subst}
use distributed_test_runner.Base.{
  ◌≢◌, ℕ, ◌≡◌, ◌↔◌, ◌⊎◌, inl, inr, refl, String, Bool, true, eq_iff, Option, none, some, List, [],
  ◌∷◌, map, arith, All, Option-cases, Bool-cases,
}
use distributed_test_runner.Base.Dict.{lookup}
use distributed_test_runner.Base.Result.{Result, ok, err, >>=-eq-ok, ok-injective, Result-cases}
use distributed_test_runner.Model.State.{RunState, RegressionState}
use distributed_test_runner.Model.Suite.{BuildArtifact, SuiteSpec, Submission}
use distributed_test_runner.Model.Entities.{Run, Regression}
use distributed_test_runner.Config.Types.{Pool, Catalog, everywhere, in_pool}
use distributed_test_runner.Config.Quota.{forbidden}
use distributed_test_runner.Store.{Store, CreateError, create, regression}
use distributed_test_runner.Store.Created.{regression-create}
use distributed_test_runner.Model.Normalize.{fill, normalize}
use distributed_test_runner.Model.Normalize.Accepted.{AreAccepted, normalize_iff}
use distributed_test_runner.Sched.Submit.Payloads.{AreResolved, resolve_suites-AreResolved}
use distributed_test_runner.Sched.Setup.{Config, Fresh, new_run}
use distributed_test_runner.Sched.Ledger.{pool}
use distributed_test_runner.Sched.Submit.{
  SubmitError, Resolved, with_origin, normal_suites, allowed, resolve_suites, check_pool,
  check_pools, new_regression, accept, first_runs, stored, submit,
}

-- A suite that the user may run: its pool is in the catalog and provides the runtime that the suite
-- asks for, and no rule gives the user 0 slots in the pool.
pub record IsAdmissible (c : Catalog) (user : String) (su : SuiteSpec) : Type 0 where
  pub offered :
      (p : Pool) × (pool c su.pool ≡ some p) × ((su.runtime ≡ "") ⊎ (su.runtime ≡ p.runtime))
  pub not_barred : forbidden c user (in_pool su.pool) ≡ none

check_pool-IsAdmissible :
    (c : Catalog) (user : String) (su : SuiteSpec)
    → check_pool c user su ≡ ok tt
    → IsAdmissible c user su
unfolding check_pool
check_pool-IsAdmissible c user su h = elim (Option-cases (pool c su.pool)) [
  | inl n ↦ absurd (ground arith)
  | inr (p, known) ↦ record {
    offered = (p, known, ground (arith, eq_iff su.runtime "", eq_iff su.runtime p.runtime));
    not_barred = ground arith;
  }
]

IsAdmissible-check_pool :
    (c : Catalog) (user : String) (su : SuiteSpec)
    → IsAdmissible c user su
    → check_pool c user su ≡ ok tt
unfolding check_pool
IsAdmissible-check_pool c user su a =
    let (p, known, runs) = a.offered in
    let free = a.not_barred in ground (arith, eq_iff su.runtime "", eq_iff su.runtime p.runtime)

-- The checks against the catalog let a list of suites pass exactly if the user may run each of them.
pub check_pools-ok_iff :
    (c : Catalog) (user : String) (sus : List SuiteSpec)
    → (check_pools c user sus ≡ ok tt) ↔ All (IsAdmissible c user) sus
unfolding check_pools
check_pools-ok_iff c user [] = (λ h. tt, λ h. refl)
check_pools-ok_iff c user (su ∷ sus) = (
  λ h.
      let (u, first, rest) = >>=-eq-ok (check_pool c user su) (λ _. check_pools c user sus) h in
      (check_pool-IsAdmissible c user su first, (check_pools-ok_iff c user sus).0 rest),
  λ (a, more). rw (IsAdmissible-check_pool c user su a) ((check_pools-ok_iff c user sus).1 more),
)

-- A first attempt of a suite, waiting in its regression.
pub record IsFirstAttempt (reg : Regression) (su : SuiteSpec) (r : Run) : Type 0 where
  pub queued : r.state ≡ RunState.queued
  pub first : r.attempt ≡ 1
  pub of_suite : (r.suite ≡ su.name) × (r.spec ≡ su)
  pub of_regression : (r.regression_id ≡ reg.id) × (r.user ≡ reg.user)

-- One first attempt for each suite, in the order of the suites.
abbrev pub AreFirstAttempts : Regression → List SuiteSpec → List Run → Type 0
AreFirstAttempts reg [] [] = Unit
AreFirstAttempts reg (su ∷ sus) (r ∷ rs) = IsFirstAttempt reg su r × AreFirstAttempts reg sus rs
AreFirstAttempts reg _ _ = ⊥

-- An accepted submission: who may run it, of which suites it is, and what the store then holds.
pub record Submitted (cfg : Config) (repo : Option (BuildArtifact → Result String BuildArtifact))
    (sub : Submission) (reg : Regression) (after : Store) : Type 0 where
  pub nonempty : sub.suites ≢ []
  pub accepted : AreAccepted [] (map (fill sub.defaults) sub.suites)
  pub shared : List BuildArtifact
  pub suites : AreResolved repo sub.defaults shared sub.defaults.build sub.suites reg.suites
  pub allowed_user : forbidden cfg.catalog sub.user everywhere ≡ none
  pub admissible : All (IsAdmissible cfg.catalog sub.user) reg.suites
  pub by_user : (reg.user ≡ sub.user) × (reg.priority ≡ sub.priority)
  pub pending : reg.state ≡ RegressionState.pending
  pub runs : List Run
  pub known : regression after reg.id ≡ some (reg, runs)
  pub waiting : AreFirstAttempts reg reg.suites runs

map-new_run-AreFirstAttempts :
    (cfg : Config) (fresh : SuiteSpec → Fresh) (now : ℕ) (reg : Regression) (sus : List SuiteSpec)
    → AreFirstAttempts reg sus (map (λ su. new_run cfg (fresh su) now reg su 1) sus)
unfolding new_run
map-new_run-AreFirstAttempts cfg fresh now reg [] = tt
map-new_run-AreFirstAttempts cfg fresh now reg (su ∷ sus) = (
  record { queued = refl; first = refl; of_suite = (refl, refl); of_regression = (refl, refl) },
  map-new_run-AreFirstAttempts cfg fresh now reg sus,
)

allowed-ok :
    (c : Catalog) (user : String) → allowed c user ≡ ok tt → forbidden c user everywhere ≡ none
allowed-ok c user h = ground arith

create-ok :
    (st : Store) (reg : Regression) (rs : List Run) (saved : Bool)
    → (create st reg rs saved).1 ≡ none
    → (lookup reg.id st.by_reg ≡ none) × (saved ≡ true)
unfolding create
create-ok st reg rs saved h = elim (Option-cases (lookup reg.id st.by_reg)) [
  | inl n ↦ elim (Bool-cases saved) [ inl done ↦ (n, done) | inr failed ↦ absurd (ground arith) ]
  | inr (old, e) ↦ absurd (ground arith)
]

ok-ne-err : {A : Type 0} {E : Type 0} {a : A} {e : E} → ¬ (◌≡◌ {A = Result E A} (err e) (ok a))
ok-ne-err h = cc

stored-ok :
    (reg reg' : Regression) (x : Store × Option CreateError)
    → (stored reg' x).1 ≡ ok reg
    → (reg' ≡ reg) × (x.1 ≡ none) × ((stored reg' x).0 ≡ x.0)
stored-ok reg reg' (st, none) h = (ok-injective h, refl, refl)
stored-ok reg reg' (st, some e) h = cc

module _ (cfg : Config) (repo : Option (BuildArtifact → Result String BuildArtifact))
    (fresh_id : String) (fresh : SuiteSpec → Fresh) (now : ℕ) (saved : Bool) (st : Store)
    (sub : Submission) where
  new_regression-Submitted :
      (res : Resolved)
      → let reg = new_regression cfg fresh_id now sub res in
        let made = create st reg (first_runs cfg fresh now reg) saved in
        sub.suites ≢ []
        → AreAccepted [] (map (fill sub.defaults) sub.suites)
        → AreResolved repo sub.defaults res.shared sub.defaults.build sub.suites res.suites
        → forbidden cfg.catalog sub.user everywhere ≡ none
        → check_pools cfg.catalog sub.user res.suites ≡ ok tt
        → made.1 ≡ none
        → Submitted cfg repo sub reg made.0
  unfolding new_regression first_runs
  new_regression-Submitted res some_suite normal resolved free pools done =
      let reg = new_regression cfg fresh_id now sub res in
      let (new, yes') = create-ok st reg (first_runs cfg fresh now reg) saved done in
      record {
        nonempty = some_suite;
        accepted = normal;
        shared = res.shared;
        suites = resolved;
        allowed_user = free;
        admissible = (check_pools-ok_iff cfg.catalog sub.user res.suites).0 pools;
        by_user = (refl, refl);
        pending = refl;
        runs = first_runs cfg fresh now reg;
        known = rw yes' (regression-create st reg (first_runs cfg fresh now reg) new);
        waiting = map-new_run-AreFirstAttempts cfg fresh now reg res.suites;
      }

  normal_suites-ok :
      (fulls : List SuiteSpec) → normal_suites sub ≡ ok fulls → normalize sub ≡ ok fulls
  normal_suites-ok fulls h = ground arith

  accept-parts :
      (reg : Regression)
      → accept cfg repo fresh_id now sub ≡ ok reg
      → (res : Resolved) × (sub.suites ≢ [])
        × AreAccepted [] (map (fill sub.defaults) sub.suites)
        × AreResolved repo sub.defaults res.shared sub.defaults.build sub.suites res.suites
        × (forbidden cfg.catalog sub.user everywhere ≡ none)
        × (check_pools cfg.catalog sub.user res.suites ≡ ok tt)
        × (new_regression cfg fresh_id now sub res ≡ reg)
  unfolding accept
  accept-parts reg h =
      let (normal, n, h1) = >>=-eq-ok (normal_suites sub) _ h in
      let (u, free, h2) = >>=-eq-ok (allowed cfg.catalog sub.user) _ h1 in
      let (res, r, h3) =
        >>=-eq-ok (resolve_suites repo sub.defaults.build (with_origin sub.suites normal)) _ h2 in
      let (v, pools, h4) = >>=-eq-ok (check_pools cfg.catalog sub.user res.suites) _ h3 in
      let (some_suite, filled, ok_all) = (normalize_iff sub normal).0 (normal_suites-ok normal n) in
      (
        res,
        some_suite,
        subst (AreAccepted []) filled ok_all,
        resolve_suites-AreResolved repo sub.defaults sub.defaults.build sub.suites res (
            subst (λ x. resolve_suites repo sub.defaults.build (with_origin sub.suites x) ≡ ok res)
              filled r),
        allowed-ok cfg.catalog sub.user free,
        pools,
        ok-injective h4,
      )

  submit-accept :
      (reg : Regression)
      → accept cfg repo fresh_id now sub ≡ ok reg
      → submit cfg repo fresh_id fresh now saved st sub
        ≡ stored reg (create st reg (first_runs cfg fresh now reg) saved)
  unfolding submit
  submit-accept reg e = rw (e, submit) refl

  submit-refuse :
      (e : SubmitError)
      → accept cfg repo fresh_id now sub ≡ err e
      → submit cfg repo fresh_id fresh now saved st sub ≡ (st, err e)
  unfolding submit
  submit-refuse why e = rw (e, submit) refl

  accepted-Submitted :
      (made reg : Regression)
      → accept cfg repo fresh_id now sub ≡ ok made
      → (stored made (create st made (first_runs cfg fresh now made) saved)).1 ≡ ok reg
      → Submitted cfg repo sub reg
          (stored made (create st made (first_runs cfg fresh now made) saved)).0
  accepted-Submitted made reg a h =
      let (same, done, store) =
        stored-ok reg made (create st made (first_runs cfg fresh now made) saved) h in
      let (res, some_suite, normal, resolved, free, pools, is) = accept-parts made a in
      rw store (
        rw (← same) (
          rw (← is) (
            new_regression-Submitted res some_suite normal resolved free pools
              (rw (← is) at done))))

  -- A submission that Submit accepts has a suite, and its suites pass the checks once the defaults are
  -- filled in. The regression has these filled suites, in their order, with the payloads replaced by
  -- what the build repository makes of them, suite after suite; the suites that inherit the payloads
  -- of the defaults share them, so each such suite resolves them again and all show the last result.
  -- The user may run something and may use the pool of each suite, which is known and offers the
  -- runtime that the suite asks for; the regression is pending in the store, with one first attempt
  -- for each suite waiting in the queue.
  pub submit-Submitted :
      (reg : Regression)
      → (submit cfg repo fresh_id fresh now saved st sub).1 ≡ ok reg
      → Submitted cfg repo sub reg (submit cfg repo fresh_id fresh now saved st sub).0
  submit-Submitted reg h = elim (Result-cases (accept cfg repo fresh_id now sub)) [
    | inl (why, refused) ↦ absurd (ok-ne-err (rw (submit-refuse why refused) at h))
    | inr (made, accepted) ↦
        rw (submit-accept made accepted)
          (accepted-Submitted made reg accepted (rw (submit-accept made accepted) at h))
  ]
