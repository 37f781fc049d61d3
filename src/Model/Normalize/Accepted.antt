-- ===== src/Model/Normalize/Accepted.antt =====
-- Which submissions Submission.Normalize accepts, and what it returns for them.
use distributed_test_runner.Base.{
  ℕ, suc, ◌≡◌, ◌≢◌, ◌↔◌, refl, ◌⊎◌, String, eq_iff, List, [], ◌∷◌, map, arith, All, Elem,
}
use mathlib.Core.Path.{ap₂}
use distributed_test_runner.Base.Keyed.{contains→elem, elem→contains}
use distributed_test_runner.Base.Result.{ok, >>=-eq-ok, ok-injective}
use distributed_test_runner.Model.State.{valid, runtime_process, runtime_container}
use distributed_test_runner.Model.Suite.{BuildArtifact, SuiteSpec, SuiteDefaults, Submission}
use distributed_test_runner.Model.Normalize.{
  fill, check_builds, check_suite, normalize_suites, normalize_list, normalize,
}

-- A payload has a name, and a URL or a repository id.
pub record IsLocated (b : BuildArtifact) : Type 0 where
  pub named : b.name ≢ ""
  pub located : (b.url ≢ "") ⊎ (b.id ≢ "")

-- A filled suite that can be queued after suites of the names `seen`.
pub record IsAccepted (seen : List String) (su : SuiteSpec) : Type 0 where
  pub named : su.name ≢ ""
  pub fresh : ¬ Elem su.name seen
  pub pooled : su.pool ≢ ""
  pub runtime_known :
      (su.runtime ≡ "") ⊎ (su.runtime ≡ runtime_process) ⊎ (su.runtime ≡ runtime_container)
  pub builds_located : All IsLocated su.build

abbrev pub AreAccepted : List String → List SuiteSpec → Type 0
AreAccepted seen [] = Unit
AreAccepted seen (su ∷ rest) = IsAccepted seen su × AreAccepted (su.name ∷ seen) rest

check_builds_sound :
    (suite : String) (j : ℕ) (bs : List BuildArtifact)
    → check_builds suite j bs ≡ ok tt
    → All IsLocated bs
unfolding check_builds
check_builds_sound suite j [] h = tt
check_builds_sound suite j (b ∷ bs) h =
    ground (
      arith,
      eq_iff b.name "",
      eq_iff b.url "",
      eq_iff b.id "",
      check_builds_sound suite (suc j) bs,
    )

check_builds_complete :
    (suite : String) (j : ℕ) (bs : List BuildArtifact)
    → All IsLocated bs
    → check_builds suite j bs ≡ ok tt
unfolding check_builds
check_builds_complete suite j [] h = refl
check_builds_complete suite j (b ∷ bs) h = ground (
  arith,
  eq_iff b.name "",
  eq_iff b.url "",
  eq_iff b.id "",
  h,
  check_builds_complete suite (suc j) bs h.1,
)

module _ (i : ℕ) (seen : List String) (su : SuiteSpec) where
  check_suite_sound :
      {full : SuiteSpec} → check_suite i seen su ≡ ok full → (full ≡ su) × IsAccepted seen full
  unfolding check_suite valid
  check_suite_sound h = ground (
    arith,
    eq_iff su.name "",
    eq_iff su.pool "",
    eq_iff su.runtime "",
    eq_iff su.runtime "process",
    eq_iff su.runtime "container",
    elem→contains seen su.name,
    check_builds_sound su.name 0 su.build,
  )

  check_suite_complete : IsAccepted seen su → check_suite i seen su ≡ ok su
  unfolding check_suite valid
  check_suite_complete h = ground (
    arith,
    eq_iff su.name "",
    eq_iff su.pool "",
    eq_iff su.runtime "",
    eq_iff su.runtime "process",
    eq_iff su.runtime "container",
    contains→elem seen su.name,
    check_builds_complete su.name 0 su.build,
  )

normalize_suites_sound :
    (d : SuiteDefaults) (i : ℕ) (seen : List String) (sus : List SuiteSpec) {fulls : List SuiteSpec}
    → normalize_suites d i seen sus ≡ ok fulls
    → (fulls ≡ map (fill d) sus) × AreAccepted seen fulls
unfolding normalize_suites
normalize_suites_sound d i seen [] h = ground arith
normalize_suites_sound d i seen (su ∷ rest) h =
    let (full, checked, more) = >>=-eq-ok (check_suite i seen (fill d su)) _ h in
    let (fulls, rest_checked, e) =
      >>=-eq-ok (normalize_suites d (suc i) (full.name ∷ seen) rest) _ more in
    let (is_fill, accepted) = check_suite_sound i seen (fill d su) checked in
    let (are_fills, all_accepted) =
      normalize_suites_sound d (suc i) (full.name ∷ seen) rest rest_checked in
    rw (← ok-injective e) (ap₂ ◌∷◌ is_fill are_fills, (accepted, all_accepted))

normalize_suites_complete :
    (d : SuiteDefaults) (i : ℕ) (seen : List String) (sus : List SuiteSpec)
    → AreAccepted seen (map (fill d) sus)
    → normalize_suites d i seen sus ≡ ok (map (fill d) sus)
unfolding normalize_suites
normalize_suites_complete d i seen [] h = refl
normalize_suites_complete d i seen (su ∷ rest) h = rw (
  check_suite_complete i seen (fill d su) h.0,
  normalize_suites_complete d (suc i) ((fill d su).name ∷ seen) rest h.1,
)

-- A submission is accepted exactly when it has a suite and, with the defaults filled in, each suite
-- has a name that no earlier one has, a pool, a known runtime or none, and only payloads with a name
-- and a URL or an id; the result is then the list of the filled suites.
pub normalize_iff :
    (s : Submission) (fulls : List SuiteSpec)
    → (normalize s ≡ ok fulls)
      ↔ ((s.suites ≢ []) × (fulls ≡ map (fill s.defaults) s.suites) × AreAccepted [] fulls)
unfolding normalize
normalize_iff s fulls = go s.suites
  where
    go :
        (sus : List SuiteSpec)
        → (normalize_list s.defaults sus ≡ ok fulls)
          ↔ ((sus ≢ []) × (fulls ≡ map (fill s.defaults) sus) × AreAccepted [] fulls)
    go [] = (λ h. cc, λ h. absurd (h.0 refl))
    go (su ∷ rest) = (
      λ h. let (e, a) = normalize_suites_sound s.defaults 0 [] (su ∷ rest) h in (λ e. cc, e, a),
      λ (_, e, a). rw e (normalize_suites_complete s.defaults 0 [] (su ∷ rest) (rw e at a)),
    )
