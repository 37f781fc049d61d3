-- ===== src/Model/Normalize.antt =====
-- internal/model/model.go: Submission.Normalize and mergeMap. Go fills the suites in place; the
-- model returns them, and what a refused submission was left with is not modelled.
pub mod Accepted
pub mod Merge
use distributed_test_runner.Base.{
  ℕ, suc, String, not, ◌&&◌, ◌==◌, List, [], ◌∷◌, if◌then◌else◌, nat_eq,
}
use distributed_test_runner.Base.Dict.{or_else, insert_all}
use distributed_test_runner.Base.Keyed.{contains}
use distributed_test_runner.Base.Result.{Result, ok, err, ◌>>=◌}
use distributed_test_runner.Model.State.{valid}
use distributed_test_runner.Model.Suite.{BuildArtifact, SuiteSpec, SuiteDefaults, Submission}

pub data NormalizeError : Type 0 where
  no_suites : NormalizeError
  unnamed_suite : (index : ℕ) → NormalizeError
  duplicate_suite : (suite : String) → NormalizeError
  no_pool : (suite : String) → NormalizeError
  unknown_runtime : (suite runtime : String) → NormalizeError
  unnamed_build : (suite : String) (index : ℕ) → NormalizeError
  unlocated_build : (suite build : String) → NormalizeError

unfoldable pub merge_map : (base over : List (String × String)) → List (String × String)
merge_map base over = insert_all over (insert_all base [])

abbrev text_or : String → String → String
text_or a b = if a == "" then b else a

abbrev pub list_or {ℓ} : {A : Type ℓ} → List A → List A → List A
list_or [] d = d
list_or (x ∷ xs) d = x ∷ xs

abbrev timeout_or : ℕ → ℕ → ℕ
timeout_or a d = if nat_eq a 0 then d else a

-- The assignments of the loop body.
unfoldable pub fill : SuiteDefaults → SuiteSpec → SuiteSpec
fill d su = record {
  name = su.name;
  pool = text_or su.pool d.pool;
  runtime = text_or su.runtime d.runtime;
  image = text_or su.image d.image;
  command = list_or su.command d.command;
  requires = merge_map d.requires su.requires;
  build = list_or su.build d.build;
  env = merge_map d.env su.env;
  timeout = timeout_or su.timeout d.timeout;
  retries = or_else su.retries d.retries;
}

-- The inner loop over the suite's builds, from index `j`.
unfoldable pub check_builds : String → ℕ → List BuildArtifact → Result NormalizeError Unit
check_builds suite j [] = ok tt
check_builds suite j (b ∷ bs) =
    let rest = check_builds suite (suc j) bs in
    if b.name == ""
    then err (unnamed_build suite j)
    else if b.url == "" && b.id == ""
    then err (unlocated_build suite b.name)
    else rest

-- The checks of one round of the outer loop, on the filled suite, which keeps its name; `seen` holds
-- the names before.
unfoldable pub check_suite : ℕ → List String → SuiteSpec → Result NormalizeError SuiteSpec
check_suite i seen full =
    if full.name == ""
    then err (unnamed_suite i)
    else if contains seen full.name
    then err (duplicate_suite full.name)
    else if full.pool == ""
    then err (no_pool full.name)
    else if not (full.runtime == "") && not (valid full.runtime)
    then err (unknown_runtime full.name full.runtime)
    else (check_builds full.name 0 full.build >>= λ _. ok full)

unfoldable pub normalize_suites :
    SuiteDefaults → ℕ → List String → List SuiteSpec → Result NormalizeError (List SuiteSpec)
unfolding check_suite fill check_builds
normalize_suites d i seen [] = ok []
normalize_suites d i seen (su ∷ rest) = check_suite i seen (fill d su) >>= λ full.
    normalize_suites d (suc i) (full.name ∷ seen) rest >>= λ fulls. ok (full ∷ fulls)

abbrev normalize_list : SuiteDefaults → List SuiteSpec → Result NormalizeError (List SuiteSpec)
normalize_list d [] = err no_suites
normalize_list d (su ∷ rest) = normalize_suites d 0 [] (su ∷ rest)

unfoldable pub normalize : Submission → Result NormalizeError (List SuiteSpec)
unfolding normalize_suites
normalize s = normalize_list s.defaults s.suites
