-- ===== src/Runner/Environment.antt =====
-- The environment of a suite in internal/runner/runner.go: firstEnv, detectNode, prepareBuild.
use Prim.Native.Char.{Char, code}
use Prim.Native.String.{slice, ◌++◌}
use distributed_test_runner.Base.{
  ℕ, suc, ◌-◌, Bool, ◌&&◌, ◌||◌, Option, none, some, List, [], ◌∷◌, String, ◌==◌, ltb, leb,
  if◌then◌else◌,
}
use distributed_test_runner.Base.Dict.{lookup, insert}
use distributed_test_runner.Base.Text.{concat, decimal}
use distributed_test_runner.Base.Path.{join_dir}
use distributed_test_runner.Base.Result.{Result, ok, ◌>>=◌}
use distributed_test_runner.Model.Suite.{BuildArtifact}
use distributed_test_runner.Model.Entities.{RunSpec}

-- os.Getenv
abbrev getenv : List (String × String) → String → String
getenv env key = elim (lookup key env) [ none ↦ "" | some v ↦ v ]

-- firstEnv
unfoldable pub first_env : List (String × String) → List String → String
unfolding lookup
first_env env [] = ""
first_env env (k ∷ ks) =
    let later = first_env env ks in if getenv env k == "" then later else getenv env k

-- detectNode: the id, the name and the allocation
unfoldable pub detect_node : List (String × String) → String → String × (String × String)
unfolding lookup first_env
detect_node env hostname =
    let found = first_env env ("DTP_NODE_NAME" ∷ "NOMAD_NODE_NAME" ∷ []) in
    let name = if found == "" then hostname else found in
    let id = first_env env ("DTP_NODE_ID" ∷ "NOMAD_NODE_ID" ∷ []) in
    (if id == "" then name else id, (name, getenv env "NOMAD_ALLOC_ID"))

abbrev in_range : ℕ → ℕ → Char → Bool
in_range low high c = leb low (code c) && leb (code c) high

-- strings.ToUpper(sanitizeEnv(s))
unfoldable pub env_name : String → String
env_name String.[] = ""
env_name (String.◌∷◌ c s) =
    let rest = env_name s in
    if in_range 97 122 c
    then slice "ABCDEFGHIJKLMNOPQRSTUVWXYZ" (code c - 97) (suc (code c - 97)) ++ rest
    else if in_range 65 90 c || in_range 48 57 c
    then String.◌∷◌ c rest
    else "_" ++ rest

abbrev set_size : String → ℕ → List (String × String) → List (String × String)
set_size key n env = if ltb 0 n then insert key (decimal n) env else env

-- What every suite is told.
unfoldable pub base_env : RunSpec → String → String → String → List (String × String)
unfolding insert decimal
base_env spec workspace results node_name =
    let env = insert "DTP_NODE_NAME" node_name (
      insert "DTP_ATTEMPT" (decimal spec.attempt) (
        insert "DTP_RUN_ID" spec.run_id (
          insert "DTP_SUITE" spec.suite
            (insert "DTP_RESULTS_DIR" results (insert "DTP_WORKSPACE" workspace []))))) in
    set_size "DTP_SLOT_DISK_MB" spec.slot.disk (
      set_size "DTP_SLOT_CPU" spec.slot.cpu (
        set_size "DTP_SLOT_MEMORY_MAX_MB" spec.slot.memory_max
          (set_size "DTP_SLOT_MEMORY_MB" spec.slot.memory env)))

-- flatten: into the only entry of a directory, when that is a directory.
abbrev flatten : (String → Option String) → String → String
flatten only_dir dir = elim (only_dir dir) [ none ↦ dir | some name ↦ join_dir dir name ]

abbrev set_text : String → String → List (String × String) → List (String × String)
set_text key value env = if value == "" then env else insert key value env

-- The variables of one build, whose payload stands at `path`.
unfoldable pub build_env :
    (String → Option String)
    → BuildArtifact
    → String
    → List (String × String)
    → List (String × String)
unfolding insert env_name join_dir
build_env only_dir a path env =
    let key = concat ("DTP_BUILD_" ∷ env_name a.name ∷ []) in
    set_text (concat (key ∷ "_ID" ∷ [])) a.id
      (set_text (concat (key ∷ "_VERSION" ∷ [])) a.version (insert key (flatten only_dir path) env))

-- for _, a := range r.Spec.Build, where `ensure` is the cache's answer
unfoldable pub builds_env :
    (BuildArtifact → Result String String)
    → (String → Option String)
    → List BuildArtifact
    → List (String × String)
    → Result String (List (String × String))
unfolding build_env
builds_env ensure only_dir [] env = ok env
builds_env ensure only_dir (a ∷ builds) env =
    ensure a >>= (λ path. builds_env ensure only_dir builds (build_env only_dir a path env))

-- prepareBuild
unfoldable pub prepare_build :
    (BuildArtifact → Result String String)
    → (String → Option String)
    → RunSpec
    → String
    → String
    → String
    → Result String (List (String × String))
unfolding base_env builds_env
prepare_build ensure only_dir spec workspace results node_name =
    builds_env ensure only_dir spec.build (base_env spec workspace results node_name)
