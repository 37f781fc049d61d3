-- ===== src/Config/Types.antt =====
-- internal/config/config.go and quota.go: the catalog's types.
use distributed_test_runner.Base.{
  String, Bool, true, false, List, [], ◌∷◌, ◌==◌, ◌&&◌, if◌then◌else◌,
}
use distributed_test_runner.Base.Int.{ℤ}
use distributed_test_runner.Model.State.{runtime_process, runtime_container}

-- Default.Image and Default.Command are flattened.
pub record Pool : Type 0 where
  pub name : String
  pub description : String
  pub runtime : String
  pub task_driver : String
  pub default_image : String
  pub default_command : List String
  pub runner_command : List String
  pub docker_network : String
  pub constraints : List (String × String)
  pub runner_url : String
  pub cache_dir : String
  pub host_volume : String
  pub spans : List String

-- `pool` is "" for a node that is assigned to none.
pub record Node : Type 0 where
  pub name : String
  pub pool : String

pub record Group : Type 0 where
  pub name : String
  pub description : String

pub record User : Type 0 where
  pub name : String
  pub display_name : String
  pub email : String
  pub groups : List String

pub record QuotaRule : Type 0 where
  pub subject : String
  pub name : String
  pub together : Bool
  pub scope : String
  pub target : String
  pub max_slots : ℤ
  pub note : String

pub record Catalog : Type 0 where
  pub pools : List Pool
  pub nodes : List Node
  pub groups : List Group
  pub users : List User
  pub quotas : List QuotaRule

pub record Scope : Type 0 where
  pub kind : String
  pub target : String

abbrev pub subject_user : String
subject_user = "user"

abbrev pub subject_group : String
subject_group = "group"

abbrev pub subject_global : String
subject_global = "global"

abbrev pub scope_node : String
scope_node = "node"

abbrev pub scope_pool : String
scope_pool = "pool"

abbrev pub scope_global : String
scope_global = "global"

abbrev pub everywhere : Scope
everywhere = record { kind = scope_global; target = "" }

abbrev pub in_pool : String → Scope
in_pool name = record { kind = scope_pool; target = name }

abbrev pub on_node : String → Scope
on_node name = record { kind = scope_node; target = name }

-- QuotaRule.ScopeOf
abbrev pub scope_of : QuotaRule → Scope
scope_of r = record { kind = r.scope; target = r.target }

-- `==` of two scopes
abbrev pub scope_eq : Scope → Scope → Bool
scope_eq s t = s.kind == t.kind && s.target == t.target

abbrev pub not_empty {ℓ} : {A : Type ℓ} → List A → Bool
not_empty [] = false
not_empty (x ∷ xs) = true

unfoldable pub is_virtual : Pool → Bool
is_virtual p = not_empty p.spans

unfoldable pub node_pools : Pool → List String
unfolding is_virtual
node_pools p = if is_virtual p then p.spans else p.name ∷ []

-- Pool.Driver
unfoldable pub driver : Pool → String
driver p =
    if p.task_driver == ""
    then (if p.runtime == runtime_container then "docker" else "exec")
    else p.task_driver

-- Pool.RunnerCmd
unfoldable pub runner_cmd : Pool → List String
runner_cmd p =
    if not_empty p.runner_command
    then p.runner_command
    else if p.runtime == runtime_process
    then (if p.runner_url == "" then "dtp-runner" ∷ [] else "local/dtp-runner" ∷ [])
    else []
