-- ===== src/Config/Live.antt =====
-- internal/config/catalog.go: Catalog.Normalize, which makes the live catalog of the one authored.
pub mod Closed
use distributed_test_runner.Base.{
  ℕ, suc, String, Bool, true, false, not, ◌&&◌, ◌||◌, ◌==◌, Option, none, some, List, [], ◌∷◌,
  if◌then◌else◌, map, nat_eq, ltb,
}
use distributed_test_runner.Base.Keyed.{contains, find_by}
use distributed_test_runner.Base.Text.{text_less}
use distributed_test_runner.Base.Sort.{sort}
use distributed_test_runner.Base.Result.{Result, ok, err, ◌>>=◌}
use distributed_test_runner.Model.State.{valid}
use distributed_test_runner.Config.Types.{
  Pool, Node, Group, User, QuotaRule, Catalog, subject_user, subject_group, subject_global,
  scope_pool, scope_node, scope_global, is_virtual, driver,
}
use distributed_test_runner.Config.Catalog.{pool_name, group_name, user_name, node_name}
use distributed_test_runner.Config.Rules.{RuleError, validate_quotas}

pub data CatalogError : Type 0 where
  unnamed_pool : (index : ℕ) → CatalogError
  duplicate_pool : (pool : String) → CatalogError
  spans_unknown : (pool member : String) → CatalogError
  spans_virtual : (pool member : String) → CatalogError
  spans_twice : (pool member : String) → CatalogError
  no_runtime : (pool : String) → CatalogError
  unnamed_node : (index : ℕ) → CatalogError
  duplicate_node : (node : String) → CatalogError
  in_unknown_pool : (node pool : String) → CatalogError
  in_virtual_pool : (node pool : String) → CatalogError
  other_runtime : (pool member : String) → CatalogError
  other_driver : (pool member : String) → CatalogError
  bad_rules : RuleError → CatalogError

-- rank, in a list of kinds
unfoldable pub rank : String → List String → ℕ
rank kind [] = 0
rank kind (k ∷ ks) = let later = rank kind ks in if k == kind then 0 else suc later

abbrev scope_rank : QuotaRule → ℕ
scope_rank r = rank r.scope (scope_global ∷ scope_pool ∷ scope_node ∷ [])

abbrev subject_rank : QuotaRule → ℕ
subject_rank r = rank r.subject (subject_global ∷ subject_group ∷ subject_user ∷ [])

-- The order of sortRules.
unfoldable pub rule_before : QuotaRule → QuotaRule → Bool
unfolding rank
rule_before a b =
    if not (nat_eq (scope_rank a) (scope_rank b))
    then ltb (scope_rank a) (scope_rank b)
    else if not (a.target == b.target)
    then text_less a.target b.target
    else if not (nat_eq (subject_rank a) (subject_rank b))
    then ltb (subject_rank a) (subject_rank b)
    else if not (a.name == b.name)
    then text_less a.name b.name
    else not a.together && b.together

abbrev sort_groups : User → User
sort_groups u = record u { groups = sort text_less u.groups }

-- Clone: the canonical order. Users, groups or nodes of one name stand in no fixed order.
unfoldable pub clone : Catalog → Catalog
unfolding rule_before
clone c = record {
  pools = c.pools;
  nodes = sort (λ a b. text_less a.name b.name) c.nodes;
  groups = sort (λ a b. text_less a.name b.name) c.groups;
  users = map sort_groups (sort (λ a b. text_less a.name b.name) c.users);
  quotas = sort rule_before c.quotas;
}

unfoldable pub check_pool_names : ℕ → (seen : List String) → List Pool → Result CatalogError Unit
check_pool_names i seen [] = ok tt
check_pool_names i seen (p ∷ ps) =
    let rest = check_pool_names (suc i) (p.name ∷ seen) ps in
    if p.name == ""
    then err (unnamed_pool i)
    else if contains seen p.name
    then err (duplicate_pool p.name)
    else rest

-- Catalog.checkSpans, from the members `spans` on; `seen` are those before.
unfoldable pub check_spans :
    List Pool → String → (seen : List String) → List String → Result CatalogError Unit
check_spans pools name seen [] = ok tt
check_spans pools name seen (s ∷ spans) =
    let rest = check_spans pools name (s ∷ seen) spans in
    elim (find_by pool_name s pools) [
      | none ↦ err (spans_unknown name s)
      | some m ↦
          if is_virtual m
          then err (spans_virtual name s)
          else if contains seen s
          then err (spans_twice name s)
          else rest
    ]

abbrev text_or : String → String → String
text_or a b = if a == "" then b else a

abbrev list_or : List String → List String → List String
list_or [] d = d
list_or (x ∷ xs) d = x ∷ xs

-- Pool.inherit
unfoldable pub inherit : Pool → Pool → Pool
inherit m p = record p {
  runtime = text_or p.runtime m.runtime;
  task_driver = text_or p.task_driver m.task_driver;
  default_image = text_or p.default_image m.default_image;
  default_command = list_or p.default_command m.default_command;
  runner_command = list_or p.runner_command m.runner_command;
  docker_network = text_or p.docker_network m.docker_network;
  runner_url = text_or p.runner_url m.runner_url;
  cache_dir = text_or p.cache_dir m.cache_dir;
  host_volume = text_or p.host_volume m.host_volume;
}

-- The first member of a virtual pool. Members are concrete, and concrete pools do not inherit, so the
-- members are those of the authored catalog.
unfoldable pub inherited : List Pool → Pool → List String → Pool
unfolding inherit
inherited pools p [] = p
inherited pools p (s ∷ spans) = elim (find_by pool_name s pools) [ none ↦ p | some m ↦ inherit m p ]

-- A round of the second and of the third loop: inheritance, the runtime, and the default of CacheDir.
unfoldable pub check_all_spans : List Pool → List Pool → Result CatalogError Unit
unfolding check_spans
check_all_spans pools [] = ok tt
check_all_spans pools (p ∷ ps) =
    check_spans pools p.name [] p.spans >>= λ _. check_all_spans pools ps

unfoldable pub with_cache_dir : Pool → Pool
with_cache_dir p = if p.cache_dir == "" then record p { cache_dir = "/var/lib/dtp/cache" } else p

unfoldable pub live_pool : List Pool → Pool → Pool
unfolding inherited with_cache_dir
live_pool pools p = with_cache_dir (inherited pools p p.spans)

unfoldable pub check_runtimes : List Pool → Result CatalogError Unit
check_runtimes [] = ok tt
check_runtimes (p ∷ ps) =
    let rest = check_runtimes ps in if valid p.runtime then rest else err (no_runtime p.name)

unfoldable pub check_assignment : List Pool → Node → Result CatalogError Unit
check_assignment pools n = if n.pool == "" then ok tt else elim (find_by pool_name n.pool pools) [
  | none ↦ err (in_unknown_pool n.name n.pool)
  | some p ↦ if is_virtual p then err (in_virtual_pool n.name n.pool) else ok tt
]

unfoldable pub check_nodes :
    List Pool → ℕ → (seen : List String) → List Node → Result CatalogError Unit
unfolding check_assignment
check_nodes pools i seen [] = ok tt
check_nodes pools i seen (n ∷ ns) =
    let rest = check_assignment pools n >>= λ _. check_nodes pools (suc i) (n.name ∷ seen) ns in
    if n.name == ""
    then err (unnamed_node i)
    else if contains seen n.name
    then err (duplicate_node n.name)
    else rest

-- Catalog.checkMembersAgree
unfoldable pub members_agree : List Pool → Pool → List String → Result CatalogError Unit
members_agree pools p [] = ok tt
members_agree pools p (s ∷ spans) =
    let rest = members_agree pools p spans in
    elim (find_by pool_name s pools) [
      | none ↦ rest
      | some m ↦
          if not (m.runtime == p.runtime)
          then err (other_runtime p.name m.name)
          else if not (driver m == driver p)
          then err (other_driver p.name m.name)
          else rest
    ]

unfoldable pub all_agree : List Pool → List Pool → Result CatalogError Unit
unfolding members_agree
all_agree pools [] = ok tt
all_agree pools (p ∷ ps) = members_agree pools p p.spans >>= λ _. all_agree pools ps

abbrev pub quota_result : Result RuleError Unit → Result CatalogError Unit
quota_result (ok u) = ok u
quota_result (err e) = err (bad_rules e)

abbrev pub with_live_pools : Catalog → Catalog
with_live_pools c = record c { pools = map (live_pool c.pools) c.pools }

-- The checks after the pools are filled in.
unfoldable pub check_live : Catalog → Result CatalogError Catalog
unfolding check_runtimes check_nodes all_agree
check_live n = check_runtimes n.pools >>= λ _. check_nodes n.pools 0 [] n.nodes >>= λ _.
    all_agree n.pools n.pools >>= λ _. quota_result (validate_quotas n) >>= λ _. ok n

unfoldable pub live_catalog : Catalog → Result CatalogError Catalog
unfolding check_pool_names check_all_spans live_pool check_live clone
live_catalog c =
    let n = clone c in
    check_pool_names 0 [] n.pools >>= λ _.
    check_all_spans n.pools n.pools >>= λ _. check_live (with_live_pools n)
