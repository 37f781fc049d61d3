-- ===== src/Config/Catalog.antt =====
-- internal/config/catalog.go and quota.go: the edits of a catalog. Go edits in place; here each edit
-- returns the catalog, and a removal also whether there was anything to remove.
pub mod Pruned
pub mod Edits
use distributed_test_runner.Base.{
  String, Bool, true, false, not, ◌&&◌, ◌==◌, Option, none, some, List, [], ◌∷◌, map, select,
  if◌then◌else◌,
}
use distributed_test_runner.Base.Keyed.{contains, find_by, put_by, remove_by}
use distributed_test_runner.Config.Types.{
  Pool, Node, Group, User, QuotaRule, Catalog, subject_user, subject_group, scope_pool, scope_node,
  node_pools,
}
use distributed_test_runner.Config.Quota.{rule_key}

abbrev pub pool_name : Pool → String
pool_name p = p.name

abbrev pub node_name : Node → String
node_name n = n.name

abbrev pub group_name : Group → String
group_name g = g.name

abbrev pub user_name : User → String
user_name u = u.name

unfoldable pub set_node : Node → Catalog → Catalog
set_node n c = record c { nodes = put_by node_name n c.nodes }

unfoldable pub set_user : User → Catalog → Catalog
set_user u c = record c { users = put_by user_name u c.users }

unfoldable pub set_pool : Pool → Catalog → Catalog
set_pool p c = record c { pools = put_by pool_name p c.pools }

unfoldable pub set_group : Group → Catalog → Catalog
set_group g c = record c { groups = put_by group_name g c.groups }

unfoldable pub set_rule : QuotaRule → Catalog → Catalog
set_rule r c = record c { quotas = put_by rule_key r c.quotas }

-- dropRules, by what it keeps
unfoldable pub keep_rules : (QuotaRule → Bool) → Catalog → Catalog
keep_rules p c = record c { quotas = select p c.quotas }

-- x != item
abbrev pub differs : String → String → Bool
differs item x = not (x == item)

unfoldable pub without : List String → String → List String
without list item = select (differs item) list

abbrev pub names_subject : String → String → QuotaRule → Bool
names_subject kind name r = r.subject == kind && r.name == name

abbrev pub names_target : String → String → QuotaRule → Bool
names_target kind name r = r.scope == kind && r.target == name

abbrev pub not_subject : String → String → QuotaRule → Bool
not_subject kind name r = not (names_subject kind name r)

abbrev pub not_target : String → String → QuotaRule → Bool
not_target kind name r = not (names_target kind name r)

-- The catalogs after a removal that finds its name.
unfoldable pub node_removed : String → Catalog → Catalog
unfolding keep_rules
node_removed name c =
    keep_rules (not_target scope_node name) (record c { nodes = remove_by node_name name c.nodes })

unfoldable pub user_removed : String → Catalog → Catalog
unfolding keep_rules
user_removed name c =
    keep_rules (not_subject subject_user name)
      (record c { users = remove_by user_name name c.users })

abbrev pub unassign : String → Node → Node
unassign name n = if n.pool == name then record n { pool = "" } else n

unfoldable pub drop_span : String → Pool → Pool
unfolding without
drop_span name p = record p { spans = without p.spans name }

unfoldable pub pool_removed : String → Catalog → Catalog
unfolding keep_rules drop_span
pool_removed name c = keep_rules (not_target scope_pool name) (record c {
  pools = map (drop_span name) (remove_by pool_name name c.pools);
  nodes = map (unassign name) c.nodes;
})

unfoldable pub leave_group : String → User → User
unfolding without
leave_group name u = record u { groups = without u.groups name }

unfoldable pub group_removed : String → Catalog → Catalog
unfolding keep_rules leave_group
group_removed name c = keep_rules (not_subject subject_group name) (record c {
  groups = remove_by group_name name c.groups;
  users = map (leave_group name) c.users;
})

abbrev pub when_found {ℓ} : {A : Type ℓ} → Option A → (changed same : Catalog) → Catalog × Bool
when_found none changed same = (same, false)
when_found (some a) changed same = (changed, true)

unfoldable pub remove_node : String → Catalog → Catalog × Bool
unfolding node_removed
remove_node name c = when_found (find_by node_name name c.nodes) (node_removed name c) c

unfoldable pub remove_user : String → Catalog → Catalog × Bool
unfolding user_removed
remove_user name c = when_found (find_by user_name name c.users) (user_removed name c) c

unfoldable pub remove_pool : String → Catalog → Catalog × Bool
unfolding pool_removed
remove_pool name c = when_found (find_by pool_name name c.pools) (pool_removed name c) c

unfoldable pub remove_group : String → Catalog → Catalog × Bool
unfolding group_removed
remove_group name c = when_found (find_by group_name name c.groups) (group_removed name c) c

unfoldable pub remove_rule : String → Catalog → Catalog × Bool
remove_rule key c =
    when_found (find_by rule_key key c.quotas)
      (record c { quotas = remove_by rule_key key c.quotas }) c

-- Catalog.Members
unfoldable pub members : Catalog → String → List String
members c group = map user_name (select (λ u. contains u.groups group) c.users)

-- Catalog.PoolNodes
unfoldable pub pool_nodes : Catalog → String → List String
pool_nodes c name = elim (find_by pool_name name c.pools) [
  | none ↦ []
  | some p ↦ map node_name (select (λ n. contains (node_pools p) n.pool) c.nodes)
]
