-- ===== src/Config/Catalog/Edits.antt =====
-- The references between the parts of a catalog, and its edits (internal/config/catalog.go, quota.go).
use mathlib.Core.Option
use distributed_test_runner.Base.{
  ◌≡◌, ◌≢◌, ◌⊎◌, inl, inr, refl, String, ◌==◌, eq_iff, Option, none, some, List, map, arith, All,
  Bool-cases,
}
use distributed_test_runner.Base.Keyed.{find_by, remove_by, find_by-remove_by_ne}
use distributed_test_runner.Config.Types.{
  Pool, Node, Group, User, QuotaRule, Catalog, subject_user, subject_group, scope_pool, scope_node,
}
use distributed_test_runner.Config.Catalog.{
  pool_name, node_name, group_name, user_name, keep_rules, differs, without, not_subject,
  not_target, node_removed, user_removed, unassign, drop_span, pool_removed, leave_group,
  group_removed, when_found, remove_node, remove_user, remove_pool, remove_group,
}
use distributed_test_runner.Config.Catalog.Pruned.{All-select, All-map, All-remove_by, find_by-map}

abbrev pub IsKnown : {A : Type 0} → (A → String) → String → List A → Type 0
IsKnown key k xs = find_by key k xs ≢ none

abbrev pub IsAssigned : List Pool → Node → Type 0
IsAssigned pools n = (n.pool ≡ "") ⊎ IsKnown pool_name n.pool pools

abbrev pub SpansKnown : List Pool → Pool → Type 0
SpansKnown pools p = All (λ s. IsKnown pool_name s pools) p.spans

abbrev pub GroupsKnown : List Group → User → Type 0
GroupsKnown groups u = All (λ g. IsKnown group_name g groups) u.groups

-- What a rule names is in the catalog.
pub record IsGrounded (c : Catalog) (r : QuotaRule) : Type 0 where
  pub user : r.subject ≡ subject_user → IsKnown user_name r.name c.users
  pub group : r.subject ≡ subject_group → IsKnown group_name r.name c.groups
  pub pool : r.scope ≡ scope_pool → IsKnown pool_name r.target c.pools
  pub node : r.scope ≡ scope_node → IsKnown node_name r.target c.nodes

-- Every name that a part of the catalog uses for another part is in the catalog.
pub record IsClosed (c : Catalog) : Type 0 where
  pub nodes : All (IsAssigned c.pools) c.nodes
  pub spans : All (SpansKnown c.pools) c.pools
  pub groups : All (GroupsKnown c.groups) c.users
  pub rules : All (IsGrounded c) c.quotas

IsKnown-remove_by :
    {A : Type 0} (key : A → String) (k j : String) (xs : List A)
    → k ≢ j
    → IsKnown key j xs
    → IsKnown key j (remove_by key k xs)
IsKnown-remove_by key k j xs ne known = rw (find_by-remove_by_ne key k j xs ne) known

pub IsKnown-map :
    {A : Type 0} (key : A → String) (f : A → A) (k : String) (xs : List A)
    → ((x : A) → key (f x) ≡ key x)
    → IsKnown key k xs
    → IsKnown key k (map f xs)
IsKnown-map key f k xs same known e =
    known (map-none (find_by key k xs) f (rw (find_by-map key f k xs same) at e))
  where
    map-none : {A : Type 0} (o : Option A) (f : A → A) → Option.map f o ≡ none → o ≡ none
    map-none none f h = refl
    map-none (some a) f h = cc

node_removed-IsClosed : (name : String) (c : Catalog) → IsClosed c → IsClosed (node_removed name c)
unfolding node_removed keep_rules
node_removed-IsClosed name c w = record {
  nodes = All-remove_by (IsAssigned c.pools) node_name name c.nodes w.nodes;
  spans = w.spans;
  groups = w.groups;
  rules =
      All-select (IsGrounded c) _ (not_target scope_node name) c.quotas
        (λ r g kept. record {
          user = g.user;
          group = g.group;
          pool = g.pool;
          node = λ e.
              IsKnown-remove_by node_name name r.target c.nodes
                (ground (arith, eq_iff r.scope scope_node, eq_iff r.target name)) (g.node e);
        })
        w.rules;
}

user_removed-IsClosed : (name : String) (c : Catalog) → IsClosed c → IsClosed (user_removed name c)
unfolding user_removed keep_rules
user_removed-IsClosed name c w = record {
  nodes = w.nodes;
  spans = w.spans;
  groups = All-remove_by (GroupsKnown c.groups) user_name name c.users w.groups;
  rules =
      All-select (IsGrounded c) _ (not_subject subject_user name) c.quotas
        (λ r g kept. record {
          user = λ e.
              IsKnown-remove_by user_name name r.name c.users
                (ground (arith, eq_iff r.subject subject_user, eq_iff r.name name)) (g.user e);
          group = g.group;
          pool = g.pool;
          node = g.node;
        })
        w.rules;
}

without-Known :
    {A : Type 0} (key : A → String) (name : String) (xs : List A) (names : List String)
    → All (λ s. IsKnown key s xs) names
    → All (λ s. IsKnown key s (remove_by key name xs)) (without names name)
unfolding without
without-Known key name xs names known =
    All-select (λ s. IsKnown key s xs) _ (differs name) names
      (λ s k kept. IsKnown-remove_by key name s xs (ground (arith, eq_iff s name)) k) known

group_removed-IsClosed :
    (name : String) (c : Catalog) → IsClosed c → IsClosed (group_removed name c)
unfolding group_removed keep_rules leave_group
group_removed-IsClosed name c w = record {
  nodes = w.nodes;
  spans = w.spans;
  groups =
      All-map (GroupsKnown c.groups) _ (leave_group name) c.users
        (λ u k. without-Known group_name name c.groups u.groups k) w.groups;
  rules =
      All-select (IsGrounded c) _ (not_subject subject_group name) c.quotas
        (λ r g kept. record {
          user =
              λ e. IsKnown-map user_name (leave_group name) r.name c.users (λ u. refl) (g.user e);
          group = λ e.
              IsKnown-remove_by group_name name r.name c.groups
                (ground (arith, eq_iff r.subject subject_group, eq_iff r.name name)) (g.group e);
          pool = g.pool;
          node = g.node;
        })
        w.rules;
}

-- The pools that are left when one is removed.
abbrev left : String → Catalog → List Pool
left name c = map (drop_span name) (remove_by pool_name name c.pools)

IsKnown-left :
    (name k : String) (c : Catalog)
    → name ≢ k
    → IsKnown pool_name k c.pools
    → IsKnown pool_name k (left name c)
unfolding drop_span
IsKnown-left name k c ne known =
    IsKnown-map pool_name (drop_span name) k (remove_by pool_name name c.pools) (λ p. refl)
      (IsKnown-remove_by pool_name name k c.pools ne known)

unassign-IsAssigned :
    (name : String) (c : Catalog) (n : Node)
    → IsAssigned c.pools n
    → IsAssigned (left name c) (unassign name n)
unassign-IsAssigned name c n h = elim (Bool-cases (n.pool == name)) [
  | inl is ↦ rw is (inl refl)
  | inr isnt ↦ rw isnt (elim h [
    | inl free ↦ inl free
    | inr known ↦ inr (IsKnown-left name n.pool c (ground (arith, eq_iff n.pool name)) known)
  ])
]

drop_span-SpansKnown :
    (name : String) (c : Catalog) (p : Pool)
    → SpansKnown c.pools p
    → SpansKnown (left name c) (drop_span name p)
unfolding drop_span without
drop_span-SpansKnown name c p known =
    All-select (λ s. IsKnown pool_name s c.pools) _ (differs name) p.spans
      (λ s k kept. IsKnown-left name s c (ground (arith, eq_iff s name)) k) known

pool_removed-IsClosed : (name : String) (c : Catalog) → IsClosed c → IsClosed (pool_removed name c)
unfolding pool_removed keep_rules
pool_removed-IsClosed name c w = record {
  nodes =
      All-map (IsAssigned c.pools) _ (unassign name) c.nodes (unassign-IsAssigned name c) w.nodes;
  spans =
      All-map (SpansKnown c.pools) _ (drop_span name) (remove_by pool_name name c.pools)
        (drop_span-SpansKnown name c)
        (All-remove_by (SpansKnown c.pools) pool_name name c.pools w.spans);
  groups = w.groups;
  rules =
      All-select (IsGrounded c) _ (not_target scope_pool name) c.quotas
        (λ r g kept. record {
          user = g.user;
          group = g.group;
          pool = λ e.
              IsKnown-left name r.target c
                (ground (arith, eq_iff r.scope scope_pool, eq_iff r.target name)) (g.pool e);
          node = λ e.
              IsKnown-map node_name (unassign name) r.target c.nodes (λ n. ground arith) (g.node e);
        })
        w.rules;
}

-- Removing a node, a user, a pool or a group, whether it is there or not, keeps a catalog closed: no
-- node is left assigned to a missing pool, no pool spanning one, no user in a missing group, and no rule
-- names what is gone.
pub removals-IsClosed :
    (name : String) (c : Catalog)
    → IsClosed c
    → IsClosed (remove_node name c).0
      × IsClosed (remove_user name c).0
      × IsClosed (remove_pool name c).0
      × IsClosed (remove_group name c).0
unfolding remove_node remove_user remove_pool remove_group
removals-IsClosed name c w = (
  if_found (find_by node_name name c.nodes) (node_removed-IsClosed name c w),
  if_found (find_by user_name name c.users) (user_removed-IsClosed name c w),
  if_found (find_by pool_name name c.pools) (pool_removed-IsClosed name c w),
  if_found (find_by group_name name c.groups) (group_removed-IsClosed name c w),
)
  where
    if_found :
        {A : Type 0} {after : Catalog} (o : Option A)
        → IsClosed after
        → IsClosed (when_found o after c).0
    if_found none h = w
    if_found (some a) h = h
