-- ===== src/Config/Rules/Grounded.antt =====
-- What the validation of users and rules (validateQuotas, internal/config/quota.go) makes sure of.
use distributed_test_runner.Base.{
  ℕ, suc, ◌≡◌, ◌≢◌, String, true, eq_iff, List, [], ◌∷◌, map, arith, All,
}
use distributed_test_runner.Base.Keyed.{contains, find_by}
use distributed_test_runner.Base.Result.{ok, >>=-eq-ok}
use distributed_test_runner.Config.Types.{
  Group, User, QuotaRule, Catalog, subject_user, subject_group, scope_pool, scope_node,
}
use distributed_test_runner.Config.Catalog.{group_name, user_name, node_name}
use distributed_test_runner.Config.Catalog.Edits.{IsKnown, GroupsKnown, IsGrounded}
use distributed_test_runner.Config.Quota.{rule_key}
use distributed_test_runner.Config.Quota.Concerns.{user-ne-group}
use distributed_test_runner.Config.Rules.{
  validate_shape, check_memberships, check_users, check_groups, check_names, check_target,
  check_key, check_rules, validate_quotas,
}

contains_map :
    {A : Type 0} (key : A → String) (k : String) (xs : List A)
    → contains (map key xs) k ≡ true
    → IsKnown key k xs
unfolding contains find_by
contains_map key k [] h e = cc
contains_map key k (x ∷ xs) h e = ground (arith, eq_iff (key x) k, contains_map key k xs)

memberships_known :
    (groups : List Group) (user : String) (seen gs : List String)
    → check_memberships (map group_name groups) user seen gs ≡ ok tt
    → All (λ g. IsKnown group_name g groups) gs
unfolding check_memberships
memberships_known groups user seen [] h = tt
memberships_known groups user seen (g ∷ gs) h = (
  contains_map group_name g groups (ground arith),
  memberships_known groups user (g ∷ seen) gs (ground arith),
)

users_known :
    (groups : List Group) (i : ℕ) (seen : List String) (us : List User)
    → check_users (map group_name groups) i seen us ≡ ok tt
    → All (GroupsKnown groups) us
unfolding check_users
users_known groups i seen [] h = tt
users_known groups i seen (u ∷ us) h =
    let (v, first, rest) =
      >>=-eq-ok (check_memberships (map group_name groups) u.name [] u.groups)
        (λ _. check_users (map group_name groups) (suc i) (u.name ∷ seen) us) (ground arith) in
    (
      memberships_known groups u.name [] u.groups first,
      users_known groups (suc i) (u.name ∷ seen) us rest,
    )

node-ne-pool : scope_node ≢ scope_pool
node-ne-pool e = cc ((eq_iff scope_node scope_pool).1 e)

rule-IsGrounded :
    (c : Catalog) (r : QuotaRule)
    → check_names c r ≡ ok tt
    → check_target c r ≡ ok tt
    → IsGrounded c r
unfolding check_names check_target
rule-IsGrounded c r h k = record {
  user = λ e. contains_map user_name r.name c.users (ground (arith, eq_iff r.subject subject_user));
  group = λ e. contains_map group_name r.name c.groups (
      ground (arith, eq_iff r.subject subject_user, eq_iff r.subject subject_group, user-ne-group));
  pool = λ e n. ground (arith, eq_iff r.scope scope_pool);
  node = λ e.
      contains_map node_name r.target c.nodes
        (ground (arith, eq_iff r.scope scope_node, eq_iff r.scope scope_pool, node-ne-pool));
}

rules-IsGrounded :
    (c : Catalog) (seen : List String) (rs : List QuotaRule)
    → check_rules c seen rs ≡ ok tt
    → All (IsGrounded c) rs
unfolding check_rules
rules-IsGrounded c seen [] h = tt
rules-IsGrounded c seen (r ∷ rs) h =
    let (a, shape, h1) = >>=-eq-ok (validate_shape r) _ h in
    let (b, names, h2) = >>=-eq-ok (check_names c r) _ h1 in
    let (d, target, h3) = >>=-eq-ok (check_target c r) _ h2 in
    let (e, key, h4) = >>=-eq-ok (check_key seen r) _ h3 in
    (rule-IsGrounded c r names target, rules-IsGrounded c (rule_key r ∷ seen) rs h4)

-- In a catalog that validateQuotas lets pass, each user's groups are groups of the catalog, and each
-- rule names a user, group, pool or node of it.
pub validate_quotas-IsGrounded :
    (c : Catalog)
    → validate_quotas c ≡ ok tt
    → All (GroupsKnown c.groups) c.users × All (IsGrounded c) c.quotas
unfolding validate_quotas
validate_quotas-IsGrounded c h =
    let (a, groups, h1) = >>=-eq-ok (check_groups 0 [] c.groups) _ h in
    let (b, users, rules) = >>=-eq-ok (check_users (map group_name c.groups) 0 [] c.users) _ h1 in
    (users_known c.groups 0 [] c.users users, rules-IsGrounded c [] c.quotas rules)
