-- ===== src/Config/Rules.antt =====
-- internal/config/quota.go: the validation of groups, users and rules (validateShape, validateQuotas).
pub mod Grounded
use distributed_test_runner.Base.{
  ℕ, suc, String, Bool, true, false, not, ◌&&◌, ◌||◌, ◌==◌, Option, none, some, List, [], ◌∷◌,
  if◌then◌else◌, map,
}
use distributed_test_runner.Base.Int.{ℤ, pos, negsuc}
use distributed_test_runner.Base.Keyed.{contains, find_by}
use distributed_test_runner.Base.Result.{Result, ok, err, ◌>>=◌}
use distributed_test_runner.Config.Types.{
  Pool, Node, Group, User, QuotaRule, Catalog, subject_user, subject_group, subject_global,
  scope_pool, scope_node, scope_global,
}
use distributed_test_runner.Config.Quota.{rule_key}
use distributed_test_runner.Config.Catalog.{pool_name, group_name, user_name, node_name}

pub data RuleError : Type 0 where
  needs_name : (subject : String) → RuleError
  global_named : (name : String) → RuleError
  unknown_subject : (subject : String) → RuleError
  user_together : (name : String) → RuleError
  needs_target : (key scope : String) → RuleError
  global_target : (key target : String) → RuleError
  unknown_scope : (key scope : String) → RuleError
  negative : (key : String) → RuleError
  unnamed_group : (index : ℕ) → RuleError
  duplicate_group : (group : String) → RuleError
  unnamed_user : (index : ℕ) → RuleError
  duplicate_user : (user : String) → RuleError
  in_unknown_group : (user group : String) → RuleError
  in_group_twice : (user group : String) → RuleError
  names_unknown : (key name : String) → RuleError
  targets_unknown : (key target : String) → RuleError
  duplicate_rule : (key : String) → RuleError

-- The switch on the subject, and the check of "together".
unfoldable pub check_subject : QuotaRule → Result RuleError Unit
check_subject r =
    if r.subject == subject_user || r.subject == subject_group
    then (if r.name == ""
        then err (needs_name r.subject)
        else if r.subject == subject_user && r.together
        then err (user_together r.name)
        else ok tt)
    else if r.subject == subject_global
    then (if r.name == "" then ok tt else err (global_named r.name))
    else err (unknown_subject r.subject)

unfoldable pub check_scope : QuotaRule → Result RuleError Unit
check_scope r =
    if r.scope == scope_node || r.scope == scope_pool
    then (if r.target == "" then err (needs_target (rule_key r) r.scope) else ok tt)
    else if r.scope == scope_global
    then (if r.target == "" then ok tt else err (global_target (rule_key r) r.target))
    else err (unknown_scope (rule_key r) r.scope)

abbrev check_limit : QuotaRule → ℤ → Result RuleError Unit
check_limit r (pos n) = ok tt
check_limit r (negsuc n) = err (negative (rule_key r))

-- QuotaRule.validateShape
unfoldable pub validate_shape : QuotaRule → Result RuleError Unit
unfolding check_subject check_scope
validate_shape r = check_subject r >>= λ _. check_scope r >>= λ _. check_limit r r.max_slots

unfoldable pub check_groups : ℕ → (seen : List String) → List Group → Result RuleError Unit
check_groups i seen [] = ok tt
check_groups i seen (g ∷ gs) =
    let rest = check_groups (suc i) (g.name ∷ seen) gs in
    if g.name == ""
    then err (unnamed_group i)
    else if contains seen g.name
    then err (duplicate_group g.name)
    else rest

-- The groups of one user, against the names of all groups.
unfoldable pub check_memberships :
    (groups : List String) → String → (seen : List String) → List String → Result RuleError Unit
check_memberships groups user seen [] = ok tt
check_memberships groups user seen (g ∷ gs) =
    let rest = check_memberships groups user (g ∷ seen) gs in
    if not (contains groups g)
    then err (in_unknown_group user g)
    else if contains seen g
    then err (in_group_twice user g)
    else rest

unfoldable pub check_users :
    (groups : List String) → ℕ → (seen : List String) → List User → Result RuleError Unit
unfolding check_memberships
check_users groups i seen [] = ok tt
check_users groups i seen (u ∷ us) =
    let rest = check_memberships groups u.name [] u.groups >>= λ _.
    check_users groups (suc i) (u.name ∷ seen) us in
    if u.name == ""
    then err (unnamed_user i)
    else if contains seen u.name
    then err (duplicate_user u.name)
    else rest

-- The two switches on what a rule names.
unfoldable pub check_names : Catalog → QuotaRule → Result RuleError Unit
check_names c r =
    if r.subject == subject_user
    then (if contains (map user_name c.users) r.name
        then ok tt
        else err (names_unknown (rule_key r) r.name))
    else if r.subject == subject_group
    then (if contains (map group_name c.groups) r.name
        then ok tt
        else err (names_unknown (rule_key r) r.name))
    else ok tt

unfoldable pub check_target : Catalog → QuotaRule → Result RuleError Unit
check_target c r =
    if r.scope == scope_pool
    then elim (find_by pool_name r.target c.pools) [
      | none ↦ err (targets_unknown (rule_key r) r.target)
      | some p ↦ ok tt
    ]
    else if r.scope == scope_node
    then (if contains (map node_name c.nodes) r.target
        then ok tt
        else err (targets_unknown (rule_key r) r.target))
    else ok tt

abbrev pub check_key : (seen : List String) → QuotaRule → Result RuleError Unit
check_key seen r = if contains seen (rule_key r) then err (duplicate_rule (rule_key r)) else ok tt

unfoldable pub check_rules : Catalog → (seen : List String) → List QuotaRule → Result RuleError Unit
unfolding validate_shape check_names check_target
check_rules c seen [] = ok tt
check_rules c seen (r ∷ rs) = validate_shape r >>= λ _. check_names c r >>= λ _.
    check_target c r >>= λ _. check_key seen r >>= λ _. check_rules c (rule_key r ∷ seen) rs

-- Catalog.validateQuotas
unfoldable pub validate_quotas : Catalog → Result RuleError Unit
unfolding check_groups check_users check_rules
validate_quotas c = check_groups 0 [] c.groups >>= λ _.
    check_users (map group_name c.groups) 0 [] c.users >>= λ _. check_rules c [] c.quotas
