-- ===== src/Config/Quota.antt =====
-- internal/config/quota.go: how the quota rules of a user and a scope are resolved.
pub mod Concerns
pub mod Cap
pub mod Together
use mathlib.Core.List.{foldl}
use distributed_test_runner.Base.{
  ℕ, suc, ◌≡◌, String, Bool, true, false, not, ◌&&◌, ◌||◌, ◌==◌, Option, none, some, List, [], ◌∷◌,
  if◌then◌else◌, nat_eq, select,
}
use distributed_test_runner.Base.Int.{ℤ, pos, negsuc, ltb_ℤ}
use distributed_test_runner.Base.Keyed.{contains, find_by}
use distributed_test_runner.Base.Dict.{or_else}
use distributed_test_runner.Base.Text.{concat, decimal_int}
use distributed_test_runner.Config.Types.{
  User, QuotaRule, Catalog, Scope, subject_user, subject_group, subject_global, scope_of, scope_eq,
  scope_pool, scope_node,
}

-- Scope.String
unfoldable pub scope_text : Scope → String
scope_text s =
    if s.kind == scope_pool
    then concat ("in pool " ∷ s.target ∷ [])
    else if s.kind == scope_node
    then concat ("on node " ∷ s.target ∷ [])
    else "anywhere"

-- QuotaRule.Key: subject[:name][/together]@scope[:target]
unfoldable pub rule_key : QuotaRule → String
rule_key r = concat (
    r.subject
    ∷ (if r.name == "" then "" else concat (":" ∷ r.name ∷ []))
    ∷ (if r.together then "/together" else "")
    ∷ "@"
    ∷ r.scope
    ∷ (if r.target == "" then "" else concat (":" ∷ r.target ∷ []))
    ∷ [])

-- QuotaRule.Describe
unfoldable pub describe : QuotaRule → String
unfolding scope_text
describe r = concat (who ∷ " " ∷ scope_text (scope_of r) ∷ [])
  where
    who : String
    who =
        if r.subject == subject_user
        then r.name
        else if r.subject == subject_group
        then (if r.together
            then concat (r.name ∷ " together" ∷ [])
            else concat ("each member of " ∷ r.name ∷ []))
        else if r.together
        then "everyone together"
        else "each user"

unfoldable pub covers : QuotaRule → String → List String → Bool
covers r user groups =
    if r.subject == subject_user
    then r.name == user
    else if r.subject == subject_group
    then contains groups r.name
    else true

unfoldable pub user_groups : Catalog → String → List String
user_groups c user = elim (find_by (λ (u : User). u.name) user c.users) [
  | none ↦ []
  | some u ↦ u.groups
]

-- The three candidates that the loop of UserCap keeps.
pub record Caps : Type 0 where
  pub own : Option QuotaRule
  pub best : Option QuotaRule
  pub global : Option QuotaRule

-- The rule of a group is taken if it is the first one or allows more.
abbrev pub better : Option QuotaRule → QuotaRule → Option QuotaRule
better none r = some r
better (some b) r = if ltb_ℤ b.max_slots r.max_slots then some r else some b

module _ (user : String) (groups : List String) (scope : Scope) where
  -- The rules that the loop of UserCap does not skip.
  unfoldable pub caps_user : QuotaRule → Bool
  caps_user r = not r.together && (scope_eq (scope_of r) scope && covers r user groups)

  unfoldable pub cap_step : Caps → QuotaRule → Caps
  cap_step s r =
      if not (caps_user r)
      then s
      else if r.subject == subject_user
      then record s { own = some r }
      else if r.subject == subject_group
      then record s { best = better s.best r }
      else record s { global = some r }

  unfoldable pub is_together_rule : QuotaRule → Bool
  is_together_rule r = r.together && (scope_eq (scope_of r) scope && covers r user groups)

-- UserCap: `quotas` and `groups` are the catalog's rules and the user's groups.
unfoldable pub cap_of : String → List String → Scope → List QuotaRule → Option QuotaRule
unfolding cap_step
cap_of user groups scope quotas =
    let s =
      foldl (cap_step user groups scope) (record { own = none; best = none; global = none })
        quotas in
    or_else s.own (or_else s.best s.global)

unfoldable pub user_cap : Catalog → String → Scope → Option QuotaRule
unfolding cap_of user_groups
user_cap c user scope = cap_of user (user_groups c user) scope c.quotas

unfoldable pub together_rules : Catalog → String → Scope → List QuotaRule
unfolding is_together_rule user_groups
together_rules c user scope = select (is_together_rule user (user_groups c user) scope) c.quotas

abbrev pub is_zero : ℤ → Bool
is_zero (pos n) = nat_eq n 0
is_zero (negsuc n) = false

abbrev pub zero_rule : Option QuotaRule → Option QuotaRule
zero_rule none = none
zero_rule (some r) = if is_zero r.max_slots then some r else none

unfoldable pub forbidden : Catalog → String → Scope → Option QuotaRule
unfolding user_cap
forbidden c user scope = zero_rule (user_cap c user scope)
