-- ===== src/Config/Quota/Together.antt =====
-- TogetherRules and Forbidden (internal/config/quota.go) against the rule table's meaning.
use distributed_test_runner.Base.{
  ◌≡◌, ◌↔◌, String, true, some, arith, eq_iff, Elem, select-elem, elem-select,
}
use distributed_test_runner.Base.Int.{pos}
use distributed_test_runner.Config.Types.{QuotaRule, Catalog, Scope, scope_of}
use distributed_test_runner.Config.Quota.{
  user_groups, is_together_rule, user_cap, together_rules, forbidden,
}
use distributed_test_runner.Config.Quota.Concerns.{Concerns, covers_sound, covers_complete}

-- TogetherRules lists exactly the aggregate rules of the table that stand in the scope and concern the
-- user.
pub together_rules_iff :
    (c : Catalog) (user : String) (scope : Scope) (r : QuotaRule)
    → Elem r (together_rules c user scope) ↔ (
        Elem r c.quotas
        × (r.together ≡ true)
        × (scope_of r ≡ scope)
        × Concerns r user (user_groups c user))
unfolding together_rules is_together_rule
together_rules_iff c user scope r = (
  λ m.
      let (e, t) = select-elem (is_together_rule user (user_groups c user) scope) r c.quotas m in
      ground (
        arith,
        eq_iff r.scope scope.kind,
        eq_iff r.target scope.target,
        covers_sound r user (user_groups c user),
      ),
  λ (e, t, s, k). elem-select (is_together_rule user (user_groups c user) scope) r c.quotas e (
      ground (
        arith,
        eq_iff r.scope scope.kind,
        eq_iff r.target scope.target,
        covers_complete r user (user_groups c user),
      )),
)

-- Forbidden answers a rule exactly when that rule governs the user in the scope by UserCap, and allows
-- no slot.
pub forbidden_iff :
    (c : Catalog) (user : String) (scope : Scope) (r : QuotaRule)
    → (forbidden c user scope ≡ some r) ↔ ((user_cap c user scope ≡ some r) × (r.max_slots ≡ pos 0))
unfolding forbidden
forbidden_iff c user scope r = (ground arith, ground arith)
