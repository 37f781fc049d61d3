-- ===== src/Sched/Ledger/Asked.antt =====
-- Which quota rules block asks (internal/sched/ledger.go), and what it answers by them.
use distributed_test_runner.Base.{
  append-elem, map-elem, select-elem, sym, ap, ◌∙◌, ◌≡◌, ◌↔◌, ◌⊎◌, inl, inr, refl, String, true,
  Option, none, some, List, [], ◌∷◌, map, eq_iff, Elem, select, elem-select, elem-append, elem-map,
  ◌==◌, Bool-cases,
}
use distributed_test_runner.Model.Entities.{Run}
use distributed_test_runner.Config.Types.{
  QuotaRule, Catalog, Scope, everywhere, in_pool, on_node, scope_of,
}
use distributed_test_runner.Config.Quota.{user_groups, user_cap, together_rules}
use distributed_test_runner.Config.Quota.Concerns.{Concerns}
use distributed_test_runner.Config.Quota.Together.{together_rules_iff}
use distributed_test_runner.Sched.Ledger.Meaning.{CountsIn, pools_of_iff}
use distributed_test_runner.Sched.Ledger.{
  NodeLedger, Ledger, cap_rules, other_than, asked_in, asked, scopes, block, pools_of,
}
use distributed_test_runner.Sched.Ledger.Rules.{
  HasRoom, room_of_first_refusal, first_refusal_of_room, elem-asked,
}

-- The scopes that a run would stand in: everywhere, the pools that it counts in and the node, where
-- one is given; without a node, everywhere and the pool that it was submitted to.
abbrev pub LandsIn : Catalog → Run → Option NodeLedger → Scope → Type 0
LandsIn c r none s = (s ≡ everywhere) ⊎ (s ≡ in_pool r.pool)
LandsIn c r (some n) s =
    (s ≡ everywhere)
    ⊎ (s ≡ on_node n.info.name)
    ⊎ ((t : String) × CountsIn c r.pool n.info.name t × (s ≡ in_pool t))

-- The rule governs the user in the scope: the per-user rule that UserCap chooses, or an aggregate rule
-- of the table that concerns the user.
abbrev pub IsAsked : Catalog → String → Scope → QuotaRule → Type 0
IsAsked c user s q =
    (user_cap c user s ≡ some q)
    ⊎ (Elem q c.quotas
        × (q.together ≡ true)
        × (scope_of q ≡ s)
        × Concerns q user (user_groups c user))

cap_rules-elem : (o : Option QuotaRule) (q : QuotaRule) → Elem q (cap_rules o) → o ≡ some q
cap_rules-elem none q m = absurd m
cap_rules-elem (some x) q (inl e) = ap some e
cap_rules-elem (some x) q (inr bad) = absurd bad

asked_in_iff :
    (c : Catalog) (user : String) (s : Scope) (q : QuotaRule)
    → Elem q (asked_in c user s) ↔ IsAsked c user s q
unfolding asked_in
asked_in_iff c user s q =
    let caps = cap_rules (user_cap c user s) in
    (
      (λ m. elim (append-elem q caps (together_rules c user s) m) [
        | inl e ↦ inl (cap_rules-elem (user_cap c user s) q e)
        | inr t ↦ inr ((together_rules_iff c user s q).0 t)
      ]),
      (λ a. elem-append q caps (together_rules c user s) (elim a [
        | inl e ↦ inl (rw e (inl refl))
        | inr t ↦ inr ((together_rules_iff c user s q).1 t)
      ])),
    )

asked-elem :
    (c : Catalog) (user : String) (q : QuotaRule) (ss : List Scope)
    → Elem q (asked c user ss)
    → (s : Scope) × Elem s ss × Elem q (asked_in c user s)
unfolding asked
asked-elem c user q [] m = absurd m
asked-elem c user q (s ∷ ss) m = elim (append-elem q (asked_in c user s) (asked c user ss) m) [
  | inl now ↦ (s, inl refl, now)
  | inr later ↦ let (t, i, k) = asked-elem c user q ss later in (t, inr i, k)
]

module _ (c : Catalog) (r : Run) (n : NodeLedger) where
  abbrev further : List String
  further = select (other_than r.pool) (pools_of c r.pool n.info.name)

  scopes-LandsIn : (s : Scope) → Elem s (scopes c r (some n)) → LandsIn c r (some n) s
  unfolding scopes
  scopes-LandsIn s (inl e) = inl (sym e)
  scopes-LandsIn s (inr (inl e)) = inr (inr (r.pool, inl refl, sym e))
  scopes-LandsIn s (inr (inr m)) =
      elim (append-elem s (map in_pool further) (on_node n.info.name ∷ []) m) [
        | inr (inl e) ↦ inr (inl (sym e))
        | inr (inr bad) ↦ absurd bad
        | inl p ↦
            let (t, i, e) = map-elem s in_pool further p in
            let (known, other) = select-elem (other_than r.pool) t _ i in
            inr (inr (t, (pools_of_iff c r.pool n.info.name t).0 known, sym e))
      ]

  LandsIn-scopes : (s : Scope) → LandsIn c r (some n) s → Elem s (scopes c r (some n))
  unfolding scopes
  LandsIn-scopes s (inl e) = inl (sym e)
  LandsIn-scopes s (inr (inl e)) =
      inr (inr (elem-append s (map in_pool further) (on_node n.info.name ∷ []) (inr (inl (sym e)))))
  LandsIn-scopes s (inr (inr (t, k, e))) = elim (Bool-cases (t == r.pool)) [
    | inl own ↦ inr (inl (ap in_pool (sym ((eq_iff t r.pool).0 own)) ∙ sym e))
    | inr other ↦
        let known = (pools_of_iff c r.pool n.info.name t).1 k in
        let i = elem-select (other_than r.pool) t _ known (rw other refl) in
        inr (
          inr (
            elem-append s (map in_pool further) (on_node n.info.name ∷ [])
              (inl (rw e (elem-map in_pool t further i)))))
  ]

scopes_iff :
    (c : Catalog) (r : Run) (n : Option NodeLedger) (s : Scope)
    → Elem s (scopes c r n) ↔ LandsIn c r n s
unfolding scopes
scopes_iff c r none s = (
  λ m. elim m [ inl e ↦ inl (sym e) | inr (inl e) ↦ inr (sym e) | inr (inr bad) ↦ absurd bad ],
  λ a. elim a [ inl e ↦ inl (sym e) | inr e ↦ inr (inl (sym e)) ],
)
scopes_iff c r (some n) s = (scopes-LandsIn c r n s, LandsIn-scopes c r n s)

-- block answers "" exactly when every rule that governs the user in a scope that the run would stand
-- in still has room for one more run: everywhere, each pool that the run would count in, and the node.
pub block-none_iff :
    (l : Ledger) (r : Run) (n : Option NodeLedger)
    → (block l r n ≡ none) ↔ (
        (s : Scope) (q : QuotaRule)
        → LandsIn l.cat r n s
        → IsAsked l.cat r.user s q
        → HasRoom l r.user q)
unfolding block
block-none_iff l r n = (
  λ h s q lands governs.
      room_of_first_refusal l r.user (asked l.cat r.user (scopes l.cat r n)) q h (
        elem-asked l.cat r.user s q (scopes l.cat r n) ((scopes_iff l.cat r n s).1 lands)
          ((asked_in_iff l.cat r.user s q).1 governs)),
  λ room. first_refusal_of_room l r.user (asked l.cat r.user (scopes l.cat r n)) (λ q m.
      let (s, i, k) = asked-elem l.cat r.user q (scopes l.cat r n) m in
      room s q ((scopes_iff l.cat r n s).0 i) ((asked_in_iff l.cat r.user s q).0 k)),
)
