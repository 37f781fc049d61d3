-- ===== src/Sched/Ledger/Rules.antt =====
-- The quota rules against the ledger (count and block, internal/sched/ledger.go): what block answers,
-- and that a run that it lets through takes no rule past its limit.
use distributed_test_runner.Base.{
  suc, ◌+◌, ◌≡◌, ◌≢◌, ◌↔◌, ◌⊎◌, inl, inr, refl, String, true, false, none, some, List, [], ◌∷◌, map,
  arith, eq_iff, Elem, select, elem-select, elem-append, elem-map, length-select-append_one, ◌==◌,
  Bool-cases, if◌then◌else◌,
}
use distributed_test_runner.Base.Int.{pos, ◌≤ℤ◌}
use distributed_test_runner.Base.Keyed.{contains→elem}
use distributed_test_runner.Model.Entities.{Run}
use distributed_test_runner.Config.Types.{
  QuotaRule, Catalog, Scope, subject_user, scope_pool, scope_node, scope_global, in_pool, on_node,
  scope_of,
}
use distributed_test_runner.Config.Quota.{user_groups, user_cap, together_rules}
use distributed_test_runner.Config.Quota.Together.{together_rules_iff}
use distributed_test_runner.Sched.Ledger.{
  NodeLedger, Ledger, flight_of, charge, sees_scope, sees_subject, counts, count, cap_rules,
  other_than, refuses, first_refusal, asked_in, asked, scopes, block, pools_of,
}

-- One more run that the rule counts still respects it.
abbrev pub HasRoom : Ledger → String → QuotaRule → Type 0
HasRoom l user q = pos (suc (count l q user)) ≤ℤ q.max_slots

-- The rule is respected.
abbrev pub IsWithin : Ledger → String → QuotaRule → Type 0
IsWithin l user q = pos (count l q user) ≤ℤ q.max_slots

refuses-none_iff :
    (l : Ledger) (user : String) (q : QuotaRule) → (refuses l user q ≡ none) ↔ HasRoom l user q
unfolding refuses
refuses-none_iff l user q = (ground arith, ground arith)

module _ (l : Ledger) (user : String) where
  pub room_of_first_refusal :
      (qs : List QuotaRule) (q : QuotaRule)
      → first_refusal l user qs ≡ none
      → Elem q qs
      → HasRoom l user q
  unfolding first_refusal
  room_of_first_refusal [] q h m = absurd m
  room_of_first_refusal (x ∷ qs) q h m =
      ground (arith, (refuses-none_iff l user x).0, room_of_first_refusal qs q)

  pub first_refusal_of_room :
      (qs : List QuotaRule)
      → ((q : QuotaRule) → Elem q qs → HasRoom l user q)
      → first_refusal l user qs ≡ none
  unfolding first_refusal
  first_refusal_of_room [] h = refl
  first_refusal_of_room (x ∷ qs) h = ground (
    arith,
    (refuses-none_iff l user x).1 (h x (inl refl)),
    first_refusal_of_room qs (λ q m. h q (inr m)),
  )

pub elem-asked :
    (c : Catalog) (user : String) (s : Scope) (q : QuotaRule) (ss : List Scope)
    → Elem s ss
    → Elem q (asked_in c user s)
    → Elem q (asked c user ss)
unfolding asked
elem-asked c user s q [] m h = absurd m
elem-asked c user s q (t ∷ ss) (inl e) h =
    elem-append q (asked_in c user t) (asked c user ss) (inl (rw e h))
elem-asked c user s q (t ∷ ss) (inr m) h =
    elem-append q (asked_in c user t) (asked c user ss) (inr (elem-asked c user s q ss m h))

-- A scope that the catalog accepts in a rule.
abbrev pub HasScope : QuotaRule → Type 0
HasScope q =
    (q.scope ≡ scope_pool) ⊎ (q.scope ≡ scope_node) ⊎ ((q.scope ≡ scope_global) × (q.target ≡ ""))

-- The rule binds this user: an aggregate rule of the table, or the per-user rule that governs them.
abbrev pub Binds : Catalog → String → QuotaRule → Type 0
Binds c user q =
    (Elem q c.quotas × (q.together ≡ true) × (q.subject ≢ subject_user))
    ⊎ ((q.together ≡ false) × (user_cap c user (scope_of q) ≡ some q))

node-ne-pool : scope_node ≢ scope_pool
node-ne-pool e = cc ((eq_iff scope_node scope_pool).1 e)

-- `r` as it is charged: on the node `n`.
abbrev pub placed : Run → NodeLedger → Run
placed r n = record r { node_id = n.info.id; node_name = n.info.name }

module _ (c : Catalog) (r : Run) (n : NodeLedger) (q : QuotaRule) where
  abbrev members : List Scope
  members = map in_pool (select (other_than r.pool) (pools_of c r.pool n.info.name))

  scope-asked :
      HasScope q
      → sees_scope q (flight_of c (placed r n)) ≡ true
      → Elem (scope_of q) (scopes c r (some n))
  unfolding sees_scope flight_of scopes
  scope-asked (inl p) h = elim (Bool-cases (q.target == r.pool)) [
    | inl e ↦ ground (arith, eq_iff q.target r.pool)
    | inr other ↦
        let in_set : Elem q.target (pools_of c r.pool n.info.name) =
          contains→elem (pools_of c r.pool n.info.name) q.target
            (ground (arith, eq_iff q.scope "pool")) in
        let chosen : Elem q.target (select (other_than r.pool) (pools_of c r.pool n.info.name)) =
          elem-select (other_than r.pool) q.target _ in_set (rw other) in
        let same : in_pool q.target ≡ scope_of q = ground arith in
        inr (
          inr (
            elem-append (scope_of q) members (on_node n.info.name ∷ [])
              (inl (rw (← same) (elem-map in_pool q.target _ chosen)))))
  ]
  scope-asked (inr (inl p)) h =
      let same : on_node n.info.name ≡ scope_of q = ground (
        arith,
        eq_iff q.scope "node",
        eq_iff q.scope "pool",
        eq_iff n.info.name q.target,
        node-ne-pool,
      ) in
      inr (inr (elem-append (scope_of q) members (on_node n.info.name ∷ []) (inr (inl same))))
  scope-asked (inr (inr p)) h = ground arith

  rule-asked :
      Binds c r.user q
      → sees_subject c q r.user (flight_of c (placed r n)) ≡ true
      → Elem q (asked_in c r.user (scope_of q))
  unfolding sees_subject flight_of asked_in
  rule-asked (inl (m, t, u)) h = elem-append q _ _ (
      inr (
        (together_rules_iff c r.user (scope_of q) q).1 (
          m,
          t,
          refl,
          ground (arith, eq_iff q.subject "group", contains→elem (user_groups c r.user) q.name),
        )))
  rule-asked (inr (t, e)) h =
      elem-append q (cap_rules (user_cap c r.user (scope_of q)))
        (together_rules c r.user (scope_of q)) (inl (rw e (inl refl)))

module _ (l : Ledger) (r : Run) (n : NodeLedger) (q : QuotaRule) where
  rule-HasRoom :
      HasScope q
      → Binds l.cat r.user q
      → block l r (some n) ≡ none
      → counts l.cat q r.user (flight_of l.cat (placed r n)) ≡ true
      → HasRoom l r.user q
  unfolding block counts
  rule-HasRoom v b h k =
      room_of_first_refusal l r.user (asked l.cat r.user (scopes l.cat r (some n))) q h (
        elem-asked l.cat r.user (scope_of q) q (scopes l.cat r (some n))
          (scope-asked l.cat r n q v (ground arith)) (rule-asked l.cat r n q b (ground arith)))

  pub count-charge :
      (user : String)
      → count (charge l (placed r n)) q user
        ≡ count l q user + (if counts l.cat q user (flight_of l.cat (placed r n)) then 1 else 0)
  unfolding count charge
  count-charge user = length-select-append_one (counts l.cat q user) _ l.in_flight

  -- A run that block lets onto a node takes no rule past its limit: after it is charged there, each
  -- rule of a valid scope that binds its user, aggregate or per user, is respected if it was
  -- respected before.
  pub charge-IsWithin :
      HasScope q
      → Binds l.cat r.user q
      → block l r (some n) ≡ none
      → IsWithin l r.user q
      → IsWithin (charge l (placed r n)) r.user q
  charge-IsWithin v b h w =
      elim (Bool-cases (counts l.cat q r.user (flight_of l.cat (placed r n)))) [
        | inl e ↦ rw (count-charge r.user, e) (omega (arith, rule-HasRoom v b h e))
        | inr e ↦ rw (count-charge r.user, e) (omega arith)
      ]
