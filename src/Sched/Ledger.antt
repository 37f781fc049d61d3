-- ===== src/Sched/Ledger.antt =====
-- internal/sched/ledger.go: one tick's view of the nodes and of who holds slots where.
-- `l.nodes` is a map from ids and `l.byPool` a map from pools, both to the same objects; here the
-- objects stand in one list, in the order of the inventory, and the two maps are searches in it.
pub mod Meaning
pub mod Rules
pub mod Asked
pub mod Counts
pub mod Capacity
use Prim.Native.String.{compare}
use Prim.Native.Nat.{Ordering}
use mathlib.Core.List.{foldl}
use distributed_test_runner.Base.{
  ℕ, suc, ◌+◌, ◌-◌, ◌*◌, ◌≡◌, String, Bool, true, false, not, ◌&&◌, ◌||◌, ◌==◌, Option, none, some,
  List, [], ◌∷◌, ◌++◌, map, if◌then◌else◌, nat_eq, ltb, select, length,
}
use distributed_test_runner.Base.Int.{ℤ, pos, leb_ℤ}
use distributed_test_runner.Base.Keyed.{contains, find_by}
use distributed_test_runner.Base.Dict.{lookup, insert}
use distributed_test_runner.Base.Text.{concat, decimal, decimal_int}
use distributed_test_runner.Base.Sort.{sort}
use distributed_test_runner.Model.State.{in_flight}
use distributed_test_runner.Model.Suite.{SuiteSpec}
use distributed_test_runner.Model.Entities.{Run}
use distributed_test_runner.Config.Types.{
  Pool, Node, QuotaRule, Catalog, Scope, subject_group, scope_pool, scope_node, everywhere, in_pool,
  on_node, is_virtual, node_pools,
}
use distributed_test_runner.Config.Quota.{user_groups, user_cap, together_rules, describe, rule_key}
use distributed_test_runner.Backend.{NodeInfo}

pub record NodeLedger : Type 0 where
  pub info : NodeInfo
  pub pool : String
  pub used : ℕ

pub record Flight : Type 0 where
  pub user : String
  pub node : String
  pub pools : List String

pub record Ledger : Type 0 where
  pub cat : Catalog
  pub nodes : List NodeLedger
  pub by_user : List (String × ℕ)
  pub in_flight : List Flight

-- max(0, Slots - used) for a node that can take work
unfoldable pub free : NodeLedger → ℕ
free n = if not n.info.ready || n.pool == "" then 0 else n.info.slots - n.used

-- Catalog.NodePool
unfoldable pub node_pool : Catalog → String → String
node_pool c name = elim (find_by (λ (n : Node). n.name) name c.nodes) [
  | none ↦ ""
  | some n ↦ n.pool
]

-- Catalog.Pool
unfoldable pub pool : Catalog → String → Option Pool
pool c name = find_by (λ (p : Pool). p.name) name c.pools

-- out[x] = true, for a set of names
unfoldable pub adjoin : List String → String → List String
adjoin s x = if contains s x then s else s ++ x ∷ []

-- The concrete pool that a run counts in: its node's, or the one that it was submitted to.
unfoldable pub concrete_pool : Catalog → (pool node : String) → String
unfolding node_pool pool
concrete_pool c p node =
    if node_pool c node == ""
    then elim (pool c p) [ none ↦ "" | some q ↦ if is_virtual q then "" else p ]
    else node_pool c node

-- out[p.Name] = true for a virtual pool that spans `concrete`
unfoldable pub adjoin_spanning : String → List String → Pool → List String
unfolding adjoin
adjoin_spanning concrete s p = if contains p.spans concrete then adjoin s p.name else s

unfoldable pub pools_of : Catalog → (pool node : String) → List String
unfolding concrete_pool adjoin_spanning
pools_of c p node =
    let concrete = concrete_pool c p node in
    if concrete == ""
    then p ∷ []
    else foldl (adjoin_spanning concrete) (adjoin (p ∷ []) concrete) c.pools

-- l.byUser[user]
unfoldable pub held : Ledger → String → ℕ
held l user = elim (lookup user l.by_user) [ none ↦ 0 | some n ↦ n ]

abbrev pub node_id : NodeLedger → String
node_id n = n.info.id

-- n.used++ on l.nodes[id], which is the last node entered under that id
unfoldable pub bump : String → List NodeLedger → List NodeLedger
bump id [] = []
bump id (n ∷ ns) = elim (find_by node_id id ns) [
  | none ↦ if n.info.id == id then record n { used = n.used + 1 } ∷ ns else n ∷ ns
  | some m ↦ n ∷ bump id ns
]

unfoldable pub flight_of : Catalog → Run → Flight
unfolding pools_of
flight_of c r = record { user = r.user; node = r.node_name; pools = pools_of c r.pool r.node_name }

unfoldable pub charge : Ledger → Run → Ledger
unfolding bump held flight_of
charge l r = record {
  cat = l.cat;
  nodes = bump r.node_id l.nodes;
  by_user = insert r.user (held l r.user + 1) l.by_user;
  in_flight = l.in_flight ++ flight_of l.cat r ∷ [];
}

abbrev pub enter : Catalog → NodeInfo → NodeLedger
enter c n = record { info = n; pool = node_pool c n.name; used = 0 }

abbrev pub charge_in_flight : Ledger → Run → Ledger
charge_in_flight l r = if in_flight r.state then charge l r else l

-- newLedger, over the live catalog, the inventory and every run
unfoldable pub new_ledger : Catalog → List NodeInfo → List Run → Ledger
unfolding charge node_pool
new_ledger c inventory runs =
    foldl charge_in_flight
      (record { cat = c; nodes = map (enter c) inventory; by_user = []; in_flight = [] }) runs

-- The two switches of count's loop: does the rule see this flight in its scope, and for this user?
unfoldable pub sees_scope : QuotaRule → Flight → Bool
sees_scope r f =
    if r.scope == scope_pool
    then contains f.pools r.target
    else if r.scope == scope_node
    then f.node == r.target
    else true

unfoldable pub sees_subject : Catalog → QuotaRule → String → Flight → Bool
sees_subject c r user f =
    if not r.together
    then f.user == user
    else if r.subject == subject_group
    then contains (user_groups c f.user) r.name
    else true

unfoldable pub counts : Catalog → QuotaRule → String → Flight → Bool
unfolding sees_scope sees_subject
counts c r user f = sees_scope r f && sees_subject c r user f

unfoldable pub count : Ledger → QuotaRule → String → ℕ
unfolding counts
count l r user = length (select (counts l.cat r user) l.in_flight)

-- A rule at its limit, with the slots that it counts.
pub record Refusal : Type 0 where
  pub rule : QuotaRule
  pub used : ℕ

-- if used := l.count(rule, user); used >= rule.MaxSlots
unfoldable pub refuses : Ledger → String → QuotaRule → Option Refusal
unfolding count
refuses l user r =
    let used = count l r user in
    if leb_ℤ r.max_slots (pos used) then some (record { rule = r; used = used }) else none

-- The first refusal in a list of rules.
unfoldable pub first_refusal : Ledger → String → List QuotaRule → Option Refusal
unfolding refuses
first_refusal l user [] = none
first_refusal l user (r ∷ rs) = elim (refuses l user r) [
  | none ↦ first_refusal l user rs
  | some why ↦ some why
]

abbrev pub cap_rules : Option QuotaRule → List QuotaRule
cap_rules none = []
cap_rules (some r) = r ∷ []

-- The rules that are asked in one scope, in the order of the code.
unfoldable pub asked_in : Catalog → String → Scope → List QuotaRule
asked_in c user scope = cap_rules (user_cap c user scope) ++ together_rules c user scope

unfoldable pub asked : Catalog → String → List Scope → List QuotaRule
unfolding asked_in
asked c user [] = []
asked c user (s ∷ ss) = asked_in c user s ++ asked c user ss

abbrev pub other_than : String → String → Bool
other_than p q = not (q == p)

-- The scopes of a run, with the node that it would land on.
unfoldable pub scopes : Catalog → Run → Option NodeLedger → List Scope
unfolding pools_of
scopes c r none = everywhere ∷ in_pool r.pool ∷ []
scopes c r (some n) =
    everywhere
    ∷ in_pool r.pool
    ∷ (map in_pool (select (other_than r.pool) (pools_of c r.pool n.info.name))
        ++ on_node n.info.name ∷ [])

-- Go ranges over the set of pools in no fixed order, so of several rules at their limits it may
-- report any; whether one is reported does not depend on the order.
unfoldable pub block : Ledger → Run → Option NodeLedger → Option Refusal
unfolding first_refusal asked scopes
block l r n = first_refusal l r.user (asked l.cat r.user (scopes l.cat r n))

-- The text that `block` returns: "" when nothing is at its limit.
unfoldable pub why_text : Option Refusal → String
why_text none = ""
why_text (some w) = concat (
    "waiting: "
    ∷ describe w.rule
    ∷ ": "
    ∷ decimal w.used
    ∷ "/"
    ∷ decimal_int w.rule.max_slots
    ∷ " slots (rule "
    ∷ rule_key w.rule
    ∷ ")"
    ∷ [])
