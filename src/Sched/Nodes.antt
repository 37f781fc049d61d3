-- ===== src/Sched/Nodes.antt =====
-- internal/sched/nodes.go, catalog.go and the catalog's holders of internal/config/config.go: the
-- nodes' agents, the inventory, and the catalog as authored and as it is in force. `marshal` is the
-- JSON of a catalog, by which Equal compares; what the store answers is an argument.
pub mod Closed
use mathlib.Core.List.{foldl}
use distributed_test_runner.Base.{
  ℕ, suc, ◌+◌, ◌-◌, ◌*◌, String, Bool, true, false, not, ◌&&◌, ◌==◌, Option, none, some, List, [],
  ◌∷◌, map, if◌then◌else◌, ltb,
}
use distributed_test_runner.Base.Keyed.{find_by}
use distributed_test_runner.Base.Dict.{lookup, insert}
use distributed_test_runner.Base.Text.{text_less}
use distributed_test_runner.Base.Sort.{sort}
use distributed_test_runner.Base.Result.{Result, ok, err}
use distributed_test_runner.Model.Entities.{Slot}
use distributed_test_runner.Config.Types.{Pool, Node, Catalog}
use distributed_test_runner.Config.Catalog.{set_node, node_name, pool_name}
use distributed_test_runner.Config.Live.{CatalogError, live_catalog, clone}
use distributed_test_runner.Backend.{NodeInfo}

pub record AgentInfo : Type 0 where
  pub name : String
  pub pool : String
  pub node_id : String
  pub labels : List (String × String)
  pub slots : ℕ
  pub slot : Slot
  pub agent_version : String
  pub cache_entries : ℕ
  pub cache_bytes : ℕ
  pub reported_at : ℕ
  pub seen_at : ℕ
  pub is_stale : Bool

-- What the master holds beside the store.
pub record Master : Type 0 where
  pub raw : Catalog
  pub live : Catalog
  pub agents : List (String × AgentInfo)
  pub inventory : List NodeInfo
  pub inventory_error : String

-- Why a catalog was not applied.
pub data ApplyError : Type 0 where
  invalid : CatalogError → ApplyError
  not_saved : String → ApplyError
  not_loaded : String → ApplyError

abbrev set_live : Catalog → Master → Result CatalogError Catalog → Result ApplyError Master
set_live cat m (err why) = err (invalid why)
set_live cat m (ok live) = ok (record m { raw = clone cat; live = live })

-- SetCatalog
unfoldable pub set_catalog : Catalog → Master → Result ApplyError Master
unfolding live_catalog clone
set_catalog cat m = set_live cat m (live_catalog cat)

module _ (marshal : Catalog → String) where
  -- Catalog.Equal
  abbrev pub equal : Catalog → Catalog → Bool
  equal c o = marshal (clone c) == marshal (clone o)

  -- ApplyCatalog; `save` is the error of the store, if any.
  unfoldable pub apply_catalog :
      (Catalog → Option String) → Catalog → Master → Result ApplyError Master
  unfolding live_catalog set_catalog
  apply_catalog save cat m = elim (live_catalog cat) [
    | err why ↦ err (invalid why)
    | ok live ↦
        if equal cat m.raw
        then ok m
        else elim (save cat) [ some why ↦ err (not_saved why) | none ↦ set_catalog cat m ]
  ]

  -- knownNode
  unfoldable pub known_node : Catalog → String → Bool
  unfolding find_by
  known_node c name = elim (find_by node_name name c.nodes) [ none ↦ false | some n ↦ true ]

  -- The pool that the agent suggests, when there is one of that name.
  unfoldable pub first_pool : Catalog → AgentInfo → String
  unfolding find_by
  first_pool c a = elim (find_by pool_name a.pool c.pools) [
    | none ↦ ""
    | some p ↦ if not (a.pool == "") then a.pool else ""
  ]

  abbrev applied_or : Master → Result ApplyError Master → Master
  applied_or m (ok after) = after
  applied_or m (err why) = m

  -- Heartbeat at the time `now`. A node that could not be registered is only logged.
  unfoldable pub heartbeat : (Catalog → Option String) → ℕ → AgentInfo → Master → Master
  unfolding known_node first_pool apply_catalog set_node clone insert
  heartbeat save now a m =
      let seen = record m { agents = insert a.name (record a { seen_at = now }) m.agents } in
      if known_node m.raw a.name
      then seen
      else applied_or seen (
          apply_catalog save
            (set_node (record { name = a.name; pool = first_pool m.raw a }) (clone m.raw)) seen)

abbrev pub no_catalog : Catalog
no_catalog = record { pools = []; nodes = []; groups = []; users = []; quotas = [] }

abbrev loaded_or_none : Option Catalog → Catalog
loaded_or_none none = no_catalog
loaded_or_none (some c) = c

-- ReloadCatalog; `loaded` is what the store holds.
unfoldable pub reload_catalog : Result String (Option Catalog) → Master → Result ApplyError Master
unfolding set_catalog
reload_catalog loaded m = elim loaded [
  | err why ↦ err (not_loaded why)
  | ok held ↦ set_catalog (loaded_or_none held) m
]

-- AgentStale, in nanoseconds
abbrev agent_stale : ℕ
agent_stale = 180 * 1000000000

abbrev with_age : ℕ → AgentInfo → AgentInfo
with_age now a = record a { is_stale = ltb agent_stale (now - a.seen_at) }

-- Agents
unfoldable pub agents_by_name : ℕ → Master → List AgentInfo
unfolding sort
agents_by_name now m = sort (λ a b. text_less a.name b.name) (map (λ e. with_age now e.1) m.agents)

-- agentFor
unfoldable pub agent_for : ℕ → Master → NodeInfo → Option AgentInfo
unfolding lookup
agent_for now m n = elim (lookup n.name m.agents) [ none ↦ none | some a ↦ some (with_age now a) ]

-- refreshInventory; an error leaves the nodes as they were.
unfoldable pub refresh_inventory : Result String (List NodeInfo) → Master → Master
refresh_inventory (err why) m = record m { inventory_error = why }
refresh_inventory (ok nodes) m = record m { inventory = nodes; inventory_error = "" }
