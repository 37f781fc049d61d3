-- ===== src/Sched/Views.antt =====
-- internal/sched/views.go: Pools and Unassigned, the nodes as the dashboard shows them.
pub mod Shown
use distributed_test_runner.Base.{
  ℕ, String, Bool, not, ◌&&◌, ◌==◌, Option, List, [], ◌∷◌, map, if◌then◌else◌, select, length,
}
use distributed_test_runner.Base.Text.{text_less}
use distributed_test_runner.Base.Sort.{sort}
use distributed_test_runner.Base.Keyed.{contains}
use distributed_test_runner.Model.State.{in_flight, is_queued}
use distributed_test_runner.Model.Entities.{Run}
use distributed_test_runner.Config.Types.{Pool, is_virtual, driver}
use distributed_test_runner.Backend.{NodeInfo}
use distributed_test_runner.Sched.Ledger.{NodeLedger, Ledger, new_ledger}
use distributed_test_runner.Sched.Pick.{capacity, serves}
use distributed_test_runner.Sched.Nodes.{AgentInfo, Master, agent_for}

pub record NodeStatus : Type 0 where
  pub info : NodeInfo
  pub pool : String
  pub used : ℕ
  pub running : List String
  pub agent : Option AgentInfo

pub record PoolStatus : Type 0 where
  pub name : String
  pub description : String
  pub runtime : String
  pub task_driver : String
  pub spans : List String
  pub nodes : List NodeStatus
  pub slots : ℕ
  pub used : ℕ
  pub queued : ℕ
  pub error : String

-- perNode[id]
unfoldable pub suites_on : String → List Run → List String
suites_on id [] = []
suites_on id (r ∷ rs) =
    let rest = suites_on id rs in
    if in_flight r.state && (not (r.node_id == "") && r.node_id == id) then r.suite ∷ rest else rest

-- perPoolQueued[name]
unfoldable pub queued_in : String → List Run → ℕ
unfolding select
queued_in name rs = length (select (λ (r : Run). is_queued r.state && r.pool == name) rs)

-- The status of a node, under the pool `pool`.
abbrev pub status_in : ℕ → Master → List Run → String → NodeLedger → NodeStatus
status_in now m rs pool n = record {
  info = n.info;
  pool = pool;
  used = n.used;
  running = suites_on n.info.id rs;
  agent = agent_for now m n.info;
}

abbrev pub status_less : NodeStatus → NodeStatus → Bool
status_less a b = text_less a.info.name b.info.name

abbrev pub node_status : ℕ → Master → List Run → NodeLedger → NodeStatus
node_status now m rs n = status_in now m rs n.pool n

-- The nodes that are listed under a pool: none under a virtual one.
unfoldable pub nodes_under : ℕ → Master → List Run → Ledger → Pool → List NodeStatus
unfolding is_virtual select sort suites_on agent_for
nodes_under now m rs l p =
    if is_virtual p
    then []
    else sort status_less (map (node_status now m rs) (select (serves p.name) l.nodes))

abbrev pub pool_status : ℕ → Master → List Run → Ledger → Pool → PoolStatus
pool_status now m rs l p = record {
  name = p.name;
  description = p.description;
  runtime = p.runtime;
  task_driver = driver p;
  spans = p.spans;
  nodes = nodes_under now m rs l p;
  slots = (capacity l p).0;
  used = (capacity l p).1;
  queued = queued_in p.name rs;
  error = m.inventory_error;
}

-- Pools
unfoldable pub pools : ℕ → Master → List Run → List PoolStatus
unfolding nodes_under queued_in new_ledger capacity driver
pools now m rs = map (pool_status now m rs (new_ledger m.live m.inventory rs)) m.live.pools

abbrev pub id_of : NodeLedger → String
id_of n = n.info.id

-- The nodes under their ids: a later node takes an id over.
unfoldable pub last_nodes : List NodeLedger → List NodeLedger
last_nodes [] = []
last_nodes (n ∷ ns) =
    let rest = last_nodes ns in if contains (map id_of ns) n.info.id then rest else n ∷ rest

-- Unassigned
unfoldable pub unassigned : ℕ → Master → List Run → List NodeStatus
unfolding select sort suites_on agent_for new_ledger last_nodes contains
unassigned now m rs = sort status_less (
    map (status_in now m rs "") (
      select (λ (n : NodeLedger). n.pool == "")
        (last_nodes (new_ledger m.live m.inventory rs).nodes)))
