-- ===== src/Tests/Nodes.antt =====
-- The agents of the nodes and the catalog in force at concrete inputs.
use distributed_test_runner.Base.{
  List, map, All, Elem, ◌≢◌, inl, inr, ◌⊎◌, ◌≡◌, refl, String, true, false, none, some, [], ◌∷◌,
  Option, length, ◌==◌,
}
use distributed_test_runner.Base.Result.{ok, err}
use distributed_test_runner.Model.State.{RunState}
use distributed_test_runner.Model.Entities.{Run}
use distributed_test_runner.Backend.{NodeInfo}
use distributed_test_runner.Config.Types.{Catalog, is_virtual}
use distributed_test_runner.Sched.Ledger.{NodeLedger, new_ledger}
use distributed_test_runner.Sched.Views.{NodeStatus, PoolStatus, pools, unassigned}
use distributed_test_runner.Sched.Views.Shown.{IsLast, IsStatus, views_show}
use distributed_test_runner.Config.Catalog.Edits.{IsClosed}
use distributed_test_runner.Config.Live.{clone, with_live_pools}
use distributed_test_runner.Sched.Nodes.{
  AgentInfo, Master, no_catalog, set_catalog, heartbeat, refresh_inventory,
}
use distributed_test_runner.Sched.Nodes.Closed.{
  Reached, started, heard, refreshed, Reached-IsClosed,
}
use distributed_test_runner.Tests.Fixtures.{lab, slot, node_one, queued_run}
use distributed_test_runner.Tests.Catalogs.{lab_goes_live}

-- A text of a catalog that tells those apart that have other numbers of nodes.
abbrev marshal : Catalog → String
marshal c = distributed_test_runner.Base.Text.decimal (length c.nodes)

abbrev saved : Catalog → Option String
saved c = none

abbrev agent : AgentInfo
agent = record {
  name = "n3";
  pool = "hp";
  node_id = "id-3";
  labels = [];
  slots = 2;
  slot = slot;
  agent_version = "1";
  cache_entries = 0;
  cache_bytes = 0;
  reported_at = 5;
  seen_at = 0;
  is_stale = false;
}

abbrev fresh_master : Master
fresh_master = record {
  raw = no_catalog;
  live = no_catalog;
  agents = [];
  inventory = [];
  inventory_error = "";
}

abbrev master : Master
master = record fresh_master { raw = clone lab; live = with_live_pools (clone lab) }

master_started : set_catalog lab fresh_master ≡ ok master
unfolding set_catalog
master_started = rw lab_goes_live refl

abbrev later : Master
later = refresh_inventory (err "timeout") (heartbeat marshal saved 9 agent master)

later_test : (length later.live.nodes ≡ 3) × (later.inventory_error ≡ "timeout")
unfolding refresh_inventory heartbeat distributed_test_runner.Base.Sort.sort
    distributed_test_runner.Base.Keyed.contains distributed_test_runner.Model.State.valid
    distributed_test_runner.Base.Keyed.put_by distributed_test_runner.Config.Types.is_virtual
    distributed_test_runner.Config.Rules.validate_quotas
    distributed_test_runner.Config.Quota.rule_key distributed_test_runner.Base.Text.decimal
later_test = (refl, refl)

later-Reached : Reached marshal later
later-Reached =
    refreshed _ (heard master (started lab fresh_master master_started) saved 9 agent)
      (err "timeout")

Reached-IsClosed_example : IsClosed later.live
Reached-IsClosed_example = Reached-IsClosed marshal later later-Reached

abbrev inventory : List NodeInfo
inventory = node_one.info ∷ record node_one.info { id = "id-9"; name = "n9" } ∷ []

-- n1 is in the pool hp, and the catalog does not know n9.
abbrev seen : Master
seen = refresh_inventory (ok inventory) master

abbrev on_one : Run
on_one = record queued_run { state = RunState.running; node_id = "id-1"; node_name = "n1" }

unassigned_test :
    map (λ (s : NodeStatus). s.info.name) (unassigned 9 seen (on_one ∷ [])) ≡ "n9" ∷ []
unfolding unassigned refresh_inventory distributed_test_runner.Base.Keyed.find_by clone
unassigned_test = refl

pools_test : map (λ (s : PoolStatus). s.used) (pools 9 seen (on_one ∷ [])) ≡ 1 ∷ []
unfolding pools refresh_inventory distributed_test_runner.Base.Keyed.find_by clone
    distributed_test_runner.Base.Sort.sort distributed_test_runner.Config.Types.node_pools
    distributed_test_runner.Config.Live.live_pool
pools_test = refl

abbrev n9 : NodeLedger
n9 = record { info = record node_one.info { id = "id-9"; name = "n9" }; pool = ""; used = 0 }

n9-IsLast : IsLast n9 (new_ledger seen.live seen.inventory (on_one ∷ [])).nodes
unfolding refresh_inventory new_ledger distributed_test_runner.Base.Keyed.find_by clone
    distributed_test_runner.Base.Sort.sort
n9-IsLast = inr (inl (refl, λ e. e))

views_show_example :
    ((n9.pool ≡ "")
      × ((s : NodeStatus) × Elem s (unassigned 9 seen (on_one ∷ []))
          × IsStatus 9 seen (on_one ∷ []) "" n9 s))
    ⊎ ((n9.pool ≢ "")
        × ((p : PoolStatus) × Elem p (pools 9 seen (on_one ∷ []))
            × (p.name ≡ n9.pool)
            × ((s : NodeStatus) × Elem s p.nodes × IsStatus 9 seen (on_one ∷ []) n9.pool n9 s)))
    ⊎ ((n9.pool ≢ "") × All (λ p. (p.name ≢ n9.pool) ⊎ (is_virtual p ≡ true)) seen.live.pools)
views_show_example = views_show 9 seen (on_one ∷ []) n9 n9-IsLast
