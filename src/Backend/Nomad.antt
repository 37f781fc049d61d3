-- ===== src/Backend/Nomad.antt =====
-- internal/backend/nomadbackend.go, with the types and the readings of allocations of
-- internal/nomad/client.go: Nomad as a backend. The answers of Nomad's API are arguments; a job is a
-- record in place of the JSON that is sent. A map of task states is the list of their events.
pub mod Jobs
pub mod Allocations
pub mod Placed
pub mod Latest
pub mod Newest
use mathlib.Core.List.{foldl}
use distributed_test_runner.Base.{
  ℕ, suc, ◌+◌, ◌-◌, String, Bool, true, false, not, ◌&&◌, ◌||◌, ◌==◌, Option, none, some, List, [],
  ◌∷◌, ◌++◌, if◌then◌else◌, ltb,
}
use distributed_test_runner.Base.Dict.{lookup, insert}
use distributed_test_runner.Base.Scan.{trim_space, atoi_nat, cut_prefix}
use distributed_test_runner.Base.Result.{Result, ok, err}
use distributed_test_runner.Model.Entities.{Slot}
use distributed_test_runner.Backend.{NodeInfo}

-- MetaPrefix
abbrev pub meta_prefix : String
meta_prefix = "dtp."

-- nomad.NodeStub
pub record Stub : Type 0 where
  pub id : String
  pub name : String
  pub status : String

-- nomad.Node
pub record Node : Type 0 where
  pub status : String
  pub is_draining : Bool
  pub eligibility : String
  pub meta : List (String × String)

-- Node.Ready
unfoldable pub is_ready : Node → Bool
is_ready n = n.status == "ready" && (not n.is_draining && not (n.eligibility == "ineligible"))

unfoldable pub meta_int : List (String × String) → String → ℕ
unfolding lookup trim_space atoi_nat
meta_int meta key = elim (lookup key meta) [
  | none ↦ 0
  | some v ↦ elim (atoi_nat (trim_space v)) [ none ↦ 0 | some i ↦ i ]
]

-- slotsFor
unfoldable pub slots_for : Node → ℕ
unfolding meta_int
slots_for n = meta_int n.meta "dtp.slots"

unfoldable pub slot_of : Node → Slot
unfolding meta_int
slot_of n = record {
  cores = meta_int n.meta "dtp.slot.cores";
  cpu = meta_int n.meta "dtp.slot.cpu_mhz";
  memory = meta_int n.meta "dtp.slot.memory_mb";
  disk = meta_int n.meta "dtp.slot.disk_mb";
  memory_max = meta_int n.meta "dtp.slot.memory_max_mb";
}

abbrev keep_meta : List (String × String) → String × String → List (String × String)
keep_meta out (k, v) = elim (cut_prefix k meta_prefix) [
  | none ↦ out
  | some rest ↦ insert rest v out
]

-- filterMeta
unfoldable pub filter_meta : List (String × String) → List (String × String)
unfolding insert cut_prefix
filter_meta meta = foldl keep_meta [] meta

abbrev node_info : Stub → Node → NodeInfo
node_info st n = record {
  id = st.id;
  name = st.name;
  slots = slots_for n;
  slot = slot_of n;
  ready = is_ready n;
  status = st.status;
  meta = filter_meta n.meta;
}

-- The nodes that answer; one that does not is left out.
unfoldable pub node_infos : (String → Option Node) → List Stub → List NodeInfo
unfolding slots_for slot_of is_ready filter_meta
node_infos read [] = []
node_infos read (st ∷ stubs) = elim (read st.id) [
  | none ↦ node_infos read stubs
  | some n ↦ node_info st n ∷ node_infos read stubs
]

-- The nodes read last, if any, and when, in nanoseconds.
pub record Cache : Type 0 where
  pub nodes : List NodeInfo
  pub read_at : ℕ

abbrev is_empty {ℓ} : {A : Type ℓ} → List A → Bool
is_empty [] = true
is_empty (x ∷ xs) = false

-- Inventory at the time `now`: what it returns, and the cache after it. An empty list of nodes is
-- nil in the source, and never served from the cache.
unfoldable pub inventory :
    ℕ
    → Result String (List Stub)
    → (String → Option Node)
    → Cache
    → Result String (List NodeInfo) × Cache
unfolding node_infos
inventory now stubs read cache =
    if ltb (now - cache.read_at) 5000000000 && not (is_empty cache.nodes)
    then (ok cache.nodes, cache)
    else elim stubs [
      | err why ↦ (err why, cache)
      | ok sts ↦ (ok (node_infos read sts), record { nodes = node_infos read sts; read_at = now })
    ]
