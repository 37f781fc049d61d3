-- ===== src/Sched/Pick.antt =====
-- internal/sched/ledger.go: the nodes of a pool, its capacity, and the choice of a node for a run.
pub mod Choice
pub mod Members
use Prim.Native.Nat.{min}
use mathlib.Core.List.{foldl}
use distributed_test_runner.Base.{
  ℕ, ◌+◌, ◌*◌, String, Bool, true, false, not, ◌&&◌, ◌||◌, ◌==◌, Option, none, some, List, [], ◌∷◌,
  ◌++◌, if◌then◌else◌, nat_eq, ltb, select,
}
use distributed_test_runner.Base.Text.{text_less}
use distributed_test_runner.Base.Dict.{lookup}
use distributed_test_runner.Base.Sort.{sort}
use distributed_test_runner.Model.Suite.{SuiteSpec}
use distributed_test_runner.Model.Entities.{Run}
use distributed_test_runner.Config.Types.{Pool, node_pools}
use distributed_test_runner.Sched.Ledger.{NodeLedger, Ledger, Refusal, free, block}

abbrev pub name_less : NodeLedger → NodeLedger → Bool
name_less a b = text_less a.info.name b.info.name

-- l.byPool[p]: the nodes entered under a concrete pool
abbrev pub serves : String → NodeLedger → Bool
serves p n = not (n.pool == "") && n.pool == p

unfoldable pub nodes_of : Ledger → List String → List NodeLedger
nodes_of l [] = []
nodes_of l (p ∷ ps) = select (serves p) l.nodes ++ nodes_of l ps

unfoldable pub pool_nodes : Ledger → Pool → List NodeLedger
unfolding nodes_of
pool_nodes l p = sort name_less (nodes_of l (node_pools p))

-- The body of capacity's loop over (slots, used).
unfoldable pub add_capacity : ℕ × ℕ → NodeLedger → ℕ × ℕ
add_capacity (slots, used) n =
    if n.info.ready then (slots + n.info.slots, used + min n.used n.info.slots) else (slots, used)

unfoldable pub capacity : Ledger → Pool → ℕ × ℕ
unfolding pool_nodes add_capacity
capacity l p = foldl add_capacity (0, 0) (pool_nodes l p)

-- meta[k], which is "" where the key is missing
unfoldable pub meta_of : List (String × String) → String → String
meta_of meta k = elim (lookup k meta) [ none ↦ "" | some v ↦ v ]

unfoldable pub satisfies_set : (meta set : List (String × String)) → Bool
unfolding meta_of
satisfies_set meta [] = true
satisfies_set meta ((k, want) ∷ set) = meta_of meta k == want && satisfies_set meta set

unfoldable pub satisfies : (meta : List (String × String)) → List (List (String × String)) → Bool
unfolding satisfies_set
satisfies meta [] = true
satisfies meta (set ∷ sets) = satisfies_set meta set && satisfies meta sets

-- A node that pick does not skip at once: a slot is free and the labels fit.
unfoldable pub fits : Pool → Run → NodeLedger → Bool
fits p r n = not (nat_eq (free n) 0) && satisfies n.info.meta (p.constraints ∷ r.spec.requires ∷ [])

-- n.free()*best.info.Slots > best.free()*n.info.Slots
unfoldable pub less_loaded : NodeLedger → NodeLedger → Bool
less_loaded n best = ltb (free best * n.info.slots) (free n * best.info.slots)

abbrev pub lighter : Option NodeLedger → NodeLedger → NodeLedger
lighter none n = n
lighter (some best) n = if less_loaded n best then n else best

-- The variables `best` and `refused` of pick's loop.
pub record Picked : Type 0 where
  pub best : Option NodeLedger
  pub refused : Option Refusal

unfoldable pub pick_step : Ledger → Pool → Run → Picked → NodeLedger → Picked
pick_step l p r s n = if not (fits p r n) then s else elim (block l r (some n)) [
  | some why ↦ record { best = s.best; refused = some why }
  | none ↦ record { best = some (lighter s.best n); refused = s.refused }
]

unfoldable pub pick : Ledger → Pool → Run → Picked
unfolding pick_step pool_nodes
pick l p r = foldl (pick_step l p r) (record { best = none; refused = none }) (pool_nodes l p)
