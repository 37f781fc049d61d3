-- ===== src/Sched/Pick/Members.antt =====
-- Which nodes a pool can place on (poolNodes, internal/sched/ledger.go).
use distributed_test_runner.Base.{
  ◌≡◌, ◌≢◌, ◌↔◌, String, true, List, [], ◌∷◌, arith, eq_iff, Elem, select, select-elem, elem-select,
  append-elem, elem-append,
}
use distributed_test_runner.Base.Sort.{sort-elem, elem-sort}
use distributed_test_runner.Config.Types.{Pool, node_pools}
use distributed_test_runner.Sched.Ledger.{NodeLedger, Ledger}
use distributed_test_runner.Sched.Pick.{serves, nodes_of, pool_nodes, name_less}

serves_iff : (q : String) (n : NodeLedger) → (serves q n ≡ true) ↔ ((n.pool ≢ "") × (n.pool ≡ q))
serves_iff q n = (
  ground (arith, eq_iff n.pool "", eq_iff n.pool q),
  ground (arith, eq_iff n.pool "", eq_iff n.pool q),
)

nodes_of_iff :
    (l : Ledger) (n : NodeLedger) (ps : List String)
    → Elem n (nodes_of l ps) ↔ (Elem n l.nodes × (n.pool ≢ "") × Elem n.pool ps)
unfolding nodes_of
nodes_of_iff l n [] = (λ m. absurd m, λ m. absurd m.2)
nodes_of_iff l n (q ∷ ps) =
    let (from, to) = nodes_of_iff l n ps in
    (
      λ m. ground (
        arith,
        append-elem n (select (serves q) l.nodes) (nodes_of l ps) m,
        select-elem (serves q) n l.nodes,
        (serves_iff q n).0,
        from,
      ),
      λ m.
          elem-append n (select (serves q) l.nodes) (nodes_of l ps)
            (ground (arith, elem-select (serves q) n l.nodes, (serves_iff q n).1, to)),
    )

-- The nodes that a pool can place on are exactly the nodes of the ledger that are assigned to the pool
-- itself, or, for a virtual pool, to one of the pools that it spans.
pub pool_nodes_iff :
    (l : Ledger) (p : Pool) (n : NodeLedger)
    → Elem n (pool_nodes l p) ↔ (Elem n l.nodes × (n.pool ≢ "") × Elem n.pool (node_pools p))
unfolding pool_nodes
pool_nodes_iff l p n =
    let (from, to) = nodes_of_iff l n (node_pools p) in
    (
      λ m. from (sort-elem name_less n (nodes_of l (node_pools p)) m),
      λ m. elem-sort name_less n (nodes_of l (node_pools p)) (to m),
    )
