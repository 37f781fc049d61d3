-- ===== src/Sched/Views/Shown.antt =====
-- The dashboard shows every node that the backend reports: internal/sched/views.go.
use distributed_test_runner.Base.{
  ℕ, ◌+◌, ◌-◌, ltb, ◌<◌, ◌≡◌, ◌≢◌, ◌↔◌, refl, inl, inr, ◌⊎◌, String, true, false, not, ◌&&◌, ◌==◌,
  eq_iff, none, some, List, [], ◌∷◌, map, arith, All, Elem, elem-map, Bool-cases, Option-cases,
  elem-select, select,
}
use distributed_test_runner.Base.Sort.{elem-sort}
use distributed_test_runner.Base.Dict.{lookup}
use distributed_test_runner.Base.Keyed.{contains→elem}
use distributed_test_runner.Model.State.{in_flight}
use distributed_test_runner.Model.Entities.{Run}
use distributed_test_runner.Config.Types.{Pool, is_virtual}
use distributed_test_runner.Sched.Ledger.{NodeLedger, Ledger, new_ledger}
use distributed_test_runner.Sched.Ledger.Meaning.{IsBusy, in_flight_iff}
use distributed_test_runner.Sched.Pick.{serves}
use distributed_test_runner.Sched.Nodes.{AgentInfo, Master, agent_for}
use distributed_test_runner.Sched.Views.{
  NodeStatus, PoolStatus, suites_on, status_in, status_less, node_status, nodes_under, pool_status,
  pools, id_of, last_nodes, unassigned,
}

-- The node `n` stands in the list, and no later one has its id.
abbrev pub IsLast : NodeLedger → List NodeLedger → Type 0
IsLast n [] = ⊥
IsLast n (x ∷ xs) = ((x ≡ n) × ¬ Elem n.info.id (map id_of xs)) ⊎ IsLast n xs

-- `shown` is the report of an agent last seen in `a`, and stale after 180 s.
pub record IsReport (now : ℕ) (a shown : AgentInfo) : Type 0 where
  pub of_agent : shown ≡ record a { is_stale = shown.is_stale }
  pub stale : (shown.is_stale ≡ true) ↔ (a.seen_at + 180000000000 < now)

-- The status shows the node under the pool named: the suites that run on it, and its agent, if one
-- of its name reports.
pub record IsStatus (now : ℕ) (m : Master) (rs : List Run) (pool : String) (n : NodeLedger)
    (s : NodeStatus) : Type 0 where
  pub of_node : (s.info ≡ n.info) × (s.pool ≡ pool) × (s.used ≡ n.used)
  pub running :
      (suite : String)
      → Elem suite s.running ↔ (
          (r : Run) × Elem r rs
          × IsBusy r
          × (r.node_id ≢ "")
          × (r.node_id ≡ n.info.id)
          × (r.suite ≡ suite))
  pub agent :
      ((lookup n.info.name m.agents ≡ none) × (s.agent ≡ none))
      ⊎ ((a : AgentInfo) × (lookup n.info.name m.agents ≡ some a)
          × ((shown : AgentInfo) × (s.agent ≡ some shown) × IsReport now a shown))

suites_on_sound :
    (id suite : String) (rs : List Run)
    → Elem suite (suites_on id rs)
    → (r : Run) × Elem r rs × IsBusy r × (r.node_id ≢ "") × (r.node_id ≡ id) × (r.suite ≡ suite)
unfolding suites_on
suites_on_sound id suite [] m = absurd m
suites_on_sound id suite (r ∷ rs) m =
    elim (Bool-cases (in_flight r.state && (not (r.node_id == "") && r.node_id == id))) [
      | inl yes' ↦
          let busy = (in_flight_iff r).0 (ground arith) in
          let some_node : r.node_id ≢ "" = ground (arith, eq_iff r.node_id "") in
          let on : r.node_id ≡ id = ground (arith, eq_iff r.node_id id) in
          elim (rw (yes', suites_on) at m) [
            | inl e ↦ (r, inl refl, busy, some_node, on, e)
            | inr more ↦ later r (suites_on_sound id suite rs more)
          ]
      | inr not_on ↦ later r (suites_on_sound id suite rs (rw (not_on, suites_on) at m))
    ]
  where
    later :
        (q : Run)
        → ((x : Run) × Elem x rs
            × IsBusy x
            × (x.node_id ≢ "")
            × (x.node_id ≡ id)
            × (x.suite ≡ suite))
        → (x : Run) × Elem x (q ∷ rs)
          × IsBusy x
          × (x.node_id ≢ "")
          × (x.node_id ≡ id)
          × (x.suite ≡ suite)
    later q (x, m', busy, some_node, on, of) = (x, inr m', busy, some_node, on, of)

suites_on_complete :
    (id suite : String) (rs : List Run) (r : Run)
    → Elem r rs
    → IsBusy r
    → r.node_id ≢ ""
    → r.node_id ≡ id
    → r.suite ≡ suite
    → Elem suite (suites_on id rs)
unfolding suites_on
suites_on_complete id suite [] r m busy some_node on of = absurd m
suites_on_complete id suite (x ∷ xs) r (inl e) busy some_node on of =
    ground (arith, e, (in_flight_iff r).1 busy, eq_iff r.node_id "", eq_iff r.node_id id)
suites_on_complete id suite (x ∷ xs) r (inr m) busy some_node on of =
    ground (arith, suites_on_complete id suite xs r m busy some_node on of)

IsLast-elem : (n : NodeLedger) (ns : List NodeLedger) → IsLast n ns → Elem n ns
IsLast-elem n [] h = absurd h
IsLast-elem n (x ∷ xs) (inl h) = inl h.0
IsLast-elem n (x ∷ xs) (inr h) = inr (IsLast-elem n xs h)

elem-last_nodes : (n : NodeLedger) (ns : List NodeLedger) → IsLast n ns → Elem n (last_nodes ns)
unfolding last_nodes
elem-last_nodes n [] h = absurd h
elem-last_nodes n (x ∷ xs) (inl (e, none_later)) =
    ground (arith, e, contains→elem (map id_of xs) n.info.id)
elem-last_nodes n (x ∷ xs) (inr h) = ground (arith, elem-last_nodes n xs h)

module _ (now : ℕ) (m : Master) (rs : List Run) where
  abbrev ledger : Ledger
  ledger = new_ledger m.live m.inventory rs

  status_in-IsStatus :
      (pool : String) (n : NodeLedger) → IsStatus now m rs pool n (status_in now m rs pool n)
  unfolding agent_for
  status_in-IsStatus pool n = record {
    of_node = (refl, refl, refl);
    running = λ suite. (
      suites_on_sound n.info.id suite rs,
      λ (r, m, busy, some_node, on, of).
          suites_on_complete n.info.id suite rs r m busy some_node on of,
    );
    agent = elim (Option-cases (lookup n.info.name m.agents)) [
      | inl e ↦ inl (e, rw (e, agent_for) refl)
      | inr (a, e) ↦ inr (
        a,
        e,
        (
          record a { is_stale = ltb 180000000000 (now - a.seen_at) },
          rw (e, agent_for) refl,
          record { of_agent = refl; stale = (λ h. ground arith, λ h. ground arith) },
        ),
      )
    ];
  }

  elem-nodes_under :
      (p : Pool) (n : NodeLedger)
      → Elem n ledger.nodes
      → n.pool ≡ p.name
      → (n.pool == "") ≡ false
      → is_virtual p ≡ false
      → Elem (node_status now m rs n) (nodes_under now m rs ledger p)
  unfolding nodes_under
  elem-nodes_under p n n_in named some_pool concrete =
      let kept =
        elem-select (serves p.name) n ledger.nodes n_in (ground (arith, eq_iff n.pool p.name)) in
      rw (concrete, nodes_under)
        (elem-sort status_less (node_status now m rs n) _
          (elem-map (node_status now m rs) n (select (serves p.name) ledger.nodes) kept))

  differs_or_named :
      {name : String} (p : Pool)
      → ((p.name ≢ name) ⊎ (is_virtual p ≡ true)) ⊎ ((p.name ≡ name) × (is_virtual p ≡ false))
  differs_or_named {name} p = ground (arith, eq_iff p.name name)

  listed :
      (name : String) (ps : List Pool)
      → All (λ p. (p.name ≢ name) ⊎ (is_virtual p ≡ true)) ps
        ⊎ ((p : Pool) × Elem p ps × (p.name ≡ name) × (is_virtual p ≡ false))
  listed name [] = inl tt
  listed name (p ∷ ps) = elim (listed name ps) [
    | inr (q, q_in, named, concrete) ↦ inr (q, inr q_in, named, concrete)
    | inl none_here ↦ elim (differs_or_named p) [
      | inl other ↦ inl (other, none_here)
      | inr (named, concrete) ↦ inr (p, inl refl, named, concrete)
    ]
  ]

  -- Each node of the ledger, the last one of its id, is shown with its status: among the unassigned
  -- when the catalog gives it no pool, and otherwise in the status of its pool, unless the live
  -- catalog has no pool of that name that is not virtual.
  pub views_show :
      (n : NodeLedger)
      → IsLast n ledger.nodes
      → ((n.pool ≡ "")
          × ((s : NodeStatus) × Elem s (unassigned now m rs) × IsStatus now m rs "" n s))
        ⊎ ((n.pool ≢ "")
            × ((p : PoolStatus) × Elem p (pools now m rs)
                × (p.name ≡ n.pool)
                × ((s : NodeStatus) × Elem s p.nodes × IsStatus now m rs n.pool n s)))
        ⊎ ((n.pool ≢ "") × All (λ p. (p.name ≢ n.pool) ⊎ (is_virtual p ≡ true)) m.live.pools)
  unfolding unassigned pools
  views_show n last = elim (Bool-cases (n.pool == "")) [
    | inl e ↦ inl (
      (eq_iff n.pool "").0 e,
      (
        status_in now m rs "" n,
        elem-sort status_less (status_in now m rs "" n) _ (
            elem-map (status_in now m rs "") n _
              (elem-select _ n (last_nodes ledger.nodes) (elem-last_nodes n ledger.nodes last) e)),
        status_in-IsStatus "" n,
      ),
    )
    | inr e ↦ elim (listed n.pool m.live.pools) [
      | inr (p, p_in, named, concrete) ↦ inr (
          inl (
            ground (arith, eq_iff n.pool ""),
            (
              pool_status now m rs ledger p,
              elem-map (pool_status now m rs ledger) p m.live.pools p_in,
              named,
              (
                node_status now m rs n,
                elem-nodes_under p n (IsLast-elem n ledger.nodes last) (ground arith) e concrete,
                status_in-IsStatus n.pool n,
              ),
            ),
          ))
      | inl unknown ↦ inr (inr (ground (arith, eq_iff n.pool ""), unknown))
    ]
  ]
