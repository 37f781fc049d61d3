-- ===== src/Sched/Ledger/Capacity.antt =====
-- The slots of the nodes (charge, internal/sched/ledger.go).
use distributed_test_runner.Base.{
  ◌+◌, ◌≤◌, ◌<◌, ◌≡◌, inl, inr, refl, String, none, some, List, [], ◌∷◌, arith, eq_iff, Elem, All,
  ◌==◌, if◌then◌else◌,
}
use distributed_test_runner.Base.Keyed.{find_by, Unique}
use distributed_test_runner.Model.Entities.{Run}
use distributed_test_runner.Sched.Ledger.{NodeLedger, Ledger, node_id, bump, charge}
use distributed_test_runner.Sched.Ledger.Rules.{placed}

abbrev pub one_more : NodeLedger → NodeLedger
one_more n = record n { used = n.used + 1 }

-- No node holds more runs than it has slots.
abbrev pub Fits : NodeLedger → Type 0
Fits n = n.used ≤ n.info.slots

find_by-bump :
    (id j : String) (ns : List NodeLedger)
    → Unique node_id ns
    → find_by node_id j (bump id ns) ≡ (
        if id == j
        then elim (find_by node_id j ns) [ none ↦ none | some n ↦ some (one_more n) ]
        else find_by node_id j ns)
unfolding find_by bump
find_by-bump id j [] u = ground arith
find_by-bump id j (n ∷ ns) u =
    ground (arith, eq_iff n.info.id id, eq_iff n.info.id j, eq_iff id j, find_by-bump id j ns u.1)

bump-Unique : (id : String) (ns : List NodeLedger) → Unique node_id ns → Unique node_id (bump id ns)
unfolding bump
bump-Unique id [] u = u
bump-Unique id (n ∷ ns) u = ground (
  arith,
  eq_iff n.info.id id,
  eq_iff id n.info.id,
  find_by-bump id n.info.id ns u.1,
  bump-Unique id ns u.1,
)

bump-Fits :
    (id : String) (ns : List NodeLedger)
    → All Fits ns
    → ((m : NodeLedger) → Elem m ns → m.info.id ≡ id → m.used < m.info.slots)
    → All Fits (bump id ns)
unfolding bump
bump-Fits id [] h k = h
bump-Fits id (n ∷ ns) h k =
    ground (arith, eq_iff n.info.id id, k n (inl refl), bump-Fits id ns h.1 (λ m i. k m (inr i)))

-- In a list without a repeated id the node is the only one with its id.
pub find_by_self :
    (n : NodeLedger) (ns : List NodeLedger)
    → Unique node_id ns
    → Elem n ns
    → find_by node_id n.info.id ns ≡ some n
unfolding find_by
find_by_self n [] u m = absurd m
find_by_self n (x ∷ ns) u m = ground (arith, eq_iff x.info.id n.info.id, find_by_self n ns u.1)

-- The ledger lists each node once, and none is overcommitted.
pub record IsBalanced (l : Ledger) : Type 0 where
  pub unique : Unique node_id l.nodes
  pub fits : All Fits l.nodes

module _ (l : Ledger) (r : Run) (n : NodeLedger) (b : IsBalanced l) (listed : Elem n l.nodes) where
  -- Charging a run to a listed node takes one slot there, and none on any other node.
  pub find_by-charge :
      (id : String)
      → find_by node_id id (charge l (placed r n)).nodes
        ≡ (if n.info.id == id then some (one_more n) else find_by node_id id l.nodes)
  unfolding charge
  find_by-charge id = ground (
    arith,
    eq_iff n.info.id id,
    find_by-bump n.info.id id l.nodes b.unique,
    find_by_self n l.nodes b.unique listed,
  )

  only-node : (m : NodeLedger) → Elem m l.nodes → m.info.id ≡ n.info.id → m ≡ n
  only-node m i e =
      let p : find_by node_id m.info.id l.nodes ≡ some m = find_by_self m l.nodes b.unique i in
      let q : find_by node_id n.info.id l.nodes ≡ some n = find_by_self n l.nodes b.unique listed in
      ground arith

  -- Charging a run to a node of the ledger that has a slot free keeps the ledger balanced: it lists
  -- each node once still, and no node has more runs than slots.
  pub charge-IsBalanced : n.used < n.info.slots → IsBalanced (charge l (placed r n))
  unfolding charge
  charge-IsBalanced room = record {
    unique = bump-Unique n.info.id l.nodes b.unique;
    fits = bump-Fits n.info.id l.nodes b.fits (λ m i e. rw (only-node m i e) room);
  }
