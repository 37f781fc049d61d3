-- ===== src/Sched/Nodes/Closed.antt =====
-- The catalog in force, over the operations of internal/sched/nodes.go and catalog.go.
use distributed_test_runner.Base.{
  ℕ, ◌≡◌, refl, ap, inl, inr, String, true, Option, List, Bool-cases, Option-cases,
}
use distributed_test_runner.Base.Dict.{insert}
use distributed_test_runner.Base.Result.{Result, ok, err, ok-injective, Result-cases}
use distributed_test_runner.Config.Types.{Catalog}
use distributed_test_runner.Config.Catalog.{set_node}
use distributed_test_runner.Config.Catalog.Edits.{IsClosed}
use distributed_test_runner.Config.Live.{live_catalog, clone}
use distributed_test_runner.Config.Live.Closed.{live_catalog-IsClosed}
use distributed_test_runner.Backend.{NodeInfo}
use distributed_test_runner.Sched.Nodes.{
  AgentInfo, Master, ApplyError, set_catalog, apply_catalog, heartbeat, reload_catalog,
  refresh_inventory, known_node, first_pool, equal, loaded_or_none,
}

refused :
    {A : Type 0} {a : A} {why : ApplyError} → ◌≡◌ {A = Result ApplyError A} (err why) (ok a) → ⊥
refused e = cc

set_catalog-IsClosed :
    (cat : Catalog) (m after : Master) → set_catalog cat m ≡ ok after → IsClosed after.live
unfolding set_catalog
set_catalog-IsClosed cat m after e = elim (Result-cases (live_catalog cat)) [
  | inl (why, f) ↦ absurd (refused (rw (f, set_catalog) at e))
  | inr (live, f) ↦
      let same : live ≡ after.live =
        ap (λ (x : Master). x.live) (ok-injective (rw (f, set_catalog) at e)) in
      rw (← same) (live_catalog-IsClosed cat live f)
]

module _ (marshal : Catalog → String) (save : Catalog → Option String) where
  apply_catalog-IsClosed :
      (cat : Catalog) (m after : Master)
      → IsClosed m.live
      → apply_catalog marshal save cat m ≡ ok after
      → IsClosed after.live
  unfolding apply_catalog
  apply_catalog-IsClosed cat m after closed e = elim (Result-cases (live_catalog cat)) [
    | inl (why, f) ↦ absurd (refused (rw (f, apply_catalog) at e))
    | inr (live, f) ↦ elim (Bool-cases (equal marshal cat m.raw)) [
      | inl q ↦
          let same : m ≡ after = ok-injective (rw q at (rw (f, apply_catalog) at e)) in
          rw (← same) closed
      | inr q ↦ elim (Option-cases (save cat)) [
        | inr (why, s) ↦ absurd (refused (rw s at (rw q at (rw (f, apply_catalog) at e))))
        | inl s ↦ set_catalog-IsClosed cat m after (rw s at (rw q at (rw (f, apply_catalog) at e)))
      ]
    ]
  ]

  heartbeat-IsClosed :
      (now : ℕ) (a : AgentInfo) (m : Master)
      → IsClosed m.live
      → IsClosed (heartbeat marshal save now a m).live
  unfolding heartbeat
  heartbeat-IsClosed now a m closed =
      let seen = record m { agents = insert a.name (record a { seen_at = now }) m.agents } in
      let registered =
        set_node (record { name = a.name; pool = first_pool marshal m.raw a }) (clone m.raw) in
      elim (Bool-cases (known_node marshal m.raw a.name)) [
        | inl k ↦ rw (k, heartbeat) closed
        | inr k ↦ elim (Result-cases (apply_catalog marshal save registered seen)) [
          | inl (why, e) ↦ rw (k, heartbeat) (rw e closed)
          | inr (after, e) ↦
              rw (k, heartbeat) (rw e (apply_catalog-IsClosed registered seen after closed e))
        ]
      ]

  -- A heartbeat of a node that the catalog knows leaves both catalogs as they are.
  heartbeat-known :
      (now : ℕ) (a : AgentInfo) (m : Master)
      → known_node marshal m.raw a.name ≡ true
      → ((heartbeat marshal save now a m).raw ≡ m.raw)
        × ((heartbeat marshal save now a m).live ≡ m.live)
  unfolding heartbeat
  heartbeat-known now a m k = (rw (k, heartbeat) refl, rw (k, heartbeat) refl)

reload_catalog-IsClosed :
    (loaded : Result String (Option Catalog)) (m after : Master)
    → reload_catalog loaded m ≡ ok after
    → IsClosed after.live
unfolding reload_catalog
reload_catalog-IsClosed (err why) m after e = absurd (refused e)
reload_catalog-IsClosed (ok held) m after e = set_catalog-IsClosed (loaded_or_none held) m after e

-- What changes the master's catalogs, agents and inventory while it runs, each with any answer of
-- the store or of the backend.
pub data Reached (marshal : Catalog → String) : Master → Type 0 where
  started :
      (cat : Catalog) (m : Master) {after : Master}
      → set_catalog cat m ≡ ok after
      → Reached marshal after
  applied :
      {m : Master}
      → Reached marshal m
      → (save : Catalog → Option String) (cat : Catalog) {after : Master}
      → apply_catalog marshal save cat m ≡ ok after
      → Reached marshal after
  heard :
      (m : Master)
      → Reached marshal m
      → (save : Catalog → Option String) (now : ℕ) (a : AgentInfo)
      → Reached marshal (heartbeat marshal save now a m)
  reloaded :
      {m : Master}
      → Reached marshal m
      → (loaded : Result String (Option Catalog)) {after : Master}
      → reload_catalog loaded m ≡ ok after
      → Reached marshal after
  refreshed :
      (m : Master)
      → Reached marshal m
      → (answer : Result String (List NodeInfo)) → Reached marshal (refresh_inventory answer m)

refresh_inventory-IsClosed :
    (answer : Result String (List NodeInfo)) (m : Master)
    → IsClosed m.live
    → IsClosed (refresh_inventory answer m).live
unfolding refresh_inventory
refresh_inventory-IsClosed (err why) m closed = closed
refresh_inventory-IsClosed (ok nodes) m closed = closed

-- After the first catalog was set, whatever sequence of catalogs applied, heartbeats, reloads and
-- refreshes of the inventory follows: in the catalog in force every reference names something that
-- it declares.
pub Reached-IsClosed :
    (marshal : Catalog → String) (m : Master) → Reached marshal m → IsClosed m.live
Reached-IsClosed marshal _ (started cat m {after} e) = set_catalog-IsClosed cat m after e
Reached-IsClosed marshal _ (applied {m} r save cat {after} e) =
    apply_catalog-IsClosed marshal save cat m after (Reached-IsClosed marshal m r) e
Reached-IsClosed marshal _ (heard m r save now a) =
    heartbeat-IsClosed marshal save now a m (Reached-IsClosed marshal m r)
Reached-IsClosed marshal _ (reloaded {m} r loaded {after} e) =
    reload_catalog-IsClosed loaded m after e
Reached-IsClosed marshal _ (refreshed m r answer) =
    refresh_inventory-IsClosed answer m (Reached-IsClosed marshal m r)
