-- ===== src/Config/Live/Closed.antt =====
-- The live catalog (Catalog.Normalize, internal/config/catalog.go) uses no name that it does not hold.
use distributed_test_runner.Base.{
  ℕ, suc, ◌≡◌, inl, inr, refl, String, ◌==◌, eq_iff, List, [], ◌∷◌, map, arith, All, All-imp,
  Bool-cases,
}
use distributed_test_runner.Base.Result.{Result, ok, err, >>=-eq-ok, ok-injective}
use distributed_test_runner.Config.Types.{Pool, Node, Catalog}
use distributed_test_runner.Config.Catalog.{pool_name}
use distributed_test_runner.Config.Catalog.Pruned.{All-map}
use distributed_test_runner.Config.Catalog.Edits.{
  IsKnown, IsAssigned, SpansKnown, IsClosed, IsKnown-map,
}
use distributed_test_runner.Config.Rules.{RuleError, validate_quotas}
use distributed_test_runner.Config.Rules.Grounded.{validate_quotas-IsGrounded}
use distributed_test_runner.Config.Live.{
  clone, check_pool_names, check_spans, inherited, check_all_spans, with_cache_dir, live_pool,
  check_runtimes, check_assignment, check_nodes, all_agree, quota_result, with_live_pools,
  check_live, live_catalog,
}

spans_known :
    (pools : List Pool) (name : String) (seen spans : List String)
    → check_spans pools name seen spans ≡ ok tt
    → All (λ s. IsKnown pool_name s pools) spans
unfolding check_spans
spans_known pools name seen [] h = tt
spans_known pools name seen (s ∷ spans) h =
    (λ e. ground arith, spans_known pools name (s ∷ seen) spans (ground arith))

all-SpansKnown :
    (pools ps : List Pool) → check_all_spans pools ps ≡ ok tt → All (SpansKnown pools) ps
unfolding check_all_spans
all-SpansKnown pools [] h = tt
all-SpansKnown pools (p ∷ ps) h =
    let (u, first, rest) =
      >>=-eq-ok (check_spans pools p.name [] p.spans) (λ _. check_all_spans pools ps) h in
    (spans_known pools p.name [] p.spans first, all-SpansKnown pools ps rest)

-- Filling in a pool leaves its name and its members.
inherited-names :
    (pools : List Pool) (p : Pool) (spans : List String)
    → ((inherited pools p spans).name ≡ p.name) × ((inherited pools p spans).spans ≡ p.spans)
unfolding inherited
inherited-names pools p [] = (refl, refl)
inherited-names pools p (s ∷ spans) = (ground arith, ground arith)

live_pool-names :
    (pools : List Pool) (p : Pool)
    → ((live_pool pools p).name ≡ p.name) × ((live_pool pools p).spans ≡ p.spans)
unfolding live_pool with_cache_dir
live_pool-names pools p =
    let (n, s) = inherited-names pools p p.spans in (ground arith, ground arith)

assignment_known :
    (pools : List Pool) (n : Node) → check_assignment pools n ≡ ok tt → IsAssigned pools n
unfolding check_assignment
assignment_known pools n h = elim (Bool-cases (n.pool == "")) [
  | inl free ↦ inl (ground (arith, eq_iff n.pool ""))
  | inr assigned ↦ inr (λ e. ground arith)
]

nodes_known :
    (pools : List Pool) (i : ℕ) (seen : List String) (ns : List Node)
    → check_nodes pools i seen ns ≡ ok tt
    → All (IsAssigned pools) ns
unfolding check_nodes
nodes_known pools i seen [] h = tt
nodes_known pools i seen (n ∷ ns) h =
    let (u, first, rest) =
      >>=-eq-ok (check_assignment pools n) (λ _. check_nodes pools (suc i) (n.name ∷ seen) ns)
        (ground arith) in
    (assignment_known pools n first, nodes_known pools (suc i) (n.name ∷ seen) ns rest)

live-SpansKnown :
    (pools : List Pool)
    → All (SpansKnown pools) pools
    → All (SpansKnown (map (live_pool pools) pools)) (map (live_pool pools) pools)
live-SpansKnown pools h =
    All-map (SpansKnown pools) (SpansKnown (map (live_pool pools) pools)) (live_pool pools) pools
      (λ p known. rw ((live_pool-names pools p).1) (
        All-imp (λ s. IsKnown pool_name s pools) _ p.spans
          (λ s k.
            IsKnown-map pool_name (live_pool pools) s pools (λ q. (live_pool-names pools q).0) k)
          known))
      h

quota_result-ok : (r : Result RuleError Unit) → quota_result r ≡ ok tt → r ≡ ok tt
quota_result-ok (ok tt) h = refl
quota_result-ok (err e) h = cc

check_live-IsClosed :
    (n live : Catalog) → All (SpansKnown n.pools) n.pools → check_live n ≡ ok live → IsClosed live
unfolding check_live
check_live-IsClosed n live spans h =
    let (a, runtimes, h1) = >>=-eq-ok (check_runtimes n.pools) _ h in
    let (b, nodes, h2) = >>=-eq-ok (check_nodes n.pools 0 [] n.nodes) _ h1 in
    let (d, agree, h3) = >>=-eq-ok (all_agree n.pools n.pools) _ h2 in
    let (e, quotas, h4) = >>=-eq-ok (quota_result (validate_quotas n)) _ h3 in
    let (groups, rules) =
      validate_quotas-IsGrounded n (quota_result-ok (validate_quotas n) quotas) in
    rw (← ok-injective h4) (record {
      nodes = nodes_known n.pools 0 [] n.nodes nodes;
      spans = spans;
      groups = groups;
      rules = rules;
    })

-- A catalog that Normalize accepts is closed when it goes live: each node is unassigned or in a pool of
-- it, each virtual pool spans pools of it, each user's groups are groups of it, and each rule names a
-- user, group, pool or node of it.
pub live_catalog-IsClosed : (c live : Catalog) → live_catalog c ≡ ok live → IsClosed live
unfolding live_catalog
live_catalog-IsClosed c live h =
    let n = clone c in
    let (a, names, h1) = >>=-eq-ok (check_pool_names 0 [] n.pools) _ h in
    let (b, spans, h2) = >>=-eq-ok (check_all_spans n.pools n.pools) _ h1 in
    check_live-IsClosed (with_live_pools n) live
      (live-SpansKnown n.pools (all-SpansKnown n.pools n.pools spans)) h2
