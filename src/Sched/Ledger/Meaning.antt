-- ===== src/Sched/Ledger/Meaning.antt =====
-- What a quota rule is about, said of the runs (count and poolsOf, internal/sched/ledger.go).
use mathlib.Core.List.{foldl}
use mathlib.Core.Path.{subst}
use distributed_test_runner.Base.{
  ◌≡◌, ◌≢◌, ◌↔◌, ◌⊎◌, inl, inr, refl, sym, ◌∙◌, String, Bool, true, false, ◌==◌, eq_iff, some, List,
  [], ◌∷◌, arith, Elem, append-elem, elem-append, Bool-cases, Option-cases,
}
use distributed_test_runner.Base.Keyed.{contains, contains→elem, elem→contains}
use distributed_test_runner.Model.State.{RunState, in_flight}
use distributed_test_runner.Model.Entities.{Run}
use distributed_test_runner.Config.Types.{Pool, QuotaRule, Catalog, is_virtual}
use distributed_test_runner.Config.Quota.{user_groups}
use distributed_test_runner.Sched.Ledger.{
  node_pool, pool, adjoin, concrete_pool, adjoin_spanning, pools_of, flight_of, sees_scope,
  sees_subject, counts,
}

-- The run holds a slot.
abbrev pub IsBusy : Run → Type 0
IsBusy r = (r.state ≡ RunState.dispatched) ⊎ (r.state ≡ RunState.running)

-- The pool that a run on the node counts in: the one that the node is assigned to or, when it has
-- none, the pool of the run, where that is a known pool of nodes of its own.
abbrev pub IsConcrete : Catalog → (pool_name node : String) → String → Type 0
IsConcrete c p node x =
    (x ≢ "")
    × (((node_pool c node ≢ "") × (x ≡ node_pool c node))
        ⊎ ((node_pool c node ≡ "")
            × (x ≡ p)
            × ((q : Pool) × (pool c p ≡ some q) × (is_virtual q ≡ false))))

-- The pools that a run counts in: its own, its concrete pool, and the virtual pools that span that.
abbrev pub CountsIn : Catalog → (pool_name node : String) → String → Type 0
CountsIn c p node t =
    (t ≡ p)
    ⊎ ((x : String) × IsConcrete c p node x
        × ((t ≡ x) ⊎ ((v : Pool) × Elem v c.pools × (v.name ≡ t) × Elem x v.spans)))

-- The rule is about slots where the run has its one.
abbrev pub InScope : Catalog → QuotaRule → Run → Type 0
InScope c q r =
    ((q.scope ≡ "pool") × CountsIn c r.pool r.node_name q.target)
    ⊎ ((q.scope ≡ "node") × (r.node_name ≡ q.target))
    ⊎ ((q.scope ≢ "pool") × (q.scope ≢ "node"))

-- The run is on the account that the rule keeps for the user: their own, or the common one.
abbrev pub OnAccount : Catalog → QuotaRule → String → Run → Type 0
OnAccount c q user r =
    ((q.together ≡ false) × (r.user ≡ user))
    ⊎ ((q.together ≡ true) × (q.subject ≡ "group") × Elem q.name (user_groups c r.user))
    ⊎ ((q.together ≡ true) × (q.subject ≢ "group"))

-- The rule counts the run for the user.
abbrev pub IsCounted : Catalog → QuotaRule → String → Run → Type 0
IsCounted c q user r = IsBusy r × InScope c q r × OnAccount c q user r

pub in_flight_iff : (r : Run) → (in_flight r.state ≡ true) ↔ IsBusy r
in_flight_iff r = (λ h. sound r.state h, λ h. complete r.state h)
  where
    sound : (s : RunState) → in_flight s ≡ true → (s ≡ RunState.dispatched) ⊎ (s ≡ RunState.running)
    sound RunState.dispatched h = inl refl
    sound RunState.running h = inr refl
    sound RunState.queued h = cc
    sound RunState.passed h = cc
    sound RunState.failed h = cc
    sound RunState.errored h = cc
    sound RunState.timeout h = cc
    sound RunState.canceled h = cc
    sound (RunState.other t) h = cc

    complete :
        (s : RunState) → (s ≡ RunState.dispatched) ⊎ (s ≡ RunState.running) → in_flight s ≡ true
    complete s (inl e) = rw e refl
    complete s (inr e) = rw e refl

adjoin_iff : (s : List String) (x t : String) → Elem t (adjoin s x) ↔ ((t ≡ x) ⊎ Elem t s)
unfolding adjoin
adjoin_iff s x t = elim (Bool-cases (contains s x)) [
  | inl h ↦ rw (h, adjoin) (inr, λ m. elim m [ inl e ↦ rw e (contains→elem s x h) | inr old ↦ old ])
  | inr h ↦
      rw (h, adjoin)
        (
          (λ m. elim (append-elem t s (x ∷ []) m) [
            | inl old ↦ inr old
            | inr (inl e) ↦ inl (sym e)
            | inr (inr bad) ↦ absurd bad
          ]),
          (λ m.
              elem-append t s (x ∷ []) (elim m [ inl e ↦ inr (inl (sym e)) | inr old ↦ inl old ])),
        )
]

node-ne-pool : ◌≢◌ {A = String} "node" "pool"
node-ne-pool e = cc ((eq_iff "node" "pool").1 e)

differ : (s t : String) → (s == t) ≡ false → s ≢ t
differ s t d e = let q = (eq_iff s t).1 e in cc

true_or_false : (b : Bool) → b ≡ true → b ≡ false → ⊥
true_or_false b t f = cc

not_empty_text : (s : String) → (s == "") ≡ false → s ≡ "" → ⊥
not_empty_text s d e = let q = (eq_iff s "").1 e in cc

empty_text : ("" == "") ≡ false → ⊥
empty_text e = cc

only_one : (p t : String) → Elem t (p ∷ []) → t ≡ p
only_one p t (inl e) = sym e
only_one p t (inr bad) = absurd bad

adjoin_spanning_iff :
    (concrete : String) (s : List String) (p : Pool) (t : String)
    → Elem t (adjoin_spanning concrete s p) ↔ (Elem t s ⊎ ((p.name ≡ t) × Elem concrete p.spans))
unfolding adjoin_spanning
adjoin_spanning_iff concrete s p t = elim (Bool-cases (contains p.spans concrete)) [
  | inl h ↦
      rw (h, adjoin_spanning)
        (
          (λ m. elim ((adjoin_iff s p.name t).0 m) [
            | inl e ↦ inr (sym e, contains→elem p.spans concrete h)
            | inr old ↦ inl old
          ]),
          (λ m.
              (adjoin_iff s p.name t).1 (elim m [ inl old ↦ inr old | inr (e, k) ↦ inl (sym e) ])),
        )
  | inr h ↦
      rw (h, adjoin_spanning)
        (
          (λ m. inl m),
          (λ m. elim m [
            | inl old ↦ old
            | inr (e, k) ↦ absurd (true_or_false _ (elem→contains p.spans concrete k) h)
          ]),
        )
]

-- A virtual pool of the list that spans the concrete pool.
abbrev Spanning : String → List Pool → String → Type 0
Spanning concrete ps t = (v : Pool) × Elem v ps × (v.name ≡ t) × Elem concrete v.spans

Spanning-iff :
    (concrete : String) (ps : List Pool) (s : List String) (t : String)
    → Elem t (foldl (adjoin_spanning concrete) s ps) ↔ (Elem t s ⊎ Spanning concrete ps t)
Spanning-iff concrete [] s t =
    ((λ m. inl m), (λ m. elim m [ inl old ↦ old | inr (v, bad, e, k) ↦ absurd bad ]))
Spanning-iff concrete (p ∷ ps) s t =
    let ih = Spanning-iff concrete ps (adjoin_spanning concrete s p) t in
    let step = adjoin_spanning_iff concrete s p t in
    (
      (λ m. elim (ih.0 m) [
        | inr (v, i, e, k) ↦ inr (v, inr i, e, k)
        | inl now ↦ elim (step.0 now) [ inl old ↦ inl old | inr (e, k) ↦ inr (p, inl refl, e, k) ]
      ]),
      (λ m. ih.1 (elim m [
        | inl old ↦ inl (step.1 (inl old))
        | inr (v, inl is_p, e, k) ↦ inl (step.1 (inr (rw is_p e, rw is_p k)))
        | inr (v, inr i, e, k) ↦ inr (v, i, e, k)
      ])),
    )

module _ (c : Catalog) (p node : String) where
  IsConcrete-concrete_pool :
      (concrete_pool c p node == "") ≡ false → IsConcrete c p node (concrete_pool c p node)
  unfolding concrete_pool
  IsConcrete-concrete_pool some_pool = elim (Bool-cases (node_pool c node == "")) [
    | inr n ↦
        rw (n, concrete_pool) ((λ e. not_empty_text _ n e), inl ((λ e. not_empty_text _ n e), refl))
    | inl n ↦ elim (Option-cases (pool c p)) [
      | inl k ↦ absurd (empty_text (rw (k) at (rw (n, concrete_pool) at some_pool)))
      | inr (q, k) ↦ elim (Bool-cases (is_virtual q)) [
        | inl v ↦ absurd (empty_text (rw v at (rw k at (rw (n, concrete_pool) at some_pool))))
        | inr v ↦
            let some_p : (p == "") ≡ false =
              rw v at (rw k at (rw (n, concrete_pool) at some_pool)) in
            rw (n, concrete_pool)
              (rw k (
                rw v (
                  (λ e. not_empty_text p some_p e),
                  inr ((eq_iff (node_pool c node) "").0 n, refl, (q, refl, v)),
                )))
      ]
    ]
  ]

  concrete_pool-IsConcrete : (x : String) → IsConcrete c p node x → concrete_pool c p node ≡ x
  unfolding concrete_pool
  concrete_pool-IsConcrete x (some_x, inl (some_pool, e)) =
      ground (arith, eq_iff (node_pool c node) "", e, some_pool)
  concrete_pool-IsConcrete x (some_x, inr (no_pool, e, (q, k, v))) =
      rw ((eq_iff (node_pool c node) "").1 no_pool, concrete_pool) (rw k (rw v (sym e)))

  pools_of-CountsIn : (t : String) → Elem t (pools_of c p node) → CountsIn c p node t
  unfolding pools_of
  pools_of-CountsIn t m =
      let x = concrete_pool c p node in
      elim (Bool-cases (x == "")) [
        | inl e ↦ inl (only_one p t (rw (e, pools_of) at m))
        | inr e ↦ elim ((Spanning-iff x c.pools (adjoin (p ∷ []) x) t).0 (rw (e, pools_of) at m)) [
          | inr (v, i, named, k) ↦ inr (x, IsConcrete-concrete_pool e, inr (v, i, named, k))
          | inl first ↦ elim ((adjoin_iff (p ∷ []) x t).0 first) [
            | inl is_x ↦ inr (x, IsConcrete-concrete_pool e, inl is_x)
            | inr is_p ↦ inl (only_one p t is_p)
          ]
        ]
      ]

  CountsIn-pools_of : (t : String) → CountsIn c p node t → Elem t (pools_of c p node)
  unfolding pools_of
  CountsIn-pools_of t m =
      let x = concrete_pool c p node in
      elim (Bool-cases (x == "")) [
        | inl e ↦
            rw (e, pools_of)
              (elim m [
                | inl is_p ↦ inl (sym is_p)
                | inr (y, k, rest) ↦
                    absurd (k.0 (sym (concrete_pool-IsConcrete y k) ∙ (eq_iff x "").0 e))
              ])
        | inr e ↦
            rw (e, pools_of)
              ((Spanning-iff x c.pools (adjoin (p ∷ []) x) t).1 (elim m [
                | inl is_p ↦ inl ((adjoin_iff (p ∷ []) x t).1 (inr (inl (sym is_p))))
                | inr (y, k, inl is_y) ↦
                    inl (
                      (adjoin_iff (p ∷ []) x t).1 (inl (is_y ∙ sym (concrete_pool-IsConcrete y k))))
                | inr (y, k, inr (v, i, named, spans)) ↦ inr (
                  v,
                  i,
                  named,
                  subst (λ z. Elem z v.spans) (sym (concrete_pool-IsConcrete y k)) spans,
                )
              ]))
      ]

  -- The pools that the code collects for a run are those that it counts in.
  pub pools_of_iff : (t : String) → Elem t (pools_of c p node) ↔ CountsIn c p node t
  pools_of_iff t = (pools_of-CountsIn t, CountsIn-pools_of t)

module _ (c : Catalog) (q : QuotaRule) (user : String) (r : Run) where
  sees_scope_iff : (sees_scope q (flight_of c r) ≡ true) ↔ InScope c q r
  unfolding sees_scope flight_of
  sees_scope_iff =
      let pools = pools_of c r.pool r.node_name in
      let both = pools_of_iff c r.pool r.node_name q.target in
      (
        (λ h. elim (Bool-cases (q.scope == "pool")) [
          | inl e ↦ inl (
            (eq_iff q.scope "pool").0 e,
            both.0 (contains→elem pools q.target (rw (e, sees_scope, flight_of) at h)),
          )
          | inr e ↦ elim (Bool-cases (q.scope == "node")) [
            | inl n ↦ inr (
                inl (
                  (eq_iff q.scope "node").0 n,
                  (eq_iff r.node_name q.target).0 (rw n at (rw (e, sees_scope, flight_of) at h)),
                ))
            | inr n ↦ inr (inr (differ q.scope "pool" e, differ q.scope "node" n))
          ]
        ]),
        (λ m. elim m [
          | inl (e, k) ↦
              rw ((eq_iff q.scope "pool").1 e, sees_scope, flight_of)
                (elem→contains pools q.target (both.1 k))
          | inr (inl (e, k)) ↦ ground (
            arith,
            eq_iff q.scope "node",
            eq_iff q.scope "pool",
            eq_iff r.node_name q.target,
            node-ne-pool,
          )
          | inr (inr (e, k)) ↦ ground (arith, eq_iff q.scope "node", eq_iff q.scope "pool")
        ]),
      )

  sees_subject_iff : (sees_subject c q user (flight_of c r) ≡ true) ↔ OnAccount c q user r
  unfolding sees_subject flight_of
  sees_subject_iff = (
    (λ h. ground (
      arith,
      eq_iff r.user user,
      eq_iff q.subject "group",
      contains→elem (user_groups c r.user) q.name,
    )),
    (λ h. ground (
      arith,
      eq_iff r.user user,
      eq_iff q.subject "group",
      elem→contains (user_groups c r.user) q.name,
    )),
  )

  -- What the code counts is what the rule is about.
  pub counts_iff : (counts c q user (flight_of c r) ≡ true) ↔ (InScope c q r × OnAccount c q user r)
  unfolding counts
  counts_iff = (
    (λ h. (sees_scope_iff.0 (ground (arith, h)), sees_subject_iff.0 (ground (arith, h)))),
    (λ (s, a). rw (sees_scope_iff.1 s, counts) (sees_subject_iff.1 a)),
  )
