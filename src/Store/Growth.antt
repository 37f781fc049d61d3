-- ===== src/Store/Growth.antt =====
-- AddRun and UpdateRegression (internal/store/store.go) keep the store's shape.
use mathlib.Core.Path.{subst}
use distributed_test_runner.Base.{
  ℕ, zero, suc, ◌≡◌, refl, ap, ◌∙◌, String, ◌==◌, eq_iff, none, some, List, [], ◌∷◌, ◌++◌,
  if◌then◌else◌, length, get_elem?, arith, Elem, append-elem, Option-cases, Bool-cases, inl, inr,
  ◌⊎◌,
}
use distributed_test_runner.Base.Dict.{lookup, insert, lookup-insert}
use distributed_test_runner.Model.Entities.{Run, Regression}
use distributed_test_runner.Store.{
  Rec, Store, touch, index_token, enter_run, add_run, run, regression,
}
use distributed_test_runner.Store.Shape.{Holds, IsSound}

module _ (heap : List Run) (r : Run) where
  pub get_elem?-extend :
      (h : List Run) (a : ℕ) {x : Run} → get_elem? h a ≡ some x → get_elem? (h ++ r ∷ []) a ≡ some x
  get_elem?-extend [] a e = absurd (cc)
  get_elem?-extend (y ∷ ys) zero e = e
  get_elem?-extend (y ∷ ys) (suc a) e = get_elem?-extend ys a e

  pub get_elem?-last : (h : List Run) → get_elem? (h ++ r ∷ []) (length h) ≡ some r
  get_elem?-last [] = refl
  get_elem?-last (y ∷ ys) = get_elem?-last ys

  -- What holds of an object holds of it in the longer heap, also in a weaker form.
  Holds-extend :
      (P Q : Run → Type 0) (a : ℕ)
      → ((x : Run) → P x → Q x)
      → Holds heap a P
      → Holds (heap ++ r ∷ []) a Q
  Holds-extend P Q a f (x, e, p) = (x, get_elem?-extend heap a e, f x p)

module _ (st : Store) (s : IsSound st) (r : Run) (fresh : lookup r.id st.by_run ≡ none) where
  old_id :
      (x : Run) {a : ℕ}
      → lookup x.id st.by_run ≡ some a
      → lookup x.id (insert r.id (length st.heap) st.by_run) ≡ some a
  old_id x e = ground (arith, lookup-insert r.id x.id (length st.heap) st.by_run, eq_iff r.id x.id)

  index_token_found :
      (token : String) (a : ℕ)
      → lookup token (index_token r.token (length st.heap) st.by_token) ≡ some a
      → ((a ≡ length st.heap) × (r.token ≡ token)) ⊎ (lookup token st.by_token ≡ some a)
  unfolding index_token
  index_token_found token a e =
      ground (arith, lookup-insert r.token token (length st.heap) st.by_token, eq_iff r.token token)

  index_run_found :
      (id : String) (a : ℕ)
      → lookup id (insert r.id (length st.heap) st.by_run) ≡ some a
      → ((a ≡ length st.heap) × (r.id ≡ id)) ⊎ (lookup id st.by_run ≡ some a)
  index_run_found id a e =
      ground (arith, lookup-insert r.id id (length st.heap) st.by_run, eq_iff r.id id)

  enter_run-IsSound : IsSound (enter_run st r)
  unfolding enter_run
  enter_run-IsSound = record {
    run_found = λ id a e. elim (index_run_found id a e) [
      | inl (at_end, named) ↦ (r, rw at_end (get_elem?-last st.heap r st.heap), named)
      | inr old ↦ Holds-extend st.heap r _ _ a (λ x p. p) (s.run_found id a old)
    ];
    token_found = λ token a e. elim (index_token_found token a e) [
      | inl (at_end, named) ↦ (r, rw at_end (get_elem?-last st.heap r st.heap), named)
      | inr old ↦ Holds-extend st.heap r _ _ a (λ x p. p) (s.token_found token a old)
    ];
    header_found = s.header_found;
    member_found = λ id rec a h m.
        Holds-extend st.heap r _ _ a (λ x (p, q). (p, old_id x q)) (s.member_found id rec a h m);
  }

  -- The record of the regression with the new attempt.
  add_to :
      (old : Rec) (new : Rec)
      → lookup r.regression_id st.by_reg ≡ some old
      → new.regression ≡ old.regression
      → new.runs ≡ old.runs ++ length st.heap ∷ []
      → IsSound (touch (record (enter_run st r) { by_reg = insert r.regression_id new st.by_reg }))
  unfolding touch enter_run
  add_to old new eo same_header grown =
      let full = enter_run-IsSound in
      record {
        run_found = full.run_found;
        token_found = full.token_found;
        header_found = λ id rec e. ground (
          arith,
          lookup-insert r.regression_id id new st.by_reg,
          eq_iff r.regression_id id,
          s.header_found id rec,
          s.header_found r.regression_id old eo,
        );
        member_found = λ id rec a e m. elim (Bool-cases (r.regression_id == id)) [
          | inl same ↦
              let p : r.regression_id ≡ id = (eq_iff r.regression_id id).0 same in
              let is_new : rec ≡ new =
                ground (arith, lookup-insert r.regression_id id new st.by_reg) in
              let m' : Elem a (old.runs ++ length st.heap ∷ []) =
                subst (Elem a) (ap (λ x. x.runs) is_new ∙ grown) m in
              elim (append-elem a old.runs (length st.heap ∷ []) m') [
                | inl before ↦ rw (← p) (full.member_found r.regression_id old a eo before)
                | inr (inl at_end) ↦ (
                  r,
                  rw (← at_end) (get_elem?-last st.heap r st.heap),
                  (
                    p,
                    rw (← at_end) (
                        ground (
                          arith,
                          lookup-insert r.id r.id (length st.heap) st.by_run,
                          eq_iff r.id r.id,
                        )),
                  ),
                )
                | inr (inr bad) ↦ absurd bad
              ]
          | inr other ↦
              full.member_found id rec a
                (ground (arith, lookup-insert r.regression_id id new st.by_reg)) m
        ];
      }

  -- Queuing a new attempt under an id that no run has keeps a store's sound shape: the record, the
  -- index of ids and the index of tokens lead to one object.
  pub add_run-IsSound : IsSound (add_run st r)
  unfolding add_run touch
  add_run-IsSound = elim (Option-cases (lookup r.regression_id st.by_reg)) [
    | inl n ↦ rw (n, add_run) s
    | inr (old, eo) ↦ rw (eo, add_run) (add_to old _ eo refl refl)
  ]

-- In a store of sound shape, after AddRun for a stored regression, the new run is found under its
-- id, and the others as before.
pub run-add_run :
    (st : Store) (r : Run) (old : Rec) (j : String)
    → IsSound st
    → lookup r.regression_id st.by_reg ≡ some old
    → run (add_run st r) j ≡ (if r.id == j then some r else run st j)
unfolding add_run run touch enter_run
run-add_run st r old j s e = elim (Option-cases (lookup j st.by_run)) [
  | inl n ↦ ground (
    arith,
    lookup-insert r.id j (length st.heap) st.by_run,
    eq_iff r.id j,
    get_elem?-last st.heap r st.heap,
  )
  | inr (a, ea) ↦
      let (q, eq', named) = s.run_found j a ea in
      ground (
        arith,
        lookup-insert r.id j (length st.heap) st.by_run,
        eq_iff r.id j,
        get_elem?-last st.heap r st.heap,
        get_elem?-extend st.heap r st.heap a {x = q} eq',
      )
]

pub regression-known :
    (st : Store) (id : String) {reg : Regression} {rs : List Run}
    → regression st id ≡ some (reg, rs)
    → (old : Rec) × (lookup id st.by_reg ≡ some old) × (old.regression ≡ reg)
unfolding regression
regression-known st id e = elim (Option-cases (lookup id st.by_reg)) [
  | inl n ↦ absurd (ground arith)
  | inr (old, eo) ↦ (old, eo, ground arith)
]
