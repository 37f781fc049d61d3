-- ===== src/Store/Added.antt =====
-- What AddRun stores (internal/store/store.go): the new attempt under its id and its token, at the end
-- of its regression, and everything else as before.
use distributed_test_runner.Base.{
  ℕ, ◌≡◌, refl, ap, String, ◌==◌, eq_iff, none, some, List, [], ◌∷◌, ◌++◌, length, get_elem?, arith,
  Elem, inl, inr, ◌≢◌, Option-cases, if◌then◌else◌,
}
use distributed_test_runner.Base.Dict.{lookup, insert, lookup-insert}
use distributed_test_runner.Model.Entities.{Run, Regression}
use distributed_test_runner.Store.{
  Rec, Store, touch, index_token, enter_run, load_all, tokens_from, tokens_of, add_run, run,
  run_by_token, regression,
}
use distributed_test_runner.Store.Shape.{IsSound}
use distributed_test_runner.Store.Growth.{
  get_elem?-extend, get_elem?-last, add_run-IsSound, run-add_run,
}
use distributed_test_runner.Store.Members.{record_found}

-- The last run of a token is the one that its record saves for the token.
lookup-tokens_from :
    (m : List (String × String)) (rs : List Run) (r : Run)
    → r.token ≢ ""
    → lookup r.token (tokens_from m (rs ++ r ∷ [])) ≡ some r.id
unfolding tokens_from
lookup-tokens_from m [] r t =
    ground (arith, eq_iff r.token "", eq_iff r.token r.token, lookup-insert r.token r.token r.id m)
lookup-tokens_from m (x ∷ xs) r t =
    lookup-tokens_from (if x.token == "" then m else insert x.token x.id m) xs r t

-- The objects of a record in a heap with one more.
load_all-extend :
    (heap : List Run) (r : Run) (as' : List ℕ)
    → ((a : ℕ) → Elem a as' → (x : Run) × (get_elem? heap a ≡ some x))
    → load_all (heap ++ r ∷ []) as' ≡ load_all heap as'
unfolding load_all
load_all-extend heap r [] f = refl
load_all-extend heap r (a ∷ as') f =
    let (x, e) = f a (inl refl) in
    let later = get_elem?-extend heap r heap a {x = x} e in
    let rest = load_all-extend heap r as' (λ b m. f b (inr m)) in
    rw (e, later, load_all) (ap (λ xs. x ∷ xs) rest)

load_all-last :
    (heap : List Run) (r : Run) (as' : List ℕ)
    → ((a : ℕ) → Elem a as' → (x : Run) × (get_elem? heap a ≡ some x))
    → load_all (heap ++ r ∷ []) (as' ++ length heap ∷ []) ≡ load_all heap as' ++ r ∷ []
unfolding load_all
load_all-last heap r [] f = rw (get_elem?-last heap r heap, load_all) refl
load_all-last heap r (a ∷ as') f =
    let (x, e) = f a (inl refl) in
    let later = get_elem?-extend heap r heap a {x = x} e in
    let rest = load_all-last heap r as' (λ b m. f b (inr m)) in
    rw (e, later, load_all) (ap (λ xs. x ∷ xs) rest)

-- The store `after` is `before` with the attempt `r` at the end of the regression `reg` of runs `rs`.
pub record IsAdded (before : Store) (reg : Regression) (rs : List Run) (r : Run) (after : Store)
    : Type 0 where
  pub by_id : run after r.id ≡ some r
  pub by_token : run_by_token after r.token ≡ some r
  pub member : regression after r.regression_id ≡ some (reg, rs ++ r ∷ [])
  pub saved :
      (rec : Rec) × (lookup r.regression_id after.by_reg ≡ some rec)
      × (lookup r.token rec.tokens ≡ some r.id)
  pub other_ids : (id : String) → id ≢ r.id → run after id ≡ run before id
  pub other_tokens :
      (token : String) → token ≢ r.token → run_by_token after token ≡ run_by_token before token
  pub other_regressions :
      (id : String) → id ≢ r.regression_id → regression after id ≡ regression before id
  pub sound : IsSound after

module _ (st : Store) (r : Run) (s : IsSound st) where
  module _ (old : Rec) (e : lookup r.regression_id st.by_reg ≡ some old) where
    run_by_token-new : r.token ≢ "" → run_by_token (add_run st r) r.token ≡ some r
    unfolding add_run enter_run touch index_token run_by_token
    run_by_token-new t = ground (
      arith,
      lookup-insert r.token r.token (length st.heap) st.by_token,
      eq_iff r.token r.token,
      eq_iff r.token "",
      get_elem?-last st.heap r st.heap,
    )

    run_by_token-other :
        (token : String)
        → token ≢ r.token
        → run_by_token (add_run st r) token ≡ run_by_token st token
    unfolding add_run enter_run touch index_token run_by_token
    run_by_token-other token differs = elim (Option-cases (lookup token st.by_token)) [
      | inl n ↦
          ground
            (arith, lookup-insert r.token token (length st.heap) st.by_token, eq_iff r.token token)
      | inr (a, ea) ↦
          let (q, at, named) = s.token_found token a ea in
          ground (
            arith,
            lookup-insert r.token token (length st.heap) st.by_token,
            eq_iff r.token token,
            get_elem?-extend st.heap r st.heap a {x = q} at,
          )
    ]

    found_all :
        (id : String) (rec : Rec)
        → lookup id st.by_reg ≡ some rec
        → (a : ℕ) → Elem a rec.runs
        → (x : Run) × (get_elem? st.heap a ≡ some x)
    found_all id rec known a m = let (x, at, rest) = s.member_found id rec a known m in (x, at)

    grown : Rec
    grown = record {
      regression = old.regression;
      runs = old.runs ++ length st.heap ∷ [];
      tokens = tokens_of (load_all (st.heap ++ r ∷ []) (old.runs ++ length st.heap ∷ []));
    }

    by_reg-add_run : (add_run st r).by_reg ≡ insert r.regression_id grown st.by_reg
    unfolding add_run enter_run touch grown
    by_reg-add_run = rw (e, add_run) refl

    record_of-add_run : lookup r.regression_id (add_run st r).by_reg ≡ some grown
    record_of-add_run = ground (
      arith,
      by_reg-add_run,
      lookup-insert r.regression_id r.regression_id grown st.by_reg,
      eq_iff r.regression_id r.regression_id,
    )

    heap-add_run : (add_run st r).heap ≡ st.heap ++ r ∷ []
    unfolding add_run enter_run touch
    heap-add_run = rw (e, add_run) refl

    regression-other :
        (id : String) → id ≢ r.regression_id → regression (add_run st r) id ≡ regression st id
    unfolding regression
    regression-other id differs = elim (Option-cases (lookup id st.by_reg)) [
      | inl n ↦ ground (
        arith,
        by_reg-add_run,
        lookup-insert r.regression_id id grown st.by_reg,
        eq_iff r.regression_id id,
      )
      | inr (rec, known) ↦
          let same = load_all-extend st.heap r rec.runs (found_all id rec known) in
          ground (
            arith,
            by_reg-add_run,
            lookup-insert r.regression_id id grown st.by_reg,
            heap-add_run,
            eq_iff r.regression_id id,
          )
    ]

    tokens-add_run : r.token ≢ "" → lookup r.token grown.tokens ≡ some r.id
    unfolding grown tokens_of
    tokens-add_run t =
        rw (load_all-last st.heap r old.runs (found_all r.regression_id old e))
          (lookup-tokens_from [] (load_all st.heap old.runs) r t)

    regression-new :
        regression (add_run st r) r.regression_id
        ≡ some (old.regression, load_all st.heap old.runs ++ r ∷ [])
    unfolding regression grown
    regression-new =
        let last = load_all-last st.heap r old.runs (found_all r.regression_id old e) in
        ground (arith, record_of-add_run, heap-add_run)

  -- AddRun of an attempt with a token, under an id that no run has, of a stored regression: the
  -- attempt is found under its id, under its token and last among the runs of the regression, whose
  -- record saves the token for it; every other id, token and regression shows what it showed, and
  -- the store keeps its sound shape.
  pub add_run-IsAdded :
      (reg : Regression) (rs : List Run)
      → lookup r.id st.by_run ≡ none
      → r.token ≢ ""
      → regression st r.regression_id ≡ some (reg, rs)
      → IsAdded st reg rs r (add_run st r)
  add_run-IsAdded reg rs fresh t h =
      let (old, e, header, same) = record_found st r.regression_id h in
      record {
        by_id = ground (arith, run-add_run st r old r.id s e, eq_iff r.id r.id);
        by_token = run_by_token-new old e t;
        member = rw (← header, ← same) (regression-new old e);
        saved = (grown old e, record_of-add_run old e, tokens-add_run old e t);
        other_ids = λ id differs. ground (arith, run-add_run st r old id s e, eq_iff r.id id);
        other_tokens = run_by_token-other old e;
        other_regressions = regression-other old e;
        sound = add_run-IsSound st s r fresh;
      }
