-- ===== src/Store/Updates.antt =====
-- UpdateRun and UpdateRegression (internal/store/store.go): what they change, and that they keep the
-- store's shape.
use mathlib.Core.Option
use mathlib.Core.Path.{ap₂}
use distributed_test_runner.Base.{
  ℕ, ◌≡◌, refl, sym, ◌∙◌, String, true, false, ◌==◌, eq_iff, some, List, [], ◌∷◌, if◌then◌else◌,
  get_elem?, nat_eq, arith, Elem, map, ap, Option-cases, Bool-cases, inl, inr,
}
use distributed_test_runner.Base.Dict.{lookup}
use distributed_test_runner.Model.Entities.{Run, Regression}
use distributed_test_runner.Store.{Store, write, touch, update_run, load_all, run, regression}
use distributed_test_runner.Store.Shape.{Holds, IsSound, KeepsNames, get_elem?-write, Holds-write}

-- The update of one run by its id, as it shows in a list of values.
abbrev pub on_id : (Run → Run) → String → Run → Run
on_id f id r = if r.id == id then f r else r

module _ (st : Store) (s : IsSound st) (f : Run → Run) (k : KeepsNames f) where
  -- The store after a write that leaves the object its names.
  write-IsSound :
      (a : ℕ) (r : Run)
      → get_elem? st.heap a ≡ some r
      → IsSound (touch (record st { heap = write st.heap a (f r) }))
  unfolding touch
  write-IsSound a r e = record {
    run_found = λ id b h.
        Holds-write (λ x. x.id ≡ id) st.heap a b r (f r) e (λ p. k.id r ∙ p) (s.run_found id b h);
    token_found = λ token b h.
        Holds-write (λ x. x.token ≡ token) st.heap a b r (f r) e (λ p. k.token r ∙ p)
          (s.token_found token b h);
    header_found = s.header_found;
    member_found = λ id rec b h m.
        Holds-write (λ x. (x.regression_id ≡ id) × (lookup x.id st.by_run ≡ some b)) st.heap a b r
          (f r) e (λ (p, q). (k.regression_id r ∙ p, rw (k.id r) q)) (s.member_found id rec b h m);
  }

  -- An update that leaves a run its id, its regression and its token keeps a store's sound shape:
  -- each index still leads to an object of that name.
  pub update_run-IsSound : (id : String) → IsSound (update_run st id f).0
  unfolding update_run
  update_run-IsSound id = elim (Option-cases (lookup id st.by_run)) [
    | inl n ↦ rw (n, update_run) s
    | inr (a, ea) ↦
        let (r, er, named) = s.run_found id a ea in
        rw (ea, update_run) (rw er (write-IsSound a r er))
  ]

  -- In a store of sound shape, an update that leaves a run its names changes the run that it names, as
  -- Store.Run shows it, and no other; where there is no such run it changes nothing.
  pub run-update_run :
      (id j : String)
      → run (update_run st id f).0 j ≡ (if id == j then Option.map f (run st j) else run st j)
  unfolding update_run run touch
  run-update_run id j = elim (Option-cases (lookup id st.by_run)) [
    | inl n ↦ ground (arith, eq_iff id j)
    | inr (a, ea) ↦
        let (r, er, named) = s.run_found id a ea in
        elim (Option-cases (lookup j st.by_run)) [
          | inl nj ↦ ground (arith, eq_iff id j)
          | inr (b, eb) ↦
              let (q, eq', named') = s.run_found j b eb in
              ground (arith, eq_iff id j, get_elem?-write st.heap a b (f r) {x = r} er)
        ]
  ]

  load_all-write :
      (id : String) (a : ℕ) (r : Run) (as' : List ℕ)
      → lookup id st.by_run ≡ some a
      → get_elem? st.heap a ≡ some r
      → r.id ≡ id
      → ((b : ℕ) → Elem b as' → Holds st.heap b (λ q. lookup q.id st.by_run ≡ some b))
      → load_all (write st.heap a (f r)) as' ≡ map (on_id f id) (load_all st.heap as')
  unfolding load_all
  load_all-write id a r [] ea er named h = refl
  load_all-write id a r (b ∷ as') ea er named h =
      let (q, eq', at) = h b (inl refl) in
      let ih = load_all-write id a r as' ea er named (λ c m. h c (inr m)) in
      let w = get_elem?-write st.heap a b (f r) {x = r} er in
      elim (Bool-cases (nat_eq a b)) [
        | inl same ↦
            let is_r : q ≡ r = ground arith in
            let hit : (q.id == id) ≡ true = ground (arith, eq_iff q.id id) in
            rw (w, same, load_all) (rw (eq', load_all) (rw hit (ap₂ ◌∷◌ (ap f (sym is_r)) ih)))
        | inr other ↦
            let miss : (q.id == id) ≡ false = ground (arith, eq_iff q.id id) in
            rw (w, other, load_all) (rw (eq', load_all) (rw miss (ap (λ l. q ∷ l) ih)))
      ]

abbrev pub update_entry : (Run → Run) → Regression × List Run → Regression × List Run
update_entry g (reg, rs) = (reg, map g rs)

-- The aliasing of the runs: in a store of sound shape, an update of a run by its id that leaves it
-- its names shows, and nothing else changes, in what Store.Regression returns for any regression.
pub regression-update_run :
    (st : Store) (f : Run → Run) (id g : String)
    → IsSound st
    → KeepsNames f
    → regression (update_run st id f).0 g ≡ (
        if (update_run st id f).1
        then Option.map (update_entry (on_id f id)) (regression st g)
        else regression st g)
unfolding regression update_run touch
regression-update_run st f id g s k = elim (Option-cases (lookup id st.by_run)) [
  | inl n ↦ ground arith
  | inr (a, ea) ↦
      let (r, er, named) = s.run_found id a ea in
      elim (Option-cases (lookup g st.by_reg)) [
        | inl ng ↦ ground arith
        | inr (rec, eg) ↦
            let l =
              load_all-write st s f k id a r rec.runs ea er named
                (λ b m. let (q, eq', p) = s.member_found g rec b eg m in (q, eq', p.1)) in
            ground arith
      ]
]
