-- ===== src/Store/Members.antt =====
-- The runs and headers that Store.Regression and Store.Run show (internal/store/store.go).
use distributed_test_runner.Base.{
  ℕ, ◌≡◌, refl, sym, ap, ◌∙◌, String, some, List, [], ◌∷◌, arith, eq_iff, inl, inr, Elem, get_elem?,
  Option-cases,
}
use distributed_test_runner.Base.Dict.{lookup, lookup-insert}
use distributed_test_runner.Model.Entities.{Run, Regression}
use distributed_test_runner.Store.{
  Rec, Store, touch, load_all, update_run, update_regression, run, regression,
}
use distributed_test_runner.Store.Shape.{IsSound}

load_all-elem :
    (heap : List Run) (as' : List ℕ) (r : Run)
    → Elem r (load_all heap as')
    → (a : ℕ) × Elem a as' × (get_elem? heap a ≡ some r)
unfolding load_all
load_all-elem heap [] r m = absurd m
load_all-elem heap (a ∷ as') r m = elim (Option-cases (get_elem? heap a)) [
  | inl n ↦ let (b, mb, e) = load_all-elem heap as' r (rw (n, load_all) at m) in (b, inr mb, e)
  | inr (q, e) ↦ elim (rw (e, load_all) at m) [
    | inl is ↦ (a, inl refl, e ∙ ap some is)
    | inr more ↦ let (b, mb, e') = load_all-elem heap as' r more in (b, inr mb, e')
  ]
]

pub record_found :
    (st : Store) (id : String) {reg : Regression} {rs : List Run}
    → regression st id ≡ some (reg, rs)
    → (rec : Rec) × (lookup id st.by_reg ≡ some rec)
      × (rec.regression ≡ reg)
      × (load_all st.heap rec.runs ≡ rs)
unfolding regression
record_found st id {reg} {rs} h = elim (Option-cases (lookup id st.by_reg)) [
  | inl n ↦ absurd (ground arith)
  | inr (rec, e) ↦ (rec, e, ground arith, ground arith)
]

run-at :
    (st : Store) (r : Run) (a : ℕ)
    → lookup r.id st.by_run ≡ some a
    → get_elem? st.heap a ≡ some r
    → run st r.id ≡ some r
unfolding run
run-at st r a e at = rw (e, run) at

some-injective : {A : Type 0} {a b : A} → some a ≡ some b → a ≡ b
some-injective h = cc

-- In a store of sound shape a run that is shown with its regression is the one shown under its id.
pub run-member :
    (st : Store) (id : String) (reg : Regression) (rs : List Run) (r : Run)
    → IsSound st
    → regression st id ≡ some (reg, rs)
    → Elem r rs
    → run st r.id ≡ some r
run-member st id reg rs r s h m =
    let (rec, e, header, same) = record_found st id h in
    let (a, listed, at) = load_all-elem st.heap rec.runs r (rw (← same) at m) in
    let (q, eq', (home, indexed)) = s.member_found id rec a e listed in
    run-at st r a (rw (some-injective (sym eq' ∙ at)) at indexed) at

pub by_reg-update_run :
    (st : Store) (id : String) (f : Run → Run) → (update_run st id f).0.by_reg ≡ st.by_reg
unfolding update_run touch
by_reg-update_run st id f = ground arith

pub run-update_regression :
    (st : Store) (id j : String) (f : Regression → List Run → Regression)
    → run (update_regression st id f).0 j ≡ run st j
unfolding update_regression touch run
run-update_regression st id j f = ground arith

-- An update of a known regression changes its header, by the runs that it has, and no run.
pub regression-update_regression :
    (st : Store) (id : String) (f : Regression → List Run → Regression) (reg : Regression)
    (rs : List Run)
    → regression st id ≡ some (reg, rs)
    → regression (update_regression st id f).0 id ≡ some (f reg rs, rs)
unfolding update_regression touch regression
regression-update_regression st id f reg rs h =
    let (rec, e, header, same) = record_found st id h in
    let l =
      lookup-insert id id (record rec { regression = f rec.regression (load_all st.heap rec.runs) })
        st.by_reg in
    ground (arith, eq_iff id id)
