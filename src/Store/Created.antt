-- ===== src/Store/Created.antt =====
-- What Store.Create stores (internal/store/store.go).
use mathlib.Core.List.{append_assoc, append-nil}
use distributed_test_runner.Base.{
  suc, ◌≡◌, refl, sym, ap, ◌∙◌, String, true, none, some, List, [], ◌∷◌, ◌++◌, arith, eq_iff,
  length, length-append, get_elem?,
}
use distributed_test_runner.Base.Dict.{lookup, insert, lookup-insert}
use distributed_test_runner.Model.Entities.{Run, Regression}
use distributed_test_runner.Store.{
  Rec, Store, touch, load_all, enter_run, enter_runs, addresses, tokens_of, create, regression,
}

by_reg-enter_runs : (st : Store) (rs : List Run) → (enter_runs st rs).by_reg ≡ st.by_reg
unfolding enter_runs
by_reg-enter_runs st [] = refl
by_reg-enter_runs st (r ∷ rs) = by_reg-enter_runs (enter_run st r) rs

heap-enter_runs : (st : Store) (rs : List Run) → (enter_runs st rs).heap ≡ st.heap ++ rs
unfolding enter_runs
heap-enter_runs st [] = sym (append-nil st.heap)
heap-enter_runs st (r ∷ rs) = heap-enter_runs (enter_run st r) rs ∙ append_assoc st.heap (r ∷ []) rs

get_elem?-length :
    {A : Type 0} (xs : List A) (a : A) (ys : List A) → get_elem? (xs ++ a ∷ ys) (length xs) ≡ some a
get_elem?-length [] a ys = refl
get_elem?-length (x ∷ xs) a ys = ground (arith, get_elem?-length xs a ys)

length-append-one : {A : Type 0} (xs : List A) (a : A) → length (xs ++ a ∷ []) ≡ suc (length xs)
length-append-one xs a = omega (arith, length-append xs (a ∷ []))

load_all-addresses :
    (xs rs : List Run) → load_all (xs ++ rs) (addresses (length xs) (length rs)) ≡ rs
unfolding load_all addresses
load_all-addresses xs [] = refl
load_all-addresses xs (r ∷ rs) =
    let more = load_all-addresses (xs ++ r ∷ []) rs in
    let e = append_assoc xs (r ∷ []) rs in
    let l = length-append-one xs r in
    let more' : load_all (xs ++ r ∷ rs) (addresses (suc (length xs)) (length rs)) ≡ rs =
      rw e at (rw l at more) in
    rw (get_elem?-length xs r rs, load_all) (ap (λ q. r ∷ q) more')

abbrev record_of : Store → Regression → List Run → Rec
record_of st reg rs = record {
  regression = reg;
  runs = addresses (length st.heap) (length rs);
  tokens = tokens_of rs;
}

abbrev entered : Store → Regression → List Run → Store
entered st reg rs =
    enter_runs (record st { by_reg = insert reg.id (record_of st reg rs) st.by_reg }) rs

create-new :
    (st : Store) (reg : Regression) (rs : List Run)
    → lookup reg.id st.by_reg ≡ none
    → create st reg rs true ≡ (touch (entered st reg rs), none)
unfolding create
create-new st reg rs new = rw (new, create) refl

regression-found :
    (st : Store) (id : String) (rec : Rec) (rs : List Run)
    → lookup id st.by_reg ≡ some rec
    → load_all st.heap rec.runs ≡ rs
    → regression (touch st) id ≡ some (rec.regression, rs)
unfolding regression touch
regression-found st id rec rs e l = rw (e, regression) (rw l refl)

-- A regression whose id is not taken, and whose record the mirror saves, is in the store with the runs
-- that it was created with, in their order.
pub regression-create :
    (st : Store) (reg : Regression) (rs : List Run)
    → lookup reg.id st.by_reg ≡ none
    → regression (create st reg rs true).0 reg.id ≡ some (reg, rs)
regression-create st reg rs new =
    let st' : Store = record st { by_reg = insert reg.id (record_of st reg rs) st.by_reg } in
    let found : lookup reg.id (entered st reg rs).by_reg ≡ some (record_of st reg rs) =
      ap (lookup reg.id) (by_reg-enter_runs st' rs)
      ∙ lookup-insert reg.id reg.id (record_of st reg rs) st.by_reg
      ∙ ground (arith, eq_iff reg.id reg.id) in
    let loaded : load_all (entered st reg rs).heap (record_of st reg rs).runs ≡ rs =
      rw (heap-enter_runs st' rs) (load_all-addresses st.heap rs) in
    rw (create-new st reg rs new)
      (regression-found (entered st reg rs) reg.id (record_of st reg rs) rs found loaded)
