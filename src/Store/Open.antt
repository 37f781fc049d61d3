-- ===== src/Store/Open.antt =====
-- internal/store/store.go: OpenWith, what a store holds after the master starts.
use mathlib.Core.List.{foldl}
use distributed_test_runner.Base.{
  ℕ, zero, suc, ◌≡◌, ◌⊎◌, inl, inr, String, true, not, ◌&&◌, Option, none, some, List, [], ◌∷◌,
  ◌++◌, if◌then◌else◌, length, get_elem?, arith, All, Option-cases,
}
use distributed_test_runner.Base.Dict.{lookup, insert}
use distributed_test_runner.Base.Loop.{foldl_keeps}
use distributed_test_runner.Model.State.{RunState, terminal, is_queued}
use distributed_test_runner.Model.Suite.{SuiteSpec}
use distributed_test_runner.Model.Entities.{Run, Regression}
use distributed_test_runner.Store.{Rec, Store, addresses, write}

-- What the mirror's Load returns for one regression; `tokens` maps a token to a run id.
pub record Loaded : Type 0 where
  pub regression : Option Regression
  pub runs : List Run
  pub tokens : List (String × String)

-- The zero value of a suite, for a run whose suite is not in its regression.
abbrev zero_suite : SuiteSpec
zero_suite = record {
  name = "";
  pool = "";
  runtime = "";
  image = "";
  command = [];
  requires = [];
  build = [];
  env = [];
  timeout = 0;
  retries = none;
}

abbrev add_spec : List (String × SuiteSpec) → SuiteSpec → List (String × SuiteSpec)
add_spec m su = insert su.name su m

-- specs[name]
unfoldable pub spec_named : List SuiteSpec → String → SuiteSpec
spec_named suites name = elim (lookup name (foldl add_spec [] suites)) [
  | none ↦ zero_suite
  | some su ↦ su
]

-- A run that was in flight is queued again.
unfoldable pub restored_run : List SuiteSpec → Run → Run
unfolding spec_named
restored_run suites r =
    if not (terminal r.state) && not (is_queued r.state)
    then record r {
      spec = spec_named suites r.suite;
      state = RunState.queued;
      dispatched_at = none;
      started_at = none;
    }
    else record r { spec = spec_named suites r.suite }

unfoldable pub restore_run : List SuiteSpec → Store → Run → Store
unfolding restored_run
restore_run suites st r = record st {
  heap = st.heap ++ restored_run suites r ∷ [];
  by_run = insert r.id (length st.heap) st.by_run;
}

abbrev with_token : String → Run → Run
with_token token r = record r { token = token }

unfoldable pub restore_token : Store → String × String → Store
restore_token st (token, id) = elim (lookup id st.by_run) [
  | none ↦ st
  | some a ↦ elim (get_elem? st.heap a) [
    | none ↦ st
    | some r ↦ record st {
      heap = write st.heap a (with_token token r);
      by_token = insert token a st.by_token;
    }
  ]
]

-- One record; one without a regression is skipped.
unfoldable pub restore : Store → Loaded → Store
unfolding restore_run restore_token
restore st l = elim l.regression [
  | none ↦ st
  | some reg ↦
      let new : Rec = record {
        regression = reg;
        runs = addresses (length st.heap) (length l.runs);
        tokens = l.tokens;
      } in
      let entered = record st { by_reg = insert reg.id new st.by_reg } in
      foldl restore_token (foldl (restore_run reg.suites) entered l.runs) l.tokens
]

unfoldable pub open_with : List Loaded → Store
unfolding restore
open_with recs =
    foldl restore (record { heap = []; by_reg = []; by_run = []; by_token = []; revision = 0 }) recs

-- The run is over, or waits in the queue.
abbrev pub IsSettled : Run → Type 0
IsSettled r = (terminal r.state ≡ true) ⊎ (r.state ≡ RunState.queued)

restored_run-IsSettled : (suites : List SuiteSpec) (r : Run) → IsSettled (restored_run suites r)
unfolding restored_run
restored_run-IsSettled suites r = ground arith

All-append_one :
    (P : Run → Type 0) (xs : List Run) (r : Run) → All P xs → P r → All P (xs ++ r ∷ [])
All-append_one P [] r a p = (p, tt)
All-append_one P (x ∷ xs) r (a, more) p = (a, All-append_one P xs r more p)

write-IsSettled :
    (heap : List Run) (a : ℕ) (r : Run) (token : String)
    → All IsSettled heap
    → get_elem? heap a ≡ some r
    → All IsSettled (write heap a (with_token token r))
unfolding write
write-IsSettled [] a r token h e = tt
write-IsSettled (x ∷ xs) zero r token (h, more) e = (ground arith, more)
write-IsSettled (x ∷ xs) (suc a) r token (h, more) e = (h, write-IsSettled xs a r token more e)

restore_token-IsSettled :
    (st : Store) (t : String × String)
    → All IsSettled st.heap
    → All IsSettled (restore_token st t).heap
unfolding restore_token
restore_token-IsSettled st (token, id) h = elim (Option-cases (lookup id st.by_run)) [
  | inl n ↦ rw (n, restore_token) h
  | inr (a, ea) ↦ elim (Option-cases (get_elem? st.heap a)) [
    | inl n ↦ rw (ea, restore_token) (rw n h)
    | inr (r, er) ↦ rw (ea, restore_token) (rw er (write-IsSettled st.heap a r token h er))
  ]
]

restore-IsSettled :
    (st : Store) (l : Loaded) → All IsSettled st.heap → All IsSettled (restore st l).heap
unfolding restore
restore-IsSettled st l h = elim (Option-cases l.regression) [
  | inl n ↦ rw (n, restore) h
  | inr (reg, e) ↦
      rw (e, restore)
        (foldl_keeps (λ s. All IsSettled s.heap) restore_token restore_token-IsSettled _ l.tokens
          (foldl_keeps (λ s. All IsSettled s.heap) (restore_run reg.suites)
            (λ s r a. All-append_one IsSettled s.heap _ a (restored_run-IsSettled reg.suites r)) _
            l.runs h))
]

-- After a restart no run holds a slot: whatever the mirror held, each run of the store is over or waits
-- in the queue.
pub open_with-IsSettled : (recs : List Loaded) → All IsSettled (open_with recs).heap
unfolding open_with
open_with-IsSettled recs =
    foldl_keeps (λ s. All IsSettled s.heap) restore restore-IsSettled _ recs tt
