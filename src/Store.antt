-- ===== src/Store.antt =====
-- internal/store/store.go: the regressions and runs that the master holds in memory. Runs are shared:
-- a record, `byRun` and `byToken` point to the same object, so here they hold addresses in a heap.
-- The mirror (JSON files or PostgreSQL) answers Create; elsewhere its failures are only logged.
-- The waiters of the dashboard's long poll and the cloning of the values returned are not modelled.
pub mod Shape
pub mod Updates
pub mod Growth
pub mod Added
pub mod Created
pub mod Members
pub mod Open
use distributed_test_runner.Base.{
  ℕ, zero, suc, ◌+◌, String, Bool, true, false, ◌==◌, Option, none, some, List, [], ◌∷◌, ◌++◌, map,
  if◌then◌else◌, length, get_elem?, ltb,
}
use distributed_test_runner.Base.Dict.{lookup, insert, delete}
use distributed_test_runner.Base.Sort.{sort}
use distributed_test_runner.Model.Entities.{Run, Regression}

-- `runs` are the addresses of the regression's attempts; `tokens` maps a token to a run id.
pub record Rec : Type 0 where
  pub regression : Regression
  pub runs : List ℕ
  pub tokens : List (String × String)

pub record Store : Type 0 where
  pub heap : List Run
  pub by_reg : List (String × Rec)
  pub by_run : List (String × ℕ)
  pub by_token : List (String × ℕ)
  pub revision : ℕ

-- Every mutation bumps the revision.
unfoldable pub touch : Store → Store
touch st = record st { revision = st.revision + 1 }

-- The objects at some addresses.
unfoldable pub load_all : List Run → List ℕ → List Run
load_all heap [] = []
load_all heap (a ∷ as') = elim (get_elem? heap a) [
  | none ↦ load_all heap as'
  | some r ↦ r ∷ load_all heap as'
]

-- *p = r
unfoldable pub write : List Run → ℕ → Run → List Run
write [] a r = []
write (x ∷ xs) zero r = r ∷ xs
write (x ∷ xs) (suc a) r = x ∷ write xs a r

-- The loop of rec.tokens(): a later run takes a token over.
unfoldable pub tokens_from : List (String × String) → List Run → List (String × String)
tokens_from m [] = m
tokens_from m (r ∷ rs) = tokens_from (if r.token == "" then m else insert r.token r.id m) rs

-- rec.tokens()
unfoldable pub tokens_of : List Run → List (String × String)
unfolding tokens_from
tokens_of rs = tokens_from [] rs

unfoldable pub index_token : String → ℕ → List (String × ℕ) → List (String × ℕ)
index_token token a m = if token == "" then m else insert token a m

-- A new object, under its id and its token.
unfoldable pub enter_run : Store → Run → Store
unfolding index_token
enter_run st r = record st {
  heap = st.heap ++ r ∷ [];
  by_run = insert r.id (length st.heap) st.by_run;
  by_token = index_token r.token (length st.heap) st.by_token;
}

unfoldable pub enter_runs : Store → List Run → Store
unfolding enter_run
enter_runs st [] = st
enter_runs st (r ∷ rs) = enter_runs (enter_run st r) rs

-- The addresses of `n` objects, from `a` on.
unfoldable pub addresses : ℕ → ℕ → List ℕ
addresses a zero = []
addresses a (suc n) = a ∷ addresses (suc a) n

unfoldable pub forget_runs : Store → List Run → Store
forget_runs st [] = st
forget_runs st (r ∷ rs) =
    forget_runs
      (record st { by_run = delete r.id st.by_run; by_token = delete r.token st.by_token }) rs

pub data CreateError : Type 0 where
  already_exists : (id : String) → CreateError
  not_saved : CreateError

-- `saved` is the mirror's answer to SaveRecord.
unfoldable pub create : Store → Regression → List Run → (saved : Bool) → Store × Option CreateError
unfolding enter_runs forget_runs touch addresses tokens_of
create st reg rs saved = elim (lookup reg.id st.by_reg) [
  | some old ↦ (st, some (already_exists reg.id))
  | none ↦
      let new : Rec = record {
        regression = reg;
        runs = addresses (length st.heap) (length rs);
        tokens = tokens_of rs;
      } in
      let full : Store = enter_runs (record st { by_reg = insert reg.id new st.by_reg }) rs in
      if saved
      then (touch full, none)
      else (forget_runs (record full { by_reg = delete reg.id full.by_reg }) rs, some not_saved)
]

-- AddRun: a run of an unknown regression is dropped.
unfoldable pub add_run : Store → Run → Store
unfolding enter_run touch tokens_of load_all
add_run st r = elim (lookup r.regression_id st.by_reg) [
  | none ↦ st
  | some old ↦
      let runs' = old.runs ++ length st.heap ∷ [] in
      let full = enter_run st r in
      let new : Rec = record {
        regression = old.regression;
        runs = runs';
        tokens = tokens_of (load_all full.heap runs');
      } in
      touch (record full { by_reg = insert r.regression_id new full.by_reg })
]

unfoldable pub update_run : Store → String → (Run → Run) → Store × Bool
unfolding write touch
update_run st id f = elim (lookup id st.by_run) [
  | none ↦ (st, false)
  | some a ↦ elim (get_elem? st.heap a) [
    | none ↦ (st, false)
    | some r ↦ (touch (record st { heap = write st.heap a (f r) }), true)
  ]
]

unfoldable pub update_regression :
    Store → String → (Regression → List Run → Regression) → Store × Bool
unfolding touch load_all
update_regression st id f = elim (lookup id st.by_reg) [
  | none ↦ (st, false)
  | some rec ↦
      let new : Rec = record rec { regression = f rec.regression (load_all st.heap rec.runs) } in
      (touch (record st { by_reg = insert id new st.by_reg }), true)
]

-- Store.Run
unfoldable pub run : Store → String → Option Run
run st id = elim (lookup id st.by_run) [ none ↦ none | some a ↦ get_elem? st.heap a ]

unfoldable pub run_by_token : Store → String → Option Run
run_by_token st token = elim (lookup token st.by_token) [
  | none ↦ none
  | some a ↦ get_elem? st.heap a
]

-- Store.Regression
unfoldable pub regression : Store → String → Option (Regression × List Run)
unfolding load_all
regression st id = elim (lookup id st.by_reg) [
  | none ↦ none
  | some rec ↦ some (rec.regression, load_all st.heap rec.runs)
]

unfoldable pub runs_of : List Run → List (String × Rec) → List Run
unfolding load_all
runs_of heap [] = []
runs_of heap ((id, rec) ∷ recs) = load_all heap rec.runs ++ runs_of heap recs

abbrev older : Run → Run → Bool
older a b = ltb a.queued_at b.queued_at

-- Store.AllRuns; runs of one time stand in no fixed order.
unfoldable pub all_runs : Store → List Run
unfolding runs_of
all_runs st = sort older (runs_of st.heap st.by_reg)

abbrev newer : Regression → Regression → Bool
newer a b = ltb b.submitted_at a.submitted_at

abbrev header : String × Rec → Regression
header e = e.1.regression

-- Store.Regressions
unfoldable pub regressions : Store → List Regression
regressions st = sort newer (map header st.by_reg)
