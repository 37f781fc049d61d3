-- ===== src/Sched/Queue.antt =====
-- internal/sched/admit.go: the order of the queue and the choice of the run that starts next.
pub mod Order
pub mod Fairness
pub mod Place
pub mod Rounds
pub mod Limits
use distributed_test_runner.Base.{
  ℕ, zero, suc, ◌+◌, String, Bool, true, false, not, ◌&&◌, Option, none, some, List, [], ◌∷◌,
  if◌then◌else◌, ltb, length, select,
}
use distributed_test_runner.Base.Int.{ltb_ℤ}
use distributed_test_runner.Base.Sort.{sort}
use distributed_test_runner.Model.State.{is_queued}
use distributed_test_runner.Model.Entities.{Run, Slot}
use distributed_test_runner.Sched.Ledger.{NodeLedger, Ledger, Refusal, held, pool, block, charge}
use distributed_test_runner.Sched.Ledger.Rules.{placed}
use distributed_test_runner.Sched.Pick.{pick}

-- The order of the queue: higher priority first, then older.
unfoldable pub before : Run → Run → Bool
before a b =
    if ltb_ℤ b.priority a.priority
    then true
    else if ltb_ℤ a.priority b.priority
    then false
    else ltb a.queued_at b.queued_at

unfoldable pub queue_of : List Run → List Run
unfolding before
queue_of all = sort before (select (λ r. is_queued r.state) all)

-- The node of a run that is eligible: its pool is known, no rule of the submission refuses it, and
-- pick finds a node. The code looks this up once to test it and again to place the run.
unfoldable pub node_for : Ledger → Run → Option NodeLedger
node_for l r = elim (pool l.cat r.pool) [
  | none ↦ none
  | some p ↦ elim (block l r none) [ some why ↦ none | none ↦ (pick l p r).best ]
]

-- A queued run with its place in the queue and the node that it would get.
pub record Choice : Type 0 where
  pub index : ℕ
  pub run : Run
  pub node : NodeLedger

abbrev pub prefer : Ledger → Choice → Choice → Choice
prefer l best c = if ltb (held l c.run.user) (held l best.run.user) then c else best

-- The loop that finds `best`, from the place `i` on; it breaks off at the first eligible run of a lower
-- priority than the best one.
unfoldable pub choose_from : Ledger → ℕ → Option Choice → List Run → Option Choice
choose_from l i best [] = best
choose_from l i best (r ∷ rs) = elim (node_for l r) [
  | none ↦ choose_from l (suc i) best rs
  | some n ↦
      let c : Choice = record { index = i; run = r; node = n } in
      elim best [
        | none ↦ choose_from l (suc i) (some c) rs
        | some b ↦ elim (ltb_ℤ r.priority b.run.priority) [
          | true ↦ some b
          | false ↦ choose_from l (suc i) (some (prefer l b c)) rs
        ]
      ]
]

unfoldable pub choose : Ledger → List Run → Option Choice
unfolding choose_from
choose l queue = choose_from l 0 none queue

-- queued[i] = nil: the loops skip the places that are nil.
unfoldable pub remove_at : ℕ → List Run → List Run
remove_at i [] = []
remove_at zero (r ∷ rs) = rs
remove_at (suc i) (r ∷ rs) = r ∷ remove_at i rs

-- The loop's state: what is still queued, the ledger, and the state `S` that dispatch changes.
pub record Admission (S : Type 0) : Type 0 where
  pub queue : List Run
  pub ledger : Ledger
  pub state : S

-- `dispatch` answers whether it succeeded; the run is charged only then, and leaves the queue anyway.
module _ {S : Type 0} (dispatch : S → Run → Slot → S × Bool) where
  unfoldable pub start : Admission S → Choice → Admission S
  start a c =
      let (s, started) = dispatch a.state (placed c.run c.node) c.node.info.slot in
      record {
        queue = remove_at c.index a.queue;
        ledger = if started then charge a.ledger (placed c.run c.node) else a.ledger;
        state = s;
      }

  unfoldable pub rounds : ℕ → Admission S → Admission S
  unfolding start
  rounds zero a = a
  rounds (suc fuel) a = elim (choose a.ledger a.queue) [
    | none ↦ a
    | some c ↦ rounds fuel (start a c)
  ]

  -- The admission loop. Each round takes one run off the queue, so its length is fuel enough.
  unfoldable pub admit_loop : Admission S → Admission S
  unfolding rounds
  admit_loop a = rounds (length a.queue) a
