-- ===== src/Sched/Queue/Order.antt =====
-- The queue is sorted by priority (the sort in admit, internal/sched/admit.go).
use distributed_test_runner.Base.{
  ◌≡◌, ◌≤◌, true, false, List, [], ◌∷◌, arith, All, All-imp, select, Elem, select-elem, elem-select,
  ◌↔◌,
}
use distributed_test_runner.Base.Int.{◌≤ℤ◌}
use distributed_test_runner.Base.Sort.{sort-elem, elem-sort, sort-IsOrdered, IsOrdered, IsWeakOrder}
use distributed_test_runner.Model.State.{is_queued}
use distributed_test_runner.Model.Entities.{Run}
use distributed_test_runner.Sched.Queue.{before, queue_of}

before-IsWeakOrder : IsWeakOrder before
unfolding before
before-IsWeakOrder = record {
  asymmetric = λ x y h. ground arith;
  not_less_trans = λ x y z h k. ground arith;
}

-- No run stands behind one of a lower priority, nor behind a younger one of its own priority.
abbrev pub IsInOrder : List Run → Type 0
IsInOrder [] = Unit
IsInOrder (r ∷ rs) =
    All
      (λ (q : Run).
        (q.priority ≤ℤ r.priority) × (q.priority ≡ r.priority → r.queued_at ≤ q.queued_at))
      rs
    × IsInOrder rs

before-last :
    (r q : Run)
    → before q r ≡ false
    → (q.priority ≤ℤ r.priority) × (q.priority ≡ r.priority → r.queued_at ≤ q.queued_at)
unfolding before
before-last r q h = (ground arith, λ e. ground (arith, h, e))

IsInOrder-of_ordered : (rs : List Run) → IsOrdered before rs → IsInOrder rs
IsInOrder-of_ordered [] h = tt
IsInOrder-of_ordered (r ∷ rs) h = (All-imp _ _ rs (before-last r) h.0, IsInOrder-of_ordered rs h.1)

-- The queue holds exactly the queued runs. Of two runs in it the first one has the higher priority,
-- or the same priority and was not queued later.
pub queue_of-IsInOrder :
    (all : List Run)
    → ((r : Run) → Elem r (queue_of all) ↔ (Elem r all × (is_queued r.state ≡ true)))
      × IsInOrder (queue_of all)
unfolding queue_of
queue_of-IsInOrder all = (
  (λ r. (
    λ m. select-elem (λ q. is_queued q.state) r all (sort-elem before r _ m),
    λ m. elem-sort before r _ (elem-select (λ q. is_queued q.state) r all m.0 m.1),
  )),
  IsInOrder-of_ordered _
      (sort-IsOrdered before before-IsWeakOrder (select (λ r. is_queued r.state) all)),
)

before-le : (r q : Run) → before q r ≡ false → q.priority ≤ℤ r.priority
unfolding before
before-le r q h = ground arith

abbrev pub IsByPriority : List Run → Type 0
IsByPriority [] = Unit
IsByPriority (r ∷ rs) = All (λ q. q.priority ≤ℤ r.priority) rs × IsByPriority rs

pub IsByPriority-of_ordered : (rs : List Run) → IsOrdered before rs → IsByPriority rs
IsByPriority-of_ordered [] h = tt
IsByPriority-of_ordered (r ∷ rs) h =
    (All-imp _ _ rs (before-le r) h.0, IsByPriority-of_ordered rs h.1)
