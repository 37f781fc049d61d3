-- ===== src/Sched/Queue/Rounds.antt =====
-- The admission loop as a whole (the `for` loop of admit, internal/sched/admit.go): it comes to an end
-- with nothing left to start, and keeps the slots and the quota rules.
use distributed_test_runner.Base.{
  ℕ, zero, suc, ◌-◌, ◌≤◌, ◌≡◌, Bool, none, some, arith, Bool-cases, Option-cases, inl, inr, Elem,
  length,
}
use distributed_test_runner.Model.Entities.{Run, Slot}
use distributed_test_runner.Sched.Ledger.Rules.{placed}
use distributed_test_runner.Sched.Ledger.Capacity.{IsBalanced, charge-IsBalanced}
use distributed_test_runner.Sched.Pick.Members.{pool_nodes_iff}
use distributed_test_runner.Sched.Queue.{
  node_for, Choice, choose, Admission, start, rounds, admit_loop,
}
use distributed_test_runner.Sched.Queue.Place.{
  choose-IsAt, choose-none, length-remove_at, node_for-some,
}

module _ {S : Type 0} (dispatch : S → Run → Slot → S × Bool) where
  -- The rule of the loop: what each start keeps holds at the end.
  pub admit_loop_inv :
      (P : Admission S → Type 0)
      → ((a : Admission S) (c : Choice)
          → P a
          → choose a.ledger a.queue ≡ some c
          → P (start dispatch a c))
      → (fuel : ℕ) (a : Admission S) → P a
      → P (rounds dispatch fuel a)
  unfolding rounds
  admit_loop_inv P keep zero a h = h
  admit_loop_inv P keep (suc fuel) a h = elim (Option-cases (choose a.ledger a.queue)) [
    | inl n ↦ rw (n, rounds) h
    | inr (c, e) ↦ rw (e, rounds) (admit_loop_inv P keep fuel (start dispatch a c) (keep a c h e))
  ]

  queue-start :
      (a : Admission S) (c : Choice)
      → choose a.ledger a.queue ≡ some c
      → suc (length (start dispatch a c).queue) ≡ length a.queue
  unfolding start
  queue-start a c e =
      let p = choose-IsAt a.ledger a.queue c e in
      let z : c.index - 0 ≡ c.index = omega arith in
      length-remove_at c.index a.queue {r = c.run} (rw z at p.at)

  rounds_end :
      (fuel : ℕ) (a : Admission S)
      → length a.queue ≤ fuel
      → choose (rounds dispatch fuel a).ledger (rounds dispatch fuel a).queue ≡ none
  unfolding rounds
  rounds_end zero a h = elim (Option-cases (choose a.ledger a.queue)) [
    | inl n ↦ n
    | inr (c, e) ↦ absurd (omega (arith, queue-start a c e))
  ]
  rounds_end (suc fuel) a h = elim (Option-cases (choose a.ledger a.queue)) [
    | inl n ↦ rw (n, rounds) n
    | inr (c, e) ↦
        rw (e, rounds) (rounds_end fuel (start dispatch a c) (omega (arith, queue-start a c e)))
  ]

  -- The admission loop leaves no run in the queue that could start: whatever the backend answers, each
  -- run still queued is one for which the final ledger has no node.
  pub admit_loop_exhausts :
      (a : Admission S) (q : Run)
      → Elem q (admit_loop dispatch a).queue
      → node_for (admit_loop dispatch a).ledger q ≡ none
  unfolding admit_loop
  admit_loop_exhausts a q m = choose-none _ _ q (rounds_end (length a.queue) a (omega arith)) m

  start-IsBalanced :
      (a : Admission S) (c : Choice)
      → IsBalanced a.ledger
      → choose a.ledger a.queue ≡ some c
      → IsBalanced (start dispatch a c).ledger
  unfolding start
  start-IsBalanced a c b e =
      let (p, known, free, member, candidate) =
        node_for-some a.ledger c.run c.node (choose-IsAt a.ledger a.queue c e).node in
      let listed : Elem c.node a.ledger.nodes = ((pool_nodes_iff a.ledger p c.node).0 member).0 in
      elim (Bool-cases (dispatch a.state (placed c.run c.node) c.node.info.slot).1) [
        | inl done ↦ rw done (charge-IsBalanced a.ledger c.run c.node b listed candidate.room)
        | inr not_done ↦ rw not_done b
      ]

  -- Admission never overcommits a node: from a ledger that lists each node once, with no more runs on a
  -- node than slots, the loop ends in such a ledger, whatever the backend answers.
  pub admit_loop-IsBalanced :
      (a : Admission S) → IsBalanced a.ledger → IsBalanced (admit_loop dispatch a).ledger
  unfolding admit_loop
  admit_loop-IsBalanced a b =
      admit_loop_inv (λ x. IsBalanced x.ledger) start-IsBalanced (length a.queue) a b
