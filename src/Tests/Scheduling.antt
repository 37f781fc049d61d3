-- ===== src/Tests/Scheduling.antt =====
-- The admission of runs in the test lab.
use distributed_test_runner.Base.{
  length, ℕ, zero, suc, ◌≡◌, ◌≢◌, ◌↔◌, ◌⊎◌, inl, inr, refl, String, Bool, true, false, Option, none,
  some, List, [], ◌∷◌, arith, eq_iff, ◌==◌, Elem, select,
}
use distributed_test_runner.Base.Sort.{sort, IsOrdered}
use distributed_test_runner.Model.State.{RunState, is_queued}
use distributed_test_runner.Model.Entities.{Run, Slot}
use distributed_test_runner.Config.Types.{QuotaRule, Scope, node_pools}
use distributed_test_runner.Config.Quota.{user_cap}
use distributed_test_runner.Sched.Ledger.Meaning.{IsCounted}
use distributed_test_runner.Sched.Ledger.{
  held, new_ledger, NodeLedger, Ledger, node_id, charge, block, count, asked, scopes, counts,
}
use distributed_test_runner.Sched.Ledger.Rules.{
  placed, HasRoom, HasScope, Binds, IsWithin, charge-IsWithin,
}
use distributed_test_runner.Sched.Ledger.Asked.{LandsIn, IsAsked, block-none_iff}
use distributed_test_runner.Sched.Ledger.Counts.{Numbers, IsHeldBy, new_ledger-AreCounted}
use distributed_test_runner.Sched.Ledger.Capacity.{IsBalanced}
use distributed_test_runner.Sched.Pick.{pick, pool_nodes}
use distributed_test_runner.Sched.Pick.Choice.{PickSpec, pick-PickSpec}
use distributed_test_runner.Sched.Queue.{
  before, queue_of, node_for, Choice, choose, Admission, admit_loop,
}
use distributed_test_runner.Sched.Queue.Order.{IsInOrder, queue_of-IsInOrder}
use distributed_test_runner.Sched.Queue.Fairness.{Yields, choose-Yields}
use distributed_test_runner.Sched.Queue.Rounds.{admit_loop_exhausts, admit_loop-IsBalanced}
use distributed_test_runner.Sched.Queue.Limits.{admit_loop-IsWithin}
use distributed_test_runner.Tests.Fixtures.{
  pool_rule, hp, lab, ledger, node_one, user_rule, queued_run, later_run, canceled,
}

-- A backend that takes the first run of each pair and refuses the second.
abbrev alternate : Bool → Run → Slot → Bool × Bool
alternate true r s = (false, true)
alternate false r s = (true, false)

abbrev admission : Admission Bool
admission = record { queue = queued_run ∷ later_run ∷ []; ledger = ledger; state = true }

-- A limit of zero stands in the way, so the run stays in the queue.
abbrev blocked_ledger : Ledger
blocked_ledger = record ledger { nodes = [] }

abbrev stuck : Admission Bool
stuck = record { queue = queued_run ∷ []; ledger = blocked_ledger; state = true }

user_rule-Binds : Binds lab "ann" user_rule
unfolding user_cap distributed_test_runner.Config.Quota.caps_user
    distributed_test_runner.Config.Quota.covers distributed_test_runner.Base.Keyed.contains
    distributed_test_runner.Base.Keyed.find_by
user_rule-Binds = inr (refl, refl)

user_rule-HasScope : HasScope user_rule
user_rule-HasScope = inr (inr (refl, refl))

user_rule-IsWithin : IsWithin ledger "ann" user_rule
unfolding count select
user_rule-IsWithin = omega arith

queued_run-unblocked : block ledger queued_run (some node_one) ≡ none
unfolding block user_cap distributed_test_runner.Config.Quota.caps_user
    distributed_test_runner.Config.Quota.covers distributed_test_runner.Base.Keyed.contains
    distributed_test_runner.Base.Keyed.find_by select
    distributed_test_runner.Config.Quota.together_rules
queued_run-unblocked = refl

ledger-IsBalanced : IsBalanced ledger
unfolding distributed_test_runner.Base.Keyed.find_by
ledger-IsBalanced = record { unique = (refl, tt); fits = (omega arith, tt) }

still_queued : Elem queued_run (admit_loop alternate stuck).queue
unfolding admit_loop choose node_for block pick pool_nodes sort
    distributed_test_runner.Base.Keyed.find_by user_cap
    distributed_test_runner.Config.Quota.caps_user distributed_test_runner.Config.Quota.covers
    distributed_test_runner.Base.Keyed.contains select
    distributed_test_runner.Config.Quota.together_rules node_pools
still_queued = inl refl

abbrev choice : Choice
choice = record { index = 0; run = queued_run; node = node_one }

first_choice : choose ledger (queued_run ∷ later_run ∷ []) ≡ some choice
unfolding choose node_for block pick pool_nodes sort distributed_test_runner.Base.Keyed.find_by
    user_cap distributed_test_runner.Config.Quota.caps_user
    distributed_test_runner.Config.Quota.covers distributed_test_runner.Base.Keyed.contains select
    distributed_test_runner.Config.Quota.together_rules node_pools
    distributed_test_runner.Sched.Pick.fits distributed_test_runner.Sched.Ledger.free
    distributed_test_runner.Sched.Pick.satisfies distributed_test_runner.Sched.Ledger.held
    distributed_test_runner.Base.Dict.lookup
first_choice = refl

in_order : IsOrdered before (queued_run ∷ later_run ∷ [])
unfolding before
in_order = ((refl, tt), (tt, tt))

admit_loop-IsWithin_example : IsWithin (admit_loop alternate admission).ledger "ann" user_rule
admit_loop-IsWithin_example =
    admit_loop-IsWithin alternate "ann" user_rule user_rule-HasScope admission user_rule-Binds
      user_rule-IsWithin

admit_loop-IsBalanced_example : IsBalanced (admit_loop alternate admission).ledger
admit_loop-IsBalanced_example = admit_loop-IsBalanced alternate admission ledger-IsBalanced

admit_loop_exhausts_example : node_for (admit_loop alternate stuck).ledger queued_run ≡ none
admit_loop_exhausts_example = admit_loop_exhausts alternate stuck queued_run still_queued

choose-Yields_example : Yields ledger queued_run later_run
choose-Yields_example =
    choose-Yields ledger (queued_run ∷ later_run ∷ []) choice in_order first_choice later_run
      (inr (inl refl))

pick-PickSpec_example : PickSpec ledger hp queued_run (pick ledger hp queued_run).best
pick-PickSpec_example = pick-PickSpec ledger hp queued_run

charge-IsWithin_example : IsWithin (charge ledger (placed queued_run node_one)) "ann" user_rule
charge-IsWithin_example =
    charge-IsWithin ledger queued_run node_one user_rule user_rule-HasScope user_rule-Binds
      queued_run-unblocked user_rule-IsWithin

block-none_iff_example : (block ledger queued_run (some node_one) ≡ none) ↔ (
    (s : Scope) (q : QuotaRule)
    → LandsIn lab queued_run (some node_one) s
    → IsAsked lab "ann" s q
    → HasRoom ledger "ann" q)
block-none_iff_example = block-none_iff ledger queued_run (some node_one)

queue_of-IsInOrder_example :
    let all = later_run ∷ canceled ∷ queued_run ∷ [] in
    ((r : Run) → Elem r (queue_of all) ↔ (Elem r all × (is_queued r.state ≡ true)))
    × IsInOrder (queue_of all)
queue_of-IsInOrder_example = queue_of-IsInOrder (later_run ∷ canceled ∷ queued_run ∷ [])

abbrev on_node_one : Run
on_node_one = record queued_run { state = RunState.running; node_id = "id-1"; node_name = "n1" }

new_ledger-AreCounted_example :
    let rs = on_node_one ∷ later_run ∷ [] in
    Numbers (IsHeldBy "ann") rs (held (new_ledger lab (node_one.info ∷ []) rs) "ann")
    × Numbers
        (IsCounted lab pool_rule "ann")
        rs
        (count (new_ledger lab (node_one.info ∷ []) rs) pool_rule "ann")
new_ledger-AreCounted_example =
    new_ledger-AreCounted lab (node_one.info ∷ []) (on_node_one ∷ later_run ∷ []) pool_rule "ann"
