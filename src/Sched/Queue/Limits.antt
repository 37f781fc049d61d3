-- ===== src/Sched/Queue/Limits.antt =====
-- The quota rules across the whole admission loop (admit, internal/sched/admit.go).
use mathlib.Core.Path.{fun_ext}
use distributed_test_runner.Base.{
  ◌≡◌, ◌≢◌, refl, ap, String, Bool, true, false, none, some, arith, eq_iff, ◌==◌, Bool-cases, inl,
  inr, length, select,
}
use distributed_test_runner.Model.Entities.{Run, Slot}
use distributed_test_runner.Config.Types.{QuotaRule, Catalog}
use distributed_test_runner.Sched.Ledger.{
  NodeLedger, Flight, Ledger, flight_of, charge, counts, count, block,
}
use distributed_test_runner.Sched.Ledger.Rules.{
  placed, HasScope, Binds, IsWithin, charge-IsWithin, count-charge,
}
use distributed_test_runner.Sched.Queue.{Choice, choose, Admission, start, admit_loop}
use distributed_test_runner.Sched.Queue.Place.{choose-IsAt, node_for-some}
use distributed_test_runner.Sched.Queue.Rounds.{admit_loop_inv}

-- An aggregate rule counts the same runs whoever asks.
counts-user :
    (c : Catalog) (q : QuotaRule) (u v : String) (f : Flight)
    → q.together ≡ true
    → counts c q u f ≡ counts c q v f
unfolding counts
counts-user c q u v f t = ground arith

count-user :
    (l : Ledger) (q : QuotaRule) (u v : String) → q.together ≡ true → count l q u ≡ count l q v
unfolding count
count-user l q u v t =
    ap (λ p. length (select p l.in_flight)) (fun_ext (λ f. counts-user l.cat q u v f t))

-- A per-user rule counts no run of another user.
counts-other :
    (c : Catalog) (q : QuotaRule) (u : String) (f : Flight)
    → q.together ≡ false
    → f.user ≢ u
    → counts c q u f ≡ false
unfolding counts
counts-other c q u f t ne = ground (arith, eq_iff f.user u)

other_user :
    (l : Ledger) (r : Run) (n : NodeLedger) (user : String)
    → (r.user == user) ≡ false
    → (flight_of l.cat (placed r n)).user ≢ user
unfolding flight_of
other_user l r n user other = ground (arith, eq_iff r.user user)

-- As `charge-IsWithin`, for the rules that bind any user.
charge-IsWithin_any :
    (l : Ledger) (r : Run) (n : NodeLedger) (q : QuotaRule) (user : String)
    → HasScope q
    → Binds l.cat user q
    → block l r (some n) ≡ none
    → IsWithin l user q
    → IsWithin (charge l (placed r n)) user q
charge-IsWithin_any l r n q user v (inl (m, t, u)) h w =
    rw (count-user (charge l (placed r n)) q user r.user t)
      (charge-IsWithin l r n q v (inl (m, t, u)) h (rw (count-user l q user r.user t) at w))
charge-IsWithin_any l r n q user v (inr (t, e)) h w = elim (Bool-cases (r.user == user)) [
  | inl same ↦
      let p : r.user ≡ user = (eq_iff r.user user).0 same in
      rw (← p) (charge-IsWithin l r n q v (inr (t, rw p e)) h (rw p w))
  | inr other ↦
      rw
        (
          count-charge l r n q user,
          counts-other l.cat q user (flight_of l.cat (placed r n)) t (other_user l r n user other),
        )
        (omega arith)
]

cat-charge : (l : Ledger) (r : Run) (n : NodeLedger) → (charge l (placed r n)).cat ≡ l.cat
unfolding charge
cat-charge l r n = refl

module _ {S : Type 0} (dispatch : S → Run → Slot → S × Bool) (user : String) (q : QuotaRule)
    (v : HasScope q) where
  -- What the loop keeps: the rule binds the user, and is respected.
  abbrev Respected : Admission S → Type 0
  Respected a = Binds a.ledger.cat user q × IsWithin a.ledger user q

  start-Respected :
      (a : Admission S) (c : Choice)
      → Respected a
      → choose a.ledger a.queue ≡ some c
      → Respected (start dispatch a c)
  unfolding start
  start-Respected a c (b, w) e =
      let (p, known, free, member, candidate) =
        node_for-some a.ledger c.run c.node (choose-IsAt a.ledger a.queue c e).node in
      elim (Bool-cases (dispatch a.state (placed c.run c.node) c.node.info.slot).1) [
        | inl done ↦ rw done (
          rw (cat-charge a.ledger c.run c.node) b,
          charge-IsWithin_any a.ledger c.run c.node q user v b candidate.unblocked w,
        )
        | inr not_done ↦ rw not_done (b, w)
      ]

  -- Admission takes no quota rule past its limit: a rule of a valid scope that binds a user, an
  -- aggregate rule of the table or the per-user rule that governs them in its scope, is respected
  -- when the loop ends if it was respected when it began, whatever the backend answers.
  pub admit_loop-IsWithin :
      (a : Admission S)
      → Binds a.ledger.cat user q
      → IsWithin a.ledger user q
      → IsWithin (admit_loop dispatch a).ledger user q
  unfolding admit_loop
  admit_loop-IsWithin a b w =
      (admit_loop_inv dispatch Respected start-Respected (length a.queue) a (b, w)).1
