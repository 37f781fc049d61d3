-- ===== src/Sched/Queue/Fairness.antt =====
-- Which run starts next (the loop over `queued` in admit, internal/sched/admit.go).
use distributed_test_runner.Base.{
  sym, ◌∙◌, ℕ, suc, ◌≤◌, ◌≡◌, ◌≢◌, true, false, Option, none, some, List, [], ◌∷◌, arith, All,
  All-elem, All-imp, ltb, Bool-cases, Option-cases, inl, inr, Elem,
}
use distributed_test_runner.Base.Int.{◌≤ℤ◌, ltb_ℤ}
use distributed_test_runner.Base.Sort.{IsOrdered}
use distributed_test_runner.Model.Entities.{Run}
use distributed_test_runner.Sched.Ledger.{NodeLedger, Ledger, held}
use distributed_test_runner.Sched.Queue.{before, node_for, Choice, prefer, choose_from, choose}
use distributed_test_runner.Sched.Queue.Order.{IsByPriority, IsByPriority-of_ordered}

-- An eligible `q` has no claim before `c`: its priority is not higher, and if it is not lower either,
-- its user holds at least as many slots.
abbrev pub Yields : Ledger → Run → Run → Type 0
Yields l c q =
    node_for l q ≢ none
    → (q.priority ≤ℤ c.priority) × (c.priority ≤ℤ q.priority → held l c.user ≤ held l q.user)

abbrev NotAbove : Run → Run → Type 0
NotAbove b q = q.priority ≤ℤ b.priority

-- What the rest of the loop makes of the best run so far.
record Improves (l : Ledger) (b c : Choice) (rs : List Run) : Type 0 where
  down : c.run.priority ≤ℤ b.run.priority
  up : b.run.priority ≤ℤ c.run.priority
  lighter : held l c.run.user ≤ held l b.run.user
  rest_yields : All (Yields l c.run) rs

module _ (l : Ledger) (i : ℕ) (r : Run) (rs : List Run) where
  pub skip :
      (best : Option Choice)
      → node_for l r ≡ none
      → choose_from l i best (r ∷ rs) ≡ choose_from l (suc i) best rs
  unfolding choose_from
  skip best e = rw (e, choose_from)

  module _ (n : NodeLedger) (e : node_for l r ≡ some n) where
    abbrev pub here : Choice
    here = record { index = i; run = r; node = n }

    pub first : choose_from l i none (r ∷ rs) ≡ choose_from l (suc i) (some here) rs
    unfolding choose_from
    first = rw (e, choose_from)

    pub stop :
        (b : Choice)
        → ltb_ℤ r.priority b.run.priority ≡ true
        → choose_from l i (some b) (r ∷ rs) ≡ some b
    unfolding choose_from
    stop b h = rw (e, choose_from) (rw h)

    pub go_on :
        (b : Choice)
        → ltb_ℤ r.priority b.run.priority ≡ false
        → choose_from l i (some b) (r ∷ rs) ≡ choose_from l (suc i) (some (prefer l b here)) rs
    unfolding choose_from
    go_on b h = rw (e, choose_from) (rw h)

prefer_keeps :
    (l : Ledger) (b c : Choice) (rs : List Run)
    → ltb_ℤ c.run.priority b.run.priority ≡ false
    → All (NotAbove b.run) (c.run ∷ rs)
    → All (NotAbove c.run) rs
    → All (NotAbove (prefer l b c).run) rs
prefer_keeps l b c rs level h below =
    elim (Bool-cases (ltb (held l c.run.user) (held l b.run.user))) [
      | inl e ↦ rw e below
      | inr e ↦ rw e h.1
    ]

module _ (l : Ledger) where
  choose_from-Improves :
      (i : ℕ) (b c : Choice) (rs : List Run)
      → IsByPriority rs
      → All (NotAbove b.run) rs
      → choose_from l i (some b) rs ≡ some c
      → Improves l b c rs
  unfolding choose_from
  choose_from-Improves i b c [] s h e = ground arith
  choose_from-Improves i b c (r ∷ rs) s h e = elim (Option-cases (node_for l r)) [
    | inl n ↦
        let ih : Improves l b c rs =
          choose_from-Improves (suc i) b c rs s.1 h.1 (sym (skip l i r rs (some b) n) ∙ e) in
        record {
          down = ih.down;
          up = ih.up;
          lighter = ih.lighter;
          rest_yields = (λ p. absurd (p n), ih.rest_yields);
        }
    | inr (n, en) ↦ elim (Bool-cases (ltb_ℤ r.priority b.run.priority)) [
      | inl low ↦
          let same : b ≡ c = cc (stop l i r rs n en b low) in
          record {
            down = ground arith;
            up = ground arith;
            lighter = ground arith;
            rest_yields =
                All-imp (NotAbove r) (Yields l c.run) (r ∷ rs) (λ q below p. ground arith)
                  (omega arith, s.0);
          }
      | inr level ↦
          let d : Choice = prefer l b (here l i r rs n en) in
          let ih : Improves l d c rs =
            choose_from-Improves (suc i) d c rs s.1
              (prefer_keeps l b (here l i r rs n en) rs level h s.0)
              (sym (go_on l i r rs n en b level) ∙ e) in
          record {
            down = ground (arith, ih.down);
            up = ground (arith, ih.up);
            lighter = ground (arith, ih.lighter);
            rest_yields = (λ p. ground (arith, ih.down, ih.up, ih.lighter), ih.rest_yields);
          }
    ]
  ]

  choose_from-first :
      (i : ℕ) (c : Choice) (rs : List Run)
      → IsByPriority rs
      → choose_from l i none rs ≡ some c
      → All (Yields l c.run) rs
  choose_from-first i c [] s e = tt
  choose_from-first i c (r ∷ rs) s e = elim (Option-cases (node_for l r)) [
    | inl n ↦
        (λ p. absurd (p n), choose_from-first (suc i) c rs s.1 (sym (skip l i r rs none n) ∙ e))
    | inr (n, en) ↦
        let d : Choice = here l i r rs n en in
        let ih : Improves l d c rs =
          choose_from-Improves (suc i) d c rs s.1 s.0 (sym (first l i r rs n en) ∙ e) in
        (λ p. (ih.up, λ _. ih.lighter), ih.rest_yields)
  ]

-- In a queue ordered by priority, the run that starts next has the highest priority of all runs that
-- can start, and among those of that priority its user holds the fewest slots.
pub choose-Yields :
    (l : Ledger) (queue : List Run) (c : Choice)
    → IsOrdered before queue
    → choose l queue ≡ some c
    → (q : Run) → Elem q queue
    → Yields l c.run q
unfolding choose
choose-Yields l queue c o e q m =
    All-elem (Yields l c.run) q queue
      (choose_from-first l 0 c queue (IsByPriority-of_ordered queue o) e) m
