-- ===== src/Sched/Queue/Place.antt =====
-- Where the chosen run stands in the queue, and when none is chosen (internal/sched/admit.go).
use mathlib.Core.Path.{subst}
use distributed_test_runner.Base.{
  ℕ, zero, suc, ◌-◌, ◌≤◌, ◌≡◌, ◌≢◌, ◌⊎◌, refl, sym, ◌∙◌, none, some, List, [], ◌∷◌, arith,
  Bool-cases, Option-cases, ltb, inl, inr, Elem, get_elem?, length,
}
use distributed_test_runner.Base.Int.{ltb_ℤ}
use distributed_test_runner.Model.Entities.{Run}
use distributed_test_runner.Config.Types.{Pool}
use distributed_test_runner.Sched.Ledger.{NodeLedger, Ledger, held, pool, block}
use distributed_test_runner.Sched.Pick.{pick, pool_nodes}
use distributed_test_runner.Sched.Pick.Choice.{IsCandidate, PickSpec, pick-PickSpec}
use distributed_test_runner.Sched.Queue.{node_for, Choice, prefer, choose_from, choose, remove_at}
use distributed_test_runner.Sched.Queue.Fairness.{here, skip, first, stop, go_on}

-- The choice is the run at its place, counted from `i`, with the node that it would get.
pub record IsAt (l : Ledger) (i : ℕ) (rs : List Run) (c : Choice) : Type 0 where
  pub from : i ≤ c.index
  pub at : get_elem? rs (c.index - i) ≡ some c.run
  pub node : node_for l c.run ≡ some c.node

later :
    (l : Ledger) (i : ℕ) (r : Run) (rs : List Run) (c : Choice)
    → IsAt l (suc i) rs c
    → IsAt l i (r ∷ rs) c
later l i r rs c a =
    let e : c.index - i ≡ suc (c.index - suc i) = omega (arith, a.from) in
    record { from = omega (arith, a.from); at = rw e a.at; node = a.node }

IsAt-head :
    (l : Ledger) (i : ℕ) (r : Run) (rs : List Run) (n : NodeLedger) (e : node_for l r ≡ some n)
    → IsAt l i (r ∷ rs) (here l i r rs n e)
IsAt-head l i r rs n e =
    let z : i - i ≡ 0 = omega arith in record { from = omega arith; at = rw z refl; node = e }

module _ (l : Ledger) where
  choose_some-IsAt :
      (i : ℕ) (b c : Choice) (rs : List Run)
      → choose_from l i (some b) rs ≡ some c
      → (b ≡ c) ⊎ IsAt l i rs c
  unfolding choose_from
  choose_some-IsAt i b c [] e = inl (cc)
  choose_some-IsAt i b c (r ∷ rs) e = elim (Option-cases (node_for l r)) [
    | inl n ↦ elim (choose_some-IsAt (suc i) b c rs (sym (skip l i r rs (some b) n) ∙ e)) [
      | inl same ↦ inl same
      | inr a ↦ inr (later l i r rs c a)
    ]
    | inr (n, en) ↦ elim (Bool-cases (ltb_ℤ r.priority b.run.priority)) [
      | inl low ↦ inl (cc (stop l i r rs n en b low))
      | inr level ↦
          let d : Choice = here l i r rs n en in
          let ih : (prefer l b d ≡ c) ⊎ IsAt l (suc i) rs c =
            choose_some-IsAt (suc i) (prefer l b d) c rs (sym (go_on l i r rs n en b level) ∙ e) in
          elim ih [
            | inl same ↦ elim (Bool-cases (ltb (held l d.run.user) (held l b.run.user))) [
              | inl new ↦
                  let at : d ≡ c = ground arith in
                  inr (subst (IsAt l i (r ∷ rs)) at (IsAt-head l i r rs n en))
              | inr old ↦ inl (ground arith)
            ]
            | inr a ↦ inr (later l i r rs c a)
          ]
    ]
  ]

  choose_from-IsAt :
      (i : ℕ) (c : Choice) (rs : List Run) → choose_from l i none rs ≡ some c → IsAt l i rs c
  unfolding choose_from
  choose_from-IsAt i c [] e = absurd (cc)
  choose_from-IsAt i c (r ∷ rs) e = elim (Option-cases (node_for l r)) [
    | inl n ↦ later l i r rs c (choose_from-IsAt (suc i) c rs (sym (skip l i r rs none n) ∙ e))
    | inr (n, en) ↦
        let d : Choice = here l i r rs n en in
        elim (choose_some-IsAt (suc i) d c rs (sym (first l i r rs n en) ∙ e)) [
          | inl same ↦ subst (IsAt l i (r ∷ rs)) same (IsAt-head l i r rs n en)
          | inr a ↦ later l i r rs c a
        ]
  ]

  choose_some-ne-none : (i : ℕ) (b : Choice) (rs : List Run) → choose_from l i (some b) rs ≢ none
  unfolding choose_from
  choose_some-ne-none i b [] e = cc
  choose_some-ne-none i b (r ∷ rs) e = elim (Option-cases (node_for l r)) [
    | inl n ↦ choose_some-ne-none (suc i) b rs (sym (skip l i r rs (some b) n) ∙ e)
    | inr (n, en) ↦ elim (Bool-cases (ltb_ℤ r.priority b.run.priority)) [
      | inl low ↦ cc (stop l i r rs n en b low)
      | inr level ↦
          choose_some-ne-none (suc i) (prefer l b (here l i r rs n en)) rs
            (sym (go_on l i r rs n en b level) ∙ e)
    ]
  ]

  choose_from-none :
      (i : ℕ) (q : Run) (rs : List Run)
      → choose_from l i none rs ≡ none
      → Elem q rs
      → node_for l q ≡ none
  choose_from-none i q [] e m = absurd m
  choose_from-none i q (r ∷ rs) e m = elim (Option-cases (node_for l r)) [
    | inl n ↦ ground (arith, choose_from-none (suc i) q rs (sym (skip l i r rs none n) ∙ e))
    | inr (n, en) ↦
        absurd (choose_some-ne-none (suc i) (here l i r rs n en) rs (sym (first l i r rs n en) ∙ e))
  ]

-- The chosen run is in the queue at its place.
pub choose-IsAt :
    (l : Ledger) (queue : List Run) (c : Choice) → choose l queue ≡ some c → IsAt l 0 queue c
unfolding choose
choose-IsAt l queue c e = choose_from-IsAt l 0 c queue e

pub choose-none :
    (l : Ledger) (queue : List Run) (q : Run)
    → choose l queue ≡ none
    → Elem q queue
    → node_for l q ≡ none
unfolding choose
choose-none l queue q e m = choose_from-none l 0 q queue e m

pub length-remove_at :
    (i : ℕ) (rs : List Run) {r : Run}
    → get_elem? rs i ≡ some r
    → suc (length (remove_at i rs)) ≡ length rs
unfolding remove_at
length-remove_at i [] e = absurd (cc)
length-remove_at zero (r ∷ rs) e = refl
length-remove_at (suc i) (r ∷ rs) e = omega (arith, length-remove_at i rs e)

-- A run that is eligible passes every test: its pool is known, the rules of the submission have room,
-- and the node is a candidate of that pool.
pub node_for-some :
    (l : Ledger) (r : Run) (n : NodeLedger)
    → node_for l r ≡ some n
    → (p : Pool) × (pool l.cat r.pool ≡ some p)
      × (block l r none ≡ none)
      × Elem n (pool_nodes l p)
      × IsCandidate l p r n
unfolding node_for
node_for-some l r n e = elim (Option-cases (pool l.cat r.pool)) [
  | inl np ↦ absurd (ground arith)
  | inr (p, ep) ↦ elim (Option-cases (block l r none)) [
    | inr (w, ew) ↦ absurd (ground arith)
    | inl nw ↦
        let picked : (pick l p r).best ≡ some n = ground arith in
        let spec : PickSpec l p r (some n) = subst (PickSpec l p r) picked (pick-PickSpec l p r) in
        (p, ep, nw, spec.0, spec.1)
  ]
]
