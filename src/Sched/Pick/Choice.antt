-- ===== src/Sched/Pick/Choice.antt =====
-- What pick (internal/sched/ledger.go) promises: a node that may take the run, the least loaded one,
-- and none only where there is none.
use native.Mathlib.Nat.{le_of_mul-le-mul_right, mul-le-mul_right}
use distributed_test_runner.Base.{
  ℕ, ◌*◌, ◌≤◌, ◌<◌, ◌≡◌, ◌≢◌, ◌↔◌, inl, inr, refl, String, true, Option, none, some, List, [], ◌∷◌,
  arith, eq_iff, Elem, Option-cases,
}
use distributed_test_runner.Base.Loop.{shunt, foldl_inv, shunt-elem, elem-shunt}
use distributed_test_runner.Model.Entities.{Run}
use distributed_test_runner.Config.Types.{Pool}
use distributed_test_runner.Sched.Ledger.{NodeLedger, Ledger, free, block}
use distributed_test_runner.Sched.Pick.{
  satisfies_set, meta_of, pool_nodes, fits, less_loaded, Picked, pick_step, pick, satisfies,
}

-- less-or-equal load, as the code compares it, is transitive past a node with slots
ratio_trans :
    (fm sm fb sb fx sx : ℕ) → 0 < sb → fm * sb ≤ fb * sm → fb * sx ≤ fx * sb → fm * sx ≤ fx * sm
ratio_trans fm sm fb sb fx sx pos h k =
    le_of_mul-le-mul_right {k = sb} (omega (arith, mul-le-mul_right sx h, mul-le-mul_right sm k))
      pos

-- The node has every label of the set.
abbrev pub HasLabels : (meta set : List (String × String)) → Type 0
HasLabels meta [] = Unit
HasLabels meta ((k, want) ∷ set) = (meta_of meta k ≡ want) × HasLabels meta set

satisfies_set_sound :
    (meta set : List (String × String)) → satisfies_set meta set ≡ true → HasLabels meta set
unfolding satisfies_set
satisfies_set_sound meta [] h = tt
satisfies_set_sound meta ((k, want) ∷ set) h =
    ground (arith, eq_iff (meta_of meta k) want, satisfies_set_sound meta set)

satisfies_set_complete :
    (meta set : List (String × String)) → HasLabels meta set → satisfies_set meta set ≡ true
unfolding satisfies_set
satisfies_set_complete meta [] h = refl
satisfies_set_complete meta ((k, want) ∷ set) h =
    ground (arith, eq_iff (meta_of meta k) want, satisfies_set_complete meta set h.1)

-- A node that may take the run now: it is ready, assigned to a pool and has a slot free, it has the
-- labels that the pool and the suite want, and no rule that the run would count in there is at its
-- limit.
pub record IsCandidate (l : Ledger) (p : Pool) (r : Run) (n : NodeLedger) : Type 0 where
  pub ready : n.info.ready ≡ true
  pub assigned : n.pool ≢ ""
  pub room : n.used < n.info.slots
  pub pool_labels : HasLabels n.info.meta p.constraints
  pub suite_labels : HasLabels n.info.meta r.spec.requires
  pub unblocked : block l r (some n) ≡ none

abbrev pub LessOrEqualLoad : NodeLedger → NodeLedger → Type 0
LessOrEqualLoad n m = free m * n.info.slots ≤ free n * m.info.slots

pub free_of_room :
    (n : NodeLedger)
    → (free n ≢ 0) ↔ ((n.info.ready ≡ true) × (n.pool ≢ "") × (n.used < n.info.slots))
unfolding free
free_of_room n = (ground (arith, eq_iff n.pool ""), ground (arith, eq_iff n.pool ""))

free-le_slots : (n : NodeLedger) → free n ≤ n.info.slots
unfolding free
free-le_slots n = ground arith

module _ (l : Ledger) (p : Pool) (r : Run) where
  fits_sound :
      (n : NodeLedger) → fits p r n ≡ true → block l r (some n) ≡ none → IsCandidate l p r n
  unfolding fits satisfies
  fits_sound n h u = ground (
    arith,
    free_of_room n,
    satisfies_set_sound n.info.meta p.constraints,
    satisfies_set_sound n.info.meta r.spec.requires,
  )

  fits_complete : (n : NodeLedger) → IsCandidate l p r n → fits p r n ≡ true
  unfolding fits satisfies
  fits_complete n c = ground (
    arith,
    free_of_room n,
    satisfies_set_complete n.info.meta p.constraints c.pool_labels,
    satisfies_set_complete n.info.meta r.spec.requires c.suite_labels,
  )

  record Inv (seen : List NodeLedger) (s : Picked) : Type 0 where
    best_some : (b : NodeLedger) → s.best ≡ some b → Elem b seen × IsCandidate l p r b
    best_none : (m : NodeLedger) → s.best ≡ none → Elem m seen → ¬ IsCandidate l p r m
    least :
        (b m : NodeLedger)
        → s.best ≡ some b
        → Elem m seen
        → IsCandidate l p r m
        → LessOrEqualLoad b m

  module _ (seen : List NodeLedger) (s : Picked) (x : NodeLedger) (h : Inv seen s) where
    abbrev after : Picked
    after = pick_step l p r s x

    after_some : (b : NodeLedger) → after.best ≡ some b → Elem b (x ∷ seen) × IsCandidate l p r b
    unfolding pick_step
    after_some b e = ground (arith, fits_sound x, h.best_some b)

    after_none : (m : NodeLedger) → after.best ≡ none → Elem m (x ∷ seen) → ¬ IsCandidate l p r m
    unfolding pick_step
    after_none m e i c = ground (arith, fits_complete m c, h.best_none m)

    after_least :
        (b m : NodeLedger)
        → after.best ≡ some b
        → Elem m (x ∷ seen)
        → IsCandidate l p r m
        → LessOrEqualLoad b m
    unfolding pick_step less_loaded
    after_least b m e i c = elim (Option-cases s.best) [
      | inl n ↦ ground (arith, fits_complete m c, h.best_none m)
      | inr (a, ea) ↦
          let room : a.used < a.info.slots = (h.best_some a ea).1.room in
          let has_slots : 0 < a.info.slots = omega arith in
          ground (
            arith,
            fits_complete m c,
            h.least a m ea,
            ratio_trans (free m) m.info.slots (free a) a.info.slots (free x) x.info.slots has_slots,
          )
    ]

    pick_step-Inv : Inv (x ∷ seen) after
    pick_step-Inv = record { best_some = after_some; best_none = after_none; least = after_least }

  pick-Inv : Inv (shunt [] (pool_nodes l p)) (pick l p r)
  unfolding pick
  pick-Inv =
      foldl_inv Inv (pick_step l p r) pick_step-Inv [] _ (pool_nodes l p) (record {
        best_some = λ b e. cc;
        best_none = λ m e i. absurd i;
        least = λ b m e i. absurd i;
      })

-- What pick answers, over the nodes of the pool: a candidate none of which carries relatively less, or
-- nothing and then there is no candidate.
abbrev pub PickSpec : Ledger → Pool → Run → Option NodeLedger → Type 0
PickSpec l p r none = (m : NodeLedger) → Elem m (pool_nodes l p) → ¬ IsCandidate l p r m
PickSpec l p r (some n) =
    Elem n (pool_nodes l p)
    × IsCandidate l p r n
    × ((m : NodeLedger) → Elem m (pool_nodes l p) → IsCandidate l p r m → LessOrEqualLoad n m)

-- The node that pick chooses is in the pool, is ready, has a free slot and the wanted labels, no rule
-- refuses the run there, and no other such node of the pool has a larger share of its slots free; pick
-- chooses none only when no node of the pool is such a node.
pub pick-PickSpec : (l : Ledger) (p : Pool) (r : Run) → PickSpec l p r (pick l p r).best
pick-PickSpec l p r = go (pick l p r).best refl
  where
    go : (o : Option NodeLedger) → (pick l p r).best ≡ o → PickSpec l p r o
    go none e = λ m i. (pick-Inv l p r).best_none m e (elem-shunt m (pool_nodes l p) i)
    go (some n) e =
        let (i, c) = (pick-Inv l p r).best_some n e in
        (
          shunt-elem n (pool_nodes l p) i,
          c,
          λ m j. (pick-Inv l p r).least n m e (elem-shunt m (pool_nodes l p) j),
        )
