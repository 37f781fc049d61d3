-- ===== src/Backend/Local/Balance.antt =====
-- The slots of the simulated nodes of internal/backend/localbackend.go, over any sequence of
-- dispatches and of the steps that handle the ends of processes.
use distributed_test_runner.Base.{
  ℕ, ◌+◌, ◌≤◌, ◌≡◌, sym, refl, inl, inr, String, Bool, true, false, not, ◌&&◌, ◌==◌, eq_iff, Option,
  none, some, List, [], leb, arith, get_elem?, Bool-cases, Option-cases,
}
use distributed_test_runner.Base.Dict.{lookup, insert}
use distributed_test_runner.Base.Result.{Result, ok, err, Result-cases, ok-injective}
use distributed_test_runner.Model.Entities.{Run}
use distributed_test_runner.Backend.Local.{
  LocalNode, Process, Local, use_of, node_for, claim, release, dispatch, Exit, set_process, ended,
  free_slot, note_exit, launch, started,
}
use distributed_test_runner.Backend.Local.Uses.{
  live, use_of-insert, use_of-release, live-append, live-set_process, ended-is_ended,
  ended-node_name, node_for-name,
}

-- The counters are the processes that hold a slot, and no node has more than its slots.
pub record IsBalanced (nodes : List LocalNode) (b : Local) : Type 0 where
  pub uses : (name : String) → use_of b.node_use name ≡ live name b.processes
  pub fits :
      (id : String) (n : LocalNode) → node_for nodes id ≡ some n → live n.name b.processes ≤ n.slots

-- A state that dispatches and the ends of processes lead to from the start.
pub data Reached (nodes : List LocalNode) (knows_pool : String → Bool) : Local → Type 0 where
  at_start : Reached nodes knows_pool (record { processes = []; procs = []; node_use = [] })
  dispatched :
      (b : Local)
      → Reached nodes knows_pool b
      → (run : Run) (start : Option String)
      → Reached nodes knows_pool (dispatch nodes knows_pool b run start).1
  freed :
      (b : Local) → Reached nodes knows_pool b → (n : ℕ) → Reached nodes knows_pool (free_slot b n)
  noted :
      (b : Local)
      → Reached nodes knows_pool b
      → (n : ℕ) (e : Exit) → Reached nodes knows_pool (note_exit b n e)

refused : {A : Type 0} {a : A} {why : String} → ◌≡◌ {A = Result String A} (err why) (ok a) → ⊥
refused e = cc

module _ (nodes : List LocalNode) (knows_pool : String → Bool) where
  start-IsBalanced : IsBalanced nodes (record { processes = []; procs = []; node_use = [] })
  unfolding live use_of lookup
  start-IsBalanced = record { uses = λ name. refl; fits = λ id n e. omega arith }

  -- A slot that is free is taken.
  module _ (b : Local) (h : IsBalanced nodes b) (run : Run) (n : LocalNode) where
    after_start : Local
    after_start =
        (launch b run none (n.name, insert n.name (use_of b.node_use n.name + 1) b.node_use)).1

    started-IsBalanced :
        node_for nodes run.node_id ≡ some n
        → leb n.slots (use_of b.node_use n.name) ≡ false
        → IsBalanced nodes after_start
    unfolding live after_start
    started-IsBalanced found free_slot = record {
      uses = λ name. ground (
        arith,
        h.uses name,
        h.uses n.name,
        live-append name b.processes (started run n.name),
        use_of-insert n.name name (use_of b.node_use n.name + 1) b.node_use,
        eq_iff n.name name,
      );
      fits = λ id m e. elim (Bool-cases (n.name == m.name)) [
        | inl same ↦
            let q : n ≡ m =
              node_for-name nodes run.node_id id n m found e ((eq_iff n.name m.name).0 same) in
            rw (← q) (
              ground (
                arith,
                h.uses n.name,
                live-append n.name b.processes (started run n.name),
                free_slot,
              ))
        | inr differs ↦
            ground
              (arith, h.fits id m e, live-append m.name b.processes (started run n.name), differs)
      ];
    }

    -- A slot that was claimed for a start that failed is given back.
    unstarted-IsBalanced :
        (why : String)
        → IsBalanced nodes
            (launch b run
              (some why)
              (n.name, insert n.name (use_of b.node_use n.name + 1) b.node_use)).1
    unstarted-IsBalanced why =
        let claimed = insert n.name (use_of b.node_use n.name + 1) b.node_use in
        record {
          uses = λ name. ground (
            arith,
            h.uses name,
            h.uses n.name,
            use_of-release claimed n.name name,
            use_of-insert n.name name (use_of b.node_use n.name + 1) b.node_use,
            eq_iff n.name name,
          );
          fits = h.fits;
        }

  launched :
      (b : Local) (h : IsBalanced nodes b) (run : Run) (n : LocalNode)
      → node_for nodes run.node_id ≡ some n
      → leb n.slots (use_of b.node_use n.name) ≡ false
      → (start : Option String)
      → IsBalanced nodes
          (launch b run start (n.name, insert n.name (use_of b.node_use n.name + 1) b.node_use)).1
  unfolding after_start
  launched b h run n found room none = started-IsBalanced b h run n found room
  launched b h run n found room (some why) = unstarted-IsBalanced b h run n why

  -- The end of a process gives its slot back.
  freed-IsBalanced :
      (b : Local)
      → IsBalanced nodes b
      → (n : ℕ) (p : Process) → get_elem? b.processes n ≡ some p
      → p.is_ended ≡ false
      → IsBalanced nodes (record b {
        processes = set_process b.processes n (record p { is_ended = true });
        node_use = release b.node_use p.node_name;
      })
  unfolding live
  freed-IsBalanced b h n p found running =
      let fewer = λ (name : String).
        live-set_process name b.processes n p (record p { is_ended = true }) found in
      record {
        uses = λ name.
            ground (arith, h.uses name, use_of-release b.node_use p.node_name name, fewer name);
        fits = λ id m f. ground (arith, h.fits id m f, fewer m.name);
      }

  -- The outcome of a process changes no slot.
  noted-IsBalanced :
      (b : Local)
      → IsBalanced nodes b
      → (n : ℕ) (e : Exit) (p : Process) → get_elem? b.processes n ≡ some p
      → IsBalanced nodes (record b { processes = set_process b.processes n (ended p e) })
  unfolding live
  noted-IsBalanced b h n e p found =
      let same : (name : String)
          → live name (set_process b.processes n (ended p e)) ≡ live name b.processes =
        λ name. ground (
          arith,
          live-set_process name b.processes n p (ended p e) found,
          ended-is_ended p e,
          ended-node_name p e,
        ) in
      record {
        uses = λ name. ground (arith, h.uses name, same name);
        fits = λ id m f. ground (arith, h.fits id m f, same m.name);
      }

  abbrev IsClaim : Local → Run → String × List (String × ℕ) → Type 0
  IsClaim b run claimed =
      (n : LocalNode) × (node_for nodes run.node_id ≡ some n)
      × (leb n.slots (use_of b.node_use n.name) ≡ false)
      × (claimed ≡ (n.name, insert n.name (use_of b.node_use n.name + 1) b.node_use))

  claim-IsClaim :
      (b : Local) (run : Run) (claimed : String × List (String × ℕ))
      → claim nodes b.node_use run ≡ ok claimed
      → IsClaim b run claimed
  unfolding claim
  claim-IsClaim b run claimed e = elim (Option-cases (node_for nodes run.node_id)) [
    | inl f ↦ absurd (refused (rw (f, claim) at e))
    | inr (n, f) ↦ elim (Bool-cases (leb n.slots (use_of b.node_use n.name))) [
      | inl full ↦ absurd (refused (rw full at (rw (f, claim) at e)))
      | inr room ↦ (n, f, room, sym (ok-injective (rw room at (rw (f, claim) at e))))
    ]
  ]

  dispatch-IsBalanced :
      (b : Local) (run : Run) (start : Option String)
      → IsBalanced nodes b
      → IsBalanced nodes (dispatch nodes knows_pool b run start).1
  unfolding dispatch
  dispatch-IsBalanced b run start h = elim (Bool-cases (knows_pool run.pool)) [
    | inr k ↦ rw (k, dispatch) h
    | inl k ↦ elim (Bool-cases (run.node_id == "")) [
      | inl i ↦ rw (k, dispatch) (rw i h)
      | inr i ↦ elim (Result-cases (claim nodes b.node_use run)) [
        | inl (why, c) ↦ rw (k, dispatch) (rw i (rw c h))
        | inr (claimed, c) ↦
            let (n, f, room, made) = claim-IsClaim b run claimed c in
            rw (k, dispatch) (rw i (rw c (rw made (launched b h run n f room start))))
      ]
    ]
  ]

  free_slot-IsBalanced : (b : Local) (n : ℕ) → IsBalanced nodes b → IsBalanced nodes (free_slot b n)
  unfolding free_slot
  free_slot-IsBalanced b n h = elim (Option-cases (get_elem? b.processes n)) [
    | inl f ↦ rw (f, free_slot) h
    | inr (p, f) ↦ elim (Bool-cases p.is_ended) [
      | inl d ↦ rw (f, free_slot) (rw d h)
      | inr d ↦ rw (f, free_slot) (rw d (freed-IsBalanced b h n p f d))
    ]
  ]

  note_exit-IsBalanced :
      (b : Local) (n : ℕ) (e : Exit) → IsBalanced nodes b → IsBalanced nodes (note_exit b n e)
  unfolding note_exit
  note_exit-IsBalanced b n e h = elim (Option-cases (get_elem? b.processes n)) [
    | inl f ↦ rw (f, note_exit) h
    | inr (p, f) ↦ elim (Bool-cases (p.is_ended && not p.is_done)) [
      | inl d ↦ rw (f, note_exit) (rw d (noted-IsBalanced b h n e p f))
      | inr d ↦ rw (f, note_exit) (rw d h)
    ]
  ]

  -- Over any sequence of dispatches and of the two steps that handle the end of a process, the
  -- counter of each simulated node is the number of its processes whose end has not been handled by
  -- giving the slot back, and that never exceeds the slots of the node.
  pub Reached-IsBalanced : (b : Local) → Reached nodes knows_pool b → IsBalanced nodes b
  Reached-IsBalanced b at_start = start-IsBalanced
  Reached-IsBalanced _ (dispatched b r run start) =
      dispatch-IsBalanced b run start (Reached-IsBalanced b r)
  Reached-IsBalanced _ (freed b r n) = free_slot-IsBalanced b n (Reached-IsBalanced b r)
  Reached-IsBalanced _ (noted b r n e) = note_exit-IsBalanced b n e (Reached-IsBalanced b r)
