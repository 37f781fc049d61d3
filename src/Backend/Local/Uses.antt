-- ===== src/Backend/Local/Uses.antt =====
-- What the operations of internal/backend/localbackend.go do to the counters and to the processes.
use distributed_test_runner.Base.{
  ℕ, zero, suc, ◌+◌, ◌-◌, ◌≡◌, ◌∙◌, sym, ap, refl, inl, inr, String, ◌==◌, eq_iff, Option, some,
  List, [], ◌∷◌, ◌++◌, if◌then◌else◌, arith, get_elem?, Bool-cases, Option-cases,
}
use distributed_test_runner.Base.Dict.{insert, lookup-insert}
use distributed_test_runner.Backend.Local.{
  LocalNode, Process, node_id_of, use_of, node_for, release, Exit, set_process, ended,
}

-- The processes on a node whose end has not been handled yet: those that run are among them.
unfoldable pub live : String → List Process → ℕ
live name [] = 0
live name (p ∷ ps) = (if p.is_ended then 0 else if p.node_name == name then 1 else 0) + live name ps

pub use_of-insert :
    (name other : String) (n : ℕ) (node_use : List (String × ℕ))
    → use_of (insert name n node_use) other ≡ (if name == other then n else use_of node_use other)
unfolding use_of
use_of-insert name other n node_use = ground (arith, lookup-insert name other n node_use)

pub use_of-release :
    (node_use : List (String × ℕ)) (name other : String)
    → use_of (release node_use name) other
      ≡ (if name == other then use_of node_use other - 1 else use_of node_use other)
unfolding release
use_of-release node_use name other =
    ground (arith, use_of-insert name other (use_of node_use name - 1) node_use, eq_iff name other)

pub live-append :
    (name : String) (ps : List Process) (p : Process)
    → live name (ps ++ p ∷ []) ≡ live name ps + live name (p ∷ [])
unfolding live
live-append name [] p = omega arith
live-append name (q ∷ ps) p = ground (arith, live-append name ps p)

pub ended-is_ended : (p : Process) (e : Exit) → (ended p e).is_ended ≡ p.is_ended
ended-is_ended p e = elim (Option-cases e.wait_error) [
  | inl n ↦ rw n refl
  | inr (why, s) ↦ rw s refl
]

pub ended-node_name : (p : Process) (e : Exit) → (ended p e).node_name ≡ p.node_name
ended-node_name p e = elim (Option-cases e.wait_error) [
  | inl n ↦ rw n refl
  | inr (why, s) ↦ rw s refl
]

pub live-set_process :
    (name : String) (ps : List Process) (n : ℕ) (p q : Process)
    → get_elem? ps n ≡ some p
    → live name (set_process ps n q) + live name (p ∷ []) ≡ live name ps + live name (q ∷ [])
unfolding live set_process
live-set_process name [] n p q found = cc
live-set_process name (x ∷ ps) zero p q found = let same : x ≡ p = cc in rw (← same) (omega arith)
live-set_process name (x ∷ ps) (suc n) p q found =
    ground (arith, live-set_process name ps n p q found)

same_node : (m n : LocalNode) → ◌≡◌ {A = Option LocalNode} (some m) (some n) → m ≡ n
same_node m n e = cc

node_for-id :
    (ns : List LocalNode) (id : String) (n : LocalNode)
    → node_for ns id ≡ some n
    → node_id_of n.name ≡ id
unfolding node_for
node_for-id [] id n e = cc
node_for-id (m ∷ ns) id n e = elim (Bool-cases (node_id_of m.name == id)) [
  | inl h ↦
      let same : m ≡ n = same_node m n (sym (rw (h, node_for) refl) ∙ e) in
      rw (← same) ((eq_iff (node_id_of m.name) id).0 h)
  | inr h ↦ node_for-id ns id n (sym (rw (h, node_for) refl) ∙ e)
]

-- A node's name decides which of the nodes is found for it.
pub node_for-name :
    (ns : List LocalNode) (id other : String) (n m : LocalNode)
    → node_for ns id ≡ some n
    → node_for ns other ≡ some m
    → n.name ≡ m.name
    → n ≡ m
node_for-name ns id other n m e f same =
    let ids : id ≡ other =
      sym (node_for-id ns id n e) ∙ (ap (λ x. node_id_of x) same ∙ node_for-id ns other m f) in
    same_node n m (sym e ∙ (ap (λ i. node_for ns i) ids ∙ f))
