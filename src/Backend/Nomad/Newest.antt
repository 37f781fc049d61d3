-- ===== src/Backend/Nomad/Newest.antt =====
-- PollAll of internal/backend/nomadbackend.go goes by the newest allocation of each job.
use mathlib.Core.List.{foldl}
use distributed_test_runner.Base.{
  ◌≡◌, inl, inr, refl, sym, ap, ◌∙◌, String, ◌==◌, eq_iff, Option, some, List, [], ◌∷◌, Elem,
  Bool-cases, Option-cases,
}
use distributed_test_runner.Base.Dict.{lookup, insert, lookup-insert}
use distributed_test_runner.Base.Loop.{foldl_inv, shunt-elem, elem-shunt}
use distributed_test_runner.Base.Result.{ok, ok-injective}
use distributed_test_runner.Model.Entities.{Run}
use distributed_test_runner.Backend.{Status}
use distributed_test_runner.Backend.Nomad.Allocations.{
  Alloc, keep_latest, note_status, poll_all, status_of,
}
use distributed_test_runner.Backend.Nomad.Latest.{IsNewest, foldl-IsLatest}

same_status : (a b : Status) (o : Option Status) → o ≡ some a → o ≡ some b → a ≡ b
same_status a b o e f = cc

no_status : (s : Status) (i : String) → lookup i [] ≡ some s → ⊥
unfolding lookup
no_status s i e = cc

-- The status is that of the newest allocation of the run's job.
abbrev pub IsStatusOf : List Alloc → Run → Status → Type 0
IsStatusOf allocs r st =
    (a : Alloc) × (a.job_id ≡ r.backend_id) × (st ≡ status_of a) × IsNewest a allocs

-- Each status is that of a run.
abbrev AreStatuses : List Alloc → List Run → List (String × Status) → Type 0
AreStatuses allocs runs out =
    (id : String) (st : Status)
    → lookup id out ≡ some st
    → (r : Run) × Elem r runs × (r.id ≡ id) × IsStatusOf allocs r st

module _ (allocs : List Alloc) where
  lookup-IsNewest :
      (j : String) (a : Alloc)
      → lookup j (foldl keep_latest [] allocs) ≡ some a
      → (a.job_id ≡ j) × IsNewest a allocs
  lookup-IsNewest j a e =
      let h = foldl-IsLatest allocs in
      let (ours, (job_a, (a_seen, top))) = h.sound j a e in
      (job_a, (shunt-elem a allocs a_seen, λ b m job. top b (elem-shunt b allocs m) job))

  widen :
      (seen : List Run) (r : Run) (out : List (String × Status))
      → AreStatuses allocs seen out
      → AreStatuses allocs (r ∷ seen) out
  widen seen r out h id st e = let (s, m, i, n) = h id st e in (s, inr m, i, n)

  noted_status :
      (seen : List Run) (r : Run) (a : Alloc) (out : List (String × Status))
      → lookup r.backend_id (foldl keep_latest [] allocs) ≡ some a
      → AreStatuses allocs seen out
      → AreStatuses allocs (r ∷ seen) (insert r.id (status_of a) out)
  noted_status seen r a out e h id st f =
      let found = sym (lookup-insert r.id id (status_of a) out) ∙ f in
      elim (Bool-cases (r.id == id)) [
        | inl same ↦
            let p : st ≡ status_of a = same_status st (status_of a) _ found (rw same refl) in
            let (job_a, newest) = lookup-IsNewest r.backend_id a e in
            (r, inl refl, (eq_iff r.id id).0 same, (a, job_a, p, newest))
        | inr differs ↦ widen seen r out h id st (rw differs at found)
      ]

  note_status-AreStatuses :
      (seen : List Run) (out : List (String × Status)) (r : Run)
      → AreStatuses allocs seen out
      → AreStatuses allocs (r ∷ seen) (note_status (foldl keep_latest [] allocs) out r)
  unfolding note_status
  note_status-AreStatuses seen out r h =
      elim (Option-cases (lookup r.backend_id (foldl keep_latest [] allocs))) [
        | inl e ↦ rw (e, note_status) (widen seen r out h)
        | inr (a, e) ↦ elim (Bool-cases (r.backend_id == "")) [
          | inl b ↦ rw (e, note_status) (rw b (widen seen r out h))
          | inr b ↦ rw (e, note_status) (rw b (noted_status seen r a out e h))
        ]
      ]

-- A status that a poll of all runs reports under an id is that of a run with this id, and it is read
-- off the allocation of the run's job with the highest creation index of all that Nomad listed.
pub poll_all-AreNewest :
    (allocs : List Alloc) (runs : List Run) (out : List (String × Status))
    → poll_all (ok allocs) runs ≡ ok out
    → (id : String) (st : Status) → lookup id out ≡ some st
    → (r : Run) × Elem r runs × (r.id ≡ id) × IsStatusOf allocs r st
unfolding poll_all
poll_all-AreNewest allocs runs out polled id st e =
    let h =
      foldl_inv (AreStatuses allocs) (note_status (foldl keep_latest [] allocs))
        (λ seen acc r k. note_status-AreStatuses allocs seen acc r k) [] [] runs
        (λ i s f. absurd (no_status s i f)) in
    let same : foldl (note_status (foldl keep_latest [] allocs)) [] runs ≡ out =
      ok-injective polled in
    let (r, m, i, n) = h id st (ap (λ o. lookup id o) same ∙ e) in (r, shunt-elem r runs m, i, n)
