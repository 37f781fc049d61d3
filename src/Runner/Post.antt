-- ===== src/Runner/Post.antt =====
-- The delivery of an event to the master in internal/runner/runner.go, retried briefly.
use distributed_test_runner.Base.{
  not, ℕ, zero, suc, ◌+◌, Bool, true, false, ◌&&◌, ◌||◌, nat_eq, ltb, if◌then◌else◌, String, ◌==◌,
}

-- What one request comes to: no answer, or an answer's status.
pub data Answer : Type 0 where
  unanswered : Answer
  status : ℕ → Answer

abbrev pub is_accepted : Answer → Bool
is_accepted unanswered = false
is_accepted (status code) = ltb code 300

-- not worth retrying
abbrev pub is_refused : Answer → Bool
is_refused unanswered = false
is_refused (status code) = nat_eq code 401 || nat_eq code 404

-- `answer` is what each attempt meets, `canceled` says that the context ends in the wait before it.
module _ (answer : ℕ → Answer) (canceled : ℕ → Bool) where
  -- The attempts that are left, and the number of the next one.
  unfoldable pub post_from : ℕ → ℕ → Bool
  post_from zero attempt = false
  post_from (suc left) attempt = elim (ltb 0 attempt && canceled attempt) [
    | true ↦ false
    | false ↦ elim (is_accepted (answer attempt)) [
      | true ↦ true
      | false ↦ elim (is_refused (answer attempt)) [
        | true ↦ false
        | false ↦ post_from left (attempt + 1)
      ]
    ]
  ]

  -- post: whether the event reached the master, of whose URL it is told; `is_request` says that a
  -- request can be made for it, without which the first attempt gives up.
  unfoldable pub post : (is_request : String → Bool) → String → Bool
  unfolding post_from
  post is_request master_url =
      if master_url == "" || not (is_request master_url) then false else post_from 6 0
