-- ===== src/Runner/Delivery.antt =====
-- When an event reaches the master in internal/runner/runner.go.
use distributed_test_runner.Base.{
  not, ◌||◌, ℕ, zero, suc, ◌+◌, ◌≤◌, ◌<◌, ◌≡◌, ◌≢◌, ◌↔◌, inl, inr, refl, sym, ◌∙◌, Bool, true,
  false, ◌&&◌, String, ◌==◌, eq_iff, arith, ltb, Bool-cases,
}
use mathlib.Core.Path.{subst}
use native.Mathlib.Decide.{dec_lt}
use distributed_test_runner.Runner.Post.{Answer, is_accepted, is_refused, post_from, post}

module _ (answer : ℕ → Answer) (canceled : ℕ → Bool) where
  -- The context lasts until the attempt, the first one having no wait before it.
  abbrev Reaches : ℕ → Type 0
  Reaches n = (ltb 0 n && canceled n) ≡ false

  -- The attempt is made and fails in a way that is worth another.
  abbrev Retries : ℕ → Type 0
  Retries n = Reaches n × ((is_accepted (answer n) ≡ false) × (is_refused (answer n) ≡ false))

  -- The attempt `n`, after `first`, is the one that delivers.
  abbrev pub DeliversAt : ℕ → ℕ → Type 0
  DeliversAt first n =
      ((k : ℕ) → first ≤ k → k < n → Retries k) × (Reaches n × (is_accepted (answer n) ≡ true))

  canceled_step :
      (left n : ℕ) → (ltb 0 n && canceled n) ≡ true → post_from answer canceled (suc left) n ≡ false
  unfolding post_from
  canceled_step left n c = rw (c, post_from) refl

  accepted_step :
      (left n : ℕ)
      → Reaches n
      → is_accepted (answer n) ≡ true
      → post_from answer canceled (suc left) n ≡ true
  unfolding post_from
  accepted_step left n c a = rw (c, post_from) (rw a refl)

  refused_step :
      (left n : ℕ)
      → Reaches n
      → is_accepted (answer n) ≡ false
      → is_refused (answer n) ≡ true
      → post_from answer canceled (suc left) n ≡ false
  unfolding post_from
  refused_step left n c a r = rw (c, post_from) (rw a (rw r refl))

  retry_step :
      (left n : ℕ)
      → Retries n
      → post_from answer canceled (suc left) n ≡ post_from answer canceled left (n + 1)
  unfolding post_from
  retry_step left n (c, (a, r)) = rw (c, post_from) (rw a (rw r refl))

  true_or_false : (b : Bool) → b ≡ true → b ≡ false → ⊥
  true_or_false b t f = cc

  from_first :
      (first n : ℕ)
      → Retries first
      → ((k : ℕ) → first + 1 ≤ k → k < n → Retries k)
      → (k : ℕ) → first ≤ k
      → k < n
      → Retries k
  from_first first n now later k le lt = elim (dec_lt first k) [
    | yes p ↦ later k (omega (arith, p)) lt
    | no p ↦ let e : first ≡ k = omega (arith, p, le) in subst (λ m. Retries m) e now
  ]

  post_from-delivers :
      (left first : ℕ)
      → post_from answer canceled left first ≡ true
      → (n : ℕ) × (first ≤ n) × (n < first + left) × DeliversAt first n
  unfolding post_from
  post_from-delivers zero first h = cc
  post_from-delivers (suc left) first h = elim (Bool-cases (ltb 0 first && canceled first)) [
    | inl c ↦ absurd (true_or_false _ h (canceled_step left first c))
    | inr c ↦ elim (Bool-cases (is_accepted (answer first))) [
      | inl a ↦
          (first, omega arith, omega arith, (λ k le lt. absurd (omega (arith, le, lt)), (c, a)))
      | inr a ↦ elim (Bool-cases (is_refused (answer first))) [
        | inl r ↦ absurd (true_or_false _ h (refused_step left first c a r))
        | inr r ↦
            let now : Retries first = (c, (a, r)) in
            let (n, le, lt, at_n) =
              post_from-delivers left (first + 1) (sym (retry_step left first now) ∙ h) in
            (n, omega (arith, le), omega (arith, lt), (from_first first n now at_n.0, at_n.1))
      ]
    ]
  ]

  delivers-post_from :
      (left first n : ℕ)
      → first ≤ n
      → n < first + left
      → DeliversAt first n
      → post_from answer canceled left first ≡ true
  delivers-post_from zero first n le lt h = absurd (omega (arith, le, lt))
  delivers-post_from (suc left) first n le lt (before, here) = elim (dec_lt first n) [
    | yes p ↦
        retry_step left first (before first (omega arith) p)
        ∙ delivers-post_from left (first + 1) n (omega (arith, p)) (omega (arith, lt))
            (λ k more less. before k (omega (arith, more)) less, here)
    | no p ↦
        let e : n ≡ first = omega (arith, p, le) in
        let (reached, accepted) = subst (λ m. Reaches m × (is_accepted (answer m) ≡ true)) e here in
        accepted_step left first reached accepted
  ]

  -- An event is delivered exactly when there is a URL of the master that a request can be made for,
  -- and one of the six attempts is answered with a status below 300 and every attempt before it
  -- failed in another way than by 401 or 404, the context lasting through the waits.
  pub post_iff :
      (is_request : String → Bool) (master_url : String)
      → (post answer canceled is_request master_url ≡ true) ↔ (
          (master_url ≢ "")
          × ((is_request master_url ≡ true) × ((n : ℕ) × (n < 6) × DeliversAt 0 n)))
  unfolding post
  post_iff is_request master_url =
      elim (Bool-cases (master_url == "" || not (is_request master_url))) [
        | inl e ↦ (
          (λ h. absurd (true_or_false _ h (rw (e, post) refl))),
          (λ (some_url, (ok_url, rest)).
              absurd (true_or_false _ e (ground (arith, eq_iff master_url "", some_url, ok_url)))),
        )
        | inr e ↦ (
          (λ h.
              let (n, le, lt, at_n) = post_from-delivers 6 0 (sym (rw (e, post) refl) ∙ h) in
              (
                (λ u. true_or_false _ (ground (arith, eq_iff master_url "", u)) e),
                (ground (arith, e), (n, lt, at_n)),
              )),
          (λ (some_url, (ok_url, (n, lt, at_n))).
              rw (e, post) (delivers-post_from 6 0 n (omega arith) lt at_n)),
        )
      ]
