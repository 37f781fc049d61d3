-- ===== src/Buildrepo/Latest.antt =====
-- The "latest" build of internal/buildrepo/buildrepo.go is the newest.
use distributed_test_runner.Base.{
  ◌≤◌, ◌≡◌, ◌∙◌, sym, ap, refl, inl, inr, String, Bool, true, false, ◌==◌, Option, none, some, List,
  [], ◌∷◌, arith, Elem, All-elem, Bool-cases, Option-cases,
}
use mathlib.Core.Path.{subst}
use distributed_test_runner.Base.Sort.{IsOrdered, IsWeakOrder, sort-IsOrdered, NotLess}
use distributed_test_runner.Base.Text.{concat}
use distributed_test_runner.Base.Result.{Result, ok, err, ok-injective}
use distributed_test_runner.Model.Suite.{BuildArtifact}
use distributed_test_runner.Buildrepo.{
  Manifest, Payload, Object, newer, payloads_of, first_manifest, complete, wanted_product,
  resolve_among, resolve, unsorted, completed_by,
}

newer-IsWeakOrder : IsWeakOrder newer
unfolding newer
newer-IsWeakOrder = record {
  asymmetric = λ x y e. ground arith;
  not_less_trans = λ x y z e f. ground arith;
}

-- The manifest stands in the repository and passes the test, and no other that does is newer.
abbrev pub IsNewestOf : (Payload → Manifest → Bool) → List Payload → Manifest → Type 0
IsNewestOf test ps m =
    ((p : Payload) × Elem p ps × (p.manifest ≡ some m) × (test p m ≡ true))
    × ((q : Payload) (n : Manifest)
        → Elem q ps
        → q.manifest ≡ some n
        → test q n ≡ true
        → n.built ≤ m.built)

same_manifest : (a b : Manifest) (o : Option Manifest) → o ≡ some a → o ≡ some b → a ≡ b
same_manifest a b o e f = cc

absent_manifest : (a : Manifest) (o : Option Manifest) → o ≡ none → o ≡ some a → ⊥
absent_manifest a o e f = cc

true_or_false : (b : Bool) → b ≡ true → b ≡ false → ⊥
true_or_false b t f = cc

not_newer :
    (q p : Payload) (n m : Manifest)
    → newer q p ≡ false
    → q.manifest ≡ some n
    → p.manifest ≡ some m
    → n.built ≤ m.built
unfolding newer
not_newer q p n m h e f = ground arith

-- A payload that does not pass leaves the newest what it is.
IsNewestOf-cons :
    (test : Payload → Manifest → Bool) (p : Payload) (ps : List Payload) (m : Manifest)
    → ((n : Manifest) → p.manifest ≡ some n → test p n ≡ false)
    → IsNewestOf test ps m
    → IsNewestOf test (p ∷ ps) m
IsNewestOf-cons test p ps m fails ((r, r_in, r_m, passes), top) = (
  (r, inr r_in, r_m, passes),
  λ q n m_in e t. elim m_in [
    | inr later ↦ top q n later e t
    | inl is_p ↦ absurd (
        true_or_false (test q n) t (
          subst (λ x. test x n ≡ false) is_p (fails n (ap (λ (x : Payload). x.manifest) is_p ∙ e))))
  ],
)

first_manifest-IsNewestOf :
    (test : Payload → Manifest → Bool) (ps : List Payload) (m : Manifest)
    → IsOrdered newer ps
    → first_manifest test ps ≡ some m
    → IsNewestOf test ps m
unfolding first_manifest
first_manifest-IsNewestOf test [] m o e = cc
first_manifest-IsNewestOf test (p ∷ ps) m o e = elim (Option-cases p.manifest) [
  | inl f ↦
      IsNewestOf-cons test p ps m (λ n g. absurd (absent_manifest n _ f g))
        (first_manifest-IsNewestOf test ps m o.1 (rw (f, first_manifest) at e))
  | inr (k, f) ↦ elim (Bool-cases (test p k)) [
    | inr t ↦
        IsNewestOf-cons test p ps m
          (λ n g. subst (λ x. test p x ≡ false) (same_manifest k n _ f g) t)
          (first_manifest-IsNewestOf test ps m o.1 (rw t at (rw (f, first_manifest) at e)))
    | inl t ↦
        let same : k ≡ m =
          same_manifest k m (some k) refl (rw t at (rw (f, first_manifest) at e)) in
        rw (← same) (
          (p, inl refl, f, t),
          λ q n m_in g passes. elim m_in [
            | inl is_p ↦
                let both : n ≡ k =
                  same_manifest n k _ (ap (λ (x : Payload). x.manifest) is_p ∙ g) f in
                rw both (omega arith)
            | inr later ↦ not_newer q p n k (All-elem (NotLess newer p) q ps o.0 later) g f
          ],
        )
  ]
]

refused : {A : Type 0} {a : A} {why : String} → ◌≡◌ {A = Result String A} (err why) (ok a) → ⊥
refused e = cc

-- The error of an entry whose product has no build.
abbrev missing : BuildArtifact → String
missing a = concat (
    "build \""
    ∷ a.name
    ∷ "\": no build of product \""
    ∷ wanted_product a
    ∷ "\" in the repository"
    ∷ [])

module _ (bucket : String) (read : String → Option Manifest) (objs : List Object) where
  abbrev payloads : List Payload
  payloads = payloads_of bucket read objs

  payloads-IsOrdered : IsOrdered newer payloads
  unfolding payloads_of
  payloads-IsOrdered = sort-IsOrdered newer newer-IsWeakOrder (unsorted bucket read objs)

  abbrev of_product : BuildArtifact → Payload → Manifest → Bool
  of_product a p n = n.product == wanted_product a

  resolve_latest :
      (a : BuildArtifact)
      → a.id ≡ "latest"
      → resolve (ok payloads) a
        ≡ completed_by (missing a) a (first_manifest (of_product a) payloads)
  unfolding resolve resolve_among
  resolve_latest a latest =
      let yes_latest : (a.id == "latest") ≡ true = rw latest refl in
      let some_id : (a.id == "") ≡ false = rw latest refl in
      rw (some_id, resolve) (rw yes_latest refl)

  -- An entry that asks for the latest build is completed from a manifest of its product in the
  -- repository, and no manifest of that product there is newer.
  pub resolve-latest :
      (a b : BuildArtifact)
      → a.id ≡ "latest"
      → resolve (ok payloads) a ≡ ok b
      → (m : Manifest) × (b ≡ complete a m)
        × IsNewestOf (λ p n. n.product == wanted_product a) payloads m
  unfolding resolve
  resolve-latest a b latest done =
      let chosen = sym (resolve_latest a latest) ∙ done in
      elim (Option-cases (first_manifest (of_product a) payloads)) [
        | inl f ↦ absurd (refused (rw f at chosen))
        | inr (m, f) ↦ (
          m,
          sym (ok-injective (rw f at chosen)),
          first_manifest-IsNewestOf (of_product a) payloads m payloads-IsOrdered f,
        )
      ]
