-- ===== src/Sched/Submit/Payloads.antt =====
-- The suites after the loop of Submit over their payloads (internal/sched/submit.go).
use mathlib.Core.Path.{subst}
use distributed_test_runner.Base.{
  ◌≡◌, ◌≢◌, ◌⊎◌, inl, inr, refl, ap, if◌then◌else◌, String, Bool, true, false, eq_iff, Option, none,
  some, List, [], ◌∷◌, map, arith,
}
use distributed_test_runner.Base.Result.{Result, ok, >>=-eq-ok, ok-injective}
use distributed_test_runner.Model.Suite.{BuildArtifact, SuiteSpec, SuiteDefaults}
use distributed_test_runner.Model.Normalize.{fill, list_or}
use distributed_test_runner.Sched.Submit.{
  Resolved, resolve, resolve_all, resolve_suites, has_none, with_origin,
}

-- The payload `b'` that stands for `b`: the repository's answer for it, or itself where no repository
-- is configured, and then it names no id.
abbrev pub IsResolved :
    Option (BuildArtifact → Result String BuildArtifact) → BuildArtifact → BuildArtifact → Type 0
IsResolved none b b' = (b' ≡ b) × (b.id ≡ "")
IsResolved (some look) b b' = look b ≡ ok b'

abbrev pub AllResolved :
    Option (BuildArtifact → Result String BuildArtifact)
    → (before after : List BuildArtifact) → Type 0
AllResolved repo [] [] = Unit
AllResolved repo (b ∷ bs) (b' ∷ bs') = IsResolved repo b b' × AllResolved repo bs bs'
AllResolved repo _ _ = ⊥

-- The stored suites `fulls` of the submitted ones, in their order. Each is the submitted suite with
-- the defaults filled in. Its payloads, when it has some of its own, are those resolved; otherwise
-- the suite resolves the shared ones once more, which stand at `shared`, and shows what they are in
-- the end, `final`.
abbrev pub AreResolved :
    Option (BuildArtifact → Result String BuildArtifact)
    → SuiteDefaults
    → (final shared : List BuildArtifact) → (submitted fulls : List SuiteSpec) → Type 0
AreResolved repo d final shared [] [] = shared ≡ final
AreResolved repo d final shared (su ∷ sus) (full ∷ fulls) =
    (full ≡ record (fill d su) { build = full.build })
    × (((su.build ≢ [])
          × AllResolved repo su.build full.build
          × AreResolved repo d final shared sus fulls)
        ⊎ ((su.build ≡ [])
            × (full.build ≡ final)
            × ((next : List BuildArtifact) × AllResolved repo shared next
                × AreResolved repo d final next sus fulls)))
AreResolved repo d final shared _ _ = ⊥

resolve-IsResolved :
    (repo : Option (BuildArtifact → Result String BuildArtifact)) (suite : String)
    (b b' : BuildArtifact)
    → resolve repo suite b ≡ ok b'
    → IsResolved repo b b'
unfolding resolve
resolve-IsResolved none suite b b' h = ground (arith, eq_iff b.id "")
resolve-IsResolved (some look) suite b b' h = ground arith

resolve_all-AllResolved :
    (repo : Option (BuildArtifact → Result String BuildArtifact)) (suite : String)
    (bs bs' : List BuildArtifact)
    → resolve_all repo suite bs ≡ ok bs'
    → AllResolved repo bs bs'
unfolding resolve_all
resolve_all-AllResolved repo suite [] bs' h = rw (← ok-injective h) tt
resolve_all-AllResolved repo suite (b ∷ bs) bs' h =
    let (c, first, h1) = >>=-eq-ok (resolve repo suite b) _ h in
    let (cs, more, h2) = >>=-eq-ok (resolve_all repo suite bs) _ h1 in
    rw (← ok-injective h2)
      (resolve-IsResolved repo suite b c first, resolve_all-AllResolved repo suite bs cs more)

none_or_some :
    (bs : List BuildArtifact)
    → (bs ≡ [])
      ⊎ ((has_none bs ≡ false) × ((d : List BuildArtifact) → list_or bs d ≡ bs) × (bs ≢ []))
none_or_some [] = inl refl
none_or_some (b ∷ bs) = inr (refl, λ d. refl, λ e. cc)

empty_step :
    (repo : Option (BuildArtifact → Result String BuildArtifact)) (d : SuiteDefaults)
    (shared : List BuildArtifact) (res : Resolved)
    → resolve_suites repo shared [] ≡ ok res
    → AreResolved repo d res.shared shared [] res.suites
unfolding resolve_suites
empty_step repo d shared res h = rw (← ok-injective h) refl

subst2_resolved :
    (repo : Option (BuildArtifact → Result String BuildArtifact)) (d : SuiteDefaults)
    (shared : List BuildArtifact) (sus : List SuiteSpec) {final final' : List BuildArtifact}
    {fulls fulls' : List SuiteSpec}
    → final ≡ final'
    → fulls ≡ fulls'
    → AreResolved repo d final shared sus fulls
    → AreResolved repo d final' shared sus fulls'
subst2_resolved repo d shared sus {fulls = fulls} same is a =
    subst (AreResolved repo d _ shared sus) is
      (subst (λ x. AreResolved repo d x shared sus fulls) same a)

-- One round of the loop.
resolve_suites_step :
    (repo : Option (BuildArtifact → Result String BuildArtifact)) (shared : List BuildArtifact)
    (i : Bool) (full : SuiteSpec) (sus : List (Bool × SuiteSpec)) (res : Resolved)
    → resolve_suites repo shared ((i, full) ∷ sus) ≡ ok res
    → (bs : List BuildArtifact) × (resolve_all repo full.name (if i then shared else full.build)
        ≡ ok bs)
      × (rest : Resolved) × (resolve_suites repo (if i then bs else shared) sus ≡ ok rest)
      × (rest.shared ≡ res.shared)
      × (record full { build = if i then rest.shared else bs } ∷ rest.suites ≡ res.suites)
unfolding resolve_suites
resolve_suites_step repo shared i full sus res h =
    let (bs, first, h1) =
      >>=-eq-ok (resolve_all repo full.name (if i then shared else full.build)) _ h in
    let (rest, more, h2) = >>=-eq-ok (resolve_suites repo (if i then bs else shared) sus) _ h1 in
    let same = ok-injective h2 in
    (bs, first, rest, more, ap (λ x. x.shared) same, ap (λ x. x.suites) same)

pub resolve_suites-AreResolved :
    (repo : Option (BuildArtifact → Result String BuildArtifact)) (d : SuiteDefaults)
    (shared : List BuildArtifact) (sus : List SuiteSpec) (res : Resolved)
    → resolve_suites repo shared (with_origin sus (map (fill d) sus)) ≡ ok res
    → AreResolved repo d res.shared shared sus res.suites
unfolding fill
resolve_suites-AreResolved repo d shared [] res h = empty_step repo d shared res h
resolve_suites-AreResolved repo d shared (su ∷ sus) res h =
    let pairs = with_origin sus (map (fill d) sus) in
    elim (none_or_some su.build) [
      | inl e ↦
          let h' : resolve_suites repo shared ((true, fill d su) ∷ pairs) ≡ ok res =
            rw (ap has_none e) at h in
          let (bs, first, rest, more, same, is) =
            resolve_suites_step repo shared true (fill d su) pairs res h' in
          let ih = resolve_suites-AreResolved repo d bs sus rest more in
          let first' = resolve_all-AllResolved repo su.name shared bs first in
          subst2_resolved repo d shared (su ∷ sus) same is (refl, inr (e, refl, (bs, first', ih)))
      | inr (own, kept, differs) ↦
          let h' : resolve_suites repo shared ((false, fill d su) ∷ pairs) ≡ ok res = rw own at h in
          let (bs, first, rest, more, same, is) =
            resolve_suites_step repo shared false (fill d su) pairs res h' in
          let ih = resolve_suites-AreResolved repo d shared sus rest more in
          let first' =
            resolve_all-AllResolved repo su.name su.build bs
              (subst (λ x. resolve_all repo su.name x ≡ ok bs) (kept d.build) first) in
          subst2_resolved repo d shared (su ∷ sus) same is (refl, inl (differs, first', ih))
    ]
