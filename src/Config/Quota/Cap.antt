-- ===== src/Config/Quota/Cap.antt =====
-- UserCap (internal/config/quota.go) against the rule table's meaning.
use distributed_test_runner.Base.{
  ◌≡◌, ◌≢◌, ◌⊎◌, inl, inr, refl, String, true, false, Option, none, some, List, [], ◌∷◌, arith,
  eq_iff, Elem, Option-cases,
}
use distributed_test_runner.Base.Int.{◌≤ℤ◌}
use distributed_test_runner.Base.Dict.{or_else}
use distributed_test_runner.Base.Loop.{shunt, foldl_inv, shunt-elem, elem-shunt}
use distributed_test_runner.Config.Types.{QuotaRule, Catalog, Scope, subject_user, subject_group}
use distributed_test_runner.Config.Quota.{user_groups, Caps, caps_user, cap_step, cap_of, user_cap}
use distributed_test_runner.Config.Quota.Concerns.{
  Concerns, covers_sound, covers_complete, user-ne-group,
}

module _ (user : String) (groups : List String) (scope : Scope) where
  -- A rule that limits each user by themselves, in this scope, and concerns this user.
  pub record Limits (r : QuotaRule) : Type 0 where
    pub each : r.together ≡ false
    pub kind : r.scope ≡ scope.kind
    pub target : r.target ≡ scope.target
    pub concerns : Concerns r user groups

  caps_user_sound : (r : QuotaRule) → caps_user user groups scope r ≡ true → Limits r
  unfolding caps_user
  caps_user_sound r h =
      ground
        (arith, eq_iff r.scope scope.kind, eq_iff r.target scope.target, covers_sound r user groups)

  caps_user_complete : (r : QuotaRule) → Limits r → caps_user user groups scope r ≡ true
  unfolding caps_user
  caps_user_complete r h = ground (
    arith,
    eq_iff r.scope scope.kind,
    eq_iff r.target scope.target,
    covers_complete r user groups,
  )

  -- What the three candidates are after the rules `seen`.
  record Inv (seen : List QuotaRule) (s : Caps) : Type 0 where
    own_some :
        (r : QuotaRule) → s.own ≡ some r → Elem r seen × Limits r × (r.subject ≡ subject_user)
    own_none : (q : QuotaRule) → s.own ≡ none → Elem q seen → Limits q → q.subject ≢ subject_user
    best_some :
        (r : QuotaRule) → s.best ≡ some r → Elem r seen × Limits r × (r.subject ≡ subject_group)
    best_none : (q : QuotaRule) → s.best ≡ none → Elem q seen → Limits q → q.subject ≢ subject_group
    best_most :
        (r q : QuotaRule)
        → s.best ≡ some r
        → Elem q seen
        → Limits q
        → q.subject ≡ subject_group
        → q.max_slots ≤ℤ r.max_slots
    global_some : (r : QuotaRule) → s.global ≡ some r → Elem r seen × Limits r
    global_none :
        (q : QuotaRule)
        → s.global ≡ none
        → Elem q seen
        → Limits q
        → (q.subject ≡ subject_user) ⊎ (q.subject ≡ subject_group)

  module _ (seen : List QuotaRule) (s : Caps) (x : QuotaRule) (h : Inv seen s) where
    abbrev after : Caps
    after = cap_step user groups scope s x

    after_own_none :
        (q : QuotaRule) → after.own ≡ none → Elem q (x ∷ seen) → Limits q → q.subject ≢ subject_user
    unfolding cap_step
    after_own_none q e m l = ground (
      arith,
      eq_iff x.subject "user",
      eq_iff x.subject "group",
      caps_user_complete q l,
      h.own_none q,
    )

    after_best_none :
        (q : QuotaRule)
        → after.best ≡ none
        → Elem q (x ∷ seen)
        → Limits q
        → q.subject ≢ subject_group
    unfolding cap_step
    after_best_none q e m l = ground (
      arith,
      eq_iff x.subject "user",
      eq_iff x.subject "group",
      caps_user_complete q l,
      user-ne-group,
      h.best_none q,
    )

    after_best_most :
        (r q : QuotaRule)
        → after.best ≡ some r
        → Elem q (x ∷ seen)
        → Limits q
        → q.subject ≡ subject_group
        → q.max_slots ≤ℤ r.max_slots
    unfolding cap_step
    after_best_most r q e m l g = elim (Option-cases s.best) [
      | inl n ↦ ground (
        arith,
        eq_iff x.subject "user",
        eq_iff x.subject "group",
        caps_user_complete q l,
        user-ne-group,
        h.best_none q,
      )
      | inr (b, eb) ↦ ground (
        arith,
        eq_iff x.subject "user",
        eq_iff x.subject "group",
        caps_user_complete q l,
        user-ne-group,
        h.best_most b q,
      )
    ]

    after_global_none :
        (q : QuotaRule)
        → after.global ≡ none
        → Elem q (x ∷ seen)
        → Limits q
        → (q.subject ≡ subject_user) ⊎ (q.subject ≡ subject_group)
    unfolding cap_step
    after_global_none q e m l = ground (
      arith,
      eq_iff x.subject "user",
      eq_iff x.subject "group",
      caps_user_complete q l,
      h.global_none q,
    )

    cap_step-Inv : Inv (x ∷ seen) after
    unfolding cap_step
    cap_step-Inv = record {
      own_some = λ r e. ground (arith, eq_iff x.subject "user", caps_user_sound x, h.own_some r);
      own_none = after_own_none;
      best_some = λ r e. ground (
        arith,
        eq_iff x.subject "user",
        eq_iff x.subject "group",
        caps_user_sound x,
        h.best_some r,
      );
      best_none = after_best_none;
      best_most = after_best_most;
      global_some = λ r e. ground (arith, caps_user_sound x, h.global_some r);
      global_none = after_global_none;
    }

  Inv-start : Inv [] (record { own = none; best = none; global = none })
  Inv-start = record {
    own_some = λ r e. cc;
    own_none = λ q e m l. absurd m;
    best_some = λ r e. cc;
    best_none = λ q e m l. absurd m;
    best_most = λ r q e m l g. absurd m;
    global_some = λ r e. cc;
    global_none = λ q e m l. absurd m;
  }

  -- No rule of the subject kind limits this user in this scope.
  abbrev pub NoneOf : String → List QuotaRule → Type 0
  NoneOf subject quotas = (q : QuotaRule) → Elem q quotas → Limits q → q.subject ≢ subject

  -- The rule is the one that governs: it limits the user here, and it is the user's own; or of one of
  -- their groups, with none of their own and no group allowing more; or everyone's, with neither.
  pub record Governs (quotas : List QuotaRule) (r : QuotaRule) : Type 0 where
    pub listed : Elem r quotas
    pub limits : Limits r
    pub rank :
        (r.subject ≡ subject_user)
        ⊎ ((r.subject ≡ subject_group)
            × NoneOf subject_user quotas
            × ((q : QuotaRule)
                → Elem q quotas
                → Limits q
                → q.subject ≡ subject_group
                → q.max_slots ≤ℤ r.max_slots))
        ⊎ (NoneOf subject_user quotas × NoneOf subject_group quotas)

  abbrev pub CapSpec : List QuotaRule → Option QuotaRule → Type 0
  CapSpec quotas none = (q : QuotaRule) → Elem q quotas → ¬ Limits q
  CapSpec quotas (some r) = Governs quotas r

  -- From the candidates that the loop leaves to the answer.
  choose :
      (quotas : List QuotaRule) (own best global : Option QuotaRule)
      → Inv (shunt [] quotas) (record { own = own; best = best; global = global })
      → CapSpec quotas (or_else own (or_else best global))
  choose quotas (some r) best global h =
      let (m, l, u) = h.own_some r refl in
      record { listed = shunt-elem r quotas m; limits = l; rank = inl u }
  choose quotas none (some r) global h =
      let (m, l, g) = h.best_some r refl in
      record {
        listed = shunt-elem r quotas m;
        limits = l;
        rank = inr (
            inl (
              g,
              λ q e. h.own_none q refl (elem-shunt q quotas e),
              λ q e. h.best_most r q refl (elem-shunt q quotas e),
            ));
      }
  choose quotas none none (some r) h =
      let (m, l) = h.global_some r refl in
      record {
        listed = shunt-elem r quotas m;
        limits = l;
        rank = inr (
            inr (
              λ q e. h.own_none q refl (elem-shunt q quotas e),
              λ q e. h.best_none q refl (elem-shunt q quotas e),
            ));
      }
  choose quotas none none none h = λ q e l.
      let m = elem-shunt q quotas e in
      ground (arith, h.global_none q refl m l, h.own_none q refl m l, h.best_none q refl m l)

  pub cap_of-CapSpec : (quotas : List QuotaRule) → CapSpec quotas (cap_of user groups scope quotas)
  unfolding cap_of
  cap_of-CapSpec quotas =
      choose quotas _ _ _
        (foldl_inv Inv (cap_step user groups scope) cap_step-Inv [] _ quotas Inv-start)

-- UserCap finds the rule that governs a user in a scope, whatever the order of the table: the user's
-- own, else one of their groups' that no other group's rule exceeds, else everyone's; it answers nil
-- only when no rule limits the user by themselves there.
pub user_cap-CapSpec :
    (c : Catalog) (user : String) (scope : Scope)
    → CapSpec user (user_groups c user) scope c.quotas (user_cap c user scope)
unfolding user_cap
user_cap-CapSpec c user scope = cap_of-CapSpec user (user_groups c user) scope c.quotas
