-- ===== src/Config/Quota/Concerns.antt =====
-- Whom a quota rule is about (covers, internal/config/quota.go).
use distributed_test_runner.Base.{◌≡◌, ◌≢◌, ◌⊎◌, String, true, List, arith, eq_iff, Elem}
use distributed_test_runner.Base.Keyed.{contains→elem, elem→contains}
use distributed_test_runner.Config.Types.{QuotaRule, subject_user, subject_group}
use distributed_test_runner.Config.Quota.{covers}

-- The rule is about this user: their own, one of their groups', or everyone's.
abbrev pub Concerns : QuotaRule → String → List String → Type 0
Concerns r user groups =
    ((r.subject ≡ subject_user) × (r.name ≡ user))
    ⊎ ((r.subject ≡ subject_group) × Elem r.name groups)
    ⊎ ((r.subject ≢ subject_user) × (r.subject ≢ subject_group))

pub covers_sound :
    (r : QuotaRule) (user : String) (groups : List String)
    → covers r user groups ≡ true
    → Concerns r user groups
unfolding covers
covers_sound r user groups h = ground (
  arith,
  eq_iff r.subject "user",
  eq_iff r.subject "group",
  eq_iff r.name user,
  contains→elem groups r.name,
)

pub user-ne-group : subject_user ≢ subject_group
user-ne-group e = cc ((eq_iff subject_user subject_group).1 e)

pub covers_complete :
    (r : QuotaRule) (user : String) (groups : List String)
    → Concerns r user groups
    → covers r user groups ≡ true
unfolding covers
covers_complete r user groups h = ground (
  arith,
  eq_iff r.subject "user",
  eq_iff r.subject "group",
  eq_iff r.name user,
  elem→contains groups r.name,
  user-ne-group,
)
