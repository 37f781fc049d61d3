-- ===== src/Tests/Catalogs.antt =====
-- The rules, the edits and the submissions of the test lab.
use mathlib.Core.List.{map}
use distributed_test_runner.Base.{
  ◌≡◌, ◌≢◌, ◌↔◌, inr, refl, String, true, false, none, some, [], ◌∷◌, arith, eq_iff, ◌==◌, Elem,
  All,
}
use distributed_test_runner.Base.Int.{pos}
use distributed_test_runner.Base.Keyed.{find_by}
use distributed_test_runner.Base.Result.{ok}
use distributed_test_runner.Model.Suite.{SuiteDefaults, Submission}
use distributed_test_runner.Model.Normalize.{fill, normalize}
use distributed_test_runner.Model.Normalize.Accepted.{AreAccepted, normalize_iff}
use distributed_test_runner.Config.Types.{scope_of, everywhere, in_pool}
use distributed_test_runner.Config.Quota.{user_groups, user_cap, together_rules, forbidden}
use distributed_test_runner.Config.Quota.Cap.{CapSpec, user_cap-CapSpec}
use distributed_test_runner.Config.Catalog.{remove_node, remove_user, remove_pool, remove_group}
use distributed_test_runner.Config.Catalog.Edits.{IsClosed, removals-IsClosed}
use distributed_test_runner.Config.Live.{clone, with_live_pools, live_catalog}
use distributed_test_runner.Config.Live.Closed.{live_catalog-IsClosed}
use distributed_test_runner.Tests.Fixtures.{lab, suite_spec}

user_cap-CapSpec_example :
    CapSpec "bob" (user_groups lab "bob") everywhere lab.quotas (user_cap lab "bob" everywhere)
user_cap-CapSpec_example = user_cap-CapSpec lab "bob" everywhere

apart : (a b : String) → (a == b) ≡ false → a ≢ b
apart a b h e = ground (arith, eq_iff a b)

lab-IsClosed : IsClosed lab
unfolding find_by
lab-IsClosed = record {
  nodes = (inr (λ e. cc), (inr (λ e. cc), tt));
  spans = (tt, tt);
  groups = (tt, ((λ e. cc, tt), tt));
  rules = (
    record {
      user = λ h e. cc;
      group = λ h. absurd (apart "user" "group" refl h);
      pool = λ h. absurd (apart "global" "pool" refl h);
      node = λ h. absurd (apart "global" "node" refl h);
    },
    (
      record {
        user = λ h. absurd (apart "global" "user" refl h);
        group = λ h. absurd (apart "global" "group" refl h);
        pool = λ h e. cc;
        node = λ h. absurd (apart "pool" "node" refl h);
      },
      (
        record {
          user = λ h. absurd (apart "group" "user" refl h);
          group = λ h e. cc;
          pool = λ h. absurd (apart "global" "pool" refl h);
          node = λ h. absurd (apart "global" "node" refl h);
        },
        tt,
      ),
    ),
  );
}

removals-IsClosed_example :
    IsClosed (remove_node "hp" lab).0
    × IsClosed (remove_user "hp" lab).0
    × IsClosed (remove_pool "hp" lab).0
    × IsClosed (remove_group "hp" lab).0
removals-IsClosed_example = removals-IsClosed "hp" lab lab-IsClosed

abbrev defaults : SuiteDefaults
defaults = record {
  pool = "hp";
  runtime = "process";
  image = "";
  command = [];
  requires = ("java", "21") ∷ [];
  build = [];
  env = ("LANG", "en") ∷ ("TZ", "UTC") ∷ [];
  timeout = 60;
  retries = none;
}

abbrev submission : Submission
submission = record {
  regression_id = "nightly";
  name = "nightly";
  user = "ann";
  priority = pos 1;
  labels = [];
  defaults = defaults;
  suites = suite_spec ∷ [];
}

normalize_iff_example : (normalize submission ≡ ok (fill defaults suite_spec ∷ [])) ↔ (
    (submission.suites ≢ [])
    × (fill defaults suite_spec ∷ [] ≡ map (fill defaults) (suite_spec ∷ []))
    × AreAccepted [] (fill defaults suite_spec ∷ []))
normalize_iff_example = normalize_iff submission (fill defaults suite_spec ∷ [])

pub lab_goes_live : live_catalog lab ≡ ok (with_live_pools (clone lab))
unfolding live_catalog distributed_test_runner.Base.Keyed.contains
    distributed_test_runner.Model.State.valid distributed_test_runner.Base.Sort.sort find_by
    distributed_test_runner.Config.Types.is_virtual
    distributed_test_runner.Config.Rules.validate_quotas
    distributed_test_runner.Config.Quota.rule_key
lab_goes_live = refl

live_catalog-IsClosed_example : IsClosed (with_live_pools (clone lab))
live_catalog-IsClosed_example =
    live_catalog-IsClosed lab (with_live_pools (clone lab)) lab_goes_live
