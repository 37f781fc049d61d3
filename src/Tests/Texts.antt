-- ===== src/Tests/Texts.antt =====
-- Texts, numbers, paths and identifiers at concrete inputs.
use distributed_test_runner.Base.{◌≡◌, refl, [], ◌∷◌}
use distributed_test_runner.Base.Int.{negsuc}
use distributed_test_runner.Base.Text.{decimal, decimal_int}
use distributed_test_runner.Base.Path.{join_path}
use distributed_test_runner.Config.Quota.{rule_key, describe}
use distributed_test_runner.Sched.Ids.{sanitize_id}
use distributed_test_runner.Sched.Admit.{run_prefix}
use distributed_test_runner.Tests.Fixtures.{pool_rule, queued_run}

decimal_test : decimal 40960 ≡ "40960"
unfolding decimal
decimal_test = refl

negative_test : decimal_int (negsuc 11) ≡ "-12"
unfolding decimal_int
negative_test = refl

join_path_test : join_path ("results" ∷ "a//b/." ∷ "../c" ∷ "" ∷ []) ≡ "results/a/c"
unfolding join_path
join_path_test = refl

join_path_above : join_path ("a" ∷ "../.." ∷ []) ≡ ".."
unfolding join_path
join_path_above = refl

sanitize_id_test : sanitize_id "--My run (#3)!" ≡ "My-run-3"
unfolding sanitize_id
sanitize_id_test = refl

rule_key_test : rule_key pool_rule ≡ "global/together@pool:hp"
unfolding rule_key
rule_key_test = refl

describe_test : describe pool_rule ≡ "everyone together in pool hp"
unfolding describe
describe_test = refl

run_prefix_test : run_prefix queued_run ≡ "results/reg-1/ui/attempt-1/"
unfolding decimal join_path
run_prefix_test = refl
