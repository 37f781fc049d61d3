-- ===== src/Model/Normalize/Merge.antt =====
-- The precedence of a suite's own settings over the submission's defaults (mergeMap).
use distributed_test_runner.Base.{◌≡◌, String, List, [], arith}
use distributed_test_runner.Base.Dict.{
  or_else, lookup, insert_all, HasUniqueKeys, lookup-insert_all,
}
use distributed_test_runner.Model.Suite.{SuiteSpec, SuiteDefaults}
use distributed_test_runner.Model.Normalize.{merge_map, fill}

-- In the merged map a key has the overriding map's value, else the base map's.
pub lookup-merge_map :
    (k : String) (base over : List (String × String))
    → HasUniqueKeys base
    → HasUniqueKeys over
    → lookup k (merge_map base over) ≡ or_else (lookup k over) (lookup k base)
unfolding merge_map lookup
lookup-merge_map k base over ub uo =
    ground (arith, lookup-insert_all k over (insert_all base []) uo, lookup-insert_all k base [] ub)

-- For maps with unique keys: in a filled suite each label that it requires and each variable of
-- its environment is the suite's own where the suite sets it, and the default's otherwise.
pub lookup-fill :
    (k : String) (d : SuiteDefaults) (su : SuiteSpec)
    → HasUniqueKeys d.requires × HasUniqueKeys su.requires
    → HasUniqueKeys d.env × HasUniqueKeys su.env
    → (lookup k (fill d su).requires ≡ or_else (lookup k su.requires) (lookup k d.requires))
      × (lookup k (fill d su).env ≡ or_else (lookup k su.env) (lookup k d.env))
unfolding fill
lookup-fill k d su (dr, sr) (de, se) =
    (lookup-merge_map k d.requires su.requires dr sr, lookup-merge_map k d.env su.env de se)
