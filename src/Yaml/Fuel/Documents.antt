-- ===== src/Yaml/Fuel/Documents.antt =====
-- The recursion of internal/yamlite/yamlite.go ends: the fuel that parse gives is enough for every
-- document.
use distributed_test_runner.Base.{
  ℕ, ◌+◌, ◌*◌, ◌≢◌, Option, List, [], ◌∷◌, if◌then◌else◌, arith, length,
}
use distributed_test_runner.Base.Result.{Result, ok, err, ◌>>=◌}
use distributed_test_runner.Yaml.Bytes.{Bytes, split, unix_lines}
use distributed_test_runner.Yaml.Value.{Problem, tabs, unfinished, Value}
use distributed_test_runner.Yaml.Quoted.{strip_comment}
use distributed_test_runner.Yaml.Lines.{Line, lines_of, lines_from, is_skipped, is_tabbed, line_of}
use distributed_test_runner.Yaml.Parse.{Read, parse_block, parse, parse_lines, whole}
use distributed_test_runner.Yaml.Fuel.Scalars.{Ends, Ends-if, Ends->>=}
use distributed_test_runner.Yaml.Fuel.Reads.{Leaves}
use distributed_test_runner.Yaml.Fuel.Blocks.{fuel-Enough}

module _ {F : Type 0} (parse_float : Bytes → Option F) where
  whole-Ends : (n : ℕ) (r : Read (Value F)) → Leaves n r → Ends (r >>= whole parse_float)
  whole-Ends n (ok (v, [])) h = tt
  whole-Ends n (ok (v, l ∷ ls)) h = ground arith
  whole-Ends n (err why) h = h

  parse_lines-Ends : (ls : List Line) → Ends (parse_lines parse_float ls)
  parse_lines-Ends [] = tt
  parse_lines-Ends (l ∷ ls) =
      whole-Ends (length (l ∷ ls)) (parse_block parse_float (length (l ∷ ls) * 2 + 2) (l ∷ ls))
        ((fuel-Enough parse_float (length (l ∷ ls) * 2 + 2)).0 l ls (omega arith))

lines_from-Ends : (i : ℕ) (raws : List Bytes) → Ends (lines_from i raws)
unfolding lines_from
lines_from-Ends i [] = tt
lines_from-Ends i (raw ∷ raws) =
    let ih = lines_from-Ends (i + 1) raws in
    Ends-if (is_skipped (strip_comment raw)) (lines_from (i + 1) raws)
      (if is_tabbed (strip_comment raw)
        then err (tabs (i + 1))
        else lines_from (i + 1) raws >>= (λ ls. ok (line_of (i + 1) (strip_comment raw) ∷ ls)))
      ih
      (Ends-if (is_tabbed (strip_comment raw)) (err (tabs (i + 1)))
        (lines_from (i + 1) raws >>= (λ ls. ok (line_of (i + 1) (strip_comment raw) ∷ ls)))
        (ground arith) (Ends->>= (lines_from (i + 1) raws) _ ih (λ ls. tt)))

Ends-≢ : {A : Type 0} (r : Result Problem A) → Ends r → r ≢ err unfinished
Ends-≢ (ok a) h e = cc
Ends-≢ (err why) h e = h (cc)

module _ {F : Type 0} (parse_float : Bytes → Option F) where
  -- Parsing ends on every document, with a value or with an error of the source: the fuel that the
  -- model gives its loops and its nested flow sequences never runs out.
  pub parse-Ends : (document : Bytes) → parse parse_float document ≢ err unfinished
  unfolding parse lines_of
  parse-Ends document = Ends-≢ (lines_of document >>= parse_lines parse_float) (
      Ends->>= (lines_of document) (parse_lines parse_float)
        (lines_from-Ends 0 (split b'\n' (unix_lines document))) (parse_lines-Ends parse_float))
