-- ===== src/Tests/Documents.antt =====
-- YAML documents and JUnit reports at concrete inputs.
use distributed_test_runner.Base.{
  ℕ, ◌+◌, ◌≡◌, ◌≢◌, refl, true, false, Option, none, some, List, [], ◌∷◌, ◌++◌, All, length,
}
use distributed_test_runner.Base.Int.{pos}
use distributed_test_runner.Base.Result.{ok, err}
use distributed_test_runner.Yaml.Bytes.{Bytes}
use distributed_test_runner.Yaml.Value.{
  Value, bool, int, null, text, sequence, mapping, no_items, item, no_fields, field, unfinished,
  tabs, unterminated_flow,
}
use distributed_test_runner.Yaml.Quoted.{split_flow}
use distributed_test_runner.Yaml.Lines.{Line}
use distributed_test_runner.Yaml.Parse.{parse, parse_lines}
use distributed_test_runner.Yaml.Fuel.Documents.{parse-Ends}
use distributed_test_runner.Yaml.Print.{line, print_below, IsPrintable}
use distributed_test_runner.Yaml.Print.RoundTrip.{parse_lines-print_below}
use distributed_test_runner.Yaml.Print.Items.{item_key_lost}
use distributed_test_runner.Junit.{
  XmlCase, XmlSuite, suite, no_suites, more_suites, single, other, Case, File, problems, parse_dir,
  cut_notice,
}
use distributed_test_runner.Junit.Counts.{IsCounted, parse_dir-IsCounted}
use distributed_test_runner.Junit.Bounds.{FitsDetail, parse_dir-Fits}

abbrev no_floats : Bytes → Option ℕ
no_floats s = none

-- a: 1 # one
abbrev a_is_one : Bytes
a_is_one = b'a' ∷ b':' ∷ b' ' ∷ b'1' ∷ b' ' ∷ b'#' ∷ b' ' ∷ b'o' ∷ b'n' ∷ b'e' ∷ []

-- b:, and below it the items yes and 'x'
abbrev b_is_list : Bytes
b_is_list =
    b'b' ∷ b':' ∷ b'\n' ∷ b'-' ∷ b' ' ∷ b'y' ∷ b'e' ∷ b's' ∷ b'\n' ∷ b'-' ∷ b' ' ∷ b'\'' ∷ b'x'
    ∷ b'\'' ∷ []

abbrev document : Bytes
document = a_is_one ++ b'\n' ∷ b_is_list

document_test :
    parse no_floats document
    ≡ ok (
        mapping (
          field (b'a' ∷ []) (int (pos 1)) (
            field
              (b'b' ∷ [])
              (sequence (item (bool true) (item (text (b'x' ∷ [])) no_items)))
              no_fields)))
unfolding parse
document_test = refl

empty_test : parse no_floats [] ≡ ok (mapping no_fields)
unfolding parse
empty_test = refl

tab_test : parse no_floats (b'\t' ∷ a_is_one) ≡ err (tabs 1)
unfolding parse
tab_test = refl

open_flow_test : parse no_floats (b'a' ∷ b':' ∷ b' ' ∷ b'[' ∷ []) ≡ err (unterminated_flow 1)
unfolding parse
open_flow_test = refl

parse-Ends_example : parse no_floats document ≢ err unfinished
parse-Ends_example = parse-Ends no_floats document

-- The list of a quoted text and a null, under the key k.
abbrev printed : Value ℕ
printed =
    mapping (
      field (b'k' ∷ []) (sequence (item (text (b'\'' ∷ b'#' ∷ [])) (item null no_items))) no_fields)

printed-IsPrintable : IsPrintable printed
unfolding IsPrintable
printed-IsPrintable = ((refl, tt), (refl, ((tt, (tt, tt)), tt)))

parse_lines-print_below_example : parse_lines no_floats (print_below 0 printed []) ≡ ok printed
parse_lines-print_below_example = parse_lines-print_below no_floats printed printed-IsPrintable refl

-- a,'b,c'
abbrev flow : Bytes
flow = b'a' ∷ b',' ∷ b'\'' ∷ b'b' ∷ b',' ∷ b'c' ∷ b'\'' ∷ []

flow_test : split_flow flow ≡ (b'a' ∷ []) ∷ (b'\'' ∷ b'b' ∷ b',' ∷ b'c' ∷ b'\'' ∷ []) ∷ []
unfolding split_flow
flow_test = refl

abbrev below : List Line
below = line 2 (b'c' ∷ b':' ∷ b' ' ∷ b'1' ∷ []) ∷ []

-- - a:, with c: 1 below it
lost_test :
    parse_lines no_floats (line 0 (b'-' ∷ b' ' ∷ b'a' ∷ b':' ∷ []) ∷ below)
    ≡ ok (sequence (item (mapping (field (b'c' ∷ []) (int (pos 1)) no_fields)) no_items))
unfolding parse
lost_test = refl

item_key_lost_example :
    parse_lines no_floats (line 0 (b'-' ∷ b' ' ∷ b'a' ∷ b':' ∷ []) ∷ below)
    ≡ parse_lines no_floats (line 0 (b'-' ∷ b' ' ∷ b'b' ∷ b':' ∷ []) ∷ below)
item_key_lost_example = item_key_lost no_floats (b'a' ∷ []) (b'b' ∷ []) below (refl, tt) (refl, tt)

abbrev named : Bytes → XmlCase
named s = record { name = s; class_name = []; failure = none; error = none; skipped = none }

abbrev broken : XmlCase
broken = record (named (b'x' ∷ [])) {
  failure = some (record { message = []; type = b'E' ∷ []; text = b' ' ∷ b't' ∷ [] });
}

-- A suite of two cases with a nested suite of one.
abbrev nested_suite : XmlSuite
nested_suite =
    suite (broken ∷ named (b'y' ∷ []) ∷ [])
      (more_suites (suite (named (b'z' ∷ []) ∷ []) no_suites) no_suites)

abbrev pub results : List File
results =
    record { is_xml = true; content = some (single nested_suite) }
    ∷ record { is_xml = false; content = none }
    ∷ record { is_xml = true; content = some other }
    ∷ []

results_test :
    problems (parse_dir results).0
    ≡ record {
      class = [];
      name = b'x' ∷ [];
      status = "failed";
      message = b'E' ∷ [];
      details = b't' ∷ [];
    }
      ∷ []
unfolding parse_dir problems
results_test = refl

parse_dir-IsCounted_example :
    IsCounted (parse_dir results).0
    × (length (problems (parse_dir results).0)
        ≡ (parse_dir results).0.summary.failed + (parse_dir results).0.summary.errors)
parse_dir-IsCounted_example = parse_dir-IsCounted results

parse_dir-Fits_example :
    (length cut_notice ≡ 30) × All (λ (c : Case). FitsDetail c.details) (parse_dir results).0.cases
parse_dir-Fits_example = parse_dir-Fits results
