-- ===== src/Junit.antt =====
-- internal/junit/junit.go: JUnit reports as encoding/xml decodes them, and their roll-up. A text is
-- the bytes it is made of, since trunc counts and cuts bytes. The durations, which are floats, are
-- left out of the results; seconds.UnmarshalXMLAttr is given for a parser of floats.
pub mod Walk
pub mod Counts
pub mod Bounds
use distributed_test_runner.Base.{
  ℕ, zero, suc, ◌+◌, ◌≡◌, Bool, true, false, not, ◌&&◌, ◌||◌, Option, none, some, List, [], ◌∷◌,
  ◌++◌, String, ◌==◌, nat_eq, ltb, if◌then◌else◌, length, select,
}
use distributed_test_runner.Model.Entities.{Summary}
use distributed_test_runner.Yaml.Bytes.{Bytes, trim, is_empty, has_byte, bytes_eq}

-- maxDetail
abbrev pub max_detail : ℕ
max_detail = 4000

pub record Problem : Type 0 where
  pub message : Bytes
  pub type : Bytes
  pub text : Bytes

-- xmlCase, without its time
pub record XmlCase : Type 0 where
  pub name : Bytes
  pub class_name : Bytes
  pub failure : Option Problem
  pub error : Option Problem
  pub skipped : Option Bytes

-- xmlSuite: its cases and its nested suites. The counts of its attributes are not read.
mutual
  pub data XmlSuite : Type 0 where
    suite : List XmlCase → XmlSuites → XmlSuite

  pub data XmlSuites : Type 0 where
    no_suites : XmlSuites
    more_suites : XmlSuite → XmlSuites → XmlSuites

-- What encoding/xml makes of a file: a <testsuites>, a <testsuite>, or neither.
pub data Document : Type 0 where
  wrapper : XmlSuites → Document
  single : XmlSuite → Document
  other : Document

pub record Case : Type 0 where
  pub class : Bytes
  pub name : Bytes
  pub status : String
  pub message : Bytes
  pub details : Bytes

pub record Report : Type 0 where
  pub summary : Summary
  pub cases : List Case

abbrev pub empty_report : Report
empty_report = record {
  summary = record { tests = 0; passed = 0; failed = 0; errors = 0; skipped = 0 };
  cases = [];
}

abbrev is_problem : Case → Bool
is_problem c = (c.status == "failed") || (c.status == "error")

unfoldable pub problems : Report → List Case
unfolding select
problems r = select is_problem r.cases

abbrev add_summary : Summary → Summary → Summary
add_summary s o = record {
  tests = s.tests + o.tests;
  passed = s.passed + o.passed;
  failed = s.failed + o.failed;
  errors = s.errors + o.errors;
  skipped = s.skipped + o.skipped;
}

unfoldable pub merge : Report → Report → Report
merge r o = record { summary = add_summary r.summary o.summary; cases = r.cases ++ o.cases }

unfoldable pub first_non_empty : List Bytes → Bytes
unfolding trim
first_non_empty [] = []
first_non_empty (v ∷ vs) = if not (is_empty (trim v)) then v else first_non_empty vs

-- s[:n]
unfoldable pub take_bytes : ℕ → Bytes → Bytes
take_bytes zero s = []
take_bytes (suc n) [] = []
take_bytes (suc n) (c ∷ s) = c ∷ take_bytes n s

-- "\n... (truncated, see artifact)"
abbrev pub cut_notice : Bytes
cut_notice =
    10 ∷ 46 ∷ 46 ∷ 46 ∷ 32 ∷ 40 ∷ 116 ∷ 114 ∷ 117 ∷ 110 ∷ 99 ∷ 97 ∷ 116 ∷ 101 ∷ 100 ∷ 44 ∷ 32 ∷ 115
    ∷ 101 ∷ 101 ∷ 32 ∷ 97 ∷ 114 ∷ 116 ∷ 105 ∷ 102 ∷ 97 ∷ 99 ∷ 116 ∷ 41 ∷ []

-- trunc, for a limit
unfoldable pub trunc_to : ℕ → Bytes → Bytes
unfolding trim take_bytes
trunc_to limit s =
    if ltb limit (length (trim s)) then take_bytes limit (trim s) ++ cut_notice else trim s

abbrev pub trunc : Bytes → Bytes
trunc s = trunc_to max_detail s

-- The case that a <testcase> becomes.
unfoldable pub case_of : XmlCase → Case
unfolding first_non_empty trunc_to
case_of c = elim c.error [
  | some p ↦ record {
    class = c.class_name;
    name = c.name;
    status = "error";
    message = first_non_empty (p.message ∷ p.type ∷ []);
    details = trunc p.text;
  }
  | none ↦ elim c.failure [
    | some p ↦ record {
      class = c.class_name;
      name = c.name;
      status = "failed";
      message = first_non_empty (p.message ∷ p.type ∷ []);
      details = trunc p.text;
    }
    | none ↦ elim c.skipped [
      | some why ↦ record {
        class = c.class_name;
        name = c.name;
        status = "skipped";
        message = why;
        details = [];
      }
      | none ↦ record {
        class = c.class_name;
        name = c.name;
        status = "passed";
        message = [];
        details = [];
      }
    ]
  ]
]

-- The counters after a case.
unfoldable pub count_case : XmlCase → Summary → Summary
count_case c s = elim c.error [
  | some p ↦ record s { tests = s.tests + 1; errors = s.errors + 1 }
  | none ↦ elim c.failure [
    | some p ↦ record s { tests = s.tests + 1; failed = s.failed + 1 }
    | none ↦ elim c.skipped [
      | some why ↦ record s { tests = s.tests + 1; skipped = s.skipped + 1 }
      | none ↦ record s { tests = s.tests + 1; passed = s.passed + 1 }
    ]
  ]
]

-- for _, c := range s.Cases
unfoldable pub add_cases : List XmlCase → Report → Report
unfolding case_of count_case
add_cases [] r = r
add_cases (c ∷ cs) r =
    add_cases cs (record { summary = count_case c r.summary; cases = r.cases ++ case_of c ∷ [] })

unfoldable mutual
  unfolding add_cases merge

  pub from_suite : XmlSuite → Report
  from_suite (suite cases nested) = merge_suites nested (add_cases cases empty_report)

  -- for _, n := range s.Nested { res.merge(fromSuite(n)) }
  pub merge_suites : XmlSuites → Report → Report
  merge_suites no_suites r = r
  merge_suites (more_suites s rest) r = merge_suites rest (merge r (from_suite s))

-- Parse, after the decoding.
unfoldable pub parse : Document → Option Report
unfolding from_suite
parse (wrapper suites) = some (merge_suites suites empty_report)
parse (single s) = some (from_suite s)
parse other = none

-- A file that the walk meets: whether its extension is .xml, and what is in it, or an error.
pub record File : Type 0 where
  pub is_xml : Bool
  pub content : Option Document

-- ParseDir over the files in the order of the walk. An error to open one ends it, with what was
-- merged so far.
unfoldable pub parse_files : List File → Report → Report × Bool
unfolding parse merge
parse_files [] r = (r, true)
parse_files (f ∷ fs) r = elim f.is_xml [
  | false ↦ parse_files fs r
  | true ↦ elim f.content [
    | none ↦ (r, false)
    | some doc ↦ elim (parse doc) [
      | none ↦ parse_files fs r
      | some one ↦ parse_files fs (merge r one)
    ]
  ]
]

unfoldable pub parse_dir : List File → Report × Bool
unfolding parse_files
parse_dir fs = parse_files fs empty_report

unfoldable count_byte : ℕ → Bytes → ℕ
count_byte b [] = 0
count_byte b (c ∷ s) = if nat_eq b c then suc (count_byte b s) else count_byte b s

unfoldable replace_byte : ℕ → Bytes → Bytes → Bytes
replace_byte b new [] = []
replace_byte b new (c ∷ s) =
    let rest = replace_byte b new s in if nat_eq b c then new ++ rest else c ∷ rest

module _ {F : Type 0} (parse_float : Bytes → Option F) (no_time : F) where
  abbrev time_or_zero : Option F → F
  time_or_zero none = no_time
  time_or_zero (some f) = f

  -- seconds.UnmarshalXMLAttr
  unfoldable pub seconds : Bytes → F
  unfolding trim count_byte has_byte replace_byte
  seconds value =
      let v = trim value in
      elim (parse_float v) [
        | some f ↦ f
        | none ↦
            if nat_eq (count_byte b',' v) 1 && not (has_byte b'.' v)
            then time_or_zero (parse_float (replace_byte b',' (b'.' ∷ []) v))
            else time_or_zero (parse_float (replace_byte b',' [] v))
      ]
