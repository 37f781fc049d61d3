-- ===== src/Junit/Walk.antt =====
-- What an empty report has, and every case and every merge keeps, the report of a directory in
-- internal/junit/junit.go has.
use distributed_test_runner.Base.{
  ◌≡◌, Option, some, List, [], ◌∷◌, ◌++◌, Bool-cases, Option-cases, inl, inr,
}
use distributed_test_runner.Junit.{
  XmlCase, XmlSuite, XmlSuites, suite, no_suites, more_suites, Document, wrapper, single, other,
  Report, empty_report, merge, case_of, count_case, add_cases, from_suite, merge_suites, parse,
  File, parse_files, parse_dir,
}

abbrev pub after_case : XmlCase → Report → Report
after_case c r = record { summary = count_case c r.summary; cases = r.cases ++ case_of c ∷ [] }

module _ (P : Report → Type 0) (at_first : P empty_report)
    (with_case : (c : XmlCase) (r : Report) → P r → P (after_case c r))
    (merged : (r o : Report) → P r → P o → P (merge r o)) where
  cases_keep : (cs : List XmlCase) (r : Report) → P r → P (add_cases cs r)
  unfolding add_cases
  cases_keep [] r h = h
  cases_keep (c ∷ cs) r h = cases_keep cs (after_case c r) (with_case c r h)

  mutual
    unfolding from_suite

    suite_keeps : (s : XmlSuite) → P (from_suite s)
    suite_keeps (suite cases nested) =
        suites_keep nested (add_cases cases empty_report) (cases_keep cases empty_report at_first)

    suites_keep : (ss : XmlSuites) (r : Report) → P r → P (merge_suites ss r)
    suites_keep no_suites r h = h
    suites_keep (more_suites s rest) r h =
        suites_keep rest (merge r (from_suite s)) (merged r (from_suite s) h (suite_keeps s))

  from_some : (q r : Report) → ◌≡◌ {A = Option Report} (some q) (some r) → P q → P r
  from_some q r e h = let p : q ≡ r = cc in rw (← p) h

  document_keeps : (doc : Document) (r : Report) → parse doc ≡ some r → P r
  unfolding parse
  document_keeps (wrapper suites) r e = from_some _ r e (suites_keep suites empty_report at_first)
  document_keeps (single s) r e = from_some _ r e (suite_keeps s)
  document_keeps other r e = cc

  files_keep : (fs : List File) (r : Report) → P r → P (parse_files fs r).0
  unfolding parse_files
  files_keep [] r h = h
  files_keep (f ∷ fs) r h =
      let same = files_keep fs r h in
      elim (Bool-cases f.is_xml) [
        | inr e ↦ rw (e, parse_files) same
        | inl e ↦ elim (Option-cases f.content) [
          | inl n ↦ rw (e, parse_files) (rw n h)
          | inr (doc, d) ↦ elim (Option-cases (parse doc)) [
            | inl n ↦ rw (e, parse_files) (rw d (rw (n, parse) same))
            | inr (one, o) ↦
                rw (e, parse_files)
                  (rw d (
                    rw (o, parse)
                      (files_keep fs (merge r one) (merged r one h (document_keeps doc one o)))))
          ]
        ]
      ]

  pub parse_dir-keeps : (fs : List File) → P (parse_dir fs).0
  unfolding parse_dir
  parse_dir-keeps fs = files_keep fs empty_report at_first
