-- ===== src/Junit/Counts.antt =====
-- The counters of a report of internal/junit/junit.go are those of its cases.
use distributed_test_runner.Base.{
  ℕ, ◌+◌, ◌≡◌, refl, true, false, List, [], ◌∷◌, ◌++◌, String, ◌==◌, eq_iff, arith, length, select,
  Option-cases, Bool-cases, inl, inr, if◌then◌else◌,
}
use distributed_test_runner.Model.Entities.{Summary}
use distributed_test_runner.Junit.Walk.{after_case, parse_dir-keeps}
use distributed_test_runner.Junit.{
  Case, XmlCase, Report, empty_report, problems, is_problem, merge, case_of, count_case, File,
  parse_dir,
}

-- How many cases have a status.
unfoldable pub having : String → List Case → ℕ
having status [] = 0
having status (c ∷ cs) = (if c.status == status then 1 else 0) + having status cs

-- The counters of a report are the numbers of its cases by their status, and it has no others.
pub record IsCounted (r : Report) : Type 0 where
  pub all_counted : r.summary.tests ≡ length r.cases
  pub passed_counted : r.summary.passed ≡ having "passed" r.cases
  pub failed_counted : r.summary.failed ≡ having "failed" r.cases
  pub errors_counted : r.summary.errors ≡ having "error" r.cases
  pub skipped_counted : r.summary.skipped ≡ having "skipped" r.cases
  pub nothing_else :
      r.summary.tests ≡ r.summary.passed + r.summary.failed + r.summary.errors + r.summary.skipped

having-append :
    (status : String) (xs ys : List Case)
    → having status (xs ++ ys) ≡ having status xs + having status ys
unfolding having
having-append status [] ys = omega arith
having-append status (c ∷ xs) ys = ground (arith, having-append status xs ys)

length-append_cases : (xs ys : List Case) → length (xs ++ ys) ≡ length xs + length ys
length-append_cases [] ys = omega arith
length-append_cases (c ∷ xs) ys = ground (arith, length-append_cases xs ys)

merge-IsCounted : (r o : Report) → IsCounted r → IsCounted o → IsCounted (merge r o)
unfolding merge
merge-IsCounted r o h k = record {
  all_counted = omega (arith, h.all_counted, k.all_counted, length-append_cases r.cases o.cases);
  passed_counted =
      omega (arith, h.passed_counted, k.passed_counted, having-append "passed" r.cases o.cases);
  failed_counted =
      omega (arith, h.failed_counted, k.failed_counted, having-append "failed" r.cases o.cases);
  errors_counted =
      omega (arith, h.errors_counted, k.errors_counted, having-append "error" r.cases o.cases);
  skipped_counted =
      omega (arith, h.skipped_counted, k.skipped_counted, having-append "skipped" r.cases o.cases);
  nothing_else = omega (arith, h.nothing_else, k.nothing_else);
}

empty_report-IsCounted : IsCounted empty_report
unfolding having
empty_report-IsCounted = record {
  all_counted = refl;
  passed_counted = refl;
  failed_counted = refl;
  errors_counted = refl;
  skipped_counted = refl;
  nothing_else = refl;
}

-- One more case, counted once.
record Adds (r : Report) (c : Case) (s : Summary) : Type 0 where
  all_added : s.tests ≡ r.summary.tests + 1
  passed_added : s.passed ≡ r.summary.passed + having "passed" (c ∷ [])
  failed_added : s.failed ≡ r.summary.failed + having "failed" (c ∷ [])
  errors_added : s.errors ≡ r.summary.errors + having "error" (c ∷ [])
  skipped_added : s.skipped ≡ r.summary.skipped + having "skipped" (c ∷ [])
  once :
      having "passed" (c ∷ [])
        + having "failed" (c ∷ [])
        + having "error" (c ∷ [])
        + having "skipped" (c ∷ [])
      ≡ 1

Adds-IsCounted :
    (r : Report) (c : Case) (s : Summary)
    → IsCounted r
    → Adds r c s
    → IsCounted (record { summary = s; cases = r.cases ++ c ∷ [] })
Adds-IsCounted r c s h a = record {
  all_counted = ground (arith, a.all_added, h.all_counted, length-append_cases r.cases (c ∷ []));
  passed_counted =
      omega (arith, a.passed_added, h.passed_counted, having-append "passed" r.cases (c ∷ []));
  failed_counted =
      omega (arith, a.failed_added, h.failed_counted, having-append "failed" r.cases (c ∷ []));
  errors_counted =
      omega (arith, a.errors_added, h.errors_counted, having-append "error" r.cases (c ∷ []));
  skipped_counted =
      omega (arith, a.skipped_added, h.skipped_counted, having-append "skipped" r.cases (c ∷ []));
  nothing_else = omega (
    arith, a.all_added, a.passed_added, a.failed_added, a.errors_added, a.skipped_added, a.once,
    h.nothing_else,
  );
}

case_of-Adds : (c : XmlCase) (r : Report) → Adds r (case_of c) (count_case c r.summary)
unfolding count_case case_of having
case_of-Adds c r = elim (Option-cases c.error) [
  | inr (p, e) ↦
      rw (e, case_of, count_case)
        (record {
          all_added = refl;
          passed_added = omega arith;
          failed_added = omega arith;
          errors_added = omega arith;
          skipped_added = omega arith;
          once = refl;
        })
  | inl e ↦
      rw (e, case_of, count_case)
        (elim (Option-cases c.failure) [
          | inr (p, f) ↦ rw f (record {
            all_added = refl;
            passed_added = omega arith;
            failed_added = omega arith;
            errors_added = omega arith;
            skipped_added = omega arith;
            once = refl;
          })
          | inl f ↦ rw f (elim (Option-cases c.skipped) [
            | inr (p, k) ↦ rw k (record {
              all_added = refl;
              passed_added = omega arith;
              failed_added = omega arith;
              errors_added = omega arith;
              skipped_added = omega arith;
              once = refl;
            })
            | inl k ↦ rw k (record {
              all_added = refl;
              passed_added = omega arith;
              failed_added = omega arith;
              errors_added = omega arith;
              skipped_added = omega arith;
              once = refl;
            })
          ])
        ])
]

after_case-IsCounted : (c : XmlCase) (r : Report) → IsCounted r → IsCounted (after_case c r)
after_case-IsCounted c r h =
    Adds-IsCounted r (case_of c) (count_case c r.summary) h (case_of-Adds c r)

not_both : (s : String) → (s == "failed") ≡ true → (s == "error") ≡ false
not_both s e = rw ((eq_iff s "failed").0 e) refl

-- having and select agree on the problems
problems_counted :
    (cs : List Case) → length (select is_problem cs) ≡ having "failed" cs + having "error" cs
unfolding having select
problems_counted [] = omega arith
problems_counted (c ∷ cs) = elim (Bool-cases (c.status == "failed")) [
  | inl e ↦ rw (e, having, select) (rw (not_both c.status e) (omega (arith, problems_counted cs)))
  | inr e ↦ rw (e, having, select) (ground (arith, problems_counted cs))
]

-- Whatever files a directory holds and however deep their suites are nested, each counter of its
-- report is the number of cases with that status, the tests are all the cases, and the problems that
-- are stored are as many as the failed and the errors.
pub parse_dir-IsCounted :
    (fs : List File)
    → IsCounted (parse_dir fs).0
      × (length (problems (parse_dir fs).0)
          ≡ (parse_dir fs).0.summary.failed + (parse_dir fs).0.summary.errors)
unfolding parse_dir problems
parse_dir-IsCounted fs =
    let h =
      parse_dir-keeps IsCounted empty_report-IsCounted after_case-IsCounted merge-IsCounted fs in
    (h, omega (arith, problems_counted (parse_dir fs).0.cases, h.failed_counted, h.errors_counted))
