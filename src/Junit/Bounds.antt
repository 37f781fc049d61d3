-- ===== src/Junit/Bounds.antt =====
-- How much of a stack trace a case of internal/junit/junit.go keeps.
use distributed_test_runner.Base.{
  ℕ, zero, suc, ◌≤◌, ◌≡◌, ◌⊎◌, refl, Bool-cases, ltb, List, [], ◌∷◌, ◌++◌, arith, length, inl, inr,
  All, Option-cases,
}
use distributed_test_runner.Yaml.Bytes.{Bytes, trim}
use distributed_test_runner.Junit.Walk.{after_case, parse_dir-keeps}
use distributed_test_runner.Junit.{
  take_bytes, trunc_to, cut_notice, max_detail, case_of, XmlCase, Case, Report, merge, File,
  parse_dir,
}

length-take_bytes : (n : ℕ) (s : Bytes) → n ≤ length s → length (take_bytes n s) ≡ n
unfolding take_bytes
length-take_bytes zero s h = omega arith
length-take_bytes (suc n) [] h = absurd (omega (arith, h))
length-take_bytes (suc n) (c ∷ s) h = ground (arith, length-take_bytes n s)

-- The text is short, or it is 4,000 bytes and the notice that they were cut.
abbrev pub FitsDetail : Bytes → Type 0
FitsDetail s =
    (length s ≤ 4000) ⊎ ((kept : Bytes) × (length kept ≡ 4000) × (s ≡ kept ++ cut_notice))

FitsDetail-trunc_to : (s : Bytes) → FitsDetail (trunc_to max_detail s)
unfolding trunc_to
FitsDetail-trunc_to s = elim (Bool-cases (ltb max_detail (length (trim s)))) [
  | inr short ↦ rw (short, trunc_to) (inl (ground (arith, short)))
  | inl long ↦
      rw (long, trunc_to)
        (inr (
          take_bytes max_detail (trim s),
          length-take_bytes max_detail (trim s) (ground (arith, long)),
          refl,
        ))
]

abbrev Fits : Case → Type 0
Fits c = FitsDetail c.details

case_of-Fits : (c : XmlCase) → Fits (case_of c)
unfolding case_of
case_of-Fits c = elim (Option-cases c.error) [
  | inr (p, e) ↦ rw (e, case_of) (FitsDetail-trunc_to p.text)
  | inl e ↦
      rw (e, case_of)
        (elim (Option-cases c.failure) [
          | inr (p, f) ↦ rw f (FitsDetail-trunc_to p.text)
          | inl f ↦ rw f (elim (Option-cases c.skipped) [
            | inr (p, k) ↦ rw k (inl (omega arith))
            | inl k ↦ rw k (inl (omega arith))
          ])
        ])
]

All-append : (xs ys : List Case) → All Fits xs → All Fits ys → All Fits (xs ++ ys)
All-append [] ys h k = k
All-append (x ∷ xs) ys h k = (h.0, All-append xs ys h.1 k)

AllFit : Report → Type 0
AllFit r = All Fits r.cases

after_case-AllFit : (c : XmlCase) (r : Report) → AllFit r → AllFit (after_case c r)
unfolding AllFit
after_case-AllFit c r h = All-append r.cases (case_of c ∷ []) h (case_of-Fits c, tt)

merge-AllFit : (r o : Report) → AllFit r → AllFit o → AllFit (merge r o)
unfolding AllFit merge
merge-AllFit r o h k = All-append r.cases o.cases h k

-- Each case of the report of a directory keeps at most 4,000 bytes of details, or exactly 4,000 bytes
-- followed by the notice that they were cut, which makes 4,030.
pub parse_dir-Fits :
    (fs : List File)
    → (length cut_notice ≡ 30) × All (λ (c : Case). FitsDetail c.details) (parse_dir fs).0.cases
unfolding AllFit
parse_dir-Fits fs = (refl, parse_dir-keeps AllFit tt after_case-AllFit merge-AllFit fs)
