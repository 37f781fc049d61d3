-- ===== src/Yaml/Fuel/Scalars.antt =====
-- scalar of internal/yamlite/yamlite.go: the length of its token is enough fuel.
use distributed_test_runner.Base.{
  ℕ, zero, suc, ◌+◌, ◌≤◌, ◌≢◌, Bool, true, false, Option, List, [], ◌∷◌, nat_eq, if◌then◌else◌,
  arith, length, Bool-cases, inl, inr, not,
}
use distributed_test_runner.Base.Result.{Result, ok, err, ◌>>=◌}
use distributed_test_runner.Yaml.Bytes.{Bytes, trim, is_empty, is_quote, last, init}
use distributed_test_runner.Yaml.Value.{
  Problem, unfinished, unterminated_flow, flow_mapping, Value, no_items, sequence,
}
use distributed_test_runner.Yaml.Quoted.{unquote, split_flow}
use distributed_test_runner.Yaml.Scalar.{scalar, each_part, inside, text_of, plain}
use distributed_test_runner.Yaml.Lengths.{length-trim, length-init, split_flow-length, Short}

-- It did not run out of fuel.
abbrev pub Ends : {A : Type 0} → Result Problem A → Type 0
Ends (ok a) = Unit
Ends (err why) = why ≢ unfinished

pub Ends->>= :
    {A B : Type 0} (first : Result Problem A) (next : A → Result Problem B)
    → Ends first
    → ((a : A) → Ends (next a))
    → Ends (first >>= next)
Ends->>= (ok a) next h k = k a
Ends->>= (err why) next h k = h

unquote-Ends : (s : Bytes) → Ends (unquote s)
unfolding unquote
unquote-Ends [] = ground arith
unquote-Ends (c ∷ []) = ground arith
unquote-Ends (c ∷ d ∷ s) = ground arith

pub Ends-if :
    {A : Type 0} (b : Bool) (x y : Result Problem A) → Ends x → Ends y → Ends (if b then x else y)
Ends-if true x y h k = h
Ends-if false x y h k = k

text_of-Ends : (F : Type 0) (r : Result Problem Bytes) → Ends r → Ends (text_of {F = F} r)
text_of-Ends F (ok s) h = tt
text_of-Ends F (err why) h = h

length-inside : (s : Bytes) → length (inside s) ≤ length s
length-inside [] = omega arith
length-inside (c ∷ s) = omega (arith, length-trim (init c s), length-init c s)

module _ {F : Type 0} (parse_float : Bytes → Option F) where
  each_part-Ends :
      (n : ℕ) (read : Bytes → Result Problem (Value F)) (parts : List Bytes)
      → ((s : Bytes) → length s ≤ n → Ends (read s))
      → Short n parts
      → Ends (each_part parse_float read parts)
  unfolding each_part
  each_part-Ends n read [] h short = tt
  each_part-Ends n read (part ∷ parts) h short =
      Ends->>= (read (trim part)) _ (h (trim part) (omega (arith, length-trim part, short.0))) (λ v.
        Ends->>= (each_part parse_float read parts) _ (each_part-Ends n read parts h short.1)
          (λ vs. tt))

  pub scalar-Ends :
      (fuel : ℕ) (s : Bytes) (line_no : ℕ)
      → length s + 1 ≤ fuel
      → Ends (scalar parse_float fuel s line_no)
  unfolding scalar
  scalar-Ends zero s line_no enough = absurd (omega arith)
  scalar-Ends (suc fuel) [] line_no enough = tt
  scalar-Ends (suc fuel) (c ∷ s) line_no enough =
      let parts =
        each_part-Ends (length (inside s)) (λ part. scalar parse_float fuel part line_no)
          (split_flow (inside s))
          (λ part short. scalar-Ends fuel part line_no (omega (arith, length-inside s)))
          (split_flow-length (inside s)) in
      let read =
        each_part parse_float (λ part. scalar parse_float fuel part line_no)
          (split_flow (inside s)) in
      let flow : Result Problem (Value F) = read >>= (λ vs. ok (sequence vs)) in
      elim (Bool-cases (nat_eq c b'[')) [
        | inl e ↦
            rw (e, scalar)
              (Ends-if (not (nat_eq (last c s) b']')) (err (unterminated_flow line_no))
                (if is_empty (inside s) then ok (sequence no_items) else flow) (ground arith)
                (Ends-if (is_empty (inside s)) (ok (sequence no_items)) flow tt
                  (Ends->>= read (λ vs. ok (sequence vs)) parts (λ vs. tt))))
        | inr e ↦
            rw (e, scalar)
              (Ends-if (nat_eq c b'{') (err (flow_mapping line_no))
                (if is_quote c then text_of (unquote (c ∷ s)) else ok (plain parse_float (c ∷ s)))
                (ground arith)
                (Ends-if (is_quote c) (text_of (unquote (c ∷ s))) (ok (plain parse_float (c ∷ s)))
                  (text_of-Ends F (unquote (c ∷ s)) (unquote-Ends (c ∷ s))) tt))
      ]
