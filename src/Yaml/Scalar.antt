-- ===== src/Yaml/Scalar.antt =====
-- scalar of internal/yamlite/yamlite.go: a value token as a Go value. A flow sequence calls it for
-- its parts, on fuel here; the length of the token is enough. strconv.ParseInt is given in base 10
-- with the bounds of 64 bits; strconv.ParseFloat, with its rounding, is the parameter `parse_float`.
use distributed_test_runner.Base.{
  ℕ, zero, suc, ◌+◌, ◌-◌, ◌*◌, ◌^◌, true, false, not, ◌&&◌, ◌||◌, Option, none, some, List, [], ◌∷◌,
  nat_eq, leb, if◌then◌else◌,
}
use distributed_test_runner.Base.Int.{ℤ, pos, negsuc}
use distributed_test_runner.Base.Result.{Result, ok, err, ◌>>=◌}
use distributed_test_runner.Yaml.Bytes.{Bytes, trim, bytes_eq, has_prefix, is_empty, last, init}
use distributed_test_runner.Yaml.Value.{
  Problem, unterminated_flow, flow_mapping, unfinished, Value, null, bool, int, float, text,
  sequence, Values, no_items, item,
}
use distributed_test_runner.Yaml.Quoted.{unquote, split_flow}

-- The number of decimal digits after those that make `value`.
unfoldable decimal_from : ℕ → Bytes → Option ℕ
decimal_from value [] = some value
decimal_from value (c ∷ s) =
    let rest = decimal_from (value * 10 + (c - b'0')) s in
    if leb b'0' c && leb c b'9' then rest else none

abbrev negative : ℕ → ℤ
negative zero = pos 0
negative (suc n) = negsuc n

abbrev decimal : Bytes → Option ℕ
decimal [] = none
decimal (c ∷ s) = decimal_from 0 (c ∷ s)

abbrev up_to : ℕ → (ℕ → ℤ) → Option ℕ → Option ℤ
up_to bound sign none = none
up_to bound sign (some n) = if leb n bound then some (sign n) else none

-- strconv.ParseInt(s, 10, 64)
unfoldable pub parse_int : Bytes → Option ℤ
unfolding decimal_from
parse_int [] = none
parse_int (c ∷ s) =
    if nat_eq c b'-'
    then up_to (2 ^ 63) negative (decimal s)
    else if nat_eq c b'+'
    then up_to (2 ^ 63 - 1) pos (decimal s)
    else up_to (2 ^ 63 - 1) pos (decimal (c ∷ s))

-- The words that stand for a null or a bool.
abbrev word : {F : Type 0} → Bytes → Option (Value F)
word s =
    if bytes_eq s (b'n' ∷ b'u' ∷ b'l' ∷ b'l' ∷ []) || bytes_eq s (b'~' ∷ [])
    then some null
    else if bytes_eq s (b't' ∷ b'r' ∷ b'u' ∷ b'e' ∷ [])
        || (bytes_eq s (b'y' ∷ b'e' ∷ b's' ∷ []) || bytes_eq s (b'o' ∷ b'n' ∷ []))
    then some (bool true)
    else if bytes_eq s (b'f' ∷ b'a' ∷ b'l' ∷ b's' ∷ b'e' ∷ [])
        || (bytes_eq s (b'n' ∷ b'o' ∷ []) || bytes_eq s (b'o' ∷ b'f' ∷ b'f' ∷ []))
    then some (bool false)
    else none

abbrev pub text_of : {F : Type 0} → Result Problem Bytes → Result Problem (Value F)
text_of (ok s) = ok (text s)
text_of (err why) = err why

-- What a flow sequence holds, given without its first byte: s[1 : len(s)-1], trimmed.
abbrev pub inside : Bytes → Bytes
inside [] = []
inside (c ∷ s) = trim (init c s)

module _ {F : Type 0} (parse_float : Bytes → Option F) where
  unfoldable number : Bytes → Value F
  unfolding parse_int has_prefix
  number s = elim (parse_int s) [
    | some i ↦ int i
    | none ↦ elim (parse_float s) [
      | some f ↦ if has_prefix s (b'0' ∷ b'x' ∷ []) then text s else float f
      | none ↦ text s
    ]
  ]

  unfoldable pub plain : Bytes → Value F
  unfolding number bytes_eq
  plain s = elim (word s) [ some v ↦ v | none ↦ number s ]

  -- for _, part := range parts, with the call for one part as a function
  unfoldable pub each_part :
      (Bytes → Result Problem (Value F)) → List Bytes → Result Problem (Values F)
  unfolding trim
  each_part read [] = ok no_items
  each_part read (part ∷ parts) =
      read (trim part) >>= (λ v. each_part read parts >>= (λ vs. ok (item v vs)))

  unfoldable pub scalar : ℕ → Bytes → ℕ → Result Problem (Value F)
  unfolding trim last init unquote split_flow plain each_part
  scalar zero s line_no = err unfinished
  scalar (suc fuel) [] line_no = ok (plain [])
  scalar (suc fuel) (c ∷ s) line_no = elim (nat_eq c b'[') [
    | true ↦
        if not (nat_eq (last c s) b']')
        then err (unterminated_flow line_no)
        else if is_empty (inside s)
        then ok (sequence no_items)
        else each_part (λ part. scalar fuel part line_no) (split_flow (inside s))
          >>= (λ vs. ok (sequence vs))
    | false ↦
        if nat_eq c b'{'
        then err (flow_mapping line_no)
        else if nat_eq c b'"' || nat_eq c b'\''
        then text_of (unquote (c ∷ s))
        else ok (plain (c ∷ s))
  ]
