-- ===== src/Yaml/Quoted.antt =====
-- What stands inside and outside quotes: stripComment, splitKey's search, splitFlow and unquote of
-- internal/yamlite/yamlite.go. The quote that is open is a byte, 0 when none is, as in the source.
use distributed_test_runner.Base.{
  ℕ, ◌+◌, ◌-◌, ◌*◌, ◌/◌, ◌%◌, Bool, true, false, ◌&&◌, ◌||◌, Option, none, some, List, [], ◌∷◌,
  ◌++◌, nat_eq, ltb, leb, if◌then◌else◌,
}
use distributed_test_runner.Base.Result.{Result, ok, err}
use distributed_test_runner.Yaml.Bytes.{Bytes, is_blank, is_quote, trim, last, init, put_byte}
use distributed_test_runner.Yaml.Value.{
  Problem, bad_quoted, unterminated_string, bad_escape, not_quoted,
}

-- The open quote after the byte `c`.
abbrev pub next_quote : ℕ → ℕ → ℕ
next_quote open_quote c =
    if nat_eq open_quote 0
    then if is_quote c then c else 0
    else if nat_eq c open_quote
    then 0
    else open_quote

-- `blank` says that the byte before is a blank, or that there is none.
unfoldable pub strip_from : ℕ → Bool → Bytes → Bytes
strip_from quote blank [] = []
strip_from quote blank (c ∷ s) =
    if nat_eq quote 0 && nat_eq c b'#' && blank
    then []
    else c ∷ strip_from (next_quote quote c) (is_blank c) s

unfoldable pub strip_comment : Bytes → Bytes
unfolding strip_from
strip_comment s = strip_from 0 true s

-- a space or the end
abbrev pub ends_key : Bytes → Bool
ends_key [] = true
ends_key (c ∷ s) = nat_eq c b' '

abbrev before : ℕ → Option (Bytes × Bytes) → Option (Bytes × Bytes)
before c none = none
before c (some (key, rest)) = some (c ∷ key, rest)

-- The bytes before and after the first colon that ends a key.
unfoldable pub split_colon : ℕ → Bytes → Option (Bytes × Bytes)
split_colon quote [] = none
split_colon quote (c ∷ s) =
    if nat_eq quote 0 && nat_eq c b':' && ends_key s
    then some ([], s)
    else before c (split_colon (next_quote quote c) s)

unfoldable pub flow_from : ℕ → Bytes → List Bytes
flow_from quote [] = [] ∷ []
flow_from quote (c ∷ s) =
    let parts = flow_from (next_quote quote c) s in
    if nat_eq quote 0 && nat_eq c b',' then [] ∷ parts else put_byte c parts

unfoldable pub split_flow : Bytes → List Bytes
unfolding flow_from
split_flow s = flow_from 0 s

-- strings.ReplaceAll(s, "''", "'")
unfoldable pub undouble : Bytes → Bytes
undouble [] = []
undouble (c ∷ []) = c ∷ []
undouble (c ∷ d ∷ s) = elim (nat_eq c b'\'' && nat_eq d b'\'') [
  | true ↦ b'\'' ∷ undouble s
  | false ↦ c ∷ undouble (d ∷ s)
]

-- The bytes of a code point in UTF-8.
abbrev utf8 : ℕ → Bytes
utf8 n =
    if ltb n 128
    then n ∷ []
    else if ltb n 2048
    then (192 + n / 64) ∷ (128 + n % 64) ∷ []
    else if ltb n 65536
    then (224 + n / 4096) ∷ (128 + n / 64 % 64) ∷ (128 + n % 64) ∷ []
    else (240 + n / 262144) ∷ (128 + n / 4096 % 64) ∷ (128 + n / 64 % 64) ∷ (128 + n % 64) ∷ []

abbrev is_rune : ℕ → Bool
is_rune n = ltb n 55296 || (leb 57344 n && ltb n 1114112)

abbrev digit_of : ℕ → Option ℕ
digit_of c =
    if leb b'0' c && leb c b'9'
    then some (c - b'0')
    else if leb b'a' c && leb c b'f'
    then some (c - b'a' + 10)
    else if leb b'A' c && leb c b'F'
    then some (c - b'A' + 10)
    else none

-- Where strconv.Unquote stands in an escape: outside one, after its backslash, or with so many
-- digits left of a number to a base, which is a byte or a code point.
pub data Escape : Type 0 where
  plain backslash : Escape
  byte_digits rune_digits : ℕ → ℕ → ℕ → Escape

-- What an escape of one letter stands for.
abbrev letter : ℕ → Option ℕ
letter c =
    if nat_eq c b'a'
    then some 7
    else if nat_eq c b'b'
    then some 8
    else if nat_eq c b'f'
    then some 12
    else if nat_eq c b'n'
    then some 10
    else if nat_eq c b'r'
    then some 13
    else if nat_eq c b't'
    then some 9
    else if nat_eq c b'v'
    then some 11
    else if nat_eq c b'\\' || nat_eq c b'"'
    then some c
    else none

-- The bytes that a byte of the text adds, and the state after it.
abbrev escape_step : Escape → ℕ → Option (Bytes × Escape)
escape_step plain c =
    if nat_eq c b'"' || nat_eq c b'\n'
    then none
    else if nat_eq c b'\\'
    then some ([], backslash)
    else some (c ∷ [], plain)
escape_step backslash c = elim (letter c) [
  | some byte ↦ some (byte ∷ [], plain)
  | none ↦
      if nat_eq c b'x'
      then some ([], byte_digits 16 2 0)
      else if nat_eq c b'u'
      then some ([], rune_digits 16 4 0)
      else if nat_eq c b'U'
      then some ([], rune_digits 16 8 0)
      else if leb b'0' c && leb c b'7'
      then some ([], byte_digits 8 2 (c - b'0'))
      else none
]
escape_step (byte_digits base left value) c = elim (digit_of c) [
  | none ↦ none
  | some d ↦
      if leb base d
      then none
      else if ltb 1 left
      then some ([], byte_digits base (left - 1) (value * base + d))
      else if ltb (value * base + d) 256
      then some ((value * base + d) ∷ [], plain)
      else none
]
escape_step (rune_digits base left value) c = elim (digit_of c) [
  | none ↦ none
  | some d ↦
      if ltb 1 left
      then some ([], rune_digits base (left - 1) (value * base + d))
      else if is_rune (value * base + d)
      then some (utf8 (value * base + d), plain)
      else none
]

abbrev add_bytes : Bytes → Option Bytes → Option Bytes
add_bytes s none = none
add_bytes s (some t) = some (s ++ t)

-- strconv.Unquote of `"s"`, for a text in UTF-8
unfoldable pub unescape : Escape → Bytes → Option Bytes
unescape plain [] = some []
unescape backslash [] = none
unescape (byte_digits base left value) [] = none
unescape (rune_digits base left value) [] = none
unescape state (c ∷ s) = elim (escape_step state c) [
  | none ↦ none
  | some (bytes, after) ↦ add_bytes bytes (unescape after s)
]

abbrev from_escape : Option Bytes → Result Problem Bytes
from_escape none = err bad_escape
from_escape (some s) = ok s

unfoldable pub unquote : Bytes → Result Problem Bytes
unfolding last init undouble unescape
unquote [] = err (bad_quoted [])
unquote (c ∷ []) = err (bad_quoted (c ∷ []))
unquote (c ∷ d ∷ s) =
    if nat_eq c b'"'
    then if nat_eq (last d s) b'"'
      then from_escape (unescape plain (init d s))
      else err (unterminated_string (c ∷ d ∷ s))
    else if nat_eq c b'\''
    then if nat_eq (last d s) b'\''
      then ok (undouble (init d s))
      else err (unterminated_string (c ∷ d ∷ s))
    else err (not_quoted (c ∷ d ∷ s))

-- The key without its quotes, when it has good ones.
abbrev bare_key : Bytes → Result Problem Bytes → Bytes
bare_key key (ok inner) = inner
bare_key key (err why) = key

abbrev named : Bytes → Bytes → Option (Bytes × Bytes)
named [] rest = none
named (c ∷ key) rest = some (c ∷ key, rest)

-- `none` is the source's `ok` false.
unfoldable pub split_key : Bytes → Option (Bytes × Bytes)
unfolding split_colon unquote trim
split_key s = elim (split_colon 0 s) [
  | none ↦ none
  | some (key, rest) ↦ named (bare_key (trim key) (unquote (trim key))) (trim rest)
]

unfoldable pub is_key_value : Bytes → Bool
unfolding split_key
is_key_value s = elim (split_key s) [ none ↦ false | some found ↦ true ]
