-- ===== src/Base/Scan.antt =====
-- What the code reads off texts with Go's strings and strconv packages. A text that is trimmed is
-- trimmed of the spaces of ASCII.
use Prim.Native.Char.{Char, code}
use Prim.Native.Nat.{ℕ, ◌+◌, ◌-◌, ◌*◌}
use Prim.Native.String.{String}
use mathlib.Core.Bool.{Bool, true, false, ◌&&◌, ◌||◌}
use mathlib.Core.Option.{Option, none, some}
use distributed_test_runner.Base.Tests.{leb, nat_eq, if◌then◌else◌}

abbrev is_space_char : Char → Bool
is_space_char c = (leb 9 (code c) && leb (code c) 13) || nat_eq (code c) 32

unfoldable trim_left : String → String
trim_left String.[] = ""
trim_left (String.◌∷◌ c s) =
    let rest = trim_left s in if is_space_char c then rest else String.◌∷◌ c s

abbrev keep_char : Char → String → String
keep_char c String.[] = if is_space_char c then "" else String.◌∷◌ c ""
keep_char c (String.◌∷◌ d t) = String.◌∷◌ c (String.◌∷◌ d t)

unfoldable trim_right : String → String
trim_right String.[] = ""
trim_right (String.◌∷◌ c s) = keep_char c (trim_right s)

-- strings.TrimSpace
unfoldable pub trim_space : String → String
unfolding trim_left trim_right
trim_space s = trim_right (trim_left s)

-- The rest of `s` after the prefix.
unfoldable pub cut_prefix : String → String → Option String
cut_prefix s String.[] = some s
cut_prefix String.[] (String.◌∷◌ d t) = none
cut_prefix (String.◌∷◌ c s) (String.◌∷◌ d t) =
    let rest = cut_prefix s t in if nat_eq (code c) (code d) then rest else none

abbrev pub is_some {ℓ} : {A : Type ℓ} → Option A → Bool
is_some none = false
is_some (some a) = true

-- strings.HasPrefix
abbrev pub has_prefix : String → String → Bool
has_prefix s p = is_some (cut_prefix s p)

-- strings.TrimPrefix
abbrev pub trim_prefix : String → String → String
trim_prefix s p = elim (cut_prefix s p) [ none ↦ s | some rest ↦ rest ]

-- strings.Contains, for a text that is not empty
unfoldable pub has_text : String → String → Bool
unfolding cut_prefix
has_text String.[] t = false
has_text (String.◌∷◌ c s) t = has_prefix (String.◌∷◌ c s) t || has_text s t

abbrev is_whole : Option String → Bool
is_whole none = false
is_whole (some String.[]) = true
is_whole (some (String.◌∷◌ d u)) = false

-- strings.HasSuffix, for a suffix that is not empty
unfoldable pub has_suffix : String → String → Bool
unfolding cut_prefix
has_suffix String.[] t = false
has_suffix (String.◌∷◌ c s) t = is_whole (cut_prefix (String.◌∷◌ c s) t) || has_suffix s t

unfoldable digits_of : ℕ → String → Option ℕ
digits_of value String.[] = some value
digits_of value (String.◌∷◌ c s) =
    let rest = digits_of (value * 10 + (code c - 48)) s in
    if leb 48 (code c) && leb (code c) 57 then rest else none

abbrev some_digits : String → Option ℕ
some_digits String.[] = none
some_digits (String.◌∷◌ c s) = digits_of 0 (String.◌∷◌ c s)

-- strconv.Atoi refuses what needs more than 64 bits.
abbrev within : ℕ → Option ℕ → Option ℕ
within bound none = none
within bound (some n) = if leb n bound then some n else none

-- strconv.Atoi of a number that is not negative
unfoldable pub atoi_nat : String → Option ℕ
unfolding digits_of
atoi_nat String.[] = none
atoi_nat (String.◌∷◌ c s) =
    within 9223372036854775807
      (if nat_eq (code c) 43 then some_digits s else some_digits (String.◌∷◌ c s))
