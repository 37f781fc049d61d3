-- ===== src/Yaml/Bytes.antt =====
-- The texts of internal/yamlite/yamlite.go as the bytes they are made of, and what the parser uses
-- of Go's strings package. strings.TrimSpace is given for ASCII: the other spaces of Unicode are
-- kept.
use distributed_test_runner.Base.{
  ℕ, Bool, true, false, ◌&&◌, ◌||◌, List, [], ◌∷◌, nat_eq, leb, if◌then◌else◌,
}

abbrev pub Bytes : Type 0
Bytes = List ℕ

abbrev pub is_space : ℕ → Bool
is_space c = (leb 9 c && leb c 13) || nat_eq c b' '

-- a space or a tab
abbrev pub is_blank : ℕ → Bool
is_blank c = nat_eq c b' ' || nat_eq c b'\t'

abbrev pub is_quote : ℕ → Bool
is_quote c = nat_eq c b'"' || nat_eq c b'\''

-- strings.TrimLeft with a set of bytes
unfoldable pub trim_left : (ℕ → Bool) → Bytes → Bytes
trim_left drop [] = []
trim_left drop (c ∷ s) = if drop c then trim_left drop s else c ∷ s

unfoldable pub trim_right : (ℕ → Bool) → Bytes → Bytes
trim_right drop [] = []
trim_right drop (c ∷ s) = elim (trim_right drop s) [
  | [] ↦ if drop c then [] else c ∷ []
  | d ∷ kept ↦ c ∷ d ∷ kept
]

-- strings.TrimSpace
unfoldable pub trim : Bytes → Bytes
unfolding trim_left trim_right
trim s = trim_right is_space (trim_left is_space s)

unfoldable pub bytes_eq : Bytes → Bytes → Bool
bytes_eq [] [] = true
bytes_eq [] (d ∷ t) = false
bytes_eq (c ∷ s) [] = false
bytes_eq (c ∷ s) (d ∷ t) = nat_eq c d && bytes_eq s t

-- strings.HasPrefix
unfoldable pub has_prefix : Bytes → Bytes → Bool
has_prefix s [] = true
has_prefix [] (d ∷ t) = false
has_prefix (c ∷ s) (d ∷ t) = nat_eq c d && has_prefix s t

unfoldable pub has_byte : ℕ → Bytes → Bool
has_byte b [] = false
has_byte b (c ∷ s) = nat_eq b c || has_byte b s

abbrev pub is_empty : Bytes → Bool
is_empty [] = true
is_empty (c ∷ s) = false

-- The last byte of `c ∷ s`.
unfoldable pub last : ℕ → Bytes → ℕ
last c [] = c
last c (d ∷ s) = last d s

-- `c ∷ s` without its last byte.
unfoldable pub init : ℕ → Bytes → Bytes
init c [] = []
init c (d ∷ s) = c ∷ init d s

abbrev pub put_byte : ℕ → List Bytes → List Bytes
put_byte c [] = (c ∷ []) ∷ []
put_byte c (part ∷ parts) = (c ∷ part) ∷ parts

-- strings.Split at a byte
unfoldable pub split : ℕ → Bytes → List Bytes
split b [] = [] ∷ []
split b (c ∷ s) = let parts = split b s in if nat_eq c b then [] ∷ parts else put_byte c parts

-- strings.ReplaceAll(s, "\r\n", "\n")
unfoldable pub unix_lines : Bytes → Bytes
unix_lines [] = []
unix_lines (c ∷ []) = c ∷ []
unix_lines (c ∷ d ∷ s) =
    let rest = unix_lines (d ∷ s) in if nat_eq c b'\r' && nat_eq d b'\n' then rest else c ∷ rest
