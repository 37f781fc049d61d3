-- ===== src/Yaml/Print.antt =====
-- A printer for the values that internal/yamlite/yamlite.go reads, and which values it prints: what
-- the parser promises is stated as its inverse.
pub mod Tokens
pub mod Distinct
pub mod RoundTrip
pub mod Items
use distributed_test_runner.Base.{
  ℕ, zero, suc, ◌+◌, ◌≡◌, ◌≢◌, Bool, true, false, not, ◌&&◌, ◌||◌, Option, none, some, List, [],
  ◌∷◌, ◌++◌, nat_eq, leb, if◌then◌else◌,
}
use distributed_test_runner.Yaml.Bytes.{Bytes, bytes_eq}
use distributed_test_runner.Yaml.Value.{
  Value, null, bool, int, float, text, sequence, mapping, Values, no_items, item, Fields, no_fields,
  field,
}
use distributed_test_runner.Yaml.Lines.{Line}

-- '' for every '
unfoldable pub double_quotes : Bytes → Bytes
double_quotes [] = []
double_quotes (c ∷ s) =
    let rest = double_quotes s in if nat_eq c b'\'' then b'\'' ∷ b'\'' ∷ rest else c ∷ rest

abbrev pub quoted : Bytes → Bytes
quoted s = b'\'' ∷ (double_quotes s ++ b'\'' ∷ [])

-- A line; its number shows in errors only.
abbrev pub line : ℕ → Bytes → Line
line indent s = record { no = 0; indent = indent; text = s }

-- a letter, a digit or _
abbrev pub is_name_byte : ℕ → Bool
is_name_byte c =
    (leb b'a' c && leb c b'z')
    || ((leb b'A' c && leb c b'Z') || ((leb b'0' c && leb c b'9') || nat_eq c b'_'))

abbrev pub IsWord : Bytes → Type 0
IsWord [] = Unit
IsWord (c ∷ s) = (is_name_byte c ≡ true) × IsWord s

-- A key of one byte at least.
abbrev pub IsKey : Bytes → Type 0
IsKey [] = ⊥
IsKey (c ∷ s) = IsWord (c ∷ s)

-- What follows the colon of a key or the dash of an item.
abbrev pub tail_of : Option Bytes → Bytes
tail_of none = []
tail_of (some token) = b' ' ∷ token

module _ {F : Type 0} where
  -- The token of a value that has its line for itself.
  abbrev pub token_of : Value F → Option Bytes
  token_of null = some (b'n' ∷ b'u' ∷ b'l' ∷ b'l' ∷ [])
  token_of (bool true) = some (b't' ∷ b'r' ∷ b'u' ∷ b'e' ∷ [])
  token_of (bool false) = some (b'f' ∷ b'a' ∷ b'l' ∷ b's' ∷ b'e' ∷ [])
  token_of (text s) = some (quoted s)
  token_of (int i) = none
  token_of (float f) = none
  token_of (sequence vs) = none
  token_of (mapping fs) = none

  unfoldable mutual
    -- The lines of a value that stands below its key or dash, and then the lines `rest`.
    pub print_below : ℕ → Value F → List Line → List Line
    print_below indent (mapping fs) rest = print_fields indent fs rest
    print_below indent (sequence vs) rest = print_items indent vs rest
    print_below indent null rest = rest
    print_below indent (bool b) rest = rest
    print_below indent (int i) rest = rest
    print_below indent (float f) rest = rest
    print_below indent (text s) rest = rest

    pub print_fields : ℕ → Fields F → List Line → List Line
    print_fields indent no_fields rest = rest
    print_fields indent (field key v fs) rest =
        line indent (key ++ b':' ∷ tail_of (token_of v))
        ∷ print_below (indent + 2) v (print_fields indent fs rest)

    pub print_items : ℕ → Values F → List Line → List Line
    print_items indent no_items rest = rest
    print_items indent (item v vs) rest =
        line indent (b'-' ∷ tail_of (token_of v))
        ∷ print_below (indent + 2) v (print_items indent vs rest)

  abbrev pub has_key : Bytes → Fields F → Bool
  has_key key no_fields = false
  has_key key (field other v fs) = bytes_eq key other || has_key key fs

  -- Texts, bools and nulls in mappings and sequences that are not empty; a mapping has words for
  -- keys, each one once.
  unfoldable mutual
    pub IsPrintable : Value F → Type 0
    IsPrintable (mapping no_fields) = ⊥
    IsPrintable (mapping (field key v fs)) = AreFields (field key v fs)
    IsPrintable (sequence no_items) = ⊥
    IsPrintable (sequence (item v vs)) = AreItems (item v vs)
    IsPrintable null = Unit
    IsPrintable (bool b) = Unit
    IsPrintable (int i) = ⊥
    IsPrintable (float f) = ⊥
    IsPrintable (text s) = Unit

    pub AreFields : Fields F → Type 0
    AreFields no_fields = Unit
    AreFields (field key v fs) =
        IsKey key × ((has_key key fs ≡ false) × (IsPrintable v × AreFields fs))

    pub AreItems : Values F → Type 0
    AreItems no_items = Unit
    AreItems (item v vs) = IsPrintable v × AreItems vs
