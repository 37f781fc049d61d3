-- ===== src/Yaml/Parse.antt =====
-- The parser of internal/yamlite/yamlite.go: block, mapping and sequence take the lines that are
-- left, the source's p.lines from p.pos on, and return those that they leave. They recur on fuel;
-- Yaml/Fuel shows how much is enough.
use distributed_test_runner.Base.{
  ℕ, zero, suc, ◌+◌, ◌*◌, Bool, true, false, not, ◌&&◌, ◌||◌, Option, none, some, List, [], ◌∷◌,
  nat_eq, ltb, if◌then◌else◌, length,
}
use distributed_test_runner.Base.Result.{Result, ok, err, ◌>>=◌}
use distributed_test_runner.Yaml.Bytes.{Bytes, trim, has_prefix, bytes_eq, is_empty}
use distributed_test_runner.Yaml.Value.{
  Problem, indentation, item_for_key, no_colon, no_item, unfinished, Value, null, sequence, mapping,
  Values, no_items, append_item, Fields, no_fields, set_field, set_fields,
}
use distributed_test_runner.Yaml.Quoted.{split_key}
use distributed_test_runner.Yaml.Scalar.{scalar}
use distributed_test_runner.Yaml.Lines.{Line, lines_of}

-- What a read returns: an error, or a value and the lines after it.
abbrev pub Read : Type 0 → Type 0
Read A = Result Problem (A × List Line)

-- strings.HasPrefix(text, "- ")
abbrev pub starts_item : Bytes → Bool
starts_item text = has_prefix text (b'-' ∷ b' ' ∷ [])

abbrev pub is_item : Bytes → Bool
is_item text = starts_item text || bytes_eq text (b'-' ∷ [])

-- What a line is to a mapping: its end, an error, or a key and the rest of the line.
pub data KeyLine : Type 0 where
  past : KeyLine
  refused : Problem → KeyLine
  keyed : Bytes → Bytes → KeyLine

unfoldable pub key_line : ℕ → Line → KeyLine
unfolding has_prefix split_key
key_line indent l =
    if ltb l.indent indent
    then past
    else if ltb indent l.indent
    then refused (indentation l.no)
    else if starts_item l.text
    then refused (item_for_key l.no)
    else elim (split_key l.text) [
      | none ↦ refused (no_colon l.no)
      | some (key, rest) ↦ keyed key rest
    ]

-- What a line is to a sequence: its end, an error, an empty item, a key with the rest of the line,
-- or a scalar.
pub data ItemLine : Type 0 where
  after : ItemLine
  wrong : Problem → ItemLine
  bare : ItemLine
  pair : Bytes → Bytes → ItemLine
  token : Bytes → ItemLine

abbrev drop_dash : Bytes → Bytes
drop_dash [] = []
drop_dash (c ∷ s) = if nat_eq c b'-' then s else c ∷ s

abbrev item_kind : Bytes → ItemLine
item_kind text =
    if is_empty text
    then bare
    else elim (split_key text) [ none ↦ token text | some (key, rest) ↦ pair key rest ]

unfoldable pub item_line : ℕ → Line → ItemLine
unfolding has_prefix bytes_eq trim split_key
item_line indent l =
    if ltb l.indent indent
    then after
    else if ltb indent l.indent || not (is_item l.text)
    then wrong (no_item l.no)
    else item_kind (trim (drop_dash l.text))

module _ {F : Type 0} (parse_float : Bytes → Option F) where
  abbrev as_sequence : Values F × List Line → Result Problem (Value F × List Line)
  as_sequence (vs, rest) = ok (sequence vs, rest)

  abbrev as_mapping : Fields F × List Line → Result Problem (Value F × List Line)
  as_mapping (fs, rest) = ok (mapping fs, rest)

  -- A scalar of line `no`, with the lines `ls` after it.
  unfoldable pub read_scalar : Bytes → ℕ → List Line → Read (Value F)
  unfolding scalar
  read_scalar text line_no ls =
      scalar parse_float (suc (length text)) text line_no >>= (λ v. ok (v, ls))

  -- The value of a key: the rest of its line, or the lines below it, read by `block` or, at the
  -- indent of the key, by `items`.
  unfoldable pub read_field :
      (List Line → Read (Value F))
      → (List Line → Read (Value F))
      → ℕ
      → Bytes
      → ℕ
      → List Line
      → Read (Value F)
  unfolding read_scalar has_prefix
  read_field block items indent (c ∷ rest) line_no ls = read_scalar (c ∷ rest) line_no ls
  read_field block items indent [] line_no [] = ok (null, [])
  read_field block items indent [] line_no (l ∷ ls) = elim (ltb indent l.indent) [
    | true ↦ block (l ∷ ls)
    | false ↦ elim (nat_eq l.indent indent && starts_item l.text) [
      | true ↦ items (l ∷ ls)
      | false ↦ ok (null, l ∷ ls)
    ]
  ]

  -- The value of an item that is empty.
  unfoldable pub read_bare : (List Line → Read (Value F)) → ℕ → List Line → Read (Value F)
  read_bare block indent [] = ok (null, [])
  read_bare block indent (l ∷ ls) = elim (ltb indent l.indent) [
    | true ↦ block (l ∷ ls)
    | false ↦ ok (null, l ∷ ls)
  ]

  -- The map that the line of an item starts: empty when nothing stands after the colon.
  unfoldable pub first_field : Bytes → Bytes → ℕ → Result Problem (Fields F)
  unfolding scalar set_field
  first_field key [] line_no = ok no_fields
  first_field key (c ∷ rest) line_no =
      scalar parse_float (suc (length (c ∷ rest))) (c ∷ rest) line_no
      >>= (λ v. ok (set_field key v no_fields))

  -- The further keys of an item, read by `fields`, written over its first.
  unfoldable pub read_pair :
      (ℕ → List Line → Read (Fields F)) → ℕ → Fields F → List Line → Read (Value F)
  unfolding set_fields
  read_pair fields indent first [] = ok (mapping first, [])
  read_pair fields indent first (l ∷ ls) = elim (ltb indent l.indent) [
    | true ↦ fields l.indent (l ∷ ls) >>= (λ p. as_mapping (set_fields p.0 first, p.1))
    | false ↦ ok (mapping first, l ∷ ls)
  ]

  -- The value of one item.
  unfoldable pub read_item :
      (List Line → Read (Value F))
      → (ℕ → List Line → Read (Fields F))
      → ℕ
      → ItemLine
      → ℕ
      → List Line
      → Read (Value F)
  unfolding read_scalar read_bare first_field read_pair
  read_item block fields indent bare line_no ls = read_bare block indent ls
  read_item block fields indent (pair key rest) line_no ls =
      first_field key rest line_no >>= (λ first. read_pair fields indent first ls)
  read_item block fields indent (token text) line_no ls = read_scalar text line_no ls
  read_item block fields indent after line_no ls = ok (null, ls)
  read_item block fields indent (wrong why) line_no ls = err why

  unfoldable mutual
    unfolding has_prefix bytes_eq set_field append_item read_field read_item

    -- The indent is that of the first line, as in every call of the source.
    pub parse_block : ℕ → List Line → Read (Value F)
    parse_block zero ls = err unfinished
    parse_block (suc fuel) [] = err unfinished
    parse_block (suc fuel) (l ∷ ls) = elim (is_item l.text) [
      | true ↦ parse_sequence fuel l.indent (l ∷ ls) no_items >>= as_sequence
      | false ↦ parse_mapping fuel l.indent (l ∷ ls) no_fields >>= as_mapping
    ]

    pub parse_mapping : ℕ → ℕ → List Line → Fields F → Read (Fields F)
    parse_mapping zero indent ls out = err unfinished
    parse_mapping (suc fuel) indent [] out = ok (out, [])
    parse_mapping (suc fuel) indent (l ∷ ls) out = elim (key_line indent l) [
      | past ↦ ok (out, l ∷ ls)
      | refused why ↦ err why
      | keyed key rest ↦
          read_field (parse_block fuel)
            (λ below. parse_sequence fuel indent below no_items >>= as_sequence) indent rest l.no ls
          >>= (λ p. parse_mapping fuel indent p.1 (set_field key p.0 out))
    ]

    pub parse_sequence : ℕ → ℕ → List Line → Values F → Read (Values F)
    parse_sequence zero indent ls out = err unfinished
    parse_sequence (suc fuel) indent [] out = ok (out, [])
    parse_sequence (suc fuel) indent (l ∷ ls) out = elim (item_line indent l) [
      | after ↦ ok (out, l ∷ ls)
      | wrong why ↦ err why
      | other ↦
          read_item (parse_block fuel) (λ inner below. parse_mapping fuel inner below no_fields)
            indent other l.no ls
          >>= (λ p. parse_sequence fuel indent p.1 (append_item out p.0))
    ]

  -- nothing but the document may be left
  abbrev pub whole : Value F × List Line → Result Problem (Value F)
  whole (v, []) = ok v
  whole (v, l ∷ ls) = err (indentation l.no)

  abbrev pub parse_lines : List Line → Result Problem (Value F)
  parse_lines [] = ok (mapping no_fields)
  parse_lines (l ∷ ls) = parse_block (length (l ∷ ls) * 2 + 2) (l ∷ ls) >>= whole

  unfoldable pub parse : Bytes → Result Problem (Value F)
  unfolding lines_of parse_block key_line item_line
  parse document = lines_of document >>= parse_lines
