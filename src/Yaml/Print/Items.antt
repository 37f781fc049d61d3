-- ===== src/Yaml/Print/Items.antt =====
-- Keys of sequence items in internal/yamlite/yamlite.go.
use distributed_test_runner.Base.{
  ℕ, zero, suc, ◌+◌, ◌*◌, ◌≡◌, ◌∙◌, refl, sym, ap, Option, none, List, [], ◌∷◌, ◌++◌, arith, length,
}
use distributed_test_runner.Base.Result.{ok, ◌>>=◌}
use distributed_test_runner.Yaml.Bytes.{Bytes, trim, has_prefix, bytes_eq, trim_left, is_space}
use distributed_test_runner.Yaml.Value.{Values, no_items, no_fields, append_item, sequence}
use distributed_test_runner.Yaml.Lines.{Line}
use distributed_test_runner.Yaml.Parse.{
  item_line, pair, read_item, first_field, parse_block, parse_sequence, parse_mapping, parse_lines,
  whole, Read, read_pair,
}
use distributed_test_runner.Yaml.Print.{line, IsKey}
use distributed_test_runner.Yaml.Print.Tokens.{trim_right-snoc, name_byte-space, split_key-word}

item_line-key :
    (indent : ℕ) (key : Bytes)
    → IsKey key
    → item_line indent (line indent (b'-' ∷ b' ' ∷ (key ++ b':' ∷ []))) ≡ pair key []
unfolding item_line has_prefix bytes_eq trim trim_left
item_line-key indent [] h = absurd h
item_line-key indent (c ∷ key) h =
    let e = split_key-word (c ∷ key) none h in
    let t = trim_right-snoc is_space b':' (c ∷ key) refl in
    ground (arith, e, t, name_byte-space c h.0)

module _ {F : Type 0} (parse_float : Bytes → Option F) where
  key_item : Bytes → Line
  key_item key = line 0 (b'-' ∷ b' ' ∷ (key ++ b':' ∷ []))

  after_key : ℕ → List Line → Read (Values F)
  after_key fuel ls =
      read_pair parse_float (λ inner below. parse_mapping parse_float fuel inner below no_fields) 0
        no_fields ls
      >>= (λ p. parse_sequence parse_float fuel 0 p.1 (append_item no_items p.0))

  sequence_key :
      (fuel : ℕ) (key : Bytes) (ls : List Line)
      → IsKey key
      → parse_sequence parse_float (suc fuel) 0 (key_item key ∷ ls) no_items ≡ after_key fuel ls
  unfolding key_item read_item first_field after_key parse_sequence
  sequence_key fuel key ls h = rw (item_line-key 0 key h, parse_sequence) refl

  block_key :
      (fuel : ℕ) (key : Bytes) (ls : List Line)
      → IsKey key
      → parse_block parse_float (suc (suc fuel)) (key_item key ∷ ls)
        ≡ (after_key fuel ls >>= (λ p. ok (sequence p.0, p.1)))
  unfolding parse_block key_item has_prefix
  block_key fuel key ls h = rw (← sequence_key fuel key ls h) refl

  block_alike :
      (fuel : ℕ) (key other : Bytes) (ls : List Line)
      → IsKey key
      → IsKey other
      → parse_block parse_float fuel (key_item key ∷ ls)
        ≡ parse_block parse_float fuel (key_item other ∷ ls)
  unfolding parse_block key_item has_prefix
  block_alike zero key other ls h k = refl
  block_alike (suc zero) key other ls h k = refl
  block_alike (suc (suc fuel)) key other ls h k =
      block_key fuel key ls h ∙ sym (block_key fuel other ls k)

  -- An item that is a key with nothing after its colon is read without the key: whatever the lines
  -- below are, the document is the same with another key.
  pub item_key_lost :
      (key other : Bytes) (ls : List Line)
      → IsKey key
      → IsKey other
      → parse_lines parse_float (line 0 (b'-' ∷ b' ' ∷ (key ++ b':' ∷ [])) ∷ ls)
        ≡ parse_lines parse_float (line 0 (b'-' ∷ b' ' ∷ (other ++ b':' ∷ [])) ∷ ls)
  unfolding key_item
  item_key_lost key other ls h k =
      ap (λ r. r >>= whole parse_float)
        (block_alike (length (key_item key ∷ ls) * 2 + 2) key other ls h k)
