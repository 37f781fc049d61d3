-- ===== src/Yaml/Fuel/Blocks.antt =====
-- The recursion of internal/yamlite/yamlite.go ends: the fuel that parse gives is enough for every
-- document.
use distributed_test_runner.Base.{
  ℕ, zero, suc, ◌+◌, ◌*◌, ◌≤◌, ◌≡◌, ◌∙◌, Option, List, [], ◌∷◌, arith, length, Bool-cases, inl, inr,
}
use distributed_test_runner.Base.Result.{ok, ◌>>=◌}
use distributed_test_runner.Yaml.Bytes.{Bytes}
use distributed_test_runner.Yaml.Value.{
  Value, Values, Fields, no_items, no_fields, sequence, mapping, set_field, append_item,
}
use distributed_test_runner.Yaml.Lines.{Line}
use distributed_test_runner.Yaml.Parse.{
  Read, key_line, ItemLine, bare, pair, token, item_line, read_field, read_item, parse_block,
  parse_mapping, parse_sequence, is_item,
}
use distributed_test_runner.Yaml.Fuel.Reads.{
  Leaves, Leaves->>=, Leaves-weaken, read_field-Leaves, read_item-Leaves, KeyLine-cases,
  ItemLine-cases, key_line-Ends, item_line-Ends,
}

module _ {F : Type 0} (parse_float : Bytes → Option F) where
  abbrev pub Enough : ℕ → Type 0
  Enough fuel =
      ((l : Line) (ls : List Line)
        → length (l ∷ ls) * 2 + 2 ≤ fuel
        → Leaves (length (l ∷ ls)) (parse_block parse_float fuel (l ∷ ls)))
      × (((indent : ℕ) (ls : List Line) (out : Fields F)
            → length ls * 2 + 1 ≤ fuel
            → Leaves (length ls) (parse_mapping parse_float fuel indent ls out))
          × ((indent : ℕ) (ls : List Line) (out : Values F)
              → length ls * 2 + 1 ≤ fuel
              → Leaves (length ls) (parse_sequence parse_float fuel indent ls out)))

  block-Leaves :
      (fuel : ℕ)
      → Enough fuel
      → (l : Line) (ls : List Line) → length (l ∷ ls) * 2 + 2 ≤ suc fuel
      → Leaves (length (l ∷ ls)) (parse_block parse_float (suc fuel) (l ∷ ls))
  unfolding parse_block
  block-Leaves fuel (block, (fields, items)) l ls enough =
      let as_items =
        Leaves->>= (length (l ∷ ls)) (length (l ∷ ls))
          (parse_sequence parse_float fuel l.indent (l ∷ ls) no_items) (λ p. ok (sequence p.0, p.1))
          (items l.indent (l ∷ ls) no_items (omega arith)) (λ a rest le. le) in
      let as_fields =
        Leaves->>= (length (l ∷ ls)) (length (l ∷ ls))
          (parse_mapping parse_float fuel l.indent (l ∷ ls) no_fields) (λ p. ok (mapping p.0, p.1))
          (fields l.indent (l ∷ ls) no_fields (omega arith)) (λ a rest le. le) in
      elim (Bool-cases (is_item l.text)) [
        | inl e ↦ rw (e, parse_block) as_items
        | inr e ↦ rw (e, parse_block) as_fields
      ]

  mapping-Leaves :
      (fuel : ℕ)
      → Enough fuel
      → (indent : ℕ) (ls : List Line) (out : Fields F) → length ls * 2 + 1 ≤ suc fuel
      → Leaves (length ls) (parse_mapping parse_float (suc fuel) indent ls out)
  unfolding parse_mapping
  mapping-Leaves fuel h indent [] out enough = omega arith
  mapping-Leaves fuel (block, (fields, items)) indent (l ∷ ls) out enough =
      let below_items : List Line → Read (Value F) = λ below.
        parse_sequence parse_float fuel indent below no_items >>= (λ p. ok (sequence p.0, p.1)) in
      let value : Bytes → Read (Value F) = λ rest.
        read_field parse_float (parse_block parse_float fuel) below_items indent rest l.no ls in
      let value_leaves : (rest : Bytes) → Leaves (length ls) (value rest) = λ rest.
        read_field-Leaves parse_float (parse_block parse_float fuel) below_items indent rest l.no ls
          (λ m below le.
            Leaves-weaken (length (m ∷ below)) (length ls)
              (parse_block parse_float fuel (m ∷ below)) le (block m below (omega arith)))
          (Leaves->>= (length ls) (length ls) (parse_sequence parse_float fuel indent ls no_items)
            (λ p. ok (sequence p.0, p.1)) (items indent ls no_items (omega arith))
            (λ a rest le. le)) in
      elim (KeyLine-cases (key_line indent l)) [
        | inl e ↦ rw (e, parse_mapping) (omega arith)
        | inr (inl (why, e)) ↦ rw (e, parse_mapping) (key_line-Ends indent l why e)
        | inr (inr (key, rest, e)) ↦
            rw (e, parse_mapping)
              (Leaves->>= (length ls) (suc (length ls)) (value rest)
                (λ p. parse_mapping parse_float fuel indent p.1 (set_field key p.0 out))
                (value_leaves rest)
                (λ v left le.
                  Leaves-weaken (length left) (suc (length ls))
                    (parse_mapping parse_float fuel indent left (set_field key v out)) (omega arith)
                    (fields indent left (set_field key v out) (omega arith))))
      ]

  sequence-Leaves :
      (fuel : ℕ)
      → Enough fuel
      → (indent : ℕ) (ls : List Line) (out : Values F) → length ls * 2 + 1 ≤ suc fuel
      → Leaves (length ls) (parse_sequence parse_float (suc fuel) indent ls out)
  unfolding parse_sequence
  sequence-Leaves fuel h indent [] out enough = omega arith
  sequence-Leaves fuel (block, (fields, items)) indent (l ∷ ls) out enough =
      let inner_fields : ℕ → List Line → Read (Fields F) =
        λ inner below. parse_mapping parse_float fuel inner below no_fields in
      let value : ItemLine → Read (Value F) = λ kind.
        read_item parse_float (parse_block parse_float fuel) inner_fields indent kind l.no ls in
      let goes_on = λ (kind : ItemLine) (e : item_line indent l ≡ kind).
        Leaves->>= (length ls) (suc (length ls)) (value kind)
          (λ p. parse_sequence parse_float fuel indent p.1 (append_item out p.0))
          (read_item-Leaves parse_float (parse_block parse_float fuel) inner_fields indent kind l.no
            ls (λ why f. item_line-Ends indent l why (e ∙ f))
            (λ m below le.
              Leaves-weaken (length (m ∷ below)) (length ls)
                (parse_block parse_float fuel (m ∷ below)) le (block m below (omega arith)))
            (λ inner. fields inner ls no_fields (omega arith)))
          (λ v left le.
            Leaves-weaken (length left) (suc (length ls))
              (parse_sequence parse_float fuel indent left (append_item out v)) (omega arith)
              (items indent left (append_item out v) (omega arith))) in
      elim (ItemLine-cases (item_line indent l)) [
        | inl e ↦ rw (e, parse_sequence) (omega arith)
        | inr (inl (why, e)) ↦ rw (e, parse_sequence) (item_line-Ends indent l why e)
        | inr (inr (inl e)) ↦ rw (e, parse_sequence) (goes_on bare e)
        | inr (inr (inr (inl (key, rest, e)))) ↦ rw (e, parse_sequence) (goes_on (pair key rest) e)
        | inr (inr (inr (inr (s, e)))) ↦ rw (e, parse_sequence) (goes_on (token s) e)
      ]

  pub fuel-Enough : (fuel : ℕ) → Enough fuel
  fuel-Enough zero = (
    λ l ls enough. absurd (omega arith),
    (λ indent ls out enough. absurd (omega arith), λ indent ls out enough. absurd (omega arith)),
  )
  fuel-Enough (suc fuel) =
      let h = fuel-Enough fuel in
      (block-Leaves fuel h, (mapping-Leaves fuel h, sequence-Leaves fuel h))
