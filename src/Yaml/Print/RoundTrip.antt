-- ===== src/Yaml/Print/RoundTrip.antt =====
-- A printed value is read back: what parse of internal/yamlite/yamlite.go makes of its lines.
use distributed_test_runner.Base.{
  ℕ, zero, suc, ◌+◌, ◌*◌, ◌≤◌, ◌<◌, ◌≡◌, ◌∙◌, refl, sym, ap, true, false, Option, none, some, List,
  [], ◌∷◌, arith, length, Option-cases, inl, inr,
}
use mathlib.Core.Path.{subst}
use distributed_test_runner.Base.Result.{ok, ◌>>=◌}
use distributed_test_runner.Yaml.Bytes.{Bytes}
use distributed_test_runner.Yaml.Value.{
  Value, null, bool, int, float, text, sequence, mapping, Values, no_items, item, append_item,
  Fields, no_fields, field, set_field, set_fields,
}
use distributed_test_runner.Yaml.Lines.{Line}
use distributed_test_runner.Yaml.Parse.{
  Read, key_line, item_line, past, after, read_scalar, read_field, read_item, read_bare,
  parse_block, parse_mapping, parse_sequence, parse_lines, whole,
}
use distributed_test_runner.Yaml.Fuel.Reads.{Leaves}
use distributed_test_runner.Yaml.Fuel.Blocks.{fuel-Enough}
use distributed_test_runner.Yaml.Print.{
  token_of, print_below, print_fields, print_items, IsPrintable, AreFields, AreItems,
}
use distributed_test_runner.Yaml.Print.Tokens.{
  Reads, token_of-Reads, key_line-printed, is_item-printed, is_item-dash, item_line-bare,
  item_line-token,
}
use distributed_test_runner.Yaml.Print.Distinct.{set_fields-distinct}

-- The lines that follow are not part of a block at `indent`.
abbrev Outside : ℕ → List Line → Type 0
Outside indent [] = Unit
Outside indent (l ∷ ls) = l.indent < indent

module _ {F : Type 0} (parse_float : Bytes → Option F) where
  unfoldable append_items : Values F → Values F → Values F
  append_items no_items ws = ws
  append_items (item v vs) ws = item v (append_items vs ws)

  append_items-item :
      (vs : Values F) (v : Value F) (ws : Values F)
      → append_items (append_item vs v) ws ≡ append_items vs (item v ws)
  unfolding append_items append_item
  append_items-item no_items v ws = refl
  append_items-item (item u vs) v ws = ap (λ r. item u r) (append_items-item vs v ws)

  FieldsRead : ℕ → Type 0
  FieldsRead fuel =
      (indent : ℕ) (fs out : Fields F) (rest : List Line)
      → AreFields fs
      → Outside indent rest
      → length (print_fields indent fs rest) * 2 + 1 ≤ fuel
      → parse_mapping parse_float fuel indent (print_fields indent fs rest) out
        ≡ ok (set_fields fs out, rest)

  ItemsRead : ℕ → Type 0
  ItemsRead fuel =
      (indent : ℕ) (vs out : Values F) (rest : List Line)
      → AreItems vs
      → Outside indent rest
      → length (print_items indent vs rest) * 2 + 1 ≤ fuel
      → parse_sequence parse_float fuel indent (print_items indent vs rest) out
        ≡ ok (append_items out vs, rest)

  BelowRead : ℕ → Type 0
  BelowRead fuel =
      (indent : ℕ) (v : Value F) (rest : List Line)
      → IsPrintable v
      → token_of v ≡ none
      → Outside indent rest
      → length (print_below indent v rest) * 2 + 2 ≤ fuel
      → parse_block parse_float fuel (print_below indent v rest) ≡ ok (v, rest)

  below_step : (fuel : ℕ) → FieldsRead fuel → ItemsRead fuel → BelowRead (suc fuel)
  unfolding FieldsRead ItemsRead BelowRead parse_block print_below append_items IsPrintable
  below_step fuel fields items indent (mapping (field key v fs)) rest h e out enough =
      let item_no = is_item-printed key (token_of v) h.0 in
      let ih = fields indent (field key v fs) no_fields rest h out (omega arith) in
      rw (item_no, parse_block) (rw (ih, set_fields-distinct (field key v fs) h) refl)
  below_step fuel fields items indent (sequence (item v vs)) rest h e out enough =
      let item_yes = is_item-dash (token_of v) in
      let ih = items indent (item v vs) no_items rest h out (omega arith) in
      rw (item_yes, parse_block) (rw ih refl)
  below_step fuel fields items indent (mapping no_fields) rest h e out enough = absurd h
  below_step fuel fields items indent (sequence no_items) rest h e out enough = absurd h
  below_step fuel fields items indent null rest h e out enough = cc
  below_step fuel fields items indent (bool true) rest h e out enough = cc
  below_step fuel fields items indent (bool false) rest h e out enough = cc
  below_step fuel fields items indent (int i) rest h e out enough = absurd h
  below_step fuel fields items indent (float f) rest h e out enough = absurd h
  below_step fuel fields items indent (text s) rest h e out enough = cc

  -- What follows the nested lines of a field or item is outside of them.
  Outside-fields :
      (indent : ℕ) (fs : Fields F) (rest : List Line)
      → Outside indent rest
      → Outside (indent + 2) (print_fields indent fs rest)
  unfolding print_fields
  Outside-fields indent no_fields [] h = tt
  Outside-fields indent no_fields (l ∷ rest) h = omega (arith, h)
  Outside-fields indent (field key v fs) rest h = omega arith

  Outside-items :
      (indent : ℕ) (vs : Values F) (rest : List Line)
      → Outside indent rest
      → Outside (indent + 2) (print_items indent vs rest)
  unfolding print_items
  Outside-items indent no_items [] h = tt
  Outside-items indent no_items (l ∷ rest) h = omega (arith, h)
  Outside-items indent (item v vs) rest h = omega arith

  -- The first line below a key is further in.
  print_below-cons :
      (indent : ℕ) (v : Value F) (rest : List Line)
      → IsPrintable v
      → token_of v ≡ none
      → (l : Line) × (ls : List Line) × (print_below indent v rest ≡ l ∷ ls) × (l.indent ≡ indent)
  unfolding print_below IsPrintable
  print_below-cons indent (mapping (field key v fs)) rest h e = (_, _, refl, refl)
  print_below-cons indent (sequence (item v vs)) rest h e = (_, _, refl, refl)
  print_below-cons indent (mapping no_fields) rest h e = absurd h
  print_below-cons indent (sequence no_items) rest h e = absurd h
  print_below-cons indent null rest h e = cc
  print_below-cons indent (bool true) rest h e = cc
  print_below-cons indent (bool false) rest h e = cc
  print_below-cons indent (int i) rest h e = absurd h
  print_below-cons indent (float f) rest h e = absurd h
  print_below-cons indent (text s) rest h e = cc

  print_below-token :
      (indent : ℕ) (v : Value F) (t : Bytes) (rest : List Line)
      → token_of v ≡ some t
      → print_below indent v rest ≡ rest
  unfolding print_below
  print_below-token indent null t rest e = refl
  print_below-token indent (bool b) t rest e = refl
  print_below-token indent (text s) t rest e = refl
  print_below-token indent (int i) t rest e = refl
  print_below-token indent (float f) t rest e = refl
  print_below-token indent (sequence vs) t rest e = cc
  print_below-token indent (mapping fs) t rest e = cc

  -- The rest is no longer than all the lines, since the parser leaves it.
  rest_shorter :
      (fuel indent : ℕ) (v : Value F) (rest : List Line)
      → IsPrintable v
      → token_of v ≡ none
      → length (print_below indent v rest) * 2 + 2 ≤ fuel
      → parse_block parse_float fuel (print_below indent v rest) ≡ ok (v, rest)
      → length rest ≤ length (print_below indent v rest)
  rest_shorter fuel indent v rest h e enough parsed =
      let (l, ls, shape, deep) = print_below-cons indent v rest h e in
      let long : length (print_below indent v rest) ≡ length (l ∷ ls) = ap length shape in
      let leaves = (fuel-Enough parse_float fuel).0 l ls (omega (arith, long, enough)) in
      let left : parse_block parse_float fuel (l ∷ ls) ≡ ok (v, rest) =
        ap (parse_block parse_float fuel) (sym shape) ∙ parsed in
      let bound : Leaves (length (l ∷ ls)) (ok (v, rest)) =
        subst (λ r. Leaves (length (l ∷ ls)) r) left leaves in
      omega (arith, long, bound)

  read_field-scalar :
      (block items : List Line → Read (Value F)) (indent line_no : ℕ) (t : Bytes) (more : List Line)
      → (c : ℕ) (s : Bytes) → t ≡ c ∷ s
      → read_field parse_float block items indent t line_no more
        ≡ read_scalar parse_float t line_no more
  unfolding read_field
  read_field-scalar block items indent line_no [] more c s e = cc
  read_field-scalar block items indent line_no (d ∷ t) more c s e = refl

  read_field-token :
      (block items : List Line → Read (Value F)) (indent line_no : ℕ) (v : Value F) (t : Bytes)
      (more : List Line)
      → Reads parse_float v t
      → read_field parse_float block items indent t line_no more ≡ ok (v, more)
  unfolding read_scalar
  read_field-token block items indent line_no v t more r =
      let (c, s, e) = r.is_some in
      read_field-scalar block items indent line_no t more c s e
      ∙ rw (r.is_scalar line_no, read_scalar) refl

  read_field-below :
      (block items : List Line → Read (Value F)) (indent line_no : ℕ) (l : Line) (ls : List Line)
      → indent < l.indent
      → read_field parse_float block items indent [] line_no (l ∷ ls) ≡ block (l ∷ ls)
  unfolding read_field
  read_field-below block items indent line_no l ls h = ground arith

  key_line-outside : (indent : ℕ) (l : Line) → l.indent < indent → key_line indent l ≡ past
  unfolding key_line
  key_line-outside indent l h = ground arith

  fields_step : (fuel : ℕ) → FieldsRead fuel → BelowRead fuel → FieldsRead (suc fuel)
  unfolding FieldsRead BelowRead parse_mapping print_fields AreFields set_fields
  fields_step fuel fields below indent no_fields out [] h outside enough = refl
  fields_step fuel fields below indent no_fields out (l ∷ rest) h outside enough =
      rw (key_line-outside indent l outside, parse_mapping) refl
  fields_step fuel fields below indent (field key v fs) out rest (k, (once, (p, h))) outside
        enough =
      let more = print_fields indent fs rest in
      let keys = key_line-printed indent key (token_of v) k in
      let items_below : List Line → Read (Value F) = λ under.
        parse_sequence parse_float fuel indent under no_items >>= (λ q. ok (sequence q.0, q.1)) in
      let block : List Line → Read (Value F) = parse_block parse_float fuel in
      elim (Option-cases (token_of v)) [
        | inl e ↦
            let (l, ls, shape, deep) = print_below-cons (indent + 2) v more p e in
            let fits : length (print_below (indent + 2) v more) * 2 + 2 ≤ fuel =
              omega (arith, enough) in
            let parsed =
              below (indent + 2) v more p e (Outside-fields indent fs rest outside) fits in
            let shorter = rest_shorter fuel (indent + 2) v more p e fits parsed in
            let ih =
              fields indent fs (set_field key v out) rest h outside
                (omega (arith, enough, shorter)) in
            let read = read_field-below block items_below indent 0 l ls (omega (arith, deep)) in
            rw (keys, parse_mapping) (rw e (rw shape (rw read (rw (← shape) (rw parsed ih)))))
        | inr (t, e) ↦
            let here = print_below-token (indent + 2) v t more e in
            let reads = token_of-Reads parse_float v t e in
            let read = read_field-token block items_below indent 0 v t more reads in
            let ih =
              fields indent fs (set_field key v out) rest h outside
                (omega (arith, enough, ap length here)) in
            rw (keys, parse_mapping) (rw e (rw (reads.is_trimmed) (rw here (rw read ih))))
      ]

  read_bare-below :
      (block : List Line → Read (Value F)) (indent : ℕ) (l : Line) (ls : List Line)
      → indent < l.indent
      → read_bare parse_float block indent (l ∷ ls) ≡ block (l ∷ ls)
  unfolding read_bare
  read_bare-below block indent l ls h = ground arith

  item_line-outside : (indent : ℕ) (l : Line) → l.indent < indent → item_line indent l ≡ after
  unfolding item_line
  item_line-outside indent l h = ground arith

  append_items-nil : (vs : Values F) → append_items vs no_items ≡ vs
  unfolding append_items
  append_items-nil no_items = refl
  append_items-nil (item v vs) = ap (λ r. item v r) (append_items-nil vs)

  items_step : (fuel : ℕ) → ItemsRead fuel → BelowRead fuel → ItemsRead (suc fuel)
  unfolding ItemsRead BelowRead parse_sequence print_items AreItems read_item append_items
  items_step fuel items below indent no_items out [] h outside enough =
      ap (λ vs. ok (vs, [])) (sym (append_items-nil out))
  items_step fuel items below indent no_items out (l ∷ rest) h outside enough =
      rw (item_line-outside indent l outside, parse_sequence)
        (ap (λ vs. ok (vs, l ∷ rest)) (sym (append_items-nil out)))
  items_step fuel items below indent (item v vs) out rest (p, h) outside enough =
      let more = print_items indent vs rest in
      let block : List Line → Read (Value F) = parse_block parse_float fuel in
      elim (Option-cases (token_of v)) [
        | inl e ↦
            let (l, ls, shape, deep) = print_below-cons (indent + 2) v more p e in
            let fits : length (print_below (indent + 2) v more) * 2 + 2 ≤ fuel =
              omega (arith, enough) in
            let parsed =
              below (indent + 2) v more p e (Outside-items indent vs rest outside) fits in
            let shorter = rest_shorter fuel (indent + 2) v more p e fits parsed in
            let ih =
              items indent vs (append_item out v) rest h outside (omega (arith, enough, shorter)) in
            let read = read_bare-below block indent l ls (omega (arith, deep)) in
            rw e (
              rw (item_line-bare indent, parse_sequence)
                (rw shape (
                  rw read (
                    rw (← shape)
                      (rw parsed (ih ∙ ap (λ r. ok (r, rest)) (append_items-item out v vs)))))))
        | inr (t, e) ↦
            let here = print_below-token (indent + 2) v t more e in
            let reads = token_of-Reads parse_float v t e in
            let ih =
              items indent vs (append_item out v) rest h outside
                (omega (arith, enough, ap length here)) in
            rw e (
              rw (item_line-token parse_float v indent t reads, parse_sequence)
                (rw here (
                  rw (reads.is_scalar 0, read_scalar)
                    (ih ∙ ap (λ r. ok (r, rest)) (append_items-item out v vs)))))
      ]

  all_read : (fuel : ℕ) → FieldsRead fuel × (ItemsRead fuel × BelowRead fuel)
  unfolding FieldsRead ItemsRead BelowRead
  all_read zero = (
    λ indent fs out rest h o enough. absurd (omega (arith, enough)),
    (
      λ indent vs out rest h o enough. absurd (omega (arith, enough)),
      λ indent v rest h e o enough. absurd (omega (arith, enough)),
    ),
  )
  all_read (suc fuel) =
      let (fields, (items, below)) = all_read fuel in
      (fields_step fuel fields below, (items_step fuel items below, below_step fuel fields items))

  parse_lines-cons :
      (ls : List Line) (first : Line) (more : List Line)
      → ls ≡ first ∷ more
      → parse_lines parse_float ls
        ≡ (parse_block parse_float (length ls * 2 + 2) ls >>= whole parse_float)
  parse_lines-cons [] first more e = cc
  parse_lines-cons (l ∷ ls) first more e = refl

  -- A document of texts, bools and nulls in mappings and sequences, none of them empty and the keys
  -- of a mapping distinct words, is what the parser makes of its printed lines: the texts in single
  -- quotes whatever bytes they have, a nested value two columns further in.
  pub parse_lines-print_below :
      (v : Value F)
      → IsPrintable v
      → token_of v ≡ none
      → parse_lines parse_float (print_below 0 v []) ≡ ok v
  unfolding BelowRead
  parse_lines-print_below v h e =
      let (l, ls, shape, deep) = print_below-cons 0 v [] h e in
      let (fields, (items, below)) = all_read (length (print_below 0 v []) * 2 + 2) in
      let parsed = below 0 v [] h e tt (omega arith) in
      parse_lines-cons (print_below 0 v []) l ls shape ∙ rw parsed refl
