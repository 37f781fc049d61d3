-- ===== src/Yaml/Fuel/Reads.antt =====
-- The reads of one value in internal/yamlite/yamlite.go end and leave no more lines than they take,
-- when the calls for the lines below do.
use distributed_test_runner.Base.{
  ℕ, suc, ◌≤◌, ◌≡◌, ◌≢◌, refl, Option, List, [], ◌∷◌, arith, length, inl, inr, ◌⊎◌,
}
use distributed_test_runner.Base.Result.{Result, ok, err, ◌>>=◌}
use distributed_test_runner.Yaml.Bytes.{Bytes}
use distributed_test_runner.Yaml.Value.{Problem, unfinished, Value, Fields, mapping, set_fields}
use distributed_test_runner.Yaml.Scalar.{scalar}
use distributed_test_runner.Yaml.Lines.{Line}
use distributed_test_runner.Yaml.Parse.{
  Read, KeyLine, past, refused, keyed, key_line, ItemLine, after, wrong, bare, pair, token,
  item_line, read_scalar, read_field, read_bare, first_field, read_pair, read_item,
}
use distributed_test_runner.Yaml.Fuel.Scalars.{Ends, Ends->>=, scalar-Ends}

-- Besides, it leaves at most `n` lines.
abbrev pub Leaves : {A : Type 0} → ℕ → Result Problem (A × List Line) → Type 0
Leaves n (ok (a, rest)) = length rest ≤ n
Leaves n (err why) = why ≢ unfinished

pub Leaves->>= :
    {A B : Type 0} (n m : ℕ) (first : Result Problem (A × List Line))
    (next : A × List Line → Result Problem (B × List Line))
    → Leaves n first
    → ((a : A) (rest : List Line) → length rest ≤ n → Leaves m (next (a, rest)))
    → Leaves m (first >>= next)
Leaves->>= n m (ok (a, rest)) next h k = k a rest h
Leaves->>= n m (err why) next h k = h

Ends->>=-Leaves :
    {A B : Type 0} (m : ℕ) (first : Result Problem A) (next : A → Result Problem (B × List Line))
    → Ends first
    → ((a : A) → Leaves m (next a))
    → Leaves m (first >>= next)
Ends->>=-Leaves m (ok a) next h k = k a
Ends->>=-Leaves m (err why) next h k = h

pub Leaves-weaken :
    {A : Type 0} (n m : ℕ) (r : Result Problem (A × List Line)) → n ≤ m → Leaves n r → Leaves m r
Leaves-weaken n m (ok (a, rest)) le h = omega (arith, h, le)
Leaves-weaken n m (err why) le h = h

pub KeyLine-cases :
    (k : KeyLine)
    → (k ≡ past)
      ⊎ (((why : Problem) × (k ≡ refused why)) ⊎ ((key rest : Bytes) × (k ≡ keyed key rest)))
KeyLine-cases past = inl refl
KeyLine-cases (refused why) = inr (inl (why, refl))
KeyLine-cases (keyed key rest) = inr (inr (key, rest, refl))

pub key_line-Ends :
    (indent : ℕ) (l : Line) (why : Problem) → key_line indent l ≡ refused why → why ≢ unfinished
unfolding key_line
key_line-Ends indent l why e = ground arith

pub ItemLine-cases :
    (k : ItemLine)
    → (k ≡ after)
      ⊎ (((why : Problem) × (k ≡ wrong why))
          ⊎ ((k ≡ bare)
              ⊎ (((key rest : Bytes) × (k ≡ pair key rest)) ⊎ ((s : Bytes) × (k ≡ token s)))))
ItemLine-cases after = inl refl
ItemLine-cases (wrong why) = inr (inl (why, refl))
ItemLine-cases bare = inr (inr (inl refl))
ItemLine-cases (pair key rest) = inr (inr (inr (inl (key, rest, refl))))
ItemLine-cases (token s) = inr (inr (inr (inr (s, refl))))

pub item_line-Ends :
    (indent : ℕ) (l : Line) (why : Problem) → item_line indent l ≡ wrong why → why ≢ unfinished
unfolding item_line
item_line-Ends indent l why e = ground arith

module _ {F : Type 0} (parse_float : Bytes → Option F) where
  read_scalar-Leaves :
      (s : Bytes) (line_no : ℕ) (ls : List Line)
      → Leaves (length ls) (read_scalar parse_float s line_no ls)
  unfolding read_scalar
  read_scalar-Leaves s line_no ls =
      Ends->>=-Leaves (length ls) (scalar parse_float (suc (length s)) s line_no) _
        (scalar-Ends parse_float (suc (length s)) s line_no (omega arith)) (λ v. omega arith)

  pub read_field-Leaves :
      (block items : List Line → Read (Value F)) (indent : ℕ) (rest : Bytes) (line_no : ℕ)
      (ls : List Line)
      → ((l : Line) (below : List Line)
          → length (l ∷ below) ≤ length ls
          → Leaves (length ls) (block (l ∷ below)))
      → Leaves (length ls) (items ls)
      → Leaves (length ls) (read_field parse_float block items indent rest line_no ls)
  unfolding read_field
  read_field-Leaves block items indent (c ∷ rest) line_no ls h k =
      read_scalar-Leaves (c ∷ rest) line_no ls
  read_field-Leaves block items indent [] line_no [] h k = omega arith
  read_field-Leaves block items indent [] line_no (l ∷ ls) h k = ground (arith, h l ls, k)

  first_field-Ends :
      (key rest : Bytes) (line_no : ℕ) → Ends (first_field parse_float key rest line_no)
  unfolding first_field
  first_field-Ends key [] line_no = tt
  first_field-Ends key (c ∷ rest) line_no =
      Ends->>= (scalar parse_float (suc (length (c ∷ rest))) (c ∷ rest) line_no) _
        (scalar-Ends parse_float (suc (length (c ∷ rest))) (c ∷ rest) line_no (omega arith))
        (λ v. tt)

  read_bare-Leaves :
      (block : List Line → Read (Value F)) (indent : ℕ) (ls : List Line)
      → ((l : Line) (below : List Line)
          → length (l ∷ below) ≤ length ls
          → Leaves (length ls) (block (l ∷ below)))
      → Leaves (length ls) (read_bare parse_float block indent ls)
  unfolding read_bare
  read_bare-Leaves block indent [] h = omega arith
  read_bare-Leaves block indent (l ∷ ls) h = ground (arith, h l ls)

  read_pair-Leaves :
      (fields : ℕ → List Line → Read (Fields F)) (indent : ℕ) (first : Fields F) (ls : List Line)
      → ((inner : ℕ) → Leaves (length ls) (fields inner ls))
      → Leaves (length ls) (read_pair parse_float fields indent first ls)
  unfolding read_pair
  read_pair-Leaves fields indent first [] h = omega arith
  read_pair-Leaves fields indent first (l ∷ ls) h =
      let more =
        Leaves->>= (length (l ∷ ls)) (length (l ∷ ls)) (fields l.indent (l ∷ ls))
          (λ p. ok (mapping (set_fields p.0 first), p.1)) (h l.indent) (λ a rest le. le) in
      ground (arith, more)

  pub read_item-Leaves :
      (block : List Line → Read (Value F)) (fields : ℕ → List Line → Read (Fields F)) (indent : ℕ)
      (kind : ItemLine) (line_no : ℕ) (ls : List Line)
      → ((why : Problem) → kind ≡ wrong why → why ≢ unfinished)
      → ((l : Line) (below : List Line)
          → length (l ∷ below) ≤ length ls
          → Leaves (length ls) (block (l ∷ below)))
      → ((inner : ℕ) → Leaves (length ls) (fields inner ls))
      → Leaves (length ls) (read_item parse_float block fields indent kind line_no ls)
  unfolding read_item
  read_item-Leaves block fields indent bare line_no ls w h k = read_bare-Leaves block indent ls h
  read_item-Leaves block fields indent (pair key rest) line_no ls w h k =
      Ends->>=-Leaves (length ls) (first_field parse_float key rest line_no) _
        (first_field-Ends key rest line_no) (λ first. read_pair-Leaves fields indent first ls k)
  read_item-Leaves block fields indent (token s) line_no ls w h k = read_scalar-Leaves s line_no ls
  read_item-Leaves block fields indent after line_no ls w h k = omega arith
  read_item-Leaves block fields indent (wrong why) line_no ls w h k = w why refl
