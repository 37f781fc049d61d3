-- ===== src/Yaml/Print/Tokens.antt =====
-- What splitKey, isKeyValue and scalar of internal/yamlite/yamlite.go make of a printed line.
use distributed_test_runner.Base.{
  ℕ, suc, ◌≡◌, ◌∙◌, refl, ap, Bool, true, false, Option, none, some, [], ◌∷◌, ◌++◌, arith, length,
  nat_eq, Bool-cases, inl, inr,
}
use mathlib.Core.Path.{subst}
use distributed_test_runner.Base.Result.{ok, err}
use distributed_test_runner.Yaml.Bytes.{
  Bytes, trim, trim_left, trim_right, last, init, is_space, bytes_eq, has_prefix,
}
use distributed_test_runner.Yaml.Value.{
  Problem, not_quoted, Value, null, bool, int, float, text, sequence, mapping,
}
use distributed_test_runner.Yaml.Quoted.{undouble, unquote, split_colon, split_key, ends_key}
use distributed_test_runner.Yaml.Scalar.{scalar, plain}
use distributed_test_runner.Yaml.Parse.{keyed, key_line, bare, token, item_line, is_item}
use distributed_test_runner.Yaml.Print.{
  tail_of, double_quotes, quoted, is_name_byte, IsWord, IsKey, token_of, line,
}

undouble-cons : (c : ℕ) (s : Bytes) → nat_eq c b'\'' ≡ false → undouble (c ∷ s) ≡ c ∷ undouble s
unfolding undouble
undouble-cons c [] h = refl
undouble-cons c (d ∷ s) h = rw (h, undouble) refl

undouble-double_quotes : (s : Bytes) → undouble (double_quotes s) ≡ s
unfolding undouble double_quotes
undouble-double_quotes [] = refl
undouble-double_quotes (c ∷ s) = elim (Bool-cases (nat_eq c b'\'')) [
  | inl h ↦ rw (h, double_quotes) (ground (arith, undouble-double_quotes s))
  | inr h ↦
      rw (h, double_quotes)
        (undouble-cons c (double_quotes s) h ∙ ap (λ t. c ∷ t) (undouble-double_quotes s))
]

last-snoc : (c b : ℕ) (s : Bytes) → last c (s ++ b ∷ []) ≡ b
unfolding last
last-snoc c b [] = refl
last-snoc c b (d ∷ s) = last-snoc d b s

init-snoc : (c b : ℕ) (s : Bytes) → init c (s ++ b ∷ []) ≡ c ∷ s
unfolding init
init-snoc c b [] = refl
init-snoc c b (d ∷ s) = ap (λ t. c ∷ t) (init-snoc d b s)

unquote-quotes : (s : Bytes) → unquote (b'\'' ∷ (s ++ b'\'' ∷ [])) ≡ ok (undouble s)
unfolding unquote last init
unquote-quotes [] = refl
unquote-quotes (c ∷ s) = rw (last-snoc c b'\'' s, init-snoc c b'\'' s) refl

unquote-quoted : (s : Bytes) → unquote (quoted s) ≡ ok s
unquote-quoted s = unquote-quotes (double_quotes s) ∙ ap ok (undouble-double_quotes s)

pub trim_right-snoc :
    (drop : ℕ → Bool) (b : ℕ) (s : Bytes)
    → drop b ≡ false
    → trim_right drop (s ++ b ∷ []) ≡ s ++ b ∷ []
unfolding trim_right
trim_right-snoc drop b [] h = rw h refl
trim_right-snoc drop b (c ∷ []) h = rw (h, trim_right) refl
trim_right-snoc drop b (c ∷ d ∷ s) h = rw (trim_right-snoc drop b (d ∷ s) h, trim_right) refl

trim-quoted : (s : Bytes) → trim (quoted s) ≡ quoted s
unfolding trim trim_left
trim-quoted s = trim_right-snoc is_space b'\'' (b'\'' ∷ double_quotes s) refl

split_colon-quoted : (s : Bytes) → split_colon b'\'' (double_quotes s ++ b'\'' ∷ []) ≡ none
unfolding split_colon double_quotes
split_colon-quoted [] = refl
split_colon-quoted (c ∷ s) = elim (Bool-cases (nat_eq c b'\'')) [
  | inl h ↦ rw (h, double_quotes) (rw (split_colon-quoted s) refl)
  | inr h ↦ rw (h, double_quotes) (rw (h, split_colon-quoted s) refl)
]

split_key-quoted : (s : Bytes) → split_key (quoted s) ≡ none
unfolding split_key split_colon
split_key-quoted s = rw (split_colon-quoted s, split_key) refl

pub name_byte-space : (c : ℕ) → is_name_byte c ≡ true → is_space c ≡ false
name_byte-space c h = ground arith

-- A word has no space, no quote and no separator.
trim_right-word : (s : Bytes) → IsWord s → trim_right is_space s ≡ s
unfolding trim_right
trim_right-word [] h = refl
trim_right-word (c ∷ []) h = rw (name_byte-space c h.0) refl
trim_right-word (c ∷ d ∷ s) h = rw (trim_right-word (d ∷ s) h.1, trim_right) refl

trim-word : (s : Bytes) → IsWord s → trim s ≡ s
unfolding trim trim_left
trim-word [] h = trim_right-word [] h
trim-word (c ∷ s) h = rw (name_byte-space c h.0, trim_left) (trim_right-word (c ∷ s) h)

unquote-word : (s : Bytes) → IsKey s → (why : Problem) × (unquote s ≡ err why)
unfolding unquote
unquote-word [] h = absurd h
unquote-word (c ∷ []) h = (_, refl)
unquote-word (c ∷ d ∷ s) h = (not_quoted (c ∷ d ∷ s), ground (arith, h.0))

split_colon-word :
    (s after : Bytes)
    → IsWord s
    → ends_key after ≡ true
    → split_colon 0 (s ++ b':' ∷ after) ≡ some (s, after)
unfolding split_colon
split_colon-word [] after h e = rw e refl
split_colon-word (c ∷ s) after h e =
    let ih = split_colon-word s after h.1 e in ground (arith, h.0, ih)

ends_key-tail_of : (t : Option Bytes) → ends_key (tail_of t) ≡ true
ends_key-tail_of none = refl
ends_key-tail_of (some t) = refl

pub split_key-word :
    (s : Bytes) (t : Option Bytes)
    → IsKey s
    → split_key (s ++ b':' ∷ tail_of t) ≡ some (s, trim (tail_of t))
unfolding split_key
split_key-word [] t h = absurd h
split_key-word (c ∷ s) t h =
    let (why, e) = unquote-word (c ∷ s) h in
    rw
      (
        split_colon-word (c ∷ s) (tail_of t) h (ends_key-tail_of t),
        trim-word (c ∷ s) h,
        e,
        split_key,
      )
      refl

-- What the parser makes of the token of a value.
module _ {F : Type 0} (parse_float : Bytes → Option F) where
  pub record Reads (v : Value F) (t : Bytes) : Type 0 where
    pub is_trimmed : trim (b' ' ∷ t) ≡ t
    pub is_no_key : split_key t ≡ none
    pub is_some : (c : ℕ) × (s : Bytes) × (t ≡ c ∷ s)
    pub is_scalar : (line_no : ℕ) → scalar parse_float (suc (length t)) t line_no ≡ ok v

  text-Reads : (s : Bytes) → Reads (text s) (quoted s)
  unfolding scalar
  text-Reads s = record {
    is_trimmed = trim-quoted s;
    is_no_key = split_key-quoted s;
    is_some = (b'\'', double_quotes s ++ b'\'' ∷ [], refl);
    is_scalar = λ line_no. rw (unquote-quoted s, scalar) refl;
  }

  null-Reads : Reads null (b'n' ∷ b'u' ∷ b'l' ∷ b'l' ∷ [])
  unfolding scalar plain split_key split_colon trim trim_left trim_right bytes_eq
  null-Reads = record {
    is_trimmed = refl;
    is_no_key = refl;
    is_some = (b'n', b'u' ∷ b'l' ∷ b'l' ∷ [], refl);
    is_scalar = λ n. refl;
  }

  true-Reads : Reads (bool true) (b't' ∷ b'r' ∷ b'u' ∷ b'e' ∷ [])
  unfolding scalar plain split_key split_colon trim trim_left trim_right bytes_eq
  true-Reads = record {
    is_trimmed = refl;
    is_no_key = refl;
    is_some = (b't', b'r' ∷ b'u' ∷ b'e' ∷ [], refl);
    is_scalar = λ n. refl;
  }

  false-Reads : Reads (bool false) (b'f' ∷ b'a' ∷ b'l' ∷ b's' ∷ b'e' ∷ [])
  unfolding scalar plain split_key split_colon trim trim_left trim_right bytes_eq
  false-Reads = record {
    is_trimmed = refl;
    is_no_key = refl;
    is_some = (b'f', b'a' ∷ b'l' ∷ b's' ∷ b'e' ∷ [], refl);
    is_scalar = λ n. refl;
  }

  Reads-eq :
      (v : Value F) (t u : Bytes) → ◌≡◌ {A = Option Bytes} (some t) (some u) → Reads v t → Reads v u
  Reads-eq v t u e h = let p : t ≡ u = cc in subst (λ w. Reads v w) p h

  pub token_of-Reads : (v : Value F) (t : Bytes) → token_of v ≡ some t → Reads v t
  token_of-Reads null t e = Reads-eq null _ t e null-Reads
  token_of-Reads (bool true) t e = Reads-eq (bool true) _ t e true-Reads
  token_of-Reads (bool false) t e = Reads-eq (bool false) _ t e false-Reads
  token_of-Reads (text s) t e = Reads-eq (text s) _ t e (text-Reads s)
  token_of-Reads (int i) t e = cc
  token_of-Reads (float f) t e = cc
  token_of-Reads (sequence vs) t e = cc
  token_of-Reads (mapping fs) t e = cc

name_byte-dash : (c : ℕ) → is_name_byte c ≡ true → nat_eq c b'-' ≡ false
name_byte-dash c h = ground arith

pub key_line-printed :
    (indent : ℕ) (key : Bytes) (t : Option Bytes)
    → IsKey key
    → key_line indent (line indent (key ++ b':' ∷ tail_of t)) ≡ keyed key (trim (tail_of t))
unfolding key_line has_prefix
key_line-printed indent [] t h = absurd h
key_line-printed indent (c ∷ key) t h =
    let e = split_key-word (c ∷ key) t h in let d = name_byte-dash c h.0 in ground (arith, e, d)

pub is_item-printed :
    (key : Bytes) (t : Option Bytes) → IsKey key → is_item (key ++ b':' ∷ tail_of t) ≡ false
unfolding has_prefix bytes_eq
is_item-printed [] t h = absurd h
is_item-printed (c ∷ key) t h = rw (name_byte-dash c h.0) refl

pub is_item-dash : (t : Option Bytes) → is_item (b'-' ∷ tail_of t) ≡ true
unfolding has_prefix bytes_eq
is_item-dash none = refl
is_item-dash (some t) = refl

pub item_line-bare : (indent : ℕ) → item_line indent (line indent (b'-' ∷ [])) ≡ bare
unfolding item_line has_prefix bytes_eq trim trim_left trim_right
item_line-bare indent = ground arith

pub item_line-token :
    {F : Type 0} (parse_float : Bytes → Option F) (v : Value F) (indent : ℕ) (t : Bytes)
    → Reads parse_float v t
    → item_line indent (line indent (b'-' ∷ b' ' ∷ t)) ≡ token t
unfolding item_line has_prefix bytes_eq
item_line-token parse_float v indent t r =
    let (c, s, e) = r.is_some in ground (arith, e, r.is_trimmed, r.is_no_key)
