-- ===== src/Yaml/Lines.antt =====
-- The lines that Parse of internal/yamlite/yamlite.go keeps of a document, with their indentation.
use distributed_test_runner.Base.{
  ℕ, ◌+◌, ◌-◌, Bool, not, ◌&&◌, ◌||◌, List, [], ◌∷◌, nat_eq, if◌then◌else◌, length,
}
use distributed_test_runner.Base.Result.{Result, ok, err, ◌>>=◌}
use distributed_test_runner.Yaml.Bytes.{
  Bytes, is_blank, trim, trim_left, bytes_eq, has_byte, is_empty, split, unix_lines,
}
use distributed_test_runner.Yaml.Value.{Problem, tabs}
use distributed_test_runner.Yaml.Quoted.{strip_comment}

pub record Line : Type 0 where
  pub no : ℕ
  pub indent : ℕ
  pub text : Bytes

-- nothing but a comment, or the start of a document
abbrev pub is_skipped : Bytes → Bool
is_skipped text = is_empty (trim text) || bytes_eq (trim text) (b'-' ∷ b'-' ∷ b'-' ∷ [])

abbrev without_spaces : Bytes → Bytes
without_spaces text = trim_left (λ c. nat_eq c b' ') text

abbrev pub is_tabbed : Bytes → Bool
is_tabbed text =
    has_byte b'\t' text && not (bytes_eq (without_spaces text) (trim_left is_blank text))

abbrev pub line_of : ℕ → Bytes → Line
line_of line_no text = record {
  no = line_no;
  indent = length text - length (without_spaces text);
  text = trim text;
}

-- The loop over the lines; `i` is the index of the next one.
unfoldable pub lines_from : ℕ → List Bytes → Result Problem (List Line)
unfolding trim trim_left bytes_eq has_byte strip_comment
lines_from i [] = ok []
lines_from i (raw ∷ raws) =
    let text = strip_comment raw in
    let rest = lines_from (i + 1) raws in
    if is_skipped text
    then rest
    else if is_tabbed text
    then err (tabs (i + 1))
    else rest >>= (λ ls. ok (line_of (i + 1) text ∷ ls))

unfoldable pub lines_of : Bytes → Result Problem (List Line)
unfolding lines_from split unix_lines
lines_of document = lines_from 0 (split b'\n' (unix_lines document))
