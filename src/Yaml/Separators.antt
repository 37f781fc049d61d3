-- ===== src/Yaml/Separators.antt =====
-- What splitFlow and stripComment of internal/yamlite/yamlite.go cut, and that no byte is lost.
use distributed_test_runner.Base.{
  ℕ, ◌≡◌, refl, sym, ◌∙◌, ap, Bool, true, false, List, [], ◌∷◌, ◌++◌, arith, nat_eq, ◌&&◌,
  Bool-cases, inl, inr, All,
}
use mathlib.Core.Path.{subst}
use distributed_test_runner.Yaml.Bytes.{Bytes, put_byte, is_blank}
use distributed_test_runner.Yaml.Quoted.{
  next_quote, flow_from, split_flow, strip_from, strip_comment,
}

-- The parts with a comma between two.
unfoldable pub join_flow : List Bytes → Bytes
join_flow [] = []
join_flow (part ∷ []) = part
join_flow (part ∷ next ∷ parts) = part ++ b',' ∷ join_flow (next ∷ parts)

join_flow-put_byte :
    (c : ℕ) (part : Bytes) (parts : List Bytes)
    → join_flow (put_byte c (part ∷ parts)) ≡ c ∷ join_flow (part ∷ parts)
unfolding join_flow
join_flow-put_byte c part [] = refl
join_flow-put_byte c part (next ∷ parts) = refl

-- There is always a first part.
flow_from-cons :
    (quote : ℕ) (s : Bytes)
    → (part : Bytes) × (parts : List Bytes) × (flow_from quote s ≡ part ∷ parts)
unfolding flow_from
flow_from-cons quote [] = ([], [], refl)
flow_from-cons quote (c ∷ s) =
    let (part, parts, e) = flow_from-cons (next_quote quote c) s in
    elim (Bool-cases (nat_eq quote 0 && nat_eq c b',')) [
      | inl h ↦ ([], flow_from (next_quote quote c) s, rw (h, flow_from) refl)
      | inr h ↦ (c ∷ part, parts, rw (h, e, flow_from) refl)
    ]

join_flow-flow_from : (quote : ℕ) (s : Bytes) → join_flow (flow_from quote s) ≡ s
unfolding flow_from join_flow
join_flow-flow_from quote [] = refl
join_flow-flow_from quote (c ∷ s) =
    let (part, parts, e) = flow_from-cons (next_quote quote c) s in
    let ih = join_flow-flow_from (next_quote quote c) s in
    elim (Bool-cases (nat_eq quote 0 && nat_eq c b',')) [
      | inl h ↦ rw h (ground (arith, e, ih))
      | inr h ↦
          rw h
            (rw e (join_flow-put_byte c part parts ∙ ap (λ t. c ∷ t) (ap join_flow (sym e) ∙ ih)))
    ]

-- A part has no comma outside quotes when the split leaves it whole.
abbrev pub Whole : List Bytes → Type 0
Whole parts = All (λ (part : Bytes). flow_from 0 part ≡ part ∷ []) parts

-- The first part may start inside a quote.
abbrev WholeFrom : ℕ → List Bytes → Type 0
WholeFrom quote [] = ⊥
WholeFrom quote (part ∷ parts) = (flow_from quote part ≡ part ∷ []) × Whole parts

WholeFrom-zero : (parts : List Bytes) → WholeFrom 0 parts → Whole parts
WholeFrom-zero [] h = absurd h
WholeFrom-zero (part ∷ parts) h = h

WholeFrom-put_byte :
    (quote c : ℕ) (parts : List Bytes)
    → (nat_eq quote 0 && nat_eq c b',') ≡ false
    → WholeFrom (next_quote quote c) parts
    → WholeFrom quote (put_byte c parts)
unfolding flow_from
WholeFrom-put_byte quote c [] h whole = absurd whole
WholeFrom-put_byte quote c (part ∷ parts) h whole = (rw (h, whole.0) refl, whole.1)

comma_quote : (quote c : ℕ) → (nat_eq quote 0 && nat_eq c b',') ≡ true → next_quote quote c ≡ 0
comma_quote quote c h = ground arith

-- At a comma that separates, the quote after it is none.
comma :
    (quote c : ℕ) (parts : List Bytes)
    → (nat_eq quote 0 && nat_eq c b',') ≡ true
    → WholeFrom (next_quote quote c) parts
    → WholeFrom 0 parts
comma quote c parts h whole = subst (λ q. WholeFrom q parts) (comma_quote quote c h) whole

flow_from-WholeFrom : (quote : ℕ) (s : Bytes) → WholeFrom quote (flow_from quote s)
unfolding flow_from
flow_from-WholeFrom quote [] = (refl, tt)
flow_from-WholeFrom quote (c ∷ s) =
    let ih = flow_from-WholeFrom (next_quote quote c) s in
    elim (Bool-cases (nat_eq quote 0 && nat_eq c b',')) [
      | inl h ↦ rw h (
        refl,
        WholeFrom-zero (flow_from (next_quote quote c) s)
            (comma quote c (flow_from (next_quote quote c) s) h ih),
      )
      | inr h ↦ rw h (WholeFrom-put_byte quote c (flow_from (next_quote quote c) s) h ih)
    ]

-- The parts of a flow sequence, joined by commas, are its text; and no part has a comma outside
-- quotes.
pub join_flow-split_flow : (s : Bytes) → (join_flow (split_flow s) ≡ s) × Whole (split_flow s)
unfolding split_flow
join_flow-split_flow s =
    (join_flow-flow_from 0 s, WholeFrom-zero (flow_from 0 s) (flow_from-WholeFrom 0 s))

-- A comment starts with its sign.
abbrev IsComment : Bytes → Type 0
IsComment [] = Unit
IsComment (c ∷ s) = c ≡ b'#'

strip_from_lem :
    (quote : ℕ) (blank : Bool) (s : Bytes)
    → ((rest : Bytes) × (strip_from quote blank s ++ rest ≡ s) × IsComment rest)
unfolding strip_from
strip_from_lem quote blank [] = ([], refl, tt)
strip_from_lem quote blank (c ∷ s) =
    let (rest, cut, sign) = strip_from_lem (next_quote quote c) (is_blank c) s in
    elim (Bool-cases (nat_eq quote 0 && nat_eq c b'#' && blank)) [
      | inl h ↦ (c ∷ s, rw h refl, ground arith)
      | inr h ↦ (rest, rw h (ap (λ t. c ∷ t) cut), sign)
    ]

strip_from-again :
    (quote : ℕ) (blank : Bool) (s : Bytes)
    → strip_from quote blank (strip_from quote blank s) ≡ strip_from quote blank s
unfolding strip_from
strip_from-again quote blank [] = refl
strip_from-again quote blank (c ∷ s) =
    let ih = strip_from-again (next_quote quote c) (is_blank c) s in
    elim (Bool-cases (nat_eq quote 0 && nat_eq c b'#' && blank)) [
      | inl h ↦ rw h refl
      | inr h ↦ rw h (rw h (ap (λ t. c ∷ t) ih))
    ]

-- What stripComment keeps is the start of the line up to a comment or the end, and nothing is left to
-- strip.
strip_comment_lem :
    (s : Bytes)
    → ((rest : Bytes) × (strip_comment s ++ rest ≡ s) × IsComment rest)
      × (strip_comment (strip_comment s) ≡ strip_comment s)
unfolding strip_comment
strip_comment_lem s = (strip_from_lem 0 true s, strip_from-again 0 true s)
