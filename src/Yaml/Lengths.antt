-- ===== src/Yaml/Lengths.antt =====
-- How long the texts are that the functions of internal/yamlite/yamlite.go cut out of others.
use distributed_test_runner.Base.{
  ℕ, suc, ◌≤◌, Bool, true, false, ◌≡◌, refl, List, [], ◌∷◌, if◌then◌else◌, arith, length, All,
  All-imp,
}
use distributed_test_runner.Yaml.Bytes.{
  Bytes, is_space, trim, trim_left, trim_right, init, put_byte,
}
use distributed_test_runner.Yaml.Quoted.{next_quote, flow_from, split_flow}

length-trim_left : (drop : ℕ → Bool) (s : Bytes) → length (trim_left drop s) ≤ length s
unfolding trim_left
length-trim_left drop [] = omega arith
length-trim_left drop (c ∷ s) = ground (arith, length-trim_left drop s)

length-trim_right : (drop : ℕ → Bool) (s : Bytes) → length (trim_right drop s) ≤ length s
unfolding trim_right
length-trim_right drop [] = omega arith
length-trim_right drop (c ∷ s) = ground (arith, length-trim_right drop s)

pub length-trim : (s : Bytes) → length (trim s) ≤ length s
unfolding trim
length-trim s =
    omega (arith, length-trim_left is_space s, length-trim_right is_space (trim_left is_space s))

pub length-init : (c : ℕ) (s : Bytes) → length (init c s) ≡ length s
unfolding init
length-init c [] = refl
length-init c (d ∷ s) = ground (arith, length-init d s)

abbrev pub Short : ℕ → List Bytes → Type 0
Short n parts = All (λ (part : Bytes). length part ≤ n) parts

Short-suc : (n : ℕ) (parts : List Bytes) → Short n parts → Short (suc n) parts
Short-suc n parts h =
    All-imp (λ (part : Bytes). length part ≤ n) (λ (part : Bytes). length part ≤ suc n) parts
      (λ part p. omega (arith, p)) h

Short-put_byte : (n c : ℕ) (parts : List Bytes) → Short n parts → Short (suc n) (put_byte c parts)
Short-put_byte n c [] h = ground arith
Short-put_byte n c (part ∷ parts) h = (omega (arith, h.0), Short-suc n parts h.1)

Short-if :
    (n : ℕ) (b : Bool) (xs ys : List Bytes)
    → Short n xs
    → Short n ys
    → Short n (if b then xs else ys)
Short-if n true xs ys h k = h
Short-if n false xs ys h k = k

flow_from-length : (quote : ℕ) (s : Bytes) → Short (length s) (flow_from quote s)
unfolding flow_from
flow_from-length quote [] = ground arith
flow_from-length quote (c ∷ s) =
    let ih = flow_from-length (next_quote quote c) s in
    let parts = flow_from (next_quote quote c) s in
    Short-if (suc (length s)) _ ([] ∷ parts) (put_byte c parts)
      (omega arith, Short-suc (length s) parts ih) (Short-put_byte (length s) c parts ih)

pub split_flow-length : (s : Bytes) → Short (length s) (split_flow s)
unfolding split_flow
split_flow-length s = flow_from-length 0 s
