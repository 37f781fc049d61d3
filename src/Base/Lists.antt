-- ===== src/Base/Lists.antt =====
-- Lists measured by native numbers, and predicates on lists by recursion, which the tactics read.
use Prim.Native.Nat.{ℕ, zero, suc, ◌+◌}
use mathlib.Core.Path.{◌≡◌, refl, ap}
use mathlib.Core.Logic.{◌⊎◌, inl, inr}
use mathlib.Core.Bool.{Bool, true}
use mathlib.Core.Option.{Option, none, some}
use mathlib.Core.List.{List, [], ◌∷◌, ◌++◌, map}
use native.Mathlib.Omega.{arith}
use distributed_test_runner.Base.Tests.{if◌then◌else◌}

module _ {ℓ} {A : Type ℓ} where
  abbrev pub length : List A → ℕ
  length [] = 0
  length (x ∷ xs) = suc (length xs)

  abbrev pub get_elem? : List A → ℕ → Option A
  get_elem? [] i = none
  get_elem? (x ∷ xs) zero = some x
  get_elem? (x ∷ xs) (suc i) = get_elem? xs i

  pub length-append : (xs ys : List A) → length (xs ++ ys) ≡ length xs + length ys
  length-append [] ys = omega arith
  length-append (x ∷ xs) ys = omega (arith, length-append xs ys)

  -- The elements that pass a test, in order.
  unfoldable pub select : (A → Bool) → List A → List A
  select p [] = []
  select p (x ∷ xs) = if p x then x ∷ select p xs else select p xs

-- An element is in the list.
abbrev pub Elem : {A : Type 0} → A → List A → Type 0
Elem a [] = ⊥
Elem a (x ∷ xs) = (x ≡ a) ⊎ Elem a xs

abbrev pub All {ℓ κ} : {A : Type ℓ} → (A → Type κ) → List A → Type κ
All P [] = Unit
All P (x ∷ xs) = P x × All P xs

pub All-elem {κ} : {A : Type 0} (P : A → Type κ) (a : A) (xs : List A) → All P xs → Elem a xs → P a
All-elem P a [] h m = absurd m
All-elem P a (x ∷ xs) h (inl e) = rw (← e) h.0
All-elem P a (x ∷ xs) h (inr m) = All-elem P a xs h.1 m

module _ {A : Type 0} (p : A → Bool) where
  pub select-elem : (a : A) (xs : List A) → Elem a (select p xs) → Elem a xs × (p a ≡ true)
  unfolding select
  select-elem a [] m = absurd m
  select-elem a (x ∷ xs) m = ground (arith, select-elem a xs)

  pub elem-select : (a : A) (xs : List A) → Elem a xs → p a ≡ true → Elem a (select p xs)
  unfolding select
  elem-select a [] m h = absurd m
  elem-select a (x ∷ xs) (inl e) h = ground arith
  elem-select a (x ∷ xs) (inr m) h = ground (arith, elem-select a xs m h)

module _ {A : Type 0} (a : A) where
  pub append-elem : (xs ys : List A) → Elem a (xs ++ ys) → Elem a xs ⊎ Elem a ys
  append-elem [] ys m = inr m
  append-elem (x ∷ xs) ys m = ground (arith, append-elem xs ys)

  pub elem-append : (xs ys : List A) → Elem a xs ⊎ Elem a ys → Elem a (xs ++ ys)
  elem-append [] ys m = ground arith
  elem-append (x ∷ xs) ys m = ground (arith, elem-append xs ys)

  pub map-elem :
      {B : Type 0} (f : B → A) (xs : List B) → Elem a (map f xs) → (b : B) × Elem b xs × (f b ≡ a)
  map-elem f [] m = absurd m
  map-elem f (x ∷ xs) (inl e) = (x, inl refl, e)
  map-elem f (x ∷ xs) (inr m) = let (b, i, e) = map-elem f xs m in (b, inr i, e)

pub elem-map : {A B : Type 0} (f : A → B) (x : A) (xs : List A) → Elem x xs → Elem (f x) (map f xs)
elem-map f x [] m = absurd m
elem-map f x (y ∷ ys) (inl e) = inl (ap f e)
elem-map f x (y ∷ ys) (inr m) = inr (elem-map f x ys m)

pub length-select-append_one {ℓ} :
    {A : Type ℓ} (p : A → Bool) (y : A) (xs : List A)
    → length (select p (xs ++ y ∷ [])) ≡ length (select p xs) + (if p y then 1 else 0)
unfolding select
length-select-append_one p y [] = ground arith
length-select-append_one p y (x ∷ xs) = ground (arith, length-select-append_one p y xs)

pub All-imp {κ μ} :
    {A : Type 0} (P : A → Type κ) (Q : A → Type μ) (xs : List A)
    → ((a : A) → P a → Q a)
    → All P xs
    → All Q xs
All-imp P Q [] f h = tt
All-imp P Q (x ∷ xs) f h = (f x h.0, All-imp P Q xs f h.1)
