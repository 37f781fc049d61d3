-- ===== src/Base/Keyed.antt =====
-- A slice of structs that the code searches by a name: the first match, replace or append,
-- removal of the first match.
use Prim.Native.String.{String}
use mathlib.Core.Path.{◌≡◌, refl}
use mathlib.Core.Logic.{◌≢◌}
use mathlib.Core.Bool.{Bool, true, false}
use mathlib.Core.Option.{Option, none, some}
use mathlib.Core.List.{List, [], ◌∷◌}
use native.Mathlib.Omega.{arith}
use text.Mathlib.Text.{◌==◌}
use text.Mathlib.TextEquality.{eq_iff}
use distributed_test_runner.Base.Tests.{if◌then◌else◌}
use distributed_test_runner.Base.Lists.{Elem}

-- Go's `contains`, and the lookup in a `map[string]bool` used as a set.
unfoldable pub contains : List String → String → Bool
contains [] x = false
contains (v ∷ vs) x = if v == x then true else contains vs x

pub contains→elem : (vs : List String) (x : String) → contains vs x ≡ true → Elem x vs
unfolding contains
contains→elem [] x h = absurd (cc)
contains→elem (v ∷ vs) x h = ground (arith, eq_iff v x, contains→elem vs x)

pub elem→contains : (vs : List String) (x : String) → Elem x vs → contains vs x ≡ true
unfolding contains
elem→contains [] x m = absurd m
elem→contains (v ∷ vs) x m = ground (arith, eq_iff v x, elem→contains vs x)

module _ {ℓ} {A : Type ℓ} (key : A → String) where
  unfoldable pub find_by : String → List A → Option A
  find_by k [] = none
  find_by k (x ∷ xs) = if key x == k then some x else find_by k xs

  unfoldable pub put_by : A → List A → List A
  put_by x [] = x ∷ []
  put_by x (y ∷ ys) = if key y == key x then x ∷ ys else y ∷ put_by x ys

  unfoldable pub remove_by : String → List A → List A
  remove_by k [] = []
  remove_by k (x ∷ xs) = if key x == k then xs else x ∷ remove_by k xs

  -- No two elements have one key.
  abbrev pub Unique : List A → Type ℓ
  Unique [] = Unit
  Unique (x ∷ xs) = (find_by (key x) xs ≡ none) × Unique xs

  pub find_by-put_by :
      (k : String) (x : A) (xs : List A)
      → find_by k (put_by x xs) ≡ (if key x == k then some x else find_by k xs)
  unfolding find_by put_by
  find_by-put_by k x [] = refl
  find_by-put_by k x (y ∷ ys) =
      ground
        (arith, eq_iff (key y) (key x), eq_iff (key y) k, eq_iff (key x) k, find_by-put_by k x ys)

  pub find_by-remove_by_ne :
      (k j : String) (xs : List A) → k ≢ j → find_by j (remove_by k xs) ≡ find_by j xs
  unfolding find_by remove_by
  find_by-remove_by_ne k j [] h = refl
  find_by-remove_by_ne k j (x ∷ xs) h =
      ground (arith, eq_iff (key x) k, eq_iff (key x) j, find_by-remove_by_ne k j xs h)

  pub find_by-remove_by_self :
      (k : String) (xs : List A) → Unique xs → find_by k (remove_by k xs) ≡ none
  unfolding find_by remove_by
  find_by-remove_by_self k [] u = refl
  find_by-remove_by_self k (x ∷ xs) u =
      ground (arith, eq_iff (key x) k, find_by-remove_by_self k xs u.1)

  pub find_by-key : (k : String) (x : A) (xs : List A) → find_by k xs ≡ some x → key x ≡ k
  unfolding find_by
  find_by-key k x [] h = cc
  find_by-key k x (y ∷ ys) h = ground (arith, eq_iff (key y) k, find_by-key k x ys)

  pub put_by-Unique : (x : A) (xs : List A) → Unique xs → Unique (put_by x xs)
  unfolding put_by find_by
  put_by-Unique x [] u = (refl, tt)
  put_by-Unique x (y ∷ ys) u = ground (
    arith,
    eq_iff (key y) (key x),
    eq_iff (key x) (key y),
    find_by-put_by (key y) x ys,
    put_by-Unique x ys u.1,
  )

module _ {A : Type 0} (key : A → String) where
  pub find_by-elem : (k : String) (x : A) (xs : List A) → find_by key k xs ≡ some x → Elem x xs
  unfolding find_by
  find_by-elem k x [] h = absurd (cc)
  find_by-elem k x (y ∷ ys) h = ground (arith, find_by-elem k x ys)
