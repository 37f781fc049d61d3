-- ===== src/Base/Dict.antt =====
-- Go's `map[string]V` as an association list. A key stands in it once; the order of the entries is
-- the order of insertion, and no theorem rests on it.
use Prim.Native.String.{String}
use mathlib.Core.Path.{◌≡◌, refl}
use mathlib.Core.Option.{Option, none, some}
use mathlib.Core.List.{List, [], ◌∷◌}
use native.Mathlib.Omega.{arith}
use text.Mathlib.Text.{◌==◌}
use text.Mathlib.TextEquality.{eq_iff}
use distributed_test_runner.Base.Tests.{if◌then◌else◌}

abbrev pub or_else {ℓ} : {A : Type ℓ} → Option A → Option A → Option A
or_else none o = o
or_else (some a) o = some a

module _ {ℓ} {V : Type ℓ} where
  unfoldable pub lookup : String → List (String × V) → Option V
  lookup k [] = none
  lookup k ((j, v) ∷ m) = if j == k then some v else lookup k m

  -- m[k] = v
  unfoldable pub insert : String → V → List (String × V) → List (String × V)
  insert k v [] = (k, v) ∷ []
  insert k v ((j, w) ∷ m) = if j == k then (k, v) ∷ m else (j, w) ∷ insert k v m

  -- delete(m, k)
  unfoldable pub delete : String → List (String × V) → List (String × V)
  delete k [] = []
  delete k ((j, v) ∷ m) = if j == k then delete k m else (j, v) ∷ delete k m

  -- for k, v := range over { m[k] = v }
  unfoldable pub insert_all : List (String × V) → List (String × V) → List (String × V)
  insert_all [] m = m
  insert_all ((k, v) ∷ over) m = insert_all over (insert k v m)

  abbrev pub HasUniqueKeys : List (String × V) → Type ℓ
  HasUniqueKeys [] = Unit
  HasUniqueKeys ((k, v) ∷ m) = (lookup k m ≡ none) × HasUniqueKeys m

  -- A write shows under its own key only.
  pub lookup-insert :
      (key other : String) (value : V) (entries : List (String × V))
      → lookup other (insert key value entries)
        ≡ (if key == other then some value else lookup other entries)
  unfolding insert lookup
  lookup-insert key other value [] = refl
  lookup-insert key other value ((first, held) ∷ rest) =
      let ih = lookup-insert key other value rest in
      ground (arith, ih, eq_iff first key, eq_iff first other, eq_iff key other)

  pub lookup-insert_all :
      (j : String) (over m : List (String × V))
      → HasUniqueKeys over
      → lookup j (insert_all over m) ≡ or_else (lookup j over) (lookup j m)
  unfolding lookup insert_all
  lookup-insert_all j [] m u = refl
  lookup-insert_all j ((k, v) ∷ over) m u =
      ground (arith, eq_iff k j, lookup-insert k j v m, lookup-insert_all j over (insert k v m) u.1)

  pub lookup-delete :
      (k j : String) (m : List (String × V))
      → lookup j (delete k m) ≡ (if k == j then none else lookup j m)
  unfolding lookup delete
  lookup-delete k j [] = ground arith
  lookup-delete k j ((i, v) ∷ m) =
      ground (arith, eq_iff i k, eq_iff i j, eq_iff k j, lookup-delete k j m)
