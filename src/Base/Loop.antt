-- ===== src/Base/Loop.antt =====
-- A `for range` loop over a slice, as a left fold over its state, and its invariant rule.
use mathlib.Core.Logic.{◌⊎◌, inl, inr}
use mathlib.Core.List.{List, [], ◌∷◌, foldl}
use native.Mathlib.Omega.{arith}
use distributed_test_runner.Base.Lists.{Elem}

-- The elements passed so far, the last one first, and then the rest.
pub shunt {ℓ} : {A : Type ℓ} → List A → List A → List A
shunt seen [] = seen
shunt seen (x ∷ xs) = shunt (x ∷ seen) xs

pub foldl_inv {ℓ κ μ} :
    {A : Type ℓ} {S : Type κ} (P : List A → S → Type μ) (step : S → A → S)
    → ((seen : List A) (s : S) (x : A) → P seen s → P (x ∷ seen) (step s x))
    → (seen : List A) (s : S) (xs : List A) → P seen s
    → P (shunt seen xs) (foldl step s xs)
unfolding shunt
foldl_inv P step keep seen s [] h = h
foldl_inv P step keep seen s (x ∷ xs) h =
    foldl_inv P step keep (x ∷ seen) (step s x) xs (keep seen s x h)

-- A plain invariant, where the elements passed do not matter.
pub foldl_keeps {ℓ κ μ} :
    {A : Type ℓ} {S : Type κ} (P : S → Type μ) (step : S → A → S)
    → ((s : S) (x : A) → P s → P (step s x))
    → (s : S) (xs : List A) → P s
    → P (foldl step s xs)
foldl_keeps P step keep s [] h = h
foldl_keeps P step keep s (x ∷ xs) h = foldl_keeps P step keep (step s x) xs (keep s x h)

module _ {A : Type 0} (a : A) where
  shunt-elem_iff :
      (seen xs : List A)
      → (Elem a (shunt seen xs) → Elem a seen ⊎ Elem a xs)
        × (Elem a seen ⊎ Elem a xs → Elem a (shunt seen xs))
  unfolding shunt
  shunt-elem_iff seen [] = (λ m. inl m, λ m. ground arith)
  shunt-elem_iff seen (x ∷ xs) =
      let (from, to) = shunt-elem_iff (x ∷ seen) xs in
      (λ m. ground (arith, from m), λ m. to (ground arith))

  -- After the whole loop the elements passed are those of the list.
  pub shunt-elem : (xs : List A) → Elem a (shunt [] xs) → Elem a xs
  shunt-elem xs m = ground (arith, (shunt-elem_iff [] xs).0 m)

  pub elem-shunt : (xs : List A) → Elem a xs → Elem a (shunt [] xs)
  elem-shunt xs m = (shunt-elem_iff [] xs).1 (inr m)
