-- ===== src/Base/Sort.antt =====
-- Go's sort.Slice and sort.SliceStable, as a stable insertion sort by a Boolean `less`.
use mathlib.Core.Path.{◌≡◌}
use mathlib.Core.Logic.{◌⊎◌, inl, inr}
use mathlib.Core.Bool.{Bool, true, false}
use mathlib.Core.List.{List, [], ◌∷◌}
use native.Mathlib.Omega.{arith}
use distributed_test_runner.Base.Tests.{if◌then◌else◌, Bool-cases}
use distributed_test_runner.Base.Lists.{Elem, All, All-imp}

module _ {A : Type 0} (less : A → A → Bool) where
  -- Past what is not greater, so that equals keep their order.
  insert_sorted : A → List A → List A
  insert_sorted x [] = x ∷ []
  insert_sorted x (y ∷ ys) = if less x y then x ∷ y ∷ ys else y ∷ insert_sorted x ys

  -- The elements of the list are inserted from the front into what is sorted.
  sort_onto : List A → List A → List A
  sort_onto sorted [] = sorted
  sort_onto sorted (x ∷ xs) = sort_onto (insert_sorted x sorted) xs

  unfoldable pub sort : List A → List A
  unfolding insert_sorted sort_onto
  sort xs = sort_onto [] xs

  insert_sorted-elem : (a x : A) (ys : List A) → Elem a (insert_sorted x ys) → (x ≡ a) ⊎ Elem a ys
  unfolding insert_sorted
  insert_sorted-elem a x [] m = m
  insert_sorted-elem a x (y ∷ ys) m = ground (arith, insert_sorted-elem a x ys)

  elem-insert_sorted : (a x : A) (ys : List A) → (x ≡ a) ⊎ Elem a ys → Elem a (insert_sorted x ys)
  unfolding insert_sorted
  elem-insert_sorted a x [] m = m
  elem-insert_sorted a x (y ∷ ys) m = ground (arith, elem-insert_sorted a x ys)

  sort_onto-elem :
      (a : A) (sorted xs : List A) → Elem a (sort_onto sorted xs) → Elem a sorted ⊎ Elem a xs
  unfolding sort_onto
  sort_onto-elem a sorted [] m = inl m
  sort_onto-elem a sorted (x ∷ xs) m =
      ground (arith, sort_onto-elem a (insert_sorted x sorted) xs m, insert_sorted-elem a x sorted)

  elem-sort_onto :
      (a : A) (sorted xs : List A) → Elem a sorted ⊎ Elem a xs → Elem a (sort_onto sorted xs)
  unfolding sort_onto
  elem-sort_onto a sorted [] m = ground arith
  elem-sort_onto a sorted (x ∷ xs) m =
      ground (arith, elem-sort_onto a (insert_sorted x sorted) xs, elem-insert_sorted a x sorted)

  pub sort-elem : (a : A) (xs : List A) → Elem a (sort xs) → Elem a xs
  unfolding sort
  sort-elem a xs m = ground (arith, sort_onto-elem a [] xs m)

  pub elem-sort : (a : A) (xs : List A) → Elem a xs → Elem a (sort xs)
  unfolding sort
  elem-sort a xs m = elem-sort_onto a [] xs (inr m)

-- No element comes after one that it is less than.
module _ {A : Type 0} (less : A → A → Bool) where
  abbrev pub NotLess : A → A → Type 0
  NotLess x y = less y x ≡ false

  abbrev pub IsOrdered : List A → Type 0
  IsOrdered [] = Unit
  IsOrdered (x ∷ xs) = All (NotLess x) xs × IsOrdered xs

  -- What the sort needs of the order: it is asymmetric, and "not less" is transitive.
  pub record IsWeakOrder : Type 0 where
    pub asymmetric : (x y : A) → less x y ≡ true → less y x ≡ false
    pub not_less_trans : (x y z : A) → less y x ≡ false → less z y ≡ false → less z x ≡ false

  module _ (w : IsWeakOrder) where
    insert_sorted-All :
        (P : A → Type 0) (x : A) (ys : List A) → P x → All P ys → All P (insert_sorted less x ys)
    unfolding insert_sorted
    insert_sorted-All P x [] p h = (p, tt)
    insert_sorted-All P x (y ∷ ys) p h = ground (arith, insert_sorted-All P x ys p h.1)

    insert_sorted-IsOrdered :
        (x : A) (ys : List A) → IsOrdered ys → IsOrdered (insert_sorted less x ys)
    unfolding insert_sorted
    insert_sorted-IsOrdered x [] h = (tt, tt)
    insert_sorted-IsOrdered x (y ∷ ys) h = elim (Bool-cases (less x y)) [
      | inl e ↦ rw e (
        (
          w.asymmetric x y e,
          All-imp (NotLess y) (NotLess x) ys (λ z. w.not_less_trans x y z (w.asymmetric x y e)) h.0,
        ),
        h,
      )
      | inr e ↦ rw e (insert_sorted-All (NotLess y) x ys e h.0, insert_sorted-IsOrdered x ys h.1)
    ]

    sort_onto-IsOrdered :
        (sorted xs : List A) → IsOrdered sorted → IsOrdered (sort_onto less sorted xs)
    unfolding sort_onto
    sort_onto-IsOrdered sorted [] h = h
    sort_onto-IsOrdered sorted (x ∷ xs) h =
        sort_onto-IsOrdered (insert_sorted less x sorted) xs (insert_sorted-IsOrdered x sorted h)

    pub sort-IsOrdered : (xs : List A) → IsOrdered (sort less xs)
    unfolding sort
    sort-IsOrdered xs = sort_onto-IsOrdered [] xs tt
