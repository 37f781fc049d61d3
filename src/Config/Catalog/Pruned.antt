-- ===== src/Config/Catalog/Pruned.antt =====
-- Lists after the removals of a catalog's edits (internal/config/catalog.go).
use mathlib.Core.Option
use distributed_test_runner.Base.{
  ◌≡◌, refl, String, Bool, true, List, [], ◌∷◌, map, select, All, arith, ◌==◌, Bool-cases, inl, inr,
}
use distributed_test_runner.Base.Keyed.{find_by, remove_by}

module _ {A : Type 0} where
  pub All-select :
      (P Q : A → Type 0) (p : A → Bool) (xs : List A)
      → ((x : A) → P x → p x ≡ true → Q x)
      → All P xs
      → All Q (select p xs)
  unfolding select
  All-select P Q p [] h a = tt
  All-select P Q p (x ∷ xs) h (a, as') = elim (Bool-cases (p x)) [
    | inl in' ↦ rw (in', select) (h x a in', All-select P Q p xs h as')
    | inr out ↦ rw (out, select) (All-select P Q p xs h as')
  ]

  pub All-map :
      {B : Type 0} (P : A → Type 0) (Q : B → Type 0) (f : A → B) (xs : List A)
      → ((x : A) → P x → Q (f x))
      → All P xs
      → All Q (map f xs)
  All-map P Q f [] h a = tt
  All-map P Q f (x ∷ xs) h (a, as') = (h x a, All-map P Q f xs h as')

  pub All-remove_by :
      (P : A → Type 0) (key : A → String) (k : String) (xs : List A)
      → All P xs
      → All P (remove_by key k xs)
  unfolding remove_by
  All-remove_by P key k [] a = tt
  All-remove_by P key k (x ∷ xs) (a, as') = elim (Bool-cases (key x == k)) [
    | inl is ↦ rw (is, remove_by) as'
    | inr isnt ↦ rw (isnt, remove_by) (a, All-remove_by P key k xs as')
  ]

  -- A change that keeps the keys keeps what is found.
  pub find_by-map :
      (key : A → String) (f : A → A) (k : String) (xs : List A)
      → ((x : A) → key (f x) ≡ key x)
      → find_by key k (map f xs) ≡ Option.map f (find_by key k xs)
  unfolding find_by
  find_by-map key f k [] h = refl
  find_by-map key f k (x ∷ xs) h = ground (arith, h x, find_by-map key f k xs h)
