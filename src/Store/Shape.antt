-- ===== src/Store/Shape.antt =====
-- The store's shape (internal/store/store.go): each index leads to an object of that name.
use distributed_test_runner.Base.{
  ℕ, zero, suc, ◌≡◌, refl, String, some, List, [], ◌∷◌, if◌then◌else◌, get_elem?, nat_eq, arith,
  Elem, Bool-cases, inl, inr,
}
use distributed_test_runner.Base.Dict.{lookup}
use distributed_test_runner.Model.Entities.{Run}
use distributed_test_runner.Store.{Rec, Store, write}

-- There is an object at the address, and it has the property.
abbrev pub Holds : List Run → ℕ → (Run → Type 0) → Type 0
Holds heap a P = (r : Run) × (get_elem? heap a ≡ some r) × P r

pub record IsSound (st : Store) : Type 0 where
  pub run_found :
      (id : String) (a : ℕ) → lookup id st.by_run ≡ some a → Holds st.heap a (λ r. r.id ≡ id)
  pub token_found :
      (token : String) (a : ℕ)
      → lookup token st.by_token ≡ some a
      → Holds st.heap a (λ r. r.token ≡ token)
  pub header_found :
      (id : String) (rec : Rec) → lookup id st.by_reg ≡ some rec → rec.regression.id ≡ id
  pub member_found :
      (id : String) (rec : Rec) (a : ℕ)
      → lookup id st.by_reg ≡ some rec
      → Elem a rec.runs
      → Holds st.heap a (λ r. (r.regression_id ≡ id) × (lookup r.id st.by_run ≡ some a))

pub get_elem?-write :
    (heap : List Run) (a b : ℕ) (r : Run) {x : Run}
    → get_elem? heap a ≡ some x
    → get_elem? (write heap a r) b ≡ (if nat_eq a b then some r else get_elem? heap b)
unfolding write
get_elem?-write [] a b r e = absurd (cc)
get_elem?-write (y ∷ ys) zero zero r e = refl
get_elem?-write (y ∷ ys) zero (suc b) r e = ground arith
get_elem?-write (y ∷ ys) (suc a) zero r e = ground arith
get_elem?-write (y ∷ ys) (suc a) (suc b) r {x} e =
    ground (arith, get_elem?-write ys a b r {x = x} e)

-- An update that leaves a run its id, its regression and its token.
pub record KeepsNames (f : Run → Run) : Type 0 where
  pub id : (r : Run) → (f r).id ≡ r.id
  pub regression_id : (r : Run) → (f r).regression_id ≡ r.regression_id
  pub token : (r : Run) → (f r).token ≡ r.token

-- What holds of the objects before a write that keeps it holds after.
pub Holds-write :
    (P : Run → Type 0) (heap : List Run) (a b : ℕ) (x r : Run)
    → get_elem? heap a ≡ some x
    → (P x → P r)
    → Holds heap b P
    → Holds (write heap a r) b P
Holds-write P heap a b x r e keep (y, ey, py) = elim (Bool-cases (nat_eq a b)) [
  | inl same ↦
      let is_x : y ≡ x = ground arith in
      (r, rw (get_elem?-write heap a b r e, same) refl, keep (rw is_x at py))
  | inr other ↦ (y, rw (get_elem?-write heap a b r e, other) ey, py)
]
