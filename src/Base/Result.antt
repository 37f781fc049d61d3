-- ===== src/Base/Result.antt =====
-- Go's `(T, error)` result: a value, or an error and no value.
use mathlib.Core.Path.{◌≡◌, refl}
use mathlib.Core.Logic.{◌⊎◌, inl, inr}

pub data Result {ℓ} (E A : Type ℓ) : Type ℓ where
  ok : A → Result E A
  err : E → Result E A

infixl 5 ◌>>=◌
abbrev pub ◌>>=◌ {ℓ} : {E A B : Type ℓ} → Result E A → (A → Result E B) → Result E B
ok a >>= f = f a
err e >>= f = err e

-- The parts of a chain that ended well.
pub >>=-eq-ok {ℓ} :
    {E A B : Type ℓ} (first : Result E A) (next : A → Result E B) {result : B}
    → (first >>= next) ≡ ok result
    → (between : A) × (first ≡ ok between) × (next between ≡ ok result)
>>=-eq-ok (ok between) next well = (between, refl, well)
>>=-eq-ok (err why) next well = cc

-- The success of a result decides which value it holds.
pub ok-injective {ℓ} : {E A : Type ℓ} {a b : A} → ◌≡◌ {A = Result E A} (ok a) (ok b) → a ≡ b
ok-injective h = cc

pub Result-cases {ℓ} :
    {E A : Type ℓ} (x : Result E A) → ((e : E) × (x ≡ err e)) ⊎ ((a : A) × (x ≡ ok a))
Result-cases (ok a) = inr (a, refl)
Result-cases (err e) = inl (e, refl)
