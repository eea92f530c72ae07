-- ===== src/Prelude/Results.antt =====
-- `std::expected`: a value or an error, with `do` for the early return of the error.
use mathlib.Core.Path.{◌≡◌, refl}
use mathlib.Core.Logic.{◌⊎◌, inl, inr}

pub data Expected {ℓ} (E : Type ℓ) (A : Type ℓ) : Type ℓ where
  ok : A → Expected E A
  unexpected : E → Expected E A

infixl 5 ◌>>=◌ ◌>>◌
abbrev pub ◌>>=◌ {ℓ} : {E A B : Type ℓ} → Expected E A → (A → Expected E B) → Expected E B
ok a >>= f = f a
unexpected e >>= f = unexpected e

abbrev pub ◌>>◌ {ℓ} : {E B : Type ℓ} → Expected E (Unit {ℓ}) → Expected E B → Expected E B
m >> k = m >>= λ _. k

pub Expected-cases {ℓ} :
    {E A : Type ℓ} (r : Expected E A) → ((a : A) × (r ≡ ok a)) ⊎ ((e : E) × (r ≡ unexpected e))
Expected-cases (ok a) = inl (a, refl)
Expected-cases (unexpected e) = inr (e, refl)
