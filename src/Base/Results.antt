-- ===== src/Base/Results.antt =====
-- `Result<T, E>` with its bind, which is the `?` of the source.
use mathlib.Core.Logic.{◌⊎◌, inl, inr}
use mathlib.Core.Path.{◌≡◌, refl}

pub data Result {ℓ κ} (A : Type ℓ) (E : Type κ) : Type (ℓ ⊔ κ) where
  err : E → Result A E
  ok : A → Result A E

pub Result-cases {ℓ κ} :
    {A : Type ℓ} {E : Type κ} (r : Result A E) → ((a : A) × (r ≡ ok a)) ⊎ ((e : E) × (r ≡ err e))
Result-cases (err e) = inr (e, refl)
Result-cases (ok a) = inl (a, refl)

module _ {ℓ κ μ} {A : Type ℓ} {E : Type κ} where
  -- `map_err`, which is also the conversion that `?` makes by `#[from]`.
  abbrev pub map_err : {F : Type μ} → (E → F) → Result A E → Result A F
  map_err convert (err e) = err (convert e)
  map_err convert (ok a) = ok a

  infixl 5 ◌>>=◌
  abbrev pub ◌>>=◌ : {B : Type μ} → Result A E → (A → Result B E) → Result B E
  err e >>= next = err e
  ok a >>= next = next a

  pub >>=-eq-ok :
      {B : Type μ} (m : Result A E) (next : A → Result B E) {b : B}
      → (m >>= next) ≡ ok b
      → (a : A) × (m ≡ ok a) × (next a ≡ ok b)
  >>=-eq-ok (err e) next h = cc
  >>=-eq-ok (ok a) next h = (a, refl, h)

  pub map_err-ok :
      {F : Type μ} (convert : E → F) (r : Result A E) {a : A} → map_err convert r ≡ ok a → r ≡ ok a
  map_err-ok convert (err e) h = absurd (cc)
  map_err-ok convert (ok b) h = cc
