-- ===== src/Base/Errors.antt =====
-- The errors that the modelled code returns, told apart as far as the code tells them apart.
use Prim.Native.String.{String}
use mathlib.Core.Path.{◌≡◌, refl}
use mathlib.Core.Logic.{◌⊎◌, inl, inr}

-- `statusType` of internal/deploy/validations.go
pub data StatusType : Type 0 where
  missing_value invalid_value invalid_usage : StatusType

pub data Error : Type 0 where
  -- errors.go of internal/api/v1beta1
  process_not_found deployment_not_found job_exists : Error
  -- what the API server and the context return
  not_found conflict canceled : Error
  -- a `statusError` with the flag it names
  status : StatusType → String → Error
  -- errors.New, fmt.Errorf without %w
  message : String → Error
  -- fmt.Errorf with %w, errors.Wrap
  wrap : String → Error → Error
  -- a nil dereference or an index out of range, which ends the goroutine
  panic : Error

pub data Result {ℓ} (A : Type ℓ) : Type ℓ where
  err : Error → Result A
  ok : A → Result A

-- The early return of an error.
infixl 5 ◌>>=◌
abbrev pub ◌>>=◌ {ℓ κ} : {A : Type ℓ} {B : Type κ} → Result A → (A → Result B) → Result B
r >>= f = elim r [ err e ↦ err e | ok a ↦ f a ]

-- A chain that ends well: what its first call returned.
pub returned {ℓ κ} :
    {A : Type ℓ} {B : Type κ} {result : B} (f : A → Result B) (r : Result A)
    → (r >>= f) ≡ ok result
    → (value : A) × (r ≡ ok value) × (f value ≡ ok result)
returned f (err e) h = cc
returned f (ok value) h = (value, refl, h)

pub Result-cases {ℓ} :
    {A : Type ℓ} (r : Result A) → ((a : A) × (r ≡ ok a)) ⊎ ((e : Error) × (r ≡ err e))
Result-cases (err e) = inr (e, refl)
Result-cases (ok a) = inl (a, refl)
