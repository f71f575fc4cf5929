-- ===== src/Base/Results.antt =====
-- Exceptions as values. A handler ends in a value, in an HTTP error, or in an exception that the
-- framework turns into status 500.
use Prim.Native.Nat.{ℕ}
use Prim.Native.String.{String}
use mathlib.Core.Path.{◌≡◌, refl, ap}
use mathlib.Core.Logic.{◌⊎◌, inl, inr}
use mathlib.Core.Bool.{Bool, true, false}
use mathlib.Core.Option.{Option, none, some}

pub data Result {ℓ} (E : Type 0) (A : Type ℓ) : Type ℓ where
  ok : A → Result E A
  err : E → Result E A

module _ {E : Type 0} where
  -- `if test: raise e`
  abbrev pub raise_if : Bool → E → Result E (Unit {0})
  raise_if true e = err e
  raise_if false e = ok tt

  -- the value, or the exception where there is none
  abbrev pub or_raise {ℓ} : {A : Type ℓ} → Option A → E → Result E A
  or_raise none e = err e
  or_raise (some a) e = ok a

  infixl 5 ◌>>=◌
  -- An exception ends the block.
  abbrev pub ◌>>=◌ {ℓ κ} :
      {Before : Type ℓ} {After : Type κ}
      → Result E Before
      → (Before → Result E After)
      → Result E After
  err raised >>= rest = err raised
  ok value >>= rest = rest value

  infixl 5 ◌>>◌
  abbrev pub ◌>>◌ {ℓ} : {After : Type ℓ} → Result E (Unit {0}) → Result E After → Result E After
  test >> rest = test >>= λ passed. rest

-- `HTTPException(status_code, detail)`
pub record HttpError : Type 0 where
  pub status : ℕ
  pub detail : String

abbrev pub http : ℕ → String → HttpError
http s d = record { status = s; detail = d }

pub Result-cases {ℓ} :
    {E : Type 0} {A : Type ℓ} (r : Result E A) → ((a : A) × (r ≡ ok a)) ⊎ ((e : E) × (r ≡ err e))
Result-cases (ok a) = inl (a, refl)
Result-cases (err e) = inr (e, refl)

-- A block that ends well has passed its first step with some value.
pub >>=-passed {ℓ κ} :
    {E : Type 0} {A : Type ℓ} {B : Type κ} (step : Result E A) (rest : A → Result E B) {result : B}
    → (step >>= rest) ≡ ok result
    → (value : A) × (step ≡ ok value) × (rest value ≡ ok result)
>>=-passed (err raised) rest ended = cc
>>=-passed (ok value) rest ended = (value, refl, ended)

-- The same, for a proof that names what each step has returned.
pub >>=-elim {ℓ κ μ} :
    {E : Type 0} {A : Type ℓ} {B : Type κ} {P : Type μ} (step : Result E A) (rest : A → Result E B)
    {result : B}
    → (step >>= rest) ≡ ok result
    → ((value : A) → step ≡ ok value → rest value ≡ ok result → P)
    → P
>>=-elim (err raised) rest ended conclude = cc
>>=-elim (ok value) rest ended conclude = conclude value refl ended

pub ok-injective {ℓ} :
    {E : Type 0} {A : Type ℓ} (a b : A) → ◌≡◌ {A = Result E A} (ok a) (ok b) → a ≡ b
ok-injective a b e = cc

-- A value that is asked for is there.
pub or_raise-some {ℓ} :
    {E : Type 0} {A : Type ℓ} (found : Option A) (e : E) (a : A)
    → or_raise found e ≡ ok a
    → found ≡ some a
or_raise-some none e a h = cc
or_raise-some (some b) e a h = ap some (ok-injective _ _ h)
