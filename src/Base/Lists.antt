-- ===== src/Base/Lists.antt =====
-- Python's list operations over the native numbers, and quantifiers on lists.
use Prim.Native.Nat.{ℕ, suc, ◌+◌}
use Prim.Native.String.{String}
use mathlib.Core.Path.{◌≡◌, refl}
use mathlib.Core.Bool.{Bool, true, false, not, ◌&&◌, ◌||◌}
use mathlib.Core.List.{List, [], ◌∷◌, ◌++◌}
use native.Mathlib.Omega.{arith}
use text.Mathlib.Text.{◌==◌}
use text.Mathlib.TextEquality.{eq_iff}
use mathlib.Core.Logic.{inl, inr}
use text.Mathlib.TextPositions.{eq_refl}
use teehr_cloud_core.Base.Tests.{if◌then◌else◌, Bool-cases}

module _ {ℓ} {A : Type ℓ} where
  abbrev pub length : List A → ℕ
  length [] = 0
  length (x ∷ xs) = suc (length xs)

  -- `any(p(x) for x in xs)`
  abbrev pub any : (A → Bool) → List A → Bool
  any p [] = false
  any p (x ∷ xs) = p x || any p xs

  -- `all(p(x) for x in xs)`
  abbrev pub all : (A → Bool) → List A → Bool
  all p [] = true
  all p (x ∷ xs) = p x && all p xs

  -- `[x for x in xs if p(x)]`
  abbrev pub keep : (A → Bool) → List A → List A
  keep p [] = []
  keep p (x ∷ xs) = if p x then x ∷ keep p xs else keep p xs

  pub length-append : (xs ys : List A) → length (xs ++ ys) ≡ length xs + length ys
  length-append [] ys = omega arith
  length-append (x ∷ xs) ys = omega (arith, length-append xs ys)

  pub any-append : (p : A → Bool) (xs ys : List A) → any p (xs ++ ys) ≡ (any p xs || any p ys)
  any-append p [] ys = refl
  any-append p (x ∷ xs) ys = ground (arith, any-append p xs ys)

  pub keep-all : (p : A → Bool) (xs : List A) → all p (keep p xs) ≡ true
  keep-all p [] = refl
  keep-all p (x ∷ xs) = ground (arith, keep-all p xs)

module _ {ℓ κ} {A : Type ℓ} (P : A → Type κ) where
  abbrev pub All : List A → Type κ
  All [] = Unit
  All (x ∷ xs) = P x × All xs

-- `x in xs`
abbrev pub contains : String → List String → Bool
contains x [] = false
contains x (y ∷ ys) = x == y || contains x ys

-- `set(xs) - set(ys)`, in the order of `xs`
abbrev pub difference : List String → List String → List String
difference xs ys = keep (λ x. not (contains x ys)) xs

pub contains-append :
    (x : String) (xs ys : List String) → contains x (xs ++ ys) ≡ (contains x xs || contains x ys)
contains-append x [] ys = refl
contains-append x (y ∷ xs) ys = ground (arith, contains-append x xs ys)

pub contains-keep :
    (p : String → Bool) (x : String) (xs : List String)
    → contains x (keep p xs) ≡ (contains x xs && p x)
contains-keep p x [] = refl
contains-keep p x (y ∷ xs) = ground (arith, contains-keep p x xs, eq_iff x y)

-- What `all` tests holds of every member.
pub all-contains :
    (p : String → Bool) (x : String) (xs : List String)
    → all p xs ≡ true
    → contains x xs ≡ true
    → p x ≡ true
all-contains p x [] h m = cc
all-contains p x (y ∷ xs) h m = ground (arith, all-contains p x xs, eq_iff x y)

-- What `any` finds is a member that passes the test.
pub any_elim :
    (p : String → Bool) (xs : List String)
    → any p xs ≡ true
    → (x : String) × (contains x xs ≡ true) × (p x ≡ true)
any_elim p [] h = cc
any_elim p (y ∷ xs) h = elim (Bool-cases (p y)) [
  | inl hit ↦ (y, rw eq_refl, hit)
  | inr miss ↦ let (x, m, q) = any_elim p xs (ground (arith, h, miss)) in (x, ground (arith, m), q)
]

pub any_intro :
    (p : String → Bool) (x : String) (xs : List String)
    → contains x xs ≡ true
    → p x ≡ true
    → any p xs ≡ true
any_intro p x [] m q = cc
any_intro p x (y ∷ xs) m q = ground (arith, any_intro p x xs, eq_iff x y)

pub All-of_contains {κ} :
    (P : String → Type κ) (xs : List String)
    → ((x : String) → contains x xs ≡ true → P x)
    → All P xs
All-of_contains P [] h = tt
All-of_contains P (x ∷ xs) h = (h x (rw eq_refl), All-of_contains P xs (λ y m. h y (ground arith)))
