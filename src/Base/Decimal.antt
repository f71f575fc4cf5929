-- ===== src/Base/Decimal.antt =====
-- `str(n)` of a natural number. The digits fall with n, so n + 1 rounds are enough.
use teehr_cloud_core.Base.{
  ℕ, zero, suc, ◌+◌, ◌/◌, ◌%◌, ◌≡◌, refl, false, ◌&&◌, String, ◌<>◌, arith, ltb, leb, if◌then◌else◌,
  has_char, has_char-append, Bool-cases, inl, inr, Char, ◌==◌, eq_iff,
}
use text.Mathlib.TextLemmas.{nil-append, cons-append}

unfoldable pub digit : ℕ → String
digit zero = "0"
digit (suc zero) = "1"
digit (suc (suc zero)) = "2"
digit (suc (suc (suc zero))) = "3"
digit (suc (suc (suc (suc zero)))) = "4"
digit (suc (suc (suc (suc (suc zero))))) = "5"
digit (suc (suc (suc (suc (suc (suc zero)))))) = "6"
digit (suc (suc (suc (suc (suc (suc (suc zero))))))) = "7"
digit (suc (suc (suc (suc (suc (suc (suc (suc zero)))))))) = "8"
digit _ = "9"

unfoldable pub digits : ℕ → ℕ → String
digits zero n = ""
digits (suc fuel) n =
    let rest = digits fuel (n / 10) in if ltb n 10 then digit n else rest <> digit (n % 10)

unfoldable pub decimal : ℕ → String
unfolding digits digit
decimal n = digits (n + 1) n

pub decimal_of_zero : decimal 0 ≡ "0"
unfolding decimal
decimal_of_zero = refl

pub decimal_of_one : decimal 1 ≡ "1"
unfolding decimal
decimal_of_one = refl

digit-has_char : (k n : ℕ) → leb b'0' k && leb k b'9' ≡ false → has_char k (digit n) ≡ false
unfolding digit has_char
digit-has_char k zero h = ground arith
digit-has_char k (suc zero) h = ground arith
digit-has_char k (suc (suc zero)) h = ground arith
digit-has_char k (suc (suc (suc zero))) h = ground arith
digit-has_char k (suc (suc (suc (suc zero)))) h = ground arith
digit-has_char k (suc (suc (suc (suc (suc zero))))) h = ground arith
digit-has_char k (suc (suc (suc (suc (suc (suc zero)))))) h = ground arith
digit-has_char k (suc (suc (suc (suc (suc (suc (suc zero))))))) h = ground arith
digit-has_char k (suc (suc (suc (suc (suc (suc (suc (suc zero)))))))) h = ground arith
digit-has_char k _ h = ground arith

digits-has_char :
    (k fuel n : ℕ) → leb b'0' k && leb k b'9' ≡ false → has_char k (digits fuel n) ≡ false
unfolding digits has_char
digits-has_char k zero n h = refl
digits-has_char k (suc fuel) n h = elim (Bool-cases (ltb n 10)) [
  | inl small ↦ rw small (digit-has_char k n h)
  | inr large ↦
      rw (large, has_char-append k (digits fuel (n / 10)) (digit (n % 10)))
        (ground (arith, digits-has_char k fuel (n / 10) h, digit-has_char k (n % 10) h))
]

-- A number holds no other character than digits.
pub decimal-has_char : (k n : ℕ) → leb b'0' k && leb k b'9' ≡ false → has_char k (decimal n) ≡ false
unfolding decimal
decimal-has_char k n h = digits-has_char k (n + 1) n h

cons_filled : (c : Char) (s : String) → (String.◌∷◌ c s == "") ≡ false
cons_filled c s = elim (Bool-cases (String.◌∷◌ c s == "")) [
  | inl e ↦ cc ((eq_iff (String.◌∷◌ c s) "").0 e)
  | inr e ↦ e
]

append_filled : (s t : String) → (t == "") ≡ false → (s <> t == "") ≡ false
append_filled String.[] t e = rw nil-append e
append_filled (String.◌∷◌ c s) t e = rw cons-append (cons_filled c _)

digit_filled : (n : ℕ) → (digit n == "") ≡ false
unfolding digit
digit_filled zero = refl
digit_filled (suc zero) = refl
digit_filled (suc (suc zero)) = refl
digit_filled (suc (suc (suc zero))) = refl
digit_filled (suc (suc (suc (suc zero)))) = refl
digit_filled (suc (suc (suc (suc (suc zero))))) = refl
digit_filled (suc (suc (suc (suc (suc (suc zero)))))) = refl
digit_filled (suc (suc (suc (suc (suc (suc (suc zero))))))) = refl
digit_filled (suc (suc (suc (suc (suc (suc (suc (suc zero)))))))) = refl
digit_filled _ = refl

digits_filled : (fuel n : ℕ) → (digits (suc fuel) n == "") ≡ false
unfolding digits
digits_filled fuel n = elim (Bool-cases (ltb n 10)) [
  | inl small ↦ rw small (digit_filled n)
  | inr large ↦ rw large (append_filled (digits fuel (n / 10)) _ (digit_filled (n % 10)))
]

-- A number is not written as the empty text.
pub decimal_filled : (n : ℕ) → (decimal n == "") ≡ false
unfolding decimal
decimal_filled n = let next : n + 1 ≡ suc n = omega arith in rw next (digits_filled n n)
