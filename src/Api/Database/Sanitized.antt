-- ===== src/Api/Database/Sanitized.antt =====
-- What a text that passes the sanitiser of api/src/database.py can hold.
use teehr_cloud_core.Base.{
  ℕ, code, String, ◌≡◌, refl, ap, ◌≢◌, inl, inr, true, false, ◌&&◌, Option, none, some, arith,
  eq_iff, eqb, eqb_iff, Bool-cases, ◌==◌, ◌<>◌, has_char, all_chars, ok, ok-injective,
}
use text.Mathlib.TextLemmas.{cons-append}
use mathlib.Core.Path.{subst}
use teehr_cloud_core.Api.Database.{
  is_safe_char, newline, matches_rest, matches_safe, sanitize_string,
}

-- A character that is neither allowed nor a newline.
abbrev pub IsForbidden : ℕ → Type 0
IsForbidden k = (is_safe_char k ≡ false) × (eqb k newline ≡ false)

differs : (k c : ℕ) → is_safe_char k ≡ false → is_safe_char c ≡ true → eqb c k ≡ false
differs k c h s = elim (Bool-cases (eqb c k)) [
  | inl e ↦ cc (subst (λ x. is_safe_char x ≡ true) ((eqb_iff c k).0 e) s)
  | inr e ↦ e
]

matches_rest-has_char :
    (k : ℕ) (s : String) → IsForbidden k → matches_rest s ≡ true → has_char k s ≡ false
unfolding matches_rest has_char
matches_rest-has_char k String.[] f h = refl
matches_rest-has_char k (String.◌∷◌ c s) (f, g) h = elim (Bool-cases (is_safe_char (code c))) [
  | inl e ↦
      let rest = matches_rest-has_char k s (f, g) (rw (matches_rest, e) at h) in
      rw (has_char, differs k (code c) f e) rest
  | inr e ↦
      let ending : (eqb (code c) newline && s == "") ≡ true = rw (matches_rest, e) at h in
      let empty : s ≡ "" = (eq_iff s "").0 (ground (arith, ending)) in
      let apart : eqb (code c) k ≡ false =
        ground
          (arith, ending, g, eqb_iff (code c) newline, eqb_iff (code c) k, eqb_iff k newline) in
      rw (has_char, apart, empty) refl
]

-- What the sanitiser returns is the text itself, which has no character but those allowed and a newline.
pub sanitize_string-has_char :
    (value : Option String) (sanitized : String) (k : ℕ)
    → sanitize_string value ≡ ok sanitized
    → IsForbidden k
    → (value ≡ some sanitized) × (has_char k sanitized ≡ false)
unfolding sanitize_string matches_safe has_char
sanitize_string-has_char none sanitized k e f = cc
sanitize_string-has_char (some value) sanitized k e (f, g) =
    elim (Bool-cases (matches_safe value)) [
      | inr t ↦ cc (rw (sanitize_string, t) at e)
      | inl t ↦
          let same : value ≡ sanitized = ok-injective _ _ (rw (sanitize_string, t) at e) in
          (ap some same, rw (← same) (whole value t))
    ]
  where
    whole : (s : String) → matches_safe s ≡ true → has_char k s ≡ false
    whole String.[] t = refl
    whole (String.◌∷◌ c s) t =
        let safe : is_safe_char (code c) ≡ true = ground (arith, t) in
        let rest : matches_rest s ≡ true = ground (arith, t) in
        rw (has_char, differs k (code c) f safe) (matches_rest-has_char k s (f, g) rest)

matches_rest-newline :
    (s : String) → all_chars is_safe_char s ≡ true → matches_rest (s <> "\n") ≡ true
unfolding matches_rest all_chars
matches_rest-newline String.[] h = refl
matches_rest-newline (String.◌∷◌ c s) h =
    let safe : is_safe_char (code c) ≡ true = ground (arith, h) in
    let rest : all_chars is_safe_char s ≡ true = ground (arith, h) in
    rw (cons-append c s "\n", matches_rest, safe) (matches_rest-newline s rest)

-- The sanitiser also accepts an allowed text that a newline ends, and returns it with the newline.
pub sanitize_string-newline :
    (s : String)
    → s ≢ ""
    → all_chars is_safe_char s ≡ true
    → sanitize_string (some (s <> "\n")) ≡ ok (s <> "\n")
unfolding sanitize_string matches_safe all_chars
sanitize_string-newline String.[] nonempty h = absurd (nonempty refl)
sanitize_string-newline (String.◌∷◌ c s) nonempty h =
    let safe : is_safe_char (code c) ≡ true = ground (arith, h) in
    let rest : all_chars is_safe_char s ≡ true = ground (arith, h) in
    rw (cons-append c s "\n", sanitize_string, matches_safe, safe, matches_rest-newline s rest) refl
