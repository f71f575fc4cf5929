-- ===== src/Xpublish/Credentials/Names.antt =====
-- The role session name of xpublish-api/src/credentials.py, which STS restricts.
use Prim.Native.String.{count}
use text.Mathlib.TextLemmas.{length-nil, length-cons, length-append}
use teehr_cloud_core.Base.{
  ℕ, zero, suc, ◌+◌, ◌≤◌, ◌<◌, code, String, ◌≡◌, refl, inl, inr, Bool, true, arith, ltb,
  Bool-cases, ◌<>◌, all_chars, all_chars-append,
}
use teehr_cloud_core.Xpublish.Identity.{AuthIdentity}
use teehr_cloud_core.Xpublish.Credentials.{
  take_chars, is_session_char, replace_chars, login_name, session_name,
}

count-take_chars : (n : ℕ) (s : String) → count (take_chars n s) ≤ n
unfolding take_chars
count-take_chars zero s = omega (arith, length-nil)
count-take_chars (suc n) String.[] = omega (arith, length-nil)
count-take_chars (suc n) (String.◌∷◌ c s) =
    omega (arith, length-cons c (take_chars n s), count-take_chars n s)

all_chars-take_chars :
    (p : ℕ → Bool) (n : ℕ) (s : String) → all_chars p s ≡ true → all_chars p (take_chars n s) ≡ true
unfolding all_chars take_chars
all_chars-take_chars p zero s h = refl
all_chars-take_chars p (suc n) String.[] h = refl
all_chars-take_chars p (suc n) (String.◌∷◌ c s) h =
    ground (arith, h, all_chars-take_chars p n s (ground (arith, h)))

module _ (is_word : ℕ → Bool) where
  replace_chars-allowed :
      (s : String) → all_chars (is_session_char is_word) (replace_chars is_word s) ≡ true
  unfolding all_chars replace_chars
  replace_chars-allowed String.[] = refl
  replace_chars-allowed (String.◌∷◌ c s) = elim (Bool-cases (is_session_char is_word (code c))) [
    | inl e ↦ rw (replace_chars, e) (ground (arith, e, replace_chars-allowed s))
    | inr e ↦
        rw
          (
            replace_chars,
            e,
            all_chars-append (is_session_char is_word) "-" (replace_chars is_word s),
          )
          (ground (arith, replace_chars-allowed s))
  ]

  -- Where the letters of "user" are word characters, the session name of any user has between 2 and 64
  -- characters, all of them allowed by STS.
  pub session_name-allowed :
      (identity : AuthIdentity)
      → all_chars is_word "user" ≡ true
      → (2 ≤ count (session_name is_word identity))
        × (count (session_name is_word identity) ≤ 64)
        × (all_chars (is_session_char is_word) (session_name is_word identity) ≡ true)
  unfolding session_name all_chars
  session_name-allowed identity word =
      let name = take_chars 64 (replace_chars is_word (login_name is_word identity)) in
      let bound : count name ≤ 64 =
        count-take_chars 64 (replace_chars is_word (login_name is_word identity)) in
      let allowed : all_chars (is_session_char is_word) name ≡ true =
        all_chars-take_chars (is_session_char is_word) 64 _
          (replace_chars-allowed (login_name is_word identity)) in
      elim (Bool-cases (ltb (count name) 2)) [
        | inl e ↦
            let total : count ("user-" <> name) ≡ 5 + count name = length-append "user-" name in
            rw e (
              omega arith,
              (let short : count name < 2 = ground arith in omega arith),
              rw (all_chars-append (is_session_char is_word) "user-" name)
                  (ground (arith, allowed, word)),
            )
        | inr e ↦ let long : 2 ≤ count name = ground arith in rw e (long, bound, allowed)
      ]
