-- ===== src/Api/Delegation/Codec.antt =====
-- Delegated sessions of api/src/broker.py, tests: a JWT that holds its claims as they are encoded.
use teehr_cloud_core.Base.{
  ℕ, zero, suc, ◌≤◌, ◌<◌, Char, code, String, ◌≡◌, refl, inl, inr, Bool, true, false, Option, none,
  some, arith, eq_iff, ltb, eqb, if◌then◌else◌, Bool-cases, ◌==◌,
}
use teehr_cloud_core.Api.Delegation.{Claims, SessionJwt}

-- Each part of a token is written after its marks, "1" before a further character and "0" at its end.
enc_text : String → String → String
enc_text String.[] rest = String.◌∷◌ "0" rest
enc_text (String.◌∷◌ c s) rest = String.◌∷◌ "1" (String.◌∷◌ c (enc_text s rest))

enc_nat : ℕ → String → String
enc_nat zero rest = String.◌∷◌ "0" rest
enc_nat (suc n) rest = String.◌∷◌ "1" (enc_nat n rest)

mark_ends : Char → Bool
mark_ends c = eqb (code c) b'0'

dec_text : String → Option (String × String)
dec_text String.[] = none
dec_text (String.◌∷◌ m String.[]) = if mark_ends m then some ("", "") else none
dec_text (String.◌∷◌ m (String.◌∷◌ c s)) =
    let rest = dec_text s in
    if mark_ends m
    then some ("", String.◌∷◌ c s)
    else elim rest [ none ↦ none | some (t, r) ↦ some (String.◌∷◌ c t, r) ]

dec_nat : String → Option (ℕ × String)
dec_nat String.[] = none
dec_nat (String.◌∷◌ m s) =
    let rest = dec_nat s in
    if mark_ends m then some (0, s) else elim rest [ none ↦ none | some (n, r) ↦ some (suc n, r) ]

dec_text-enc_text : (s rest : String) → dec_text (enc_text s rest) ≡ some (s, rest)
unfolding dec_text enc_text mark_ends
dec_text-enc_text String.[] String.[] = refl
dec_text-enc_text String.[] (String.◌∷◌ c r) = refl
dec_text-enc_text (String.◌∷◌ c s) rest = rw (dec_text-enc_text s rest) refl

dec_nat-enc_nat : (n : ℕ) (rest : String) → dec_nat (enc_nat n rest) ≡ some (n, rest)
unfolding dec_nat enc_nat mark_ends
dec_nat-enc_nat zero rest = refl
dec_nat-enc_nat (suc n) rest = rw (dec_nat-enc_nat n rest) refl

pub encode : Claims → String
encode c =
    enc_text c.sid
      (enc_text c.sub (enc_text c.uid (enc_nat c.exp (enc_nat c.iat (enc_text c.typ "")))))

read : String → Option Claims
read token = elim (dec_text token) [
  | none ↦ none
  | some (sid, r1) ↦ elim (dec_text r1) [
    | none ↦ none
    | some (sub, r2) ↦ elim (dec_text r2) [
      | none ↦ none
      | some (uid, r3) ↦ elim (dec_nat r3) [
        | none ↦ none
        | some (exp, r4) ↦ elim (dec_nat r4) [
          | none ↦ none
          | some (iat, r5) ↦ elim (dec_text r5) [
            | none ↦ none
            | some (typ, r6) ↦
                some (record { sid = sid; sub = sub; uid = uid; exp = exp; iat = iat; typ = typ })
          ]
        ]
      ]
    ]
  ]
]

read-encode : (c : Claims) → read (encode c) ≡ some c
unfolding read encode
read-encode c =
    rw
      (
        read,
        encode,
        dec_text-enc_text c.sid,
        dec_text-enc_text c.sub,
        dec_text-enc_text c.uid,
        dec_nat-enc_nat c.exp,
        dec_nat-enc_nat c.iat,
        dec_text-enc_text c.typ,
      )
      refl

pub decode : ℕ → String → Option Claims
decode now token = elim (read token) [
  | none ↦ none
  | some claims ↦ if ltb now claims.exp then some claims else none
]

pub decode-encode : (now : ℕ) (c : Claims) → now < c.exp → decode now (encode c) ≡ some c
unfolding decode
decode-encode now c early =
    let soon : ltb now c.exp ≡ true = ground arith in rw (decode, read-encode c, soon) refl

cons_nonempty : (c : Char) (s : String) → (String.◌∷◌ c s == "") ≡ false
cons_nonempty c s = elim (Bool-cases (String.◌∷◌ c s == "")) [
  | inl e ↦ cc ((eq_iff (String.◌∷◌ c s) "").0 e)
  | inr e ↦ e
]

pub decode-expired : (now : ℕ) (c : Claims) → c.exp ≤ now → decode now (encode c) ≡ none
unfolding decode
decode-expired now c late =
    let over : ltb now c.exp ≡ false = ground arith in rw (decode, read-encode c, over) refl

enc_text_nonempty : (s rest : String) → (enc_text s rest == "") ≡ false
unfolding enc_text
enc_text_nonempty String.[] rest = cons_nonempty "0" rest
enc_text_nonempty (String.◌∷◌ c s) rest = cons_nonempty "1" (String.◌∷◌ c (enc_text s rest))

pub encode_nonempty : (c : Claims) → (encode c == "") ≡ false
unfolding encode
encode_nonempty c = enc_text_nonempty c.sid _

abbrev pub jwt : SessionJwt
jwt = record {
  encode = encode;
  encode_nonempty = encode_nonempty;
  decode = decode;
  decode-encode = decode-encode;
  decode-expired = decode-expired;
}
