-- ===== src/Xpublish/Pmtiles/Keys.antt =====
-- Which keys a request for a layer can read.
use mathlib.Core.Path.{subst}
use teehr_cloud_core.Base.{
  ℕ, code, String, ◌≡◌, refl, sym, inl, inr, true, false, not, ◌&&◌, ◌||◌, arith, eq_iff, eqb,
  eqb_iff, Bool-cases, ◌==◌, ◌<>◌, has_char, ok, ok-injective,
}
use teehr_cloud_core.Xpublish.Storage.{normalize_storage_prefix}
use teehr_cloud_core.Xpublish.Pmtiles.{
  is_layer_char, matches_tail, matches_layer_name, has_parent, layer_key,
}

not_slash : (c : ℕ) → is_layer_char c ≡ true → eqb c b'/' ≡ false
not_slash c h = elim (Bool-cases (eqb c b'/')) [
  | inl e ↦ cc (subst (λ x. is_layer_char x ≡ true) ((eqb_iff c b'/').0 e) h)
  | inr e ↦ e
]

matches_tail-slash : (s : String) → matches_tail s ≡ true → has_char b'/' s ≡ false
unfolding matches_tail has_char
matches_tail-slash String.[] h = refl
matches_tail-slash (String.◌∷◌ c s) h = elim (Bool-cases (is_layer_char (code c))) [
  | inl e ↦ rw (has_char, not_slash (code c) e) (matches_tail-slash s (rw (matches_tail, e) at h))
  | inr e ↦
      let ending : (eqb (code c) 10 && s == "") ≡ true = rw (matches_tail, e) at h in
      let empty : s ≡ "" = (eq_iff s "").0 (ground (arith, ending)) in
      let apart : eqb (code c) b'/' ≡ false =
        ground (arith, ending, eqb_iff (code c) 10, eqb_iff (code c) b'/') in
      rw (has_char, apart, empty) refl
]

-- A key that is read is the layer's archive directly under the configured prefix: the layer has no "/"
-- and no "..".
pub layer_key-within :
    (prefix layer key : String)
    → layer_key prefix layer ≡ ok key
    → (key ≡ normalize_storage_prefix prefix <> (layer <> ".pmtiles"))
      × (has_char b'/' layer ≡ false)
      × (has_parent layer ≡ false)
unfolding layer_key matches_layer_name has_char
layer_key-within prefix layer key e =
    elim (Bool-cases (has_parent layer || not (matches_layer_name layer))) [
      | inl t ↦ cc (rw (layer_key, t) at e)
      | inr t ↦ (
        sym (ok-injective _ _ (rw (layer_key, t) at e)),
        plain layer (ground (arith, t)),
        ground (arith, t),
      )
    ]
  where
    plain : (s : String) → matches_layer_name s ≡ true → has_char b'/' s ≡ false
    plain String.[] h = refl
    plain (String.◌∷◌ c s) h =
        let first : is_layer_char (code c) ≡ true = ground (arith, h) in
        rw (has_char, not_slash (code c) first) (matches_tail-slash s (ground (arith, h)))
