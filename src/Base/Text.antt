-- ===== src/Base/Text.antt =====
-- Python's `str` operations that the program uses, on native texts walked character by character.
use Prim.Native.Nat.{ℕ}
use Prim.Native.Char.{Char, code}
use Prim.Native.String
use Prim.Native.String.{String, [], ◌∷◌}
use mathlib.Core.Path.{◌≡◌, refl, sym, ap, ◌∙◌}
use mathlib.Core.Logic.{inl, inr}
use mathlib.Core.Bool.{Bool, true, false, ◌&&◌, ◌||◌}
use mathlib.Core.Option
use mathlib.Core.Option.{Option, none, some}
use native.Mathlib.Omega.{arith}
pub use text.Mathlib.Text.{◌==◌}
use text.Mathlib.TextEquality.{eq_iff, Char-path}
use text.Mathlib.TextPositions.{eq_refl}
use text.Mathlib.TextLemmas.{
  nil-append, cons-append, append_cancel_right, cons≢nil, nil≢cons, head-eq_of_cons-eq,
  tail-eq_of_cons-eq,
}
use teehr_cloud_core.Base.Tests.{leb, eqb, eqb_refl, eqb_iff, if◌then◌else◌, is_some, Bool-cases}

-- Concatenation of texts, as in an f-string.
infixr 65 ◌<>◌
abbrev pub ◌<>◌ : String → String → String
s <> t = String.◌++◌ s t

-- `s[len(p):]` where `s.startswith(p)`
unfoldable pub strip_prefix : String → String → Option String
strip_prefix [] s = some s
strip_prefix (c ∷ p) [] = none
strip_prefix (c ∷ p) (d ∷ s) = if eqb (code c) (code d) then strip_prefix p s else none

-- `s[:-len(t)]` where `s.endswith(t)` and `t` is not empty
unfoldable pub strip_suffix : String → String → Option String
strip_suffix t [] = if [] == t then some [] else none
strip_suffix t (c ∷ s) =
    if (c ∷ s) == t then some [] else Option.map (λ r. c ∷ r) (strip_suffix t s)

-- `s.startswith(p)`
abbrev pub starts_with : String → String → Bool
starts_with s p = is_some (strip_prefix p s)

-- `s.endswith(t)`
abbrev pub ends_with : String → String → Bool
ends_with s t = is_some (strip_suffix t s)

-- `chr(k) in s`
unfoldable pub has_char : ℕ → String → Bool
has_char k [] = false
has_char k (c ∷ s) = eqb (code c) k || has_char k s

-- every character passes a test
unfoldable pub all_chars : (ℕ → Bool) → String → Bool
all_chars p [] = true
all_chars p (c ∷ s) = p (code c) && all_chars p s

abbrev pub prepend : Char → String × String → String × String
prepend c (b, a) = (c ∷ b, a)

-- `before, _, after = s.partition(chr(k))`
unfoldable pub partition : ℕ → String → String × String
partition k [] = ([], [])
partition k (c ∷ s) = if eqb (code c) k then ([], s) else prepend c (partition k s)

pub strip_prefix_sound : (p s : String) {r : String} → strip_prefix p s ≡ some r → s ≡ p <> r
unfolding strip_prefix
strip_prefix_sound [] s {r} h = ground (arith, nil-append r)
strip_prefix_sound (c ∷ p) [] h = cc
strip_prefix_sound (c ∷ p) (d ∷ s) {r} h = ground (
  arith,
  eqb_iff (code c) (code d),
  Char-path c d,
  strip_prefix_sound p s {r = r},
  cons-append c p r,
)

pub strip_prefix-append : (p r : String) → strip_prefix p (p <> r) ≡ some r
unfolding strip_prefix
strip_prefix-append [] r = rw nil-append
strip_prefix-append (c ∷ p) r = rw (cons-append, eqb_refl) (strip_prefix-append p r)

pub strip_suffix_sound : (t s : String) {r : String} → strip_suffix t s ≡ some r → s ≡ r <> t
unfolding strip_suffix
strip_suffix_sound t [] {r} h = ground (arith, eq_iff [] t, nil-append t)
strip_suffix_sound t (c ∷ s) {r} h = elim (Bool-cases ((c ∷ s) == t)) [
  | inl same ↦ ground (arith, eq_iff (c ∷ s) t, nil-append t)
  | inr other ↦
      let (q, found, made) = (Option.map-eq-some_iff _ _).0 (rw other at h) in
      rw (← made, cons-append) (ap (λ u. c ∷ u) (strip_suffix_sound t s found))
]

cons-append-ne : (c : Char) (r t : String) → ((c ∷ r) <> t ≡ t) → ⊥
cons-append-ne c r t e = cons≢nil (append_cancel_right (c ∷ r) [] t (e ∙ sym (nil-append t)))

pub strip_suffix_self : (t : String) → strip_suffix t t ≡ some []
unfolding strip_suffix
strip_suffix_self [] = refl
strip_suffix_self (c ∷ t) = rw (eq_refl (c ∷ t))

pub strip_suffix-append : (t r : String) → strip_suffix t (r <> t) ≡ some r
unfolding strip_suffix
strip_suffix-append t [] = rw nil-append (strip_suffix_self t)
strip_suffix-append t (c ∷ r) = rw cons-append (elim (Bool-cases ((c ∷ (r <> t)) == t)) [
  | inl same ↦ absurd (cons-append-ne c r t (cons-append c r t ∙ (eq_iff (c ∷ (r <> t)) t).0 same))
  | inr other ↦ rw (other, strip_suffix-append t r)
])

-- The part after the separator is a text after the first occurrence of the separator.
pub partition_lem :
    (k : ℕ) (b a : String) (c : Char)
    → code c ≡ k
    → has_char k b ≡ false
    → partition k (b <> (c ∷ a)) ≡ (b, a)
unfolding partition has_char
partition_lem k [] a c e h = rw nil-append (ground (arith, eqb_iff (code c) k))
partition_lem k (d ∷ b) a c e h = rw cons-append (ground (arith, partition_lem k b a c e))

pub partition_before : (k : ℕ) (s : String) → has_char k (partition k s).0 ≡ false
unfolding partition has_char
partition_before k [] = refl
partition_before k (c ∷ s) = elim (Bool-cases (eqb (code c) k)) [
  | inl e ↦ rw e
  | inr e ↦ rw e (ground (arith, e, partition_before k s))
]

pub has_char-append : (k : ℕ) (s t : String) → has_char k (s <> t) ≡ (has_char k s || has_char k t)
unfolding has_char
has_char-append k [] t = rw nil-append
has_char-append k (c ∷ s) t = rw cons-append (ground (arith, has_char-append k s t))

pub all_chars-append :
    (p : ℕ → Bool) (s t : String) → all_chars p (s <> t) ≡ (all_chars p s && all_chars p t)
unfolding all_chars
all_chars-append p [] t = rw nil-append
all_chars-append p (c ∷ s) t = rw cons-append (ground (arith, all_chars-append p s t))

-- A common beginning does not matter to a prefix test.
pub strip_prefix-append_both : (x p s : String) → strip_prefix (x <> p) (x <> s) ≡ strip_prefix p s
unfolding strip_prefix
strip_prefix-append_both [] p s = rw (nil-append, nil-append)
strip_prefix-append_both (c ∷ x) p s =
    rw (cons-append, cons-append, eqb_refl) (strip_prefix-append_both x p s)

-- Of two names without the separator, one followed by the separator begins the other followed by it
-- only if they are the same.
pub starts_with_separated :
    (k : ℕ) (c : Char) (a b rest : String)
    → code c ≡ k
    → has_char k a ≡ false
    → has_char k b ≡ false
    → starts_with (b <> (c ∷ rest)) (a <> (c ∷ [])) ≡ (a == b)
unfolding strip_prefix has_char
starts_with_separated k c [] [] rest e ha hb = rw (nil-append, nil-append, eqb_refl)
starts_with_separated k c [] (d ∷ b) rest e ha hb =
    rw (nil-append, cons-append) (ground (arith, eq_iff [] (d ∷ b), nil≢cons {x = d} {xs = b}))
starts_with_separated k c (d ∷ a) [] rest e ha hb =
    rw (cons-append, nil-append) (ground (arith, eq_iff (d ∷ a) [], cons≢nil {x = d} {xs = a}))
starts_with_separated k c (d ∷ a) (f ∷ b) rest e ha hb =
    rw (cons-append, cons-append)
      (ground (
        arith,
        eq_iff (d ∷ a) (f ∷ b),
        eq_iff a b,
        Char-path d f,
        head-eq_of_cons-eq {x = d} {y = f} {xs = a} {ys = b},
        tail-eq_of_cons-eq {x = d} {y = f} {xs = a} {ys = b},
        starts_with_separated k c a b rest e,
      ))

-- The characters that `str.strip()` removes.
unfoldable pub is_space : ℕ → Bool
is_space c =
    leb 9 c && leb c 13
    || leb 28 c && leb c 32
    || eqb c 0x85
    || eqb c 0xa0
    || eqb c 0x1680
    || leb 0x2000 c && leb c 0x200a
    || leb 0x2028 c && leb c 0x2029
    || eqb c 0x202f
    || eqb c 0x205f
    || eqb c 0x3000

-- `s.lstrip(…)` and `s.rstrip(…)` of the characters that pass a test
unfoldable pub lstrip_where : (ℕ → Bool) → String → String
lstrip_where p [] = []
lstrip_where p (c ∷ s) = if p (code c) then lstrip_where p s else c ∷ s

unfoldable pub rstrip_where : (ℕ → Bool) → String → String
rstrip_where p [] = []
rstrip_where p (c ∷ s) = let r = rstrip_where p s in if r == [] && p (code c) then [] else c ∷ r

unfoldable pub strip : String → String
unfolding is_space lstrip_where rstrip_where
strip s = rstrip_where is_space (lstrip_where is_space s)

-- `s.split(chr(k))[-1]`: what follows the last separator
unfoldable pub last_part : ℕ → String → String
unfolding has_char
last_part k [] = []
last_part k (c ∷ s) = if has_char k (c ∷ s) then last_part k s else c ∷ s

pub last_part-has_char : (k : ℕ) (s : String) → has_char k (last_part k s) ≡ false
unfolding last_part has_char
last_part-has_char k [] = refl
last_part-has_char k (c ∷ s) = ground (arith, last_part-has_char k s)

pub slash-append : (s : String) → "/" <> s ≡ "/" ∷ s
slash-append s = cons-append "/" "" s ∙ ap (λ t. "/" ∷ t) (nil-append s)

pub has_char-slash : (s t : String) → has_char b'/' (s <> ("/" <> t)) ≡ true
unfolding has_char
has_char-slash s t = rw (has_char-append b'/' s, slash-append t) (ground arith)
