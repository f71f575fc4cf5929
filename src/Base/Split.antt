-- ===== src/Base/Split.antt =====
-- Texts cut at characters, as by Python's `str.split`.
use mathlib.Core.Path.{◌≡◌, refl}
use teehr_cloud_core.Base.Tests.{eqb, if◌then◌else◌}
use teehr_cloud_core.Base.Lists.{keep}
use teehr_cloud_core.Base.Text.{is_space, strip, starts_with}
use Prim.Native.Nat.{ℕ}
use Prim.Native.Char.{Char, code}
use Prim.Native.String.{String}
use mathlib.Core.Bool.{Bool, not}
use mathlib.Core.List.{List, [], ◌∷◌, map}
use text.Mathlib.Text.{◌==◌}

abbrev to_first : Char → List String → List String
to_first c [] = String.◌∷◌ c "" ∷ []
to_first c (part ∷ parts) = String.◌∷◌ c part ∷ parts

unfoldable pub split_where : (ℕ → Bool) → String → List String
split_where p String.[] = "" ∷ []
split_where p (String.◌∷◌ c s) =
    let parts = split_where p s in if p (code c) then "" ∷ parts else to_first c parts

-- `s.split(chr(k))`
unfoldable pub split_on : ℕ → String → List String
unfolding split_where
split_on k s = split_where (λ c. eqb c k) s

abbrev non_empty : List String → List String
non_empty parts = keep (λ part. not (part == "")) parts

-- `s.split()`
unfoldable pub words : String → List String
unfolding split_where is_space
words s = non_empty (split_where is_space s)

-- `[part.strip() for part in s.split(",") if part.strip()]`
unfoldable pub stripped_parts : String → List String
unfolding split_on strip
stripped_parts s = non_empty (map strip (split_on b',' s))

-- `s.split(mark, 1)[0]`
unfoldable pub before_text : String → String → String
before_text mark String.[] = ""
before_text mark (String.◌∷◌ c s) =
    let rest = before_text mark s in
    if starts_with (String.◌∷◌ c s) mark then "" else String.◌∷◌ c rest

two_parts : stripped_parts " a, b ,," ≡ "a" ∷ "b" ∷ []
unfolding stripped_parts
two_parts = refl

two_words : words " ab  c" ≡ "ab" ∷ "c" ∷ []
unfolding words
two_words = refl
