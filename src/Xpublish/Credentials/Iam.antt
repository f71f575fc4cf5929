-- ===== src/Xpublish/Credentials/Iam.antt =====
-- What the policies rely on of AWS: a request is authorised when a statement allows it and none
-- denies it, and in a pattern "*" at the end stands for any rest of the text.
use teehr_cloud_core.Base.{
  ℕ, String, ◌≡◌, Bool, true, not, ◌&&◌, Option, none, some, List, ◌==◌, ◌<>◌, any, all_chars,
  starts_with, eqb,
}
use teehr_cloud_core.Xpublish.Credentials.{Resource, one, many, Statement}

pub record S3Request : Type 0 where
  pub action : String
  pub resource : String
  pub prefix : String

-- A text with no wildcard, "*" or "?".
abbrev pub is_plain : ℕ → Bool
is_plain c = not (eqb c b'*') && not (eqb c b'?')

abbrev pub IsPlain : String → Type 0
IsPlain s = all_chars is_plain s ≡ true

module _ (like : String → String → Bool) where
  abbrev pub fits_resource : Resource → String → Bool
  fits_resource (one pattern) arn = like pattern arn
  fits_resource (many patterns) arn = any (λ p. like p arn) patterns

  abbrev pub fits_condition : Option (List String) → String → Bool
  fits_condition none prefix = true
  fits_condition (some patterns) prefix = any (λ p. like p prefix) patterns

  abbrev pub applies : String → S3Request → Statement → Bool
  applies effect request s =
      s.effect == effect
      && s.action == request.action
      && fits_resource s.resource request.resource
      && fits_condition s.string_like request.prefix

-- The evaluation of a policy, an operation of AWS, with its documented behaviour.
pub record Iam : Type 0 where
  pub like : String → String → Bool
  pub like_exact : (pattern text : String) → IsPlain pattern → like pattern text ≡ (pattern == text)
  pub like_star :
      (pattern text : String)
      → IsPlain pattern
      → like (pattern <> "*") text ≡ starts_with text pattern
  pub authorize : List Statement → S3Request → Bool
  pub authorize_rule :
      (policy : List Statement) (request : S3Request)
      → authorize policy request ≡ (
          any (applies like "Allow" request) policy
          && not (any (applies like "Deny" request) policy))
