-- ===== src/Xpublish/Identity.antt =====
-- xpublish-api/src/auth.py: who makes a request.
use teehr_cloud_core.Base.{String, Bool, Option, none, List, [], ◌==◌}
use teehr_cloud_core.Keycloak.{Claims, scopes_of}

pub record AuthIdentity : Type 0 where
  pub subject : String
  pub auth_type : String
  pub roles : List String
  pub scopes : List String
  pub preferred_username : Option String

abbrev pub is_authenticated : AuthIdentity → Bool
is_authenticated identity = identity.auth_type == "jwt"

-- what `resolve_identity` returns without a bearer token
abbrev pub anonymous : AuthIdentity
anonymous = record {
  subject = "anonymous";
  auth_type = "anonymous";
  roles = [];
  scopes = [];
  preferred_username = none;
}

-- what `validate` returns for the subject and the claims of a token that it accepts
unfoldable pub token_identity : String × Claims → AuthIdentity
token_identity (subject, claims) = record {
  subject = subject;
  auth_type = "jwt";
  roles = claims.realm_roles;
  scopes = scopes_of claims;
  preferred_username = claims.preferred_username;
}
