-- ===== src/Api/OpenApi/Tests.antt =====
-- A document with one route of the API keys.
use teehr_cloud_core.Base.{String, ◌≡◌, refl, none, some, [], ◌∷◌, ◌==◌, if◌then◌else◌}
use teehr_cloud_core.Base.Dict.{lookup, insert}
use teehr_cloud_core.Api.OpenApi.{
  Operation, Document, keycloak_schemes, all_schemes, set_security, custom_openapi,
}

abbrev undeclared : Operation
undeclared = record { security = none }

abbrev generated : Document
generated = record {
  security_schemes = [];
  paths =
      ("/auth/api-keys", ("post", undeclared) ∷ [])
      ∷ ("/units", ("GET", undeclared) ∷ [])
      ∷ ("/health", ("get", undeclared) ∷ [])
      ∷ [];
}

abbrev lower : String → String
lower s = if s == "GET" then "get" else s

documented :
    (custom_openapi lower "auth" "token" none generated).paths
    ≡ ("/auth/api-keys", ("post", record { security = some keycloak_schemes }) ∷ [])
      ∷ ("/units", ("GET", record { security = some all_schemes }) ∷ [])
      ∷ ("/health", ("get", undeclared) ∷ [])
      ∷ []
unfolding custom_openapi set_security lookup insert
documented = refl
