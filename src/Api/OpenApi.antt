-- ===== src/Api/OpenApi.antt =====
-- api/src/main.py: the security of the OpenAPI document, and the middleware that limits the time of a
-- request. FastAPI's document is a parameter; of an operation the model has its security, of a scheme
-- what its kind and its URLs are.
mod Tests
use teehr_cloud_core.Base.{
  ℕ, ◌<◌, String, Bool, true, false, Option, none, some, List, [], ◌∷◌, map, contains,
  if◌then◌else◌, ◌==◌, ◌<>◌, Result, ok, err, HttpError, http,
}
use teehr_cloud_core.Base.Dict.{Dict, lookup, insert}

-- A requirement names a scheme and the scopes that it asks for.
abbrev pub Requirement : Type 0
Requirement = String × List String

pub record Operation : Type 0 where
  pub security : Option (List Requirement)

pub data SecurityScheme : Type 0 where
  bearer_jwt : SecurityScheme
  authorization_code : (authorization_url token_url : String) → SecurityScheme
  password : (token_url : String) → SecurityScheme
  api_key_header : (name : String) → SecurityScheme

pub record Document : Type 0 where
  pub security_schemes : Dict SecurityScheme
  pub paths : Dict (Dict Operation)

abbrev pub keycloak_schemes : List Requirement
keycloak_schemes =
    ("OAuth2KeycloakPassword", "openid" ∷ "profile" ∷ "email" ∷ [])
    ∷ ("OAuth2Keycloak", "openid" ∷ "profile" ∷ "email" ∷ [])
    ∷ ("BearerAuth", [])
    ∷ []

abbrev pub all_schemes : List Requirement
all_schemes =
    ("OAuth2KeycloakPassword", "openid" ∷ "profile" ∷ "email" ∷ [])
    ∷ ("OAuth2Keycloak", "openid" ∷ "profile" ∷ "email" ∷ [])
    ∷ ("BearerAuth", [])
    ∷ ("ApiKeyAuth", [])
    ∷ []

-- `operation.setdefault("security", ...)`
abbrev pub secured : Operation → Operation
secured operation = elim operation.security [
  | none ↦ record { security = some all_schemes }
  | some security ↦ operation
]

abbrev pub public_paths : List String
public_paths = "/health" ∷ "/openapi.json" ∷ "/docs" ∷ "/redoc" ∷ []

abbrev pub secured_methods : List String
secured_methods = "get" ∷ "post" ∷ "put" ∷ "patch" ∷ "delete" ∷ "head" ∷ []

-- `lower` is `str.lower`
module _ (lower : String → String) where
  abbrev pub secure_operation : String × Operation → String × Operation
  secure_operation (method, operation) =
      if contains (lower method) secured_methods
      then (method, secured operation)
      else (method, operation)

  abbrev pub secure_path : String × Dict Operation → String × Dict Operation
  secure_path (path, path_item) =
      if contains path public_paths
      then (path, path_item)
      else (path, map secure_operation path_item)

-- What an operation is set to that the document has.
unfoldable pub set_security :
    String → String → List Requirement → Dict (Dict Operation) → Dict (Dict Operation)
set_security path method security paths = elim (lookup path paths) [
  | none ↦ paths
  | some path_item ↦ elim (lookup method path_item) [
    | none ↦ paths
    | some operation ↦
        insert path (insert method (record { security = some security }) path_item) paths
  ]
]

abbrev pub with_overrides : Dict (Dict Operation) → Dict (Dict Operation)
with_overrides paths =
    let me = set_security "/auth/me" "get" all_schemes paths in
    let listed = set_security "/auth/api-keys" "get" keycloak_schemes me in
    let created = set_security "/auth/api-keys" "post" keycloak_schemes listed in
    let revoked = set_security "/auth/api-keys/{key_id}" "delete" keycloak_schemes created in
    let token = set_security "/auth/polaris-token" "post" keycloak_schemes revoked in
    let session = set_security "/auth/polaris-session" "post" keycloak_schemes token in
    set_security "/auth/polaris-token/session" "post" [] session

abbrev pub with_schemes : String → String → Dict SecurityScheme → Dict SecurityScheme
with_schemes auth_url token_url schemes = insert "ApiKeyAuth" (api_key_header "x-api-key") (
    insert "OAuth2KeycloakPassword" (password token_url) (
      insert "OAuth2Keycloak" (authorization_code auth_url token_url)
        (insert "BearerAuth" bearer_jwt schemes)))

-- The document that is kept, or the one that is made of FastAPI's, which is then kept.
unfoldable pub custom_openapi :
    (String → String) → String → String → Option Document → Document → Document
unfolding set_security
custom_openapi lower auth_url token_url (some kept) generated = kept
custom_openapi lower auth_url token_url none generated = record {
  security_schemes = with_schemes auth_url token_url generated.security_schemes;
  paths = with_overrides (map (secure_path lower) generated.paths);
}

pub record Response : Type 0 where
  pub status : ℕ
  pub headers : Dict String

-- How a call of the rest of the application ends.
pub data Called : Type 0 where
  returned : Response → Called
  timed_out : Called
  raised_http : HttpError → Called
  raised : String → Called

-- A response, an error that is answered as JSON, or an HTTPException that is raised again.
pub data Ended : Type 0 where
  passed : Response → Ended
  answered reraised : HttpError → Ended

-- `process_time` is the text of the duration, `request_timeout` that of the setting.
unfoldable pub timeout_middleware : String → String → Called → Ended
timeout_middleware process_time request_timeout (returned response) =
    passed (record response { headers = insert "x-process-time" process_time response.headers })
timeout_middleware process_time request_timeout timed_out = answered (
    http 504 (
      "Request timed out after "
      <> (request_timeout <> " seconds. Try reducing the data range or adding more filters.")))
timeout_middleware process_time request_timeout (raised_http e) = reraised e
timeout_middleware process_time request_timeout (raised text) =
    answered (http 500 ("Internal server error: " <> text))
