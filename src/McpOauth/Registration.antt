-- ===== src/McpOauth/Registration.antt =====
-- `POST /oauth/register` of backend/mcp_oauth.py.
pub mod Checked
use Prim.Native.Char.{code}
use reli.Prelude.{
  ℕ, suc, ◌+◌, ◌*◌, ◌/◌, String, Bool, true, false, ◌||◌, ◌&&◌, not, Option, none, some, List, [],
  ◌∷◌, ◌==◌, String_equals, if◌then◌else◌, contains, ltb, leb, any, filter, is_some,
}
use reli.Result.{Result, ok, err}
use reli.Exec.{pure, lift, gets, guard, for_each, ◌>>=◌, ◌>>◌}
use reli.OauthState.Records.{OauthDb, McpRegisteredClient}
use reli.OauthState.Stores.{cleanup_and_store, mcp_registered_clients, now_utc}
use reli.OauthState.Capped.{reopened}
use reli.McpOauth.Refusals.{Action, Refusal, http_error, on_store, second, refresh_token_ttl}
use reli.McpOauth.Tokens.{uuid4, token_urlsafe, closed}

-- What a URL parser reads; a part that is absent is none.
pub record Url : Type 0 where
  pub scheme : String
  pub username : Option String
  pub password : Option String
  pub host : Option String

-- The body of a registration, with the defaults of `_ClientMetadata` filled in.
pub record ClientMetadata : Type 0 where
  pub redirect_uris : Option (List String)
  pub client_name : String
  pub grant_types : List String
  pub response_types : List String
  pub token_endpoint_auth_method : String
  pub scope : String

-- Third-party code: pydantic reads the JSON of a body, or says what is wrong with it, and reads a
-- URL in the form in which Starlette's redirect delivers it.
pub record Libraries : Type 0 where
  pub model_validate_json : String → Result String ClientMetadata
  pub as_delivered : String → Option Url

abbrev pub max_param_length : ℕ
max_param_length = 2048

abbrev pub unused_client_ttl : ℕ
unused_client_ttl = 60 * 60 * second

abbrev pub token_endpoint_auth_methods : List String
token_endpoint_auth_methods = "none" ∷ "client_secret_post" ∷ []

-- The bytes of a text in UTF-8.
abbrev utf8_width : ℕ → ℕ
utf8_width c = if ltb c 128 then 1 else if ltb c 2048 then 2 else if ltb c 65_536 then 3 else 4

unfoldable pub utf8_length : String → ℕ
utf8_length String.[] = 0
utf8_length (String.◌∷◌ c s) = utf8_width (code c) + utf8_length s

abbrev pub within_param_bytes : String → Bool
within_param_bytes value = leb (utf8_length value) max_param_length

abbrev pub is_local : Option String → Bool
is_local none = false
is_local (some host) = contains host ("localhost" ∷ "127.0.0.1" ∷ [])

abbrev pub is_safe_url : Url → Bool
is_safe_url url =
    if is_some url.username || is_some url.password
    then false
    else url.scheme == "https" || url.scheme == "http" && is_local url.host

unfoldable pub redirect_uri_is_safe : Libraries → String → Bool
redirect_uri_is_safe lib uri = elim (lib.as_delivered uri) [
  | none ↦ false
  | some url ↦ is_safe_url url
]

abbrev pub given_uris : ClientMetadata → List String
given_uris metadata = elim metadata.redirect_uris [ none ↦ [] | some uris ↦ uris ]

abbrev pub invalid_metadata : String → Refusal
invalid_metadata problems = http_error 400 problems

unfoldable pub validate_registration_body : Libraries → String → Action ClientMetadata
validate_registration_body lib raw = elim (lib.model_validate_json raw) [
  | err problems ↦ lift (err (invalid_metadata problems))
  | ok metadata ↦ do
    guard (not (any (λ uri. not (within_param_bytes uri)) (given_uris metadata)))
        (invalid_metadata "must be at most 2048 bytes as UTF-8")
    pure metadata
]

unfoldable pub validate_auth_method : ClientMetadata → Action Unit
validate_auth_method metadata =
    guard (contains metadata.token_endpoint_auth_method token_endpoint_auth_methods)
      (http_error 400 "token_endpoint_auth_method must be one of none, client_secret_post")

unfoldable pub validate_redirect_uris : Libraries → List String → Action Unit
validate_redirect_uris lib uris = for_each uris λ uri.
    guard (redirect_uri_is_safe lib uri)
      (http_error 400 "redirect_uri must use https with no user info")

pub record RegistrationResponse : Type 0 where
  pub client_id : String
  pub client_secret : String
  pub redirect_uris : List String
  pub client_name : String
  pub grant_types : List String
  pub response_types : List String
  pub token_endpoint_auth_method : String
  pub scope : String
  pub client_secret_expires_at : ℕ

abbrev pub registered_client : ClientMetadata → String → McpRegisteredClient
registered_client metadata secret_digest = record {
  client_secret = secret_digest;
  redirect_uris = given_uris metadata;
  client_name = metadata.client_name;
  grant_types = metadata.grant_types;
  response_types = metadata.response_types;
  token_endpoint_auth_method = metadata.token_endpoint_auth_method;
  scope = metadata.scope;
}

-- The row of the validated metadata, under a fresh id.
unfoldable pub store_registration : ClientMetadata → Action RegistrationResponse
unfolding uuid4 token_urlsafe now_utc
store_registration metadata = do
  client_id ← uuid4
  client_secret ← token_urlsafe
  now ← on_store now_utc
  digest ← gets (λ db. db.env.digest client_secret)
  on_store (
      cleanup_and_store mcp_registered_clients client_id (registered_client metadata digest)
        (now + unused_client_ttl))
  pure (record {
    client_id = client_id;
    client_secret = client_secret;
    redirect_uris = given_uris metadata;
    client_name = metadata.client_name;
    grant_types = metadata.grant_types;
    response_types = metadata.response_types;
    token_endpoint_auth_method = metadata.token_endpoint_auth_method;
    scope = metadata.scope;
    client_secret_expires_at = (now + refresh_token_ttl) / second;
  })

unfoldable pub register : Libraries → String → Action RegistrationResponse
register lib raw = do
  metadata ← validate_registration_body lib raw
  validate_auth_method metadata
  validate_redirect_uris lib (given_uris metadata)
  store_registration metadata

unfoldable pub oauth_register :
    Libraries → String → OauthDb → Result Refusal RegistrationResponse × OauthDb
oauth_register lib raw db = closed (register lib raw (reopened db))
