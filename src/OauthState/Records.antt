-- ===== src/OauthState/Records.antt =====
-- The six tables of backend/oauth_state.py. A row is its primary key, its `expires_at`, and a record
-- of its other columns.
use reli.Prelude.{ℕ, String, Option, List}

pub record Row (V : Type 0) : Type 0 where
  pub key : String
  pub values : V
  pub expires_at : ℕ

pub record McpRegisteredClient : Type 0 where
  pub client_secret : String
  pub redirect_uris : List String
  pub client_name : String
  pub grant_types : List String
  pub response_types : List String
  pub token_endpoint_auth_method : String
  pub scope : String

pub record McpOauthSession : Type 0 where
  pub client_state : String
  pub redirect_uri : String
  pub code_challenge : String
  pub code_challenge_method : String
  pub client_id : String
  pub scope : String
  pub google_code_verifier : String

pub record McpAuthCode : Type 0 where
  pub subject : String
  pub email : String
  pub code_challenge : String
  pub code_challenge_method : String
  pub redirect_uri : String
  pub client_id : String
  pub scope : String

-- `subject` and `email` are nulled when the token is consumed.
pub record McpRefreshToken : Type 0 where
  pub subject : Option String
  pub email : Option String
  pub client_id : String
  pub scope : String
  pub family_id : String
  pub consumed_at : Option ℕ

-- No column besides the `jti` and `expires_at`.
pub record RevokedToken : Type 0 where

pub record WebOauthSession : Type 0 where
  pub google_code_verifier : String

pub record Tables : Type 0 where
  pub registered_clients : List (Row McpRegisteredClient)
  pub oauth_sessions : List (Row McpOauthSession)
  pub auth_codes : List (Row McpAuthCode)
  pub refresh_tokens : List (Row McpRefreshToken)
  pub web_sessions : List (Row WebOauthSession)
  pub revoked_tokens : List (Row RevokedToken)

-- The claims of a JWT. `sub` is null where the account of a token is.
pub record Claims : Type 0 where
  pub iss : String
  pub sub : Option String
  pub email : String
  pub aud : String
  pub iat : ℕ
  pub exp : ℕ
  pub jti : String

-- What the code takes from outside: the clock, `uuid.uuid4()` and `secrets.token_urlsafe` at their
-- n-th call, the SHA-256 digest in hexadecimal and in base64url without padding, `jwt.encode` with
-- the server's key, and `str.lower`.
pub record Env : Type 0 where
  pub times : ℕ → ℕ
  pub uuids : ℕ → String
  pub secrets : ℕ → String
  pub digest : String → String
  pub urlsafe_digest : String → String
  pub jwt_encode : Claims → String
  pub lower : String → String

-- A SQLAlchemy session: what is committed and what its open transaction sees. `calls` counts the
-- draws from the environment.
pub record OauthDb : Type 0 where
  pub env : Env
  pub committed : Tables
  pub pending : Tables
  pub calls : ℕ

-- `StoreFullError`, with the cap that its message names.
pub data StoreFull : Type 0 where
  store_full : ℕ → StoreFull
