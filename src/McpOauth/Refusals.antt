-- ===== src/McpOauth/Refusals.antt =====
-- What the endpoints of backend/mcp_oauth.py answer when they refuse, and the settings they read.
use reli.Prelude.{ℕ, ◌*◌, String, Bool, List, contains, String_equals}
use reli.Exec.{Exec, map_error}
use reli.OauthState.Records.{Env, OauthDb, StoreFull}
use reli.OauthState.Stores

-- `_TokenError`, with its status, error code and description; `HTTPException`; and the exception that
-- a null email raises, which answers 500.
pub data Refusal : Type 0 where
  token_error : ℕ → String → String → Refusal
  http_error : ℕ → String → Refusal
  internal_error : Refusal

abbrev pub Action : Type 0 → Type 0
Action A = Exec OauthDb Refusal A

-- `SECRET_KEY` is long enough; ALLOWED_EMAILS, stripped and in lower case; `auth.base_url()`.
pub record Settings : Type 0 where
  pub secret_key_configured : Bool
  pub allowed_emails : List String
  pub base_url : String

abbrev pub is_allowed : Settings → Env → String → Bool
is_allowed settings env email = contains (env.lower email) settings.allowed_emails

-- Instants count microseconds.
abbrev pub second : ℕ
second = 1_000_000

abbrev pub refresh_token_ttl : ℕ
refresh_token_ttl = 60 * 60 * 24 * 30 * second

abbrev pub mcp_jwt_expiry_seconds : ℕ
mcp_jwt_expiry_seconds = 60 * 60

abbrev pub invalid_grant : String → Refusal
invalid_grant description = token_error 400 "invalid_grant" description

-- `StoreFullError` answered with 503.
abbrev pub at_capacity : StoreFull → Refusal
at_capacity full = http_error 503 "Server is at capacity; try again later"

-- A call on a store from an endpoint.
unfoldable pub on_store : {A : Type 0} → Stores.Action A → Action A
unfolding map_error
on_store m = map_error at_capacity m
