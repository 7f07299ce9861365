-- ===== src/McpOauth/Tokens.antt =====
-- `POST /oauth/token` of backend/mcp_oauth.py.
use reli.Prelude.{
  ℕ, suc, ◌+◌, ◌/◌, String, ◌||◌, ◌&&◌, not, Option, none, some, ◌==◌, String_equals, if◌then◌else◌,
}
use reli.Result.{Result, ok, err}
use reli.Exec.{pure, raise, gets, guard, or_raise, ◌>>=◌, ◌>>◌}
use reli.OauthState.Records.{Row, OauthDb, McpAuthCode, McpRefreshToken}
use reli.OauthState.Stores.{
  Store, cleanup_and_store, cleanup_and_get, cleanup_and_pop, extend_expiry, now_utc,
  mcp_auth_codes, mcp_refresh_tokens, mcp_registered_clients,
}
use reli.OauthState.Tokens.{consume_refresh_token, revoke_refresh_token_family}
use reli.OauthState.Capped.{reopened}
use reli.McpOauth.Refusals.{
  Action, Refusal, token_error, http_error, internal_error, Settings, is_allowed, second,
  refresh_token_ttl, mcp_jwt_expiry_seconds, invalid_grant, on_store,
}

unfoldable pub uuid4 : Action String
uuid4 db = (ok (db.env.uuids db.calls), record db { calls = suc db.calls })

unfoldable pub token_urlsafe : Action String
token_urlsafe db = (ok (db.env.secrets db.calls), record db { calls = suc db.calls })

unfoldable pub validate_client_secret : String → String → Action Unit
validate_client_secret client_id client_secret = do
  found ← on_store (cleanup_and_get mcp_registered_clients client_id)
  client ← or_raise found (
      token_error 400 "invalid_client" "Unknown client_id: register again via POST /oauth/register")
  presented ← gets (λ db. db.env.digest client_secret)
  guard
      (client.values.token_endpoint_auth_method == "none"
        || not (client_secret == "") && presented == client.values.client_secret)
      (token_error 401 "invalid_client" "Invalid client credentials: re-register the connector")

-- `auth.create_jwt` for the audience `mcp`.
unfoldable pub mint_access_token : Settings → Option String → String → Action String
unfolding now_utc uuid4
mint_access_token settings subject email = do
  now ← on_store now_utc
  jti ← uuid4
  gets λ db. db.env.jwt_encode (record {
    iss = settings.base_url;
    sub = subject;
    email = email;
    aud = "mcp";
    iat = now / second;
    exp = now / second + mcp_jwt_expiry_seconds;
    jti = jti;
  })

pub record TokenResponse : Type 0 where
  pub access_token : String
  pub expires_in : ℕ
  pub refresh_token : String
  pub scope : String

abbrev account_not_allowed : String
account_not_allowed =
    "Account is not allowed: This Reli is invite-only: sign in with the Google account listed in ALLOWED_EMAILS on the deploy."

-- The account is gone from ALLOWED_EMAILS: its family is revoked.
unfoldable pub refuse_account : String → Action Unit
refuse_account family_id = do
  on_store (revoke_refresh_token_family family_id)
  raise (invalid_grant account_not_allowed)

unfoldable pub require_allowed : Settings → String → String → Action Unit
require_allowed settings email family_id = do
  allowed ← gets (λ db. is_allowed settings db.env email)
  if allowed then pure tt else refuse_account family_id

abbrev pub issued_token : Option String → String → String → String → String → McpRefreshToken
issued_token subject email client_id scope family_id = record {
  subject = subject;
  email = some email;
  client_id = client_id;
  scope = scope;
  family_id = family_id;
  consumed_at = none;
}

unfoldable pub issue_token_response :
    Settings → Option String → Option String → String → String → String → ℕ → Action TokenResponse
unfolding token_urlsafe
issue_token_response settings subject account client_id scope family_id expires_at = do
  email ← or_raise account internal_error
  require_allowed settings email family_id
  access_token ← mint_access_token settings subject email
  refresh_token ← token_urlsafe
  on_store (
      cleanup_and_store mcp_refresh_tokens refresh_token
        (issued_token subject email client_id scope family_id) expires_at)
  on_store (extend_expiry mcp_registered_clients client_id expires_at)
  pure (record {
    access_token = access_token;
    expires_in = mcp_jwt_expiry_seconds;
    refresh_token = refresh_token;
    scope = scope;
  })

-- `client_of` is the grant's `client_id` column.
unfoldable pub authenticated_grant :
    {V : Type 0} → Store V → (V → String) → String → String → String → String → Action (Row V)
unfolding validate_client_secret
authenticated_grant store client_of key client_id client_secret gone = do
  found ← on_store (cleanup_and_get store key)
  grant ← or_raise found (invalid_grant gone)
  guard (not (client_id == "") && client_id == client_of grant.values)
      (invalid_grant "client_id mismatch: re-authorise the connector")
  validate_client_secret client_id client_secret
  pure grant

abbrev pub refresh_token_gone : String
refresh_token_gone = "Refresh token is invalid or expired: re-authorise the connector"

abbrev pub code_gone : String
code_gone = "Authorization code is invalid or expired: re-authorise the connector"

-- A replay revokes the family of the grant that it presents.
unfoldable pub require_consumed :
    Option (Row McpRefreshToken) → String → Action (Row McpRefreshToken)
require_consumed (some row) family_id = pure row
require_consumed none family_id = do
  on_store (revoke_refresh_token_family family_id)
  raise (
      invalid_grant
        "Refresh token already used: every token from that sign-in is revoked, re-authorise the connector")

unfoldable pub exchange_refresh_token : Settings → String → String → String → Action TokenResponse
exchange_refresh_token settings refresh_token client_id client_secret = do
  guard (not (refresh_token == "")) (invalid_grant "refresh_token is required")
  grant ←
      authenticated_grant mcp_refresh_tokens (λ v. v.client_id) refresh_token client_id
        client_secret refresh_token_gone
  found ← on_store (consume_refresh_token refresh_token)
  consumed ← require_consumed found grant.values.family_id
  issue_token_response settings consumed.values.subject consumed.values.email
      consumed.values.client_id consumed.values.scope consumed.values.family_id consumed.expires_at

-- PKCE, which only `S256` asks for.
unfoldable pub check_verifier : McpAuthCode → String → Action Unit
check_verifier code code_verifier =
    if code.code_challenge_method == "S256"
    then (do
      guard (not (code_verifier == "")) (invalid_grant "code_verifier is required")
      challenge ← gets (λ db. db.env.urlsafe_digest code_verifier)
      guard (challenge == code.code_challenge)
          (invalid_grant "PKCE verification failed: re-authorise the connector"))
    else pure tt

unfoldable pub exchange_authorization_code :
    Settings → String → String → String → String → String → Action TokenResponse
exchange_authorization_code settings code redirect_uri client_id client_secret code_verifier = do
  authenticated_grant mcp_auth_codes (λ v. v.client_id) code client_id client_secret code_gone
  found ← on_store (cleanup_and_pop mcp_auth_codes code)
  consumed ← or_raise found (invalid_grant code_gone)
  guard (redirect_uri == consumed.values.redirect_uri)
      (invalid_grant "redirect_uri mismatch: re-authorise the connector")
  check_verifier consumed.values code_verifier
  family_id ← uuid4
  now ← on_store now_utc
  issue_token_response settings (some consumed.values.subject) (some consumed.values.email)
      consumed.values.client_id consumed.values.scope family_id (now + refresh_token_ttl)

pub record TokenForm : Type 0 where
  pub grant_type : String
  pub code : String
  pub redirect_uri : String
  pub client_id : String
  pub client_secret : String
  pub code_verifier : String
  pub refresh_token : String

unfoldable pub exchange : Settings → TokenForm → Action TokenResponse
exchange settings form =
    if form.grant_type == "refresh_token"
    then exchange_refresh_token settings form.refresh_token form.client_id form.client_secret
    else if form.grant_type == "authorization_code"
    then exchange_authorization_code settings form.code form.redirect_uri form.client_id
        form.client_secret form.code_verifier
    else raise
        (token_error 400 "unsupported_grant_type" "Only authorization_code and refresh_token")

abbrev pub closed : {E A : Type 0} → Result E A × OauthDb → Result E A × OauthDb
closed (result, t) = (result, reopened t)

abbrev pub secret_key_missing : String
secret_key_missing =
    "Google sign-in is not configured on this deploy: a human sets SECRET_KEY (CLAUDE.md, Google sign-in)."

-- The session closes when the exchange returns or raises.
unfoldable pub oauth_token : Settings → TokenForm → OauthDb → Result Refusal TokenResponse × OauthDb
oauth_token settings form db =
    if settings.secret_key_configured
    then closed (exchange settings form (reopened db))
    else (err (http_error 501 secret_key_missing), db)
