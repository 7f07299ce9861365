-- ===== src/McpOauth/Authorization.antt =====
-- `GET /oauth/authorize` and `POST /oauth/authorize/confirm` of backend/mcp_oauth.py.
pub mod Checked
use reli.Prelude.{
  ℕ, suc, ◌+◌, ◌*◌, String, Bool, true, false, ◌&&◌, not, Option, none, some, List, [], ◌∷◌, ◌==◌,
  String_equals, if◌then◌else◌, contains, filter, leb, text_length,
}
use reli.Result.{Result, ok, err}
use reli.Exec.{pure, gets, guard, or_raise, ◌>>=◌, ◌>>◌}
use reli.OauthState.Records.{Row, OauthDb, McpOauthSession, McpRegisteredClient}
use reli.OauthState.Stores.{
  cleanup_and_get, cleanup_and_store, mcp_registered_clients, mcp_oauth_sessions, now_utc,
}
use reli.OauthState.Capped.{reopened}
use reli.McpOauth.Refusals.{Action, Refusal, http_error, Settings, on_store, second}
use reli.McpOauth.Tokens.{token_urlsafe, closed}
use reli.McpOauth.Registration.{Libraries, redirect_uri_is_safe, max_param_length}

abbrev pub session_ttl : ℕ
session_ttl = 60 * 10 * second

-- The settings that the Google sign-in needs.
pub record SignInSettings : Type 0 where
  pub settings : Settings
  pub google_client_id : String
  pub google_client_secret : String
  pub google_auth_redirect_uri : String
  pub allowed_emails_setting : String

abbrev pub sign_in_settings : List String
sign_in_settings =
    "SECRET_KEY" ∷ "GOOGLE_CLIENT_ID" ∷ "GOOGLE_CLIENT_SECRET" ∷ "GOOGLE_AUTH_REDIRECT_URI"
    ∷ "ALLOWED_EMAILS" ∷ []

abbrev pub sign_in_setting_present : SignInSettings → String → Bool
sign_in_setting_present s name =
    if name == "SECRET_KEY"
    then s.settings.secret_key_configured
    else if name == "GOOGLE_CLIENT_ID"
    then not (s.google_client_id == "")
    else if name == "GOOGLE_CLIENT_SECRET"
    then not (s.google_client_secret == "")
    else if name == "GOOGLE_AUTH_REDIRECT_URI"
    then not (s.google_auth_redirect_uri == "")
    else not (s.allowed_emails_setting == "")

unfoldable pub missing_sign_in_settings : SignInSettings → List String
missing_sign_in_settings s = filter (λ name. not (sign_in_setting_present s name)) sign_in_settings

abbrev pub is_empty : List String → Bool
is_empty [] = true
is_empty (_ ∷ _) = false

-- The query of the request, with the defaults filled in.
pub record AuthorizeQuery : Type 0 where
  pub client_id : String
  pub redirect_uri : String
  pub state : String
  pub code_challenge : String
  pub code_challenge_method : String
  pub scope : String
  pub response_type : String

-- `Query(max_length=MAX_PARAM_LENGTH)` on every parameter.
abbrev pub fits : String → Bool
fits value = leb (text_length value) max_param_length

abbrev pub query_fits : AuthorizeQuery → Bool
query_fits q =
    fits q.client_id
    && fits q.redirect_uri
    && fits q.state
    && fits q.code_challenge
    && fits q.code_challenge_method
    && fits q.scope
    && fits q.response_type

-- What the consent page names.
pub record ConsentPage : Type 0 where
  pub server_state : String
  pub client_name : String
  pub redirect_uri : String

abbrev pub session_of : AuthorizeQuery → String → McpOauthSession
session_of q code_verifier = record {
  client_state = q.state;
  redirect_uri = q.redirect_uri;
  code_challenge = q.code_challenge;
  code_challenge_method = q.code_challenge_method;
  client_id = q.client_id;
  scope = q.scope;
  google_code_verifier = code_verifier;
}

unfoldable pub begin_sign_in : AuthorizeQuery → String → Action ConsentPage
unfolding token_urlsafe now_utc
begin_sign_in q client_name = do
  server_state ← token_urlsafe
  code_verifier ← token_urlsafe
  now ← on_store now_utc
  on_store (
      cleanup_and_store mcp_oauth_sessions server_state (session_of q code_verifier)
        (now + session_ttl))
  pure (record {
    server_state = server_state;
    client_name = client_name;
    redirect_uri = q.redirect_uri;
  })

unfoldable pub authorize : SignInSettings → Libraries → AuthorizeQuery → Action ConsentPage
authorize s lib q = do
  guard (query_fits q) (http_error 422 "String should have at most 2048 characters")
  guard (is_empty (missing_sign_in_settings s))
      (http_error 501 "Google sign-in is not configured on this deploy")
  guard (q.response_type == "code") (http_error 400 "Only response_type=code is supported")
  guard (q.code_challenge_method == "S256")
      (http_error 400 "Only code_challenge_method=S256 is supported")
  guard (not (q.redirect_uri == "")) (http_error 400 "redirect_uri is required")
  guard (not (q.code_challenge == "")) (http_error 400 "code_challenge is required (PKCE required)")
  found ← on_store (cleanup_and_get mcp_registered_clients q.client_id)
  registered ←
      or_raise found (http_error 400 "Unknown client_id — register first via POST /oauth/register")
  guard (contains q.redirect_uri registered.values.redirect_uris)
      (http_error 400 "redirect_uri not registered for this client")
  guard (redirect_uri_is_safe lib q.redirect_uri)
      (http_error 400 "redirect_uri is not one this server accepts: re-register the client")
  begin_sign_in q registered.values.client_name

unfoldable pub oauth_authorize :
    SignInSettings → Libraries → AuthorizeQuery → OauthDb → Result Refusal ConsentPage × OauthDb
oauth_authorize s lib q db = closed (authorize s lib q (reopened db))

abbrev pub is_same_origin : Settings → Option String → Bool
is_same_origin settings none = false
is_same_origin settings (some origin) = origin == settings.base_url

-- Where the browser goes, and the flow cookie that it takes along.
pub record ConfirmRedirect : Type 0 where
  pub state : String
  pub code_challenge : String
  pub flow_cookie : String

-- `origin` is the request's `Origin` header.
unfoldable pub confirm : Settings → Option String → String → Action ConfirmRedirect
confirm settings origin server_state = do
  guard (is_same_origin settings origin)
      (http_error 400 "Approve from Reli's own consent page: start again from the connector.")
  found ← on_store (cleanup_and_get mcp_oauth_sessions server_state)
  flow ← or_raise found (http_error 400 "Sign-in expired: start again from the connector.")
  challenge ← gets (λ db. db.env.urlsafe_digest flow.values.google_code_verifier)
  pure (record { state = server_state; code_challenge = challenge; flow_cookie = server_state })

unfoldable pub oauth_authorize_confirm :
    Settings → Option String → String → OauthDb → Result Refusal ConfirmRedirect × OauthDb
oauth_authorize_confirm settings origin server_state db =
    closed (confirm settings origin server_state (reopened db))
