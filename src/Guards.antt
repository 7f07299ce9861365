-- ===== src/Guards.antt =====
-- What stands before the graph: the session check of backend/web_view_auth.py, the bearer check of
-- backend/mcp_transport.py, and their order in backend/main.py. The text of a header is given; a path that no
-- check is about goes on.
pub mod Session
pub mod Token
pub mod Authorized
use reli.Prelude.{
  ℕ, String, Bool, true, false, ◌&&◌, ◌||◌, not, Option, none, some, ◌==◌, String_equals,
  if◌then◌else◌, starts_with, text_drop,
}
use reli.Exec.{pure, raise, gets, ◌>>=◌, try}
use reli.OauthState.Records.{OauthDb, Claims}
use reli.McpOauth.Refusals.{Settings, is_allowed}
use reli.Auth.Exceptions.{
  Action, Exception, session_refused, jwt_error, expired_signature, invalid_token, Jwt,
}
use reli.Auth.Sessions.{
  mcp_audience, decode_jwt, is_revoked, web_session, not_signed_in, invite_only,
}
use reli.RateLimit.Keys.{HttpRequest, authorization}

-- A request goes on to the app, or is answered with 401, the detail, and the `error` of the challenge.
pub data Admission : Type 0 where
  goes_on : Admission
  unauthorized : String → Option String → Admission

unfoldable pub is_guarded : String → Bool
unfolding starts_with
is_guarded path =
    if starts_with "/api/auth/" path then false else path == "/api" || starts_with "/api/" path

abbrev pub on_refused : Exception → Action (Option String)
on_refused (session_refused detail) = pure (some detail)
on_refused e = raise e

abbrev pub no_credential : Option Claims → Option String
no_credential none = some not_signed_in
no_credential (some claims) = none

unfoldable pub refusal : Settings → Jwt → HttpRequest → Action (Option String)
unfolding web_session
refusal settings jwt request =
    try (do found ← web_session settings jwt request.session_cookie; pure (no_credential found))
      on_refused

abbrev pub admission_of : Option String → Admission
admission_of none = goes_on
admission_of (some reason) = unauthorized reason none

-- `_WebViewAuthMiddleware.__call__`
unfoldable pub check_session : Settings → Jwt → Bool → HttpRequest → Action Admission
unfolding is_guarded refusal
check_session settings jwt is_http request =
    if not is_http || not (is_guarded request.path)
    then pure goes_on
    else (do reason ← refusal settings jwt request; pure (admission_of reason))

abbrev pub mcp_closed : String
mcp_closed = "/mcp is closed: a human sets SECRET_KEY and the Google sign-in settings (CLAUDE.md)"

abbrev pub no_bearer_token : String
no_bearer_token =
    "Authorization required: a Bearer of the access token the authorization server at /oauth/token issues after a Google sign-in"

abbrev pub bearer_expired : String
bearer_expired =
    "Access token expired: the connector refreshes it at /oauth/token with its refresh token, or re-authorises against Google"

abbrev pub bearer_not_ours : String
bearer_not_ours =
    "Not a token this Reli issued: authorise the connector against Google via the authorization server"

abbrev pub bearer_revoked : String
bearer_revoked =
    "Access token revoked: the connector refreshes it at /oauth/token, or re-authorises against Google"

abbrev pub account_not_allowed : String
account_not_allowed =
    "Account is not allowed: This Reli is invite-only: sign in with the Google account listed in ALLOWED_EMAILS on the deploy."

abbrev pub not_accepted : String → Admission
not_accepted description = unauthorized description (some "invalid_token")

-- The claims of a bearer token, or why it is not read.
pub data Reading : Type 0 where
  holds : Claims → Reading
  unreadable : String → Reading

abbrev pub on_unreadable_bearer : Exception → Action Reading
on_unreadable_bearer (jwt_error expired_signature) = pure (unreadable bearer_expired)
on_unreadable_bearer (jwt_error invalid_token) = pure (unreadable bearer_not_ours)
on_unreadable_bearer e = raise e

unfoldable pub check_claims : Settings → Reading → Action Admission
unfolding is_revoked
check_claims settings (unreadable description) = pure (not_accepted description)
check_claims settings (holds claims) = do
  allowed ← gets (λ db. is_allowed settings db.env claims.email)
  if allowed
      then (do
        revoked ← is_revoked claims
        pure (if revoked then not_accepted bearer_revoked else goes_on))
      else pure (not_accepted account_not_allowed)

abbrev pub provided : String → String
provided header = if starts_with "Bearer " header then text_drop 7 header else ""

unfoldable pub check_token : Settings → Jwt → String → Action Admission
unfolding decode_jwt check_claims
check_token settings jwt token =
    if token == "" then pure (unauthorized no_bearer_token none) else (do
      reading ←
          try (do claims ← decode_jwt settings jwt token mcp_audience; pure (holds claims))
            on_unreadable_bearer
      check_claims settings reading)

-- `_BearerTokenMiddleware.__call__`
unfoldable pub check_bearer : Settings → Jwt → Bool → HttpRequest → Action Admission
unfolding check_token
check_bearer settings jwt is_http request =
    if not is_http
    then pure goes_on
    else if settings.secret_key_configured
    then check_token settings jwt (provided (authorization "" request.headers))
    else pure (unauthorized mcp_closed none)

-- `_BareMcpPath`: the path that is routed.
abbrev pub routed : Bool → String → String
routed is_http path = if is_http && path == "/mcp" then "/mcp/" else path

-- Whether `app.mount("/mcp", …)` takes the request.
unfoldable pub is_mcp : Bool → String → Bool
unfolding starts_with
is_mcp is_http path = starts_with "/mcp/" (routed is_http path)

-- The router behind the session check.
unfoldable pub route : Settings → Jwt → Bool → HttpRequest → Admission → Action Admission
unfolding is_mcp check_bearer
route settings jwt is_http request goes_on =
    if is_mcp is_http request.path then check_bearer settings jwt is_http request else pure goes_on
route settings jwt is_http request answer = pure answer

unfoldable pub admit_request : Settings → Jwt → Bool → HttpRequest → Action Admission
unfolding check_session route
admit_request settings jwt is_http request = do
  session ← check_session settings jwt is_http request
  route settings jwt is_http request session
