-- ===== src/Auth/Callback.antt =====
-- `GET /api/auth/google/callback` of backend/auth.py.
pub mod SignedIn
pub mod Issued
pub mod Delivered
use reli.Prelude.{
  ℕ, ◌+◌, ◌*◌, String, Bool, true, false, not, Option, none, some, List, [], ◌∷◌, ◌++◌, ◌==◌,
  String_equals, if◌then◌else◌,
}
use reli.Exec.{pure, raise, gets, guard, or_raise, ◌>>=◌, ◌>>◌, try}
use reli.OauthState.Records.{Row, OauthDb, McpOauthSession, McpAuthCode, WebOauthSession}
use reli.OauthState.Stores.{
  cleanup_and_pop, cleanup_and_store, now_utc, web_oauth_sessions, mcp_oauth_sessions,
  mcp_auth_codes,
}
use reli.McpOauth.Refusals.{is_allowed, second}
use reli.McpOauth.Authorization.{SignInSettings}
use reli.Auth.Exceptions.{
  Action, Exception, store_full_error, google_sign_in_failed, http_exception, on_db, with_session,
}
use reli.Auth.GoogleLogin.{Google, Identity, exchange_code}
use reli.Auth.Sessions.{
  create_jwt, token_urlsafe, web_audience, invite_only, on_full, server_at_capacity,
}

abbrev pub mcp_auth_code_ttl : ℕ
mcp_auth_code_ttl = 60 * second

-- Where the browser is sent: the sign-in view with an error, `/` with the session cookie, or the client's
-- redirect URI with parameters and the client's state.
pub data Redirect : Type 0 where
  sign_in_view : String → Redirect
  signed_in : String → Redirect
  client_redirect : String → List (String × String) → Redirect

-- `client_redirect`: the client's state is sent along if there is one.
abbrev pub redirect_to_client : McpOauthSession → List (String × String) → Redirect
redirect_to_client flow params =
    client_redirect flow.redirect_uri
      (params ++ (if flow.client_state == "" then [] else ("state", flow.client_state) ∷ []))

-- `except google_login.GoogleSignInFailed`: the text of the failure is not modelled.
abbrev pub on_google_failed : Exception → Action Identity
on_google_failed (google_sign_in_failed failed) = raise (http_exception 502 "Google sign-in failed")
on_google_failed e = raise e

unfoldable pub identify : SignInSettings → Google → String → String → Action Identity
unfolding exchange_code
identify s google code code_verifier =
    try (exchange_code s google code code_verifier) on_google_failed

unfoldable pub admit_web : SignInSettings → Identity → Action Redirect
unfolding create_jwt
admit_web s identity = do
  allowed ← gets (λ db. is_allowed s.settings db.env identity.email)
  if allowed
      then (do
        cookie ← create_jwt s.settings identity.subject identity.email web_audience
        pure (signed_in cookie))
      else pure (sign_in_view "invite_only")

unfoldable pub finish_web_sign_in :
    SignInSettings → Google → WebOauthSession → String → String → Action Redirect
unfolding identify admit_web
finish_web_sign_in s google flow code error =
    if not (error == "")
    then pure (sign_in_view "cancelled")
    else (do identity ← identify s google code flow.google_code_verifier; admit_web s identity)

abbrev pub auth_code_of : Identity → McpOauthSession → McpAuthCode
auth_code_of identity flow = record {
  subject = identity.subject;
  email = identity.email;
  code_challenge = flow.code_challenge;
  code_challenge_method = flow.code_challenge_method;
  redirect_uri = flow.redirect_uri;
  client_id = flow.client_id;
  scope = flow.scope;
}

unfoldable pub store_code : Identity → McpOauthSession → String → Action Unit
unfolding now_utc
store_code identity flow auth_code = do
  now ← on_db now_utc
  on_db (
      cleanup_and_store mcp_auth_codes auth_code (auth_code_of identity flow)
        (now + mcp_auth_code_ttl))

unfoldable pub issue_code : Identity → McpOauthSession → Action Redirect
unfolding token_urlsafe store_code
issue_code identity flow = do
  auth_code ← token_urlsafe
  try (store_code identity flow auth_code) on_full
  pure (redirect_to_client flow (("code", auth_code) ∷ []))

unfoldable pub admit_mcp : SignInSettings → Identity → McpOauthSession → Action Redirect
unfolding issue_code
admit_mcp s identity flow = do
  allowed ← gets (λ db. is_allowed s.settings db.env identity.email)
  if allowed
      then issue_code identity flow
      else pure (
          redirect_to_client flow
            (("error", "access_denied") ∷ ("error_description", invite_only) ∷ []))

unfoldable pub finish_mcp_sign_in :
    SignInSettings → Google → McpOauthSession → String → String → Action Redirect
unfolding identify admit_mcp
finish_mcp_sign_in s google flow code error =
    if not (error == "")
    then pure (
        redirect_to_client flow
          (("error", "access_denied") ∷ ("error_description", "Google sign-in was cancelled") ∷ []))
    else (do identity ← identify s google code flow.google_code_verifier; admit_mcp s identity flow)

-- `request.cookies.get(MCP_FLOW_COOKIE) != state`
abbrev pub is_approved : Option String → String → Bool
is_approved none state = false
is_approved (some cookie) state = cookie == state

unfoldable pub finish_approved :
    SignInSettings
    → Google
    → Option String
    → String
    → String
    → String
    → Option (Row McpOauthSession)
    → Action Redirect
unfolding finish_mcp_sign_in
finish_approved s google cookie code state error found = do
  flow ←
      or_raise found
        (http_exception 400 "Invalid or expired sign-in state: start the sign-in again.")
  guard (is_approved cookie state) (
      http_exception 400
        "Sign-in was not approved from this browser: start again from the connector.")
  finish_mcp_sign_in s google flow.values code error

-- The state is a web sign-in's, or else an MCP sign-in's.
unfoldable pub finish_flow :
    SignInSettings
    → Google
    → Option String
    → String
    → String
    → String
    → Option (Row WebOauthSession)
    → Action Redirect
unfolding finish_web_sign_in finish_approved
finish_flow s google cookie code state error (some flow) =
    finish_web_sign_in s google flow.values code error
finish_flow s google cookie code state error none = do
  found ← on_db (cleanup_and_pop mcp_oauth_sessions state)
  finish_approved s google cookie code state error found

unfoldable pub take_flow :
    SignInSettings → Google → Option String → String → String → String → Action Redirect
unfolding finish_flow
take_flow s google cookie code state error = do
  web_flow ← on_db (cleanup_and_pop web_oauth_sessions state)
  finish_flow s google cookie code state error web_flow

-- `cookie` is the flow cookie, which an answer to the MCP flow deletes.
unfoldable pub google_callback :
    SignInSettings → Google → Option String → String → String → String → Action Redirect
unfolding with_session take_flow
google_callback s google cookie code state error =
    with_session (take_flow s google cookie code state error)
