-- ===== src/Auth/Sessions.antt =====
-- The web session of backend/auth.py: the cookie's token, the revocation list, and logout.
pub mod Admitted
pub mod Later
pub mod Revoked
use reli.Prelude.{
  ℕ, suc, ◌+◌, ◌*◌, ◌/◌, String, Bool, true, false, ◌&&◌, not, Option, none, some, List, ◌==◌,
  String_equals, if◌then◌else◌, is_some,
}
use reli.Result.{Result, ok, err}
use reli.Exec.{pure, raise, lift, gets, guard, or_raise, ◌>>=◌, ◌>>◌, try}
use reli.OauthState.Records.{OauthDb, Claims, RevokedToken, WebOauthSession}
use reli.OauthState.Stores.{
  cleanup_and_get, cleanup_and_store, now_utc, revoked_tokens, web_oauth_sessions,
}
use reli.McpOauth.Refusals.{Settings, is_allowed, second, mcp_jwt_expiry_seconds}
use reli.McpOauth.Authorization.{SignInSettings, missing_sign_in_settings, is_empty, is_same_origin}
use reli.Auth.Exceptions.{
  Action, Exception, session_refused, jwt_error, store_full_error, http_exception, JwtError,
  expired_signature, invalid_token, Jwt, on_db, with_session,
}
use reli.Auth.GoogleLogin.{authorization_url}

abbrev pub mcp_audience : String
mcp_audience = "mcp"

abbrev pub web_audience : String
web_audience = "web"

abbrev pub web_jwt_expiry_seconds : ℕ
web_jwt_expiry_seconds = 60 * 60 * 24 * 7

abbrev pub web_sign_in_ttl : ℕ
web_sign_in_ttl = 60 * 10 * second

-- `_EXPIRY_SECONDS_BY_AUDIENCE`, whose two keys are the only audiences.
abbrev pub expiry_seconds : String → ℕ
expiry_seconds audience =
    if audience == web_audience then web_jwt_expiry_seconds else mcp_jwt_expiry_seconds

unfoldable pub uuid4 : Action String
uuid4 db = (ok (db.env.uuids db.calls), record db { calls = suc db.calls })

unfoldable pub token_urlsafe : Action String
token_urlsafe db = (ok (db.env.secrets db.calls), record db { calls = suc db.calls })

abbrev pub new_claims : Settings → String → String → String → ℕ → String → Claims
new_claims settings subject email audience now jti = record {
  iss = settings.base_url;
  sub = some subject;
  email = email;
  aud = audience;
  iat = now / second;
  exp = now / second + expiry_seconds audience;
  jti = jti;
}

unfoldable pub create_jwt : Settings → String → String → String → Action String
unfolding now_utc uuid4
create_jwt settings subject email audience = do
  now ← on_db now_utc
  jti ← uuid4
  gets λ db. db.env.jwt_encode (new_claims settings subject email audience now jti)

abbrev pub decoded : Result JwtError Claims → Result Exception Claims
decoded (ok claims) = ok claims
decoded (err e) = err (jwt_error e)

unfoldable pub decode_jwt : Settings → Jwt → String → String → Action Claims
unfolding now_utc
decode_jwt settings jwt token audience = do
  now ← on_db now_utc
  lift (decoded (jwt.decode now token audience settings.base_url))

unfoldable pub is_revoked : Claims → Action Bool
unfolding with_session
is_revoked claims = do
  row ← with_session (on_db (cleanup_and_get revoked_tokens claims.jti))
  pure (is_some row)

unfoldable pub revoke : Claims → Action Unit
unfolding with_session
revoke claims =
    with_session
      (on_db (cleanup_and_store revoked_tokens claims.jti (record {}) (claims.exp * second)))

abbrev pub invite_only : String
invite_only =
    "This Reli is invite-only: sign in with the Google account listed in ALLOWED_EMAILS on the deploy."

abbrev pub session_expired : String
session_expired = "Session expired: sign in with Google at / again."

abbrev pub session_invalid : String
session_invalid = "Invalid session: sign in with Google at / again."

abbrev pub session_revoked : String
session_revoked = "Session revoked: sign in with Google at / again."

abbrev pub not_signed_in : String
not_signed_in = "Not signed in: sign in with Google at /."

abbrev pub secret_key_missing : String
secret_key_missing =
    "Google sign-in is not configured on this deploy: a human sets SECRET_KEY (CLAUDE.md, Google sign-in)."

-- The two `except` clauses of `web_session`.
abbrev pub on_unreadable : Exception → Action Claims
on_unreadable (jwt_error expired_signature) = raise (session_refused session_expired)
on_unreadable (jwt_error invalid_token) = raise (session_refused session_invalid)
on_unreadable e = raise e

-- What admits a token that is presented.
unfoldable pub admitted_claims : Settings → Jwt → String → Action Claims
unfolding decode_jwt is_revoked
admitted_claims settings jwt token = do
  guard settings.secret_key_configured (session_refused secret_key_missing)
  claims ← try (decode_jwt settings jwt token web_audience) on_unreadable
  allowed ← gets (λ db. is_allowed settings db.env claims.email)
  guard allowed (session_refused invite_only)
  revoked ← is_revoked claims
  guard (not revoked) (session_refused session_revoked)
  pure claims

-- `token` is the session cookie, or empty.
unfoldable pub web_session : Settings → Jwt → String → Action (Option Claims)
unfolding admitted_claims
web_session settings jwt token =
    if token == ""
    then pure none
    else (do claims ← admitted_claims settings jwt token; pure (some claims))

abbrev pub on_session_refused : Exception → Action (Option Claims)
on_session_refused (session_refused detail) = raise (http_exception 401 detail)
on_session_refused e = raise e

-- `GET /api/auth/me`: the email.
unfoldable pub current_session : Settings → Jwt → String → Action String
unfolding web_session
current_session settings jwt token = do
  found ← try (web_session settings jwt token) on_session_refused
  claims ← or_raise found (http_exception 401 not_signed_in)
  pure claims.email

abbrev pub cross_origin : String
cross_origin = "Refused: this request did not come from Reli's own page."

-- `contextlib.suppress(jwt.InvalidTokenError)`
abbrev pub on_suppressed : Exception → Action (Option Claims)
on_suppressed (jwt_error e) = pure none
on_suppressed e = raise e

unfoldable pub presented_claims : Settings → Jwt → String → Action (Option Claims)
unfolding decode_jwt
presented_claims settings jwt token =
    if not (token == "") && settings.secret_key_configured
    then try (do claims ← decode_jwt settings jwt token web_audience; pure (some claims))
        on_suppressed
    else pure none

abbrev pub server_at_capacity : String
server_at_capacity = "Server is at capacity; try again later"

abbrev pub on_full : Exception → Action Unit
on_full (store_full_error full) = raise (http_exception 503 server_at_capacity)
on_full e = raise e

unfoldable pub revoke_presented : Option Claims → Action Unit
unfolding revoke
revoke_presented none = pure tt
revoke_presented (some claims) = try (revoke claims) on_full

-- `POST /api/auth/logout`: when it returns, the answer deletes the cookie.
unfoldable pub logout : Settings → Jwt → Option String → String → Action Unit
unfolding presented_claims revoke_presented
logout settings jwt origin token = do
  guard (is_same_origin settings origin) (http_exception 403 cross_origin)
  claims ← presented_claims settings jwt token
  revoke_presented claims

-- `GET /api/auth/google`: the query of the URL to send the browser to.
unfoldable pub google_sign_in : SignInSettings → Action (List (String × String))
unfolding token_urlsafe now_utc with_session
google_sign_in s = do
  guard (is_empty (missing_sign_in_settings s))
      (http_exception 501 "Google sign-in is not configured on this deploy")
  state ← token_urlsafe
  code_verifier ← token_urlsafe
  with_session (do
    now ← on_db now_utc
    on_db (
        cleanup_and_store web_oauth_sessions state (record { google_code_verifier = code_verifier })
          (now + web_sign_in_ttl)))
  gets λ db. authorization_url s db.env state code_verifier
