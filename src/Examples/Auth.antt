-- ===== src/Examples/Auth.antt =====
-- The web session, logout and the callback of backend/auth.py on small tables.
use reli.Prelude.{◌≤◌, starts_with, ◌||◌}
use reli.Prelude.{
  ℕ, suc, false, ◌*◌, ◌<◌, ◌≡◌, refl, Bool, if◌then◌else◌, ltb, true, some, none, String, [], ◌∷◌,
  ◌==◌, String_equals, arith,
}
use reli.Result.{Result, ok, err}
use reli.Exec.{pure, raise, lift, gets, modify, guard, or_raise, map_error, try, ◌>>=◌}
use reli.OauthState.Records.{Tables, Env, OauthDb, Claims}
use reli.OauthState.Stores.{
  purge_expired, make_room, cleanup_and_store, cleanup_and_get, cleanup_and_pop, now_utc, commit,
}
use reli.McpOauth.Refusals.{Settings, second}
use reli.McpOauth.Authorization.{SignInSettings}
use reli.Auth.Exceptions.{Exception, JwtError, expired_signature, Jwt, on_db, with_session}
use reli.Auth.GoogleLogin.{Google, post, exchange_code}
use reli.Auth.Sessions.{
  uuid4, token_urlsafe, create_jwt, decode_jwt, is_revoked, revoke, admitted_claims, web_session,
  presented_claims, revoke_presented, logout,
}
use reli.Auth.Sessions.Later.{Later, looked_up, nothing_more}
use reli.Auth.Sessions.Revoked.{logout-ends_session}
use reli.Auth.Callback.{
  identify, admit_web, finish_web_sign_in, store_code, issue_code, admit_mcp, finish_mcp_sign_in,
  finish_approved, finish_flow, take_flow, google_callback,
}
use reli.RateLimit.Buckets.{Tier, user}
use reli.RateLimit.Keys.{
  HttpRequest, client_address, admit_bearer, bearer_subject, subject_or_bearer, user_subject,
}
use reli.RateLimit.Middleware.{request_key}
use reli.RateLimit.Middleware.Earned.{Earned, request_key-Earned}
use reli.Guards.{
  goes_on, check_session, check_bearer, check_token, check_claims, refusal, route, is_guarded,
  is_mcp, admit_request,
}
use reli.Guards.Authorized.{IsAuthorized, admit_request-IsAuthorized}

abbrev callback_env : Env
callback_env = record {
  times = λ n. n;
  uuids = λ n. "uuid";
  secrets = λ n. "code";
  digest = λ s. s;
  urlsafe_digest = λ s. s;
  jwt_encode = λ claims. claims.email;
  lower = λ s. s;
}

abbrev session_settings : Settings
session_settings = record {
  secret_key_configured = true;
  allowed_emails = "owner@example.com" ∷ [];
  base_url = "https://reli.example";
}

abbrev session_claims : Claims
session_claims = record {
  iss = "https://reli.example";
  sub = some "1";
  email = "owner@example.com";
  aud = "web";
  iat = 0;
  exp = 100;
  jti = "session";
}

-- Every token holds these claims, until they expire.
abbrev session_jwt : Jwt
session_jwt = record {
  decode = λ now token audience issuer.
      if ltb now (100 * second) then ok session_claims else err expired_signature;
}

abbrev flow_tables : Tables
flow_tables = record {
  registered_clients = [];
  oauth_sessions =
      record {
        key = "mcp-state";
        values = record {
          client_state = "s";
          redirect_uri = "https://client.example/cb";
          code_challenge = "challenge";
          code_challenge_method = "S256";
          client_id = "client";
          scope = "mcp";
          google_code_verifier = "verifier";
        };
        expires_at = 100;
      }
      ∷ [];
  auth_codes = [];
  refresh_tokens = [];
  web_sessions =
      record {
        key = "web-state";
        values = record { google_code_verifier = "verifier" };
        expires_at = 100;
      }
      ∷ [];
  revoked_tokens = [];
}

abbrev flow_db : OauthDb
flow_db = record { env = callback_env; committed = flow_tables; pending = flow_tables; calls = 0 }

abbrev google_settings : SignInSettings
google_settings = record {
  settings = session_settings;
  google_client_id = "id";
  google_client_secret = "secret";
  google_auth_redirect_uri = "https://reli.example/cb";
  allowed_emails_setting = "owner@example.com";
}

-- Google names the owner for every code.
abbrev google_owner : Google
google_owner = record {
  post = λ n request. record { status_code = 200; id_token = some "id-token"; error = none };
  decode_id_token = λ now token client_id.
      ok (record { sub = "1"; email = "owner@example.com"; email_verified = true });
}

-- The functions of backend/auth.py open to evaluation.
auth_evaluated : Unit {0}
unfolding check_session check_bearer check_token check_claims refusal route is_guarded is_mcp
    admit_request starts_with admit_bearer bearer_subject subject_or_bearer user_subject request_key
    client_address post exchange_code uuid4 token_urlsafe create_jwt decode_jwt is_revoked revoke
    admitted_claims web_session presented_claims revoke_presented logout identify admit_web
    finish_web_sign_in store_code issue_code admit_mcp finish_mcp_sign_in finish_approved
    finish_flow take_flow google_callback on_db with_session cleanup_and_store cleanup_and_get
    cleanup_and_pop purge_expired make_room now_utc commit pure raise lift gets modify guard
    or_raise map_error try ◌>>=◌
auth_evaluated = tt

logged_out :
    (t : OauthDb) × (logout session_settings session_jwt
        (some "https://reli.example")
        "cookie"
        flow_db
      ≡ (ok tt, t))
unfolding auth_evaluated
logged_out = (_, refl)

decoded_once :
    (b : Bool) (c : Claims)
    → ◌≡◌ {A = Result JwtError Claims}
        (if b then ok session_claims else err expired_signature)
        (ok c)
    → c ≡ session_claims
decoded_once true c h = ground (arith, h)
decoded_once false c h = absurd (ground (arith, h))

session_unchanged :
    (a b : ℕ) (audience issuer : String) (c d : Claims)
    → session_jwt.decode a "cookie" audience issuer ≡ ok c
    → session_jwt.decode b "cookie" audience issuer ≡ ok d
    → d ≡ c
session_unchanged a b audience issuer c d h k =
    ground (arith, decoded_once (ltb a (100 * second)) c h, decoded_once (ltb b (100 * second)) d k)

-- Another request then looks the token up.
looked_up_later :
    (u : OauthDb) × Later session_claims logged_out.0 u
    × (u.env.times (suc u.calls) < session_claims.exp * second)
unfolding auth_evaluated logged_out
looked_up_later = (
  (is_revoked session_claims logged_out.0).1,
  looked_up session_claims logged_out.0 (is_revoked session_claims logged_out.0).1
      (nothing_more (is_revoked session_claims logged_out.0).1),
  ground arith,
)

clock_forth : (a b : ℕ) → a ≤ b → logged_out.0.env.times a ≤ logged_out.0.env.times b
unfolding auth_evaluated logged_out
clock_forth a b h = h

logout-ends_session_example :
    (reason : Exception) × ((web_session session_settings session_jwt "cookie" looked_up_later.0).0
      ≡ err reason)
logout-ends_session_example =
    logout-ends_session session_settings session_jwt "cookie" session_claims
      (some "https://reli.example") flow_db logged_out.0 looked_up_later.0 session_unchanged refl
      refl refl logged_out.1 clock_forth looked_up_later.1 looked_up_later.2

abbrev cookie_request : HttpRequest
cookie_request = record {
  path = "/api/things";
  client = some "198.51.100.7";
  headers = [];
  session_cookie = "cookie";
}

abbrev api_tier : Tier
api_tier = record { name = "api"; limit = 60 }

keyed :
    (t : OauthDb) × (request_key session_settings session_jwt
        (λ address. false)
        api_tier
        cookie_request
        flow_db
      ≡ (ok (user "1"), t))
unfolding auth_evaluated
keyed = (_, refl)

request_key-Earned_example :
    ((api_tier.name == "api") ≡ true)
    × (session_settings.secret_key_configured ≡ true)
    × Earned session_settings session_jwt cookie_request flow_db "1"
request_key-Earned_example =
    request_key-Earned session_settings session_jwt (λ address. false) api_tier cookie_request "1"
      flow_db keyed.0 keyed.1

abbrev bearer_request : HttpRequest
bearer_request = record {
  path = "/mcp";
  client = none;
  headers = ("authorization", "Bearer token") ∷ [];
  session_cookie = "";
}

gone_on :
    (t : OauthDb) × (admit_request session_settings session_jwt true bearer_request flow_db
      ≡ (ok goes_on, t))
unfolding auth_evaluated
gone_on = (_, refl)

bearer_is_mcp : (is_guarded bearer_request.path || is_mcp true bearer_request.path) ≡ true
unfolding auth_evaluated
bearer_is_mcp = refl

admit_request-IsAuthorized_example :
    IsAuthorized session_settings session_jwt bearer_request flow_db
admit_request-IsAuthorized_example =
    admit_request-IsAuthorized session_settings session_jwt bearer_request flow_db gone_on.0
      bearer_is_mcp gone_on.1
