-- ===== src/Examples/SignIn.antt =====
-- Registration, authorization and consent of backend/mcp_oauth.py on small tables.
use reli.Prelude.{◌≡◌, refl, true, some, none, [], ◌∷◌}
use reli.Result.{ok}
use reli.Exec.{pure, lift, gets, modify, guard, or_raise, map_error, for_each, ◌>>=◌}
use reli.OauthState.Records.{Tables, Env, OauthDb}
use reli.OauthState.Stores.{
  purge_expired, make_room, cleanup_and_store, cleanup_and_get, now_utc, commit,
}
use reli.McpOauth.Refusals.{Settings, on_store}
use reli.McpOauth.Tokens.{uuid4, token_urlsafe}
use reli.McpOauth.Registration.{
  ClientMetadata, Libraries, RegistrationResponse, utf8_length, redirect_uri_is_safe,
  validate_registration_body, validate_auth_method, validate_redirect_uris, store_registration,
  register,
}
use reli.McpOauth.Authorization.{
  SignInSettings, AuthorizeQuery, ConsentPage, ConfirmRedirect, missing_sign_in_settings,
  begin_sign_in, authorize, confirm,
}
use reli.McpOauth.Authorization.Checked.{Confirmed, confirm-Confirmed}

abbrev open_env : Env
open_env = record {
  times = λ n. n;
  uuids = λ n. "client";
  secrets = λ n. "random";
  digest = λ s. s;
  urlsafe_digest = λ s. s;
  jwt_encode = λ claims. claims.email;
  lower = λ s. s;
}

abbrev empty_tables : Tables
empty_tables = record {
  registered_clients = [];
  oauth_sessions = [];
  auth_codes = [];
  refresh_tokens = [];
  web_sessions = [];
  revoked_tokens = [];
}

abbrev empty_db : OauthDb
empty_db = record { env = open_env; committed = empty_tables; pending = empty_tables; calls = 0 }

abbrev public_client : ClientMetadata
public_client = record {
  redirect_uris = some ("https://client.example/cb" ∷ []);
  client_name = "Connector";
  grant_types = "authorization_code" ∷ [];
  response_types = "code" ∷ [];
  token_endpoint_auth_method = "none";
  scope = "mcp";
}

-- Every body is this client's, and every URL its redirect URI.
abbrev one_client : Libraries
one_client = record {
  model_validate_json = λ raw. ok public_client;
  as_delivered = λ uri.
      some (record {
        scheme = "https";
        username = none;
        password = none;
        host = some "client.example";
      });
}

-- The endpoints open to evaluation: a test names this alone on its line.
sign_in_evaluated : Unit {0}
unfolding register validate_registration_body validate_auth_method validate_redirect_uris
    store_registration utf8_length redirect_uri_is_safe missing_sign_in_settings begin_sign_in
    authorize confirm uuid4 token_urlsafe on_store cleanup_and_store cleanup_and_get purge_expired
    make_room now_utc commit pure lift gets modify guard or_raise map_error for_each ◌>>=◌
sign_in_evaluated = tt

registered :
    (response : RegistrationResponse) × (t : OauthDb) × (register one_client "{}" empty_db
      ≡ (ok response, t))
unfolding sign_in_evaluated
registered = (_, _, refl)

abbrev reli_settings : Settings
reli_settings = record {
  secret_key_configured = true;
  allowed_emails = [];
  base_url = "https://reli.example";
}

abbrev sign_in : SignInSettings
sign_in = record {
  settings = reli_settings;
  google_client_id = "id";
  google_client_secret = "secret";
  google_auth_redirect_uri = "https://reli.example/cb";
  allowed_emails_setting = "owner@example.com";
}

abbrev query : AuthorizeQuery
query = record {
  client_id = "client";
  redirect_uri = "https://client.example/cb";
  state = "state";
  code_challenge = "challenge";
  code_challenge_method = "S256";
  scope = "mcp";
  response_type = "code";
}

shown :
    (page : ConsentPage) × (t : OauthDb) × (authorize sign_in one_client query registered.1
      ≡ (ok page, t))
unfolding sign_in_evaluated registered
shown = (_, _, refl)

approved :
    (redirect : ConfirmRedirect) × (t : OauthDb) × (confirm reli_settings
        (some "https://reli.example")
        "random"
        shown.1
      ≡ (ok redirect, t))
unfolding sign_in_evaluated registered shown
approved = (_, _, refl)

confirm-Confirmed_example :
    Confirmed reli_settings (some "https://reli.example") "random" shown.1 approved.0 approved.1
confirm-Confirmed_example =
    confirm-Confirmed reli_settings (some "https://reli.example") "random" shown.1 approved.0
      approved.1 approved.2
