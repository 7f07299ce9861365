-- ===== src/Examples/Tokens.antt =====
-- `POST /oauth/token` of backend/mcp_oauth.py on small tables.
use reli.McpOauth.Anonymous.Served.{token_requests, token_requests-IsAnonymous}
use reli.OauthState.Consumption.{IsAnonymous}
use reli.Prelude.{All, ℕ, ◌≡◌, refl, true, some, none, [], ◌∷◌}
use reli.Result.{ok, err}
use reli.Exec.{pure, raise, gets, modify, guard, or_raise, map_error, ◌>>=◌}
use reli.OauthState.Records.{
  Row, Tables, Env, OauthDb, McpRegisteredClient, McpAuthCode, McpRefreshToken,
}
use reli.OauthState.Stores.{
  mcp_refresh_tokens, purge_expired, make_room, cleanup_and_store, cleanup_and_get, cleanup_and_pop,
  extend_expiry, now_utc, commit,
}
use reli.OauthState.Tokens.{consume_refresh_token, revoke_refresh_token_family}
use reli.OauthState.Runs.{live_rows}
use reli.OauthState.Consumption.{Revocation}
use reli.McpOauth.Refusals.{Settings, on_store, token_error}
use reli.McpOauth.Tokens.{
  TokenForm, uuid4, token_urlsafe, validate_client_secret, mint_access_token, require_allowed,
  issue_token_response, authenticated_grant, require_consumed, exchange_refresh_token,
  exchange_authorization_code, check_verifier, exchange, oauth_token, refresh_token_gone,
}
use reli.McpOauth.Replays.{
  replayed, exchange_refresh_token-replayed, exchange_refresh_token-unauthenticated,
}

abbrev clear_env : Env
clear_env = record {
  times = λ n. n;
  uuids = λ n. "uuid";
  secrets = λ n. "fresh";
  digest = λ s. s;
  urlsafe_digest = λ s. s;
  jwt_encode = λ claims. claims.email;
  lower = λ s. s;
}

abbrev owner_settings : Settings
owner_settings = record {
  secret_key_configured = true;
  allowed_emails = "owner@example.com" ∷ [];
  base_url = "https://reli.example";
}

abbrev connector : Row McpRegisteredClient
connector = record {
  key = "client";
  values = record {
    client_secret = "s3cret";
    redirect_uris = "https://client.example" ∷ [];
    client_name = "Connector";
    grant_types = "authorization_code" ∷ [];
    response_types = "code" ∷ [];
    token_endpoint_auth_method = "client_secret_post";
    scope = "mcp";
  };
  expires_at = 100;
}

abbrev live_token : Row McpRefreshToken
live_token = record {
  key = "token";
  values = record {
    subject = some "1";
    email = some "owner@example.com";
    client_id = "client";
    scope = "mcp";
    family_id = "family";
    consumed_at = none;
  };
  expires_at = 50;
}

abbrev used_token : Row McpRefreshToken
used_token = record live_token {
  key = "used";
  values = record live_token.values { subject = none; email = none; consumed_at = some 0 };
}

abbrev live_code : Row McpAuthCode
live_code = record {
  key = "code";
  values = record {
    subject = "1";
    email = "owner@example.com";
    code_challenge = "verifier";
    code_challenge_method = "S256";
    redirect_uri = "https://client.example";
    client_id = "client";
    scope = "mcp";
  };
  expires_at = 60;
}

abbrev granted_tables : Tables
granted_tables = record {
  registered_clients = connector ∷ [];
  oauth_sessions = [];
  auth_codes = live_code ∷ [];
  refresh_tokens = live_token ∷ used_token ∷ [];
  web_sessions = [];
  revoked_tokens = [];
}

abbrev granted_db : OauthDb
granted_db = record {
  env = clear_env;
  committed = granted_tables;
  pending = granted_tables;
  calls = 0;
}

-- The endpoint open to evaluation: a test names this alone on its line.
endpoint_evaluated : Unit {0}
unfolding oauth_token exchange exchange_refresh_token exchange_authorization_code
    authenticated_grant validate_client_secret require_consumed check_verifier issue_token_response
    require_allowed mint_access_token token_urlsafe uuid4 on_store cleanup_and_store cleanup_and_get
    cleanup_and_pop extend_expiry purge_expired make_room now_utc commit consume_refresh_token
    revoke_refresh_token_family pure raise gets modify guard or_raise map_error ◌>>=◌
endpoint_evaluated = tt

abbrev refresh_form : TokenForm
refresh_form = record {
  grant_type = "refresh_token";
  code = "";
  redirect_uri = "";
  client_id = "client";
  client_secret = "s3cret";
  code_verifier = "";
  refresh_token = "token";
}

used_granted :
    (read : OauthDb) × (authenticated_grant mcp_refresh_tokens
        (λ v. v.client_id)
        "used"
        "client"
        "s3cret"
        refresh_token_gone
        granted_db
      ≡ (ok used_token, read))
    × (open_db : OauthDb) × (consume_refresh_token "used" read ≡ (ok none, open_db))
unfolding endpoint_evaluated
used_granted = (_, refl, _, refl)

exchange_refresh_token-replayed_example :
    (count : ℕ) × (t : OauthDb) × (exchange_refresh_token owner_settings "used" "client" "s3cret"
        granted_db
      ≡ (err replayed, t))
    × Revocation "family" used_granted.2.pending.refresh_tokens count t.committed.refresh_tokens
exchange_refresh_token-replayed_example =
    exchange_refresh_token-replayed owner_settings "used" "client" "s3cret" granted_db
      used_granted.0 used_granted.2 used_token refl used_granted.1 used_granted.3

exchange_refresh_token-unauthenticated_example :
    (t : OauthDb) × (exchange_refresh_token owner_settings "token" "client" "wrong" granted_db ≡ (
      err (
          token_error 401 "invalid_client" "Invalid client credentials: re-register the connector"),
      t,
    ))
    × (t.committed.refresh_tokens ≡ live_rows mcp_refresh_tokens granted_db)
exchange_refresh_token-unauthenticated_example =
    exchange_refresh_token-unauthenticated owner_settings "token" "client" "wrong" granted_db
      live_token connector refl refl refl refl refl

granted-IsAnonymous : All IsAnonymous granted_db.committed.refresh_tokens
granted-IsAnonymous = ((λ consumed. absurd cc), ((λ consumed. (refl, refl)), tt))

token_requests-IsAnonymous_example :
    All IsAnonymous
      (token_requests owner_settings
        (refresh_form ∷ refresh_form ∷ [])
        granted_db).committed.refresh_tokens
token_requests-IsAnonymous_example =
    token_requests-IsAnonymous owner_settings (refresh_form ∷ refresh_form ∷ []) granted_db
      granted-IsAnonymous
