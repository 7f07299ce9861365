-- ===== src/Examples/Stores.antt =====
-- backend/oauth_state.py on small tables.
use reli.Prelude.{ℕ, List, ◌≡◌, refl, some, none, [], ◌∷◌, arith}
use reli.Result.{ok}
use reli.OauthState.Records.{
  Row, Tables, Env, OauthDb, McpAuthCode, McpRefreshToken, WebOauthSession,
}
use reli.OauthState.Stores.{
  Store, mcp_auth_codes, web_oauth_sessions, cleanup_and_store, cleanup_and_pop, purge_expired,
  now_utc, make_room, commit,
}
use reli.OauthState.Tokens.{consume_refresh_token, revoke_refresh_token_family}
use reli.OauthState.Runs.{live_rows, mcp_auth_codes-IsTable, IsTable}
use reli.OauthState.Capped.{
  store_of, pop_of, extend_of, IsCapped, store_calls, store_calls-IsCapped, StoreCall,
}
use reli.OauthState.Once.{cleanup_and_pop-once}
use reli.OauthState.Eviction.{Evicts, cleanup_and_store-Evicts}
use reli.OauthState.Consumption.{
  Consumption, consume_refresh_token-once, consume_refresh_token-Consumption, Revocation,
  revoke_refresh_token_family-Revocation,
}
use reli.Exec.{pure, gets, modify, ◌>>=◌}

abbrev no_tables : Tables
no_tables = record {
  registered_clients = [];
  oauth_sessions = [];
  auth_codes = [];
  refresh_tokens = [];
  web_sessions = [];
  revoked_tokens = [];
}

-- Nothing is hidden here: the digest is the value.
abbrev test_env : Env
test_env = record {
  times = λ n. n;
  uuids = λ n. "uuid";
  secrets = λ n. "secret";
  digest = λ s. s;
  urlsafe_digest = λ s. s;
  jwt_encode = λ claims. claims.email;
  lower = λ s. s;
}

abbrev db_of : Tables → OauthDb
db_of tables = record { env = test_env; committed = tables; pending = tables; calls = 0 }

abbrev some_code : McpAuthCode
some_code = record {
  subject = "1";
  email = "owner@example.com";
  code_challenge = "c";
  code_challenge_method = "S256";
  redirect_uri = "https://client.example";
  client_id = "client";
  scope = "mcp";
}

abbrev code_calls : List (StoreCall McpAuthCode)
code_calls = store_of "code" some_code 60 ∷ extend_of "code" 90 ∷ pop_of "code" ∷ []

store_calls-IsCapped_example :
    IsCapped mcp_auth_codes (store_calls mcp_auth_codes code_calls (db_of no_tables))
store_calls-IsCapped_example =
    store_calls-IsCapped mcp_auth_codes mcp_auth_codes-IsTable (omega arith) code_calls
      (db_of no_tables) (omega arith)

code_stored :
    (t : OauthDb) × (cleanup_and_store mcp_auth_codes "code" some_code 60 (db_of no_tables)
      ≡ (ok tt, t))
unfolding cleanup_and_store purge_expired now_utc make_room commit gets modify pure ◌>>=◌
code_stored = (_, refl)

cleanup_and_pop-once_example :
    ((cleanup_and_pop mcp_auth_codes "code" code_stored.0).0
      ≡ ok (some (record { key = "code"; values = some_code; expires_at = 60 })))
    × ((cleanup_and_pop mcp_auth_codes "code"
          (cleanup_and_pop mcp_auth_codes "code" code_stored.0).1).0
        ≡ ok none)
unfolding code_stored
cleanup_and_pop-once_example =
    cleanup_and_pop-once mcp_auth_codes mcp_auth_codes-IsTable (db_of no_tables) "code" some_code 60
      code_stored.0 code_stored.1 (omega arith) (omega arith) (omega arith)

-- A store of web sign-ins with room for one.
abbrev one_session : Store WebOauthSession
one_session = record web_oauth_sessions { max_entries = 1 }

one_session-IsTable : IsTable one_session
one_session-IsTable = record { rows-with_rows = λ t rows. refl; with_rows-twice = λ t a b. refl }

abbrev session_row : Row WebOauthSession
session_row = record {
  key = "first";
  values = record { google_code_verifier = "v" };
  expires_at = 50;
}

abbrev full_tables : Tables
full_tables = record no_tables { web_sessions = session_row ∷ [] }

cleanup_and_store-Evicts_example :
    (t : OauthDb) × (cleanup_and_store one_session "second"
        (record { google_code_verifier = "w" })
        70
        (db_of full_tables)
      ≡ (ok tt, t))
    × Evicts one_session
        (live_rows one_session (db_of full_tables))
        (record { key = "second"; values = record { google_code_verifier = "w" }; expires_at = 70 })
        t.committed.web_sessions
cleanup_and_store-Evicts_example =
    cleanup_and_store-Evicts one_session one_session-IsTable (db_of full_tables) "second"
      (record { google_code_verifier = "w" }) 70 (omega arith) refl (omega arith)

abbrev token_row : Row McpRefreshToken
token_row = record {
  key = "token";
  values = record {
    subject = some "1";
    email = some "owner@example.com";
    client_id = "client";
    scope = "mcp";
    family_id = "family";
    consumed_at = none;
  };
  expires_at = 50;
}

abbrev token_tables : Tables
token_tables = record no_tables { refresh_tokens = token_row ∷ [] }

token_consumed :
    (row : Row McpRefreshToken) × (t : OauthDb) × (consume_refresh_token "token"
        (db_of token_tables)
      ≡ (ok (some row), t))
unfolding consume_refresh_token purge_expired now_utc gets modify pure ◌>>=◌
token_consumed = (_, _, refl)

consume_refresh_token-Consumption_example :
    Consumption "token" (db_of token_tables) token_consumed.0 token_consumed.1
consume_refresh_token-Consumption_example =
    consume_refresh_token-Consumption "token" (db_of token_tables) token_consumed.0 token_consumed.1
      token_consumed.2

consume_refresh_token-once_example :
    (consume_refresh_token "token" (consume_refresh_token "token" (db_of token_tables)).1).0
    ≡ ok none
consume_refresh_token-once_example =
    consume_refresh_token-once "token" (db_of token_tables) (omega arith)

revoke_refresh_token_family-Revocation_example :
    (count : ℕ) × (t : OauthDb) × (revoke_refresh_token_family "family" (db_of token_tables)
      ≡ (ok count, t))
    × Revocation "family" (token_row ∷ []) count t.committed.refresh_tokens
revoke_refresh_token_family-Revocation_example =
    revoke_refresh_token_family-Revocation "family" (db_of token_tables)
