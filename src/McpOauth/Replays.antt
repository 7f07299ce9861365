-- ===== src/McpOauth/Replays.antt =====
-- The refusals of backend/mcp_oauth.py that matter: a replayed refresh token, and a wrong secret.
use reli.Prelude.{
  refl, ℕ, ◌≡◌, String, true, false, not, none, some, ◌==◌, String_equals, ◌&&◌, arith,
}
use reli.Result.{ok, err}
use reli.Exec.{pure, gets, raise, guard, or_raise, map_error, ◌>>=◌}
use reli.OauthState.Records.{Row, OauthDb, McpRefreshToken, McpRegisteredClient}
use reli.OauthState.Stores.{Store, stored_key, find_row, mcp_refresh_tokens, mcp_registered_clients}
use reli.OauthState.Tokens.{consume_refresh_token}
use reli.OauthState.Runs.{
  IsTable, live_rows, mcp_refresh_tokens-IsTable, mcp_registered_clients-IsTable,
}
use reli.OauthState.Consumption.{Revocation, revoke_refresh_token_family-Revocation}
use reli.McpOauth.Refusals.{Refusal, token_error, Settings, on_store, invalid_grant}
use reli.McpOauth.Tokens.{
  authenticated_grant, validate_client_secret, require_consumed, exchange_refresh_token,
  refresh_token_gone,
}
use reli.McpOauth.Grants.{on_store-get, is_authentic, grants_read, clients_read}

abbrev pub replayed : Refusal
replayed =
    invalid_grant
      "Refresh token already used: every token from that sign-in is revoked, re-authorise the connector"

-- When the client of a stored refresh token is authenticated and the token turns out to be consumed,
-- the exchange is refused, and what is committed holds no token of its family, every other token,
-- and no new one.
pub exchange_refresh_token-replayed :
    (settings : Settings) (token client_id client_secret : String) (db read open_db : OauthDb)
    (grant : Row McpRefreshToken)
    → (token == "") ≡ false
    → authenticated_grant mcp_refresh_tokens
        (λ v. v.client_id)
        token
        client_id
        client_secret
        refresh_token_gone
        db
      ≡ (ok grant, read)
    → consume_refresh_token token read ≡ (ok none, open_db)
    → (count : ℕ) × (t : OauthDb) × (exchange_refresh_token settings token client_id client_secret
          db
        ≡ (err replayed, t))
      × Revocation grant.values.family_id open_db.pending.refresh_tokens count
          t.committed.refresh_tokens
unfolding exchange_refresh_token require_consumed on_store map_error guard raise ◌>>=◌
exchange_refresh_token-replayed settings token client_id client_secret db read open_db grant given
      granted gone =
    let revoked = revoke_refresh_token_family-Revocation grant.values.family_id open_db in
    (revoked.0, revoked.1, ground (arith, given, granted, gone, revoked.2), revoked.3)

module _ {V : Type 0} (store : Store V) (h : IsTable store) (client_of : V → String) where
  authenticated_grant-refused :
      (key client_id client_secret gone : String) (db : OauthDb) (grant : Row V)
      (client : Row McpRegisteredClient)
      → find_row (stored_key store db key) (live_rows store db) ≡ some grant
      → (not (client_id == "") && client_id == client_of grant.values) ≡ true
      → find_row client_id (live_rows mcp_registered_clients (grants_read store db)) ≡ some client
      → is_authentic db client_secret client ≡ false
      → authenticated_grant store client_of key client_id client_secret gone db ≡ (
        err (
            token_error 401 "invalid_client"
              "Invalid client credentials: re-register the connector"),
        clients_read (grants_read store db),
      )
  unfolding authenticated_grant validate_client_secret gets guard or_raise pure ◌>>=◌
  authenticated_grant-refused key client_id client_secret gone db grant client found same registered
        barred =
      ground (
        arith,
        on_store-get store h key db,
        on_store-get mcp_registered_clients mcp_registered_clients-IsTable client_id
            (grants_read store db),
        found,
        same,
        registered,
        barred,
      )

-- A refresh token that is presented for its client, with a secret that is not the client's, is refused as
-- invalid_client and not consumed: what is committed of the refresh tokens is each of those that had not
-- expired, as it was.
pub exchange_refresh_token-unauthenticated :
    (settings : Settings) (token client_id client_secret : String) (db : OauthDb)
    (grant : Row McpRefreshToken) (client : Row McpRegisteredClient)
    → (token == "") ≡ false
    → find_row (db.env.digest token) (live_rows mcp_refresh_tokens db) ≡ some grant
    → (not (client_id == "") && client_id == grant.values.client_id) ≡ true
    → find_row client_id (live_rows mcp_registered_clients (grants_read mcp_refresh_tokens db))
      ≡ some client
    → is_authentic db client_secret client ≡ false
    → (t : OauthDb) × (exchange_refresh_token settings token client_id client_secret db ≡ (
      err (
          token_error 401 "invalid_client" "Invalid client credentials: re-register the connector"),
      t,
    ))
      × (t.committed.refresh_tokens ≡ live_rows mcp_refresh_tokens db)
unfolding exchange_refresh_token guard ◌>>=◌
exchange_refresh_token-unauthenticated settings token client_id client_secret db grant client given
      found same registered barred =
    let refused =
      authenticated_grant-refused mcp_refresh_tokens mcp_refresh_tokens-IsTable (λ v. v.client_id)
        token client_id client_secret refresh_token_gone db grant client found same registered
        barred in
    (clients_read (grants_read mcp_refresh_tokens db), ground (arith, given, refused), refl)
