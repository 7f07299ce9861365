-- ===== src/McpOauth/Grants.antt =====
-- What an authenticated grant of backend/mcp_oauth.py is known to be.
use reli.Prelude.{
  suc, ◌≡◌, refl, sym, ap, ◌∙◌, String, Bool, true, ◌||◌, ◌&&◌, not, some, ◌==◌, String_equals,
  Option-cases, Bool-cases, inl, inr, eq_of_equals, &&-cases, arith,
}
use reli.Result.{ok}
use reli.Exec.{pure, gets, guard, or_raise, map_error, ◌>>=◌}
use reli.Exec.Returns.{bind-returns}
use reli.OauthState.Records.{Row, OauthDb, McpRegisteredClient}
use reli.OauthState.Stores.{Store, stored_key, find_row, cleanup_and_get, mcp_registered_clients}
use reli.OauthState.Runs.{
  IsTable, live_rows, saved, cleanup_and_get-run, mcp_registered_clients-IsTable,
}
use reli.McpOauth.Refusals.{on_store}
use reli.McpOauth.Tokens.{validate_client_secret, authenticated_grant}

-- The client may act: it is public, or it presents its secret.
abbrev pub is_authentic : OauthDb → String → Row McpRegisteredClient → Bool
is_authentic db client_secret client =
    client.values.token_endpoint_auth_method == "none"
    || not (client_secret == "") && db.env.digest client_secret == client.values.client_secret

pub on_store-get :
    {V : Type 0} (store : Store V) (h : IsTable store) (key : String) (db : OauthDb)
    → on_store (cleanup_and_get store key) db ≡ (
      ok (find_row (stored_key store db key) (live_rows store db)),
      saved store db (suc db.calls) (live_rows store db),
    )
unfolding on_store map_error
on_store-get store h key db = rw (cleanup_and_get-run store h db key) refl

-- The session once the registrations are purged.
abbrev pub clients_read : OauthDb → OauthDb
clients_read db =
    saved mcp_registered_clients db (suc db.calls) (live_rows mcp_registered_clients db)

module _ (client_id client_secret : String) (db : OauthDb) where
  -- An authentication that passes has purged the registrations, and found the client's.
  validate_client_secret-ok :
      (t : OauthDb)
      → validate_client_secret client_id client_secret db ≡ (ok tt, t)
      → (t ≡ clients_read db)
        × (client : Row McpRegisteredClient) × (find_row client_id
              (live_rows mcp_registered_clients db)
            ≡ some client)
        × (is_authentic db client_secret client ≡ true)
  unfolding validate_client_secret gets guard or_raise ◌>>=◌
  validate_client_secret-ok t e =
      let run = on_store-get mcp_registered_clients mcp_registered_clients-IsTable client_id db in
      elim (Option-cases (find_row client_id (live_rows mcp_registered_clients db))) [
        | inl gone ↦ absurd (ground (arith, e, run, gone))
        | inr (client, found) ↦ elim (Bool-cases (is_authentic db client_secret client)) [
          | inl passes ↦ (ground (arith, e, run, found, passes), client, found, passes)
          | inr fails ↦ absurd (ground (arith, e, run, found, fails))
        ]
      ]

  -- The grant comes back from the authentication as it went in.
  authenticated-ok :
      {V : Type 0} (row grant : Row V) (t : OauthDb)
      → (validate_client_secret client_id client_secret >>= λ _. pure row) db ≡ (ok grant, t)
      → (row ≡ grant)
        × (t ≡ clients_read db)
        × (client : Row McpRegisteredClient) × (find_row client_id
              (live_rows mcp_registered_clients db)
            ≡ some client)
        × (is_authentic db client_secret client ≡ true)
  unfolding pure
  authenticated-ok row grant t e =
      let parts =
        bind-returns (validate_client_secret client_id client_secret) (λ _. pure row) db grant t
          e in
      let passed = validate_client_secret-ok parts.1 parts.2 in
      let same : (row ≡ grant) × (parts.1 ≡ t) = ground (arith, parts.3) in
      (same.0, sym same.1 ∙ passed.0, passed.1, passed.2, passed.3)

-- The session once the grants of a store are purged.
abbrev pub grants_read : {V : Type 0} → Store V → OauthDb → OauthDb
grants_read store db = saved store db (suc db.calls) (live_rows store db)

-- A grant that is handed on: stored under the key, live, of this client, which is authentic.
pub record Granted {V : Type 0} (store : Store V) (client_of : V → String)
    (key client_id client_secret : String) (db : OauthDb) (grant : Row V) (t : OauthDb)
    : Type 0 where
  pub found : find_row (stored_key store db key) (live_rows store db) ≡ some grant
  pub of_client : client_id ≡ client_of grant.values
  pub client : Row McpRegisteredClient
  pub registered :
      find_row client_id (live_rows mcp_registered_clients (grants_read store db)) ≡ some client
  pub authentic : is_authentic db client_secret client ≡ true
  pub after : t ≡ clients_read (grants_read store db)

module _ {V : Type 0} (store : Store V) (h : IsTable store) (client_of : V → String) where
  pub authenticated_grant-Granted :
      (key client_id client_secret gone : String) (db : OauthDb) (grant : Row V) (t : OauthDb)
      → authenticated_grant store client_of key client_id client_secret gone db ≡ (ok grant, t)
      → Granted store client_of key client_id client_secret db grant t
  unfolding authenticated_grant gets guard or_raise pure ◌>>=◌
  authenticated_grant-Granted key client_id client_secret gone db grant t e =
      let run = on_store-get store h key db in
      elim (Option-cases (find_row (stored_key store db key) (live_rows store db))) [
        | inl missing ↦ absurd (ground (arith, e, run, missing))
        | inr (row, found) ↦
            elim (Bool-cases (not (client_id == "") && client_id == client_of row.values)) [
              | inr other ↦ absurd (ground (arith, e, run, found, other))
              | inl same ↦
                  let parts =
                    authenticated-ok client_id client_secret (grants_read store db) row grant t
                      (ground (arith, e, run, found, same)) in
                  record {
                    found = found ∙ ap some parts.0;
                    of_client =
                        eq_of_equals _ _ (&&-cases _ _ same).1
                        ∙ ap (λ r. client_of r.values) parts.0;
                    client = parts.2;
                    registered = parts.3;
                    authentic = parts.4;
                    after = parts.1;
                  }
            ]
      ]
