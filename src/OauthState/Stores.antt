-- ===== src/OauthState/Stores.antt =====
-- The `Store` of backend/oauth_state.py and its purge, insert, lookup, pop and extension.
use reli.Prelude.{
  ℕ, suc, ◌+◌, ◌-◌, String, Bool, true, false, ◌&&◌, not, Option, none, some, List, [], ◌∷◌, ◌++◌,
  ◌==◌, String_equals, if◌then◌else◌, contains, filter, map, take, length, ltb, leb, sort,
}
use reli.Result.{ok}
use reli.Exec.{Exec, pure, raise, gets, modify, ◌>>=◌, ◌>>◌}
use reli.OauthState.Records.{
  Row, Tables, OauthDb, StoreFull, store_full, McpRegisteredClient, McpOauthSession, McpAuthCode,
  McpRefreshToken, WebOauthSession, RevokedToken,
}

abbrev pub Action : Type 0 → Type 0
Action A = Exec OauthDb StoreFull A

-- `rows` and `with_rows` stand for the model class: the table that the statements name.
pub record Store (V : Type 0) : Type 0 where
  pub rows : Tables → List (Row V)
  pub with_rows : Tables → List (Row V) → Tables
  pub max_entries : ℕ
  pub evicts : Bool
  pub hashes_keys : Bool

abbrev pub max_entries_default : ℕ
max_entries_default = 10_000

abbrev pub mcp_registered_clients : Store McpRegisteredClient
mcp_registered_clients = record {
  rows = λ t. t.registered_clients;
  with_rows = λ t rows. record t { registered_clients = rows };
  max_entries = 100;
  evicts = true;
  hashes_keys = false;
}

abbrev pub mcp_oauth_sessions : Store McpOauthSession
mcp_oauth_sessions = record {
  rows = λ t. t.oauth_sessions;
  with_rows = λ t rows. record t { oauth_sessions = rows };
  max_entries = max_entries_default;
  evicts = true;
  hashes_keys = false;
}

abbrev pub mcp_auth_codes : Store McpAuthCode
mcp_auth_codes = record {
  rows = λ t. t.auth_codes;
  with_rows = λ t rows. record t { auth_codes = rows };
  max_entries = max_entries_default;
  evicts = false;
  hashes_keys = true;
}

abbrev pub mcp_refresh_tokens : Store McpRefreshToken
mcp_refresh_tokens = record {
  rows = λ t. t.refresh_tokens;
  with_rows = λ t rows. record t { refresh_tokens = rows };
  max_entries = max_entries_default;
  evicts = false;
  hashes_keys = true;
}

abbrev pub web_oauth_sessions : Store WebOauthSession
web_oauth_sessions = record {
  rows = λ t. t.web_sessions;
  with_rows = λ t rows. record t { web_sessions = rows };
  max_entries = max_entries_default;
  evicts = true;
  hashes_keys = false;
}

abbrev pub revoked_tokens : Store RevokedToken
revoked_tokens = record {
  rows = λ t. t.revoked_tokens;
  with_rows = λ t rows. record t { revoked_tokens = rows };
  max_entries = max_entries_default;
  evicts = false;
  hashes_keys = false;
}

-- `datetime.now(UTC)`
unfoldable pub now_utc : Action ℕ
now_utc db = (ok (db.env.times db.calls), record db { calls = suc db.calls })

unfoldable pub commit : Action Unit
commit db = (ok tt, record db { committed = db.pending })

unfoldable pub rollback : Action Unit
rollback db = (ok tt, record db { pending = db.committed })

abbrev pub greatest : ℕ → ℕ → ℕ
greatest a b = if ltb a b then b else a

module _ {V : Type 0} where
  -- `expires_at > now`
  abbrev pub is_live : ℕ → Row V → Bool
  is_live now row = ltb now row.expires_at

  abbrev pub has_key : String → Row V → Bool
  has_key key row = row.key == key

  -- `where(pk != key)`
  abbrev pub others : String → List (Row V) → List (Row V)
  others key = filter λ row. not (has_key key row)

  -- The row under a primary key.
  abbrev pub find_row : String → List (Row V) → Option (Row V)
  find_row key [] = none
  find_row key (row ∷ rows) = if has_key key row then some row else find_row key rows

  abbrev pub expires_first : Row V → Row V → Bool
  expires_first a b = leb a.expires_at b.expires_at

  abbrev pub row_keys : List (Row V) → List String
  row_keys = map λ row. row.key

  abbrev pub nearest_rows : String → ℕ → List (Row V) → List (Row V)
  nearest_rows key n rows = take n (sort expires_first (others key rows))

  -- `select(pk).where(pk != key).order_by(expires_at).limit(n)`
  abbrev pub nearest_expiry : String → ℕ → List (Row V) → List String
  nearest_expiry key n rows = row_keys (nearest_rows key n rows)

  -- `delete(model).where(pk.in_(keys))`
  abbrev pub delete_keys : List String → List (Row V) → List (Row V)
  delete_keys keys = filter λ row. not (contains row.key keys)

  -- The existing row is deleted before the new one is added.
  abbrev pub replace_row : Row V → List (Row V) → List (Row V)
  replace_row row rows = others row.key rows ++ row ∷ []

  -- `DELETE … WHERE pk = key AND expires_at > now RETURNING *`
  abbrev pub take_live : String → ℕ → List (Row V) → Option (Row V)
  take_live key now rows = find_row key (filter (is_live now) rows)

  abbrev pub extended : String → ℕ → Row V → Row V
  extended key expires_at row =
      if has_key key row
      then record row { expires_at = greatest row.expires_at expires_at }
      else row

module _ {V : Type 0} (store : Store V) where
  abbrev pub stored_key : OauthDb → String → String
  stored_key db key = if store.hashes_keys then db.env.digest key else key

  abbrev pub stored_rows : OauthDb → List (Row V)
  stored_rows db = store.rows db.pending

  abbrev pub set_rows : (List (Row V) → List (Row V)) → Action Unit
  set_rows f =
      modify λ db. record db { pending = store.with_rows db.pending (f (store.rows db.pending)) }

  unfoldable pub purge_expired : Action Unit
  unfolding now_utc
  purge_expired = do now ← now_utc; set_rows (filter (is_live now))

  -- Room for one more row besides `key`, by eviction or by refusing.
  unfoldable pub make_room : String → Action Unit
  unfolding rollback
  make_room key = do
    rows ← gets stored_rows
    let count = length (others key rows) in
        if leb store.max_entries count
        then (if store.evicts
            then set_rows (delete_keys (nearest_expiry key (count - store.max_entries + 1) rows))
            else (do rollback; raise (store_full store.max_entries)))
        else pure tt

  unfoldable pub cleanup_and_store : String → V → ℕ → Action Unit
  unfolding purge_expired make_room commit
  cleanup_and_store key values expires_at = do
    key ← gets (λ db. stored_key db key)
    purge_expired
    make_room key
    set_rows (replace_row (record { key = key; values = values; expires_at = expires_at }))
    commit

  unfoldable pub cleanup_and_get : String → Action (Option (Row V))
  unfolding purge_expired commit
  cleanup_and_get key = do
    key ← gets (λ db. stored_key db key)
    purge_expired
    commit
    gets λ db. find_row key (stored_rows db)

  unfoldable pub cleanup_and_pop : String → Action (Option (Row V))
  unfolding purge_expired commit now_utc
  cleanup_and_pop key = do
    key ← gets (λ db. stored_key db key)
    purge_expired
    now ← now_utc
    row ← gets (λ db. take_live key now (stored_rows db))
    set_rows (filter (λ row. not (has_key key row && is_live now row)))
    commit
    pure row

  unfoldable pub extend_expiry : String → ℕ → Action Unit
  unfolding commit
  extend_expiry key expires_at = do
    key ← gets (λ db. stored_key db key)
    set_rows (map (extended key expires_at))
    commit
