-- ===== src/OauthState/Runs.antt =====
-- What the operations of a store do to the session, on each of their outcomes.
use reli.Prelude.{
  subst, contains, In, filter-In, String_equals, ℕ, suc, ◌+◌, ◌-◌, ◌⊎◌, ◌≡◌, refl, String, ◌&&◌,
  not, Option, none, some, List, if◌then◌else◌, inl, inr, filter, map, length, leb, arith,
}
use reli.Result.{ok, err}
use reli.Exec.{pure, raise, gets, modify, ◌>>=◌}
use reli.OauthState.Records.{Row, Tables, OauthDb, store_full}
use reli.OauthState.Stores.{
  Store, mcp_registered_clients, mcp_oauth_sessions, mcp_auth_codes, mcp_refresh_tokens,
  web_oauth_sessions, revoked_tokens, has_key, is_live, others, nearest_expiry, delete_keys,
  stored_key, stored_rows, purge_expired, make_room, replace_row, cleanup_and_store, find_row,
  cleanup_and_get, take_live, cleanup_and_pop, extended, extend_expiry, commit, rollback, now_utc,
}

-- The rows of a store are one of the session's tables: what is written to it is what is read.
pub record IsTable {V : Type 0} (store : Store V) : Type 0 where
  pub rows-with_rows :
      (t : Tables) (rows : List (Row V)) → store.rows (store.with_rows t rows) ≡ rows
  pub with_rows-twice :
      (t : Tables) (a b : List (Row V))
      → store.with_rows (store.with_rows t a) b ≡ store.with_rows t b

module _ {V : Type 0} (store : Store V) where
  -- The rows that the purge at the next reading of the clock leaves.
  abbrev pub live_rows : OauthDb → List (Row V)
  live_rows db = filter (is_live (db.env.times db.calls)) (stored_rows store db)

  -- The rows beside which the new one is stored, if it is not refused.
  abbrev pub room_for : String → List (Row V) → Option (List (Row V))
  room_for key rows =
      if leb store.max_entries (length (others key rows))
      then if store.evicts
        then some (
            delete_keys (nearest_expiry key (length (others key rows) - store.max_entries + 1) rows)
              rows)
        else none
      else some rows

  -- The session after a commit of the store's rows, when the clock has been read `calls` times.
  abbrev pub saved : OauthDb → ℕ → List (Row V) → OauthDb
  saved db calls rows = record db {
    committed = store.with_rows db.pending rows;
    pending = store.with_rows db.pending rows;
    calls = calls;
  }

room_cases :
    {V : Type 0} (store : Store V) (key : String) (rows room : List (Row V))
    → room_for store key rows ≡ some room
    → (room ≡ rows)
      ⊎ (room
          ≡ delete_keys
              (nearest_expiry key (length (others key rows) - store.max_entries + 1) rows)
              rows)
room_cases store key rows room e = ground (arith, e)

-- Room is made from the rows that are there.
pub room_for-In :
    {V : Type 0} (store : Store V) (key : String) (rows room : List (Row V)) (row : Row V)
    → room_for store key rows ≡ some room
    → In row room
    → In row rows
room_for-In store key rows room row e m =
    let n = length (others key rows) - store.max_entries + 1 in
    elim (room_cases store key rows room e) [
      | inl same ↦ subst (In row) same m
      | inr evicted ↦
          (filter-In (λ r. not (contains r.key (nearest_expiry key n rows))) row rows
            (subst (In row) evicted m)).0
    ]

module _ {V : Type 0} (store : Store V) (db : OauthDb) (key : String) where
  -- Room is made by an eviction, or was there.
  make_room-kept :
      (room : List (Row V))
      → room_for store key (stored_rows store db) ≡ some room
      → (make_room store key db ≡ (ok tt, record db { pending = store.with_rows db.pending room }))
        ⊎ ((make_room store key db ≡ (ok tt, db)) × (room ≡ stored_rows store db))
  unfolding make_room rollback gets pure modify raise ◌>>=◌
  make_room-kept room e = ground (arith, e)

  make_room-refused :
      room_for store key (stored_rows store db) ≡ none
      → make_room store key db
        ≡ (err (store_full store.max_entries), record db { pending = db.committed })
  unfolding make_room rollback gets pure modify raise ◌>>=◌
  make_room-refused e = ground (arith, e)

module _ {V : Type 0} (store : Store V) (h : IsTable store) (db : OauthDb) (key : String) where
  abbrev purged : OauthDb
  purged = record db {
    pending = store.with_rows db.pending (live_rows store db);
    calls = suc db.calls;
  }

  abbrev row_to_store : V → ℕ → Row V
  row_to_store values expires_at = record {
    key = stored_key store db key;
    values = values;
    expires_at = expires_at;
  }

  pub cleanup_and_store-kept :
      (values : V) (expires_at : ℕ) (room : List (Row V))
      → room_for store (stored_key store db key) (live_rows store db) ≡ some room
      → cleanup_and_store store key values expires_at db
        ≡ (ok tt, saved store db (suc db.calls) (replace_row (row_to_store values expires_at) room))
  unfolding cleanup_and_store purge_expired now_utc commit gets pure modify ◌>>=◌
  cleanup_and_store-kept values expires_at room e =
      let read = h.rows-with_rows db.pending (live_rows store db) in
      elim (make_room-kept store purged (stored_key store db key) room (rw read e)) [
        | inl m ↦ rw m (simp (h.rows-with_rows, h.with_rows-twice))
        | inr (m, same) ↦ rw m (rw same (simp (h.rows-with_rows, h.with_rows-twice)))
      ]

  -- A refusal leaves nothing in the open transaction, the purge included.
  pub cleanup_and_store-refused :
      (values : V) (expires_at : ℕ)
      → room_for store (stored_key store db key) (live_rows store db) ≡ none
      → cleanup_and_store store key values expires_at db ≡ (
        err (store_full store.max_entries),
        record db { pending = db.committed; calls = suc db.calls },
      )
  unfolding cleanup_and_store purge_expired now_utc gets modify ◌>>=◌
  cleanup_and_store-refused values expires_at e =
      let read = h.rows-with_rows db.pending (live_rows store db) in
      rw (make_room-refused store purged (stored_key store db key) (rw read e)) refl

  pub cleanup_and_get-run : cleanup_and_get store key db ≡ (
    ok (find_row (stored_key store db key) (live_rows store db)),
    saved store db (suc db.calls) (live_rows store db),
  )
  unfolding cleanup_and_get purge_expired now_utc commit gets modify ◌>>=◌
  cleanup_and_get-run = rw (h.rows-with_rows db.pending (live_rows store db)) refl

  pub cleanup_and_pop-run :
      let k = stored_key store db key in
      let now = db.env.times (suc db.calls) in
      cleanup_and_pop store key db ≡ (
        ok (take_live k now (live_rows store db)),
        saved store db
            (suc (suc db.calls))
            (filter (λ row. not (has_key k row && is_live now row)) (live_rows store db)),
      )
  unfolding cleanup_and_pop purge_expired now_utc commit gets modify pure ◌>>=◌
  cleanup_and_pop-run =
      rw (h.rows-with_rows db.pending (live_rows store db))
        (rw (h.with_rows-twice db.pending (live_rows store db)) refl)

  pub extend_expiry-run :
      (expires_at : ℕ)
      → extend_expiry store key expires_at db ≡ (
        ok tt,
        saved store db db.calls
            (map (extended (stored_key store db key) expires_at) (stored_rows store db)),
      )
  unfolding extend_expiry commit gets modify ◌>>=◌
  extend_expiry-run expires_at = refl

pub mcp_registered_clients-IsTable : IsTable mcp_registered_clients
mcp_registered_clients-IsTable = record {
  rows-with_rows = λ t rows. refl;
  with_rows-twice = λ t a b. refl;
}

pub mcp_oauth_sessions-IsTable : IsTable mcp_oauth_sessions
mcp_oauth_sessions-IsTable = record {
  rows-with_rows = λ t rows. refl;
  with_rows-twice = λ t a b. refl;
}

pub mcp_auth_codes-IsTable : IsTable mcp_auth_codes
mcp_auth_codes-IsTable = record { rows-with_rows = λ t rows. refl; with_rows-twice = λ t a b. refl }

pub mcp_refresh_tokens-IsTable : IsTable mcp_refresh_tokens
mcp_refresh_tokens-IsTable = record {
  rows-with_rows = λ t rows. refl;
  with_rows-twice = λ t a b. refl;
}

pub web_oauth_sessions-IsTable : IsTable web_oauth_sessions
web_oauth_sessions-IsTable = record {
  rows-with_rows = λ t rows. refl;
  with_rows-twice = λ t a b. refl;
}

pub revoked_tokens-IsTable : IsTable revoked_tokens
revoked_tokens-IsTable = record { rows-with_rows = λ t rows. refl; with_rows-twice = λ t a b. refl }
